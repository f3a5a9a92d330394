-- ===== src/Dispatch/Delivery.antt =====
-- Who gets a message, and with what.
use libivy.Base.{
  ◌≡◌, refl, ap, Bool, false, ◌&&◌, Option, some, List, [], ◌∷◌, Bytes, length, length-append,
  arith, inl, inr, Option-cases, Bool-cases,
}
use mathlib.Core.List.{Memᴰ}
use mathlib.Core.List.Memᴰ
use mathlib.Core.Path.{subst}
use libivy.Registry.{Subscriber, Entry}
use libivy.Filter.{Filter}
use libivy.Dispatch.{
  Frame, check_buffer, body_of, call_clients, exec_binding, regexp_call, call_all, send_msg,
}

-- the frame for a subscriber
abbrev pub frame_to : Bytes → Subscriber → Frame
frame_to body s = record { client = s.client; id = s.id; body = body }

call_clients-reaches :
    (body : Bytes) {s : Subscriber} (clients : List Subscriber)
    → Memᴰ s clients
    → Memᴰ (frame_to body s) (call_clients body clients).0
unfolding call_clients
call_clients-reaches body [] m = absurd (Memᴰ.not-nil m)
call_clients-reaches body (x ∷ clients) (Memᴰ.head e) = Memᴰ.head (ap (frame_to body) e)
call_clients-reaches body (x ∷ clients) (Memᴰ.tail m) =
    Memᴰ.tail (call_clients-reaches body clients m)

call_clients-comes :
    (body : Bytes) {fr : Frame} (clients : List Subscriber)
    → Memᴰ fr (call_clients body clients).0
    → (s : Subscriber) × Memᴰ s clients × (fr ≡ frame_to body s)
unfolding call_clients
call_clients-comes body [] m = absurd (Memᴰ.not-nil m)
call_clients-comes body (x ∷ clients) (Memᴰ.head e) = (x, Memᴰ.head refl, e)
call_clients-comes body (x ∷ clients) (Memᴰ.tail m) =
    let (s, k, e) = call_clients-comes body clients m in (s, Memᴰ.tail k, e)

call_clients-counts :
    (body : Bytes) (clients : List Subscriber)
    → (call_clients body clients).1 ≡ length (call_clients body clients).0
unfolding call_clients
call_clients-counts body [] = refl
call_clients-counts body (x ∷ clients) = omega (arith, call_clients-counts body clients)

module _ {B : Type 0} (exec : B → Bytes → Option (List Bytes)) (message : Bytes) where
  -- A frame that a subscriber of an entry that matches is due.
  pub record Due (dict : List (Entry B)) (fr : Frame) : Type 0 where
    pub entry : Entry B
    pub recipient : Subscriber
    pub groups : List Bytes
    pub entry_in : Memᴰ entry dict
    pub recipient_in : Memᴰ recipient entry.client_list
    pub matches : exec_binding exec entry.binding message ≡ some groups
    pub framed : fr ≡ frame_to (body_of groups) recipient

  regexp_call-reaches :
      (e : Entry B) {s : Subscriber} {g : List Bytes}
      → Memᴰ s e.client_list
      → exec_binding exec e.binding message ≡ some g
      → Memᴰ (frame_to (body_of g) s) (regexp_call exec e message).0
  unfolding regexp_call
  regexp_call-reaches e {s} {g} m h =
      rw (h, regexp_call) (call_clients-reaches (body_of g) e.client_list m)

  at_entry :
      (x : Entry B) {e : Entry B} {s : Subscriber} {g : List Bytes}
      → e ≡ x
      → Memᴰ s e.client_list
      → exec_binding exec e.binding message ≡ some g
      → Memᴰ (frame_to (body_of g) s) (regexp_call exec x message).0
  at_entry x {e} {s} {g} k m h =
      subst (λ y. Memᴰ (frame_to (body_of g) s) (regexp_call exec y message).0) k
        (regexp_call-reaches e m h)

  call_all-reaches :
      (dict : List (Entry B)) {e : Entry B} {s : Subscriber} {g : List Bytes}
      → Memᴰ e dict
      → Memᴰ s e.client_list
      → exec_binding exec e.binding message ≡ some g
      → Memᴰ (frame_to (body_of g) s) (call_all exec message dict).0
  unfolding call_all
  call_all-reaches [] k m h = absurd (Memᴰ.not-nil k)
  call_all-reaches (x ∷ dict) {e} {s} {g} (Memᴰ.head k) m h = Memᴰ.append_left _ (at_entry x k m h)
  call_all-reaches (x ∷ dict) (Memᴰ.tail k) m h =
      Memᴰ.append_right (regexp_call exec x message).0 (call_all-reaches dict k m h)

  regexp_call-comes :
      (e : Entry B) {fr : Frame}
      → Memᴰ fr (regexp_call exec e message).0
      → (s : Subscriber) × (g : List Bytes) × Memᴰ s e.client_list
        × (exec_binding exec e.binding message ≡ some g)
        × (fr ≡ frame_to (body_of g) s)
  unfolding regexp_call
  regexp_call-comes e {fr} m = elim (Option-cases (exec_binding exec e.binding message)) [
    | inl a ↦ absurd (Memᴰ.not-nil (rw (a, regexp_call) at m))
    | inr (g, a) ↦
        let (s, k, f) = call_clients-comes (body_of g) e.client_list (rw (a, regexp_call) at m) in
        (s, g, k, a, f)
  ]

  call_all-comes :
      (dict : List (Entry B)) {fr : Frame} → Memᴰ fr (call_all exec message dict).0 → Due dict fr
  unfolding call_all
  call_all-comes [] m = absurd (Memᴰ.not-nil m)
  call_all-comes (x ∷ dict) m = elim (Memᴰ.append_cases (regexp_call exec x message).0 m) [
    | inl a ↦
        let (s, g, k, h, f) = regexp_call-comes x a in
        record {
          entry = x;
          recipient = s;
          groups = g;
          entry_in = Memᴰ.head refl;
          recipient_in = k;
          matches = h;
          framed = f;
        }
    | inr a ↦
        let d = call_all-comes dict a in
        record {
          entry = d.entry;
          recipient = d.recipient;
          groups = d.groups;
          entry_in = Memᴰ.tail d.entry_in;
          recipient_in = d.recipient_in;
          matches = d.matches;
          framed = d.framed;
        }
  ]

  regexp_call-counts :
      (e : Entry B) → (regexp_call exec e message).1 ≡ length (regexp_call exec e message).0
  unfolding regexp_call
  regexp_call-counts e = elim (Option-cases (exec_binding exec e.binding message)) [
    | inl a ↦ rw (a, regexp_call)
    | inr (g, a) ↦ rw (a, regexp_call) (call_clients-counts (body_of g) e.client_list)
  ]

  call_all-counts :
      (dict : List (Entry B))
      → (call_all exec message dict).1 ≡ length (call_all exec message dict).0
  unfolding call_all
  call_all-counts [] = refl
  call_all-counts (x ∷ dict) = omega (
    arith,
    regexp_call-counts x,
    call_all-counts dict,
    length-append (regexp_call exec x message).0 (call_all exec message dict).0,
  )

  -- A message that is not refused as binary goes to every subscriber of a regexp that matches it,
  -- with the subscriber's id and the groups of the match, and `match_count` is the number of the
  -- frames.
  pub send_msg-reaches :
      (binary debug : Bool) (f : Filter) (dict : List (Entry B)) {e : Entry B} {s : Subscriber}
      {g : List Bytes}
      → (binary && check_buffer message) ≡ false
      → Memᴰ e dict
      → Memᴰ s e.client_list
      → exec_binding exec e.binding message ≡ some g
      → let out = send_msg exec binary debug f message dict in
        Memᴰ (frame_to (body_of g) s) out.frames × (out.match_count ≡ length out.frames)
  unfolding send_msg
  send_msg-reaches binary debug f dict h k m a =
      rw h (call_all-reaches dict k m a, call_all-counts dict)

  -- Every frame of a message is for a subscriber of a regexp that matches it, with the
  -- subscriber's id and the groups of the match.
  pub send_msg-Due :
      (binary debug : Bool) (f : Filter) (dict : List (Entry B)) {fr : Frame}
      → Memᴰ fr (send_msg exec binary debug f message dict).frames
      → Due dict fr
  unfolding send_msg
  send_msg-Due binary debug f dict m = elim (Bool-cases (binary && check_buffer message)) [
    | inl e ↦ absurd (Memᴰ.not-nil (rw e at m))
    | inr e ↦ call_all-comes dict (rw e at m)
  ]
