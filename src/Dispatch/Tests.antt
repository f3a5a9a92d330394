-- ===== src/Dispatch/Tests.antt =====
-- A message for two subscribers of one regexp, and a regexp that does not compile.
use libivy.Base.{◌≡◌, refl, true, false, Option, none, some, List, [], ◌∷◌, Bytes, length}
use mathlib.Core.List.{Memᴰ}
use libivy.Registry.{Subscriber, Entry}
use libivy.Filter.{Filter}
use libivy.Dispatch.{
  check_buffer, body_of, call_clients, exec_binding, regexp_call, call_all, send_msg,
}
use libivy.Dispatch.Delivery.{frame_to, Due, send_msg-reaches, send_msg-Due}

-- a regexp matches all, and its groups are its text and the message
abbrev exec : Bytes → Bytes → Option (List Bytes)
exec b message = some (b ∷ message ∷ [])

abbrev ann : Subscriber
ann = record { client = 5; app_name = (b'x' ∷ []); app_port = 2010; id = 1 }

abbrev bob : Subscriber
bob = record { client = 6; app_name = (b'y' ∷ []); app_port = 2010; id = 4 }

abbrev entry : Entry Bytes
entry = record {
  regexp_src = (b'a' ∷ []);
  client_list = ann ∷ bob ∷ [];
  binding = some (b'a' ∷ []);
}

abbrev broken : Entry Bytes
broken = record { regexp_src = (b'(' ∷ []); client_list = ann ∷ []; binding = none }

abbrev filter : Filter
filter = record { words = []; has_extract = false }

send_msg-entry :
    (send_msg exec true true filter (b'h' ∷ b'i' ∷ []) (broken ∷ entry ∷ [])).match_count ≡ 2
unfolding send_msg check_buffer call_all regexp_call exec_binding call_clients
send_msg-entry = refl

hi-is_text : check_buffer (b'h' ∷ b'i' ∷ []) ≡ false
unfolding check_buffer
hi-is_text = refl

entry-matches :
    exec_binding exec entry.binding (b'h' ∷ b'i' ∷ [])
    ≡ some ((b'a' ∷ []) ∷ (b'h' ∷ b'i' ∷ []) ∷ [])
unfolding exec_binding
entry-matches = refl

send_msg-reaches_example :
    let out = send_msg exec true true filter (b'h' ∷ b'i' ∷ []) (broken ∷ entry ∷ []) in
    Memᴰ (frame_to (body_of ((b'a' ∷ []) ∷ (b'h' ∷ b'i' ∷ []) ∷ [])) bob) out.frames
    × (out.match_count ≡ length out.frames)
send_msg-reaches_example =
    send_msg-reaches exec (b'h' ∷ b'i' ∷ []) true true filter (broken ∷ entry ∷ []) hi-is_text
      (Memᴰ.tail (Memᴰ.head refl)) (Memᴰ.tail (Memᴰ.head refl)) entry-matches

bob-framed :
    Memᴰ
      (frame_to (body_of ((b'a' ∷ []) ∷ (b'h' ∷ b'i' ∷ []) ∷ [])) bob)
      (send_msg exec true true filter (b'h' ∷ b'i' ∷ []) (broken ∷ entry ∷ [])).frames
unfolding send_msg check_buffer call_all regexp_call exec_binding call_clients
bob-framed = Memᴰ.tail (Memᴰ.head refl)

send_msg-Due_example :
    Due exec
      (b'h' ∷ b'i' ∷ [])
      (broken ∷ entry ∷ [])
      (frame_to (body_of ((b'a' ∷ []) ∷ (b'h' ∷ b'i' ∷ []) ∷ [])) bob)
send_msg-Due_example =
    send_msg-Due exec (b'h' ∷ b'i' ∷ []) true true filter (broken ∷ entry ∷ []) bob-framed
