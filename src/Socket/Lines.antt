-- ===== src/Socket/Lines.antt =====
-- src/ivysocket.c, `HandleSocket`: a stream that comes in pieces, and the messages taken from it.
use libivy.Base.{
  ℕ, suc, ◌-◌, ◌+◌, ◌≤◌, ◌<◌, ◌≡◌, refl, sym, ap, ◌∙◌, ◌==◌, List, [], ◌∷◌, ◌++◌, Bytes, length,
  arith, length-append, append_assoc, append-nil, Bool-cases, inl, inr,
}
use libivy.Socket.Receive.{
  Receiver, Received, got, recv_failed, with_room, room, Handled, after_recv, handle_socket,
}
use libivy.Socket.Cutting.{split, and_then, split-append, cut_lines-split, Leaves, split-Leaves}

-- A receiver holds no terminator, and its buffer has a size and is not overrun.
pub record IsReceiver (c : Receiver) : Type 0 where
  pub partial : split c.terminator c.held ≡ ([], c.held)
  pub in_buffer : length c.held ≤ c.buffer_size
  pub has_size : 0 < c.buffer_size

-- `recvfrom` gives no more than it is asked for.
abbrev pub FitsIn : ℕ → Received → Type 0
FitsIn n (got bytes) = length bytes ≤ n
FitsIn n recv_failed = Unit {0}

-- what the answer adds to the stream
abbrev pub bytes_of : Received → Bytes
bytes_of (got bytes) = bytes
bytes_of recv_failed = []

pub record Handles (c : Receiver) (r : Received) (out : Handled) : Type 0 where
  pub delivered : (out.messages, out.client.held) ≡ split c.terminator (c.held ++ bytes_of r)
  pub sound : IsReceiver out.client
  pub same : out.client.terminator ≡ c.terminator

with_room-IsReceiver :
    (c : Receiver)
    → IsReceiver c
    → IsReceiver (with_room c)
      × ((with_room c).held ≡ c.held)
      × ((with_room c).terminator ≡ c.terminator)
unfolding with_room
with_room-IsReceiver c v = elim (Bool-cases (c.buffer_size - length c.held == 0)) [
  | inl e ↦ rw e (
    record {
      partial = v.partial;
      in_buffer = omega (arith, v.in_buffer);
      has_size = omega (arith, v.has_size);
    },
    refl,
    refl,
  )
  | inr e ↦ rw e (v, refl, refl)
]

-- The request is for a byte at least, so that an answer of none is the end of the stream, and for
-- no more than the buffer has room for.
room_lem :
    (c : Receiver)
    → IsReceiver c
    → (0 < room c) × (length (with_room c).held + room c ≡ (with_room c).buffer_size)
unfolding room with_room
room_lem c v = ground (arith, v.in_buffer, v.has_size)

after_recv-Handles :
    (c : Receiver) (r : Received)
    → IsReceiver c
    → FitsIn (c.buffer_size - length c.held) r
    → Handles c r (after_recv c r)
unfolding after_recv Leaves
after_recv-Handles c recv_failed v h = record {
  delivered = sym (ap (split c.terminator) (append-nil c.held) ∙ v.partial);
  sound = v;
  same = refl;
}
after_recv-Handles c (got []) v h = record {
  delivered = sym (ap (split c.terminator) (append-nil c.held) ∙ v.partial);
  sound = v;
  same = refl;
}
after_recv-Handles c (got (b ∷ bytes)) v h =
    let all = c.held ++ (b ∷ bytes) in
    let k = cut_lines-split (suc (length all)) c.terminator all (omega arith) in
    let l = split-Leaves c.terminator all in
    record {
      delivered = k;
      sound = record {
        partial = rw k l.0;
        in_buffer = rw k (omega (arith, l.1, h, length-append c.held (b ∷ bytes)));
        has_size = v.has_size;
      };
      same = refl;
    }

-- One call of `HandleSocket` on a receiver with no whole message in its buffer, with an answer of
-- `recvfrom` of no more than is asked for, and a byte at least is asked for: the messages
-- delivered are those that the bytes held and received make up, and what stands behind the last
-- terminator is held. It has none, and fits the buffer.
handle_socket_lem :
    (c : Receiver) (answer : ℕ → Received)
    → IsReceiver c
    → FitsIn (room c) (answer (room c))
    → (0 < room c) × Handles c (answer (room c)) (handle_socket answer c)
unfolding handle_socket room
handle_socket_lem c answer v h =
    let w = with_room-IsReceiver c v in
    let a = after_recv-Handles (with_room c) (answer (room c)) w.0 h in
    (
      (room_lem c v).0,
      record { delivered = a.delivered ∙ rw (w.1, w.2) refl; sound = a.sound; same = a.same ∙ w.2 },
    )

-- The calls of `HandleSocket` for pieces of a stream: the messages, and the client they leave.
unfoldable pub receive_all : List Bytes → Receiver → List Bytes × Receiver
receive_all [] c = ([], c)
receive_all (b ∷ pieces) c =
    let h = handle_socket (λ n. got b) c in
    let later = receive_all pieces h.client in (h.messages ++ later.0, later.1)

-- each piece has a byte, and fits the room that there is when it comes
unfoldable pub AllFit : List Bytes → Receiver → Type 0
AllFit [] c = Unit
AllFit (b ∷ pieces) c =
    (0 < length b) × (length b ≤ room c) × AllFit pieces (handle_socket (λ n. got b) c).client

abbrev pub join : List Bytes → Bytes
join [] = []
join (b ∷ pieces) = b ++ join pieces

-- However a stream is cut into pieces, of a byte at least and of no more than there is room for,
-- the messages that a receiver with no whole message in its buffer delivers in all are those of
-- the whole stream, and what stands behind its last terminator is held.
pub receive_all_lem :
    (pieces : List Bytes) (c : Receiver)
    → IsReceiver c
    → AllFit pieces c
    → let out = receive_all pieces c in
      ((out.0, out.1.held) ≡ split c.terminator (c.held ++ join pieces)) × IsReceiver out.1
unfolding receive_all AllFit
receive_all_lem [] c v f = (sym (ap (split c.terminator) (append-nil c.held) ∙ v.partial), v)
receive_all_lem (b ∷ pieces) c v f =
    let a = (handle_socket_lem c (λ n. got b) v f.1).1 in
    let h = handle_socket (λ n. got b) c in
    let r = receive_all_lem pieces h.client a.sound f.2 in
    (
      ap (λ q. (h.messages ++ q.0, q.1))
            (r.0 ∙ ap (λ t. split t (h.client.held ++ join pieces)) a.same)
          ∙ ap (λ p. and_then c.terminator p (join pieces)) a.delivered
          ∙ sym (split-append c.terminator (c.held ++ b) (join pieces))
          ∙ ap (split c.terminator) (append_assoc c.held b (join pieces)),
      r.1,
    )
