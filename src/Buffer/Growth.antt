-- ===== src/Buffer/Growth.antt =====
-- src/ivybuffer.c: the loop of `make_message`, and the functions that send what it prints.
use libivy.Base.{
  ℕ, zero, suc, ◌+◌, ◌-◌, ◌*◌, ◌^◌, ◌<◌, ◌≡◌, ◌⊎◌, refl, ap, true, false, Option, none, some, [],
  ◌++◌, ◌==◌, ltb, Bytes, length, length-append, take_all, ltb→lt, arith, Bool-cases, inl, inr,
}
use libivy.Buffer.{IvyBuffer, with_data, print_loop, make_message, socket_send}

-- What `vsnprintf` is documented to answer: the length of the text, whatever the room, or, in old
-- libraries, that or a negative number, and the length where the text with its NUL has room.
pub record IsPrintf (text : Bytes) (vsnprintf : ℕ → Option ℕ) : Type 0 where
  pub counts : (room : ℕ) → (vsnprintf room ≡ none) ⊎ (vsnprintf room ≡ some (length text))
  pub fits : (room : ℕ) → length text < room → vsnprintf room ≡ some (length text)

-- the bytes before the offset, and room for one at least
pub record IsBuffer (b : IvyBuffer) : Type 0 where
  pub counted : length b.bytes ≡ b.offset
  pub has_room : b.offset < b.size

-- The text stands whole behind what was there, with room for its NUL.
pub record Printed (text : Bytes) (b : IvyBuffer) (out : Option (IvyBuffer × ℕ)) : Type 0 where
  pub buffer : IvyBuffer
  pub returns : out ≡ some (buffer, length text)
  pub content : buffer.bytes ≡ b.bytes ++ text
  pub sound : IsBuffer buffer

module _ (text : Bytes) (vsnprintf : ℕ → Option ℕ) (ok : IsPrintf text vsnprintf) where
  -- enough room
  print_once-Printed :
      (fuel : ℕ) (b : IvyBuffer)
      → IsBuffer b
      → b.offset + length text < b.size
      → Printed text b (print_loop text vsnprintf (suc fuel) b)
  unfolding print_loop
  print_once-Printed fuel b v h =
      let e = ok.fits (b.size - b.offset) (omega arith) in
      let l : ltb (length text) (b.size - b.offset) ≡ true = ground arith in
      record {
        buffer = record b { bytes = b.bytes ++ text; offset = b.offset + length text };
        returns = rw (e, print_loop) (rw l refl);
        content = refl;
        sound = record {
          counted = omega (arith, length-append b.bytes text, v.counted);
          has_room = omega (arith, h);
        };
      }

  resized :
      (size : ℕ) (b : IvyBuffer) {out : Option (IvyBuffer × ℕ)}
      → Printed text (record b { size = size }) out
      → Printed text b out
  resized size b p = record {
    buffer = p.buffer;
    returns = p.returns;
    content = p.content;
    sound = p.sound;
  }

  -- Each round that does not print gives more room.
  print_loop-Printed :
      (fuel : ℕ) (b : IvyBuffer)
      → IsBuffer b
      → b.offset + length text < 2 ^ 30
      → b.offset + length text < b.size + fuel
      → Printed text b (print_loop text vsnprintf (suc fuel) b)
  unfolding print_loop
  print_loop-Printed zero b v k h = print_once-Printed zero b v (omega (arith, h))
  print_loop-Printed (suc fuel) b v k h = elim (Bool-cases (ltb (b.offset + length text) b.size)) [
    | inl t ↦ print_once-Printed (suc fuel) b v (ltb→lt _ _ t)
    | inr t ↦ elim (ok.counts (b.size - b.offset)) [
      | inl e ↦
          let m : ltb (b.size * 2) (2 ^ 31) ≡ true = ground arith in
          rw (e, print_loop, m)
            (resized (b.size * 2) b (
              print_loop-Printed fuel (record b { size = b.size * 2 })
                (record { counted = v.counted; has_room = omega (arith, v.has_room) }) k
                (omega (arith, h, v.has_room))))
      | inr e ↦
          let l : ltb (length text) (b.size - b.offset) ≡ false = ground arith in
          let size = b.offset + length text + 1 in
          let m : ltb size (2 ^ 31) ≡ true = ground arith in
          rw (e, print_loop)
            (rw (l, m)
              (resized size b (
                print_loop-Printed fuel (record b { size = size })
                  (record { counted = v.counted; has_room = omega arith }) k (omega arith))))
    ]
  ]

  make_message-sized :
      (fuel : ℕ) (b : IvyBuffer)
      → IsBuffer b
      → b.offset + length text < 2 ^ 30
      → b.offset + length text < b.size + fuel
      → Printed text b (make_message text vsnprintf (suc fuel) b)
  unfolding make_message with_data
  make_message-sized fuel b v k h =
      let e : (b.size == 0) ≡ false = ground (arith, v.has_room) in
      rw e (print_loop-Printed fuel b v k h)

  -- Whatever is formatted, into a buffer with room for a byte behind its text, or into none, with
  -- fewer than 2^30 bytes in the buffer and the text: the loop of `make_message` ends, after no
  -- more
  -- rounds than there are bytes in both, and one, and no size that it asks for overflows an `int`.
  -- The text then stands whole behind what was there, with room for its NUL.
  pub make_message-Printed :
      (b : IvyBuffer)
      → IsBuffer (with_data b)
      → (with_data b).offset + length text < 2 ^ 30
      → Printed text
          (with_data b)
          (make_message text vsnprintf (suc ((with_data b).offset + length text)) b)
  unfolding make_message
  make_message-Printed b v k =
      print_loop-Printed ((with_data b).offset + length text) (with_data b) v k
        (omega (arith, v.has_room))

  -- What `SocketSend` sends, with a buffer that has room, is the text that is formatted, whole,
  -- after no more rounds of `make_message` than it has bytes, and one.
  socket_send-whole :
      (b : IvyBuffer)
      → 0 < b.size
      → length text < 2 ^ 30
      → (b' : IvyBuffer) × (socket_send text vsnprintf (suc (length text)) b ≡ some (b', text))
        × IsBuffer b'
  unfolding socket_send
  socket_send-whole b h k =
      let c = record b { bytes = []; offset = 0 } in
      let p =
        make_message-sized (length text) c (record { counted = refl; has_room = h })
          (omega (arith, k)) (omega (arith, h)) in
      (
        p.buffer,
        rw (p.returns, p.content)
            (ap (λ t. some (p.buffer, t)) (take_all (length text) text (omega arith))),
        p.sound,
      )
