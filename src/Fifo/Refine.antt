-- ===== src/Fifo/Refine.antt =====
-- src/ivyfifo.c, `IvyFifoWrite`: the write with its growth, against the queue of the bytes held.
use libivy.Base.{
  ℕ, zero, suc, ◌+◌, ◌-◌, ◌%◌, ◌^◌, ◌≤◌, ◌<◌, min, ◌≡◌, refl, ap, ◌∙◌, Bool, true, false, ◌++◌,
  arith, length, take, drop, ltb, leb, if◌then◌else◌, Bytes, Bool-cases, inl, inr, not,
}
use native.Mathlib.Decide.{dec_le, dec_lt}
use libivy.Fifo.{
  Fifo, Memory, fifo_length, avail, init, realloc, grown, write, write_loop, write_chunk,
}
use libivy.Fifo.Contents.{contents, IsValid, length-contents, fifo_length-lt-size}
use libivy.Fifo.Loops.{write_loop-Writes}
use libivy.Fifo.Growth.{
  IsMemory, blocks, lt-blocks, init-IsValid, IsSound, realloc_grows, realloc_refuses,
}

write_loop_keeps :
    (fuel : ℕ) (g : Fifo) (buf : Bytes)
    → ((write_loop fuel g buf).size ≡ g.size) × ((write_loop fuel g buf).full ≡ g.full)
unfolding write_loop write_chunk
write_loop_keeps zero g buf = (refl, refl)
write_loop_keeps (suc fuel) g buf =
    let k = min (g.size - g.wptr) (length buf) in
    ground (arith, write_loop_keeps fuel (write_chunk g (take k buf)) (drop k buf))

-- Whether `n` bytes go in: there is room and the fifo has not been found full, or the blocks for
-- all the bytes are within the bound.
abbrev pub takes : Memory → Fifo → ℕ → Bool
takes m f n =
    if ltb n (f.size - length (contents f))
    then not f.full
    else leb (blocks m (n + length (contents f))) m.limit

module _ {m : Memory} (ok : IsMemory m) {f : Fifo} (s : IsSound m f) where
  -- What a write of `buf` leaves when it is taken.
  record Taken (buf : Bytes) (g : Fifo) : Type 0 where
    bytes : contents g ≡ contents f ++ buf
    unmarked : g.full ≡ false
    sound : IsSound m g

  -- a write into `g`, which has the bytes of `f` and room for more
  write-write_loop :
      (buf : Bytes) (g : Fifo)
      → grown m f (length buf) ≡ g
      → g.full ≡ false
      → write m f buf ≡ write_loop (suc (length buf)) g buf
  unfolding write
  write-write_loop buf g e l = ground arith

  write_into :
      (buf : Bytes) (g : Fifo)
      → grown m f (length buf) ≡ g
      → g.full ≡ false
      → contents g ≡ contents f
      → IsValid g
      → g.size ≤ m.limit
      → length (contents g) + length buf < g.size
      → Taken buf (write m f buf)
  write_into buf g e l c v b r =
      let w =
        write_loop-Writes (suc (length buf)) buf (omega arith) (omega (arith, length-contents v))
          v in
      let k = write_loop_keeps (suc (length buf)) g buf in
      rw (write-write_loop buf g e l) (record {
        bytes = w.bytes ∙ ap (λ t. t ++ buf) c;
        unmarked = k.1 ∙ l;
        sound = record { valid = w.valid; bounded = omega arith };
      })

  module _ (buf : Bytes) (h : length buf < 2 ^ 31) where
    total_small : length buf + length (contents f) < 2 ^ 31 + 2 ^ 31 - 2 ^ 30
    total_small =
        omega
          (arith, length-contents s.valid, fifo_length-lt-size s.valid, s.bounded, ok.limit_small)

    grown-of-room : length buf < f.size - length (contents f) → grown m f (length buf) ≡ f
    unfolding grown avail
    grown-of-room r = ground (arith, length-contents s.valid)

    grown-realloc :
        f.size - length (contents f) ≤ length buf
        → grown m f (length buf) ≡ realloc m f (length buf + length (contents f))
    unfolding grown avail
    grown-realloc r =
        let l = length-contents s.valid in
        let b = ok.limit_small in
        let e = s.bounded in
        let z = fifo_length-lt-size s.valid in
        let w : (length buf + fifo_length f) % 2 ^ 32 ≡ length buf + length (contents f) =
          omega arith in
        rw (let t : leb (f.size - fifo_length f) (length buf) ≡ true = ground arith in t)
          (ap (realloc m f) w)

    write_in_room :
        length buf < f.size - length (contents f) → (f.full ≡ false) → Taken buf (write m f buf)
    write_in_room r e = write_into buf f (grown-of-room r) e refl s.valid s.bounded (omega arith)

    write_full : length buf < f.size - length (contents f) → (f.full ≡ true) → write m f buf ≡ f
    unfolding write
    write_full r e = ground (arith, grown-of-room r)

    write_grows :
        f.size - length (contents f) ≤ length buf
        → blocks m (length buf + length (contents f)) ≤ m.limit
        → Taken buf (write m f buf)
    write_grows r k =
        let g =
          realloc_grows ok s (length buf + length (contents f)) (total_small) (omega arith) k in
        write_into buf _ (grown-realloc r) g.unmarked g.bytes g.valid (omega arith) (
          omega (
            arith,
            ap length g.bytes,
            lt-blocks m.block (length buf + length (contents f)) ok.block_pos,
          ))

    write_refuses :
        f.size - length (contents f) ≤ length buf
        → m.limit < blocks m (length buf + length (contents f))
        → write m f buf ≡ record f { full = true }
    unfolding write
    write_refuses r k = ground (
      arith,
      grown-realloc r,
      realloc_refuses ok s (length buf + length (contents f)) total_small k,
    )

  marked_full :
      (contents (record f { full = true }) ≡ contents f) × IsSound m (record f { full = true })
  unfolding contents
  marked_full = (refl, omega (arith, s))

  -- On a valid fifo within its bound, `IvyFifoWrite` of fewer than 2^31 bytes queues all of them
  -- behind those that are there, or none of them; it marks the fifo full exactly when it takes
  -- none, and the fifo stays valid and within its bound.
  pub write_lem :
      (buf : Bytes)
      → length buf < 2 ^ 31
      → (contents (write m f buf)
          ≡ (if takes m f (length buf) then contents f ++ buf else contents f))
        × ((write m f buf).full ≡ not (takes m f (length buf)))
        × IsSound m (write m f buf)
  write_lem buf h = elim (dec_lt (length buf) (f.size - length (contents f))) [
    | yes r ↦ elim (Bool-cases f.full) [
      | inl e ↦ rw (write_full buf h r e) (ground arith)
      | inr e ↦
          let t = write_in_room buf h r e in
          (rw t.bytes (ground arith), rw t.unmarked (ground arith), t.sound)
    ]
    | no r ↦ elim (dec_le (blocks m (length buf + length (contents f))) m.limit) [
      | yes k ↦
          let t = write_grows buf h (omega arith) k in
          (rw t.bytes (ground arith), rw t.unmarked (ground arith), t.sound)
      | no k ↦
          rw (write_refuses buf h (omega arith) (omega arith))
            (ground (arith, marked_full.0), ground arith, marked_full.1)
    ]
  ]

module _ {m : Memory} (ok : IsMemory m) where
  pub init-IsSound : IsSound m (init m)
  unfolding init
  init-IsSound = record { valid = (init-IsValid ok).0; bounded = ok.block_in }

  -- A new fifo takes whatever leaves a block of the bound free.
  pub takes-init : (n : ℕ) → n + m.block ≤ m.limit → takes m (init m) n ≡ true
  takes-init n h =
      rw (init-IsValid ok).1 (unfold init in ground (arith, lt-blocks m.block n ok.block_pos))
