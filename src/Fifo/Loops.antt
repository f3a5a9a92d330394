-- ===== src/Fifo/Loops.antt =====
-- The loops of ivyfifo.c and their rounds: reading, writing and dropping.
use libivy.Base.{
  ℕ, zero, suc, ◌+◌, ◌-◌, ◌≤◌, ◌<◌, min, ◌≡◌, sym, ap, ◌∙◌, [], ◌++◌, append-nil, append_assoc,
  arith, length, take, drop, ltb, Bytes, read_at, length-append, length-take, length-drop, drop_all,
  drop-drop, Bool-cases, take-add, take-min, drop-min, take-append-drop, inl, inr,
}
use libivy.Fifo.{Fifo, fifo_length, drain, read_loop, generic_read, read, write_chunk, write_loop}
use libivy.Fifo.Contents.{
  contents, IsValid, length-contents, drain-IsValid, read_at-contents, contents-drain,
  contents-write_chunk, write_chunk-IsValid,
}

-- What a read of `n` bytes comes to.
pub record Reads (f : Fifo) (n : ℕ) (dest : Bytes) (out : Bytes × Fifo) : Type 0 where
  pub bytes : out.0 ≡ dest ++ take n (contents f)
  pub left : contents out.1 ≡ drop n (contents f)
  pub valid : IsValid out.1

module _ {f : Fifo} (k n : ℕ) (v : IsValid f) (h : k ≤ f.size - f.rptr) (kn : k ≤ n)
    (l : n ≤ fifo_length f) where
  -- one round of `k` bytes, and a read of the others from where it leaves off
  Reads-cons :
      (dest : Bytes) {out : Bytes × Fifo}
      → Reads (drain f k) (n - k) (dest ++ read_at f.buffer f.rptr k) out
      → Reads f n dest out
  Reads-cons dest r = record {
    bytes =
        r.bytes
        ∙ append_assoc dest _ _
        ∙ rw (contents-drain k v h (omega arith), read_at-contents k v h (omega arith))
            (ap (λ t. dest ++ t)
              (take-add k (n - k) (contents f) ∙ ap (λ j. take j (contents f)) (omega arith)));
    left =
        r.left
        ∙ rw (contents-drain k v h (omega arith))
            (drop-drop (n - k) k (contents f) ∙ ap (λ j. drop j (contents f)) (omega arith));
    valid = r.valid;
  }

  fifo_length-drain : n - k ≤ fifo_length (drain f k)
  fifo_length-drain = omega (
    arith,
    length-contents v,
    length-contents (drain-IsValid k v h),
    ap length (contents-drain k v h (omega arith)),
    length-drop k (contents f),
  )

Reads-zero : {f : Fifo} (n : ℕ) (dest : Bytes) → n ≡ 0 → IsValid f → Reads f n dest (dest, f)
Reads-zero {f} n dest e v = record { bytes = rw e (sym (append-nil dest)); left = rw e; valid = v }

read_loop-Reads :
    (fuel : ℕ) {f : Fifo} (n : ℕ) (dest : Bytes)
    → n < fuel
    → n ≤ fifo_length f
    → IsValid f
    → Reads f n dest (read_loop ◌++◌ fuel f n dest)
unfolding read_loop
read_loop-Reads zero n dest h l v = elim h [ ]
read_loop-Reads (suc fuel) {f} n dest h l v =
    let k : ℕ = min (f.size - f.rptr) n in
    let kn : k ≤ n = omega arith in
    let ks : k ≤ f.size - f.rptr = omega arith in
    elim (Bool-cases (ltb 0 (n - k))) [
      | inl more ↦ rw more (
          Reads-cons k n v ks kn l dest (
            read_loop-Reads fuel (n - k) _ (ground arith) (fifo_length-drain k n v ks kn l)
              (drain-IsValid k v ks)))
      | inr done ↦ rw done (
          Reads-cons k n v ks kn l dest
            (Reads-zero (n - k) _ (ground arith) (drain-IsValid k v ks)))
    ]

-- `IvyFifoRead` on a valid fifo copies out the oldest bytes, as many as asked for or as there
-- are, in their order, returns their number, and leaves the others queued.
pub read_lem :
    {f : Fifo} (n : ℕ)
    → IsValid f
    → let (bytes, f', count) = read f n in
      (bytes ≡ take n (contents f))
      × (contents f' ≡ drop n (contents f))
      × (count ≡ min n (length (contents f)))
      × IsValid f'
unfolding read generic_read
read_lem {f} n v =
    let k : ℕ = min n (fifo_length f) in
    let r : Reads f k [] (read_loop ◌++◌ (suc k) f k []) =
      read_loop-Reads (suc k) k [] (omega arith) (omega arith) v in
    (
      r.bytes ∙ rw (← length-contents v) (take-min n (contents f)),
      r.left ∙ rw (← length-contents v) (drop-min n (contents f)),
      rw (length-contents v),
      r.valid,
    )

-- What a write of `buf` comes to.
pub record Writes (f : Fifo) (buf : Bytes) (g : Fifo) : Type 0 where
  pub bytes : contents g ≡ contents f ++ buf
  pub valid : IsValid g

module _ {f : Fifo} (buf : Bytes) (k : ℕ) (v : IsValid f)
    (fit : length (take k buf) ≤ f.size - f.wptr)
    (room : fifo_length f + length (take k buf) < f.size) where
  Writes-cons : {g : Fifo} → Writes (write_chunk f (take k buf)) (drop k buf) g → Writes f buf g
  Writes-cons w = record {
    bytes =
        w.bytes
        ∙ rw (contents-write_chunk (take k buf) v fit room) (
            append_assoc (contents f) (take k buf) (drop k buf)
            ∙ ap (λ t. contents f ++ t) (take-append-drop k buf));
    valid = w.valid;
  }

  fifo_length-write_chunk :
      fifo_length f + length buf < f.size
      → fifo_length (write_chunk f (take k buf)) + length (drop k buf)
        < (write_chunk f (take k buf)).size
  unfolding write_chunk
  fifo_length-write_chunk l = omega (
    arith,
    length-contents v,
    length-contents (write_chunk-IsValid (take k buf) v fit room),
    ap length (contents-write_chunk (take k buf) v fit room),
    length-append (contents f) (take k buf),
    ap length (take-append-drop k buf),
    length-append (take k buf) (drop k buf),
  )

pub write_loop-Writes :
    (fuel : ℕ) {f : Fifo} (buf : Bytes)
    → length buf < fuel
    → fifo_length f + length buf < f.size
    → IsValid f
    → Writes f buf (write_loop fuel f buf)
unfolding write_loop
write_loop-Writes zero buf h l v = elim h [ ]
write_loop-Writes (suc fuel) {f} buf h l v =
    let k : ℕ = min (f.size - f.wptr) (length buf) in
    let kl : length (take k buf) ≡ k = omega (arith, length-take k buf) in
    let fit : length (take k buf) ≤ f.size - f.wptr = omega arith in
    let room : fifo_length f + length (take k buf) < f.size = omega arith in
    elim (Bool-cases (ltb 0 (length buf - k))) [
      | inl more ↦ rw more (
          Writes-cons buf k v fit room (
            write_loop-Writes fuel (drop k buf) (ground (arith, length-drop k buf))
              (fifo_length-write_chunk buf k v fit room l)
              (write_chunk-IsValid (take k buf) v fit room)))
      | inr done ↦ rw done (
          Writes-cons buf k v fit room (record {
            bytes = sym (
                ap (λ t. contents (write_chunk f (take k buf)) ++ t) (drop_all k buf (ground arith))
                ∙ append-nil _);
            valid = write_chunk-IsValid (take k buf) v fit room;
          }))
    ]
