-- ===== src/Fifo/Contents.antt =====
-- What a fifo holds, as the queue of its bytes, and the steps of ivyfifo.c's loops on it.
use libivy.Base.{
  ℕ, ◌+◌, ◌-◌, ◌≤◌, ◌<◌, ◌≡◌, sym, ap, ◌∙◌, inl, inr, ◌++◌, append-nil, append_assoc, arith, length,
  take, drop, leb, if◌then◌else◌, Bytes, write_at, read_at, length-append, length-take, length-drop,
  take_all, drop_all, drop-append-le, take-append-ge, drop-drop, drop-take, take-take,
  length-write_at, take-write_at, drop-write_at, drop-write_at_past, Bool-cases, drop-append-ge,
  take-append-le,
}
use native.Mathlib.Decide.{dec_le, dec_lt}
use libivy.Fifo.{Fifo, fifo_length, drain, write_chunk}

-- the bytes from offset `r` round to offset `w`
abbrev pub queue : Bytes → ℕ → ℕ → Bytes
queue b r w = if leb r w then take (w - r) (drop r b) else drop r b ++ take w b

-- the bytes from the read pointer round to the write pointer
unfoldable pub contents : Fifo → Bytes
contents f = queue f.buffer f.rptr f.wptr

pub queue_le : (b : Bytes) (r w : ℕ) → r ≤ w → queue b r w ≡ take (w - r) (drop r b)
queue_le b r w h = ground arith

queue_lt : (b : Bytes) (r w : ℕ) → w < r → queue b r w ≡ drop r b ++ take w b
queue_lt b r w h = ground arith

-- both pointers stand inside the array, which is not empty
pub record IsValid (f : Fifo) : Type 0 where
  pub stored : length f.buffer ≡ f.size
  pub read_in : f.rptr < f.size
  pub write_in : f.wptr < f.size

-- `IvyFifoLength` counts the bytes held, which never fill the array.
pub length-contents : {f : Fifo} → IsValid f → length (contents f) ≡ fifo_length f
unfolding contents fifo_length
length-contents {f} v = ground (
  arith,
  length-take (f.wptr - f.rptr) (drop f.rptr f.buffer),
  length-drop f.rptr f.buffer,
  length-take f.wptr f.buffer,
  length-append (drop f.rptr f.buffer) (take f.wptr f.buffer),
)

pub fifo_length-lt-size : {f : Fifo} → IsValid f → fifo_length f < f.size
unfolding fifo_length
fifo_length-lt-size v = ground arith

pub drain-IsValid : {f : Fifo} (n : ℕ) → IsValid f → n ≤ f.size - f.rptr → IsValid (drain f n)
unfolding drain
drain-IsValid n v h = ground arith

abbrev moved : ℕ → ℕ → ℕ
moved size r = if leb size r then r - size else r

drain_le :
    (b : Bytes) (r w size n : ℕ)
    → r ≤ w
    → w < size
    → n ≤ w - r
    → queue b (moved size (r + n)) w ≡ drop n (queue b r w)
drain_le b r w size n h k m = rw (queue_le b r w h) (
    ap (λ j. queue b j w) {y = r + n} (ground arith)
    ∙ queue_le b (r + n) w (omega arith)
    ∙ ap (take (w - (r + n))) (sym (drop-drop n r b))
    ∙ sym (drop-take n (w - (r + n)) (drop r b))
    ∙ ap (λ j. drop n (take j (drop r b))) (omega arith))

drain_lt :
    (b : Bytes) (r w size n : ℕ)
    → w < r
    → length b ≡ size
    → r < size
    → n ≤ size - r
    → queue b (moved size (r + n)) w ≡ drop n (queue b r w)
drain_lt b r w size n h s k m = elim (dec_lt (r + n) size) [
  | yes a ↦ rw (queue_lt b r w h) (
      ap (λ j. queue b j w) {y = r + n} (ground arith)
      ∙ queue_lt b (r + n) w (omega arith)
      ∙ ap (λ t. t ++ take w b) (sym (drop-drop n r b))
      ∙ sym (drop-append-le n (drop r b) (take w b) (omega (arith, length-drop r b))))
  | no a ↦ rw (queue_lt b r w h) (
      ap (λ j. queue b j w) {y = 0} (ground arith)
      ∙ queue_le b 0 w (omega arith)
      ∙ ap (λ j. take j b) {y = w} (omega arith)
      ∙ sym (drop-append-ge n 0 (drop r b) (take w b) (omega (arith, length-drop r b))))
]

-- writing `c` at the write pointer, with the pointer moved on
abbrev wrapped : ℕ → ℕ → ℕ
wrapped size w = if leb size w then 0 else w

write_le :
    (b : Bytes) (r w size : ℕ) (c : Bytes)
    → length b ≡ size
    → r ≤ w
    → w + length c ≤ size
    → w - r + length c < size
    → queue (write_at b w c) r (wrapped size (w + length c)) ≡ queue b r w ++ c
write_le b r w size c s h fit room = elim (dec_lt (w + length c) size) [
  | yes a ↦ rw (queue_le b r w h) (
      ap (queue (write_at b w c) r) {y = w + length c} (ground arith)
      ∙ queue_le (write_at b w c) r (w + length c) (omega arith)
      ∙ ap (take (w + length c - r)) (drop-write_at b w c (omega arith) r h)
      ∙ take-append-ge (w + length c - r) (length c) (take (w - r) (drop r b)) _
          (omega (arith, length-take (w - r) (drop r b), length-drop r b))
      ∙ ap (λ t. take (w - r) (drop r b) ++ t)
          (take-append-le (length c) c _ (omega arith) ∙ take_all _ c (omega arith)))
  | no a ↦ rw (queue_le b r w h) (
      ap (queue (write_at b w c) r) {y = 0} (ground arith)
      ∙ queue_lt (write_at b w c) r 0 (omega arith)
      ∙ append-nil _
      ∙ drop-write_at b w c (omega arith) r h
      ∙ ap (λ t. take (w - r) (drop r b) ++ (c ++ t)) (drop_all _ b (omega arith))
      ∙ ap (λ t. take (w - r) (drop r b) ++ t) (append-nil c))
]

write_lt :
    (b : Bytes) (r w size : ℕ) (c : Bytes)
    → length b ≡ size
    → w < r
    → r < size
    → w + length c < r
    → queue (write_at b w c) r (wrapped size (w + length c)) ≡ queue b r w ++ c
write_lt b r w size c s h k room = rw (queue_lt b r w h) (
    ap (queue (write_at b w c) r) {y = w + length c} (ground arith)
    ∙ queue_lt (write_at b w c) r (w + length c) room
    ∙ ap (λ t. t ++ take (w + length c) (write_at b w c))
        (drop-write_at_past b w c (omega arith) r (omega arith))
    ∙ ap (λ t. drop r b ++ t) (take-write_at b w c (omega arith))
    ∙ sym (append_assoc (drop r b) (take w b) c))

module _ {f : Fifo} (c : Bytes) (v : IsValid f) (fit : length c ≤ f.size - f.wptr)
    (room : fifo_length f + length c < f.size) where
  -- A round of `IvyFifoWrite` puts its bytes behind the queue.
  pub contents-write_chunk : contents (write_chunk f c) ≡ contents f ++ c
  unfolding contents fifo_length write_chunk
  contents-write_chunk = elim (dec_le f.rptr f.wptr) [
    | yes a ↦ write_le f.buffer f.rptr f.wptr f.size c v.stored a (ground arith) (ground arith)
    | no a ↦
        write_lt f.buffer f.rptr f.wptr f.size c v.stored (omega arith) v.read_in (ground arith)
  ]

  pub write_chunk-IsValid : IsValid (write_chunk f c)
  unfolding write_chunk
  write_chunk-IsValid = ground (arith, length-write_at f.buffer f.wptr c)

module _ {f : Fifo} (n : ℕ) (v : IsValid f) (h : n ≤ f.size - f.rptr) (k : n ≤ fifo_length f) where
  -- The bytes at the read pointer, up to the end of the array, are the front of the queue.
  pub read_at-contents : read_at f.buffer f.rptr n ≡ take n (contents f)
  unfolding contents fifo_length
  read_at-contents = elim (Bool-cases (leb f.rptr f.wptr)) [
    | inl a ↦ rw a (sym (take-take n (f.wptr - f.rptr) (drop f.rptr f.buffer) (ground arith)))
    | inr a ↦ rw a (
        sym
          (take-append-le n (drop f.rptr f.buffer) _ (ground (arith, length-drop f.rptr f.buffer))))
  ]

  -- Moving the read pointer drops them.
  pub contents-drain : contents (drain f n) ≡ drop n (contents f)
  unfolding contents fifo_length drain
  contents-drain = elim (dec_le f.rptr f.wptr) [
    | yes a ↦ drain_le f.buffer f.rptr f.wptr f.size n a v.write_in (ground arith)
    | no a ↦ drain_lt f.buffer f.rptr f.wptr f.size n (omega arith) v.stored v.read_in h
  ]
