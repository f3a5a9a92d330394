-- ===== src/Fifo/Growth.antt =====
-- The array of a fifo that `IvyFifoRealloc` makes larger, or does not.
use libivy.Base.{
  ℕ, ◌+◌, ◌-◌, ◌*◌, ◌/◌, ◌^◌, ◌≤◌, ◌<◌, ◌≡◌, refl, ap, ◌∙◌, true, false, [], arith, length, take,
  ltb, write_at, take_all, length-write_at, take-write_at,
}
use native.Mathlib.Nat.{div-add-mod, mod-lt, mod-eq_of_lt}
use libivy.Fifo.{Fifo, Memory, moved_to, fifo_length, init, read, aligned_size, realloc}
use libivy.Fifo.Contents.{contents, queue, queue_le, IsValid, length-contents, fifo_length-lt-size}
use libivy.Fifo.Loops.{read_lem}

-- What the code relies on: blocks are not empty, sizes stay far below 2^32, and `malloc` gives as
-- many bytes as it is asked for.
pub record IsMemory (m : Memory) : Type 0 where
  pub block_pos : 0 < m.block
  pub block_in : m.block ≤ m.limit
  pub block_small : m.block ≤ 2 ^ 30
  pub limit_small : m.limit ≤ 2 ^ 30
  pub alloc_length : (n : ℕ) → length (m.alloc n) ≡ n

-- the whole blocks that a fifo of `n` bytes is given
abbrev pub blocks : Memory → ℕ → ℕ
blocks m n = (n / m.block + 1) * m.block

pub lt-blocks : (b n : ℕ) → 0 < b → (n < (n / b + 1) * b) × ((n / b + 1) * b ≤ n + b)
lt-blocks b n h = grind (arith, div-add-mod, mod-lt)

module _ {m : Memory} (ok : IsMemory m) where
  pub aligned_size-blocks : (n : ℕ) → n < 2 ^ 31 + 2 ^ 31 - 2 ^ 30 → aligned_size m n ≡ blocks m n
  unfolding aligned_size
  aligned_size-blocks n h =
      mod-eq_of_lt (omega (arith, lt-blocks m.block n ok.block_pos, ok.block_small))

  pub init-IsValid : IsValid (init m) × (contents (init m) ≡ [])
  unfolding contents init
  init-IsValid = (omega (arith, ok.alloc_length m.block, ok.block_pos), ground arith)

-- A fifo is valid and has not outgrown its bound.
pub record IsSound (m : Memory) (f : Fifo) : Type 0 where
  pub valid : IsValid f
  pub bounded : f.size ≤ m.limit

module _ {m : Memory} (ok : IsMemory m) {f : Fifo} (s : IsSound m f) where
  moved_bytes : (read f (fifo_length f)).0 ≡ contents f
  moved_bytes =
      (read_lem (fifo_length f) s.valid).0
      ∙ take_all (fifo_length f) (contents f) (omega (arith, length-contents s.valid))

  -- A larger array holds what the old one held.
  pub record Moves (g : Fifo) (size : ℕ) : Type 0 where
    pub bytes : contents g ≡ contents f
    pub unmarked : g.full ≡ false
    pub grown_to : g.size ≡ size
    pub valid : IsValid g

  moved_to-Moves : (a : ℕ) → f.size ≤ a → Moves (moved_to m f a) a
  unfolding contents moved_to
  moved_to-Moves a k =
      let lf = fifo_length-lt-size s.valid in
      let lc = length-contents s.valid in
      let la = ok.alloc_length a in
      record {
        bytes =
            ap (λ t. queue (write_at (m.alloc a) 0 t) 0 (fifo_length f)) moved_bytes
            ∙ queue_le (write_at (m.alloc a) 0 (contents f)) 0 (fifo_length f) (omega arith)
            ∙ ap (λ j. take j (write_at (m.alloc a) 0 (contents f))) {y = 0 + length (contents f)}
                (omega arith)
            ∙ take-write_at (m.alloc a) 0 (contents f) (omega arith);
        unmarked = refl;
        grown_to = refl;
        valid = rw moved_bytes (record {
          stored = length-write_at (m.alloc a) 0 (contents f) (omega arith) ∙ la;
          read_in = omega arith;
          write_in = omega arith;
        });
      }

  pub realloc_grows :
      (n : ℕ)
      → n < 2 ^ 31 + 2 ^ 31 - 2 ^ 30
      → f.size ≤ n
      → blocks m n ≤ m.limit
      → Moves (realloc m f n) (blocks m n)
  unfolding realloc
  realloc_grows n h k l =
      let big = lt-blocks m.block n ok.block_pos in
      rw
        (
          aligned_size-blocks ok n h,
          (let t : ltb m.limit (blocks m n) ≡ false = ground arith in t),
          (let t : ltb f.size (blocks m n) ≡ true = ground arith in t),
        )
        (moved_to-Moves (blocks m n) (omega arith))

  pub realloc_refuses :
      (n : ℕ)
      → n < 2 ^ 31 + 2 ^ 31 - 2 ^ 30
      → m.limit < blocks m n
      → realloc m f n ≡ record f { full = true }
  unfolding realloc
  realloc_refuses n h l = ground (arith, aligned_size-blocks ok n h)
