-- ===== src/Base/Memory.antt =====
-- `memcpy` into and out of an array of bytes.
use Prim.Native.Nat.{ℕ, ◌+◌, ◌-◌, ◌≤◌}
use mathlib.Core.Path.{◌≡◌, ap, ◌∙◌}
use mathlib.Core.List.{◌++◌}
use native.Mathlib.Omega.{arith}
use libivy.Base.Lists.{
  length, take, drop, length-append, length-take, length-drop, take_all, take-append-le,
  drop-append-le, take-append-ge, drop-append-ge, drop-drop, drop-take,
}
use libivy.Base.Text.{Bytes}

-- `memcpy (b + i, src, length src)`, for a range inside the array
abbrev pub write_at : Bytes → ℕ → Bytes → Bytes
write_at b i src = take i b ++ (src ++ drop (i + length src) b)

-- the `n` bytes from `b + i` on
abbrev pub read_at : Bytes → ℕ → ℕ → Bytes
read_at b i n = take n (drop i b)

module _ (b : Bytes) (i : ℕ) (src : Bytes) (fits : i + length src ≤ length b) where
  length-head : length (take i b) ≡ i
  length-head = omega (arith, length-take i b)

  pub length-write_at : length (write_at b i src) ≡ length b
  length-write_at = omega (
    arith,
    length-head,
    length-append (take i b) (src ++ drop (i + length src) b),
    length-append src (drop (i + length src) b),
    length-drop (i + length src) b,
  )

  -- up to the end of what was written
  pub take-write_at : take (i + length src) (write_at b i src) ≡ take i b ++ src
  take-write_at =
      take-append-ge _ (length src) (take i b) _ (omega (arith, length-head))
      ∙ ap (λ t. take i b ++ t)
          (take-append-le (length src) src _ (omega arith) ∙ take_all _ src (omega arith))

  -- from a point at or before the write
  pub drop-write_at :
      (r : ℕ)
      → r ≤ i
      → drop r (write_at b i src) ≡ take (i - r) (drop r b) ++ (src ++ drop (i + length src) b)
  drop-write_at r h =
      drop-append-le r (take i b) _ (omega (arith, length-head))
      ∙ ap (λ t. t ++ (src ++ drop (i + length src) b))
          (ap (λ j. drop r (take j b)) {y = r + (i - r)} (omega arith) ∙ drop-take r (i - r) b)

  -- from a point at or past its end
  pub drop-write_at_past : (r : ℕ) → i + length src ≤ r → drop r (write_at b i src) ≡ drop r b
  drop-write_at_past r h =
      drop-append-ge r (r - i) (take i b) _ (omega (arith, length-head))
      ∙ drop-append-ge (r - i) (r - (i + length src)) src _ (omega arith)
      ∙ drop-drop (r - (i + length src)) (i + length src) b
      ∙ ap (λ j. drop j b) (omega arith)
