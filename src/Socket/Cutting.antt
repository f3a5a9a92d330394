-- ===== src/Socket/Cutting.antt =====
-- The lines of a text, and the loop of `HandleSocket` that cuts them off.
use libivy.Base.{
  ℕ, zero, suc, ◌≤◌, ◌<◌, ◌≡◌, refl, sym, ap, ◌∙◌, ◌==◌, false, Option, none, some, List, [], ◌∷◌,
  ◌++◌, if◌then◌else◌, Bytes, length, arith, Bool-cases, inl, inr,
}
use libivy.Socket.Receive.{memchr, cut_lines}

abbrev cons_byte : ℕ → List Bytes × Bytes → List Bytes × Bytes
cons_byte c ([], r) = ([], c ∷ r)
cons_byte c (l ∷ ls, r) = ((c ∷ l) ∷ ls, r)

-- The messages of a text, each up to a terminator, and the bytes behind the last terminator.
unfoldable pub split : ℕ → Bytes → List Bytes × Bytes
split t [] = ([], [])
split t (c ∷ s) = let rest = split t s in if c == t then ([] ∷ rest.0, rest.1) else cons_byte c rest

-- more text behind what is split
abbrev pub and_then : ℕ → List Bytes × Bytes → Bytes → List Bytes × Bytes
and_then t p b = let q = split t (p.1 ++ b) in (p.0 ++ q.0, q.1)

cons_byte-and_then :
    (t c : ℕ) (p : List Bytes × Bytes) (b : Bytes)
    → (c == t) ≡ false
    → cons_byte c (and_then t p b) ≡ and_then t (cons_byte c p) b
unfolding split
cons_byte-and_then t c ([], r) b e = rw e
cons_byte-and_then t c (l ∷ ls, r) b e = refl

pub split-append : (t : ℕ) (a b : Bytes) → split t (a ++ b) ≡ and_then t (split t a) b
unfolding split
split-append t [] b = refl
split-append t (c ∷ a) b = elim (Bool-cases (c == t)) [
  | inl e ↦ rw (e, split-append t a b)
  | inr e ↦ rw e (ap (cons_byte c) (split-append t a b) ∙ cons_byte-and_then t c (split t a) b e)
]

-- what one call of `memchr` says of the rest
Finds : ℕ → Bytes → Option (Bytes × Bytes) → Type 0
Finds t s none = split t s ≡ ([], s)
Finds t s (some (line, behind)) =
    (split t s ≡ (line ∷ (split t behind).0, (split t behind).1)) × (length behind < length s)

-- a byte in front that is no terminator
Finds-cons :
    (t c : ℕ) (s : Bytes) (o : Option (Bytes × Bytes))
    → (c == t) ≡ false
    → Finds t s o
    → Finds t (c ∷ s) (elim o [ none ↦ none | some (line, behind) ↦ some (c ∷ line, behind) ])
unfolding split Finds
Finds-cons t c s none e h = rw e (ap (cons_byte c) h)
Finds-cons t c s (some (line, behind)) e h = (rw e (ap (cons_byte c) h.0), omega (arith, h.1))

memchr-Finds : (t : ℕ) (s : Bytes) → Finds t s (memchr t s)
unfolding split memchr Finds
memchr-Finds t [] = refl
memchr-Finds t (c ∷ s) = elim (Bool-cases (c == t)) [
  | inl e ↦ rw e (rw e refl, omega arith)
  | inr e ↦ rw e (Finds-cons t c s (memchr t s) e (memchr-Finds t s))
]

cut_round :
    (fuel t : ℕ) (s : Bytes) (o : Option (Bytes × Bytes))
    → ((b : Bytes) → length b < fuel → cut_lines fuel t b ≡ split t b)
    → length s < suc fuel
    → Finds t s o
    → elim o [
      | none ↦ ([], s)
      | some (line, behind) ↦ let later = cut_lines fuel t behind in (line ∷ later.0, later.1)
    ]
      ≡ split t s
unfolding Finds
cut_round fuel t s none ih h k = sym k
cut_round fuel t s (some (line, behind)) ih h k = rw (ih behind (omega (arith, k.1))) (sym k.0)

-- The loop delivers what the text splits into.
pub cut_lines-split : (fuel t : ℕ) (s : Bytes) → length s < fuel → cut_lines fuel t s ≡ split t s
unfolding cut_lines
cut_lines-split zero t s h = absurd (omega arith)
cut_lines-split (suc fuel) t s h =
    cut_round fuel t s (memchr t s) (λ b k. cut_lines-split fuel t b k) h (memchr-Finds t s)

-- what is left over has no terminator and is no longer
unfoldable pub Leaves : ℕ → Bytes → List Bytes × Bytes → Type 0
Leaves t s p = (split t p.1 ≡ ([], p.1)) × (length p.1 ≤ length s)

Leaves-cons_byte :
    (t c : ℕ) (s : Bytes) (p : List Bytes × Bytes)
    → (c == t) ≡ false
    → Leaves t s p
    → Leaves t (c ∷ s) (cons_byte c p)
unfolding split Leaves
Leaves-cons_byte t c s ([], r) e h = (rw e (ap (cons_byte c) h.0), omega (arith, h.1))
Leaves-cons_byte t c s (l ∷ ls, r) e h = (h.0, omega (arith, h.1))

pub split-Leaves : (t : ℕ) (s : Bytes) → Leaves t s (split t s)
unfolding split Leaves
split-Leaves t [] = (refl, omega arith)
split-Leaves t (c ∷ s) =
    let r = split-Leaves t s in
    elim (Bool-cases (c == t)) [
      | inl e ↦ rw e (r.0, omega (arith, r.1))
      | inr e ↦ rw e (Leaves-cons_byte t c s (split t s) e r)
    ]
