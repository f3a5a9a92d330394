-- ===== src/Interval/Engine.antt =====
-- The regexp engine, as far as the regexps of `genAtRank` need it.
use libivy.Base.{
  ℕ, zero, suc, ◌+◌, ◌-◌, ◌<◌, ◌≤◌, ◌≡◌, refl, Bool, true, false, ◌&&◌, ◌||◌, [], ◌∷◌, ◌++◌, ◌==◌,
  leb, if◌then◌else◌, Bytes, length, arith,
}
use libivy.Discovery.{is_digit}
use libivy.Wire.{print_nat}
use libivy.Interval.{digit_range}

abbrev pub is_nil : Bytes → Bool
is_nil [] = true
is_nil (c ∷ s) = false

-- the first byte is one of a set, and the others are as `rest` says
abbrev pub first_is : (ℕ → Bool) → (Bytes → Bool) → Bytes → Bool
first_is set rest [] = false
first_is set rest (x ∷ t) = set x && rest t

abbrev pub all_digits : Bytes → Bool
all_digits [] = true
all_digits (x ∷ t) = is_digit x && all_digits t

-- what would be a quantifier of the part in front of it
abbrev pub quantifies : Bytes → Bool
quantifies [] = false
quantifies (c ∷ p) = c == b'*' || c == b'+' || c == b'?' || c == b'{'

-- Whether a regexp matches a whole text, with what is documented of digits, `\d`, sets of digits
-- and the quantifier `{n}`.
pub record Engine : Type 0 where
  pub matches : Bytes → Bytes → Bool
  pub nothing : (t : Bytes) → matches [] t ≡ is_nil t
  pub literal :
      (c : ℕ) (p t : Bytes)
      → is_digit c ≡ true
      → quantifies p ≡ false
      → matches (c ∷ p) t ≡ first_is (λ x. x == c) (matches p) t
  pub any_digit :
      (p t : Bytes)
      → quantifies p ≡ false
      → matches (b'\\' ∷ b'd' ∷ p) t ≡ first_is is_digit (matches p) t
  pub either :
      (a b : ℕ) (p t : Bytes)
      → is_digit a ≡ true
      → is_digit b ≡ true
      → quantifies p ≡ false
      → matches (b'[' ∷ a ∷ b ∷ b']' ∷ p) t ≡ first_is (λ x. x == a || x == b) (matches p) t
  pub between :
      (a b : ℕ) (p t : Bytes)
      → is_digit a ≡ true
      → is_digit b ≡ true
      → a ≤ b
      → quantifies p ≡ false
      → matches (b'[' ∷ a ∷ b'-' ∷ b ∷ b']' ∷ p) t
        ≡ first_is (λ x. leb a x && leb x b) (matches p) t
  pub counted :
      (n : ℕ) (t : Bytes)
      → 1 < n
      → matches (b'\\' ∷ b'd' ∷ b'{' ∷ (print_nat n ++ (b'}' ∷ []))) t
        ≡ (all_digits t && length t == n)

-- the last digits of a number, as `genPostRank` writes them
abbrev pub post : ℕ → Bytes
post rank =
    if leb rank 1
    then []
    else if rank == 2
    then b'\\' ∷ b'd' ∷ []
    else b'\\' ∷ b'd' ∷ b'{' ∷ (print_nat (rank - 1) ++ (b'}' ∷ []))

module _ (e : Engine) where
  pub matches-digit_range :
      (a b : ℕ) (p t : Bytes)
      → is_digit a ≡ true
      → is_digit b ≡ true
      → a ≤ b
      → quantifies p ≡ false
      → e.matches (digit_range a b ++ p) t ≡ first_is (λ x. leb a x && leb x b) (e.matches p) t
  unfolding digit_range
  matches-digit_range a b p [] ha hb le q = ground (
    arith,
    e.any_digit p [] q,
    e.literal a p [] ha q,
    e.either a b p [] ha hb q,
    e.between a b p [] ha hb le q,
  )
  matches-digit_range a b p (x ∷ t) ha hb le q = ground (
    arith,
    e.any_digit p (x ∷ t) q,
    e.literal a p (x ∷ t) ha q,
    e.either a b p (x ∷ t) ha hb q,
    e.between a b p (x ∷ t) ha hb le q,
  )

  pub matches-post :
      (k : ℕ) (t : Bytes) → e.matches (post (k + 1)) t ≡ (all_digits t && length t == k)
  matches-post zero [] = ground (arith, e.nothing [])
  matches-post zero (x ∷ t) = ground (arith, e.nothing (x ∷ t))
  matches-post (suc zero) [] = ground (arith, e.any_digit [] [] refl)
  matches-post (suc zero) (x ∷ []) = ground (arith, e.any_digit [] (x ∷ []) refl, e.nothing [])
  matches-post (suc zero) (x ∷ (y ∷ t)) =
      ground (arith, e.any_digit [] (x ∷ (y ∷ t)) refl, e.nothing (y ∷ t))
  matches-post (suc (suc k)) t =
      let n : suc (suc k) + 1 - 1 ≡ suc (suc k) = omega arith in
      let a : leb (suc (suc k) + 1) 1 ≡ false = ground arith in
      let b : (suc (suc k) + 1 == 2) ≡ false = ground arith in
      rw a (rw b (rw n (e.counted (suc (suc k)) t (omega arith))))
