-- ===== src/Interval/Faults.antt =====
-- src/intervalRegexp.c: the loops of `nextMax` that count an unsigned index down, and what comes of
-- them.
use libivy.Base.{
  ℕ, zero, suc, ◌+◌, ◌-◌, ◌^◌, ◌<◌, ◌≡◌, ◌≢◌, refl, ap, ◌⊎◌, inl, inr, Bool, true, false, [], ◌∷◌,
  leb, ltb, ◌==◌, Bytes, length, write_at, arith, length-take, Bool-cases, ℤ, pos, negsuc, int_ltb,
}
use native.Mathlib.Decide.{dec_lt}
use libivy.Interval.{
  Run, returns, faults, char_at, store, size_sub, copy_reversed, rounds, next_max, longtoa,
}
use libivy.Interval.Generator.{
  groups, Decimals, decimals, between_ends, strict_pos_regexp_gen, gen_branches, regexp_gen_on,
  regexp_gen, open_group,
}

char_at-past : (s : Bytes) (i : ℕ) → length s < i → char_at s i ≡ faults
unfolding char_at
char_at-past [] zero h = absurd (omega arith)
char_at-past [] (suc i) h = refl
char_at-past (c ∷ s) zero h = absurd (omega arith)
char_at-past (c ∷ s) (suc i) h = char_at-past s i (omega arith)

-- a run that faults, or that has a value
abbrev FaultsOrReturns : {A : Type 0} → Run A → Type 0
FaultsOrReturns {A} r = (r ≡ faults) ⊎ ((a : A) × (r ≡ returns a))

char_at-FaultsOrReturns : (s : Bytes) (i : ℕ) → FaultsOrReturns (char_at s i)
unfolding char_at
char_at-FaultsOrReturns [] zero = inr (0, refl)
char_at-FaultsOrReturns [] (suc i) = inl refl
char_at-FaultsOrReturns (c ∷ s) zero = inr (c, refl)
char_at-FaultsOrReturns (c ∷ s) (suc i) = char_at-FaultsOrReturns s i

store-FaultsOrReturns : (a : Bytes) (i c : ℕ) → FaultsOrReturns (store a i c)
unfolding store
store-FaultsOrReturns a i c = elim (Bool-cases (ltb i (length a))) [
  | inl e ↦ inr (write_at a i (c ∷ []), rw e refl)
  | inr e ↦ inl (rw e refl)
]

-- the round behind the one with the index 0
copy_reversed_wraps :
    (fuel n : ℕ) (s rev : Bytes)
    → length s < 2 ^ 64 - 1
    → copy_reversed (suc fuel) n (2 ^ 64 - 1) s rev ≡ faults
unfolding copy_reversed
copy_reversed_wraps fuel n s rev h = rw (char_at-past s (2 ^ 64 - 1) h) refl

copy_reversed-faults :
    (fuel n i : ℕ) (s rev : Bytes)
    → length s < 2 ^ 64 - 1
    → i < 2 ^ 64
    → i + 1 < fuel
    → copy_reversed fuel n i s rev ≡ faults
unfolding copy_reversed
copy_reversed-faults zero n i s rev h l f = absurd (omega arith)
copy_reversed-faults (suc fuel) n i s rev h l f = elim (char_at-FaultsOrReturns s i) [
  | inl e ↦ rw e refl
  | inr (c, e) ↦ elim (store-FaultsOrReturns rev (size_sub (size_sub n i) 1) c) [
    | inl k ↦ rw e (rw k refl)
    | inr (rev', k) ↦
        let t : leb 0 (size_sub i 1) ≡ true = ground arith in
        rw e (rw k (rw t (after fuel i (copy_reversed-faults fuel n) l (omega arith) rev')))
  ]
]
  where
    after :
        (fuel i : ℕ)
        → ((j : ℕ) (s rev : Bytes)
            → length s < 2 ^ 64 - 1
            → j < 2 ^ 64
            → j + 1 < fuel
            → copy_reversed fuel n j s rev ≡ faults)
        → i < 2 ^ 64
        → i < fuel
        → (rev' : Bytes) → copy_reversed fuel n (size_sub i 1) s rev' ≡ faults
    after zero i again l f rev' = absurd (omega arith)
    after (suc fuel) zero again l f rev' = copy_reversed_wraps fuel n s rev' h
    after (suc fuel) (suc i) again l f rev' =
        let e : size_sub (suc i) 1 ≡ i = omega arith in
        rw e (again i s rev' h (omega arith) (omega arith))

-- `nextMax` leaves its arrays on every text of fewer than 32 bytes.
next_max-faults :
    (rev_min rev_max low high : Bytes)
    → length low < 32
    → next_max rev_min rev_max low high ≡ faults
unfolding next_max
next_max-faults rev_min rev_max low high h = elim (Bool-cases (length low == 0)) [
  | inl e ↦
      let t : size_sub (length low) 1 ≡ 2 ^ 64 - 1 = ground arith in
      rw t (rw (copy_reversed_wraps 33 (length low) low rev_min (omega arith)) refl)
  | inr e ↦
      rw
        (copy_reversed-faults rounds (length low) (size_sub (length low) 1) low rev_min
          (omega arith) (omega arith) (ground arith))
        refl
]

length-longtoa : (n : ℕ) → length (longtoa n) < 32
unfolding longtoa
length-longtoa n = omega (arith, length-take {0})

groups-faults : (slots : ℕ) (old : Bytes) (low high : ℕ) → groups (suc slots) old low high ≡ faults
unfolding groups
groups-faults slots old low high =
    rw (next_max-faults old old (longtoa low) (longtoa high) (length-longtoa low)) refl

between_ends-faults :
    (buflen : ℕ) (old : Bytes) (low high : ℕ) (d : Decimals)
    → between_ends buflen old low high d ≡ faults
unfolding between_ends
between_ends-faults buflen old low high d = rw (groups-faults 63 old low (high - 1)) refl

strict_pos_regexp_gen-faults :
    (buflen : ℕ) (old : Bytes) (a b : ℕ) (d : Decimals)
    → strict_pos_regexp_gen buflen old (pos (suc a)) (pos (suc b)) d ≡ faults
unfolding strict_pos_regexp_gen
strict_pos_regexp_gen-faults buflen old a b d = elim (Bool-cases (suc a == suc b)) [
  | inl e ↦ rw e refl
  | inr e ↦ rw e (between_ends-faults buflen old (suc a) (suc b) d)
]

module _ (old : Bytes) (d : Decimals) where
  low_side-faults :
      (again : ℕ → ℤ → ℤ → Run Bytes) (a : ℕ) (loc : Bytes)
      → gen_branches again old (negsuc a) (pos 0) d loc ≡ faults
  unfolding gen_branches
  low_side-faults again a loc = rw strict_pos_regexp_gen-faults

  gen_branches-faults :
      (again : ℕ → ℤ → ℤ → Run Bytes) (low high : ℤ) (loc : Bytes)
      → ((buflen a : ℕ) → again buflen (negsuc a) (pos 0) ≡ faults)
      → int_ltb low high ≡ true
      → gen_branches again old low high d loc ≡ faults
  unfolding gen_branches
  gen_branches-faults again (pos a) (negsuc b) loc k h = cc
  gen_branches-faults again (pos a) (pos zero) loc k h = absurd (ground arith)
  gen_branches-faults again (pos zero) (pos (suc b)) loc k h =
      let e : (0 == suc b) ≡ false = ground arith in rw e (rw strict_pos_regexp_gen-faults)
  gen_branches-faults again (pos (suc a)) (pos (suc b)) loc k h =
      let e : (suc a == suc b) ≡ false = ground arith in
      let z : (suc a == 0) ≡ false = ground arith in
      let t : ltb (suc a) 0 ≡ false = ground arith in
      rw e (rw t (rw z (simp strict_pos_regexp_gen-faults)))
  gen_branches-faults again (negsuc a) (pos zero) loc k h = low_side-faults again a loc
  gen_branches-faults again (negsuc a) (pos (suc b)) loc k h =
      let z : (suc b == 0) ≡ false = ground arith in
      let t : ltb (suc b) 0 ≡ false = ground arith in rw t (rw z (simp k))
  gen_branches-faults again (negsuc a) (negsuc b) loc k h =
      let e : (a == b) ≡ false = ground arith in rw e (simp strict_pos_regexp_gen-faults)

-- two ends in order, or in the other one
abbrev Ordered : ℤ → ℤ → Type 0
Ordered low high = (int_ltb low high ≡ true) × (int_ltb high low ≡ false)

ne-Ordered : (low high : ℤ) → low ≢ high → Ordered low high ⊎ Ordered high low
ne-Ordered (pos a) (pos b) n = elim (dec_lt a b) [
  | yes l ↦ inl (ground arith, ground arith)
  | no l ↦ let t : a ≢ b = λ e. n (ap pos e) in inr (ground arith, ground arith)
]
ne-Ordered (pos a) (negsuc b) n = inr (refl, refl)
ne-Ordered (negsuc a) (pos b) n = inl (refl, refl)
ne-Ordered (negsuc a) (negsuc b) n = elim (dec_lt b a) [
  | yes l ↦ inl (ground arith, ground arith)
  | no l ↦ let t : a ≢ b = λ e. n (ap negsuc e) in inr (ground arith, ground arith)
]

module _ (old : Bytes) (flottant : Bool) where
  below_zero-faults :
      (buflen a : ℕ) → regexp_gen_on 1 old flottant buflen (negsuc a) (pos 0) ≡ faults
  unfolding regexp_gen_on
  below_zero-faults buflen a =
      rw (low_side-faults old (decimals flottant) (regexp_gen_on 0 old flottant) a open_group) refl

  -- The regexp of an interval with two ends is never made: whatever the ends, if they differ, and
  -- whatever room there is, the code reads or writes outside of an array, or reads an array that
  -- nothing has been written to.
  pub regexp_gen-faults :
      (buflen : ℕ) (low high : ℤ) → low ≢ high → regexp_gen old flottant buflen low high ≡ faults
  unfolding regexp_gen regexp_gen_on
  regexp_gen-faults buflen low high n = elim (ne-Ordered low high n) [
    | inl o ↦ rw o.1 (
        rw
          (gen_branches-faults old (decimals flottant) (regexp_gen_on 1 old flottant) low high
            open_group below_zero-faults o.0)
          refl)
    | inr o ↦ rw o.0 (
        rw
          (gen_branches-faults old (decimals flottant) (regexp_gen_on 1 old flottant) high low
            open_group below_zero-faults o.0)
          refl)
  ]
