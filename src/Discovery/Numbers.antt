-- ===== src/Discovery/Numbers.antt =====
-- The decimal fields of a discovery message, and their limits.
use libivy.Base.{
  ℕ, ◌+◌, ◌-◌, ◌*◌, ◌/◌, ◌%◌, ◌^◌, ◌≤◌, ◌<◌, ◌≡◌, ◌≢◌, refl, sym, ap, ◌↔◌, true, false, not, none,
  some, >>=-eq-some, some_inj, refuse-eq-some, [], ◌∷◌, ◌++◌, ltb, leb, if◌then◌else◌, Bytes, arith,
  Bool-cases, inl, inr,
}
use native.Mathlib.Decide.{dec_le}
use libivy.Discovery.{
  is_digit, skip_blanks, digits_from, starts_digit, starts_blank, discovery_number,
}

-- a run of digits
abbrev pub IsDigits : Bytes → Type 0
IsDigits [] = Unit
IsDigits (c ∷ p) = (is_digit c ≡ true) × IsDigits p

-- the number that digits stand for, behind those that make `acc`
abbrev pub value_from : ℕ → Bytes → ℕ
value_from acc [] = acc
value_from acc (c ∷ p) = value_from (acc * 10 + (c - b'0')) p

pub value_from-le : (acc : ℕ) (p : Bytes) → acc ≤ value_from acc p
value_from-le acc [] = omega arith
value_from-le acc (c ∷ p) = omega (arith, value_from-le (acc * 10 + (c - b'0')) p)

-- The guard `number > (limit - digit) / 10` is exact: it refuses a digit if and only if the number
-- with that digit behind it is past the limit.
pub guard_exact :
    (limit number digit : ℕ)
    → digit ≤ limit
    → (ltb ((limit - digit) / 10) number ≡ true) ↔ (limit < number * 10 + digit)
guard_exact limit number digit h = ground arith

-- Digits with no digit behind them are read as their number, if that is within the limit, and
-- refused otherwise.
pub digits_from-value :
    (limit acc : ℕ) (ds rest : Bytes)
    → 9 ≤ limit
    → limit < 2 ^ 32
    → IsDigits ds
    → starts_digit rest ≡ false
    → acc ≤ limit
    → digits_from limit acc (ds ++ rest)
      ≡ (if leb (value_from acc ds) limit then some (value_from acc ds, rest) else none)
unfolding digits_from starts_digit
digits_from-value limit acc [] [] k u d s h = ground arith
digits_from-value limit acc [] (c ∷ rest) k u d s h = ground arith
digits_from-value limit acc (c ∷ ds) rest k u d s h = elim (dec_le (acc * 10 + (c - b'0')) limit) [
  | yes a ↦
      rw
        (
          d.0,
          (let g : ltb ((limit - (c - b'0')) / 10) acc ≡ false = ground arith in g),
          (let g : (acc * 10 + (c - b'0')) % 2 ^ 32 ≡ acc * 10 + (c - b'0') = omega arith in g),
        )
        (digits_from-value limit (acc * 10 + (c - b'0')) ds rest k u d.1 s a)
  | no a ↦
      rw (d.0, (let g : ltb ((limit - (c - b'0')) / 10) acc ≡ true = ground arith in g))
        (ground (arith, value_from-le (acc * 10 + (c - b'0')) ds))
]

-- What the loop returns is a number within the limit, whose digits it consumed.
pub record IsNumber (limit acc : ℕ) (p : Bytes) (out : ℕ × Bytes) : Type 0 where
  pub digits : Bytes
  pub all_digits : IsDigits digits
  pub split : p ≡ digits ++ out.1
  pub value : out.0 ≡ value_from acc digits
  pub within : out.0 ≤ limit

IsNumber-stop :
    (limit acc : ℕ) (p : Bytes) {out : ℕ × Bytes}
    → acc ≤ limit
    → some (acc, p) ≡ some out
    → IsNumber limit acc p out
IsNumber-stop limit acc p {out} h q =
    let o : (acc, p) ≡ out = cc in
    record {
      digits = [];
      all_digits = tt;
      split = ap (λ t. t.1) o;
      value = sym (ap (λ t. t.0) o);
      within = rw (← o) h;
    }

IsNumber-cons :
    (limit acc c : ℕ) (p : Bytes) {out : ℕ × Bytes}
    → is_digit c ≡ true
    → IsNumber limit (acc * 10 + (c - b'0')) p out
    → IsNumber limit acc (c ∷ p) out
IsNumber-cons limit acc c p digit r = record {
  digits = c ∷ r.digits;
  all_digits = (digit, r.all_digits);
  split = ap (◌∷◌ c) r.split;
  value = r.value;
  within = r.within;
}

pub digits_from-IsNumber :
    (limit acc : ℕ) (p : Bytes) {out : ℕ × Bytes}
    → 9 ≤ limit
    → limit < 2 ^ 32
    → acc ≤ limit
    → digits_from limit acc p ≡ some out
    → IsNumber limit acc p out
unfolding digits_from
digits_from-IsNumber limit acc [] k u h e = record {
  digits = [];
  all_digits = tt;
  split = ground arith;
  value = ground arith;
  within = ground arith;
}
digits_from-IsNumber limit acc (c ∷ p) {out} k u h e = elim (Bool-cases (is_digit c)) [
  | inr no_digit ↦ IsNumber-stop limit acc (c ∷ p) h (rw no_digit at e)
  | inl digit ↦ elim (Bool-cases (ltb ((limit - (c - b'0')) / 10) acc)) [
    | inl over ↦ let q : none ≡ some out = rw (digit, over) at e in cc
    | inr fits ↦
        let a : acc * 10 + (c - b'0') ≤ limit = ground arith in
        let m : (acc * 10 + (c - b'0')) % 2 ^ 32 ≡ acc * 10 + (c - b'0') = omega arith in
        IsNumber-cons limit acc c p digit
          (digits_from-IsNumber limit (acc * 10 + (c - b'0')) p k u a (rw (digit, fits, m) at e))
  ]
]

pub skip_blanks-digit : (p : Bytes) → starts_digit p ≡ true → skip_blanks p ≡ p
unfolding skip_blanks starts_digit
skip_blanks-digit [] h = refl
skip_blanks-digit (c ∷ p) h = ground arith

pub starts_digit-append :
    (ds rest : Bytes) → IsDigits ds → ds ≢ [] → starts_digit (ds ++ rest) ≡ true
unfolding starts_digit
starts_digit-append [] rest d n = absurd (n refl)
starts_digit-append (c ∷ ds) rest d n = d.0

-- A field of digits with a blank behind it is read as its number.
pub discovery_number-digits :
    (limit : ℕ) (ds rest : Bytes)
    → 9 ≤ limit
    → limit < 2 ^ 32
    → IsDigits ds
    → ds ≢ []
    → value_from 0 ds ≤ limit
    → discovery_number limit (ds ++ (b' ' ∷ rest)) ≡ some (value_from 0 ds, skip_blanks rest)
unfolding discovery_number starts_blank
discovery_number-digits limit ds rest k u d n v =
    let s = starts_digit-append ds (b' ' ∷ rest) d n in
    rw
      (
        skip_blanks-digit (ds ++ (b' ' ∷ rest)) s,
        s,
        digits_from-value limit 0 ds (b' ' ∷ rest) k u d (not_digit rest) (omega arith),
        (let t : leb (value_from 0 ds) limit ≡ true = ground arith in t),
      )
      (ap (λ t. some (value_from 0 ds, t)) (skip_one_blank rest))
  where
    not_digit : (r : Bytes) → starts_digit (b' ' ∷ r) ≡ false
    not_digit r = unfold starts_digit in refl

    skip_one_blank : (r : Bytes) → skip_blanks (b' ' ∷ r) ≡ skip_blanks r
    skip_one_blank r = unfold skip_blanks in refl

-- What is read is within the limit.
pub discovery_number-le :
    (limit : ℕ) (p : Bytes) {n : ℕ} {q : Bytes}
    → 9 ≤ limit
    → limit < 2 ^ 32
    → discovery_number limit p ≡ some (n, q)
    → n ≤ limit
unfolding discovery_number
discovery_number-le limit p k u e =
    let g = refuse-eq-some (not (starts_digit (skip_blanks p))) _ e in
    let ((m, r), read, after) = >>=-eq-some (digits_from limit 0 (skip_blanks p)) _ g.1 in
    let done = refuse-eq-some (not (starts_blank r)) _ after in
    rw (← ap (λ t. t.0) (some_inj done.1))
      (digits_from-IsNumber limit 0 (skip_blanks p) k u (omega arith) read).within
