-- ===== src/Interval/Groups.antt =====
-- The groups of numbers that one regexp of src/intervalRegexp.c is made for, and what it matches.
use libivy.Base.{
  ℕ, zero, suc, ◌+◌, ◌-◌, ◌*◌, ◌<◌, ◌≤◌, ◌≡◌, refl, ap, ◌∙◌, ◌↔◌, Bool, true, false, ◌&&◌, [], ◌∷◌,
  ◌++◌, ◌==◌, leb, Bytes, length, length-append, replicate, length-replicate, arith,
}
use native.Mathlib.Decide.{dec_lt, dec_le}
use libivy.Discovery.{is_digit}
use libivy.Discovery.Numbers.{IsDigits, value_from}
use libivy.Wire.Numbers.{IsDigits-append}
use libivy.Interval.{digit_range}
use libivy.Interval.Engine.{
  Engine, first_is, all_digits, quantifies, post, matches-digit_range, matches-post,
}

abbrev pub zeros : ℕ → Bytes
zeros k = replicate k b'0'

abbrev pub nines : ℕ → Bytes
nines k = replicate k b'9'

zeros-IsDigits : (k : ℕ) → IsDigits (zeros k)
zeros-IsDigits zero = tt
zeros-IsDigits (suc k) = (refl, zeros-IsDigits k)

nines-IsDigits : (k : ℕ) → IsDigits (nines k)
nines-IsDigits zero = tt
nines-IsDigits (suc k) = (refl, nines-IsDigits k)

all_digits_iff : (t : Bytes) → (all_digits t ≡ true) ↔ IsDigits t
all_digits_iff [] = (λ h. tt, λ h. refl)
all_digits_iff (x ∷ t) = (
  λ h. (ground arith, (all_digits_iff t).0 (ground arith)),
  λ h. let r = (all_digits_iff t).1 h.1 in ground arith,
)

-- a smaller front makes a smaller number
value_from_lt :
    (acc acc' : ℕ) (s t : Bytes)
    → acc < acc'
    → IsDigits s
    → IsDigits t
    → length s ≡ length t
    → value_from acc s < value_from acc' t
value_from_lt acc acc' [] [] h d e l = h
value_from_lt acc acc' [] (y ∷ t) h d e l = absurd (omega arith)
value_from_lt acc acc' (x ∷ s) [] h d e l = absurd (omega arith)
value_from_lt acc acc' (x ∷ s) (y ∷ t) h d e l =
    value_from_lt (acc * 10 + (x - b'0')) (acc' * 10 + (y - b'0')) s t (ground (arith, d.0, e.0))
      d.1 e.1 (omega arith)

value_from-zeros :
    (k acc acc' : ℕ) (t : Bytes)
    → acc ≤ acc'
    → length t ≡ k
    → value_from acc (zeros k) ≤ value_from acc' t
value_from-zeros zero acc acc' [] h l = h
value_from-zeros zero acc acc' (x ∷ t) h l = absurd (omega arith)
value_from-zeros (suc k) acc acc' [] h l = absurd (omega arith)
value_from-zeros (suc k) acc acc' (x ∷ t) h l =
    value_from-zeros k (acc * 10 + (b'0' - b'0')) (acc' * 10 + (x - b'0')) t (omega arith)
      (omega arith)

value_from-nines :
    (k acc acc' : ℕ) (t : Bytes)
    → acc ≤ acc'
    → IsDigits t
    → length t ≡ k
    → value_from acc t ≤ value_from acc' (nines k)
value_from-nines zero acc acc' [] h d l = h
value_from-nines zero acc acc' (x ∷ t) h d l = absurd (omega arith)
value_from-nines (suc k) acc acc' [] h d l = absurd (omega arith)
value_from-nines (suc k) acc acc' (x ∷ t) h d l =
    value_from-nines k (acc * 10 + (x - b'0')) (acc' * 10 + (b'9' - b'0')) t (ground (arith, d.0))
      d.1 (omega arith)

-- The numbers that a group is made for begin with the same digits; behind them stands a digit
-- between two, and then any.
pub record Group : Type 0 where
  pub front : Bytes
  pub from : ℕ
  pub to : ℕ
  pub free : ℕ

pub record IsGroup (g : Group) : Type 0 where
  pub front_digits : IsDigits g.front
  pub from_digit : is_digit g.from ≡ true
  pub to_digit : is_digit g.to ≡ true
  pub ordered : g.from ≤ g.to

-- the least and the greatest of them
abbrev pub least : Group → Bytes
least g = g.front ++ (g.from ∷ zeros g.free)

abbrev pub greatest : Group → Bytes
greatest g = g.front ++ (g.to ∷ nines g.free)

-- The digits of as many places whose number is within these, the numbers read behind `acc`.
abbrev pub InGroup : ℕ → Group → Bytes → Type 0
InGroup acc g t =
    IsDigits t
    × (length t ≡ length g.front + (g.free + 1))
    × (value_from acc (least g) ≤ value_from acc t)
    × (value_from acc t ≤ value_from acc (greatest g))

-- what the regexp says of a text
abbrev pub shape : Bytes → ℕ → ℕ → ℕ → Bytes → Bool
shape [] a b k = first_is (λ x. leb a x && leb x b) (λ t. all_digits t && length t == k)
shape (c ∷ front) a b k = first_is (λ x. x == c) (shape front a b k)

abbrev pub group : Bytes → ℕ → ℕ → ℕ → Group
group front a b k = record { front = front; from = a; to = b; free = k }

module _ (a b k : ℕ) (ha : is_digit a ≡ true) (hb : is_digit b ≡ true) (le : a ≤ b) where
  pub shape-InGroup :
      (acc : ℕ) (front t : Bytes)
      → IsDigits front
      → shape front a b k t ≡ true
      → InGroup acc (group front a b k) t
  shape-InGroup acc [] [] d h = cc
  shape-InGroup acc [] (x ∷ t) d h =
      let i = (all_digits_iff t).0 (ground arith) in
      let l : length t ≡ k = ground arith in
      let lo : a ≤ x = ground arith in
      let hi : x ≤ b = ground arith in
      (
        (ground arith, i),
        omega arith,
        value_from-zeros k (acc * 10 + (a - b'0')) (acc * 10 + (x - b'0')) t (omega arith) l,
        value_from-nines k (acc * 10 + (x - b'0')) (acc * 10 + (b - b'0')) t (omega arith) i l,
      )
  shape-InGroup acc (c ∷ front) [] d h = cc
  shape-InGroup acc (c ∷ front) (x ∷ t) d h =
      let e : x ≡ c = ground arith in
      let r = shape-InGroup (acc * 10 + (c - b'0')) front t d.1 (ground arith) in
      rw e ((d.0, r.0), omega (arith, r.1), r.2, r.3)

  IsDigits-least : (front : Bytes) → IsDigits front → IsDigits (front ++ (a ∷ zeros k))
  IsDigits-least front d = IsDigits-append front (a ∷ zeros k) d (ha, zeros-IsDigits k)

  IsDigits-greatest : (front : Bytes) → IsDigits front → IsDigits (front ++ (b ∷ nines k))
  IsDigits-greatest front d = IsDigits-append front (b ∷ nines k) d (hb, nines-IsDigits k)

  pub length-least : (front : Bytes) → length (front ++ (a ∷ zeros k)) ≡ length front + (k + 1)
  length-least front =
      omega (arith, length-append front (a ∷ zeros k), length-replicate {A = ℕ} k b'0')

  pub length-greatest : (front : Bytes) → length (front ++ (b ∷ nines k)) ≡ length front + (k + 1)
  length-greatest front =
      omega (arith, length-append front (b ∷ nines k), length-replicate {A = ℕ} k b'9')

  -- a first digit below the one of a bound, or above it, puts the number outside
  InGroup-first :
      (acc : ℕ) (c : ℕ) (front : Bytes) (x : ℕ) (t : Bytes)
      → IsDigits (c ∷ front)
      → InGroup acc (group (c ∷ front) a b k) (x ∷ t)
      → x ≡ c
  InGroup-first acc c front x t d h = elim (dec_lt x c) [
    | yes l ↦ absurd (
        omega (
          arith,
          h.2,
          value_from_lt (acc * 10 + (x - b'0')) (acc * 10 + (c - b'0')) t (front ++ (a ∷ zeros k))
              (ground (arith, h.0.0, d.0)) h.0.1 (IsDigits-least front d.1)
              (omega (arith, h.1, length-least front)),
        ))
    | no l ↦ elim (dec_lt c x) [
      | yes m ↦ absurd (
          omega (
            arith,
            h.3,
            value_from_lt (acc * 10 + (c - b'0')) (acc * 10 + (x - b'0')) (front ++ (b ∷ nines k)) t
                (ground (arith, h.0.0, d.0)) (IsDigits-greatest front d.1) h.0.1
                (omega (arith, h.1, length-greatest front)),
          ))
      | no m ↦ omega arith
    ]
  ]

  pub InGroup-shape :
      (acc : ℕ) (front t : Bytes)
      → IsDigits front
      → InGroup acc (group front a b k) t
      → shape front a b k t ≡ true
  InGroup-shape acc [] [] d h = absurd (omega arith)
  InGroup-shape acc [] (x ∷ t) d h =
      let i = (all_digits_iff t).1 h.0.1 in
      let l : length t ≡ k = omega (arith, h.1) in
      let lo : a ≤ x = elim (dec_le a x) [
        | yes l ↦ l
        | no n ↦ absurd (
            omega (
              arith,
              h.2,
              value_from_lt (acc * 10 + (x - b'0')) (acc * 10 + (a - b'0')) t (zeros k)
                  (ground (arith, h.0.0, ha)) h.0.1 (zeros-IsDigits k)
                  (omega (arith, l, length-replicate {A = ℕ} k b'0')),
            ))
      ] in
      let hi : x ≤ b = elim (dec_le x b) [
        | yes l ↦ l
        | no n ↦ absurd (
            omega (
              arith,
              h.3,
              value_from_lt (acc * 10 + (b - b'0')) (acc * 10 + (x - b'0')) (nines k) t
                  (ground (arith, h.0.0, hb)) (nines-IsDigits k) h.0.1
                  (omega (arith, l, length-replicate {A = ℕ} k b'9')),
            ))
      ] in
      ground arith
  InGroup-shape acc (c ∷ front) [] d h = absurd (omega (arith, h.1))
  InGroup-shape acc (c ∷ front) (x ∷ t) d h =
      let e = InGroup-first acc c front x t d h in
      let r : shape front a b k t ≡ true =
        InGroup-shape (acc * 10 + (x - b'0')) front t d.1
          (h.0.1, omega (arith, h.1), (rw e (rw e at h.2)), (rw e (rw e at h.3))) in
      ground arith

module _ (e : Engine) (a b k : ℕ) (ha : is_digit a ≡ true) (hb : is_digit b ≡ true)
    (le : a ≤ b) where
  quantifies-post : quantifies (post (k + 1)) ≡ false
  quantifies-post = ground arith

  quantifies-front :
      (front : Bytes)
      → IsDigits front
      → quantifies (front ++ (digit_range a b ++ post (k + 1))) ≡ false
  unfolding digit_range
  quantifies-front [] d = ground arith
  quantifies-front (c ∷ front) d = ground (arith, d.0)

  pub matches-shape :
      (front t : Bytes)
      → IsDigits front
      → e.matches (front ++ (digit_range a b ++ post (k + 1))) t ≡ shape front a b k t
  matches-shape [] [] d = matches-digit_range e a b (post (k + 1)) [] ha hb le quantifies-post
  matches-shape [] (x ∷ t) d =
      matches-digit_range e a b (post (k + 1)) (x ∷ t) ha hb le quantifies-post
      ∙ ap (λ r. (leb a x && leb x b) && r) (matches-post e k t)
  matches-shape (c ∷ front) [] d = e.literal c _ [] d.0 (quantifies-front front d.1)
  matches-shape (c ∷ front) (x ∷ t) d =
      e.literal c _ (x ∷ t) d.0 (quantifies-front front d.1)
      ∙ ap (λ r. x == c && r) (matches-shape front t d.1)
