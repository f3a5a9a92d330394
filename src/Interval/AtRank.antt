-- ===== src/Interval/AtRank.antt =====
-- src/intervalRegexp.c, `genAtRank`: the text that it makes for a group of numbers.
use libivy.Base.{
  ℕ, zero, suc, ◌+◌, ◌-◌, ◌/◌, ◌%◌, min, ◌<◌, ◌≤◌, ◌≡◌, refl, sym, ◌∙◌, ◌↔◌, Bool, true, false, [],
  ◌∷◌, ◌++◌, append-nil, ◌==◌, ltb, if◌then◌else◌, Bytes, length, length-append, take,
  take-append-ge, bytes_eq_refl, arith, Bool-cases, inl, inr,
}
use libivy.Discovery.{is_digit}
use libivy.Wire.{print_nat, print_digits}
use libivy.Interval.{
  returns, char_at, size_sub, skip_zeros, substr, gen_pre_rank, digit_range, gen_rank,
  gen_post_rank, gen_at_rank,
}
use libivy.Interval.Written.{check_and_return-fits}
use libivy.Interval.Engine.{Engine, post}
use libivy.Interval.Groups.{
  Group, IsGroup, least, greatest, InGroup, shape-InGroup, InGroup-shape, matches-shape, zeros,
  nines, length-least, length-greatest,
}

abbrev pub starts_zero : Bytes → Bool
starts_zero [] = true
starts_zero (c ∷ s) = c == b'0'

skip_zeros-nonzero : (s : Bytes) → starts_zero s ≡ false → skip_zeros s ≡ s
unfolding skip_zeros
skip_zeros-nonzero [] h = cc
skip_zeros-nonzero (c ∷ s) h = rw h refl

char_at-append : (front s : Bytes) (c : ℕ) → char_at (front ++ (c ∷ s)) (length front) ≡ returns c
unfolding char_at
char_at-append [] s c = refl
char_at-append (x ∷ front) s c = char_at-append front s c

length-print_digits : (fuel n : ℕ) → length (print_digits fuel n) ≤ fuel
unfolding print_digits
length-print_digits zero n = omega arith
length-print_digits (suc fuel) n = elim (Bool-cases (ltb n 10)) [
  | inl e ↦ rw e (omega arith)
  | inr e ↦ rw e (
      omega (
        arith,
        length-append (print_digits fuel (n / 10)) ((b'0' + n % 10) ∷ []),
        length-print_digits fuel (n / 10),
      ))
]

length-digit_range : (a b : ℕ) → length (digit_range a b) ≤ 5
unfolding digit_range
length-digit_range a b = ground arith

length-post : (k : ℕ) → length (post (k + 1)) ≤ k + 5
length-post zero = omega arith
length-post (suc k) =
    let p = length-print_digits (suc (suc k + 1 - 1)) (suc k + 1 - 1) in
    let q = length-append (print_nat (suc k + 1 - 1)) (b'}' ∷ []) in ground arith

front_cut :
    (front : Bytes) (k : ℕ) (s : Bytes)
    → length (front ++ s) ≡ length front + (k + 1)
    → length front + (k + 1) < 100
    → take (min (size_sub (length (front ++ s)) (k + 1)) (length (front ++ s))) (front ++ s) ≡ front
front_cut front k s l h = take-append-ge _ 0 front s (omega arith) ∙ append-nil front

module _ (front : Bytes) (a b k : ℕ) (ha : is_digit a ≡ true) (hb : is_digit b ≡ true) (le : a ≤ b)
    (small : length front + (k + 1) < 100) where
  abbrev low : Bytes
  low = front ++ (a ∷ zeros k)

  abbrev high : Bytes
  high = front ++ (b ∷ nines k)

  gen_pre_rank-group :
      starts_zero low ≡ false
      → starts_zero high ≡ false
      → gen_pre_rank 512 low high (k + 1) ≡ returns front
  unfolding gen_pre_rank substr
  gen_pre_rank-group p q = rw (skip_zeros-nonzero low p) (
      rw (skip_zeros-nonzero high q) (
        rw (front_cut front k (a ∷ zeros k) (length-least a b k ha hb le front) small) (
          rw (front_cut front k (b ∷ nines k) (length-greatest a b k ha hb le front) small) (
            rw (check_and_return-fits 512 front (omega arith))
              (rw (bytes_eq_refl front) (check_and_return-fits 512 front (omega arith)))))))

  gen_rank-group :
      (buflen : ℕ) → 5 < buflen → gen_rank buflen low high (k + 1) ≡ returns (digit_range a b)
  unfolding gen_rank
  gen_rank-group buflen h =
      let l = length-least a b k ha hb le front in
      let m = length-greatest a b k ha hb le front in
      let i : size_sub (length low) (k + 1) ≡ length front = omega arith in
      let j : size_sub (length high) (k + 1) ≡ length front = omega arith in
      let x : (if ltb a b then a else b) ≡ a = ground arith in
      let y : (if ltb b a then a else b) ≡ b = ground arith in
      rw i (
        rw j (
          rw (char_at-append front (zeros k) a) (
            rw (char_at-append front (nines k) b) (
              rw x (
                rw y (
                  check_and_return-fits buflen (digit_range a b)
                    (omega (arith, length-digit_range a b))))))))

  gen_post_rank-group :
      (buflen : ℕ) → k + 5 < buflen → gen_post_rank buflen (k + 1) ≡ returns (post (k + 1))
  unfolding gen_post_rank
  gen_post_rank-group buflen h =
      check_and_return-fits buflen (post (k + 1)) (omega (arith, length-post k))

  high_nonzero : starts_zero low ≡ false → starts_zero high ≡ false
  high_nonzero = above front
    where
      above :
          (f : Bytes)
          → starts_zero (f ++ (a ∷ zeros k)) ≡ false
          → starts_zero (f ++ (b ∷ nines k)) ≡ false
      above [] h = ground (arith, ha)
      above (c ∷ f) h = h

  gen_at_rank-group :
      starts_zero low ≡ false
      → gen_at_rank 128 low high (k + 1) ≡ returns (front ++ (digit_range a b ++ post (k + 1)))
  unfolding gen_at_rank
  gen_at_rank-group p =
      let l = length-digit_range a b in
      let m = length-post k in
      let n = length-append front (digit_range a b ++ post (k + 1)) in
      let o = length-append (digit_range a b) (post (k + 1)) in
      rw (gen_pre_rank-group p (high_nonzero p)) (
        rw (gen_rank-group (512 - length front) (omega arith)) (
          rw (gen_post_rank-group (512 - (length front + length (digit_range a b))) (omega arith))
            (check_and_return-fits 128 (front ++ (digit_range a b ++ post (k + 1))) (omega arith))))

-- For the numbers that begin with the same digits, with a digit between two of them behind these
-- and any number of free places at the end, fewer than 100 digits and no zero in front, and for any
-- regexp engine that does what is documented: `genAtRank` returns a regexp from the least and the
-- greatest of them, and it matches exactly the texts of as many digits whose number is within these
-- two.
pub gen_at_rank-Matches :
    (e : Engine) (g : Group)
    → IsGroup g
    → starts_zero (least g) ≡ false
    → length g.front + (g.free + 1) < 100
    → (r : Bytes) × (gen_at_rank 128 (least g) (greatest g) (g.free + 1) ≡ returns r)
      × ((t : Bytes) → (e.matches r t ≡ true) ↔ InGroup 0 g t)
gen_at_rank-Matches e g h p small =
    let ha = h.from_digit in
    let hb = h.to_digit in
    let le = h.ordered in
    (
      g.front ++ (digit_range g.from g.to ++ post (g.free + 1)),
      gen_at_rank-group g.front g.from g.to g.free ha hb le small p,
      λ t.
          let s = matches-shape e g.from g.to g.free ha hb le g.front t h.front_digits in
          (
            λ m. shape-InGroup g.from g.to g.free ha hb le 0 g.front t h.front_digits (sym s ∙ m),
            λ i. s ∙ InGroup-shape g.from g.to g.free ha hb le 0 g.front t h.front_digits i,
          ),
    )
