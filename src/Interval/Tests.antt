-- ===== src/Interval/Tests.antt =====
-- An engine for the regexps of digits, a group of numbers, and texts with intervals.
use libivy.Base.{
  ℕ, suc, ◌<◌, ◌≤◌, ◌≡◌, refl, ◌↔◌, Bool, true, false, ◌&&◌, ◌||◌, [], ◌∷◌, ◌++◌, ◌==◌, leb,
  if◌then◌else◌, Bytes, bytes_eq, length, drop, arith, pos, negsuc,
}
use libivy.Discovery.{is_digit, starts_digit}
use libivy.Wire.{print_nat, print_digits, scan_digits}
use libivy.Wire.Numbers.{print_digits-Prints, scan_digits-value}
use libivy.Interval.{
  returns, faults, gen_at_rank, print_long, gen_pre_rank, gen_rank, gen_post_rank, check_and_return,
  char_at, skip_zeros, substr, digit_range,
}
use libivy.Interval.Generator.{regexp_gen, decimals}
use libivy.Interval.Substitute.{substitute_interval}
use libivy.Interval.Faults.{regexp_gen-faults}
use libivy.Interval.Substitution.{Place, places_text, replaced, substitute_interval-replaced}
use libivy.Interval.Engine.{Engine, is_nil, first_is, all_digits, quantifies}
use libivy.Interval.Groups.{Group, IsGroup, least, greatest, InGroup}
use libivy.Interval.AtRank.{gen_at_rank-Matches}

data State : Type 0 where
  start escaped opened : State
  one dashed : ℕ → State
  pair range : ℕ → ℕ → State

abbrev counts : Bytes → Bool
counts [] = false
counts (c ∷ p) = c == b'{'

-- a regexp against a whole text, from a state in the midst of one of its parts
go : State → Bytes → Bytes → Bool
go start [] t = is_nil t
go escaped [] t = false
go opened [] t = false
go (one a) [] t = false
go (dashed a) [] t = false
go (pair a b) [] t = false
go (range a b) [] t = false
go start (c ∷ p) t =
    let literal = first_is (λ x. x == c) (go start p) t in
    let escape = go escaped p t in
    let set = go opened p t in if c == b'\\' then escape else if c == b'[' then set else literal
go escaped (c ∷ p) t =
    let digit = first_is is_digit (go start p) t in
    if counts p then all_digits t && length t == (scan_digits 0 (drop 1 p)).0 else digit
go opened (a ∷ p) t = go (one a) p t
go (one a) (c ∷ p) t =
    let dash = go (dashed a) p t in
    let second = go (pair a c) p t in if c == b'-' then dash else second
go (dashed a) (b ∷ p) t = go (range a b) p t
go (pair a b) (c ∷ p) t = first_is (λ x. x == a || x == b) (go start p) t
go (range a b) (c ∷ p) t = first_is (λ x. leb a x && leb x b) (go start p) t

matches_literal :
    (c : ℕ) (p t : Bytes)
    → is_digit c ≡ true
    → quantifies p ≡ false
    → go start (c ∷ p) t ≡ first_is (λ x. x == c) (go start p) t
unfolding go
matches_literal c p t h q =
    let e : (c == b'\\') ≡ false = ground arith in
    let f : (c == b'[') ≡ false = ground arith in rw e (rw f refl)

matches_any_digit :
    (p t : Bytes)
    → quantifies p ≡ false
    → go start (b'\\' ∷ b'd' ∷ p) t ≡ first_is is_digit (go start p) t
unfolding go
matches_any_digit [] t q = refl
matches_any_digit (c ∷ p) t q = let e : (c == b'{') ≡ false = ground arith in rw e refl

matches_either :
    (a b : ℕ) (p t : Bytes)
    → is_digit a ≡ true
    → is_digit b ≡ true
    → quantifies p ≡ false
    → go start (b'[' ∷ a ∷ b ∷ b']' ∷ p) t ≡ first_is (λ x. x == a || x == b) (go start p) t
unfolding go
matches_either a b p t ha hb q = let e : (b == b'-') ≡ false = ground arith in rw e refl

matches_between :
    (a b : ℕ) (p t : Bytes)
    → is_digit a ≡ true
    → is_digit b ≡ true
    → a ≤ b
    → quantifies p ≡ false
    → go start (b'[' ∷ a ∷ b'-' ∷ b ∷ b']' ∷ p) t
      ≡ first_is (λ x. leb a x && leb x b) (go start p) t
unfolding go
matches_between a b p t ha hb le q = refl

matches_counted :
    (n : ℕ) (t : Bytes)
    → 1 < n
    → go start (b'\\' ∷ b'd' ∷ b'{' ∷ (print_nat n ++ (b'}' ∷ []))) t
      ≡ (all_digits t && length t == n)
unfolding go starts_digit
matches_counted n t h =
    let p = print_digits-Prints (suc n) n (omega arith) in
    rw (scan_digits-value 0 (print_nat n) (b'}' ∷ []) p.all_digits refl) (rw p.value refl)

abbrev engine : Engine
engine = record {
  matches = go start;
  nothing = nothing;
  literal = matches_literal;
  any_digit = matches_any_digit;
  either = matches_either;
  between = matches_between;
  counted = matches_counted;
}
  where
    nothing : (t : Bytes) → go start [] t ≡ is_nil t
    nothing t = unfold go in refl

-- the numbers from 1300 to 1899
abbrev hundreds : Group
hundreds = record { front = b'1' ∷ []; from = b'3'; to = b'8'; free = 2 }

hundreds-IsGroup : IsGroup hundreds
hundreds-IsGroup = record {
  front_digits = (refl, tt);
  from_digit = refl;
  to_digit = refl;
  ordered = omega arith;
}

-- `1[3-8]\d{2}`
hundreds_regexp :
    gen_at_rank 128 (b'1' ∷ b'3' ∷ b'0' ∷ b'0' ∷ []) (b'1' ∷ b'8' ∷ b'9' ∷ b'9' ∷ []) 3
    ≡ returns (b'1' ∷ b'[' ∷ b'3' ∷ b'-' ∷ b'8' ∷ b']' ∷ b'\\' ∷ b'd' ∷ b'{' ∷ b'2' ∷ b'}' ∷ [])
unfolding gen_at_rank gen_pre_rank gen_rank gen_post_rank check_and_return char_at skip_zeros substr
    digit_range print_digits bytes_eq
hundreds_regexp = refl

gen_at_rank-Matches_example :
    (r : Bytes) × (gen_at_rank 128 (least hundreds) (greatest hundreds) 3 ≡ returns r)
    × ((t : Bytes) → (engine.matches r t ≡ true) ↔ InGroup 0 hundreds t)
gen_at_rank-Matches_example =
    gen_at_rank-Matches engine hundreds hundreds-IsGroup refl (omega arith)

regexp_gen-faults_example : regexp_gen [] false 8192 (negsuc 9) (pos 10) ≡ faults
regexp_gen-faults_example = regexp_gen-faults [] false 8192 (negsuc 9) (pos 10) (λ e. cc)

-- `a(?I5#5i)`, and one from 1 to 9
abbrev five : Place
five = (b'a' ∷ [], record { low = 5; high = 5; kind = b'i' })

abbrev digits : Place
digits = (b'b' ∷ [], record { low = 1; high = 9; kind = b'f' })

substitute_interval-replaced_example :
    substitute_interval [] (places_text (five ∷ five ∷ []) (b'c' ∷ []))
    ≡ returns (replaced (five ∷ five ∷ []) (b'c' ∷ []))
unfolding print_long print_digits decimals
substitute_interval-replaced_example =
    substitute_interval-replaced [] (five ∷ five ∷ []) (b'c' ∷ [])
      (
        ((refl, tt), (omega arith, omega arith, refl, refl)),
        (((refl, tt), (omega arith, omega arith, refl, refl)), tt),
      )
      (refl, (refl, tt)) (refl, tt) (omega arith)
