-- ===== src/Interval/Generator.antt =====
-- src/intervalRegexp.c: `strictPosRegexpGen` and `regexpGen`.
use libivy.Base.{
  ℕ, zero, suc, ◌+◌, ◌-◌, ◌*◌, Bool, true, false, Option, none, some, List, [], ◌∷◌, ◌++◌, ◌==◌,
  ltb, if◌then◌else◌, Bytes, length, ℤ, pos, negsuc, neg, int_ltb, int_eq,
}
use libivy.Interval.{
  Run, returns, fails, faults, unfinished, ◌>>=◌, check_and_return, add_loc, print_long, longtoa,
  next_max, gen_at_rank,
}

-- the sizes of the arrays of `regexpGen` and `strictPosRegexpGen`
abbrev pub buffer_size : ℕ
buffer_size = 8192

abbrev pub max_sub_reg : ℕ
max_sub_reg = 64

abbrev pub digit_reg_size : ℕ
digit_reg_size = 128

-- What follows the digits of a number within the interval, and of its bound.
pub record Decimals : Type 0 where
  pub inside : Bytes
  pub bound : Bytes

-- `(?:\.\d+)?` and `(?:\.0+)?` where the interval is one of decimal numbers
unfoldable pub decimals : Bool → Decimals
decimals false = record { inside = []; bound = [] }
decimals true = record {
  inside = b'(' ∷ b'?' ∷ b':' ∷ b'\\' ∷ b'.' ∷ b'\\' ∷ b'd' ∷ b'+' ∷ b')' ∷ b'?' ∷ [];
  bound = b'(' ∷ b'?' ∷ b':' ∷ b'\\' ∷ b'.' ∷ b'0' ∷ b'+' ∷ b')' ∷ b'?' ∷ [];
}

abbrev pub open_group : Bytes
open_group = b'(' ∷ b'?' ∷ b':' ∷ []

-- `(?![\d.])`, behind the end of the group
abbrev pub no_more_digits : Bytes
no_more_digits = b')' ∷ b'(' ∷ b'?' ∷ b'!' ∷ b'[' ∷ b'\\' ∷ b'd' ∷ b'.' ∷ b']' ∷ b')' ∷ []

-- The `do … while` over the groups of numbers, with as many slots of `regList` left as its first
-- argument says. What stands in the arrays of `nextMax` is an argument.
unfoldable pub groups : ℕ → Bytes → ℕ → ℕ → Run (List Bytes)
groups zero old low high = fails
groups (suc slots) old low high = do
  next ← next_max old old (longtoa low) (longtoa high)
  r ← gen_at_rank digit_reg_size (longtoa low) (longtoa next.max) next.rank
  let rest = groups slots old (next.max + 1) high
  if slots == 0
      then fails
      else (if next.max == high then returns (r ∷ []) else (rest >>= λ later. returns (r ∷ later)))

-- `(?:%s%s)` for each group, with `|` between them
unfoldable pub join_groups : Bytes → List Bytes → Bytes
join_groups decimal [] = []
join_groups decimal (r ∷ []) = open_group ++ (r ++ (decimal ++ (b')' ∷ [])))
join_groups decimal (r ∷ (s ∷ later)) =
    open_group ++ (r ++ (decimal ++ (b')' ∷ b'|' ∷ join_groups decimal (s ∷ later))))

abbrev pub positive : ℤ → Option ℕ
positive (pos zero) = none
positive (pos (suc n)) = some (suc n)
positive (negsuc n) = none

-- the branch for two ends, where `sprintf` may run past the end of the array
unfoldable pub between_ends : ℕ → Bytes → ℕ → ℕ → Decimals → Run Bytes
between_ends buflen old low high d = do
  regs ← groups max_sub_reg old low (high - 1)
  let text =
      join_groups d.inside regs
      ++ (b'|' ∷ (open_group ++ (longtoa high ++ (d.bound ++ (b')' ∷ [])))))
  if ltb (length text) (max_sub_reg * digit_reg_size) then check_and_return text buflen else faults

-- `strictPosRegexpGen`: for one number it looks for the end of a text in an array that holds none.
unfoldable pub strict_pos_regexp_gen : ℕ → Bytes → ℤ → ℤ → Decimals → Run Bytes
strict_pos_regexp_gen buflen old low high d = elim (positive low) [
  | none ↦ fails
  | some a ↦ elim (positive high) [
    | none ↦ fails
    | some b ↦ if a == b then faults else between_ends buflen old a b d
  ]
]

-- The branches of `regexpGen` on two ends in order, behind what stands in `loc`, and with the
-- function that it calls for an interval on each side of 0.
unfoldable pub gen_branches : (ℕ → ℤ → ℤ → Run Bytes) → Bytes → ℤ → ℤ → Decimals → Bytes → Run Bytes
gen_branches again old low high d loc =
    if int_eq low high
    then returns (add_loc buffer_size loc (print_long low ++ d.inside))
    else if int_ltb low (pos 0)
    then (if int_ltb high (pos 0)
        then (do
          let start = add_loc buffer_size loc (b'\\' ∷ b'-' ∷ open_group)
          r ← strict_pos_regexp_gen (buffer_size - length start) old (neg low) (neg high) d
          returns (add_loc buffer_size (start ++ r) (b')' ∷ [])))
        else if int_eq high (pos 0)
        then (do
          let start = add_loc buffer_size loc (
              open_group
              ++ (b'0'
                  ∷ (d.bound
                      ++ (b')'
                          ∷ b'|'
                          ∷ (open_group
                              ++ (b'-'
                                  ∷ b'0'
                                  ∷ (d.inside ++ (b')' ∷ b'|' ∷ b'-' ∷ open_group))))))))
          r ← strict_pos_regexp_gen (buffer_size - length start) old (pos 1) (neg low) d
          returns (add_loc buffer_size (start ++ r) (b')' ∷ [])))
        else (do
          let start = add_loc buffer_size loc open_group
          r ← again (buffer_size - length start) low (pos 0)
          let middle = add_loc buffer_size (start ++ r) (b'|' ∷ [])
          s ← again (buffer_size - length middle) (pos 0) high
          returns (add_loc buffer_size (middle ++ s) (b')' ∷ []))))
    else if int_eq low (pos 0)
    then (do
      let start = add_loc buffer_size loc (open_group ++ (b'0' ∷ (d.inside ++ (b')' ∷ b'|' ∷ []))))
      r ← strict_pos_regexp_gen (buffer_size - length start) old (pos 1) high d
      returns (start ++ r))
    else (strict_pos_regexp_gen (buffer_size - length loc) old low high d >>= λ r.
        returns (loc ++ r))

-- `regexpGen`. Its first argument bounds the calls inside one another; those that it makes have an
-- end at 0 and make none.
unfoldable pub regexp_gen_on : ℕ → Bytes → Bool → ℕ → ℤ → ℤ → Run Bytes
regexp_gen_on zero old flottant buflen low high = unfinished
regexp_gen_on (suc depth) old flottant buflen low high =
    let swapped = int_ltb high low in
    gen_branches (regexp_gen_on depth old flottant) old (if swapped then high else low)
      (if swapped then low else high) (decimals flottant) open_group
    >>= λ loc. check_and_return (add_loc buffer_size loc no_more_digits) buflen

unfoldable pub regexp_gen : Bytes → Bool → ℕ → ℤ → ℤ → Run Bytes
regexp_gen = regexp_gen_on 2
