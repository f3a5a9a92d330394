-- ===== src/Interval.antt =====
-- src/intervalRegexp.c: the regexp of the integers in an interval. A C string is the list of its
-- bytes before the NUL; a `long` here holds an `int`, so that none of its operations wraps.
pub mod Generator
pub mod Substitute
pub mod Faults
pub mod Written
pub mod Substitution
pub mod Engine
pub mod Groups
pub mod AtRank
pub mod Tests
use libivy.Base.{
  ℕ, zero, suc, ◌+◌, ◌-◌, ◌*◌, ◌/◌, ◌%◌, ◌^◌, min, Bool, true, false, not, ◌&&◌, ◌||◌, Option, none,
  some, List, [], ◌∷◌, ◌++◌, ◌==◌, ltb, leb, if◌then◌else◌, Bytes, bytes_eq, length, take, drop,
  replicate, write_at, ℤ, pos, negsuc, neg, int_ltb, int_eq,
}
use libivy.Wire.{print_nat, scan_digits}

-- What a call does: it returns a value, returns `fail`, reads or writes outside of its arrays or
-- before a value is there, or is not done in the rounds given.
pub data Run (A : Type 0) : Type 0 where
  returns : A → Run A
  fails : Run A
  faults : Run A
  unfinished : Run A

infixl 5 ◌>>=◌
abbrev pub ◌>>=◌ : {A B : Type 0} → Run A → (A → Run B) → Run B
returns a >>= f = f a
fails >>= f = fails
faults >>= f = faults
unfinished >>= f = unfinished

-- CHECK_AND_RETURN: `strcpy` of a text as long as its target writes the NUL behind it.
unfoldable pub check_and_return : Bytes → ℕ → Run Bytes
check_and_return loc buflen =
    if ltb (length loc) buflen then returns loc else if length loc == buflen then faults else fails

-- AddLocBuf, for an array of `size` bytes that holds `loc`
unfoldable pub add_loc : ℕ → Bytes → Bytes → Bytes
add_loc size loc text = take (size - 1) (loc ++ text)

-- `%ld`
unfoldable pub print_long : ℤ → Bytes
print_long (pos n) = print_nat n
print_long (negsuc n) = b'-' ∷ print_nat (suc n)

-- `longtoa`, into an array of 32 bytes
unfoldable pub longtoa : ℕ → Bytes
longtoa n = take 31 (print_long (pos n))

-- a `char` of an array that holds a string and its NUL, at an index of 64 bits
unfoldable pub char_at : Bytes → ℕ → Run ℕ
char_at [] zero = returns 0
char_at [] (suc i) = faults
char_at (c ∷ s) zero = returns c
char_at (c ∷ s) (suc i) = char_at s i

-- a write to an array
unfoldable pub store : Bytes → ℕ → ℕ → Run Bytes
store a i c = if ltb i (length a) then returns (write_at a i (c ∷ [])) else faults

-- `i - 1` and `i - j` of a `size_t`
abbrev pub size_sub : ℕ → ℕ → ℕ
size_sub i j = (i + 2 ^ 64 - j) % 2 ^ 64

-- `for (i = …; i >= 0; i--) rev[n - i - 1] = s[i]` with a `size_t i`
unfoldable pub copy_reversed : ℕ → ℕ → ℕ → Bytes → Bytes → Run Bytes
copy_reversed zero n i s rev = unfinished
copy_reversed (suc fuel) n i s rev = do
  c ← char_at s i
  rev' ← store rev (size_sub (size_sub n i) 1) c
  let i' = size_sub i 1
  let rest = copy_reversed fuel n i' s rev'
  if leb 0 i' then rest else returns rev'

-- `for (i = …; i >= 0; i--) rev[n - i] = '0'`
unfoldable pub fill_zeros : ℕ → ℕ → ℕ → Bytes → Run Bytes
fill_zeros zero n i rev = unfinished
fill_zeros (suc fuel) n i rev = do
  rev' ← store rev (size_sub n i) b'0'
  let i' = size_sub i 1
  let rest = fill_zeros fuel n i' rev'
  if leb 0 i' then rest else returns rev'

-- `while (rev[rank] == '0' && rank < n) rank++`
unfoldable pub rank_up : ℕ → ℕ → ℕ → Bytes → Run ℕ
rank_up zero n rank rev = unfinished
rank_up (suc fuel) n rank rev = do
  c ← char_at rev rank
  let rest = rank_up fuel n (rank + 1) rev
  if c == b'0' && ltb rank n then rest else returns rank

-- `while (rev_min[rank] == rev_max[rank] && rank > 0) rank--`
unfoldable pub rank_down : ℕ → Bytes → Bytes → Run ℕ
rank_down zero rev_min rev_max = returns 0
rank_down (suc rank) rev_min rev_max = do
  a ← char_at rev_min (suc rank)
  b ← char_at rev_max (suc rank)
  let rest = rank_down rank rev_min rev_max
  if a == b then rest else returns (suc rank)

unfoldable pub reverse_text : Bytes → Bytes
reverse_text [] = []
reverse_text (c ∷ s) = reverse_text s ++ (c ∷ [])

-- `atoi` of digits
abbrev pub atoi : Bytes → ℕ
atoi s = (scan_digits 0 s).0 % 2 ^ 32

pub record NextMax : Type 0 where
  pub max : ℕ
  pub rank : ℕ

-- the digits of the greatest number of the next group, with its rank
unfoldable pub next_digits : ℕ → ℕ → Bytes → Bytes → Run (Bytes × ℕ)
next_digits rank_rev rank_forw rev_min rev_max =
    if leb rank_forw rank_rev
    then (char_at rev_max rank_forw >>= λ c. returns (
      replicate rank_forw b'9'
          ++ ((c - (if rank_forw == 0 then 0 else 1)) ∷ drop (rank_forw + 1) rev_min),
      rank_forw,
    ))
    else returns (replicate (rank_rev + 1) b'9' ++ drop (rank_rev + 1) rev_min, rank_rev)

-- the rounds that are given to the loops over an array of 32 bytes: no more fit
abbrev pub rounds : ℕ
rounds = 34

-- `nextMax`, whose two arrays hold bytes of before
unfoldable pub next_max : Bytes → Bytes → Bytes → Bytes → Run NextMax
next_max rev_min rev_max min_text max_text = do
  let n = length min_text
  let k = length max_text
  zeros ← copy_reversed rounds n (size_sub n 1) min_text rev_min
  padded ← fill_zeros rounds k (size_sub k n) zeros
  reversed ← copy_reversed rounds k (size_sub k 1) max_text rev_max
  let low = take k padded
  let high = take k reversed
  rank_rev ← rank_up rounds k 0 low
  rank_forw ← rank_down (k - 1) low high
  (digits, rank) ← next_digits rank_rev rank_forw low high
  returns (record { max = min (atoi (reverse_text digits)) (atoi max_text); rank = rank + 1 })

-- `while (s[i] == '0') i++`
unfoldable pub skip_zeros : Bytes → Bytes
skip_zeros [] = []
skip_zeros (c ∷ s) = let rest = skip_zeros s in if c == b'0' then rest else c ∷ s

-- `substr` from the start, of a length of 64 bits, into an array of `buflen` bytes
unfoldable pub substr : ℕ → Bytes → ℕ → Run Bytes
substr buflen expr len = check_and_return (take (min len (length expr)) expr) buflen

-- `genPreRank`
unfoldable pub gen_pre_rank : ℕ → Bytes → Bytes → ℕ → Run Bytes
gen_pre_rank buflen min_text max_text rank = do
  let low = skip_zeros min_text
  let high = skip_zeros max_text
  a ← substr 512 low (size_sub (length low) rank)
  b ← substr 512 high (size_sub (length high) rank)
  if bytes_eq a b then check_and_return a buflen else fails

-- the text for the digits from one `char` to another one
unfoldable pub digit_range : ℕ → ℕ → Bytes
digit_range low high =
    if low == b'0' && high == b'9'
    then b'\\' ∷ b'd' ∷ []
    else if low == high
    then low ∷ []
    else if high == low + 1
    then b'[' ∷ low ∷ high ∷ b']' ∷ []
    else b'[' ∷ low ∷ b'-' ∷ high ∷ b']' ∷ []

-- `genRank`
unfoldable pub gen_rank : ℕ → Bytes → Bytes → ℕ → Run Bytes
gen_rank buflen min_text max_text rank = do
  a ← char_at min_text (size_sub (length min_text) rank)
  b ← char_at max_text (size_sub (length max_text) rank)
  check_and_return (digit_range (if ltb a b then a else b) (if ltb b a then a else b)) buflen

-- `genPostRank`
unfoldable pub gen_post_rank : ℕ → ℕ → Run Bytes
gen_post_rank buflen rank =
    check_and_return
      (if leb rank 1
        then []
        else if rank == 2
        then b'\\' ∷ b'd' ∷ []
        else b'\\' ∷ b'd' ∷ b'{' ∷ (print_nat (rank - 1) ++ (b'}' ∷ [])))
      buflen

-- `genAtRank`
unfoldable pub gen_at_rank : ℕ → Bytes → Bytes → ℕ → Run Bytes
gen_at_rank buflen min_text max_text rank = do
  a ← gen_pre_rank 512 min_text max_text rank
  b ← gen_rank (512 - length a) min_text max_text rank
  c ← gen_post_rank (512 - (length a + length b)) rank
  check_and_return (a ++ (b ++ c)) buflen
