-- ===== src/Interval/Substitute.antt =====
-- src/ivy.c: `substituteInterval`, which puts a regexp in place of each interval of a text.
use libivy.Base.{
  ℕ, zero, suc, ◌+◌, ◌-◌, ◌^◌, Bool, not, Option, none, some, [], ◌∷◌, ◌++◌, ◌==◌, ltb, leb,
  if◌then◌else◌, Bytes, length, take, drop, bytes_eq, ℤ, pos, negsuc,
}
use libivy.Wire.{scan_int}
use libivy.Socket.Receive.{memchr}
use libivy.Interval.{Run, returns, fails, faults, unfinished, ◌>>=◌}
use libivy.Interval.Generator.{regexp_gen, buffer_size}

-- `(?I`
abbrev pub mark : Bytes
mark = b'(' ∷ b'?' ∷ b'I' ∷ []

-- `strstr` for the mark: the bytes before it and those from it on
unfoldable pub find_mark : Bytes → Option (Bytes × Bytes)
find_mark [] = none
find_mark (c ∷ s) =
    let rest = find_mark s in
    if bytes_eq mark (take 3 (c ∷ s))
    then some ([], c ∷ s)
    else elim rest [ none ↦ none | some (before, at) ↦ some (c ∷ before, at) ]

-- the `int` of a bit pattern of 32 bits
abbrev pub int_of : ℕ → ℤ
int_of n = if ltb n (2 ^ 31) then pos n else negsuc (2 ^ 32 - n - 1)

pub record Interval : Type 0 where
  pub low : ℤ
  pub high : ℤ
  pub with_decimal : Bool

first_byte : Bytes → Option ℕ
first_byte [] = none
first_byte (c ∷ p) = some c

-- `#` as `sscanf` takes it
unfoldable pub skip_sharp : Bytes → Option Bytes
skip_sharp [] = none
skip_sharp (c ∷ p) = if c == b'#' then some p else none

-- `sscanf (at, "(?I%d#%d%c", …)`, none where it leaves a variable without a value
unfoldable pub scan_interval : Bytes → Option Interval
unfolding first_byte
scan_interval at = elim (scan_int (drop 3 at)) [
  | none ↦ none
  | some (a, p) ↦ elim (skip_sharp p) [
    | none ↦ none
    | some q ↦ elim (scan_int q) [
      | none ↦ none
      | some (b, r) ↦ elim (first_byte r) [
        | none ↦ none
        | some c ↦ some (record { low = int_of a; high = int_of b; with_decimal = not (c == b'i') })
      ]
    ]
  ]
]

-- One interval, at `at`, put behind the `dst` of the array: what the array holds then, and the text
-- behind the interval. Where `regexpGen` fails the array holds no string behind `dst`.
unfoldable pub put_interval : Bytes → Bytes → Bytes → Run (Bytes × Bytes)
put_interval old dst at = elim (scan_interval at) [
  | none ↦ faults
  | some i ↦ elim (regexp_gen old i.with_decimal (buffer_size - length dst) i.low i.high) [
    | returns r ↦ elim (memchr b')' at) [
      | none ↦ faults
      | some (_, behind) ↦ returns (dst ++ r, behind)
    ]
    | fails ↦ faults
    | faults ↦ faults
    | unfinished ↦ unfinished
  ]
]

-- the `while` over the intervals, and `strncat` of what is left
unfoldable pub put_intervals : ℕ → Bytes → Bytes → Bytes → Run Bytes
put_intervals zero old dst text = unfinished
put_intervals (suc fuel) old dst text = elim (find_mark text) [
  | none ↦ if ltb (length text) (buffer_size - length dst) then returns (dst ++ text) else faults
  | some (before, at) ↦
      if leb (length dst + length before) buffer_size
      then (put_interval old (dst ++ before) at >>= λ out. put_intervals fuel old out.0 out.1)
      else faults
]

-- `substituteInterval`; each round takes a mark from the text.
unfoldable pub substitute_interval : Bytes → Bytes → Run Bytes
substitute_interval old text = elim (find_mark text) [
  | none ↦ returns text
  | some _ ↦ put_intervals (suc (length text)) old [] text
]
