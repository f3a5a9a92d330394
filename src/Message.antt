-- ===== src/Message.antt =====
-- src/ivy.c: the arguments of a message, as `RegexpCall` writes them and `Receive` reads them.
pub mod Framing
pub mod Tests
use libivy.Base.{
  ℕ, zero, suc, ◌+◌, ◌-◌, ◌≡◌, Bool, true, false, Option, none, some, List, [], ◌∷◌, ◌++◌, ◌==◌,
  leb, if◌then◌else◌, Bytes, length,
}

-- ARG_START and ARG_END, and MAX_MATCHING_ARGS of param.h
abbrev pub arg_start : ℕ
arg_start = 2

abbrev pub arg_end : ℕ
arg_end = 3

abbrev pub max_matching_args : ℕ
max_matching_args = 120

-- The scan of `nextArg` from `start`: the bytes before the separator or the NUL, and what stands
-- from there on.
unfoldable pub scan_arg : ℕ → Bytes → Bytes × Bytes
scan_arg separator [] = ([], [])
scan_arg separator (c ∷ s) =
    let (token, rest) = scan_arg separator s in
    if c == separator then ([], c ∷ s) else (c ∷ token, rest)

-- `nextArg` from its static `end`: the token and the new `end`, or NULL where nothing is consumed.
unfoldable pub next_arg_of : Bytes × Bytes → Option (Bytes × Bytes)
next_arg_of ([], []) = none
next_arg_of (c ∷ token, []) = some (c ∷ token, [])
next_arg_of (token, _ ∷ rest) = some (token, rest)

unfoldable pub next_arg : ℕ → Bytes → Option (Bytes × Bytes)
next_arg separator s = next_arg_of (scan_arg separator s)

-- What the loop of `Receive` makes of the arguments: `argv`, or the message is refused.
pub data Args : Type 0 where
  argv : List Bytes → Args
  too_many : Args

abbrev pub cons_arg : Bytes → Args → Args
cons_arg a (argv l) = argv (a ∷ l)
cons_arg a too_many = too_many

-- The loop with `argc` arguments so far. Each round consumes a byte, so as much fuel as bytes and
-- one is enough.
unfoldable pub read_args : ℕ → ℕ → Bytes → Args
read_args zero argc s = argv []
read_args (suc fuel) argc s = elim (next_arg arg_end s) [
  | none ↦ argv []
  | some (arg, rest) ↦
      if leb max_matching_args argc then too_many else cons_arg arg (read_args fuel (argc + 1) rest)
]

-- the arguments of a message, from the byte behind ARG_START
unfoldable pub args_of : Bytes → Args
args_of s = read_args (suc (length s)) 0 s

-- The buffer of arguments that `RegexpCall` makes: `"%.*s" ARG_END` for each one.
unfoldable pub encode_args : List Bytes → Bytes
encode_args [] = []
encode_args (a ∷ args) = a ++ (arg_end ∷ encode_args args)
