-- ===== src/Filter/Binding.antt =====
-- src/ivybind.c: `IvyBindingCompile`, `IvyBindingExec` and `IvyBindingMatch`, over the calls of
-- PCRE2 that they make. A regexp that is not there is the `none` of an `Option`.
use libivy.Base.{
  ℕ, zero, suc, ◌+◌, ◌-◌, ◌*◌, ◌^◌, ◌||◌, Option, none, some, List, [], ◌∷◌, ◌==◌, ltb, leb,
  if◌then◌else◌, Bytes, read_at,
}

-- `PCRE2_UNSET` and INT_MAX
abbrev pub unset : ℕ
unset = 2 ^ 64 - 1

abbrev pub int_max : ℕ
int_max = 2 ^ 31 - 1

-- what `pcre2_compile` gives: a regexp, or the offset and the text of an error
pub data Compiled (C : Type 0) : Type 0 where
  compiled : C → Compiled C
  refused : ℕ → Bytes → Compiled C

-- The calls of PCRE2: the pairs that a match data made for a regexp has, and what a match answers
-- (the number of pairs that it sets, or 0 for its codes below 1) and leaves as offsets.
pub record Pcre (C : Type 0) : Type 0 where
  pub compile : Bytes → Compiled C
  pub pairs : C → ℕ
  pub match : C → Bytes → ℕ × List ℕ

-- `struct _binding`, with the offsets in its match data
pub record Binding (C : Type 0) : Type 0 where
  pub regexp : C
  pub ovector : List ℕ
  pub nb_match : ℕ

-- what `IvyBindingMatch` leaves in `arglen` and `arg`: what was there, no text, a part of the
-- message, or nothing that it may read
pub data Slice : Type 0 where
  untouched : Slice
  no_text : Slice
  slice : ℕ → ℕ → Slice
  outside : Slice

abbrev pub get_elem? : List ℕ → ℕ → Option ℕ
get_elem? [] i = none
get_elem? (x ∷ xs) zero = some x
get_elem? (x ∷ xs) (suc i) = get_elem? xs i

-- the tests of `IvyBindingMatch` on the two ends of a group
unfoldable pub slice_of : ℕ → ℕ → Slice
slice_of start end =
    if start == unset || (end == unset || (ltb end start || ltb int_max (end - start)))
    then no_text
    else slice start (end - start)

unfoldable pub slice_at : List ℕ → ℕ → Slice
slice_at ovector argnum = elim (get_elem? ovector (2 * argnum)) [
  | none ↦ outside
  | some start ↦ elim (get_elem? ovector (2 * argnum + 1)) [
    | none ↦ outside
    | some end ↦ slice_of start end
  ]
]

-- the text of a group for its receiver: none is an empty one
unfoldable pub text_at : Bytes → Slice → Bytes
text_at message (slice start len) = read_at message start len
text_at message untouched = []
text_at message no_text = []
text_at message outside = []

module _ {C : Type 0} (p : Pcre C) where
  -- `IvyBindingCompile`: a binding, or the offset, as an `int`, and the text of the error
  unfoldable pub binding_compile : Bytes → Option (Binding C) × Option (ℕ × Bytes)
  binding_compile expression = elim (p.compile expression) [
    | compiled c ↦ (some (record { regexp = c; ovector = []; nb_match = 0 }), none)
    | refused offset message ↦
        (none, some (if ltb int_max offset then int_max else offset, message))
  ]

  -- `IvyBindingExec`
  unfoldable pub binding_exec : Option (Binding C) → Bytes → Option (Binding C) × ℕ
  binding_exec none message = (none, 0)
  binding_exec (some b) message =
      let out = p.match b.regexp message in
      (
        some (record b { ovector = out.1; nb_match = if ltb out.0 1 then 0 else out.0 }),
        if ltb out.0 1 then 0 else out.0,
      )

  -- `IvyBindingMatch`, for an `argnum` that is not below 0
  unfoldable pub binding_match : Option (Binding C) → ℕ → Slice
  binding_match none argnum = untouched
  binding_match (some b) argnum =
      if ltb b.nb_match 1 || leb (p.pairs b.regexp) argnum
      then no_text
      else slice_at b.ovector argnum

  -- the loop of `RegexpCall` over the groups, from the `indx` given
  unfoldable pub groups_from : ℕ → ℕ → Bytes → Option (Binding C) → List Bytes
  groups_from zero indx message b = []
  groups_from (suc rounds) indx message b =
      text_at message (binding_match b indx) ∷ groups_from rounds (indx + 1) message b

  -- `IvyBindingExec` and the loop over the groups behind it: none where nothing matches
  unfoldable pub exec_groups : Option (Binding C) → Bytes → Option (List Bytes)
  exec_groups b message =
      let out = binding_exec b message in
      if ltb out.1 1 then none else some (groups_from (out.1 - 1) 1 message out.0)

  -- the token of an expression, as `IvyBindingFilter` extracts it
  unfoldable pub token_with : Option (Binding C) → Bytes → Option Bytes
  token_with extract expression =
      let out = binding_exec extract expression in
      if ltb out.1 1 then none else some (text_at expression (binding_match out.0 1))
