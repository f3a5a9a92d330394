-- ===== src/Message/Framing.antt =====
-- The arguments of a message, written and read.
use libivy.Base.{
  ℕ, zero, suc, ◌+◌, ◌≤◌, ◌<◌, ◌≡◌, refl, ◌∙◌, false, some, List, [], ◌∷◌, ◌++◌, ◌==◌, leb,
  if◌then◌else◌, Bytes, length, arith, length-append, Bool-cases, inl, inr,
}
use libivy.Message.{
  arg_end, max_matching_args, scan_arg, next_arg_of, next_arg, Args, argv, too_many, cons_arg,
  read_args, args_of, encode_args,
}

-- a text with no ARG_END
abbrev pub IsArg : Bytes → Type 0
IsArg [] = Unit
IsArg (c ∷ a) = ((c == arg_end) ≡ false) × IsArg a

abbrev pub AllArgs : List Bytes → Type 0
AllArgs [] = Unit
AllArgs (a ∷ args) = IsArg a × AllArgs args

scan_arg-encoded :
    (a rest : Bytes) → IsArg a → scan_arg arg_end (a ++ (arg_end ∷ rest)) ≡ (a, arg_end ∷ rest)
unfolding scan_arg
scan_arg-encoded [] rest h = refl
scan_arg-encoded (c ∷ a) rest h = rw (h.0, scan_arg-encoded a rest h.1)

-- An argument is read up to its ARG_END, the empty one too.
next_arg-encoded :
    (a rest : Bytes) → IsArg a → next_arg arg_end (a ++ (arg_end ∷ rest)) ≡ some (a, rest)
unfolding next_arg
next_arg-encoded a rest h = rw (scan_arg-encoded a rest h) (consumed a)
  where
    consumed : (b : Bytes) → next_arg_of (b, arg_end ∷ rest) ≡ some (b, rest)
    consumed [] = unfold next_arg_of in refl
    consumed (x ∷ b) = unfold next_arg_of in refl

-- what `Receive` should make of `n` more arguments behind `argc`
abbrev received : ℕ → List Bytes → Args
received argc args = if leb (argc + length args) max_matching_args then argv args else too_many

read_args_step :
    (a rest : Bytes) (fuel argc : ℕ)
    → IsArg a
    → read_args (suc fuel) argc (a ++ (arg_end ∷ rest)) ≡ (
        if leb max_matching_args argc
        then too_many
        else cons_arg a (read_args fuel (argc + 1) rest))
unfolding read_args
read_args_step a rest fuel argc h = rw (next_arg-encoded a rest h, read_args)

read_args_end : (fuel argc : ℕ) → read_args (suc fuel) argc [] ≡ argv []
unfolding read_args next_arg scan_arg next_arg_of
read_args_end fuel argc = refl

read_args-encode :
    (args : List Bytes) (fuel argc : ℕ)
    → length (encode_args args) < fuel
    → argc ≤ max_matching_args
    → AllArgs args
    → read_args fuel argc (encode_args args) ≡ received argc args
unfolding encode_args
read_args-encode [] zero argc f m h = elim f [ ]
read_args-encode (a ∷ args) zero argc f m h = elim f [ ]
read_args-encode [] (suc fuel) argc f m h = read_args_end fuel argc ∙ ground arith
read_args-encode (a ∷ args) (suc fuel) argc f m h =
    read_args_step a (encode_args args) fuel argc h.0
    ∙ elim (Bool-cases (leb max_matching_args argc)) [
      | inl e ↦ rw e (ground arith)
      | inr e ↦
          let l : length (encode_args args) < fuel =
            omega (arith, length-append a (arg_end ∷ encode_args args)) in
          rw (e, read_args-encode args fuel (argc + 1) l (ground arith) h.1) (ground arith)
    ]

-- The arguments that `RegexpCall` writes, if none holds ARG_END, are those that `Receive` hands to
-- the callback, the empty ones included, if they are 120 at most; a longer list is refused as a
-- whole.
pub args_of-encode :
    (args : List Bytes)
    → AllArgs args
    → args_of (encode_args args)
      ≡ (if leb (length args) max_matching_args then argv args else too_many)
unfolding args_of
args_of-encode args h = read_args-encode args _ 0 (omega arith) (omega arith) h ∙ ground arith
