-- ===== src/Message/Tests.antt =====
-- Messages with an empty argument, and with one too many.
use libivy.Base.{◌≡◌, refl, List, [], ◌∷◌, Bytes}
use libivy.Message.{arg_end, scan_arg, next_arg_of, next_arg, argv, read_args, args_of}

abbrev args : List Bytes
args = (b'a' ∷ b'1' ∷ []) ∷ [] ∷ (b'b' ∷ []) ∷ []

args_of-two :
    args_of (b'x' ∷ arg_end ∷ arg_end ∷ b'y' ∷ []) ≡ argv ((b'x' ∷ []) ∷ [] ∷ (b'y' ∷ []) ∷ [])
unfolding args_of read_args next_arg next_arg_of scan_arg
args_of-two = refl
