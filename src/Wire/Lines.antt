-- ===== src/Wire/Lines.antt =====
-- A line of the protocol as `MsgSendTo` prints it, and as `Receive` takes it apart.
use libivy.Base.{
  ℕ, ◌^◌, ◌<◌, ◌≡◌, refl, sym, ap, ◌∙◌, Bool, false, some, [], ◌∷◌, ◌++◌, append_assoc, ◌==◌, Bytes,
  arith,
}
use mathlib.Core.Path.{subst}
use libivy.Discovery.{is_digit, starts_digit}
use libivy.Discovery.Fields.{IsFree}
use libivy.Message.{arg_start}
use libivy.Socket.Receive.{memchr}
use libivy.Wire.{
  MsgType, bye, add_regexp, msg, error, del_regexp, end_regexp, start_regexp, direct_msg, die, ping,
  pong, code_of, kind_of, print_int, header, scan_line,
}
use libivy.Wire.Numbers.{scan_int-print_int, scan_int-space, print_int-IsFree}

pub kind_of-code_of : (k : MsgType) → kind_of (code_of k) ≡ some k
unfolding kind_of code_of
kind_of-code_of bye = refl
kind_of-code_of add_regexp = refl
kind_of-code_of msg = refl
kind_of-code_of error = refl
kind_of-code_of del_regexp = refl
kind_of-code_of end_regexp = refl
kind_of-code_of start_regexp = refl
kind_of-code_of direct_msg = refl
kind_of-code_of die = refl
kind_of-code_of ping = refl
kind_of-code_of pong = refl

code_of-lt : (k : MsgType) → code_of k < 2 ^ 32
unfolding code_of
code_of-lt bye = omega arith
code_of-lt add_regexp = omega arith
code_of-lt msg = omega arith
code_of-lt error = omega arith
code_of-lt del_regexp = omega arith
code_of-lt end_regexp = omega arith
code_of-lt start_regexp = omega arith
code_of-lt direct_msg = omega arith
code_of-lt die = omega arith
code_of-lt ping = omega arith
code_of-lt pong = omega arith

pub IsFree-append :
    (stop : ℕ → Bool) (xs ys : Bytes) → IsFree stop xs → IsFree stop ys → IsFree stop (xs ++ ys)
IsFree-append stop [] ys h k = k
IsFree-append stop (x ∷ xs) ys h k = (h.0, IsFree-append stop xs ys h.1 k)

pub memchr-append :
    (t : ℕ) (xs rest : Bytes)
    → IsFree (λ c. c == t) xs
    → memchr t (xs ++ (t ∷ rest)) ≡ some (xs, rest)
unfolding memchr
memchr-append t [] rest h = ground arith
memchr-append t (x ∷ xs) rest h = rw (h.0, memchr-append t xs rest h.1)

-- the line without its end
abbrev pub line_text : MsgType → ℕ → Bytes → Bytes
line_text kind id message =
    print_int (code_of kind) ++ (b' ' ∷ (print_int id ++ (arg_start ∷ message)))

-- what stands before the mark of the text
abbrev front : MsgType → ℕ → Bytes
front kind id = print_int (code_of kind) ++ (b' ' ∷ print_int id)

line_text-front :
    (kind : MsgType) (id : ℕ) (message : Bytes)
    → front kind id ++ (arg_start ∷ message) ≡ line_text kind id message
line_text-front kind id message =
    append_assoc (print_int (code_of kind)) (b' ' ∷ print_int id) (arg_start ∷ message)

front-IsFree :
    (t : ℕ)
    → is_digit t ≡ false
    → (b'-' == t) ≡ false
    → (b' ' == t) ≡ false
    → (kind : MsgType) (id : ℕ) → IsFree (λ c. c == t) (front kind id)
front-IsFree t d m b kind id =
    IsFree-append (λ c. c == t) (print_int (code_of kind)) (b' ' ∷ print_int id)
      (print_int-IsFree t d m (code_of kind)) (b, print_int-IsFree t d m id)

-- `Receive` takes a line apart into the kind, the id and the text that were printed.
pub scan_line-text :
    (kind : MsgType) (id : ℕ) (message : Bytes)
    → id < 2 ^ 32
    → scan_line (line_text kind id message) ≡ some (code_of kind, id, message)
unfolding scan_line starts_digit
scan_line-text kind id message h =
    let rest = print_int id ++ (arg_start ∷ message) in
    rw
      (
        scan_int-print_int (code_of kind) (b' ' ∷ rest) (code_of-lt kind) refl,
        scan_int-space rest,
        scan_int-print_int id (arg_start ∷ message) h refl,
        (sym (ap (memchr arg_start) (line_text-front kind id message))
            ∙ memchr-append arg_start (front kind id) message
                (front-IsFree arg_start refl refl refl kind id)),
      )
      refl

-- a text with no end of line, behind a header, has none
pub line_text-IsFree :
    (kind : MsgType) (id : ℕ) (message : Bytes)
    → IsFree (λ c. c == b'\n') message
    → IsFree (λ c. c == b'\n') (line_text kind id message)
line_text-IsFree kind id message h =
    subst (IsFree (λ c. c == b'\n')) (line_text-front kind id message) (
      IsFree-append (λ c. c == b'\n') (front kind id) (arg_start ∷ message)
        (front-IsFree b'\n' refl refl refl kind id) (refl, h))

-- what is printed for a line is the text with its end
pub header-text :
    (kind : MsgType) (id : ℕ) (message : Bytes)
    → header kind id ++ message ≡ line_text kind id message
unfolding header
header-text kind id message =
    append_assoc (print_int (code_of kind)) (b' ' ∷ (print_int id ++ (arg_start ∷ []))) message
    ∙ ap (λ t. print_int (code_of kind) ++ (b' ' ∷ t))
        (append_assoc (print_int id) (arg_start ∷ []) message)
