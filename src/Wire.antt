-- ===== src/Wire.antt =====
-- src/ivy.c: the lines of the protocol, as `MsgSendTo` and `RegexpCall` print them and `Receive`
-- takes them apart. An `int` is its bit pattern of 32 bits.
pub mod Numbers
pub mod Lines
use libivy.Base.{
  ℕ, zero, suc, ◌+◌, ◌-◌, ◌*◌, ◌/◌, ◌%◌, ◌^◌, Bool, true, false, ◌&&◌, ◌||◌, Option, none, some,
  ◌>>=◌, List, [], ◌∷◌, ◌++◌, ◌==◌, ltb, leb, if◌then◌else◌, Bytes,
}
use libivy.Discovery.{is_digit, starts_digit}
use libivy.Message.{arg_start}
use libivy.Socket.Receive.{memchr}

-- `MsgType`
pub data MsgType : Type 0 where
  bye add_regexp msg error del_regexp end_regexp start_regexp direct_msg die ping pong : MsgType

unfoldable pub code_of : MsgType → ℕ
code_of bye = 0
code_of add_regexp = 1
code_of msg = 2
code_of error = 3
code_of del_regexp = 4
code_of end_regexp = 5
code_of start_regexp = 6
code_of direct_msg = 7
code_of die = 8
code_of ping = 9
code_of pong = 10

-- the case of the `switch` of `Receive`, none for its default
unfoldable pub kind_of : ℕ → Option MsgType
kind_of n =
    if n == 0
    then some bye
    else if n == 1
    then some add_regexp
    else if n == 2
    then some msg
    else if n == 3
    then some error
    else if n == 4
    then some del_regexp
    else if n == 5
    then some end_regexp
    else if n == 6
    then some start_regexp
    else if n == 7
    then some direct_msg
    else if n == 8
    then some die
    else if n == 9
    then some ping
    else if n == 10
    then some pong
    else none

-- The digits of a number, on as much fuel as its value and one.
unfoldable pub print_digits : ℕ → ℕ → Bytes
print_digits zero n = []
print_digits (suc fuel) n =
    let more = print_digits fuel (n / 10) ++ ((b'0' + n % 10) ∷ []) in
    if ltb n 10 then (b'0' + n) ∷ [] else more

abbrev pub print_nat : ℕ → Bytes
print_nat n = print_digits (suc n) n

-- `%d`
unfoldable pub print_int : ℕ → Bytes
print_int n = if ltb n (2 ^ 31) then print_nat n else b'-' ∷ print_nat (2 ^ 32 - n)

-- the format `"%d %d" ARG_START`, of `MsgSendTo` and of `bufferId`
unfoldable pub header : MsgType → ℕ → Bytes
header kind id = print_int (code_of kind) ++ (b' ' ∷ (print_int id ++ (arg_start ∷ [])))

-- what `MsgSendTo` sends
unfoldable pub line_of : MsgType → ℕ → Bytes → Bytes
line_of kind id message = header kind id ++ (message ++ (b'\n' ∷ []))

-- `isspace`, for the blanks that `sscanf` passes over
abbrev pub is_space : ℕ → Bool
is_space c = c == b' ' || (leb 9 c && leb c 13)

unfoldable pub skip_spaces : Bytes → Bytes
skip_spaces [] = []
skip_spaces (c ∷ p) = let rest = skip_spaces p in if is_space c then rest else c ∷ p

-- digits behind those that make `acc`
unfoldable pub scan_digits : ℕ → Bytes → ℕ × Bytes
scan_digits acc [] = (acc, [])
scan_digits acc (c ∷ p) =
    let rest = scan_digits (acc * 10 + (c - b'0')) p in if is_digit c then rest else (acc, c ∷ p)

-- the digits of a `%d` behind its sign
unfoldable pub scan_unsigned : (ℕ → ℕ) → Bytes → Option (ℕ × Bytes)
scan_unsigned sign p =
    let out = scan_digits 0 p in
    if starts_digit p then some (sign (out.0 % 2 ^ 32), out.1) else none

unfoldable pub scan_signed : Bytes → Option (ℕ × Bytes)
scan_signed [] = none
scan_signed (c ∷ p) =
    if c == b'-'
    then scan_unsigned (λ n. (2 ^ 32 - n) % 2 ^ 32) p
    else if c == b'+'
    then scan_unsigned (λ n. n) p
    else scan_unsigned (λ n. n) (c ∷ p)

-- `%d` of `sscanf`; a number of more than 32 bits, which C leaves open, wraps.
unfoldable pub scan_int : Bytes → Option (ℕ × Bytes)
scan_int p = scan_signed (skip_spaces p)

-- `sscanf (line, "%d %d", …)` with the test that both are there, and `strstr` for ARG_START: the
-- kind, the id, and the text behind the mark.
unfoldable pub scan_line : Bytes → Option (ℕ × ℕ × Bytes)
scan_line line = do
  (kind, p) ← scan_int line
  (id, _) ← scan_int p
  (_, arg) ← memchr arg_start line
  some (kind, id, arg)
