-- ===== src/Probe.antt =====
-- tools/ivyprobe.c: the commands that a user types at an agent.
pub mod Commands
pub mod DieAll
pub mod Files
pub mod Regexps
pub mod Tests
use libivy.Base.{
  ℕ, ◌+◌, Bool, true, false, ◌||◌, Option, none, some, List, [], ◌∷◌, ◌==◌, if◌then◌else◌, Bytes,
  bytes_eq,
}
use libivy.Interval.{Run, returns, faults}
use libivy.Bus.{Bus, Action}

-- a byte of the delimiters of `strtok`
unfoldable pub is_any : Bytes → ℕ → Bool
is_any [] c = false
is_any (d ∷ delims) c = c == d || is_any delims c

unfoldable pub skip_any : Bytes → Bytes → Bytes
skip_any delims [] = []
skip_any delims (c ∷ s) = let rest = skip_any delims s in if is_any delims c then rest else c ∷ s

-- a token with what is behind the delimiter that ends it
unfoldable pub cut_token : Bytes → Bytes → Bytes × Bytes
cut_token delims [] = ([], [])
cut_token delims (c ∷ s) =
    let rest = cut_token delims s in if is_any delims c then ([], s) else (c ∷ rest.0, rest.1)

-- `strtok`, from the text that it has come to: the token, or none, and where it stands then
unfoldable pub strtok : Bytes → Bytes → Option Bytes × Bytes
strtok delims s = elim (skip_any delims s) [
  | [] ↦ (none, [])
  | c ∷ rest ↦ (let cut = cut_token delims (c ∷ rest) in (some cut.0, cut.1))
]

-- `Chop` for a text with a byte in it
unfoldable pub chop_end : ℕ → Bytes → Bytes
chop_end c [] = if c == b'\n' then [] else c ∷ []
chop_end c (d ∷ s) = c ∷ chop_end d s

-- `Chop`: of an empty text it reads the byte in front.
unfoldable pub chop : Option Bytes → Run (Option Bytes)
chop none = returns none
chop (some []) = faults
chop (some (c ∷ s)) = returns (some (chop_end c s))

-- The commands that `HandleStdin` tells apart, and any other.
pub data Command : Type 0 where
  kill kill_all bind_regexp where_is direct who ping_one print_help show_bind quit unknown : Command

-- the tests of `HandleStdin`, in their order
unfoldable pub command_of : Bytes → Command
command_of cmd =
    if bytes_eq cmd (b'd' ∷ b'i' ∷ b'e' ∷ [])
    then kill
    else if bytes_eq cmd (
        b'd' ∷ b'i' ∷ b'e' ∷ b'a' ∷ b'l' ∷ b'l' ∷ b'-' ∷ b'y' ∷ b'e' ∷ b's' ∷ b'-' ∷ b'i' ∷ b'-'
        ∷ b'a' ∷ b'm' ∷ b'-' ∷ b's' ∷ b'u' ∷ b'r' ∷ b'e' ∷ [])
    then kill_all
    else if bytes_eq cmd (b'b' ∷ b'i' ∷ b'n' ∷ b'd' ∷ [])
    then bind_regexp
    else if bytes_eq cmd (b'w' ∷ b'h' ∷ b'e' ∷ b'r' ∷ b'e' ∷ [])
    then where_is
    else if bytes_eq cmd (b'd' ∷ b'i' ∷ b'r' ∷ b'e' ∷ b'c' ∷ b't' ∷ [])
    then direct
    else if bytes_eq cmd (b'w' ∷ b'h' ∷ b'o' ∷ [])
    then who
    else if bytes_eq cmd (b'p' ∷ b'i' ∷ b'n' ∷ b'g' ∷ [])
    then ping_one
    else if bytes_eq cmd (b'h' ∷ b'e' ∷ b'l' ∷ b'p' ∷ [])
    then print_help
    else if bytes_eq cmd (b's' ∷ b'h' ∷ b'o' ∷ b'w' ∷ b'b' ∷ b'i' ∷ b'n' ∷ b'd' ∷ [])
    then show_bind
    else if bytes_eq cmd (b'q' ∷ b'u' ∷ b'i' ∷ b't' ∷ [])
    then quit
    else unknown

-- The agent, `fbindcallback`, and the numbers of agents that are there and waited for, each the
-- pattern of 32 bits of an `int`.
pub record Probe (B : Type 0) : Type 0 where
  pub bus : Bus B
  pub prints_binds : Bool
  pub app_count : ℕ
  pub wait_count : ℕ

-- What a command does, and what it prints: the line of an agent on its host names it and its
-- socket.
pub data Output : Type 0 where
  acts : Action → Output
  no_application : Bytes → Output
  killing : Bytes → Output
  not_compiled : Bytes → Output
  is_on : Bytes → ℕ → Output
  apps : Bytes → Output
  help : Output
  sets_bind_callback : Bool → Output
  sent_to : ℕ → Output
  stdin_watched : Output
  stdin_removed : Output
  came : ℕ → Output
  left : ℕ → Output
  unknown_event : ℕ → Output
  exits : Output

-- a command's outcome: a fault, or the probe with what is done and printed
abbrev pub Handled : Type 0 → Type 0
Handled B = Run (Probe B × List Output)
