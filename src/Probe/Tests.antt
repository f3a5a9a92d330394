-- ===== src/Probe/Tests.antt =====
-- A probe that two agents are connected to, and a file of two regexps and a half.
use libivy.Base.{
  ◌≡◌, refl, false, some, List, [], ◌∷◌, ◌++◌, Bytes, bytes_eq, ◌≢◌, length, ap, arith,
}
use libivy.Registry.{IvyClient}
use libivy.Registry.Tests.{ann, bob}
use libivy.Interval.{returns}
use libivy.Interval.Substitute.{find_mark}
use libivy.Bus.Tests.{world, here}
use libivy.Probe.{Probe, is_any}
use libivy.Probe.Commands.{handle_stdin}
use libivy.Probe.DieAll.{AreNamed, AreDistinct, die_all_line, deaths, handle_stdin-deaths}
use libivy.Probe.Files.{bind_msg_of_file}
use libivy.Probe.Regexps.{IsLastLine, AreRegexps, file_of, bind_all, bind_msg_of_file-binds}

abbrev short : Bytes
short = b'b' ∷ []

abbrev long : Bytes
long = b'a' ∷ b'n' ∷ []

-- the agents by names of their own
abbrev clients : List IvyClient
clients = record bob { app_name = short } ∷ record ann { app_name = long } ∷ []

abbrev probe : Probe Bytes
probe = record {
  bus = record here { store = record here.store { all_clients = clients } };
  prints_binds = false;
  app_count = 2;
  wait_count = 0;
}

named : AreNamed probe.bus.store.all_clients
unfolding is_any
named = ((omega arith, (refl, tt)), ((omega arith, (refl, (refl, tt))), tt))

other_name : long ≢ short
other_name e = absurd (omega (arith, ap length e))

distinct : AreDistinct probe.bus.store.all_clients
distinct = ((other_name, tt), (tt, tt))

handle_stdin-deaths_example :
    handle_stdin world false false [] 0 (some die_all_line) probe
    ≡ returns (probe, deaths world here.config clients)
handle_stdin-deaths_example =
    handle_stdin-deaths world false false [] 0 probe named distinct (omega arith)

abbrev regexps : List Bytes
regexps = (b'h' ∷ b'i' ∷ []) ∷ (b'b' ∷ b'y' ∷ b'e' ∷ []) ∷ []

abbrev half : Bytes
half = b'o' ∷ b'k' ∷ []

regexps-AreRegexps : AreRegexps regexps
unfolding find_mark bytes_eq
regexps-AreRegexps = (
  omega arith,
  ((refl, (refl, tt)), omega arith, refl, (refl, (refl, tt))),
  (omega arith, ((refl, (refl, (refl, tt))), omega arith, refl, (refl, (refl, (refl, tt)))), tt),
)

half-IsLastLine : IsLastLine half
unfolding find_mark bytes_eq
half-IsLastLine = ((refl, (refl, tt)), omega arith, refl, (refl, (refl, tt)))

-- of the last line its first byte is bound
bind_msg_of_file-binds_example :
    bind_msg_of_file world [] (file_of regexps half) here
    ≡ returns (bind_all world [] (regexps ++ ((b'o' ∷ []) ∷ [])) here)
bind_msg_of_file-binds_example =
    bind_msg_of_file-binds world [] regexps half here regexps-AreRegexps half-IsLastLine
