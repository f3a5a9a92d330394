-- ===== src/Bus/Applications.antt =====
-- src/ivy.c: what an application asks of the agents that are there, and regexps with intervals.
use libivy.Base.{
  ℕ, zero, suc, ◌+◌, ◌^◌, Bool, Option, List, [], ◌∷◌, ◌++◌, leb, if◌then◌else◌, Bytes, bytes_eq,
  length, find_first,
}
use libivy.Registry.{IvyClient, Reg}
use libivy.Interval.{Run, returns, faults, ◌>>=◌}
use libivy.Interval.Substitute.{substitute_interval}
use libivy.Bus.{Bus, Action, World}
use libivy.Bus.Session.{bind_msg, change_msg}

-- the test of `IvyGetApplication`
abbrev pub has_name : Bytes → IvyClient → Bool
has_name name i = bytes_eq name i.app_name

-- `IvyGetApplication`
unfoldable pub get_application : Bytes → List IvyClient → Option IvyClient
get_application name clients = find_first (has_name name) clients

-- the size of `applist`
abbrev pub applist_size : ℕ
applist_size = 4096

-- `strcat` to a text in an array of `applist_size` bytes
unfoldable pub strcat : Bytes → Bytes → Run Bytes
strcat text more =
    if leb (length text + length more + 1) applist_size then returns (text ++ more) else faults

-- the loop of `IvyGetApplicationList`
unfoldable pub append_names : Bytes → List IvyClient → Bytes → Run Bytes
append_names sep [] text = returns text
append_names sep (i ∷ clients) text =
    strcat text i.app_name >>= λ named. strcat named sep >>= λ more. append_names sep clients more

-- `IvyGetApplicationList`
unfoldable pub get_application_list : Bytes → List IvyClient → Run Bytes
get_application_list sep clients = append_names sep clients []

-- MAX_REGEXP
abbrev pub max_regexp : ℕ
max_regexp = 2 ^ 12

-- the loop of `IvyGetApplicationMessages`, with the number of places left
unfoldable pub messages_from : ℕ → List Reg → List Bytes
messages_from zero regs = []
messages_from (suc places) [] = []
messages_from (suc places) (r ∷ regs) = r.str_regexp ∷ messages_from places regs

-- `IvyGetApplicationMessages`
unfoldable pub get_application_messages : IvyClient → List Bytes
get_application_messages i = messages_from max_regexp i.src_reg_list

module _ {B : Type 0} (w : World B) where
  -- `IvyBindMsg`, from the text that its format makes; `old` is what the arrays of the generator of
  -- intervals hold before.
  unfoldable pub bind_text : Bytes → Option ℕ → Bytes → Bus B → Run (Bus B × List Action)
  bind_text old callback text b =
      substitute_interval old text >>= λ regexp. returns (bind_msg w callback regexp b)

  -- `IvyChangeMsg`, likewise
  unfoldable pub change_text : Bytes → ℕ → Bytes → Bus B → Run (Bus B × List Action)
  change_text old id text b =
      substitute_interval old text >>= λ regexp. returns (change_msg w id regexp b)
