-- ===== src/Probe/Commands.antt =====
-- tools/ivyprobe.c: `HandleStdin` and `ApplicationCallback`, over an agent of src/ivy.c.
use libivy.Base.{
  ℕ, zero, suc, ◌+◌, ◌-◌, ◌%◌, ◌^◌, Bool, not, Option, none, some, List, [], ◌∷◌, ◌++◌, map, ◌==◌,
  if◌then◌else◌, Bytes, length,
}
use libivy.Registry.{IvyClient}
use libivy.Dispatch.{send_msg}
use libivy.Wire.{scan_int}
use libivy.Interval.{Run, returns, faults, ◌>>=◌}
use libivy.Bus.{Bus, World, AppEvent, connected, disconnected, frames_of_call, stopped}
use libivy.Bus.Session.{send_die_msg, send_direct_msg, send_ping}
use libivy.Bus.Applications.{get_application, get_application_list, bind_text}
use libivy.Probe.{
  strtok, chop, Command, kill, kill_all, bind_regexp, where_is, direct, who, ping_one, print_help,
  show_bind, quit, unknown, command_of, Probe, Output, acts, no_application, killing, not_compiled,
  is_on, apps, help, sets_bind_callback, sent_to, stdin_watched, stdin_removed, came, left,
  unknown_event, exits, Handled,
}

-- the delimiters of `HandleStdin`
abbrev pub blanks : Bytes
blanks = b' ' ∷ b'\n' ∷ []

abbrev pub separator : Bytes
separator = b'#' ∷ []

abbrev pub command_ends : Bytes
command_ends = b'.' ∷ b':' ∷ b' ' ∷ b'\n' ∷ []

-- `atoi`
unfoldable pub int_at : Bytes → ℕ
int_at s = elim (scan_int s) [ none ↦ 0 | some (n, _) ↦ n ]

-- a NULL given to `%s`, to `atoi` or to `strcmp` is undefined
unfoldable pub not_null : Option Bytes → Run Bytes
not_null none = faults
not_null (some s) = returns s

-- The number of the callback that `HandleStdin` binds; it is `Callback`.
abbrev pub print_callback : ℕ
print_callback = 0

module _ {B : Type 0} (w : World B) where
  open w use {library, exec}
  open library use {compile}

  -- `.die` and the others that take the name of an agent: what is done with the agent and with the
  -- text behind its name. Without a name they do nothing.
  unfoldable pub with_application :
      Bytes → Probe B → (IvyClient → Bytes → Bytes → Handled B) → Handled B
  with_application text p body =
      let token = strtok blanks text in
      elim token.0 [
        | none ↦ returns (p, [])
        | some arg ↦ elim (get_application arg p.bus.store.all_clients) [
          | none ↦ returns (p, no_application arg ∷ [])
          | some c ↦ body c arg token.1
        ]
      ]

  -- a round of the loop of `.dieall-yes-i-am-sure`, for the name that `strtok` has found
  unfoldable pub die_named : Bus B → Bytes → List Output
  die_named b arg = elim (get_application arg b.store.all_clients) [
    | none ↦ no_application arg ∷ []
    | some c ↦ killing arg ∷ map acts (send_die_msg w b.config c.client)
  ]

  -- the loop; a round takes a byte or more from the list of names.
  unfoldable pub die_all : ℕ → Bus B → Bytes → List Output
  die_all zero b names = []
  die_all (suc fuel) b names =
      let token = strtok separator names in
      elim token.0 [ none ↦ [] | some arg ↦ die_named b arg ++ die_all fuel b token.1 ]

  -- `.dieall-yes-i-am-sure`
  unfoldable pub handle_die_all : Probe B → Handled B
  handle_die_all p = get_application_list separator p.bus.store.all_clients >>= λ names.
      returns (p, die_all (suc (length names)) p.bus names)

  -- `.bind`; `old` is what the arrays of the generator of intervals hold.
  unfoldable pub handle_bind : Bytes → Bytes → Probe B → Handled B
  handle_bind old text p = chop (strtok (b'\'' ∷ []) text).0 >>= λ chopped. elim chopped [
    | none ↦ returns (p, [])
    | some arg ↦ elim (compile arg) [
      | none ↦ returns (p, not_compiled arg ∷ [])
      | some binding ↦ bind_text w old (some print_callback) arg p.bus >>= λ out.
          returns (record p { bus = out.0 }, map acts out.1)
    ]
  ]

  -- `.direct` for an agent
  unfoldable pub handle_direct : Probe B → IvyClient → Bytes → Handled B
  handle_direct p c text =
      let number = strtok (b' ' ∷ []) text in
      not_null number.0 >>= λ id. chop (strtok (b'\'' ∷ []) number.1).0 >>= λ chopped.
      not_null chopped >>= λ message.
      returns (p, map acts (send_direct_msg w p.bus.config c.client (int_at id) message))

  -- `.ping` for an agent, at the time `now`
  unfoldable pub handle_ping : ℕ → Probe B → IvyClient → Handled B
  handle_ping now p c =
      let out = send_ping w now c p.bus in returns (record p { bus = out.0 }, map acts out.1)

  -- a command with the text behind it
  unfoldable pub handle_command : Bytes → ℕ → Command → Bytes → Probe B → Handled B
  handle_command old now kill text p =
      with_application text p
        (λ c arg rest. returns (p, map acts (send_die_msg w p.bus.config c.client)))
  handle_command old now kill_all text p = handle_die_all p
  handle_command old now bind_regexp text p = handle_bind old text p
  handle_command old now where_is text p =
      with_application text p (λ c arg rest. returns (p, is_on arg c.client ∷ []))
  handle_command old now direct text p =
      with_application text p (λ c arg rest. handle_direct p c rest)
  handle_command old now who text p =
      get_application_list (b',' ∷ []) p.bus.store.all_clients >>= λ names.
      returns (p, apps names ∷ [])
  handle_command old now ping_one text p =
      with_application text p (λ c arg rest. handle_ping now p c)
  handle_command old now print_help text p = returns (p, help ∷ [])
  handle_command old now show_bind text p =
      returns (
        record p { prints_binds = not p.prints_binds },
        sets_bind_callback (not p.prints_binds) ∷ [],
      )
  handle_command old now quit text p = returns (p, exits ∷ [])
  handle_command old now unknown text p = returns (p, [])

  -- a line that is no command is sent on the bus
  unfoldable pub handle_message : Bool → Bool → Bytes → Probe B → Handled B
  handle_message debug_binary_msg debug_filter line p =
      not_null (strtok (b'\n' ∷ []) line).0 >>= λ message.
      let out =
        send_msg exec debug_binary_msg debug_filter p.bus.filter message p.bus.store.dictionary in
      returns
        (p, map acts (frames_of_call w p.bus.config out.frames) ++ (sent_to out.match_count ∷ []))

  -- a line with something on it
  unfoldable pub handle_line : Bool → Bool → Bytes → ℕ → Bytes → Probe B → Handled B
  handle_line debug_binary_msg debug_filter old now [] p = faults
  handle_line debug_binary_msg debug_filter old now (c ∷ line) p =
      if c == b'.'
      then (let token = strtok command_ends (c ∷ line) in
          not_null token.0 >>= λ cmd. handle_command old now (command_of cmd) token.1 p)
      else handle_message debug_binary_msg debug_filter (c ∷ line) p

  -- `HandleStdin`, with what `fgets` answers
  unfoldable pub handle_stdin : Bool → Bool → Bytes → ℕ → Option Bytes → Probe B → Handled B
  handle_stdin debug_binary_msg debug_filter old now none p =
      returns (p, stdin_removed ∷ acts stopped ∷ [])
  handle_stdin debug_binary_msg debug_filter old now (some line) p =
      handle_line debug_binary_msg debug_filter old now line p

  -- `ApplicationCallback`: an agent is there, and standard input is watched when as many as are
  -- waited for are.
  unfoldable pub application_callback : ℕ → AppEvent → Probe B → Probe B × List Output
  application_callback client connected p =
      let count = (p.app_count + 1) % 2 ^ 32 in
      (
        record p { app_count = count },
        came client ∷ (if count == p.wait_count then stdin_watched ∷ [] else []),
      )
  application_callback client disconnected p =
      (record p { app_count = (p.app_count + (2 ^ 32 - 1)) % 2 ^ 32 }, left client ∷ [])
  application_callback client _ p = (p, unknown_event client ∷ [])
