-- ===== src/Probe/DieAll.antt =====
-- tools/ivyprobe.c: `.dieall-yes-i-am-sure`, from the typed line to what is sent.
use libivy.Base.{
  ℕ, zero, suc, ◌<◌, ◌≡◌, ◌≢◌, refl, ap, ◌∙◌, true, false, Bool, none, some, List, [], ◌∷◌, ◌++◌,
  map, ltb, Bytes, bytes_eq, bytes_eq_refl, bytes_eq_iff, Bool-cases, inl, inr, length,
  length-append, arith, take, drop,
}
use libivy.Registry.{IvyClient}
use libivy.Discovery.Fields.{IsFree}
use libivy.Interval.{returns}
use libivy.Wire.{die, line_of}
use libivy.Bus.{Config, Bus, World, sent, msg_send_to, congestion_event}
use libivy.Bus.Session.{send_die_msg}
use libivy.Bus.Applications.{applist_size, get_application, get_application_list}
use libivy.Bus.Names.{names_with, get_application_list-bounded}
use libivy.Probe.{
  kill_all, is_any, skip_any, cut_token, strtok, command_of, Probe, Output, acts, killing,
}
use libivy.Probe.Commands.{
  separator, command_ends, not_null, die_named, die_all, handle_die_all, handle_command,
  handle_line, handle_stdin,
}

-- a name with a byte in it and no `#`
abbrev pub IsName : Bytes → Type 0
IsName name = (0 < length name) × IsFree (is_any separator) name

abbrev pub AreNamed : List IvyClient → Type 0
AreNamed [] = Unit
AreNamed (i ∷ clients) = IsName i.app_name × AreNamed clients

-- no agent has the name of one in front of it
abbrev pub IsOther : IvyClient → List IvyClient → Type 0
IsOther i [] = Unit
IsOther i (j ∷ clients) = (j.app_name ≢ i.app_name) × IsOther i clients

abbrev pub AreDistinct : List IvyClient → Type 0
AreDistinct [] = Unit
AreDistinct (i ∷ clients) = IsOther i clients × AreDistinct clients

cut_token-append :
    (delims name rest : Bytes) (h : ℕ)
    → IsFree (is_any delims) name
    → is_any delims h ≡ true
    → cut_token delims (name ++ (h ∷ rest)) ≡ (name, rest)
unfolding cut_token
cut_token-append delims [] rest h f e = rw e refl
cut_token-append delims (c ∷ name) rest h f e =
    rw f.0 (rw (cut_token-append delims name rest h f.1 e) refl)

strtok-append :
    (delims name rest : Bytes) (h : ℕ)
    → 0 < length name
    → IsFree (is_any delims) name
    → is_any delims h ≡ true
    → strtok delims (name ++ (h ∷ rest)) ≡ (some name, rest)
unfolding strtok skip_any
strtok-append delims [] rest h l f e = absurd (omega arith)
strtok-append delims (c ∷ name) rest h l f e =
    rw (f.0, strtok) (rw (cut_token-append delims (c ∷ name) rest h f e) refl)

strtok-nil : (delims : Bytes) → strtok delims [] ≡ (none, [])
unfolding strtok skip_any
strtok-nil delims = refl

separates : is_any separator b'#' ≡ true
unfolding is_any
separates = refl

bytes_eq-other : (a b : Bytes) → a ≢ b → bytes_eq a b ≡ false
bytes_eq-other a b n = elim (Bool-cases (bytes_eq a b)) [
  | inl e ↦ absurd (n ((bytes_eq_iff a b).0 e))
  | inr e ↦ e
]

-- every agent is the one that its name finds among all
abbrev pub AreFound : List IvyClient → List IvyClient → Type 0
AreFound all [] = Unit
AreFound all (i ∷ clients) = (get_application i.app_name all ≡ some i) × AreFound all clients

AreFound-cons :
    (i : IvyClient) (all clients : List IvyClient)
    → AreFound all clients
    → IsOther i clients
    → AreFound (i ∷ all) clients
unfolding get_application
AreFound-cons i all [] f o = tt
AreFound-cons i all (j ∷ clients) f o =
    (rw (bytes_eq-other j.app_name i.app_name o.0) f.0, AreFound-cons i all clients f.1 o.1)

AreDistinct-AreFound : (clients : List IvyClient) → AreDistinct clients → AreFound clients clients
unfolding get_application
AreDistinct-AreFound [] d = tt
AreDistinct-AreFound (i ∷ clients) d = (
  rw (bytes_eq_refl i.app_name) refl,
  AreFound-cons i clients clients (AreDistinct-AreFound clients d.1) d.0,
)

-- the line as it is typed
abbrev pub die_all_line : Bytes
die_all_line =
    b'.' ∷ b'd' ∷ b'i' ∷ b'e' ∷ b'a' ∷ b'l' ∷ b'l' ∷ b'-' ∷ b'y' ∷ b'e' ∷ b's' ∷ b'-' ∷ b'i' ∷ b'-'
    ∷ b'a' ∷ b'm' ∷ b'-' ∷ b's' ∷ b'u' ∷ b'r' ∷ b'e' ∷ b'\n' ∷ []

die_all_typed : (strtok command_ends die_all_line).0 ≡ some (take 20 (drop 1 die_all_line))
unfolding strtok skip_any cut_token is_any
die_all_typed = refl

die_all_command : command_of (take 20 (drop 1 die_all_line)) ≡ kill_all
unfolding command_of bytes_eq
die_all_command = refl

module _ {B : Type 0} (w : World B) where
  -- a Die to each agent, in their order, with the line that says so
  unfoldable pub deaths : Config → List IvyClient → List Output
  deaths g [] = []
  deaths g (i ∷ clients) =
      killing i.app_name
      ∷ acts (sent i.client die 0 [])
      ∷ (map acts (congestion_event g i.client (w.send_state i.client (line_of die 0 [])))
          ++ deaths g clients)

  die_named-found :
      (name : Bytes) (i : IvyClient) (b : Bus B)
      → get_application name b.store.all_clients ≡ some i
      → die_named w b name ≡ killing name ∷ map acts (send_die_msg w b.config i.client)
  unfolding die_named
  die_named-found name i b e = rw (e, die_named) refl

  die_all-end : (fuel : ℕ) (b : Bus B) → die_all w (suc fuel) b [] ≡ []
  unfolding die_all
  die_all-end fuel b = rw (strtok-nil separator, die_all) refl

  die_all-step :
      (fuel : ℕ) (b : Bus B) (names name rest : Bytes)
      → strtok separator names ≡ (some name, rest)
      → die_all w (suc fuel) b names ≡ die_named w b name ++ die_all w fuel b rest
  unfolding die_all
  die_all-step fuel b names name rest e =
      rw (ap (λ t. t.0) e, die_all) (ap (λ t. die_named w b name ++ die_all w fuel b t.1) e)

  die_all-deaths :
      (fuel : ℕ) (b : Bus B) (clients : List IvyClient)
      → length (names_with separator clients) < fuel
      → AreNamed clients
      → AreFound b.store.all_clients clients
      → die_all w fuel b (names_with separator clients) ≡ deaths b.config clients
  unfolding deaths send_die_msg msg_send_to
  die_all-deaths zero b clients l n f = absurd (omega arith)
  die_all-deaths (suc fuel) b [] l n f = die_all-end fuel b
  die_all-deaths (suc fuel) b (i ∷ clients) l n f =
      let m = length-append i.app_name (b'#' ∷ names_with separator clients) in
      let found = die_named-found i.app_name i b f.0 in
      let later = die_all-deaths fuel b clients (omega arith) n.1 f.1 in
      die_all-step fuel b (names_with separator (i ∷ clients)) i.app_name
        (names_with separator clients)
        (strtok-append separator i.app_name (names_with separator clients) b'#' n.0.0 n.0.1
          separates)
      ∙ rw (found, later) refl

  list_given :
      (clients : List IvyClient)
      → length (names_with separator clients) < applist_size
      → get_application_list separator clients ≡ returns (names_with separator clients)
  list_given clients l =
      let fits : ltb (length (names_with separator clients)) applist_size ≡ true = ground arith in
      get_application_list-bounded separator clients ∙ rw fits refl

  handle_die_all-deaths :
      (p : Probe B)
      → AreNamed p.bus.store.all_clients
      → AreDistinct p.bus.store.all_clients
      → length (names_with separator p.bus.store.all_clients) < applist_size
      → handle_die_all w p ≡ returns (p, deaths p.bus.config p.bus.store.all_clients)
  unfolding handle_die_all
  handle_die_all-deaths p n d l =
      let clients = p.bus.store.all_clients in
      rw (list_given clients l) (
        ap (λ out. returns (p, out))
          (die_all-deaths (suc (length (names_with separator clients))) p.bus clients (omega arith)
            n (AreDistinct-AreFound clients d)))

  -- Typed at a probe, the line `.dieall-yes-i-am-sure` sends a Die to every agent that is there, in
  -- their order and to each once, and says so, if each has a name without a `#` in it that no other
  -- has, and the names with a byte for each have fewer than 4096 bytes; the probe is as it was.
  pub handle_stdin-deaths :
      (debug_binary_msg debug_filter : Bool) (old : Bytes) (now : ℕ) (p : Probe B)
      → AreNamed p.bus.store.all_clients
      → AreDistinct p.bus.store.all_clients
      → length (names_with separator p.bus.store.all_clients) < applist_size
      → handle_stdin w debug_binary_msg debug_filter old now (some die_all_line) p
        ≡ returns (p, deaths p.bus.config p.bus.store.all_clients)
  unfolding handle_stdin handle_line handle_command not_null
  handle_stdin-deaths debug_binary_msg debug_filter old now p n d l =
      rw (die_all_typed, die_all_command) (handle_die_all-deaths p n d l)
