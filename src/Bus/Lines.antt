-- ===== src/Bus/Lines.antt =====
-- The lines of one read, as `HandleSocket` hands them to `Receive`.
use libivy.Base.{
  ℕ, ◌≡◌, refl, sym, ap, ◌∙◌, true, false, none, some, List, [], ◌∷◌, ◌++◌, ◌==◌, if◌then◌else◌,
  Bytes, find_first, arith, inl, inr, Option-cases,
}
use mathlib.Core.Path.{subst}
use libivy.Registry.{IvyClient, is_client}
use libivy.Registry.Views.{IsLibrary, IsDictionary}
use libivy.Wire.{die, kind_of, scan_line}
use libivy.Bus.{Bus, Action, World, with_client}
use libivy.Bus.Receive.{cleanup, handle, handle_die, receive_line, receive, receive_lines}
use libivy.Bus.Connected.{has_socket, IsConnected}
use libivy.Bus.Safe.{asks_to_die, Serves, receive-Serves}

-- no line is of kind Die
abbrev pub NoneDies : List Bytes → Type 0
NoneDies [] = Unit
NoneDies (line ∷ lines) = (asks_to_die line ≡ false) × NoneDies lines

module _ {B : Type 0} (w : World B) where
  -- one line, then the others
  after_first :
      (now client : ℕ) (line : Bytes) (lines : List Bytes) (b : Bus B)
      (s : Serves b (receive w now client line b))
      → Serves s.bus (receive_lines w now client lines s.bus)
      → Serves b (receive_lines w now client (line ∷ lines) b)
  unfolding receive_lines
  after_first now client line lines b s r = record {
    bus = r.bus;
    actions = s.actions ++ r.actions;
    returns = rw (s.returns, r.returns) refl;
    valid = r.valid;
    same = r.same ∙ s.same;
  }

  -- Whatever lines come in one read from a connected agent, none of them of kind Die: every call of
  -- `Receive` returns, with the same agents connected, and a dictionary with no regexp twice and
  -- none without subscribers, if it was one before.
  pub receive_lines-Serves :
      (ok : IsLibrary w.library) (now client : ℕ) (lines : List Bytes) (b : Bus B)
      → IsDictionary b.store.dictionary
      → IsConnected client b.store.all_clients
      → NoneDies lines
      → Serves b (receive_lines w now client lines b)
  unfolding receive_lines
  receive_lines-Serves ok now client [] b v n d = record {
    bus = b;
    actions = [];
    returns = refl;
    valid = v;
    same = refl;
  }
  receive_lines-Serves ok now client (line ∷ lines) b v n d =
      let s = receive-Serves w ok now client line b v n d.0 in
      after_first now client line lines b s (
        receive_lines-Serves ok now client lines s.bus s.valid
          (subst (λ l. has_socket client l ≡ true) (sym s.same) n) d.1)

  kind_of-eight : (n : ℕ) → (n == 8) ≡ true → kind_of n ≡ some die
  unfolding kind_of
  kind_of-eight n e = ground (arith, e)

  -- what is left behind a line of kind Die
  die_empties :
      (now : ℕ) (c : IvyClient) (line : Bytes) (b : Bus B)
      → asks_to_die line ≡ true
      → (b' : Bus B) × (acts : List Action) × (receive_line w now c (scan_line line) b
          ≡ some (b', acts))
        × (b'.store.all_clients ≡ [])
  unfolding asks_to_die receive_line handle handle_die cleanup
  die_empties now c line b e = elim (Option-cases (scan_line line)) [
    | inl h ↦ absurd (cc ((rw (h, asks_to_die) at e)))
    | inr ((kind, id, arg), h) ↦
        let k = kind_of-eight kind (rw (h, asks_to_die) at e) in
        let out =
          handle_die w (record c { id = id }) id
            (with_client c.client (λ i. record i { id = id }) b) in
        (out.0, out.1, rw (h, receive_line, k, handle) refl, refl)
  ]

  -- a line from an agent that is not ignored
  pub receive_heard :
      (now client : ℕ) (line : Bytes) (b : Bus B) {c : IvyClient}
      → find_first (is_client client) b.store.all_clients ≡ some c
      → c.ignore_subsequent_msg ≡ false
      → receive w now client line b ≡ receive_line w now c (scan_line line) b
  unfolding receive
  receive_heard now client line b {c} f i =
      rw (f, receive)
        (ap (λ t. if t then some (b, []) else receive_line w now c (scan_line line) b) i)

  no_client_faults :
      (now client : ℕ) (line : Bytes) (b : Bus B)
      → b.store.all_clients ≡ []
      → receive w now client line b ≡ none
  unfolding receive
  no_client_faults now client line b e = rw (receive, e) refl

  -- A line of kind Die from a connected agent whose messages are not ignored, and another line
  -- behind it in the same read: the second call of `Receive` reads the client's node, which the
  -- first one has freed.
  pub line_after_die_faults :
      (now client : ℕ) (line next : Bytes) (lines : List Bytes) (b : Bus B) {c : IvyClient}
      → find_first (is_client client) b.store.all_clients ≡ some c
      → c.ignore_subsequent_msg ≡ false
      → asks_to_die line ≡ true
      → receive_lines w now client (line ∷ next ∷ lines) b ≡ none
  unfolding receive_lines
  line_after_die_faults now client line next lines b {c} f i e =
      let (b', acts, r, empty) = die_empties now c line b e in
      rw
        (
          receive_lines,
          receive_heard now client line b f i,
          r,
          no_client_faults now client next b' empty,
        )
        refl
