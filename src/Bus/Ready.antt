-- ===== src/Bus/Ready.antt =====
-- The handshake of two agents: the message that each sends once the other is ready.
use libivy.Base.{
  ℕ, suc, ◌+◌, ◌^◌, ◌<◌, ◌≡◌, refl, ap, ◌∙◌, true, false, not, remove_if, Bool-cases, Option, none,
  some, List, [], ◌∷◌, ◌++◌, append-nil, ◌==◌, if◌then◌else◌, Bytes, find_first, arith, inl, inr,
  Option-cases,
}
use libivy.Registry.{IvyClient, is_client}
use libivy.Wire.{msg, header, end_regexp, code_of, kind_of}
use libivy.Wire.Lines.{line_text, scan_line-text}
use libivy.Registry.{Entry, Subscriber, is_of_client}
use libivy.Message.{encode_args}
use libivy.Dispatch.{Frame, call_clients, body_of, exec_binding}
use libivy.Socket.{SendState, change_to_congestion}
use libivy.Bus.{
  framed, congestion, frames_for, regexp_call_unique, Config, Bus, Action, app_event, connected,
  World, client_call, ready_actions, with_client,
}
use libivy.Bus.Receive.{handle_end, handle, receive_line, receive, receive_lines}
use libivy.Bus.Connected.{find_first-update_first}
use libivy.Bus.Lines.{receive_heard}

-- what the application hears of a message EndRegexp
abbrev pub events : Config → ℕ → List Action
events g client = if g.has_application_callback then app_event client connected ∷ [] else []

-- lines EndRegexp, and what the application hears of them
abbrev pub ends : List ℕ → List Bytes
ends [] = []
ends (id ∷ ids) = line_text end_regexp id [] ∷ ends ids

abbrev pub heard_ends : Config → ℕ → List ℕ → List Action
heard_ends g client [] = []
heard_ends g client (_ ∷ ids) = events g client ++ heard_ends g client ids

-- ids of 32 bits
abbrev pub AllInts : List ℕ → Type 0
AllInts [] = Unit
AllInts (id ∷ ids) = (id < 2 ^ 32) × AllInts ids

-- the bus behind a message EndRegexp
abbrev id_read : ℕ → IvyClient → IvyClient
id_read id i = record i { id = id }

abbrev end_read : IvyClient → IvyClient
end_read i = record i { ready_to_send = i.ready_to_send + 1 }

abbrev behind_end : {B : Type 0} → ℕ → ℕ → Bus B → Bus B
behind_end client id b = with_client client end_read (with_client client (id_read id) b)

-- the event of a frame, by the state of sending
abbrev pub congested : Config → ℕ → SendState → List Action
congested g client change_to_congestion =
    if g.has_application_callback then app_event client congestion ∷ [] else []
congested g client _ = []

congested_lem :
    (g : Config) (client : ℕ) (state : SendState)
    → elim state [
      | change_to_congestion ↦
          if g.has_application_callback then app_event client congestion ∷ [] else []
      | _ ↦ []
    ]
      ≡ congested g client state
congested_lem g client change_to_congestion = refl
congested_lem g client _ = refl

module _ {B : Type 0} (w : World B) where
  open w use {exec, send_state}

  -- the frames that a body makes for the subscriptions of a client, in their order
  unfoldable pub frames_due : Config → ℕ → Bytes → List Subscriber → List Action
  frames_due g client body [] = []
  frames_due g client body (s ∷ l) =
      let rest = frames_due g client body l in
      if s.client == client
      then framed (record { client = s.client; id = s.id; body = body })
        ∷ (congested g s.client (send_state s.client (header msg s.id ++ body)) ++ rest)
      else rest

  -- the frames that a message makes for a client: those of each entry whose regexp matches it, with
  -- the groups of the match
  unfoldable pub entry_due : Config → ℕ → Bytes → Option B → List Subscriber → List Action
  entry_due g client message none l = []
  entry_due g client message (some binding) l = elim (exec binding message) [
    | none ↦ []
    | some groups ↦ frames_due g client (encode_args groups ++ (b'\n' ∷ [])) l
  ]

  unfoldable pub message_due : Config → ℕ → Bytes → List (Entry B) → List Action
  message_due g client message [] = []
  message_due g client message (e ∷ dict) =
      entry_due g client message e.binding e.client_list ++ message_due g client message dict

  frames_for-due :
      (g : Config) (client : ℕ) (body : Bytes) (l : List Subscriber)
      → frames_for w g (call_clients body (remove_if (λ s. not (is_of_client client s)) l)).0
        ≡ frames_due g client body l
  unfolding frames_due frames_for call_clients
  frames_for-due g client body [] = refl
  frames_for-due g client body (s ∷ l) = elim (Bool-cases (s.client == client)) [
    | inl e ↦
        let fr : Frame = record { client = s.client; id = s.id; body = body } in
        rw e (
          ap
            (λ acts.
              framed fr
              ∷ (acts
                  ++ frames_for w g
                      (call_clients body (remove_if (λ s. not (is_of_client client s)) l)).0))
            (congested_lem g s.client (send_state s.client (header msg s.id ++ body)))
          ∙ ap
              (λ acts.
                framed fr
                ∷ (congested g s.client (send_state s.client (header msg s.id ++ body)) ++ acts))
              (frames_for-due g client body l))
    | inr e ↦ rw e (frames_for-due g client body l)
  ]

  entry_call-due :
      (g : Config) (client : ℕ) (message : Bytes) (binding : Option B) (l : List Subscriber)
      → elim (exec_binding exec binding message) [
        | none ↦ []
        | some groups ↦
            frames_for w g
              (call_clients (body_of groups) (remove_if (λ s. not (is_of_client client s)) l)).0
      ]
        ≡ entry_due g client message binding l
  unfolding exec_binding entry_due body_of
  entry_call-due g client message none l = refl
  entry_call-due g client message (some b) l = elim (Option-cases (exec b message)) [
    | inl m ↦ rw (m, exec_binding, entry_due) refl
    | inr (groups, m) ↦ rw (m, exec_binding, entry_due) (frames_for-due g client (body_of groups) l)
  ]

  client_call-due :
      (g : Config) (client : ℕ) (message : Bytes) (dict : List (Entry B))
      → client_call w g client message dict ≡ message_due g client message dict
  unfolding client_call regexp_call_unique message_due
  client_call-due g client message [] = refl
  client_call-due g client message (e ∷ dict) =
      ap (λ acts. acts ++ client_call w g client message dict)
        (entry_call-due g client message e.binding e.client_list)
      ∙ ap (λ acts. entry_due g client message e.binding e.client_list ++ acts)
          (client_call-due g client message dict)

module _ {B : Type 0} (w : World B) where
  receive_end :
      (now id : ℕ) (b : Bus B) (c : IvyClient)
      → find_first (is_client c.client) b.store.all_clients ≡ some c
      → c.ignore_subsequent_msg ≡ false
      → id < 2 ^ 32
      → (receive w now c.client (line_text end_regexp id []) b
          ≡ some (
            behind_end c.client id b,
            events b.config c.client
                ++ ready_actions w (behind_end c.client id b) c.client (c.ready_to_send + 1),
          ))
        × (find_first (is_client c.client) (behind_end c.client id b).store.all_clients
            ≡ some (end_read (id_read id c)))
  unfolding receive_line handle handle_end code_of kind_of
  receive_end now id b c f i lt = (
    receive_heard w now c.client (line_text end_regexp id []) b f i
        ∙ rw (scan_line-text end_regexp id [] lt, receive_line) refl,
    find_first-update_first c.client end_read
        (with_client c.client (id_read id) b).store.all_clients (λ j. refl)
        (find_first-update_first c.client (id_read id) b.store.all_clients (λ j. refl) f),
  )

  -- a client that was ready before
  pub no_ready_again :
      (b : Bus B) (client n : ℕ) → (n == 2) ≡ false → ready_actions w b client n ≡ []
  unfolding ready_actions
  no_ready_again b client n h = elim (Option-cases b.config.ready_message) [
    | inl e ↦ rw (ready_actions, e) refl
    | inr (m, e) ↦ rw (ready_actions, e, h) refl
  ]

  -- lines behind those that made it ready
  after_ready :
      (now n : ℕ) (ids : List ℕ) (b : Bus B) (c : IvyClient)
      → find_first (is_client c.client) b.store.all_clients ≡ some c
      → c.ignore_subsequent_msg ≡ false
      → c.ready_to_send ≡ suc (suc n)
      → AllInts ids
      → (b' : Bus B) × (receive_lines w now c.client (ends ids) b
          ≡ some (b', heard_ends b.config c.client ids))
  unfolding receive_lines
  after_ready now n [] b c f i r a = (b, refl)
  after_ready now n (id ∷ ids) b c f i r a =
      let s = receive_end now id b c f i a.0 in
      let b' = behind_end c.client id b in
      let q =
        after_ready now (suc n) ids b' (end_read (id_read id c)) s.1 i (ground (arith, r)) a.1 in
      let e : ready_actions w b' c.client (c.ready_to_send + 1) ≡ [] =
        no_ready_again b' c.client (c.ready_to_send + 1) (ground (arith, r)) in
      (
        q.0,
        rw (s.0, e, q.1)
            (ap (λ t. some (q.0, t ++ heard_ends b.config c.client ids)) (append-nil _)),
      )

  ready_now :
      (b : Bus B) (client n : ℕ) {message : Bytes}
      → (n == 2) ≡ true
      → b.config.ready_message ≡ some message
      → ready_actions w b client n ≡ client_call w b.config client message b.store.dictionary
  unfolding ready_actions
  ready_now b client n {message} h m =
      ap {A = Option Bytes}
        (λ o. elim o [
          | none ↦ []
          | some text ↦ if n == 2 then client_call w b.config client text b.store.dictionary else []
        ])
        m
      ∙ ap (λ t. if t then client_call w b.config client message b.store.dictionary else []) h

  -- the line that makes a client ready, and those behind
  ready_first :
      (now id : ℕ) (ids : List ℕ) {message : Bytes} (b : Bus B) (c : IvyClient)
      → find_first (is_client c.client) b.store.all_clients ≡ some c
      → c.ignore_subsequent_msg ≡ false
      → c.ready_to_send ≡ 1
      → b.config.ready_message ≡ some message
      → AllInts (id ∷ ids)
      → (b' : Bus B) × (receive_lines w now c.client (ends (id ∷ ids)) b
          ≡ some (
            b',
            (events b.config c.client ++ client_call w b.config c.client message b.store.dictionary)
                ++ heard_ends b.config c.client ids,
          ))
  unfolding receive_lines
  ready_first now id ids b c f i r m a =
      let s = receive_end now id b c f i a.0 in
      let b' = behind_end c.client id b in
      let q = after_ready now 0 ids b' (end_read (id_read id c)) s.1 i (ground (arith, r)) a.1 in
      let e = ready_now b' c.client (c.ready_to_send + 1) (ground (arith, r)) m in
      (q.0, rw (s.0, e, q.1) refl)

  -- An agent that is connected and not ignored, and that is still to send one message EndRegexp,
  -- sends some, with ids of 32 bits: behind the first of them it is sent the ready message, if
  -- there
  -- is one, as a frame for each of its subscriptions to a regexp that the message matches, with the
  -- id of the subscription and the groups of the match, in the order of the dictionary; behind the
  -- others it is sent nothing. The application, if it has a callback, hears of each, and of a
  -- congestion.
  pub ready_once :
      (now id : ℕ) (ids : List ℕ) {message : Bytes} (b : Bus B) (c : IvyClient)
      → find_first (is_client c.client) b.store.all_clients ≡ some c
      → c.ignore_subsequent_msg ≡ false
      → c.ready_to_send ≡ 1
      → b.config.ready_message ≡ some message
      → AllInts (id ∷ ids)
      → (b' : Bus B) × (receive_lines w now c.client (ends (id ∷ ids)) b
          ≡ some (
            b',
            (events b.config c.client ++ message_due w b.config c.client message b.store.dictionary)
                ++ heard_ends b.config c.client ids,
          ))
  ready_once now id ids {message} b c f i r m a =
      let q = ready_first now id ids b c f i r m a in
      (
        q.0,
        q.1
            ∙ ap
                (λ acts.
                  some
                    (q.0, (events b.config c.client ++ acts) ++ heard_ends b.config c.client ids))
                (client_call-due w b.config c.client message b.store.dictionary),
      )
