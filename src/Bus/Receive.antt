-- ===== src/Bus/Receive.antt =====
-- src/ivy.c, `Receive`: what an agent does with each line that another one sends.
use libivy.Base.{
  ℕ, ◌+◌, ◌-◌, ◌*◌, ◌/◌, ◌%◌, min, true, not, ◌&&◌, Option, none, some, ◌>>=◌, List, [], ◌∷◌, ◌++◌,
  ◌==◌, ltb, if◌then◌else◌, Bytes, find_first, map,
}
use libivy.Registry.{IvyClient, is_client, remove_bind, filter_bind, bind_effect}
use libivy.Registry.Clients.{add_or_change_regexp, del_regexp_for_one_client}
use libivy.Filter.{binding_filter}
use libivy.Message.{argv, too_many, args_of}
use libivy.Wire.{
  MsgType, bye, add_regexp, msg, error, del_regexp, end_regexp, start_regexp, direct_msg, die, ping,
  pong, kind_of, scan_line,
}
use libivy.Bus.{
  Handler, Config, Bus, Action, closed, servers_closed, registry, app_event, connected,
  msg_callback, direct_callback, die_callback, pong_callback, stopped, Peer, World, msg_send_to,
  ready_actions, with_client,
}

-- the bus behind a call, with what the call did; none is a read of a freed or a NULL pointer
abbrev pub Outcome : Type 0 → Type 0
Outcome B = Option (Bus B × List Action)

-- the texts of two errors
abbrev pub bad_format : Bytes
bad_format =
    (b'b' ∷ b'a' ∷ b'd' ∷ b' ' ∷ b'f' ∷ b'o' ∷ b'r' ∷ b'm' ∷ b'a' ∷ b't' ∷ b' ' ∷ b'r' ∷ b'e' ∷ b'q'
      ∷ b'u' ∷ b'e' ∷ b's' ∷ b't' ∷ b' ' ∷ b'e' ∷ b'x' ∷ b'p' ∷ b'e' ∷ b'c' ∷ b't' ∷ b'e' ∷ b'd'
      ∷ b' ' ∷ 39 ∷ b't' ∷ b'y' ∷ b'p' ∷ b'e' ∷ b' ' ∷ b'i' ∷ b'd' ∷ b' ' ∷ b'.' ∷ b'.' ∷ b'.' ∷ 39
      ∷ [])

abbrev pub already_connected : Bytes
already_connected =
    (b'A' ∷ b'p' ∷ b'p' ∷ b'l' ∷ b'i' ∷ b'c' ∷ b'a' ∷ b't' ∷ b'i' ∷ b'o' ∷ b'n' ∷ b' ' ∷ b'a' ∷ b'l'
      ∷ b'r' ∷ b'e' ∷ b'a' ∷ b'd' ∷ b'y' ∷ b' ' ∷ b'c' ∷ b'o' ∷ b'n' ∷ b'n' ∷ b'e' ∷ b'c' ∷ b't'
      ∷ b'e' ∷ b'd' ∷ [])

-- `MAXPORT`
abbrev pub max_port : Peer → ℕ
max_port p = if ltb p.remote_port p.local_port then p.local_port else p.remote_port

-- the round trip that `Receive` hands over, in microseconds: seconds up to 2000, and the rest
unfoldable pub round_trip : ℕ → ℕ
round_trip diff = min (diff / 1000000) 2000 * 1000000 + diff % 1000000

module _ {B : Type 0} (w : World B) where
  open w use {library, token_of, peer_of}

  -- `CheckConnected`
  unfoldable pub check_connected : ℕ → List IvyClient → Option IvyClient
  check_connected client clients =
      let port = (peer_of client).remote_port in
      if port == 0
      then none
      else find_first
          (λ i.
            not (i.client == client)
            && port == i.app_port
            && (peer_of i.client).address == (peer_of client).address)
          clients

  -- which of two connections to one agent is closed
  unfoldable pub duplicate : IvyClient → IvyClient → IvyClient
  duplicate other c =
      if ltb (max_port (peer_of c.client)) (max_port (peer_of other.client)) then other else c

  -- `IvyCleanup`
  unfoldable pub goodbyes : Config → List IvyClient → List Action
  goodbyes g [] = []
  goodbyes g (i ∷ clients) =
      msg_send_to w g i.client bye 0 [] ++ (closed i.client ∷ goodbyes g clients)

  unfoldable pub cleanup : Bus B → Bus B × List Action
  cleanup b = (
    record b { store = record b.store { all_clients = []; dictionary = [] } },
    goodbyes b.config b.store.all_clients ++ (servers_closed ∷ []),
  )

  -- the case AddRegexp
  unfoldable pub handle_add : IvyClient → Bytes → Bus B → Outcome B
  handle_add c arg b =
      if not (binding_filter token_of arg b.filter)
      then some (b, map registry (bind_effect b.store.has_bind_callback filter_bind c arg))
      else elim (add_or_change_regexp library arg c b.store) [
        | none ↦ none
        | some (store, effects) ↦ some (record b { store = store }, map registry effects)
      ]

  -- the case DelRegexp
  unfoldable pub handle_del : IvyClient → ℕ → Bytes → Bus B → Bus B × List Action
  handle_del c id arg b =
      let (store, removed) = del_regexp_for_one_client library c id b.store in
      (
        record b { store = store },
        if removed
            then map registry (bind_effect b.store.has_bind_callback remove_bind c arg)
            else [],
      )

  -- the end of the case StartRegexp, for the other connection to the same agent, if there is one
  unfoldable pub close_duplicate : IvyClient → Option IvyClient → Bus B → Bus B × List Action
  close_duplicate c none b = (b, [])
  close_duplicate c (some other) b =
      let target = duplicate other c in
      (
        with_client target.client (λ i. record i { ignore_subsequent_msg = true }) b,
        msg_send_to w b.config target.client error 0 already_connected
            ++ (closed target.client ∷ []),
      )

  -- the case StartRegexp; the port is an `unsigned short`
  unfoldable pub handle_start : IvyClient → ℕ → Bytes → Bus B → Bus B × List Action
  handle_start c id arg b =
      let b' = with_client c.client (λ i. record i { app_name = arg; app_port = id % 65536 }) b in
      close_duplicate c (check_connected c.client b'.store.all_clients) b'

  -- the case EndRegexp
  unfoldable pub handle_end : IvyClient → Bus B → Bus B × List Action
  handle_end c b =
      let b' = with_client c.client (λ i. record i { ready_to_send = i.ready_to_send + 1 }) b in
      (
        b',
        (if b.config.has_application_callback then app_event c.client connected ∷ [] else [])
            ++ ready_actions w b' c.client (c.ready_to_send + 1),
      )

  -- the case Msg
  unfoldable pub handle_msg : IvyClient → ℕ → Bytes → Bus B → List Action
  handle_msg c id arg b = elim (find_first (λ (h : Handler). h.id == id) b.msg_recv) [
    | none ↦ []
    | some h ↦ elim (args_of arg) [
      | too_many ↦ []
      | argv args ↦ elim h.callback [ none ↦ [] | some f ↦ msg_callback f c.client args ∷ [] ]
    ]
  ]

  -- The case Pong, at the time `now`, in microseconds. The Boolean of `pong_callback` says whether
  -- the
  -- value that is handed over is negative: the one of a late answer is, and that of a clock that
  -- went
  -- back, which the other one makes positive.
  unfoldable pub handle_pong : ℕ → IvyClient → ℕ → Bus B → Bus B × List Action
  handle_pong now c id b =
      if b.config.has_pong_callback && not (c.ping_stamp == 0)
      then (
        with_client c.client (λ i. record i { ping_stamp = 0 }) b,
        (if ltb now c.ping_stamp
            then pong_callback c.client (id == c.ping_id) (c.ping_stamp - now) ∷ []
            else pong_callback c.client (not (id == c.ping_id)) (round_trip (now - c.ping_stamp))
              ∷ []),
      )
      else (b, [])

  -- the case Die
  unfoldable pub handle_die : IvyClient → ℕ → Bus B → Bus B × List Action
  handle_die c id b =
      let (b', bye_actions) = cleanup b in
      (
        b',
        (if b.config.has_die_callback then die_callback c.client id ∷ [] else [])
            ++ (bye_actions ++ (stopped ∷ [])),
      )

  -- the `switch`; the client's `id` is that of the line
  unfoldable pub handle : ℕ → Option MsgType → IvyClient → ℕ → Bytes → Bus B → Outcome B
  handle now none c id arg b = some (b, [])
  handle now (some bye) c id arg b = some (b, closed c.client ∷ [])
  handle now (some add_regexp) c id arg b = handle_add c arg b
  handle now (some msg) c id arg b = some (b, handle_msg c id arg b)
  handle now (some error) c id arg b = some (b, [])
  handle now (some del_regexp) c id arg b = some (handle_del c id arg b)
  handle now (some end_regexp) c id arg b = some (handle_end c b)
  handle now (some start_regexp) c id arg b = some (handle_start c id arg b)
  handle now (some direct_msg) c id arg b =
      some (b, if b.config.has_direct_callback then direct_callback c.client id arg ∷ [] else [])
  handle now (some die) c id arg b = some (handle_die c id b)
  handle now (some ping) c id arg b = some (b, msg_send_to w b.config c.client pong id [])
  handle now (some pong) c id arg b = some (handle_pong now c id b)

  -- a line that is taken apart, or not
  unfoldable pub receive_line : ℕ → IvyClient → Option (ℕ × ℕ × Bytes) → Bus B → Outcome B
  receive_line now c none b = some (
    b,
    msg_send_to w b.config c.client error 3 bad_format
        ++ (msg_send_to w b.config c.client bye 0 [] ++ (closed c.client ∷ [])),
  )
  receive_line now c (some (kind, id, arg)) b =
      handle now (kind_of kind) (record c { id = id }) id arg
        (with_client c.client (λ i. record i { id = id }) b)

  -- `Receive`, for the client whose node in `allClients` is the socket's user data
  unfoldable pub receive : ℕ → ℕ → Bytes → Bus B → Outcome B
  receive now client line b = elim (find_first (is_client client) b.store.all_clients) [
    | none ↦ none
    | some c ↦
        if c.ignore_subsequent_msg then some (b, []) else receive_line now c (scan_line line) b
  ]

  -- The calls of `HandleSocket` for the messages of one read: the client is looked up again for
  -- each.
  unfoldable pub receive_lines : ℕ → ℕ → List Bytes → Bus B → Outcome B
  receive_lines now client [] b = some (b, [])
  receive_lines now client (line ∷ lines) b = do
    (b', first) ← receive now client line b
    (b'', later) ← receive_lines now client lines b'
    some (b'', first ++ later)
