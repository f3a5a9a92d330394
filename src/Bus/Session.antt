-- ===== src/Bus/Session.antt =====
-- src/ivy.c: how an agent meets and leaves others, and how it asks for messages.
use libivy.Base.{
  ℕ, ◌+◌, Bool, false, not, Option, none, some, List, [], ◌∷◌, ◌++◌, ◌==◌, if◌then◌else◌, Bytes,
  bytes_eq, remove_first, update_first,
}
use libivy.Registry.{IvyClient}
use libivy.Registry.Clients.{del_one_client}
use libivy.Discovery.{Discovery, parse_discovery}
use libivy.Wire.{add_regexp, del_regexp, end_regexp, start_regexp, direct_msg, die, ping, error}
use libivy.Bus.{
  Handler, Config, Bus, Action, closed, app_event, disconnected, decongestion, World, msg_send_to,
  ready_actions, send_to_all, with_client,
}
use libivy.Bus.Receive.{Outcome, check_connected}

-- IVYMAJOR_VERSION
abbrev pub ivy_major_version : ℕ
ivy_major_version = 3

-- the sizes of `appid` and `appname` in `BroadcastReceive`
abbrev pub appid_size : ℕ
appid_size = 128

abbrev pub appname_size : ℕ
appname_size = 2048

unfoldable pub new_client : ℕ → Bytes → IvyClient
new_client client name = record {
  client = client;
  app_name = name;
  app_port = 0;
  id = 0;
  src_reg_list = [];
  ready_to_send = 0;
  ignore_subsequent_msg = false;
  ping_stamp = 0;
  ping_id = 0;
}

abbrev pub has_handler_id : ℕ → Handler → Bool
has_handler_id id h = h.id == id

module _ {B : Type 0} (w : World B) where
  open w use {library}

  -- the loop of `SendService` over the regexps asked for
  unfoldable pub send_regexps : Config → ℕ → List Handler → List Action
  send_regexps g client [] = []
  send_regexps g client (h ∷ handlers) =
      msg_send_to w g client add_regexp h.id h.regexp ++ send_regexps g client handlers

  -- `SendService`
  unfoldable pub send_service : ℕ → Bytes → Bus B → Bus B × List Action
  send_service client name b =
      let c = record (new_client client name) { ready_to_send = 1 } in
      let b' = record b { store = record b.store { all_clients = c ∷ b.store.all_clients } } in
      (
        b',
        msg_send_to w b.config client start_regexp b.config.application_port
              b.config.application_name
            ++ (send_regexps b.config client b.msg_recv
                ++ (msg_send_to w b.config client end_regexp 0 [] ++ ready_actions w b' client 1)),
      )

  -- `ClientCreate`, with the name made of the peer's host and port
  unfoldable pub client_create : ℕ → Bytes → Bus B → Bus B × List Action
  client_create client name b = elim (check_connected w client b.store.all_clients) [
    | some other ↦ (b, closed client ∷ [])
    | none ↦ send_service client name b
  ]

  -- `ClientDelete`
  unfoldable pub client_delete : ℕ → Bus B → Outcome B
  client_delete client b = elim (del_one_client library client b.store) [
    | none ↦ none
    | some store ↦ some (
      record b { store = store },
      if b.config.has_application_callback then app_event client disconnected ∷ [] else [],
    )
  ]

  -- `ClientDecongestion`
  unfoldable pub client_decongestion : Config → ℕ → List Action
  client_decongestion g client =
      if g.has_application_callback then app_event client decongestion ∷ [] else []

  -- the end of `BroadcastReceive`: `connect` is what `SocketConnectAddr` returns for the port
  unfoldable pub connect_service : (ℕ → Option ℕ) → Discovery → Bus B → Bus B × List Action
  connect_service connect d b = elim (connect d.port) [
    | none ↦ (b, [])
    | some client ↦ send_service client d.app_name b
  ]

  -- `BroadcastReceive`
  unfoldable pub broadcast_receive : (ℕ → Option ℕ) → Bytes → Bus B → Bus B × List Action
  broadcast_receive connect line b = elim (parse_discovery appid_size appname_size line) [
    | none ↦ (b, [])
    | some d ↦
        if not (d.version == ivy_major_version)
        then (b, [])
        else if bytes_eq d.app_id b.config.application_id
        then (b, [])
        else connect_service connect d b
  ]

  -- `IvyBindMsg`, for a regexp with no interval in it, and with the number of the callback
  unfoldable pub bind_msg : Option ℕ → Bytes → Bus B → Bus B × List Action
  bind_msg callback regexp b =
      let h : Handler = record { id = b.next_id; regexp = regexp; callback = callback } in
      (
        record b { msg_recv = h ∷ b.msg_recv; next_id = b.next_id + 1 },
        send_to_all w b.config add_regexp b.next_id regexp b.store.all_clients,
      )

  -- `IvyChangeMsg`, for a handler by its id
  unfoldable pub change_msg : ℕ → Bytes → Bus B → Bus B × List Action
  change_msg id regexp b = (
    record b {
      msg_recv = update_first (has_handler_id id) (λ h. record h { regexp = regexp }) b.msg_recv;
    },
    send_to_all w b.config add_regexp id regexp b.store.all_clients,
  )

  -- `IvyUnbindMsg`, for a handler by its id
  unfoldable pub unbind_msg : ℕ → Bus B → Bus B × List Action
  unbind_msg id b = (
    record b { msg_recv = remove_first (has_handler_id id) b.msg_recv },
    send_to_all w b.config del_regexp id [] b.store.all_clients,
  )

  -- `IvySendPing`, at the time `now`
  unfoldable pub send_ping : ℕ → IvyClient → Bus B → Bus B × List Action
  send_ping now c b =
      if b.config.has_pong_callback
      then (
        with_client c.client (λ i. record i { ping_stamp = now; ping_id = c.ping_id + 1 }) b,
        msg_send_to w b.config c.client ping (c.ping_id + 1) [],
      )
      else (b, [])

  -- `IvySendError`, `IvySendDirectMsg` and `IvySendDieMsg`
  unfoldable pub send_error_msg : Config → ℕ → ℕ → Bytes → List Action
  send_error_msg g client id text = msg_send_to w g client error id text

  unfoldable pub send_direct_msg : Config → ℕ → ℕ → Bytes → List Action
  send_direct_msg g client id text = msg_send_to w g client direct_msg id text

  unfoldable pub send_die_msg : Config → ℕ → List Action
  send_die_msg g client = msg_send_to w g client die 0 []
