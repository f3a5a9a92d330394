-- ===== src/Bus.antt =====
-- src/ivy.c: an agent on the bus, with what it keeps of the others and what it does to the world.
pub mod Receive
pub mod Session
pub mod Applications
pub mod Names
pub mod Connected
pub mod Heard
pub mod Safe
pub mod Lines
pub mod Delivered
pub mod Sending
pub mod Additions
pub mod Subscribed
pub mod Ping
pub mod Ready
pub mod Asking
pub mod Meeting
pub mod Tests
use libivy.Base.{
  ℕ, zero, suc, ◌+◌, ◌-◌, ◌*◌, ◌/◌, ◌%◌, Bool, true, false, not, ◌&&◌, Option, none, some, List, [],
  ◌∷◌, ◌++◌, ◌==◌, ltb, leb, if◌then◌else◌, Bytes, remove_if, update_first,
}
use libivy.Registry.{IvyClient, Entry, Effect, Store, Library, is_client, is_of_client}
use libivy.Filter.{Filter}
use libivy.Dispatch.{Frame, call_clients, body_of, exec_binding}
use libivy.Socket.{SendState, change_to_congestion, fifo_full}
use libivy.Wire.{MsgType, msg, header, line_of}

-- `struct _msg_rcv`, with the number of its callback, none where that is NULL
pub record Handler : Type 0 where
  pub id : ℕ
  pub regexp : Bytes
  pub callback : Option ℕ

-- what the application has set with `IvyInit` and the functions that set a callback
pub record Config : Type 0 where
  pub application_port : ℕ
  pub application_name : Bytes
  pub application_id : Bytes
  pub ready_message : Option Bytes
  pub has_application_callback : Bool
  pub has_direct_callback : Bool
  pub has_die_callback : Bool
  pub has_pong_callback : Bool

-- The static variables of ivy.c; `next_id` is the `recv_id` of `IvyBindMsg`.
pub record Bus (B : Type 0) : Type 0 where
  pub store : Store B
  pub msg_recv : List Handler
  pub next_id : ℕ
  pub filter : Filter
  pub config : Config

-- `IvyApplicationEvent`
pub data AppEvent : Type 0 where
  connected disconnected congestion decongestion app_fifo_full : AppEvent

-- What the functions do outside the bus: `MsgSendTo` of a line, a frame of a message, `SocketClose`
-- of a client and of the servers, what the registry does, the calls of the application, and
-- `IvyChannelStop`. A pong is late or not, with its time in microseconds.
pub data Action : Type 0 where
  sent : ℕ → MsgType → ℕ → Bytes → Action
  framed : Frame → Action
  closed : ℕ → Action
  servers_closed : Action
  registry : Effect → Action
  app_event : ℕ → AppEvent → Action
  msg_callback : ℕ → ℕ → List Bytes → Action
  direct_callback : ℕ → ℕ → Bytes → Action
  die_callback : ℕ → ℕ → Action
  pong_callback : ℕ → Bool → ℕ → Action
  stopped : Action

-- What the sockets say of a client's connection: the address and the port of its peer, as
-- `SocketGetRemoteAddr` and `SocketGetRemotePort` give them, and `SocketGetLocalPort`.
pub record Peer : Type 0 where
  pub address : ℕ
  pub remote_port : ℕ
  pub local_port : ℕ

-- `SocketGetRemotePort` for a peer's port: it returns `sin_port`, whose bytes stand in the order of
-- the network, as a number of the host, which is little-endian or not
unfoldable pub socket_get_remote_port : Bool → ℕ → ℕ
socket_get_remote_port little_endian port =
    if little_endian then port % 256 * 256 + port / 256 else port

-- What an agent's code calls: the registry's library, the filter's token regexp, the regexp engine,
-- `SocketSend` and `SocketSendRawWithId` by the states that they return, and the connections.
pub record World (B : Type 0) : Type 0 where
  pub library : Library B
  pub token_of : Bytes → Option Bytes
  pub exec : B → Bytes → Option (List Bytes)
  pub send_state : ℕ → Bytes → SendState
  pub peer_of : ℕ → Peer

-- the calls of the application that a state of sending makes, in `MsgSendTo` and in `RegexpCall`
unfoldable pub congestion_event : Config → ℕ → SendState → List Action
congestion_event g client change_to_congestion =
    if g.has_application_callback then app_event client congestion ∷ [] else []
congestion_event g client fifo_full =
    if g.has_application_callback then app_event client app_fifo_full ∷ [] else []
congestion_event g client _ = []

module _ {B : Type 0} (w : World B) where
  open w use {send_state, exec}

  -- `MsgSendTo`
  unfoldable pub msg_send_to : Config → ℕ → MsgType → ℕ → Bytes → List Action
  msg_send_to g client kind id message =
      sent client kind id message
      ∷ congestion_event g client (send_state client (line_of kind id message))

  -- the frames of `RegexpCall`, with the calls of the application after each
  unfoldable pub frames_of_call : Config → List Frame → List Action
  frames_of_call g [] = []
  frames_of_call g (fr ∷ frames) =
      framed fr
      ∷ (congestion_event g fr.client (send_state fr.client (header msg fr.id ++ fr.body))
          ++ frames_of_call g frames)

  -- the frames of `RegexpCallUnique`
  unfoldable pub frames_for : Config → List Frame → List Action
  frames_for g [] = []
  frames_for g (fr ∷ frames) =
      framed fr
      ∷ ((elim (send_state fr.client (header msg fr.id ++ fr.body)) [
        | change_to_congestion ↦
            if g.has_application_callback then app_event fr.client congestion ∷ [] else []
        | _ ↦ []
      ])
          ++ frames_for g frames)

  -- `RegexpCallUnique`: the clients of another socket are passed over
  unfoldable pub regexp_call_unique : Config → ℕ → Bytes → Entry B → List Action
  regexp_call_unique g client message e = elim (exec_binding exec e.binding message) [
    | none ↦ []
    | some groups ↦
        frames_for g
          (call_clients (body_of groups)
            (remove_if (λ s. not (is_of_client client s)) e.client_list)).0
  ]

  -- `ClientCall`
  unfoldable pub client_call : Config → ℕ → Bytes → List (Entry B) → List Action
  client_call g client message [] = []
  client_call g client message (e ∷ dict) =
      regexp_call_unique g client message e ++ client_call g client message dict

  -- the message that an agent sends to a client that is ready on both sides
  unfoldable pub ready_actions : Bus B → ℕ → ℕ → List Action
  ready_actions b client ready = elim b.config.ready_message [
    | none ↦ []
    | some message ↦
        if ready == 2 then client_call b.config client message b.store.dictionary else []
  ]

  -- `MsgSendTo` to all the clients
  unfoldable pub send_to_all : Config → MsgType → ℕ → Bytes → List IvyClient → List Action
  send_to_all g kind id message [] = []
  send_to_all g kind id message (i ∷ clients) =
      msg_send_to g i.client kind id message ++ send_to_all g kind id message clients

-- a change of the node of a client in `allClients`
abbrev pub with_client : {B : Type 0} → ℕ → (IvyClient → IvyClient) → Bus B → Bus B
with_client client f b = record b {
  store = record b.store { all_clients = update_first (is_client client) f b.store.all_clients };
}
