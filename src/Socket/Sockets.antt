-- ===== src/Socket/Sockets.antt =====
-- src/ivysocket.c: `clients_list` and `servers_list`, with the descriptors and the channels of
-- their members. What the calls of the system answer is an argument; a node is named by a number,
-- and the next one of `malloc` is in `next`.
use Prim.Native.Char.{code}
use Prim.Native.String.{String}
use libivy.Base.{
  ℕ, ◌+◌, Bool, true, false, not, Option, none, some, ◌>>=◌, List, [], ◌∷◌, ◌==◌, if◌then◌else◌,
  Bytes, take, bytes_eq, find_first, remove_first, update_first,
}
use libivy.Loop.{Loop, Channel, Request, channel_add, channel_remove, channel_delete, apply_all}
use libivy.Socket.Receive.{Receiver}

-- the bytes of a text of the program
abbrev pub text_bytes : String → Bytes
text_bytes String.[] = []
text_bytes (String.◌∷◌ c s) = code c ∷ text_bytes s

-- `struct _client`, less its fifo, with whether it has a `handle_delete`
pub record Conn : Type 0 where
  pub node : ℕ
  pub fd : ℕ
  pub ipv6 : Bool
  pub app_uuid : Bytes
  pub from : Option ℕ
  pub receiver : Receiver
  pub user_data : Option ℕ
  pub has_handle_delete : Bool

-- `struct _server`
pub record Server : Type 0 where
  pub node : ℕ
  pub fd : ℕ
  pub ipv6 : Bool
  pub port : ℕ

-- the static variables, the select loop, and the descriptors that are open
pub record Sockets : Type 0 where
  pub clients_list : List Conn
  pub servers_list : List Server
  pub loop : Loop
  pub opened : List ℕ
  pub next : ℕ

abbrev pub is_conn : ℕ → Conn → Bool
is_conn node c = c.node == node

abbrev pub is_server : ℕ → Server → Bool
is_server node s = s.node == node

abbrev pub is_fd : ℕ → ℕ → Bool
is_fd fd x = x == fd

-- IVY_BUFFER_SIZE
abbrev pub new_receiver : Receiver
new_receiver = record { terminator = b'\n'; buffer_size = 4096; held = [] }

-- a descriptor that the system gives, and one that is closed
unfoldable pub open_fd : ℕ → Sockets → Sockets
open_fd fd s = record s { opened = fd ∷ s.opened }

unfoldable pub close_fd : ℕ → Sockets → Sockets
close_fd fd s = record s { opened = remove_first (is_fd fd) s.opened }

-- a new client, with its channel, in front of the others, and what was asked of the loop before it
-- stood there
unfoldable pub link_client : Conn → List Request → Sockets → Sockets
link_client c requests s = record s {
  clients_list = c ∷ s.clients_list;
  loop = apply_all requests (channel_add c.fd c.node s.loop);
  next = s.next + 1;
}

-- `HandleServer`: what `accept` gives, with the address of the peer, whether TCP_NODELAY can be
-- set, and what `create` returns and asks of the loop. The program ends where the option is
-- refused.
unfoldable pub handle_server :
    (ℕ → ℕ × List Request) → Server → Option (ℕ × ℕ) → Bool → Sockets → Option Sockets
handle_server create server none no_delay s = some s
handle_server create server (some (fd, peer)) no_delay s =
    let out = create s.next in
    let c : Conn = record {
      node = s.next;
      fd = fd;
      ipv6 = server.ipv6;
      app_uuid = text_bytes "init by HandleServer";
      from = some peer;
      receiver = new_receiver;
      user_data = some out.0;
      has_handle_delete = true;
    } in
    if no_delay then some (link_client c out.1 (open_fd fd s)) else none

-- `SocketServer`: the steps of the system before the server is there, each of which ends the
-- program where it fails, and the port that `getsockname` gives.
unfoldable pub socket_server : Bool → Option ℕ → Bool → ℕ → Sockets → Option (ℕ × Sockets)
socket_server ipv6 none listens port s = none
socket_server ipv6 (some fd) listens port s =
    let server : Server = record { node = s.next; fd = fd; ipv6 = ipv6; port = port } in
    if listens
    then some (
      s.next,
      record s {
        servers_list = server ∷ s.servers_list;
        loop = channel_add fd s.next s.loop;
        opened = fd ∷ s.opened;
        next = s.next + 1;
      },
    )
    else none

-- What `SocketConnectAddr` and `SocketBroadcastCreate` give: the client or NULL, or the end of the
-- program.
pub data Made : Type 0 where
  made : ℕ → Sockets → Made
  null : Sockets → Made
  exited : Made

-- the client of either, with its identifier at first
abbrev pub new_conn : ℕ → ℕ → Bool → Option ℕ → Bool → Bytes → Conn
new_conn node fd ipv6 user_data has_handle_delete uuid = record {
  node = node;
  fd = fd;
  ipv6 = ipv6;
  app_uuid = uuid;
  from = none;
  receiver = new_receiver;
  user_data = user_data;
  has_handle_delete = has_handle_delete;
}

-- `SocketConnectAddr`: what `socket` gives, whether `connect` and the option succeed
unfoldable pub socket_connect_addr :
    Bool → Bool → Option ℕ → Option ℕ → Bool → Bool → Sockets → Made
socket_connect_addr ipv6 deletes user_data none connects no_delay s = null s
socket_connect_addr ipv6 deletes user_data (some fd) connects no_delay s =
    if not connects
    then null (open_fd fd s)
    else if no_delay
    then made s.next (
        link_client
          (new_conn s.next fd ipv6 user_data deletes (text_bytes "init by SocketConnectAddr")) []
          (open_fd fd s))
    else exited

-- `SocketBroadcastCreate`: what `socket` gives, and whether the options and `bind` succeed
unfoldable pub socket_broadcast_create : Bool → Option ℕ → Option ℕ → Bool → Sockets → Made
socket_broadcast_create ipv6 user_data none binds s = null s
socket_broadcast_create ipv6 user_data (some fd) binds s =
    if binds
    then made s.next (
        link_client
          (new_conn s.next fd ipv6 user_data false (text_bytes "init by SocketBroadcastCreate")) []
          (open_fd fd s))
    else null (open_fd fd s)

-- a call of a client's `handle_delete`, with its data
abbrev pub DeleteCall : Type 0
DeleteCall = ℕ × Option ℕ

-- `DeleteSocket` and `DeleteServerSocket`, with the calls that they make; none where there is no
-- such node
unfoldable pub delete_socket : ℕ → Sockets → Option (Sockets × List DeleteCall)
delete_socket node s = elim (find_first (is_conn node) s.clients_list) [
  | none ↦ none
  | some c ↦ some (
    record (close_fd c.fd s) { clients_list = remove_first (is_conn node) s.clients_list },
    if c.has_handle_delete then (node, c.user_data) ∷ [] else [],
  )
]

unfoldable pub delete_server_socket : ℕ → Sockets → Option (Sockets × List DeleteCall)
delete_server_socket node s = elim (find_first (is_server node) s.servers_list) [
  | none ↦ none
  | some c ↦
      some (
        record (close_fd c.fd s) { servers_list = remove_first (is_server node) s.servers_list },
        [],
      )
]

-- `IvyChannelDelete` of the channel of a client, or of a server
unfoldable pub delete_channel : Bool → Channel → Sockets → Option (Sockets × List DeleteCall)
delete_channel serves c s = do
  l ← channel_delete c s.loop
  if serves
      then delete_server_socket c.user (record s { loop = l })
      else delete_socket c.user (record s { loop = l })

-- `SocketClose` and `SocketServerClose`
unfoldable pub socket_close : Option ℕ → Sockets → Sockets
socket_close none s = s
socket_close (some node) s = record s { loop = channel_remove node s.loop }

-- `SocketServerGetPort`
unfoldable pub socket_server_get_port : Option Server → ℕ
socket_server_get_port none = 0
socket_server_get_port (some s) = s.port

-- the 128 bytes of `app_uuid` that `strncpy` writes, up to a NUL among them
abbrev pub uuid_size : ℕ
uuid_size = 128

-- `SocketSetUuid` and `SocketCmpUuid`, whether the two are the same
unfoldable pub socket_set_uuid : ℕ → Bytes → Sockets → Sockets
socket_set_uuid node uuid s = record s {
  clients_list =
      update_first (is_conn node) (λ c. record c { app_uuid = take uuid_size uuid }) s.clients_list;
}

unfoldable pub same_uuid : Conn → Conn → Bool
same_uuid a b = bytes_eq (take uuid_size a.app_uuid) (take uuid_size b.app_uuid)
