-- ===== src/Socket/Tests.antt =====
-- A socket that turns congested, fills up and is drained.
use libivy.Base.{◌++◌, ◌≤◌, ◌≡◌, refl, false, true, none, some, List, [], ◌∷◌, arith, length, Bytes}
use libivy.Fifo.{
  fifo_length, avail, drain, read_loop, generic_read, read, aligned_size, moved_to, realloc, grown,
  write, write_chunk, write_loop, sent, interrupted, would_block, Answer,
}
use libivy.Fifo.Contents.{contents}
use libivy.Fifo.Refine.{takes}
use libivy.Fifo.Draining.{IsSend}
use libivy.Fifo.Tests.{small, small-IsMemory, held, held-IsSound}
use libivy.Socket.{
  fifo_full, change_to_congestion, Sender, direct_send, send_on, bufferized_send, send_with_id,
  handle_congestion_write,
}
use libivy.Socket.Receive.{
  Receiver, got, with_room, room, memchr, cut_lines, after_recv, handle_socket,
}
use libivy.Socket.Cutting.{split}
use libivy.Socket.Lines.{IsReceiver, AllFit, receive_all, receive_all_lem}
use libivy.Socket.Stream.{
  stream, Sends, bufferized_send-Sends, send_with_id_splits, Continues, handle_congestion_write_lem,
}
use libivy.Loop.{channel_add}
use libivy.Socket.Sockets.{
  Sockets, socket_server, socket_connect_addr, link_client, new_conn, text_bytes, open_fd,
  socket_close,
}
use libivy.Socket.Descriptors.{Step, serves, connects, closes, done, more, IsOwned, Steps-IsOwned}
use libivy.Socket.Reply.{bytes, faults, answered, wait_for_reply, wait_for_reply-faults}

abbrev idle : Sender
idle = record { ifb = none; writable_event = false; to_be_deleted = false; wire = 8 ∷ [] }

abbrev busy : Sender
busy = record { ifb = some held; writable_event = true; to_be_deleted = false; wire = 8 ∷ [] }

abbrev message : Bytes
message = 1 ∷ 2 ∷ 3 ∷ []

-- `send` takes one byte of a message of three
bufferized_send-partial :
    ((bufferized_send small idle message (λ n. sent 1)).1 ≡ change_to_congestion)
    × ((bufferized_send small idle message (λ n. sent 1)).0.wire ≡ 8 ∷ 1 ∷ [])
unfolding bufferized_send send_on direct_send
bufferized_send-partial = (refl, refl)

bufferized_send-Sends_example :
    Sends small idle message (bufferized_send small idle message (λ n. sent 1))
bufferized_send-Sends_example =
    bufferized_send-Sends small-IsMemory idle message (λ n. sent 1) refl (omega arith)

abbrev id : Bytes
id = 4 ∷ 5 ∷ 6 ∷ []

abbrev body : Bytes
body = 7 ∷ 7 ∷ 7 ∷ []

takes-id : takes small held (length id) ≡ true
unfolding contents
takes-id = refl

takes-body : takes small (write small held id) (length body) ≡ false
unfolding contents write write_loop write_chunk grown avail fifo_length realloc aligned_size
    moved_to read generic_read read_loop drain
takes-body = refl

send_with_id_splits_example :
    let out = send_with_id small busy id body (λ n. would_block) (λ n. would_block) in
    (stream out.0 ≡ 8 ∷ 1 ∷ 2 ∷ 3 ∷ 4 ∷ 5 ∷ 6 ∷ []) × (out.1 ≡ fifo_full)
unfolding contents
send_with_id_splits_example =
    send_with_id_splits small-IsMemory busy held id body (λ n. would_block) (λ n. would_block) refl
      held-IsSound (omega arith) (omega arith) takes-id takes-body

abbrev answers : List Answer
answers = (λ n. interrupted) ∷ (λ n. sent n) ∷ []

answers-IsSend : IsSend answers
answers-IsSend = ((λ n. tt), ((λ n. omega arith), tt))

handle_congestion_write_lem_example :
    Continues small busy (handle_congestion_write answers busy held)
handle_congestion_write_lem_example =
    handle_congestion_write_lem answers busy answers-IsSend refl held-IsSound refl

-- a buffer of four bytes, that is full
abbrev reader : Receiver
reader = record { terminator = 10; buffer_size = 4; held = 1 ∷ 2 ∷ 3 ∷ 4 ∷ [] }

reader-IsReceiver : IsReceiver reader
unfolding split
reader-IsReceiver = record { partial = refl; in_buffer = omega arith; has_size = omega arith }

-- the buffer grows, two messages come, and a part of a third
handle_socket-reader : handle_socket (λ n. got (10 ∷ 10 ∷ 7 ∷ [])) reader ≡ record {
  client = record { terminator = 10; buffer_size = 8; held = 7 ∷ [] };
  messages = (1 ∷ 2 ∷ 3 ∷ 4 ∷ []) ∷ [] ∷ [];
  removed = false;
}
unfolding handle_socket with_room room memchr cut_lines after_recv
handle_socket-reader = refl

reader-room : 3 ≤ room reader
unfolding room with_room
reader-room = omega arith

abbrev pieces : List Bytes
pieces = (5 ∷ 10 ∷ []) ∷ (6 ∷ []) ∷ (10 ∷ 7 ∷ []) ∷ []

pieces-AllFit : AllFit pieces reader
unfolding AllFit room with_room handle_socket memchr cut_lines after_recv
pieces-AllFit =
    (omega arith, omega arith, (omega arith, omega arith, (omega arith, omega arith, tt)))

receive_all_lem_example :
    let out = receive_all pieces reader in
    (◌≡◌ {A = List Bytes × Bytes}
      (out.0, out.1.held)
      ((1 ∷ 2 ∷ 3 ∷ 4 ∷ 5 ∷ []) ∷ (6 ∷ []) ∷ [], 7 ∷ []))
    × IsReceiver out.1
unfolding split
receive_all_lem_example = receive_all_lem pieces reader reader-IsReceiver pieces-AllFit

-- no server yet, and one on the descriptor 3
abbrev nothing_open : Sockets
nothing_open = record {
  clients_list = [];
  servers_list = [];
  loop = record {
    channels_list = [];
    open_fds = λ x. false;
    wrdy_fds = λ x. false;
    highest_fd = 0;
    freed = [];
    main_loop = true;
    channel_initialized = true;
  };
  opened = [];
  next = 0;
}

abbrev serving : Sockets
serving = record {
  clients_list = [];
  servers_list = record { node = 0; fd = 3; ipv6 = false; port = 2010 } ∷ [];
  loop = channel_add 3 0 nothing_open.loop;
  opened = 3 ∷ [];
  next = 1;
}

starts_serving : Step nothing_open serving
unfolding socket_server
starts_serving = serves false 3 true 2010 0 refl refl

-- a client that is connected on the descriptor 4, and closed
abbrev connected : Sockets
connected =
    link_client (new_conn 1 4 false none true (text_bytes "init by SocketConnectAddr")) []
      (open_fd 4 serving)

gets_connected : Step serving connected
unfolding socket_connect_addr
gets_connected = connects false true none 4 true true 1 refl refl

Steps-IsOwned_example : IsOwned (socket_close (some 1) connected)
Steps-IsOwned_example =
    Steps-IsOwned (more (more (more done starts_serving) gets_connected) (closes (some 1)))
      (record { owned = λ x. refl; once = λ x. omega arith })

wait_for_reply-faults_example :
    wait_for_reply b'\n' 4 []
      (answered ((b'a' ∷ []) ∷ []) ++ (bytes (b'b' ∷ b'c' ∷ b'\n' ∷ []) ∷ []))
    ≡ faults
wait_for_reply-faults_example =
    wait_for_reply-faults b'\n' 4 [] ((b'a' ∷ []) ∷ []) (b'b' ∷ b'c' ∷ b'\n' ∷ []) [] (refl, tt)
      (omega arith) refl
