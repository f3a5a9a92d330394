-- ===== src/Bus/Tests.antt =====
-- An agent with two others on the bus, and the lines that they send.
use libivy.Base.{
  bytes_eq, Option, ℕ, ◌≡◌, refl, true, false, none, some, List, [], ◌∷◌, ◌++◌, ◌==◌, if◌then◌else◌,
  Bytes, arith,
}
use libivy.Registry.{IvyClient, subscriber}
use libivy.Registry.Tests.{
  table, table-IsLibrary, hello, other, ann, bob, bus, entries-IsDictionary,
}
use libivy.Filter.{binding_filter, is_anchored}
use libivy.Message.{encode_args}
use libivy.Dispatch.{body_of}
use libivy.Socket.{send_ok}
use libivy.Socket.Receive.{Receiver, room, with_room, memchr, cut_lines, after_recv, handle_socket}
use libivy.Socket.Cutting.{split}
use libivy.Socket.Lines.{IsReceiver, AllFit, join, receive_all}
use libivy.Wire.{add_regexp, die, ping, pong, code_of, print_digits, print_int, header, line_of}
use libivy.Wire.Lines.{line_text, scan_line-text}
use libivy.Bus.{Handler, Bus, Peer, World, pong_callback, framed, msg_send_to, congestion_event}
use libivy.Bus.Receive.{receive, receive_lines}
use libivy.Bus.Session.{broadcast_receive, new_client, send_regexps, send_ping}
use libivy.Bus.Applications.{get_application_list}
use libivy.Bus.Names.{names_with, get_application_list-bounded}
use libivy.Interval.{returns}
use libivy.Bus.Safe.{asks_to_die, Serves}
use libivy.Bus.Lines.{receive_lines-Serves, line_after_die_faults}
use libivy.Bus.Delivered.{Message, wire, calls_due, receive-calls}
use libivy.Bus.Sending.{lines_sent, stream_to}
use libivy.Bus.Subscribed.{Subscribes, receive_lines-Subscribes}
use libivy.Bus.Ping.{Answers, ping-pong}
use libivy.Bus.Ready.{ends, events, heard_ends, frames_due, message_due, ready_once}
use libivy.Discovery.{skip_blanks}
use libivy.Discovery.RoundTrip.{Announcement, heard_line, CanAnnounce}
use libivy.Bus.Meeting.{service_lines, broadcast_receive-meets}

-- the connections: to 5 from here, and to 6 from there
abbrev peer : ℕ → Peer
peer client =
    if client == 5
    then record { address = 9; remote_port = 2010; local_port = 40000 }
    else record { address = 9; remote_port = 50000; local_port = 2011 }

abbrev mirrored : ℕ → Peer
mirrored client =
    let p = peer client in record p { remote_port = p.local_port; local_port = p.remote_port }

abbrev world_with : (ℕ → Peer) → World Bytes
world_with peers = record {
  library = table;
  token_of = λ r. none;
  exec = λ b message. some (message ∷ []);
  send_state = λ client line. send_ok;
  peer_of = peers;
}

abbrev pub world : World Bytes
world = world_with peer

abbrev handlers : List Handler
handlers =
    record { id = 1; regexp = hello; callback = some 3 }
    ∷ record { id = 2; regexp = other; callback = none }
    ∷ []

abbrev pub here : Bus Bytes
here = record {
  store = bus;
  msg_recv = handlers;
  next_id = 3;
  filter = record { words = []; has_extract = false };
  config = record {
    application_port = 2011;
    application_name = b'n' ∷ [];
    application_id = b'i' ∷ [];
    ready_message = some (b'r' ∷ []);
    has_application_callback = true;
    has_direct_callback = false;
    has_die_callback = false;
    has_pong_callback = true;
  };
}

abbrev asking : Bytes
asking = line_text add_regexp 4 other

abbrev dying : Bytes
dying = line_text die 0 []

asking-lives : asks_to_die asking ≡ false
unfolding asks_to_die code_of
asking-lives = rw (scan_line-text add_regexp 4 other (omega arith), asks_to_die) refl

dying-dies : asks_to_die dying ≡ true
unfolding asks_to_die code_of
dying-dies = rw (scan_line-text die 0 [] (omega arith), asks_to_die) refl

receive_lines-Serves_example : Serves here (receive_lines world 0 5 (asking ∷ asking ∷ []) here)
receive_lines-Serves_example =
    receive_lines-Serves world table-IsLibrary 0 5 (asking ∷ asking ∷ []) here entries-IsDictionary
      refl (asking-lives, (asking-lives, tt))

line_after_die_faults_example : receive_lines world 0 5 (dying ∷ asking ∷ []) here ≡ none
line_after_die_faults_example =
    line_after_die_faults world 0 5 dying asking [] here {c = ann} refl refl dying-dies

-- two messages, the second with no group, cut inside of the first
abbrev messages : List Message
messages = (1, (b'h' ∷ b'i' ∷ []) ∷ [] ∷ []) ∷ (2, []) ∷ []

abbrev pieces : List Bytes
pieces =
    (b'2' ∷ b' ' ∷ b'1' ∷ 2 ∷ b'h' ∷ [])
    ∷ (b'i' ∷ 3 ∷ 3 ∷ b'\n' ∷ b'2' ∷ b' ' ∷ b'2' ∷ 2 ∷ b'\n' ∷ [])
    ∷ []

abbrev reader : Receiver
reader = record { terminator = b'\n'; buffer_size = 4096; held = [] }

reader-IsReceiver : IsReceiver reader
unfolding split
reader-IsReceiver = record { partial = refl; in_buffer = omega arith; has_size = omega arith }

pieces-AllFit : AllFit pieces reader
unfolding AllFit room with_room handle_socket memchr cut_lines after_recv
pieces-AllFit = (omega arith, omega arith, (omega arith, omega arith, tt))

pieces-wire : join pieces ≡ wire messages
unfolding header print_int print_digits code_of body_of encode_args
pieces-wire = refl

receive-calls_example :
    (b' : Bus Bytes) × (receive_lines world 0 5 (receive_all pieces reader).0 here
      ≡ some (b', calls_due handlers 5 messages))
receive-calls_example =
    receive-calls world 0 messages pieces reader here ann reader-IsReceiver refl refl pieces-AllFit
      pieces-wire
      (
        omega arith,
        ((refl, (refl, tt)), (tt, tt)),
        ((refl, (refl, tt)), (tt, tt)),
        (omega arith, tt, tt, tt),
      )
      refl refl

hello-passes : binding_filter world.token_of hello here.filter ≡ true
unfolding binding_filter is_anchored
hello-passes = refl

other-passes : binding_filter world.token_of other here.filter ≡ true
unfolding binding_filter is_anchored
other-passes = refl

-- the lines that ask for the two regexps, cut inside of the second
abbrev asked : List Bytes
asked =
    (b'1' ∷ b' ' ∷ b'1' ∷ 2 ∷ b'a' ∷ b'\n' ∷ b'1' ∷ []) ∷ (b' ' ∷ b'2' ∷ 2 ∷ b'b' ∷ b'\n' ∷ []) ∷ []

asked-AllFit : AllFit asked reader
unfolding AllFit room with_room handle_socket memchr cut_lines after_recv
asked-AllFit = (omega arith, omega arith, (omega arith, omega arith, tt))

asked-stream : join asked ≡ stream_to world 5 (send_regexps world here.config 5 handlers)
unfolding send_regexps msg_send_to congestion_event line_of header print_int print_digits code_of
asked-stream = refl

receive_lines-Subscribes_example :
    Subscribes world table-IsLibrary 6 handlers here
      (receive_lines world 0 6 (receive_all asked reader).0 here)
receive_lines-Subscribes_example =
    receive_lines-Subscribes world table-IsLibrary world here.config 0 6 5 handlers asked reader
      here reader-IsReceiver refl refl asked-AllFit asked-stream
      ((refl, tt), refl, ((refl, tt), refl, tt)) entries-IsDictionary refl
      (omega arith, refl, hello-passes, (omega arith, refl, other-passes, tt))

ping-pong_example :
    let sent = send_ping world 7 ann here in
    (lines_sent sent.1 ≡ (5, line_text ping 1 []) ∷ [])
    × Answers 6 1 (receive world 20 6 (line_text ping 1 []) here)
    × (a' : Bus Bytes) × (receive world 90 5 (line_text pong 1 []) sent.0
        ≡ some (a', pong_callback 5 false 83 ∷ []))
ping-pong_example =
    ping-pong world world 6 90 20 6 here ann here refl refl refl (omega arith) refl (omega arith)
      (omega arith)

-- an agent that is subscribed twice, and has still to send its EndRegexp
abbrev nearly : IvyClient
nearly = record ann { ready_to_send = 1 }

abbrev starting : Bus Bytes
starting = record here { store = record bus { all_clients = bob ∷ nearly ∷ [] } }

ready_frames :
    (body : Bytes)
    → frames_due world here.config 5 body (subscriber ann ∷ [])
      ≡ framed (record { client = 5; id = 1; body = body }) ∷ []
unfolding frames_due subscriber
ready_frames body = refl

ready_once_example :
    (b' : Bus Bytes) × (receive_lines world 0 5 (ends (0 ∷ 0 ∷ [])) starting
      ≡ some (
        b',
        (events here.config 5 ++ message_due world here.config 5 (b'r' ∷ []) bus.dictionary)
            ++ heard_ends here.config 5 (0 ∷ []),
      ))
ready_once_example =
    ready_once world 0 0 (0 ∷ []) starting nearly refl refl refl refl
      (omega arith, (omega arith, tt))

-- an agent on the port 2010
abbrev stranger : Announcement
stranger = record {
  version = (b'3' ∷ []);
  port = (b'2' ∷ b'0' ∷ b'1' ∷ b'0' ∷ []);
  app_id = (b's' ∷ b'1' ∷ []);
  app_name = (b'm' ∷ b'y' ∷ []);
}

stranger-CanAnnounce : CanAnnounce 128 2048 stranger
unfolding skip_blanks
stranger-CanAnnounce = record {
  version_digits = (refl, tt);
  version_ne_nil = λ e. cc;
  version_in = omega arith;
  port_digits = (refl, (refl, (refl, (refl, tt))));
  port_ne_nil = λ e. cc;
  port_in = (omega arith, omega arith);
  id_length = (omega arith, omega arith);
  id_free = (refl, (refl, tt));
  name_length = (omega arith, omega arith);
  name_free = (refl, (refl, tt));
  name_unpadded = refl;
}

abbrev connect : ℕ → Option ℕ
connect port = if port == 2010 then some 8 else none

broadcast_receive-meets_example :
    let out = broadcast_receive world connect (heard_line stranger) here in
    (lines_sent out.1 ≡ service_lines 8 here)
    × (out.0.store.all_clients
        ≡ record (new_client 8 (b'm' ∷ b'y' ∷ [])) { ready_to_send = 1 } ∷ bus.all_clients)
unfolding bytes_eq
broadcast_receive-meets_example =
    broadcast_receive-meets world connect stranger 8 here stranger-CanAnnounce refl refl refl

get_application_list-bounded_example :
    get_application_list (b',' ∷ []) bus.all_clients
    ≡ returns (names_with (b',' ∷ []) bus.all_clients)
get_application_list-bounded_example = get_application_list-bounded (b',' ∷ []) bus.all_clients
