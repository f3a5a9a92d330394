-- ===== src/Socket.antt =====
-- src/ivysocket.c: sending over a socket that may be congested; Socket/Receive has the other way.
pub mod Stream
pub mod Receive
pub mod Cutting
pub mod Lines
pub mod Reply
pub mod Sockets
pub mod Descriptors
pub mod Tests
use libivy.Base.{
  ℕ, zero, suc, ◌+◌, ◌-◌, ◌*◌, ◌≡◌, Bool, true, false, Option, none, some, List, [], ◌∷◌, ◌++◌,
  ◌==◌, ltb, if◌then◌else◌, Bytes, length, take, drop,
}
use libivy.Fifo.{
  Fifo, Memory, init, write, SendResult, sent, interrupted, would_block, failed, Answer, Flush,
  remaining, send_error, waiting, Flushed, send_socket,
}

-- `SendState`
pub data SendState : Type 0 where
  send_ok still_congestion change_to_congestion change_to_decongestion fifo_full : SendState
  send_failed param_error : SendState

-- The part of `struct _client` that sending uses: the fifo `ifb`, whether the channel waits for a
-- writable socket, and whether it is to be deleted. `wire` is what the system has taken so far.
pub record Sender : Type 0 where
  pub ifb : Option Fifo
  pub writable_event : Bool
  pub to_be_deleted : Bool
  pub wire : Bytes

abbrev pub state_of : Fifo → SendState
state_of f = if f.full then fifo_full else still_congestion

-- the socket turns congested, with the bytes that the system has not taken
abbrev pub congest : Memory → Sender → Bytes → Bytes → Sender
congest m c taken left = record c {
  ifb = some (write m (init m) left);
  writable_event = true;
  wire = c.wire ++ taken;
}

-- the branch of `BufferizedSocketSendRaw` where the socket is not congested
unfoldable pub direct_send : Memory → Sender → Bytes → SendResult → Sender × SendState
direct_send m c buffer (sent n) =
    if n == length buffer
    then (record c { wire = c.wire ++ buffer }, send_ok)
    else (congest m c (take n buffer) (drop n buffer), change_to_congestion)
direct_send m c buffer would_block = (congest m c [] buffer, change_to_congestion)
direct_send m c buffer interrupted = (c, send_failed)
direct_send m c buffer failed = (c, send_failed)

-- `BufferizedSocketSendRaw`, on the client's `ifb`
unfoldable pub send_on : Memory → Sender → Option Fifo → Bytes → Answer → Sender × SendState
send_on m c (some f) buffer answer =
    let f' = write m f buffer in (record c { ifb = some f' }, state_of f')
send_on m c none buffer answer = direct_send m c buffer (answer (length buffer))

unfoldable pub bufferized_send : Memory → Sender → Bytes → Answer → Sender × SendState
bufferized_send m c buffer answer = send_on m c c.ifb buffer answer

-- `SocketSendRaw`, with NULL as `none`
unfoldable pub socket_send_raw : Memory → Option Sender → Bytes → Answer → Option Sender × SendState
socket_send_raw m none buffer answer = (none, param_error)
socket_send_raw m (some c) buffer answer =
    let (c', state) = bufferized_send m c buffer answer in (some c', state)

-- the state of the first call, where it turned the socket congested
unfoldable pub first_congestion : SendState → SendState → SendState
first_congestion change_to_congestion s2 = change_to_congestion
first_congestion _ s2 = s2

-- `SocketSendRawWithId`, with the answers to its two calls of `send`
unfoldable pub send_with_id : Memory → Sender → Bytes → Bytes → Answer → Answer → Sender × SendState
send_with_id m c id buffer answer_id answer_buffer =
    let (c1, s1) = bufferized_send m c id answer_id in
    let (c2, s2) = bufferized_send m c1 buffer answer_buffer in (c2, first_congestion s1 s2)

-- How `HandleCongestionWrite` ends: the channel is to be closed, the congestion is over and the
-- callback is called, bytes are left, or the system has not answered yet.
pub data Progress : Type 0 where
  closing decongested congested unanswered : Progress

unfoldable pub after_flush : Sender → Flushed → Flush → Sender × Progress
after_flush c out send_error =
    (record c { ifb = some out.fifo; wire = c.wire ++ out.wire; to_be_deleted = true }, closing)
after_flush c out (remaining n) =
    if n == 0
    then (record c { ifb = none; wire = c.wire ++ out.wire; writable_event = false }, decongested)
    else (record c { ifb = some out.fifo; wire = c.wire ++ out.wire }, congested)
after_flush c out waiting =
    (record c { ifb = some out.fifo; wire = c.wire ++ out.wire }, unanswered)

-- `HandleCongestionWrite`, for a client whose `ifb` is the fifo given
unfoldable pub handle_congestion_write : List Answer → Sender → Fifo → Sender × Progress
handle_congestion_write answers c f =
    let out = send_socket answers f in after_flush c out out.result
