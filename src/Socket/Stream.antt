-- ===== src/Socket/Stream.antt =====
-- What a peer will have received: the bytes on the wire and, behind them, those in the fifo.
use libivy.Base.{
  ℕ, ◌+◌, ◌^◌, ◌≤◌, ◌<◌, ◌≡◌, ◌≢◌, refl, sym, ap, ◌∙◌, Bool, true, false, Option, none, some, List,
  [], ◌++◌, ◌==◌, if◌then◌else◌, Bytes, length, take, drop, arith, append-nil, append_assoc,
  take-append-drop, length-drop, Bool-cases, inl, inr, length-eq-zero,
}
use libivy.Fifo.{
  Fifo, Memory, init, write, SendResult, sent, interrupted, would_block, failed, Answer, Flush,
  remaining, send_error, waiting, Flushed,
}
use libivy.Fifo.Contents.{contents}
use libivy.Fifo.Growth.{IsMemory, IsSound, init-IsValid}
use libivy.Fifo.Refine.{takes, write_lem, init-IsSound, takes-init}
use libivy.Fifo.Draining.{IsSend, Flushes, send_socket_lem, Reports}
use libivy.Socket.{
  SendState, send_ok, still_congestion, change_to_congestion, fifo_full, Sender, state_of, congest,
  direct_send, send_on, bufferized_send, first_congestion, send_with_id, Progress, closing,
  decongested, congested, unanswered, after_flush, handle_congestion_write,
}

abbrev pub pending : Option Fifo → Bytes
pending none = []
pending (some f) = contents f

abbrev pub stream : Sender → Bytes
stream c = c.wire ++ pending c.ifb

-- A socket has a sound fifo and waits for its peer, or neither.
abbrev pub FifoFits : Memory → Option Fifo → Bool → Type 0
FifoFits m none event = event ≡ false
FifoFits m (some f) event = IsSound m f × (event ≡ true)

abbrev pub IsSender : Memory → Sender → Type 0
IsSender m c = FifoFits m c.ifb c.writable_event

-- the states with which a message is taken over
abbrev pub is_taken : SendState → Bool
is_taken send_ok = true
is_taken still_congestion = true
is_taken change_to_congestion = true
is_taken _ = false

-- What one call of `BufferizedSocketSendRaw` comes to.
pub record Sends (m : Memory) (c : Sender) (buffer : Bytes) (out : Sender × SendState)
    : Type 0 where
  pub streamed : stream out.0 ≡ (if is_taken out.1 then stream c ++ buffer else stream c)
  pub sound : IsSender m out.0

module _ {m : Memory} (ok : IsMemory m) where
  small : (n : ℕ) → n + m.block ≤ m.limit → n < 2 ^ 31
  small n h = omega (arith, ok.limit_small)

  -- a fresh fifo holds all that it is given
  fresh_fifo :
      (left : Bytes)
      → length left + m.block ≤ m.limit
      → (contents (write m (init m) left) ≡ left) × IsSound m (write m (init m) left)
  fresh_fifo left h =
      let w = write_lem ok (init-IsSound ok) left (small (length left) h) in
      (w.0 ∙ rw (takes-init ok (length left) h) (ap (λ t. t ++ left) (init-IsValid ok).1), w.2)

  -- the socket that turns congested
  congest-Sends :
      (c : Sender) (buffer taken left : Bytes)
      → taken ++ left ≡ buffer
      → c.ifb ≡ none
      → length left + m.block ≤ m.limit
      → Sends m c buffer (congest m c taken left, change_to_congestion)
  congest-Sends c buffer taken left e i h =
      let w = fresh_fifo left h in
      record {
        streamed =
            rw (w.0, i)
              (append_assoc c.wire taken left
                ∙ ap (λ t. c.wire ++ t) e
                ∙ ap (λ t. t ++ buffer) (sym (append-nil c.wire)));
        sound = (w.1, refl);
      }

  direct_send-Sends :
      (c : Sender) (buffer : Bytes) (r : SendResult)
      → c.ifb ≡ none
      → IsSender m c
      → length buffer + m.block ≤ m.limit
      → Sends m c buffer (direct_send m c buffer r)
  unfolding direct_send
  direct_send-Sends c buffer (sent n) e v h = elim (Bool-cases (n == length buffer)) [
    | inl k ↦ rw k (record {
      streamed = rw e (append-nil _ ∙ ap (λ t. t ++ buffer) (sym (append-nil c.wire)));
      sound = v;
    })
    | inr k ↦ rw k (
        congest-Sends c buffer (take n buffer) (drop n buffer) (take-append-drop n buffer) e
          (omega (arith, length-drop n buffer)))
  ]
  direct_send-Sends c buffer would_block e v h = congest-Sends c buffer [] buffer refl e h
  direct_send-Sends c buffer interrupted e v h = record { streamed = refl; sound = v }
  direct_send-Sends c buffer failed e v h = record { streamed = refl; sound = v }

  queue-Sends :
      (c : Sender) (f : Fifo) (buffer : Bytes)
      → c.ifb ≡ some f
      → IsSound m f
      → c.writable_event ≡ true
      → length buffer < 2 ^ 31
      → let f' = write m f buffer in Sends m c buffer (record c { ifb = some f' }, state_of f')
  queue-Sends c f buffer e v ev h =
      let w = write_lem ok v buffer h in
      record {
        streamed =
            rw (e, w.0, w.1)
              (elim (Bool-cases (takes m f (length buffer))) [
                | inl t ↦ rw t (sym (append_assoc c.wire (contents f) buffer))
                | inr t ↦ rw t refl
              ]);
        sound = (w.2, ev);
      }

  send_on-Sends :
      (c : Sender) (fifo : Option Fifo) (buffer : Bytes) (answer : Answer)
      → c.ifb ≡ fifo
      → FifoFits m fifo c.writable_event
      → length buffer + m.block ≤ m.limit
      → Sends m c buffer (send_on m c fifo buffer answer)
  unfolding send_on
  send_on-Sends c none buffer answer e v h =
      direct_send-Sends c buffer (answer (length buffer)) e (rw e v) h
  send_on-Sends c (some f) buffer answer e v h =
      queue-Sends c f buffer e v.0 v.1 (small (length buffer) h)

  -- One call of `BufferizedSocketSendRaw` with a message that leaves a block of the fifo's bound
  -- free, whatever `send` answers: if the state returned is one of taking over, the bytes the peer
  -- gets are those before with the message behind them, whole and once; else they are those
  -- before. A socket that has a sound fifo exactly when it waits to be writable keeps this.
  pub bufferized_send-Sends :
      (c : Sender) (buffer : Bytes) (answer : Answer)
      → IsSender m c
      → length buffer + m.block ≤ m.limit
      → Sends m c buffer (bufferized_send m c buffer answer)
  unfolding bufferized_send
  bufferized_send-Sends c buffer answer v h = send_on-Sends c c.ifb buffer answer refl v h

  -- A congested socket whose sound fifo has room for the id of a frame but not for its body, both
  -- of fewer than 2^31 bytes, queues the id alone and answers that the fifo is full: the peer gets
  -- a part of the frame, and then whatever is sent next.
  pub send_with_id_splits :
      (c : Sender) (f : Fifo) (id buffer : Bytes) (answer_id answer_buffer : Answer)
      → c.ifb ≡ some f
      → IsSound m f
      → length id < 2 ^ 31
      → length buffer < 2 ^ 31
      → takes m f (length id) ≡ true
      → takes m (write m f id) (length buffer) ≡ false
      → let out = send_with_id m c id buffer answer_id answer_buffer in
        (stream out.0 ≡ stream c ++ id) × (out.1 ≡ fifo_full)
  unfolding send_with_id bufferized_send send_on first_congestion
  send_with_id_splits c f id buffer answer_id answer_buffer e v h k t u =
      let w = write_lem ok v id h in
      let x = write_lem ok w.2 buffer k in
      rw e
        (rw (x.0, u, w.0, t) (sym (append_assoc c.wire (contents f) id)), rw (x.1, u, w.1, t) refl)

-- what the end of a flush says of the client
abbrev pub Ends : Progress → Sender → Type 0
Ends closing c = (c.to_be_deleted ≡ true) × (pending c.ifb ≢ [])
Ends decongested c = (c.ifb ≡ none) × (c.writable_event ≡ false)
Ends congested c = pending c.ifb ≢ []
Ends unanswered c = pending c.ifb ≢ []

-- The bytes for the peer are the same before and after.
pub record Continues (m : Memory) (c : Sender) (out : Sender × Progress) : Type 0 where
  pub kept : stream out.0 ≡ stream c
  pub sound : IsSender m out.0
  pub ends : Ends out.1 out.0

module _ {m : Memory} (c : Sender) {f : Fifo} (e : c.ifb ≡ some f) (v : IsSound m f)
    (ev : c.writable_event ≡ true) {out : Flushed} (w : Flushes f out) where
  still-IsSound : IsSound m out.fifo
  still-IsSound = record { valid = w.valid; bounded = omega (arith, w.sized, v.bounded) }

  still_kept : (c.wire ++ out.wire) ++ contents out.fifo ≡ stream c
  still_kept =
      append_assoc c.wire out.wire (contents out.fifo)
      ∙ ap (λ t. c.wire ++ t) w.conserved
      ∙ rw e refl

  after_flush-Continues :
      (r : Flush) → Reports r (contents out.fifo) → Continues m c (after_flush c out r)
  unfolding after_flush
  after_flush-Continues (remaining n) h = elim (Bool-cases (n == 0)) [
    | inl k ↦
        let z = length-eq-zero (contents out.fifo) (ground arith) in
        rw k (record {
          kept = ap (λ t. (c.wire ++ out.wire) ++ t) (sym z) ∙ still_kept;
          sound = refl;
          ends = (refl, refl);
        })
    | inr k ↦ rw k (record {
      kept = still_kept;
      sound = (still-IsSound, ev);
      ends = λ z. ground (arith, ap length z);
    })
  ]
  after_flush-Continues send_error h = record {
    kept = still_kept;
    sound = (still-IsSound, ev);
    ends = (refl, h);
  }
  after_flush-Continues waiting h = record {
    kept = still_kept;
    sound = (still-IsSound, ev);
    ends = h;
  }

-- Whatever `send` answers, of no more than it is offered, while a congested socket with a sound
-- fifo is flushed, the bytes on the wire and in the fifo make up what they made up before. The
-- congestion is over, with no fifo and nothing waited for, exactly when no byte is left; with an
-- error and bytes left the channel is to be deleted.
pub handle_congestion_write_lem :
    {m : Memory} (answers : List Answer) (c : Sender) {f : Fifo}
    → IsSend answers
    → c.ifb ≡ some f
    → IsSound m f
    → c.writable_event ≡ true
    → Continues m c (handle_congestion_write answers c f)
unfolding handle_congestion_write
handle_congestion_write_lem answers c a e v ev =
    let w = send_socket_lem answers a v.valid in after_flush-Continues c e v ev w _ w.reports
