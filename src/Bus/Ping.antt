-- ===== src/Bus/Ping.antt =====
-- A ping from one agent to another and back.
use libivy.Base.{
  ℕ, suc, ◌+◌, ◌-◌, ◌^◌, ◌<◌, ◌≤◌, ◌≡◌, refl, ap, ◌∙◌, true, false, not, ◌&&◌, ◌==◌, ltb,
  if◌then◌else◌, some, List, [], ◌∷◌, ==_refl, find_first, arith,
}
use libivy.Registry.{IvyClient, is_client}
use libivy.Wire.{ping, pong, code_of, kind_of}
use libivy.Wire.Lines.{line_text, scan_line-text}
use libivy.Bus.{Bus, Action, pong_callback, World, msg_send_to, with_client}
use libivy.Bus.Receive.{Outcome, round_trip, handle_pong, handle, receive_line, receive}
use libivy.Bus.Session.{send_ping}
use libivy.Bus.Connected.{find_first-update_first}
use libivy.Bus.Heard.{IsHeard, heard}
use libivy.Bus.Lines.{receive_heard}
use libivy.Bus.Sending.{lines_sent, msg_send_to-line}

-- a time of less than 2001 seconds is handed over as it is
round_trip-short : (diff : ℕ) → diff < 2001000000 → round_trip diff ≡ diff
unfolding round_trip
round_trip-short diff h = omega arith

abbrev pinged : ℕ → ℕ → IvyClient → IvyClient
pinged stamp id i = record i { ping_stamp = stamp; ping_id = id }

-- the answer of an agent to a ping
pub record Answers {B : Type 0} (client id : ℕ) (out : Outcome B) : Type 0 where
  pub bus : Bus B
  pub actions : List Action
  pub returns : out ≡ some (bus, actions)
  pub sends : lines_sent actions ≡ (client, line_text pong id []) ∷ []

module _ {B : Type 0} (w : World B) where
  receive-Answers :
      (now client id : ℕ) (b : Bus B)
      → IsHeard client b.store.all_clients
      → id < 2 ^ 32
      → Answers client id (receive w now client (line_text ping id []) b)
  unfolding receive_line handle code_of kind_of
  receive-Answers now client id b n lt =
      let (c, f, s, i) = heard client b.store.all_clients n in
      record {
        bus = with_client c.client (λ i. record i { id = id }) b;
        actions = msg_send_to w b.config c.client pong id [];
        returns =
            receive_heard w now client (line_text ping id []) b f i
            ∙ rw (scan_line-text ping id [] lt, receive_line) refl;
        sends =
            msg_send_to-line w b.config c.client pong id []
            ∙ ap (λ k. (k, line_text pong id []) ∷ []) s;
      }

module _ {B : Type 0} (w : World B) where
  handle_pong-timed :
      (now stamp : ℕ) (b : Bus B) (c : IvyClient)
      → b.config.has_pong_callback ≡ true
      → c.ping_stamp ≡ suc stamp
      → suc stamp ≤ now
      → handle_pong w now c c.ping_id b ≡ (
        with_client c.client (λ j. record j { ping_stamp = 0 }) b,
        pong_callback c.client false (round_trip (now - suc stamp)) ∷ [],
      )
  unfolding handle_pong
  handle_pong-timed now stamp b c p s le =
      let t : (b.config.has_pong_callback && not (c.ping_stamp == 0)) ≡ true =
        rw p (ground (arith, s)) in
      let u : ltb now (suc stamp) ≡ false = ground arith in rw (t, ==_refl c.ping_id, s) (rw u refl)

  -- the pong that a ping waits for
  receive_pong :
      (now stamp : ℕ) (b : Bus B) (c : IvyClient)
      → b.config.has_pong_callback ≡ true
      → find_first (is_client c.client) b.store.all_clients ≡ some c
      → c.ignore_subsequent_msg ≡ false
      → c.ping_stamp ≡ suc stamp
      → suc stamp ≤ now
      → c.ping_id < 2 ^ 32
      → (b' : Bus B) × (receive w now c.client (line_text pong c.ping_id []) b
          ≡ some (b', pong_callback c.client false (round_trip (now - suc stamp)) ∷ []))
  unfolding receive_line handle code_of kind_of
  receive_pong now stamp b c p f i s le lt =
      let b' = with_client c.client (λ j. record j { id = c.ping_id }) b in
      (
        with_client c.client (λ j. record j { ping_stamp = 0 }) b',
        receive_heard w now c.client (line_text pong c.ping_id []) b f i
            ∙ rw (scan_line-text pong c.ping_id [] lt, receive_line)
                (ap some (handle_pong-timed now stamp b' (record c { id = c.ping_id }) p s le)),
      )

  send_ping-eq :
      (stamp : ℕ) (b : Bus B) (c : IvyClient)
      → b.config.has_pong_callback ≡ true
      → send_ping w stamp c b ≡ (
        with_client c.client (pinged stamp (c.ping_id + 1)) b,
        msg_send_to w b.config c.client ping (c.ping_id + 1) [],
      )
  unfolding send_ping
  send_ping-eq stamp b c p =
      ap
        (λ t.
          if t
          then (
            with_client c.client (pinged stamp (c.ping_id + 1)) b,
            msg_send_to w b.config c.client ping (c.ping_id + 1) [],
          )
          else (b, []))
        p

-- A ping, with a pong callback and at a time that is not 0, to a client that is connected and not
-- ignored, as its peer is for it: one line is sent, to this client, which Receive of the other
-- agent
-- answers with one line to the client that it came from, a pong of the same id, of 32 bits; and
-- Receive of that one calls the callback, not as late, with the time since the ping, of less than
-- 2001 seconds, where the clock has not gone back in between.
pub ping-pong :
    {A B : Type 0} (u : World A) (w : World B) (stamp now mid client : ℕ) (a : Bus A)
    (c : IvyClient) (b : Bus B)
    → a.config.has_pong_callback ≡ true
    → find_first (is_client c.client) a.store.all_clients ≡ some c
    → c.ignore_subsequent_msg ≡ false
    → c.ping_id + 1 < 2 ^ 32
    → IsHeard client b.store.all_clients
    → suc stamp ≤ now
    → now - suc stamp < 2001000000
    → let sent = send_ping u (suc stamp) c a in
      (lines_sent sent.1 ≡ (c.client, line_text ping (c.ping_id + 1) []) ∷ [])
      × Answers client (c.ping_id + 1) (receive w mid client (line_text ping (c.ping_id + 1) []) b)
      × (a' : Bus A) × (receive u now c.client (line_text pong (c.ping_id + 1) []) sent.0
          ≡ some (a', pong_callback c.client false (now - suc stamp) ∷ []))
ping-pong u w stamp now mid client a c b p f i lt n le d =
    let g = pinged (suc stamp) (c.ping_id + 1) in
    let q =
      receive_pong u now stamp (with_client c.client g a) (g c) p
        (find_first-update_first c.client g a.store.all_clients (λ j. refl) f) i refl le lt in
    rw (send_ping-eq u (suc stamp) a c p) (
      msg_send_to-line u a.config c.client ping (c.ping_id + 1) [],
      receive-Answers w mid client (c.ping_id + 1) b n lt,
      q.0,
      q.1
          ∙ ap (λ t. some (q.0, pong_callback c.client false t ∷ []))
              (round_trip-short (now - suc stamp) d),
    )
