-- ===== src/Bus/Meeting.antt =====
-- An agent that hears the broadcast of another one: `BroadcastReceive`, with `SendService`.
use libivy.Base.{
  ℕ, ◌≡◌, refl, ap, ◌∙◌, true, false, Option, some, List, [], ◌∷◌, ◌++◌, append_assoc, ◌==◌, Bytes,
  bytes_eq, arith,
}
use libivy.Discovery.{Discovery, parse_discovery}
use libivy.Discovery.Numbers.{value_from}
use libivy.Discovery.RoundTrip.{Announcement, heard_line, CanAnnounce, parse_discovery-heard}
use libivy.Wire.{add_regexp, start_regexp, end_regexp}
use libivy.Wire.Lines.{line_text}
use libivy.Bus.{Handler, Config, Bus, Action, World, msg_send_to, ready_actions}
use libivy.Bus.Session.{
  appid_size, appname_size, ivy_major_version, new_client, send_regexps, send_service,
  connect_service, broadcast_receive,
}
use libivy.Bus.Sending.{lines_sent, msg_send_to-append}
use libivy.Bus.Ready.{no_ready_again}

-- the lines that ask a client for the regexps of handlers, and those of a whole service
abbrev pub asking_lines : ℕ → List Handler → List (ℕ × Bytes)
asking_lines client [] = []
asking_lines client (h ∷ handlers) =
    (client, line_text add_regexp h.id h.regexp) ∷ asking_lines client handlers

abbrev pub service_lines : {B : Type 0} → ℕ → Bus B → List (ℕ × Bytes)
service_lines client b =
    (client, line_text start_regexp b.config.application_port b.config.application_name)
    ∷ (asking_lines client b.msg_recv ++ ((client, line_text end_regexp 0 []) ∷ []))

module _ {B : Type 0} (w : World B) where
  send_regexps-lines :
      (g : Config) (client : ℕ) (handlers : List Handler) (acts : List Action)
      → lines_sent (send_regexps w g client handlers ++ acts)
        ≡ asking_lines client handlers ++ lines_sent acts
  unfolding send_regexps
  send_regexps-lines g client [] acts = refl
  send_regexps-lines g client (h ∷ handlers) acts =
      ap lines_sent (
        append_assoc (msg_send_to w g client add_regexp h.id h.regexp)
          (send_regexps w g client handlers) acts)
      ∙ msg_send_to-append w g client add_regexp h.id h.regexp
          (send_regexps w g client handlers ++ acts)
      ∙ ap (◌∷◌ (client, line_text add_regexp h.id h.regexp))
          (send_regexps-lines g client handlers acts)

  send_service-lines :
      (client : ℕ) (name : Bytes) (b : Bus B)
      → lines_sent (send_service w client name b).1 ≡ service_lines client b
  unfolding send_service
  send_service-lines client name b =
      let b' = (send_service w client name b).0 in
      let last = msg_send_to w b.config client end_regexp 0 [] ++ ready_actions w b' client 1 in
      msg_send_to-append w b.config client start_regexp b.config.application_port
        b.config.application_name (send_regexps w b.config client b.msg_recv ++ last)
      ∙ ap
          (◌∷◌ (client, line_text start_regexp b.config.application_port b.config.application_name))
          (send_regexps-lines b.config client b.msg_recv last
            ∙ ap (λ l. asking_lines client b.msg_recv ++ l)
                (msg_send_to-append w b.config client end_regexp 0 [] (ready_actions w b' client 1)
                  ∙ ap (λ acts. (client, line_text end_regexp 0 []) ∷ lines_sent acts)
                      (no_ready_again w b' client 1 refl)))

  heard :
      (connect : ℕ → Option ℕ) (line : Bytes) (d : Discovery) (client : ℕ) (b : Bus B)
      → parse_discovery appid_size appname_size line ≡ some d
      → (d.version == ivy_major_version) ≡ true
      → bytes_eq d.app_id b.config.application_id ≡ false
      → connect d.port ≡ some client
      → broadcast_receive w connect line b ≡ send_service w client d.app_name b
  unfolding broadcast_receive connect_service
  heard connect line d client b p v i k =
      rw (p, broadcast_receive) (rw (v, i, connect_service) (rw (k, connect_service) refl))

  send_service-clients :
      (client : ℕ) (name : Bytes) (b : Bus B)
      → (send_service w client name b).0.store.all_clients
        ≡ record (new_client client name) { ready_to_send = 1 } ∷ b.store.all_clients
  unfolding send_service
  send_service-clients client name b = refl

  -- An agent that hears the broadcast of another one, as HandleSocket hands its line over, without
  -- the end of line, with its fields in their bounds and free of
  -- what ends them, of version 3 and with an identifier that is not this agent's, and that can
  -- connect to the port that it names: the other one is a client then, in front of those that there
  -- were, with the name of the broadcast, and is sent the port and the name of this agent, a line
  -- for each handler with its id and regexp, and the end, in this order; nothing else is sent, and
  -- nothing to another client.
  pub broadcast_receive-meets :
      (connect : ℕ → Option ℕ) (a : Announcement) (client : ℕ) (b : Bus B)
      → CanAnnounce appid_size appname_size a
      → value_from 0 a.version ≡ ivy_major_version
      → bytes_eq a.app_id b.config.application_id ≡ false
      → connect (value_from 0 a.port) ≡ some client
      → let out = broadcast_receive w connect (heard_line a) b in
        (lines_sent out.1 ≡ service_lines client b)
        × (out.0.store.all_clients
            ≡ record (new_client client a.app_name) { ready_to_send = 1 } ∷ b.store.all_clients)
  broadcast_receive-meets connect a client b c v i k =
      rw
        (heard connect (heard_line a) _ client b (parse_discovery-heard appid_size appname_size a c)
          (ground (arith, v)) i k)
        (send_service-lines client a.app_name b, send_service-clients client a.app_name b)
