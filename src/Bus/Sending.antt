-- ===== src/Bus/Sending.antt =====
-- The lines that an agent sends.
use libivy.Base.{
  ℕ, ◌≡◌, refl, sym, ap, ◌∙◌, append-nil, List, [], ◌∷◌, ◌++◌, Bytes, Bool, true, false, ◌==◌, ◌&&◌,
  if◌then◌else◌, Bool-cases, inl, inr, ==_refl,
}
use libivy.Socket.{SendState, send_ok, still_congestion, change_to_congestion, fifo_full}
use libivy.Wire.{MsgType, line_of}
use libivy.Wire.Lines.{line_text}
use libivy.Bus.{Config, Action, sent, World, msg_send_to, congestion_event}

-- the lines among what an agent does, each with the client that it is for
abbrev pub lines_sent : List Action → List (ℕ × Bytes)
lines_sent [] = []
lines_sent (sent client kind id message ∷ acts) =
    (client, line_text kind id message) ∷ lines_sent acts
lines_sent (_ ∷ acts) = lines_sent acts

-- the answers of sending after which the line is at the system or in the fifo of the client
abbrev pub is_taken : SendState → Bool
is_taken send_ok = true
is_taken still_congestion = true
is_taken change_to_congestion = true
is_taken _ = false

-- a change of the state of sending sends nothing
pub lines_sent-congestion :
    (g : Config) (client : ℕ) (state : SendState) (acts : List Action)
    → lines_sent (congestion_event g client state ++ acts) ≡ lines_sent acts
unfolding congestion_event
lines_sent-congestion g client change_to_congestion acts =
    elim (Bool-cases g.has_application_callback) [ inl e ↦ rw e refl | inr e ↦ rw e refl ]
lines_sent-congestion g client fifo_full acts = elim (Bool-cases g.has_application_callback) [
  | inl e ↦ rw e refl
  | inr e ↦ rw e refl
]
lines_sent-congestion g client _ acts = refl

module _ {B : Type 0} (w : World B) where
  pub msg_send_to-append :
      (g : Config) (client : ℕ) (kind : MsgType) (id : ℕ) (message : Bytes) (acts : List Action)
      → lines_sent (msg_send_to w g client kind id message ++ acts)
        ≡ (client, line_text kind id message) ∷ lines_sent acts
  unfolding msg_send_to
  msg_send_to-append g client kind id message acts =
      ap (λ l. (client, line_text kind id message) ∷ l)
        (lines_sent-congestion g client (w.send_state client (line_of kind id message)) acts)

  pub msg_send_to-line :
      (g : Config) (client : ℕ) (kind : MsgType) (id : ℕ) (message : Bytes)
      → lines_sent (msg_send_to w g client kind id message)
        ≡ (client, line_text kind id message) ∷ []
  msg_send_to-line g client kind id message =
      ap lines_sent (sym (append-nil (msg_send_to w g client kind id message)))
      ∙ msg_send_to-append g client kind id message []

  -- what goes to the client `peer`: the lines that are for it and that sending takes
  abbrev pub stream_to : ℕ → List Action → Bytes
  stream_to peer [] = []
  stream_to peer (sent client kind id message ∷ acts) =
      let rest = stream_to peer acts in
      if client == peer && is_taken (w.send_state client (line_of kind id message))
      then line_of kind id message ++ rest
      else rest
  stream_to peer (_ ∷ acts) = stream_to peer acts

  stream_to-congestion :
      (peer : ℕ) (g : Config) (client : ℕ) (state : SendState) (acts : List Action)
      → stream_to peer (congestion_event g client state ++ acts) ≡ stream_to peer acts
  unfolding congestion_event
  stream_to-congestion peer g client change_to_congestion acts =
      elim (Bool-cases g.has_application_callback) [ inl e ↦ rw e refl | inr e ↦ rw e refl ]
  stream_to-congestion peer g client fifo_full acts = elim (Bool-cases g.has_application_callback) [
    | inl e ↦ rw e refl
    | inr e ↦ rw e refl
  ]
  stream_to-congestion peer g client _ acts = refl

  -- a line that is taken
  pub stream_to-append :
      (g : Config) (client : ℕ) (kind : MsgType) (id : ℕ) (message : Bytes) (acts : List Action)
      → is_taken (w.send_state client (line_of kind id message)) ≡ true
      → stream_to client (msg_send_to w g client kind id message ++ acts)
        ≡ line_of kind id message ++ stream_to client acts
  unfolding msg_send_to
  stream_to-append g client kind id message acts t =
      rw (==_refl client, t)
        (ap (λ l. line_of kind id message ++ l)
          (stream_to-congestion client g client (w.send_state client (line_of kind id message))
            acts))
