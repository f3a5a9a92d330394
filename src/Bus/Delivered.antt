-- ===== src/Bus/Delivered.antt =====
-- The messages that an agent sends with `RegexpCall`, from the wire to the callbacks of another.
use libivy.Base.{
  ℕ, ◌^◌, ◌<◌, ◌≡◌, refl, sym, ap, ◌∙◌, false, none, some, List, [], ◌∷◌, ◌++◌, append_assoc, ◌==◌,
  leb, if◌then◌else◌, Bytes, find_first, length, arith, Bool-cases, inl, inr, Option-cases,
}
use libivy.Registry.{IvyClient, is_client}
use libivy.Discovery.Fields.{IsFree}
use libivy.Message.{encode_args, arg_end, max_matching_args}
use libivy.Message.Framing.{AllArgs, args_of-encode}
use libivy.Dispatch.{body_of}
use libivy.Wire.{msg, code_of, kind_of, header}
use libivy.Wire.Lines.{IsFree-append, line_text, line_text-IsFree, header-text, scan_line-text}
use libivy.Socket.Receive.{Receiver}
use libivy.Socket.Cutting.{split}
use libivy.Socket.Lines.{IsReceiver, AllFit, join, receive_all, receive_all_lem}
use libivy.Bus.{Handler, Bus, Action, msg_callback, World, with_client}
use libivy.Bus.Receive.{handle, handle_msg, receive_line, receive, receive_lines}
use libivy.Bus.Lines.{receive_heard}
use libivy.Bus.Connected.{find_first-update_first}

-- an id and the groups of the match
abbrev pub Message : Type 0
Message = ℕ × List Bytes

-- what the frames of messages put on the wire
abbrev pub wire : List Message → Bytes
wire [] = []
wire ((id, groups) ∷ l) = (header msg id ++ body_of groups) ++ wire l

-- no group has an end of line in it
abbrev pub AllLines : List Bytes → Type 0
AllLines [] = Unit
AllLines (a ∷ groups) = IsFree (λ c. c == b'\n') a × AllLines groups

-- ids of 32 bits, and groups with no ARG_END and no end of line
abbrev pub AllSound : List Message → Type 0
AllSound [] = Unit
AllSound ((id, groups) ∷ l) = (id < 2 ^ 32) × AllArgs groups × AllLines groups × AllSound l

-- The calls that are due for messages from a client: of the callback, if there is one, of the first
-- handler with the id, if there is one, with the groups, if they are 120 at most.
abbrev pub calls_for : List Handler → ℕ → Message → List Action
calls_for handlers client (id, groups) = elim (find_first (λ (h : Handler). h.id == id) handlers) [
  | none ↦ []
  | some h ↦ elim h.callback [
    | none ↦ []
    | some f ↦
        if leb (length groups) max_matching_args then msg_callback f client groups ∷ [] else []
  ]
]

abbrev pub calls_due : List Handler → ℕ → List Message → List Action
calls_due handlers client [] = []
calls_due handlers client (m ∷ l) = calls_for handlers client m ++ calls_due handlers client l

abbrev texts : List Message → List Bytes
texts [] = []
texts ((id, groups) ∷ l) = line_text msg id (encode_args groups) ∷ texts l

pub split-line :
    (t : ℕ) (xs rest : Bytes)
    → IsFree (λ c. c == t) xs
    → split t (xs ++ (t ∷ rest)) ≡ (xs ∷ (split t rest).0, (split t rest).1)
unfolding split
split-line t [] rest h = ground arith
split-line t (x ∷ xs) rest h = rw (h.0, split-line t xs rest h.1) refl

encode_args-IsFree :
    (groups : List Bytes) → AllLines groups → IsFree (λ c. c == b'\n') (encode_args groups)
unfolding encode_args
encode_args-IsFree [] h = tt
encode_args-IsFree (a ∷ groups) h =
    IsFree-append _ a (arg_end ∷ encode_args groups) h.0 (refl, encode_args-IsFree groups h.1)

-- what a frame puts in front of the wire
frame-text :
    (id : ℕ) (groups : List Bytes) (rest : Bytes)
    → (header msg id ++ body_of groups) ++ rest
      ≡ line_text msg id (encode_args groups) ++ (b'\n' ∷ rest)
unfolding body_of
frame-text id groups rest =
    ap (λ t. t ++ rest)
      (sym (append_assoc (header msg id) (encode_args groups) (b'\n' ∷ []))
        ∙ ap (λ t. t ++ (b'\n' ∷ [])) (header-text msg id (encode_args groups)))
    ∙ append_assoc (line_text msg id (encode_args groups)) (b'\n' ∷ []) rest

split-wire : (l : List Message) → AllSound l → split b'\n' (wire l) ≡ (texts l, [])
unfolding split
split-wire [] h = refl
split-wire ((id, groups) ∷ l) h =
    ap (split b'\n') (frame-text id groups (wire l))
    ∙ split-line b'\n' (line_text msg id (encode_args groups)) (wire l)
        (line_text-IsFree msg id (encode_args groups) (encode_args-IsFree groups h.2))
    ∙ ap (λ q. (line_text msg id (encode_args groups) ∷ q.0, q.1)) (split-wire l h.3)

module _ {B : Type 0} (w : World B) where
  handle_msg-due :
      (c : IvyClient) (id : ℕ) (groups : List Bytes) (b : Bus B)
      → AllArgs groups
      → handle_msg w c id (encode_args groups) b ≡ calls_for b.msg_recv c.client (id, groups)
  unfolding handle_msg
  handle_msg-due c id groups b a =
      elim (Option-cases (find_first (λ (h : Handler). h.id == id) b.msg_recv)) [
        | inl e ↦ rw (e, handle_msg, calls_for) refl
        | inr (h, e) ↦
            rw (e, handle_msg, calls_for, args_of-encode groups a)
              (elim (Bool-cases (leb (length groups) max_matching_args)) [
                | inl t ↦ elim (Option-cases h.callback) [
                  | inl n ↦ rw (t, n) refl
                  | inr (f, n) ↦ rw (t, n) (rw t refl)
                ]
                | inr t ↦ elim (Option-cases h.callback) [
                  | inl n ↦ rw (t, n) refl
                  | inr (f, n) ↦ rw (t, n) (rw t refl)
                ]
              ])
      ]

  -- one line
  receive-due :
      (now id : ℕ) (groups : List Bytes) (b : Bus B) (c : IvyClient)
      → find_first (is_client c.client) b.store.all_clients ≡ some c
      → c.ignore_subsequent_msg ≡ false
      → id < 2 ^ 32
      → AllArgs groups
      → receive w now c.client (line_text msg id (encode_args groups)) b
        ≡ some (
          with_client c.client (λ i. record i { id = id }) b,
          calls_for b.msg_recv c.client (id, groups),
        )
  unfolding receive_line handle code_of kind_of
  receive-due now id groups b c f i lt a =
      let b' = with_client c.client (λ i. record i { id = id }) b in
      receive_heard w now c.client (line_text msg id (encode_args groups)) b f i
      ∙ rw (scan_line-text msg id (encode_args groups) lt, receive_line)
          (ap {A = List Action} (λ acts. some (b', acts))
            (handle_msg-due (record c { id = id }) id groups b' a))

  -- what the lines of messages do, in a state of the bus that is left
  record Called (now : ℕ) (c : IvyClient) (b : Bus B) (l : List Message) : Type 0 where
    bus : Bus B
    returns : receive_lines w now c.client (texts l) b ≡ some (bus, calls_due b.msg_recv c.client l)

  texts-Called :
      (now : ℕ) (l : List Message) (b : Bus B) (c : IvyClient)
      → find_first (is_client c.client) b.store.all_clients ≡ some c
      → c.ignore_subsequent_msg ≡ false
      → AllSound l
      → Called now c b l
  unfolding receive_lines
  texts-Called now [] b c f i s = record { bus = b; returns = refl }
  texts-Called now ((id, groups) ∷ l) b c f i s =
      let g : IvyClient → IvyClient = λ i. record i { id = id } in
      let r =
        texts-Called now l (with_client c.client g b) (g c)
          (find_first-update_first c.client g b.store.all_clients (λ j. refl) f) i s.3 in
      record {
        bus = r.bus;
        returns = rw (receive-due now id groups b c f i s.0 s.1, r.returns, receive_lines) refl;
      }

  -- However what `RegexpCall` sends to an agent, for any number of messages, is cut on its way, its
  -- `HandleSocket` and `Receive` make exactly the calls that are due, in the order of the messages:
  -- each of the callback of the handler with the id, with the groups as they matched, and none for
  -- more than 120 groups or where there is no such handler or callback. The pieces have a byte at
  -- least and fit the room that there is; the buffer is empty before; no group has ARG_END or an
  -- end of line in it, an id has 32 bits, and the sender is connected and not ignored.
  pub receive-calls :
      (now : ℕ) (l : List Message) (pieces : List Bytes) (r : Receiver) (b : Bus B) (c : IvyClient)
      → IsReceiver r
      → r.held ≡ []
      → r.terminator ≡ b'\n'
      → AllFit pieces r
      → join pieces ≡ wire l
      → AllSound l
      → find_first (is_client c.client) b.store.all_clients ≡ some c
      → c.ignore_subsequent_msg ≡ false
      → (b' : Bus B) × (receive_lines w now c.client (receive_all pieces r).0 b
          ≡ some (b', calls_due b.msg_recv c.client l))
  receive-calls now l pieces r b c v h t a e s f i =
      let d = texts-Called now l b c f i s in
      let q : (receive_all pieces r).0 ≡ texts l =
        ap (λ o. o.0) (receive_all_lem pieces r v a).0 ∙ rw (t, h, e, split-wire l s) refl in
      (d.bus, ap (λ lines. receive_lines w now c.client lines b) q ∙ d.returns)
