-- ===== src/Bus/Subscribed.antt =====
-- What `SendService` and `IvyBindMsg` announce, at the agent that hears it.
use libivy.Base.{
  ℕ, ◌^◌, ◌<◌, ◌≡◌, refl, sym, ap, ◌∙◌, append_assoc, true, none, some, List, [], ◌∷◌, ◌++◌, ◌==◌,
  Bytes, find_first, Bool-cases, inl, inr,
}
use mathlib.Core.List.{Memᴰ}
use mathlib.Core.List.Memᴰ
use mathlib.Core.Path.{subst}
use libivy.Registry.Views.{IsLibrary, IsDictionary}
use libivy.Filter.{binding_filter}
use libivy.Discovery.Fields.{IsFree}
use libivy.Wire.{MsgType, add_regexp, header, line_of}
use libivy.Wire.Lines.{line_text, line_text-IsFree, header-text}
use libivy.Socket.Receive.{Receiver}
use libivy.Socket.Cutting.{split}
use libivy.Socket.Lines.{IsReceiver, AllFit, join, receive_all, receive_all_lem}
use libivy.Bus.{Handler, Config, Bus, Action, World}
use libivy.Bus.Receive.{Outcome, receive_lines}
use libivy.Bus.Session.{send_regexps, has_handler_id}
use libivy.Bus.Heard.{IsHeard}
use libivy.Bus.Sending.{is_taken, stream_to, stream_to-append}
use libivy.Bus.Delivered.{split-line}
use libivy.Bus.Additions.{IsSubscribed, receive-Adds}

-- ids of 32 bits, no two the same, and regexps that pass the filter of the bus
abbrev pub AllAskable : {B : Type 0} → World B → Bus B → List Handler → Type 0
AllAskable w b [] = Unit
AllAskable w b (h ∷ handlers) =
    (h.id < 2 ^ 32)
    × (find_first (has_handler_id h.id) handlers ≡ none)
    × (binding_filter w.token_of h.regexp b.filter ≡ true)
    × AllAskable w b handlers

-- Regexps with no end of line in them, whose lines sending takes: they are at the system or in the
-- fifo of the client.
abbrev pub AllSendable : {A : Type 0} → World A → ℕ → List Handler → Type 0
AllSendable u peer [] = Unit
AllSendable u peer (h ∷ handlers) =
    IsFree (λ c. c == b'\n') h.regexp
    × (is_taken (u.send_state peer (line_of add_regexp h.id h.regexp)) ≡ true)
    × AllSendable u peer handlers

abbrev asked_texts : List Handler → List Bytes
asked_texts [] = []
asked_texts (h ∷ handlers) = line_text add_regexp h.id h.regexp ∷ asked_texts handlers

-- a line is its text and its end
line_of-text :
    (kind : MsgType) (id : ℕ) (message rest : Bytes)
    → line_of kind id message ++ rest ≡ line_text kind id message ++ (b'\n' ∷ rest)
unfolding line_of
line_of-text kind id message rest =
    ap (λ t. t ++ rest)
      (sym (append_assoc (header kind id) message (b'\n' ∷ []))
        ∙ ap (λ t. t ++ (b'\n' ∷ [])) (header-text kind id message))
    ∙ append_assoc (line_text kind id message) (b'\n' ∷ []) rest

-- the stream of the lines, cut at the ends of lines
split-stream :
    {A : Type 0} (u : World A) (g : Config) (peer : ℕ) (handlers : List Handler)
    → AllSendable u peer handlers
    → split b'\n' (stream_to u peer (send_regexps u g peer handlers)) ≡ (asked_texts handlers, [])
unfolding split send_regexps
split-stream u g peer [] h = refl
split-stream u g peer (x ∷ handlers) h =
    let rest = stream_to u peer (send_regexps u g peer handlers) in
    ap (split b'\n') (
      stream_to-append u g peer add_regexp x.id x.regexp (send_regexps u g peer handlers) h.1
      ∙ line_of-text add_regexp x.id x.regexp rest)
    ∙ split-line b'\n' (line_text add_regexp x.id x.regexp) rest
        (line_text-IsFree add_regexp x.id x.regexp h.0)
    ∙ ap (λ q. (line_text add_regexp x.id x.regexp ∷ q.0, q.1)) (split-stream u g peer handlers h.2)

module _ {B : Type 0} (w : World B) (ok : IsLibrary w.library) where
  -- Behind the lines of a list of handlers, a client is subscribed to the regexp of each one.
  pub record Subscribes (client : ℕ) (handlers : List Handler) (b : Bus B) (out : Outcome B)
      : Type 0 where
    pub bus : Bus B
    pub actions : List Action
    pub returns : out ≡ some (bus, actions)
    pub valid : IsDictionary bus.store.dictionary
    pub asked : (h : Handler) → Memᴰ h handlers → IsSubscribed client h.id h.regexp bus
    pub kept :
        (k : ℕ) (j : Bytes)
        → find_first (has_handler_id k) handlers ≡ none
        → IsSubscribed client k j b
        → IsSubscribed client k j bus

  -- the conditions in a bus with the same filter
  AllAskable-same :
      (b b' : Bus B) (handlers : List Handler)
      → b'.filter ≡ b.filter
      → AllAskable w b handlers
      → AllAskable w b' handlers
  AllAskable-same b b' [] e a = tt
  AllAskable-same b b' (h ∷ handlers) e a =
      (a.0, a.1, rw e a.2, AllAskable-same b b' handlers e a.3)

  -- a handler of a list with one more in front
  asked_in_front :
      {client : ℕ} {h : Handler} {handlers : List Handler} {b : Bus B} {out : Outcome B}
      (r : Subscribes client handlers b out) (x : Handler)
      → find_first (has_handler_id h.id) handlers ≡ none
      → IsSubscribed client h.id h.regexp b
      → Memᴰ x (h ∷ handlers)
      → IsSubscribed client x.id x.regexp r.bus
  asked_in_front {client} {h} r x n y (Memᴰ.head e) =
      subst (λ z. IsSubscribed client z.id z.regexp r.bus) (sym e) (r.kept h.id h.regexp n y)
  asked_in_front r x n y (Memᴰ.tail m) = r.asked x m

  -- the lines as they are cut from the stream
  asked_texts-Subscribes :
      (now client : ℕ) (handlers : List Handler) (b : Bus B)
      → IsDictionary b.store.dictionary
      → IsHeard client b.store.all_clients
      → AllAskable w b handlers
      → Subscribes client handlers b (receive_lines w now client (asked_texts handlers) b)
  unfolding receive_lines
  asked_texts-Subscribes now client [] b v n a = record {
    bus = b;
    actions = [];
    returns = refl;
    valid = v;
    asked = λ h m. absurd (Memᴰ.not-nil m);
    kept = λ k j e h. h;
  }
  asked_texts-Subscribes now client (h ∷ handlers) b v n a =
      let s = receive-Adds w ok now client h.id h.regexp b v n a.0 a.2 in
      let r =
        asked_texts-Subscribes now client handlers s.bus s.valid s.hears
          (AllAskable-same b s.bus handlers s.filters a.3) in
      record {
        bus = r.bus;
        actions = s.actions ++ r.actions;
        returns = rw (s.returns, r.returns) refl;
        valid = r.valid;
        asked = λ x m. asked_in_front r x a.1 s.adds m;
        kept = λ k j e y. elim (Bool-cases (h.id == k)) [
          | inl t ↦ absurd (cc (rw t at e))
          | inr t ↦ r.kept k j (rw t at e) (s.keeps k j t y)
        ];
      }

  -- The lines in which an agent asks a client for its regexps, if sending takes each of them, as
  -- what
  -- goes to this client: however it is cut on its way, `HandleSocket` and `Receive` of the other
  -- side
  -- subscribe the agent to the regexp of each handler with the id of this one. `Receive` returns
  -- for
  -- each line, and the dictionary is one with no regexp twice and none without subscribers, if it
  -- was
  -- one before. The ids have 32 bits, no two are the same, the regexps have no end of line and pass
  -- the filter of the other side, where the agent is connected and not ignored; the pieces have a
  -- byte at least and fit the room that there is, and the buffer is empty before.
  pub receive_lines-Subscribes :
      {A : Type 0} (u : World A) (g : Config) (now client peer : ℕ) (handlers : List Handler)
      (pieces : List Bytes) (r : Receiver) (b : Bus B)
      → IsReceiver r
      → r.held ≡ []
      → r.terminator ≡ b'\n'
      → AllFit pieces r
      → join pieces ≡ stream_to u peer (send_regexps u g peer handlers)
      → AllSendable u peer handlers
      → IsDictionary b.store.dictionary
      → IsHeard client b.store.all_clients
      → AllAskable w b handlers
      → Subscribes client handlers b (receive_lines w now client (receive_all pieces r).0 b)
  receive_lines-Subscribes u g now client peer handlers pieces r b v h t a e f d n k =
      let q : (receive_all pieces r).0 ≡ asked_texts handlers =
        ap (λ o. o.0) (receive_all_lem pieces r v a).0
        ∙ rw (t, h, e, split-stream u g peer handlers f) refl in
      subst (λ lines. Subscribes client handlers b (receive_lines w now client lines b)) (sym q)
        (asked_texts-Subscribes now client handlers b d n k)
