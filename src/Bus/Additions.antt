-- ===== src/Bus/Additions.antt =====
-- What one message AddRegexp adds to the subscriptions of the client that sends it.
use libivy.Base.{
  ℕ, ◌^◌, ◌<◌, ◌≡◌, refl, sym, ap, ◌∙◌, true, false, some, List, [], ◌∷◌, ◌==◌, Bytes, bytes_eq,
  bytes_eq_refl, find_first, remove_if, map, arith, Bool-cases, inl, inr,
}
use mathlib.Core.Path.{subst}
use libivy.Registry.{IvyClient, Subscriber, subscriber, is_client, is_subscription}
use libivy.Registry.Views.{IsLibrary, subscribers, IsDictionary}
use libivy.Registry.Change.{first_has_id, renewed, add_or_change_regexp-Renews}
use libivy.Filter.{binding_filter}
use libivy.Wire.{add_regexp, code_of, kind_of}
use libivy.Wire.Lines.{line_text, scan_line-text}
use libivy.Bus.{registry, Bus, Action, World, with_client}
use libivy.Bus.Receive.{Outcome, handle_add, handle, receive_line, receive}
use libivy.Bus.Connected.{find_first-update_first}
use libivy.Bus.Heard.{
  marks, mark_of, IsHeard, heard, marks-update_first, KeepsMarks, add_or_change_regexp-KeepsMarks,
}
use libivy.Bus.Lines.{receive_heard}

find_first-remove_if-other :
    (c id other : ℕ) (l : List Subscriber)
    → (other == id) ≡ false
    → find_first (is_subscription c id) (remove_if (is_subscription c other) l)
      ≡ find_first (is_subscription c id) l
find_first-remove_if-other c id other [] n = refl
find_first-remove_if-other c id other (x ∷ l) n =
    ground (arith, find_first-remove_if-other c id other l n)

-- an addition for one id takes no subscription with another one away
find_first-renewed :
    (c : IvyClient) (id : ℕ) (l : List Subscriber)
    → (c.id == id) ≡ false
    → find_first (is_subscription c.client id) (renewed c l)
      ≡ find_first (is_subscription c.client id) l
unfolding subscriber
find_first-renewed c id l n = elim (Bool-cases (first_has_id c l)) [
  | inl t ↦ rw t (rw n (ground (arith, find_first-remove_if-other c.client id c.id l n)))
  | inr t ↦ rw t (rw n (ground arith))
]

module _ {B : Type 0} where
  abbrev pub IsSubscribed : ℕ → ℕ → Bytes → Bus B → Type 0
  IsSubscribed client id regexp b =
      (x : Subscriber) × (find_first (is_subscription client id)
          (subscribers b.store.dictionary regexp)
        ≡ some x)

  -- one addition
  pub record Adds (client id : ℕ) (regexp : Bytes) (b : Bus B) (out : Outcome B) : Type 0 where
    pub bus : Bus B
    pub actions : List Action
    pub returns : out ≡ some (bus, actions)
    pub valid : IsDictionary bus.store.dictionary
    pub hears : IsHeard client bus.store.all_clients
    pub filters : bus.filter ≡ b.filter
    pub adds : IsSubscribed client id regexp bus
    pub keeps :
        (k : ℕ) (j : Bytes)
        → (id == k) ≡ false
        → IsSubscribed client k j b
        → IsSubscribed client k j bus

module _ {B : Type 0} (w : World B) (ok : IsLibrary w.library) where
  handle_add-Adds :
      (c i : IvyClient) (regexp : Bytes) (b : Bus B)
      → IsDictionary b.store.dictionary
      → find_first (is_client c.client) b.store.all_clients ≡ some i
      → IsHeard c.client b.store.all_clients
      → binding_filter w.token_of regexp b.filter ≡ true
      → Adds c.client c.id regexp b (handle_add w c regexp b)
  unfolding handle_add KeepsMarks subscriber
  handle_add-Adds c i regexp b v f n p =
      let r = add_or_change_regexp-Renews ok regexp c i b.store v f in
      let m : marks r.store.all_clients ≡ marks b.store.all_clients =
        subst (KeepsMarks b.store) r.returns
          (add_or_change_regexp-KeepsMarks w.library regexp c b.store) in
      record {
        bus = record b { store = r.store };
        actions = map registry r.effects;
        returns = rw (p, r.returns) refl;
        valid = r.valid;
        hears = subst (λ l. mark_of c.client l ≡ some false) (sym m) n;
        filters = refl;
        adds = (subscriber c, rw (r.listed regexp) (rw (bytes_eq_refl regexp) (ground arith)));
        keeps = λ k j e h. (
          h.0,
          rw (r.listed j) (elim (Bool-cases (bytes_eq regexp j)) [
            | inl t ↦ rw t (find_first-renewed c k (subscribers b.store.dictionary j) e ∙ h.1)
            | inr t ↦ rw t h.1
          ]),
        );
      }

  -- the line that announces a regexp
  receive_add :
      (now id : ℕ) (regexp : Bytes) (b : Bus B) (c : IvyClient)
      → IsDictionary b.store.dictionary
      → find_first (is_client c.client) b.store.all_clients ≡ some c
      → c.ignore_subsequent_msg ≡ false
      → IsHeard c.client b.store.all_clients
      → id < 2 ^ 32
      → binding_filter w.token_of regexp b.filter ≡ true
      → Adds c.client id regexp b (receive w now c.client (line_text add_regexp id regexp) b)
  unfolding receive_line handle code_of kind_of
  receive_add now id regexp b c v f i n lt p =
      let g : IvyClient → IvyClient = λ i. record i { id = id } in
      let a =
        handle_add-Adds (g c) (g c) regexp (with_client c.client g b) v
          (find_first-update_first c.client g b.store.all_clients (λ j. refl) f)
          (ap (mark_of c.client) (marks-update_first c.client g b.store.all_clients (λ j. refl))
            ∙ n)
          p in
      record {
        bus = a.bus;
        actions = a.actions;
        returns =
            receive_heard w now c.client (line_text add_regexp id regexp) b f i
            ∙ rw (scan_line-text add_regexp id regexp lt, receive_line) a.returns;
        valid = a.valid;
        hears = a.hears;
        filters = a.filters;
        adds = a.adds;
        keeps = a.keeps;
      }

  pub receive-Adds :
      (now client id : ℕ) (regexp : Bytes) (b : Bus B)
      → IsDictionary b.store.dictionary
      → IsHeard client b.store.all_clients
      → id < 2 ^ 32
      → binding_filter w.token_of regexp b.filter ≡ true
      → Adds client id regexp b (receive w now client (line_text add_regexp id regexp) b)
  receive-Adds now client id regexp b v n lt p =
      let (c, f, s, i) = heard client b.store.all_clients n in
      subst (λ t. Adds t id regexp b (receive w now t (line_text add_regexp id regexp) b)) s
        (receive_add now id regexp b c v (rw s f) i (rw s n) lt p)
