-- ===== src/Bus/Safe.antt =====
-- `Receive` as a whole: what it keeps, whatever line comes.
use libivy.Base.{
  ℕ, ◌≡◌, ◌≢◌, refl, ◌∙◌, Bool, false, not, ◌&&◌, Option, none, some, List, [], ◌==◌, Bytes,
  find_first, arith, Bool-cases, inl, inr, Option-cases,
}
use mathlib.Core.Path.{subst}
use libivy.Registry.{IvyClient, is_client}
use libivy.Registry.Views.{IsLibrary, IsDictionary}
use libivy.Registry.Change.{add_or_change_regexp-Renews}
use libivy.Registry.Keeping.{del_regexp_for_one_client-Keeps}
use libivy.Filter.{binding_filter}
use libivy.Wire.{
  MsgType, bye, add_regexp, msg, error, del_regexp, end_regexp, start_regexp, direct_msg, die, ping,
  pong, kind_of, scan_line,
}
use libivy.Bus.{Bus, Action, World, with_client}
use libivy.Bus.Receive.{
  Outcome, close_duplicate, duplicate, handle_add, handle_del, handle_start, handle_end,
  handle_pong, handle, receive_line, receive,
}
use libivy.Bus.Heard.{KeepsMarks, add_or_change_regexp-KeepsMarks, marks-sockets}
use libivy.Bus.Connected.{
  sockets, IsConnected, sockets-update_first, found, find_first-update_first,
  del_regexp_for_one_client-sockets,
}

-- the test of a line for the kind Die
unfoldable pub asks_to_die : Bytes → Bool
asks_to_die line = elim (scan_line line) [ none ↦ false | some (kind, id, arg) ↦ kind == 8 ]

module _ {B : Type 0} where
  -- The call returns, the same agents are connected behind it, and the dictionary is one.
  pub record Serves (b : Bus B) (out : Outcome B) : Type 0 where
    pub bus : Bus B
    pub actions : List Action
    pub returns : out ≡ some (bus, actions)
    pub valid : IsDictionary bus.store.dictionary
    pub same : sockets bus.store.all_clients ≡ sockets b.store.all_clients

  unchanged :
      (b : Bus B) (acts : List Action) → IsDictionary b.store.dictionary → Serves b (some (b, acts))
  unchanged b acts v = record { bus = b; actions = acts; returns = refl; valid = v; same = refl }

  -- a change of the node of one client
  one_changed :
      (b : Bus B) (c : ℕ) (f : IvyClient → IvyClient) (acts : List Action)
      → IsDictionary b.store.dictionary
      → ((i : IvyClient) → (f i).client ≡ i.client)
      → Serves b (some (with_client c f b, acts))
  one_changed b c f acts v h = record {
    bus = with_client c f b;
    actions = acts;
    returns = refl;
    valid = v;
    same = sockets-update_first c f b.store.all_clients h;
  }

  Serves-trans :
      {b b' : Bus B} {out : Outcome B}
      → sockets b'.store.all_clients ≡ sockets b.store.all_clients
      → Serves b' out
      → Serves b out
  Serves-trans h s = record {
    bus = s.bus;
    actions = s.actions;
    returns = s.returns;
    valid = s.valid;
    same = s.same ∙ h;
  }

module _ {B : Type 0} (w : World B) (ok : IsLibrary w.library) where
  handle_add-Serves :
      (c i : IvyClient) (arg : Bytes) (b : Bus B)
      → IsDictionary b.store.dictionary
      → find_first (is_client c.client) b.store.all_clients ≡ some i
      → Serves b (handle_add w c arg b)
  unfolding KeepsMarks handle_add
  handle_add-Serves c i arg b v f = elim (Bool-cases (binding_filter w.token_of arg b.filter)) [
    | inl e ↦
        let r = add_or_change_regexp-Renews ok arg c i b.store v f in
        rw (e, r.returns, handle_add)
          (record {
            bus = record b { store = r.store };
            actions = _;
            returns = refl;
            valid = r.valid;
            same = marks-sockets b.store.all_clients r.store.all_clients (
                subst (KeepsMarks b.store) r.returns
                  (add_or_change_regexp-KeepsMarks w.library arg c b.store));
          })
    | inr e ↦ rw (e, handle_add) (unchanged b _ v)
  ]

  handle_del-Serves :
      (c : IvyClient) (id : ℕ) (arg : Bytes) (b : Bus B)
      → IsDictionary b.store.dictionary
      → Serves b (some (handle_del w c id arg b))
  unfolding handle_del
  handle_del-Serves c id arg b v = record {
    bus = (handle_del w c id arg b).0;
    actions = (handle_del w c id arg b).1;
    returns = refl;
    valid = (del_regexp_for_one_client-Keeps ok c id b.store v).dictionary.valid;
    same = del_regexp_for_one_client-sockets w.library c id b.store;
  }

  close_duplicate-Serves :
      (c : IvyClient) (other : Option IvyClient) (b : Bus B)
      → IsDictionary b.store.dictionary
      → Serves b (some (close_duplicate w c other b))
  unfolding close_duplicate
  close_duplicate-Serves c none b v = unchanged b [] v
  close_duplicate-Serves c (some other) b v =
      one_changed b (duplicate w other c).client _ _ v (λ i. refl)

  handle_pong-Serves :
      (now : ℕ) (c : IvyClient) (id : ℕ) (b : Bus B)
      → IsDictionary b.store.dictionary
      → Serves b (some (handle_pong w now c id b))
  unfolding handle_pong
  handle_pong-Serves now c id b v =
      elim (Bool-cases (b.config.has_pong_callback && not (c.ping_stamp == 0))) [
        | inl e ↦ rw e (one_changed b c.client _ _ v (λ i. refl))
        | inr e ↦ rw e (unchanged b _ v)
      ]

  -- every kind but Die
  handle-Serves :
      (now : ℕ) (kind : Option MsgType) (c i : IvyClient) (id : ℕ) (arg : Bytes) (b : Bus B)
      → IsDictionary b.store.dictionary
      → find_first (is_client c.client) b.store.all_clients ≡ some i
      → kind ≢ some die
      → Serves b (handle w now kind c id arg b)
  unfolding handle handle_start handle_end
  handle-Serves now none c i id arg b v f h = unchanged b _ v
  handle-Serves now (some bye) c i id arg b v f h = unchanged b _ v
  handle-Serves now (some add_regexp) c i id arg b v f h = handle_add-Serves c i arg b v f
  handle-Serves now (some msg) c i id arg b v f h = unchanged b _ v
  handle-Serves now (some error) c i id arg b v f h = unchanged b _ v
  handle-Serves now (some del_regexp) c i id arg b v f h = handle_del-Serves c id arg b v
  handle-Serves now (some end_regexp) c i id arg b v f h = one_changed b c.client _ _ v (λ i. refl)
  handle-Serves now (some start_regexp) c i id arg b v f h =
      Serves-trans (sockets-update_first c.client _ b.store.all_clients (λ i. refl))
        (close_duplicate-Serves c _ _ v)
  handle-Serves now (some direct_msg) c i id arg b v f h = unchanged b _ v
  handle-Serves now (some die) c i id arg b v f h = absurd (h refl)
  handle-Serves now (some ping) c i id arg b v f h = unchanged b _ v
  handle-Serves now (some pong) c i id arg b v f h = handle_pong-Serves now c id b v

  -- where the kind is not 8
  kind_of-die : (n : ℕ) → (n == 8) ≡ false → kind_of n ≢ some die
  unfolding kind_of
  kind_of-die n e = ground (arith, e)

  receive_line-Serves :
      (now : ℕ) (c : IvyClient) (line : Bytes) (b : Bus B)
      → IsDictionary b.store.dictionary
      → find_first (is_client c.client) b.store.all_clients ≡ some c
      → asks_to_die line ≡ false
      → Serves b (receive_line w now c (scan_line line) b)
  unfolding asks_to_die receive_line
  receive_line-Serves now c line b v f e = elim (Option-cases (scan_line line)) [
    | inl h ↦ rw (h, receive_line) (unchanged b _ v)
    | inr ((kind, id, arg), h) ↦
        let b' = with_client c.client (λ i. record i { id = id }) b in
        rw (h, receive_line)
          (Serves-trans (sockets-update_first c.client _ b.store.all_clients (λ i. refl)) (
            handle-Serves now (kind_of kind) (record c { id = id }) _ id arg b' v
              (find_first-update_first c.client (λ i. record i { id = id }) b.store.all_clients
                (λ i. refl) f)
              (kind_of-die kind (rw (h, asks_to_die) at e))))
  ]

  -- Whatever line comes from a connected agent, if it is none of kind Die: `Receive` returns, with
  -- the same agents connected, and a dictionary with no regexp twice and none without subscribers,
  -- if it was one before.
  pub receive-Serves :
      (now client : ℕ) (line : Bytes) (b : Bus B)
      → IsDictionary b.store.dictionary
      → IsConnected client b.store.all_clients
      → asks_to_die line ≡ false
      → Serves b (receive w now client line b)
  unfolding receive
  receive-Serves now client line b v n e =
      let (c, f, same) = found client b.store.all_clients n in
      rw (f, receive)
        (elim (Bool-cases c.ignore_subsequent_msg) [
          | inl t ↦ rw t (unchanged b _ v)
          | inr t ↦ rw t (receive_line-Serves now c line b v (rw same f) e)
        ])
