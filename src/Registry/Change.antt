-- ===== src/Registry/Change.antt =====
-- `addOrChangeRegexp` of src/ivy.c: what a message AddRegexp does, and what it does not undo.
use libivy.Base.{
  ℕ, suc, ◌≡◌, refl, ap, sym, ◌∙◌, Bool, true, false, Option, none, some, List, [], ◌∷◌, ◌++◌, ◌==◌,
  if◌then◌else◌, Bytes, remove_if, find_first, update_first, length, bytes_eq, bytes_eq_iff,
  bytes_eq_refl, arith, Bool-cases, inl, inr, Option-cases, some_inj,
}
use mathlib.Core.Path.{subst}
use libivy.Registry.{
  Reg, IvyClient, Entry, Library, Store, Effect, Subscriber, subscriber, is_client, is_subscription,
  has_id, has_key, del_regexp_from_dictionary, change_regexp_in_dictionary, add_effects,
  bind_effect, add_bind,
}
use libivy.Registry.Clients.{
  with_regs, added, add_regexp, change_regexp, same_first_id, add_or_change_regexp, del_all_regs,
  del_from_clients, del_one_client,
}
use libivy.Registry.Views.{
  IsLibrary, subscribers, IsDictionary, subscribers_absent, subscribers_found,
}
use libivy.Registry.Dictionary.{del_regexp_from_dictionary_lem, add_regexp_to_dictionary_lem}

-- The first subscriber that has the client's socket has its id.
abbrev pub first_has_id : IvyClient → List Subscriber → Bool
first_has_id c [] = false
first_has_id c (s ∷ l) =
    let rest = first_has_id c l in if s.client == c.client then s.id == c.id else rest

same_first_id_lem : (c : IvyClient) (l : List Subscriber) → same_first_id c l ≡ first_has_id c l
unfolding same_first_id
same_first_id_lem c [] = refl
same_first_id_lem c (s ∷ l) = elim (Bool-cases (s.client == c.client)) [
  | inl e ↦ rw (e, same_first_id) refl
  | inr e ↦ rw (e, same_first_id) (same_first_id_lem c l)
]

-- the subscribers of the regexp behind a message AddRegexp
abbrev pub renewed : IvyClient → List Subscriber → List Subscriber
renewed c l =
    subscriber c ∷ (if first_has_id c l then remove_if (is_subscription c.client c.id) l else l)

module _ {B : Type 0} {lib : Library B} (ok : IsLibrary lib) where
  change_regexp_in_dictionary_lem :
      (k : Bytes) (c : IvyClient) (d : List (Entry B))
      → IsDictionary d
      → ((j : Bytes)
          → subscribers (change_regexp_in_dictionary lib k c d) j ≡ (
              if bytes_eq k j
              then subscriber c ∷ remove_if (is_subscription c.client c.id) (subscribers d j)
              else subscribers d j))
        × IsDictionary (change_regexp_in_dictionary lib k c d)
  unfolding change_regexp_in_dictionary
  change_regexp_in_dictionary_lem k c d v =
      let a = del_regexp_from_dictionary_lem ok k c d v in
      let b = add_regexp_to_dictionary_lem ok k c (del_regexp_from_dictionary lib k c d) a.1 in
      ((λ j. b.0 j ∙ ground (arith, a.0 j)), b.1)

  -- the dictionary that a call of `addOrChangeRegexp` that returns leaves
  pub record Renews (k : Bytes) (c : IvyClient) (d : List (Entry B))
      (out : Option (Store B × List Effect)) : Type 0 where
    pub store : Store B
    pub effects : List Effect
    pub returns : out ≡ some (store, effects)
    pub listed :
        (j : Bytes)
        → subscribers store.dictionary j
          ≡ (if bytes_eq k j then renewed c (subscribers d j) else subscribers d j)
    pub valid : IsDictionary store.dictionary

  -- the list that is meant, where the test on the entry's clients has come out as `b`
  at_key :
      (c : IvyClient) (d : List (Entry B)) (k j : Bytes) (b : Bool)
      → first_has_id c (subscribers d k) ≡ b
      → (l : List Subscriber)
      → (first_has_id c (subscribers d j) ≡ b → l ≡ renewed c (subscribers d j))
      → (if bytes_eq k j then l else subscribers d j)
        ≡ (if bytes_eq k j then renewed c (subscribers d j) else subscribers d j)
  at_key c d k j b n l h = elim (Bool-cases (bytes_eq k j)) [
    | inl e ↦
        rw e (h (subst (λ t. first_has_id c (subscribers d t) ≡ b) ((bytes_eq_iff k j).0 e) n))
    | inr e ↦ rw e
  ]

  add_regexp-Renews :
      (k : Bytes) (c i : IvyClient) (s : Store B)
      → IsDictionary s.dictionary
      → find_first (is_client c.client) s.all_clients ≡ some i
      → first_has_id c (subscribers s.dictionary k) ≡ false
      → Renews k c s.dictionary (add_regexp lib k c s)
  unfolding add_regexp added
  add_regexp-Renews k c i s v f n =
      let a = add_regexp_to_dictionary_lem ok k c s.dictionary v in
      record {
        store = added lib k c s;
        effects = add_effects lib k c s.dictionary ++ bind_effect s.has_bind_callback add_bind c k;
        returns = rw (f, add_regexp);
        listed = λ j.
            a.0 j
            ∙ at_key c s.dictionary k j false n (subscriber c ∷ subscribers s.dictionary j)
                (λ h. rw h);
        valid = a.1;
      }

  change_regexp-Renews :
      (k : Bytes) (c : IvyClient) (s : Store B)
      → IsDictionary s.dictionary
      → first_has_id c (subscribers s.dictionary k) ≡ true
      → Renews k c s.dictionary (some (change_regexp lib k c s))
  unfolding change_regexp
  change_regexp-Renews k c s v n =
      let a = change_regexp_in_dictionary_lem k c s.dictionary v in
      record {
        store = (change_regexp lib k c s).0;
        effects = (change_regexp lib k c s).1;
        returns = refl;
        listed = λ j. a.0 j ∙ at_key c s.dictionary k j true n _ (λ h. rw h);
        valid = a.1;
      }

  node_faults :
      (fuel : ℕ) (i : IvyClient) (q r : Reg) (regs : List Reg) (s : Store B)
      → r.id ≡ q.id
      → del_all_regs lib (suc (suc fuel)) i (q ∷ r ∷ regs) s ≡ none
  unfolding del_all_regs
  node_faults fuel i q r regs s n = rw (let t : has_id q.id r ≡ true = ground arith in t)

  -- The loop of `delOneClient` gets to the client's node, and in its list from the first regexp to
  -- the second one.
  loop_faults :
      (c : ℕ) (i : IvyClient) (r : Reg) (regs : List Reg) (q : Reg) (l : List IvyClient)
      (s : Store B)
      → find_first (is_client c) l ≡ some i
      → i.src_reg_list ≡ r ∷ regs
      → r.id ≡ q.id
      → del_from_clients lib c
          (update_first (is_client c) (λ j. with_regs (q ∷ j.src_reg_list) j) l)
          s
        ≡ none
  unfolding del_from_clients
  loop_faults c i r regs q [] s f e n = cc
  loop_faults c i r regs q (x ∷ l) s f e n = elim (Bool-cases (is_client c x)) [
    | inl t ↦
        let xi : x ≡ i = some_inj (rw t at f) in
        let xr : x.src_reg_list ≡ r ∷ regs = ap (λ y. y.src_reg_list) xi ∙ e in
        rw (t, t, xr, node_faults (length regs) (with_regs (q ∷ r ∷ regs) x) q r regs s n)
    | inr t ↦ rw t (rw t (loop_faults c i r regs q l s (rw t at f) e n))
  ]

  -- A message AddRegexp from a client that is connected puts it, with its id, in front of the
  -- subscribers of the regexp; where the first of them that has its socket has the same id, those
  -- with its socket and id are taken away first. No other regexp changes, and no regexp has two
  -- entries or one without subscribers, if none had.
  pub add_or_change_regexp-Renews :
      (k : Bytes) (c i : IvyClient) (s : Store B)
      → IsDictionary s.dictionary
      → find_first (is_client c.client) s.all_clients ≡ some i
      → Renews k c s.dictionary (add_or_change_regexp lib k c s)
  unfolding add_or_change_regexp
  add_or_change_regexp-Renews k c i s v f =
      elim (Option-cases (find_first (has_key k) s.dictionary)) [
        | inl a ↦
            rw (ok.finds k s.dictionary ∙ a, add_or_change_regexp)
              (add_regexp-Renews k c i s v f (rw (subscribers_absent k s.dictionary a) refl))
        | inr (e, a) ↦
            let l = (subscribers_found k s.dictionary e a).0 in
            rw (ok.finds k s.dictionary ∙ a, add_or_change_regexp)
              (elim (Bool-cases (same_first_id c e.client_list)) [
                | inl t ↦ rw t (
                    change_regexp-Renews k c s v
                      (rw l (sym (same_first_id_lem c e.client_list) ∙ t)))
                | inr t ↦ rw t (
                    add_regexp-Renews k c i s v f
                      (rw l (sym (same_first_id_lem c e.client_list) ∙ t)))
              ])
      ]

  -- A connected client that announces another regexp for an id under which it is subscribed to a
  -- first one is subscribed to both of them with that id afterwards, in a dictionary with no
  -- regexp twice and none without subscribers.
  pub change_keeps_old :
      (old new : Bytes) (c i : IvyClient) (s : Store B) {e : Subscriber}
      → IsDictionary s.dictionary
      → find_first (is_client c.client) s.all_clients ≡ some i
      → bytes_eq new old ≡ false
      → find_first (is_subscription c.client c.id) (subscribers s.dictionary old) ≡ some e
      → (r : Renews new c s.dictionary (add_or_change_regexp lib new c s)) × (find_first
            (is_subscription c.client c.id)
            (subscribers r.store.dictionary old)
          ≡ some e)
        × (find_first (is_subscription c.client c.id) (subscribers r.store.dictionary new)
            ≡ some (subscriber c))
  unfolding subscriber
  change_keeps_old old new c i s {e} v f n h =
      let r = add_or_change_regexp-Renews new c i s v f in
      (r, rw (r.listed old) (rw n h), rw (r.listed new) (rw (bytes_eq_refl new) (ground arith)))

  -- A client whose list of regexps begins with one of the id under which another is added, and that
  -- then leaves, makes `delOneClient` read a node that it has freed.
  pub change_then_leave_faults :
      (new : Bytes) (c i : IvyClient) (r : Reg) (regs : List Reg) (s : Store B)
      → find_first (is_client c.client) s.all_clients ≡ some i
      → i.src_reg_list ≡ r ∷ regs
      → r.id ≡ c.id
      → del_one_client lib c.client (added lib new c s) ≡ none
  unfolding added del_one_client
  change_then_leave_faults new c i r regs s f e n = rw (
    loop_faults c.client i r regs (record { id = c.id; str_regexp = new }) s.all_clients
        (added lib new c s) f e n,
    del_one_client,
  )
