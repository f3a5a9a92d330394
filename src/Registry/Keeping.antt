-- ===== src/Registry/Keeping.antt =====
-- What the removal of one subscription of a client leaves of the others.
use libivy.Base.{
  ℕ, ◌≡◌, refl, ap, ◌∙◌, List, [], ◌∷◌, Bytes, remove_if, remove_first, find_first, update_first,
  arith, Bool-cases, inl, inr, Option-cases,
}
use libivy.Registry.{
  Reg, IvyClient, Entry, Library, Store, Subscriber, is_client, is_of_client, is_subscription,
  has_id, del_regexp_from_dictionary,
}
use libivy.Registry.Clients.{del_regs, del_regexp_for_one_client}
use libivy.Registry.Views.{IsLibrary, subscribers, IsDictionary}
use libivy.Registry.Dictionary.{del_regexp_from_dictionary_lem}

remove_first-update_first :
    (c : ℕ) (f : IvyClient → IvyClient) (l : List IvyClient)
    → ((i : IvyClient) → (f i).client ≡ i.client)
    → remove_first (is_client c) (update_first (is_client c) f l) ≡ remove_first (is_client c) l
remove_first-update_first c f [] h = refl
remove_first-update_first c f (i ∷ l) h = ground (arith, h i, remove_first-update_first c f l h)

remove_of_subscription :
    (c id : ℕ) (l : List Subscriber)
    → remove_if (is_of_client c) (remove_if (is_subscription c id) l) ≡ remove_if (is_of_client c) l
remove_of_subscription c id [] = refl
remove_of_subscription c id (x ∷ l) = ground (arith, remove_of_subscription c id l)

module _ {B : Type 0} where
  -- The dictionary `d'` differs from `d` in subscriptions of `c` alone.
  pub record KeepsOthers (c : ℕ) (d d' : List (Entry B)) : Type 0 where
    pub same :
        (j : Bytes)
        → remove_if (is_of_client c) (subscribers d' j)
          ≡ remove_if (is_of_client c) (subscribers d j)
    pub valid : IsDictionary d'

  -- So does the store, and its clients differ in the first one with this socket alone.
  pub record Keeps (c : ℕ) (s s' : Store B) : Type 0 where
    pub dictionary : KeepsOthers c s.dictionary s'.dictionary
    pub clients :
        remove_first (is_client c) s'.all_clients ≡ remove_first (is_client c) s.all_clients
    pub callback : s'.has_bind_callback ≡ s.has_bind_callback

  pub Keeps-refl : (c : ℕ) (s : Store B) → IsDictionary s.dictionary → Keeps c s s
  Keeps-refl c s v = record {
    dictionary = record { same = λ j. refl; valid = v };
    clients = refl;
    callback = refl;
  }

  pub Keeps-trans : {c : ℕ} {s t u : Store B} → Keeps c s t → Keeps c t u → Keeps c s u
  Keeps-trans a b = record {
    dictionary = record {
      same = λ j. b.dictionary.same j ∙ a.dictionary.same j;
      valid = b.dictionary.valid;
    };
    clients = b.clients ∙ a.clients;
    callback = b.callback ∙ a.callback;
  }

module _ {B : Type 0} {lib : Library B} (ok : IsLibrary lib) where
  del_regexp-KeepsOthers :
      (k : Bytes) (i : IvyClient) (d : List (Entry B))
      → IsDictionary d
      → KeepsOthers i.client d (del_regexp_from_dictionary lib k i d)
  del_regexp-KeepsOthers k i d v =
      let w = del_regexp_from_dictionary_lem ok k i d v in
      record {
        same = λ j.
            ap (remove_if (is_of_client i.client)) (w.0 j)
            ∙ ground (arith, remove_of_subscription i.client i.id (subscribers d j));
        valid = w.1;
      }

  del_regs-KeepsOthers :
      (id : ℕ) (i : IvyClient) (regs : List Reg) (d : List (Entry B))
      → IsDictionary d
      → KeepsOthers i.client d (del_regs lib id i regs d).1
  unfolding del_regs
  del_regs-KeepsOthers id i [] d v = record { same = λ j. refl; valid = v }
  del_regs-KeepsOthers id i (r ∷ regs) d v = elim (Bool-cases (has_id id r)) [
    | inl e ↦
        let a = del_regexp-KeepsOthers r.str_regexp i d v in
        let b =
          del_regs-KeepsOthers id i regs (del_regexp_from_dictionary lib r.str_regexp i d)
            a.valid in
        rw e (record { same = λ j. b.same j ∙ a.same j; valid = b.valid })
    | inr e ↦ rw e (del_regs-KeepsOthers id i regs d v)
  ]

  pub del_regexp_for_one_client-Keeps :
      (i : IvyClient) (id : ℕ) (s : Store B)
      → IsDictionary s.dictionary
      → Keeps i.client s (del_regexp_for_one_client lib i id s).0
  unfolding del_regexp_for_one_client
  del_regexp_for_one_client-Keeps i id s v =
      elim (Option-cases (find_first (is_client i.client) s.all_clients)) [
        | inl e ↦ rw (e, del_regexp_for_one_client) (Keeps-refl i.client s v)
        | inr (x, e) ↦
            rw (e, del_regexp_for_one_client)
              (let k = del_regs-KeepsOthers id i x.src_reg_list s.dictionary v in
                record {
                  dictionary = k;
                  clients = remove_first-update_first i.client _ s.all_clients (λ y. refl);
                  callback = refl;
                })
      ]
