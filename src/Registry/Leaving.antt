-- ===== src/Registry/Leaving.antt =====
-- `delOneClient` of src/ivy.c as a whole: where it faults and what it leaves.
use libivy.Base.{
  ℕ, zero, suc, ◌≡◌, ◌≤◌, refl, sym, ◌∙◌, true, false, none, some, List, [], ◌∷◌, Bytes, remove_if,
  remove_first, find_first, length, arith, Bool-cases, inl, inr, Option-cases, length-remove_if,
  remove_first-none,
}
use mathlib.Core.Path.{subst}
use libivy.Registry.{Reg, IvyClient, Library, Store, is_client, is_of_client, has_id}
use libivy.Registry.Clients.{
  del_regexp_for_one_client, del_all_regs, del_from_clients, del_from_entries, del_one_client,
}
use libivy.Registry.Views.{IsLibrary, subscribers, IsDictionary}
use libivy.Registry.Departure.{del_from_entries_lem}
use libivy.Registry.Keeping.{
  KeepsOthers, Keeps, Keeps-refl, Keeps-trans, del_regexp_for_one_client-Keeps,
}

-- no id stands twice in a client's list of regexps
abbrev pub IsDistinct : List Reg → Type 0
IsDistinct [] = Unit
IsDistinct (r ∷ regs) = (find_first (has_id r.id) regs ≡ none) × IsDistinct regs

-- nor a socket in `allClients`; the lists of the client `c` have no id twice
abbrev pub IsDistinctFor : ℕ → List IvyClient → Type 0
IsDistinctFor c [] = Unit
IsDistinctFor c (i ∷ l) =
    (is_client c i ≡ true → IsDistinct i.src_reg_list × (find_first (is_client c) l ≡ none))
    × IsDistinctFor c l

find_first-remove_if-none :
    (i j : ℕ) (l : List Reg)
    → find_first (has_id i) l ≡ none
    → find_first (has_id i) (remove_if (has_id j) l) ≡ none
find_first-remove_if-none i j [] h = refl
find_first-remove_if-none i j (r ∷ l) h = ground (arith, find_first-remove_if-none i j l)

remove_if-IsDistinct : (j : ℕ) (l : List Reg) → IsDistinct l → IsDistinct (remove_if (has_id j) l)
remove_if-IsDistinct j [] h = tt
remove_if-IsDistinct j (r ∷ l) h = elim (Bool-cases (has_id j r)) [
  | inl e ↦ rw e (remove_if-IsDistinct j l h.1)
  | inr e ↦ rw e (find_first-remove_if-none r.id j l h.0, remove_if-IsDistinct j l h.1)
]

absent_or :
    (c : ℕ) (l : List IvyClient)
    → elim (find_first (is_client c) l) [ none ↦ l | some _ ↦ remove_first (is_client c) l ]
      ≡ remove_first (is_client c) l
absent_or c l = elim (Option-cases (find_first (is_client c) l)) [
  | inl e ↦ rw e (sym (remove_first-none (is_client c) l e))
  | inr (i, e) ↦ rw e
]

module _ {B : Type 0} {lib : Library B} (ok : IsLibrary lib) where
  stepped :
      (fuel : ℕ) (i : IvyClient) (r q : Reg) (regs : List Reg) (s : Store B)
      → has_id r.id q ≡ false
      → del_all_regs lib (suc fuel) i (r ∷ q ∷ regs) s
        ≡ del_all_regs lib fuel i
            (remove_if (has_id r.id) (q ∷ regs))
            (del_regexp_for_one_client lib i r.id s).0
  unfolding del_all_regs
  stepped fuel i r q regs s n = rw n

  del_all_regs-Keeps :
      (fuel : ℕ) (i : IvyClient) (regs : List Reg) (s : Store B)
      → length regs ≤ fuel
      → IsDistinct regs
      → IsDictionary s.dictionary
      → (s' : Store B) × (del_all_regs lib fuel i regs s ≡ some s') × Keeps i.client s s'
  unfolding del_all_regs
  del_all_regs-Keeps zero i regs s h u v = (s, refl, Keeps-refl i.client s v)
  del_all_regs-Keeps (suc fuel) i [] s h u v = (s, refl, Keeps-refl i.client s v)
  del_all_regs-Keeps (suc fuel) i (r ∷ []) s h u v =
      (_, refl, del_regexp_for_one_client-Keeps ok i r.id s v)
  del_all_regs-Keeps (suc fuel) i (r ∷ q ∷ regs) s h u v =
      let k = del_regexp_for_one_client-Keeps ok i r.id s v in
      let n : has_id r.id q ≡ false = ground (arith, u.0) in
      let (s', e, m) =
        del_all_regs-Keeps fuel i (remove_if (has_id r.id) (q ∷ regs))
          (del_regexp_for_one_client lib i r.id s).0
          (omega (arith, length-remove_if (has_id r.id) (q ∷ regs)))
          (remove_if-IsDistinct r.id (q ∷ regs) u.1) k.dictionary.valid in
      (s', stepped fuel i r q regs s n ∙ e, Keeps-trans k m)

  -- the loop over nodes of other sockets does nothing
  del_from_clients_absent :
      (c : ℕ) (l : List IvyClient) (s : Store B)
      → find_first (is_client c) l ≡ none
      → del_from_clients lib c l s ≡ some s
  unfolding del_from_clients
  del_from_clients_absent c [] s h = refl
  del_from_clients_absent c (i ∷ l) s h = ground (arith, del_from_clients_absent c l s)

  -- what the outer loop leaves of the clients
  record Unlinks (c : ℕ) (l : List IvyClient) (s s' : Store B) : Type 0 where
    dictionary : KeepsOthers c s.dictionary s'.dictionary
    clients : s'.all_clients ≡ elim (find_first (is_client c) l) [
      | none ↦ s.all_clients
      | some _ ↦ remove_first (is_client c) s.all_clients
    ]
    callback : s'.has_bind_callback ≡ s.has_bind_callback

  found :
      (c : ℕ) (i : IvyClient) (l : List IvyClient) (s t : Store B)
      → is_client c i ≡ true
      → del_all_regs lib (length i.src_reg_list) i i.src_reg_list s ≡ some t
      → find_first (is_client c) l ≡ none
      → del_from_clients lib c (i ∷ l) s
        ≡ some (record t { all_clients = remove_first (is_client c) t.all_clients })
  unfolding del_from_clients
  found c i l s t e d n = rw (e, d) (del_from_clients_absent c l _ n)

  passed :
      (c : ℕ) (i : IvyClient) (l : List IvyClient) (s : Store B)
      → is_client c i ≡ false
      → del_from_clients lib c (i ∷ l) s ≡ del_from_clients lib c l s
  unfolding del_from_clients
  passed c i l s e = rw e

  del_from_clients-Unlinks :
      (c : ℕ) (l : List IvyClient) (s : Store B)
      → IsDistinctFor c l
      → IsDictionary s.dictionary
      → (s' : Store B) × (del_from_clients lib c l s ≡ some s') × Unlinks c l s s'
  unfolding del_from_clients
  del_from_clients-Unlinks c [] s u v = (
    s,
    refl,
    record { dictionary = record { same = λ j. refl; valid = v }; clients = refl; callback = refl },
  )
  del_from_clients-Unlinks c (i ∷ l) s u v = elim (Bool-cases (is_client c i)) [
    | inl e ↦
        let (regs, alone) = u.0 e in
        let ic : i.client ≡ c = ground arith in
        let (t, d, k) =
          del_all_regs-Keeps (length i.src_reg_list) i i.src_reg_list s (omega arith) regs v in
        let m : Keeps c s t = subst (λ x. Keeps x s t) ic k in
        (
          record t { all_clients = remove_first (is_client c) t.all_clients },
          found c i l s t e d alone,
          record { dictionary = m.dictionary; clients = rw e m.clients; callback = m.callback },
        )
    | inr e ↦
        let (t, d, k) = del_from_clients-Unlinks c l s u.1 v in
        (
          t,
          passed c i l s e ∙ d,
          record { dictionary = k.dictionary; clients = rw e k.clients; callback = k.callback },
        )
  ]

  -- A client that leaves, with no id twice in its list of regexps and its socket once in
  -- `allClients`, is taken from `allClients` and from the subscribers of every regexp. All the
  -- other clients and subscribers stay as they are, in their order, no entry is left without a
  -- subscriber, if none was, and no freed node is read.
  pub del_one_client_lem :
      (c : ℕ) (s : Store B)
      → IsDistinctFor c s.all_clients
      → IsDictionary s.dictionary
      → (s' : Store B) × (del_one_client lib c s ≡ some s')
        × ((j : Bytes)
            → subscribers s'.dictionary j ≡ remove_if (is_of_client c) (subscribers s.dictionary j))
        × (s'.all_clients ≡ remove_first (is_client c) s.all_clients)
        × IsDictionary s'.dictionary
  unfolding del_one_client
  del_one_client_lem c s u v =
      let (t, e, k) = del_from_clients-Unlinks c s.all_clients s u v in
      let w = del_from_entries_lem ok c t.dictionary k.dictionary.valid in
      (
        record t { dictionary = del_from_entries lib c t.dictionary t.dictionary },
        rw (e, del_one_client),
        (λ j. w.0 j ∙ k.dictionary.same j),
        k.clients ∙ absent_or c s.all_clients,
        w.1,
      )
