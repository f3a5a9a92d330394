-- ===== src/Registry/Clients.antt =====
-- src/ivy.c: the functions that keep `allClients` and the dictionary in step. `none` is a fault: a
-- pointer that is NULL or freed is read.
use libivy.Base.{
  ℕ, zero, suc, Bool, true, false, Option, none, some, List, [], ◌∷◌, ◌++◌, ◌==◌, if◌then◌else◌,
  Bytes, remove_if, remove_first, find_first, update_first, length, map,
}
use libivy.Registry.{
  Reg, IvyClient, Subscriber, Entry, Library, add_bind, change_bind, Effect, Store, is_client,
  is_of_client, has_id, bind_effect, del_one_client_from_entry, del_regexp_from_dictionary,
  add_regexp_to_dictionary, add_effects, change_regexp_in_dictionary,
}

abbrev pub with_regs : List Reg → IvyClient → IvyClient
with_regs regs i = record i { src_reg_list = regs }

-- the test of `addOrChangeRegexp` on an entry's clients: the first one of this client's socket
-- has this id
unfoldable pub same_first_id : IvyClient → List Subscriber → Bool
same_first_id c clients = elim (find_first (is_of_client c.client) clients) [
  | none ↦ false
  | some i ↦ i.id == c.id
]

module _ {B : Type 0} (lib : Library B) where
  open lib use {hash_find}

  -- the store that `addRegexp` leaves, for a client that is in `allClients`
  unfoldable pub added : Bytes → IvyClient → Store B → Store B
  added regexp c s = record s {
    all_clients =
        update_first (is_client c.client)
          (λ j. with_regs (record { id = c.id; str_regexp = regexp } ∷ j.src_reg_list) j)
          s.all_clients;
    dictionary = add_regexp_to_dictionary lib regexp c s.dictionary;
  }

  -- `addRegexp`. Where the client is not in `allClients` the code says so and goes on to write
  -- through the NULL pointer.
  unfoldable pub add_regexp : Bytes → IvyClient → Store B → Option (Store B × List Effect)
  add_regexp regexp c s = elim (find_first (is_client c.client) s.all_clients) [
    | none ↦ none
    | some i ↦ some (
      added regexp c s,
      add_effects lib regexp c s.dictionary ++ bind_effect s.has_bind_callback add_bind c regexp,
    )
  ]

  -- `changeRegexp`
  unfoldable pub change_regexp : Bytes → IvyClient → Store B → Store B × List Effect
  change_regexp regexp c s = (
    record s {
      all_clients =
          update_first (is_client c.client)
            (λ j.
              with_regs
                (map (λ r. if has_id c.id r then record r { str_regexp = regexp } else r)
                  j.src_reg_list)
                j)
            s.all_clients;
      dictionary = change_regexp_in_dictionary lib regexp c s.dictionary;
    },
    add_effects lib regexp c (del_regexp_from_dictionary lib regexp c s.dictionary)
        ++ bind_effect s.has_bind_callback change_bind c regexp,
  )

  -- `addOrChangeRegexp`
  unfoldable pub add_or_change_regexp : Bytes → IvyClient → Store B → Option (Store B × List Effect)
  add_or_change_regexp regexp c s = elim (hash_find regexp s.dictionary) [
    | none ↦ add_regexp regexp c s
    | some e ↦
        if same_first_id c e.client_list
        then some (change_regexp regexp c s)
        else add_regexp regexp c s
  ]

  -- The loop of `delRegexpForOneClient` over the client's regexps: those of the id leave the list,
  -- and each is taken from the dictionary. The flag is `removed`.
  unfoldable pub del_regs :
      ℕ → IvyClient → List Reg → List (Entry B) → List Reg × List (Entry B) × Bool
  del_regs id c [] dict = ([], dict, false)
  del_regs id c (r ∷ regs) dict =
      let found = del_regs id c regs (del_regexp_from_dictionary lib r.str_regexp c dict) in
      let others = del_regs id c regs dict in
      if has_id id r then (found.0, found.1, true) else (r ∷ others.0, others.1, others.2)

  -- `delRegexpForOneClient`
  unfoldable pub del_regexp_for_one_client : IvyClient → ℕ → Store B → Store B × Bool
  del_regexp_for_one_client c id s = elim (find_first (is_client c.client) s.all_clients) [
    | none ↦ (s, false)
    | some i ↦
        let (regs, dict, removed) = del_regs id c i.src_reg_list s.dictionary in
        (
          record s {
            all_clients = update_first (is_client c.client) (with_regs regs) s.all_clients;
            dictionary = dict;
          },
          removed,
        )
  ]

  -- The inner loop of `delOneClient`, from a node with the regexp `r` and the nodes `regs` behind
  -- it: the call frees every node with the id of `r`, and the loop goes on to the node that stood
  -- behind, which it faults on if that one is freed. The fuel is the length of the list.
  unfoldable pub del_all_regs : ℕ → IvyClient → List Reg → Store B → Option (Store B)
  del_all_regs zero c regs s = some s
  del_all_regs (suc fuel) c [] s = some s
  del_all_regs (suc fuel) c (r ∷ []) s = some (del_regexp_for_one_client c r.id s).0
  del_all_regs (suc fuel) c (r ∷ q ∷ regs) s =
      let s' = (del_regexp_for_one_client c r.id s).0 in
      let rest = del_all_regs fuel c (remove_if (has_id r.id) (q ∷ regs)) s' in
      if has_id r.id q then none else rest

  -- The outer loop of `delOneClient` over the nodes of `allClients`. A node that is found is
  -- unlinked behind its regexps; the ones of this socket before it are gone by then, so that it is
  -- the first one of this socket.
  unfoldable pub del_from_clients : ℕ → List IvyClient → Store B → Option (Store B)
  del_from_clients c [] s = some s
  del_from_clients c (i ∷ clients) s =
      let after = del_all_regs (length i.src_reg_list) i i.src_reg_list s in
      let others = del_from_clients c clients s in
      if is_client c i
      then elim after [
        | none ↦ none
        | some s' ↦
            del_from_clients c clients
              (record s' { all_clients = remove_first (is_client c) s'.all_clients })
      ]
      else others

  -- The loop of `delOneClient` over the dictionary, with the next entry read before the body.
  unfoldable pub del_from_entries : ℕ → List (Entry B) → List (Entry B) → List (Entry B)
  del_from_entries c [] dict = dict
  del_from_entries c (e ∷ entries) dict =
      del_from_entries c entries (del_one_client_from_entry lib e c dict)

  -- `delOneClient`
  unfoldable pub del_one_client : ℕ → Store B → Option (Store B)
  del_one_client c s = elim (del_from_clients c s.all_clients s) [
    | none ↦ none
    | some s' ↦ some (record s' { dictionary = del_from_entries c s'.dictionary s'.dictionary })
  ]
