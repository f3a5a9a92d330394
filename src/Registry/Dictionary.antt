-- ===== src/Registry/Dictionary.antt =====
-- The operations on the dictionary of src/ivy.c, by what they do to the subscribers of each regexp.
use libivy.Base.{
  ◌≡◌, ◌≢◌, refl, ◌∙◌, true, false, none, some, List, [], ◌∷◌, ◌++◌, if◌then◌else◌, Bytes,
  remove_if, find_first, update_first, bytes_eq, bytes_eq_iff, arith, Bool-cases, inl, inr,
  Option-cases, ◌⊎◌,
}
use libivy.Registry.{
  IvyClient, Subscriber, Entry, Library, is_subscription, has_key, is_nil, subscriber, with_clients,
  del_one_ivy_client_from_entry, del_regexp_from_dictionary, with_entry, add_regexp_to_dictionary,
}
use libivy.Registry.Views.{
  IsLibrary, subscribers, IsDictionary, subscribers_absent, subscribers_found,
  subscribers-update_first, subscribers-remove_first, update_first-IsDictionary,
  remove_first-IsDictionary, update_last, append-IsDictionary, subscribers-append,
}

pub is_nil-cases :
    (l : List Subscriber) → (is_nil l ≡ true) × (l ≡ []) ⊎ (is_nil l ≡ false) × (l ≢ [])
is_nil-cases [] = inl (refl, refl)
is_nil-cases (x ∷ l) = inr (refl, λ e. cc)

module _ {B : Type 0} {lib : Library B} (ok : IsLibrary lib) where
  -- an entry's new client list, which unlinks the entry where it is empty
  pub with_clients_lem :
      (k : Bytes) (l : List Subscriber) (d : List (Entry B)) (e : Entry B)
      → find_first (has_key k) d ≡ some e
      → IsDictionary d
      → ((j : Bytes)
          → subscribers (with_clients lib k l d) j ≡ (if bytes_eq k j then l else subscribers d j))
        × IsDictionary (with_clients lib k l d)
  unfolding with_clients
  with_clients_lem k l d e h v = elim (is_nil-cases l) [
    | inl (t, n) ↦
        rw (t, ok.dels)
          ((λ j. rw n (subscribers-remove_first k j d v)), remove_first-IsDictionary k d v)
    | inr (t, n) ↦ rw t (
      (λ j. subscribers-update_first k j (λ _. l) d e h),
      update_first-IsDictionary k (λ _. l) d (λ _. n) v,
    )
  ]

  del_regexp_absent :
      (k : Bytes) (c : IvyClient) (d : List (Entry B))
      → find_first (has_key k) d ≡ none
      → del_regexp_from_dictionary lib k c d ≡ d
  unfolding del_regexp_from_dictionary
  del_regexp_absent k c d h = rw (ok.finds k d ∙ h, del_regexp_from_dictionary)

  del_regexp_found :
      (k : Bytes) (c : IvyClient) (d : List (Entry B)) (e : Entry B)
      → find_first (has_key k) d ≡ some e
      → del_regexp_from_dictionary lib k c d
        ≡ with_clients lib k (remove_if (is_subscription c.client c.id) (subscribers d k)) d
  unfolding del_regexp_from_dictionary del_one_ivy_client_from_entry
  del_regexp_found k c d e h =
      let f = subscribers_found k d e h in
      rw (ok.finds k d ∙ h, del_regexp_from_dictionary) (rw (f.0, f.1))

  -- `delRegexpForOneClientFromDictionary` takes from the subscribers of the regexp those with the
  -- client's socket and current id, and nothing from the other regexps; a dictionary with no
  -- regexp twice and none without subscribers stays one.
  pub del_regexp_from_dictionary_lem :
      (k : Bytes) (c : IvyClient) (d : List (Entry B))
      → IsDictionary d
      → ((j : Bytes)
          → subscribers (del_regexp_from_dictionary lib k c d) j ≡ (
              if bytes_eq k j
              then remove_if (is_subscription c.client c.id) (subscribers d j)
              else subscribers d j))
        × IsDictionary (del_regexp_from_dictionary lib k c d)
  del_regexp_from_dictionary_lem k c d v = elim (Option-cases (find_first (has_key k) d)) [
    | inl a ↦ rw (del_regexp_absent k c d a) ((λ j. nothing j a), v)
    | inr (e, a) ↦
        let l = remove_if (is_subscription c.client c.id) (subscribers d k) in
        let w = with_clients_lem k l d e a v in
        rw (del_regexp_found k c d e a) ((λ j. w.0 j ∙ ground (arith, bytes_eq_iff k j)), w.1)
  ]
    where
      nothing :
          (j : Bytes)
          → find_first (has_key k) d ≡ none
          → subscribers d j ≡ (
              if bytes_eq k j
              then remove_if (is_subscription c.client c.id) (subscribers d j)
              else subscribers d j)
      nothing j a = elim (Bool-cases (bytes_eq k j)) [
        | inl e ↦
            let z : subscribers d j ≡ [] =
              subscribers_absent j d (rw ((bytes_eq_iff k j).0 e) at a) in
            rw (e, z)
        | inr e ↦ rw e
      ]

  add_absent :
      (k : Bytes) (c : IvyClient) (d : List (Entry B))
      → find_first (has_key k) d ≡ none
      → add_regexp_to_dictionary lib k c d
        ≡ d
          ++ (record { regexp_src = k; client_list = subscriber c ∷ []; binding = lib.compile k }
              ∷ [])
  unfolding add_regexp_to_dictionary with_entry
  add_absent k c d h =
      rw (ok.finds k d ∙ h, with_entry, ok.adds) (update_last k (λ l. subscriber c ∷ l) d _ h refl)

  add_found :
      (k : Bytes) (c : IvyClient) (d : List (Entry B)) (e : Entry B)
      → find_first (has_key k) d ≡ some e
      → add_regexp_to_dictionary lib k c d
        ≡ update_first (has_key k) (λ x. record x { client_list = subscriber c ∷ x.client_list }) d
  unfolding add_regexp_to_dictionary with_entry
  add_found k c d e h = rw (ok.finds k d ∙ h, with_entry)

  -- `addRegexpToDictionary` puts the client, with its current id, in front of the subscribers of
  -- the regexp, and changes nothing for the other regexps; a dictionary with no regexp twice and
  -- none without subscribers stays one.
  pub add_regexp_to_dictionary_lem :
      (k : Bytes) (c : IvyClient) (d : List (Entry B))
      → IsDictionary d
      → ((j : Bytes)
          → subscribers (add_regexp_to_dictionary lib k c d) j
            ≡ (if bytes_eq k j then subscriber c ∷ subscribers d j else subscribers d j))
        × IsDictionary (add_regexp_to_dictionary lib k c d)
  add_regexp_to_dictionary_lem k c d v = elim (Option-cases (find_first (has_key k) d)) [
    | inl a ↦
        rw (add_absent k c d a)
          ((λ j. subscribers-append j d _ a ∙ front j a), append-IsDictionary d _ a (λ p. cc) v)
    | inr (e, a) ↦ rw (add_found k c d e a) (
      (λ j. subscribers-update_first k j (λ l. subscriber c ∷ l) d e a),
      update_first-IsDictionary k (λ l. subscriber c ∷ l) d (λ l p. cc) v,
    )
  ]
    where
      front :
          (j : Bytes)
          → find_first (has_key k) d ≡ none
          → (if bytes_eq k j then subscriber c ∷ [] else subscribers d j)
            ≡ (if bytes_eq k j then subscriber c ∷ subscribers d j else subscribers d j)
      front j a = elim (Bool-cases (bytes_eq k j)) [
        | inl e ↦
            let z : subscribers d j ≡ [] =
              subscribers_absent j d (rw ((bytes_eq_iff k j).0 e) at a) in
            rw (e, z)
        | inr e ↦ rw e
      ]
