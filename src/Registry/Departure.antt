-- ===== src/Registry/Departure.antt =====
-- The loop of `delOneClient` over the dictionary: a client that leaves is taken from every entry.
use libivy.Base.{
  ℕ, ◌≡◌, refl, ap, ◌∙◌, false, none, some, List, [], ◌∷◌, Bytes, remove_if, remove_first,
  find_first, update_first, bytes_eq, bytes_eq_iff, bytes_eq_refl, arith, Bool-cases, inl, inr,
  Option-cases,
}
use mathlib.Core.Path.{subst}
use libivy.Registry.{
  Entry, Library, Subscriber, is_of_client, has_key, with_clients, del_one_client_from_entry,
}
use libivy.Registry.Clients.{del_from_entries}
use libivy.Registry.Views.{
  IsLibrary, subscribers, IsDictionary, subscribers_absent, subscribers_found,
}
use libivy.Registry.Dictionary.{with_clients_lem, is_nil-cases}

module _ {B : Type 0} where
  -- a change of one entry leaves the lookup of another key
  find_first-update_first_ne :
      (k j : Bytes) (l : List Subscriber) (d : List (Entry B))
      → bytes_eq k j ≡ false
      → find_first (has_key j) (update_first (has_key k) (λ x. record x { client_list = l }) d)
        ≡ find_first (has_key j) d
  find_first-update_first_ne k j l [] n = refl
  find_first-update_first_ne k j l (x ∷ d) n = ground (
    arith,
    find_first-update_first_ne k j l d n,
    bytes_eq_iff x.regexp_src k,
    bytes_eq_iff x.regexp_src j,
    bytes_eq_iff k j,
  )

  find_first-remove_first_ne :
      (k j : Bytes) (d : List (Entry B))
      → bytes_eq k j ≡ false
      → find_first (has_key j) (remove_first (has_key k) d) ≡ find_first (has_key j) d
  find_first-remove_first_ne k j [] n = refl
  find_first-remove_first_ne k j (x ∷ d) n = ground (
    arith,
    find_first-remove_first_ne k j d n,
    bytes_eq_iff x.regexp_src k,
    bytes_eq_iff x.regexp_src j,
    bytes_eq_iff k j,
  )

  -- the entries that the loop has still to visit stand in the dictionary unchanged
  abbrev AllIn : List (Entry B) → List (Entry B) → Type 0
  AllIn [] d = Unit
  AllIn (e ∷ es) d = (find_first (has_key e.regexp_src) d ≡ some e) × AllIn es d

  AllIn-cons :
      (x : Entry B) (es d : List (Entry B))
      → find_first (has_key x.regexp_src) es ≡ none
      → AllIn es d
      → AllIn es (x ∷ d)
  AllIn-cons x [] d n a = tt
  AllIn-cons x (e ∷ es) d n a = (
    ground (
      arith,
      bytes_eq_iff x.regexp_src e.regexp_src,
      bytes_eq_iff e.regexp_src x.regexp_src,
      a.0,
    ),
    AllIn-cons x es d (ground arith) a.1,
  )

  AllIn-self : (d : List (Entry B)) → IsDictionary d → AllIn d d
  AllIn-self [] v = tt
  AllIn-self (e ∷ d) v = (rw (bytes_eq_refl e.regexp_src), AllIn-cons e d d v.0 (AllIn-self d v.2))

module _ {B : Type 0} {lib : Library B} (ok : IsLibrary lib) where
  find_first-with_clients :
      (k j : Bytes) (l : List Subscriber) (d : List (Entry B))
      → bytes_eq k j ≡ false
      → find_first (has_key j) (with_clients lib k l d) ≡ find_first (has_key j) d
  unfolding with_clients
  find_first-with_clients k j l d n = elim (is_nil-cases l) [
    | inl (t, _) ↦ rw (t, ok.dels) (find_first-remove_first_ne k j d n)
    | inr (t, _) ↦ rw t (find_first-update_first_ne k j l d n)
  ]

  AllIn-with_clients :
      (k : Bytes) (l : List Subscriber) (es d : List (Entry B))
      → find_first (has_key k) es ≡ none
      → AllIn es d
      → AllIn es (with_clients lib k l d)
  AllIn-with_clients k l [] d n a = tt
  AllIn-with_clients k l (e ∷ es) d n a = (
    find_first-with_clients k e.regexp_src l d
          (ground (arith, bytes_eq_iff k e.regexp_src, bytes_eq_iff e.regexp_src k))
        ∙ a.0,
    AllIn-with_clients k l es d (ground arith) a.1,
  )

  -- the dictionary behind the loop
  record Leaves (c : ℕ) (es d out : List (Entry B)) : Type 0 where
    visited :
        (j : Bytes) (e : Entry B)
        → find_first (has_key j) es ≡ some e
        → subscribers out j ≡ remove_if (is_of_client c) (subscribers d j)
    others : (j : Bytes) → find_first (has_key j) es ≡ none → subscribers out j ≡ subscribers d j
    valid : IsDictionary out

  del_from_entries-Leaves :
      (c : ℕ) (es d : List (Entry B))
      → IsDictionary es
      → IsDictionary d
      → AllIn es d
      → Leaves c es d (del_from_entries lib c es d)
  unfolding del_from_entries del_one_client_from_entry
  del_from_entries-Leaves c [] d u v a = record {
    visited = λ j e h. cc;
    others = λ j h. refl;
    valid = v;
  }
  del_from_entries-Leaves c (e ∷ es) d u v a =
      let l = remove_if (is_of_client c) e.client_list in
      let k = e.regexp_src in
      let d' = with_clients lib k l d in
      let w = with_clients_lem ok k l d e a.0 v in
      let r = del_from_entries-Leaves c es d' u.2 w.1 (AllIn-with_clients k l es d u.0 a.1) in
      record {
        visited = λ j x h. elim (Bool-cases (has_key j e)) [
          | inl t ↦
              let kj : k ≡ j = (bytes_eq_iff k j).0 t in
              let z : find_first (has_key j) es ≡ none = rw kj at u.0 in
              let y : find_first (has_key j) d ≡ some e =
                subst (λ t. find_first (has_key t) d ≡ some e) kj a.0 in
              r.others j z ∙ w.0 j ∙ rw (t, (subscribers_found j d e y).0)
          | inr t ↦ r.visited j x (rw t at h) ∙ ap (remove_if (is_of_client c)) (w.0 j ∙ rw t)
        ];
        others = λ j h. elim (Bool-cases (has_key j e)) [
          | inl t ↦ let q : some e ≡ none = rw t at h in cc
          | inr t ↦ r.others j (rw t at h) ∙ w.0 j ∙ rw t
        ];
        valid = r.valid;
      }

  -- The loop over the whole dictionary takes the client from the subscribers of every regexp,
  -- keeps all other subscribers in their order, and leaves no entry without one.
  pub del_from_entries_lem :
      (c : ℕ) (d : List (Entry B))
      → IsDictionary d
      → ((j : Bytes)
          → subscribers (del_from_entries lib c d d) j
            ≡ remove_if (is_of_client c) (subscribers d j))
        × IsDictionary (del_from_entries lib c d d)
  del_from_entries_lem c d v =
      let r = del_from_entries-Leaves c d d v v (AllIn-self d v) in
      (
        (λ j. elim (Option-cases (find_first (has_key j) d)) [
          | inl a ↦ r.others j a ∙ rw (subscribers_absent j d a)
          | inr (e, a) ↦ r.visited j e a
        ]),
        r.valid,
      )
