-- ===== src/Registry/Views.antt =====
-- The dictionary as what it says of each regexp: the list of its subscribers.
use libivy.Base.{
  ◌≡◌, ◌≢◌, refl, false, none, some, List, [], ◌∷◌, ◌++◌, if◌then◌else◌, Bytes, remove_first,
  find_first, update_first, bytes_eq, bytes_eq_iff, arith, Bool-cases, inl, inr,
}
use libivy.Registry.{Subscriber, Entry, Library, has_key}

-- What uthash documents of the three calls: the entry of a key, a new entry at the end of the
-- order of `hh.next`, and the entry of a key unlinked.
pub record IsLibrary {B : Type 0} (lib : Library B) : Type 0 where
  pub finds : (k : Bytes) (d : List (Entry B)) → lib.hash_find k d ≡ find_first (has_key k) d
  pub adds : (e : Entry B) (d : List (Entry B)) → lib.hash_add e d ≡ d ++ (e ∷ [])
  pub dels : (k : Bytes) (d : List (Entry B)) → lib.hash_del k d ≡ remove_first (has_key k) d

module _ {B : Type 0} where
  -- the subscribers of a regexp, newest first; none where it has no entry
  unfoldable pub subscribers : List (Entry B) → Bytes → List Subscriber
  subscribers [] k = []
  subscribers (e ∷ d) k = let rest = subscribers d k in if has_key k e then e.client_list else rest

  -- No regexp has two entries, and none has an entry with no client.
  abbrev pub IsDictionary : List (Entry B) → Type 0
  IsDictionary [] = Unit
  IsDictionary (e ∷ d) =
      (find_first (has_key e.regexp_src) d ≡ none) × (e.client_list ≢ []) × IsDictionary d

  pub subscribers_absent :
      (k : Bytes) (d : List (Entry B)) → find_first (has_key k) d ≡ none → subscribers d k ≡ []
  unfolding subscribers
  subscribers_absent k [] h = refl
  subscribers_absent k (e ∷ d) h = ground (arith, subscribers_absent k d)

  pub subscribers_found :
      (k : Bytes) (d : List (Entry B)) (e : Entry B)
      → find_first (has_key k) d ≡ some e
      → (subscribers d k ≡ e.client_list) × (e.regexp_src ≡ k)
  unfolding subscribers
  subscribers_found k [] e h = cc
  subscribers_found k (x ∷ d) e h =
      ground (arith, subscribers_found k d e, bytes_eq_iff x.regexp_src k)

  -- a change of the client list of an entry that is there
  pub subscribers-update_first :
      (k j : Bytes) (f : List Subscriber → List Subscriber) (d : List (Entry B)) (e : Entry B)
      → find_first (has_key k) d ≡ some e
      → subscribers (update_first (has_key k) (λ x. record x { client_list = f x.client_list }) d) j
        ≡ (if bytes_eq k j then f (subscribers d j) else subscribers d j)
  unfolding subscribers
  subscribers-update_first k j f [] e h = cc
  subscribers-update_first k j f (x ∷ d) e h = ground (
    arith,
    subscribers-update_first k j f d e,
    bytes_eq_iff x.regexp_src k,
    bytes_eq_iff x.regexp_src j,
    bytes_eq_iff k j,
  )

  -- the removal of an entry
  pub subscribers-remove_first :
      (k j : Bytes) (d : List (Entry B))
      → IsDictionary d
      → subscribers (remove_first (has_key k) d) j ≡ (if bytes_eq k j then [] else subscribers d j)
  unfolding subscribers
  subscribers-remove_first k j [] v = ground arith
  subscribers-remove_first k j (x ∷ d) v = ground (
    arith,
    subscribers-remove_first k j d,
    subscribers_absent j d,
    bytes_eq_iff x.regexp_src k,
    bytes_eq_iff x.regexp_src j,
    bytes_eq_iff k j,
  )

  -- Neither of the two brings a regexp in.
  absent-update_first :
      (k j : Bytes) (f : List Subscriber → List Subscriber) (d : List (Entry B))
      → find_first (has_key j) d ≡ none
      → find_first
          (has_key j)
          (update_first (has_key k) (λ x. record x { client_list = f x.client_list }) d)
        ≡ none
  absent-update_first k j f [] h = refl
  absent-update_first k j f (x ∷ d) h = ground (arith, absent-update_first k j f d)

  absent-remove_first :
      (k j : Bytes) (d : List (Entry B))
      → find_first (has_key j) d ≡ none
      → find_first (has_key j) (remove_first (has_key k) d) ≡ none
  absent-remove_first k j [] h = refl
  absent-remove_first k j (x ∷ d) h = ground (arith, absent-remove_first k j d)

  absent-append :
      (j : Bytes) (d : List (Entry B)) (e : Entry B)
      → find_first (has_key j) d ≡ none
      → bytes_eq e.regexp_src j ≡ false
      → find_first (has_key j) (d ++ (e ∷ [])) ≡ none
  absent-append j [] e h k = ground arith
  absent-append j (x ∷ d) e h k = ground (arith, absent-append j d e)

  pub update_first-IsDictionary :
      (k : Bytes) (f : List Subscriber → List Subscriber) (d : List (Entry B))
      → ((l : List Subscriber) → f l ≢ [])
      → IsDictionary d
      → IsDictionary (update_first (has_key k) (λ x. record x { client_list = f x.client_list }) d)
  update_first-IsDictionary k f [] n v = tt
  update_first-IsDictionary k f (x ∷ d) n v = elim (Bool-cases (has_key k x)) [
    | inl e ↦ rw e (v.0, n x.client_list, v.2)
    | inr e ↦
        rw e
          (absent-update_first k x.regexp_src f d v.0, v.1, update_first-IsDictionary k f d n v.2)
  ]

  pub remove_first-IsDictionary :
      (k : Bytes) (d : List (Entry B)) → IsDictionary d → IsDictionary (remove_first (has_key k) d)
  remove_first-IsDictionary k [] v = tt
  remove_first-IsDictionary k (x ∷ d) v = elim (Bool-cases (has_key k x)) [
    | inl e ↦ rw e v.2
    | inr e ↦
        rw e (absent-remove_first k x.regexp_src d v.0, v.1, remove_first-IsDictionary k d v.2)
  ]

  -- an entry with no client yet, at the end, that is given its first one
  pub update_last :
      (k : Bytes) (f : List Subscriber → List Subscriber) (d : List (Entry B)) (e : Entry B)
      → find_first (has_key k) d ≡ none
      → e.regexp_src ≡ k
      → update_first (has_key k) (λ x. record x { client_list = f x.client_list }) (d ++ (e ∷ []))
        ≡ d ++ (record e { client_list = f e.client_list } ∷ [])
  update_last k f [] e h p = ground (arith, bytes_eq_iff e.regexp_src k)
  update_last k f (x ∷ d) e h p = ground (arith, update_last k f d e)

  pub append-IsDictionary :
      (d : List (Entry B)) (e : Entry B)
      → find_first (has_key e.regexp_src) d ≡ none
      → e.client_list ≢ []
      → IsDictionary d
      → IsDictionary (d ++ (e ∷ []))
  append-IsDictionary [] e h n v = (refl, n, tt)
  append-IsDictionary (x ∷ d) e h n v = (
    absent-append x.regexp_src d e v.0 (
        ground
          (arith, bytes_eq_iff e.regexp_src x.regexp_src, bytes_eq_iff x.regexp_src e.regexp_src)),
    v.1,
    append-IsDictionary d e (ground arith) n v.2,
  )

  pub subscribers-append :
      (j : Bytes) (d : List (Entry B)) (e : Entry B)
      → find_first (has_key e.regexp_src) d ≡ none
      → subscribers (d ++ (e ∷ [])) j
        ≡ (if bytes_eq e.regexp_src j then e.client_list else subscribers d j)
  unfolding subscribers
  subscribers-append j [] e h = refl
  subscribers-append j (x ∷ d) e h = ground (
    arith,
    subscribers-append j d e,
    bytes_eq_iff x.regexp_src j,
    bytes_eq_iff e.regexp_src j,
    bytes_eq_iff x.regexp_src e.regexp_src,
  )
