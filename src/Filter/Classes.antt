-- ===== src/Filter/Classes.antt =====
-- What the filter lets through after its list of classes has changed.
use libivy.Base.{
  ◌≡◌, refl, true, ◌&&◌, Option, none, some, List, [], ◌∷◌, if◌then◌else◌, Bytes, bytes_eq,
  bytes_eq_iff, bytes_eq_refl, remove_if, find_first, arith, Bool-cases, inl, inr,
}
use libivy.Filter.{
  Filter, add_filter, set_filter, remove_filter, starts_with, is_anchored, is_some, has_words,
  extract, binding_filter,
}

-- a class that begins with the token is in the list
abbrev pub Lists : Bytes → List Bytes → Type 0
Lists token words = is_some (find_first (starts_with token) words) ≡ true

Lists-cons :
    (token word : Bytes) (words : List Bytes) → Lists token words → Lists token (word ∷ words)
Lists-cons token word words h = elim (Bool-cases (starts_with token word)) [
  | inl e ↦ rw e refl
  | inr e ↦ rw e h
]

Lists-set_filter :
    (token : Bytes) (argv : List Bytes) (f : Filter)
    → Lists token f.words
    → Lists token (set_filter argv f).words
unfolding set_filter add_filter
Lists-set_filter token [] f h = h
Lists-set_filter token (arg ∷ argv) f h =
    Lists-set_filter token argv _ (Lists-cons token arg f.words h)

set_filter-Lists :
    (token : Bytes) (argv : List Bytes) (f : Filter)
    → Lists token argv
    → Lists token (set_filter argv f).words
unfolding set_filter add_filter
set_filter-Lists token [] f h = cc
set_filter-Lists token (arg ∷ argv) f h = elim (Bool-cases (starts_with token arg)) [
  | inl e ↦ Lists-set_filter token argv _ (rw e refl)
  | inr e ↦ set_filter-Lists token argv _ (rw e at h)
]

Lists-accepted :
    (token_of : Bytes → Option Bytes) (expression token : Bytes) (f : Filter)
    → token_of expression ≡ some token
    → Lists token f.words
    → binding_filter token_of expression f ≡ true
unfolding binding_filter extract
Lists-accepted token_of expression token f e h =
    elim (Bool-cases (is_anchored expression && has_words f.words)) [
      | inl c ↦ rw c (elim (Bool-cases f.has_extract) [ inl d ↦ rw d (rw e h) | inr d ↦ rw d refl ])
      | inr c ↦ rw c refl
    ]

-- After `IvyBindingSetFilter`, an expression whose token begins one of the classes given is let
-- through, whatever classes there were before.
set_filter-accepts :
    (token_of : Bytes → Option Bytes) (expression token : Bytes) (argv : List Bytes) (f : Filter)
    → token_of expression ≡ some token
    → Lists token argv
    → binding_filter token_of expression (set_filter argv f) ≡ true
set_filter-accepts token_of expression token argv f e h =
    Lists-accepted token_of expression token (set_filter argv f) e (set_filter-Lists token argv f h)

find_first-remove_if :
    (w j : Bytes) (words : List Bytes)
    → find_first (bytes_eq j) (remove_if (bytes_eq w) words)
      ≡ (if bytes_eq w j then none else find_first (bytes_eq j) words)
find_first-remove_if w j [] = ground arith
find_first-remove_if w j (x ∷ words) =
    ground
      (arith, find_first-remove_if w j words, bytes_eq_iff w x, bytes_eq_iff j x, bytes_eq_iff w j)

-- `IvyBindingRemoveFilter` takes every copy of its class from the list, also one that was just
-- added, and no other class.
remove_filter_lem :
    (w j : Bytes) (f : Filter)
    → (find_first (bytes_eq j) (remove_filter w f).words
        ≡ (if bytes_eq w j then none else find_first (bytes_eq j) f.words))
      × ((remove_filter w (add_filter (some w) f)).words ≡ (remove_filter w f).words)
unfolding remove_filter add_filter
remove_filter_lem w j f = (find_first-remove_if w j f.words, rw (bytes_eq_refl w) refl)
