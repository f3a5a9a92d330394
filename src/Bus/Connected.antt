-- ===== src/Bus/Connected.antt =====
-- The agents that are connected, by their sockets, and what leaves them as they are.
use libivy.Base.{
  ℕ, ◌≡◌, refl, ap, ◌∙◌, Bool, true, false, ◌||◌, some, List, [], ◌∷◌, ◌==◌, find_first,
  update_first, arith, Bool-cases, inl, inr, Option-cases, some_inj,
}
use libivy.Registry.{IvyClient, Library, Store, is_client}
use libivy.Registry.Clients.{del_regexp_for_one_client}

-- the sockets of a list of clients
abbrev pub sockets : List IvyClient → List ℕ
sockets [] = []
sockets (i ∷ l) = i.client ∷ sockets l

pub sockets-update_first :
    (c : ℕ) (f : IvyClient → IvyClient) (l : List IvyClient)
    → ((i : IvyClient) → (f i).client ≡ i.client)
    → sockets (update_first (is_client c) f l) ≡ sockets l
sockets-update_first c f [] h = refl
sockets-update_first c f (i ∷ l) h = ground (arith, h i, sockets-update_first c f l h)

-- the test of a list of sockets for one of them
abbrev pub has_socket : ℕ → List ℕ → Bool
has_socket c [] = false
has_socket c (s ∷ l) = s == c || has_socket c l

-- A client with this socket is in the list.
abbrev pub IsConnected : ℕ → List IvyClient → Type 0
IsConnected c l = has_socket c (sockets l) ≡ true

pub found :
    (c : ℕ) (l : List IvyClient)
    → IsConnected c l
    → (i : IvyClient) × (find_first (is_client c) l ≡ some i) × (i.client ≡ c)
found c [] h = absurd (cc h)
found c (i ∷ l) h = elim (Bool-cases (is_client c i)) [
  | inl e ↦ rw e (i, refl, grind arith)
  | inr e ↦ rw e (found c l (ground arith))
]

pub find_first-update_first :
    (c : ℕ) (f : IvyClient → IvyClient) (l : List IvyClient) {i : IvyClient}
    → ((i : IvyClient) → (f i).client ≡ i.client)
    → find_first (is_client c) l ≡ some i
    → find_first (is_client c) (update_first (is_client c) f l) ≡ some (f i)
find_first-update_first c f [] h e = cc
find_first-update_first c f (x ∷ l) {i} h e = elim (Bool-cases (is_client c x)) [
  | inl t ↦
      let y : is_client c (f x) ≡ true = ap (λ n. n == c) (h x) ∙ t in
      rw (t, y) (ap (λ z. some (f z)) (some_inj (rw t at e)))
  | inr t ↦ rw t (rw t (find_first-update_first c f l h (rw t at e)))
]

module _ {B : Type 0} (lib : Library B) where
  pub del_regexp_for_one_client-sockets :
      (c : IvyClient) (id : ℕ) (s : Store B)
      → sockets (del_regexp_for_one_client lib c id s).0.all_clients ≡ sockets s.all_clients
  unfolding del_regexp_for_one_client
  del_regexp_for_one_client-sockets c id s =
      elim (Option-cases (find_first (is_client c.client) s.all_clients)) [
        | inl e ↦ rw (e, del_regexp_for_one_client) refl
        | inr (i, e) ↦
            rw (e, del_regexp_for_one_client)
              (sockets-update_first c.client _ s.all_clients (λ j. refl))
      ]
