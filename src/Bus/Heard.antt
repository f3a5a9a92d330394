-- ===== src/Bus/Heard.antt =====
-- The agents that are connected and not ignored, and what leaves them so.
use libivy.Base.{
  ℕ, ◌≡◌, refl, sym, ap, ◌∙◌, Bool, false, Option, none, some, List, [], ◌∷◌, ◌==◌, if◌then◌else◌,
  Bytes, find_first, update_first, arith, Bool-cases, inl, inr, Option-cases, some_inj,
}
use libivy.Registry.{IvyClient, Library, Store, Effect, is_client}
use libivy.Registry.Clients.{added, add_regexp, change_regexp, same_first_id, add_or_change_regexp}
use libivy.Bus.Connected.{sockets}

abbrev pub mark : IvyClient → ℕ × Bool
mark i = (i.client, i.ignore_subsequent_msg)

-- the sockets of a list of clients, and whether they are ignored
abbrev pub marks : List IvyClient → List (ℕ × Bool)
marks [] = []
marks (i ∷ l) = mark i ∷ marks l

abbrev pub mark_of : ℕ → List (ℕ × Bool) → Option Bool
mark_of c [] = none
mark_of c ((s, m) ∷ l) = let rest = mark_of c l in if s == c then some m else rest

-- A client with this socket is in the list, and the first one of them is not ignored.
abbrev pub IsHeard : ℕ → List IvyClient → Type 0
IsHeard c l = mark_of c (marks l) ≡ some false

pub heard :
    (c : ℕ) (l : List IvyClient)
    → IsHeard c l
    → (i : IvyClient) × (find_first (is_client c) l ≡ some i)
      × (i.client ≡ c)
      × (i.ignore_subsequent_msg ≡ false)
heard c [] h = absurd (cc h)
heard c (i ∷ l) h = elim (Bool-cases (is_client c i)) [
  | inl e ↦ rw e (i, refl, grind arith, some_inj (rw e at h))
  | inr e ↦ rw e (heard c l (rw e at h))
]

pub marks-update_first :
    (c : ℕ) (f : IvyClient → IvyClient) (l : List IvyClient)
    → ((i : IvyClient) → mark (f i) ≡ mark i)
    → marks (update_first (is_client c) f l) ≡ marks l
marks-update_first c f [] h = refl
marks-update_first c f (i ∷ l) h = elim (Bool-cases (is_client c i)) [
  | inl e ↦ rw e (ap (λ m. m ∷ marks l) (h i))
  | inr e ↦ rw e (ap (λ r. mark i ∷ r) (marks-update_first c f l h))
]

-- where it returns, no client is connected, disconnected or ignored
unfoldable pub KeepsMarks : {B : Type 0} → Store B → Option (Store B × List Effect) → Type 0
KeepsMarks s none = Unit
KeepsMarks s (some (s', _)) = marks s'.all_clients ≡ marks s.all_clients

module _ {B : Type 0} (lib : Library B) where
  add_regexp-KeepsMarks :
      (k : Bytes) (c : IvyClient) (s : Store B) → KeepsMarks s (add_regexp lib k c s)
  unfolding add_regexp added KeepsMarks
  add_regexp-KeepsMarks k c s =
      elim (Option-cases (find_first (is_client c.client) s.all_clients)) [
        | inl e ↦ rw (e, add_regexp) tt
        | inr (i, e) ↦ rw (e, add_regexp) (marks-update_first c.client _ s.all_clients (λ j. refl))
      ]

  pub add_or_change_regexp-KeepsMarks :
      (k : Bytes) (c : IvyClient) (s : Store B) → KeepsMarks s (add_or_change_regexp lib k c s)
  unfolding add_or_change_regexp change_regexp KeepsMarks
  add_or_change_regexp-KeepsMarks k c s = elim (Option-cases (lib.hash_find k s.dictionary)) [
    | inl e ↦ rw (e, add_or_change_regexp) (add_regexp-KeepsMarks k c s)
    | inr (e, a) ↦
        rw (a, add_or_change_regexp)
          (elim (Bool-cases (same_first_id c e.client_list)) [
            | inl t ↦ rw t (marks-update_first c.client _ s.all_clients (λ j. refl))
            | inr t ↦ rw t (add_regexp-KeepsMarks k c s)
          ])
  ]

abbrev firsts : List (ℕ × Bool) → List ℕ
firsts [] = []
firsts ((s, _) ∷ m) = s ∷ firsts m

firsts-marks : (m : List IvyClient) → firsts (marks m) ≡ sockets m
firsts-marks [] = refl
firsts-marks (i ∷ m) = ap (λ r. i.client ∷ r) (firsts-marks m)

-- the sockets are among the marks
pub marks-sockets : (l l' : List IvyClient) → marks l' ≡ marks l → sockets l' ≡ sockets l
marks-sockets l l' h = sym (firsts-marks l') ∙ ap firsts h ∙ firsts-marks l
