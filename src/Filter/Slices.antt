-- ===== src/Filter/Slices.antt =====
-- src/ivybind.c: where the groups of a match lie.
use libivy.Base.{
  ℕ, zero, suc, ◌+◌, ◌-◌, ◌*◌, ◌≤◌, ◌<◌, ◌≡◌, refl, ◌⊎◌, inl, inr, ◌||◌, some, List, [], ◌∷◌, ◌==◌,
  ltb, leb, Bytes, length, read_at, arith, Bool-cases, some_inj, ap,
}
use libivy.Filter.Binding.{
  unset, int_max, Pcre, Binding, Slice, untouched, no_text, slice, outside, get_elem?, slice_of,
  slice_at, text_at, binding_exec, binding_match, groups_from, exec_groups,
}

-- What is documented of a match: it leaves two offsets for each pair, each of them in the message,
-- at its end, or unset; it sets as many pairs as there are at most.
pub record IsPcre {C : Type 0} (p : Pcre C) : Type 0 where
  pub offsets : (c : C) (message : Bytes) → length (p.match c message).1 ≡ 2 * p.pairs c
  pub in_message :
      (c : C) (message : Bytes) (i k : ℕ)
      → get_elem? (p.match c message).1 i ≡ some k
      → (k ≡ unset) ⊎ (k ≤ length message)
  pub sets : (c : C) (message : Bytes) → (p.match c message).0 ≤ p.pairs c

-- a slice that lies in the message, or none
abbrev pub LiesIn : Bytes → Slice → Type 0
LiesIn message untouched = ⊥
LiesIn message outside = ⊥
LiesIn message no_text = Unit
LiesIn message (slice start len) = (start + len ≤ length message) × (len ≤ int_max)

get_elem?-lt : (xs : List ℕ) (i : ℕ) → i < length xs → (x : ℕ) × (get_elem? xs i ≡ some x)
get_elem?-lt [] i h = absurd (omega arith)
get_elem?-lt (x ∷ xs) zero h = (x, refl)
get_elem?-lt (x ∷ xs) (suc i) h = get_elem?-lt xs i (omega arith)

slice_of-LiesIn :
    (message : Bytes) (start end : ℕ)
    → (start ≡ unset) ⊎ (start ≤ length message)
    → (end ≡ unset) ⊎ (end ≤ length message)
    → LiesIn message (slice_of start end)
unfolding slice_of
slice_of-LiesIn message start end s e =
    elim (Bool-cases
      (start == unset || (end == unset || (ltb end start || ltb int_max (end - start))))) [
        | inl t ↦ rw t tt
        | inr f ↦ rw f (ground arith, ground arith)
      ]

-- a part of the message
abbrev pub IsPart : Bytes → Bytes → Type 0
IsPart message g =
    (start : ℕ) × (len : ℕ) × (start + len ≤ length message) × (g ≡ read_at message start len)

abbrev pub AreParts : Bytes → List Bytes → Type 0
AreParts message [] = Unit
AreParts message (g ∷ gs) = IsPart message g × AreParts message gs

text_at-IsPart :
    (message : Bytes) (s : Slice) → LiesIn message s → IsPart message (text_at message s)
unfolding text_at
text_at-IsPart message untouched h = absurd h
text_at-IsPart message outside h = absurd h
text_at-IsPart message no_text h = (0, 0, omega arith, refl)
text_at-IsPart message (slice start len) h = (start, len, h.0, refl)

module _ {C : Type 0} (p : Pcre C) (ok : IsPcre p) where
  slice_at-LiesIn :
      (c : C) (message : Bytes) (argnum : ℕ)
      → argnum < p.pairs c
      → LiesIn message (slice_at (p.match c message).1 argnum)
  unfolding slice_at
  slice_at-LiesIn c message argnum h =
      let o = (p.match c message).1 in
      let l = ok.offsets c message in
      let (start, s) = get_elem?-lt o (2 * argnum) (omega arith) in
      let (end, e) = get_elem?-lt o (2 * argnum + 1) (omega arith) in
      rw (s, slice_at)
        (rw (e, slice_at)
          (slice_of-LiesIn message start end (ok.in_message c message (2 * argnum) start s)
            (ok.in_message c message (2 * argnum + 1) end e)))

  -- Whatever PCRE2 answers to a match, of what is documented: behind `IvyBindingExec` a call of
  -- `IvyBindingMatch` gives, for any number, a part of the message, of a length that an `int`
  -- holds, or no text, and reads no offset that is not there; where nothing matched it gives no
  -- text.
  pub binding_match-LiesIn :
      (b : Binding C) (message : Bytes) (argnum : ℕ)
      → let out = binding_exec p (some b) message in
        LiesIn message (binding_match p out.0 argnum)
        × ((0 < out.1) ⊎ (binding_match p out.0 argnum ≡ no_text))
  unfolding binding_exec binding_match
  binding_match-LiesIn b message argnum = elim (Bool-cases (ltb (p.match b.regexp message).0 1)) [
    | inl t ↦ rw t (tt, inr refl)
    | inr t ↦ elim (Bool-cases (leb (p.pairs b.regexp) argnum)) [
      | inl k ↦ rw t (rw t (rw k (tt, inr refl)))
      | inr k ↦
          rw t (
            rw t
              (rw k (slice_at-LiesIn b.regexp message argnum (ground arith), inl (ground arith))))
    ]
  ]

  groups_from-AreParts :
      (rounds indx : ℕ) (b : Binding C) (message : Bytes)
      → let out = binding_exec p (some b) message in
        AreParts message (groups_from p rounds indx message out.0)
        × (length (groups_from p rounds indx message out.0) ≡ rounds)
  unfolding groups_from
  groups_from-AreParts zero indx b message = (tt, refl)
  groups_from-AreParts (suc rounds) indx b message =
      let r = groups_from-AreParts rounds (indx + 1) b message in
      ((text_at-IsPart message _ (binding_match-LiesIn b message indx).0, r.0), omega (arith, r.1))

  -- Whatever PCRE2 answers to a match, of what is documented: what `RegexpCall` sends for a message
  -- that matches is as many groups as `IvyBindingExec` answers, less one for the whole
  -- match, each a part of the message.
  exec_groups-AreParts :
      (b : Binding C) (message : Bytes) (gs : List Bytes)
      → exec_groups p (some b) message ≡ some gs
      → AreParts message gs × (length gs + 1 ≡ (binding_exec p (some b) message).1)
  unfolding exec_groups
  exec_groups-AreParts b message gs h =
      elim (Bool-cases (ltb (binding_exec p (some b) message).1 1)) [
        | inl t ↦ cc
        | inr t ↦
            let out = binding_exec p (some b) message in
            let r = groups_from-AreParts (out.1 - 1) 1 b message in
            let e : groups_from p (out.1 - 1) 1 message out.0 ≡ gs = some_inj (rw t at h) in
            (rw (← e) r.0, ground (arith, ap length e, r.1))
      ]
