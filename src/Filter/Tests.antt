-- ===== src/Filter/Tests.antt =====
-- Two classes, of which one is taken away again.
use libivy.Base.{
  ℕ, zero, suc, ◌<◌, ◌≤◌, ◌⊎◌, inl, inr, length, arith, ◌≡◌, refl, true, false, Option, none, some,
  List, [], ◌∷◌, Bytes, bytes_eq,
}
use libivy.Filter.{
  Filter, add_filter, set_filter, starts_with, is_anchored, extract, binding_filter, filter_check,
}
use libivy.Filter.Binding.{
  Pcre, compiled, Binding, unset, no_text, get_elem?, binding_exec, binding_match,
}
use libivy.Filter.Slices.{IsPcre, LiesIn, binding_match-LiesIn}
use libivy.Filter.Classes.{Lists}

abbrev empty : Filter
empty = record { words = []; has_extract = false }

abbrev classes : List Bytes
classes = (b'a' ∷ b'b' ∷ []) ∷ (b'c' ∷ b'd' ∷ []) ∷ []

-- takes the two characters behind the `^`
abbrev token_of : Bytes → Option Bytes
token_of (x ∷ a ∷ b ∷ _) = some (a ∷ b ∷ [])
token_of _ = none

binding_filter-classes :
    (binding_filter token_of
        (b'^' ∷ b'c' ∷ b'd' ∷ b' ' ∷ b'(' ∷ b'.' ∷ b'*' ∷ b')' ∷ [])
        (set_filter classes empty)
      ≡ true)
    × (binding_filter token_of
          (b'^' ∷ b'x' ∷ b'y' ∷ b' ' ∷ b'(' ∷ b'.' ∷ b'*' ∷ b')' ∷ [])
          (set_filter classes empty)
        ≡ false)
    × (binding_filter token_of
          (b'x' ∷ b'y' ∷ b' ' ∷ b'(' ∷ b'.' ∷ b'*' ∷ b')' ∷ [])
          (set_filter classes empty)
        ≡ true)
unfolding binding_filter extract is_anchored set_filter add_filter starts_with
binding_filter-classes = (refl, refl, refl)

Lists-classes : Lists (b'c' ∷ b'd' ∷ []) classes
unfolding starts_with
Lists-classes = refl

longer_is_warned :
    filter_check
      (b'a' ∷ b'b' ∷ b' ' ∷ b'x' ∷ [])
      (record { words = (b'a' ∷ b'b' ∷ []) ∷ []; has_extract = true })
    ≡ true
unfolding filter_check bytes_eq
longer_is_warned = refl

-- An engine with one regexp, of three groups, the last of which is never set.
abbrev pcre : Pcre ℕ
pcre = record {
  compile = λ expression. compiled 3;
  pairs = λ c. 3;
  match = λ c message. (2, 0 ∷ length message ∷ 0 ∷ length message ∷ unset ∷ unset ∷ []);
}

pcre-IsPcre : IsPcre pcre
pcre-IsPcre = record {
  offsets = λ c message. refl;
  in_message = in_message;
  sets = λ c message. omega arith;
}
  where
    in_message :
        (c : ℕ) (message : Bytes) (i k : ℕ)
        → get_elem? (pcre.match c message).1 i ≡ some k
        → (k ≡ unset) ⊎ (k ≤ length message)
    in_message c message zero k h = inr (ground arith)
    in_message c message (suc zero) k h = inr (ground arith)
    in_message c message (suc (suc zero)) k h = inr (ground arith)
    in_message c message (suc (suc (suc zero))) k h = inr (ground arith)
    in_message c message (suc (suc (suc (suc zero)))) k h = inl (ground arith)
    in_message c message (suc (suc (suc (suc (suc zero))))) k h = inl (ground arith)
    in_message c message (suc (suc (suc (suc (suc (suc i)))))) k h = cc

abbrev bound : Binding ℕ
bound = record { regexp = 7; ovector = []; nb_match = 0 }

abbrev hi : Bytes
hi = b'h' ∷ b'i' ∷ []

binding_match-LiesIn_example :
    let out = binding_exec pcre (some bound) hi in
    LiesIn hi (binding_match pcre out.0 2) × ((0 < out.1) ⊎ (binding_match pcre out.0 2 ≡ no_text))
binding_match-LiesIn_example = binding_match-LiesIn pcre pcre-IsPcre bound hi 2
