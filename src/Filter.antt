-- ===== src/Filter.antt =====
-- src/ivybind.c: the classes of messages that an application says it sends, by which the regexps
-- of others are filtered.
pub mod Classes
pub mod Binding
pub mod Slices
pub mod Tests
use libivy.Base.{
  ℕ, Bool, true, false, not, ◌&&◌, Option, none, some, List, [], ◌∷◌, ◌==◌, if◌then◌else◌, Bytes,
  bytes_eq, remove_if, find_first,
}

-- `messages_classes`, and whether `token_extract` is there. The regexp that it is compiled from
-- takes the word behind a `^`; what it finds in an expression is the argument `token_of` below.
pub record Filter : Type 0 where
  pub words : List Bytes
  pub has_extract : Bool

-- `IvyBindingAddFilter`, with NULL as `none`
unfoldable pub add_filter : Option Bytes → Filter → Filter
add_filter none f = record f { has_extract = true }
add_filter (some arg) f = record { words = arg ∷ f.words; has_extract = true }

-- `IvyBindingSetFilter`
unfoldable pub set_filter : List Bytes → Filter → Filter
set_filter [] f = f
set_filter (arg ∷ argv) f = set_filter argv (add_filter (some arg) f)

-- `IvyBindingRemoveFilter`
unfoldable pub remove_filter : Bytes → Filter → Filter
remove_filter arg f = record f { words = remove_if (bytes_eq arg) f.words }

-- `strncmp (word, token, tokenlen) == 0`, for the token of that length
unfoldable pub starts_with : Bytes → Bytes → Bool
starts_with [] word = true
starts_with (c ∷ token) [] = false
starts_with (c ∷ token) (d ∷ word) = c == d && starts_with token word

unfoldable pub is_anchored : Bytes → Bool
is_anchored [] = false
is_anchored (c ∷ _) = c == b'^'

abbrev pub is_some {ℓ} : {A : Type ℓ} → Option A → Bool
is_some none = false
is_some (some _) = true

abbrev pub has_words : List Bytes → Bool
has_words [] = false
has_words (_ ∷ _) = true

-- `IvyBindingExec` and `IvyBindingMatch` of `token_extract`
unfoldable pub extract : (Bytes → Option Bytes) → Filter → Bytes → Option Bytes
extract token_of f expression = if f.has_extract then token_of expression else none

-- `IvyBindingFilter`
unfoldable pub binding_filter : (Bytes → Option Bytes) → Bytes → Filter → Bool
binding_filter token_of expression f =
    if is_anchored expression && has_words f.words
    then elim (extract token_of f expression) [
      | none ↦ true
      | some token ↦ is_some (find_first (starts_with token) f.words)
    ]
    else true

-- `IvyBindindFilterCheck`: whether it warns
unfoldable pub filter_check : Bytes → Filter → Bool
filter_check message f = not (is_some (find_first (λ word. bytes_eq word message) f.words))

-- `IvyBindingTerminate`
unfoldable pub terminate : Filter → Filter
terminate f = record { words = []; has_extract = false }
