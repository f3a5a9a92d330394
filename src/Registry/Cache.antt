-- ===== src/Registry/Cache.antt =====
-- src/ivy.c, with OPENMP: `ompDictCache`, an array of the entries of the dictionary, over which
-- `IvySendMsg` runs in place of the dictionary. An entry is a value of the type `A`.
use libivy.Base.{
  ℕ, ◌+◌, ◌-◌, ◌*◌, Bool, true, false, Option, none, some, ◌>>=◌, List, [], ◌∷◌, ◌++◌, length, take,
  drop, leb, ltb, if◌then◌else◌,
}

-- `ompDictCache`; the array is as long as `size` says
pub record Cache (A : Type 0) : Type 0 where
  pub msg_ptr_array : List A
  pub size : ℕ
  pub num_ptr : ℕ

-- What happens to the dictionary with the cache: any change behind which it is regenerated, as at a
-- message EndRegexp and where entries are removed, and a new entry behind the others, of a client
-- that has sent its EndRegexp or has not (`endRegexpReceived`).
pub data Change (A : Type 0) : Type 0 where
  changed : List A → Change A
  appended : Bool → A → Change A

module _ {A : Type 0} where
  -- `a [i] = x`, none outside of the array
  unfoldable pub put_at : List A → ℕ → A → Option (List A)
  put_at a i x = if ltb i (length a) then some (take i a ++ (x ∷ drop (i + 1) a)) else none

  -- the loop that fills the array from `count` on
  unfoldable pub fill_from : ℕ → List A → List A → Option (List A)
  fill_from count [] a = some a
  fill_from count (e ∷ dict) a = put_at a count e >>= λ a'. fill_from (count + 1) dict a'

  module _ (realloc : List A → ℕ → List A) where
    -- the part of both functions that counts, and makes room
    unfoldable pub counted : List A → Cache A → Cache A
    counted dict c =
        let n = length dict in
        if leb c.size n
        then record {
          msg_ptr_array = realloc c.msg_ptr_array (n * 2 + 128);
          size = n * 2 + 128;
          num_ptr = n;
        }
        else record c { num_ptr = n }

    -- `regenerateRegPtrArrayCache`
    unfoldable pub regenerate : List A → Cache A → Option (Cache A)
    regenerate dict c =
        let c' = counted dict c in
        fill_from 0 dict c'.msg_ptr_array >>= λ a. some (record c' { msg_ptr_array = a })

    -- `addRegToPtrArrayCache`, of an entry that is in the dictionary already
    unfoldable pub add_reg : A → List A → Cache A → Option (Cache A)
    add_reg e dict c =
        let c' = counted dict c in
        (if leb c.size (length dict)
          then fill_from 0 dict c'.msg_ptr_array
          else put_at c'.msg_ptr_array (length dict - 1) e)
        >>= λ a. some (record c' { msg_ptr_array = a })

    unfoldable pub change : Change A → List A × Cache A → Option (List A × Cache A)
    change (changed dict) s = regenerate dict s.1 >>= λ c. some (dict, c)
    change (appended false e) s = some (s.0 ++ (e ∷ []), s.1)
    change (appended true e) s =
        let dict = s.0 ++ (e ∷ []) in add_reg e dict s.1 >>= λ c. some (dict, c)

    unfoldable pub change_all : List (Change A) → List A × Cache A → Option (List A × Cache A)
    change_all [] s = some s
    change_all (c ∷ changes) s = change c s >>= λ s'. change_all changes s'
