-- ===== src/Registry.antt =====
-- src/ivy.c: the agents on the bus and the dictionary of the regexps that they have asked for.
-- A `Client` is the number of its socket; an id is the bit pattern of the `int`.
pub mod Views
pub mod Clients
pub mod Dictionary
pub mod Departure
pub mod Keeping
pub mod Leaving
pub mod Change
pub mod Cache
pub mod Mirror
pub mod Tests
use libivy.Base.{
  ℕ, ◌+◌, ◌≡◌, Bool, true, false, ◌&&◌, Option, none, some, ◌>>=◌, List, [], ◌∷◌, ◌++◌, ◌==◌,
  if◌then◌else◌, Bytes, bytes_eq, remove_if, find_first, update_first, zero, suc, length,
}

-- `struct _global_reg_lst`
pub record Reg : Type 0 where
  pub id : ℕ
  pub str_regexp : Bytes

-- `struct _clnt_lst_dict`, as an element of `allClients`. The time of the last ping is in
-- microseconds, 0 where the timer is clear.
pub record IvyClient : Type 0 where
  pub client : ℕ
  pub app_name : Bytes
  pub app_port : ℕ
  pub id : ℕ
  pub src_reg_list : List Reg
  pub ready_to_send : ℕ
  pub ignore_subsequent_msg : Bool
  pub ping_stamp : ℕ
  pub ping_id : ℕ

-- `struct _clnt_lst_dict`, as an element of a `clientList` of the dictionary: the fields that
-- `addRegexpToDictionary` fills.
pub record Subscriber : Type 0 where
  pub client : ℕ
  pub app_name : Bytes
  pub app_port : ℕ
  pub id : ℕ

-- `struct _msg_snd_dict`. `B` is what the regexp compiler makes; a regexp that it refuses has no
-- binding and stays in the dictionary.
pub record Entry (B : Type 0) : Type 0 where
  pub regexp_src : Bytes
  pub client_list : List Subscriber
  pub binding : Option B

-- What the code takes from uthash and from ivybind.c: the calls HASH_FIND_STR, HASH_ADD_KEYPTR and
-- HASH_DEL on the entries in the order of `hh.next`, and `IvyBindingCompile`.
pub record Library (B : Type 0) : Type 0 where
  pub hash_find : Bytes → List (Entry B) → Option (Entry B)
  pub hash_add : Entry B → List (Entry B) → List (Entry B)
  pub hash_del : Bytes → List (Entry B) → List (Entry B)
  pub compile : Bytes → Option B

-- `IvyBindEvent`
pub data BindEvent : Type 0 where
  add_bind remove_bind filter_bind change_bind : BindEvent

-- What the functions do outside their own data: a message `Error` to a client about a regexp that
-- does not compile, and a call of the bind callback for a client, an id and a regexp.
pub data Effect : Type 0 where
  error_sent : ℕ → Bytes → Effect
  bind_called : BindEvent → ℕ → ℕ → Bytes → Effect

-- `allClients`, `messSndByRegexp`, and whether `application_bind_callback` is set.
pub record Store (B : Type 0) : Type 0 where
  pub all_clients : List IvyClient
  pub dictionary : List (Entry B)
  pub has_bind_callback : Bool

abbrev pub is_client : ℕ → IvyClient → Bool
is_client c i = i.client == c

-- the tests of the two loops that take a client from an entry
abbrev pub is_subscription : ℕ → ℕ → Subscriber → Bool
is_subscription c id s = s.client == c && s.id == id

abbrev pub is_of_client : ℕ → Subscriber → Bool
is_of_client c s = s.client == c

abbrev pub has_id : ℕ → Reg → Bool
has_id id r = r.id == id

abbrev pub has_key : {B : Type 0} → Bytes → Entry B → Bool
has_key k e = bytes_eq e.regexp_src k

abbrev pub is_nil {ℓ} : {A : Type ℓ} → List A → Bool
is_nil [] = true
is_nil (_ ∷ _) = false

unfoldable pub subscriber : IvyClient → Subscriber
subscriber c = record { client = c.client; app_name = c.app_name; app_port = c.app_port; id = c.id }

abbrev pub bind_effect : Bool → BindEvent → IvyClient → Bytes → List Effect
bind_effect set event c regexp = if set then bind_called event c.client c.id regexp ∷ [] else []

module _ {B : Type 0} (lib : Library B) where
  open lib use {hash_find, hash_add, hash_del, compile}

  -- the common end of the two functions below: an entry with no client leaves the dictionary
  pub with_clients : Bytes → List Subscriber → List (Entry B) → List (Entry B)
  with_clients regexp clients dict =
      if is_nil clients
      then hash_del regexp dict
      else update_first (has_key regexp) (λ e. record e { client_list = clients }) dict

  -- `delOneIvyClientFromDictionaryEntry`
  pub del_one_ivy_client_from_entry : Entry B → IvyClient → List (Entry B) → List (Entry B)
  del_one_ivy_client_from_entry e c dict =
      with_clients e.regexp_src (remove_if (is_subscription c.client c.id) e.client_list) dict

  -- `delOneClientFromDictionaryEntry`
  pub del_one_client_from_entry : Entry B → ℕ → List (Entry B) → List (Entry B)
  del_one_client_from_entry e c dict =
      with_clients e.regexp_src (remove_if (is_of_client c) e.client_list) dict

  -- `delRegexpForOneClientFromDictionary`
  pub del_regexp_from_dictionary : Bytes → IvyClient → List (Entry B) → List (Entry B)
  del_regexp_from_dictionary regexp c dict = elim (hash_find regexp dict) [
    | none ↦ dict
    | some e ↦ del_one_ivy_client_from_entry e c dict
  ]

  -- the dictionary of `addRegexpToDictionary` once the entry is there
  pub with_entry : Bytes → List (Entry B) → List (Entry B)
  with_entry regexp dict = elim (hash_find regexp dict) [
    | none ↦
        hash_add (record { regexp_src = regexp; client_list = []; binding = compile regexp }) dict
    | some e ↦ dict
  ]

  -- `addRegexpToDictionary`
  pub add_regexp_to_dictionary : Bytes → IvyClient → List (Entry B) → List (Entry B)
  add_regexp_to_dictionary regexp c dict =
      update_first (has_key regexp) (λ e. record e { client_list = subscriber c ∷ e.client_list })
        (with_entry regexp dict)

  -- the message `Error` that `addRegexpToDictionary` sends
  pub add_effects : Bytes → IvyClient → List (Entry B) → List Effect
  add_effects regexp c dict = elim (hash_find regexp dict) [
    | none ↦ elim (compile regexp) [ none ↦ error_sent c.client regexp ∷ [] | some b ↦ [] ]
    | some e ↦ []
  ]

  -- `changeRegexpInDictionary`
  pub change_regexp_in_dictionary : Bytes → IvyClient → List (Entry B) → List (Entry B)
  change_regexp_in_dictionary regexp c dict =
      add_regexp_to_dictionary regexp c (del_regexp_from_dictionary regexp c dict)
