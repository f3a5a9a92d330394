-- ===== src/Registry/Tests.antt =====
-- Two agents, of which one is subscribed twice, over a table that keeps its entries in a list.
use libivy.Base.{
  replicate, length-replicate, ℕ, ◌≡◌, refl, false, true, none, some, List, [], ◌∷◌, ◌++◌, Bytes,
  remove_if, remove_first, find_first, bytes_eq, arith,
}
use libivy.Registry.{
  Reg, IvyClient, Entry, Library, Store, has_key, is_of_client, is_subscription, is_client,
  subscriber,
}
use libivy.Registry.Clients.{add_or_change_regexp, del_one_client, added}
use libivy.Registry.Views.{IsLibrary, subscribers, IsDictionary}
use libivy.Registry.Leaving.{IsDistinctFor, del_one_client_lem}
use libivy.Registry.Change.{
  Renews, add_or_change_regexp-Renews, change_keeps_old, change_then_leave_faults,
}
use libivy.Registry.Cache.{Cache, Change, changed, appended, change_all}
use libivy.Registry.Mirror.{Holds, change_all-Mirrors}

-- a compiled regexp is its text
abbrev pub table : Library Bytes
table = record {
  hash_find = λ k d. find_first (has_key k) d;
  hash_add = λ e d. d ++ (e ∷ []);
  hash_del = λ k d. remove_first (has_key k) d;
  compile = λ r. some r;
}

pub table-IsLibrary : IsLibrary table
table-IsLibrary = record { finds = λ k d. refl; adds = λ e d. refl; dels = λ k d. refl }

abbrev pub hello : Bytes
hello = (b'a' ∷ [])

abbrev pub other : Bytes
other = (b'b' ∷ [])

abbrev agent : ℕ → ℕ → List Reg → IvyClient
agent socket id regs = record {
  client = socket;
  app_name = (b'x' ∷ []);
  app_port = 2010;
  id = id;
  src_reg_list = regs;
  ready_to_send = 0;
  ignore_subsequent_msg = false;
  ping_stamp = 0;
  ping_id = 0;
}

abbrev pub ann : IvyClient
ann = agent 5 1 (record { id = 1; str_regexp = hello } ∷ record { id = 2; str_regexp = other } ∷ [])

abbrev pub bob : IvyClient
bob = agent 6 1 (record { id = 1; str_regexp = other } ∷ [])

abbrev pub entries : List (Entry Bytes)
entries =
    record { regexp_src = hello; client_list = subscriber ann ∷ []; binding = some hello }
    ∷ record {
      regexp_src = other;
      client_list = subscriber bob ∷ subscriber (record ann { id = 2 }) ∷ [];
      binding = some other;
    }
    ∷ []

abbrev pub bus : Store Bytes
bus = record { all_clients = bob ∷ ann ∷ []; dictionary = entries; has_bind_callback = true }

other-hello : bytes_eq other hello ≡ false
unfolding bytes_eq
other-hello = refl

ann-hello : find_first (is_subscription 5 1) (subscribers entries hello) ≡ some (subscriber ann)
unfolding subscribers subscriber bytes_eq
ann-hello = refl

pub entries-IsDictionary : IsDictionary entries
entries-IsDictionary = (rw other-hello, (λ e. cc), (refl, (λ e. cc), tt))

bus-IsDistinctFor : IsDistinctFor 5 bus.all_clients
bus-IsDistinctFor = ((λ e. cc), ((λ e. ((refl, (refl, tt)), refl)), tt))

del_one_client_lem_example :
    (s' : Store Bytes) × (del_one_client table 5 bus ≡ some s')
    × ((j : Bytes)
        → subscribers s'.dictionary j ≡ remove_if (is_of_client 5) (subscribers entries j))
    × (s'.all_clients ≡ remove_first (is_client 5) bus.all_clients)
    × IsDictionary s'.dictionary
del_one_client_lem_example =
    del_one_client_lem table-IsLibrary 5 bus bus-IsDistinctFor entries-IsDictionary

add_or_change_regexp-Renews_example :
    Renews table-IsLibrary hello bob entries (add_or_change_regexp table hello bob bus)
add_or_change_regexp-Renews_example =
    add_or_change_regexp-Renews table-IsLibrary hello bob bob bus entries-IsDictionary refl

change_keeps_old_example :
    (r : Renews table-IsLibrary other ann entries (add_or_change_regexp table other ann bus))
    × (find_first (is_subscription 5 1) (subscribers r.store.dictionary hello)
        ≡ some (subscriber ann))
    × (find_first (is_subscription 5 1) (subscribers r.store.dictionary other)
        ≡ some (subscriber ann))
change_keeps_old_example =
    change_keeps_old table-IsLibrary hello other ann ann bus entries-IsDictionary refl other-hello
      ann-hello

change_then_leave_faults_example : del_one_client table 5 (added table other ann bus) ≡ none
change_then_leave_faults_example =
    change_then_leave_faults table-IsLibrary other ann ann (record { id = 1; str_regexp = hello })
      (record { id = 2; str_regexp = other } ∷ []) bus refl refl refl

abbrev cleared : List ℕ → ℕ → List ℕ
cleared a n = replicate n 0

-- an entry of a client that has not ended yet, a regeneration, and one of a client that has
abbrev entered : List (Change ℕ)
entered = appended false 5 ∷ changed (7 ∷ 8 ∷ []) ∷ appended true 9 ∷ []

change_all-Mirrors_example :
    (c' : Cache ℕ) × (change_all cleared entered
        ([], record { msg_ptr_array = []; size = 0; num_ptr = 0 })
      ≡ some (7 ∷ 8 ∷ 9 ∷ [], c'))
    × Holds true (7 ∷ 8 ∷ 9 ∷ []) c'
change_all-Mirrors_example =
    change_all-Mirrors cleared (λ a n. length-replicate {A = ℕ} n 0) entered true []
      (record { msg_ptr_array = []; size = 0; num_ptr = 0 })
      (record {
        in_size = refl;
        mirrors =
            λ t. record { entries = refl; sized = refl; counts = refl; in_array = omega arith };
      })
