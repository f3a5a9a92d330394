-- ===== src/Socket/Descriptors.antt =====
-- src/ivysocket.c: the open descriptors, and the clients and servers that they belong to.
use libivy.Base.{
  ℕ, ◌+◌, ◌≤◌, ◌<◌, ◌≡◌, refl, ap, sym, ◌∙◌, Bool, true, false, Option, none, some, List, [], ◌∷◌,
  ◌==◌, if◌then◌else◌, arith, Bytes, take, find_first, remove_first, update_first, Bool-cases,
  Option-cases, inl, inr, some_inj, >>=-eq-some,
}
use libivy.Loop.{Channel, Request, Loop, channel_delete}
use libivy.Socket.Sockets.{
  Conn, Server, Sockets, is_conn, is_server, is_fd, open_fd, close_fd, link_client, handle_server,
  socket_server, made, null, socket_connect_addr, socket_broadcast_create, DeleteCall,
  delete_socket, delete_server_socket, delete_channel, socket_close, socket_set_uuid, uuid_size,
}

module _ {A : Type 0} (f : A → ℕ) where
  -- how many members of a list have the number
  abbrev pub count_of : ℕ → List A → ℕ
  count_of x [] = 0
  count_of x (a ∷ xs) = (if f a == x then 1 else 0) + count_of x xs

  count_of-remove_first :
      (p : A → Bool) (x : ℕ) (xs : List A) (a : A)
      → find_first p xs ≡ some a
      → count_of x (remove_first p xs) + (if f a == x then 1 else 0) ≡ count_of x xs
  count_of-remove_first p x [] a h = cc
  count_of-remove_first p x (b ∷ xs) a h = elim (Bool-cases (p b)) [
    | inl e ↦ let k : b ≡ a = some_inj (rw e at h) in rw e (rw k (omega arith))
    | inr e ↦ let r = count_of-remove_first p x xs a (rw e at h) in rw e (omega (arith, r))
  ]

  count_of-update_first :
      (p : A → Bool) (g : A → A) (x : ℕ) (xs : List A)
      → ((a : A) → f (g a) ≡ f a)
      → count_of x (update_first p g xs) ≡ count_of x xs
  count_of-update_first p g x [] h = refl
  count_of-update_first p g x (a ∷ xs) h = elim (Bool-cases (p a)) [
    | inl e ↦ rw e (rw (h a) refl)
    | inr e ↦ rw e (ap (λ n. (if f a == x then 1 else 0) + n) (count_of-update_first p g x xs h))
  ]

abbrev pub count_fd : ℕ → List ℕ → ℕ
count_fd = count_of (λ x. x)

-- a descriptor that is closed is one less
count_fd-remove_first :
    (fd x : ℕ) (l : List ℕ)
    → 0 < count_fd fd l
    → count_fd x (remove_first (is_fd fd) l) + (if fd == x then 1 else 0) ≡ count_fd x l
count_fd-remove_first fd x [] h = absurd (omega arith)
count_fd-remove_first fd x (y ∷ l) h = elim (Bool-cases (y == fd)) [
  | inl e ↦ rw e (ground arith)
  | inr e ↦ let r = count_fd-remove_first fd x l (ground arith) in rw e (omega (arith, r))
]

abbrev pub owners : ℕ → Sockets → ℕ
owners x s =
    count_of (λ (c : Conn). c.fd) x s.clients_list
    + count_of (λ (c : Server). c.fd) x s.servers_list

-- Every open descriptor is that of exactly one client or server, and each of these has one that is
-- open and its own.
pub record IsOwned (s : Sockets) : Type 0 where
  pub owned : (x : ℕ) → count_fd x s.opened ≡ owners x s
  pub once : (x : ℕ) → count_fd x s.opened ≤ 1

-- A step of the program that returns, where the system gives a descriptor that is not open.
pub data Step : Sockets → Sockets → Type 0 where
  accepts :
      {s s' : Sockets} (create : ℕ → ℕ × List Request) (server : Server) (fd peer : ℕ)
      (no_delay : Bool)
      → count_fd fd s.opened ≡ 0
      → handle_server create server (some (fd, peer)) no_delay s ≡ some s'
      → Step s s'
  serves :
      {s s' : Sockets} (ipv6 : Bool) (fd : ℕ) (listens : Bool) (port node : ℕ)
      → count_fd fd s.opened ≡ 0
      → socket_server ipv6 (some fd) listens port s ≡ some (node, s')
      → Step s s'
  connects :
      {s s' : Sockets} (ipv6 has_delete : Bool) (user_data : Option ℕ) (fd : ℕ) (ok no_delay : Bool)
      (node : ℕ)
      → count_fd fd s.opened ≡ 0
      → socket_connect_addr ipv6 has_delete user_data (some fd) ok no_delay s ≡ made node s'
      → Step s s'
  broadcasts :
      {s s' : Sockets} (ipv6 : Bool) (user_data : Option ℕ) (fd : ℕ) (binds : Bool) (node : ℕ)
      → count_fd fd s.opened ≡ 0
      → socket_broadcast_create ipv6 user_data (some fd) binds s ≡ made node s'
      → Step s s'
  deletes :
      {s s' : Sockets} (of_server : Bool) (c : Channel) (calls : List DeleteCall)
      → delete_channel of_server c s ≡ some (s', calls)
      → Step s s'
  closes : {s : Sockets} (node : Option ℕ) → Step s (socket_close node s)
  names : {s : Sockets} (node : ℕ) (uuid : Bytes) → Step s (socket_set_uuid node uuid s)

pub data Steps (s : Sockets) : Sockets → Type 0 where
  done : Steps s s
  more : {t u : Sockets} → Steps s t → Step t u → Steps s u

grown_once :
    (fd x : ℕ) (l : List ℕ)
    → count_fd fd l ≡ 0
    → count_fd x l ≤ 1
    → (if fd == x then 1 else 0) + count_fd x l ≤ 1
grown_once fd x l h k = elim (Bool-cases (fd == x)) [
  | inl e ↦
      let same : fd ≡ x = ground arith in
      let z : count_fd x l ≡ 0 = ap (λ y. count_fd y l) (sym same) ∙ h in rw e (omega arith)
  | inr e ↦ rw e (omega arith)
]

link_client-IsOwned :
    (c : Conn) (requests : List Request) (s : Sockets)
    → IsOwned s
    → count_fd c.fd s.opened ≡ 0
    → IsOwned (link_client c requests (open_fd c.fd s))
unfolding link_client open_fd
link_client-IsOwned c requests s i h = record {
  owned = λ x. omega (arith, i.owned x);
  once = λ x. grown_once c.fd x s.opened h (i.once x);
}

-- a descriptor taken away with a client or a server that has it
closed-IsOwned :
    (fd : ℕ) (s t : Sockets)
    → IsOwned s
    → t.opened ≡ remove_first (is_fd fd) s.opened
    → ((x : ℕ) → owners x t + (if fd == x then 1 else 0) ≡ owners x s)
    → IsOwned t
closed-IsOwned fd s t i o h =
    let one : ◌≡◌ {A = ℕ} (if fd == fd then 1 else 0) 1 = ground arith in
    let r = λ (x : ℕ). count_fd-remove_first fd x s.opened (omega (arith, h fd, i.owned fd, one)) in
    record {
      owned = λ x. rw o (omega (arith, h x, i.owned x, r x));
      once = λ x. rw o (omega (arith, i.once x, r x));
    }

delete_socket-IsOwned :
    (node : ℕ) (s s' : Sockets) (calls : List DeleteCall)
    → IsOwned s
    → delete_socket node s ≡ some (s', calls)
    → IsOwned s'
unfolding delete_socket close_fd
delete_socket-IsOwned node s s' calls i h =
    elim (Option-cases (find_first (is_conn node) s.clients_list)) [
      | inl e ↦ let z = rw (e, delete_socket) at h in cc
      | inr (c, e) ↦
          let t = record (close_fd c.fd s) {
            clients_list = remove_first (is_conn node) s.clients_list;
          } in
          let z : t ≡ s' =
            ap (λ (p : Sockets × List DeleteCall). p.0) (some_inj (rw (e, delete_socket) at h)) in
          rw (← z) (
            closed-IsOwned c.fd s t i refl (λ x. omega (
              arith,
              count_of-remove_first (λ (a : Conn). a.fd) (is_conn node) x s.clients_list c e,
            )))
    ]

delete_server_socket-IsOwned :
    (node : ℕ) (s s' : Sockets) (calls : List DeleteCall)
    → IsOwned s
    → delete_server_socket node s ≡ some (s', calls)
    → IsOwned s'
unfolding delete_server_socket close_fd
delete_server_socket-IsOwned node s s' calls i h =
    elim (Option-cases (find_first (is_server node) s.servers_list)) [
      | inl e ↦ let z = rw (e, delete_server_socket) at h in cc
      | inr (c, e) ↦
          let t = record (close_fd c.fd s) {
            servers_list = remove_first (is_server node) s.servers_list;
          } in
          let z : t ≡ s' =
            ap (λ (p : Sockets × List DeleteCall). p.0)
              (some_inj (rw (e, delete_server_socket) at h)) in
          rw (← z) (
            closed-IsOwned c.fd s t i refl (λ x. omega (
              arith,
              count_of-remove_first (λ (a : Server). a.fd) (is_server node) x s.servers_list c e,
            )))
    ]

-- what a change of the loop leaves alone
with_loop-IsOwned : (l : Loop) (s : Sockets) → IsOwned s → IsOwned (record s { loop = l })
with_loop-IsOwned l s i = record { owned = i.owned; once = i.once }

made_inj : {n m : ℕ} {s t : Sockets} → made n s ≡ made m t → s ≡ t
made_inj h = cc

Step-IsOwned : {s t : Sockets} → Step s t → IsOwned s → IsOwned t
unfolding handle_server socket_server socket_connect_addr socket_broadcast_create delete_channel
    socket_close socket_set_uuid
Step-IsOwned (accepts {s} {s'} create server fd peer true f e) i =
    rw (← some_inj e) (link_client-IsOwned _ _ s i f)
Step-IsOwned (accepts create server fd peer false f e) i = cc
Step-IsOwned (serves {s} {s'} ipv6 fd true port node f e) i =
    rw (← ap (λ (p : ℕ × Sockets). p.1) (some_inj e)) (record {
      owned = λ x. omega (arith, i.owned x);
      once = λ x. grown_once fd x s.opened f (i.once x);
    })
Step-IsOwned (serves ipv6 fd false port node f e) i = cc
Step-IsOwned (connects {s} {s'} ipv6 calls user_data fd true true node f e) i =
    rw (← made_inj e) (link_client-IsOwned _ _ s i f)
Step-IsOwned (connects ipv6 calls user_data fd true false node f e) i = cc
Step-IsOwned (connects ipv6 calls user_data fd false no_delay node f e) i = cc
Step-IsOwned (broadcasts {s} {s'} ipv6 user_data fd true node f e) i =
    rw (← made_inj e) (link_client-IsOwned _ _ s i f)
Step-IsOwned (broadcasts ipv6 user_data fd false node f e) i = cc
Step-IsOwned (deletes {s} {s'} true c calls e) i =
    let (l, q, r) =
      >>=-eq-some (channel_delete c s.loop)
        (λ l. delete_server_socket c.user (record s { loop = l })) e in
    delete_server_socket-IsOwned c.user (record s { loop = l }) s' calls (with_loop-IsOwned l s i) r
Step-IsOwned (deletes {s} {s'} false c calls e) i =
    let (l, q, r) =
      >>=-eq-some (channel_delete c s.loop) (λ l. delete_socket c.user (record s { loop = l })) e in
    delete_socket-IsOwned c.user (record s { loop = l }) s' calls (with_loop-IsOwned l s i) r
Step-IsOwned (closes none) i = i
Step-IsOwned (closes {s} (some node)) i = with_loop-IsOwned _ s i
Step-IsOwned (names {s} node uuid) i = record {
  owned = λ x.
      let k =
        count_of-update_first (λ (a : Conn). a.fd) (is_conn node)
          (λ c. record c { app_uuid = take uuid_size uuid }) x s.clients_list (λ a. refl) in
      omega (arith, i.owned x, k);
  once = i.once;
}

-- However clients and servers are accepted, opened, connected and deleted, where each call of the
-- system succeeds and gives a descriptor that is not open: every open descriptor is that of exactly
-- one client or server, if it was so before, and each of these has an open one of its own.
pub Steps-IsOwned : {s t : Sockets} → Steps s t → IsOwned s → IsOwned t
Steps-IsOwned done i = i
Steps-IsOwned (more steps step) i = Step-IsOwned step (Steps-IsOwned steps i)

-- Where `connect` fails, or an option or `bind` of a broadcast socket: NULL is returned, with the
-- descriptor open that `socket` gave and no client or server that has it, so that none will ever
-- close it.
failed_leaks :
    (ipv6 has_delete : Bool) (user_data : Option ℕ) (fd : ℕ) (no_delay : Bool) (s : Sockets)
    → IsOwned s
    → count_fd fd s.opened ≡ 0
    → (s' : Sockets) × (socket_connect_addr ipv6 has_delete user_data (some fd) false no_delay s
        ≡ null s')
      × (socket_broadcast_create ipv6 user_data (some fd) false s ≡ null s')
      × (count_fd fd s'.opened ≡ 1)
      × (owners fd s' ≡ 0)
unfolding socket_connect_addr socket_broadcast_create open_fd
failed_leaks ipv6 has_delete user_data fd no_delay s i f =
    (open_fd fd s, refl, refl, ground arith, omega (arith, i.owned fd))
