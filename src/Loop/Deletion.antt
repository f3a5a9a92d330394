-- ===== src/Loop/Deletion.antt =====
-- What the deferred deletion leaves, and what an exceptional condition does to it.
use libivy.Base.{
  ℕ, ◌≡◌, refl, sym, ap, ◌∙◌, Bool, true, false, not, ◌&&◌, ◌||◌, Option, none, some, ◌>>=◌, List,
  [], ◌∷◌, ◌++◌, append_assoc, ◌==◌, if◌then◌else◌, remove_if, remove_first, find_first, arith,
  Bool-cases, inl, inr, ==_refl,
}
use mathlib.Core.Path.{subst}
use libivy.Loop.{
  Channel, fd_clear, Loop, is_user, has_number, handle_delete, channel_delete, delete_marked,
  deferred_delete,
}

-- the test of a list of channels for a socket
abbrev pub has_fd : ℕ → List Channel → Bool
has_fd x [] = false
has_fd x (c ∷ l) = x == c.fd || has_fd x l

-- No two channels share their data or their socket, and the data of none is freed.
abbrev pub AllSound : List ℕ → List Channel → Type 0
AllSound freed [] = Unit
AllSound freed (c ∷ l) =
    (find_first (is_user c.user) l ≡ none)
    × (has_fd c.fd l ≡ false)
    × (has_number c.user freed ≡ false)
    × AllSound freed l

-- The sockets that select watches are those of the channels.
pub record IsLoop (l : Loop) : Type 0 where
  pub all_sound : AllSound l.freed l.channels_list
  pub watched : (x : ℕ) → l.open_fds x ≡ has_fd x l.channels_list
  pub writable : (x : ℕ) → l.wrdy_fds x ≡ true → has_fd x l.channels_list ≡ true

abbrev pub is_marked : Channel → Bool
is_marked c = c.tobedeleted

-- a channel between others
find_first-between :
    (p : Channel → Bool) (kept : List Channel) (c : Channel) (l : List Channel)
    → find_first p (kept ++ (c ∷ l)) ≡ none
    → (p c ≡ false) × (find_first p (kept ++ l) ≡ none)
find_first-between p [] c l h = elim (Bool-cases (p c)) [
  | inl e ↦ absurd (cc (rw e at h))
  | inr e ↦ (e, rw e at h)
]
find_first-between p (k ∷ kept) c l h = elim (Bool-cases (p k)) [
  | inl e ↦ absurd (cc (rw e at h))
  | inr e ↦ rw e (find_first-between p kept c l (rw e at h))
]

has_fd-between :
    (x : ℕ) (kept : List Channel) (c : Channel) (l : List Channel)
    → has_fd x (kept ++ (c ∷ l)) ≡ (x == c.fd || has_fd x (kept ++ l))
has_fd-between x [] c l = refl
has_fd-between x (k ∷ kept) c l = ground (arith, has_fd-between x kept c l)

freed_more :
    (freed : List ℕ) (u : ℕ) (l : List Channel)
    → find_first (is_user u) l ≡ none
    → AllSound freed l
    → AllSound (u ∷ freed) l
freed_more freed u [] n s = tt
freed_more freed u (c ∷ l) n s = elim (Bool-cases (is_user u c)) [
  | inl e ↦ absurd (cc (rw e at n))
  | inr e ↦
      let d : (u == c.user) ≡ false = ground (arith, e) in
      (s.0, s.1, rw d s.2, freed_more freed u l (rw e at n) s.3)
]

-- the list without the channel, and its data freed
AllSound-between :
    (freed : List ℕ) (kept : List Channel) (c : Channel) (l : List Channel)
    → AllSound freed (kept ++ (c ∷ l))
    → AllSound (c.user ∷ freed) (kept ++ l)
AllSound-between freed [] c l s = freed_more freed c.user l s.0 s.3
AllSound-between freed (k ∷ kept) c l s =
    let f = find_first-between (is_user k.user) kept c l s.0 in
    let g : has_fd k.fd (kept ++ l) ≡ false = ground (arith, s.1, has_fd-between k.fd kept c l) in
    (f.1, g, rw (f.0, s.2) refl, AllSound-between freed kept c l s.3)

-- the channel itself
record Alone (freed : List ℕ) (kept : List Channel) (c : Channel) (l : List Channel) : Type 0 where
  alive : has_number c.user freed ≡ false
  fd_once : has_fd c.fd (kept ++ l) ≡ false
  before : find_first (is_user c.user) kept ≡ none

between-Alone :
    (freed : List ℕ) (kept : List Channel) (c : Channel) (l : List Channel)
    → AllSound freed (kept ++ (c ∷ l))
    → Alone freed kept c l
between-Alone freed [] c l s = record { alive = s.2; fd_once = s.1; before = refl }
between-Alone freed (k ∷ kept) c l s =
    let a = between-Alone freed kept c l s.3 in
    let f = find_first-between (is_user k.user) kept c l s.0 in
    let n : (k.user == c.user) ≡ false = ground (arith, f.0) in
    let m : (c.fd == k.fd) ≡ false = ground (arith, s.1, has_fd-between k.fd kept c l) in
    record { alive = a.alive; fd_once = rw m a.fd_once; before = rw n a.before }

remove_first-between :
    (kept : List Channel) (c : Channel) (l : List Channel)
    → find_first (is_user c.user) kept ≡ none
    → remove_first (is_user c.user) (kept ++ (c ∷ l)) ≡ kept ++ l
remove_first-between [] c l h = rw (==_refl c.user) refl
remove_first-between (k ∷ kept) c l h = elim (Bool-cases (is_user c.user k)) [
  | inl e ↦ absurd (cc (rw e at h))
  | inr e ↦ rw e (ap (◌∷◌ k) (remove_first-between kept c l (rw e at h)))
]

-- what the deletion of the marked channels leaves
pub record Deletes (channels : List Channel) (out : Option Loop) : Type 0 where
  pub loop : Loop
  pub returns : out ≡ some loop
  pub kept : loop.channels_list ≡ channels
  pub sound : IsLoop loop

-- a set without the socket of a channel that only it has
fd_gone :
    (x fd : ℕ) (rest : List Channel)
    → has_fd fd rest ≡ false
    → (x == fd) ≡ true
    → has_fd x rest ≡ false
fd_gone x fd rest h t = subst (λ y. has_fd y rest ≡ false) (ground (arith, t)) h

cleared :
    (x fd : ℕ) (o : Bool) (rest : List Channel)
    → has_fd fd rest ≡ false
    → o ≡ (x == fd || has_fd x rest)
    → (not (x == fd) && o) ≡ has_fd x rest
cleared x fd o rest h w = elim (Bool-cases (x == fd)) [
  | inl t ↦ rw t (sym (fd_gone x fd rest h t))
  | inr t ↦ rw t (w ∙ rw t refl)
]

cleared_in :
    (x fd : ℕ) (o : Bool) (rest : List Channel)
    → (o ≡ true → (x == fd || has_fd x rest) ≡ true)
    → (not (x == fd) && o) ≡ true
    → has_fd x rest ≡ true
cleared_in x fd o rest w h = elim (Bool-cases (x == fd)) [
  | inl t ↦ absurd (cc (rw t at h))
  | inr t ↦ rw t at (w (rw t at h))
]

-- one channel
channel_delete-Deletes :
    (kept : List Channel) (c : Channel) (channels : List Channel) (l : Loop)
    → l.channels_list ≡ kept ++ (c ∷ channels)
    → IsLoop l
    → Deletes (kept ++ channels) (channel_delete c l)
unfolding channel_delete handle_delete
channel_delete-Deletes kept c channels l e v =
    let s : AllSound l.freed (kept ++ (c ∷ channels)) = rw⁻¹ e v.all_sound in
    let a = between-Alone l.freed kept c channels s in
    let r : remove_first (is_user c.user) l.channels_list ≡ kept ++ channels =
      rw e (remove_first-between kept c channels a.before) in
    record {
      loop = record l {
        channels_list = remove_first (is_user c.user) l.channels_list;
        open_fds = fd_clear c.fd l.open_fds;
        wrdy_fds = fd_clear c.fd l.wrdy_fds;
        freed = c.user ∷ l.freed;
      };
      returns = rw a.alive refl;
      kept = r;
      sound = record {
        all_sound = rw r (AllSound-between l.freed kept c channels s);
        watched = λ x. rw r (
            cleared x c.fd (l.open_fds x) (kept ++ channels) a.fd_once
              (v.watched x ∙ ap (has_fd x) e ∙ has_fd-between x kept c channels));
        writable = λ x h. rw r (
            cleared_in x c.fd (l.wrdy_fds x) (kept ++ channels)
              (λ o. sym (ap (has_fd x) e ∙ has_fd-between x kept c channels) ∙ v.writable x o) h);
      };
    }

-- the two cases of the loop
delete_marked-choice :
    (c : Channel) (channels : List Channel) (l : Loop) {b : Bool}
    → c.tobedeleted ≡ b
    → delete_marked (c ∷ channels) l ≡ elim b [
      | true ↦ channel_delete c l >>= λ l'. delete_marked channels l'
      | false ↦ delete_marked channels l
    ]
unfolding delete_marked
delete_marked-choice c channels l t =
    ap
      (λ b. elim b [
        | true ↦ channel_delete c l >>= λ l'. delete_marked channels l'
        | false ↦ delete_marked channels l
      ])
      t

remove_if-choice :
    (c : Channel) (channels : List Channel) {b : Bool}
    → c.tobedeleted ≡ b
    → remove_if is_marked (c ∷ channels)
      ≡ (if b then remove_if is_marked channels else c ∷ remove_if is_marked channels)
remove_if-choice c channels t =
    ap (λ b. if b then remove_if is_marked channels else c ∷ remove_if is_marked channels) t

delete_marked-Deletes :
    (kept channels : List Channel) (l : Loop)
    → l.channels_list ≡ kept ++ channels
    → IsLoop l
    → Deletes (kept ++ remove_if is_marked channels) (delete_marked channels l)
unfolding delete_marked
delete_marked-Deletes kept [] l e v = record { loop = l; returns = refl; kept = e; sound = v }
delete_marked-Deletes kept (c ∷ channels) l e v = elim (Bool-cases c.tobedeleted) [
  | inl t ↦
      let d = channel_delete-Deletes kept c channels l e v in
      let r = delete_marked-Deletes kept channels d.loop d.kept d.sound in
      record {
        loop = r.loop;
        returns = delete_marked-choice c channels l t ∙ rw d.returns r.returns;
        kept = r.kept ∙ ap (λ rest. kept ++ rest) (sym (remove_if-choice c channels t));
        sound = r.sound;
      }
  | inr t ↦
      let r =
        delete_marked-Deletes (kept ++ (c ∷ [])) channels l
          (e ∙ sym (append_assoc kept (c ∷ []) channels)) v in
      record {
        loop = r.loop;
        returns = delete_marked-choice c channels l t ∙ r.returns;
        kept =
            r.kept
            ∙ append_assoc kept (c ∷ []) (remove_if is_marked channels)
            ∙ ap (λ rest. kept ++ rest) (sym (remove_if-choice c channels t));
        sound = r.sound;
      }
]

-- The deferred deletion, in a loop whose channels share neither data nor sockets, and that watches
-- their sockets and no others, to be written only theirs: every channel that is marked leaves the
-- list, and no other one; no data is freed twice, that of the channels that stay is not freed, and
-- the sockets that are watched are again those of the channels.
pub deferred_delete-Deletes :
    (l : Loop) → IsLoop l → Deletes (remove_if is_marked l.channels_list) (deferred_delete l)
unfolding deferred_delete
deferred_delete-Deletes l v = delete_marked-Deletes [] l.channels_list l refl v
