-- ===== src/Loop/Requests.antt =====
-- src/ivyloop.c: what handlers ask for, and what it leaves of the channels and the sets.
use libivy.Base.{
  ℕ, ◌≡◌, refl, sym, ap, ◌∙◌, Bool, true, false, not, ◌&&◌, ◌||◌, Option, none, some, List, [], ◌∷◌,
  ◌==◌, update_first, find_first, arith, Bool-cases, inl, inr,
}
use mathlib.Core.Path.{subst}
use libivy.Loop.{
  Channel, FdSet, Loop, is_user, has_number, fd_add, channel_add, channel_remove, channel_stop,
  add_writable_event, clear_writable_event, Request, to_remove, to_add, to_write, not_to_write,
  to_stop, apply, apply_all, handle_ready,
}
use libivy.Loop.Deletion.{has_fd, AllSound, IsLoop}
use libivy.Loop.Exceptions.{apply_all-freed}

-- A channel that is added has a socket and data that no other has, and that are not freed; a socket
-- that is to be written is watched.
abbrev pub Fit : Request → Loop → Type 0
Fit (to_add fd user) l =
    (find_first (is_user user) l.channels_list ≡ none)
    × (has_fd fd l.channels_list ≡ false)
    × (has_number user l.freed ≡ false)
Fit (to_write fd) l = has_fd fd l.channels_list ≡ true
Fit _ l = Unit

abbrev pub Fits : List Request → Loop → Type 0
Fits [] l = Unit
Fits (r ∷ requests) l = Fit r l × Fits requests (apply r l)

abbrev marked : ℕ → List Channel → List Channel
marked user l = update_first (is_user user) (λ c. record c { tobedeleted = true }) l

has_fd-marked : (user x : ℕ) (l : List Channel) → has_fd x (marked user l) ≡ has_fd x l
has_fd-marked user x [] = refl
has_fd-marked user x (c ∷ l) = elim (Bool-cases (is_user user c)) [
  | inl e ↦ rw e refl
  | inr e ↦ rw e (ap (λ b. x == c.fd || b) (has_fd-marked user x l))
]

find_first-marked :
    (user u : ℕ) (l : List Channel)
    → find_first (is_user u) l ≡ none
    → find_first (is_user u) (marked user l) ≡ none
find_first-marked user u [] h = refl
find_first-marked user u (c ∷ l) h = elim (Bool-cases (is_user u c)) [
  | inl f ↦ absurd (cc (rw f at h))
  | inr f ↦ elim (Bool-cases (is_user user c)) [
    | inl e ↦ rw e (rw f (rw f at h))
    | inr e ↦ rw e (rw f (find_first-marked user u l (rw f at h)))
  ]
]

AllSound-marked :
    (user : ℕ) (freed : List ℕ) (l : List Channel)
    → AllSound freed l
    → AllSound freed (marked user l)
AllSound-marked user freed [] h = tt
AllSound-marked user freed (c ∷ l) h = elim (Bool-cases (is_user user c)) [
  | inl e ↦ rw e h
  | inr e ↦ rw e (
    find_first-marked user c.user l h.0,
    has_fd-marked user c.fd l ∙ h.1,
    h.2,
    AllSound-marked user freed l h.3,
  )
]

or_right : (a b : Bool) → b ≡ true → (a || b) ≡ true
or_right a b h = ground arith

and_right : (a b : Bool) → (a && b) ≡ true → b ≡ true
and_right a b h = ground arith

-- a set with one more number, where that is in the set that it is to stay in
added_within :
    (fd x : ℕ) (s t : FdSet)
    → t fd ≡ true
    → (s x ≡ true → t x ≡ true)
    → fd_add fd s x ≡ true
    → t x ≡ true
added_within fd x s t f g h = elim (Bool-cases (x == fd)) [
  | inl e ↦ (let q : fd ≡ x = ground arith in subst (λ y. t y ≡ true) q f)
  | inr e ↦ g (rw e at h)
]

apply-IsLoop : (r : Request) (l : Loop) → IsLoop l → Fit r l → IsLoop (apply r l)
unfolding apply channel_add channel_remove add_writable_event clear_writable_event channel_stop
apply-IsLoop (to_remove user) l v f = record {
  all_sound = AllSound-marked user l.freed l.channels_list v.all_sound;
  watched = λ x. v.watched x ∙ sym (has_fd-marked user x l.channels_list);
  writable = λ x h. has_fd-marked user x l.channels_list ∙ v.writable x h;
}
apply-IsLoop (to_add fd user) l v f = record {
  all_sound = (f.0, f.1, f.2, v.all_sound);
  watched = λ x. ap (λ b. x == fd || b) (v.watched x);
  writable = λ x h. or_right (x == fd) (has_fd x l.channels_list) (v.writable x h);
}
apply-IsLoop (to_write fd) l v f = record {
  all_sound = v.all_sound;
  watched = v.watched;
  writable = λ x h. added_within fd x l.wrdy_fds (λ y. has_fd y l.channels_list) f (v.writable x) h;
}
apply-IsLoop (not_to_write fd) l v f = record {
  all_sound = v.all_sound;
  watched = v.watched;
  writable = λ x h. v.writable x (and_right (not (x == fd)) (l.wrdy_fds x) h);
}
apply-IsLoop to_stop l v f = record {
  all_sound = v.all_sound;
  watched = v.watched;
  writable = v.writable;
}

pub apply_all-IsLoop :
    (requests : List Request) (l : Loop)
    → IsLoop l
    → Fits requests l
    → IsLoop (apply_all requests l)
unfolding apply_all
apply_all-IsLoop [] l v f = v
apply_all-IsLoop (r ∷ requests) l v f =
    apply_all-IsLoop requests (apply r l) (apply-IsLoop r l v f.0) f.1

-- A handler that, in a sound loop, asks for what fits.
abbrev pub IsFair : (ℕ → Loop → List Request) → Type 0
IsFair handler = (user : ℕ) (l : Loop) → IsLoop l → Fits (handler user l) l

-- it returns, and what it leaves is sound
pub record Runs (out : Option Loop) : Type 0 where
  pub loop : Loop
  pub returns : out ≡ some loop
  pub sound : IsLoop loop

pub handle_ready-Runs :
    (handler : ℕ → Loop → List Request) (current : FdSet) (channels : List Channel) (l : Loop)
    → IsFair handler
    → IsLoop l
    → AllSound l.freed channels
    → Runs (handle_ready handler current channels l)
unfolding handle_ready
handle_ready-Runs handler current [] l g v a = record { loop = l; returns = refl; sound = v }
handle_ready-Runs handler current (c ∷ channels) l g v a = elim (Bool-cases (current c.fd)) [
  | inl y ↦
      rw (y, handle_ready)
        (rw a.2 (
          handle_ready-Runs handler current channels (apply_all (handler c.user l) l) g
            (apply_all-IsLoop (handler c.user l) l v (g c.user l v))
            (subst (λ freed. AllSound freed channels) (sym (apply_all-freed (handler c.user l) l))
              a.3)))
  | inr y ↦ rw (y, handle_ready) (handle_ready-Runs handler current channels l g v a.3)
]
