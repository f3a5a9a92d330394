-- ===== src/Loop/Exceptions.antt =====
-- What an exceptional condition on a channel does.
use libivy.Base.{
  ℕ, ◌≡◌, refl, sym, ap, ◌∙◌, true, Option, none, some, List, [], ◌∷◌, arith, Bool-cases, inl, inr,
  ==_refl, Option-cases,
}
use mathlib.Core.List.{Memᴰ}
use mathlib.Core.List.Memᴰ
use mathlib.Core.Path.{subst}
use libivy.Loop.{
  Channel, FdSet, Loop, has_number, channel_add, channel_remove, add_writable_event,
  clear_writable_event, handle_delete, Request, to_remove, to_add, to_write, not_to_write, to_stop,
  channel_stop, apply, apply_all, handle_ready, handle_excpt, handle_all, Ready,
}

-- the handlers of what is ready free nothing
pub apply_all-freed : (requests : List Request) (l : Loop) → (apply_all requests l).freed ≡ l.freed
unfolding apply_all apply channel_add channel_remove add_writable_event clear_writable_event
    channel_stop
apply_all-freed [] l = refl
apply_all-freed (to_remove user ∷ requests) l = apply_all-freed requests (channel_remove user l)
apply_all-freed (to_add fd user ∷ requests) l = apply_all-freed requests (channel_add fd user l)
apply_all-freed (to_write fd ∷ requests) l = apply_all-freed requests (add_writable_event fd l)
apply_all-freed (not_to_write fd ∷ requests) l =
    apply_all-freed requests (clear_writable_event fd l)
apply_all-freed (to_stop ∷ requests) l = apply_all-freed requests (channel_stop l)

-- a channel that is ready, and whose data is freed
ready_faults :
    (handler : ℕ → Loop → List Request) (current : FdSet) {c : Channel} (channels : List Channel)
    (l : Loop)
    → Memᴰ c channels
    → current c.fd ≡ true
    → has_number c.user l.freed ≡ true
    → handle_ready handler current channels l ≡ none
unfolding handle_ready
ready_faults handler current [] l m x h = absurd (Memᴰ.not-nil m)
ready_faults handler current (d ∷ channels) l (Memᴰ.head e) x h =
    rw (sym (ap (λ t. current t.fd) e) ∙ x, handle_ready)
      (rw (sym (ap (λ t. has_number t.user l.freed) e) ∙ h) refl)
ready_faults handler current (d ∷ channels) l (Memᴰ.tail m) x h = elim (Bool-cases (current d.fd)) [
  | inl y ↦ elim (Bool-cases (has_number d.user l.freed)) [
    | inl z ↦ rw (y, handle_ready) (rw z refl)
    | inr z ↦
        rw (y, handle_ready)
          (rw z (
            ready_faults handler current channels (apply_all (handler d.user l) l) m x
              (rw (apply_all-freed (handler d.user l) l) h)))
  ]
  | inr y ↦ rw (y, handle_ready) (ready_faults handler current channels l m x h)
]

-- where it returns, the channels are the same, and this data is freed
unfoldable Frees : ℕ → Loop → Option Loop → Type 0
Frees u l none = Unit
Frees u l (some l') = (l'.channels_list ≡ l.channels_list) × (has_number u l'.freed ≡ true)

freed_stays :
    (current : FdSet) (channels : List Channel) (u : ℕ) (l : Loop)
    → has_number u l.freed ≡ true
    → Frees u l (handle_excpt current channels l)
unfolding handle_excpt handle_delete Frees
freed_stays current [] u l h = (refl, h)
freed_stays current (d ∷ channels) u l h = elim (Bool-cases (current d.fd)) [
  | inl y ↦ elim (Bool-cases (has_number d.user l.freed)) [
    | inl z ↦ rw (y, handle_excpt) (rw (z, handle_delete) tt)
    | inr z ↦
        rw (y, handle_excpt)
          (rw (z, handle_delete)
            (freed_stays current channels u (record l { freed = d.user ∷ l.freed })
              (ground (arith, h))))
  ]
  | inr y ↦ rw (y, handle_excpt) (freed_stays current channels u l h)
]

first-Frees :
    (current : FdSet) (d : Channel) (channels : List Channel) (l : Loop)
    → current d.fd ≡ true
    → Frees d.user l (handle_excpt current (d ∷ channels) l)
unfolding handle_excpt handle_delete Frees
first-Frees current d channels l y = elim (Bool-cases (has_number d.user l.freed)) [
  | inl z ↦ rw (y, handle_excpt) (rw (z, handle_delete) tt)
  | inr z ↦
      rw (y, handle_excpt)
        (rw (z, handle_delete)
          (freed_stays current channels d.user (record l { freed = d.user ∷ l.freed })
            (rw (==_refl d.user) refl)))
]

excpt-Frees :
    (current : FdSet) {c : Channel} (channels : List Channel) (l : Loop)
    → Memᴰ c channels
    → current c.fd ≡ true
    → Frees c.user l (handle_excpt current channels l)
unfolding handle_excpt handle_delete Frees
excpt-Frees current [] l m x = absurd (Memᴰ.not-nil m)
excpt-Frees current (d ∷ channels) l (Memᴰ.head e) x =
    subst (λ t. Frees t.user l (handle_excpt current (d ∷ channels) l)) (sym e)
      (first-Frees current d channels l (subst (λ t. current t.fd ≡ true) e x))
excpt-Frees current (d ∷ channels) l (Memᴰ.tail m) x = elim (Bool-cases (current d.fd)) [
  | inl y ↦ elim (Bool-cases (has_number d.user l.freed)) [
    | inl z ↦ rw (y, handle_excpt) (rw (z, handle_delete) tt)
    | inr z ↦
        rw (y, handle_excpt)
          (rw (z, handle_delete)
            (excpt-Frees current channels (record l { freed = d.user ∷ l.freed }) m x))
  ]
  | inr y ↦ rw (y, handle_excpt) (excpt-Frees current channels l m x)
]

-- A round of the loop in which select reports a channel for an exceptional condition and for
-- reading: `IvyChannelHandleExcpt` frees the data of the channel and leaves it in the list, and
-- what comes then uses the data or frees it again, whatever the handlers do.
pub exception_faults :
    (on_read on_write : ℕ → Loop → List Request) (r : Ready) (c : Channel) (l : Loop)
    → Memᴰ c l.channels_list
    → r.exset c.fd ≡ true
    → r.rdset c.fd ≡ true
    → handle_all on_read on_write r l ≡ none
unfolding handle_all Frees
exception_faults on_read on_write r c l m x y =
    elim (Option-cases (handle_excpt r.exset l.channels_list l)) [
      | inl e ↦ rw (e, handle_all) refl
      | inr (l1, e) ↦
          let f = subst (Frees c.user l) e (excpt-Frees r.exset l.channels_list l m x) in
          rw
            (
              e,
              handle_all,
              ready_faults on_read r.rdset l1.channels_list l1 (subst (λ t. Memᴰ c t) (sym f.0) m) y
                  f.1,
            )
            refl
    ]
