-- ===== src/Bus/Asking.antt =====
-- What the application asks for with `IvyBindMsg`, `IvyChangeMsg` and `IvyUnbindMsg`, in any order.
use libivy.Base.{
  ℕ, ◌+◌, ◌<◌, ◌≡◌, refl, false, Option, none, List, [], ◌∷◌, ◌==◌, Bytes, find_first, remove_first,
  update_first, arith, Bool-cases, inl, inr,
}
use libivy.Bus.{Handler, Bus, Action, World}
use libivy.Bus.Session.{has_handler_id, bind_msg, change_msg, unbind_msg}

-- a call of one of the three functions
data Ask : Type 0 where
  bind : Option ℕ → Bytes → Ask
  change : ℕ → Bytes → Ask
  unbind : ℕ → Ask

-- Ids below a bound, no two of them the same.
abbrev AreAsked : ℕ → List Handler → Type 0
AreAsked n [] = Unit
AreAsked n (h ∷ handlers) =
    (h.id < n) × (find_first (has_handler_id h.id) handlers ≡ none) × AreAsked n handlers

fresh_id :
    (n : ℕ) (handlers : List Handler)
    → AreAsked n handlers
    → find_first (has_handler_id n) handlers ≡ none
fresh_id n [] a = refl
fresh_id n (h ∷ handlers) a =
    let e : (h.id == n) ≡ false = ground (arith, a.0) in rw e (fresh_id n handlers a.2)

AreAsked-next : (n : ℕ) (handlers : List Handler) → AreAsked n handlers → AreAsked (n + 1) handlers
AreAsked-next n [] a = tt
AreAsked-next n (h ∷ handlers) a = (omega (arith, a.0), a.1, AreAsked-next n handlers a.2)

abbrev with_regexp : Bytes → Handler → Handler
with_regexp regexp h = record h { regexp = regexp }

absent-update :
    (k id : ℕ) (regexp : Bytes) (handlers : List Handler)
    → find_first (has_handler_id k) handlers ≡ none
    → find_first (has_handler_id k) (update_first (has_handler_id id) (with_regexp regexp) handlers)
      ≡ none
absent-update k id regexp [] e = refl
absent-update k id regexp (h ∷ handlers) e = ground (arith, absent-update k id regexp handlers)

AreAsked-update :
    (n id : ℕ) (regexp : Bytes) (handlers : List Handler)
    → AreAsked n handlers
    → AreAsked n (update_first (has_handler_id id) (with_regexp regexp) handlers)
AreAsked-update n id regexp [] a = tt
AreAsked-update n id regexp (h ∷ handlers) a = elim (Bool-cases (has_handler_id id h)) [
  | inl e ↦ rw e (a.0, a.1, a.2)
  | inr e ↦
      rw e
        (a.0, absent-update h.id id regexp handlers a.1, AreAsked-update n id regexp handlers a.2)
]

absent-remove :
    (k id : ℕ) (handlers : List Handler)
    → find_first (has_handler_id k) handlers ≡ none
    → find_first (has_handler_id k) (remove_first (has_handler_id id) handlers) ≡ none
absent-remove k id [] e = refl
absent-remove k id (h ∷ handlers) e = ground (arith, absent-remove k id handlers)

AreAsked-remove :
    (n id : ℕ) (handlers : List Handler)
    → AreAsked n handlers
    → AreAsked n (remove_first (has_handler_id id) handlers)
AreAsked-remove n id [] a = tt
AreAsked-remove n id (h ∷ handlers) a = elim (Bool-cases (has_handler_id id h)) [
  | inl e ↦ rw e a.2
  | inr e ↦ rw e (a.0, absent-remove h.id id handlers a.1, AreAsked-remove n id handlers a.2)
]

module _ {B : Type 0} (w : World B) where
  unfoldable ask : Ask → Bus B → Bus B × List Action
  ask (bind callback regexp) b = bind_msg w callback regexp b
  ask (change id regexp) b = change_msg w id regexp b
  ask (unbind id) b = unbind_msg w id b

  unfoldable ask_all : List Ask → Bus B → Bus B
  ask_all [] b = b
  ask_all (a ∷ asks) b = ask_all asks (ask a b).0

  -- Any calls of `IvyBindMsg`, `IvyChangeMsg` and `IvyUnbindMsg`, in any order, keep this: no two
  -- handlers have the same id, and all ids are below the next one.
  ask_all-AreAsked :
      (asks : List Ask) (b : Bus B)
      → AreAsked b.next_id b.msg_recv
      → let b' = ask_all asks b in AreAsked b'.next_id b'.msg_recv
  unfolding ask_all ask bind_msg change_msg unbind_msg
  ask_all-AreAsked [] b a = a
  ask_all-AreAsked (bind callback regexp ∷ asks) b a =
      ask_all-AreAsked asks (bind_msg w callback regexp b).0
        (omega arith, fresh_id b.next_id b.msg_recv a, AreAsked-next b.next_id b.msg_recv a)
  ask_all-AreAsked (change id regexp ∷ asks) b a =
      ask_all-AreAsked asks (change_msg w id regexp b).0
        (AreAsked-update b.next_id id regexp b.msg_recv a)
  ask_all-AreAsked (unbind id ∷ asks) b a =
      ask_all-AreAsked asks (unbind_msg w id b).0 (AreAsked-remove b.next_id id b.msg_recv a)
