-- ===== src/Timer/Timeout.antt =====
-- The time that select is given to wait.
use libivy.Base.{
  ℕ, ◌+◌, ◌-◌, ◌*◌, ◌/◌, ◌%◌, ◌^◌, map, leb, ◌≤◌, ◌<◌, ◌≡◌, ◌⊎◌, refl, Bool, true, false, not, ◌&&◌,
  ◌||◌, Option, none, some, List, [], ◌∷◌, ◌==◌, ltb, if◌then◌else◌, find_first, update_first,
  arith, Bool-cases, inl, inr, Option-cases,
}
use native.Mathlib.Nat.{div-add-mod, mod-lt, mod-eq_of_lt}
use libivy.Timer.{
  Timer, Timeval, Timers, has_number, set_new_timeout, shortest, adj_timeout_of, adj_timeout,
  new_timer, repeat_after, with_timer, remove, modify, get_smallest_timeout, timer_loop, Call,
  is_due, call_of, call_due, sweep, timer_scan,
}

-- no timer that is not marked is due before the time given
abbrev pub NoneBefore : ℕ → List Timer → Type 0
NoneBefore best [] = Unit
NoneBefore best (t ∷ l) = (t.mark_to_remove ≡ false → best ≤ t.due) × NoneBefore best l

NoneBefore-mono : (a b : ℕ) (l : List Timer) → a ≤ b → NoneBefore b l → NoneBefore a l
NoneBefore-mono a b [] h n = tt
NoneBefore-mono a b (t ∷ l) h n = ((λ e. omega (arith, n.0 e)), NoneBefore-mono a b l h n.1)

shortest_lem :
    (best : ℕ) (l : List Timer) → (shortest best l ≤ best) × NoneBefore (shortest best l) l
unfolding shortest
shortest_lem best [] = (omega arith, tt)
shortest_lem best (t ∷ l) =
    let next : ℕ = if not t.mark_to_remove && ltb t.due best then t.due else best in
    let r = shortest_lem next l in (ground arith, ((λ e. ground arith), r.1))

-- a timer is due then
abbrev pub is_time : ℕ → List Timer → Bool
is_time d [] = false
is_time d (t ∷ l) = t.due == d || is_time d l

-- the least time is that of a timer, or the one the loop began with
shortest-found :
    (best : ℕ) (l : List Timer) → (shortest best l ≡ best) ⊎ (is_time (shortest best l) l ≡ true)
unfolding shortest
shortest-found best [] = inl refl
shortest-found best (t ∷ l) =
    let next : ℕ = if not t.mark_to_remove && ltb t.due best then t.due else best in
    let r = shortest-found next l in ground arith

shortest-first : (t : Timer) (l : List Timer) → is_time (shortest t.due (t ∷ l)) (t ∷ l) ≡ true
shortest-first t l = let r = shortest-found t.due (t ∷ l) in ground arith

-- microseconds
abbrev pub micros : Timeval → ℕ
micros t = t.tv_sec * 1000000 + t.tv_usec

-- What select is given: nothing without timers; else the time up to an instant at which a timer is
-- due, and before which none is that is not marked, in seconds and less than a million
-- microseconds.
pub data Waits (now : ℕ) (s : Timers) : Option Timeval → Type 0 where
  forever : s.timers ≡ [] → Waits now s none
  until :
      (due : ℕ) {t : Timeval}
      → NoneBefore due s.timers
      → is_time due s.timers ≡ true
      → micros t ≡ (due - now) * 1000
      → t.tv_usec < 1000000
      → Waits now s (some t)

split_time :
    (d : ℕ)
    → (d / 1000 * 1000000 + (d - d / 1000 * 1000) * 1000 ≡ d * 1000)
      × ((d - d / 1000 * 1000) * 1000 < 1000000)
split_time d = omega (arith, div-add-mod, mod-lt)

Waits-adj_timeout_of :
    (now : ℕ) (s : Timers) (l : List Timer)
    → s.timers ≡ l
    → let s' = adj_timeout_of now s l in
      Waits now s (if s'.is_set then some s'.select_timeout else none)
unfolding adj_timeout_of set_new_timeout
Waits-adj_timeout_of now s [] e = forever e
Waits-adj_timeout_of now s (t ∷ l) e =
    let m = split_time (shortest t.due (t ∷ l) - now) in
    until (shortest t.due (t ∷ l)) (rw e (shortest_lem t.due (t ∷ l)).1) (rw e (shortest-first t l))
      m.0 m.1

-- What `TimerGetSmallestTimeout` returns lets select wait to the time of a timer, and past none
-- that is not marked; with no timer it lets it wait for ever.
get_smallest_timeout_lem : (now : ℕ) (s : Timers) → Waits now s (get_smallest_timeout now s).1
unfolding get_smallest_timeout adj_timeout
get_smallest_timeout_lem now s = Waits-adj_timeout_of now s s.timers refl

-- The next timeout is not behind any timer, and with no timeout there is no timer.
pub record IsCovered (s : Timers) : Type 0 where
  pub ahead : s.is_set ≡ true → NoneBefore s.next_timeout s.timers
  pub idle : s.is_set ≡ false → s.timers ≡ []

adj_timeout_of-IsCovered :
    (now : ℕ) (s : Timers) (l : List Timer) → s.timers ≡ l → IsCovered (adj_timeout_of now s l)
unfolding adj_timeout_of set_new_timeout
adj_timeout_of-IsCovered now s [] e = record { ahead = λ h. cc; idle = λ h. e }
adj_timeout_of-IsCovered now s (t ∷ l) e = record {
  ahead = λ h. rw e (shortest_lem t.due (t ∷ l)).1;
  idle = λ h. cc;
}

with_timer-IsCovered :
    (now : ℕ) (f : Timer → Timer) (id : ℕ) (s : Timers)
    → IsCovered s
    → IsCovered (with_timer now f id s)
unfolding with_timer adj_timeout
with_timer-IsCovered now f id s c = elim (Option-cases (find_first (has_number id) s.timers)) [
  | inl a ↦ rw (a, with_timer) c
  | inr (t, a) ↦
      rw (a, with_timer)
        (elim (Bool-cases t.mark_to_remove) [
          | inl e ↦ rw e c
          | inr e ↦
              let s' = record s { timers = update_first (has_number id) f s.timers } in
              rw e (adj_timeout_of-IsCovered now s' s'.timers refl)
        ])
]

covered_before :
    (d : ℕ) (s : Timers)
    → IsCovered s
    → (ltb d s.next_timeout || not s.is_set) ≡ true
    → NoneBefore d s.timers
covered_before d s c e = elim (Bool-cases s.is_set) [
  | inl a ↦ NoneBefore-mono d s.next_timeout s.timers (ground arith) (c.ahead a)
  | inr a ↦ rw (c.idle a) tt
]

repeat_after-IsCovered :
    (now count ltime : ℕ) (cb : Option ℕ) (s : Timers)
    → IsCovered s
    → IsCovered (repeat_after now count ltime cb s).0
unfolding repeat_after set_new_timeout
repeat_after-IsCovered now count ltime none s c = c
repeat_after-IsCovered now count ltime (some cb) s c =
    let t = new_timer s.made now count ltime cb in
    elim (Bool-cases (ltb t.due s.next_timeout || not s.is_set)) [
      | inl e ↦
          rw e (record {
            ahead = λ h. ((λ k. omega arith), covered_before t.due s c e);
            idle = λ h. cc;
          })
      | inr e ↦
          rw e (record { ahead = λ h. ((λ k. ground arith), c.ahead h); idle = λ h. ground arith })
    ]

-- A call of the interface that sets timers or asks for the timeout, from outside or from a
-- callback.
pub data Request : Type 0 where
  started : ℕ → ℕ → Option ℕ → Request
  removed : ℕ → Request
  modified : ℕ → ℕ → Request
  asked : Request

-- the calls, each with the time at which it is made
unfoldable pub perform : ℕ → Request → Timers → Timers
perform now (started count ltime cb) s = (repeat_after now count ltime cb s).0
perform now (removed id) s = remove now id s
perform now (modified id ltime) s = modify now id ltime s
perform now asked s = (get_smallest_timeout now s).0

unfoldable pub perform_all : List (ℕ × Request) → Timers → Timers
perform_all [] s = s
perform_all ((now, r) ∷ requests) s = perform_all requests (perform now r s)

-- such a call, or one of `TimerScan`, with the calls that each callback makes
pub data Event : Type 0 where
  called : Request → Event
  scanned : (Call → List (ℕ × Request)) → Event

unfoldable pub happen : ℕ → Event → Timers → Timers
happen now (called r) s = perform now r s
happen now (scanned callback) s = (timer_scan (λ c. perform_all (callback c)) now s).1

unfoldable pub run : List (ℕ × Event) → Timers → Timers
run [] s = s
run ((now, e) ∷ events) s = run events (happen now e s)

-- The periods of the timers end within an `unsigned long`.
abbrev pub InTime : ℕ → List Timer → Type 0
InTime stamp [] = Unit
InTime stamp (t ∷ l) = (stamp + t.period < 2 ^ 64) × InTime stamp l

-- those that a `TimerScan` finds behind its callbacks, if it is one
abbrev pub CanHappen : ℕ → Event → Timers → Type 0
CanHappen now (called r) s = Unit
CanHappen now (scanned callback) s =
    InTime now (call_due (λ c. perform_all (callback c)) now (map (λ t. t.id) s.timers) s).1.timers

abbrev pub CanRun : List (ℕ × Event) → Timers → Type 0
CanRun [] s = Unit
CanRun ((now, e) ∷ events) s = CanHappen now e s × CanRun events (happen now e s)

perform-IsCovered : (now : ℕ) (r : Request) (s : Timers) → IsCovered s → IsCovered (perform now r s)
unfolding perform remove modify get_smallest_timeout adj_timeout
perform-IsCovered now (started count ltime cb) s c = repeat_after-IsCovered now count ltime cb s c
perform-IsCovered now (removed id) s c = with_timer-IsCovered now _ id s c
perform-IsCovered now (modified id ltime) s c = with_timer-IsCovered now _ id s c
perform-IsCovered now asked s c = adj_timeout_of-IsCovered now s s.timers refl

perform_all-IsCovered :
    (requests : List (ℕ × Request)) (s : Timers) → IsCovered s → IsCovered (perform_all requests s)
unfolding perform_all
perform_all-IsCovered [] s c = c
perform_all-IsCovered ((now, r) ∷ requests) s c =
    perform_all-IsCovered requests _ (perform-IsCovered now r s c)

-- the first loop of `TimerScan`
call_due-IsCovered :
    (user : Call → Timers → Timers) (stamp : ℕ) (ids : List ℕ) (s : Timers)
    → ((c : Call) (r : Timers) → IsCovered r → IsCovered (user c r))
    → IsCovered s
    → IsCovered (call_due user stamp ids s).1
unfolding call_due
call_due-IsCovered user stamp [] s h c = c
call_due-IsCovered user stamp (id ∷ ids) s h c =
    elim (Option-cases (find_first (has_number id) s.timers)) [
      | inl a ↦ rw (a, call_due) (call_due-IsCovered user stamp ids s h c)
      | inr (t, a) ↦
          rw (a, call_due)
            (elim (Bool-cases (is_due stamp t)) [
              | inl e ↦ rw e (
                  call_due-IsCovered user stamp ids (user (call_of stamp t) s) h
                    (h (call_of stamp t) s c))
              | inr e ↦ rw e (call_due-IsCovered user stamp ids s h c)
            ])
    ]

-- the second loop: a timer that is called again is due later than it was
sweep-NoneBefore :
    (d stamp : ℕ) (l : List Timer) → NoneBefore d l → InTime stamp l → NoneBefore d (sweep stamp l)
unfolding sweep
sweep-NoneBefore d stamp [] n h = tt
sweep-NoneBefore d stamp (t ∷ l) n h =
    let m = mod-eq_of_lt h.0 in
    let r = sweep-NoneBefore d stamp l n.1 h.1 in
    let next : ℕ = (t.repeat + 4294967295) % 2 ^ 32 in
    elim (Bool-cases t.mark_to_remove) [
      | inl a ↦ rw a r
      | inr a ↦
          let k : d ≤ t.due = n.0 a in
          rw a (elim (Bool-cases (leb t.due stamp)) [
            | inl b ↦
                let j : d ≤ (stamp + t.period) % 2 ^ 64 = ground (arith, k, m) in
                rw b (elim (Bool-cases (t.repeat == timer_loop)) [
                  | inl c ↦ rw c ((λ e. j), r)
                  | inr c ↦ rw c (elim (Bool-cases (next == 0)) [
                    | inl q ↦ rw q r
                    | inr q ↦ rw q ((λ e. j), r)
                  ])
                ])
            | inr b ↦ rw b ((λ e. k), r)
          ])
    ]

sweep-nil : (stamp : ℕ) (l : List Timer) → l ≡ [] → sweep stamp l ≡ []
unfolding sweep
sweep-nil stamp l e = rw e refl

happen-IsCovered :
    (now : ℕ) (e : Event) (s : Timers)
    → CanHappen now e s
    → IsCovered s
    → IsCovered (happen now e s)
unfolding happen timer_scan
happen-IsCovered now (called r) s h c = perform-IsCovered now r s c
happen-IsCovered now (scanned callback) s h c =
    let user : Call → Timers → Timers = λ k. perform_all (callback k) in
    let s' = (call_due user now (map (λ t. t.id) s.timers) s).1 in
    let c' =
      call_due-IsCovered user now (map (λ t. t.id) s.timers) s
        (λ k r v. perform_all-IsCovered (callback k) r v) c in
    record {
      ahead = λ e. sweep-NoneBefore s'.next_timeout now s'.timers (c'.ahead e) h;
      idle = λ e. sweep-nil now s'.timers (c'.idle e);
    }

-- Any calls of the interface, `TimerScan` among them with callbacks that make any of the other
-- calls, at any times, keep this: a timer that is not marked is not due before the next timeout,
-- and
-- no timeout is set only if there is no timer. The periods of the timers that a `TimerScan` finds
-- do
-- not overflow.
pub run-IsCovered :
    (events : List (ℕ × Event)) (s : Timers)
    → CanRun events s
    → IsCovered s
    → IsCovered (run events s)
unfolding run
run-IsCovered [] s h c = c
run-IsCovered ((now, e) ∷ events) s h c =
    run-IsCovered events _ h.1 (happen-IsCovered now e s h.0 c)
