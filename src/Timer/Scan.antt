-- ===== src/Timer/Scan.antt =====
-- What `TimerScan` calls, and what it leaves in the list.
use libivy.Base.{
  ℕ, ◌+◌, ◌-◌, ◌%◌, ◌^◌, ◌≤◌, ◌<◌, ◌≡◌, refl, ap, ◌∙◌, true, false, not, ◌||◌, some, List, [], ◌∷◌,
  ◌==◌, ltb, leb, if◌then◌else◌, map, find_first, arith, Bool-cases, inl, inr, leb,
}
use native.Mathlib.Nat.{mod-eq_of_lt}
use libivy.Timer.{
  Timer, Timers, timer_loop, has_number, set_new_timeout, new_timer, repeat_after, Call, is_due,
  call_of, call_due, sweep, timer_scan,
}

-- The number of each timer leads to it.
abbrev pub IsAddressed : List Timer → List Timer → Type 0
IsAddressed [] w = Unit
IsAddressed (t ∷ l) w = (find_first (has_number t.id) w ≡ some t) × IsAddressed l w

-- the calls for the timers that are due
abbrev pub due_calls : ℕ → List Timer → List Call
due_calls stamp [] = []
due_calls stamp (t ∷ l) =
    let rest = due_calls stamp l in if is_due stamp t then call_of stamp t ∷ rest else rest

abbrev pub quiet : Call → Timers → Timers
quiet c s = s

-- What a scan at a time calls, and what it leaves, by what a timer is: one that is marked goes, one
-- that is due later stays, and one that is due is called, by as much as it is late; it goes then if
-- this was its last call, and is due again a period later if not.
pub data Scanned (stamp : ℕ) : List Timer → List Call → List Timer → Type 0 where
  no_timer : Scanned stamp [] [] []
  removed :
      (t : Timer) {l : List Timer} {calls : List Call} {left : List Timer}
      → t.mark_to_remove ≡ true
      → Scanned stamp l calls left
      → Scanned stamp (t ∷ l) calls left
  waits :
      (t : Timer) {l : List Timer} {calls : List Call} {left : List Timer}
      → t.mark_to_remove ≡ false
      → stamp < t.due
      → Scanned stamp l calls left
      → Scanned stamp (t ∷ l) calls (t ∷ left)
  for_ever :
      (t : Timer) {l : List Timer} {calls : List Call} {left : List Timer}
      → t.mark_to_remove ≡ false
      → t.due ≤ stamp
      → t.repeat ≡ 2 ^ 32 - 1
      → Scanned stamp l calls left
      → Scanned stamp
          (t ∷ l)
          (record { callback = t.callback; timer = t.id; delta = stamp - t.due } ∷ calls)
          (record t { due = (stamp + t.period) % 2 ^ 64 } ∷ left)
  last :
      (t : Timer) {l : List Timer} {calls : List Call} {left : List Timer}
      → t.mark_to_remove ≡ false
      → t.due ≤ stamp
      → t.repeat ≡ 1
      → Scanned stamp l calls left
      → Scanned stamp
          (t ∷ l)
          (record { callback = t.callback; timer = t.id; delta = stamp - t.due } ∷ calls)
          left
  again :
      (t : Timer) {l : List Timer} {calls : List Call} {left : List Timer} (n : ℕ)
      → t.mark_to_remove ≡ false
      → t.due ≤ stamp
      → t.repeat ≡ n + 2
      → Scanned stamp l calls left
      → Scanned stamp
          (t ∷ l)
          (record { callback = t.callback; timer = t.id; delta = stamp - t.due } ∷ calls)
          (record t { repeat = n + 1; due = (stamp + t.period) % 2 ^ 64 } ∷ left)

-- counts of calls that are not 0
abbrev pub AllCounted : List Timer → Type 0
AllCounted [] = Unit
AllCounted (t ∷ l) = ((0 < t.repeat) × (t.repeat < 2 ^ 32)) × AllCounted l

-- a timer with a period that ends behind `stamp` and does not wrap
abbrev pub HasPeriods : ℕ → List Timer → Type 0
HasPeriods stamp [] = Unit
HasPeriods stamp (t ∷ l) = ((0 < t.period) × (stamp + t.period < 2 ^ 64)) × HasPeriods stamp l

-- a timer that is not marked and is due later
abbrev pub AllRest : ℕ → List Timer → Type 0
AllRest stamp [] = Unit
AllRest stamp (t ∷ l) = ((t.mark_to_remove ≡ false) × (stamp < t.due)) × AllRest stamp l

sweep-AllRest : (stamp : ℕ) (l : List Timer) → HasPeriods stamp l → AllRest stamp (sweep stamp l)
unfolding sweep
sweep-AllRest stamp [] h = tt
sweep-AllRest stamp (t ∷ l) h =
    let m = mod-eq_of_lt h.0.1 in
    let r = sweep-AllRest stamp l h.1 in
    let next : ℕ = (t.repeat + 4294967295) % 2 ^ 32 in
    elim (Bool-cases t.mark_to_remove) [
      | inl a ↦ rw a r
      | inr a ↦ rw a (elim (Bool-cases (leb t.due stamp)) [
        | inl b ↦ rw b (elim (Bool-cases (t.repeat == timer_loop)) [
          | inl c ↦ rw c ((refl, omega arith), r)
          | inr c ↦ rw c (elim (Bool-cases (next == 0)) [
            | inl d ↦ rw d r
            | inr d ↦ rw d ((refl, omega arith), r)
          ])
        ])
        | inr b ↦ rw b ((refl, ground arith), r)
      ])
    ]

-- Whatever the callbacks do, no timer that `TimerScan` leaves is marked or still due, if the
-- timers that they leave have periods that are not 0 and do not overflow.
pub timer_scan-AllRest :
    (user : Call → Timers → Timers) (stamp : ℕ) (s : Timers)
    → HasPeriods stamp (call_due user stamp (map (λ t. t.id) s.timers) s).1.timers
    → AllRest stamp (timer_scan user stamp s).1.timers
unfolding timer_scan
timer_scan-AllRest user stamp s h = sweep-AllRest stamp _ h

call_one :
    (user : Call → Timers → Timers) (stamp : ℕ) (s : Timers) (t : Timer)
    → find_first (has_number t.id) s.timers ≡ some t
    → is_due stamp t ≡ true
    → call_due user stamp (t.id ∷ []) s ≡ (call_of stamp t ∷ [], user (call_of stamp t) s)
unfolding call_due
call_one user stamp s t f d = rw (f, call_due) (rw d refl)

repeat_after-timers :
    (now count ltime cb : ℕ) (s : Timers)
    → (repeat_after now count ltime (some cb) s).0.timers
      ≡ new_timer s.made now count ltime cb ∷ s.timers
unfolding repeat_after set_new_timeout
repeat_after-timers now count ltime cb s =
    elim (Bool-cases
      (ltb (new_timer s.made now count ltime cb).due s.next_timeout || not s.is_set)) [
        | inl e ↦ rw e
        | inr e ↦ rw e
      ]

-- one call, that is due at once
sweep-new_timer :
    (stamp id cb : ℕ) (l : List Timer)
    → stamp < 2 ^ 64
    → sweep stamp (new_timer id stamp 1 0 cb ∷ l) ≡ sweep stamp l
unfolding sweep new_timer
sweep-new_timer stamp id cb l h =
    let k : (stamp + 0) % 2 ^ 64 ≡ stamp + 0 = mod-eq_of_lt (omega arith) in
    let m : (stamp + 0) % 2 ^ 64 ≡ stamp = omega arith in ground arith

-- Where one timer is due, and its callback starts a timer for one call, with no delay, within the
-- millisecond in which `TimerScan` began, a time of 64 bits: the new timer leaves the list again,
-- and its callback is not called.
timer_scan_drops :
    (stamp cb : ℕ) (s : Timers) (t : Timer)
    → stamp < 2 ^ 64
    → s.timers ≡ t ∷ []
    → is_due stamp t ≡ true
    → let out = timer_scan (λ c r. (repeat_after stamp 1 0 (some cb) r).0) stamp s in
      (out.0 ≡ call_of stamp t ∷ []) × (out.1.timers ≡ sweep stamp (t ∷ []))
unfolding timer_scan
timer_scan_drops stamp cb s t b e d =
    let user : Call → Timers → Timers = λ c r. (repeat_after stamp 1 0 (some cb) r).0 in
    let f : find_first (has_number t.id) s.timers ≡ some t = rw e (ground arith) in
    let c : call_due user stamp (map (λ x. x.id) s.timers) s
        ≡ (call_of stamp t ∷ [], user (call_of stamp t) s) =
      ap (λ l. call_due user stamp (map (λ x. x.id) l) s) e ∙ call_one user stamp s t f d in
    (
      ap (λ o. o.0) c,
      ap (λ o. sweep stamp o.1.timers) c
          ∙ ap (sweep stamp) (repeat_after-timers stamp 1 0 cb s)
          ∙ sweep-new_timer stamp s.made cb s.timers b
          ∙ ap (sweep stamp) e,
    )
