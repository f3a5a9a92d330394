-- ===== src/Timer.antt =====
-- src/timer.c: the timers of the select loop. A `TimerId` is the number of its timer, given out in
-- the order of creation; `unsigned long` has 64 bits, and `currentTime` is an argument.
pub mod Timeout
pub mod Scan
pub mod Tests
use libivy.Base.{
  ℕ, zero, suc, ◌+◌, ◌-◌, ◌*◌, ◌/◌, ◌%◌, ◌^◌, Bool, true, false, not, ◌&&◌, ◌||◌, Option, none,
  some, List, [], ◌∷◌, ◌++◌, ◌==◌, ltb, leb, if◌then◌else◌, map, find_first, update_first,
}

-- `struct _timer`; `repeat` is the bit pattern of the `int`.
pub record Timer : Type 0 where
  pub id : ℕ
  pub repeat : ℕ
  pub period : ℕ
  pub due : ℕ
  pub callback : ℕ
  pub mark_to_remove : Bool

-- `struct timeval`
pub record Timeval : Type 0 where
  pub tv_sec : ℕ
  pub tv_usec : ℕ

-- The static variables. `is_set` is `timeoutptr != NULL`, which then points to `selectTimeout`;
-- `made` counts the timers made so far.
pub record Timers : Type 0 where
  pub timers : List Timer
  pub is_set : Bool
  pub select_timeout : Timeval
  pub next_timeout : ℕ
  pub made : ℕ

-- TIMER_LOOP, -1 as an `int`
abbrev pub timer_loop : ℕ
timer_loop = 4294967295

abbrev pub has_number : ℕ → Timer → Bool
has_number n t = t.id == n

unfoldable pub set_new_timeout : ℕ → ℕ → Timers → Timers
set_new_timeout current due s =
    let ltime = due - current in
    record s {
      next_timeout = due;
      select_timeout = record {
        tv_sec = ltime / 1000;
        tv_usec = (ltime - ltime / 1000 * 1000) * 1000;
      };
      is_set = true;
    }

-- the loop of `AdjTimeout`, from the timeout found so far
unfoldable pub shortest : ℕ → List Timer → ℕ
shortest best [] = best
shortest best (t ∷ l) = shortest (if not t.mark_to_remove && ltb t.due best then t.due else best) l

-- `AdjTimeout` for the list given
unfoldable pub adj_timeout_of : ℕ → Timers → List Timer → Timers
adj_timeout_of current s [] = record s { is_set = false }
adj_timeout_of current s (t ∷ l) = set_new_timeout current (shortest t.due (t ∷ l)) s

unfoldable pub adj_timeout : ℕ → Timers → Timers
adj_timeout current s = adj_timeout_of current s s.timers

-- the timer that `TimerRepeatAfter` makes
unfoldable pub new_timer : ℕ → ℕ → ℕ → ℕ → ℕ → Timer
new_timer id now count ltime cb = record {
  id = id;
  repeat = count;
  period = ltime;
  due = (now + ltime) % 2 ^ 64;
  callback = cb;
  mark_to_remove = false;
}

-- `TimerRepeatAfter`, with a callback that is NULL as `none`
unfoldable pub repeat_after : ℕ → ℕ → ℕ → Option ℕ → Timers → Timers × Option ℕ
repeat_after now count ltime none s = (s, none)
repeat_after now count ltime (some cb) s =
    let t = new_timer s.made now count ltime cb in
    let s' = record s { timers = t ∷ s.timers; made = s.made + 1 } in
    (
      (if ltb t.due s.next_timeout || not s.is_set then set_new_timeout now t.due s' else s'),
      some s.made,
    )

-- a change of a timer that is there and not marked, with the new timeout
unfoldable pub with_timer : ℕ → (Timer → Timer) → ℕ → Timers → Timers
with_timer now f id s = elim (find_first (has_number id) s.timers) [
  | none ↦ s
  | some t ↦
      if t.mark_to_remove
      then s
      else adj_timeout now (record s { timers = update_first (has_number id) f s.timers })
]

-- `TimerRemove`, of a timer that is not freed yet
unfoldable pub remove : ℕ → ℕ → Timers → Timers
remove now id s = with_timer now (λ t. record t { mark_to_remove = true }) id s

-- `TimerModify`, of a timer that is not freed yet
unfoldable pub modify : ℕ → ℕ → ℕ → Timers → Timers
modify now id ltime s =
    with_timer now (λ t. record t { period = ltime; due = (now + ltime) % 2 ^ 64 }) id s

-- `TimerGetSmallestTimeout`; `none` is NULL, with which select waits for ever.
unfoldable pub get_smallest_timeout : ℕ → Timers → Timers × Option Timeval
get_smallest_timeout now s =
    let s' = adj_timeout now s in (s', if s'.is_set then some s'.select_timeout else none)

-- A call of a callback: which one, for which timer, and by how much it is late.
pub record Call : Type 0 where
  pub callback : ℕ
  pub timer : ℕ
  pub delta : ℕ

abbrev pub is_due : ℕ → Timer → Bool
is_due stamp t = leb t.due stamp && not t.mark_to_remove

abbrev pub call_of : ℕ → Timer → Call
call_of stamp t = record { callback = t.callback; timer = t.id; delta = stamp - t.due }

-- The first loop of `TimerScan`, over the timers that were there when it began: a callback may
-- change the timers, by `user`, and what is read of a timer is what it holds at its turn.
unfoldable pub call_due : (Call → Timers → Timers) → ℕ → List ℕ → Timers → List Call × Timers
call_due user stamp [] s = ([], s)
call_due user stamp (id ∷ ids) s = elim (find_first (has_number id) s.timers) [
  | none ↦ call_due user stamp ids s
  | some t ↦
      let called = call_due user stamp ids (user (call_of stamp t) s) in
      let passed = call_due user stamp ids s in
      if is_due stamp t then (call_of stamp t ∷ called.0, called.1) else passed
]

-- the second loop
unfoldable pub sweep : ℕ → List Timer → List Timer
sweep stamp [] = []
sweep stamp (t ∷ l) =
    let rest = sweep stamp l in
    let count = (t.repeat + 4294967295) % 2 ^ 32 in
    if t.mark_to_remove
    then rest
    else if leb t.due stamp
    then (if t.repeat == timer_loop
        then record t { due = (stamp + t.period) % 2 ^ 64 } ∷ rest
        else if count == 0
        then rest
        else record t { repeat = count; due = (stamp + t.period) % 2 ^ 64 } ∷ rest)
    else t ∷ rest

-- `TimerScan`, with the calls that it makes
unfoldable pub timer_scan : (Call → Timers → Timers) → ℕ → Timers → List Call × Timers
timer_scan user stamp s =
    let (calls, s') = call_due user stamp (map (λ t. t.id) s.timers) s in
    (calls, record s' { timers = sweep stamp s'.timers })
