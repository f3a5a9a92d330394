-- ===== src/Timer/Tests.antt =====
-- A timer that repeats, one that is called once and one that is marked.
use libivy.Base.{ℕ, ◌≡◌, refl, false, true, some, List, [], ◌∷◌, arith, map}
use libivy.Timer.{
  Timer, Timers, set_new_timeout, shortest, adj_timeout_of, adj_timeout, get_smallest_timeout,
  call_of, new_timer, repeat_after, call_due, sweep, timer_scan,
}
use libivy.Timer.Timeout.{
  IsCovered, started, removed, modified, asked, perform, perform_all, Event, called, scanned,
  happen, CanRun, run, run-IsCovered,
}
use libivy.Timer.Scan.{quiet, HasPeriods, AllRest, timer_scan-AllRest}

abbrev ever : Timer
ever = record {
  id = 2;
  repeat = 4294967295;
  period = 100;
  due = 990;
  callback = 7;
  mark_to_remove = false;
}

abbrev once : Timer
once = record { id = 1; repeat = 1; period = 50; due = 1000; callback = 8; mark_to_remove = false }

abbrev gone : Timer
gone = record { id = 0; repeat = 1; period = 10; due = 900; callback = 9; mark_to_remove = true }

abbrev state : Timers
state = record {
  timers = ever ∷ once ∷ gone ∷ [];
  is_set = true;
  select_timeout = record { tv_sec = 0; tv_usec = 0 };
  next_timeout = 900;
  made = 3;
}

abbrev empty : Timers
empty = record {
  timers = [];
  is_set = false;
  select_timeout = record { tv_sec = 2147483647; tv_usec = 0 };
  next_timeout = 2147483647;
  made = 0;
}

timer_scan-state : timer_scan quiet 1000 state ≡ (
  call_of 1000 ever ∷ call_of 1000 once ∷ [],
  record state { timers = record ever { due = 1100 } ∷ [] },
)
unfolding timer_scan call_due sweep
timer_scan-state = refl

get_smallest_timeout-state :
    (get_smallest_timeout 800 state).1 ≡ some (record { tv_sec = 0; tv_usec = 190000 })
unfolding get_smallest_timeout adj_timeout adj_timeout_of shortest set_new_timeout
get_smallest_timeout-state = refl

-- two timers, a scan whose callback starts one more, and a change
abbrev events : List (ℕ × Event)
events =
    (1000, called (started 1 50 (some 7)))
    ∷ (1010, called (started 3 20 (some 8)))
    ∷ (1035, scanned (λ c. (1035, started 1 10 (some 9)) ∷ []))
    ∷ (1040, called (modified 0 5))
    ∷ (1041, called (removed 0))
    ∷ (1042, called asked)
    ∷ []

events-CanRun : CanRun events empty
unfolding happen perform repeat_after new_timer set_new_timeout call_due perform_all
events-CanRun = (tt, (tt, ((omega arith, (omega arith, (omega arith, tt))), (tt, (tt, (tt, tt))))))

empty-IsCovered : IsCovered empty
empty-IsCovered = record { ahead = λ h. cc; idle = λ h. refl }

run-IsCovered_example : IsCovered (run events empty)
run-IsCovered_example = run-IsCovered events empty events-CanRun empty-IsCovered

state-HasPeriods :
    HasPeriods 1000 (call_due quiet 1000 (map (λ t. t.id) state.timers) state).1.timers
unfolding call_due
state-HasPeriods =
    ((omega arith, omega arith), ((omega arith, omega arith), ((omega arith, omega arith), tt)))

timer_scan-AllRest_example : AllRest 1000 (timer_scan quiet 1000 state).1.timers
timer_scan-AllRest_example = timer_scan-AllRest quiet 1000 state state-HasPeriods
