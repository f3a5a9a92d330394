-- ===== src/Loop/Main.antt =====
-- src/ivyloop.c: `IvyMainLoop`, which runs the channels and the timers of src/timer.c.
use libivy.Base.{
  ℕ, Bool, true, false, Option, none, some, ◌>>=◌, List, [], ◌∷◌, ◌++◌, if◌then◌else◌,
}
use libivy.Timer.{Timers, Timeval, Call, get_smallest_timeout, timer_scan}
use libivy.Loop.{Loop, Ready, Request, apply_all, deferred_delete, handle_all}

-- what `select` returns: sockets that are ready, none in time, -1 with EINTR, and -1 else
pub data Selected : Type 0 where
  ready : Ready → Selected
  timed_out interrupted failed : Selected

-- The loop with its hooks, each by a number, and the timers.
pub record Main : Type 0 where
  pub loop : Loop
  pub timers : Timers
  pub before_select : Option ℕ
  pub after_select : Option ℕ

-- `IvySetBeforeSelectHook` and `IvySetAfterSelectHook`
unfoldable pub set_before_select_hook : Option ℕ → Main → Main
set_before_select_hook hook m = record m { before_select = hook }

unfoldable pub set_after_select_hook : Option ℕ → Main → Main
set_after_select_hook hook m = record m { after_select = hook }

-- A round as the outside sees it: the time when the timeout is computed, what `select` answers to
-- the sets and the timeout, and the time of `TimerScan`.
pub record Turn : Type 0 where
  pub now : ℕ
  pub select : Loop → Option Timeval → Selected
  pub stamp : ℕ

-- Where the loop stands after a round, with the calls of timers, and whether it has returned.
pub record Round : Type 0 where
  pub main : Main
  pub calls : List Call
  pub returned : Bool

-- `main_loop` over some turns: it reads or frees what is freed, returns, or waits for another turn.
pub data Course : Type 0 where
  faulted : Course
  ended : Main → List Call → Course
  waiting : Main → List Call → Course

unfoldable pub with_calls : List Call → Course → Course
with_calls calls faulted = faulted
with_calls calls (ended m later) = ended m (calls ++ later)
with_calls calls (waiting m later) = waiting m (calls ++ later)

-- What the handlers of channels and the hooks ask for, and what the callbacks of timers do: to the
-- timers, and by what they ask of the loop. The hook in front of select, and the handlers of a
-- round, may change the timers too.
pub record Handlers : Type 0 where
  pub on_read : ℕ → Loop → List Request
  pub on_write : ℕ → Loop → List Request
  pub on_hook : ℕ → Loop → List Request
  pub on_timer : Call → Timers → Timers
  pub on_call : Call → Loop → List Request
  pub hook_timers : ℕ → Timers → Timers
  pub handler_timers : Loop → Timers → Timers

module _ (h : Handlers) where
  open h use {on_read, on_write, on_hook, on_timer, on_call, hook_timers, handler_timers}

  unfoldable pub run_hook : Option ℕ → Loop → Loop
  run_hook none l = l
  run_hook (some hook) l = apply_all (on_hook hook l) l

  -- the timers behind the hook in front of select
  unfoldable pub hooked : Option ℕ → Timers → Timers
  hooked none s = s
  hooked (some hook) s = hook_timers hook s

  -- what the callbacks of timers ask of the loop, in the order of their calls
  unfoldable pub run_calls : List Call → Loop → Loop
  run_calls [] l = l
  run_calls (c ∷ calls) l = run_calls calls (apply_all (on_call c l) l)

  -- what follows `TimerScan` in a round
  unfoldable pub handle_selected : Selected → Loop → Option Loop
  handle_selected (ready r) l = handle_all on_read on_write r l
  handle_selected _ l = some l

  -- `TimerScan` and the handlers, of a `select` that has not failed
  unfoldable pub scan_and_handle : ℕ → Selected → Main → Option Round
  scan_and_handle stamp answer m =
      let scan = timer_scan on_timer stamp m.timers in
      handle_selected answer (run_calls scan.0 m.loop) >>= λ l. some (record {
        main = record m { loop = l; timers = handler_timers l scan.1 };
        calls = scan.0;
        returned = false;
      })

  -- what follows `select` in a round
  unfoldable pub after_answer : ℕ → Selected → Main → Option Round
  after_answer stamp failed m = some (record { main = m; calls = []; returned = true })
  after_answer stamp answer m = scan_and_handle stamp answer m

  -- a round of `IvyMainLoop`
  unfoldable pub main_round : Turn → Main → Option Round
  main_round t m = deferred_delete m.loop >>= λ deleted.
      let l = run_hook m.before_select deleted in
      let timeout = get_smallest_timeout t.now (hooked m.before_select m.timers) in
      after_answer t.stamp (t.select l timeout.1)
        (record m { loop = run_hook m.after_select l; timers = timeout.0 })

  -- `IvyMainLoop`; the test of `MainLoop` stands in front of each round.
  unfoldable pub ivy_main_loop : List Turn → Main → Course
  ivy_main_loop [] m = if m.loop.main_loop then waiting m [] else ended m []
  ivy_main_loop (t ∷ turns) m =
      if m.loop.main_loop
      then elim (main_round t m) [
        | none ↦ faulted
        | some r ↦
            if r.returned
            then ended r.main r.calls
            else with_calls r.calls (ivy_main_loop turns r.main)
      ]
      else ended m []
