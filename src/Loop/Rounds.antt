-- ===== src/Loop/Rounds.antt =====
-- src/ivyloop.c: `IvyMainLoop` round after round, and the data of its channels.
use libivy.Base.{ℕ, ◌≡◌, false, Option, some, List, [], ◌∷◌}
use libivy.Timer.{Timeval, Call}
use libivy.Loop.{Loop}
use libivy.Loop.Deletion.{IsLoop}
use libivy.Loop.Requests.{Fits, IsFair}
use libivy.Loop.Main.{Selected, ready, Main, Turn, Round, Course, ended, waiting, Handlers}

-- no exceptional condition is reported
abbrev pub HasNoException : Selected → Type 0
HasNoException (ready r) = (x : ℕ) → r.exset x ≡ false
HasNoException _ = Unit

abbrev pub AreQuiet : List Turn → Type 0
AreQuiet [] = Unit
AreQuiet (t ∷ turns) =
    ((l : Loop) (timeout : Option Timeval) → HasNoException (t.select l timeout)) × AreQuiet turns

pub record AreFair (h : Handlers) : Type 0 where
  pub fair_read : IsFair h.on_read
  pub fair_write : IsFair h.on_write
  pub fair_hook : IsFair h.on_hook
  pub fair_call : (c : Call) (l : Loop) → IsLoop l → Fits (h.on_call c l) l

-- The loop has returned or waits, and its channels are sound.
pub data IsSoundAt : Course → Type 0 where
  sound_end : {m : Main} (calls : List Call) → IsLoop m.loop → IsSoundAt (ended m calls)
  sound_wait : {m : Main} (calls : List Call) → IsLoop m.loop → IsSoundAt (waiting m calls)

record Steady (out : Option Round) : Type 0 where
  round : Round
  returns : out ≡ some round
  sound : IsLoop round.main.loop
