-- ===== src/Loop/Tests.antt =====
-- Two channels, of which the first is marked.
use libivy.Base.{◌≡◌, refl, true, false, none, List, [], ◌∷◌, ◌==◌, remove_if}
use mathlib.Core.List.{Memᴰ}
use libivy.Loop.{
  Channel, Loop, Ready, to_remove, to_stop, not_to_write, deferred_delete, handle_all,
}
use libivy.Loop.Deletion.{has_fd, is_marked, IsLoop, Deletes, deferred_delete-Deletes}
use libivy.Loop.Exceptions.{exception_faults}
use libivy.Loop.Main.{Main, Turn, Handlers, timed_out, ready}

abbrev closed : Channel
closed = record { fd = 5; user = 1; tobedeleted = true }

abbrev open_channel : Channel
open_channel = record { fd = 6; user = 2; tobedeleted = false }

abbrev loop : Loop
loop = record {
  channels_list = closed ∷ open_channel ∷ [];
  open_fds = λ x. has_fd x (closed ∷ open_channel ∷ []);
  wrdy_fds = λ x. x == 5;
  highest_fd = 7;
  freed = 9 ∷ [];
  main_loop = true;
  channel_initialized = true;
}

loop-IsLoop : IsLoop loop
loop-IsLoop = record {
  all_sound = (refl, refl, refl, (refl, refl, refl, tt));
  watched = λ x. refl;
  writable = λ x h. rw h refl;
}

deferred_delete-Deletes_example :
    Deletes (remove_if is_marked (closed ∷ open_channel ∷ [])) (deferred_delete loop)
deferred_delete-Deletes_example = deferred_delete-Deletes loop loop-IsLoop

abbrev urgent : Ready
urgent = record { rdset = λ x. x == 6; wrset = λ x. false; exset = λ x. x == 6 }

exception_faults_example :
    handle_all (λ user l. to_remove user ∷ []) (λ user l. []) urgent loop ≡ none
exception_faults_example =
    exception_faults (λ user l. to_remove user ∷ []) (λ user l. []) urgent open_channel loop
      (Memᴰ.tail (Memᴰ.head refl)) refl refl

-- the handlers remove their channel and stop the loop, or are done with writing
abbrev handlers : Handlers
handlers = record {
  on_read = λ user l. to_remove user ∷ to_stop ∷ [];
  on_write = λ user l. not_to_write 6 ∷ [];
  on_hook = λ hook l. [];
  on_timer = λ call s. s;
  on_call = λ call l. to_remove 2 ∷ [];
  hook_timers = λ hook s. s;
  handler_timers = λ l s. s;
}

abbrev main : Main
main = record {
  loop = loop;
  timers = record {
    timers = [];
    is_set = false;
    select_timeout = record { tv_sec = 0; tv_usec = 0 };
    next_timeout = 0;
    made = 0;
  };
  before_select = none;
  after_select = none;
}

-- nothing comes in time, and then the second channel can be read
abbrev turns : List Turn
turns =
    record { now = 1; select = λ l timeout. timed_out; stamp = 2 }
    ∷ record {
      now = 3;
      select = λ l timeout.
          ready (record { rdset = λ x. x == 6; wrset = λ x. false; exset = λ x. false });
      stamp = 4;
    }
    ∷ []
