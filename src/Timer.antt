-- ===== src/Timer.antt =====
-- `IntervalTimer` of include/common/utils.h and src/common/utils.cpp: its thread and `stop()`, as the
-- steps that the two take in any order. The thread holds the mutex but while it waits.
pub mod Stopping
use spkdfs.Prelude.{◌≡◌, ℕ, suc, Bool, true, false}

-- Where the thread stands: before it locks the mutex, in `wait_for`, in `runFunc`, at its end, or
-- left by an exception, which ends the process.
pub data Thread : Type 0 where
  starting : Thread
  waiting : Thread
  in_run_func : Thread
  finished : Thread
  terminated : Thread

-- Where the caller of `stop()` stands: before it, behind `running = false`, or behind `join()`.
pub data Stopper : Type 0 where
  idle : Stopper
  flagged : Stopper
  joined : Stopper

-- `running`, the thread, the calls of `runFunc` that have begun, and the caller of `stop()`.
pub record Timer : Type 0 where
  pub running : Bool
  pub thread : Thread
  pub runs : ℕ
  pub stopper : Stopper

abbrev pub new_timer : Timer
new_timer = record { running = true; thread = starting; runs = 0; stopper = idle }

-- `while (running)`
unfoldable pub loop_head : Bool → Thread
loop_head true = waiting
loop_head false = finished

-- `if (running) this->runFunc();` after `wait_for`, and the loop's test where it is not called.
unfoldable pub woken : Timer → Bool → Timer
woken t true = record t { thread = in_run_func; runs = suc t.runs }
woken t false = record t { thread = finished }

-- The mutex is free but while `runFunc` runs.
unfoldable pub free_mutex : Thread → Bool
free_mutex in_run_func = false
free_mutex _ = true

pub data Step (t : Timer) : Timer → Type 0 where
  locks : t.thread ≡ starting → Step t (record t { thread = loop_head t.running })
  -- The interval is over, or `notify_one` or nothing at all wakes it.
  wakes : t.thread ≡ waiting → Step t (woken t t.running)
  returns : t.thread ≡ in_run_func → Step t (record t { thread = loop_head t.running })
  -- `runFunc` throws a `TimeoutException`, and `timeoutFunc` returns or is null.
  times_out : t.thread ≡ in_run_func → Step t (record t { thread = finished })
  -- `runFunc` throws another exception, or `timeoutFunc` throws one.
  escapes : t.thread ≡ in_run_func → Step t (record t { thread = terminated })
  stops :
      t.stopper ≡ idle
      → free_mutex t.thread ≡ true
      → Step t (record t { running = false; stopper = flagged })
  joins : t.stopper ≡ flagged → t.thread ≡ finished → Step t (record t { stopper = joined })

-- What can follow.
pub data Steps (t : Timer) : Timer → Type 0 where
  none_yet : Steps t t
  then_step : {u v : Timer} → Steps t u → Step u v → Steps t v
