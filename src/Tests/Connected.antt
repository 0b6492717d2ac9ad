-- ===== src/Tests/Connected.antt =====
-- The theorems on the client's connection and renewals and on the timer, at a cluster of three
-- namenodes and a namenode that fails twice.
use spkdfs.Prelude.{
  ◌≡◌, ◌≢◌, refl, ◌≤◌, ◌⊎◌, ℕ, ◌+◌, true, false, some, List, [], ◌∷◌, arith, get_elem?, ltb,
  if◌then◌else◌,
}
use spkdfs.Exn.{Text, ok}
use spkdfs.Text.{codes, same_text}
use spkdfs.Sdk.Connect.{
  Services, Connection, connect, first_slave, get_slave_namenode, init_channel, settle_slave,
}
use spkdfs.Sdk.Connect.Distinct.{connect-distinct}
use spkdfs.Sdk.Transfer.{failed, answered}
use spkdfs.Reply.{succ_response}
use spkdfs.Sdk.Renewal.{Master, Renewed, attempt, renew}
use spkdfs.Sdk.Renewal.Ends.{failing, Decides, renew_ends}
use spkdfs.Timer.{
  Timer, new_timer, waiting, in_run_func, terminated, joined, flagged, finished, Steps, none_yet,
  then_step, locks, wakes, returns, stops, loop_head, woken, free_mutex,
}
use spkdfs.Timer.Stopping.{stop_ends}

abbrev three : List Text
three = (1 ∷ []) ∷ (2 ∷ []) ∷ (3 ∷ []) ∷ []

-- The second namenode is the master.
abbrev services : Services
services = record {
  get_namenodes = λ datanode. ok three;
  get_master = λ namenode. ok (2 ∷ []);
  init = λ node. true;
}

abbrev connection : Connection
connection = record { slave = 3 ∷ []; master = 2 ∷ [] }

-- The first draw is the master, which is given up.
connected : connect services 4 1 (9 ∷ []) [] ≡ ok connection
unfolding connect first_slave get_slave_namenode init_channel settle_slave same_text codes
connected = refl

connect-distinct_example :
    (connection.slave ≢ connection.master)
    × ((connection.slave ≡ []) ⊎ ((i : ℕ) × (get_elem? three i ≡ some connection.slave)))
connect-distinct_example = connect-distinct services 4 1 (9 ∷ []) [] refl connected

-- The namenode counts the attempts, and the first two fail.
abbrev busy : Master
busy = record {
  State = ℕ;
  remote_locks = λ n. (1 ∷ []) ∷ [];
  update_lock = λ n paths. (n + 1, if ltb n 2 then failed [] else answered succ_response);
}

renew_ends_example :
    (k : ℕ) × (t : ℕ) × (r : Renewed ℕ) × (k ≤ 3)
    × (failing busy k 0 ≡ some t)
    × Decides busy k (attempt busy t) r
    × (renew busy 4 0 ≡ some r)
renew_ends_example = renew_ends busy 4 0 (omega arith) (λ e. cc)

-- A run, and then `stop()`.
abbrev stopped : Timer
stopped = record { running = false; thread = waiting; runs = 1; stopper = flagged }

stopped_reached : Steps new_timer stopped
unfolding loop_head woken free_mutex
stopped_reached =
    then_step (then_step (then_step (then_step none_yet (locks refl)) (wakes refl)) (returns refl))
      (stops refl refl)

abbrev ended : Timer
ended = record { running = false; thread = finished; runs = 1; stopper = flagged }

stop_ends_example :
    (ended.runs ≡ 1)
    × (ended.thread ≢ in_run_func)
    × ((ended.thread ≡ terminated) ⊎ ((v : Timer) × Steps ended v × (v.stopper ≡ joined)))
unfolding woken
stop_ends_example = stop_ends stopped_reached refl (then_step none_yet (wakes refl))
