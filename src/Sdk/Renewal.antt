-- ===== src/Sdk/Renewal.antt =====
-- The function that the client's timer runs, in the constructor of `SDK` in src/client/sdk.cpp, and
-- `_lock_remote`: the leases of the paths that are locked at the namenode are renewed. The client's
-- state is a parameter, with the paths in `remoteLocks` and the call of `update_lock`.
pub mod Ends
use spkdfs.Prelude.{ℕ, zero, suc, ◌/◌, max, Option, none, some, List, [], ◌∷◌, leb, if◌then◌else◌}
use spkdfs.Exn.{Text, Exception, Result, ok, throw, abort}
use spkdfs.Reply.{Response}
use spkdfs.Inode.{lock_refresh_interval}
use spkdfs.Sdk.Transfer.{Called, check_call}

-- `max(LOCK_REFRESH_INTERVAL >> 2, 5)`, in seconds
unfoldable pub renewal_interval : ℕ
renewal_interval = max (lock_refresh_interval / 4) 5

pub record Master : Type 1 where
  pub State : Type 0
  pub remote_locks : State → List Text
  pub update_lock : State → List Text → State × Called Response

-- How the function ends.
pub data Renewed (S : Type 0) : Type 0 where
  renewed : S → Renewed S
  timed_out : S → Exception → Renewed S
  broken : Renewed S

module _ (M : Master) where
  unfoldable pub lock_remote : M.State → List Text → M.State × Result (Unit {0})
  lock_remote s paths = let (s', called) = M.update_lock s paths in (s', check_call called)

  -- One round of `while (true)`: the paths are read anew for each attempt.
  unfoldable pub attempt : M.State → M.State × Result (Unit {0})
  attempt s = lock_remote s (M.remote_locks s)

  -- `break`, or the `catch` clause.
  unfoldable pub after_attempt :
      ℕ
      → M.State × Result (Unit {0})
      → (M.State → Option (Renewed M.State))
      → Option (Renewed M.State)
  after_attempt retry_count (s, ok done) again = some (renewed s)
  after_attempt retry_count (s, throw e) again =
      if leb 3 retry_count then some (timed_out s e) else again s
  after_attempt retry_count (s, abort) again = some broken

  -- The loop on fuel: none where there is too little.
  unfoldable pub retry_loop : ℕ → ℕ → M.State → Option (Renewed M.State)
  retry_loop zero retry_count s = none
  retry_loop (suc fuel) retry_count s =
      after_attempt retry_count (attempt s) (retry_loop fuel (suc retry_count))

  -- `if (remoteLocks.empty()) return;`
  start_renewal : ℕ → M.State → List Text → Option (Renewed M.State)
  start_renewal fuel s [] = some (renewed s)
  start_renewal fuel s (path ∷ paths) = retry_loop fuel 0 s

  unfoldable pub renew : ℕ → M.State → Option (Renewed M.State)
  unfolding start_renewal
  renew fuel s = start_renewal fuel s (M.remote_locks s)
