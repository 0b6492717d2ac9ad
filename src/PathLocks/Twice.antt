-- ===== src/PathLocks/Twice.antt =====
-- A lock that is taken for writing and released, once and twice.
use spkdfs.Prelude.{◌≡◌, refl, true, List}
use spkdfs.Exn.{Text}
use spkdfs.PathLocks.{
  PathLock, shared, exclusive, returns, undefined, find_lock, set_lock, find_or_make, write_lock,
  unlock, lock_exclusive, unlock_found, release,
}
use spkdfs.PathLocks.Release.{find_lock-set_lock}

abbrev pub held_lock : PathLock
held_lock = record { for_writer = true; mutex = exclusive }

pub write_lock-free :
    (locks : List (Text × PathLock)) (key : Text)
    → find_or_make true (find_lock locks key) ≡ record { for_writer = true; mutex = shared 0 }
    → write_lock locks key ≡ returns (set_lock key held_lock locks)
unfolding write_lock lock_exclusive
write_lock-free locks key e = rw e refl

pub unlock-held :
    (locks : List (Text × PathLock)) (key : Text)
    → unlock (set_lock key held_lock locks) key
      ≡ returns (
          set_lock key
            (record { for_writer = true; mutex = shared 0 })
            (set_lock key held_lock locks))
unfolding unlock unlock_found release
unlock-held locks key = rw (find_lock-set_lock key held_lock locks) refl

pub unlock-freed :
    (locks : List (Text × PathLock)) (key : Text)
    → unlock (set_lock key (record { for_writer = true; mutex = shared 0 }) locks) key ≡ undefined
unfolding unlock unlock_found release
unlock-freed locks key =
    rw (find_lock-set_lock key (record { for_writer = true; mutex = shared 0 }) locks) refl
