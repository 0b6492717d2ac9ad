-- ===== src/PathLocks.antt =====
-- include/common/pathlocks.h and src/common/pathlocks.cpp: the client's locks, one for each path.
-- `std::shared_mutex` is a count of readers, or one writer.
pub mod Release
pub mod Twice
use spkdfs.Prelude.{
  ℕ, zero, suc, Bool, true, false, Option, none, some, List, [], ◌∷◌, if◌then◌else◌,
}
use spkdfs.Exn.{Text}
use spkdfs.Text.{same_text}

pub data Mutex : Type 0 where
  shared : ℕ → Mutex
  exclusive : Mutex

-- The flag of an entry, set when the entry is made, says whether its lock was made for a writer.
pub record PathLock : Type 0 where
  pub for_writer : Bool
  pub mutex : Mutex

-- A call that returns with the locks, one that waits, and one that the standard leaves undefined.
pub data Call : Type 0 where
  returns : List (Text × PathLock) → Call
  waits : Call
  undefined : Call

unfoldable pub find_lock : List (Text × PathLock) → Text → Option PathLock
find_lock [] key = none
find_lock ((k, l) ∷ locks) key =
    let rest = find_lock locks key in if same_text k key then some l else rest

unfoldable pub set_lock : Text → PathLock → List (Text × PathLock) → List (Text × PathLock)
set_lock key lock [] = (key, lock) ∷ []
set_lock key lock ((k, l) ∷ locks) =
    let rest = set_lock key lock locks in
    if same_text k key then (k, lock) ∷ locks else (k, l) ∷ rest

-- `if (locks.find(key) == locks.end()) locks[key] = make_pair(…);`, then `locks[key]`
unfoldable pub find_or_make : Bool → Option PathLock → PathLock
find_or_make for_writer none = record { for_writer = for_writer; mutex = shared 0 }
find_or_make for_writer (some lock) = lock

lock_shared : List (Text × PathLock) → Text → Bool → Mutex → Call
lock_shared locks key flag (shared n) =
    returns (set_lock key (record { for_writer = flag; mutex = shared (suc n) }) locks)
lock_shared locks key flag exclusive = waits

lock_exclusive : List (Text × PathLock) → Text → Bool → Mutex → Call
lock_exclusive locks key flag (shared zero) =
    returns (set_lock key (record { for_writer = flag; mutex = exclusive }) locks)
lock_exclusive locks key flag (shared (suc n)) = waits
lock_exclusive locks key flag exclusive = waits

unfoldable pub read_lock : List (Text × PathLock) → Text → Call
unfolding lock_shared
read_lock locks key =
    let lock = find_or_make false (find_lock locks key) in
    lock_shared locks key lock.for_writer lock.mutex

unfoldable pub write_lock : List (Text × PathLock) → Text → Call
unfolding lock_exclusive
write_lock locks key =
    let lock = find_or_make true (find_lock locks key) in
    lock_exclusive locks key lock.for_writer lock.mutex

-- By the flag: `unlock()`, or `unlock_shared()`. Releasing what is not held is undefined.
release : List (Text × PathLock) → Text → Bool → Mutex → Call
release locks key true exclusive =
    returns (set_lock key (record { for_writer = true; mutex = shared 0 }) locks)
release locks key true (shared n) = undefined
release locks key false (shared (suc n)) =
    returns (set_lock key (record { for_writer = false; mutex = shared n }) locks)
release locks key false (shared zero) = undefined
release locks key false exclusive = undefined

unlock_found : List (Text × PathLock) → Text → Option PathLock → Call
unfolding release
unlock_found locks key none = returns locks
unlock_found locks key (some lock) = release locks key lock.for_writer lock.mutex

unfoldable pub unlock : List (Text × PathLock) → Text → Call
unfolding unlock_found
unlock locks key = unlock_found locks key (find_lock locks key)
