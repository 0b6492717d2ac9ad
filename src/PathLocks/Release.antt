-- ===== src/PathLocks/Release.antt =====
-- Which locks are released as they were taken.
use spkdfs.Prelude.{
  ◌≡◌, refl, subst, zero, suc, Bool, true, false, Bool-cases, inl, inr, some, List, [], ◌∷◌,
}
use spkdfs.Exn.{Text}
use spkdfs.Text.{same_text, same_text_refl}
use spkdfs.PathLocks.{
  PathLock, Mutex, shared, exclusive, returns, undefined, find_lock, set_lock, find_or_make,
  write_lock, unlock, lock_exclusive,
}

pub find_lock-set_lock :
    (key : Text) (lock : PathLock) (locks : List (Text × PathLock))
    → find_lock (set_lock key lock locks) key ≡ some lock
unfolding find_lock set_lock
find_lock-set_lock key lock [] = rw (same_text_refl key) refl
find_lock-set_lock key lock ((k, l) ∷ locks) = elim (Bool-cases (same_text k key)) [
  | inl e ↦ rw e (rw e refl)
  | inr e ↦ rw e (rw e (find_lock-set_lock key lock locks))
]

returns_injective : {a b : List (Text × PathLock)} → returns a ≡ returns b → a ≡ b
returns_injective p = cc

lock_exclusive-eq-returns :
    (locks locks' : List (Text × PathLock)) (key : Text) (w : Bool) (m : Mutex)
    → lock_exclusive locks key w m ≡ returns locks'
    → find_lock locks' key ≡ some (record { for_writer = w; mutex = exclusive })
unfolding lock_exclusive
lock_exclusive-eq-returns locks locks' key w (shared zero) e =
    subst (λ l. find_lock l key ≡ some (record { for_writer = w; mutex = exclusive }))
      (returns_injective e) (find_lock-set_lock key _ locks)
lock_exclusive-eq-returns locks locks' key w (shared (suc n)) e = absurd (cc)
lock_exclusive-eq-returns locks locks' key w exclusive e = absurd (cc)

write_lock-eq-returns :
    (locks locks' : List (Text × PathLock)) (key : Text)
    → write_lock locks key ≡ returns locks'
    → find_lock locks' key
      ≡ some (record {
        for_writer = (find_or_make true (find_lock locks key)).for_writer;
        mutex = exclusive;
      })
unfolding write_lock
write_lock-eq-returns locks locks' key e = lock_exclusive-eq-returns locks locks' key _ _ e

-- A path that is locked for writing is released by `unlock` if the path's entry was made for a
-- writer: then its lock is free. If the entry was made for a reader, `unlock` releases a shared lock
-- that nobody holds, which the standard leaves undefined.
pub unlock-write_lock :
    (locks locks' : List (Text × PathLock)) (key : Text)
    → write_lock locks key ≡ returns locks'
    → ((find_or_make true (find_lock locks key)).for_writer ≡ true
        → (freed : List (Text × PathLock)) × (unlock locks' key ≡ returns freed)
          × (find_lock freed key ≡ some (record { for_writer = true; mutex = shared 0 })))
      × ((find_or_make true (find_lock locks key)).for_writer ≡ false
          → unlock locks' key ≡ undefined)
unfolding unlock
unlock-write_lock locks locks' key e =
    let held = write_lock-eq-returns locks locks' key e in
    (
      λ w. (
        set_lock key (record { for_writer = true; mutex = shared 0 }) locks',
        rw held (rw w refl),
        find_lock-set_lock key (record { for_writer = true; mutex = shared 0 }) locks',
      ),
      λ r. rw held (rw r refl),
    )
