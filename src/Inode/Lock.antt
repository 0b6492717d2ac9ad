-- ===== src/Inode/Lock.antt =====
-- The lease of a file: it is taken where it has ended, and while it runs it is refused.
use spkdfs.Prelude.{ℕ, ◌+◌, ◌≤◌, ◌<◌, ◌^◌, ◌≡◌, arith, leb, Bool-cases, inl, inr}
use spkdfs.Exn.{ok, throw, message_exception, expected_lock_conflict}
use spkdfs.Inode.{Inode, lock, update_ddl_lock, being_edited, lock_refresh_interval}

pub lock-eq-ok :
    (now : ℕ) (inode : Inode) {inode' : Inode}
    → lock now inode ≡ ok inode'
    → (inode' ≡ update_ddl_lock now inode) × (inode.ddl_lock < now)
unfolding lock
lock-eq-ok now inode e = elim (Bool-cases (leb now inode.ddl_lock)) [
  | inl b ↦ absurd (cc (rw b at e))
  | inr b ↦ (ground (arith, rw b at e), ground arith)
]

-- Before the lease ends nobody takes it.
pub lock_refused :
    (now : ℕ) (inode : Inode)
    → now ≤ inode.ddl_lock
    → lock now inode
      ≡ throw (
          message_exception
            (record { code = expected_lock_conflict; message = being_edited now inode }))
unfolding lock
lock_refused now inode h = ground arith

-- A lease that is taken lasts for the interval, unless the clock is about to overflow.
pub ddl_lock-update_ddl_lock :
    (now : ℕ) (inode : Inode)
    → now + lock_refresh_interval < 2 ^ 64
    → (update_ddl_lock now inode).ddl_lock ≡ now + lock_refresh_interval
unfolding update_ddl_lock
ddl_lock-update_ddl_lock now inode h = omega arith
