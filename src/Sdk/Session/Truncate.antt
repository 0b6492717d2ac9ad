-- ===== src/Sdk/Session/Truncate.antt =====
-- What `truncate` does to the lock of its path.
use spkdfs.Prelude.{
  ℕ, ◌+◌, ◌<◌, ◌≤◌, ◌-◌, ◌/◌, ◌≡◌, refl, ap, true, false, some, List, [], length, leb, ◌==◌, arith,
}
use spkdfs.Prelude.Int.{pos, to_int, int_max}
use spkdfs.Storage.{as_int}
use spkdfs.Sdk.Indexes.Covers.{inode_block_size-IsInt}
use spkdfs.Exn.{Text, ok}
use spkdfs.Inode.{Inode, inode_block_size}
use spkdfs.PathLocks.{shared, find_lock, set_lock, find_or_make}
use spkdfs.PathLocks.Twice.{held_lock, write_lock-free, unlock-held, unlock-freed}
use spkdfs.PathLocks.Release.{find_lock-set_lock}
use spkdfs.Sdk.Transfer.{check_call}
use spkdfs.Sdk.Indexes.{align_up, div_int}
use spkdfs.Sdk.Read.{get_inode}
use spkdfs.Sdk.Fsync.{PutOk}
use spkdfs.Sdk.Session.{
  Session, done, broken, Answers, locked, unlock, update_inode, first_items, truncate_to,
  remove_stale, cached_sub, lock_for, create_if, truncate_if, open_path, truncate,
}

align_up-zero : (bs : ℕ) → 0 < bs → bs ≤ int_max → align_up (to_int 0) (pos bs) ≡ ok (pos 0)
unfolding align_up div_int to_int as_int
align_up-zero bs h fits =
    let f : leb (0 + bs) int_max ≡ true = ground arith in
    let a : leb (0 + 1) (0 + bs) ≡ true = ground arith in
    let b : (bs == 0) ≡ false = ground arith in
    let c : (0 + bs - (0 + 1)) / bs ≡ 0 = grind arith in rw f (rw a (rw b (ap (λ n. ok (pos n)) c)))

first_items-zero : (sub : List Text) → first_items (pos 0) sub ≡ ok []
unfolding first_items
first_items-zero sub = let a : leb 0 (length sub) ≡ true = ground arith in rw a refl

-- A `truncate` takes the lock of its path for writing. For an empty file it releases the lock again.
-- For any other file, where the namenode accepts every request, the lock is released by `_truncate`
-- and once more by `truncate`, which is undefined. The path's lock is free before, and made for a
-- writer.
pub truncate-unlocks :
    (key : Text) (a : Answers) (size bs : ℕ) (s : Session) (remote : Inode)
    → find_or_make true (find_lock s.locks key) ≡ record { for_writer = true; mutex = shared 0 }
    → check_call a.to_lock ≡ ok tt
    → a.to_ls ≡ ok remote
    → ((request : PutOk) → check_call (a.to_put_ok request) ≡ ok tt)
    → inode_block_size remote ≡ ok (pos bs)
    → 0 < bs
    → (remote.filesize ≡ 0
        → (s' : Session) × (truncate key a size s ≡ done s')
          × (find_lock s'.locks key ≡ some (record { for_writer = true; mutex = shared 0 })))
      × (0 < remote.filesize → truncate key a size s ≡ broken)
unfolding truncate open_path lock_for create_if truncate_if update_inode truncate_to locked unlock
    get_inode
truncate-unlocks key a size bs s remote free lock_ok listed put_ok size_is positive = (
  λ empty.
      let same : (remote.filesize == 0) ≡ true = ground arith in
      (
        record {
          locks =
              set_lock key (record { for_writer = true; mutex = shared 0 })
                (set_lock key held_lock s.locks);
          remote_lock = false;
          inode = some remote;
          local = record {
            files = remove_stale 0 (cached_sub s.inode) remote.sub s.local.files;
            linked = [];
          };
        },
        rw (write_lock-free s.locks key free)
            (rw lock_ok (rw listed (rw same (rw (unlock-held s.locks key) refl)))),
        find_lock-set_lock key _ (set_lock key held_lock s.locks),
      ),
  λ nonempty.
      let other : (remote.filesize == 0) ≡ false = ground arith in
      rw (write_lock-free s.locks key free) (
        rw lock_ok (
          rw listed (
            rw other (
              rw size_is (
                rw (align_up-zero bs positive (inode_block_size-IsInt remote bs size_is)) (
                  rw (first_items-zero remote.sub) (
                    rw (put_ok (record { filesize = 0; sub = [] })) (
                      rw (unlock-held s.locks key)
                        (rw (unlock-freed (set_lock key held_lock s.locks) key) refl))))))))),
)
