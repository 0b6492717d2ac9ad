-- ===== src/Sdk/Session.antt =====
-- `open`, `update_inode`, `_truncate`, `truncate`, `unlock` and `close` of src/client/sdk.cpp, for one
-- path: its lock, its inode in `local_inode_cache` and the files of its blocks. What the namenode
-- answers, and what `_create` and `fsync` come to, are parameters.
pub mod Truncate
use spkdfs.Prelude.{
  ℕ, zero, suc, Bool, true, false, not, Option, none, some, List, [], ◌∷◌, length, take, leb, ◌==◌,
  if◌then◌else◌,
}
use spkdfs.Prelude.Int.{ℤ, pos, negsuc, to_int}
use spkdfs.Exn.{Text, Exception, Result, ok, throw, abort, ◌>>=◌}
use spkdfs.Text.{same_text}
use spkdfs.Inode.{Inode, inode_block_size}
use spkdfs.PathLocks.{PathLock, Call, returns, waits, undefined, read_lock, write_lock}
use spkdfs.PathLocks
use spkdfs.Sdk.Transfer.{Called, check_call}
use spkdfs.Reply.{Response}
use spkdfs.Sdk.Indexes.{align_up}
use spkdfs.Sdk.Read.{Files, get_inode}
use spkdfs.Sdk.Write.{Local}
use spkdfs.Sdk.Fsync.{PutOk}

-- The lock of the path is among `locks`, under `get_tmp_path(path)`; `remote_lock` says whether the
-- path is in `remoteLocks`.
pub record Session : Type 0 where
  pub locks : List (Text × PathLock)
  pub remote_lock : Bool
  pub inode : Option Inode
  pub local : Local

-- A call that returns, throws, waits for a lock, or is undefined.
pub data Ran : Type 0 where
  done : Session → Ran
  thrown : Session → Exception → Ran
  blocked : Ran
  broken : Ran

-- What the namenode answers to `update_lock`, `ls` and `put_ok`, and what `_create` comes to.
pub record Answers : Type 0 where
  pub to_create : Result (Unit {0})
  pub to_lock : Called Response
  pub to_ls : Result Inode
  pub to_put_ok : PutOk → Called Response

abbrev pub and_then : Ran → (Session → Ran) → Ran
and_then (done s) rest = rest s
and_then (thrown s e) rest = thrown s e
and_then blocked rest = blocked
and_then broken rest = broken

unfoldable pub locked : Session → Call → Ran
locked s (returns locks) = done (record s { locks = locks })
locked s waits = blocked
locked s undefined = broken

-- A result that changes nothing here, and what follows it.
abbrev pub with_result : {A : Type 0} → Session → Result A → (A → Ran) → Ran
with_result s (ok a) rest = rest a
with_result s (throw e) rest = thrown s e
with_result s abort rest = broken

unfoldable pub drop_file : ℕ → Files → Files
drop_file i [] = []
drop_file i ((j, text) ∷ files) =
    let rest = drop_file i files in if j == i then rest else (j, text) ∷ rest

-- The files of the blocks from an index on, less those whose text is another one in the remote inode,
-- or is not there.
unfoldable pub remove_stale : ℕ → List Text → List Text → Files → Files
unfolding drop_file
remove_stale i [] remote files = files
remove_stale i (t ∷ local) [] files = remove_stale (suc i) local [] (drop_file i files)
remove_stale i (t ∷ local) (r ∷ remote) files =
    remove_stale (suc i) local remote (if same_text t r then files else drop_file i files)

unfoldable pub unlock : Text → Session → Ran
unfolding locked
unlock key s = locked (record s { remote_lock = false }) (PathLocks.unlock s.locks key)

cached_sub : Option Inode → List Text
cached_sub none = []
cached_sub (some inode) = inode.sub

unfoldable pub update_inode : Answers → Session → Ran
unfolding remove_stale cached_sub
update_inode a s = with_result s a.to_ls λ remote. done (record s {
  inode = some remote;
  local = record s.local { files = remove_stale 0 (cached_sub s.inode) remote.sub (s.local.files) };
})

-- `align_up(size, …)` items of `sub`; with more than there are it is undefined.
unfoldable pub first_items : ℤ → List Text → Result (List Text)
first_items (pos n) sub = if leb n (length sub) then ok (take n sub) else abort
first_items (negsuc n) sub = ok []

unfoldable pub truncate_to : Text → Answers → ℕ → Session → Ran
unfolding unlock first_items align_up
truncate_to key a size s = with_result s (get_inode s.inode) λ inode.
    let cut =
      with_result s
        (do
          bs ← inode_block_size inode
          n ← align_up (to_int size) bs
          sub ← first_items n inode.sub
          check_call (a.to_put_ok (record { filesize = size; sub = sub })))
        λ answered. unlock key s in
    if inode.filesize == size then done s else cut

lock_for : Text → Answers → Bool → Session → Ran
unfolding locked
lock_for key a false s = locked s (read_lock s.locks key)
lock_for key a true s = and_then (locked s (write_lock s.locks key)) λ s'.
    with_result s' (check_call a.to_lock)
      λ answered. done (record s' { remote_lock = true; local = record s'.local { linked = [] } })

create_if : Answers → Bool → Session → Ran
create_if a true s = with_result s a.to_create λ made. done s
create_if a false s = done s

truncate_if : Text → Answers → Bool → Session → Ran
unfolding truncate_to
truncate_if key a true s = truncate_to key a 0 s
truncate_if key a false s = done s

-- `open(path, flags)`, with the flags `O_CREAT`, not `O_RDONLY`, and `O_TRUNC`. Clearing the
-- directory `write` leaves no link.
unfoldable pub open_path : Text → Answers → Bool → Bool → Bool → Session → Ran
unfolding lock_for create_if truncate_if update_inode
open_path key a create write trunc s = and_then (create_if a create s) λ s1.
    and_then (lock_for key a write s1)
      λ s2. and_then (update_inode a s2) λ s3. truncate_if key a trunc s3

-- The size is not looked at.
unfoldable pub truncate : Text → Answers → ℕ → Session → Ran
unfolding open_path unlock
truncate key a size s = and_then (open_path key a false true true s) (unlock key)

-- `close`, for what `fsync` comes to.
unfoldable pub close : Text → Local × Result (Unit {0}) → Session → Ran
unfolding unlock
close key (local, r) s =
    let s' : Session = record s { local = local } in
    with_result s' r λ synced. unlock key (record s' { inode = none })
