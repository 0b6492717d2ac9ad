-- ===== src/RocksDb.antt =====
-- include/node/rocksdb.h and src/node/rocksdb.cpp: the inodes of the file system in a key-value
-- store, keyed by path. `prepare_*` check a request against the store before it is proposed;
-- `internal_*` apply an agreed operation. The store, JSON and the time are parameters.
pub mod Contents
pub mod Tree
pub mod Consistency
pub mod Refinement
pub mod Requests
pub mod Snapshots
pub mod Determined
pub mod Setup
use spkdfs.Prelude.{
  ℕ, Bool, true, false, not, ◌&&◌, Option, none, some, List, [], ◌∷◌, ◌++◌, any, keep_if,
  if◌then◌else◌,
}
use spkdfs.Exn.{
  Text, Exception, Result, ok, throw, abort, ErrorCode, message_exception, runtime_error,
  path_exists_exception, path_not_exists_exception, expected_file_exception, throw_if, assert,
  ◌>>=◌, ◌>>◌,
}
use spkdfs.Text.{same_text, codes}
use spkdfs.FsPath.{slash}
use spkdfs.Json.{JsonLib}
use spkdfs.KvStore.{KvStore, Lookup, found, not_found, get_failed, Written, written, write_failed}
use spkdfs.Inode.{
  Inode, get_default_dir, new_inode, filename, parent_path, lock, unlock, inode_value, parse_inode,
}

-- `db_ptr` and the backup engine.
pub record RocksDb (S : KvStore) : Type 0 where
  pub db_ptr : Option S.State
  pub backups : S.Backups

abbrev pub path_error : ErrorCode → Text → Exception
path_error code path = message_exception (record { code = code; message = path })

-- `std::find` and `push_back` of a name that is not there yet.
unfoldable pub add_name : Text → List Text → List Text
add_name name sub = if any (λ n. same_text n name) sub then sub else sub ++ name ∷ []

-- `std::remove` and `erase` of a name.
unfoldable pub remove_name : Text → List Text → List Text
remove_name name sub = keep_if (λ n. not (same_text n name)) sub

module _ (S : KvStore) (J : JsonLib) where
  -- `if (db_ptr == nullptr) throw …`
  or_not_ready : Option S.State → Result S.State
  or_not_ready none = throw (runtime_error (codes "db not ready"))
  or_not_ready (some s) = ok s

  unfoldable pub ready : RocksDb S → Result S.State
  unfolding or_not_ready
  ready db = or_not_ready db.db_ptr

  valid_of_lookup : Lookup → Result Bool
  valid_of_lookup not_found = ok false
  valid_of_lookup (get_failed status) = throw (runtime_error (codes "unknown error rocksdb get()"))
  valid_of_lookup (found value) = do inode ← parse_inode J value; ok inode.valid

  unfoldable pub path_exists : RocksDb S → Text → Result Bool
  unfolding valid_of_lookup
  path_exists db path =
      if same_text path slash then ok true else do s ← ready db; valid_of_lookup (S.get s path)

  unfoldable pub try_to_rm : RocksDb S → Inode → Result (Unit {0})
  try_to_rm db inode = do
    there ← path_exists db inode.fullpath
    throw_if (not there) (path_error path_not_exists_exception inode.fullpath)

  unfoldable pub try_to_add : RocksDb S → Inode → Result (Unit {0})
  try_to_add db inode = do
    parent_there ← path_exists db (parent_path inode)
    throw_if (not parent_there) (path_error path_not_exists_exception (parent_path inode))
    there ← path_exists db inode.fullpath
    throw_if there (path_error path_exists_exception inode.fullpath)

  inode_of_lookup : Inode → Lookup → Result Inode
  inode_of_lookup inode not_found = ok (
      if same_text inode.fullpath slash
      then record inode { is_directory = true; valid = true }
      else record inode { valid = false })
  inode_of_lookup inode (get_failed status) = throw (runtime_error status)
  inode_of_lookup inode (found value) = parse_inode J value

  -- The inode at the path of `inode`, which is overwritten.
  unfoldable pub get_inode : RocksDb S → Inode → Result Inode
  unfolding inode_of_lookup
  get_inode db inode = do s ← ready db; inode_of_lookup inode (S.get s inode.fullpath)

  unfoldable pub ls : RocksDb S → Inode → Result Inode
  ls db inode = do
    inode' ← get_inode db inode
    throw_if (not inode'.valid) (path_error path_not_exists_exception inode'.fullpath)
    ok inode'

  unfoldable pub get : RocksDb S → Inode → Result Inode
  get db inode = do
    inode' ← get_inode db inode
    throw_if (not inode'.valid) (path_error path_not_exists_exception inode'.fullpath)
    throw_if inode'.is_directory (runtime_error (codes "cannot get directory"))
    ok inode'

  unfoldable pub prepare_mkdir : RocksDb S → Inode → Result Inode
  prepare_mkdir db inode = do s ← ready db; try_to_add db inode; ok inode

  unfoldable pub prepare_put : ℕ → RocksDb S → Inode → Result Inode
  prepare_put now db inode = do
    inode' ← get_inode db inode
    throw_if (inode'.valid && inode'.is_directory)
        (path_error path_exists_exception inode'.fullpath)
    lock now (record inode' { is_directory = false; valid = true })

  -- The value is written to the log first, which fails where the path is not UTF-8.
  unfoldable pub prepare_put_ok : RocksDb S → Inode → Result Inode
  prepare_put_ok db inode = do
    s ← ready db
    logged ← inode_value J inode
    inode' ← get_inode db inode
    throw_if (not inode'.valid) (path_error path_not_exists_exception inode'.fullpath)
    throw_if inode'.is_directory (path_error expected_file_exception inode'.fullpath)
    ok inode'

  unfoldable pub prepare_rm : RocksDb S → Inode → Result Inode
  prepare_rm db inode = do try_to_rm db inode; ok (record inode { valid = false })

  parent_of_lookup : Text → Lookup → Result Inode
  parent_of_lookup path not_found = do assert (same_text path slash); ok (get_default_dir slash)
  parent_of_lookup path (found value) = parse_inode J value
  parent_of_lookup path (get_failed status) =
      throw (runtime_error (codes "parent add sub, internal get not ok" ++ status))

  unfoldable pub get_parent_inode : S.State → Inode → Result Inode
  unfolding parent_of_lookup
  get_parent_inode s inode = parent_of_lookup (parent_path inode) (S.get s (parent_path inode))

  or_write_failed : RocksDb S → Text → Written S.State → Result (RocksDb S)
  or_write_failed db what (write_failed status) = throw (runtime_error (what ++ status))
  or_write_failed db what (written s) = ok (record db { db_ptr = some s })

  -- `WriteBatch` of two inodes, the first one put first.
  unfoldable pub write_two : RocksDb S → S.State → Inode → Inode → Result (RocksDb S)
  unfolding or_write_failed
  write_two db s first second = do
    first_value ← inode_value J first
    second_value ← inode_value J second
    or_write_failed db (codes "batch write not ok")
        (S.write s ((first.fullpath, first_value) ∷ (second.fullpath, second_value) ∷ []))

  unfoldable pub internal_rm : RocksDb S → Inode → Result (RocksDb S)
  internal_rm db inode = do
    s ← ready db
    parent ← get_parent_inode s inode
    write_two db s (record parent { sub = remove_name (filename inode) parent.sub }) inode

  unfoldable pub internal_mkdir : RocksDb S → Inode → Result (RocksDb S)
  internal_mkdir db inode = do
    s ← ready db
    logged ← inode_value J inode
    parent ← get_parent_inode s inode
    write_two db s (record parent { sub = add_name (filename inode) parent.sub }) inode

  unfoldable pub internal_put : RocksDb S → Inode → Result (RocksDb S)
  unfolding or_write_failed
  internal_put db inode = do
    s ← ready db
    value ← inode_value J inode
    or_write_failed db (codes "internal put not ok") (S.put s inode.fullpath value)

  unfoldable pub internal_put_ok : RocksDb S → Inode → Result (RocksDb S)
  internal_put_ok db inode = do
    s ← ready db
    parent ← get_parent_inode s inode
    old ← get_inode db (new_inode inode.fullpath)
    logged ← inode_value J inode
    write_two db s (record parent { sub = add_name (filename inode) parent.sub })
        (record (unlock old) { sub = inode.sub; filesize = inode.filesize })

  or_abort : {A : Type 0} → Option A → Result A
  or_abort none = abort
  or_abort (some a) = ok a

  unfoldable pub snapshot : RocksDb S → Result (RocksDb S)
  unfolding or_abort
  snapshot db = do
    s ← ready db
    backups ← or_abort (S.create_backup db.backups s)
    ok (record db { backups = backups })

  -- `close(); RestoreDBFromLatestBackup(…); open();`
  unfoldable pub load_snapshot : RocksDb S → Result (RocksDb S)
  unfolding or_abort
  load_snapshot db = do
    restored ← or_abort (S.restore_latest db.backups)
    s ← or_abort (S.open_db restored)
    ok (record db { db_ptr = some s })
