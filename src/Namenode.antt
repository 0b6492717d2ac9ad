-- ===== src/Namenode.antt =====
-- include/node/namenode.h and src/node/namenode.cpp: the handlers of the namenode's calls. A call
-- that changes the tree is checked against the leader's database and proposed as a log entry; its
-- response is set when the entry is applied.
pub mod Leader
pub mod Locking
pub mod Directories
pub mod Removal
use spkdfs.Prelude.{
  ℕ, Bool, true, false, not, Option, none, some, List, [], ◌∷◌, ◌++◌, ◌==◌, if◌then◌else◌,
}
use spkdfs.Exn.{
  Text, Result, ok, throw, abort, runtime_error, message_exception, redirect_to_master, throw_if,
  ◌>>=◌, ◌>>◌,
}
use spkdfs.Text.{same_text, codes}
use spkdfs.FsPath.{slash, is_empty}
use spkdfs.Json.{JsonLib}
use spkdfs.KvStore.{KvStore}
use spkdfs.Node.{Node, valid, to_string}
use spkdfs.Storage.{storage_from_string}
use spkdfs.Inode.{Inode, new_inode, get_default_dir, inode_value, update_ddl_lock}
use spkdfs.RocksDb.{RocksDb, prepare_mkdir, prepare_rm, prepare_put, prepare_put_ok}
use spkdfs.RocksDb as Db
use spkdfs.Reply.{Outcome, replied, done, crashed, Response, try_catch, fail_response}
use spkdfs.RaftNn.{op_mkdir, op_put, op_putok, op_rm, entry}

-- The calls' arguments, as in src/common/service.proto.
pub record PutRequest : Type 0 where
  pub path : Text
  pub storage_type : Text

pub record PutOkRequest : Type 0 where
  pub path : Text
  pub filesize : ℕ
  pub sub : List Text

unfoldable pub check_leader : Node → Text → Result (Unit {0})
check_leader leader my_ip = do
  throw_if (not (valid leader)) (runtime_error (codes "leader not ready"))
  throw_if (not (same_text leader.ip my_ip))
      (message_exception (record { code = redirect_to_master; message = leader.ip }))

require_path : Text → Result (Unit {0})
require_path path = throw_if (is_empty path) (runtime_error (codes "parameter path required"))

abbrev none_given : List Text → Bool
none_given [] = true
none_given (path ∷ paths) = false

-- `if (path[0] != '/') path = "/" + path;`
unfoldable pub rooted : Text → Text
rooted [] = []
rooted (c ∷ s) = if c == b'/' then c ∷ s else b'/' ∷ c ∷ s

unfoldable pub or_slash : Text → Text
or_slash [] = slash
or_slash (c ∷ s) = c ∷ s

module _ (S : KvStore) (J : JsonLib) (leader : Node) (my_ip : Text) where
  -- The listing is the inode's text. Every namenode answers it, the leader or not.
  list_path : RocksDb S → Text → Result Text
  list_path db path = do inode ← Db.ls S J db (new_inode (or_slash path)); inode_value J inode

  unfoldable pub ls : RocksDb S → Text → Outcome Text
  unfolding list_path
  ls db path = try_catch (list_path db path)

  make_directory : RocksDb S → Text → Result Text
  make_directory db path = do
    check_leader leader my_ip
    require_path path
    inode ← prepare_mkdir S J db (get_default_dir (rooted path))
    entry S J op_mkdir inode

  unfoldable pub mkdir : RocksDb S → Text → Outcome Text
  unfolding make_directory require_path
  mkdir db path = try_catch (make_directory db path)

  remove_path : RocksDb S → Text → Result Text
  remove_path db path = do
    check_leader leader my_ip
    require_path path
    inode ← prepare_rm S J db (new_inode path)
    entry S J op_rm inode

  unfoldable pub rm : RocksDb S → Text → Outcome Text
  unfolding remove_path require_path
  rm db path = try_catch (remove_path db path)

  put_file : ℕ → RocksDb S → PutRequest → Result Text
  put_file now db request = do
    check_leader leader my_ip
    require_path request.path
    inode ← prepare_put S J now db (new_inode request.path)
    storage ← storage_from_string request.storage_type
    entry S J op_put (record inode { storage_type_ptr = some storage })

  unfoldable pub put : ℕ → RocksDb S → PutRequest → Outcome Text
  unfolding put_file require_path
  put now db request = try_catch (put_file now db request)

  finish_file : RocksDb S → PutOkRequest → Result Text
  finish_file db request = do
    check_leader leader my_ip
    require_path request.path
    inode ← prepare_put_ok S J db (new_inode request.path)
    entry S J op_putok (record inode { sub = request.sub; filesize = request.filesize })

  unfoldable pub put_ok : RocksDb S → PutOkRequest → Outcome Text
  unfolding finish_file require_path
  put_ok db request = try_catch (finish_file db request)

  unfoldable pub get_master : Outcome Text
  get_master = try_catch (
      throw_if (not (valid leader)) (runtime_error (codes "leader not ready"))
      >> ok (to_string leader))

  -- One round of the loop of `update_lock`.
  lock_path : ℕ → RocksDb S → Text → Result Text
  lock_path now db path = do
    inode ← Db.ls S J db (new_inode path)
    entry S J op_put (update_ddl_lock now inode)

  -- What a round leaves: the entry in front of those that follow, or the end of the loop.
  after_lock : Result Text → List Text × Outcome (Unit {0}) → List Text × Outcome (Unit {0})
  after_lock (ok bytes) (more, end) = (bytes ∷ more, end)
  after_lock (throw e) rest = ([], replied (fail_response e))
  after_lock abort rest = ([], crashed)

  unfoldable pub lock_paths : ℕ → RocksDb S → List Text → List Text × Outcome (Unit {0})
  unfolding lock_path after_lock
  lock_paths now db [] = ([], done tt)
  lock_paths now db (path ∷ paths) = after_lock (lock_path now db path) (lock_paths now db paths)

  after_checks : Result (Unit {0}) → List Text × Outcome (Unit {0}) → List Text × Outcome (Unit {0})
  after_checks (ok u) rest = rest
  after_checks (throw e) rest = ([], replied (fail_response e))
  after_checks abort rest = ([], crashed)

  -- The entries that were proposed, one for each path up to the first that fails, and how it ended.
  unfoldable pub update_lock : ℕ → RocksDb S → List Text → List Text × Outcome (Unit {0})
  unfolding lock_paths after_checks
  update_lock now db paths =
      after_checks
        (check_leader leader my_ip
          >> throw_if (none_given paths) (runtime_error (codes "parameter paths required")))
        (lock_paths now db paths)
