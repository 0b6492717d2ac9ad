-- ===== src/RocksDb/Setup.antt =====
-- The constructor, `open` and `close` of src/node/rocksdb.cpp, and `mkdir_f` of src/common/utils.cpp.
-- What the file system and the library answer is given.
use spkdfs.Prelude.{Bool, Option, none, some, ◌++◌, if◌then◌else◌}
use spkdfs.Exn.{Text, Result, ok, throw, runtime_error, ◌>>=◌, ◌>>◌, or_end}
use spkdfs.Text.{codes}
use spkdfs.KvStore.{KvStore}
use spkdfs.RocksDb.{RocksDb}

-- What `create_directories` returns, and the message of its error code, if there is one.
pub record Created : Type 0 where
  pub created : Bool
  pub error : Option Text

directory_error : Text → Option Text → Result (Unit {0})
directory_error dir none = ok tt
directory_error dir (some message) =
    throw (runtime_error (codes "mkdir error: " ++ (dir ++ message)))

-- A directory that is there already is not created, and that is no error.
unfoldable pub mkdir_f : Text → Created → Result (Unit {0})
unfolding directory_error
mkdir_f dir answer = if answer.created then ok tt else directory_error dir answer.error

module _ (S : KvStore) where
  -- `DB::Open` on what the directory holds; the assertion fails if it does not open.
  unfoldable pub open_origin : S.State → RocksDb S → Result (RocksDb S)
  open_origin held db = do s ← or_end (S.open_db held); ok (record db { db_ptr = some s })

  unfoldable pub close : RocksDb S → RocksDb S
  close db = record db { db_ptr = none }

  unfoldable pub new_rocks_db :
      Text → Created → Created → Option S.Backups → S.State → Result (RocksDb S)
  new_rocks_db db_dir origin backup engine held = do
    mkdir_f (db_dir ++ codes "/origin") origin
    mkdir_f (db_dir ++ codes "/backup") backup
    backups ← or_end engine
    open_origin held (record { db_ptr = none; backups = backups })
