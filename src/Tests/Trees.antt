-- ===== src/Tests/Trees.antt =====
-- The namenode's theorems, at a database to which a few calls are applied.
use spkdfs.Prelude.{◌≡◌, refl, true, false, none, some, List, [], ◌∷◌, ◌++◌, arith, length}
use spkdfs.Prelude.Int.{pos}
use spkdfs.Exn.{
  Text, Result, ok, throw, path_exists_exception, path_not_exists_exception, expected_lock_conflict,
}
use spkdfs.Text.{same_text, codes}
use spkdfs.Text.Split.{tokens}
use spkdfs.Text.Decimal.{stoi, is_digit}
use spkdfs.FsPath.{simplify_path, slash}
use spkdfs.FsPath as FsPath
use spkdfs.FsPath.Parent.{IsChild}
use spkdfs.Json.{or_json_error}
use spkdfs.Storage.{storage_from_string, match_rs, match_re, group}
use spkdfs.Storage.JsonForm.{
  storage_to_json, storage_from_json, key_type, key_k, key_m, key_b, key_replications, rs_type,
  re_type,
}
use spkdfs.Inode.{
  Inode, get_default_dir, new_inode, inode_value, parse_inode, key_fullpath, key_is_directory,
  key_filesize, key_sub, key_valid, key_ddl_lock, key_storage_type, lock_refresh_interval,
}
use spkdfs.Inode as Inode
use spkdfs.Node.{Node, online, valid}
use spkdfs.Reply.{Outcome, replied, done, try_catch, fail_response, Response}
use spkdfs.RocksDb.{
  RocksDb, snapshot, load_snapshot, prepare_mkdir, prepare_rm, prepare_put, try_to_add, try_to_rm,
  path_exists, ready, get_inode, get_parent_inode, write_two, internal_rm, internal_mkdir,
  internal_put, add_name, remove_name, path_error,
}
use spkdfs.RocksDb as Db
use spkdfs.RocksDb.Contents.{IsOpen, inode_at}
use spkdfs.RocksDb.Tree.{parent_in}
use spkdfs.RocksDb.Refinement.{Refines}
use spkdfs.RocksDb.Snapshots.{load_snapshot-snapshot}
use spkdfs.RaftNn.{settle, op_rm, entry, apply_entry, on_apply, op_byte, op_of_byte, perform}
use spkdfs.RaftNn.Keeps.{
  apply_entry-IsOpen, perform-Refines, on_apply-IsOpen, apply_entry-entry, tree_op,
}
use spkdfs.Namenode.{
  PutRequest, PutOkRequest, mkdir, rm, put, put_ok, update_lock, check_leader, rooted,
}
use spkdfs.Namenode.Leader.{redirect_to_leader, redirect}
use spkdfs.Namenode.Directories.{mkdir_listed, has_name}
use spkdfs.Namenode.Locking.{put_excludes}
use spkdfs.Namenode.Removal.{rm_unlists, rm_parent_names, removed, removed-IsStorable}
use spkdfs.Tests.JsonText.{
  json_text, json_text-IsJson, chunk, object_text, collect, look, skip, array_text, items,
}
use spkdfs.Tests.Memory.{memory, memory-IsKvStore, memory_get, memory_write}

abbrev pub leader_node : Node
leader_node = record { ip = b'1' ∷ b'0' ∷ b'.' ∷ b'1' ∷ []; port = pos 8001; node_status = online }

abbrev other_ip : Text
other_ip = b'1' ∷ b'0' ∷ b'.' ∷ b'2' ∷ []

abbrev pub empty_db : RocksDb memory
empty_db = record { db_ptr = some []; backups = none }

pub empty_db-IsOpen : IsOpen memory json_text empty_db
unfolding memory_get
empty_db-IsOpen = record { state = []; opened = refl; consistent = λ key value e. absurd (cc) }

abbrev bytes_of : Outcome Text → Text
bytes_of (done bytes) = bytes
bytes_of _ = []

abbrev db_of : Result (RocksDb memory) → RocksDb memory
db_of (ok db) = db
db_of _ = empty_db

abbrev pub path_a : Text
path_a = b'/' ∷ b'a' ∷ []

abbrev path_f : Text
path_f = b'/' ∷ b'a' ∷ b'/' ∷ b'f' ∷ []

abbrev pub mkdir_bytes : Text
mkdir_bytes = bytes_of (mkdir memory json_text leader_node leader_node.ip empty_db path_a)

abbrev pub mkdir_db : RocksDb memory
mkdir_db = db_of (apply_entry memory json_text empty_db mkdir_bytes)

abbrev pub rm_bytes : Text
rm_bytes = bytes_of (rm memory json_text leader_node leader_node.ip mkdir_db path_a)

abbrev pub rm_db : RocksDb memory
rm_db = db_of (apply_entry memory json_text mkdir_db rm_bytes)

abbrev request : PutRequest
request = record {
  path = path_f;
  storage_type = b'R' ∷ b'S' ∷ b'<' ∷ b'3' ∷ b',' ∷ b'2' ∷ b',' ∷ b'4' ∷ b'>' ∷ [];
}

abbrev put_bytes : Text
put_bytes = bytes_of (put memory json_text leader_node leader_node.ip 1000 mkdir_db request)

abbrev put_db : RocksDb memory
put_db = db_of (apply_entry memory json_text mkdir_db put_bytes)

pub mkdir_runs :
    (mkdir memory json_text leader_node leader_node.ip empty_db path_a ≡ done mkdir_bytes)
    × (apply_entry memory json_text empty_db mkdir_bytes ≡ ok mkdir_db)
unfolding mkdir rm put check_leader rooted try_catch valid same_text simplify_path FsPath.filename
    FsPath.parent_path tokens get_default_dir new_inode Inode.filename Inode.parent_path
    Inode.unlock Inode.lock Inode.update_ddl_lock prepare_mkdir prepare_rm prepare_put try_to_add
    try_to_rm path_exists ready get_inode get_parent_inode write_two internal_rm internal_mkdir
    internal_put add_name remove_name entry op_byte op_of_byte perform apply_entry inode_value
    parse_inode or_json_error storage_to_json storage_from_json key_fullpath key_is_directory
    key_filesize key_sub key_valid key_ddl_lock key_storage_type key_type key_k key_m key_b
    key_replications rs_type re_type storage_from_string match_rs match_re group stoi is_digit codes
    chunk object_text collect look skip array_text items memory_get memory_write
mkdir_runs = (refl, refl)

pub mkdir_db-IsOpen : IsOpen memory json_text mkdir_db
mkdir_db-IsOpen =
    apply_entry-IsOpen memory json_text memory-IsKvStore json_text-IsJson empty_db mkdir_bytes
      empty_db-IsOpen mkdir_runs.1

pub rm_runs :
    (rm memory json_text leader_node leader_node.ip mkdir_db path_a ≡ done rm_bytes)
    × (apply_entry memory json_text mkdir_db rm_bytes ≡ ok rm_db)
unfolding mkdir rm put check_leader rooted try_catch valid same_text simplify_path FsPath.filename
    FsPath.parent_path tokens get_default_dir new_inode Inode.filename Inode.parent_path
    Inode.unlock Inode.lock Inode.update_ddl_lock prepare_mkdir prepare_rm prepare_put try_to_add
    try_to_rm path_exists ready get_inode get_parent_inode write_two internal_rm internal_mkdir
    internal_put add_name remove_name entry op_byte op_of_byte perform apply_entry inode_value
    parse_inode or_json_error storage_to_json storage_from_json key_fullpath key_is_directory
    key_filesize key_sub key_valid key_ddl_lock key_storage_type key_type key_k key_m key_b
    key_replications rs_type re_type storage_from_string match_rs match_re group stoi is_digit codes
    chunk object_text collect look skip array_text items memory_get memory_write
rm_runs = (refl, refl)

put_runs :
    (put memory json_text leader_node leader_node.ip 1000 mkdir_db request ≡ done put_bytes)
    × (apply_entry memory json_text mkdir_db put_bytes ≡ ok put_db)
unfolding mkdir rm put check_leader rooted try_catch valid same_text simplify_path FsPath.filename
    FsPath.parent_path tokens get_default_dir new_inode Inode.filename Inode.parent_path
    Inode.unlock Inode.lock Inode.update_ddl_lock prepare_mkdir prepare_rm prepare_put try_to_add
    try_to_rm path_exists ready get_inode get_parent_inode write_two internal_rm internal_mkdir
    internal_put add_name remove_name entry op_byte op_of_byte perform apply_entry inode_value
    parse_inode or_json_error storage_to_json storage_from_json key_fullpath key_is_directory
    key_filesize key_sub key_valid key_ddl_lock key_storage_type key_type key_k key_m key_b
    key_replications rs_type re_type storage_from_string match_rs match_re group stoi is_digit codes
    chunk object_text collect look skip array_text items memory_get memory_write
put_runs = (refl, refl)

put_db-IsOpen : IsOpen memory json_text put_db
put_db-IsOpen =
    apply_entry-IsOpen memory json_text memory-IsKvStore json_text-IsJson mkdir_db put_bytes
      mkdir_db-IsOpen put_runs.1

rm_performs : perform memory json_text op_rm mkdir_db (removed path_a) ≡ ok rm_db
unfolding mkdir rm put check_leader rooted try_catch valid same_text simplify_path FsPath.filename
    FsPath.parent_path tokens get_default_dir new_inode Inode.filename Inode.parent_path
    Inode.unlock Inode.lock Inode.update_ddl_lock prepare_mkdir prepare_rm prepare_put try_to_add
    try_to_rm path_exists ready get_inode get_parent_inode write_two internal_rm internal_mkdir
    internal_put add_name remove_name entry op_byte op_of_byte perform apply_entry inode_value
    parse_inode or_json_error storage_to_json storage_from_json key_fullpath key_is_directory
    key_filesize key_sub key_valid key_ddl_lock key_storage_type key_type key_k key_m key_b
    key_replications rs_type re_type storage_from_string match_rs match_re group stoi is_digit codes
    chunk object_text collect look skip array_text items memory_get memory_write
rm_performs = refl

perform-Refines_example :
    Refines memory json_text mkdir_db rm_db mkdir_db-IsOpen.state (tree_op op_rm (removed path_a))
perform-Refines_example =
    perform-Refines memory json_text memory-IsKvStore json_text-IsJson op_rm mkdir_db
      (removed path_a) mkdir_db-IsOpen
      (removed-IsStorable memory json_text memory-IsKvStore json_text-IsJson path_a) rm_performs

mkdir_listed_example :
    let dir = simplify_path (rooted path_a) in
    (Db.ls memory json_text mkdir_db (new_inode dir) ≡ ok (get_default_dir (rooted path_a)))
    × ((parent : Inode) × (get_inode memory json_text mkdir_db (new_inode (FsPath.parent_path dir))
          ≡ ok parent)
        × (has_name (Inode.filename (get_default_dir (rooted path_a))) parent.sub ≡ true))
    × (mkdir memory json_text leader_node leader_node.ip mkdir_db path_a
        ≡ replied (fail_response (path_error path_exists_exception dir)))
mkdir_listed_example =
    mkdir_listed memory json_text memory-IsKvStore json_text-IsJson leader_node leader_node.ip
      empty_db mkdir_db path_a mkdir_bytes empty_db-IsOpen mkdir_runs.0 mkdir_runs.1

put_excludes_example :
    (message : Text) × (put memory json_text leader_node leader_node.ip 1030 put_db request
      ≡ replied (fail_response (path_error expected_lock_conflict message)))
put_excludes_example =
    put_excludes memory json_text memory-IsKvStore json_text-IsJson leader_node leader_node.ip 1000
      1030 mkdir_db put_db request request put_bytes mkdir_db-IsOpen put_runs.0 put_runs.1 refl
      (omega arith) (omega arith)

rm_unlists_example :
    Db.ls memory json_text rm_db (new_inode path_a)
    ≡ throw (path_error path_not_exists_exception (simplify_path path_a))
rm_unlists_example =
    rm_unlists memory json_text memory-IsKvStore json_text-IsJson leader_node leader_node.ip
      mkdir_db rm_db path_a rm_bytes mkdir_db-IsOpen rm_runs.0 rm_runs.1

path_a-IsChild : IsChild (simplify_path path_a)
unfolding simplify_path FsPath.filename FsPath.parent_path tokens same_text
path_a-IsChild = record {
  parent_simple = refl;
  parent_absolute = refl;
  parent_ne = λ e. cc;
  name_IsSegment = (refl, (refl, tt));
  joined = refl;
}

-- `rm` of a directory: its name in the parent is the one that is not removed.
rm_parent_names_example :
    (old new : Inode) × (parent_in
        (inode_at memory json_text mkdir_db-IsOpen.state)
        (removed path_a)
      ≡ some old)
    × (get_inode memory json_text rm_db (new_inode (FsPath.parent_path (simplify_path path_a)))
        ≡ ok new)
    × (has_name (FsPath.filename (simplify_path path_a)) new.sub ≡ false)
    × (has_name (FsPath.filename (simplify_path path_a) ++ slash) old.sub ≡ true
        → has_name (FsPath.filename (simplify_path path_a) ++ slash) new.sub ≡ true)
rm_parent_names_example =
    rm_parent_names memory json_text memory-IsKvStore json_text-IsJson leader_node leader_node.ip
      mkdir_db rm_db path_a rm_bytes mkdir_db-IsOpen rm_runs.0 rm_runs.1 path_a-IsChild

abbrev log : List Text
log = mkdir_bytes ∷ (b'!' ∷ []) ∷ rm_bytes ∷ []

abbrev log_out : RocksDb memory × List Response
log_out = elim (on_apply memory json_text log empty_db) [ some out ↦ out | none ↦ (empty_db, []) ]

log_runs : on_apply memory json_text log empty_db ≡ some log_out
unfolding on_apply settle fail_response mkdir rm put check_leader rooted try_catch valid same_text
    simplify_path FsPath.filename FsPath.parent_path tokens get_default_dir new_inode Inode.filename
    Inode.parent_path Inode.unlock Inode.lock Inode.update_ddl_lock prepare_mkdir prepare_rm
    prepare_put try_to_add try_to_rm path_exists ready get_inode get_parent_inode write_two
    internal_rm internal_mkdir internal_put add_name remove_name entry op_byte op_of_byte perform
    apply_entry inode_value parse_inode or_json_error storage_to_json storage_from_json key_fullpath
    key_is_directory key_filesize key_sub key_valid key_ddl_lock key_storage_type key_type key_k
    key_m key_b key_replications rs_type re_type storage_from_string match_rs match_re group stoi
    is_digit codes chunk object_text collect look skip array_text items memory_get memory_write
log_runs = refl

on_apply-IsOpen_example : IsOpen memory json_text log_out.0 × (length log_out.1 ≡ length log)
on_apply-IsOpen_example =
    on_apply-IsOpen memory json_text memory-IsKvStore json_text-IsJson log empty_db empty_db-IsOpen
      log_runs

rm_entry : entry memory json_text op_rm (removed path_a) ≡ ok rm_bytes
unfolding mkdir rm put check_leader rooted try_catch valid same_text simplify_path FsPath.filename
    FsPath.parent_path tokens get_default_dir new_inode Inode.filename Inode.parent_path
    Inode.unlock Inode.lock Inode.update_ddl_lock prepare_mkdir prepare_rm prepare_put try_to_add
    try_to_rm path_exists ready get_inode get_parent_inode write_two internal_rm internal_mkdir
    internal_put add_name remove_name entry op_byte op_of_byte perform apply_entry inode_value
    parse_inode or_json_error storage_to_json storage_from_json key_fullpath key_is_directory
    key_filesize key_sub key_valid key_ddl_lock key_storage_type key_type key_k key_m key_b
    key_replications rs_type re_type storage_from_string match_rs match_re group stoi is_digit codes
    chunk object_text collect look skip array_text items memory_get memory_write
rm_entry = refl

apply_entry-entry_example :
    apply_entry memory json_text mkdir_db rm_bytes
    ≡ perform memory json_text op_rm mkdir_db (removed path_a)
apply_entry-entry_example =
    apply_entry-entry memory json_text memory-IsKvStore json_text-IsJson op_rm mkdir_db
      (removed path_a)
      (removed-IsStorable memory json_text memory-IsKvStore json_text-IsJson path_a) rm_entry

abbrev finished : PutOkRequest
finished = record { path = path_f; filesize = 5; sub = [] }

redirect_to_leader_example :
    (mkdir memory json_text leader_node other_ip mkdir_db path_a ≡ replied (redirect leader_node))
    × (rm memory json_text leader_node other_ip mkdir_db path_a ≡ replied (redirect leader_node))
    × (put memory json_text leader_node other_ip 1000 mkdir_db request
        ≡ replied (redirect leader_node))
    × (put_ok memory json_text leader_node other_ip mkdir_db finished
        ≡ replied (redirect leader_node))
    × (update_lock memory json_text leader_node other_ip 1000 mkdir_db (path_f ∷ [])
        ≡ ([], replied (redirect leader_node)))
unfolding valid same_text
redirect_to_leader_example =
    redirect_to_leader memory json_text leader_node other_ip 1000 mkdir_db path_a request finished
      (path_f ∷ []) refl refl

abbrev pub saved_db : RocksDb memory
saved_db = record mkdir_db { backups = mkdir_db.db_ptr }

abbrev pub changed_db : RocksDb memory
changed_db = record rm_db { backups = mkdir_db.db_ptr }

abbrev pub restored_db : RocksDb memory
restored_db = db_of (load_snapshot memory json_text changed_db)

pub snapshot_runs :
    (snapshot memory json_text mkdir_db ≡ ok saved_db)
    × (load_snapshot memory json_text changed_db ≡ ok restored_db)
unfolding snapshot load_snapshot mkdir rm put check_leader rooted try_catch valid same_text
    simplify_path FsPath.filename FsPath.parent_path tokens get_default_dir new_inode Inode.filename
    Inode.parent_path Inode.unlock Inode.lock Inode.update_ddl_lock prepare_mkdir prepare_rm
    prepare_put try_to_add try_to_rm path_exists ready get_inode get_parent_inode write_two
    internal_rm internal_mkdir internal_put add_name remove_name entry op_byte op_of_byte perform
    apply_entry inode_value parse_inode or_json_error storage_to_json storage_from_json key_fullpath
    key_is_directory key_filesize key_sub key_valid key_ddl_lock key_storage_type key_type key_k
    key_m key_b key_replications rs_type re_type storage_from_string match_rs match_re group stoi
    is_digit codes chunk object_text collect look skip array_text items memory_get memory_write
snapshot_runs = (refl, refl)

load_snapshot-snapshot_example :
    (o' : IsOpen memory json_text restored_db) × ((at : Text)
      → inode_at memory json_text o'.state at ≡ inode_at memory json_text mkdir_db-IsOpen.state at)
load_snapshot-snapshot_example =
    load_snapshot-snapshot memory json_text memory-IsKvStore mkdir_db saved_db changed_db
      restored_db mkdir_db-IsOpen snapshot_runs.0 refl snapshot_runs.1
