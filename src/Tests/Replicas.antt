-- ===== src/Tests/Replicas.antt =====
-- The theorems on a log and its replicas, at a namenode that makes a directory, saves a snapshot,
-- removes the directory and loads the snapshot.
use spkdfs.Prelude.{◌≡◌, refl, none, some, [], ◌∷◌}
use spkdfs.Exn.{ok}
use spkdfs.Text.{same_text, codes}
use spkdfs.Text.Split.{tokens}
use spkdfs.Text.Decimal.{stoi, is_digit}
use spkdfs.FsPath.{simplify_path, slash}
use spkdfs.FsPath as FsPath
use spkdfs.Json.{or_json_error}
use spkdfs.Storage.{storage_from_string, match_rs, match_re, group}
use spkdfs.Storage.JsonForm.{
  storage_to_json, storage_from_json, key_type, key_k, key_m, key_b, key_replications, rs_type,
  re_type,
}
use spkdfs.Inode.{
  Inode, get_default_dir, new_inode, inode_value, parse_inode, key_fullpath, key_is_directory,
  key_filesize, key_sub, key_valid, key_ddl_lock, key_storage_type, lock_refresh_interval,
}
use spkdfs.Inode as Inode
use spkdfs.Reply.{succ_response}
use spkdfs.RocksDb.{
  prepare_mkdir, prepare_rm, prepare_put, try_to_add, try_to_rm, path_exists, ready, get_inode,
  get_parent_inode, write_two, internal_rm, internal_mkdir, internal_put, add_name, remove_name,
}
use spkdfs.Tests.JsonText.{
  json_text, json_text-IsJson, chunk, object_text, collect, look, skip, array_text, items,
}
use spkdfs.Namenode.{rm, mkdir, check_leader, rooted}
use spkdfs.Node.{valid}
use spkdfs.Reply.{try_catch, check_response}
use spkdfs.RaftNn.{
  settle, entry, op_byte, apply_entry, on_apply, op_of_byte, perform, on_snapshot_save,
  on_snapshot_load,
}
use spkdfs.RocksDb.Determined.{tree_of}
use spkdfs.Sdk.Transfer.{check_call}
use spkdfs.Sdk.Calls as Calls
use spkdfs.Sdk.Calls.Served.{served, serve_entry, made_is_listed}
use spkdfs.RaftNn.Replay.{seen, tree_log, on_apply-tree}
use spkdfs.RaftNn.Replicas.{
  Replica, Reaches, started, later, applies, saves, loads, Follows, Reaches-Follows, replicas_agree,
}
use spkdfs.Tests.Memory.{memory, memory-IsKvStore, memory-IsReliable, memory_get, memory_write}
use spkdfs.Tests.Trees.{
  leader_node, mkdir_db-IsOpen, empty_db, empty_db-IsOpen, path_a, mkdir_bytes, mkdir_db,
  mkdir_runs, rm_bytes, saved_db, changed_db, restored_db, snapshot_runs,
}

mkdir_applied :
    on_apply memory json_text (mkdir_bytes ∷ []) empty_db ≡ some (mkdir_db, succ_response ∷ [])
unfolding on_apply settle
mkdir_applied = rw mkdir_runs.1

rm_applied :
    on_apply memory json_text (rm_bytes ∷ []) saved_db ≡ some (changed_db, succ_response ∷ [])
unfolding on_apply settle rm mkdir try_catch check_leader valid rooted entry op_byte same_text
    simplify_path FsPath.filename FsPath.parent_path tokens get_default_dir new_inode Inode.filename
    Inode.parent_path Inode.unlock Inode.lock Inode.update_ddl_lock prepare_mkdir prepare_rm
    prepare_put try_to_add try_to_rm path_exists ready get_inode get_parent_inode write_two
    internal_rm internal_mkdir internal_put add_name remove_name op_of_byte perform apply_entry
    inode_value parse_inode or_json_error storage_to_json storage_from_json key_fullpath
    key_is_directory key_filesize key_sub key_valid key_ddl_lock key_storage_type key_type key_k
    key_m key_b key_replications rs_type re_type storage_from_string match_rs match_re group stoi
    is_digit codes chunk object_text collect look skip array_text items memory_get memory_write
rm_applied = refl

abbrev made : Replica memory
made = record { db = mkdir_db; applied = mkdir_bytes ∷ []; saved = none }

made_reached : Reaches memory json_text empty_db made
made_reached = later started (applies (mkdir_bytes ∷ []) mkdir_applied)

abbrev loaded : Replica memory
loaded = record { db = restored_db; applied = mkdir_bytes ∷ []; saved = some (mkdir_bytes ∷ []) }

-- The snapshot is loaded after the directory was removed.
loaded_reached : Reaches memory json_text empty_db loaded
unfolding on_snapshot_save on_snapshot_load
loaded_reached =
    later (later (later made_reached (saves snapshot_runs.0)) (applies (rm_bytes ∷ []) rm_applied))
      (loads refl snapshot_runs.1)

on_apply-tree_example :
    seen memory json_text (on_apply memory json_text (mkdir_bytes ∷ []) empty_db)
    ≡ tree_log json_text (mkdir_bytes ∷ []) (tree_of memory json_text empty_db)
on_apply-tree_example =
    on_apply-tree memory json_text memory-IsKvStore json_text-IsJson memory-IsReliable
      (mkdir_bytes ∷ []) empty_db empty_db-IsOpen

Reaches-Follows_example : Follows memory json_text (tree_of memory json_text empty_db) loaded
Reaches-Follows_example =
    Reaches-Follows memory json_text memory-IsKvStore json_text-IsJson memory-IsReliable
      empty_db-IsOpen loaded_reached

replicas_agree_example :
    tree_of memory json_text made.db path_a ≡ tree_of memory json_text loaded.db path_a
replicas_agree_example =
    replicas_agree memory json_text memory-IsKvStore json_text-IsJson memory-IsReliable
      empty_db-IsOpen empty_db-IsOpen (λ path. refl) made_reached loaded_reached refl path_a

-- A client makes the directory, and the slave has applied the entry too.
made_by_client :
    Calls.mkdir (served memory json_text leader_node leader_node.ip) (empty_db, empty_db) path_a
    ≡ ((mkdir_db, empty_db), ok tt)
unfolding Calls.mkdir serve_entry check_call check_response settle
made_by_client = rw mkdir_runs.0 (rw mkdir_runs.1)

made_is_listed_example :
    Calls.ls
      (served memory json_text leader_node leader_node.ip)
      json_text
      (mkdir_db, mkdir_db)
      (simplify_path (rooted path_a))
    ≡ ok (get_default_dir (rooted path_a))
made_is_listed_example =
    made_is_listed memory json_text memory-IsKvStore json_text-IsJson leader_node leader_node.ip
      memory-IsReliable empty_db empty_db mkdir_db mkdir_db path_a empty_db-IsOpen mkdir_db-IsOpen
      made_by_client (λ key. refl)
