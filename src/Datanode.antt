-- ===== src/Datanode.antt =====
-- include/node/datanode.h and src/node/datanode.cpp: the handlers of a datanode's calls, and
-- `read_file` of src/common/utils.cpp. The files of the data directory are a parameter.
pub mod Blocks
use spkdfs.Prelude.{
  ◌≡◌, ◌≢◌, Option, none, some, List, [], ◌∷◌, ◌++◌, map, Bool, true, false, if◌then◌else◌,
}
use spkdfs.Exn.{Text, Result, ok, throw, abort, runtime_error}
use spkdfs.Text.{codes}
use spkdfs.ReadFile.{read_bytes}
use spkdfs.Node.{Node, to_string}
use spkdfs.RaftDn.{RaftDn}
use spkdfs.Reply.{Response, succ_response, fail_response, Outcome, try_catch}

-- What reading a file comes to: its bytes; no size, with the text that `file_size` throws; or a size
-- but no bytes.
pub data Loaded : Type 0 where
  contents : Text → Loaded
  no_size : Text → Loaded
  unreadable : Loaded

-- `ofstream` on a path and what is written to it, and `ifstream` on one.
pub record Files : Type 1 where
  pub State : Type 0
  -- none where the file does not open
  pub store : State → Text → Text → Option State
  pub load : State → Text → Loaded

-- The whole text reaches the file: no write fails after the file is open.
pub record IsFiles (F : Files) : Type 0 where
  pub load-store :
      (s t : F.State) (path data' : Text)
      → F.store s path data' ≡ some t
      → F.load t path ≡ contents data'
  pub load-store_other :
      (s t : F.State) (path other data' : Text)
      → path ≢ other
      → F.store s path data' ≡ some t
      → F.load t other ≡ F.load s other

-- `FLAGS_data_dir + "/blk_" + blkid`
unfoldable pub block_path : Text → Text → Text
unfolding codes
block_path data_dir blkid = data_dir ++ (codes "/blk_" ++ blkid)

module _ (F : Files) (data_dir : Text) where
  -- The call's `Response`, and the files after it.
  put_answer : F.State → Text → Option F.State → F.State × Response
  put_answer s path none = (s, fail_response (runtime_error (codes "openfile error:" ++ path)))
  put_answer s path (some t) = (t, succ_response)

  unfoldable pub put : F.State → Text → Text → F.State × Response
  unfolding put_answer
  put s blkid data' =
      let path = block_path data_dir blkid in put_answer s path (F.store s path data')

  -- A file whose size does not fit an `int` is not read whole. `LOG(FATAL)` ends the process.
  of_loaded : Loaded → Result Text
  of_loaded (contents data') = read_bytes data'
  of_loaded (no_size what) = throw (runtime_error what)
  of_loaded unreadable = abort

  unfoldable pub read_file : F.State → Text → Result Text
  unfolding of_loaded
  read_file s path = of_loaded (F.load s path)

  unfoldable pub get : F.State → Text → Outcome Text
  unfolding read_file
  get s blkid = try_catch (read_file s (block_path data_dir blkid))

unfoldable pub get_namenodes : RaftDn → List Text × Response
get_namenodes dn_raft = (map to_string dn_raft.namenode_list, succ_response)

unfoldable pub get_datanodes : RaftDn → List Text × Response
get_datanodes dn_raft = (map to_string dn_raft.datanode_list, succ_response)
