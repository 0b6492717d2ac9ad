-- ===== src/RaftNn.antt =====
-- include/node/raft_nn.h and src/node/raft_nn.cpp: the namenodes' replicated state machine. braft
-- agrees on a log of entries, and every namenode applies them in order to its own database.
pub mod Keeps
pub mod Replay
pub mod Replicas
pub mod Peers
use spkdfs.Prelude.{ℕ, Option, none, some, List, [], ◌∷◌, ◌++◌, ◌==◌, if◌then◌else◌}
use spkdfs.Prelude.Int.{ℤ}
use spkdfs.Exn.{Text, Result, ok, throw, abort, ◌>>=◌, ◌>>◌}
use spkdfs.Json.{JsonLib}
use spkdfs.KvStore.{KvStore}
use spkdfs.Node.{Node, default_node, unknown}
use spkdfs.Inode.{Inode, inode_value, parse_inode}
use spkdfs.RocksDb.{
  RocksDb, internal_mkdir, internal_put, internal_put_ok, internal_rm, snapshot, load_snapshot,
}
use spkdfs.Reply.{Response, succ_response, fail_response}

pub data OpType : Type 0 where
  op_mkdir op_put op_putok op_rm op_unknown : OpType

-- The byte in front of an entry.
unfoldable pub op_byte : OpType → ℕ
op_byte op_mkdir = 0
op_byte op_put = 1
op_byte op_putok = 2
op_byte op_rm = 3
op_byte op_unknown = 4

unfoldable pub op_of_byte : ℕ → OpType
op_of_byte b =
    if b == 0
    then op_mkdir
    else if b == 1
    then op_put
    else if b == 2
    then op_putok
    else if b == 3
    then op_rm
    else op_unknown

-- `raft_node->leader_id()`: none where braft knows no leader, which counts as being it.
unfoldable pub leader : Text → ℤ → Option Node → Node
leader my_ip nn_port none = record default_node { ip = my_ip; port = nn_port }
leader my_ip nn_port (some node) = node

module _ (S : KvStore) (J : JsonLib) where
  -- `buf.push_back(type); buf.append(inode.value());`
  unfoldable pub entry : OpType → Inode → Result Text
  entry op inode = do value ← inode_value J inode; ok (op_byte op ∷ value)

  unfoldable pub perform : OpType → RocksDb S → Inode → Result (RocksDb S)
  perform op_mkdir db inode = internal_mkdir S J db inode
  perform op_put db inode = internal_put S J db inode
  perform op_putok db inode = internal_put_ok S J db inode
  perform op_rm db inode = internal_rm S J db inode
  perform op_unknown db inode = ok db

  -- One round of the loop. An entry of no bytes leaves `type` as it was set, and parses no text.
  unfoldable pub apply_entry : RocksDb S → Text → Result (RocksDb S)
  apply_entry db [] = do inode ← parse_inode J []; perform op_unknown db inode
  apply_entry db (b ∷ str_inode) = do
    inode ← parse_inode J str_inode
    perform (op_of_byte b) db inode

  -- The database and the response after an entry; none if an assertion ended the process.
  unfoldable pub settle : RocksDb S → Result (RocksDb S) → Option (RocksDb S × Response)
  settle db (ok db') = some (db', succ_response)
  settle db (throw e) = some (db, fail_response e)
  settle db abort = none

  after_entry :
      Option (RocksDb S × Response)
      → (RocksDb S → Option (RocksDb S × List Response))
      → Option (RocksDb S × List Response)
  after_entry none rest = none
  after_entry (some (db, response)) rest = elim (rest db) [
    | none ↦ none
    | some (db', responses) ↦ some (db', response ∷ responses)
  ]

  unfoldable pub on_apply : List Text → RocksDb S → Option (RocksDb S × List Response)
  unfolding after_entry
  on_apply [] db = some (db, [])
  on_apply (data' ∷ iter) db = after_entry (settle db (apply_entry db data')) (on_apply iter)

  unfoldable pub on_snapshot_save : RocksDb S → Result (RocksDb S)
  on_snapshot_save db = snapshot S J db

  -- The reader of the snapshot that braft hands over is not looked at.
  unfoldable pub on_snapshot_load : RocksDb S → Result (RocksDb S)
  on_snapshot_load db = load_snapshot S J db
