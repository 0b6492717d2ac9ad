-- ===== src/RaftNn/Peers.antt =====
-- The class `RaftNN` of src/node/raft_nn.cpp but for its log: its constructor, its peers and its
-- start. braft's configuration is the text that it is parsed from.
use spkdfs.Prelude.{Bool, true, false, Option, List, ◌++◌}
use spkdfs.Exn.{Text, Result, ok, throw, runtime_error, ◌>>=◌}
use spkdfs.Text.{codes}
use spkdfs.KvStore.{KvStore}
use spkdfs.Node.{Node, list_to_string}
use spkdfs.RocksDb.{RocksDb}
use spkdfs.RocksDb.Setup.{Created, new_rocks_db}

-- `conf` is what braft was last told to run with.
pub record RaftNn (S : KvStore) : Type 0 where
  pub my_ip : Text
  pub peers : List Node
  pub db : RocksDb S
  pub conf : Text

-- Whether `init` returns 0.
unfoldable pub start : Bool → Result (Unit {0})
start true = ok tt
start false = throw (runtime_error (codes "raft namenode init failed"))

module _ (S : KvStore) where
  unfoldable pub new_raft_nn :
      Text → Created → Created → Option S.Backups → S.State → Text → List Node → Result (RaftNn S)
  new_raft_nn data_dir origin backup engine held my_ip nodes = do
    db ← new_rocks_db S (data_dir ++ codes "/db") origin backup engine held
    ok (record { my_ip = my_ip; peers = nodes; db = db; conf = list_to_string nodes })

  unfoldable pub list_peers : RaftNn S → List Node
  list_peers self = self.peers

  unfoldable pub change_peers : List Node → RaftNn S → RaftNn S
  change_peers namenodes self = record self { peers = namenodes; conf = list_to_string namenodes }

  unfoldable pub reset_peers : List Node → RaftNn S → RaftNn S
  reset_peers namenodes self = record self { peers = namenodes; conf = list_to_string namenodes }
