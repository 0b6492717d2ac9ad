-- ===== src/Server/Life.antt =====
-- The constructor, `leader` and `start` of `Server` in src/node/server.cpp: what is set up, in which
-- order, and what a failure of each part comes to. The brpc server and braft are parameters.
use spkdfs.Prelude.{Bool, Option, none, some, List}
use spkdfs.Prelude.Int.{ℤ}
use spkdfs.Exn.{Text, Result, ok, throw, runtime_error, throw_if, ◌>>=◌, ◌>>◌}
use spkdfs.Text.{codes}
use spkdfs.Node.{Node}
use spkdfs.MyIp.{Interface, get_all_ips, get_my_ip}
use spkdfs.RaftDn.{RaftDn, new_raft_dn}
use spkdfs.RaftNn as RaftNn

-- Whether each call on the datanode's brpc server, and `init` of its raft node, fails.
pub record Starts : Type 0 where
  pub add_common_fails : Bool
  pub add_dn_fails : Bool
  pub add_rpc_fails : Bool
  pub start_fails : Bool
  pub raft_fails : Bool

-- A new server runs no namenode yet. `interfaces` is what the system lists.
unfoldable pub new_server : Starts → Option (List Interface) → ℤ → List Node → Result RaftDn
new_server starts interfaces dn_port nodes = do
  local ← get_all_ips interfaces
  my_ip ← get_my_ip local nodes
  throw_if starts.add_common_fails (runtime_error (codes "server failed to add dn common service"))
  throw_if starts.add_dn_fails (runtime_error (codes "server failed to add dn service"))
  throw_if starts.add_rpc_fails (runtime_error (codes "server failed to add dn service"))
  ok (new_raft_dn dn_port my_ip nodes)

unfoldable pub start : Starts → Result (Unit {0})
start starts = do
  throw_if starts.start_fails (runtime_error (codes "start service failed"))
  throw_if starts.raft_fails (runtime_error (codes "raft datanode init failed"))

-- `nn_raft_ptr` is given by the leader that its raft node knows, if it is set.
unfoldable pub leader : Text → ℤ → Option (Option Node) → Result Node
leader my_ip nn_port none = throw (runtime_error (codes "not running namenode"))
leader my_ip nn_port (some known) = ok (RaftNn.leader my_ip nn_port known)
