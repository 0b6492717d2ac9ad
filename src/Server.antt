-- ===== src/Server.antt =====
-- src/node/server.cpp: how a server starts, changes and stops its namenode when the datanodes have
-- agreed on a new list of namenodes. The brpc server and the namenodes' raft group are parameters:
-- what each call answers, and the calls that are made, in order.
pub mod Membership
pub mod Life
use spkdfs.Prelude.{
  ℕ, suc, ◌/◌, Bool, true, false, Option, none, some, List, [], ◌∷◌, any, length, ltb,
  if◌then◌else◌,
}
use spkdfs.Exn.{Text, Result, ok, throw, runtime_error, throw_if, ◌>>=◌, ◌>>◌}
use spkdfs.Text.{same_text, codes}
use spkdfs.Node.{Node, same_node}

-- The calls on the namenode that a change makes.
pub data Effect : Type 0 where
  start_namenode : List Node → Effect
  change_peers : List Node → Effect
  reset_peers : List Node → Effect
  stop_namenode : Effect

-- Whether each call on the brpc server fails.
pub record Services : Type 0 where
  pub add_common_fails : Bool
  pub add_nn_fails : Bool
  pub add_rpc_fails : Bool
  pub start_fails : Bool

-- `alivenodes_count`
unfoldable pub alive_count : List Node → List Node → ℕ
alive_count new [] = 0
alive_count new (node ∷ old) =
    let rest = alive_count new old in if any (λ n. same_node n node) new then suc rest else rest

unfoldable pub change_namenodes_list : List Node → List Node → Effect
unfolding alive_count
change_namenodes_list old new =
    if ltb (length new / 2) (alive_count new old) then change_peers new else reset_peers new

unfoldable pub is_namenode : Text → List Node → Bool
is_namenode my_ip namenodes = any (λ node. same_text node.ip my_ip) namenodes

unfoldable pub add_services : Services → Result (Unit {0})
add_services services =
    throw_if services.add_common_fails
      (runtime_error (codes "server failed to add common nn service"))
    >> throw_if services.add_nn_fails (runtime_error (codes "server failed to add nn service"))
    >> throw_if services.add_rpc_fails (runtime_error (codes "server failed to add nn service"))
    >> throw_if services.start_fails (runtime_error (codes "nn server failed to start service"))

-- `nn_raft_ptr` is set before the services are added, so it stays set where that throws.
start_new : Services → List Node → Result (Option (Unit {0}) × List Effect)
start_new services namenodes = do add_services services; ok (some tt, start_namenode namenodes ∷ [])

on_member : Services → List Node → Option (List Node) → Result (Option (Unit {0}) × List Effect)
unfolding start_new
on_member services namenodes (some peers) = ok (some tt, change_namenodes_list peers namenodes ∷ [])
on_member services namenodes none = start_new services namenodes

on_other : Option (List Node) → Result (Option (Unit {0}) × List Effect)
on_other (some peers) = ok (none, stop_namenode ∷ [])
on_other none = ok (none, [])

-- `nn_raft_ptr` is given with the peers that it lists; the result says whether it is set, and which
-- calls were made.
unfoldable pub on_namenodes_change :
    Services → Text → List Node → Option (List Node) → Result (Option (Unit {0}) × List Effect)
unfolding on_member on_other is_namenode add_services
on_namenodes_change services my_ip namenodes nn_raft_ptr =
    if is_namenode my_ip namenodes
    then on_member services namenodes nn_raft_ptr
    else on_other nn_raft_ptr
