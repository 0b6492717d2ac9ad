-- ===== src/RaftDn.antt =====
-- include/node/raft_dn.h and src/node/raft_dn.cpp: the datanodes' replicated state machine, which
-- agrees on the list of namenodes. Its leader chooses them among the datanodes that answer, and the
-- first of them watches the others. The probes, the agreement itself and the threads of the
-- timer are parameters.
pub mod Online
pub mod Chosen
pub mod Watching
pub mod Agreement
use spkdfs.Prelude.{
  ℕ, zero, suc, ◌+◌, Bool, true, false, not, ◌&&◌, Option, none, some, List, [], ◌∷◌, ◌++◌, map,
  any, keep_if, last?, length, take, drop, ltb, leb, if◌then◌else◌,
}
use spkdfs.Prelude.Int.{ℤ}
use spkdfs.Exn.{Text, Result, ok, throw, runtime_error, ◌>>=◌, ◌>>◌}
use spkdfs.Text.{same_text, codes}
use spkdfs.Json.{JsonLib}
use spkdfs.Node.JsonForm.{dump_nodes, read_nodes}
use spkdfs.Node.{
  Node, default_node, NodeStatus, online, offline, unknown, node_lt, scan, node_discovery,
}

-- The lists, and whether `nn_timer` runs.
pub record RaftDn : Type 0 where
  pub my_ip : Text
  pub namenode_list : List Node
  pub datanode_list : List Node
  pub nn_timer : Bool

-- Every datanode listens at the port of datanodes.
unfoldable pub new_raft_dn : ℤ → Text → List Node → RaftDn
new_raft_dn dn_port my_ip nodes = record {
  my_ip = my_ip;
  namenode_list = [];
  datanode_list =
      map (λ (node : Node). let moved : Node = record node { port = dn_port } in moved) nodes;
  nn_timer = false;
}

unfoldable pub is_online : Node → Bool
is_online node = elim node.node_status [ online ↦ true | offline ↦ false | unknown ↦ false ]

-- `std::sort` by address.
unfoldable pub insert_node : Node → List Node → List Node
insert_node node [] = node ∷ []
insert_node node (n ∷ nodes) =
    let rest = insert_node node nodes in if node_lt n node then n ∷ rest else node ∷ n ∷ nodes

unfoldable pub sort_nodes : List Node → List Node
unfolding insert_node
sort_nodes [] = []
sort_nodes (n ∷ nodes) = insert_node n (sort_nodes nodes)

-- `std::binary_search` of a sorted list: whether an item is neither less nor greater.
unfoldable pub found_in : List Node → Node → Bool
found_in nodes node = any (λ n. not (node_lt n node) && not (node_lt node n)) nodes

-- The loop over a part of the datanodes that has been probed.
unfoldable pub take_online : ℕ → ℤ → List Node → List Node → List Node
take_online expected_nn nn_port [] nodes = nodes
take_online expected_nn nn_port (node ∷ sub) nodes =
    let more = take_online expected_nn nn_port sub in
    let nodes' = nodes ++ record node { port = nn_port } ∷ [] in
    let taken = more nodes' in
    let passed = more nodes in
    if is_online node then if leb expected_nn (length nodes') then nodes' else taken else passed

-- The loop over the datanodes, `expected_nn` at a time. The fuel is their number, which is enough:
-- a round passes at least one of them.
unfoldable pub select : ℕ → (Node → Bool) → ℕ → ℤ → List Node → List Node → List Node
select zero answers expected_nn nn_port allnodes nodes = nodes
select (suc fuel) answers expected_nn nn_port [] nodes = nodes
select (suc fuel) answers expected_nn nn_port (node ∷ allnodes) nodes =
    let more = select fuel answers expected_nn nn_port (drop expected_nn (node ∷ allnodes)) (
      take_online expected_nn nn_port (node_discovery answers (take expected_nn (node ∷ allnodes)))
        nodes) in
    if ltb (length nodes) expected_nn then more else nodes

-- The namenodes that answer stay, in the order of their addresses.
unfoldable pub still_online : (Node → Bool) → List Node → List Node
still_online answers nodes = keep_if is_online (node_discovery answers (sort_nodes nodes))

unfoldable pub choose_namenodes : (Node → Bool) → ℕ → ℤ → RaftDn → List Node
unfolding still_online
choose_namenodes answers expected_nn nn_port self =
    let nodes = still_online answers self.namenode_list in
    let allnodes = keep_if (λ node. not (found_in nodes node)) self.datanode_list in
    select (length allnodes) answers expected_nn nn_port allnodes nodes

or_none_ready : List Node → Result (List Node)
or_none_ready [] = throw (runtime_error (codes "no node ready"))
or_none_ready (n ∷ nodes) = ok (n ∷ nodes)

-- The text of the list that is proposed.
unfoldable pub on_leader_start : JsonLib → (Node → Bool) → ℕ → ℤ → RaftDn → Result Text
unfolding or_none_ready
on_leader_start J answers expected_nn nn_port self = do
  nodes ← or_none_ready (choose_namenodes answers expected_nn nn_port self)
  dump_nodes J nodes

-- `on_nodes_loss`: the leader chooses anew.
unfoldable pub on_nodes_loss : JsonLib → (Node → Bool) → ℕ → ℤ → List Node → RaftDn → Result Text
on_nodes_loss J answers expected_nn nn_port lost self =
    on_leader_start J answers expected_nn nn_port self

-- `leader_id()`: none where braft knows no leader, which counts as being it.
unfoldable pub leader : ℤ → Option Node → RaftDn → Node
leader nn_port none self = record default_node { ip = self.my_ip; port = nn_port }
leader nn_port (some node) self = node

or_empty : Option Text → Text
or_empty none = []
or_empty (some bytes) = bytes

-- The loop keeps the bytes of the last entry alone. `apply_callback` is the server's
-- `on_namenodes_change`, `known` the leader that braft knows. Of a timer that runs already, the
-- thread is left to itself.
unfoldable pub on_apply :
    JsonLib → (List Node → Result (Unit {0})) → ℤ → Option Node → List Text → RaftDn → Result RaftDn
unfolding or_empty leader
on_apply J apply_callback nn_port known log self = do
  namenodes ← read_nodes J (or_empty (last? log))
  apply_callback namenodes
  ok (record self {
    namenode_list = namenodes;
    nn_timer = same_text (leader nn_port known self).ip self.my_ip;
  })

-- The timer's loop: `answers t` is what the probe at time `t` finds. A node is probed again after a
-- failure, up to `retries` times; the address of a node that is lost is thrown to the timer.
unfoldable pub watch : (ℕ → Node → Bool) → ℕ → ℕ → List Node → Option Text
watch answers t retries [] = none
watch answers t zero (node ∷ nodes) =
    let next = watch answers (t + 1) 3 nodes in if answers t node then next else some node.ip
watch answers t (suc retries) (node ∷ nodes) =
    let next = watch answers (t + 1) 3 nodes in
    let again = watch answers (t + 1) retries (node ∷ nodes) in
    if answers t node then next else again

unfoldable pub on_interval : (ℕ → Node → Bool) → RaftDn → Option Text
unfolding watch
on_interval answers self = watch answers 0 3 self.namenode_list

unfoldable pub snapshot_save : JsonLib → RaftDn → Result Text
snapshot_save J self = dump_nodes J self.namenode_list

-- An empty file leaves the list as it was.
unfoldable pub snapshot_load : JsonLib → Text → RaftDn → Result RaftDn
snapshot_load J [] self = ok self
snapshot_load J (c ∷ s) self = do
  namenodes ← read_nodes J (c ∷ s)
  ok (record self { namenode_list = namenodes })
