-- ===== src/Tests/Cluster.antt =====
-- The theorems on the datanodes, the servers and the client's locks, at concrete values.
use spkdfs.Prelude.{
  ◌≡◌, ◌≢◌, refl, ap, subst, ℕ, ◌%◌, ◌^◌, take, ◌≤◌, ◌<◌, max, true, false, Bool, Bool-cases, inl,
  inr, none, some, some_injective, List, [], ◌∷◌, ◌++◌, length, All, get_elem?, map, Option,
  if◌then◌else◌, arith,
}
use spkdfs.Prelude.Int.{pos, IsInt, int_max}
use spkdfs.Exn.{Text, ok, throw, abort, runtime_error}
use spkdfs.Text.{same_text, same_text_refl, eq_of_same_text}
use spkdfs.Node.{Node, unknown, node_discovery, scan, node_lt}
use spkdfs.Reply.{done, replied, fail_response}
use spkdfs.RaftDn as RaftDn
use spkdfs.Json.{or_json_error}
use spkdfs.RaftDn.{
  RaftDn, select, sort_nodes, insert_node, take_online, is_online, still_online, choose_namenodes,
  found_in, on_interval, on_leader_start, on_apply,
}
use spkdfs.RaftDn.Agreement.{server_callback, agreement}
use spkdfs.Node.JsonForm.{
  as_read, dump_nodes, read_nodes, node_to_json, node_from_json, key_ip, key_port,
}
use spkdfs.Tests.JsonText.{
  json_text, json_text-IsJson, items, array_text, object_text, chunk, look, skip, collect,
}
use spkdfs.RaftDn.Chosen.{choose_namenodes-chosen}
use spkdfs.RaftDn.Watching.{on_interval-lost, FailsFrom}
use spkdfs.Server.{Services, Effect, is_namenode, on_namenodes_change}
use spkdfs.Server.Membership.{is_set}
use spkdfs.PathLocks.{
  PathLock, shared, exclusive, find_lock, find_or_make, write_lock, unlock, returns, undefined,
  set_lock,
}
use spkdfs.PathLocks.Release.{unlock-write_lock}
use spkdfs.Text.{text_lt}
use spkdfs.MyIp.{get_my_ip}
use spkdfs.MyIp.Least.{is_local, get_my_ip-least}
use spkdfs.Datanode.{Files, IsFiles, Loaded, contents, no_size, put, get}
use spkdfs.Datanode.Blocks.{get-put}

abbrev dn_at : ℕ → Node
dn_at c = record { ip = b'1' ∷ b'0' ∷ b'.' ∷ c ∷ []; port = pos 10002; node_status = unknown }

abbrev raft_dn : RaftDn
raft_dn = record {
  my_ip = b'1' ∷ b'0' ∷ b'.' ∷ b'1' ∷ [];
  namenode_list = dn_at b'2' ∷ [];
  datanode_list = dn_at b'1' ∷ dn_at b'2' ∷ dn_at b'3' ∷ [];
  nn_timer = true;
}

-- The second node does not answer.
abbrev answers : Node → Bool
answers n = elim (same_text n.ip (dn_at b'2').ip) [ true ↦ false | false ↦ true ]

choose_namenodes-chosen_example :
    let chosen = choose_namenodes answers 2 (pos 10001) raft_dn in
    All
      (λ n.
        (is_online n ≡ true)
        × ((i : ℕ) × (d : Node) × (get_elem? (raft_dn.namenode_list ++ raft_dn.datanode_list) i
              ≡ some d)
            × (d.ip ≡ n.ip)
            × (answers d ≡ true)))
      chosen
    × (length chosen ≤ max 2 (length (still_online answers raft_dn.namenode_list)))
    × (length chosen < 2
        → All (λ d. answers d ≡ true → found_in chosen d ≡ true) raft_dn.datanode_list)
choose_namenodes-chosen_example = choose_namenodes-chosen answers 2 (pos 10001) raft_dn

on_interval-lost_example :
    ((ip : Text)
      → on_interval (λ t. answers) raft_dn ≡ some ip
      → (i : ℕ) × (n : Node) × (t : ℕ) × (get_elem? raft_dn.namenode_list i ≡ some n)
        × (n.ip ≡ ip)
        × FailsFrom (λ t. answers) t 3 n)
    × ((i : ℕ) (n : Node)
        → get_elem? raft_dn.namenode_list i ≡ some n
        → ((t : ℕ) → answers n ≡ false)
        → (ip : Text) × (on_interval (λ t. answers) raft_dn ≡ some ip))
on_interval-lost_example = on_interval-lost (λ t. answers) raft_dn

abbrev services : Services
services = record {
  add_common_fails = false;
  add_nn_fails = false;
  add_rpc_fails = false;
  start_fails = false;
}

-- The leader's choice, applied by the server of the third node.
abbrev third : RaftDn
third = record raft_dn { my_ip = (dn_at b'3').ip; namenode_list = []; nn_timer = false }

abbrev proposal : Text
proposal = elim (on_leader_start json_text answers 2 (pos 10001) raft_dn) [
  | ok bytes ↦ bytes
  | throw e ↦ []
  | abort ↦ []
]

abbrev third_applied : RaftDn
third_applied = record third {
  namenode_list = map as_read (choose_namenodes answers 2 (pos 10001) raft_dn);
}

proposed : on_leader_start json_text answers 2 (pos 10001) raft_dn ≡ ok proposal
unfolding on_leader_start choose_namenodes still_online select found_in sort_nodes insert_node
    is_online take_online RaftDn.leader on_apply server_callback on_namenodes_change node_discovery
    scan node_lt text_lt same_text dump_nodes read_nodes node_to_json node_from_json key_ip key_port
    or_json_error items array_text object_text chunk look skip collect
proposed = refl

third_applies :
    on_apply json_text
      (server_callback services third.my_ip none)
      (pos 10001)
      (some (dn_at b'1'))
      (proposal ∷ [])
      third
    ≡ ok third_applied
unfolding on_leader_start choose_namenodes still_online select found_in sort_nodes insert_node
    is_online take_online RaftDn.leader on_apply server_callback on_namenodes_change node_discovery
    scan node_lt text_lt same_text dump_nodes read_nodes node_to_json node_from_json key_ip key_port
    or_json_error items array_text object_text chunk look skip collect
third_applies = refl

ports_fit : All (λ (n : Node). IsInt n.port) (choose_namenodes answers 2 (pos 10001) raft_dn)
unfolding choose_namenodes still_online select found_in sort_nodes insert_node is_online take_online
    node_discovery scan node_lt text_lt same_text
ports_fit = (omega arith, (omega arith, tt))

agreement_example :
    (third_applied.namenode_list ≡ map as_read (choose_namenodes answers 2 (pos 10001) raft_dn))
    × (new : Option (Unit {0})) × (effects : List Effect) × (on_namenodes_change services
          third.my_ip third_applied.namenode_list none
        ≡ ok (new, effects))
    × (is_set new ≡ is_namenode third.my_ip (choose_namenodes answers 2 (pos 10001) raft_dn))
agreement_example =
    agreement json_text json_text-IsJson answers 2 (pos 10001) raft_dn third services none
      (some (dn_at b'1')) (proposal ∷ []) ports_fit proposed refl third_applies

abbrev key : Text
key = b'k' ∷ []

-- An entry that a reader made, and whose reader has gone.
abbrev read_once : List (Text × PathLock)
read_once = (key, record { for_writer = false; mutex = shared 0 }) ∷ []

abbrev write_held : List (Text × PathLock)
write_held = (key, record { for_writer = false; mutex = exclusive }) ∷ []

write_held_runs : write_lock read_once key ≡ returns write_held
unfolding write_lock find_lock find_or_make set_lock same_text
write_held_runs = refl

unlock-write_lock_example :
    ((find_or_make true (find_lock read_once key)).for_writer ≡ true
      → (freed : List (Text × PathLock)) × (unlock write_held key ≡ returns freed)
        × (find_lock freed key ≡ some (record { for_writer = true; mutex = shared 0 })))
    × ((find_or_make true (find_lock read_once key)).for_writer ≡ false
        → unlock write_held key ≡ undefined)
unlock-write_lock_example = unlock-write_lock read_once write_held key write_held_runs

-- Files as a list, the newest first.
unfoldable load_file : List (Text × Text) → Text → Loaded
load_file [] path = no_size []
load_file ((p, data') ∷ files) path =
    let rest = load_file files path in if same_text p path then contents data' else rest

abbrev files : Files
files = record {
  State = List (Text × Text);
  store = λ s path data'. some ((path, data') ∷ s);
  load = load_file;
}

distinct : (p q : Text) → p ≢ q → same_text p q ≡ false
distinct p q h = elim (Bool-cases (same_text p q)) [
  | inl e ↦ absurd (h (eq_of_same_text p q e))
  | inr e ↦ e
]

files-IsFiles : IsFiles files
unfolding load_file
files-IsFiles = record {
  load-store = λ s t path data' e.
      subst (λ (u : List (Text × Text)). load_file u path ≡ contents data') (some_injective e)
        (rw (same_text_refl path) refl);
  load-store_other = λ s t path other data' h e.
      subst (λ (u : List (Text × Text)). load_file u other ≡ load_file s other) (some_injective e)
        (rw (distinct path other h) refl);
}

abbrev data_dir : Text
data_dir = b'/' ∷ b'd' ∷ []

abbrev one_byte : Text
one_byte = b'x' ∷ []

get-put_example :
    (length one_byte ≤ int_max
      → get files data_dir (put files data_dir [] key one_byte).0 key ≡ done one_byte)
    × (int_max < length one_byte % 2 ^ 32
        → (what : Text) × (get files data_dir (put files data_dir [] key one_byte).0 key
            ≡ replied (fail_response (runtime_error what))))
    × (length one_byte % 2 ^ 32 ≤ int_max
        → get files data_dir (put files data_dir [] key one_byte).0 key
          ≡ done (take (length one_byte % 2 ^ 32) one_byte))
    × (get files data_dir (put files data_dir [] key one_byte).0 (b'm' ∷ b'n' ∷ [])
        ≡ get files data_dir [] (b'm' ∷ b'n' ∷ []))
unfolding put
get-put_example =
    get-put files files-IsFiles data_dir [] key (b'm' ∷ b'n' ∷ []) one_byte refl
      (λ e. omega (arith, ap length e))

abbrev other_address : Text
other_address = b'9' ∷ []

get_my_ip-least_example :
    (is_local (other_address ∷ (dn_at b'2').ip ∷ []) (dn_at b'2').ip ≡ true)
    × ((i : ℕ) × (n : Node) × (get_elem? raft_dn.datanode_list i ≡ some n)
        × (n.ip ≡ (dn_at b'2').ip))
    × All
        (λ (n : Node).
          is_local (other_address ∷ (dn_at b'2').ip ∷ []) n.ip ≡ true
          → text_lt n.ip (dn_at b'2').ip ≡ false)
        raft_dn.datanode_list
unfolding get_my_ip same_text
get_my_ip-least_example =
    get_my_ip-least (other_address ∷ (dn_at b'2').ip ∷ []) raft_dn.datanode_list (dn_at b'2').ip
      refl
