-- ===== src/Node/JsonForm.antt =====
-- `to_json` and `from_json` of src/common/node.cpp, and the JSON array of a list of nodes.
use spkdfs.Prelude.{◌≡◌, refl, List, [], ◌∷◌, map, All}
use spkdfs.Prelude.Int.{IsInt}
use spkdfs.Exn.{Text, Result, ok, ◌>>=◌}
use spkdfs.Text.{codes, same_text}
use spkdfs.Json.{JsonLib, IsJson, field, or_json_error, or_json_error-eq-ok}
use spkdfs.Node.{Node, unknown}

unfoldable pub key_ip : Text
unfolding codes
key_ip = codes "ip"

unfoldable pub key_port : Text
unfolding codes
key_port = codes "port"

-- A node that is read has the status of a new one.
abbrev pub as_read : Node → Node
as_read node = record node { node_status = unknown }

module _ (J : JsonLib) where
  unfoldable pub node_to_json : Node → J.Json
  node_to_json node = J.object ((key_ip, J.of_text node.ip) ∷ (key_port, J.of_int node.port) ∷ [])

  unfoldable pub node_from_json : J.Json → Result Node
  node_from_json j = do
    ip_json ← or_json_error (J.at_key j key_ip)
    ip ← or_json_error (J.to_text ip_json)
    port_json ← or_json_error (J.at_key j key_port)
    port ← or_json_error (J.to_int port_json)
    ok (record { ip = ip; port = port; node_status = unknown })

  -- `j.push_back(node)` for each, and `j.dump()`.
  unfoldable pub dump_nodes : List Node → Result Text
  unfolding node_to_json
  dump_nodes nodes = or_json_error (J.dump (J.array (map node_to_json nodes)))

  nodes_from_json : List J.Json → Result (List Node)
  nodes_from_json [] = ok []
  nodes_from_json (j ∷ js) = do
    node ← node_from_json j
    nodes ← nodes_from_json js
    ok (node ∷ nodes)

  -- `json::parse(…).get<vector<Node>>()`
  unfoldable pub read_nodes : Text → Result (List Node)
  unfolding nodes_from_json node_from_json
  read_nodes text = do
    j ← or_json_error (J.parse text)
    js ← or_json_error (J.to_array j)
    nodes_from_json js

module _ (J : JsonLib) (law : IsJson J) where
  node_from_json-node_to_json :
      (node : Node) → IsInt node.port → node_from_json J (node_to_json J node) ≡ ok (as_read node)
  unfolding node_from_json node_to_json or_json_error field same_text key_ip key_port
  node_from_json-node_to_json node h =
      simp (law.at_key-object, law.to_text-of_text, law.to_int-of_int node.port h)

  each_read :
      (nodes : List Node)
      → All (λ (n : Node). IsInt n.port) nodes
      → nodes_from_json J (map (node_to_json J) nodes) ≡ ok (map as_read nodes)
  unfolding nodes_from_json
  each_read [] h = refl
  each_read (node ∷ nodes) h = rw (node_from_json-node_to_json node h.0) (rw (each_read nodes h.1))

  -- A list that was dumped is read back, but for what was known of the nodes' status.
  pub read_nodes-dump_nodes :
      (nodes : List Node) {text : Text}
      → All (λ (n : Node). IsInt n.port) nodes
      → dump_nodes J nodes ≡ ok text
      → read_nodes J text ≡ ok (map as_read nodes)
  unfolding read_nodes dump_nodes or_json_error
  read_nodes-dump_nodes nodes {text} h e =
      let p =
        law.parse-dump (J.array (map (node_to_json J) nodes)) text (or_json_error-eq-ok _ e) in
      rw (p, law.to_array-array (map (node_to_json J) nodes)) (each_read nodes h)
