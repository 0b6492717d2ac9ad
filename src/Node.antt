-- ===== src/Node.antt =====
-- include/common/node.h and src/common/node.cpp: a node's address, its text, and lists of nodes.
-- Probing a node (`scan`) is a parameter, the nodes that answer.
pub mod RoundTrip
pub mod JsonForm
use spkdfs.Prelude.{Bool, not, ℕ, List, [], ◌∷◌, ◌++◌, map, pop_back, if◌then◌else◌}
use spkdfs.Prelude.Int.{ℤ, pos}
use spkdfs.Exn.{Text, Result, ok, ◌>>=◌}
use spkdfs.Text.{same_text, text_lt, codes}
use spkdfs.Text.Split.{tokens, before, after}
use spkdfs.Text.Decimal.{stoi}
use spkdfs.Text.Decimal as Decimal

pub data NodeStatus : Type 0 where
  online offline unknown : NodeStatus

pub record Node : Type 0 where
  pub ip : Text
  pub port : ℤ
  pub node_status : NodeStatus

-- Nodes are compared by address alone.
unfoldable pub same_node : Node → Node → Bool
same_node a b = same_text a.ip b.ip

unfoldable pub node_lt : Node → Node → Bool
node_lt a b = text_lt a.ip b.ip

-- The port is set only where the text names one.
set_port : Text → Node → Result Node
set_port [] node = ok node
set_port (c ∷ s) node = do port ← stoi (c ∷ s); ok (record node { port = port })

unfoldable pub from_string : Text → Node → Result Node
unfolding set_port
from_string s node = set_port (after b':' s) (record node { ip = before b':' s })

-- The constructor takes `ip` apart if it names a port.
unfoldable pub new_node : Text → ℤ → NodeStatus → Result Node
unfolding from_string
new_node ip port status = from_string ip (record { ip = ip; port = port; node_status = status })

-- `Node node;`
abbrev pub default_node : Node
default_node = record { ip = []; port = pos 0; node_status = unknown }

unfoldable pub to_string : Node → Text
to_string node = node.ip ++ b':' ∷ Decimal.to_string node.port

each_with_comma : List Node → Text
each_with_comma [] = []
each_with_comma (node ∷ nodes) = to_string node ++ b',' ∷ each_with_comma nodes

-- The text of a list; of an empty one the standard leaves `pop_back` undefined.
unfoldable pub list_to_string : List Node → Text
unfolding each_with_comma
list_to_string nodes = pop_back (each_with_comma nodes)

-- One `Node` serves all rounds of the loop, so a token without a port keeps the port before it.
unfoldable pub parse_loop : List Text → Node → Result (List Node)
parse_loop [] node = ok []
parse_loop (token ∷ ts) node = do
  node' ← from_string token node
  nodes ← parse_loop ts node'
  ok (node' ∷ nodes)

unfoldable pub parse_nodes : Text → Result (List Node)
unfolding parse_loop from_string
parse_nodes s = parse_loop (tokens b',' s) default_node

-- `INVALID_NODE` and `valid`
abbrev pub invalid_ip : Text
invalid_ip = b'0' ∷ b'.' ∷ b'0' ∷ b'.' ∷ b'0' ∷ b'.' ∷ b'0' ∷ []

unfoldable pub valid : Node → Bool
valid node = not (same_text node.ip invalid_ip)

-- `scan` and `node_discovery`: each node is probed, and its status set by the answer.
unfoldable pub scan : (Node → Bool) → Node → Node
scan answers node = record node { node_status = if answers node then online else offline }

unfoldable pub node_discovery : (Node → Bool) → List Node → List Node
unfolding scan
node_discovery answers nodes = map (scan answers) nodes
