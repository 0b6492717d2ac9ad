-- ===== src/Node/RoundTrip.antt =====
-- A list of nodes is read back from its text.
use spkdfs.Prelude.{
  ◌≡◌, refl, sym, ap, subst, ◌∙◌, ℕ, List, [], ◌∷◌, ◌++◌, append_assoc, map, All, pop_back,
  pop_back-append,
}
use spkdfs.Prelude.Int.{pos, IsInt}
use spkdfs.Exn.{Text, ok}
use spkdfs.Text.Split.{
  Lacks, tokens, before-append, after-append, tokens-append_delimiter, tokens_single, Lacks-append,
}
use spkdfs.Text.Decimal.{stoi, is_digit, print}
use spkdfs.Text.Decimal as Decimal
use spkdfs.Text.Decimal.RoundTrip.{stoi-to_string, to_string_first, to_string-Lacks}
use spkdfs.Node.{
  Node, new_node, unknown, default_node, from_string, to_string, each_with_comma, list_to_string,
  parse_loop, parse_nodes,
}

-- An address that the text formats can carry, with a port that is an `int`.
pub record IsPlain (node : Node) : Type 0 where
  pub no_colon : Lacks b':' node.ip
  pub no_comma : Lacks b',' node.ip
  pub port_IsInt : IsInt node.port

pub from_string-to_string :
    (node old : Node)
    → IsPlain node
    → from_string (to_string node) old ≡ ok (record old { ip = node.ip; port = node.port })
unfolding from_string to_string
from_string-to_string node old h =
    let (c, s, e) = to_string_first node.port in
    rw
      (
        before-append b':' node.ip (Decimal.to_string node.port) h.no_colon,
        after-append b':' node.ip (Decimal.to_string node.port) h.no_colon,
      )
      (rw e (rw (← e) (rw (stoi-to_string node.port h.port_IsInt))))

pub to_string-Lacks_comma : (node : Node) → IsPlain node → Lacks b',' (to_string node)
unfolding to_string is_digit
to_string-Lacks_comma node h =
    Lacks-append b',' node.ip _ h.no_comma (refl, to_string-Lacks b',' node.port refl refl)

abbrev pub address : Node → Node
address node = record node { node_status = unknown }

-- The text before the last comma is dropped.
listed : Node → List Node → Text
listed node [] = to_string node
listed node (next ∷ nodes) = to_string node ++ b',' ∷ listed next nodes

each_with_comma-listed :
    (node : Node) (nodes : List Node)
    → each_with_comma (node ∷ nodes) ≡ listed node nodes ++ b',' ∷ []
unfolding each_with_comma listed
each_with_comma-listed node [] = refl
each_with_comma-listed node (next ∷ nodes) =
    ap (λ l. to_string node ++ b',' ∷ l) (each_with_comma-listed next nodes)
    ∙ sym (append_assoc (to_string node) (b',' ∷ listed next nodes) (b',' ∷ []))

list_to_string-listed :
    (node : Node) (nodes : List Node) → list_to_string (node ∷ nodes) ≡ listed node nodes
unfolding list_to_string
list_to_string-listed node nodes =
    ap pop_back (each_with_comma-listed node nodes) ∙ pop_back-append (listed node nodes) b','

to_string-cons : (node : Node) → (c : ℕ) × (s : Text) × (to_string node ≡ c ∷ s)
unfolding to_string
to_string-cons node = go node.ip
  where
    go : (l : Text) → (c : ℕ) × (s : Text) × ((l ++ b':' ∷ Decimal.to_string node.port) ≡ c ∷ s)
    go [] = (b':', Decimal.to_string node.port, refl)
    go (c ∷ l) = (c, l ++ b':' ∷ Decimal.to_string node.port, refl)

tokens-listed :
    (node : Node) (nodes : List Node)
    → All IsPlain (node ∷ nodes)
    → tokens b',' (listed node nodes) ≡ map to_string (node ∷ nodes)
unfolding listed
tokens-listed node [] h =
    let (c, s, e) = to_string-cons node in
    rw e (tokens_single b',' c s (subst (Lacks b',') e (to_string-Lacks_comma node h.0)))
tokens-listed node (next ∷ nodes) h =
    tokens-append_delimiter b',' (to_string node) (listed next nodes)
      (to_string-Lacks_comma node h.0)
    ∙ ap (λ l. to_string node ∷ l) (tokens-listed next nodes h.1)

parse_loop-map :
    (nodes : List Node) (old : Node)
    → All IsPlain nodes
    → old.node_status ≡ unknown
    → parse_loop (map to_string nodes) old ≡ ok (map address nodes)
unfolding parse_loop
parse_loop-map [] old h e = refl
parse_loop-map (node ∷ nodes) old h e =
    rw (from_string-to_string node old h.0)
      (rw (parse_loop-map nodes (record old { ip = node.ip; port = node.port }) h.1 e, e))

-- A list of nodes that is not empty, of addresses with no `:` and no `,` and of ports that are
-- `int`s, is printed to a text from which `parse_nodes` reads the same addresses and ports in the
-- same order, each of unknown status.
pub parse_nodes-list_to_string :
    (node : Node) (nodes : List Node)
    → All IsPlain (node ∷ nodes)
    → parse_nodes (list_to_string (node ∷ nodes)) ≡ ok (map address (node ∷ nodes))
unfolding parse_nodes
parse_nodes-list_to_string node nodes h =
    rw (list_to_string-listed node nodes)
      (rw (tokens-listed node nodes h) (parse_loop-map (node ∷ nodes) default_node h refl))

-- A node's text converts to the node's address.
pub new_node-to_string :
    (node : Node) → IsPlain node → new_node (to_string node) (pos 0) unknown ≡ ok (address node)
unfolding new_node
new_node-to_string node h =
    from_string-to_string node (record { ip = to_string node; port = pos 0; node_status = unknown })
      h

pub to_string-Lacks_bar : (node : Node) → Lacks b'|' node.ip → Lacks b'|' (to_string node)
unfolding to_string is_digit
to_string-Lacks_bar node h =
    Lacks-append b'|' node.ip _ h (refl, to_string-Lacks b'|' node.port refl refl)
