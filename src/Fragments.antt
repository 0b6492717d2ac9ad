-- ===== src/Fragments.antt =====
-- `encode_one_sub` and `decode_one_sub` of src/common/inode.cpp: where the fragments of a block are
-- stored, as one text.
pub mod RoundTrip
use spkdfs.Prelude.{List, [], ◌∷◌, ◌++◌, map, pop_back}
use spkdfs.Prelude.Int.{pos}
use spkdfs.Exn.{Text, Result, ok, ◌>>=◌}
use spkdfs.Text.Split.{tokens, before, after}
use spkdfs.Node.{new_node, unknown}
use spkdfs.Node as Node

-- `to_string` of a text is that of the `Node` that the text converts to.
fragment_to_string : Text × Text → Result Text
fragment_to_string (node, blkid) = do
  n ← new_node node (pos 0) unknown
  ok (Node.to_string n ++ b'|' ∷ (blkid ++ b',' ∷ []))

unfoldable pub fragments_loop : List (Text × Text) → Result Text
unfolding fragment_to_string
fragments_loop [] = ok []
fragments_loop (f ∷ fs) = do s ← fragment_to_string f; rest ← fragments_loop fs; ok (s ++ rest)

-- Of no fragments the standard leaves `pop_back` undefined.
unfoldable pub encode_one_sub : List (Text × Text) → Result Text
unfolding fragments_loop
encode_one_sub nodes_hashs = do res ← fragments_loop nodes_hashs; ok (pop_back res)

-- The two fields of a token.
unfoldable pub decode_fragment : Text → Text × Text
decode_fragment s = (before b'|' s, before b'|' (after b'|' s))

unfoldable pub decode_one_sub : Text → List (Text × Text)
unfolding decode_fragment
decode_one_sub one_sub = map decode_fragment (tokens b',' one_sub)
