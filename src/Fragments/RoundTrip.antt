-- ===== src/Fragments/RoundTrip.antt =====
-- The places of a block's fragments are read back from their text.
use spkdfs.Prelude.{
  ◌≡◌, refl, ap, subst, ◌∙◌, List, [], ◌∷◌, ◌++◌, append_assoc, append-nil, map, All,
  pop_back-append, ℕ,
}
use spkdfs.Exn.{Text, ok}
use spkdfs.Text.Split.{
  Lacks, Lacks-append, tokens, before_all, before-append, after-append, tokens-append_delimiter,
  tokens_single,
}
use spkdfs.Node.{Node, to_string}
use spkdfs.Node.RoundTrip.{IsPlain, new_node-to_string, to_string-Lacks_comma, to_string-Lacks_bar}
use spkdfs.Fragments.{encode_one_sub, decode_one_sub, decode_fragment, fragments_loop}

-- A fragment at a node, given as the node's text and the block's id.
pub record Placed : Type 0 where
  pub node : Node
  pub blkid : Text

-- No separator stands in the address or in the id.
pub record IsPlaced (p : Placed) : Type 0 where
  pub plain : IsPlain p.node
  pub no_bar : Lacks b'|' p.node.ip
  pub id_no_bar : Lacks b'|' p.blkid
  pub id_no_comma : Lacks b',' p.blkid

abbrev pub entry : Placed → Text × Text
entry p = (to_string p.node, p.blkid)

abbrev body : Placed → Text
body p = to_string p.node ++ b'|' ∷ p.blkid

listed : Placed → List Placed → Text
listed p [] = body p
listed p (q ∷ ps) = body p ++ b',' ∷ listed q ps

loop-listed :
    (p : Placed) (ps : List Placed)
    → All IsPlaced (p ∷ ps)
    → fragments_loop (map entry (p ∷ ps)) ≡ ok (listed p ps ++ b',' ∷ [])
unfolding fragments_loop listed to_string
loop-listed p [] h =
    rw (new_node-to_string p.node h.0.plain) (ap ok (simp (append_assoc, append-nil)))
loop-listed p (q ∷ ps) h =
    rw (new_node-to_string p.node h.0.plain) (rw (loop-listed q ps h.1) (ap ok (simp append_assoc)))

body-Lacks : (p : Placed) → IsPlaced p → Lacks b',' (body p)
body-Lacks p h =
    Lacks-append b',' (to_string p.node) _ (to_string-Lacks_comma p.node h.plain)
      (refl, h.id_no_comma)

decode-body : (p : Placed) → IsPlaced p → decode_fragment (body p) ≡ entry p
unfolding decode_fragment
decode-body p h =
    let l = to_string-Lacks_bar p.node h.no_bar in
    rw
      (
        before-append b'|' (to_string p.node) p.blkid l,
        after-append b'|' (to_string p.node) p.blkid l,
      )
      (rw (before_all b'|' p.blkid h.id_no_bar))

body-cons : (p : Placed) → (c : ℕ) × (s : Text) × (body p ≡ c ∷ s)
body-cons p = go (to_string p.node)
  where
    go : (l : Text) → (c : ℕ) × (s : Text) × ((l ++ b'|' ∷ p.blkid) ≡ c ∷ s)
    go [] = (b'|', p.blkid, refl)
    go (c ∷ l) = (c, l ++ b'|' ∷ p.blkid, refl)

tokens-listed :
    (p : Placed) (ps : List Placed)
    → All IsPlaced (p ∷ ps)
    → tokens b',' (listed p ps) ≡ map body (p ∷ ps)
unfolding listed
tokens-listed p [] h =
    let (c, s, e) = body-cons p in
    rw e (tokens_single b',' c s (subst (Lacks b',') e (body-Lacks p h.0)))
tokens-listed p (q ∷ ps) h =
    tokens-append_delimiter b',' (body p) (listed q ps) (body-Lacks p h.0)
    ∙ ap (λ l. body p ∷ l) (tokens-listed q ps h.1)

decode-map : (ps : List Placed) → All IsPlaced ps → map decode_fragment (map body ps) ≡ map entry ps
decode-map [] h = refl
decode-map (p ∷ ps) h = rw (decode-body p h.0, decode-map ps h.1)

-- The fragments of a block that has some, at nodes whose addresses hold no `:`, `,` or `|` and whose
-- ports are `int`s, with ids that hold no `,` or `|`, are encoded to a text, and are decoded from it
-- with their nodes and ids, in order.
pub decode_one_sub-encode_one_sub :
    (p : Placed) (ps : List Placed)
    → All IsPlaced (p ∷ ps)
    → (text : Text) × (encode_one_sub (map entry (p ∷ ps)) ≡ ok text)
      × (decode_one_sub text ≡ map entry (p ∷ ps))
unfolding encode_one_sub decode_one_sub
decode_one_sub-encode_one_sub p ps h = (
  listed p ps,
  rw (loop-listed p ps h) (ap ok (pop_back-append (listed p ps) b',')),
  ap (map decode_fragment) (tokens-listed p ps h) ∙ decode-map (p ∷ ps) h,
)
