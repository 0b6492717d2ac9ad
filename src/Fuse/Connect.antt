-- ===== src/Fuse/Connect.antt =====
-- Which node a mount connects to.
use spkdfs.Prelude.{
  ◌≡◌, refl, ap, sym, ◌∙◌, inl, inr, Bool, Bool-cases, List, [], ◌∷◌, ◌++◌, append_assoc,
  append-nil, length, ◌==◌,
}
use spkdfs.Node.{Node, node_discovery, scan}
use spkdfs.RaftDn.{is_online}
use spkdfs.Fuse.{choose_node, first_online, or_else}

first_online-append :
    (answers : Node → Bool) (xs ys : List Node)
    → first_online (node_discovery answers (xs ++ ys))
      ≡ or_else
          (first_online (node_discovery answers xs))
          (first_online (node_discovery answers ys))
unfolding first_online or_else node_discovery
first_online-append answers [] ys = refl
first_online-append answers (x ∷ xs) ys = elim (Bool-cases (is_online (scan answers x))) [
  | inl e ↦ rw e refl
  | inr e ↦ rw e (first_online-append answers xs ys)
]

-- A mount that looks at its nodes three at a time connects to the node it would find by probing all
-- of them at once: the first that answers, or none where none does. This is stated with any nodes of
-- the group at hand.
pub choose_node-is_first :
    (answers : Node → Bool) (nodes sub : List Node)
    → choose_node answers nodes sub ≡ first_online (node_discovery answers (sub ++ nodes))
unfolding choose_node
choose_node-is_first answers [] sub =
    ap (λ l. first_online (node_discovery answers l)) (sym (append-nil sub))
choose_node-is_first answers (node ∷ nodes) sub = elim (Bool-cases (length sub == 3)) [
  | inl e ↦ rw e (
      ap (or_else (first_online (node_discovery answers sub)))
        (choose_node-is_first answers nodes (node ∷ []))
      ∙ sym (first_online-append answers sub (node ∷ nodes)))
  | inr e ↦ rw e (
      choose_node-is_first answers nodes (sub ++ node ∷ [])
      ∙ ap (λ l. first_online (node_discovery answers l)) (append_assoc sub (node ∷ []) nodes))
]
