-- ===== src/Sdk/Transfer/Upload.antt =====
-- What the loop of `encode_one` stores, and where it ends.
use spkdfs.Prelude.{
  ℕ, zero, suc, ◌≡◌, refl, sym, ap, subst, ◌∙◌, ◌⊎◌, inl, inr, Option, some, some_injective,
  Option-cases, List, [], ◌∷◌, ◌++◌, append_assoc, map, length, get_elem?, All, All-append, arith,
}
use spkdfs.Exn.{Text, Result, ok, throw, abort, >>=-eq-ok, ok_injective}
use spkdfs.Node.{Node, to_string}
use spkdfs.Storage.{StorageType}
use spkdfs.Sdk.Transfer.{
  Datanodes, Progress, Ended, ended, undefined, put_to_datanode, check_call, upload, after_put,
  next_round, or_ended,
}

map-append_one {ℓ κ} :
    {A : Type ℓ} {B : Type κ} (f : A → B) (xs : List A) (y : A)
    → map f (xs ++ y ∷ []) ≡ map f xs ++ f y ∷ []
map-append_one f [] y = refl
map-append_one f (x ∷ xs) y = ap (λ l. f x ∷ l) (map-append_one f xs y)

get_elem?-map :
    (nodes : List Node) (i : ℕ) (P : Node → Type 0) {t : Text}
    → All P nodes
    → get_elem? (map to_string nodes) i ≡ some t
    → (n : Node) × (t ≡ to_string n) × P n
get_elem?-map [] i P h e = absurd (cc)
get_elem?-map (n ∷ nodes) zero P h e = (n, sym (some_injective e), h.0)
get_elem?-map (n ∷ nodes) (suc i) P h e = get_elem?-map nodes i P h.1 e

module _ (D : Datanodes) where
  -- A node with the fragment that it was given, as the source writes it down.
  abbrev pub stored : Node × Text → Text × Text
  stored (n, fragment) = (to_string n, D.sha256sum fragment)

  abbrev pub fragment_of : Node × Text → Text
  fragment_of (n, fragment) = fragment

  -- What was stored, in order, and what is left, make up all fragments.
  pub record IsSent (P : Node → Type 0) (all left : List Text) (nodes_hashs : List (Text × Text))
      : Type 0 where
    pub placed : List (Node × Text)
    pub written : nodes_hashs ≡ map stored placed
    pub parts : map fragment_of placed ++ left ≡ all
    pub at_nodes : All (λ (q : Node × Text). P q.0) placed

  put_to_datanode-eq-ok :
      (s : D.State) (node fragment : Text) {blkid : Text}
      → (put_to_datanode D s node fragment).1 ≡ ok blkid
      → blkid ≡ D.sha256sum fragment
  unfolding put_to_datanode
  put_to_datanode-eq-ok s node fragment e =
      let (u, c, r) =
        >>=-eq-ok (check_call (D.call_put s node (D.sha256sum fragment) fragment).1) _ e in
      sym (ok_injective r)

  next_round-nodes_hashs :
      (storage : StorageType) (size : ℕ) (p : Progress) {next : Progress}
      → next_round D storage size p ≡ some next
      → next.nodes_hashs ≡ p.nodes_hashs
  unfolding next_round
  next_round-nodes_hashs storage size p e = ground arith

  undefined_ended : {s1 : D.State} {hashs : List (Text × Text)} → undefined ≡ ended s1 hashs → ⊥
  undefined_ended e = cc

  -- The loop ends with what it has stored, or goes on with it.
  or_ended-cases :
      (storage : StorageType) (size : ℕ) (s' : D.State) (p : Progress)
      (k : Progress → Option (Ended D.State)) {s1 : D.State} {hashs : List (Text × Text)}
      → or_ended D s' p (next_round D storage size p) k ≡ some (ended s1 hashs)
      → (hashs ≡ p.nodes_hashs)
        ⊎ ((next : Progress) × (k next ≡ some (ended s1 hashs))
            × (next.nodes_hashs ≡ p.nodes_hashs))
  unfolding or_ended
  or_ended-cases storage size s' p k {s1} {hashs} e =
      elim (Option-cases (next_round D storage size p)) [
        | inl g ↦ inl (ended_hashs (some_injective (rw g at e)))
        | inr (next, g) ↦ inr (next, rw g at e, next_round-nodes_hashs storage size p g)
      ]
    where
      ended_hashs :
          {t : D.State} {hs : List (Text × Text)} → ended t hs ≡ ended s1 hashs → hashs ≡ hs
      ended_hashs q = cc

  module _ (storage : StorageType) (nodes : List Node) (P : Node → Type 0) (ok_nodes : All P nodes)
      (all : List Text) where
    store_one :
        {fragment : Text} {left : List Text} {done : List (Text × Text)} (node : Node)
        → P node
        → IsSent P all (fragment ∷ left) done
        → IsSent P all left (done ++ (to_string node, D.sha256sum fragment) ∷ [])
    store_one {fragment} {left} {done = done} node h sent = record {
      placed = sent.placed ++ (node, fragment) ∷ [];
      written =
          ap (λ l. l ++ (to_string node, D.sha256sum fragment) ∷ []) sent.written
          ∙ sym (map-append_one stored sent.placed (node, fragment));
      parts =
          ap (λ l. l ++ left) (map-append_one fragment_of sent.placed (node, fragment))
          ∙ append_assoc (map fragment_of sent.placed) (fragment ∷ []) left
          ∙ sent.parts;
      at_nodes =
          All-append (λ (q : Node × Text). P q.0) sent.placed ((node, fragment) ∷ []) sent.at_nodes
            (h, tt);
    }

    -- What a round leaves.
    after_put-IsSent :
        (s : D.State) (fragment : Text) (left : List Text) (node : Node) (p : Progress)
        (r : Result Text)
        → P node
        → (put_to_datanode D s (to_string node) fragment).1 ≡ r
        → IsSent P all (fragment ∷ left) p.nodes_hashs
        → IsSent P all
            (after_put D fragment left (to_string node) p r).0
            (after_put D fragment left (to_string node) p r).1.nodes_hashs
    unfolding after_put
    after_put-IsSent s fragment left node p (ok blkid) h e sent =
        subst (λ b. IsSent P all left (p.nodes_hashs ++ (to_string node, b) ∷ []))
          (sym (put_to_datanode-eq-ok s (to_string node) fragment e)) (store_one node h sent)
    after_put-IsSent s fragment left node p (throw x) h e sent = sent
    after_put-IsSent s fragment left node p abort h e sent = sent

    -- Whatever the datanodes answer, a loop that ends has stored fragments in their order, from the
    -- first on, at nodes of the list.
    pub upload-IsSent :
        (fuel : ℕ) (s : D.State) (left : List Text) (p : Progress) {s1 : D.State}
        {hashs : List (Text × Text)}
        → upload D fuel storage (map to_string nodes) s left p ≡ some (ended s1 hashs)
        → IsSent P all left p.nodes_hashs
        → (rest : List Text) × IsSent P all rest hashs
    unfolding upload
    upload-IsSent fuel s [] p {s1} {hashs} e sent =
        ([], subst (IsSent P all []) (ended_hashs (some_injective e)) sent)
      where
        ended_hashs :
            {t : D.State} {hs : List (Text × Text)} → ended t hs ≡ ended s1 hashs → hs ≡ hashs
        ended_hashs q = cc
    upload-IsSent zero s (fragment ∷ left) p e sent = absurd (cc)
    upload-IsSent (suc fuel) s (fragment ∷ left) p e sent =
        elim (Option-cases (get_elem? (map to_string nodes) p.node_index)) [
          | inl g ↦ absurd (undefined_ended (some_injective (rw g at e)))
          | inr (t, g) ↦
              let (node, same, h) = get_elem?-map nodes p.node_index P ok_nodes g in
              let e1 = rw same at (rw g at e) in
              let r = (put_to_datanode D s (to_string node) fragment).1 in
              let after = after_put D fragment left (to_string node) p r in
              let sent' = after_put-IsSent s fragment left node p r h refl sent in
              elim (or_ended-cases storage (length (map to_string nodes)) _ after.1
                (upload D fuel storage (map to_string nodes) _ after.0) e1) [
                  | inl last ↦ (after.0, subst (IsSent P all after.0) (sym last) sent')
                  | inr (next, more, kept) ↦
                      upload-IsSent fuel _ after.0 next more
                        (subst (IsSent P all after.0) (sym kept) sent')
                ]
        ]
