-- ===== src/Sdk/Transfer/Ends.antt =====
-- When the loop of `encode_one` ends.
use spkdfs.Prelude.{
  ℕ, zero, suc, ◌+◌, ◌-◌, ◌%◌, ◌≤◌, ◌<◌, ◌≡◌, refl, ◌∙◌, true, false, none, some, List, [], ◌∷◌,
  length, get_elem?, arith,
}
use spkdfs.Prelude.Int.{pos}
use spkdfs.Exn.{Text}
use spkdfs.Storage.{StorageType, check}
use spkdfs.Sdk.Transfer.{
  Datanodes, failed, Progress, ended, fresh, put_to_datanode, check_call, upload, after_put,
  next_round, or_ended,
}

get_elem?-lt :
    (nodes : List Text) (i : ℕ) → i < length nodes → (t : Text) × (get_elem? nodes i ≡ some t)
get_elem?-lt [] i h = absurd (omega arith)
get_elem?-lt (n ∷ nodes) zero h = (n, refl)
get_elem?-lt (n ∷ nodes) (suc i) h = get_elem?-lt nodes i (omega arith)

module _ (D : Datanodes) where
  -- No call of `put` gets through to a datanode.
  abbrev pub AllFail : Type 0
  AllFail =
      (s : D.State) (node blkid fragment : Text)
      → (what : Text) × ((D.call_put s node blkid fragment).1 ≡ failed what)

  module _ (fails : AllFail) (storage : StorageType) (nodes : List Text) where
    abbrev failed_once : Progress → Progress
    failed_once p = record p { fail_count = p.fail_count + 1 }

    put_failed :
        (s : D.State) (node fragment : Text) (left : List Text) (p : Progress)
        → after_put D fragment left node p (put_to_datanode D s node fragment).1
          ≡ (fragment ∷ left, failed_once p)
    unfolding after_put put_to_datanode check_call
    put_failed s node fragment left p =
        let (what, e) = fails s node (D.sha256sum fragment) fragment in rw e refl

    -- One round of the loop.
    upload_failed :
        (fuel : ℕ) (s : D.State) (fragment : Text) (left : List Text) (p : Progress)
        → p.node_index < length nodes
        → (s' : D.State) × (upload D (suc fuel) storage nodes s (fragment ∷ left) p
            ≡ or_ended D s'
                (failed_once p)
                (next_round D storage (length nodes) (failed_once p))
                (upload D fuel storage nodes s' (fragment ∷ left)))
    unfolding upload
    upload_failed fuel s fragment left p h =
        let (node, g) = get_elem?-lt nodes p.node_index h in
        ((put_to_datanode D s node fragment).0, rw g (rw (put_failed s node fragment left p) refl))

    wraps : (n m : ℕ) → n + 1 ≡ m → (n + 1) % m ≡ 0
    wraps n m h = grind arith

    stays : (n m : ℕ) → n + 1 < m → (n + 1) % m ≡ n + 1
    stays n m h = grind arith

    -- The node is the last one of the list, and all have failed.
    round_ends :
        (p : Progress)
        → check storage (pos p.succ) ≡ false
        → p.node_index + 1 ≡ length nodes
        → p.fail_count ≡ p.node_index
        → next_round D storage (length nodes) (failed_once p) ≡ none
    unfolding next_round
    round_ends p c at count = ground (arith, c, wraps p.node_index (length nodes) at)

    round_goes_on :
        (p : Progress)
        → p.node_index + 1 < length nodes
        → next_round D storage (length nodes) (failed_once p)
          ≡ some (record (failed_once p) { node_index = p.node_index + 1 })
    unfolding next_round
    round_goes_on p at = rw (stays p.node_index (length nodes) at) (ground arith)

    -- All the nodes from `node_index` on fail, and the round ends the loop.
    ends_after :
        (rounds fuel : ℕ) (s : D.State) (fragment : Text) (left : List Text) (p : Progress)
        → check storage (pos p.succ) ≡ false
        → p.node_index + suc rounds ≡ length nodes
        → p.fail_count ≡ p.node_index
        → suc rounds ≤ fuel
        → (s' : D.State) × (upload D fuel storage nodes s (fragment ∷ left) p
            ≡ some (ended s' p.nodes_hashs))
    unfolding or_ended
    ends_after rounds zero s fragment left p c at count enough = absurd (omega arith)
    ends_after zero (suc fuel) s fragment left p c at count enough =
        let (s', e) = upload_failed fuel s fragment left p (omega arith) in
        (s', e ∙ rw (round_ends p c at count) refl)
    ends_after (suc rounds) (suc fuel) s fragment left p c at count enough =
        let (s', e) = upload_failed fuel s fragment left p (omega arith) in
        let next : Progress = record (failed_once p) { node_index = p.node_index + 1 } in
        let (s1, e1) =
          ends_after rounds fuel s' fragment left next c (omega arith) (omega arith)
            (omega arith) in
        (s1, e ∙ rw (round_goes_on p (omega arith)) e1)

    -- With enough fragments stored, every round goes on, to a node of the list.
    goes_on :
        (p : Progress)
        → check storage (pos p.succ) ≡ true
        → 0 < length nodes
        → (next : Progress) × (next_round D storage (length nodes) p ≡ some next)
          × (next.succ ≡ p.succ)
          × (next.node_index < length nodes)
    unfolding next_round
    goes_on p c h = (
      record p { node_index = (p.node_index + 1) % length nodes },
      ground (arith, c),
      refl,
      grind arith,
    )

    never_ends :
        (fuel : ℕ) (s : D.State) (fragment : Text) (left : List Text) (p : Progress)
        → check storage (pos p.succ) ≡ true
        → p.node_index < length nodes
        → upload D fuel storage nodes s (fragment ∷ left) p ≡ none
    unfolding or_ended upload
    never_ends zero s fragment left p c h = refl
    never_ends (suc fuel) s fragment left p c h =
        let (s', e) = upload_failed fuel s fragment left p h in
        let (next, g, same, i) = goes_on (failed_once p) c (omega arith) in
        e ∙ rw g (never_ends fuel s' fragment left next (rw same c) i)

    -- If no call of a datanode gets through: a loop at its start, with a list of nodes that is not
    -- empty, ends after one round over them with nothing stored, if nothing stored is not enough; and
    -- a loop that has stored enough already and has fragments left never ends, whatever the fuel.
    pub upload_all_fail :
        (s : D.State) (fragment : Text) (left : List Text)
        → 0 < length nodes
        → (check storage (pos 0) ≡ false
            → (s' : D.State) × (upload D (length nodes) storage nodes s (fragment ∷ left) (fresh D)
                ≡ some (ended s' [])))
          × ((fuel : ℕ) (p : Progress)
              → check storage (pos p.succ) ≡ true
              → p.node_index < length nodes
              → upload D fuel storage nodes s (fragment ∷ left) p ≡ none)
    upload_all_fail s fragment left h = (
      (λ c.
          ends_after (length nodes - 1) (length nodes) s fragment left (fresh D) c (omega arith)
            refl (omega arith)),
      λ fuel p c i. never_ends fuel s fragment left p c i,
    )
