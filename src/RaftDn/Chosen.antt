-- ===== src/RaftDn/Chosen.antt =====
-- The namenodes that the leader of the datanodes chooses.
use spkdfs.Prelude.{
  ℕ, zero, suc, ◌≤◌, ◌<◌, max, ◌≡◌, refl, ap, subst, Bool, true, false, not, ◌&&◌, Bool-cases, inl,
  inr, List, [], ◌∷◌, ◌++◌, keep_if, length, length-append, take, drop, ltb, leb, All, All-right,
  get_elem?, some, arith,
}
use spkdfs.Prelude.Int.{ℤ}
use spkdfs.Exn.{Text}
use spkdfs.Text.{text_lt_irrefl}
use spkdfs.Node.{Node, node_lt, node_discovery}
use spkdfs.RaftDn.Online.{IsOnline, All-of_get, All-left, choose_namenodes-Holds}
use spkdfs.RaftDn.{RaftDn, is_online, found_in, take_online, select, still_online, choose_namenodes}

same_address :
    (d : Node) (port : ℤ)
    → (not (node_lt (record d { port = port }) d) && not (node_lt d (record d { port = port })))
      ≡ true
unfolding node_lt
same_address d port = rw (text_lt_irrefl d.ip) refl

found_in-append_self :
    (nodes : List Node) (port : ℤ) (d : Node)
    → found_in (nodes ++ record d { port = port } ∷ []) d ≡ true
unfolding found_in
found_in-append_self [] port d = ground (arith, same_address d port)
found_in-append_self (n ∷ nodes) port d = ground (arith, found_in-append_self nodes port d)

found_in-append :
    (nodes more : List Node) (d : Node)
    → found_in nodes d ≡ true
    → found_in (nodes ++ more) d ≡ true
unfolding found_in
found_in-append [] more d h = cc
found_in-append (n ∷ nodes) more d h = ground (arith, found_in-append nodes more d)

-- What holds of every datanode that answers: it is in the list.
abbrev Includes : (Node → Bool) → List Node → Node → Type 0
Includes answers nodes d = answers d ≡ true → found_in nodes d ≡ true

module _ (expected : ℕ) (port : ℤ) where
  take_online-found :
      (sub nodes : List Node) (d : Node)
      → found_in nodes d ≡ true
      → found_in (take_online expected port sub nodes) d ≡ true
  unfolding take_online
  take_online-found [] nodes d h = h
  take_online-found (n ∷ sub) nodes d h = elim (Bool-cases (is_online n)) [
    | inr off ↦ rw off (take_online-found sub nodes d h)
    | inl on ↦
        let moved : Node = record n { port = port } in
        let h' = found_in-append nodes (moved ∷ []) d h in
        elim (Bool-cases (leb expected (length (nodes ++ moved ∷ [])))) [
          | inl full ↦ rw (on, full) h'
          | inr space ↦ rw (on, space) (take_online-found sub (nodes ++ moved ∷ []) d h')
        ]
  ]

  take_online-bounds :
      (sub nodes : List Node)
      → length nodes < expected
      → (length nodes ≤ length (take_online expected port sub nodes))
        × (length (take_online expected port sub nodes) ≤ expected)
  unfolding take_online
  take_online-bounds [] nodes h = (omega arith, omega arith)
  take_online-bounds (n ∷ sub) nodes h = elim (Bool-cases (is_online n)) [
    | inr off ↦ rw off (take_online-bounds sub nodes h)
    | inl on ↦
        let moved : Node = record n { port = port } in
        let one_more = length-append nodes (moved ∷ []) in
        elim (Bool-cases (leb expected (length (nodes ++ moved ∷ [])))) [
          | inl full ↦ rw (on, full) (omega (arith, one_more), omega (arith, one_more))
          | inr space ↦
              let (low, high) =
                take_online-bounds sub (nodes ++ moved ∷ []) (ground (arith, space)) in
              rw (on, space) (omega (arith, one_more, low), high)
        ]
  ]

  -- Where there is room left, no node that is online was passed.
  take_online-All :
      (sub nodes result : List Node)
      → take_online expected port sub nodes ≡ result
      → length result < expected
      → All (λ d. IsOnline d → found_in result d ≡ true) sub
  unfolding take_online
  take_online-All [] nodes result e h = tt
  take_online-All (n ∷ sub) nodes result e h = elim (Bool-cases (is_online n)) [
    | inr off ↦ ((λ on. absurd (cc (off, on))), take_online-All sub nodes result (rw off at e) h)
    | inl on ↦
        let moved : Node = record n { port = port } in
        elim (Bool-cases (leb expected (length (nodes ++ moved ∷ [])))) [
          | inl full ↦
              absurd (ground (arith, full, ap (λ (l : List Node). length l) (rw (on, full) at e)))
          | inr space ↦
              let e' = rw (on, space) at e in
              (
                (λ _.
                    subst (λ r. found_in r n ≡ true) e'
                      (take_online-found sub (nodes ++ moved ∷ []) n
                        (found_in-append_self nodes port n))),
                take_online-All sub (nodes ++ moved ∷ []) result e' h,
              )
        ]
  ]

  scanned-All :
      (answers : Node → Bool) (sub part result : List Node)
      → ((d : Node) → found_in part d ≡ true → found_in result d ≡ true)
      → All (λ d. IsOnline d → found_in part d ≡ true) (node_discovery answers sub)
      → All (Includes answers result) sub
  unfolding node_discovery is_online found_in node_lt
  scanned-All answers [] part result f h = tt
  scanned-All answers (n ∷ sub) part result f h =
      ((λ on. f n (h.0 (rw on refl))), scanned-All answers sub part result f h.1)

  All-take-drop :
      (P : Node → Type 0) (n : ℕ) (nodes : List Node)
      → All P (take n nodes)
      → All P (drop n nodes)
      → All P nodes
  All-take-drop P zero nodes h k = k
  All-take-drop P (suc n) [] h k = tt
  All-take-drop P (suc n) (x ∷ nodes) h k = (h.0, All-take-drop P n nodes h.1 k)

  length-drop : (n : ℕ) (nodes : List Node) → length (drop n nodes) ≤ length nodes
  length-drop zero nodes = omega arith
  length-drop (suc n) [] = omega arith
  length-drop (suc n) (x ∷ nodes) = omega (arith, length-drop n nodes)

  length-drop_positive :
      (n : ℕ) (x : Node) (nodes : List Node) → 0 < n → length (drop n (x ∷ nodes)) ≤ length nodes
  length-drop_positive zero x nodes h = absurd (omega arith)
  length-drop_positive (suc n) x nodes h = length-drop n nodes

  module _ (answers : Node → Bool) where
    select-found :
        (fuel : ℕ) (all nodes : List Node) (d : Node)
        → found_in nodes d ≡ true
        → found_in (select fuel answers expected port all nodes) d ≡ true
    unfolding select
    select-found zero all nodes d h = h
    select-found (suc fuel) [] nodes d h = h
    select-found (suc fuel) (n ∷ all) nodes d h = elim (Bool-cases (ltb (length nodes) expected)) [
      | inr full ↦ rw full h
      | inl space ↦ rw space (
          select-found fuel (drop expected (n ∷ all)) _ d
            (take_online-found (node_discovery answers (take expected (n ∷ all))) nodes d h))
    ]

    select_bound :
        (fuel : ℕ) (all nodes : List Node)
        → length (select fuel answers expected port all nodes) ≤ max expected (length nodes)
    unfolding select
    select_bound zero all nodes = omega arith
    select_bound (suc fuel) [] nodes = omega arith
    select_bound (suc fuel) (n ∷ all) nodes = elim (Bool-cases (ltb (length nodes) expected)) [
      | inr full ↦ rw full (omega arith)
      | inl space ↦
          let sub = node_discovery answers (take expected (n ∷ all)) in
          let (low, high) = take_online-bounds sub nodes (ground (arith, space)) in
          rw space (
            omega (
              arith,
              high,
              select_bound fuel (drop expected (n ∷ all)) (take_online expected port sub nodes),
            ))
    ]

    take_online-length :
        (sub nodes : List Node) → length nodes ≤ length (take_online expected port sub nodes)
    unfolding take_online
    take_online-length [] nodes = omega arith
    take_online-length (n ∷ sub) nodes =
        let moved : Node = record n { port = port } in
        ground (
          arith,
          length-append nodes (moved ∷ []),
          take_online-length sub nodes,
          take_online-length sub (nodes ++ moved ∷ []),
        )

    select-length :
        (fuel : ℕ) (all nodes : List Node)
        → length nodes ≤ length (select fuel answers expected port all nodes)
    unfolding select
    select-length zero all nodes = omega arith
    select-length (suc fuel) [] nodes = omega arith
    select-length (suc fuel) (n ∷ all) nodes = elim (Bool-cases (ltb (length nodes) expected)) [
      | inr full ↦ rw full (omega arith)
      | inl space ↦
          let sub = node_discovery answers (take expected (n ∷ all)) in
          rw space (
            omega (
              arith,
              take_online-length sub nodes,
              select-length fuel (drop expected (n ∷ all)) (take_online expected port sub nodes),
            ))
    ]

    -- Every part of the list is reached with this fuel.
    select-All :
        (fuel : ℕ) (all nodes result : List Node)
        → length all ≤ fuel
        → select fuel answers expected port all nodes ≡ result
        → length result < expected
        → All (Includes answers result) all
    unfolding select
    select-All zero [] nodes result enough e h = tt
    select-All zero (n ∷ all) nodes result enough e h = absurd (omega arith)
    select-All (suc fuel) [] nodes result enough e h = tt
    select-All (suc fuel) (n ∷ all) nodes result enough e h =
        elim (Bool-cases (ltb (length nodes) expected)) [
          | inr full ↦
              absurd (ground (arith, full, ap (λ (l : List Node). length l) (rw full at e)))
          | inl space ↦
              let rest = drop expected (n ∷ all) in
              let part =
                take_online expected port (node_discovery answers (take expected (n ∷ all)))
                  nodes in
              let e' : select fuel answers expected port rest part ≡ result = rw space at e in
              let grown = ap (λ (l : List Node). length l) e' in
              let positive : 0 < expected = ground (arith, space) in
              All-take-drop (Includes answers result) expected (n ∷ all)
                (scanned-All answers (take expected (n ∷ all)) part result
                  (λ d f. subst (λ r. found_in r d ≡ true) e' (select-found fuel rest part d f))
                  (take_online-All (node_discovery answers (take expected (n ∷ all))) nodes part
                    refl (omega (arith, select-length fuel rest part, grown))))
                (select-All fuel rest part result
                  (omega (arith, length-drop_positive expected n all positive)) e' h)
        ]

All-keep_if :
    (P : Node → Type 0) (p : Node → Bool) (nodes : List Node)
    → ((d : Node) → p d ≡ false → P d)
    → All P (keep_if p nodes)
    → All P nodes
All-keep_if P p [] f h = tt
All-keep_if P p (n ∷ nodes) f h = go (p n) refl (All-keep_if P p nodes f) h
  where
    go :
        (b : Bool)
        → p n ≡ b
        → (All P (keep_if p nodes) → All P nodes)
        → All P (elim b [ true ↦ n ∷ keep_if p nodes | false ↦ keep_if p nodes ])
        → All P (n ∷ nodes)
    go true e rest h = (h.0, rest h.1)
    go false e rest h = (f n e, rest h)

-- What the leader of the datanodes chooses: each node is marked as online and has the address of one
-- of the namenodes or datanodes so far that answers the probe; they are no more than are expected
-- or than the namenodes that are still online, if those are more; and where they are fewer than
-- expected, every datanode that answers is among them.
pub choose_namenodes-chosen :
    (answers : Node → Bool) (expected : ℕ) (port : ℤ) (self : RaftDn)
    → let chosen = choose_namenodes answers expected port self in
      All
        (λ n.
          (is_online n ≡ true)
          × ((i : ℕ) × (d : Node) × (get_elem? (self.namenode_list ++ self.datanode_list) i
                ≡ some d)
              × (d.ip ≡ n.ip)
              × (answers d ≡ true)))
        chosen
      × (length chosen ≤ max expected (length (still_online answers self.namenode_list)))
      × (length chosen < expected
          → All (λ d. answers d ≡ true → found_in chosen d ≡ true) self.datanode_list)
unfolding choose_namenodes is_online
choose_namenodes-chosen answers expected port self =
    let nodes = still_online answers self.namenode_list in
    let all = keep_if (λ node. not (found_in nodes node)) self.datanode_list in
    let known = self.namenode_list ++ self.datanode_list in
    let Q : Text → Type 0 = λ ip.
      (i : ℕ) × (d : Node) × (get_elem? known i ≡ some d) × (d.ip ≡ ip) × (answers d ≡ true) in
    let R : Node → Type 0 = λ d. answers d ≡ true → Q d.ip in
    let found : All R known = All-of_get R known (λ i d at up. (i, d, at, refl, up)) in
    (
      choose_namenodes-Holds Q answers expected port self
          (All-left R self.namenode_list self.datanode_list found)
          (All-right R self.namenode_list self.datanode_list found),
      select_bound expected port answers (length all) all nodes,
      λ few.
          All-keep_if (Includes answers (select (length all) answers expected port all nodes))
            (λ node. not (found_in nodes node)) self.datanode_list
            (λ d e _.
              select-found expected port answers (length all) all nodes d
                (negated (found_in nodes d) e))
            (select-All expected port answers (length all) all nodes _ (omega arith) refl few),
    )
  where
    negated : (b : Bool) → not b ≡ false → b ≡ true
    negated true e = refl
    negated false e = cc
