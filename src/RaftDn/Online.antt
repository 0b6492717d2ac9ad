-- ===== src/RaftDn/Online.antt =====
-- Where the nodes come from that the leader of the datanodes chooses.
use spkdfs.Prelude.{
  ℕ, zero, suc, ◌≡◌, refl, sym, subst, Bool, true, not, Bool-cases, inl, inr, some, List, [], ◌∷◌,
  ◌++◌, keep_if, keep_if-eq-cons, keep_if-eq-rest, length, take, drop, ltb, leb, All, All-append,
  get_elem?,
}
use spkdfs.Prelude.Int.{ℤ}
use spkdfs.Exn.{Text}
use spkdfs.Node.{Node, node_lt, node_discovery}
use spkdfs.RaftDn.{
  RaftDn, is_online, found_in, take_online, select, still_online, sort_nodes, insert_node,
  choose_namenodes,
}

abbrev pub IsOnline : Node → Type 0
IsOnline n = is_online n ≡ true

pub All-of_get :
    (P : Node → Type 0) (nodes : List Node)
    → ((i : ℕ) (d : Node) → get_elem? nodes i ≡ some d → P d)
    → All P nodes
All-of_get P [] f = tt
All-of_get P (n ∷ nodes) f = (f 0 n refl, All-of_get P nodes (λ i. f (suc i)))

pub All-left : (P : Node → Type 0) (xs ys : List Node) → All P (xs ++ ys) → All P xs
All-left P [] ys h = tt
All-left P (x ∷ xs) ys h = (h.0, All-left P xs ys h.1)

All-take : (P : Node → Type 0) (n : ℕ) (nodes : List Node) → All P nodes → All P (take n nodes)
All-take P zero nodes h = tt
All-take P (suc n) [] h = tt
All-take P (suc n) (x ∷ nodes) h = (h.0, All-take P n nodes h.1)

All-drop : (P : Node → Type 0) (n : ℕ) (nodes : List Node) → All P nodes → All P (drop n nodes)
All-drop P zero nodes h = h
All-drop P (suc n) [] h = tt
All-drop P (suc n) (x ∷ nodes) h = All-drop P n nodes h.1

keep_if-All :
    (P : Node → Type 0) (p : Node → Bool) (nodes : List Node)
    → All (λ d. p d ≡ true → P d) nodes
    → All P (keep_if p nodes)
keep_if-All P p [] h = tt
keep_if-All P p (n ∷ nodes) h =
    let rest = keep_if-All P p nodes h.1 in
    elim (Bool-cases (p n)) [
      | inl e ↦ subst (All P) (sym (keep_if-eq-cons p n nodes e)) (h.0 e, rest)
      | inr e ↦ subst (All P) (sym (keep_if-eq-rest p n nodes e)) rest
    ]

insert_node-All :
    (P : Node → Type 0) (n : Node) (nodes : List Node)
    → P n
    → All P nodes
    → All P (insert_node n nodes)
unfolding insert_node
insert_node-All P n [] h k = (h, tt)
insert_node-All P n (x ∷ nodes) h k = elim (Bool-cases (node_lt x n)) [
  | inl e ↦ rw e (k.0, insert_node-All P n nodes h k.1)
  | inr e ↦ rw e (h, k)
]

sort_nodes-All : (P : Node → Type 0) (nodes : List Node) → All P nodes → All P (sort_nodes nodes)
unfolding sort_nodes
sort_nodes-All P [] h = tt
sort_nodes-All P (n ∷ nodes) h =
    insert_node-All P n (sort_nodes nodes) h.0 (sort_nodes-All P nodes h.1)

-- A node that is online, with what holds of its address.
abbrev pub Holds : (Text → Type 0) → Node → Type 0
Holds Q n = IsOnline n × Q n.ip

-- What holds of the addresses of the nodes that answer holds of those that a probe finds online.
node_discovery-Holds :
    (Q : Text → Type 0) (answers : Node → Bool) (nodes : List Node)
    → All (λ d. answers d ≡ true → Q d.ip) nodes
    → All (λ n. IsOnline n → Holds Q n) (node_discovery answers nodes)
unfolding node_discovery is_online
node_discovery-Holds Q answers [] h = tt
node_discovery-Holds Q answers (n ∷ nodes) h = (
  λ on. elim (Bool-cases (answers n)) [ inl e ↦ (on, h.0 e) | inr e ↦ absurd (cc (rw e at on)) ],
  node_discovery-Holds Q answers nodes h.1,
)

module _ (expected : ℕ) (port : ℤ) where
  take_online-Holds :
      (Q : Text → Type 0) (sub nodes : List Node)
      → All (λ n. IsOnline n → Holds Q n) sub
      → All (Holds Q) nodes
      → All (Holds Q) (take_online expected port sub nodes)
  unfolding take_online is_online
  take_online-Holds Q [] nodes f h = h
  take_online-Holds Q (n ∷ sub) nodes f h = elim (Bool-cases (is_online n)) [
    | inr off ↦ rw off (take_online-Holds Q sub nodes f.1 h)
    | inl on ↦
        let moved : Node = record n { port = port } in
        let h' : All (Holds Q) (nodes ++ moved ∷ []) =
          All-append (Holds Q) nodes (moved ∷ []) h ((on, (f.0 on).1), tt) in
        elim (Bool-cases (leb expected (length (nodes ++ moved ∷ [])))) [
          | inl full ↦ rw (on, full) h'
          | inr space ↦ rw (on, space) (take_online-Holds Q sub (nodes ++ moved ∷ []) f.1 h')
        ]
  ]

  module _ (answers : Node → Bool) where
    select-Holds :
        (Q : Text → Type 0) (fuel : ℕ) (all nodes : List Node)
        → All (λ d. answers d ≡ true → Q d.ip) all
        → All (Holds Q) nodes
        → All (Holds Q) (select fuel answers expected port all nodes)
    unfolding select
    select-Holds Q zero all nodes f h = h
    select-Holds Q (suc fuel) [] nodes f h = h
    select-Holds Q (suc fuel) (n ∷ all) nodes f h =
        elim (Bool-cases (ltb (length nodes) expected)) [
          | inr full ↦ rw full h
          | inl space ↦
              let probed = node_discovery answers (take expected (n ∷ all)) in
              rw space (
                select-Holds Q fuel (drop expected (n ∷ all)) _
                  (All-drop (λ d. answers d ≡ true → Q d.ip) expected (n ∷ all) f)
                  (take_online-Holds Q probed nodes
                    (node_discovery-Holds Q answers (take expected (n ∷ all))
                      (All-take (λ d. answers d ≡ true → Q d.ip) expected (n ∷ all) f))
                    h))
        ]

-- Every node that is chosen answers, and is one of the nodes that were known.
pub choose_namenodes-Holds :
    (Q : Text → Type 0) (answers : Node → Bool) (expected : ℕ) (port : ℤ) (self : RaftDn)
    → All (λ d. answers d ≡ true → Q d.ip) self.namenode_list
    → All (λ d. answers d ≡ true → Q d.ip) self.datanode_list
    → All (Holds Q) (choose_namenodes answers expected port self)
unfolding choose_namenodes still_online
choose_namenodes-Holds Q answers expected port self h k =
    let nodes = still_online answers self.namenode_list in
    let all = keep_if (λ node. not (found_in nodes node)) self.datanode_list in
    let R = λ (d : Node). answers d ≡ true → Q d.ip in
    select-Holds expected port answers Q (length all) all nodes
      (keep_if-All R (λ node. not (found_in nodes node)) self.datanode_list
        (weaken (λ node. not (found_in nodes node)) R self.datanode_list k))
      (keep_if-All (Holds Q) is_online (node_discovery answers (sort_nodes self.namenode_list)) (
        node_discovery-Holds Q answers (sort_nodes self.namenode_list)
          (sort_nodes-All R self.namenode_list h)))
  where
    weaken :
        (p : Node → Bool) (P : Node → Type 0) (nodes : List Node)
        → All P nodes
        → All (λ d. p d ≡ true → P d) nodes
    weaken p P [] h = tt
    weaken p P (n ∷ nodes) h = ((λ _. h.0), weaken p P nodes h.1)
