-- ===== src/RaftDn/Agreement.antt =====
-- From the leader's choice to the servers: what is proposed is what every datanode reads.
use spkdfs.Prelude.{
  ◌≡◌, refl, sym, ap, ◌∙◌, ℕ, Bool, true, false, Option, some, List, [], ◌∷◌, map, All, last?,
}
use spkdfs.Prelude.Int.{ℤ, IsInt}
use spkdfs.Exn.{Text, Result, ok, ◌>>=◌, >>=-eq-ok, ok_injective}
use spkdfs.Text.{same_text}
use spkdfs.Json.{JsonLib, IsJson}
use spkdfs.Node.{Node}
use spkdfs.Node.JsonForm.{as_read, read_nodes, read_nodes-dump_nodes}
use spkdfs.RaftDn.{RaftDn, choose_namenodes, or_none_ready, on_leader_start, or_empty, on_apply}
use spkdfs.Server.{Effect, Services, is_namenode, on_namenodes_change}
use spkdfs.Server.Membership.{is_set, on_namenodes_change-is_set}

-- What the server's constructor binds as the callback.
unfoldable pub server_callback :
    Services → Text → Option (List Node) → List Node → Result (Unit {0})
server_callback services my_ip nn_raft_ptr namenodes = do
  changed ← on_namenodes_change services my_ip namenodes nn_raft_ptr
  ok tt

or_none_ready-eq-ok :
    (nodes : List Node) {out : List Node} → or_none_ready nodes ≡ ok out → out ≡ nodes
unfolding or_none_ready
or_none_ready-eq-ok [] e = absurd (cc)
or_none_ready-eq-ok (n ∷ nodes) e = sym (ok_injective e)

-- The status of a node does not matter for whether a list names a server.
is_namenode-as_read :
    (my_ip : Text) (nodes : List Node)
    → is_namenode my_ip (map as_read nodes) ≡ is_namenode my_ip nodes
unfolding is_namenode
is_namenode-as_read my_ip [] = refl
is_namenode-as_read my_ip (n ∷ nodes) =
    ap (λ (rest : Bool). elim (same_text n.ip my_ip) [ true ↦ true | false ↦ rest ])
      (is_namenode-as_read my_ip nodes)

module _ (J : JsonLib) (law : IsJson J) where
  -- What the leader proposes is read by every datanode as the list that it chose.
  on_apply-on_leader_start :
      (answers : Node → Bool) (expected_nn : ℕ) (nn_port : ℤ) (first self : RaftDn)
      (apply_callback : List Node → Result (Unit {0})) (known : Option Node) (log : List Text)
      {bytes : Text} {self' : RaftDn}
      → All (λ (n : Node). IsInt n.port) (choose_namenodes answers expected_nn nn_port first)
      → on_leader_start J answers expected_nn nn_port first ≡ ok bytes
      → last? log ≡ some bytes
      → on_apply J apply_callback nn_port known log self ≡ ok self'
      → (self'.namenode_list ≡ map as_read (choose_namenodes answers expected_nn nn_port first))
        × (apply_callback self'.namenode_list ≡ ok tt)
  unfolding on_leader_start on_apply or_empty
  on_apply-on_leader_start answers expected_nn nn_port first self cb known log {bytes} h proposed
        last applied =
      let (nodes, n, d) =
        >>=-eq-ok (or_none_ready (choose_namenodes answers expected_nn nn_port first)) _ proposed in
      let chosen = or_none_ready-eq-ok _ n in
      let read : read_nodes J bytes ≡ ok (map as_read nodes) =
        read_nodes-dump_nodes J law nodes (rw chosen h) d in
      let (list, r, e1) = >>=-eq-ok (read_nodes J (or_empty (last? log))) _ applied in
      let (u, c, e2) = >>=-eq-ok (cb list) _ e1 in
      let same : list ≡ map as_read nodes = ok_injective (sym r ∙ rw last read) in
      (rw (← ok_injective e2) (same ∙ ap (map as_read) chosen), rw (← ok_injective e2) c)

  -- If a server applies a batch of entries that ends with what the leader proposed, and its callback
  -- returns, then it holds the list that the leader chose, but for the status of the nodes, which is
  -- unknown again, and it runs a namenode exactly if the leader chose it. The ports fit `int`.
  pub agreement :
      (answers : Node → Bool) (expected_nn : ℕ) (nn_port : ℤ) (first self : RaftDn)
      (services : Services) (nn_raft_ptr : Option (List Node)) (known : Option Node)
      (log : List Text) {bytes : Text} {self' : RaftDn}
      → All (λ (n : Node). IsInt n.port) (choose_namenodes answers expected_nn nn_port first)
      → on_leader_start J answers expected_nn nn_port first ≡ ok bytes
      → last? log ≡ some bytes
      → on_apply J (server_callback services self.my_ip nn_raft_ptr) nn_port known log self
        ≡ ok self'
      → (self'.namenode_list ≡ map as_read (choose_namenodes answers expected_nn nn_port first))
        × (new : Option (Unit {0})) × (effects : List Effect) × (on_namenodes_change services
              self.my_ip self'.namenode_list nn_raft_ptr
            ≡ ok (new, effects))
        × (is_set new ≡ is_namenode self.my_ip (choose_namenodes answers expected_nn nn_port first))
  unfolding server_callback
  agreement answers expected_nn nn_port first self services nn_raft_ptr known log h proposed last
        applied =
      let (same, called) =
        on_apply-on_leader_start answers expected_nn nn_port first self
          (server_callback services self.my_ip nn_raft_ptr) known log h proposed last applied in
      let ((new, effects), changed, _) =
        >>=-eq-ok (on_namenodes_change services self.my_ip _ nn_raft_ptr) _ called in
      (
        same,
        new,
        effects,
        changed,
        on_namenodes_change-is_set services self.my_ip _ nn_raft_ptr new effects changed
            ∙ ap (is_namenode self.my_ip) same
            ∙ is_namenode-as_read self.my_ip _,
      )
