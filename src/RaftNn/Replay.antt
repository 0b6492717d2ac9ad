-- ===== src/RaftNn/Replay.antt =====
-- What a log does to a tree of inodes, and that it does so to every database: the database's
-- representation decides nothing.
use spkdfs.Prelude.{
  ◌≡◌, refl, sym, ap, subst, ◌∙◌, Option, none, some, some_injective, List, [], ◌∷◌, ◌++◌,
}
use spkdfs.Exn.{
  Text, Result, ok, throw, abort, ◌>>=◌, map_result, map_result->>=, >>=-agree, or_end,
}
use spkdfs.Json.{JsonLib, IsJson}
use spkdfs.KvStore.{KvStore, IsKvStore, IsReliable}
use spkdfs.Inode.{Inode, inode_value, parse_inode, filename}
use spkdfs.Inode.RoundTrip.{IsStorable, parse_inode-IsStorable}
use spkdfs.RocksDb.{
  RocksDb, get_parent_inode, write_two, internal_mkdir, internal_rm, internal_put_ok, add_name,
  remove_name,
}
use spkdfs.RocksDb.Contents.{IsOpen, inode_at}
use spkdfs.RocksDb.Consistency.{ready_opened, get_parent_inode-eq-ok, get_inode-eq-ok}
use spkdfs.RocksDb.Tree.{Tree, parent_in, insert, with_sub, settled}
use spkdfs.RocksDb.Refinement.{with_sub-IsStorable, finished-IsStorable}
use spkdfs.RocksDb.Determined.{
  tree_at, tree_of, tree_write, get_parent_inode-or_end, get_inode-entry_or_new, write_two-tree,
  internal_put-tree,
}
use spkdfs.Reply.{Response, succ_response, fail_response}
use spkdfs.RaftNn.{
  OpType, op_mkdir, op_put, op_putok, op_rm, op_unknown, op_of_byte, perform, apply_entry, settle,
  after_entry, on_apply,
}
use spkdfs.RaftNn.Keeps.{settle-IsOpen, apply_entry-IsOpen}

module _ (J : JsonLib) where
  -- A change to the names of the parent and an inode, written together.
  abbrev pub tree_link : (List Text → List Text) → Inode → Inode → Tree → Result Tree
  tree_link f inode child tree = do
    parent ← or_end (parent_in tree inode)
    tree_write J (with_sub f parent) child tree

  -- What an operation does to a tree: it leaves a tree, throws, or ends the process.
  unfoldable pub tree_perform : OpType → Inode → Tree → Result Tree
  tree_perform op_mkdir inode tree = do
    logged ← inode_value J inode
    tree_link (add_name (filename inode)) inode inode tree
  tree_perform op_put inode tree = do value ← inode_value J inode; ok (insert inode tree)
  tree_perform op_putok inode tree = do
    parent ← or_end (parent_in tree inode)
    logged ← inode_value J inode
    tree_write J (with_sub (add_name (filename inode)) parent) (settled tree inode) tree
  tree_perform op_rm inode tree = tree_link (remove_name (filename inode)) inode inode tree
  tree_perform op_unknown inode tree = ok tree

  unfoldable pub tree_apply : Text → Tree → Result Tree
  tree_apply [] tree = do inode ← parse_inode J []; tree_perform op_unknown inode tree
  tree_apply (b ∷ str_inode) tree = do
    inode ← parse_inode J str_inode
    tree_perform (op_of_byte b) inode tree

  -- An operation that throws leaves the tree and answers with the exception.
  unfoldable pub tree_settle : Tree → Result Tree → Option (Tree × Response)
  tree_settle tree (ok tree') = some (tree', succ_response)
  tree_settle tree (throw e) = some (tree, fail_response e)
  tree_settle tree abort = none

  after_tree :
      Option (Tree × Response)
      → (Tree → Option (Tree × List Response))
      → Option (Tree × List Response)
  after_tree none rest = none
  after_tree (some (tree, response)) rest = elim (rest tree) [
    | none ↦ none
    | some (tree', responses) ↦ some (tree', response ∷ responses)
  ]

  -- The tree after a log and the responses to its entries; none if an assertion ended the process.
  unfoldable pub tree_log : List Text → Tree → Option (Tree × List Response)
  unfolding after_tree
  tree_log [] tree = some (tree, [])
  tree_log (bytes ∷ log) tree = after_tree (tree_settle tree (tree_apply bytes tree)) (tree_log log)

module _ (J : JsonLib) where
  after_tree-eq-some :
      (w : Option (Tree × Response)) (rest : Tree → Option (Tree × List Response))
      {out : Tree × List Response}
      → after_tree J w rest ≡ some out
      → (x : Tree × Response) × (out' : Tree × List Response) × (w ≡ some x)
        × (rest x.0 ≡ some out')
        × ((out'.0, x.1 ∷ out'.1) ≡ out)
  unfolding after_tree
  after_tree-eq-some none rest e = absurd (cc)
  after_tree-eq-some (some (tree, response)) rest {out} e = go (rest tree) refl e
    where
      go :
          (r : Option (Tree × List Response))
          → rest tree ≡ r
          → after_tree J (some (tree, response)) (λ _. r) ≡ some out
          → (x : Tree × Response) × (out' : Tree × List Response) × (some (tree, response) ≡ some x)
            × (rest x.0 ≡ some out')
            × ((out'.0, x.1 ∷ out'.1) ≡ out)
      go none p e = absurd (cc)
      go (some out') p e = ((tree, response), out', refl, p, some_injective e)

  -- A log that follows another goes on from its tree.
  pub tree_log-append :
      (xs ys : List Text) (tree : Tree) {mid out : Tree × List Response}
      → tree_log J xs tree ≡ some mid
      → tree_log J ys mid.0 ≡ some out
      → tree_log J (xs ++ ys) tree ≡ some (out.0, mid.1 ++ out.1)
  unfolding tree_log
  tree_log-append [] ys tree {mid} {out} e f =
      subst
        (λ (m : Tree × List Response).
          tree_log J ys m.0 ≡ some out → tree_log J ys tree ≡ some (out.0, m.1 ++ out.1))
        (some_injective e) (λ f. f) f
  tree_log-append (bytes ∷ xs) ys tree {mid} {out} e f =
      let (x, mid', p, q, r) =
        after_tree-eq-some (tree_settle J tree (tree_apply J bytes tree)) (tree_log J xs) e in
      let joined : tree_log J ys mid'.0 ≡ some out
          → after_tree J (some x) (tree_log J (xs ++ ys)) ≡ some (out.0, x.1 ∷ (mid'.1 ++ out.1)) =
        λ g.
          unfold after_tree in
          ap (λ (o : Option (Tree × List Response)). after_tree J (some x) (λ _. o))
            (tree_log-append xs ys x.0 q g) in
      subst
        (λ (m : Tree × List Response).
          tree_log J ys m.0 ≡ some out
          → after_tree J (tree_settle J tree (tree_apply J bytes tree)) (tree_log J (xs ++ ys))
            ≡ some (out.0, m.1 ++ out.1))
        r
        (λ g.
          ap (λ (w : Option (Tree × Response)). after_tree J w (tree_log J (xs ++ ys))) p
          ∙ joined g)
        f

module _ (S : KvStore) (J : JsonLib) where
  -- A database seen as the inodes that it holds.
  abbrev pub seen : {A : Type 0} → Option (RocksDb S × A) → Option (Tree × A)
  seen none = none
  seen (some (db, a)) = some (tree_of S J db, a)

module _ (S : KvStore) (J : JsonLib) (kv : IsKvStore S) (law : IsJson J) (disk : IsReliable S) where
  after_parent :
      (db : RocksDb S) (o : IsOpen S J db) (inode : Inode)
      → (rest : Inode → Result (RocksDb S)) (rest' : Inode → Result Tree)
      → ((parent : Inode)
          → IsStorable parent
          → map_result (tree_of S J) (rest parent) ≡ rest' parent)
      → map_result (tree_of S J) (get_parent_inode S J o.state inode >>= rest)
        ≡ (or_end (parent_in (inode_at S J o.state) inode) >>= rest')
  after_parent db o inode rest rest' agree =
      map_result->>= (tree_of S J) (get_parent_inode S J o.state inode) rest
      ∙ >>=-agree (get_parent_inode S J o.state inode) (λ parent e.
        agree parent (get_parent_inode-eq-ok S J law o.state o.consistent inode e).0.storable)
      ∙ ap (λ (r : Result Inode). r >>= rest')
          (get_parent_inode-or_end S J kv law disk o.state inode o.consistent)

  linked_tree :
      (db : RocksDb S) (o : IsOpen S J db) (f : List Text → List Text) (inode child : Inode)
      → IsStorable child
      → map_result (tree_of S J) (
          get_parent_inode S J o.state inode >>= λ parent.
          write_two S J db o.state (with_sub f parent) child)
        ≡ tree_link J f inode child (inode_at S J o.state)
  linked_tree db o f inode child h = after_parent db o inode _ _ (λ parent p.
      write_two-tree S J kv law disk db o.state (with_sub f parent) child
        (with_sub-IsStorable f parent p) h)

  put_ok_tree :
      (db : RocksDb S) (o : IsOpen S J db) (inode : Inode)
      → IsStorable inode
      → map_result (tree_of S J) (internal_put_ok S J db inode)
        ≡ tree_perform J op_putok inode (inode_at S J o.state)
  unfolding internal_put_ok tree_perform settled
  put_ok_tree db o inode h = rw (ready_opened S J db o.opened) (
      after_parent db o inode _ _ (λ parent p.
        let found =
          get_inode-entry_or_new S J kv law disk db o.state inode.fullpath o.opened h.simple
            o.consistent in
        let read =
          get_inode-eq-ok S J law o.state o.consistent db inode.fullpath o.opened h.simple found in
        rw found (
          map_result->>= (tree_of S J) (inode_value J inode) _
          ∙ >>=-agree (inode_value J inode) (λ logged e.
            write_two-tree S J kv law disk db o.state _ _
              (with_sub-IsStorable (add_name (filename inode)) parent p)
              (finished-IsStorable inode _ h read.0.storable)))))

  -- What each operation does to the inodes of a database that is open on a consistent store is what
  -- it does to the tree of these inodes.
  pub perform-tree :
      (op : OpType) (db : RocksDb S) (inode : Inode) (o : IsOpen S J db)
      → IsStorable inode
      → map_result (tree_of S J) (perform S J op db inode)
        ≡ tree_perform J op inode (inode_at S J o.state)
  unfolding perform tree_perform internal_mkdir internal_rm
  perform-tree op_mkdir db inode o h = rw (ready_opened S J db o.opened) (
      map_result->>= (tree_of S J) (inode_value J inode) _
      ∙ >>=-agree (inode_value J inode)
          (λ logged e. linked_tree db o (add_name (filename inode)) inode inode h))
  perform-tree op_put db inode o h = internal_put-tree S J kv law disk db o.state inode o.opened h
  perform-tree op_putok db inode o h = put_ok_tree db o inode h
  perform-tree op_rm db inode o h =
      rw (ready_opened S J db o.opened)
        (linked_tree db o (remove_name (filename inode)) inode inode h)
  perform-tree op_unknown db inode o h = rw o.opened

  perform-tree_of :
      (op : OpType) (db : RocksDb S) (inode : Inode)
      → IsOpen S J db
      → IsStorable inode
      → map_result (tree_of S J) (perform S J op db inode)
        ≡ tree_perform J op inode (tree_of S J db)
  perform-tree_of op db inode o h =
      perform-tree op db inode o h
      ∙ ap (λ state. tree_perform J op inode (tree_at S J state)) (sym o.opened)

  pub apply_entry-tree :
      (db : RocksDb S) (bytes : Text)
      → IsOpen S J db
      → map_result (tree_of S J) (apply_entry S J db bytes) ≡ tree_apply J bytes (tree_of S J db)
  unfolding apply_entry tree_apply
  apply_entry-tree db [] o =
      map_result->>= (tree_of S J) (parse_inode J []) _
      ∙ >>=-agree (parse_inode J [])
          (λ inode e. perform-tree_of op_unknown db inode o (parse_inode-IsStorable J law [] e))
  apply_entry-tree db (b ∷ str) o =
      map_result->>= (tree_of S J) (parse_inode J str) _
      ∙ >>=-agree (parse_inode J str) (λ inode e.
        perform-tree_of (op_of_byte b) db inode o (parse_inode-IsStorable J law str e))

  settle-seen :
      (db : RocksDb S) (r : Result (RocksDb S))
      → seen S J (settle S J db r) ≡ tree_settle J (tree_of S J db) (map_result (tree_of S J) r)
  unfolding settle tree_settle
  settle-seen db (ok db') = refl
  settle-seen db (throw e) = refl
  settle-seen db abort = refl

  after_entry-seen :
      (db : RocksDb S) (response : Response) (rest : RocksDb S → Option (RocksDb S × List Response))
      (rest' : Tree → Option (Tree × List Response))
      → seen S J (rest db) ≡ rest' (tree_of S J db)
      → seen S J (after_entry S J (some (db, response)) rest)
        ≡ after_tree J (some (tree_of S J db, response)) rest'
  unfolding after_entry after_tree
  after_entry-seen db response rest rest' same =
      go (rest db)
      ∙ ap
          (λ (x : Option (Tree × List Response)).
            after_tree J (some (tree_of S J db, response)) (λ _. x))
          same
    where
      go :
          (r : Option (RocksDb S × List Response))
          → seen S J (after_entry S J (some (db, response)) (λ _. r))
            ≡ after_tree J (some (tree_of S J db, response)) (λ _. seen S J r)
      go none = refl
      go (some out) = refl

  -- On a store whose disk answers, two things are decided by the log and by the inodes that a
  -- database held, if it is open on a consistent store: whether an assertion ends the process, and
  -- if none does, the inodes that it holds after the log and the responses to the entries.
  pub on_apply-tree :
      (log : List Text) (db : RocksDb S)
      → IsOpen S J db
      → seen S J (on_apply S J log db) ≡ tree_log J log (tree_of S J db)
  unfolding on_apply tree_log
  on_apply-tree [] db o = refl
  on_apply-tree (bytes ∷ log) db o =
      go (settle S J db (apply_entry S J db bytes)) (on_apply-tree log) (λ x.
        settle-IsOpen S J kv law db (apply_entry S J db bytes) {out = x} o
          (λ db'. apply_entry-IsOpen S J kv law db bytes o))
      ∙ ap (λ (w : Option (Tree × Response)). after_tree J w (tree_log J log))
          (settle-seen db (apply_entry S J db bytes)
            ∙ ap (tree_settle J (tree_of S J db)) (apply_entry-tree db bytes o))
    where
      go :
          (w : Option (RocksDb S × Response))
          → ((db' : RocksDb S)
              → IsOpen S J db'
              → seen S J (on_apply S J log db') ≡ tree_log J log (tree_of S J db'))
          → ((x : RocksDb S × Response) → w ≡ some x → IsOpen S J x.0)
          → seen S J (after_entry S J w (on_apply S J log))
            ≡ after_tree J (seen S J w) (tree_log J log)
      go none ih kept = unfold after_entry after_tree in refl
      go (some (db', response)) ih kept =
          after_entry-seen db' response (on_apply S J log) (tree_log J log)
            (ih db' (kept (db', response) refl))
