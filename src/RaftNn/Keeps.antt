-- ===== src/RaftNn/Keeps.antt =====
-- What applying a log keeps, whatever its bytes, and what it does with an entry that was proposed.
use spkdfs.Prelude.{
  ◌≡◌, refl, sym, ap, subst, ◌∙◌, Option, none, some, List, [], ◌∷◌, length, suc, some_injective,
}
use spkdfs.Exn.{Text, Result, ok, throw, abort, >>=-eq-ok, ok_injective}
use spkdfs.Json.{JsonLib, IsJson}
use spkdfs.KvStore.{KvStore, IsKvStore}
use spkdfs.Inode.{Inode, inode_value, parse_inode}
use spkdfs.Inode.RoundTrip.{IsStorable, parse_inode-IsStorable, parse_inode-inode_value}
use spkdfs.RocksDb.{RocksDb}
use spkdfs.RocksDb.Contents.{IsOpen}
use spkdfs.RocksDb.Tree.{Tree, tree_mkdir, tree_put, tree_put_ok, tree_rm}
use spkdfs.RocksDb.Refinement.{
  Refines, Refines-IsOpen, internal_mkdir-Refines, internal_put-Refines, internal_put_ok-Refines,
  internal_rm-Refines,
}
use spkdfs.Reply.{Response}
use spkdfs.RaftNn.{
  OpType, op_mkdir, op_put, op_putok, op_rm, op_unknown, op_byte, op_of_byte, entry, perform,
  apply_entry, settle, after_entry, on_apply,
}

-- What an operation does to a tree.
unfoldable pub tree_op : OpType → Inode → Tree → Tree
tree_op op_mkdir inode = tree_mkdir inode
tree_op op_put inode = tree_put inode
tree_op op_putok inode = tree_put_ok inode
tree_op op_rm inode = tree_rm inode
tree_op op_unknown inode = λ tree. tree

pub op_of_byte-op_byte : (op : OpType) → op_of_byte (op_byte op) ≡ op
unfolding op_of_byte op_byte
op_of_byte-op_byte op_mkdir = refl
op_of_byte-op_byte _ = refl

module _ (S : KvStore) (J : JsonLib) (kv : IsKvStore S) (law : IsJson J) where
  -- On a database that is open on a consistent store, an operation that succeeds for an inode whose
  -- path is simplified and whose numbers fit leaves a database that is open on a consistent store,
  -- with the same backups, and at every path it holds the inode that the abstract operation puts
  -- there.
  pub perform-Refines :
      (op : OpType) (db : RocksDb S) (inode : Inode) {db' : RocksDb S} (o : IsOpen S J db)
      → IsStorable inode
      → perform S J op db inode ≡ ok db'
      → Refines S J db db' o.state (tree_op op inode)
  unfolding perform tree_op
  perform-Refines op_mkdir db inode o h e =
      internal_mkdir-Refines S J kv law db o.state o.opened o.consistent inode h e
  perform-Refines op_put db inode o h e =
      internal_put-Refines S J kv law db o.state o.opened o.consistent inode h e
  perform-Refines op_putok db inode o h e =
      internal_put_ok-Refines S J kv law db o.state o.opened o.consistent inode h e
  perform-Refines op_rm db inode o h e =
      internal_rm-Refines S J kv law db o.state o.opened o.consistent inode h e
  perform-Refines op_unknown db inode {db'} o h e = rw (← ok_injective e) (record {
    after = o.state;
    stored = o.opened;
    contents = λ key. refl;
    consistent = o.consistent;
    backups_kept = refl;
  })

  pub apply_entry-IsOpen :
      (db : RocksDb S) (bytes : Text) {db' : RocksDb S}
      → IsOpen S J db
      → apply_entry S J db bytes ≡ ok db'
      → IsOpen S J db'
  unfolding apply_entry
  apply_entry-IsOpen db [] o e =
      let (inode, p, r) = >>=-eq-ok (parse_inode J []) _ e in
      Refines-IsOpen S J
        (perform-Refines op_unknown db inode o (parse_inode-IsStorable J law [] p) r)
  apply_entry-IsOpen db (b ∷ str) o e =
      let (inode, p, r) = >>=-eq-ok (parse_inode J str) _ e in
      Refines-IsOpen S J
        (perform-Refines (op_of_byte b) db inode o (parse_inode-IsStorable J law str p) r)

  pub settle-IsOpen :
      (db : RocksDb S) (r : Result (RocksDb S)) {out : RocksDb S × Response}
      → IsOpen S J db
      → ((db' : RocksDb S) → r ≡ ok db' → IsOpen S J db')
      → settle S J db r ≡ some out
      → IsOpen S J out.0
  unfolding settle
  settle-IsOpen db (ok db') o k e =
      subst (λ (out : RocksDb S × Response). IsOpen S J out.0) (some_injective e) (k db' refl)
  settle-IsOpen db (throw x) o k e =
      subst (λ (out : RocksDb S × Response). IsOpen S J out.0) (some_injective e) o
  settle-IsOpen db abort o k e = absurd (cc)

  after_entry-eq-some :
      (w : Option (RocksDb S × Response)) (rest : RocksDb S → Option (RocksDb S × List Response))
      {out : RocksDb S × List Response}
      → after_entry S J w rest ≡ some out
      → (x : RocksDb S × Response) × (out' : RocksDb S × List Response) × (w ≡ some x)
        × (rest x.0 ≡ some out')
        × ((out'.0, x.1 ∷ out'.1) ≡ out)
  unfolding after_entry
  after_entry-eq-some none rest e = absurd (cc)
  after_entry-eq-some (some (db, response)) rest {out} e = go (rest db) refl e
    where
      go :
          (r : Option (RocksDb S × List Response))
          → rest db ≡ r
          → after_entry S J (some (db, response)) (λ _. r) ≡ some out
          → (x : RocksDb S × Response) × (out' : RocksDb S × List Response) × (some (db, response)
              ≡ some x)
            × (rest x.0 ≡ some out')
            × ((out'.0, x.1 ∷ out'.1) ≡ out)
      go none p e = absurd (cc)
      go (some out') p e = ((db, response), out', refl, p, some_injective e)

  apply_entry-backups :
      (db : RocksDb S) (bytes : Text) {db' : RocksDb S}
      → IsOpen S J db
      → apply_entry S J db bytes ≡ ok db'
      → db'.backups ≡ db.backups
  unfolding apply_entry
  apply_entry-backups db [] o e =
      let (inode, p, r) = >>=-eq-ok (parse_inode J []) _ e in
      (perform-Refines op_unknown db inode o (parse_inode-IsStorable J law [] p) r).backups_kept
  apply_entry-backups db (b ∷ str) o e =
      let (inode, p, r) = >>=-eq-ok (parse_inode J str) _ e in
      let h = parse_inode-IsStorable J law str p in
      (perform-Refines (op_of_byte b) db inode o h r).backups_kept

  settle-backups :
      (db : RocksDb S) (r : Result (RocksDb S)) {out : RocksDb S × Response}
      → ((db' : RocksDb S) → r ≡ ok db' → db'.backups ≡ db.backups)
      → settle S J db r ≡ some out
      → out.0.backups ≡ db.backups
  unfolding settle
  settle-backups db (ok db') k e =
      ap (λ (out : RocksDb S × Response). out.0.backups) (sym (some_injective e)) ∙ k db' refl
  settle-backups db (throw x) k e =
      ap (λ (out : RocksDb S × Response). out.0.backups) (sym (some_injective e))
  settle-backups db abort k e = absurd (cc)

  -- Applying a log leaves the backups.
  pub on_apply-backups :
      (log : List Text) (db : RocksDb S) {out : RocksDb S × List Response}
      → IsOpen S J db
      → on_apply S J log db ≡ some out
      → out.0.backups ≡ db.backups
  unfolding on_apply
  on_apply-backups [] db o e =
      ap (λ (out : RocksDb S × List Response). out.0.backups) (sym (some_injective e))
  on_apply-backups (bytes ∷ log) db o e =
      let (x, out', p, q, r) =
        after_entry-eq-some (settle S J db (apply_entry S J db bytes)) (on_apply S J log) e in
      let o1 =
        settle-IsOpen db (apply_entry S J db bytes) o (λ db'. apply_entry-IsOpen db bytes o) p in
      ap (λ (out : RocksDb S × List Response). out.0.backups) (sym r)
      ∙ on_apply-backups log x.0 o1 q
      ∙ settle-backups db (apply_entry S J db bytes) (λ db'. apply_entry-backups db bytes o) p

  -- Whatever bytes the log holds, a database that is open on a consistent store is so after the log
  -- has been applied, if no assertion fails, and each entry has its response.
  pub on_apply-IsOpen :
      (log : List Text) (db : RocksDb S) {out : RocksDb S × List Response}
      → IsOpen S J db
      → on_apply S J log db ≡ some out
      → IsOpen S J out.0 × (length out.1 ≡ length log)
  unfolding on_apply
  on_apply-IsOpen [] db o e =
      subst (λ (out : RocksDb S × List Response). IsOpen S J out.0 × (length out.1 ≡ 0))
        (some_injective e) (o, refl)
  on_apply-IsOpen (bytes ∷ log) db {out} o e =
      let (x, out', p, q, r) =
        after_entry-eq-some (settle S J db (apply_entry S J db bytes)) (on_apply S J log) e in
      let o1 =
        settle-IsOpen db (apply_entry S J db bytes) o (λ db'. apply_entry-IsOpen db bytes o) p in
      let (o2, n) = on_apply-IsOpen log x.0 o1 q in
      subst
        (λ (out : RocksDb S × List Response). IsOpen S J out.0 × (length out.1 ≡ suc (length log)))
        r (o2, ap suc n)

  -- An entry that was proposed for an inode is applied as its operation on that inode.
  pub apply_entry-entry :
      (op : OpType) (db : RocksDb S) (inode : Inode) {bytes : Text}
      → IsStorable inode
      → entry S J op inode ≡ ok bytes
      → apply_entry S J db bytes ≡ perform S J op db inode
  unfolding entry apply_entry
  apply_entry-entry op db inode {bytes} h e =
      let (value, v, r) = >>=-eq-ok (inode_value J inode) _ e in
      rw (← ok_injective r)
        (rw (parse_inode-inode_value J law inode value h v, op_of_byte-op_byte op))
