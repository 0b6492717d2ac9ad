-- ===== src/RocksDb/Refinement.antt =====
-- Each `internal_*` operation that succeeds does to the store's inodes what the abstract operation
-- does to a tree, and leaves the store consistent.
use spkdfs.Prelude.{◌≡◌, refl, some, List, [], ◌∷◌, arith}
use spkdfs.Exn.{Text, ok, ◌>>=◌, >>=-eq-ok, ok_injective}
use spkdfs.Json.{JsonLib, IsJson}
use spkdfs.KvStore.{KvStore, IsKvStore, Written, written, write_failed}
use spkdfs.Inode.{Inode, inode_value, filename, unlock, new_inode}
use spkdfs.Inode.RoundTrip.{IsStorable}
use spkdfs.RocksDb.{
  RocksDb, get_parent_inode, get_inode, write_two, or_write_failed, internal_mkdir, internal_rm,
  internal_put, internal_put_ok, add_name, remove_name,
}
use spkdfs.RocksDb.Contents.{
  IsConsistent, IsOpen, inode_at, inode_at-write, inode_at-put, write-IsConsistent,
  put-IsConsistent,
}
use spkdfs.RocksDb.Tree.{
  Tree, parent_in, insert, with_sub, link, settled, tree_mkdir, tree_rm, tree_put, tree_put_ok,
}
use spkdfs.RocksDb.Consistency.{ready_opened, get_parent_inode-eq-ok, get_inode-eq-ok}

-- The names in a directory are not bounded.
pub with_sub-IsStorable :
    (f : List Text → List Text) (i : Inode) → IsStorable i → IsStorable (with_sub f i)
with_sub-IsStorable f i h = record {
  simple = h.simple;
  size_fits = h.size_fits;
  lock_fits = h.lock_fits;
  storage_fits = h.storage_fits;
}

-- `put_ok` keeps the stored inode but for its blocks, its size and its lock.
pub finished-IsStorable :
    (inode old : Inode)
    → IsStorable inode
    → IsStorable old
    → IsStorable (record (unlock old) { sub = inode.sub; filesize = inode.filesize })
unfolding unlock
finished-IsStorable inode old h q = record {
  simple = q.simple;
  size_fits = h.size_fits;
  lock_fits = omega arith;
  storage_fits = q.storage_fits;
}

module _ (S : KvStore) (J : JsonLib) where
  -- The step from `db` to `db'` makes `change` to the inodes at all paths, keeps the store
  -- consistent and leaves the backups alone.
  pub record Refines (db db' : RocksDb S) (s : S.State) (change : Tree → Tree) : Type 0 where
    pub after : S.State
    pub stored : db'.db_ptr ≡ some after
    pub contents : (key : Text) → inode_at S J after key ≡ change (inode_at S J s) key
    pub consistent : IsConsistent J S after
    pub backups_kept : db'.backups ≡ db.backups

  abbrev pub Refines-IsOpen :
      {db db' : RocksDb S} {s : S.State} {change : Tree → Tree}
      → Refines db db' s change
      → IsOpen S J db'
  Refines-IsOpen r = record { state = r.after; opened = r.stored; consistent = r.consistent }

module _ (S : KvStore) (J : JsonLib) (kv : IsKvStore S) (law : IsJson J) where
  write_two-Refines :
      (db : RocksDb S) {db' : RocksDb S} (s : S.State) (a b : Inode)
      → IsConsistent J S s
      → IsStorable a
      → IsStorable b
      → write_two S J db s a b ≡ ok db'
      → Refines S J db db' s (λ tree. insert b (insert a tree))
  unfolding write_two
  write_two-Refines db {db'} s a b c ha hb e =
      let (va, ea, e1) = >>=-eq-ok (inode_value J a) _ e in
      let (vb, eb, e2) = >>=-eq-ok (inode_value J b) _ e1 in
      go _ va vb ea eb (S.write s ((a.fullpath, va) ∷ (b.fullpath, vb) ∷ [])) refl e2
    where
      go :
          (what va vb : Text)
          → inode_value J a ≡ ok va
          → inode_value J b ≡ ok vb
          → (w : Written S.State) → S.write s ((a.fullpath, va) ∷ (b.fullpath, vb) ∷ []) ≡ w
          → or_write_failed S J db what w ≡ ok db'
          → Refines S J db db' s (λ tree. insert b (insert a tree))
      go what va vb ea eb (write_failed status) w h = unfold or_write_failed in absurd (cc)
      go what va vb ea eb (written t) w h =
          unfold or_write_failed in
          rw (← ok_injective h) (record {
            after = t;
            stored = refl;
            contents = λ key. inode_at-write S J kv law s t a b va vb key ha hb ea eb w;
            consistent = write-IsConsistent S J kv law s t a b va vb ha hb ea eb w c;
            backups_kept = refl;
          })

  module _ (db : RocksDb S) (s : S.State) (opened : db.db_ptr ≡ some s)
      (c : IsConsistent J S s) where
    linked :
        (f : List Text → List Text) (inode child : Inode) {db' : RocksDb S}
        → IsStorable child
        → (get_parent_inode S J s inode >>= λ parent. write_two S J db s (with_sub f parent) child)
          ≡ ok db'
        → Refines S J db db' s (λ tree. link f (parent_in tree inode) child tree)
    linked f inode child {db'} h e =
        let (p, ep, ew) = >>=-eq-ok (get_parent_inode S J s inode) _ e in
        let (r, there) = get_parent_inode-eq-ok S J law s c inode ep in
        let R =
          write_two-Refines db {db' = db'} s (with_sub f p) child c
            (with_sub-IsStorable f p r.storable) h ew in
        record {
          after = R.after;
          stored = R.stored;
          contents = λ key. rw there (R.contents key);
          consistent = R.consistent;
          backups_kept = R.backups_kept;
        }

    pub internal_mkdir-Refines :
        (inode : Inode) {db' : RocksDb S}
        → IsStorable inode
        → internal_mkdir S J db inode ≡ ok db'
        → Refines S J db db' s (tree_mkdir inode)
    unfolding internal_mkdir tree_mkdir
    internal_mkdir-Refines inode h e =
        let (logged, el, e1) =
          >>=-eq-ok (inode_value J inode) _ (rw (ready_opened S J db opened) at e) in
        linked (add_name (filename inode)) inode inode h e1

    pub internal_rm-Refines :
        (inode : Inode) {db' : RocksDb S}
        → IsStorable inode
        → internal_rm S J db inode ≡ ok db'
        → Refines S J db db' s (tree_rm inode)
    unfolding internal_rm tree_rm
    internal_rm-Refines inode h e =
        linked (remove_name (filename inode)) inode inode h (rw (ready_opened S J db opened) at e)

    pub internal_put-Refines :
        (inode : Inode) {db' : RocksDb S}
        → IsStorable inode
        → internal_put S J db inode ≡ ok db'
        → Refines S J db db' s (tree_put inode)
    unfolding internal_put tree_put
    internal_put-Refines inode {db'} h e =
        let (va, ea, e1) =
          >>=-eq-ok (inode_value J inode) _ (rw (ready_opened S J db opened) at e) in
        go _ va ea (S.put s inode.fullpath va) refl e1
      where
        go :
            (what va : Text)
            → inode_value J inode ≡ ok va
            → (w : Written S.State) → S.put s inode.fullpath va ≡ w
            → or_write_failed S J db what w ≡ ok db'
            → Refines S J db db' s (insert inode)
        go what va ea (write_failed status) w k = unfold or_write_failed in absurd (cc)
        go what va ea (written t) w k =
            unfold or_write_failed in
            rw (← ok_injective k) (record {
              after = t;
              stored = refl;
              contents = λ key. inode_at-put S J kv law s t inode va key h ea w;
              consistent = put-IsConsistent S J kv law s t inode va h ea w c;
              backups_kept = refl;
            })

    pub internal_put_ok-Refines :
        (inode : Inode) {db' : RocksDb S}
        → IsStorable inode
        → internal_put_ok S J db inode ≡ ok db'
        → Refines S J db db' s (tree_put_ok inode)
    unfolding internal_put_ok tree_put_ok
    internal_put_ok-Refines inode {db'} h e =
        let (p, ep, e1) =
          >>=-eq-ok (get_parent_inode S J s inode) _ (rw (ready_opened S J db opened) at e) in
        let (old, eo, e2) = >>=-eq-ok (get_inode S J db (new_inode inode.fullpath)) _ e1 in
        let (logged, el, e3) = >>=-eq-ok (inode_value J inode) _ e2 in
        let (r, there) = get_parent_inode-eq-ok S J law s c inode ep in
        let (q, was) = get_inode-eq-ok S J law s c db inode.fullpath opened h.simple eo in
        let R =
          write_two-Refines db {db' = db'} s (with_sub (add_name (filename inode)) p)
            (record (unlock old) { sub = inode.sub; filesize = inode.filesize }) c
            (with_sub-IsStorable (add_name (filename inode)) p r.storable)
            (finished-IsStorable inode old h q.storable) e3 in
        record {
          after = R.after;
          stored = R.stored;
          contents = λ key. unfold settled in rw (there, was) (R.contents key);
          consistent = R.consistent;
          backups_kept = R.backups_kept;
        }
