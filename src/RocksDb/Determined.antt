-- ===== src/RocksDb/Determined.antt =====
-- On a store whose disk answers, the inodes that a database holds decide what each operation does:
-- whether it returns, throws or ends the process, and the inodes that it leaves.
use spkdfs.Prelude.{◌≡◌, refl, ap, ◌∙◌, Option, none, some, [], ◌∷◌, ◌≢◌, arith}
use spkdfs.Exn.{Text, Result, ok, ◌>>=◌, map_result, map_result->>=, >>=-agree, or_end}
use spkdfs.Text.{codes}
use spkdfs.FsPath.{simplify_path}
use spkdfs.Json.{JsonLib, IsJson}
use spkdfs.KvStore.{KvStore, IsKvStore, IsReliable, Lookup, found, not_found, get_failed}
use spkdfs.Inode.{Inode, inode_value, parse_inode, parent_path, new_inode}
use spkdfs.Inode.RoundTrip.{IsStorable}
use spkdfs.RocksDb.{
  RocksDb, ready, or_not_ready, get_parent_inode, parent_of_lookup, get_inode, inode_of_lookup,
  write_two, or_write_failed, internal_put,
}
use spkdfs.RocksDb.Contents.{IsConsistent, inode_at, inode_of, inode_at-write, inode_at-put}
use spkdfs.RocksDb.Consistency.{ready_opened}
use spkdfs.RocksDb.Tree.{Tree, parent_in, insert, entry_or_new, root_if_slash}

module _ (S : KvStore) (J : JsonLib) where
  abbrev pub tree_at : Option S.State → Tree
  tree_at none = λ key. none
  tree_at (some s) = inode_at S J s

  -- The inodes that a database holds. One that is not open holds none.
  abbrev pub tree_of : RocksDb S → Tree
  tree_of db = tree_at db.db_ptr

module _ (J : JsonLib) where
  -- What a batch of two inodes does to a tree.
  unfoldable pub tree_write : Inode → Inode → Tree → Result Tree
  tree_write a b tree = do
    first_value ← inode_value J a
    second_value ← inode_value J b
    ok (insert b (insert a tree))

module _ (S : KvStore) (J : JsonLib) (kv : IsKvStore S) (law : IsJson J) (disk : IsReliable S) where
  -- The parent that an operation finds is the one that the tree holds.
  pub get_parent_inode-or_end :
      (s : S.State) (inode : Inode)
      → IsConsistent J S s
      → get_parent_inode S J s inode ≡ or_end (parent_in (inode_at S J s) inode)
  unfolding get_parent_inode parent_in inode_at
  get_parent_inode-or_end s inode c =
      go (parent_path inode) (S.get s (parent_path inode)) (c (parent_path inode))
        (disk.get_answers s (parent_path inode))
    where
      go :
          (path : Text) (l : Lookup)
          → ((value : Text)
              → l ≡ found value
              → (i : Inode) × (parse_inode J value ≡ ok i) × (i.fullpath ≡ path))
          → ((status : Text) → l ≢ get_failed status)
          → parent_of_lookup S J path l ≡ or_end (root_if_slash path (inode_of J l))
      go path (found value) h a =
          let (i, p, k) = h value refl in unfold parent_of_lookup inode_of in rw p
      go path (get_failed status) h a = absurd (a status refl)
      go path not_found h a = unfold parent_of_lookup inode_of in (ground arith)

  -- What is read at a simplified path is what the tree holds there.
  pub get_inode-entry_or_new :
      (db : RocksDb S) (s : S.State) (path : Text)
      → db.db_ptr ≡ some s
      → simplify_path path ≡ path
      → IsConsistent J S s
      → get_inode S J db (new_inode path) ≡ ok (entry_or_new path (inode_at S J s path))
  unfolding get_inode ready or_not_ready new_inode inode_at
  get_inode-entry_or_new db s path opened simple c =
      rw (opened, simple) (go (S.get s path) (c path) (disk.get_answers s path))
    where
      go :
          (l : Lookup)
          → ((value : Text)
              → l ≡ found value
              → (i : Inode) × (parse_inode J value ≡ ok i) × (i.fullpath ≡ path))
          → ((status : Text) → l ≢ get_failed status)
          → inode_of_lookup S J (record (new_inode path) { fullpath = path }) l
            ≡ ok (entry_or_new path (inode_of J l))
      go (found value) h a = let (i, p, k) = h value refl in unfold inode_of_lookup inode_of in rw p
      go (get_failed status) h a = absurd (a status refl)
      go not_found h a = unfold inode_of_lookup inode_of new_inode in rw simple (ground arith)

  -- Two inodes that can be stored are written as the tree takes them.
  pub write_two-tree :
      (db : RocksDb S) (s : S.State) (a b : Inode)
      → IsStorable a
      → IsStorable b
      → map_result (tree_of S J) (write_two S J db s a b) ≡ tree_write J a b (inode_at S J s)
  unfolding write_two tree_write
  write_two-tree db s a b ha hb =
      map_result->>= (tree_of S J) (inode_value J a) _
      ∙ >>=-agree (inode_value J a) (λ va ea.
        map_result->>= (tree_of S J) (inode_value J b) _
        ∙ >>=-agree (inode_value J b) (λ vb eb. written_two va vb ea eb))
    where
      written_two :
          (va vb : Text)
          → inode_value J a ≡ ok va
          → inode_value J b ≡ ok vb
          → map_result (tree_of S J) (
              or_write_failed S J db
                (codes "batch write not ok")
                (S.write s ((a.fullpath, va) ∷ (b.fullpath, vb) ∷ [])))
            ≡ ok (insert b (insert a (inode_at S J s)))
      written_two va vb ea eb =
          let (t, w) = disk.write_writes s ((a.fullpath, va) ∷ (b.fullpath, vb) ∷ []) in
          unfold or_write_failed in
          rw w (ap ok (λ k key. inode_at-write S J kv law s t a b va vb key ha hb ea eb w k))

  pub internal_put-tree :
      (db : RocksDb S) (s : S.State) (a : Inode)
      → db.db_ptr ≡ some s
      → IsStorable a
      → map_result (tree_of S J) (internal_put S J db a)
        ≡ (inode_value J a >>= λ value. ok (insert a (inode_at S J s)))
  unfolding internal_put
  internal_put-tree db s a opened ha =
      rw (ready_opened S J db opened)
        (map_result->>= (tree_of S J) (inode_value J a) _ ∙ >>=-agree (inode_value J a) put)
    where
      put :
          (value : Text)
          → inode_value J a ≡ ok value
          → map_result
              (tree_of S J)
              (or_write_failed S J db (codes "internal put not ok") (S.put s a.fullpath value))
            ≡ ok (insert a (inode_at S J s))
      put value e =
          let (t, w) = disk.put_writes s a.fullpath value in
          unfold or_write_failed in
          rw w (ap ok (λ k key. inode_at-put S J kv law s t a value key ha e w k))
