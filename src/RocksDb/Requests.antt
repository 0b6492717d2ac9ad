-- ===== src/RocksDb/Requests.antt =====
-- What the reads and the checks of an open database say of the inodes that it holds.
use spkdfs.Prelude.{◌≡◌, refl, sym, ap, ◌∙◌, true, false, not, Bool, some, arith, some_injective}
use spkdfs.Exn.{
  Text, Exception, Result, ok, throw, abort, >>=-eq-ok, ok_injective, throw_if,
  path_not_exists_exception,
}
use spkdfs.Text.{same_text}
use spkdfs.FsPath.{slash, simplify_path}
use spkdfs.Json.{JsonLib}
use spkdfs.KvStore.{KvStore, Lookup, found, not_found, get_failed}
use spkdfs.Inode.{Inode, parse_inode, new_inode, parent_path}
use spkdfs.RocksDb.{
  RocksDb, ready, path_exists, valid_of_lookup, get_inode, ls, try_to_add, try_to_rm, prepare_mkdir,
  prepare_rm, path_error,
}
use spkdfs.RocksDb.Contents.{IsOpen, inode_at, inode_of, to_option}

pub throw_if-eq-ok : (b : Bool) (e : Exception) {u : Unit {0}} → throw_if b e ≡ ok u → b ≡ false
throw_if-eq-ok true e h = cc
throw_if-eq-ok false e h = refl

inode_of-eq-some :
    (J : JsonLib) (l : Lookup) {i : Inode}
    → inode_of J l ≡ some i
    → (value : Text) × (l ≡ found value) × (parse_inode J value ≡ ok i)
unfolding inode_of
inode_of-eq-some J not_found h = absurd (cc)
inode_of-eq-some J (get_failed status) h = absurd (cc)
inode_of-eq-some J (found value) {i} h = (value, refl, go (parse_inode J value) h)
  where
    go : (r : Result Inode) → to_option r ≡ some i → r ≡ ok i
    go (ok x) h = ap ok (some_injective h)
    go (throw e) h = absurd (cc)
    go abort h = absurd (cc)

module _ (S : KvStore) (J : JsonLib) (db : RocksDb S) (o : IsOpen S J db) where
  -- What the database holds at a simplified path is what `get_inode` reads there.
  pub get_inode-some :
      (path : Text) {i : Inode}
      → simplify_path path ≡ path
      → inode_at S J o.state path ≡ some i
      → get_inode S J db (new_inode path) ≡ ok i
  unfolding inode_at get_inode ready new_inode
  get_inode-some path simple at =
      let (value, g, p) = inode_of-eq-some J (S.get o.state path) at in rw (o.opened, simple, g) p

  pub path_exists-some :
      (path : Text) {i : Inode}
      → same_text path slash ≡ false
      → inode_at S J o.state path ≡ some i
      → path_exists S J db path ≡ ok i.valid
  unfolding inode_at path_exists ready
  path_exists-some path other at =
      let (value, g, p) = inode_of-eq-some J (S.get o.state path) at in rw (other, o.opened, g, p)

  pub ls_valid :
      (path : Text) {i : Inode}
      → simplify_path path ≡ path
      → inode_at S J o.state path ≡ some i
      → i.valid ≡ true
      → ls S J db (new_inode path) ≡ ok i
  unfolding ls
  ls_valid path simple at v = rw (get_inode-some path simple at, v)

  pub ls_invalid :
      (path : Text) {i : Inode}
      → simplify_path path ≡ path
      → inode_at S J o.state path ≡ some i
      → i.valid ≡ false
      → ls S J db (new_inode path) ≡ throw (path_error path_not_exists_exception i.fullpath)
  unfolding ls
  ls_invalid path simple at v = rw (get_inode-some path simple at, v)

  pub path_exists-eq-true :
      (path : Text)
      → same_text path slash ≡ false
      → path_exists S J db path ≡ ok true
      → (i : Inode) × (inode_at S J o.state path ≡ some i) × (i.valid ≡ true)
  unfolding inode_at path_exists ready
  path_exists-eq-true path other e = go (S.get o.state path) (rw (other, o.opened) at e)
    where
      go :
          (l : Lookup)
          → valid_of_lookup S J l ≡ ok true
          → (i : Inode) × (inode_of J l ≡ some i) × (i.valid ≡ true)
      go not_found h = absurd (cc)
      go (get_failed status) h = absurd (cc)
      go (found value) h =
          let (i, p, r) = >>=-eq-ok (parse_inode J value) _ h in (i, ap to_option p, ok_injective r)

module _ (S : KvStore) (J : JsonLib) (db : RocksDb S) (inode : Inode) {inode' : Inode} where
  -- What a `mkdir` that passes its checks has found.
  pub prepare_mkdir-eq-ok :
      prepare_mkdir S J db inode ≡ ok inode'
      → (inode' ≡ inode)
        × (path_exists S J db (parent_path inode) ≡ ok true)
        × (path_exists S J db inode.fullpath ≡ ok false)
  unfolding prepare_mkdir try_to_add
  prepare_mkdir-eq-ok e =
      let (s, r, e1) = >>=-eq-ok (ready S J db) _ e in
      let (u, a, e2) = >>=-eq-ok (try_to_add S J db inode) _ e1 in
      let (p, pe, a1) = >>=-eq-ok (path_exists S J db (parent_path inode)) _ a in
      let (u1, t1, a2) = >>=-eq-ok (throw_if (not p) _) _ a1 in
      let (q, qe, a3) = >>=-eq-ok (path_exists S J db inode.fullpath) _ a2 in
      let p_true = throw_if-eq-ok (not p) _ t1 in
      let q_false = throw_if-eq-ok q _ a3 in
      (sym (ok_injective e2), pe ∙ ap ok (ground (arith, p_true)), qe ∙ ap ok q_false)

  pub prepare_rm-eq-ok :
      prepare_rm S J db inode ≡ ok inode'
      → (inode' ≡ record inode { valid = false }) × (path_exists S J db inode.fullpath ≡ ok true)
  unfolding prepare_rm try_to_rm
  prepare_rm-eq-ok e =
      let (u, a, e1) = >>=-eq-ok (try_to_rm S J db inode) _ e in
      let (p, pe, a1) = >>=-eq-ok (path_exists S J db inode.fullpath) _ a in
      let p_true = throw_if-eq-ok (not p) _ a1 in
      (sym (ok_injective e1), pe ∙ ap ok (ground (arith, p_true)))
