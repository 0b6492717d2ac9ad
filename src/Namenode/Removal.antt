-- ===== src/Namenode/Removal.antt =====
-- What `rm` leaves: the path is gone, its parent's entry loses the file name of the path, and so
-- keeps the name of a directory, which ends in a separator.
use spkdfs.Prelude.{
  ◌≡◌, ◌≢◌, refl, sym, ap, ◌∙◌, true, false, some, List, [], ◌∷◌, ◌++◌, length, length-append,
  arith, Bool-cases, inl, inr,
}
use spkdfs.Exn.{Text, ok, throw, path_not_exists_exception, >>=-eq-ok}
use spkdfs.Text.{same_text, same_text_refl, eq_of_same_text}
use spkdfs.FsPath.{slash, simplify_path, is_empty, is_absolute}
use spkdfs.FsPath as FsPath
use spkdfs.FsPath.Simplify.{simplify_path_idem}
use spkdfs.FsPath.Parent.{IsChild}
use spkdfs.Json.{JsonLib, IsJson}
use spkdfs.KvStore.{KvStore, IsKvStore}
use spkdfs.Node.{Node}
use spkdfs.Inode.{Inode, new_inode, filename, parent_path}
use spkdfs.Inode.RoundTrip.{IsStorable}
use spkdfs.RocksDb.{
  RocksDb, get_inode, prepare_rm, path_exists, path_error, remove_name, internal_rm, ready,
  get_parent_inode,
}
use spkdfs.RocksDb as Db
use spkdfs.RocksDb.Contents.{IsOpen, inode_at}
use spkdfs.RocksDb.Consistency.{ready_opened, get_parent_inode-eq-ok}
use spkdfs.RocksDb.Tree.{parent_in, with_sub, tree_rm}
use spkdfs.RocksDb.Refinement.{Refines, Refines-IsOpen}
use spkdfs.RocksDb.Requests.{get_inode-some, ls_invalid, prepare_rm-eq-ok}
use spkdfs.Reply.{done, try_catch-eq-done}
use spkdfs.RaftNn.{op_rm, entry, apply_entry, perform}
use spkdfs.RaftNn.Keeps.{tree_op, perform-Refines, apply_entry-entry}
use spkdfs.Namenode.{check_leader, require_path, rm, remove_path}
use spkdfs.Namenode.Directories.{has_name, same_text_ne}
use spkdfs.Namenode.Locking.{new_inode-simplify_path}

unsplit :
    (name x : Text) (sub : List Text)
    → same_text x name ≡ false
    → has_name name (x ∷ sub) ≡ true
    → has_name name sub ≡ true
unsplit name x sub e h = ground arith

has_name-remove_name :
    (name : Text) (sub : List Text) → has_name name (remove_name name sub) ≡ false
unfolding remove_name
has_name-remove_name name [] = refl
has_name-remove_name name (x ∷ sub) = ground (arith, has_name-remove_name name sub)

-- The names of directories are not those of files.
has_name-remove_other :
    (gone name : Text) (sub : List Text)
    → same_text name gone ≡ false
    → has_name name sub ≡ true
    → has_name name (remove_name gone sub) ≡ true
unfolding remove_name
has_name-remove_other gone name [] d h = cc
has_name-remove_other gone name (x ∷ sub) d h = elim (Bool-cases (same_text x name)) [
  | inl e ↦
      let kept : same_text x gone ≡ false =
        ap (λ t. same_text t gone) (eq_of_same_text x name e) ∙ d in
      ground (arith, e, kept)
  | inr e ↦
      let rest = has_name-remove_other gone name sub d (unsplit name x sub e h) in
      ground (arith, e, rest)
]

ne_with_slash : (name : Text) → (name ++ slash) ≢ name
ne_with_slash name e = omega (arith, ap length e, length-append name slash)

-- What `rm` proposes for a path.
abbrev pub removed : Text → Inode
removed path = record (new_inode path) { valid = false }

module _ (S : KvStore) (J : JsonLib) (kv : IsKvStore S) (law : IsJson J) where
  rm-eq-done :
      (leader : Node) (my_ip : Text) (db : RocksDb S) (path : Text) {bytes : Text}
      → rm S J leader my_ip db path ≡ done bytes
      → entry S J op_rm (removed path) ≡ ok bytes
  unfolding rm
  rm-eq-done leader my_ip db path e =
      let (u, a, e1) =
        >>=-eq-ok (check_leader leader my_ip) _
          (try_catch-eq-done (remove_path S J leader my_ip db path) e) in
      let (w, b, e2) = >>=-eq-ok (require_path path) _ e1 in
      let (inode, c, e3) = >>=-eq-ok (prepare_rm S J db (new_inode path)) _ e2 in
      let (same, there) = prepare_rm-eq-ok S J db (new_inode path) c in rw same at e3

  pub removed-IsStorable : (path : Text) → IsStorable (removed path)
  unfolding new_inode
  removed-IsStorable path = record {
    simple = simplify_path_idem path;
    size_fits = omega arith;
    lock_fits = omega arith;
    storage_fits = tt;
  }

  internal_rm_parent :
      (db : RocksDb S) (inode : Inode) {db' : RocksDb S} (o : IsOpen S J db)
      → internal_rm S J db inode ≡ ok db'
      → (p : Inode) × (parent_in (inode_at S J o.state) inode ≡ some p)
        × (p.fullpath ≡ parent_path inode)
  unfolding internal_rm
  internal_rm_parent db inode o e =
      let (p, ep, _) =
        >>=-eq-ok (get_parent_inode S J o.state inode) _ (rw (ready_opened S J db o.opened) at e) in
      let (r, there) = get_parent_inode-eq-ok S J law o.state o.consistent inode ep in
      (p, there, r.at_path)

  module _ (leader : Node) (my_ip : Text) (db db' : RocksDb S) (path bytes : Text)
      (o : IsOpen S J db) (proposed : rm S J leader my_ip db path ≡ done bytes)
      (applied : apply_entry S J db bytes ≡ ok db') where
    rm_applied : internal_rm S J db (removed path) ≡ ok db'
    rm_applied =
        unfold perform in
        sym (
          apply_entry-entry S J kv law op_rm db (removed path) (removed-IsStorable path)
            (rm-eq-done leader my_ip db path proposed))
        ∙ applied

    rm-Refines : Refines S J db db' o.state (tree_rm (removed path))
    rm-Refines =
        unfold tree_op perform in
        perform-Refines S J kv law op_rm db (removed path) o (removed-IsStorable path) rm_applied

    -- A path whose `rm` was proposed and applied is answered with `PATH_NOT_EXISTS_EXCEPTION`,
    -- whatever stood there: a directory with entries and the root are removed as well.
    pub rm_unlists :
        Db.ls S J db' (new_inode path)
        ≡ throw (path_error path_not_exists_exception (simplify_path path))
    rm_unlists =
        let (p, there, at) = internal_rm_parent db (removed path) o rm_applied in
        let here : inode_at S J rm-Refines.after (simplify_path path) ≡ some (removed path) =
          rm-Refines.contents (simplify_path path)
          ∙ unfold tree_rm new_inode in rw (there, same_text_refl (simplify_path path)) in
        ap (Db.ls S J db') (new_inode-simplify_path path)
        ∙ ls_invalid S J db' (Refines-IsOpen S J rm-Refines) (simplify_path path)
            (simplify_path_idem path) here refl
        ∙ unfold new_inode in refl

    -- The entry of the parent of a path other than the root loses the path's file name. It keeps
    -- the name that a directory has there, so a directory that is removed stays listed.
    pub rm_parent_names :
        IsChild (simplify_path path)
        → (old new : Inode) × (parent_in (inode_at S J o.state) (removed path) ≡ some old)
          × (get_inode S J db' (new_inode (FsPath.parent_path (simplify_path path))) ≡ ok new)
          × (has_name (FsPath.filename (simplify_path path)) new.sub ≡ false)
          × (has_name (FsPath.filename (simplify_path path) ++ slash) old.sub ≡ true
              → has_name (FsPath.filename (simplify_path path) ++ slash) new.sub ≡ true)
    rm_parent_names child =
        let name = FsPath.filename (simplify_path path) in
        let (p, there, at) = internal_rm_parent db (removed path) o rm_applied in
        let up : inode_at S J rm-Refines.after (FsPath.parent_path (simplify_path path))
            ≡ some (with_sub (remove_name name) p) =
          rm-Refines.contents (FsPath.parent_path (simplify_path path))
          ∙ unfold tree_rm new_inode filename parent_path in
            rw (
              there,
              at,
              same_text_ne (simplify_path path) (FsPath.parent_path (simplify_path path))
                  (λ e. child.parent_ne (sym e)),
              same_text_refl (FsPath.parent_path (simplify_path path)),
            ) in
        (
          p,
          with_sub (remove_name name) p,
          there,
          get_inode-some S J db' (Refines-IsOpen S J rm-Refines)
              (FsPath.parent_path (simplify_path path)) child.parent_simple up,
          has_name-remove_name name p.sub,
          λ h.
              has_name-remove_other name (name ++ slash) p.sub
                (same_text_ne (name ++ slash) name (ne_with_slash name)) h,
        )
