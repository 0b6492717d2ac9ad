-- ===== src/Namenode/Directories.antt =====
-- A directory that is made is listed, under its own path and in its parent, and is not made twice;
-- a path that is removed is not listed.
use spkdfs.Prelude.{
  ◌≡◌, ◌≢◌, refl, sym, ap, ◌∙◌, true, false, Bool, some, List, [], ◌∷◌, ◌++◌, any, arith,
  Bool-cases, inl, inr, ◌==◌,
}
use spkdfs.Exn.{Text, ok, >>=-eq-ok, path_exists_exception, runtime_error}
use spkdfs.Text.{same_text, same_text_refl, eq_of_same_text, codes}
use spkdfs.FsPath.{slash, simplify_path, is_empty, is_absolute}
use spkdfs.FsPath as FsPath
use spkdfs.FsPath.Simplify.{simplify_path_idem}
use spkdfs.FsPath.Parent.{IsChild, simplify_path_parent}
use spkdfs.Json.{JsonLib, IsJson}
use spkdfs.KvStore.{KvStore, IsKvStore}
use spkdfs.Node.{Node}
use spkdfs.Inode.{Inode, new_inode, get_default_dir, filename, parent_path, inode_value}
use spkdfs.Inode.RoundTrip.{IsStorable}
use spkdfs.RocksDb.{
  RocksDb, path_exists, get_inode, prepare_mkdir, try_to_add, path_error, add_name, ready,
  get_parent_inode, internal_mkdir,
}
use spkdfs.RocksDb as Db
use spkdfs.RocksDb.Contents.{IsOpen, inode_at}
use spkdfs.RocksDb.Tree.{parent_in, with_sub, tree_mkdir}
use spkdfs.RocksDb.Consistency.{ready_opened, get_parent_inode-eq-ok}
use spkdfs.RocksDb.Refinement.{Refines, Refines-IsOpen}
use spkdfs.RocksDb.Requests.{
  get_inode-some, path_exists-some, ls_valid, prepare_mkdir-eq-ok, path_exists-eq-true,
  throw_if-eq-ok,
}
use spkdfs.Reply.{
  Response, replied, done, try_catch, try_catch-eq-done, try_catch-eq-replied, check_response,
  fail_response,
}
use spkdfs.RaftNn.{op_mkdir, entry, apply_entry, perform}
use spkdfs.RaftNn.Keeps.{tree_op, perform-Refines, apply_entry-entry}
use spkdfs.Namenode.{check_leader, rooted, or_slash, ls, mkdir, make_directory, require_path}

abbrev pub has_name : Text → List Text → Bool
has_name name = any (λ n. same_text n name)

has_name-append : (name : Text) (sub : List Text) → has_name name (sub ++ name ∷ []) ≡ true
has_name-append name [] = ground (arith, same_text_refl name)
has_name-append name (x ∷ sub) = ground (arith, has_name-append name sub)

pub has_name-add_name : (name : Text) (sub : List Text) → has_name name (add_name name sub) ≡ true
unfolding add_name
has_name-add_name name sub = elim (Bool-cases (has_name name sub)) [
  | inl h ↦ rw h h
  | inr h ↦ rw h (has_name-append name sub)
]

pub is_absolute-rooted : (path : Text) → is_empty path ≡ false → is_absolute (rooted path) ≡ true
unfolding rooted
is_absolute-rooted [] h = cc
is_absolute-rooted (c ∷ s) h = elim (Bool-cases (c == b'/')) [ inl e ↦ rw e e | inr e ↦ rw e ]

pub get_default_dir-IsStorable : (path : Text) → IsStorable (get_default_dir path)
unfolding get_default_dir
get_default_dir-IsStorable path = record {
  simple = simplify_path_idem path;
  size_fits = omega arith;
  lock_fits = omega arith;
  storage_fits = tt;
}

pub same_text_ne : (s t : Text) → s ≢ t → same_text s t ≡ false
same_text_ne s t h = elim (Bool-cases (same_text s t)) [
  | inl e ↦ absurd (h (eq_of_same_text s t e))
  | inr e ↦ e
]

module _ (S : KvStore) (J : JsonLib) (kv : IsKvStore S) (law : IsJson J) where
  internal_mkdir_parent :
      (db : RocksDb S) (dir : Inode) {db' : RocksDb S} (o : IsOpen S J db)
      → internal_mkdir S J db dir ≡ ok db'
      → (p : Inode) × (parent_in (inode_at S J o.state) dir ≡ some p)
        × (p.fullpath ≡ parent_path dir)
  unfolding internal_mkdir
  internal_mkdir_parent db dir o e =
      let (logged, _, e1) =
        >>=-eq-ok (inode_value J dir) _ (rw (ready_opened S J db o.opened) at e) in
      let (p, ep, _) = >>=-eq-ok (get_parent_inode S J o.state dir) _ e1 in
      let (r, there) = get_parent_inode-eq-ok S J law o.state o.consistent dir ep in
      (p, there, r.at_path)

  -- What an applied `mkdir` of a directory with a parent leaves at both paths.
  internal_mkdir_leaves :
      (db db' : RocksDb S) (dir : Inode) (o : IsOpen S J db)
      (r : Refines S J db db' o.state (tree_mkdir dir))
      → IsChild dir.fullpath
      → (p : Inode) → parent_in (inode_at S J o.state) dir ≡ some p
      → p.fullpath ≡ parent_path dir
      → (inode_at S J r.after dir.fullpath ≡ some dir)
        × (inode_at S J r.after (parent_path dir) ≡ some (with_sub (add_name (filename dir)) p))
  unfolding tree_mkdir parent_path
  internal_mkdir_leaves db db' dir o r child p there at = (
    r.contents dir.fullpath ∙ rw (there, same_text_refl dir.fullpath),
    r.contents (FsPath.parent_path dir.fullpath)
        ∙ rw (
          there,
          at,
          same_text_ne dir.fullpath (FsPath.parent_path dir.fullpath)
              (λ e. child.parent_ne (sym e)),
          same_text_refl (FsPath.parent_path dir.fullpath),
        ),
  )

  -- What the handler has checked when it proposes an entry.
  pub mkdir-eq-done :
      (leader : Node) (my_ip : Text) (db : RocksDb S) (path : Text) {bytes : Text}
      → mkdir S J leader my_ip db path ≡ done bytes
      → (u : Unit {0}) × (check_leader leader my_ip ≡ ok u)
        × (is_empty path ≡ false)
        × (path_exists S J db (FsPath.parent_path (simplify_path (rooted path))) ≡ ok true)
        × (path_exists S J db (simplify_path (rooted path)) ≡ ok false)
        × (entry S J op_mkdir (get_default_dir (rooted path)) ≡ ok bytes)
  unfolding mkdir get_default_dir parent_path
  mkdir-eq-done leader my_ip db path e =
      let (u, a, e1) =
        >>=-eq-ok (check_leader leader my_ip) _
          (try_catch-eq-done (make_directory S J leader my_ip db path) e) in
      let (w, b, e2) = >>=-eq-ok (require_path path) _ e1 in
      let (inode, c, e3) = >>=-eq-ok (prepare_mkdir S J db (get_default_dir (rooted path))) _ e2 in
      let (same, p, q) = prepare_mkdir-eq-ok S J db (get_default_dir (rooted path)) c in
      (
        u,
        a,
        throw_if-eq-ok (is_empty path) (runtime_error (codes "parameter path required")) b,
        p,
        q,
        rw same at e3,
      )

  pub mkdir-eq-replied :
      (leader : Node) (my_ip : Text) (db : RocksDb S) (path : Text) {response : Response}
      {u : Unit {0}}
      → mkdir S J leader my_ip db path ≡ replied response
      → check_response response ≢ ok u
  unfolding mkdir
  mkdir-eq-replied leader my_ip db path e =
      try_catch-eq-replied (make_directory S J leader my_ip db path) e

  pub ls-eq-done :
      (leader : Node) (my_ip : Text) (db : RocksDb S) (path : Text) {i : Inode} {text : Text}
      → or_slash path ≡ path
      → Db.ls S J db (new_inode path) ≡ ok i
      → inode_value J i ≡ ok text
      → ls S J leader my_ip db path ≡ done text
  unfolding ls try_catch
  ls-eq-done leader my_ip db path same listed value = rw same (rw listed (rw value))

  path_exists-slash :
      (db : RocksDb S) (path : Text) → path ≡ slash → path_exists S J db path ≡ ok true
  unfolding path_exists same_text
  path_exists-slash db path e = rw e

  not_slash :
      (db : RocksDb S) (path : Text)
      → path_exists S J db (simplify_path (rooted path)) ≡ ok false
      → same_text (simplify_path (rooted path)) slash ≡ false
  not_slash db path absent =
      same_text_ne (simplify_path (rooted path)) slash
        λ e. cc (path_exists-slash db (simplify_path (rooted path)) e, absent)

  pub new-IsChild :
      (db : RocksDb S) (path : Text)
      → is_empty path ≡ false
      → path_exists S J db (simplify_path (rooted path)) ≡ ok false
      → IsChild (simplify_path (rooted path))
  new-IsChild db path full absent =
      elim (simplify_path_parent (rooted path) (is_absolute-rooted path full)) [
        | inl e ↦ absurd (cc (path_exists-slash db (simplify_path (rooted path)) e, absent))
        | inr c ↦ c
      ]

  mkdir_again :
      (leader : Node) (my_ip : Text) (db : RocksDb S) (path : Text) {s : S.State} {u : Unit {0}}
      → is_empty path ≡ false
      → check_leader leader my_ip ≡ ok u
      → ready S J db ≡ ok s
      → path_exists S J db (FsPath.parent_path (simplify_path (rooted path))) ≡ ok true
      → path_exists S J db (simplify_path (rooted path)) ≡ ok true
      → mkdir S J leader my_ip db path
        ≡ replied (fail_response (path_error path_exists_exception (simplify_path (rooted path))))
  unfolding mkdir prepare_mkdir try_to_add try_catch get_default_dir parent_path
  mkdir_again leader my_ip db path full lead opened parent there =
      rw (full, lead, opened) (rw (parent, there))

  -- What `linked` leaves at the parent exists if the parent existed.
  parent_exists :
      (db db' : RocksDb S) (dir : Inode) (o : IsOpen S J db) (o' : IsOpen S J db') (p : Inode)
      (path : Text)
      → parent_in (inode_at S J o.state) dir ≡ some p
      → parent_path dir ≡ path
      → inode_at S J o'.state path ≡ some (with_sub (add_name (filename dir)) p)
      → path_exists S J db path ≡ ok true
      → path_exists S J db' path ≡ ok true
  parent_exists db db' dir o o' p path there at after before =
      elim (Bool-cases (same_text path slash)) [
        | inl e ↦ path_exists-slash db' path (eq_of_same_text path slash e)
        | inr e ↦
            let (q, now, v) = path_exists-eq-true S J db o path e before in
            let same : p ≡ q = unfold parent_in in cc (rw (at, now) at there) in
            path_exists-some S J db' o' path e after ∙ ap ok (ap (λ (i : Inode). i.valid) same ∙ v)
      ]

  -- A `mkdir` that the leader proposes and that is then applied makes the directory: the path, made
  -- absolute and simplified, is listed as an empty directory; the entry of its parent holds its
  -- name; and the same call on the new database is answered with `PATH_EXISTS_EXCEPTION`.
  pub mkdir_listed :
      (leader : Node) (my_ip : Text) (db db' : RocksDb S) (path bytes : Text)
      → IsOpen S J db
      → mkdir S J leader my_ip db path ≡ done bytes
      → apply_entry S J db bytes ≡ ok db'
      → let dir = simplify_path (rooted path) in
        (Db.ls S J db' (new_inode dir) ≡ ok (get_default_dir (rooted path)))
        × ((parent : Inode) × (get_inode S J db' (new_inode (FsPath.parent_path dir)) ≡ ok parent)
            × (has_name (filename (get_default_dir (rooted path))) parent.sub ≡ true))
        × (mkdir S J leader my_ip db' path
            ≡ replied (fail_response (path_error path_exists_exception dir)))
  unfolding perform tree_op
  mkdir_listed leader my_ip db db' path bytes o proposed applied =
      let (u, lead, full, above, absent, e) = mkdir-eq-done leader my_ip db path proposed in
      let h = get_default_dir-IsStorable (rooted path) in
      let done' =
        sym (apply_entry-entry S J kv law op_mkdir db (get_default_dir (rooted path)) h e)
        ∙ applied in
      let r = perform-Refines S J kv law op_mkdir db (get_default_dir (rooted path)) o h done' in
      let o' = Refines-IsOpen S J r in
      let child = new-IsChild db path full absent in
      let (p, there, at) = internal_mkdir_parent db (get_default_dir (rooted path)) o done' in
      let (here, up) =
        internal_mkdir_leaves db db' (get_default_dir (rooted path)) o r
          (unfold get_default_dir in child) p there at in
      unfold get_default_dir parent_path in
      (
        ls_valid S J db' o' (simplify_path (rooted path)) (simplify_path_idem (rooted path)) here
            refl,
        (
          with_sub (add_name (filename (get_default_dir (rooted path)))) p,
          get_inode-some S J db' o' (FsPath.parent_path (simplify_path (rooted path)))
              child.parent_simple up,
          has_name-add_name (filename (get_default_dir (rooted path))) p.sub,
        ),
        mkdir_again leader my_ip db' path full lead (ready_opened S J db' o'.opened)
            (parent_exists db db' (get_default_dir (rooted path)) o o' p
              (FsPath.parent_path (simplify_path (rooted path))) there refl up above)
            (path_exists-some S J db' o' (simplify_path (rooted path)) (not_slash db path absent)
              here),
      )
