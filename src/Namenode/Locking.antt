-- ===== src/Namenode/Locking.antt =====
-- A file that is being written is leased to its writer.
use spkdfs.Prelude.{
  ◌≡◌, refl, sym, ap, ◌∙◌, ℕ, ◌+◌, ◌≤◌, ◌<◌, ◌^◌, true, false, Bool, ◌&&◌, some, arith,
}
use spkdfs.Exn.{Text, ok, expected_lock_conflict, runtime_error, >>=-eq-ok, throw_if}
use spkdfs.Text.{codes}
use spkdfs.FsPath.{simplify_path, is_empty}
use spkdfs.FsPath.Simplify.{simplify_path_idem}
use spkdfs.Json.{JsonLib, IsJson}
use spkdfs.KvStore.{KvStore, IsKvStore}
use spkdfs.Node.{Node}
use spkdfs.Storage.{StorageType, storage_from_string}
use spkdfs.Storage.Format.{storage_from_string-FitsInt}
use spkdfs.Inode.{Inode, new_inode, update_ddl_lock, being_edited, lock_refresh_interval}
use spkdfs.Inode.RoundTrip.{IsStorable}
use spkdfs.Inode.Lock.{lock-eq-ok, lock_refused, ddl_lock-update_ddl_lock}
use spkdfs.RocksDb.{RocksDb, get_inode, prepare_put, path_error}
use spkdfs.RocksDb.Contents.{IsOpen, inode_at}
use spkdfs.RocksDb.Consistency.{IsRead, get_inode-eq-ok}
use spkdfs.RocksDb.Tree.{insert_self, tree_put}
use spkdfs.RocksDb.Refinement.{Refines-IsOpen}
use spkdfs.RocksDb.Requests.{get_inode-some, throw_if-eq-ok}
use spkdfs.Reply.{replied, done, try_catch, try_catch-eq-done, fail_response}
use spkdfs.RaftNn.{op_put, entry, apply_entry}
use spkdfs.RaftNn.Keeps.{tree_op, perform-Refines, apply_entry-entry}
use spkdfs.Namenode.{PutRequest, check_leader, require_path, put, put_file}

pub new_inode-simplify_path : (path : Text) → new_inode path ≡ new_inode (simplify_path path)
unfolding new_inode
new_inode-simplify_path path =
    ap (λ (p : Text). let q : Inode = record (new_inode path) { fullpath = p } in q)
      (sym (simplify_path_idem path))

module _ (S : KvStore) (J : JsonLib) (kv : IsKvStore S) (law : IsJson J) (leader : Node)
    (my_ip : Text) where
  -- The inode that a `put` locks.
  abbrev claimed : ℕ → StorageType → Inode → Inode
  claimed now storage old =
      record (update_ddl_lock now (record old { is_directory = false; valid = true })) {
        storage_type_ptr = some storage;
      }

  put-eq-done :
      (now : ℕ) (db : RocksDb S) (request : PutRequest) {bytes : Text}
      → put S J leader my_ip now db request ≡ done bytes
      → (u : Unit {0}) × (old : Inode) × (storage : StorageType) × (check_leader leader my_ip
          ≡ ok u)
        × (is_empty request.path ≡ false)
        × (get_inode S J db (new_inode request.path) ≡ ok old)
        × (storage_from_string request.storage_type ≡ ok storage)
        × (entry S J op_put (claimed now storage old) ≡ ok bytes)
  unfolding put prepare_put
  put-eq-done now db request e =
      let (u, a, e1) =
        >>=-eq-ok (check_leader leader my_ip) _
          (try_catch-eq-done (put_file S J leader my_ip now db request) e) in
      let (w, b, e2) = >>=-eq-ok (require_path request.path) _ e1 in
      let (inode, c, e3) = >>=-eq-ok (prepare_put S J now db (new_inode request.path)) _ e2 in
      let (storage, d, e4) = >>=-eq-ok (storage_from_string request.storage_type) _ e3 in
      let (old, g, c1) = >>=-eq-ok (get_inode S J db (new_inode request.path)) _ c in
      let (v, t, c2) = >>=-eq-ok (throw_if (old.valid && old.is_directory) _) _ c1 in
      let (same, free) = lock-eq-ok now (record old { is_directory = false; valid = true }) c2 in
      (
        u,
        old,
        storage,
        a,
        throw_if-eq-ok (is_empty request.path) (runtime_error (codes "parameter path required")) b,
        g,
        d,
        rw same at e4,
      )

  claimed-IsStorable :
      (now : ℕ) (path : Text) (storage : StorageType) (old : Inode)
      → IsRead path old
      → (input : Text) → storage_from_string input ≡ ok storage
      → IsStorable (claimed now storage old)
  unfolding update_ddl_lock
  claimed-IsStorable now path storage old r input f = record {
    simple = r.storable.simple;
    size_fits = r.storable.size_fits;
    lock_fits = omega arith;
    storage_fits = storage_from_string-FitsInt input f;
  }

  put_refused :
      (later : ℕ) (db : RocksDb S) (request : PutRequest) (inode : Inode) {u : Unit {0}}
      → check_leader leader my_ip ≡ ok u
      → is_empty request.path ≡ false
      → get_inode S J db (new_inode request.path) ≡ ok inode
      → inode.is_directory ≡ false
      → later ≤ inode.ddl_lock
      → (message : Text) × (put S J leader my_ip later db request
          ≡ replied (fail_response (path_error expected_lock_conflict message)))
  unfolding put prepare_put try_catch
  put_refused later db request inode lead full g file within =
      let locked = record inode { is_directory = false; valid = true } in
      (
        being_edited later locked,
        rw (lead, full, g) (rw (not_both inode.valid file, lock_refused later locked within)),
      )
    where
      not_both : (b : Bool) {c : Bool} → c ≡ false → (b && c) ≡ false
      not_both true h = h
      not_both false h = refl

  -- While the lease of a `put` that was proposed and applied runs, `lock_refresh_interval` seconds
  -- from the time of the call (which must not overflow 64 bits), the new database refuses every
  -- `put` of the same path with `EXPECTED_LOCK_CONFLICT`, whatever its storage type.
  pub put_excludes :
      (now later : ℕ) (db db' : RocksDb S) (request other : PutRequest) (bytes : Text)
      → IsOpen S J db
      → put S J leader my_ip now db request ≡ done bytes
      → apply_entry S J db bytes ≡ ok db'
      → other.path ≡ request.path
      → now + lock_refresh_interval < 2 ^ 64
      → later ≤ now + lock_refresh_interval
      → (message : Text) × (put S J leader my_ip later db' other
          ≡ replied (fail_response (path_error expected_lock_conflict message)))
  put_excludes now later db db' request other bytes o proposed applied same bound within =
      let (u, old, storage, lead, full, g, f, e) = put-eq-done now db request proposed in
      let path = simplify_path request.path in
      let (r, was) =
        get_inode-eq-ok S J law o.state o.consistent db path o.opened
          (simplify_path_idem request.path)
          (ap (get_inode S J db) (sym (new_inode-simplify_path request.path)) ∙ g) in
      let h = claimed-IsStorable now path storage old r request.storage_type f in
      let done' =
        sym (apply_entry-entry S J kv law op_put db (claimed now storage old) h e) ∙ applied in
      let R = perform-Refines S J kv law op_put db (claimed now storage old) o h done' in
      let here : inode_at S J R.after path ≡ some (claimed now storage old) =
        R.contents path
        ∙ unfold tree_op tree_put in
          insert_self (claimed now storage old) (inode_at S J o.state) path
            (unfold update_ddl_lock in r.at_path) in
      let read =
        get_inode-some S J db' (Refines-IsOpen S J R) path (simplify_path_idem request.path) here in
      put_refused later db' other (claimed now storage old) lead (rw same full)
        (ap (λ p. get_inode S J db' (new_inode p)) same
          ∙ ap (get_inode S J db') (new_inode-simplify_path request.path)
          ∙ read)
        (unfold update_ddl_lock in refl)
        (rw (ddl_lock-update_ddl_lock now (record old { is_directory = false; valid = true }) bound)
          within)
