-- ===== src/Sdk/Calls/Served.antt =====
-- The client's calls, served by the namenodes' handlers: a directory that one client has made is
-- listed to every client.
use spkdfs.Prelude.{◌≡◌, refl, ap, ◌∙◌, Option, none, some, [], ◌∷◌}
use spkdfs.Exn.{Text, Result, ok, throw, abort, >>=-eq-ok}
use spkdfs.Text.{codes}
use spkdfs.FsPath.{simplify_path}
use spkdfs.FsPath as FsPath
use spkdfs.FsPath.Parent.{IsChild}
use spkdfs.FsPath.Simplify.{simplify_path_idem}
use spkdfs.Json.{JsonLib, IsJson}
use spkdfs.KvStore.{KvStore, IsKvStore, IsReliable}
use spkdfs.Node.{Node}
use spkdfs.Inode.{Inode, get_default_dir, new_inode, inode_value}
use spkdfs.Inode.RoundTrip.{parse_inode-inode_value}
use spkdfs.RocksDb.{RocksDb, get_inode}
use spkdfs.RocksDb as Db
use spkdfs.RocksDb.Contents.{IsOpen, inode_at}
use spkdfs.RocksDb.Determined.{tree_of, get_inode-entry_or_new}
use spkdfs.Reply.{
  Response, Outcome, replied, done, crashed, succ_response, fail_response, check_response,
}
use spkdfs.RaftNn.{settle, apply_entry, entry}
use spkdfs.RaftNn.Keeps.{apply_entry-IsOpen}
use spkdfs.Namenode.{rooted, or_slash}
use spkdfs.Namenode as Namenode
use spkdfs.Namenode.Directories.{
  mkdir_listed, mkdir-eq-done, mkdir-eq-replied, ls-eq-done, new-IsChild,
  get_default_dir-IsStorable,
}
use spkdfs.Sdk.Transfer.{Called, failed, answered, check_call, checked_data}
use spkdfs.Sdk.Calls.{Stubs, mkdir, ls, get_remote_inode}

-- A path with a parent of its own is not empty.
or_slash-IsChild : (path : Text) → IsChild path → or_slash path ≡ path
unfolding or_slash FsPath.parent_path
or_slash-IsChild [] child = absurd (child.parent_ne refl)
or_slash-IsChild (c ∷ s) child = refl

module _ (S : KvStore) (J : JsonLib) (leader : Node) (my_ip : Text) where
  -- An entry that was agreed on is answered when it is applied. A process that ended does not answer.
  applied : RocksDb S → Option (RocksDb S × Response) → RocksDb S × Called Response
  applied db none = (db, failed (codes "no answer"))
  applied db (some (db', response)) = (db', answered response)

  unfoldable pub serve_entry : RocksDb S → Outcome Text → RocksDb S × Called Response
  unfolding applied
  serve_entry db (replied response) = (db, answered response)
  serve_entry db (done bytes) = applied db (settle S J db (apply_entry S J db bytes))
  serve_entry db crashed = (db, failed (codes "no answer"))

  unfoldable pub serve_text : Outcome Text → Called (Response × Text)
  serve_text (replied response) = answered (response, [])
  serve_text (done text) = answered (succ_response, text)
  serve_text crashed = failed (codes "no answer")

  -- The database of the master, and that of the slave.
  abbrev pub served : Stubs
  served = record {
    State = RocksDb S × RocksDb S;
    call_mkdir = λ dbs path.
        let (master, called) = serve_entry dbs.0 (Namenode.mkdir S J leader my_ip dbs.0 path) in
        ((master, dbs.1), called);
    call_rm = λ dbs path.
        let (master, called) = serve_entry dbs.0 (Namenode.rm S J leader my_ip dbs.0 path) in
        ((master, dbs.1), called);
    call_ls = λ dbs path. serve_text (Namenode.ls S J leader my_ip dbs.1 path);
  }

module _ (S : KvStore) (J : JsonLib) (kv : IsKvStore S) (law : IsJson J) (leader : Node)
    (my_ip : Text) where
  -- A `mkdir` of the client that returns was proposed by the handler and applied.
  mkdir-eq-ok :
      (db slave : RocksDb S) (path : Text) {db' : RocksDb S}
      → mkdir (served S J leader my_ip) (db, slave) path ≡ ((db', slave), ok tt)
      → (bytes : Text) × (Namenode.mkdir S J leader my_ip db path ≡ done bytes)
        × (apply_entry S J db bytes ≡ ok db')
  unfolding mkdir serve_entry check_call
  mkdir-eq-ok db slave path {db'} e =
      go (Namenode.mkdir S J leader my_ip db path) refl
        (ap (λ (x : (RocksDb S × RocksDb S) × Result (Unit {0})). x.0.0) e)
        (ap (λ (x : (RocksDb S × RocksDb S) × Result (Unit {0})). x.1) e)
    where
      go_applied :
          (bytes : Text) (r : Result (RocksDb S))
          → Namenode.mkdir S J leader my_ip db path ≡ done bytes
          → apply_entry S J db bytes ≡ r
          → (applied S J leader my_ip db (settle S J db r)).0 ≡ db'
          → check_call (applied S J leader my_ip db (settle S J db r)).1 ≡ ok tt
          → (bytes : Text) × (Namenode.mkdir S J leader my_ip db path ≡ done bytes)
            × (apply_entry S J db bytes ≡ ok db')
      go_applied bytes (ok db'') m a same f = (bytes, m, a ∙ ap ok (unfold settle applied in same))
      go_applied bytes (throw x) m a same f =
          absurd (unfold settle applied fail_response check_response in cc f)
      go_applied bytes abort m a same f = absurd (unfold settle applied in cc f)

      go :
          (o : Outcome Text)
          → Namenode.mkdir S J leader my_ip db path ≡ o
          → (serve_entry S J leader my_ip db o).0 ≡ db'
          → check_call (serve_entry S J leader my_ip db o).1 ≡ ok tt
          → (bytes : Text) × (Namenode.mkdir S J leader my_ip db path ≡ done bytes)
            × (apply_entry S J db bytes ≡ ok db')
      go (replied response) m same f = absurd (mkdir-eq-replied S J kv law leader my_ip db path m f)
      go (done bytes) m same f = go_applied bytes (apply_entry S J db bytes) m refl same f
      go crashed m same f = absurd (cc f)

  -- Where the stores hold the same inodes, the same is listed.
  ls_same :
      (disk : IsReliable S) (db slave : RocksDb S) (path : Text) {i : Inode}
      → IsOpen S J db
      → IsOpen S J slave
      → simplify_path path ≡ path
      → tree_of S J slave path ≡ tree_of S J db path
      → Db.ls S J db (new_inode path) ≡ ok i
      → Db.ls S J slave (new_inode path) ≡ ok i
  unfolding Db.ls
  ls_same disk db slave path o o' simple same e =
      let read =
        get_inode-entry_or_new S J kv law disk db o.state path o.opened simple o.consistent in
      let read' =
        get_inode-entry_or_new S J kv law disk slave o'.state path o'.opened simple o'.consistent in
      let alike : inode_at S J o'.state path ≡ inode_at S J o.state path =
        rw (o.opened, o'.opened) at same in
      rw read' (rw alike (rw read at e))

  -- If a client's `mkdir` returns, at a master whose database was open on a consistent store, then
  -- every namenode with such a database that holds the inodes that the master's holds afterwards
  -- lists the path, made absolute and simplified, as an empty directory to the client. The
  -- namenodes' disks answer.
  pub made_is_listed :
      (disk : IsReliable S) (db slave db' slave' : RocksDb S) (path : Text)
      → IsOpen S J db
      → IsOpen S J slave'
      → mkdir (served S J leader my_ip) (db, slave) path ≡ ((db', slave), ok tt)
      → ((key : Text) → tree_of S J slave' key ≡ tree_of S J db' key)
      → ls (served S J leader my_ip) J (db', slave') (simplify_path (rooted path))
        ≡ ok (get_default_dir (rooted path))
  unfolding ls get_remote_inode serve_text checked_data check_response entry
  made_is_listed disk db slave db' slave' path o o' e same =
      let dir = simplify_path (rooted path) in
      let (bytes, m, a) = mkdir-eq-ok db slave path e in
      let (here, _, _) = mkdir_listed S J kv law leader my_ip db db' path bytes o m a in
      let (u, lead, full, above, absent, logged) =
        mkdir-eq-done S J kv law leader my_ip db path m in
      let (value, v, _) = >>=-eq-ok (inode_value J (get_default_dir (rooted path))) _ logged in
      let listed =
        ls_same disk db' slave' dir (apply_entry-IsOpen S J kv law db bytes o a) o'
          (simplify_path_idem (rooted path)) (same dir) here in
      let there =
        ls-eq-done S J kv law leader my_ip slave' dir
          (or_slash-IsChild dir (new-IsChild S J kv law db path full absent)) listed v in
      rw there (
        parse_inode-inode_value J law (get_default_dir (rooted path)) value
          (get_default_dir-IsStorable (rooted path)) v)
