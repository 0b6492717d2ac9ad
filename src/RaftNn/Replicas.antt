-- ===== src/RaftNn/Replicas.antt =====
-- Namenodes that apply one log, each to its own database, and save and load snapshots at times of
-- their own. braft hands the entries over in order, saves a snapshot at the entry that was applied
-- last, and after a restart loads the latest one and goes on behind its entry. Left out are a restart
-- before the first snapshot, after which the log is applied from its start to the database that is
-- there, and a snapshot that another namenode sends.
use spkdfs.Prelude.{◌≡◌, refl, sym, ap, ◌∙◌, Option, none, some, some_injective, List, [], ◌++◌}
use spkdfs.Exn.{Text, ok}
use spkdfs.Json.{JsonLib, IsJson}
use spkdfs.KvStore.{KvStore, IsKvStore, IsReliable}
use spkdfs.RocksDb.{RocksDb, snapshot}
use spkdfs.RocksDb.Contents.{IsOpen}
use spkdfs.RocksDb.Snapshots.{load_snapshot-snapshot, snapshot-db_ptr, load_snapshot-backups}
use spkdfs.RocksDb.Tree.{Tree}
use spkdfs.RocksDb.Determined.{tree_at, tree_of}
use spkdfs.Reply.{Response}
use spkdfs.RaftNn.{on_apply, on_snapshot_save, on_snapshot_load}
use spkdfs.RaftNn.Keeps.{on_apply-IsOpen, on_apply-backups}
use spkdfs.RaftNn.Replay.{tree_log, tree_log-append, seen, on_apply-tree}

-- A namenode's database, the entries that it has applied since it was first started, and those that
-- its latest snapshot stands for.
pub record Replica (S : KvStore) : Type 0 where
  pub db : RocksDb S
  pub applied : List Text
  pub saved : Option (List Text)

module _ (S : KvStore) (J : JsonLib) where
  pub data Step (r : Replica S) : Replica S → Type 0 where
    applies :
        (batch : List Text) {db' : RocksDb S} {responses : List Response}
        → on_apply S J batch r.db ≡ some (db', responses)
        → Step r (record { db = db'; applied = r.applied ++ batch; saved = r.saved })
    saves :
        {db' : RocksDb S}
        → on_snapshot_save S J r.db ≡ ok db'
        → Step r (record { db = db'; applied = r.applied; saved = some r.applied })
    loads :
        {db' : RocksDb S} {entries : List Text}
        → r.saved ≡ some entries
        → on_snapshot_load S J r.db ≡ ok db'
        → Step r (record { db = db'; applied = entries; saved = r.saved })

  -- From a database to which nothing was applied yet.
  pub data Reaches (db : RocksDb S) : Replica S → Type 0 where
    started : Reaches db (record { db = db; applied = []; saved = none })
    later : {r r' : Replica S} → Reaches db r → Step r r' → Reaches db r'

  -- The latest snapshot was made of a database that held the tree of its entries.
  pub record IsBacked (start : Tree) (db : RocksDb S) (entries : List Text) : Type 0 where
    pub before : RocksDb S
    pub after : RocksDb S
    pub opened : IsOpen S J before
    pub made : snapshot S J before ≡ ok after
    pub held : db.backups ≡ after.backups
    pub responses : List Response
    pub replayed : tree_log J entries start ≡ some (tree_of S J before, responses)

  backups-IsBacked :
      {start : Tree} {db db' : RocksDb S} {entries : List Text}
      → db'.backups ≡ db.backups
      → IsBacked start db entries
      → IsBacked start db' entries
  backups-IsBacked kept b = record {
    before = b.before;
    after = b.after;
    opened = b.opened;
    made = b.made;
    held = kept ∙ b.held;
    responses = b.responses;
    replayed = b.replayed;
  }

  -- The database is open on a consistent store and holds the tree that the applied entries make.
  pub record Follows (start : Tree) (r : Replica S) : Type 0 where
    pub opened : IsOpen S J r.db
    pub responses : List Response
    pub replayed : tree_log J r.applied start ≡ some (tree_of S J r.db, responses)
    pub backed : {entries : List Text} → r.saved ≡ some entries → IsBacked start r.db entries

module _ (S : KvStore) (J : JsonLib) (kv : IsKvStore S) (law : IsJson J) (disk : IsReliable S) where
  Step-Follows :
      (start : Tree) {r r' : Replica S} → Step S J r r' → Follows S J start r → Follows S J start r'
  unfolding on_snapshot_save on_snapshot_load
  Step-Follows start {r} (applies batch {db'} {responses} e) f =
      let goes : tree_log J batch (tree_of S J r.db) ≡ some (tree_of S J db', responses) =
        sym (on_apply-tree S J kv law disk batch r.db f.opened) ∙ ap (seen S J) e in
      let kept = on_apply-backups S J kv law batch r.db f.opened e in
      record {
        opened = (on_apply-IsOpen S J kv law batch r.db f.opened e).0;
        responses = f.responses ++ responses;
        replayed = tree_log-append J r.applied batch start f.replayed goes;
        backed = λ s. backups-IsBacked S J kept (f.backed s);
      }
  Step-Follows start {r} (saves {db'} e) f =
      let same = snapshot-db_ptr S J kv r.db e in
      record {
        opened = record {
          state = f.opened.state;
          opened = same ∙ f.opened.opened;
          consistent = f.opened.consistent;
        };
        responses = f.responses;
        replayed = rw same f.replayed;
        backed = λ {entries} s. record {
          before = r.db;
          after = db';
          opened = f.opened;
          made = e;
          held = refl;
          responses = f.responses;
          replayed = rw (← some_injective s) f.replayed;
        };
      }
  Step-Follows start {r} (loads {db'} {entries} s e) f =
      let b = f.backed s in
      let kept = load_snapshot-backups S J kv r.db e in
      let (o, same) =
        load_snapshot-snapshot S J kv b.before b.after r.db db' b.opened b.made b.held e in
      let again : tree_of S J b.before ≡ tree_of S J db' =
        ap (tree_at S J) b.opened.opened
        ∙ (λ i key. sym (same key) i)
        ∙ ap (tree_at S J) (sym o.opened) in
      record {
        opened = o;
        responses = b.responses;
        replayed = b.replayed ∙ ap (λ (t : Tree). some (t, b.responses)) again;
        backed = λ s'. backups-IsBacked S J kept (f.backed s');
      }

  -- Whatever batches a namenode has applied, and whenever it saved and loaded snapshots, from a
  -- database that was open on a consistent store: its database is so still, it holds the inodes
  -- that its entries make of those of the first database, and its latest snapshot holds those that
  -- the entries of the snapshot make. The disk answers.
  pub Reaches-Follows :
      {db : RocksDb S} {r : Replica S}
      → IsOpen S J db
      → Reaches S J db r
      → Follows S J (tree_of S J db) r
  Reaches-Follows {db} o started = record {
    opened = o;
    responses = [];
    replayed = unfold tree_log in refl;
    backed = λ s. absurd (cc);
  }
  Reaches-Follows {db} o (later reached step) =
      Step-Follows (tree_of S J db) step (Reaches-Follows o reached)

  -- Two namenodes whose databases were open on consistent stores and held the same inodes hold the
  -- same inodes again whenever they stand at the same entries, however each came there: by batches
  -- of any sizes, or by snapshots of its own. The disk answers.
  pub replicas_agree :
      {db db' : RocksDb S} {r r' : Replica S}
      → IsOpen S J db
      → IsOpen S J db'
      → ((path : Text) → tree_of S J db path ≡ tree_of S J db' path)
      → Reaches S J db r
      → Reaches S J db' r'
      → r.applied ≡ r'.applied
      → (path : Text) → tree_of S J r.db path ≡ tree_of S J r'.db path
  replicas_agree {db} {db'} {r} {r'} o o' alike reached reached' same path =
      let f = Reaches-Follows o reached in
      let f' = Reaches-Follows o' reached' in
      let trees : tree_of S J db ≡ tree_of S J db' = λ i key. alike key i in
      let both : some (tree_of S J r.db, f.responses) ≡ some (tree_of S J r'.db, f'.responses) =
        sym f.replayed
        ∙ ap (λ (entries : List Text). tree_log J entries (tree_of S J db)) same
        ∙ ap (tree_log J r'.applied) trees
        ∙ f'.replayed in
      ap (λ (out : Tree × List Response). out.0 path) (some_injective both)
