-- ===== src/RocksDb/Snapshots.antt =====
-- A snapshot is restored, whatever was written after it was made.
use spkdfs.Prelude.{◌≡◌, sym, ap, ◌∙◌, Option, none, some}
use spkdfs.Exn.{Text, ok, >>=-eq-ok, ok_injective}
use spkdfs.Json.{JsonLib}
use spkdfs.KvStore.{KvStore, IsKvStore}
use spkdfs.RocksDb.{RocksDb, ready, snapshot, load_snapshot, or_abort}
use spkdfs.RocksDb.Contents.{IsOpen, inode_at, inode_of}
use spkdfs.RocksDb.Consistency.{ready_opened}

or_abort-eq-ok :
    (S : KvStore) (J : JsonLib) {A : Type 0} (o : Option A) {a : A}
    → or_abort S J o ≡ ok a
    → o ≡ some a
unfolding or_abort
or_abort-eq-ok S J none e = absurd (cc)
or_abort-eq-ok S J (some b) e = ap some (ok_injective e)

module _ (S : KvStore) (J : JsonLib) (kv : IsKvStore S) where
  -- If a snapshot is made of an open database, and a database that holds the same backups loads it,
  -- whatever its store has become, then that database is open on a consistent store, and at every
  -- path it holds what the first database held.
  pub load_snapshot-snapshot :
      (db saved later restored : RocksDb S) (o : IsOpen S J db)
      → snapshot S J db ≡ ok saved
      → later.backups ≡ saved.backups
      → load_snapshot S J later ≡ ok restored
      → (o' : IsOpen S J restored) × ((key : Text)
          → inode_at S J o'.state key ≡ inode_at S J o.state key)
  unfolding snapshot load_snapshot inode_at
  load_snapshot-snapshot db saved later restored o made same loaded =
      let (backups, b, e) =
        >>=-eq-ok (or_abort S J (S.create_backup db.backups o.state)) _
          (rw (ready_opened S J db o.opened) at made) in
      let (t, r, e1) = >>=-eq-ok (or_abort S J (S.restore_latest later.backups)) _ loaded in
      let (u, w, e2) = >>=-eq-ok (or_abort S J (S.open_db t)) _ e1 in
      let held : later.backups ≡ backups =
        same ∙ sym (ap (λ (d : RocksDb S). d.backups) (ok_injective e)) in
      let again : (key : Text) → S.get u key ≡ S.get o.state key = λ key.
        kv.get-open_db t u key (or_abort-eq-ok S J _ w)
        ∙ kv.restore-create db.backups backups o.state t key (or_abort-eq-ok S J _ b)
            (ap S.restore_latest (sym held) ∙ or_abort-eq-ok S J _ r) in
      (
        record {
          state = u;
          opened = sym (ap (λ (d : RocksDb S). d.db_ptr) (ok_injective e2));
          consistent = λ key value f. o.consistent key value (sym (again key) ∙ f);
        },
        λ key. ap (inode_of J) (again key),
      )

  -- A snapshot leaves the store, and loading one leaves the backups.
  pub snapshot-db_ptr :
      (db : RocksDb S) {saved : RocksDb S} → snapshot S J db ≡ ok saved → saved.db_ptr ≡ db.db_ptr
  unfolding snapshot
  snapshot-db_ptr db made =
      let (s, r, e) = >>=-eq-ok (ready S J db) _ made in
      let (backups, b, e1) = >>=-eq-ok (or_abort S J (S.create_backup db.backups s)) _ e in
      sym (ap (λ (d : RocksDb S). d.db_ptr) (ok_injective e1))

  pub load_snapshot-backups :
      (db : RocksDb S) {restored : RocksDb S}
      → load_snapshot S J db ≡ ok restored
      → restored.backups ≡ db.backups
  unfolding load_snapshot
  load_snapshot-backups db loaded =
      let (t, r, e1) = >>=-eq-ok (or_abort S J (S.restore_latest db.backups)) _ loaded in
      let (u, w, e2) = >>=-eq-ok (or_abort S J (S.open_db t)) _ e1 in
      sym (ap (λ (d : RocksDb S). d.backups) (ok_injective e2))
