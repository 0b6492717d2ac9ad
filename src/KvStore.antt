-- ===== src/KvStore.antt =====
-- The rocksdb library, which the sources only call: a key-value store with atomic batches, and its
-- backup engine, as a parameter with what their documentation promises.
use spkdfs.Prelude.{◌≡◌, ◌≢◌, Option, some, List, [], ◌∷◌, if◌then◌else◌}
use spkdfs.Exn.{Text}
use spkdfs.Text.{same_text}

-- A status of `Get`: ok with the value, `IsNotFound`, or another failure with its text.
pub data Lookup : Type 0 where
  found : Text → Lookup
  not_found : Lookup
  get_failed : Text → Lookup

-- A status of `Put` or `Write`. A write that fails leaves the store as it was.
pub data Written (S : Type 0) : Type 0 where
  written : S → Written S
  write_failed : Text → Written S

pub record KvStore : Type 1 where
  pub State : Type 0
  pub get : State → Text → Lookup
  pub put : State → Text → Text → Written State
  pub write : State → List (Text × Text) → Written State
  -- `DB::Open` on a directory that holds the store
  pub open_db : State → Option State
  pub Backups : Type 0
  pub create_backup : Backups → State → Option Backups
  pub restore_latest : Backups → Option State

-- A batch writes its entries in order, so the last one for a key counts.
abbrev pub overlay : List (Text × Text) → Text → Lookup → Lookup
overlay [] key old = old
overlay ((k, v) ∷ batch) key old = overlay batch key (if same_text k key then found v else old)

pub record IsKvStore (S : KvStore) : Type 0 where
  pub get-put :
      (s t : S.State) (k v key : Text)
      → S.put s k v ≡ written t
      → S.get t key ≡ (if same_text k key then found v else S.get s key)
  pub get-write :
      (s t : S.State) (batch : List (Text × Text)) (key : Text)
      → S.write s batch ≡ written t
      → S.get t key ≡ overlay batch key (S.get s key)
  pub get-open_db : (s t : S.State) (key : Text) → S.open_db s ≡ some t → S.get t key ≡ S.get s key
  pub restore-create :
      (b b' : S.Backups) (s t : S.State) (key : Text)
      → S.create_backup b s ≡ some b'
      → S.restore_latest b' ≡ some t
      → S.get t key ≡ S.get s key

-- A store whose disk answers: no read fails and no write does.
pub record IsReliable (S : KvStore) : Type 0 where
  pub get_answers : (s : S.State) (key status : Text) → S.get s key ≢ get_failed status
  pub put_writes : (s : S.State) (k v : Text) → (t : S.State) × (S.put s k v ≡ written t)
  pub write_writes :
      (s : S.State) (batch : List (Text × Text)) → (t : S.State) × (S.write s batch ≡ written t)
