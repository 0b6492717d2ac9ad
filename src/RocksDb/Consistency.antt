-- ===== src/RocksDb/Consistency.antt =====
-- What the reads of a consistent store return: inodes that can be stored, under their own paths.
use spkdfs.Prelude.{
  ◌≡◌, refl, sym, ap, ◌∙◌, true, false, Bool, none, some, [], arith, Bool-cases, inl, inr,
}
use spkdfs.Exn.{Text, ok, ok_injective}
use spkdfs.Text.{same_text, eq_of_same_text}
use spkdfs.FsPath.{slash, simplify_path}
use spkdfs.Json.{JsonLib, IsJson}
use spkdfs.KvStore.{KvStore, Lookup, found, not_found, get_failed}
use spkdfs.Inode.{Inode, parse_inode, parent_path, get_default_dir, new_inode}
use spkdfs.Inode.RoundTrip.{IsStorable, parse_inode-IsStorable}
use spkdfs.RocksDb.{
  RocksDb, ready, or_not_ready, get_parent_inode, parent_of_lookup, get_inode, inode_of_lookup,
}
use spkdfs.RocksDb.Contents.{IsConsistent, inode_at, inode_of}
use spkdfs.RocksDb.Tree.{parent_in, entry_or_new}

get_default_dir-IsStorable : IsStorable (get_default_dir slash)
unfolding get_default_dir simplify_path
get_default_dir-IsStorable = record {
  simple = refl;
  size_fits = omega arith;
  lock_fits = omega arith;
  storage_fits = tt;
}

-- The inode that a read returns for `path`.
pub record IsRead (path : Text) (i : Inode) : Type 0 where
  pub storable : IsStorable i
  pub at_path : i.fullpath ≡ path

abbrev fresh : Text → Bool → Bool → Inode
fresh path is_directory valid = record {
  fullpath = path;
  is_directory = is_directory;
  filesize = 0;
  storage_type_ptr = none;
  sub = [];
  valid = valid;
  ddl_lock = 0;
}

fresh-IsRead :
    (path : Text) (is_directory valid : Bool)
    → simplify_path path ≡ path
    → IsRead path (fresh path is_directory valid)
fresh-IsRead path is_directory valid h = record {
  storable = record {
    simple = h;
    size_fits = omega arith;
    lock_fits = omega arith;
    storage_fits = tt;
  };
  at_path = refl;
}

pub ready_opened :
    (S : KvStore) (J : JsonLib) (db : RocksDb S) {s : S.State}
    → db.db_ptr ≡ some s
    → ready S J db ≡ ok s
unfolding ready or_not_ready
ready_opened S J db e = rw e

module _ (S : KvStore) (J : JsonLib) (law : IsJson J) where
  found-IsRead :
      (key value : Text) {i : Inode}
      → ((i : Inode) × (parse_inode J value ≡ ok i) × (i.fullpath ≡ key))
      → parse_inode J value ≡ ok i
      → IsRead key i
  found-IsRead key value {i} (a, pa, ka) p = record {
    storable = parse_inode-IsStorable J law value p;
    at_path = ap (λ (x : Inode). x.fullpath) (ok_injective (sym p ∙ pa)) ∙ ka;
  }

  module _ (s : S.State) (c : IsConsistent J S s) where
    pub get_parent_inode-eq-ok :
        (inode : Inode) {p : Inode}
        → get_parent_inode S J s inode ≡ ok p
        → IsRead (parent_path inode) p × (parent_in (inode_at S J s) inode ≡ some p)
    get_parent_inode-eq-ok inode {p} e =
        go (S.get s (parent_path inode)) refl (unfold get_parent_inode in e)
      where
        go :
            (l : Lookup)
            → S.get s (parent_path inode) ≡ l
            → parent_of_lookup S J (parent_path inode) l ≡ ok p
            → IsRead (parent_path inode) p × (parent_in (inode_at S J s) inode ≡ some p)
        go (found value) g h = (
          found-IsRead (parent_path inode) value (c (parent_path inode) value g)
              (unfold parent_of_lookup in h),
          unfold parent_in inode_at inode_of parent_of_lookup in rw (g, h),
        )
        go (get_failed status) g h = unfold parent_of_lookup in absurd (cc)
        go not_found g h = elim (Bool-cases (same_text (parent_path inode) slash)) [
          | inl q ↦
              let r : p ≡ get_default_dir slash = unfold parent_of_lookup in cc (rw q at h) in
              (
                rw r (record {
                  storable = get_default_dir-IsStorable;
                  at_path = unfold get_default_dir simplify_path in sym (eq_of_same_text _ _ q);
                }),
                unfold parent_in inode_at inode_of in rw (g, q, r),
              )
          | inr q ↦ absurd (unfold parent_of_lookup in cc (rw q at h))
        ]

    pub get_inode-eq-ok :
        (db : RocksDb S) (path : Text) {old : Inode}
        → db.db_ptr ≡ some s
        → simplify_path path ≡ path
        → get_inode S J db (new_inode path) ≡ ok old
        → IsRead path old × (entry_or_new path (inode_at S J s path) ≡ old)
    get_inode-eq-ok db path {old} opened simple e =
        go (S.get s path) refl
          (unfold get_inode ready new_inode or_not_ready in rw (opened, simple) at e)
      where
        go :
            (l : Lookup)
            → S.get s path ≡ l
            → inode_of_lookup S J (record (new_inode path) { fullpath = path }) l ≡ ok old
            → IsRead path old × (entry_or_new path (inode_at S J s path) ≡ old)
        go (found value) g h =
            unfold inode_of_lookup in
            (found-IsRead path value (c path value g) h, unfold inode_at inode_of in rw (g, h))
        go (get_failed status) g h = unfold inode_of_lookup in absurd (cc)
        go not_found g h = elim (Bool-cases (same_text path slash)) [
          | inl q ↦
              unfold inode_of_lookup new_inode inode_at inode_of in
              let r = ok_injective (rw q at h) in
              (rw (← r) (fresh-IsRead path true true simple), rw (g, q, simple) r)
          | inr q ↦
              unfold inode_of_lookup new_inode inode_at inode_of in
              let r = ok_injective (rw q at h) in
              (rw (← r) (fresh-IsRead path false false simple), rw (g, q, simple) r)
        ]
