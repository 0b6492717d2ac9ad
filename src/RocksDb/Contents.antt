-- ===== src/RocksDb/Contents.antt =====
-- The inodes that a store holds, by path, whatever their representation; and the stores in which
-- every entry is an inode under its own path.
use spkdfs.Prelude.{
  ◌≡◌, sym, subst, ◌∙◌, true, Option, none, some, [], ◌∷◌, arith, Bool-cases, inl, inr,
  if◌then◌else◌,
}
use spkdfs.Exn.{Text, Result, ok, throw, abort}
use spkdfs.Text.{same_text, eq_of_same_text}
use spkdfs.Json.{JsonLib, IsJson}
use spkdfs.KvStore.{KvStore, IsKvStore, Lookup, found, not_found, get_failed, written}
use spkdfs.Inode.{Inode, inode_value, parse_inode}
use spkdfs.Inode.RoundTrip.{IsStorable, parse_inode-inode_value}
use spkdfs.RocksDb.{RocksDb}

abbrev pub to_option : Result Inode → Option Inode
to_option (ok i) = some i
to_option (throw e) = none
to_option abort = none

module _ (J : JsonLib) where
  unfoldable pub inode_of : Lookup → Option Inode
  inode_of (found value) = to_option (parse_inode J value)
  inode_of not_found = none
  inode_of (get_failed status) = none

  -- Every entry is the text of an inode that has the entry's key for its path.
  abbrev pub IsConsistent : (S : KvStore) → S.State → Type 0
  IsConsistent S s =
      (key value : Text)
      → S.get s key ≡ found value
      → (i : Inode) × (parse_inode J value ≡ ok i) × (i.fullpath ≡ key)

module _ (S : KvStore) (J : JsonLib) where
  unfoldable pub inode_at : S.State → Text → Option Inode
  unfolding inode_of
  inode_at s key = inode_of J (S.get s key)

module _ (S : KvStore) (J : JsonLib) (kv : IsKvStore S) (law : IsJson J) where
  -- What two inodes written in one batch leave at each path.
  pub inode_at-write :
      (s t : S.State) (a b : Inode) (va vb key : Text)
      → IsStorable a
      → IsStorable b
      → inode_value J a ≡ ok va
      → inode_value J b ≡ ok vb
      → S.write s ((a.fullpath, va) ∷ (b.fullpath, vb) ∷ []) ≡ written t
      → inode_at S J t key ≡ (
          if same_text b.fullpath key
          then some b
          else if same_text a.fullpath key
          then some a
          else inode_at S J s key)
  unfolding inode_at
  inode_at-write s t a b va vb key ha hb ea eb w = rw (kv.get-write s t _ key w) (
      ground
        (arith, parse_inode-inode_value J law a va ha ea, parse_inode-inode_value J law b vb hb eb))

  pub inode_at-put :
      (s t : S.State) (a : Inode) (va key : Text)
      → IsStorable a
      → inode_value J a ≡ ok va
      → S.put s a.fullpath va ≡ written t
      → inode_at S J t key ≡ (if same_text a.fullpath key then some a else inode_at S J s key)
  unfolding inode_at
  inode_at-put s t a va key ha ea w =
      rw (kv.get-put s t a.fullpath va key w)
        (ground (arith, parse_inode-inode_value J law a va ha ea))

  Consistent_entry :
      (a : Inode) (va key value : Text)
      → IsStorable a
      → inode_value J a ≡ ok va
      → same_text a.fullpath key ≡ true
      → found va ≡ found value
      → (i : Inode) × (parse_inode J value ≡ ok i) × (i.fullpath ≡ key)
  Consistent_entry a va key value ha ea same e = (
    a,
    subst (λ v. parse_inode J v ≡ ok a) (found_injective e)
        (parse_inode-inode_value J law a va ha ea),
    eq_of_same_text a.fullpath key same,
  )
    where
      found_injective : {x y : Text} → found x ≡ found y → x ≡ y
      found_injective p = cc

  pub write-IsConsistent :
      (s t : S.State) (a b : Inode) (va vb : Text)
      → IsStorable a
      → IsStorable b
      → inode_value J a ≡ ok va
      → inode_value J b ≡ ok vb
      → S.write s ((a.fullpath, va) ∷ (b.fullpath, vb) ∷ []) ≡ written t
      → IsConsistent J S s
      → IsConsistent J S t
  write-IsConsistent s t a b va vb ha hb ea eb w c key value e =
      let e' = sym (kv.get-write s t ((a.fullpath, va) ∷ (b.fullpath, vb) ∷ []) key w) ∙ e in
      elim (Bool-cases (same_text b.fullpath key)) [
        | inl q ↦ Consistent_entry b vb key value hb eb q (rw q at e')
        | inr q ↦ elim (Bool-cases (same_text a.fullpath key)) [
          | inl p ↦ Consistent_entry a va key value ha ea p (rw (q, p) at e')
          | inr p ↦ c key value (rw (q, p) at e')
        ]
      ]

  pub put-IsConsistent :
      (s t : S.State) (a : Inode) (va : Text)
      → IsStorable a
      → inode_value J a ≡ ok va
      → S.put s a.fullpath va ≡ written t
      → IsConsistent J S s
      → IsConsistent J S t
  put-IsConsistent s t a va ha ea w c key value e =
      let e' = sym (kv.get-put s t a.fullpath va key w) ∙ e in
      elim (Bool-cases (same_text a.fullpath key)) [
        | inl p ↦ Consistent_entry a va key value ha ea p (rw p at e')
        | inr p ↦ c key value (rw p at e')
      ]

-- A database that is open on a consistent store.
pub record IsOpen (S : KvStore) (J : JsonLib) (db : RocksDb S) : Type 0 where
  pub state : S.State
  pub opened : db.db_ptr ≡ some state
  pub consistent : IsConsistent J S state
