-- ===== src/Inode/RoundTrip.antt =====
-- An inode is read back from its JSON text, and what is read can be stored.
use spkdfs.Prelude.{ℕ, ◌<◌, ◌^◌, ◌≡◌, sym, ap, subst, ◌∙◌, ◌++◌, List, Option, none, some}
use spkdfs.Exn.{Text, ok, ◌>>=◌, >>=-eq-ok, ok_injective}
use spkdfs.Text.{same_text}
use spkdfs.FsPath.{simplify_path}
use spkdfs.FsPath.Simplify.{simplify_path_idem}
use spkdfs.Json.{JsonLib, IsJson, field, or_json_error, or_json_error-eq-ok}
use spkdfs.Storage.{StorageType}
use spkdfs.Storage.JsonForm.{
  storage_to_json, storage_from_json, FitsInt, storage_from_json-storage_to_json,
  storage_from_json-FitsInt,
}
use spkdfs.Inode.{
  Inode, inode_to_json, inode_from_json, inode_value, parse_inode, storage_of_field, storage_field,
  get_at, inode_fields, key_fullpath, key_is_directory, key_filesize, key_sub, key_valid,
  key_ddl_lock, key_storage_type,
}

abbrev pub StorageFits : Option StorageType → Type 0
StorageFits none = Unit
StorageFits (some st) = FitsInt st

-- The path is simplified, and the numbers fit their types.
pub record IsStorable (i : Inode) : Type 0 where
  pub simple : simplify_path i.fullpath ≡ i.fullpath
  pub size_fits : i.filesize < 2 ^ 64
  pub lock_fits : i.ddl_lock < 2 ^ 64
  pub storage_fits : StorageFits i.storage_type_ptr

module _ (J : JsonLib) (law : IsJson J) where
  from_fields :
      (i : Inode)
      → IsStorable i
      → (more : List (Text × J.Json))
      → storage_of_field J (field more key_storage_type) ≡ ok i.storage_type_ptr
      → inode_from_json J (J.object (inode_fields J i ++ more)) ≡ ok i
  unfolding inode_from_json or_json_error field same_text key_fullpath key_is_directory key_filesize
      key_sub key_valid key_ddl_lock key_storage_type inode_fields
  from_fields i h more e = simp (
    law.at_key-object,
    law.to_text-of_text,
    law.to_bool-of_bool,
    law.to_uint-of_uint i.filesize h.size_fits,
    law.to_uint-of_uint i.ddl_lock h.lock_fits,
    law.to_texts-of_texts,
    e,
    h.simple,
  )

  storage_field-round :
      (st : Option StorageType) (more : List (Text × J.Json))
      → StorageFits st
      → storage_field J st ≡ ok more
      → storage_of_field J (field more key_storage_type) ≡ ok st
  unfolding storage_field storage_of_field field same_text key_storage_type or_json_error
  storage_field-round none more f e = rw (← ok_injective e)
  storage_field-round (some st) more f e =
      let (text, d, r) = >>=-eq-ok (or_json_error (J.dump (storage_to_json J st))) _ e in
      let p = law.parse-dump (storage_to_json J st) text (or_json_error-eq-ok _ d) in
      rw (← ok_injective r)
        (simp law.to_text-of_text (rw p (rw (storage_from_json-storage_to_json J law st f))))

  -- What is dumped for an inode whose path is simplified and whose numbers fit their types is
  -- parsed to the same inode.
  pub parse_inode-inode_value :
      (i : Inode) (value : Text)
      → IsStorable i
      → inode_value J i ≡ ok value
      → parse_inode J value ≡ ok i
  unfolding parse_inode inode_value inode_to_json
  parse_inode-inode_value i value h e =
      let (j, ej, ed) = >>=-eq-ok (inode_to_json J i) (λ j. or_json_error (J.dump j)) e in
      let (more, em, eo) =
        >>=-eq-ok (storage_field J i.storage_type_ptr)
          (λ more. ok (J.object (inode_fields J i ++ more))) ej in
      let p = law.parse-dump j value (or_json_error-eq-ok _ ed) in
      let r =
        from_fields i h more (storage_field-round i.storage_type_ptr more h.storage_fits em) in
      rw p (
        ap (λ o. or_json_error o >>= inode_from_json J) (ap some (sym (ok_injective eo)))
        ∙ unfold or_json_error in r)

  uint_fits : (j : J.Json) (name : Text) {n : ℕ} → get_at J J.to_uint j name ≡ ok n → n < 2 ^ 64
  unfolding get_at
  uint_fits j name e =
      let (v, _, r) = >>=-eq-ok (or_json_error (J.at_key j name)) _ e in
      law.to_uint_bound v (or_json_error-eq-ok _ r)

  storage_of_field-StorageFits :
      (o : Option J.Json) {st : Option StorageType} → storage_of_field J o ≡ ok st → StorageFits st
  unfolding storage_of_field
  storage_of_field-StorageFits none e = subst StorageFits (ok_injective e) tt
  storage_of_field-StorageFits (some v) e =
      let (text, _, r) = >>=-eq-ok (or_json_error (J.to_text v)) _ e in
      let (j, _, r2) = >>=-eq-ok (or_json_error (J.parse text)) _ r in
      let (st, f, r3) = >>=-eq-ok (storage_from_json J j) _ r2 in
      subst StorageFits (ok_injective r3) (storage_from_json-FitsInt J law j f)

  inode_from_json-IsStorable : (j : J.Json) {i : Inode} → inode_from_json J j ≡ ok i → IsStorable i
  unfolding inode_from_json
  inode_from_json-IsStorable j e =
      let (fullpath, _, e1) = >>=-eq-ok (get_at J J.to_text j key_fullpath) _ e in
      let (is_directory, _, e2) = >>=-eq-ok (get_at J J.to_bool j key_is_directory) _ e1 in
      let (filesize, size_read, e3) = >>=-eq-ok (get_at J J.to_uint j key_filesize) _ e2 in
      let (storage, storage_read, e4) =
        >>=-eq-ok (storage_of_field J (J.at_key j key_storage_type)) _ e3 in
      let (sub, _, e5) = >>=-eq-ok (get_at J J.to_texts j key_sub) _ e4 in
      let (valid, _, e6) = >>=-eq-ok (get_at J J.to_bool j key_valid) _ e5 in
      let (ddl_lock, lock_read, e7) = >>=-eq-ok (get_at J J.to_uint j key_ddl_lock) _ e6 in
      subst IsStorable (ok_injective e7) (record {
        simple = simplify_path_idem fullpath;
        size_fits = uint_fits j key_filesize size_read;
        lock_fits = uint_fits j key_ddl_lock lock_read;
        storage_fits = storage_of_field-StorageFits (J.at_key j key_storage_type) storage_read;
      })

  -- Whatever the text, an inode that is parsed from it has a simplified path and numbers that fit.
  pub parse_inode-IsStorable :
      (value : Text) {i : Inode} → parse_inode J value ≡ ok i → IsStorable i
  unfolding parse_inode
  parse_inode-IsStorable value e =
      let (j, _, r) = >>=-eq-ok (or_json_error (J.parse value)) _ e in
      inode_from_json-IsStorable j r
