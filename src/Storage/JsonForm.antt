-- ===== src/Storage/JsonForm.antt =====
-- `to_json` and `from_json` of a storage type (src/common/inode.cpp).
use spkdfs.Prelude.{◌≡◌, subst, Bool-cases, inl, inr, [], ◌∷◌, if◌then◌else◌}
use spkdfs.Prelude.Int.{ℤ, IsInt}
use spkdfs.Exn.{Text, Result, ok, throw, runtime_error, ◌>>=◌, >>=-eq-ok, ok_injective}
use spkdfs.Text.{codes, same_text}
use spkdfs.Json.{JsonLib, IsJson, field, or_json_error, or_json_error-eq-ok}
use spkdfs.Storage.{StorageType, rs, re}

-- The names of the fields.
unfoldable pub key_type : Text
unfolding codes
key_type = codes "type"

unfoldable pub key_k : Text
unfolding codes
key_k = codes "k"

unfoldable pub key_m : Text
unfolding codes
key_m = codes "m"

unfoldable pub key_b : Text
unfolding codes
key_b = codes "b"

unfoldable pub key_replications : Text
unfolding codes
key_replications = codes "replications"

abbrev pub FitsInt : StorageType → Type 0
FitsInt (rs k m b) = IsInt k × IsInt m × IsInt b
FitsInt (re replications b) = IsInt replications × IsInt b

unfoldable pub rs_type : Text
unfolding codes
rs_type = codes "RS"

unfoldable pub re_type : Text
unfolding codes
re_type = codes "RE"

module _ (J : JsonLib) where
  unfoldable pub storage_to_json : StorageType → J.Json
  storage_to_json (rs k m b) = J.object (
      (key_type, J.of_text rs_type)
      ∷ (key_k, J.of_int k)
      ∷ (key_m, J.of_int m)
      ∷ (key_b, J.of_int b)
      ∷ [])
  storage_to_json (re replications b) = J.object (
      (key_type, J.of_text re_type)
      ∷ (key_replications, J.of_int replications)
      ∷ (key_b, J.of_int b)
      ∷ [])

  -- `j.at(name).get<int>()`
  int_at : J.Json → Text → Result ℤ
  int_at j name = do v ← or_json_error (J.at_key j name); or_json_error (J.to_int v)

  storage_of_type : J.Json → Text → Result StorageType
  unfolding int_at
  storage_of_type j type =
      if same_text type rs_type
      then (do k ← int_at j key_k; m ← int_at j key_m; b ← int_at j key_b; ok (rs k m b))
      else if same_text type re_type
      then (do replications ← int_at j key_replications; b ← int_at j key_b; ok (re replications b))
      else throw (runtime_error (codes "Unknown StorageType"))

  unfoldable pub storage_from_json : J.Json → Result StorageType
  unfolding storage_of_type
  storage_from_json j = do
    v ← or_json_error (J.at_key j key_type)
    type ← or_json_error (J.to_text v)
    storage_of_type j type

  pub storage_from_json-storage_to_json :
      IsJson J → (st : StorageType) → FitsInt st → storage_from_json (storage_to_json st) ≡ ok st
  unfolding storage_from_json storage_to_json or_json_error field same_text key_type key_k key_m
      key_b key_replications rs_type re_type
  storage_from_json-storage_to_json law (rs k m b) h = simp (
    law.at_key-object,
    law.to_text-of_text,
    law.to_int-of_int k h.0,
    law.to_int-of_int m h.1,
    law.to_int-of_int b h.2,
  )
  storage_from_json-storage_to_json law (re r b) h =
      simp
        (law.at_key-object, law.to_text-of_text, law.to_int-of_int r h.0, law.to_int-of_int b h.1)

  int_at-IsInt : IsJson J → (j : J.Json) (name : Text) {z : ℤ} → int_at j name ≡ ok z → IsInt z
  unfolding int_at
  int_at-IsInt law j name e =
      let (v, _, r) = >>=-eq-ok (or_json_error (J.at_key j name)) _ e in
      law.to_int_bound v (or_json_error-eq-ok _ r)

  storage_of_type-FitsInt :
      IsJson J
      → (j : J.Json) (type : Text) {st : StorageType} → storage_of_type j type ≡ ok st
      → FitsInt st
  unfolding storage_of_type
  storage_of_type-FitsInt law j type e = elim (Bool-cases (same_text type rs_type)) [
    | inl is_rs ↦
        let (k, ek, e1) = >>=-eq-ok (int_at j key_k) _ (rw is_rs at e) in
        let (m, em, e2) = >>=-eq-ok (int_at j key_m) _ e1 in
        let (b, eb, e3) = >>=-eq-ok (int_at j key_b) _ e2 in
        subst FitsInt (ok_injective e3)
          (int_at-IsInt law j key_k ek, int_at-IsInt law j key_m em, int_at-IsInt law j key_b eb)
    | inr not_rs ↦ elim (Bool-cases (same_text type re_type)) [
      | inl is_re ↦
          let (r, er, e1) = >>=-eq-ok (int_at j key_replications) _ (rw (not_rs, is_re) at e) in
          let (b, eb, e2) = >>=-eq-ok (int_at j key_b) _ e1 in
          subst FitsInt (ok_injective e2)
            (int_at-IsInt law j key_replications er, int_at-IsInt law j key_b eb)
      | inr not_re ↦ absurd (cc (rw (not_rs, not_re) at e))
    ]
  ]

  -- What is read as a storage type has parameters that are `int`s.
  pub storage_from_json-FitsInt :
      IsJson J → (j : J.Json) {st : StorageType} → storage_from_json j ≡ ok st → FitsInt st
  unfolding storage_from_json
  storage_from_json-FitsInt law j e =
      let (v, _, e1) = >>=-eq-ok (or_json_error (J.at_key j key_type)) _ e in
      let (type, _, e2) = >>=-eq-ok (or_json_error (J.to_text v)) _ e1 in
      storage_of_type-FitsInt law j type e2
