-- ===== src/Json.antt =====
-- nlohmann::json, which the sources only call: its values, its reader and its writer as a
-- parameter, with what the sources rely on.
use spkdfs.Prelude.{ℕ, ◌<◌, ◌^◌, ◌≡◌, Bool, Option, none, some, List, [], ◌∷◌, if◌then◌else◌}
use spkdfs.Prelude.Int.{ℤ, IsInt}
use spkdfs.Exn.{Text, Result, ok, throw, runtime_error}
use spkdfs.Text.{same_text, codes}

-- The first field of that name.
unfoldable pub field : {A : Type 0} → List (Text × A) → Text → Option A
field [] name = none
field ((key, value) ∷ fields) name =
    let rest = field fields name in if same_text key name then some value else rest

pub record JsonLib : Type 1 where
  pub Json : Type 0
  pub object : List (Text × Json) → Json
  pub of_text : Text → Json
  pub of_bool : Bool → Json
  pub of_uint : ℕ → Json
  pub of_int : ℤ → Json
  pub of_texts : List Text → Json
  pub array : List Json → Json
  -- `dump` throws on text that is not UTF-8
  pub dump : Json → Option Text
  pub parse : Text → Option Json
  -- `find`, `at` and the `get`s; the ones that throw return `none`
  pub at_key : Json → Text → Option Json
  pub to_text : Json → Option Text
  pub to_bool : Json → Option Bool
  pub to_uint : Json → Option ℕ
  pub to_int : Json → Option ℤ
  pub to_texts : Json → Option (List Text)
  pub to_array : Json → Option (List Json)

-- What the library's manual says of them: reading gives back what was written.
pub record IsJson (J : JsonLib) : Type 0 where
  pub parse-dump : (j : J.Json) (t : Text) → J.dump j ≡ some t → J.parse t ≡ some j
  pub at_key-object :
      (fields : List (Text × J.Json)) (name : Text)
      → J.at_key (J.object fields) name ≡ field fields name
  pub to_text-of_text : (t : Text) → J.to_text (J.of_text t) ≡ some t
  pub to_bool-of_bool : (b : Bool) → J.to_bool (J.of_bool b) ≡ some b
  pub to_uint-of_uint : (n : ℕ) → n < 2 ^ 64 → J.to_uint (J.of_uint n) ≡ some n
  pub to_int-of_int : (z : ℤ) → IsInt z → J.to_int (J.of_int z) ≡ some z
  pub to_uint_bound : (j : J.Json) {n : ℕ} → J.to_uint j ≡ some n → n < 2 ^ 64
  pub to_int_bound : (j : J.Json) {z : ℤ} → J.to_int j ≡ some z → IsInt z
  pub to_texts-of_texts : (ts : List Text) → J.to_texts (J.of_texts ts) ≡ some ts
  pub to_array-array : (js : List J.Json) → J.to_array (J.array js) ≡ some js

-- A conversion that throws a `json::exception`.
unfoldable pub or_json_error {ℓ} : {A : Type ℓ} → Option A → Result A
or_json_error none = throw (runtime_error (codes "json"))
or_json_error (some a) = ok a

pub or_json_error-eq-ok {ℓ} :
    {A : Type ℓ} (o : Option A) {a : A} → or_json_error o ≡ ok a → o ≡ some a
unfolding or_json_error
or_json_error-eq-ok none e = cc
or_json_error-eq-ok (some b) e = cc
