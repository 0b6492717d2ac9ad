-- ===== src/Tests/JsonText.antt =====
-- A form of JSON: a value is its text. In an object and in an array, a text stands with its bytes
-- one higher and ends with a zero.
use spkdfs.Prelude.{
  ℕ, zero, suc, ◌<◌, ◌^◌, ◌≡◌, refl, sym, ap, subst, ◌∙◌, Bool, true, false, Bool-cases, inl, inr,
  Option, none, some, some_injective, List, [], ◌∷◌, ltb, leb, arith, if◌then◌else◌, ◌==◌,
}
use spkdfs.Prelude.Int.{ℤ, pos, negsuc, IsInt, int_max}
use spkdfs.Exn.{Text}
use spkdfs.Text.{same_text}
use spkdfs.Json.{JsonLib, IsJson, field}

unfoldable pub chunk : Text → Text → Text
chunk [] s = 0 ∷ s
chunk (c ∷ t) s = suc c ∷ chunk t s

unfoldable pub object_text : List (Text × Text) → Text
unfolding chunk
object_text [] = []
object_text ((key, value) ∷ fields) = chunk key (chunk value (object_text fields))

unfoldable pub collect : Text → Text
collect [] = []
collect (zero ∷ s) = []
collect (suc c ∷ s) = c ∷ collect s

abbrev advance : Option Text → ℕ → Option Text
advance none c = none
advance (some []) c = none
advance (some (d ∷ t)) c = if c == d then some t else none

unfoldable mutual
  pub look : Text → Option Text → Text → Option Text
  look name left [] = none
  look name none (zero ∷ s) = skip name s
  look name (some []) (zero ∷ s) = some (collect s)
  look name (some (d ∷ t)) (zero ∷ s) = skip name s
  look name left (suc c ∷ s) = look name (advance left c) s

  pub skip : Text → Text → Option Text
  skip name [] = none
  skip name (zero ∷ s) = look name (some name) s
  skip name (suc c ∷ s) = skip name s

unfoldable pub array_text : List Text → Text
unfolding chunk
array_text [] = []
array_text (t ∷ ts) = chunk t (array_text ts)

abbrev push : ℕ → List Text → List Text
push c [] = (c ∷ []) ∷ []
push c (t ∷ ts) = (c ∷ t) ∷ ts

unfoldable pub items : Text → List Text
items [] = []
items (zero ∷ s) = [] ∷ items s
items (suc c ∷ s) = push c (items s)

abbrev uint_of_text : Text → Option ℕ
uint_of_text [] = none
uint_of_text (n ∷ s) = if ltb n (2 ^ 64) then some n else none

abbrev text_of_int : ℤ → Text
text_of_int (pos n) = 0 ∷ n ∷ []
text_of_int (negsuc n) = 1 ∷ n ∷ []

abbrev int_of_text : Text → Option ℤ
int_of_text (zero ∷ n ∷ s) = if leb n int_max then some (pos n) else none
int_of_text (suc c ∷ n ∷ s) = if leb n int_max then some (negsuc n) else none
int_of_text _ = none

abbrev bool_of_text : Text → Option Bool
bool_of_text (zero ∷ s) = some false
bool_of_text (suc c ∷ s) = some true
bool_of_text [] = none

abbrev text_of_bool : Bool → Text
text_of_bool true = 1 ∷ []
text_of_bool false = 0 ∷ []

abbrev pub json_text : JsonLib
json_text = record {
  Json = Text;
  object = object_text;
  of_text = λ t. t;
  of_bool = text_of_bool;
  of_uint = λ n. n ∷ [];
  of_int = text_of_int;
  of_texts = array_text;
  array = array_text;
  dump = some;
  parse = some;
  at_key = λ j name. look name (some name) j;
  to_text = some;
  to_bool = bool_of_text;
  to_uint = uint_of_text;
  to_int = int_of_text;
  to_texts = λ j. some (items j);
  to_array = λ j. some (items j);
}

collect-chunk : (t s : Text) → collect (chunk t s) ≡ t
unfolding collect chunk
collect-chunk [] s = refl
collect-chunk (c ∷ t) s = ap (λ l. c ∷ l) (collect-chunk t s)

skip-chunk : (name t s : Text) → skip name (chunk t s) ≡ look name (some name) s
unfolding skip look chunk
skip-chunk name [] s = refl
skip-chunk name (c ∷ t) s = skip-chunk name t s

look_lost : (name t s : Text) → look name none (chunk t s) ≡ skip name s
unfolding look skip chunk
look_lost name [] s = refl
look_lost name (c ∷ t) s = look_lost name t s

look-chunk :
    (name left t s : Text)
    → look name (some left) (chunk t s)
      ≡ (if same_text t left then some (collect s) else skip name s)
unfolding look skip chunk same_text
look-chunk name [] [] s = refl
look-chunk name (d ∷ left) [] s = refl
look-chunk name [] (c ∷ t) s = look_lost name t s
look-chunk name (d ∷ left) (c ∷ t) s = elim (Bool-cases (c == d)) [
  | inl e ↦ rw e (look-chunk name left t s)
  | inr e ↦ rw e (look_lost name t s)
]

look-object_text :
    (fields : List (Text × Text)) (name : Text)
    → look name (some name) (object_text fields) ≡ field fields name
unfolding object_text field
look-object_text [] name = unfold look in refl
look-object_text ((key, value) ∷ fields) name =
    look-chunk name name key (chunk value (object_text fields))
    ∙ rw
        (
          collect-chunk value (object_text fields),
          skip-chunk name value (object_text fields),
          look-object_text fields name,
        )
        refl

items-chunk : (t s : Text) → items (chunk t s) ≡ t ∷ items s
unfolding items chunk
items-chunk [] s = refl
items-chunk (c ∷ t) s = ap (push c) (items-chunk t s)

items-array_text : (ts : List Text) → items (array_text ts) ≡ ts
unfolding array_text
items-array_text [] = unfold items in refl
items-array_text (t ∷ ts) = items-chunk t (array_text ts) ∙ ap (λ l. t ∷ l) (items-array_text ts)

uint_bound : (j : Text) {n : ℕ} → uint_of_text j ≡ some n → n < 2 ^ 64
uint_bound [] e = absurd (cc)
uint_bound (m ∷ s) {n} e = ground arith

int_round : (z : ℤ) → IsInt z → int_of_text (text_of_int z) ≡ some z
int_round (pos n) h = ground arith
int_round (negsuc n) h = ground arith

int_of_text-IsInt : (j : Text) {z : ℤ} → int_of_text j ≡ some z → IsInt z
int_of_text-IsInt [] e = absurd (cc)
int_of_text-IsInt (zero ∷ []) e = absurd (cc)
int_of_text-IsInt (suc c ∷ []) e = absurd (cc)
int_of_text-IsInt (zero ∷ n ∷ s) e = elim (Bool-cases (leb n int_max)) [
  | inl h ↦ subst IsInt (some_injective (rw h at e)) (ground arith)
  | inr h ↦ absurd (cc (rw h at e))
]
int_of_text-IsInt (suc c ∷ n ∷ s) e = elim (Bool-cases (leb n int_max)) [
  | inl h ↦ subst IsInt (some_injective (rw h at e)) (ground arith)
  | inr h ↦ absurd (cc (rw h at e))
]

bool_round : (b : Bool) → bool_of_text (text_of_bool b) ≡ some b
bool_round true = refl
bool_round false = refl

pub json_text-IsJson : IsJson json_text
json_text-IsJson = record {
  parse-dump = λ j t e. sym e;
  at_key-object = look-object_text;
  to_text-of_text = λ t. refl;
  to_bool-of_bool = bool_round;
  to_uint-of_uint = λ n h. ground arith;
  to_int-of_int = int_round;
  to_uint_bound = uint_bound;
  to_int_bound = int_of_text-IsInt;
  to_texts-of_texts = λ ts. ap some (items-array_text ts);
  to_array-array = λ js. ap some (items-array_text js);
}
