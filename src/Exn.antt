-- ===== src/Exn.antt =====
-- Exceptions as values: `MessageException` of include/common/exception.h, the error codes of
-- src/common/service.proto, and what a handler's `catch` clauses tell apart.
use spkdfs.Prelude.{◌≡◌, refl, List, ℕ, Bool, true, false, Option, none, some}

-- Bytes of a `std::string`.
abbrev pub Text : Type 0
Text = List ℕ

pub data ErrorCode : Type 0 where
  common_exception path_exists_exception path_not_exists_exception : ErrorCode
  expected_file_exception expected_dir_exception expected_lock_conflict : ErrorCode
  redirect_to_master out_of_range_exception : ErrorCode

pub record ErrorMessage : Type 0 where
  pub code : ErrorCode
  pub message : Text

-- What the handlers tell apart: a `MessageException`, and any other `std::exception` with its text.
pub data Exception : Type 0 where
  message_exception : ErrorMessage → Exception
  runtime_error : Text → Exception

-- A call returns, throws, or ends the process at an `assert` that fails.
pub data Result {ℓ} (A : Type ℓ) : Type ℓ where
  ok : A → Result A
  throw : Exception → Result A
  abort : Result A

infixl 5 ◌>>=◌ ◌>>◌
-- What follows a call that returned; nothing follows one that threw or ended the process.
abbrev pub ◌>>=◌ {ℓ κ} :
    {A : Type ℓ} {B : Type κ} (call : Result A) (rest : A → Result B) → Result B
abort >>= rest = abort
throw exception >>= rest = throw exception
ok value >>= rest = rest value

abbrev pub ◌>>◌ {ℓ} : {B : Type ℓ} (call : Result (Unit {0})) (rest : Result B) → Result B
call >> rest = call >>= (λ done. rest)

-- `if (failed) throw e;`
abbrev pub throw_if : Bool → Exception → Result (Unit {0})
throw_if true e = throw e
throw_if false e = ok tt

-- `assert(b)`, in the debug build that CMakePresets.json and the Dockerfiles choose.
abbrev pub assert : Bool → Result (Unit {0})
assert true = ok tt
assert false = abort

-- A sequence returns only if its first call does.
pub >>=-eq-ok {ℓ κ} :
    {A : Type ℓ} {B : Type κ} (call : Result A) (rest : A → Result B) {result : B}
    → (call >>= rest) ≡ ok result
    → (value : A) × (call ≡ ok value) × (rest value ≡ ok result)
>>=-eq-ok abort rest returned = cc
>>=-eq-ok (throw exception) rest returned = cc
>>=-eq-ok (ok value) rest returned = (value, refl, returned)

pub ok_injective {ℓ} : {A : Type ℓ} {a b : A} → ok a ≡ ok b → a ≡ b
ok_injective p = cc

-- What is not there ends the process: an assertion fails, or the access is undefined.
abbrev pub or_end {ℓ} : {A : Type ℓ} → Option A → Result A
or_end none = abort
or_end (some a) = ok a

-- What a call that returned is changed to.
abbrev pub map_result {ℓ κ} : {A : Type ℓ} {B : Type κ} → (A → B) → Result A → Result B
map_result f (ok a) = ok (f a)
map_result f (throw e) = throw e
map_result f abort = abort

pub map_result->>= {ℓ κ μ} :
    {A : Type ℓ} {B : Type κ} {C : Type μ} (f : B → C) (call : Result A) (rest : A → Result B)
    → map_result f (call >>= rest) ≡ (call >>= λ value. map_result f (rest value))
map_result->>= f abort rest = refl
map_result->>= f (throw exception) rest = refl
map_result->>= f (ok value) rest = refl

-- Two sequences agree if their first calls do and, on every value that these return, the rests do.
pub >>=-agree {ℓ κ} :
    {A : Type ℓ} {B : Type κ} (call : Result A) {rest rest' : A → Result B}
    → ((value : A) → call ≡ ok value → rest value ≡ rest' value)
    → (call >>= rest) ≡ (call >>= rest')
>>=-agree abort h = refl
>>=-agree (throw exception) h = refl
>>=-agree (ok value) h = h value refl
