-- ===== src/Reply.antt =====
-- The `Response` of src/common/service.proto, and how the handlers of src/node/namenode.cpp and
-- src/node/datanode.cpp turn what they catch into one.
use spkdfs.Prelude.{◌≡◌, ◌≢◌, subst, [], Bool, true, false, Option, none, some}
use spkdfs.Exn.{
  Exception, ErrorMessage, common_exception, message_exception, runtime_error, Result, ok, throw,
  abort,
}

pub record Response : Type 0 where
  pub success : Bool
  pub fail_info : Option ErrorMessage

abbrev pub succ_response : Response
succ_response = record { success = true; fail_info = none }

-- A `MessageException` keeps its code; any other exception is reported as `COMMON_EXCEPTION`.
unfoldable pub error_message : Exception → ErrorMessage
error_message (message_exception e) = e
error_message (runtime_error what) = record { code = common_exception; message = what }

unfoldable pub fail_response : Exception → Response
unfolding error_message
fail_response e = record { success = false; fail_info = some (error_message e) }

-- What a handler does with a call: it replies at once, hands a value on, or the process ends.
pub data Outcome (A : Type 0) : Type 0 where
  replied : Response → Outcome A
  done : A → Outcome A
  crashed : Outcome A

-- `try { … } catch (const MessageException& e) { … } catch (const std::exception& e) { … }`
unfoldable pub try_catch : {A : Type 0} → Result A → Outcome A
try_catch (ok a) = done a
try_catch (throw e) = replied (fail_response e)
try_catch abort = crashed

-- `check_response` of src/client/sdk.cpp, for a call that brpc did not fail. A message that is not
-- set reads as the default one.
pub check_answer : Bool → Option ErrorMessage → Result (Unit {0})
check_answer true fail_info = ok tt
check_answer false (some e) = throw (message_exception e)
check_answer false none =
    throw (message_exception (record { code = common_exception; message = [] }))

unfoldable pub check_response : Response → Result (Unit {0})
unfolding check_answer
check_response r = check_answer r.success r.fail_info

pub try_catch-eq-done : {A : Type 0} (r : Result A) {a : A} → try_catch r ≡ done a → r ≡ ok a
unfolding try_catch
try_catch-eq-done (ok x) e = cc
try_catch-eq-done (throw x) e = cc
try_catch-eq-done abort e = cc

replied_injective :
    {A : Type 0} {a b : Response} → ◌≡◌ {A = Outcome A} (replied a) (replied b) → a ≡ b
replied_injective p = cc

-- A handler replies at once only with a failure, which the client throws.
pub try_catch-eq-replied :
    {A : Type 0} (r : Result A) {response : Response} {u : Unit {0}}
    → try_catch r ≡ replied response
    → check_response response ≢ ok u
unfolding try_catch check_response fail_response
try_catch-eq-replied (ok x) e = absurd (cc)
try_catch-eq-replied (throw x) {response} {u} e =
    subst (λ (t : Response). check_response t ≢ ok u) (replied_injective e) (λ f. cc)
try_catch-eq-replied abort e = absurd (cc)
