-- ===== src/Handlers.antt =====
-- app/decorators/handlers.py, and UseHandler of app/definition/_ressource.py: what becomes of an
-- exception on its way out of a route. A handler is the table of its except clauses.
mod Requests
mod Records
mod Stores
mod Work
mod Catalog
mod Laws
mod Stack
mod Tests
use notifyr.Base.{
  ℕ, String, Bool, true, false, if◌then◌else◌, Option, none, some, List, [], ◌∷◌, ◌++◌, arith,
  contains, str_eq, leb, ltb, ◌&&◌, ◌==◌,
}

-- An exception, with what a handler reads of it.
pub record Raised : Type 0 where
  -- the names of its class and of the classes that it inherits from
  pub mro : List String
  pub args : List String
  -- `str(e)`, or the attribute that a handler passes on as the whole detail
  pub text : String
  -- the attribute `status`, or `status_code` of an HTTPException
  pub status : Option ℕ
  -- `e.args[1]`, if there is one, as the number that GatewayHandler takes for a status
  pub second : Option ℕ
  -- `e.code`, which only S3Handler reads
  pub code : String
  -- the Boolean attribute that the clause tests: motor_fallback, reversed_ or exists
  pub flag : Bool

-- What a call returns or raises.
pub data Outcome {ℓ} (A : Type ℓ) : Type ℓ where
  returned : A → Outcome A
  -- `return` without a value
  returned_none : Outcome A
  raised : Raised → Outcome A

-- An exception of the given classes with nothing but a text.
abbrev pub plain_error : List String → String → Raised
plain_error classes text = record {
  mro = classes;
  args = [];
  text = text;
  status = none;
  second = none;
  code = "";
  flag = false;
}

abbrev pub http_exception : ℕ → String → Raised
http_exception status detail =
    record (plain_error ("HTTPException" ∷ "Exception" ∷ "BaseException" ∷ []) detail) {
      status = some status;
    }

abbrev pub type_error : Raised
type_error = plain_error ("TypeError" ∷ "Exception" ∷ "BaseException" ∷ []) ""

abbrev pub index_error : Raised
index_error = plain_error ("IndexError" ∷ "LookupError" ∷ "Exception" ∷ "BaseException" ∷ []) ""

abbrev pub document_missing : Raised
document_missing =
    plain_error ("DocumentDoesNotExistsError" ∷ "BaseError" ∷ "Exception" ∷ "BaseException" ∷ []) ""

-- The body of an except clause. A text is the fixed part of the message.
pub data Action : Type 0 where
  -- raise HTTPException(status, message)
  answer : ℕ → String → Action
  -- the same, with one message where `flag` is set and another where it is not
  answer_either : ℕ → String → String → Action
  -- the same, with the text of the exception as the detail
  echo : ℕ → Action
  -- the same with `e.args[0]` beside the message, or as the whole detail
  first_arg : ℕ → String → Action
  echo_arg : ℕ → Action
  -- with `e.args[0]`, or the message where there are no arguments
  echo_arg_or : ℕ → String → Action
  -- with the status `getattr(e, 'status', default)`
  own_status : ℕ → String → Action
  -- with `e.args[1]` as the status
  second_arg : String → Action
  -- with the status that error_codes_to_http_codes has for `e.code`
  by_code : ℕ → String → Action
  -- raise DocumentDoesNotExistsError where motor_fallback is set
  document_or : ℕ → Action
  -- HTTPException(..., details=...), a parameter that it does not have
  bad_call : Action
  -- `...`, behind which the handler ends
  swallow : Action

module _ {ℓ} {A : Type ℓ} where
  unfoldable pub act : Action → Raised → Outcome A
  act (answer status message) e = raised (http_exception status message)
  act (answer_either status on off) e = raised (http_exception status (if e.flag then on else off))
  act (echo status) e = raised (http_exception status e.text)
  act (first_arg status message) e = elim e.args [
    | [] ↦ raised index_error
    | _ ∷ _ ↦ raised (http_exception status message)
  ]
  act (echo_arg status) e = elim e.args [
    | [] ↦ raised index_error
    | a ∷ _ ↦ raised (http_exception status a)
  ]
  act (echo_arg_or status message) e = elim e.args [
    | [] ↦ raised (http_exception status message)
    | a ∷ _ ↦ raised (http_exception status a)
  ]
  act (own_status default message) e = elim e.status [
    | none ↦ raised (http_exception default message)
    | some status ↦ raised (http_exception status message)
  ]
  act (second_arg message) e = elim e.second [
    | none ↦ raised index_error
    | some status ↦ raised (http_exception status message)
  ]
  act (by_code default message) e =
      raised (http_exception (if str_eq e.code "NoSuchKey" then 404 else default) message)
  act (document_or status) e =
      if e.flag then raised document_missing else raised (http_exception status "")
  act bad_call e = raised type_error
  act swallow e = returned_none

-- An except clause: the name of the class, and the body.
abbrev pub Row : Type 0
Row = String × Action

module _ {ℓ} {A : Type ℓ} where
  -- The clauses are tried in order, and the first whose class the exception has answers.
  unfoldable pub treat : List Row → Raised → Outcome A
  treat [] e = raised e
  treat ((class_name, action) ∷ rows) e =
      if contains class_name e.mro then act action e else treat rows e

  -- Handler.handle: `return await function(...)` inside of `try`.
  unfoldable pub handle : List Row → Outcome A → Outcome A
  handle rows (returned a) = returned a
  handle rows returned_none = returned_none
  handle rows (raised e) = treat rows e

  -- The chain of UseHandler(h1, h2, ...): each handler stands around the ones behind it.
  unfoldable pub use_handlers : List (List Row) → Outcome A → Outcome A
  use_handlers [] o = o
  use_handlers (rows ∷ handlers) o = handle rows (use_handlers handlers o)

module _ {ℓ} {A : Type ℓ} (response : Raised → Option A) (default_error : Option (ℕ × String)) where
  -- What stack_decorator makes of a HandlerDefaultException: its `response`, if that is a Response, else
  -- the HTTPException of its `status_code`, else that of `default_error`, else a 500.
  unfoldable pub default_answer : Raised → Outcome A
  default_answer e = elim (response e) [
    | some a ↦ returned a
    | none ↦ elim e.status [
      | some status ↦ raised (http_exception status e.text)
      | none ↦ elim default_error [
        | some (status, detail) ↦ raised (http_exception status detail)
        | none ↦ raised (http_exception 500 "Could not correctly treat the error")
      ]
    ]
  ]

  unfoldable pub except_default : Outcome A → Outcome A
  unfolding default_answer
  except_default (returned a) = returned a
  except_default returned_none = returned_none
  except_default (raised e) =
      if contains "HandlerDefaultException" e.mro then default_answer e else raised e

  -- The callback of UseHandler, which calls the function itself where no handler is given.
  unfoldable pub stack_handlers : List (List Row) → Outcome A → Outcome A
  unfolding except_default use_handlers
  stack_handlers [] o = o
  stack_handlers (rows ∷ handlers) o = except_default (use_handlers (rows ∷ handlers) o)

-- The page of an error, and handle_http_exception, which shows it.
unfoldable pub error_page : ℕ → String
error_page status =
    if status == 404
    then "app/static/error-404-page/index.html"
    else if leb 400 status && ltb status 500
    then "app/static/error-400-page/index.html"
    else "app/static/error-500-page/index.html"

module _ {ℓ} {A : Type ℓ} where
  unfoldable pub handle_http_exception : Outcome A → Outcome A
  handle_http_exception (raised e) =
      if contains "HTTPException" e.mro then show_page e.status else raised e
    where
      show_page : Option ℕ → Outcome A
      show_page none = raised e
      show_page (some status) =
          raised
            (record (plain_error
              ("ServerFileError" ∷ "BaseError" ∷ "Exception" ∷ "BaseException" ∷ [])
              (error_page status)) { status = some status })
  handle_http_exception o = o
