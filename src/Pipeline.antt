-- ===== src/Pipeline.antt =====
-- app/definition/_ressource.py and app/definition/_utils_decorator.py: the decorators of a route
-- register callbacks, which are stacked around its endpoint by their priority.
mod Answers
mod Locks
mod Order
mod Permit
mod Pipes
mod Rates
mod Roles
mod Tests
use notifyr.Base.{
  ℕ, String, ◌+◌, ◌*◌, Bool, true, false, if◌then◌else◌, Option, none, some, List, [], ◌∷◌, ◌++◌,
  leb, Dict, lookup, lookup_or, insert,
}
use notifyr.Failure.{Failure, http}

-- DecoratorPriority
pub data Priority : Type 0 where
  limiter permission handler pipe guard interceptor : Priority

-- The value of a priority, in quarters, as the touches that are added to it are quarters.
abbrev pub value : Priority → ℕ
value limiter = 0
value permission = 4
value handler = 8
value pipe = 12
value guard = 16
value interceptor = 20

-- PING_SERVICE_TOUCH, STATUS_LOCK_TOUCH, and the touch of Throttle and of the pipes behind a call
abbrev pub ping_touch : ℕ
ping_touch = 1

abbrev pub lock_touch : ℕ
lock_touch = 2

abbrev pub half_touch : ℕ
half_touch = 2

-- An entry of DECORATOR_METADATA: what makes a new endpoint of an endpoint, and its priority.
pub record Callback {ℓ} (E : Type ℓ) : Type ℓ where
  pub wrapper : E → E
  pub priority : ℕ

module _ {ℓ} {E : Type ℓ} where
  -- Helper.appends_funcs_callback: DECORATOR_METADATA[class_name][func_name].append(...)
  unfoldable pub appends_funcs_callback :
      String
      → String
      → (E → E)
      → Priority
      → ℕ
      → Dict (Dict (List (Callback E)))
      → Dict (Dict (List (Callback E)))
  appends_funcs_callback class_name func_name w p touch metadata =
      let functions = lookup_or class_name metadata [] in
      let callbacks = lookup_or func_name functions [] in
      insert class_name
        (insert func_name (callbacks ++ record { wrapper = w; priority = value p + touch } ∷ [])
          functions)
        metadata

  -- sorted(..., key=lambda x: x[1], reverse=True), which keeps equal entries in their order
  abbrev pub insert_callback : Callback E → List (Callback E) → List (Callback E)
  insert_callback c [] = c ∷ []
  insert_callback c (d ∷ ds) =
      if leb d.priority c.priority then c ∷ d ∷ ds else d ∷ insert_callback c ds

  abbrev pub sort_callbacks : List (Callback E) → List (Callback E)
  sort_callbacks [] = []
  sort_callbacks (c ∷ cs) = insert_callback c (sort_callbacks cs)

  -- for sc in ...: c = sc[0](c)
  abbrev pub apply_callbacks : List (Callback E) → E → E
  apply_callbacks [] f = f
  apply_callbacks (c ∷ cs) f = apply_callbacks cs (c.wrapper f)

  -- BaseHTTPRessource._stack_callback, for one endpoint
  unfoldable pub stack_callback : List (Callback E) → E → E
  stack_callback cs f = apply_callbacks (sort_callbacks cs) f

-- DecoratorException: the answer that it carries, or a status with its details.
pub record DecoratorException {ℓ} (R : Type ℓ) : Type ℓ where
  pub response : Option R
  pub status_code : Option ℕ
  pub details : String

-- What a call gives back: a value, the exception that the decorator around it looks for, or another.
pub data Call {ℓ} (R : Type ℓ) : Type ℓ where
  gives : R → Call R
  aborts : DecoratorException R → Call R
  fails : Failure → Call R

module _ {ℓ} {R : Type ℓ} where
  -- The except clause that the decorators share, where the last argument is `default_error` or what
  -- the decorator raises without one: the exception's own response, raise_http_exception, the default.
  unfoldable pub settle_exception : Failure → Option Failure → DecoratorException R → Call R
  settle_exception fallback default_error e = elim e.response [
    | some r ↦ gives r
    | none ↦ elim e.status_code [
      | some status ↦ fails (http status e.details)
      | none ↦ elim default_error [ some d ↦ fails d | none ↦ fails fallback ]
    ]
  ]

  unfoldable pub settle_call : Failure → Option Failure → Call R → Call R
  settle_call fallback default_error (gives r) = gives r
  settle_call fallback default_error (aborts e) = settle_exception fallback default_error e
  settle_call fallback default_error (fails f) = fails f
