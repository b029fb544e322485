-- ===== src/Handlers/Tests.antt =====
-- Concrete exceptions on their way through handlers.
use notifyr.Base.{Option, none, true, ℕ, ◌≡◌, refl, not, [], ◌∷◌, all, any, keep, arith}
use notifyr.Handlers.{
  Raised, Outcome, raised, plain_error, use_handlers, stack_handlers, treat, handle, act,
  http_exception,
}
use notifyr.Handlers.Requests.{cost_handler, twilio_handler, contacts_handler}
use notifyr.Handlers.Records.{
  tortoise_handler, profile_handler, value_error_handler, motor_error_handler,
}
use notifyr.Handlers.Stores.{mem_cached_handler}
use notifyr.Handlers.Catalog.{handlers}
use notifyr.Handlers.Laws.{IsLawful, IsOrdinary, swallows, is_plain, one_table}
use notifyr.Handlers.Stack.{
  use_handlers-IsLawful, use_handlers-one_table, stack_handlers-IsOrdinary,
}

abbrev no_credits : Raised
no_credits =
    plain_error ("InsufficientCreditsError" ∷ "CostException" ∷ "BaseError" ∷ "Exception" ∷ []) ""

abbrev refused : Outcome ℕ
refused = raised no_credits

-- tortoise's IntegrityError is an OperationalError.
abbrev doubled : Raised
doubled =
    record (plain_error
      ("IntegrityError" ∷ "OperationalError" ∷ "BaseORMException" ∷ "Exception" ∷ []) "") {
        args = "UNIQUE" ∷ [];
      }

cost_of_nothing :
    use_handlers (contacts_handler ∷ cost_handler ∷ []) refused
    ≡ raised (http_exception 402 "Insufficient credits to complete the purchase")
unfolding use_handlers treat handle act
cost_of_nothing = refl

doubled_500 :
    use_handlers {A = ℕ} (tortoise_handler ∷ []) (raised doubled)
    ≡ raised (http_exception 500 "Database execution error")
unfolding use_handlers treat handle act
doubled_500 = refl

falls_back :
    use_handlers {A = ℕ}
      (motor_error_handler ∷ profile_handler ∷ [])
      (raised (record (plain_error ("ProfileTypeNotMatchRequest" ∷ []) "") { flag = true }))
    ≡ raised (http_exception 404 "Document with id '' does not exists")
unfolding use_handlers treat handle act
falls_back = refl

use_handlers-IsLawful_example :
    IsLawful (use_handlers (tortoise_handler ∷ cost_handler ∷ []) refused)
use_handlers-IsLawful_example =
    use_handlers-IsLawful (tortoise_handler ∷ cost_handler ∷ []) refused
      (ground arith, (ground arith, tt)) (tt, tt)

abbrev no_response : Raised → Option ℕ
no_response e = none

stack_handlers-IsOrdinary_example :
    (keep (any swallows) handlers ≡ twilio_handler ∷ mem_cached_handler ∷ [])
    × IsOrdinary (stack_handlers no_response none (value_error_handler ∷ cost_handler ∷ []) refused)
stack_handlers-IsOrdinary_example =
    stack_handlers-IsOrdinary ℕ no_response none (value_error_handler ∷ cost_handler ∷ [])
      no_credits refl refl

use_handlers-one_table_example :
    (keep (λ rows. not (all is_plain rows)) handlers ≡ profile_handler ∷ [])
    × (use_handlers (tortoise_handler ∷ cost_handler ∷ []) refused
        ≡ handle (one_table (tortoise_handler ∷ cost_handler ∷ [])) refused)
use_handlers-one_table_example =
    use_handlers-one_table (tortoise_handler ∷ cost_handler ∷ []) refused refl
