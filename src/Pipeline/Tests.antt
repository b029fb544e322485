-- ===== src/Pipeline/Tests.antt =====
-- Concrete routes with their decorators.
use notifyr.Pipeline.Answers.{
  Response, response, Function, response_decorator, http_status_code, ping_service, answered_status,
  response_decorator-status,
}
use notifyr.Base.{
  ℕ, String, ◌≡◌, refl, inl, inr, true, false, if◌then◌else◌, none, some, List, [], ◌∷◌, Dict,
  has_key, arith, ◌+◌,
}
use notifyr.Base.Int.{pos}
use notifyr.Failure.{Result, ok, raise, error, Failure, http}
use notifyr.Pipeline.{
  Callback, value, limiter, permission, guard, stack_callback, Call, gives, fails, lock_touch,
  settle_call, handler,
}
use notifyr.Pipeline.Locks.{Locked, of_service, writer, lock_services, lock_mini, mini_lock}
use notifyr.Pipeline.Order.{up_to, stack_callback-blocked}
use notifyr.Pipeline.Permit.{
  meta_key, decides, Setup, Check, use_permission, is_permitted, use_permission-permitted,
  permission_loop,
}
use notifyr.Pipeline.Pipes.{
  Hook, proceeds, entries, intercept, stack_decorator, decorate, finish, use_pipe_before, pipe_loop,
  stack_decorator-meta,
}
use notifyr.Pipeline.Rates.{Limit, private, KeyArgument, RateMeta, cost_func}

-- Endpoints that list the callbacks that a call has passed.
abbrev mark : String → Callback (List String)
mark name = record { wrapper = λ f. name ∷ f; priority = value guard }

abbrev wall : Callback (List String)
wall = record { wrapper = λ f. "refused" ∷ []; priority = value permission }

abbrev lock : Callback (List String)
lock = record { wrapper = λ f. "lock" ∷ f; priority = value handler + lock_touch }

abbrev limit_mark : Callback (List String)
limit_mark = record { wrapper = λ f. "limit" ∷ f; priority = value limiter }

-- The topmost of two guards is registered last, and stands around the other.
order :
    stack_callback (mark "inner" ∷ lock ∷ limit_mark ∷ mark "outer" ∷ []) ("call" ∷ [])
    ≡ "limit" ∷ "lock" ∷ "outer" ∷ "inner" ∷ "call" ∷ []
unfolding stack_callback
order = refl

stack_callback-blocked_example :
    stack_callback (mark "guard" ∷ wall ∷ lock ∷ limit_mark ∷ []) ("call" ∷ [])
    ≡ stack_callback (up_to (value permission) (mark "guard" ∷ wall ∷ lock ∷ limit_mark ∷ [])) []
stack_callback-blocked_example =
    stack_callback-blocked (value permission) (mark "guard" ∷ wall ∷ lock ∷ limit_mark ∷ [])
      ("call" ∷ []) [] (inr (inl (refl, λ f g. refl)))

abbrev setup : Setup String
setup = record { security_flag = true; class_name = "Email"; meta = "meta"; default_error = none }

abbrev kwargs : Dict String
kwargs = ("template", "welcome") ∷ []

-- a permission that wants the name of the class
abbrev wants_email : Check String ℕ
wants_email k = decides (has_key "class_name" k)

abbrev answer : ℕ → Dict String → Call ℕ
answer n k = gives n

use_permission-permitted_example :
    (is_permitted setup (wants_email ∷ []) kwargs ≡ true
      → use_permission setup (wants_email ∷ []) (answer 1) kwargs ≡ answer 1 kwargs)
    × (is_permitted setup (wants_email ∷ []) kwargs ≡ false
        → use_permission setup (wants_email ∷ []) (answer 1) kwargs
          ≡ use_permission setup (wants_email ∷ []) (answer 2) kwargs)
use_permission-permitted_example =
    use_permission-permitted setup (wants_email ∷ []) kwargs (answer 1) (answer 2)

permitted : use_permission setup (wants_email ∷ []) (answer 1) kwargs ≡ gives 1
unfolding use_permission permission_loop
permitted = refl

special_key :
    use_permission setup (wants_email ∷ []) (answer 1) (("class_name", "x") ∷ [])
    ≡ fails (http 400 "special key used")
unfolding use_permission permission_loop
special_key = refl

piped :
    use_pipe_before none ((λ k. entries (("template", "bye") ∷ [])) ∷ []) (λ k. gives k) kwargs
    ≡ gives (("template", "bye") ∷ [])
unfolding use_pipe_before pipe_loop settle_call
piped = refl

-- An interceptor that needs the meta, as the one that charges the cost does.
abbrev charges : (Dict String → Call ℕ) → Dict String → Call ℕ
charges f k = if has_key meta_key k then f k else fails Failure.type_error

abbrev passes : Dict String → Hook ℕ
passes k = proceeds

abbrev keeps : ℕ → Dict String → Hook ℕ
keeps n k = proceeds

abbrev refuses : (Dict String → Call ℕ) → Dict String → Call ℕ
refuses f k = fails Failure.type_error

charges-refuses :
    (k : Dict String) → has_key meta_key k ≡ false → charges (answer 1) k ≡ refuses (answer 2) k
charges-refuses k h = rw h refl

stack_decorator-meta_example :
    stack_decorator (intercept passes keeps ∷ charges ∷ []) none (some "meta") (answer 1) kwargs
    ≡ stack_decorator (intercept passes keeps ∷ refuses ∷ []) none (some "meta") (answer 2) kwargs
stack_decorator-meta_example =
    stack_decorator-meta passes keeps (charges ∷ []) (refuses ∷ []) (answer 1) (answer 2) none
      (some "meta") kwargs charges-refuses

-- Behind another interceptor the meta is gone, and in front of it it is there.
meta_gone :
    stack_decorator (intercept passes keeps ∷ charges ∷ []) none (some "meta") (answer 1) kwargs
    ≡ fails Failure.type_error
unfolding stack_decorator decorate intercept finish settle_call
meta_gone = refl

meta_there :
    stack_decorator (charges ∷ intercept passes keeps ∷ []) none (some "meta") (answer 1) kwargs
    ≡ gives 1
unfolding stack_decorator decorate intercept finish settle_call
meta_there = refl

abbrev client : String → String
client request = request

abbrev costs : Dict ℕ
costs = ("User", 5) ∷ []

abbrev limit : Limit String
limit = record {
  limit_value = "100/minutes";
  scope = none;
  cost = cost_func client client costs 100;
  key_func = some client;
}

abbrev own_key : KeyArgument String
own_key = private

abbrev plain_meta : RateMeta String
plain_meta = record { limit_obj = some limit; limit_exempt = false }

abbrev exempt_meta : RateMeta String
exempt_meta = record { limit_obj = some limit; limit_exempt = true }

abbrev mails : Locked
mails = record { name = "Email"; is_manager = true; profiles = "main" ∷ [] }

abbrev celery : Locked
celery = record { name = "Celery"; is_manager = false; profiles = [] }

abbrev one_call : Result ℕ
one_call = ok 1

locked : lock_services writer writer true (some "main") (celery ∷ mails ∷ []) one_call ≡ (
  (of_service "Celery", writer) ∷ (of_service "Email", writer) ∷ (of_service "Email", writer) ∷ [],
  ok 1,
)
unfolding lock_services lock_mini mini_lock
locked = refl

-- A function that answers with a response of its own, and a ping that raises.
abbrev own_response : Response
own_response = record { status_code = some 204; raw_headers = [] }

abbrev empty_response : Response
empty_response = record { status_code = none; raw_headers = [] }

abbrev answers_itself : Function
answers_itself r = ok (response own_response, r)

abbrev down : List (Result (Unit {0}))
down = raise (error "ServiceNotAvailableError") ∷ []

response_decorator-status_example :
    answered_status (
      response_decorator []
        (ping_service false (pos 5) down (http_status_code 201 answers_itself))
        (some empty_response))
    ≡ some 201
response_decorator-status_example =
    response_decorator-status [] 201 false (pos 5) down answers_itself (response own_response)
      empty_response (omega arith) refl (λ s. refl) (inr (refl, refl))
