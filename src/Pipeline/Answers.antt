-- ===== src/Pipeline/Answers.antt =====
-- app/definition/_ressource.py: response_decorator, HTTPStatusCode and PingService, and
-- copy_response of app/utils/helper.py. What a route's function returns, what a ping raises, and
-- starlette's responses are parameters.
use notifyr.Base.{
  ℕ, String, ◌≡◌, ◌≢◌, ◌⊎◌, Bool, true, false, not, ◌&&◌, Option, none, some, List, [], ◌∷◌, ◌++◌,
  if◌then◌else◌, arith, ◌==◌, lookup, Dict,
}
use notifyr.Base.Int.{ℤ, pos, leb_ℤ}
use notifyr.Failure.{Result, ok, raise, type_error, attribute_error, value_error, ◌>>=◌, ◌>>◌}

-- A Response. That of a request has no status code at first.
pub record Response : Type 0 where
  pub status_code : Option ℕ
  pub raw_headers : List (String × String)

-- What a function returns: a response, a dict, list, set or tuple, a number, text or bool, None, a model
-- of pydantic, or something else. A flag says whether json can write it.
pub data Returned : Type 0 where
  response : Response → Returned
  collection : Bool → Returned
  scalar nothing : Returned
  model : Bool → Returned
  other : Returned

-- `JSONResponse(...)` or `PlainTextResponse(...)`, with starlette's own headers.
abbrev pub new_response : List (String × String) → Response
new_response headers = record { status_code = some 200; raw_headers = headers }

-- The response that is made of it, or none where it stays what it is.
unfoldable pub to_response : List (String × String) → Returned → Result (Option Response)
to_response headers (response r) = ok (some r)
to_response headers (collection true) = ok (some (new_response headers))
to_response headers (collection false) = raise type_error
to_response headers scalar = ok (some (new_response headers))
to_response headers nothing = ok (some (new_response headers))
to_response headers (model true) = ok (some (new_response headers))
to_response headers (model false) = raise type_error
to_response headers other = ok none

-- `a if a else b`, for status codes.
abbrev pub status_or : Option ℕ → Option ℕ → Option ℕ
status_or none s = s
status_or (some n) s = if n == 0 then s else some n

-- copy_response(result, response)
unfoldable pub copy_response : Option Response → Option Response → Result (Option Response)
copy_response result none = ok result
copy_response none (some r) = raise attribute_error
copy_response (some result) (some r) = ok (
    some record {
      status_code = status_or r.status_code result.status_code;
      raw_headers = result.raw_headers ++ r.raw_headers;
    })

-- A route's function, with the response among its arguments, which it may change.
abbrev pub Function : Type 0
Function = Option Response → Result (Returned × Option Response)

unfoldable pub response_decorator :
    List (String × String) → Function → Option Response → Result (Option Response)
response_decorator headers function r =
    function r >>= λ result. to_response headers result.0 >>= λ made. copy_response made result.1

-- HTTPStatusCode(code), once the code is a number.
abbrev pub with_status : ℕ → Option Response → Option Response
with_status code none = none
with_status code (some r) = some (record r { status_code = some code })

unfoldable pub http_status_code : ℕ → Function → Function
http_status_code code function r = function (with_status code r)

-- HTTPStatusCode's argument: a number, or a name of fastapi.status.
pub data Code : Type 0 where
  number : ℕ → Code
  named : String → Code
  unknown : Code

unfoldable pub code_of : Dict ℕ → Code → Result ℕ
code_of names (number n) = ok n
code_of names (named s) = elim (lookup s names) [ none ↦ raise attribute_error | some n ↦ ok n ]
code_of names unknown = raise value_error

-- The pings of PingService, in order.
unfoldable pub ping_all : List (Result (Unit {0})) → Result (Unit {0})
ping_all [] = ok tt
ping_all (p ∷ pings) = p >> ping_all pings

-- PingService: with a timeout, the coroutine of `asyncio.wait_for` is not awaited, so nothing is pinged.
unfoldable pub ping_service : Bool → ℤ → List (Result (Unit {0})) → Function → Function
ping_service infinite_wait wait_timeout pings function r =
    if not infinite_wait && leb_ℤ (pos 0) wait_timeout
    then function r
    else ping_all pings >> function r

-- The function returns something that a response can be made of, and leaves the response alone.
abbrev pub is_shown : Returned → Bool
is_shown (collection writable) = writable
is_shown (model writable) = writable
is_shown other = false
is_shown _ = true

-- The status code of what a call answers.
abbrev pub answered_status : Result (Option Response) → Option ℕ
answered_status (ok (some r)) = r.status_code
answered_status _ = none

-- Behind pings that raise nothing, or with a timeout, the answer of a function under HTTPStatusCode has
-- that code, if it is not 0, whatever the function returns that can be shown: also a response with a
-- status of its own. The function gets the response and leaves it alone.
pub response_decorator-status :
    (headers : List (String × String)) (code : ℕ) (infinite_wait : Bool) (wait_timeout : ℤ)
    (pings : List (Result (Unit {0}))) (function : Function) (returned : Returned) (r : Response)
    → code ≢ 0
    → is_shown returned ≡ true
    → ((s : Response) → function (some s) ≡ ok (returned, some s))
    → (ping_all pings ≡ ok tt) ⊎ ((infinite_wait ≡ false) × (leb_ℤ (pos 0) wait_timeout ≡ true))
    → answered_status (
        response_decorator headers
          (ping_service infinite_wait wait_timeout pings (http_status_code code function))
          (some r))
      ≡ some code
unfolding response_decorator ping_service http_status_code copy_response to_response
response_decorator-status headers code infinite timeout pings function returned r n shown f p =
    ground (arith, n, shown, f (record r { status_code = some code }), p)
