-- ===== src/Pipeline/Rates.antt =====
-- app/definition/_ressource.py, UseLimiter, _set_rate_limit and Throttle: how often a route is called.
use notifyr.Base.{
  ℕ, String, ◌≤◌, ◌≡◌, refl, sym, ◌∙◌, ap, Bool, true, false, not, if◌then◌else◌, Option, none,
  some, List, [], ◌∷◌, ◌++◌, map, arith, ltb, Dict, lookup_or, all,
}
use notifyr.Base.Int.{ℤ, pos, negsuc}
use notifyr.Failure.{Result, ok, raise, value_error, ◌>>=◌}

-- `scope`, `cost` and `key_func` as UseLimiter tells them apart
pub data Scope : Type 0 where
  no_scope other_scope : Scope
  scope_text : String → Scope

pub data CostArgument (Request : Type 0) : Type 0 where
  no_cost other_cost : CostArgument Request
  cost_callable : (Request → ℕ) → CostArgument Request
  -- by the type of the client
  cost_table : Dict ℕ → CostArgument Request

pub data KeyArgument (Request : Type 0) : Type 0 where
  private public other_key : KeyArgument Request
  key_callable : (Request → String) → KeyArgument Request

-- meta['limit_obj'] with meta['shared'], as far as UseLimiter computes it. Without a key function
-- the limiter uses its own.
pub record Limit (Request : Type 0) : Type 0 where
  pub limit_value : String
  pub scope : Option String
  pub cost : Request → ℕ
  pub key_func : Option (Request → String)

abbrev min : ℕ → ℕ → ℕ
min a b = if ltb b a then b else a

abbrev max : ℕ → ℕ → ℕ
max a b = if ltb a b then b else a

-- What UseLimiter reads of a request's permission.
module _ {Request : Type 0} (client_type client_id : Request → String) where
  -- cost_func: what a request costs by the table
  unfoldable pub cost_func : Dict ℕ → ℕ → Request → ℕ
  cost_func costs max_limit request =
      max (min 1 (lookup_or (client_type request) costs 1)) max_limit

  abbrev is_private : KeyArgument Request → Bool
  is_private private = true
  is_private _ = false

  unfoldable pub cost_decorator :
      CostArgument Request → KeyArgument Request → ℕ → Result (Request → ℕ)
  cost_decorator no_cost key max_limit = ok (λ request. 1)
  cost_decorator (cost_callable cost) key max_limit = ok cost
  cost_decorator (cost_table costs) key max_limit =
      if not (is_private key) then raise value_error else ok (cost_func costs max_limit)
  cost_decorator other_cost key max_limit = raise value_error

  unfoldable pub limiter_scope : Scope → Result (Option String)
  limiter_scope no_scope = ok none
  limiter_scope (scope_text s) = ok (some s)
  limiter_scope other_scope = raise value_error

  unfoldable pub limiter_key : KeyArgument Request → Result (Option (Request → String))
  limiter_key private = ok (some client_id)
  limiter_key public = ok none
  limiter_key (key_callable f) = ok (some f)
  limiter_key other_key = raise value_error

  -- UseLimiter, with int(limit_value.split('/')[0]) if it is a number, and what the definition of
  -- the route's cost has under '__rate_limit__'.
  unfoldable pub use_limiter :
      String
      → Option ℕ
      → Scope
      → CostArgument Request
      → KeyArgument Request
      → Option String
      → Result (Limit Request)
  use_limiter limit_value parsed scope cost key own_limit = limiter_scope scope >>= λ s.
      elim parsed [
        | none ↦ raise value_error
        | some max_limit ↦ cost_decorator cost key max_limit >>= λ c. limiter_key key >>= λ k.
            ok record {
              limit_value = elim own_limit [ none ↦ limit_value | some own ↦ own ];
              scope = s;
              cost = c;
              key_func = k;
            }
      ]

  cost_func-whole :
      (costs : Dict ℕ) (max_limit : ℕ) (request : Request)
      → 1 ≤ max_limit
      → cost_func costs max_limit request ≡ max_limit
  unfolding cost_func
  cost_func-whole costs max_limit request h = ground arith

  -- what a request costs by the result of UseLimiter
  abbrev cost_of : Result (Limit Request) → Request → ℕ
  cost_of (ok limit) request = limit.cost request
  cost_of (raise _) request = 0

  -- A limiter with a table of costs is accepted only with the private key, and whatever the table
  -- says, each request then costs the number of the limit, if that is not 0: one request uses it up.
  pub use_limiter-table :
      (limit_value : String) (max_limit : ℕ) (scope : Scope) (costs : Dict ℕ)
      (key : KeyArgument Request) (own_limit : Option String) (limit : Limit Request)
      (request : Request)
      → 1 ≤ max_limit
      → use_limiter limit_value (some max_limit) scope (cost_table costs) key own_limit ≡ ok limit
      → (key ≡ private) × (limit.cost request ≡ max_limit)
  unfolding use_limiter limiter_scope limiter_key cost_decorator
  use_limiter-table limit_value max_limit no_scope costs private own_limit limit request h e =
      (refl, ap (λ r. cost_of r request) (sym e) ∙ cost_func-whole costs max_limit request h)
  use_limiter-table limit_value max_limit (scope_text _) costs private own_limit limit request h e =
      (refl, ap (λ r. cost_of r request) (sym e) ∙ cost_func-whole costs max_limit request h)
  use_limiter-table limit_value max_limit other_scope costs key own_limit limit request h e = cc
  use_limiter-table limit_value max_limit no_scope costs public own_limit limit request h e = cc
  use_limiter-table limit_value max_limit no_scope costs other_key own_limit limit request h e = cc
  use_limiter-table limit_value max_limit no_scope costs (key_callable _) own limit request h e = cc
  use_limiter-table limit_value max_limit (scope_text _) costs public own limit request h e = cc
  use_limiter-table limit_value max_limit (scope_text _) costs other_key own limit request h e = cc
  use_limiter-table limit_value max_limit (scope_text _) costs (key_callable _) own limit q h e = cc

-- What is done to an endpoint: GlobalLimiter.exempt, limit and shared_limit
pub data Treatment (Request : Type 0) : Type 0 where
  untouched exempted : Treatment Request
  limited shared_limited : Limit Request → Treatment Request

-- FuncMetaData, as far as the limits are concerned
pub record RateMeta (Request : Type 0) : Type 0 where
  pub limit_obj : Option (Limit Request)
  pub limit_exempt : Bool

module _ {Request : Type 0} where
  -- `limit_obj`, which is shared if it has a scope
  unfoldable pub treatment : RateMeta Request → Treatment Request
  treatment meta = elim meta.limit_obj [
    | none ↦ untouched
    | some limit ↦ elim limit.scope [ none ↦ limited limit | some _ ↦ shared_limited limit ]
  ]

  -- The loop of _set_rate_limit over the endpoints of a class, which returns at an exempt one.
  unfoldable pub set_rate_limit : List (RateMeta Request) → List (Treatment Request)
  set_rate_limit [] = []
  set_rate_limit (meta ∷ metas) =
      if meta.limit_exempt
      then exempted ∷ map (λ _. untouched) metas
      else treatment meta ∷ set_rate_limit metas

  -- Where an endpoint is exempt and none before it, those before it are treated by their own
  -- limits, and none behind it is limited at all.
  pub set_rate_limit-exempt :
      (before after : List (RateMeta Request)) (meta : RateMeta Request)
      → all (λ m. not m.limit_exempt) before ≡ true
      → meta.limit_exempt ≡ true
      → set_rate_limit (before ++ meta ∷ after)
        ≡ map treatment before ++ exempted ∷ map (λ _. untouched) after
  unfolding set_rate_limit
  set_rate_limit-exempt [] after meta h e = rw e refl
  set_rate_limit-exempt (m ∷ before) after meta h e =
      let rest = set_rate_limit-exempt before after meta in ground (arith, rest, h, e)

-- Throttle's delay, which its arguments give in this order: fixed, fn, uniform, normal, exponential.
-- What is random is a parameter.
pub record Delays : Type 0 where
  pub fixed : Option ℕ
  pub fn : Option (Unit {0} → ℕ)
  pub uniform : Option (Unit {0} → ℕ)
  -- random.gauss, of which a negative value counts as 0
  pub normal : Option (Unit {0} → ℤ)
  pub exponential : Option (Unit {0} → ℕ)

unfoldable pub make_delay_fn : Delays → Result (Unit {0} → ℕ)
make_delay_fn d = elim d.fixed [
  | some n ↦ ok (λ _. n)
  | none ↦ elim d.fn [
    | some f ↦ ok f
    | none ↦ elim d.uniform [
      | some f ↦ ok f
      | none ↦ elim d.normal [
        | some f ↦ ok (λ u. not_negative (f u))
        | none ↦ elim d.exponential [ some f ↦ ok f | none ↦ raise value_error ]
      ]
    ]
  ]
]
  where
    not_negative : ℤ → ℕ
    not_negative (pos n) = n
    not_negative (negsuc n) = 0
