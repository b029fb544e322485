-- ===== src/Pipeline/Pipes.antt =====
-- app/definition/_ressource.py and app/definition/_utils_decorator.py: UsePipe, UseInterceptor and
-- the decorators that stack_decorator makes.
use notifyr.Base.{
  String, ◌≡◌, refl, ap, false, not, if◌then◌else◌, Option, none, some, List, [], ◌∷◌, arith, keep,
  Dict, has_key, insert, str_eq, eq_iff,
}
use notifyr.Failure.{Failure, http}
use notifyr.Pipeline.{Call, gives, aborts, fails, DecoratorException, settle_call}
use notifyr.Pipeline.Permit.{meta_key}

-- What a pipe in front of a call gives back.
pub data Piped (V R : Type 0) : Type 0 where
  nothing not_a_dict : Piped V R
  entries : Dict V → Piped V R
  pipe_aborts : DecoratorException R → Piped V R
  pipe_fails : Failure → Piped V R

-- What a hook of an interceptor does: it returns, raises SkipCode to go on or to return a result, or
-- raises something else.
pub data Hook (R : Type 0) : Type 0 where
  proceeds skips : Hook R
  skips_with : R → Hook R
  hook_aborts : DecoratorException R → Hook R
  hook_fails : Failure → Hook R

module _ {V : Type 0} where
  -- d.update(new)
  abbrev pub update : Dict V → Dict V → Dict V
  update d [] = d
  update d ((k, v) ∷ new) = update (insert k v d) new

  -- del d[k]
  abbrev pub without : String → Dict V → Dict V
  without k = keep (λ e. not (str_eq e.0 k))

  has_key-without : (k : String) (d : Dict V) → has_key k (without k d) ≡ false
  has_key-without k [] = refl
  has_key-without k ((j, v) ∷ d) = ground (arith, eq_iff j k, has_key-without k d)

module _ {V R : Type 0} where
  -- The loop over the pipes in front of a call, with what to do behind it.
  unfoldable pub pipe_loop : List (Dict V → Piped V R) → Dict V → (Dict V → Call R) → Call R
  pipe_loop [] kwargs_prime rest = rest kwargs_prime
  pipe_loop (pipe ∷ pipes) kwargs_prime rest = elim (pipe kwargs_prime) [
    | nothing ↦ pipe_loop pipes kwargs_prime rest
    | entries result ↦ pipe_loop pipes (update kwargs_prime result) rest
    | not_a_dict ↦ aborts record { response = none; status_code = none; details = "" }
    | pipe_aborts e ↦ aborts e
    | pipe_fails f ↦ fails f
  ]

  -- UsePipe(..., before=True)
  unfoldable pub use_pipe_before :
      Option Failure → List (Dict V → Piped V R) → (Dict V → Call R) → Dict V → Call R
  use_pipe_before default_error pipes function kwargs =
      settle_call (http 500 "") default_error
        (pipe_loop pipes kwargs (λ kwargs_prime. function (update kwargs kwargs_prime)))

  -- The loop over the pipes behind a call.
  unfoldable pub result_loop : List (R → Dict V → Call R) → Dict V → Call R → Call R
  result_loop [] kwargs result = result
  result_loop (pipe ∷ pipes) kwargs (gives r) = result_loop pipes kwargs (pipe r kwargs)
  result_loop (pipe ∷ pipes) kwargs (aborts e) = aborts e
  result_loop (pipe ∷ pipes) kwargs (fails f) = fails f

  -- UsePipe(..., before=False)
  unfoldable pub use_pipe_after :
      Option Failure → List (R → Dict V → Call R) → (Dict V → Call R) → Dict V → Call R
  use_pipe_after default_error pipes function kwargs =
      settle_call (http 500 "") default_error (result_loop pipes kwargs (function kwargs))

  -- Interceptor.intercept behind the call
  unfoldable pub finish : (R → Dict V → Hook R) → Dict V → Call R → Call R
  finish after kwargs (gives result) = elim (after result kwargs) [
    | proceeds ↦ gives result
    | skips ↦ gives result
    | skips_with r ↦ gives r
    | hook_aborts e ↦ aborts e
    | hook_fails f ↦ fails f
  ]
  finish after kwargs (aborts e) = aborts e
  finish after kwargs (fails f) = fails f

  -- Interceptor.intercept: `intercept_before`, the call without the meta, `intercept_after`
  unfoldable pub intercept :
      (Dict V → Hook R) → (R → Dict V → Hook R) → (Dict V → Call R) → Dict V → Call R
  intercept before after function kwargs =
      let call = finish after kwargs (function (without meta_key kwargs)) in
      elim (before kwargs) [
        | proceeds ↦ call
        | skips ↦ call
        | skips_with r ↦ gives r
        | hook_aborts e ↦ aborts e
        | hook_fails f ↦ fails f
      ]

  -- The loop of stack_decorator: the first decorator stands around the others.
  abbrev pub nest : List ((Dict V → Call R) → Dict V → Call R) → (Dict V → Call R) → Dict V → Call R
  nest [] function = function
  nest (d ∷ ds) function = d (nest ds function)

  unfoldable pub decorate :
      List ((Dict V → Call R) → Dict V → Call R)
      → Option Failure
      → (Dict V → Call R)
      → Dict V
      → Call R
  decorate [] default_error function kwargs = function kwargs
  decorate (d ∷ ds) default_error function kwargs =
      settle_call (http 500 "Could not correctly treat the error") default_error
        (d (nest ds function) kwargs)

  -- The callback of stack_decorator, with func.meta where it is injected.
  unfoldable pub stack_decorator :
      List ((Dict V → Call R) → Dict V → Call R)
      → Option Failure
      → Option V
      → (Dict V → Call R)
      → Dict V
      → Call R
  stack_decorator decorators default_error injected function kwargs = elim injected [
    | none ↦ decorate decorators default_error function kwargs
    | some meta ↦
        if has_key meta_key kwargs
        then fails (http 400 "special key used")
        else decorate decorators default_error function (insert meta_key meta kwargs)
  ]

  intercept-meta :
      (before : Dict V → Hook R) (after : R → Dict V → Hook R) (f g : Dict V → Call R)
      (kwargs : Dict V)
      → ((k : Dict V) → has_key meta_key k ≡ false → f k ≡ g k)
      → intercept before after f kwargs ≡ intercept before after g kwargs
  unfolding intercept
  intercept-meta before after f g kwargs h =
      let e = h (without meta_key kwargs) (has_key-without meta_key kwargs) in cc

  decorate-meta :
      (before : Dict V → Hook R) (after : R → Dict V → Hook R)
      (inner other : List ((Dict V → Call R) → Dict V → Call R)) (f g : Dict V → Call R)
      (default_error : Option Failure) (kwargs : Dict V)
      → ((k : Dict V) → has_key meta_key k ≡ false → nest inner f k ≡ nest other g k)
      → decorate (intercept before after ∷ inner) default_error f kwargs
        ≡ decorate (intercept before after ∷ other) default_error g kwargs
  unfolding decorate
  decorate-meta before after inner other f g default_error kwargs h =
      ap (settle_call (http 500 "Could not correctly treat the error") default_error)
        (intercept-meta before after (nest inner f) (nest other g) kwargs h)

  -- What interceptors do depends only on what the function and the interceptors inside of the first
  -- one do with arguments that lack the meta, also where it is injected.
  pub stack_decorator-meta :
      (before : Dict V → Hook R) (after : R → Dict V → Hook R)
      (inner other : List ((Dict V → Call R) → Dict V → Call R)) (f g : Dict V → Call R)
      (default_error : Option Failure) (injected : Option V) (kwargs : Dict V)
      → ((k : Dict V) → has_key meta_key k ≡ false → nest inner f k ≡ nest other g k)
      → stack_decorator (intercept before after ∷ inner) default_error injected f kwargs
        ≡ stack_decorator (intercept before after ∷ other) default_error injected g kwargs
  unfolding stack_decorator
  stack_decorator-meta before after inner other f g default_error none kwargs h =
      decorate-meta before after inner other f g default_error kwargs h
  stack_decorator-meta before after inner other f g default_error (some meta) kwargs h =
      ap (λ c. if has_key meta_key kwargs then fails (http 400 "special key used") else c)
        (decorate-meta before after inner other f g default_error (insert meta_key meta kwargs) h)
