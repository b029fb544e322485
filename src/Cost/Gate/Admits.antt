-- ===== src/Cost/Gate/Admits.antt =====
-- Which tasks the gate admits.
use notifyr.Base.{
  ◌≡◌, refl, ◌≢◌, ◌↔◌, ◌⊎◌, Bool, true, false, Option, none, some, Dict, contains, arith,
  if◌then◌else◌,
}
use notifyr.Base.Int.{ℤ, pos, ◌≤ℤ◌, leb_ℤ}
use notifyr.Failure.{Result, ok, raise}
use notifyr.TaskKind.{value}
use notifyr.Cost.Price.{TaskCostDefinition, Scheduler}
use notifyr.Cost.Gate.{
  CostRules, is_current_credit_overdraft_allowed, permission_rest, permission_with, permission,
}

-- The task type is one that the plan allows, where there is a scheduler.
abbrev pub IsAllowedType : TaskCostDefinition → Option Scheduler → Type 0
IsAllowedType d none = Unit {0}
IsAllowedType d (some s) = contains (value s.task_type) d.allowed_task_option ≡ true

permission_rest_iff :
    (rules : CostRules) (d : TaskCostDefinition) (b : ℤ) (s : Option Scheduler) (retry : Bool)
    → (permission_rest rules d b s retry ≡ ok true) ↔ (
        (d.api_usage_cost ≤ℤ b)
        × IsAllowedType d s
        × ((retry ≡ false) ⊎ (rules.retry_allowed ≡ true)))
unfolding permission_rest
permission_rest_iff rules d b none retry = ground arith
permission_rest_iff rules d b (some s) retry = ground arith

permission_with_iff :
    (o rest : Result Bool)
    → (permission_with o rest ≡ ok true) ↔ ((o ≡ ok false) × (rest ≡ ok true))
unfolding permission_with
permission_with_iff (ok true) rest = ground arith
permission_with_iff (ok false) rest = ground arith
permission_with_iff (raise e) rest = ground arith

-- A task is admitted exactly when the balance is known, is positive or passes the overdraft rule
-- with False, and covers the api cost, its type is allowed, and retries are allowed where it asks
-- for them.
pub gate_permission_iff :
    (rules : CostRules) (plans : Dict ℤ) (d : TaskCostDefinition) (stored : Option ℤ)
    (s : Option Scheduler) (retry : Bool)
    → (permission rules plans d stored s retry ≡ ok true) ↔ (
        (b : ℤ) × (stored ≡ some b)
        × ((pos 1 ≤ℤ b)
            ⊎ (is_current_credit_overdraft_allowed rules plans b d.credit_key ≡ ok false))
        × (d.api_usage_cost ≤ℤ b)
        × IsAllowedType d s
        × ((retry ≡ false) ⊎ (rules.retry_allowed ≡ true)))
unfolding permission
gate_permission_iff rules plans d none s retry = (λ h. cc, λ (b, e, p, q, t, r). cc)
gate_permission_iff rules plans d (some b) s retry = (
  λ h.
      let split = (permission_with_iff _ _).0 h in
      let rest = (permission_rest_iff rules d b s retry).0 split.1 in
      (b, refl, admitted split.0, rest.0, rest.1, rest.2),
  λ (b', e, p, q, t, r).
      (permission_with_iff _ _).1
        (passes b' e p, (permission_rest_iff rules d b s retry).1 (same b' e q, t, r)),
)
  where
    overdraft : Result Bool
    overdraft = is_current_credit_overdraft_allowed rules plans b d.credit_key

    admitted :
        (if leb_ℤ b (pos 0) then overdraft else ok false) ≡ ok false
        → (pos 1 ≤ℤ b) ⊎ (overdraft ≡ ok false)
    admitted h = ground arith

    passes :
        (b' : ℤ)
        → some b ≡ some b'
        → (pos 1 ≤ℤ b')
          ⊎ (is_current_credit_overdraft_allowed rules plans b' d.credit_key ≡ ok false)
        → (if leb_ℤ b (pos 0) then overdraft else ok false) ≡ ok false
    passes b' e p = ground arith

    same : (b' : ℤ) → some b ≡ some b' → d.api_usage_cost ≤ℤ b' → d.api_usage_cost ≤ℤ b
    same b' e h = ground arith

-- Whatever the overdraft rules say, a task with a positive api cost is refused at a balance that is
-- not positive.
pub permission-in_debt :
    (rules : CostRules) (plans : Dict ℤ) (d : TaskCostDefinition) (b : ℤ) (s : Option Scheduler)
    (retry : Bool)
    → b ≤ℤ pos 0
    → pos 1 ≤ℤ d.api_usage_cost
    → permission rules plans d (some b) s retry ≢ ok true
permission-in_debt rules plans d b s retry debt api h =
    let (b', e, _, covers, _, _) = (gate_permission_iff rules plans d (some b) s retry).0 h in
    contradiction b' e covers
  where
    contradiction : (b' : ℤ) → some b ≡ some b' → d.api_usage_cost ≤ℤ b' → ⊥
    contradiction b' e q = ground arith
