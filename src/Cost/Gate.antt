-- ===== src/Cost/Gate.antt =====
-- app/decorators/permissions.py, TaskCostPermission, and the overdraft rule of
-- app/services/cost_service.py that it asks. The ratio of the rules is a float in the source and a
-- fraction over a positive denominator here; its default 0.15 is 15 / 100.
pub mod Admits
use notifyr.Base.{
  ℕ, zero, suc, Bool, true, false, not, ◌&&◌, Option, none, some, String, Dict, lookup, contains,
  if◌then◌else◌,
}
use notifyr.Base.Int.{ℤ, pos, negsuc, ◌-ℤ◌, ◌*ℤ◌, ltb_ℤ, leb_ℤ}
use notifyr.Failure.{Result, ok, raise, http, key_error, zero_division}
use notifyr.TaskKind.{TaskType, value}
use notifyr.Cost.Price.{TaskCostDefinition, Scheduler}

-- CostRules; a key that the cost file leaves out is `none`, and `retry_allowed` is then False.
pub record CostRules : Type 0 where
  pub auto_block_on_zero_credit : Option Bool
  pub overdraft_ratio_allowed : Option (ℤ × ℕ)
  pub retry_allowed : Bool

abbrev or_true : Option Bool → Bool
or_true none = true
or_true (some b) = b

abbrev ratio_or : Option (ℤ × ℕ) → ℤ × ℕ
ratio_or none = (pos 15, 100)
ratio_or (some r) = r

-- `(-1 * current_credits) / plan < numerator / denominator`, multiplied out by the sign of the plan.
unfoldable pub below_ratio : ℤ → ℤ → ℤ × ℕ → Result Bool
below_ratio current (pos n) (numerator, denominator) = elim n [
  | zero ↦ raise zero_division
  | suc m ↦ ok (ltb_ℤ ((pos 0 -ℤ current) *ℤ pos denominator) (numerator *ℤ pos (suc m)))
]
below_ratio current (negsuc n) (numerator, denominator) =
    ok (ltb_ℤ (numerator *ℤ negsuc n) ((pos 0 -ℤ current) *ℤ pos denominator))

-- `is_current_credit_overdraft_allowed(current_credits, credit_key)`.
unfoldable pub is_current_credit_overdraft_allowed : CostRules → Dict ℤ → ℤ → String → Result Bool
unfolding below_ratio
is_current_credit_overdraft_allowed rules plan_credits current credit_key =
    if or_true rules.auto_block_on_zero_credit
    then ok true
    else elim (lookup credit_key plan_credits) [
      | none ↦ raise key_error
      | some plan ↦ below_ratio current plan (ratio_or rules.overdraft_ratio_allowed)
    ]

-- The tests of `permission` behind the one on the overdraft.
unfoldable pub permission_rest :
    CostRules → TaskCostDefinition → ℤ → Option Scheduler → Bool → Result Bool
permission_rest rules definition current scheduler retry =
    if ltb_ℤ current definition.api_usage_cost
    then raise (http 402 "Insufficient credits for API usage")
    else if elim scheduler [
      | none ↦ false
      | some s ↦ not (contains (value s.task_type) definition.allowed_task_option)
    ]
    then raise (http 400 "Task type not allowed for this pricing plan")
    else if retry && not rules.retry_allowed
    then raise (http 403 "Retry not allowed by pricing policy")
    else ok true

-- The test `current_credits <= 0 and overdraft`, by the answer of the second half.
unfoldable pub permission_with : Result Bool → Result Bool → Result Bool
permission_with (ok true) rest = raise (http 402 "Insufficient credits")
permission_with (ok false) rest = rest
permission_with (raise e) rest = raise e

-- TaskCostPermission.permission, at the balance that get_credit_balance returned.
unfoldable pub permission :
    CostRules → Dict ℤ → TaskCostDefinition → Option ℤ → Option Scheduler → Bool → Result Bool
unfolding is_current_credit_overdraft_allowed permission_rest permission_with
permission rules plan_credits definition none scheduler retry =
    raise (http 502 "Credit information unavailable")
permission rules plan_credits definition (some current) scheduler retry =
    permission_with
      (if leb_ℤ current (pos 0)
        then is_current_credit_overdraft_allowed rules plan_credits current definition.credit_key
        else ok false)
      (permission_rest rules definition current scheduler retry)
