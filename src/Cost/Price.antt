-- ===== src/Cost/Price.antt =====
-- app/definition/_cost.py, SimpleTaskCost and TaskCost: what a route charges for a scheduled task.
-- Of the scheduler the price reads how many recipients each content has, the priority and the task
-- type. `int(cost / priority)` is a float division in the source, exact up to 2^53. `self.pointer` is
-- one that leads to the recipients; the AttributeError of a class that has none is not modelled.
pub mod Formula
use notifyr.Base.{
  ℕ, ◌+◌, Bool, Option, none, some, List, [], ◌∷◌, String, Dict, lookup_or, length, if◌then◌else◌,
}
use notifyr.Base.Int.{ℤ, pos, ◌-ℤ◌, ltb_ℤ, trunc_div}
use notifyr.TaskKind.{TaskType, value, item_text}
use notifyr.Cost.Bill.{Cost, purchase}

-- TaskCostDefinition of app/classes/cost_definition.py.
pub record TaskCostDefinition : Type 0 where
  pub api_usage_cost : ℤ
  pub credit_key : String
  pub max_free_content : ℤ
  pub max_free_recipient : ℤ
  pub content_extra_cost : ℤ
  pub recipient_extra_cost : ℤ
  pub priority_cost : ℤ
  pub tracking_cost : ℤ
  pub retry_cost : ℤ
  pub allowed_task_option : List String
  pub task_type_cost : Dict ℤ

pub record Scheduler : Type 0 where
  -- The length of `pointer.ptr(content).get_val()` for each content.
  pub recipients : List ℕ
  pub task_type : TaskType
  pub priority : ℕ

-- `register_meta_key`.
unfoldable pub register_meta_key : TaskCostDefinition → String → Cost → Cost
register_meta_key definition name self = record self {
  credit_key = some definition.credit_key;
  definition_name = some name;
}

-- The loop that adds up the recipients.
unfoldable pub count_recipients : ℕ → List ℕ → ℕ
count_recipients total [] = total
count_recipients total (n ∷ ns) = count_recipients (total + n) ns

unfoldable pub purchase_if : Bool → String → ℤ → ℤ → Cost → Cost
unfolding purchase
purchase_if test description amount quantity self =
    if test then purchase description amount quantity self else self

-- SimpleTaskCost.compute_cost.
unfoldable pub compute_simple_cost : TaskCostDefinition → Cost → Cost
unfolding purchase
compute_simple_cost definition self = purchase "api_usage" definition.api_usage_cost (pos 1) self

-- TaskCost.compute_cost, with `tracker.will_track` and `taskManager.meta.get('retry', False)`. It
-- returns the cost, and the numbers of contents and recipients.
unfoldable pub compute_cost : TaskCostDefinition → Scheduler → Bool → Bool → Cost → Cost × ℕ × ℕ
compute_cost definition scheduler will_track retry self =
    let total_recipient = count_recipients 0 scheduler.recipients in
    let total_content = length scheduler.recipients in
    let content_diff = pos total_content -ℤ definition.max_free_content in
    let recipient_diff = pos total_recipient -ℤ definition.max_free_recipient in
    let c1 =
      purchase_if (ltb_ℤ (pos 0) content_diff) "content_extra" definition.content_extra_cost
        content_diff self in
    let c2 =
      purchase_if (ltb_ℤ (pos 0) recipient_diff) "recipient_extra" definition.recipient_extra_cost
        recipient_diff c1 in
    let c3 = purchase_if will_track "tracking" definition.tracking_cost (pos total_recipient) c2 in
    let c4 = purchase_if retry "retry" definition.retry_cost (pos total_recipient) c3 in
    let c5 =
      purchase "priority" (trunc_div definition.priority_cost scheduler.priority) (pos 1) c4 in
    let c6 =
      purchase (item_text scheduler.task_type)
        (lookup_or (value scheduler.task_type) definition.task_type_cost (pos 1)) (pos 1) c5 in
    (purchase "api_usage" definition.api_usage_cost (pos 1) c6, total_content, total_recipient)
