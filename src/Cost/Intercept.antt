-- ===== src/Cost/Intercept.antt =====
-- app/decorators/interceptors.py, TaskCostInterceptor and DataCostInterceptor, with `inject_cost_info`
-- and DataCost of app/definition/_cost.py: a request is charged before its handler or behind it. The
-- plan and the version of a bill, the key of its list and redis' answers are parameters.
pub mod Net
use notifyr.Base.{
  ℕ, Bool, true, false, not, Option, none, some, List, [], ◌∷◌, String, if◌then◌else◌,
}
use notifyr.Base.Int.{ℤ, pos, ◌+ℤ◌, ◌-ℤ◌, ltb_ℤ, is_zero}
use notifyr.Cost.Bill.{Bill, Cost, purchase, refund, reset_bill, generate_bill}
use notifyr.Cost.Price.{TaskCostDefinition, register_meta_key}
use notifyr.Cost.Wallet.{
  CostError, attribute_error, Reply, Outcome, done, silent, raised, Command, Rounds, Settings,
  Charge, deduct_credits, refund_credits, check_enough_credits,
}

-- The headers that one call of `inject_cost_info` appends to the response.
pub record CostInfo : Type 0 where
  pub definition : Option String
  pub credit_name : String
  pub current_balance : ℤ
  pub total_cost : ℤ
  pub plan : String

-- `none` is the AttributeError of appending a plan that is None, the last of the headers.
unfoldable pub inject_cost_info : Bill → String → ℤ → Option CostInfo
inject_cost_info bill credit total = elim bill.plan [
  | none ↦ none
  | some plan ↦ some (record {
    definition = bill.definition;
    credit_name = credit;
    current_balance = bill.balance_after;
    total_cost = bill.total +ℤ total;
    plan = plan;
  })
]

pub data Ended : Type 0 where
  finished : Ended
  -- CostLessThanZeroError and CostMoreThanZeroError.
  less_than_zero more_than_zero : ℤ → Ended
  failed : CostError → Ended

-- What a part of an interceptor leaves: the cost, the commands, the headers.
pub record Trace : Type 0 where
  pub ended : Ended
  pub cost : Cost
  pub executed : List Command
  pub info : Option CostInfo

unfoldable pub stopped : Ended → Cost → Trace
stopped ended cost = record { ended = ended; cost = cost; executed = []; info = none }

-- `Cost.inject_cost_info(response, bill, ...)` and what the interceptor does behind it.
unfoldable pub report : Charge → Option CostInfo → Cost → Cost → Trace
report charge none kept cost = record {
  ended = failed attribute_error;
  cost = kept;
  executed = charge.executed;
  info = none;
}
report charge (some info) kept cost = record {
  ended = finished;
  cost = cost;
  executed = charge.executed;
  info = some info;
}

-- What follows a call of CostService: its exception, or the headers and the cost.
unfoldable pub settle : Charge → String → ℤ → Cost → Cost → Trace
unfolding inject_cost_info report
settle charge credit total kept cost =
    let reported = report charge (inject_cost_info charge.bill credit total) kept cost in
    elim charge.outcome [
      | raised e ↦ record { ended = failed e; cost = kept; executed = charge.executed; info = none }
      | done ↦ reported
      | silent ↦ reported
    ]

-- What the calls of CostService need beside the cost.
pub record Till : Type 0 where
  pub settings : Settings
  -- REDIS_CREDIT_KEY_BUILDER, which RedisCreditKeyBuilder applies to the name of a credit.
  pub build_key : String → String
  pub bill_key : String
  pub plan : Option String
  pub version : Option String

-- TaskCostInterceptor.intercept_before; `compute` is `cost.compute_cost` at the request's arguments.
unfoldable pub before_task :
    Till → TaskCostDefinition → String → (Cost → Cost) → Rounds → ℕ → Cost → Trace
unfolding register_meta_key generate_bill reset_bill settle stopped
before_task till definition name compute redis retry_limit cost =
    let priced = compute (register_meta_key definition name cost) in
    let bill = generate_bill till.plan till.version priced in
    let noted = record priced { last_total = bill.total } in
    if ltb_ℤ bill.total (pos 0)
    then stopped (less_than_zero bill.total) noted
    else settle
        (deduct_credits till.settings (till.build_key definition.credit_key) till.bill_key redis
          retry_limit bill)
        definition.credit_key (pos 0) noted (reset_bill false noted)

-- TaskCostInterceptor.intercept_after, with what the pipeline of the refund answers.
unfoldable pub after_task : Till → String → Reply → Cost → Trace
unfolding generate_bill settle stopped
after_task till credit_key reply cost =
    let bill = generate_bill till.plan till.version cost in
    if is_zero bill.total
    then stopped finished cost
    else settle (refund_credits till.settings (till.build_key credit_key) till.bill_key reply bill)
        credit_key cost.last_total cost cost

-- DataCost. `init` only keeps the price and the key; a subclass may replace the other methods, and
-- `post_payment` is `post_refund` here.
unfoldable pub pre_purchase : String → ℤ → Cost → Cost
unfolding purchase
pre_purchase credit_key default_price self = purchase credit_key default_price (pos 1) self

unfoldable pub post_purchase : String → ℤ → Cost → Cost
unfolding purchase
post_purchase credit_key default_price self = purchase credit_key default_price (pos 1) self

unfoldable pub post_refund : String → ℤ → Cost → Cost
unfolding refund
post_refund credit_key default_price self = refund credit_key default_price (pos 1) self

-- DataCostInterceptor's mode.
pub data Mode : Type 0 where
  purchasing refunding : Mode

-- DataCostInterceptor.intercept_before. The test for a negative cost reads `cost.last_total`.
unfoldable pub before_data : Till → Mode → String → ℤ → Option ℤ → Cost → Trace
unfolding pre_purchase generate_bill reset_bill stopped
before_data till Mode.refunding credit price stored cost = stopped finished cost
before_data till Mode.purchasing credit price stored cost =
    let priced = pre_purchase credit price cost in
    let bill = generate_bill till.plan till.version priced in
    if ltb_ℤ priced.last_total (pos 0)
    then stopped (less_than_zero bill.total) priced
    else elim (check_enough_credits (till.build_key credit) stored bill.total) [
      | some e ↦ stopped (failed e) priced
      | none ↦ stopped finished (reset_bill false priced)
    ]

-- DataCostInterceptor.intercept_after. `reply` is what the pipeline of a refund answers.
unfoldable pub after_data : Till → Mode → String → ℤ → Rounds → ℕ → Reply → Cost → Trace
unfolding post_purchase post_refund generate_bill settle stopped
after_data till mode credit price redis retry_limit reply cost =
    let bought = post_purchase credit price cost in
    let bought_bill = generate_bill till.plan till.version bought in
    let returned = post_refund credit price cost in
    let returned_bill = generate_bill till.plan till.version returned in
    if cost.bypass then stopped finished cost else elim mode [
      | Mode.purchasing ↦
          if ltb_ℤ bought_bill.total (pos 0)
          then stopped (less_than_zero bought.last_total) bought
          else settle
              (deduct_credits till.settings (till.build_key credit) till.bill_key redis retry_limit
                bought_bill)
              credit (pos 0) bought bought
      | Mode.refunding ↦
          if ltb_ℤ (pos 0) returned_bill.total
          then stopped (more_than_zero returned_bill.total) returned
          else settle
              (refund_credits till.settings (till.build_key credit) till.bill_key reply
                returned_bill)
              credit (pos 0) returned returned
    ]
