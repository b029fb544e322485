-- ===== src/Cost/Intercept/Net.antt =====
-- app/decorators/interceptors.py: what a request costs in the end, and what its headers say.
use notifyr.Base.{
  [], ℕ, ◌<◌, ◌≡◌, ◌∙◌, ap, refl, ◌⊎◌, inl, inr, true, false, Option, none, some, String, arith,
}
use notifyr.Base.Int.{ℤ, pos, ◌+ℤ◌, ◌-ℤ◌, ltb_ℤ, is_zero, int_laws}
use notifyr.Cost.Bill.{Bill, Cost, reset_bill, generate_bill}
use notifyr.Cost.Price.{TaskCostDefinition, register_meta_key}
use notifyr.Cost.Wallet.{
  type_error, attribute_error, Rounds, Reply, pipeline, missing, stored, Charge, set_balance,
  refund_credits, get_credit_balance, check_db,
}
use notifyr.Cost.Wallet.Deduct.{CanPay, charged}
use notifyr.Cost.Wallet.Safety.{Store, apply_all, charged_balance, deduct_credits-charged}
use notifyr.Cost.Intercept.{
  failed, report, CostInfo, finished, Trace, settle, Till, before_task, after_task,
  inject_cost_info,
}

-- What the response says of a charge that went through: with a plan, the headers report what the
-- balance has lost and what is left of it; without one, the charge ends in an AttributeError.
abbrev pub IsReported : Option String → Trace → ℤ → ℤ → Type 0
IsReported plan trace paid rest =
    ((info : CostInfo) × (plan ≡ some info.plan)
      × (trace.ended ≡ finished)
      × (trace.info ≡ some info)
      × (info.total_cost ≡ paid)
      × (info.current_balance ≡ rest))
    ⊎ ((plan ≡ none) × (trace.ended ≡ failed attribute_error) × (trace.info ≡ none))

module _ (store : Store) (till : Till) (definition : TaskCostDefinition) (name : String)
    (compute : Cost → Cost) (redis : Rounds) (retry_limit : ℕ) (cost : Cost) where
  -- The cost of the request once it is priced, and the bill of it.
  abbrev pub priced : Cost
  priced = compute (register_meta_key definition name cost)

  abbrev pub bill : Bill
  bill = generate_bill till.plan till.version priced

  -- Costs are on, the price is not negative, and the first round reads a balance that covers it and
  -- is not overtaken.
  pub record IsPaid (balance : ℤ) : Type 0 where
    pub on : till.settings.cost_flag ≡ true
    pub limit : 0 < retry_limit
    pub fair : ltb_ℤ bill.total (pos 0) ≡ false
    pub read : redis.read 0 ≡ some balance
    pub can_pay : CanPay till.settings bill balance
    pub first : redis.conflict 0 ≡ false

  before_task-paid :
      (balance : ℤ)
      → IsPaid balance
      → let c =
          charged till.settings
            (till.build_key definition.credit_key)
            till.bill_key
            redis
            bill
            balance in
        let noted = record priced { last_total = bill.total } in
        before_task till definition name compute redis retry_limit cost
        ≡ report c
            (inject_cost_info c.bill definition.credit_key (pos 0))
            noted
            (reset_bill false noted)
  unfolding before_task settle
  before_task-paid balance paid =
      let e =
        deduct_credits-charged till.settings (till.build_key definition.credit_key) till.bill_key
          redis retry_limit 0 bill balance paid.on paid.limit (λ k lt. absurd (omega (arith, lt)))
          paid.read paid.can_pay paid.first in
      ground (arith, e, paid.fair)

  -- The trace of the first charge, and the balance that its commands leave.
  abbrev pub first_charge : Trace
  first_charge = before_task till definition name compute redis retry_limit cost

  abbrev pub left : ℤ → ℤ
  left balance = apply_all store first_charge.executed balance

  report-executed :
      (c : Charge) (i : Option CostInfo) (kept after : Cost)
      → (report c i kept after).executed ≡ c.executed
  unfolding report
  report-executed c none kept after = refl
  report-executed c (some i) kept after = refl

  left_lem : (balance : ℤ) → IsPaid balance → left balance ≡ balance -ℤ bill.total
  unfolding set_balance
  left_lem balance paid =
      ap (λ t. apply_all store t.executed balance) (before_task-paid balance paid)
      ∙ ap (λ commands. apply_all store commands balance) (report-executed _ _ _ _)
      ∙ charged_balance store till.settings (till.build_key definition.credit_key) till.bill_key
          redis bill balance

  after_task-fails :
      (reply : Reply) (after : Cost)
      → till.settings.cost_flag ≡ true
      → is_zero (generate_bill till.plan till.version after).total ≡ false
      → let second = after_task till definition.credit_key reply after in
        (second.ended ≡ failed type_error) × (second.info ≡ none) × (second.executed ≡ [])
  unfolding after_task refund_credits get_credit_balance check_db
  after_task-fails pipeline after on unpaid = ground arith
  after_task-fails missing after on unpaid = ground arith
  after_task-fails (stored b) after on unpaid = ground arith

  report-IsReported :
      (plan : Option String) (paid : ℤ) (c : Charge) (b : Bill) (credit : String)
      (kept after : Cost)
      → b.plan ≡ plan
      → b.total +ℤ pos 0 ≡ paid
      → IsReported plan
          (report c (inject_cost_info b credit (pos 0)) kept after)
          paid
          b.balance_after
  unfolding report inject_cost_info
  report-IsReported none paid c b credit kept after e total = inr (refl, rw e refl, rw e refl)
  report-IsReported (some plan) paid c b credit kept after e total =
      let info : CostInfo = record {
        definition = b.definition;
        credit_name = credit;
        current_balance = b.balance_after;
        total_cost = b.total +ℤ pos 0;
        plan = plan;
      } in
      inl (info, refl, rw e refl, rw e refl, total, refl)

  -- A request that the first round of its first charge pays for loses the total of its bill: with a
  -- plan the headers report that total and what is left, and without one the charge, which stands, ends
  -- in an AttributeError. Whatever its handler then gives back or buys, so that the bill of the second
  -- charge is not 0, and whatever redis answers, that charge ends in a TypeError, reports nothing, and
  -- leaves the balance as it is.
  pub charge_stands :
      (balance later : ℤ) (reply : Reply) (after : Cost)
      → IsPaid balance
      → is_zero (generate_bill till.plan till.version after).total ≡ false
      → let second = after_task till definition.credit_key reply after in
        (left balance ≡ balance -ℤ bill.total)
        × IsReported till.plan first_charge bill.total (left balance)
        × (second.ended ≡ failed type_error)
        × (second.info ≡ none)
        × (apply_all store second.executed later ≡ later)
  unfolding generate_bill set_balance
  charge_stands balance later reply after paid unpaid =
      let (ended, info, executed) = after_task-fails reply after paid.on unpaid in
      (
        left_lem balance paid,
        rw (left_lem balance paid) (
            rw (before_task-paid balance paid)
              (report-IsReported till.plan bill.total _ _ _ _ _ refl (omega int_laws))),
        ended,
        info,
        ap (λ commands. apply_all store commands later) executed,
      )
