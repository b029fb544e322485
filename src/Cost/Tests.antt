-- ===== src/Cost/Tests.antt =====
-- Concrete credits: a price, balances, and what the operations make of them.
use notifyr.Base.{ℕ, zero, suc, ◌<◌, ◌≡◌, refl, inl, true, false, none, some, [], ◌∷◌, arith}
use notifyr.Base.Int.{pos, ◌-ℤ◌, ◌+ℤ◌, ◌*ℤ◌}
use notifyr.Failure.{ok}
use notifyr.TaskKind.{now}
use notifyr.Cost.Bill.{
  bill_item, Bill, Cost, new_cost, purchase, refund, generate_bill, Call, calls,
}
use notifyr.Cost.Bill.Totals.{sum_items, IsConsistent, calls-generate_bill}
use notifyr.Cost.Wallet.{
  decrby, pipeline, type_error, raised, credit_deduction_failed, set_key, push, Rounds, Settings,
  deduct_credits,
}
use notifyr.Cost.Wallet.Deduct.{IsLost, charged, Accounts}
use notifyr.Cost.Wallet.Safety.{
  Store, apply_all, deduct_credits-Accounts, deduct_credits-charged, deduct_credits-exhausted,
}
use notifyr.Cost.Price.{TaskCostDefinition, Scheduler, compute_cost, register_meta_key}
use notifyr.Cost.Price.Formula.{compute_cost-price}
use notifyr.Cost.Gate.{CostRules, permission}
use notifyr.Cost.Gate.Admits.{gate_permission_iff}
use notifyr.Cost.Intercept.{failed, Till, after_task}
use notifyr.Cost.Intercept.Net.{IsReported, charge_stands, first_charge, left}
use notifyr.Cost.Merchant.{plain_cost, Merchant, safe_payment, safe_payment-keeps}

abbrev definition : TaskCostDefinition
definition = record {
  api_usage_cost = pos 2;
  credit_key = "email";
  max_free_content = pos 1;
  max_free_recipient = pos 3;
  content_extra_cost = pos 4;
  recipient_extra_cost = pos 1;
  priority_cost = pos 6;
  tracking_cost = pos 1;
  retry_cost = pos 1;
  allowed_task_option = "now" ∷ [];
  task_type_cost = [];
}

abbrev scheduler : Scheduler
scheduler = record { recipients = 2 ∷ 2 ∷ []; task_type = now; priority = 3 }

abbrev settings : Settings
settings = record { cost_flag = true; overdraft_allowed = false }

-- The first round is overtaken, the second one wins.
abbrev redis : Rounds
redis = record {
  read = λ n. some (pos 100);
  conflict = λ n. elim n [ zero ↦ true | suc _ ↦ false ];
}

abbrev calm : Rounds
calm = record { read = λ n. some (pos 100); conflict = λ n. false }

abbrev fresh : Cost
fresh = new_cost "request" "issuer" "now"

abbrev bought : Cost
bought = purchase "content" (pos 3) (pos 10) fresh

abbrev bill : Bill
bill = generate_bill none none bought

abbrev store : Store
store = record {
  apply = λ c b. elim c [ set_key k v ↦ v | decrby k v ↦ b -ℤ v | push k p ↦ b ];
  apply_set = λ k v b. refl;
  apply_push = λ k p b. refl;
}

deduct_credits-Accounts_example :
    Accounts settings "email" "bills" redis 5 bill
      (deduct_credits settings "email" "bills" redis 5 bill)
deduct_credits-Accounts_example = deduct_credits-Accounts settings "email" "bills" redis 5 bill

IsLost-first : (k : ℕ) → k < 1 → IsLost settings "email" "bills" redis bill k
unfolding generate_bill purchase bill_item new_cost ◌+ℤ◌ ◌-ℤ◌ ◌*ℤ◌
IsLost-first zero h = record { balance = pos 100; was_read = refl; can_pay = refl; raced = refl }
IsLost-first (suc k) h = absurd (omega (arith, h))

deduct_credits-charged_example :
    deduct_credits settings "email" "bills" redis 5 bill
    ≡ charged settings "email" "bills" redis bill (pos 100)
unfolding generate_bill purchase bill_item new_cost ◌+ℤ◌ ◌-ℤ◌ ◌*ℤ◌
deduct_credits-charged_example =
    deduct_credits-charged settings "email" "bills" redis 5 1 bill (pos 100) refl (omega arith)
      IsLost-first refl refl refl

deduct_credits-exhausted_example :
    let r = deduct_credits settings "email" "bills" redis 1 bill in
    (r.outcome ≡ raised credit_deduction_failed) × (r.executed ≡ [])
deduct_credits-exhausted_example =
    deduct_credits-exhausted settings "email" "bills" redis 1 bill refl IsLost-first

calls-generate_bill_example :
    let b = generate_bill none none (
      calls
        (Call.buy "a" (pos 2) (pos 3) ∷ Call.give_back "a" (pos 2) (pos 1) ∷ [])
        (new_cost "request" "issuer" "now")) in
    (b.purchase_total ≡ sum_items b.p_items)
    × (b.refund_total ≡ sum_items b.r_items)
    × (b.total ≡ sum_items b.p_items -ℤ sum_items b.r_items)
calls-generate_bill_example =
    calls-generate_bill "request" "issuer" "now" none none
      (Call.buy "a" (pos 2) (pos 3) ∷ Call.give_back "a" (pos 2) (pos 1) ∷ [])

bought-IsConsistent : IsConsistent bought
unfolding purchase bill_item new_cost ◌+ℤ◌ ◌*ℤ◌
bought-IsConsistent = record { purchases = refl; refunds = refl }

compute_cost-price_example :
    (compute_cost definition scheduler true false fresh).0.purchase_cost
    ≡ fresh.purchase_cost +ℤ pos 14
unfolding ◌+ℤ◌ ◌-ℤ◌ ◌*ℤ◌
compute_cost-price_example = (compute_cost-price definition scheduler true false fresh).0

abbrev rules : CostRules
rules = record {
  auto_block_on_zero_credit = none;
  overdraft_ratio_allowed = none;
  retry_allowed = false;
}

gate_permission_iff_example :
    permission rules [] definition (some (pos 5)) (some scheduler) false ≡ ok true
gate_permission_iff_example =
    (gate_permission_iff rules [] definition (some (pos 5)) (some scheduler) false).1
      (pos 5, refl, inl (omega arith), omega arith, refl, inl refl)

abbrev till : Till
till = record {
  settings = settings;
  build_key = λ k. k;
  bill_key = "bills";
  plan = some "pro";
  version = none;
}

-- A request that costs 30 and tries to give 5 back.
abbrev prices : Cost → Cost
prices c = purchase "content" (pos 3) (pos 10) c

abbrev gives_back : Cost
gives_back = refund "content" (pos 5) (pos 1) fresh

charge_stands_example :
    let first = first_charge store till definition "route" prices calm 5 fresh in
    let left_over = left store till definition "route" prices calm 5 fresh (pos 100) in
    let second = after_task till "email" pipeline gives_back in
    (left_over ≡ pos 100 -ℤ pos 30)
    × IsReported (some "pro") first (pos 30) left_over
    × (second.ended ≡ failed type_error)
    × (second.info ≡ none)
    × (apply_all store second.executed (pos 70) ≡ pos 70)
unfolding register_meta_key generate_bill purchase refund bill_item new_cost ◌+ℤ◌ ◌-ℤ◌ ◌*ℤ◌
charge_stands_example =
    charge_stands store till definition "route" prices calm 5 fresh (pos 100) (pos 70) pipeline
      gives_back
      (record {
        on = refl;
        limit = omega arith;
        fair = refl;
        read = refl;
        can_pay = refl;
        first = refl;
      })
      refl

abbrev merchant : Merchant
merchant = record {
  to_rollback = true;
  to_post_payment = false;
  kind = plain_cost "content" (pos 3) (pos 2);
  factor = pos 1;
  credit_key = "email";
}

safe_payment-keeps_example :
    let r = safe_payment till merchant false pipeline bought in
    (r.executed ≡ []) × (r.raises ≡ true) × (r.rolled_back ≡ true)
safe_payment-keeps_example = safe_payment-keeps till merchant pipeline bought refl
