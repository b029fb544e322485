-- ===== src/Cost/Merchant.antt =====
-- app/manager/merchant_manager.py: a payment that runs behind the response, and the refund where it
-- fails. What the paid function does is one of its two endings; what redis holds is a parameter.
use notifyr.Base.{arith, ◌≡◌, Bool, true, false, List, [], String, if◌then◌else◌}
use notifyr.Base.Int.{ℤ, ◌*ℤ◌}
use notifyr.Cost.Bill.{Cost, refund, reset_bill, generate_bill}
use notifyr.Cost.Wallet.{
  Outcome, raised, Command, Charge, Reply, refund_credits, get_credit_balance, check_db,
}
use notifyr.Cost.Intercept.{Till, post_refund}

-- The cost of the request: a DataCost with its price and key, whose `items` are one value that it does
-- not read; or another Cost, whose `items` are the description, amount and quantity to refund.
pub data Kind : Type 0 where
  data_cost : String → ℤ → Kind
  plain_cost : String → ℤ → ℤ → Kind

pub record Merchant : Type 0 where
  pub to_rollback : Bool
  pub to_post_payment : Bool
  pub kind : Kind
  -- The factor of `inject_cost`: 1 where the request bought, -1 where it was reimbursed.
  pub factor : ℤ
  pub credit_key : String

-- `self.refund()`: the total of the bill changes by the factor before it is settled.
unfoldable pub merchant_refund : Till → Merchant → Reply → Cost → Charge
unfolding generate_bill
merchant_refund till self reply cost =
    let bill = generate_bill till.plan till.version cost in
    refund_credits till.settings (till.build_key self.credit_key) till.bill_key reply
      (record bill { total = bill.total *ℤ self.factor })

-- The cost that a failed payment gives back: `post_refund(items)` of a DataCost, else
-- `cost.refund(*items)`.
unfoldable pub give_back : Kind → Cost → Cost
unfolding post_refund refund
give_back (data_cost key price) cost = post_refund key price cost
give_back (plain_cost description amount quantity) cost = refund description amount quantity cost

-- `cost.post_payment(p)`, which does nothing but for a DataCost.
unfoldable pub post_payment : Kind → Cost → Cost
unfolding post_refund
post_payment (data_cost key price) cost = post_refund key price cost
post_payment (plain_cost description amount quantity) cost = cost

-- What the wrapper of safe_payment has done when it ends: whether the rollback was called, and the
-- commands that redis executed. `raises` says that an exception leaves the background task.
pub record Ending : Type 0 where
  pub rolled_back : Bool
  pub executed : List Command
  pub raises : Bool

unfoldable pub raises_error : Outcome → Bool
raises_error (raised e) = true
raises_error _ = false

-- The wrapper of `safe_payment`: `works` is whether the function returns. Exceptions of the rollback,
-- and of the settlement after a payment that worked, are swallowed.
unfoldable pub safe_payment : Till → Merchant → Bool → Reply → Cost → Ending
unfolding merchant_refund give_back post_payment raises_error reset_bill
safe_payment till self works reply cost =
    let emptied = reset_bill false cost in
    if works
    then if self.to_post_payment
      then record {
        rolled_back = false;
        executed = (merchant_refund till self reply (post_payment self.kind emptied)).executed;
        raises = false;
      }
      else record { rolled_back = false; executed = []; raises = false }
    else (let charge = merchant_refund till self reply (give_back self.kind emptied) in
        record {
          rolled_back = self.to_rollback;
          executed = charge.executed;
          raises = raises_error charge.outcome;
        })

-- With costs on and whatever redis answers, a payment that fails ends in an exception of its own
-- refund: the rollback was called just when it was asked for, and no command of a refund is executed.
pub safe_payment-keeps :
    (till : Till) (self : Merchant) (reply : Reply) (cost : Cost)
    → till.settings.cost_flag ≡ true
    → let r = safe_payment till self false reply cost in
      (r.executed ≡ []) × (r.raises ≡ true) × (r.rolled_back ≡ self.to_rollback)
unfolding safe_payment merchant_refund raises_error refund_credits get_credit_balance check_db
safe_payment-keeps till self reply cost on = ground arith
