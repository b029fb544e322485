-- ===== src/Cost/Wallet.antt =====
-- app/services/cost_service.py, the balance operations of CostService. Redis is not part of the
-- repository: what it answers at each round comes as a parameter, and what the code asks it to
-- execute comes out as a list of commands. A stored balance is a whole number, or missing.
pub mod Deduct
pub mod Safety
use notifyr.Base.{
  ℕ, zero, suc, ◌+◌, Bool, not, ◌&&◌, ◌||◌, Option, none, some, List, [], ◌∷◌, String,
  if◌then◌else◌,
}
use notifyr.Base.Int.{ℤ, pos, ◌-ℤ◌, ltb_ℤ, leb_ℤ, is_zero}
use notifyr.Cost.Bill.{Bill}

-- `current_balance`, `purchase_cost` and `credit` of InsufficientCreditsError are kept.
pub data CostError : Type 0 where
  invalid_purchase_request : CostError
  insufficient_credits : ℤ → ℤ → String → CostError
  credit_deduction_failed : CostError
  -- Python's TypeError, of `int(None)` and of a call with an argument given twice, and its
  -- AttributeError, of a header that is None.
  type_error attribute_error : CostError

pub data Outcome : Type 0 where
  -- The call returned None.
  done : Outcome
  -- `CreditSilentFail`: costs are switched off, and the decorator returned its value.
  silent : Outcome
  raised : CostError → Outcome

-- What is sent to redis: SET, DECRBY and LPUSH.
pub data Command : Type 0 where
  set_key decrby : String → ℤ → Command
  push : String → Bill → Command

-- What redis answers in round n of the retry loop: the balance that GET reads between WATCH and
-- MULTI, and whether EXEC raises WatchError because another client wrote the key meanwhile.
pub record Rounds : Type 0 where
  pub read : ℕ → Option ℤ
  pub conflict : ℕ → Bool

-- COST_FLAG, and `rules.get('credit_overdraft_allowed', False)`.
pub record Settings : Type 0 where
  pub cost_flag : Bool
  pub overdraft_allowed : Bool

-- How a call ended, the commands that were executed, and the bill, which the call mutates.
pub record Charge : Type 0 where
  pub outcome : Outcome
  pub executed : List Command
  pub bill : Bill

-- `set_balance(bill, balance)`.
unfoldable pub set_balance : Bill → ℤ → Bill
set_balance bill balance = record bill {
  balance_before = balance;
  balance_after = balance -ℤ bill.total;
}

-- `push_bill`: nothing for a total of 0, and nothing where costs are switched off. The key holds
-- the month of the bill.
unfoldable pub push_bill : Settings → String → Bill → List Command
push_bill s bill_key bill =
    if not s.cost_flag || is_zero bill.total then [] else push bill_key bill ∷ []

-- One round of the `while` of deduct_credits: it ends the call, or EXEC failed and the loop goes on
-- with the bill as `set_balance` has left it.
pub data Round : Type 0 where
  ended : Charge → Round
  watch_error : Bill → Round

unfoldable pub deduct_with : Settings → String → String → Bool → ℤ → Bill → Round
unfolding set_balance push_bill
deduct_with s credit_key bill_key conflict balance bill =
    if ltb_ℤ balance bill.total && not s.overdraft_allowed
    then ended (record {
      outcome = raised (insufficient_credits balance bill.total credit_key);
      executed = [];
      bill = bill;
    })
    else (let charged = set_balance bill balance in
        if conflict
        then watch_error charged
        else ended (record {
          outcome = done;
          executed = set_key credit_key (balance -ℤ bill.total) ∷ push_bill s bill_key charged;
          bill = charged;
        }))

-- `int(current_balance)` stands before the test for None, so a missing balance is a TypeError.
unfoldable pub deduct_round : Settings → String → String → Option ℤ → Bool → Bill → Round
unfolding deduct_with
deduct_round s credit_key bill_key none conflict bill =
    ended (record { outcome = raised type_error; executed = []; bill = bill })
deduct_round s credit_key bill_key (some balance) conflict bill =
    deduct_with s credit_key bill_key conflict balance bill

-- The loop, with the rounds that are left and the number of the next round.
unfoldable pub deduct_loop : Settings → String → String → Rounds → ℕ → ℕ → Bill → Charge
unfolding deduct_round
deduct_loop s credit_key bill_key redis zero retry bill = record {
  outcome = raised credit_deduction_failed;
  executed = [];
  bill = bill;
}
deduct_loop s credit_key bill_key redis (suc left) retry bill =
    elim (deduct_round s credit_key bill_key (redis.read retry) (redis.conflict retry) bill) [
      | ended result ↦ result
      | watch_error charged ↦ deduct_loop s credit_key bill_key redis left (retry + 1) charged
    ]

-- `deduct_credits(credit_key, bill, retry_limit)`, with its decorator CreditSilentFail(0).
unfoldable pub deduct_credits : Settings → String → String → Rounds → ℕ → Bill → Charge
unfolding deduct_loop
deduct_credits s credit_key bill_key redis retry_limit bill =
    if s.cost_flag
    then deduct_loop s credit_key bill_key redis retry_limit 0 bill
    else record { outcome = silent; executed = []; bill = bill }

-- What `retrieve` hands on of a GET: a pipeline that watches no key queues the command and answers with
-- itself; a connection answers with the value, or with None.
pub data Reply : Type 0 where
  pipeline missing : Reply
  stored : ℤ → Reply

-- An exception, or a value.
pub data Answer (A : Type 0) : Type 0 where
  answer : A → Answer A
  raises : CostError → Answer A

-- `get_credit_balance(credit_key, redis=pipe)`: `int` of a pipeline is a TypeError.
unfoldable pub get_credit_balance : Reply → Answer (Option ℤ)
get_credit_balance pipeline = raises type_error
get_credit_balance missing = answer none
get_credit_balance (stored balance) = answer (some balance)

-- The wrapper `check_db` of app/services/database/redis_service.py around a command with the parameters
-- database, name, amount and redis, called with so many arguments by position behind the database. It
-- adds `redis` by name: a TypeError where `redis` is among the ones by position.
unfoldable pub check_db : ℕ → Answer (Unit {0})
check_db zero = raises type_error
check_db (suc zero) = raises type_error
check_db (suc (suc zero)) = answer tt
check_db (suc (suc (suc n))) = raises type_error

-- `set_balance(bill, balance)` for a balance that may be None.
abbrev set_option_balance : Bill → Option ℤ → Answer Bill
set_option_balance bill none = raises type_error
set_option_balance bill (some balance) = answer (set_balance bill balance)

-- `refund_credits(credit_key, bill)`, for what the pipeline answers to the GET: the decrement by
-- `pipe.decrby` is given the name, the amount and the pipeline by position.
unfoldable pub refund_credits : Settings → String → String → Reply → Bill → Charge
unfolding get_credit_balance check_db set_balance push_bill
refund_credits s credit_key bill_key reply bill =
    let ends : Outcome → List Command → Bill → Charge =
      λ outcome executed bill. record { outcome = outcome; executed = executed; bill = bill } in
    if not s.cost_flag then ends silent [] bill else elim (get_credit_balance reply) [
      | raises e ↦ ends (raised e) [] bill
      | answer balance ↦ elim (check_db 3) [
        | raises e ↦ ends (raised e) [] bill
        | answer _ ↦ elim (set_option_balance bill balance) [
          | raises e ↦ ends (raised e) [] bill
          | answer noted ↦
              ends done (decrby credit_key bill.total ∷ push_bill s bill_key noted) noted
        ]
      ]
    ]

-- `check_enough_credits(credit_key, purchase_cost)`; `none` means that it returned.
unfoldable pub check_enough_credits : String → Option ℤ → ℤ → Option CostError
check_enough_credits credit_key none purchase_cost = some invalid_purchase_request
check_enough_credits credit_key (some balance) purchase_cost =
    if leb_ℤ balance (pos 0)
    then some (insufficient_credits balance purchase_cost credit_key)
    else if ltb_ℤ balance purchase_cost
    then some (insufficient_credits balance purchase_cost credit_key)
    else none
