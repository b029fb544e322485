-- ===== src/Cost/Wallet/Safety.antt =====
-- What deduct_credits and check_enough_credits promise of the stored balance.
use notifyr.Base.{
  ℕ, zero, suc, ◌+◌, ◌<◌, ◌≡◌, refl, ◌∙◌, ◌↔◌, ◌⊎◌, inl, inr, true, false, not, ◌&&◌, Option, none,
  some, List, [], ◌∷◌, String, arith, Bool-cases, Option-cases,
}
use notifyr.Base.Int.{ℤ, pos, ◌-ℤ◌, ◌≤ℤ◌, ltb_ℤ, int_laws}
use notifyr.Cost.Bill.{Bill}
use notifyr.Cost.Wallet.{
  credit_deduction_failed, insufficient_credits, type_error, silent, raised, Command, set_key, push,
  Rounds, Settings, Charge, set_balance, push_bill, deduct_loop, deduct_credits,
  check_enough_credits,
}
use notifyr.Cost.Wallet.Deduct.{
  CanPay, IsLost, charged, Accounts, deduct_loop-after_lost, deduct_loop-exhausted,
  deduct_loop-lost, deduct_loop-charged,
}

module _ (s : Settings) (credit_key bill_key : String) (redis : Rounds) where
  deduct_loop-refused :
      (left n : ℕ) (bill : Bill) (balance : ℤ)
      → redis.read n ≡ some balance
      → (ltb_ℤ balance bill.total && not s.overdraft_allowed) ≡ true
      → deduct_loop s credit_key bill_key redis (suc left) n bill ≡ record {
        outcome = raised (insufficient_credits balance bill.total credit_key);
        executed = [];
        bill = bill;
      }
  unfolding deduct_loop
  deduct_loop-refused left n bill balance r c = ground arith

  deduct_loop-missing :
      (left n : ℕ) (bill : Bill)
      → redis.read n ≡ none
      → deduct_loop s credit_key bill_key redis (suc left) n bill
        ≡ record { outcome = raised type_error; executed = []; bill = bill }
  unfolding deduct_loop
  deduct_loop-missing left n bill r = ground arith

  new_balance_nonneg :
      (bill : Bill) (balance : ℤ)
      → CanPay s bill balance
      → (s.overdraft_allowed ≡ true) ⊎ (pos 0 ≤ℤ balance -ℤ bill.total)
  new_balance_nonneg bill balance c = elim (Bool-cases s.overdraft_allowed) [
    | inl y ↦ inl y
    | inr n ↦ inr (omega (int_laws, covered bill balance (rw n at c)))
  ]
    where
      covered :
          (bill : Bill) (balance : ℤ)
          → (ltb_ℤ balance bill.total && true) ≡ false
          → bill.total ≤ℤ balance
      covered bill balance h = ground arith

  deduct_loop-Accounts :
      (left n : ℕ) (bill : Bill)
      → Accounts s credit_key bill_key redis
          (n + left)
          bill
          (deduct_loop s credit_key bill_key redis left n bill)
  unfolding deduct_loop
  deduct_loop-Accounts zero n bill = inl (refl, λ e. cc)
  deduct_loop-Accounts (suc left) n bill = elim (Option-cases (redis.read n)) [
    | inl missing ↦ rw (deduct_loop-missing left n bill missing) (inl (refl, λ e. cc))
    | inr (balance, found) ↦
        elim (Bool-cases (ltb_ℤ balance bill.total && not s.overdraft_allowed)) [
          | inl short ↦
              rw (deduct_loop-refused left n bill balance found short) (inl (refl, λ e. cc))
          | inr pays ↦ elim (Bool-cases (redis.conflict n)) [
            | inr won ↦ inr (
              n,
              balance,
              omega arith,
              found,
              won,
              deduct_loop-charged s credit_key bill_key redis left n bill balance found pays won,
              new_balance_nonneg bill balance pays,
            )
            | inl raced ↦
                rw
                  (deduct_loop-lost s credit_key bill_key redis left n bill
                    (record { balance = balance; was_read = found; can_pay = pays; raced = raced }))
                  (again balance (deduct_loop-Accounts left (n + 1) (set_balance bill balance)))
          ]
        ]
  ]
    where
      shift : n + 1 + left ≡ n + suc left
      shift = omega arith

      again :
          (b : ℤ) {r : Charge}
          → Accounts s credit_key bill_key redis (n + 1 + left) (set_balance bill b) r
          → Accounts s credit_key bill_key redis (n + suc left) bill r
      again b (inl h) = inl h
      again b (inr (k, v, lt, found, won, e, safe)) =
          inr
            (k, v, rw (← shift) lt, found, won, unfold set_balance in e, unfold set_balance in safe)

  deduct_credits-on :
      (limit : ℕ) (bill : Bill)
      → s.cost_flag ≡ true
      → deduct_credits s credit_key bill_key redis limit bill
        ≡ deduct_loop s credit_key bill_key redis limit 0 bill
  unfolding deduct_credits
  deduct_credits-on limit bill on = simp on

  deduct_credits-off :
      (limit : ℕ) (bill : Bill)
      → s.cost_flag ≡ false
      → deduct_credits s credit_key bill_key redis limit bill
        ≡ record { outcome = silent; executed = []; bill = bill }
  unfolding deduct_credits
  deduct_credits-off limit bill off = simp off

  -- Whatever redis answers, deduct_credits either executes nothing and does not succeed, or exactly
  -- one round within the limit pays: it read the balance that it charges, its EXEC was not refused,
  -- the new balance is the old one less the total, and it is negative only under an overdraft rule.
  pub deduct_credits-Accounts :
      (limit : ℕ) (bill : Bill)
      → Accounts s credit_key bill_key redis limit bill
          (deduct_credits s credit_key bill_key redis limit bill)
  deduct_credits-Accounts limit bill = elim (Bool-cases s.cost_flag) [
    | inl on ↦
        rw (deduct_credits-on limit bill on)
          (let e : 0 + limit ≡ limit = omega arith in rw e at (deduct_loop-Accounts limit 0 bill))
    | inr off ↦ rw (deduct_credits-off limit bill off) (inl (refl, λ e. cc))
  ]

  -- With costs on, if every round before n could pay and lost the race, and round n can pay and
  -- wins, the call succeeds within the limit: one SET of the balance less the total, and the bill
  -- with both balances.
  pub deduct_credits-charged :
      (limit n : ℕ) (bill : Bill) (balance : ℤ)
      → s.cost_flag ≡ true
      → n < limit
      → ((k : ℕ) → k < n → IsLost s credit_key bill_key redis bill k)
      → redis.read n ≡ some balance
      → CanPay s bill balance
      → redis.conflict n ≡ false
      → deduct_credits s credit_key bill_key redis limit bill
        ≡ charged s credit_key bill_key redis bill balance
  deduct_credits-charged limit n bill balance on h lost r c k =
      rw (deduct_credits-on limit bill on) (
        deduct_loop-after_lost s credit_key bill_key redis n limit 0 bill balance h
          (λ i lt. rw (from_zero i) (lost i lt)) (rw (from_zero n) r) c (rw (from_zero n) k))
    where
      from_zero : (i : ℕ) → 0 + i ≡ i
      from_zero i = omega arith

  -- With costs on, if every round within the limit could pay and lost the race, the call raises
  -- CreditDeductionFailedError and nothing is executed.
  pub deduct_credits-exhausted :
      (limit : ℕ) (bill : Bill)
      → s.cost_flag ≡ true
      → ((k : ℕ) → k < limit → IsLost s credit_key bill_key redis bill k)
      → let r = deduct_credits s credit_key bill_key redis limit bill in
        (r.outcome ≡ raised credit_deduction_failed) × (r.executed ≡ [])
  deduct_credits-exhausted limit bill on lost =
      let (b, e) =
        deduct_loop-exhausted s credit_key bill_key redis limit 0 bill
          (λ i lt. let z : 0 + i ≡ i = omega arith in rw z (lost i lt)) in
      rw (deduct_credits-on limit bill on, e) (refl, refl)

-- A balance passes check_enough_credits exactly when it is there, is positive and covers the cost.
pub check_enough_credits_iff :
    (credit_key : String) (stored : Option ℤ) (cost : ℤ)
    → (check_enough_credits credit_key stored cost ≡ none)
      ↔ ((b : ℤ) × (stored ≡ some b) × (pos 1 ≤ℤ b) × (cost ≤ℤ b))
unfolding check_enough_credits
check_enough_credits_iff k none cost = (λ h. cc, λ (b, e, p, q). cc)
check_enough_credits_iff k (some b) cost =
    (λ h. (b, refl, positive h, covers h), λ (b', e, p, q). passes b' e p q)
  where
    positive : check_enough_credits k (some b) cost ≡ none → pos 1 ≤ℤ b
    positive h = ground arith

    covers : check_enough_credits k (some b) cost ≡ none → cost ≤ℤ b
    covers h = ground arith

    passes :
        (b' : ℤ)
        → some b ≡ some b'
        → pos 1 ≤ℤ b'
        → cost ≤ℤ b'
        → check_enough_credits k (some b) cost ≡ none
    passes b' e p q = ground arith

-- What redis does to a balance with each command, as far as the code relies on it.
pub record Store : Type 0 where
  pub apply : Command → ℤ → ℤ
  pub apply_set : (k : String) (v b : ℤ) → apply (set_key k v) b ≡ v
  pub apply_push : (k : String) (bill : Bill) (b : ℤ) → apply (push k bill) b ≡ b

abbrev pub apply_all : Store → List Command → ℤ → ℤ
apply_all store [] b = b
apply_all store (c ∷ cs) b = apply_all store cs (store.apply c b)

module _ (store : Store) (s : Settings) (credit_key bill_key : String) where
  apply_all-push_bill : (bill : Bill) (b : ℤ) → apply_all store (push_bill s bill_key bill) b ≡ b
  unfolding push_bill
  apply_all-push_bill bill b = ground (arith, store.apply_push bill_key bill b)

  -- The commands of a paid bill leave the balance that the bill reports.
  pub charged_balance :
      (redis : Rounds) (bill : Bill) (balance : ℤ)
      → let r = charged s credit_key bill_key redis bill balance in
        apply_all store r.executed balance ≡ r.bill.balance_after
  unfolding set_balance
  charged_balance redis bill balance =
      apply_all-push_bill (set_balance bill balance)
        (store.apply (set_key credit_key (balance -ℤ bill.total)) balance)
      ∙ store.apply_set credit_key (balance -ℤ bill.total) balance
