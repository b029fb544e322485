-- ===== src/Cost/Wallet/Deduct.antt =====
-- The retry loop of deduct_credits in app/services/cost_service.py.
use notifyr.Base.{
  ℕ, zero, suc, ◌+◌, ◌<◌, ◌≡◌, refl, ◌∙◌, ◌≢◌, ◌⊎◌, true, false, not, ◌&&◌, some, [], ◌∷◌, String,
  arith,
}
use notifyr.Base.Int.{ℤ, pos, ◌-ℤ◌, ◌≤ℤ◌, ltb_ℤ}
use notifyr.Cost.Bill.{Bill}
use notifyr.Cost.Wallet.{
  credit_deduction_failed, done, raised, set_key, Rounds, Settings, Charge, set_balance, push_bill,
  deduct_loop,
}

-- A balance may pay the bill: it covers the total, or the rules allow an overdraft.
abbrev pub CanPay : Settings → Bill → ℤ → Type 0
CanPay s bill balance = (ltb_ℤ balance bill.total && not s.overdraft_allowed) ≡ false

module _ (s : Settings) (credit_key bill_key : String) (redis : Rounds) where
  -- Round n could pay, and lost the race for the key.
  pub record IsLost (bill : Bill) (n : ℕ) : Type 0 where
    pub balance : ℤ
    pub was_read : redis.read n ≡ some balance
    pub can_pay : CanPay s bill balance
    pub raced : redis.conflict n ≡ true

  -- What a call that charges `bill` at the balance that it read gives back.
  abbrev pub charged : Bill → ℤ → Charge
  charged bill balance = record {
    outcome = done;
    executed =
        set_key credit_key (balance -ℤ bill.total)
        ∷ push_bill s bill_key (set_balance bill balance);
    bill = set_balance bill balance;
  }

  pub deduct_loop-lost :
      (left n : ℕ) (bill : Bill) (lost : IsLost bill n)
      → deduct_loop s credit_key bill_key redis (suc left) n bill
        ≡ deduct_loop s credit_key bill_key redis left (n + 1) (set_balance bill lost.balance)
  unfolding deduct_loop
  deduct_loop-lost left n bill lost = ground (arith, lost.was_read, lost.can_pay, lost.raced)

  IsLost-set_balance : (bill : Bill) (b : ℤ) (n : ℕ) → IsLost bill n → IsLost (set_balance bill b) n
  unfolding set_balance
  IsLost-set_balance bill b n h = record {
    balance = h.balance;
    was_read = h.was_read;
    can_pay = h.can_pay;
    raced = h.raced;
  }

  pub deduct_loop-charged :
      (left n : ℕ) (bill : Bill) (balance : ℤ)
      → redis.read n ≡ some balance
      → CanPay s bill balance
      → redis.conflict n ≡ false
      → deduct_loop s credit_key bill_key redis (suc left) n bill ≡ charged bill balance
  unfolding deduct_loop
  deduct_loop-charged left n bill balance r c k = ground arith

  -- Lost rounds n, n + 1, …, up to the paying round n + j.
  pub deduct_loop-after_lost :
      (j left n : ℕ) (bill : Bill) (balance : ℤ)
      → j < left
      → ((k : ℕ) → k < j → IsLost bill (n + k))
      → redis.read (n + j) ≡ some balance
      → CanPay s bill balance
      → redis.conflict (n + j) ≡ false
      → deduct_loop s credit_key bill_key redis left n bill ≡ charged bill balance
  deduct_loop-after_lost j zero n bill balance h lost r c k = absurd (omega arith)
  deduct_loop-after_lost zero (suc left) n bill balance h lost r c k =
      let e : n + 0 ≡ n = omega arith in
      deduct_loop-charged left n bill balance (rw e at r) c (rw e at k)
  deduct_loop-after_lost (suc j) (suc left) n bill balance h lost r c k =
      deduct_loop-lost left n bill first
      ∙ deduct_loop-after_lost j left (n + 1) (set_balance bill first.balance) balance (omega arith)
          (λ i lt.
            rw (shift i)
              (IsLost-set_balance bill first.balance (n + suc i) (lost (suc i) (omega arith))))
          (rw (shift j) r) (unfold set_balance in c) (rw (shift j) k)
      ∙ unfold set_balance in refl
    where
      shift : (i : ℕ) → n + 1 + i ≡ n + suc i
      shift i = omega arith

      first : IsLost bill n
      first = let e : n + 0 ≡ n = omega arith in rw e at (lost 0 (omega arith))

  pub deduct_loop-exhausted :
      (left n : ℕ) (bill : Bill)
      → ((k : ℕ) → k < left → IsLost bill (n + k))
      → (b : Bill) × (deduct_loop s credit_key bill_key redis left n bill
          ≡ record { outcome = raised credit_deduction_failed; executed = []; bill = b })
  unfolding deduct_loop
  deduct_loop-exhausted zero n bill lost = (bill, refl)
  deduct_loop-exhausted (suc left) n bill lost =
      let (b, e) = deduct_loop-exhausted left (n + 1) (set_balance bill first.balance) (λ i lt.
        rw (shift i)
          (IsLost-set_balance bill first.balance (n + suc i) (lost (suc i) (omega arith)))) in
      (b, deduct_loop-lost left n bill first ∙ e)
    where
      shift : (i : ℕ) → n + 1 + i ≡ n + suc i
      shift i = omega arith

      first : IsLost bill n
      first = let e : n + 0 ≡ n = omega arith in rw e at (lost 0 (omega arith))

  -- How a call may end: nothing is executed and it is not a success, or one round paid: it read the
  -- balance, won the race, and the new balance is not negative unless overdrafts are allowed.
  abbrev pub Accounts : ℕ → Bill → Charge → Type 0
  Accounts limit bill result =
      ((result.executed ≡ []) × (result.outcome ≢ done))
      ⊎ ((n : ℕ) × (balance : ℤ) × (n < limit)
          × (redis.read n ≡ some balance)
          × (redis.conflict n ≡ false)
          × (result ≡ charged bill balance)
          × ((s.overdraft_allowed ≡ true) ⊎ (pos 0 ≤ℤ balance -ℤ bill.total)))
