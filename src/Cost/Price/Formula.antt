-- ===== src/Cost/Price/Formula.antt =====
-- The price of a task as one formula, and its sign.
use notifyr.Base.{
  ℕ, ◌+◌, ◌≡◌, refl, Bool, true, false, List, [], ◌∷◌, String, arith, length, lookup_or,
  if◌then◌else◌,
}
use notifyr.Base.Int.{
  ℤ, pos, negsuc, ◌+ℤ◌, ◌-ℤ◌, ◌*ℤ◌, ◌≤ℤ◌, ltb_ℤ, trunc_div, int_laws, *ℤ_one, *ℤ_nonneg,
  trunc_div_nonneg,
}
use notifyr.TaskKind.{value}
use notifyr.Cost.Bill.{Cost, purchase}
use notifyr.Cost.Price.{TaskCostDefinition, Scheduler, count_recipients, purchase_if, compute_cost}

abbrev pub sum : List ℕ → ℕ
sum [] = 0
sum (n ∷ ns) = n + sum ns

pub count_recipients-eq-sum : (total : ℕ) (ns : List ℕ) → count_recipients total ns ≡ total + sum ns
unfolding count_recipients
count_recipients-eq-sum total [] = omega arith
count_recipients-eq-sum total (n ∷ ns) = omega (arith, count_recipients-eq-sum (total + n) ns)

-- The part of a count above what is free.
abbrev pub excess : ℕ → ℤ → ℤ
excess n free = if ltb_ℤ (pos 0) (pos n -ℤ free) then pos n -ℤ free else pos 0

abbrev pub amount_if : Bool → ℤ → ℤ
amount_if test amount = if test then amount else pos 0

-- The price, written down without the items.
abbrev pub price : TaskCostDefinition → Scheduler → Bool → Bool → ℤ
price d s will_track retry =
    let reached = sum s.recipients in
    amount_if (ltb_ℤ (pos 0) (pos (length s.recipients) -ℤ d.max_free_content))
      (d.content_extra_cost *ℤ (pos (length s.recipients) -ℤ d.max_free_content))
    +ℤ amount_if (ltb_ℤ (pos 0) (pos reached -ℤ d.max_free_recipient))
        (d.recipient_extra_cost *ℤ (pos reached -ℤ d.max_free_recipient))
    +ℤ amount_if will_track (d.tracking_cost *ℤ pos reached)
    +ℤ amount_if retry (d.retry_cost *ℤ pos reached)
    +ℤ trunc_div d.priority_cost s.priority
    +ℤ lookup_or (value s.task_type) d.task_type_cost (pos 1)
    +ℤ d.api_usage_cost

purchase_if-cost :
    (test : Bool) (t : String) (a q : ℤ) (c : Cost)
    → (purchase_if test t a q c).purchase_cost ≡ c.purchase_cost +ℤ amount_if test (a *ℤ q)
unfolding purchase_if
purchase_if-cost true t a q c = refl
purchase_if-cost false t a q c = omega int_laws

purchase-cost_one :
    (t : String) (a : ℤ) (c : Cost) → (purchase t a (pos 1) c).purchase_cost ≡ c.purchase_cost +ℤ a
unfolding purchase
purchase-cost_one t a c = rw (*ℤ_one a)

-- compute_cost adds exactly the price to the cost, and returns the numbers of contents and
-- recipients.
pub compute_cost-price :
    (d : TaskCostDefinition) (s : Scheduler) (will_track retry : Bool) (c : Cost)
    → let (c', contents, reached) = compute_cost d s will_track retry c in
      (c'.purchase_cost ≡ c.purchase_cost +ℤ price d s will_track retry)
      × (contents ≡ length s.recipients)
      × (reached ≡ sum s.recipients)
unfolding compute_cost
compute_cost-price d s will_track retry c = (
  simp (all_recipients, purchase-cost_one, purchase_if-cost) (omega int_laws),
  refl,
  all_recipients,
)
  where
    all_recipients : count_recipients 0 s.recipients ≡ sum s.recipients
    all_recipients = omega (arith, count_recipients-eq-sum 0 s.recipients)

-- No price in the definition is negative.
pub record IsFair (d : TaskCostDefinition) (s : Scheduler) : Type 0 where
  pub api : pos 0 ≤ℤ d.api_usage_cost
  pub content : pos 0 ≤ℤ d.content_extra_cost
  pub recipient : pos 0 ≤ℤ d.recipient_extra_cost
  pub priority : pos 0 ≤ℤ d.priority_cost
  pub tracking : pos 0 ≤ℤ d.tracking_cost
  pub retry : pos 0 ≤ℤ d.retry_cost
  pub task_type : pos 0 ≤ℤ lookup_or (value s.task_type) d.task_type_cost (pos 1)

amount_if_nonneg : (test : Bool) (a : ℤ) → pos 0 ≤ℤ a → pos 0 ≤ℤ amount_if test a
amount_if_nonneg true a h = h
amount_if_nonneg false a h = omega arith

extra_nonneg : (a q : ℤ) → pos 0 ≤ℤ a → pos 0 ≤ℤ amount_if (ltb_ℤ (pos 0) q) (a *ℤ q)
extra_nonneg a (pos n) h = amount_if_nonneg _ _ (*ℤ_nonneg a (pos n) h (omega arith))
extra_nonneg a (negsuc n) h = ground arith

+ℤ_nonneg : (a b : ℤ) → pos 0 ≤ℤ a → pos 0 ≤ℤ b → pos 0 ≤ℤ a +ℤ b
+ℤ_nonneg a b h k = omega int_laws

-- Under a definition with no negative price, a task never costs less than nothing.
pub price_nonneg :
    (d : TaskCostDefinition) (s : Scheduler) (will_track retry : Bool)
    → IsFair d s
    → pos 0 ≤ℤ price d s will_track retry
price_nonneg d s will_track retry f =
    +ℤ_nonneg _ d.api_usage_cost
      (+ℤ_nonneg _ (lookup_or (value s.task_type) d.task_type_cost (pos 1))
        (+ℤ_nonneg _ (trunc_div d.priority_cost s.priority)
          (+ℤ_nonneg _ (amount_if retry (d.retry_cost *ℤ pos (sum s.recipients)))
            (+ℤ_nonneg _ (amount_if will_track (d.tracking_cost *ℤ pos (sum s.recipients)))
              (+ℤ_nonneg _ _ (extra_nonneg d.content_extra_cost _ f.content)
                (extra_nonneg d.recipient_extra_cost _ f.recipient))
              (amount_if_nonneg will_track _
                (*ℤ_nonneg d.tracking_cost (pos (sum s.recipients)) f.tracking (omega arith))))
            (amount_if_nonneg retry _
              (*ℤ_nonneg d.retry_cost (pos (sum s.recipients)) f.retry (omega arith))))
          (trunc_div_nonneg d.priority_cost s.priority f.priority))
        f.task_type)
      f.api
