-- ===== src/Cost/Bill/Totals.antt =====
-- The running totals of a cost against its items.
use notifyr.Base.{◌≡◌, refl, ap, sym, ◌∙◌, ◌↔◌, Option, List, [], ◌∷◌, ◌++◌, String}
use notifyr.Base.Int.{ℤ, pos, pos_part, neg_part, ◌+ℤ◌, ◌-ℤ◌, int_laws}
use notifyr.Cost.Bill.{BillItem, Cost, Call, new_cost, generate_bill, add, call, calls}

-- The sum of the subtotals, independent of the running totals.
abbrev pub sum_items : List BillItem → ℤ
sum_items [] = pos 0
sum_items (item ∷ items) = item.subtotal +ℤ sum_items items

pub sum_items-append : (xs ys : List BillItem) → sum_items (xs ++ ys) ≡ sum_items xs +ℤ sum_items ys
sum_items-append [] ys = omega int_laws
sum_items-append (x ∷ xs) ys = rw (sum_items-append xs ys) (omega int_laws)

-- The running totals are the sums of the items.
pub record IsConsistent (c : Cost) : Type 0 where
  pub purchases : c.purchase_cost ≡ sum_items c.purchase_items
  pub refunds : c.refund_cost ≡ sum_items c.refund_items

new_cost-IsConsistent : (r i t : String) → IsConsistent (new_cost r i t)
unfolding new_cost
new_cost-IsConsistent r i t = record { purchases = refl; refunds = refl }

call-IsConsistent : (k : Call) (c : Cost) → IsConsistent c → IsConsistent (call k c)
unfolding call
call-IsConsistent (Call.buy d a q) c h = record {
  purchases = rw (h.purchases, sum_items-append c.purchase_items) (omega int_laws);
  refunds = h.refunds;
}
call-IsConsistent (Call.give_back d a q) c h = record {
  purchases = h.purchases;
  refunds = rw (h.refunds, sum_items-append c.refund_items) (omega int_laws);
}
call-IsConsistent (Call.reset f) c h = record { purchases = refl; refunds = refl }

pub calls-IsConsistent : (ks : List Call) (c : Cost) → IsConsistent c → IsConsistent (calls ks c)
unfolding calls
calls-IsConsistent [] c h = h
calls-IsConsistent (k ∷ ks) c h = calls-IsConsistent ks (call k c) (call-IsConsistent k c h)

-- After any calls on a fresh cost, the bill's three totals are what its own items add up to.
pub calls-generate_bill :
    (request_id issuer now : String) (plan version : Option String) (ks : List Call)
    → let b = generate_bill plan version (calls ks (new_cost request_id issuer now)) in
      (b.purchase_total ≡ sum_items b.p_items)
      × (b.refund_total ≡ sum_items b.r_items)
      × (b.total ≡ sum_items b.p_items -ℤ sum_items b.r_items)
unfolding generate_bill
calls-generate_bill r i t p v ks =
    let h = calls-IsConsistent ks (new_cost r i t) (new_cost-IsConsistent r i t) in
    (h.purchases, h.refunds, λ j. h.purchases j -ℤ h.refunds j)

+ℤ_cancel_left : (a b c : ℤ) → a +ℤ b ≡ a +ℤ c → b ≡ c
+ℤ_cancel_left a b c e = omega (int_laws, ap pos_part e, ap neg_part e)

-- The sum of two consistent costs is consistent exactly when they refund the same amount, since the
-- refund items that it appends are its own.
pub add-IsConsistent :
    (a b : Cost)
    → IsConsistent a
    → IsConsistent b
    → IsConsistent (add a b) ↔ (a.refund_cost ≡ b.refund_cost)
unfolding add
add-IsConsistent a b ha hb = (
  λ h. +ℤ_cancel_left a.refund_cost a.refund_cost b.refund_cost (
      sym (
        h.refunds ∙ sum_items-append a.refund_items a.refund_items ∙ λ j.
        sym ha.refunds j +ℤ sym ha.refunds j)),
  λ e. record {
    purchases =
        rw (ha.purchases, hb.purchases) (sym (sum_items-append a.purchase_items b.purchase_items));
    refunds = rw (← e, ha.refunds) (sym (sum_items-append a.refund_items a.refund_items));
  },
)
