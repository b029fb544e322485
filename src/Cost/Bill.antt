-- ===== src/Cost/Bill.antt =====
-- app/definition/_cost.py, classes Cost and DataCost, and BillItem and Bill of
-- app/classes/cost_definition.py: the items that a request buys and gives back, with running totals.
-- Amounts and quantities are Python ints, so `math.ceil` of a subtotal is the subtotal. A method that
-- mutates `self` returns the new record. Time stamps, the plan and its version come as texts.
pub mod Totals
use notifyr.Base.{
  ℕ, ◌≡◌, Bool, false, Option, none, some, List, [], ◌∷◌, ◌++◌, String, if◌then◌else◌,
}
use notifyr.Base.Int.{ℤ, pos, ◌+ℤ◌, ◌-ℤ◌, ◌*ℤ◌}

pub record BillItem : Type 0 where
  pub description : String
  pub amount : ℤ
  pub quantity : ℤ
  pub subtotal : ℤ

-- `BillItem(description, amount, quantity)`, with `__post_init__`.
unfoldable pub bill_item : String → ℤ → ℤ → BillItem
bill_item description amount quantity = record {
  description = description;
  amount = amount;
  quantity = quantity;
  subtotal = amount *ℤ quantity;
}

pub record Bill : Type 0 where
  pub request_id : String
  pub issuer : String
  pub definition : Option String
  pub created_at : String
  pub p_items : List BillItem
  pub r_items : List BillItem
  pub purchase_total : ℤ
  pub refund_total : ℤ
  pub total : ℤ
  pub balance_before : ℤ
  pub balance_after : ℤ
  pub plan : Option String
  pub version : Option String

pub record Cost : Type 0 where
  pub purchase_cost : ℤ
  pub refund_cost : ℤ
  pub last_total : ℤ
  pub issuer : String
  pub request_id : String
  pub balance_before : Option ℤ
  pub created_at : String
  pub purchase_items : List BillItem
  pub refund_items : List BillItem
  pub credit_key : Option String
  pub definition_name : Option String
  pub indexes : List (ℕ × ℕ)
  pub bypass : Bool

-- `Cost.__inner__init__`; the key `...` that no subclass has set yet is `none`.
unfoldable pub new_cost : String → String → String → Cost
new_cost request_id issuer now = record {
  purchase_cost = pos 0;
  refund_cost = pos 0;
  last_total = pos 0;
  issuer = issuer;
  request_id = request_id;
  balance_before = none;
  created_at = now;
  purchase_items = [];
  refund_items = [];
  credit_key = none;
  definition_name = none;
  indexes = [];
  bypass = false;
}

unfoldable pub purchase : String → ℤ → ℤ → Cost → Cost
unfolding bill_item
purchase description amount quantity self =
    let item = bill_item description amount quantity in
    record self {
      purchase_items = self.purchase_items ++ item ∷ [];
      purchase_cost = self.purchase_cost +ℤ item.subtotal;
    }

unfoldable pub refund : String → ℤ → ℤ → Cost → Cost
unfolding bill_item
refund description amount quantity self =
    let item = bill_item description amount quantity in
    record self {
      refund_items = self.refund_items ++ item ∷ [];
      refund_cost = self.refund_cost +ℤ item.subtotal;
    }

unfoldable pub reset_bill : Bool → Cost → Cost
reset_bill force self = record self {
  purchase_items = [];
  refund_items = [];
  purchase_cost = pos 0;
  refund_cost = pos 0;
  last_total = if force then pos 0 else self.last_total;
}

unfoldable pub generate_bill : Option String → Option String → Cost → Bill
generate_bill plan version self = record {
  request_id = self.request_id;
  issuer = self.issuer;
  definition = self.definition_name;
  created_at = self.created_at;
  p_items = self.purchase_items;
  r_items = self.refund_items;
  purchase_total = self.purchase_cost;
  refund_total = self.refund_cost;
  total = self.purchase_cost -ℤ self.refund_cost;
  balance_before = pos 0;
  balance_after = pos 0;
  plan = plan;
  version = version;
}

-- `Cost.__add__`. The refund items that are appended are those of `self`, as in the source.
unfoldable pub add : Cost → Cost → Cost
add self other = record self {
  purchase_items = self.purchase_items ++ other.purchase_items;
  refund_items = self.refund_items ++ self.refund_items;
  purchase_cost = self.purchase_cost +ℤ other.purchase_cost;
  refund_cost = self.refund_cost +ℤ other.refund_cost;
}

-- The calls that a route and its background payment make on a cost, in any order.
pub data Call : Type 0 where
  buy : String → ℤ → ℤ → Call
  give_back : String → ℤ → ℤ → Call
  reset : Bool → Call

unfoldable pub call : Call → Cost → Cost
unfolding purchase refund reset_bill
call (Call.buy d a q) self = purchase d a q self
call (Call.give_back d a q) self = refund d a q self
call (Call.reset force) self = reset_bill force self

unfoldable pub calls : List Call → Cost → Cost
calls [] self = self
calls (c ∷ cs) self = calls cs (call c self)
