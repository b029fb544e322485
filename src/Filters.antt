-- ===== src/Filters.antt =====
-- app/classes/url.py, JSONLDFilterRule and JSONLDFilterGroup: which JSON-LD documents of a page pass.
mod Group
mod Ranges
mod Laws
mod Tests
use notifyr.Base.{
  ℕ, String, Bool, true, false, not, ◌&&◌, ◌||◌, if◌then◌else◌, Option, none, some, List, [], ◌∷◌,
  any, all, str_eq, contains, Dict, lookup,
}
use notifyr.Failure.{Result, ok, raise, value_error, type_error, attribute_error, ◌>>=◌}

pub data ValueType : Type 0 where
  string number boolean : ValueType

-- StringMode, NumberMode and BoolMode together
pub data Mode : Type 0 where
  equals contained regex exists in_list gt gte lt lte eq bt : Mode

pub data Operator : Type 0 where
  and_all or_any : Operator

-- A JSON document, over the type of its numbers.
mutual
  pub data Json (Number : Type 0) : Type 0 where
    null : Json Number
    text : String → Json Number
    numeral : Number → Json Number
    flag : Bool → Json Number
    array : Elements Number → Json Number
    object : Fields Number → Json Number

  pub data Elements (Number : Type 0) : Type 0 where
    end : Elements Number
    element : Json Number → Elements Number → Elements Number

  pub data Fields (Number : Type 0) : Type 0 where
    no_more : Fields Number
    named : String → Json Number → Fields Number → Fields Number

-- What str, float, bool, `in` and re of Python do with the values at hand.
pub record Python (Number : Type 0) : Type 0 where
  -- str(value).lower(), of an object or an array too
  pub lower_str : Json Number → String
  pub lower : String → String
  -- float(value), where it does not raise
  pub to_float : Json Number → Option Number
  -- bool(value), and a bool as a number
  pub truth : Json Number → Bool
  pub of_flag : Bool → Number
  -- `a in b` for texts
  pub is_inside : String → String → Bool
  pub re_search : String → String → Result Bool
  -- the characters of a text, as the loop over its slice sees them
  pub characters : String → List (Json Number)
  pub is_less : Number → Number → Bool
  pub is_at_most : Number → Number → Bool
  pub is_equal : Number → Number → Bool

-- The value of a rule.
pub data Value (Number : Type 0) : Type 0 where
  a_text : String → Value Number
  a_number : Number → Value Number
  a_flag : Bool → Value Number
  some_texts : List String → Value Number
  a_range : Number → Number → Value Number
  no_value : Value Number

-- A rule, with its field split at the dots.
pub record Rule (Number : Type 0) : Type 0 where
  pub field : List String
  pub type : ValueType
  pub compare_mode : Mode
  pub value : Value Number

-- MODE: which comparisons a type has
unfoldable pub is_allowed : ValueType → Mode → Bool
is_allowed string equals = true
is_allowed string contained = true
is_allowed string regex = true
is_allowed string exists = true
is_allowed string in_list = true
is_allowed number gt = true
is_allowed number gte = true
is_allowed number lt = true
is_allowed number lte = true
is_allowed number eq = true
is_allowed number bt = true
is_allowed boolean equals = true
is_allowed boolean exists = true
is_allowed _ _ = false

module _ {Number : Type 0} (python : Python Number) where
  -- normalize_value, where isinstance(v, List[str]) is a TypeError
  unfoldable pub normalize_value : Value Number → Result (Value Number)
  normalize_value (a_text v) = ok (a_text (python.lower v))
  normalize_value _ = raise type_error

  -- coerce_value: one text to compare with is a list of one
  unfoldable pub coerce_value : ValueType → Mode → Value Number → Value Number
  coerce_value string equals (a_text v) = some_texts (v ∷ [])
  coerce_value _ _ v = v

  -- validate_value
  unfoldable pub validate_value : ValueType → Mode → Value Number → Result (Value Number)
  validate_value t exists v = ok no_value
  validate_value t bt (a_range a b) = ok (a_range a b)
  validate_value t bt _ = raise value_error
  validate_value string equals (some_texts vs) = ok (some_texts vs)
  validate_value string equals _ = raise value_error
  validate_value string in_list (some_texts vs) = ok (some_texts vs)
  validate_value string in_list _ = raise value_error
  validate_value boolean equals (a_flag b) = ok (a_flag b)
  validate_value boolean equals _ = raise value_error
  validate_value boolean in_list (a_flag b) = ok (a_flag b)
  validate_value boolean in_list _ = raise value_error
  validate_value number equals v = ok v
  validate_value number in_list v = ok v
  validate_value t contained (a_text v) = ok (a_text v)
  validate_value t contained _ = raise value_error
  validate_value t regex (a_text v) = ok (a_text v)
  validate_value t regex _ = raise value_error
  validate_value t gt (a_number n) = ok (a_number n)
  validate_value t gt _ = raise value_error
  validate_value t gte (a_number n) = ok (a_number n)
  validate_value t gte _ = raise value_error
  validate_value t lt (a_number n) = ok (a_number n)
  validate_value t lt _ = raise value_error
  validate_value t lte (a_number n) = ok (a_number n)
  validate_value t lte _ = raise value_error
  validate_value t eq (a_number n) = ok (a_number n)
  validate_value t eq _ = raise value_error

  -- The validators of a rule: a TypeError of a field's validator ends them all, a ValueError of one
  -- is raised behind the fields' validators.
  unfoldable pub new_rule : Rule Number → Result (Rule Number)
  new_rule rule = normalize_value rule.value >>= λ v.
      if not (is_allowed rule.type rule.compare_mode)
      then raise value_error
      else validate_value rule.type rule.compare_mode (coerce_value rule.type rule.compare_mode v)
        >>= λ w. ok record rule { value = w }

module _ {Number : Type 0} where
  -- value.get(k), which is None for a missing key
  unfoldable pub get_field : String → Fields Number → Json Number
  get_field k no_more = null
  get_field k (named j value rest) = if str_eq j k then value else get_field k rest

  -- JSONLDFilterGroup.get_nested
  unfoldable pub get_nested : Json Number → List String → Json Number
  get_nested value [] = value
  get_nested (object fields) (k ∷ ks) = get_nested (get_field k fields) ks
  get_nested _ (k ∷ ks) = null

module _ {Number : Type 0} (python : Python Number) where
  -- The comparisons of a string, which is `s` in lower case.
  unfoldable pub evaluate_string : Mode → Value Number → String → Result Bool
  evaluate_string exists v s = ok true
  -- self.value, an attribute that a group does not have
  evaluate_string equals v s = raise attribute_error
  evaluate_string contained (a_text t) s = ok (python.is_inside t s)
  evaluate_string contained _ s = raise type_error
  evaluate_string regex (a_text t) s = python.re_search t s
  evaluate_string regex _ s = raise type_error
  evaluate_string in_list (some_texts ts) s = ok (contains s ts)
  evaluate_string in_list (a_text t) s = ok (python.is_inside s t)
  evaluate_string in_list (a_range _ _) s = ok false
  evaluate_string in_list _ s = raise type_error
  evaluate_string _ v s = ok false

  -- A comparison with a number, for which a bool is one too.
  unfoldable pub compare_with : (Number → Bool) → Result Bool → Value Number → Result Bool
  compare_with test otherwise (a_number n) = ok (test n)
  compare_with test otherwise (a_flag b) = ok (test (python.of_flag b))
  compare_with test otherwise _ = otherwise

  unfoldable pub evaluate_number : Mode → Value Number → Number → Result Bool
  evaluate_number gt v num = compare_with (λ n. python.is_less n num) (raise type_error) v
  evaluate_number gte v num = compare_with (λ n. python.is_at_most n num) (raise type_error) v
  evaluate_number lt v num = compare_with (λ n. python.is_less num n) (raise type_error) v
  evaluate_number lte v num = compare_with (λ n. python.is_at_most num n) (raise type_error) v
  evaluate_number eq v num = compare_with (λ n. python.is_equal num n) (ok false) v
  evaluate_number bt (a_range a b) num = ok (python.is_at_most a num && python.is_at_most num b)
  evaluate_number bt _ num = raise type_error
  evaluate_number _ v num = ok false

  unfoldable pub evaluate_boolean : Mode → Value Number → Json Number → Result Bool
  evaluate_boolean exists v null = ok false
  evaluate_boolean exists v _ = ok true
  evaluate_boolean equals v value =
      compare_with (λ n. python.is_equal (python.of_flag (python.truth value)) n) (ok false) v
  evaluate_boolean _ v value = ok false

  -- JSONLDFilterGroup.evaluate_rule, for the value of the rule's field
  unfoldable pub evaluate_value : ValueType → Mode → Value Number → Json Number → Result Bool
  evaluate_value string mode v null = ok false
  evaluate_value string mode v value = evaluate_string mode v (python.lower_str value)
  evaluate_value number mode v value = elim (python.to_float value) [
    | none ↦ ok false
    | some num ↦ evaluate_number mode v num
  ]
  evaluate_value boolean mode v value = evaluate_boolean mode v value

  unfoldable pub evaluate_rule : Rule Number → Json Number → Result Bool
  evaluate_rule rule data_ =
      evaluate_value rule.type rule.compare_mode rule.value (get_nested data_ rule.field)
