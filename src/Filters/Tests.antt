-- ===== src/Filters/Tests.antt =====
-- Concrete filters on concrete pages, over natural numbers.
use notifyr.Base.{
  ℕ, ◌≡◌, refl, true, false, none, some, [], ◌∷◌, Among, ltb, leb, ◌==◌, str_eq, if◌then◌else◌,
}
use notifyr.Failure.{ok}
use notifyr.Filters.{
  Json, null, text, numeral, flag, array, object, no_more, named, end, element, Python, a_text,
  a_number, some_texts, Rule, string, number, contained, equals, gt, get_nested, get_field,
  evaluate_rule, evaluate_value, evaluate_string, and_all,
}
use notifyr.Filters.Group.{
  group, done, rule, inner, first, elements, slice, conclude, match, evaluate,
}
use notifyr.Base.Int.{pos, ◌+ℤ◌, ◌-ℤ◌}
use notifyr.Base.{arith}
use notifyr.Filters.Ranges.{Range, range, process_values, process_values-whole}
use notifyr.Filters.Laws.{Fits, match-Fits}

abbrev python : Python ℕ
python = record {
  lower_str = λ j. elim j [
    | null ↦ "none"
    | text s ↦ s
    | numeral _ ↦ ""
    | flag _ ↦ ""
    | array _ ↦ ""
    | object _ ↦ ""
  ];
  lower = λ s. s;
  to_float = λ j. elim j [
    | null ↦ none
    | text s ↦ none
    | numeral n ↦ some n
    | flag b ↦ some 1
    | array _ ↦ none
    | object _ ↦ none
  ];
  truth = λ j. true;
  of_flag = λ b. if b then 1 else 0;
  is_inside = str_eq;
  re_search = λ p s. ok (str_eq p s);
  characters = λ s. [];
  is_less = ltb;
  is_at_most = leb;
  is_equal = λ a b. a == b;
}

abbrev name_rule : Rule ℕ
name_rule = record {
  field = "offer" ∷ "name" ∷ [];
  type = string;
  compare_mode = contained;
  value = a_text "tea";
}

abbrev exact_rule : Rule ℕ
exact_rule = record {
  field = "offer" ∷ "name" ∷ [];
  type = string;
  compare_mode = equals;
  value = some_texts ("tea" ∷ []);
}

abbrev price_rule : Rule ℕ
price_rule = record { field = "price" ∷ []; type = number; compare_mode = gt; value = a_number 3 }

abbrev tea : Json ℕ
tea = object (named "offer" (object (named "name" (text "tea") no_more)) no_more)

match-Fits_example :
    (d : Json ℕ) × Among d (first 5 (elements (element tea end))) × Fits (rule name_rule done) d
unfolding match slice conclude evaluate evaluate_rule evaluate_value evaluate_string get_nested
    get_field elements
match-Fits_example = match-Fits python and_all (rule name_rule done) (element tea end) (tt, tt) refl

-- The same comparison with `equals` does not match, nor does a group inside of a group.
exact : match python (group and_all (rule exact_rule done)) (array (element tea end)) ≡ ok false
unfolding match slice conclude evaluate evaluate_rule evaluate_value evaluate_string get_nested
    get_field elements
exact = refl

within :
    match python
      (group and_all (inner (group and_all (rule name_rule done)) done))
      (array (element tea end))
    ≡ ok false
unfolding match slice conclude evaluate evaluate_rule evaluate_value evaluate_string get_nested
    get_field elements
within = refl

-- The pages from 1 to 20, without every second one from 10 to 18.
abbrev pages : Range
pages = record { start = pos 1; step = pos 1; end_ = pos 20 }

abbrev skipped : Range
skipped = record { start = pos 10; step = pos 2; end_ = pos 18 }

process_values-whole_example :
    process_values pages (some skipped) ≡ ok (range (pos 1) (pos 20) (pos 1))
process_values-whole_example = process_values-whole pages skipped (omega arith) refl

counted : range (pos 1) (pos 6) (pos 2) ≡ pos 1 ∷ pos 3 ∷ pos 5 ∷ []
unfolding range ◌+ℤ◌ ◌-ℤ◌
counted = refl
