-- ===== src/Filters/Laws.antt =====
-- app/classes/url.py, JSONLDFilterRule and JSONLDFilterGroup: which rules can be made, and what a group
-- that matches looks like.
use notifyr.Base.{
  Bool, true, false, ◌≡◌, refl, ap, inl, inr, ◌&&◌, any, List, [], ◌∷◌, arith, All, Among,
  Bool-cases,
}
use notifyr.Failure.{Result, ok, raise, ◌>>=◌}
use notifyr.Filters.{
  Json, null, text, numeral, flag, array, object, Elements, Python, Value, a_text, Rule, ValueType,
  string, number, boolean, Mode, equals, contained, regex, exists, is_allowed, normalize_value,
  coerce_value, validate_value, new_rule, get_nested, evaluate_rule, evaluate_value,
  evaluate_string, Operator,
}
use notifyr.Filters.Group.{
  group, Rules, done, rule, inner, first, elements, slice, conclude, match, evaluate,
}

-- The comparisons that a rule can be made with.
abbrev pub is_usable : ValueType → Mode → Bool
is_usable string equals = true
is_usable string contained = true
is_usable string regex = true
is_usable string exists = true
is_usable boolean exists = true
is_usable _ _ = false

abbrev pub is_text : {N : Type 0} → Value N → Bool
is_text (a_text _) = true
is_text _ = false

abbrev pub is_ok : {A : Type 0} → Result A → Bool
is_ok (ok _) = true
is_ok (raise _) = false

module _ {Number : Type 0} (python : Python Number) where
  -- A rule can be made exactly with a text as its value, and only to compare a string with `equals`,
  -- `contains`, `regex` or `exists`, or a boolean with `exists`.
  pub is_ok-new_rule :
      (rule : Rule Number)
      → is_ok (new_rule python rule) ≡ (is_text rule.value && is_usable rule.type rule.compare_mode)
  unfolding new_rule normalize_value is_allowed coerce_value validate_value
  is_ok-new_rule r = decide_by r.type r.compare_mode r.value
    where
      decide_by :
          (t : ValueType) (m : Mode) (v : Value Number)
          → is_ok
              (new_rule python record { field = r.field; type = t; compare_mode = m; value = v })
            ≡ (is_text v && is_usable t m)
      decide_by string m v = ground arith
      decide_by number m v = ground arith
      decide_by boolean m v = ground arith

-- a comparison with `equals` as a string stands beside a field that is absent
abbrev pub MayCompare : {N : Type 0} → ValueType → Mode → Json N → Type 0
MayCompare string equals value = value ≡ null
MayCompare _ _ _ = Unit

-- No group stands inside, and no field that is compared with `equals` as a string is there.
abbrev pub Fits : {N : Type 0} → Rules N → Json N → Type 0
Fits done d = Unit
Fits (rule r rules) d = MayCompare r.type r.compare_mode (get_nested d r.field) × Fits rules d
Fits (inner g rules) d = ⊥

abbrev pub IsObject : {N : Type 0} → Json N → Type 0
IsObject (object _) = Unit
IsObject _ = ⊥

module _ {Number : Type 0} (python : Python Number) where
  value-MayCompare :
      (t : ValueType) (m : Mode) (v : Value Number) (value : Json Number) (b : Bool)
      → evaluate_value python t m v value ≡ ok b
      → MayCompare t m value
  unfolding evaluate_value evaluate_string
  value-MayCompare number m v value b h = tt
  value-MayCompare boolean m v value b h = tt
  value-MayCompare string equals v null b h = refl
  value-MayCompare string equals v (text _) b h = cc
  value-MayCompare string equals v (numeral _) b h = cc
  value-MayCompare string equals v (flag _) b h = cc
  value-MayCompare string equals v (array _) b h = cc
  value-MayCompare string equals v (object _) b h = cc
  value-MayCompare string _ v value b h = tt

  -- Both steps of a chain succeed where the chain does.
  both_ok :
      (a : Result Bool) (b : Result (List Bool)) (results : List Bool)
      → (a >>= λ x. b >>= λ xs. ok (x ∷ xs)) ≡ ok results
      → ((x : Bool) × (a ≡ ok x)) × ((xs : List Bool) × (b ≡ ok xs))
  both_ok (ok x) (ok xs) results h = ((x, refl), (xs, refl))
  both_ok (ok x) (raise _) results h = cc
  both_ok (raise _) b results h = cc

  evaluate-Fits :
      (rules : Rules Number) (d : Json Number) (results : List Bool)
      → IsObject d
      → evaluate python rules d ≡ ok results
      → Fits rules d
  unfolding evaluate evaluate_rule match slice
  evaluate-Fits done d results o h = tt
  evaluate-Fits (rule r rules) d results o h =
      let (now, later) = both_ok (evaluate_rule python r d) (evaluate python rules d) results h in
      (
        value-MayCompare r.type r.compare_mode r.value (get_nested d r.field) now.0 now.1,
        evaluate-Fits rules d later.0 o later.1,
      )
  evaluate-Fits (inner (group op inside) rules) (object fields) results o h = cc
  evaluate-Fits (inner g rules) null results o h = absurd o
  evaluate-Fits (inner g rules) (text _) results o h = absurd o
  evaluate-Fits (inner g rules) (numeral _) results o h = absurd o
  evaluate-Fits (inner g rules) (flag _) results o h = absurd o
  evaluate-Fits (inner g rules) (array _) results o h = absurd o

  conclude-Fits :
      (op : Operator) (rules : Rules Number) (d : Json Number) (r : Result (List Bool))
      → IsObject d
      → evaluate python rules d ≡ r
      → conclude python op r ≡ true
      → Fits rules d
  unfolding conclude
  conclude-Fits op rules d (ok results) o e h = evaluate-Fits rules d results o e
  conclude-Fits op rules d (raise _) o e h = cc

  any-Fits :
      (op : Operator) (rules : Rules Number) (ds : List (Json Number))
      → All IsObject ds
      → any (λ d. conclude python op (evaluate python rules d)) ds ≡ true
      → (d : Json Number) × Among d ds × Fits rules d
  any-Fits op rules [] o h = cc
  any-Fits op rules (d ∷ ds) o h =
      elim (Bool-cases (conclude python op (evaluate python rules d))) [
        | inl e ↦ (d, inl refl, conclude-Fits op rules d (evaluate python rules d) o.0 refl e)
        | inr e ↦
            let (found, m, fits) = any-Fits op rules ds o.1 (ground (arith, e, h)) in
            (found, inr m, fits)
      ]

  -- If a group matches a page whose first five documents are objects, then in one of them no field
  -- that it compares with `equals` as a string is there, and no group stands inside of it.
  pub match-Fits :
      (op : Operator) (rules : Rules Number) (page : Elements Number)
      → All IsObject (first 5 (elements page))
      → match python (group op rules) (array page) ≡ ok true
      → (d : Json Number) × Among d (first 5 (elements page)) × Fits rules d
  unfolding match slice
  match-Fits op rules page o h = any-Fits op rules (first 5 (elements page)) o (ap answer h)
    where
      answer : Result Bool → Bool
      answer (ok b) = b
      answer (raise _) = false
