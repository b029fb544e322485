-- ===== src/Filters/Group.antt =====
-- app/classes/url.py, JSONLDFilterGroup: rules and groups under AND or OR.
use notifyr.Base.{ℕ, zero, suc, Bool, false, any, all, List, [], ◌∷◌}
use notifyr.Failure.{Result, ok, raise, type_error, ◌>>=◌}
use notifyr.Filters.{
  Rule, Json, text, array, Elements, end, element, Python, Operator, and_all, or_any, evaluate_rule,
}

mutual
  pub data Group (Number : Type 0) : Type 0 where
    group : Operator → Rules Number → Group Number

  pub data Rules (Number : Type 0) : Type 0 where
    done : Rules Number
    rule : Rule Number → Rules Number → Rules Number
    inner : Group Number → Rules Number → Rules Number

-- jsonld[:5]
abbrev pub first : {A : Type 0} → ℕ → List A → List A
first zero xs = []
first (suc n) [] = []
first (suc n) (x ∷ xs) = x ∷ first n xs

unfoldable pub elements : {N : Type 0} → Elements N → List (Json N)
elements end = []
elements (element j rest) = j ∷ elements rest

module _ {Number : Type 0} (python : Python Number) where
  -- What the loop over `jsonld[:5]` goes through: an array or a text, or else there is no slice.
  unfoldable pub slice : Json Number → Result (List (Json Number))
  slice (array xs) = ok (first 5 (elements xs))
  slice (text s) = ok (first 5 (python.characters s))
  slice _ = raise type_error

  -- The end of _match: all, any, or False for an exception.
  unfoldable pub conclude : Operator → Result (List Bool) → Bool
  conclude op (raise _) = false
  conclude and_all (ok results) = all (λ b. b) results
  conclude or_any (ok results) = any (λ b. b) results

  unfoldable mutual
    -- JSONLDFilterGroup.match, with _match for each document
    pub match : Group Number → Json Number → Result Bool
    match (group op rules) jsonld =
        slice jsonld >>= λ documents. ok (any (λ d. conclude op (evaluate rules d)) documents)

    -- The loop of _match over the rules.
    pub evaluate : Rules Number → Json Number → Result (List Bool)
    evaluate done d = ok []
    evaluate (rule r rules) d =
        evaluate_rule python r d >>= λ b. evaluate rules d >>= λ results. ok (b ∷ results)
    evaluate (inner g rules) d = match g d >>= λ b. evaluate rules d >>= λ results. ok (b ∷ results)
