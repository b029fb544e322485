-- ===== src/Handlers/Laws.antt =====
-- app/decorators/handlers.py: what every stack of handlers keeps to.
use notifyr.Base.{
  ℕ, ◌≤◌, ◌≡◌, refl, ◌⊎◌, Bool, true, false, not, ◌&&◌, Option, none, some, String, List, [], ◌∷◌,
  ◌++◌, arith, leb, contains, all, any, Bool-cases, inl, inr,
}
use notifyr.Handlers.{
  Raised, Outcome, returned, returned_none, raised, Action, answer, answer_either, echo, first_arg,
  echo_arg, echo_arg_or, own_status, second_arg, by_code, document_or, bad_call, swallow, Row, act,
  treat, handle,
}

-- a status of the client's or of the server's errors
abbrev pub IsErrorStatus : Option ℕ → Type 0
IsErrorStatus none = Unit
IsErrorStatus (some status) = (400 ≤ status) × (status ≤ 599)

-- Whatever status an exception carries is that of an error.
abbrev pub HasErrorStatus : Raised → Type 0
HasErrorStatus e = IsErrorStatus e.status × IsErrorStatus e.second

abbrev pub IsLawful {ℓ} : {A : Type ℓ} → Outcome A → Type 0
IsLawful (raised e) = HasErrorStatus e
IsLawful _ = Unit

abbrev is_error_status : ℕ → Bool
is_error_status status = leb 400 status && leb status 599

-- The status that a clause gives by itself is that of an error.
abbrev pub has_error_status : Row → Bool
has_error_status (_, answer status _) = is_error_status status
has_error_status (_, answer_either status _ _) = is_error_status status
has_error_status (_, echo status) = is_error_status status
has_error_status (_, first_arg status _) = is_error_status status
has_error_status (_, echo_arg status) = is_error_status status
has_error_status (_, echo_arg_or status _) = is_error_status status
has_error_status (_, own_status status _) = is_error_status status
has_error_status (_, by_code status _) = is_error_status status
has_error_status (_, document_or status) = is_error_status status
has_error_status _ = true

-- The clause ends the request without an exception.
abbrev pub swallows : Row → Bool
swallows (_, swallow) = true
swallows _ = false

-- The clause catches nothing that a handler raises in answer.
abbrev pub is_plain : Row → Bool
is_plain (class_name, document_or _) = false
is_plain (class_name, _) = not (
    contains class_name (
      "HTTPException" ∷ "TypeError" ∷ "IndexError" ∷ "LookupError" ∷ "Exception" ∷ "BaseException"
      ∷ []))

act-IsLawful {ℓ} :
    (A : Type ℓ) (class_name : String) (action : Action) (e : Raised)
    → has_error_status (class_name, action) ≡ true
    → HasErrorStatus e
    → IsLawful (act {A = A} action e)
unfolding act
act-IsLawful A c (answer status _) e h k = ground arith
act-IsLawful A c (answer_either status _ _) e h k = ground arith
act-IsLawful A c (echo status) e h k = ground arith
act-IsLawful A c (first_arg status _) e h k = ground arith
act-IsLawful A c (echo_arg status) e h k = ground arith
act-IsLawful A c (echo_arg_or status _) e h k = ground arith
act-IsLawful A c (own_status status _) e h k = ground arith
act-IsLawful A c (second_arg _) e h k = ground arith
act-IsLawful A c (by_code status _) e h k = ground arith
act-IsLawful A c (document_or status) e h k = ground arith
act-IsLawful A c bad_call e h k = ground arith
act-IsLawful A c swallow e h k = ground arith

pub treat-IsLawful {ℓ} :
    (A : Type ℓ) (rows : List Row) (e : Raised)
    → all has_error_status rows ≡ true
    → HasErrorStatus e
    → IsLawful (treat {A = A} rows e)
unfolding treat
treat-IsLawful A [] e h k = k
treat-IsLawful A ((c, action) ∷ rows) e h k = elim (Bool-cases (contains c e.mro)) [
  | inl caught ↦ rw caught (act-IsLawful A c action e (ground arith) k)
  | inr passed ↦ rw passed (treat-IsLawful A rows e (ground arith) k)
]

-- An exception that is no HandlerDefaultException.
abbrev pub IsOrdinary {ℓ} : {A : Type ℓ} → Outcome A → Type 0
IsOrdinary (raised e) = contains "HandlerDefaultException" e.mro ≡ false
IsOrdinary _ = ⊥

act-IsOrdinary {ℓ} :
    (A : Type ℓ) (class_name : String) (action : Action) (e : Raised)
    → swallows (class_name, action) ≡ false
    → IsOrdinary (act {A = A} action e)
unfolding act
act-IsOrdinary A c (answer _ _) e h = refl
act-IsOrdinary A c (answer_either _ _ _) e h = refl
act-IsOrdinary A c (echo _) e h = refl
act-IsOrdinary A c (first_arg _ _) e h = ground arith
act-IsOrdinary A c (echo_arg _) e h = ground arith
act-IsOrdinary A c (echo_arg_or _ _) e h = ground arith
act-IsOrdinary A c (own_status _ _) e h = ground arith
act-IsOrdinary A c (second_arg _) e h = ground arith
act-IsOrdinary A c (by_code _ _) e h = refl
act-IsOrdinary A c (document_or _) e h = ground arith
act-IsOrdinary A c bad_call e h = refl
act-IsOrdinary A c swallow e h = cc

pub treat-IsOrdinary {ℓ} :
    (A : Type ℓ) (rows : List Row) (e : Raised)
    → any swallows rows ≡ false
    → contains "HandlerDefaultException" e.mro ≡ false
    → IsOrdinary (treat {A = A} rows e)
unfolding treat
treat-IsOrdinary A [] e h other = other
treat-IsOrdinary A ((c, action) ∷ rows) e h other = elim (Bool-cases (contains c e.mro)) [
  | inl caught ↦ rw caught (act-IsOrdinary A c action e (ground arith))
  | inr passed ↦ rw passed (treat-IsOrdinary A rows e (ground arith) other)
]

-- An exception that a clause raises, but for a missing document.
abbrev pub IsAnswer : Raised → Type 0
IsAnswer r =
    (r.mro ≡ "HTTPException" ∷ "Exception" ∷ "BaseException" ∷ [])
    ⊎ (r.mro ≡ "TypeError" ∷ "Exception" ∷ "BaseException" ∷ [])
    ⊎ (r.mro ≡ "IndexError" ∷ "LookupError" ∷ "Exception" ∷ "BaseException" ∷ [])

-- The outcome is no exception, or one that the plain tables let pass.
abbrev pub Passes {ℓ} : {A : Type ℓ} → Outcome A → Type 0
Passes (raised r) = IsAnswer r
Passes _ = Unit

act-Passes {ℓ} :
    (A : Type ℓ) (class_name : String) (action : Action) (e : Raised)
    → is_plain (class_name, action) ≡ true
    → Passes (act {A = A} action e)
unfolding act
act-Passes A c (answer status _) e h = inl refl
act-Passes A c (answer_either status _ _) e h = inl refl
act-Passes A c (echo status) e h = inl refl
act-Passes A c (first_arg status _) e h = ground arith
act-Passes A c (echo_arg status) e h = ground arith
act-Passes A c (echo_arg_or status _) e h = ground arith
act-Passes A c (own_status status _) e h = ground arith
act-Passes A c (second_arg _) e h = ground arith
act-Passes A c (by_code status _) e h = inl refl
act-Passes A c (document_or status) e h = cc
act-Passes A c bad_call e h = inr (inl refl)
act-Passes A c swallow e h = tt

plain_row :
    (class_name : String) (action : Action) (r : Raised)
    → is_plain (class_name, action) ≡ true
    → IsAnswer r
    → contains class_name r.mro ≡ false
plain_row c (document_or _) r h k = cc
plain_row c _ r h (inl e) = rw e (ground arith)
plain_row c _ r h (inr (inl e)) = rw e (ground arith)
plain_row c _ r h (inr (inr e)) = rw e (ground arith)

pub plain-treat {ℓ} :
    (A : Type ℓ) (rows : List Row) (r : Raised)
    → all is_plain rows ≡ true
    → IsAnswer r
    → treat {A = A} rows r ≡ raised r
unfolding treat
plain-treat A [] r h k = refl
plain-treat A ((c, action) ∷ rows) r h k =
    ground (arith, plain_row c action r, plain-treat A rows r)

-- Two tables in a row, where the second catches nothing that the first answers.
pub treat-append {ℓ} :
    (A : Type ℓ) (inner outer : List Row) (e : Raised)
    → all is_plain inner ≡ true
    → all is_plain outer ≡ true
    → handle outer (treat {A = A} inner e) ≡ treat (inner ++ outer) e
unfolding treat handle
treat-append A [] outer e h k = refl
treat-append A ((c, action) ∷ inner) outer e h k = elim (Bool-cases (contains c e.mro)) [
  | inl caught ↦ rw caught (passes (act action e) (act-Passes A c action e (ground arith)))
  | inr passed ↦ rw passed (treat-append A inner outer e (ground arith) k)
]
  where
    passes : (o : Outcome A) → Passes o → handle outer o ≡ o
    passes (returned _) p = refl
    passes returned_none p = refl
    passes (raised r) p = plain-treat A outer r k p

-- The clauses of a stack as one table: those of the innermost handler come first.
abbrev pub one_table : List (List Row) → List Row
one_table [] = []
one_table (rows ∷ handlers) = one_table handlers ++ rows
