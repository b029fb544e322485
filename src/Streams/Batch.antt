-- ===== src/Streams/Batch.antt =====
-- What the handlers of app/callback/event_stream.py share: the values of an entry, the loop over the
-- entries with its two sets of ids, tables with tuples as their keys, and what a handler returns.
use notifyr.Base.{
  ℕ, suc, ◌+◌, String, Bool, true, false, ◌&&◌, Option, none, some, List, [], ◌∷◌, ◌++◌,
  if◌then◌else◌, str_eq, contains, Dict, lookup,
}
use notifyr.Failure.{key_error, Result, ok, raise}

-- A value of an entry: redis keeps texts, and `none` is the None that `empty_str_to_none` writes.
abbrev pub Value : Type 0
Value = Option String

-- An entry of a stream: its id and its dict, which is flat, as redis keeps it.
abbrev pub Entry : Type 0
Entry = String × Dict Value

abbrev pub none_for_empty : Value → Value
none_for_empty none = none
none_for_empty (some s) = if str_eq s "" then none else some s

unfoldable pub empty_str_to_none : Dict Value → Dict Value
empty_str_to_none [] = []
empty_str_to_none ((k, v) ∷ d) = (k, none_for_empty v) ∷ empty_str_to_none d

-- `val[key]`
abbrev pub item : String → Dict Value → Result Value
item key val = elim (lookup key val) [ none ↦ raise key_error | some v ↦ ok v ]

-- `val.get(key, None)`
abbrev pub get_item : String → Dict Value → Value
get_item key val = elim (lookup key val) [ none ↦ none | some v ↦ v ]

-- `bool(val.get(key, False))`
abbrev pub is_set : Value → Bool
is_set none = false
is_set (some s) = if str_eq s "" then false else true

-- What is run under `try`: it changes the state also where it then raises.
abbrev pub Treat {ℓ} : Type 0 → Type ℓ → Type ℓ
Treat S A = S → S × Result A

module _ {S : Type 0} where
  infixl 5 ◌>>=◌ ◌>>◌
  abbrev pub continue_with {ℓ κ} :
      {A : Type ℓ} {B : Type κ} → S → Result A → (A → Treat S B) → S × Result B
  continue_with s (ok a) f = f a s
  continue_with s (raise e) f = (s, raise e)

  abbrev pub ◌>>=◌ {ℓ κ} : {A : Type ℓ} {B : Type κ} → Treat S A → (A → Treat S B) → Treat S B
  (m >>= f) s = let (after, r) = m s in continue_with after r f

  abbrev pub ◌>>◌ {ℓ} : {B : Type ℓ} → Treat S (Unit {0}) → Treat S B → Treat S B
  m >> k = m >>= λ _. k

  abbrev pub lift {ℓ} : {A : Type ℓ} → Result A → Treat S A
  lift r s = (s, r)

  abbrev pub modify : (S → S) → Treat S (Unit {0})
  modify f s = (f s, ok tt)

  abbrev pub read {ℓ} : {A : Type ℓ} → (S → A) → Treat S A
  read f s = (s, ok (f s))

-- A Python tuple of texts, as the key of a dict.
abbrev pub Key : Type 0
Key = List Value

abbrev pub same_value : Value → Value → Bool
same_value none none = true
same_value none (some _) = false
same_value (some _) none = false
same_value (some a) (some b) = str_eq a b

abbrev pub same_key : Key → Key → Bool
same_key [] [] = true
same_key [] (_ ∷ _) = false
same_key (_ ∷ _) [] = false
same_key (a ∷ j) (b ∷ k) = same_value a b && same_key j k

module _ {V : Type 0} where
  -- `table.get(k)`
  abbrev pub find : Key → List (Key × V) → Option V
  find k [] = none
  find k ((j, v) ∷ t) = if same_key j k then some v else find k t

  -- `table[k] = v`
  abbrev pub put : Key → V → List (Key × V) → List (Key × V)
  put k v [] = (k, v) ∷ []
  put k v ((j, w) ∷ t) = if same_key j k then (j, v) ∷ t else (j, w) ∷ put k v t

  -- `table[k]`
  abbrev pub at_key : Key → List (Key × V) → Result V
  at_key k t = elim (find k t) [ none ↦ raise key_error | some v ↦ ok v ]

  abbrev pub keys_of : List (Key × V) → List Key
  keys_of [] = []
  keys_of ((k, _) ∷ t) = k ∷ keys_of t

abbrev pub Counts : Type 0
Counts = List (Key × ℕ)

abbrev pub count_of : Key → Counts → ℕ
count_of k t = elim (find k t) [ none ↦ 0 | some n ↦ n ]

-- `if k not in table: table[k] = 0`, and then `table[k] += 1`.
abbrev pub tally : Key → Counts → Counts
tally k t = put k (suc (count_of k t)) t

abbrev pub total : Counts → ℕ
total [] = 0
total ((_, n) ∷ t) = n + total t

-- `ids.add(i)`, for a set as the list of its items.
abbrev pub add_id : String → List String → List String
add_id i ids = if contains i ids then ids else ids ++ (i ∷ [])

-- `ids.union(others)`
abbrev pub union : List String → List String → List String
union ids [] = ids
union ids (i ∷ others) = union (add_id i ids) others

pub record Batch {ℓ} (S : Type ℓ) : Type ℓ where
  pub state : S
  pub valid_entries : List String
  pub invalid_entries : List String

module _ {S : Type 0} where
  -- The end of the body for one entry: `valid_entries.add(ids)`, or the `except` clause.
  abbrev pub file_entry : String → S × Result (Unit {0}) → List String → List String → Batch S
  file_entry ids (s, ok _) valid invalid = record {
    state = s;
    valid_entries = add_id ids valid;
    invalid_entries = invalid;
  }
  file_entry ids (s, raise _) valid invalid = record {
    state = s;
    valid_entries = valid;
    invalid_entries = add_id ids invalid;
  }

  -- `for ids, val in entries`, with the body of `try` up to `valid_entries.add(ids)`.
  unfoldable pub treat_all :
      (String → Dict Value → Treat S (Unit {0})) → List Entry → Batch S → Batch S
  treat_all treat [] b = b
  treat_all treat ((ids, val) ∷ entries) b =
      treat_all treat entries
        (file_entry ids (treat ids val b.state) b.valid_entries b.invalid_entries)

-- What a handler returns, for the consumer to acknowledge: all ids if it could write, and else those
-- of the entries that it could not treat.
abbrev pub acknowledged : Bool → List String → List String → List String
acknowledged true valid invalid = union valid invalid
acknowledged false valid invalid = invalid
