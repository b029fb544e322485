-- ===== src/Streams/Laws/Batches.antt =====
-- The tables and the loop that the handlers of app/callback/event_stream.py share.
use notifyr.Base.{
  ℕ, suc, ◌+◌, String, ◌≡◌, refl, ◌↔◌, true, ◌||◌, none, some, List, [], ◌∷◌, ◌++◌, if◌then◌else◌,
  str_eq, eq_iff, arith, contains, Dict,
}
use notifyr.Failure.{Result, ok, raise}
use notifyr.Streams.Batch.{
  Value, Entry, Key, same_value, same_key, find, put, Counts, count_of, tally, total, Treat,
  file_entry, add_id, union, Batch, treat_all,
}

same_value_iff : (a b : Value) → (same_value a b ≡ true) ↔ (a ≡ b)
same_value_iff none none = ground arith
same_value_iff none (some b) = ground arith
same_value_iff (some a) none = ground arith
same_value_iff (some a) (some b) = ground (arith, eq_iff a b)

pub same_key_iff : (j k : Key) → (same_key j k ≡ true) ↔ (j ≡ k)
same_key_iff [] [] = ground arith
same_key_iff [] (_ ∷ _) = ground arith
same_key_iff (_ ∷ _) [] = ground arith
same_key_iff (a ∷ j) (b ∷ k) = ground (arith, same_value_iff a b, same_key_iff j k)

module _ {V : Type 0} where
  pub find-put :
      (j k : Key) (v : V) (t : List (Key × V))
      → find k (put j v t) ≡ (if same_key j k then some v else find k t)
  find-put j k v [] = refl
  find-put j k v ((i, w) ∷ t) =
      ground (arith, same_key_iff j k, same_key_iff i j, same_key_iff i k, find-put j k v t)

pub count_of-tally :
    (j k : Key) (t : Counts)
    → count_of k (tally j t) ≡ (if same_key j k then suc (count_of k t) else count_of k t)
count_of-tally j k t = ground (arith, find-put j k (suc (count_of j t)) t, same_key_iff j k)

total-put : (k : Key) (n : ℕ) (t : Counts) → total (put k n t) + count_of k t ≡ total t + n
total-put k n [] = omega arith
total-put k n ((j, m) ∷ t) = ground (arith, total-put k n t)

pub total-tally : (k : Key) (t : Counts) → total (tally k t) ≡ suc (total t)
total-tally k t = omega (arith, total-put k (suc (count_of k t)) t)

contains-append :
    (i : String) (xs ys : List String) → contains i (xs ++ ys) ≡ (contains i xs || contains i ys)
contains-append i [] ys = refl
contains-append i (x ∷ xs) ys = ground (arith, contains-append i xs ys)

pub contains-add_id :
    (i j : String) (ids : List String) → contains i (add_id j ids) ≡ (str_eq j i || contains i ids)
contains-add_id i j ids = ground (arith, contains-append i ids (j ∷ []), eq_iff j i)

pub contains-union :
    (i : String) (xs ys : List String) → contains i (union xs ys) ≡ (contains i xs || contains i ys)
contains-union i xs [] = ground arith
contains-union i xs (y ∷ ys) =
    ground (arith, contains-union i (add_id y xs) ys, contains-add_id i y xs)

abbrev pub ids_of : List Entry → List String
ids_of [] = []
ids_of ((ids, _) ∷ entries) = ids ∷ ids_of entries

module _ {S : Type 0} where
  -- Whether a set of ids holds `i`, behind the body for an entry.
  file_entry-union :
      (i ids : String) (r : S × Result (Unit {0})) (valid invalid : List String)
      → let b = file_entry ids r valid invalid in
        (contains i b.valid_entries || contains i b.invalid_entries)
        ≡ (str_eq ids i || (contains i valid || contains i invalid))
  file_entry-union i ids (s, ok _) valid invalid = ground (arith, contains-add_id i ids valid)
  file_entry-union i ids (s, raise _) valid invalid = ground (arith, contains-add_id i ids invalid)

  pub treat_all-union :
      (treat : String → Dict Value → Treat S (Unit {0})) (i : String) (es : List Entry)
      (b : Batch S)
      → let after = treat_all treat es b in
        (contains i after.valid_entries || contains i after.invalid_entries)
        ≡ (contains i (ids_of es) || (contains i b.valid_entries || contains i b.invalid_entries))
  unfolding treat_all
  treat_all-union treat i [] b = refl
  treat_all-union treat i ((ids, val) ∷ es) b =
      let r = treat ids val b.state in
      ground (
        arith,
        treat_all-union treat i es (file_entry ids r b.valid_entries b.invalid_entries),
        file_entry-union i ids r b.valid_entries b.invalid_entries,
      )
