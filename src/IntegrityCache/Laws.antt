-- ===== src/IntegrityCache/Laws.antt =====
-- IntegrityCache of app/utils/helper.py: what it remembers.
use notifyr.Base.{
  String, ◌≡◌, refl, sym, ap, ◌∙◌, inl, inr, Bool, true, false, Option, none, some, List, [], ◌∷◌,
  if◌then◌else◌, str_eq, eq_iff, Dict, lookup, insert, remove, lookup-insert, lookup-remove_ne,
  arith, has_key, Bool-cases,
}
use notifyr.IntegrityCache.{
  CacheMode, presence_only, by_value, same_text, stored_value, cache_with, cache, CacheCall, cached,
  cleared, invalidated, cache_call, cache_calls,
}

-- The value of the last call for a key, if it was not cleared or invalidated since.
abbrev pub last_value : String → List CacheCall → Option (Option String)
last_value k [] = none
last_value k (cached key value ∷ before) = if str_eq key k then some value else last_value k before
last_value k (cleared ∷ before) = none
last_value k (invalidated key ∷ before) = if str_eq key k then none else last_value k before

-- A key that was cached, with the same value where values count.
abbrev pub is_hit : CacheMode → Option String → Option (Option String) → Bool
is_hit mode value none = false
is_hit presence_only value (some before) = true
is_hit by_value value (some before) = same_text before value

same_text-eq : (a b : Option String) → same_text a b ≡ true → a ≡ b
same_text-eq none none h = refl
same_text-eq none (some b) h = ground (arith, h)
same_text-eq (some a) none h = ground (arith, h)
same_text-eq (some a) (some b) h = ground (arith, eq_iff a b, h)

-- The keys of a dict are distinct.
abbrev IsDict : Dict (Option String) → Type 0
IsDict [] = Unit
IsDict ((k, _) ∷ d) = (has_key k d ≡ false) × IsDict d

insert-IsDict :
    (k : String) (v : Option String) (d : Dict (Option String)) → IsDict d → IsDict (insert k v d)
insert-IsDict k v [] h = (refl, tt)
insert-IsDict k v ((j, w) ∷ d) (f, h) = elim (Bool-cases (str_eq j k)) [
  | inl e ↦ rw e (f, h)
  | inr e ↦
      rw e
        (ground (arith, lookup-insert k j v d, eq_iff k j, eq_iff j k, e, f), insert-IsDict k v d h)
]

remove-lookup : (k : String) (d : Dict (Option String)) → IsDict d → lookup k (remove k d) ≡ none
remove-lookup k [] h = refl
remove-lookup k ((j, w) ∷ d) (f, h) = elim (Bool-cases (str_eq j k)) [
  | inl e ↦
      let same : j ≡ k = (eq_iff j k).0 e in
      let gone : has_key k d ≡ false = rw same at f in ground (arith, e, gone)
  | inr e ↦ ground (arith, e, remove-lookup k d h)
]

remove-has_key :
    (i k : String) (d : Dict (Option String)) → has_key i d ≡ false → has_key i (remove k d) ≡ false
remove-has_key i k [] h = refl
remove-has_key i k ((j, w) ∷ d) h = ground (arith, remove-has_key i k d, h)

remove-IsDict : (k : String) (d : Dict (Option String)) → IsDict d → IsDict (remove k d)
remove-IsDict k [] h = tt
remove-IsDict k ((j, w) ∷ d) (f, h) = elim (Bool-cases (str_eq j k)) [
  | inl e ↦ rw e h
  | inr e ↦ rw e (remove-has_key j k d f, remove-IsDict k d h)
]

-- What the cache holds for the last value of a key.
abbrev held : CacheMode → Option (Option String) → Option (Option String)
held mode none = none
held mode (some value) = some (stored_value mode value)

cache-lookup :
    (mode : CacheMode) (key k : String) (value : Option String) (last : Option (Option String))
    (d : Dict (Option String))
    → lookup key d ≡ held mode last
    → lookup k (cache mode key value d).1
      ≡ (if str_eq key k then some (stored_value mode value) else lookup k d)
unfolding cache stored_value
cache-lookup presence_only key k value none d h =
    ground (arith, h, lookup-insert key k none d, eq_iff key k)
cache-lookup presence_only key k value (some b) d h = elim (Bool-cases (str_eq key k)) [
  | inl e ↦
      let same : key ≡ k = (eq_iff key k).0 e in
      let there : lookup k d ≡ some none = rw same at h in ground (arith, h, e, there)
  | inr e ↦ ground (arith, h, e)
]
cache-lookup by_value key k value none d h =
    ground (arith, h, lookup-insert key k value d, eq_iff key k)
cache-lookup by_value key k value (some b) d h = elim (Bool-cases (str_eq key k)) [
  | inl e ↦
      let same : key ≡ k = (eq_iff key k).0 e in
      let there : lookup k d ≡ some b = rw same at h in
      ground (arith, h, e, there, same_text-eq b value, lookup-insert key k value d)
  | inr e ↦ ground (arith, h, e, lookup-insert key k value d)
]

cache_with-IsDict :
    (mode : CacheMode) (key : String) (stored : Option String) (found : Option (Option String))
    (d : Dict (Option String))
    → IsDict d
    → IsDict (cache_with mode key stored found d).1
cache_with-IsDict mode key stored none d h = insert-IsDict key stored d h
cache_with-IsDict presence_only key stored (some b) d h = h
cache_with-IsDict by_value key stored (some b) d h = elim (Bool-cases (same_text b stored)) [
  | inl t ↦ rw t h
  | inr t ↦ rw t (insert-IsDict key stored d h)
]

cache_calls-held :
    (mode : CacheMode) (calls : List CacheCall)
    → IsDict (cache_calls mode calls)
      × ((k : String) → lookup k (cache_calls mode calls) ≡ held mode (last_value k calls))
unfolding cache_calls cache_call cache
cache_calls-held mode [] = (tt, λ k. refl)
cache_calls-held mode (cached key value ∷ before) =
    let (dict, agrees) = cache_calls-held mode before in
    let d = cache_calls mode before in
    (
      cache_with-IsDict mode key (stored_value mode value) (lookup key d) d dict,
      λ k.
          ground
            (arith, cache-lookup mode key k value (last_value key before) d (agrees key), agrees k),
    )
cache_calls-held mode (cleared ∷ before) = (tt, λ k. refl)
cache_calls-held mode (invalidated key ∷ before) =
    let (dict, agrees) = cache_calls-held mode before in
    let d = cache_calls mode before in
    (
      remove-IsDict key d dict,
      λ k. elim (Bool-cases (str_eq key k)) [
        | inl e ↦
            let same : key ≡ k = (eq_iff key k).0 e in
            let gone : lookup k (remove key d) ≡ none =
              ap (λ x. lookup x (remove key d)) (sym same) ∙ remove-lookup key d dict in
            ground (arith, e, gone)
        | inr e ↦ ground (arith, e, lookup-remove_ne key k d e, agrees k)
      ],
    )

-- After any calls, `cache` reports a hit exactly if the key was cached and neither cleared nor
-- invalidated since, and, in the mode of values, if the last value that was given for it is the same.
pub cache-is_hit :
    (mode : CacheMode) (calls : List CacheCall) (key : String) (value : Option String)
    → (cache mode key value (cache_calls mode calls)).0 ≡ is_hit mode value (last_value key calls)
unfolding cache stored_value
cache-is_hit presence_only calls key value =
    ground (arith, (cache_calls-held presence_only calls).1 key)
cache-is_hit by_value calls key value = ground (arith, (cache_calls-held by_value calls).1 key)
