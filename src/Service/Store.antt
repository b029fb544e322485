-- ===== src/Service/Store.antt =====
-- app/definition/_service.py, MiniServiceStore: the mini services of a manager by their ids. The
-- mini services themselves are of any type; an id is a text or None.
use notifyr.Base.{
  ℕ, ◌+◌, ◌≡◌, ◌↔◌, refl, ap, ◌∙◌, not, Option-cases, inl, inr, Bool, true, false, Option, none,
  some, str_eq, List, [], ◌∷◌, String, arith, if◌then◌else◌, length, Dict, lookup, has_key, insert,
  remove, eq_iff, lookup-insert,
}

pub data StoreError : Type 0 where
  already_exists cannot_be_identified does_not_exist : StoreError
  -- Python's TypeError, of `raise False`.
  not_an_exception : StoreError

pub data Answer {ℓ} (A : Type ℓ) : Type ℓ where
  gives : A → Answer A
  fails : StoreError → Answer A

-- Calls that change the store.
pub data Call {ℓ} (Service : Type ℓ) : Type ℓ where
  adds : String → Service → Call Service
  deletes : String → Call Service

module _ {ℓ} {Service : Type ℓ} where
  -- `add(miniService)`: the store afterwards.
  unfoldable pub add : Option String → Service → Dict Service → Answer (Dict Service)
  add none service store = fails cannot_be_identified
  add (some i) service store =
      if has_key i store then fails already_exists else gives (insert i service store)

  unfoldable pub get : Option String → Dict Service → Answer Service
  get none store = fails cannot_be_identified
  get (some i) store = elim (lookup i store) [
    | none ↦ fails does_not_exist
    | some service ↦ gives service
  ]

  -- `exists(miniService_id, _raise)`, with its `raise False`.
  unfoldable pub exists : Option String → Bool → Dict Service → Answer Bool
  exists none _raise store = if _raise then fails cannot_be_identified else gives false
  exists (some i) _raise store =
      if has_key i store
      then gives true
      else fails (if _raise then does_not_exist else not_an_exception)

  -- `del store[miniService_id]`
  unfoldable pub delete : String → Dict Service → Answer (Dict Service)
  delete i store = if has_key i store then gives (remove i store) else fails does_not_exist

  -- `filter_count(lamda)`
  unfoldable pub filter_count : (Service → Bool) → Dict Service → ℕ
  filter_count lamda [] = 0
  filter_count lamda ((_, service) ∷ store) =
      filter_count lamda store + (if lamda service then 1 else 0)

  -- No id stands twice.
  abbrev pub IsStore : Dict Service → Type 0
  IsStore [] = Unit
  IsStore ((i, _) ∷ store) = (has_key i store ≡ false) × IsStore store

  insert-IsStore :
      (i : String) (service : Service) (store : Dict Service)
      → IsStore store
      → IsStore (insert i service store)
  insert-IsStore i service [] h = ground arith
  insert-IsStore i service ((j, other) ∷ store) (fresh, h) = ground (
    arith,
    eq_iff j i,
    eq_iff i j,
    insert-IsStore i service store h,
    lookup-insert i j service store,
  )

  has_key-remove :
      (i j : String) (store : Dict Service)
      → has_key j store ≡ false
      → has_key j (remove i store) ≡ false
  has_key-remove i j [] h = h
  has_key-remove i j ((k, other) ∷ store) h =
      ground (arith, eq_iff k i, eq_iff k j, has_key-remove i j store)

  remove-IsStore : (i : String) (store : Dict Service) → IsStore store → IsStore (remove i store)
  remove-IsStore i [] h = h
  remove-IsStore i ((j, other) ∷ store) (fresh, h) =
      ground (arith, eq_iff j i, has_key-remove i j store, remove-IsStore i store h)

  has_key-remove_self :
      (i : String) (store : Dict Service) → IsStore store → has_key i (remove i store) ≡ false
  has_key-remove_self i [] h = refl
  has_key-remove_self i ((j, other) ∷ store) (fresh, h) =
      ground (arith, eq_iff j i, has_key-remove_self i store h)

  add-gives :
      (i : String) (service : Service) (store after : Dict Service)
      → add (some i) service store ≡ gives after
      → (has_key i store ≡ false) × (after ≡ insert i service store)
  unfolding add
  add-gives i service store after e = ground arith

  delete-gives :
      (i : String) (store after : Dict Service)
      → delete i store ≡ gives after
      → after ≡ remove i store
  unfolding delete
  delete-gives i store after e = ground arith

  -- A call that raises leaves the store as it is.
  abbrev pub stands : Answer (Dict Service) → Dict Service → Dict Service
  stands (gives after) store = after
  stands (fails _) store = store

  abbrev pub call : Call Service → Dict Service → Dict Service
  call (adds i service) store = stands (add (some i) service store) store
  call (deletes i) store = stands (delete i store) store

  abbrev pub run : List (Call Service) → Dict Service → Dict Service
  run [] store = store
  run (c ∷ calls) store = run calls (call c store)

  -- What an id holds behind a call.
  abbrev pub held : String → Option Service → Call Service → Option Service
  held i none (adds j service) = if str_eq j i then some service else none
  held i (some x) (adds j service) = some x
  held i now (deletes j) = if str_eq j i then none else now

  -- The first service that was added under an id since the id was last deleted.
  abbrev pub first_added : String → Option Service → List (Call Service) → Option Service
  first_added i now [] = now
  first_added i now (c ∷ calls) = first_added i (held i now c) calls

  abbrev pub answer : Option Service → Answer Service
  answer none = fails does_not_exist
  answer (some service) = gives service

  lookup-remove :
      (i j : String) (store : Dict Service)
      → IsStore store
      → lookup j (remove i store) ≡ (if str_eq i j then none else lookup j store)
  lookup-remove i j [] h = ground arith
  lookup-remove i j ((k, service) ∷ store) (fresh, h) =
      ground (arith, eq_iff i j, eq_iff k i, eq_iff k j, lookup-remove i j store h)

  call-IsStore : (c : Call Service) (store : Dict Service) → IsStore store → IsStore (call c store)
  unfolding add delete
  call-IsStore (adds i service) store h = ground (arith, h, insert-IsStore i service store h)
  call-IsStore (deletes i) store h = ground (arith, h, remove-IsStore i store h)

  run-IsStore :
      (calls : List (Call Service)) (store : Dict Service)
      → IsStore store
      → IsStore (run calls store)
  run-IsStore [] store h = h
  run-IsStore (c ∷ calls) store h = run-IsStore calls (call c store) (call-IsStore c store h)

  lookup-call :
      (i : String) (c : Call Service) (store : Dict Service)
      → IsStore store
      → lookup i (call c store) ≡ held i (lookup i store) c
  unfolding add delete
  lookup-call i (adds j service) store h = elim (Option-cases (lookup i store)) [
    | inl e ↦ ground (arith, e, eq_iff j i, lookup-insert j i service store)
    | inr (x, e) ↦ ground (arith, e, eq_iff j i, lookup-insert j i service store)
  ]
  lookup-call i (deletes j) store h = elim (Option-cases (lookup i store)) [
    | inl e ↦ ground (arith, e, eq_iff j i, lookup-remove j i store h)
    | inr (x, e) ↦ ground (arith, e, eq_iff j i, lookup-remove j i store h)
  ]

  lookup-run :
      (i : String) (calls : List (Call Service)) (store : Dict Service)
      → IsStore store
      → lookup i (run calls store) ≡ first_added i (lookup i store) calls
  lookup-run i [] store h = refl
  lookup-run i (c ∷ calls) store h =
      lookup-run i calls (call c store) (call-IsStore c store h)
      ∙ ap (λ now. first_added i now calls) (lookup-call i c store h)

  -- After any sequence of calls of `add` and `del` on an empty store, also failing ones, the ids are
  -- apart, and `get` gives for an id the first service that was added under it since it was last
  -- deleted: a later `add` never replaces it.
  pub get-run :
      (calls : List (Call Service)) (i : String)
      → IsStore (run calls []) × (get (some i) (run calls []) ≡ answer (first_added i none calls))
  unfolding get
  get-run calls i = (run-IsStore calls [] tt, ground (arith, lookup-run i calls [] tt))

  -- After a successful `del` the ids are apart, the id is free and can be added again.
  pub add-delete :
      (i : String) (service : Service) (store after : Dict Service)
      → IsStore store
      → delete i store ≡ gives after
      → IsStore after × (add (some i) service after ≡ gives (insert i service after))
  unfolding add
  add-delete i service store after h e =
      let same = delete-gives i store after e in
      (rw same (remove-IsStore i store h), ground (arith, same, has_key-remove_self i store h))

  -- `exists` with `_raise` answers just where `get` does; without it a missing id is a TypeError.
  pub exists-get :
      (i : String) (store : Dict Service)
      → ((exists (some i) true store ≡ gives true)
          ↔ ((service : Service) × (get (some i) store ≡ gives service)))
        × ((get (some i) store ≡ fails does_not_exist)
            → exists (some i) false store ≡ fails not_an_exception)
  unfolding exists get
  exists-get i store = ((found, λ (service, e). ground arith), λ h. ground arith)
    where
      found :
          exists (some i) true store ≡ gives true
          → (service : Service) × (get (some i) store ≡ gives service)
      found h = elim (Option-cases (lookup i store)) [
        | inl e ↦ absurd (ground (arith, e))
        | inr (service, e) ↦ (service, ground (arith, e))
      ]

  -- `filter_count` counts no service more than once: a test and its negation share the store.
  pub filter_count-split :
      (p : Service → Bool) (store : Dict Service)
      → filter_count p store + filter_count (λ s. not (p s)) store ≡ length store
  unfolding filter_count
  filter_count-split p [] = refl
  filter_count-split p ((_, service) ∷ store) = ground (arith, filter_count-split p store)
