-- ===== src/Container/Loads.antt =====
-- app/container.py, __load_dep before __buildContainer: what the loading rules out.
use notifyr.Base.{
  String, ◌≡◌, refl, inl, inr, Bool, true, false, not, ◌&&◌, if◌then◌else◌, List, [], ◌∷◌, ◌++◌,
  arith, any, keep, is_empty, contains, Dict, lookup_or, has_key, insert, lookup-insert, str_eq,
  eq_iff, Bool-cases,
}
use notifyr.Failure.{ok, Result-cases}
use notifyr.Container.{get_signature, Declared, load_dep, build_container}
use notifyr.Container.Members.{
  contains-append, contains-keep, any-member, filled-member, contains-empty, All-member,
}
use notifyr.Container.Cycles.{build_container-circular}

abbrev pub deps_of : Dict (List String) → String → List String
deps_of metadata x = lookup_or x metadata []

-- Each service that is known depends on services that are known.
abbrev IsClosed : Dict (List String) → Type 0
IsClosed metadata =
    (y d : String) → contains d (deps_of metadata y) ≡ true → has_key d metadata ≡ true

-- Some services, each of which depends on one of them.
abbrev IsLoop : Dict (List String) → List String → Type 0
IsLoop metadata ring =
    (a : String) → contains a ring ≡ true → any (λ d. contains d ring) (deps_of metadata a) ≡ true

-- The services of a list other than `x`.
abbrev others : String → List String → List String
others x ring = keep (λ y. not (str_eq y x)) ring

any-witness :
    (p : String → Bool) (xs : List String)
    → any p xs ≡ true
    → (a : String) × (contains a xs ≡ true) × (p a ≡ true)
any-witness p [] h = cc
any-witness p (x ∷ xs) h = elim (Bool-cases (p x)) [
  | inl e ↦ (x, ground (arith, eq_iff x x), e)
  | inr e ↦ let (a, m, k) = any-witness p xs (ground (arith, h, e)) in (a, ground (arith, m), k)
]

module _ (metadata : Dict (List String)) (x : String) (types : List String)
    (fresh : has_key x metadata ≡ false) (closed : IsClosed metadata)
    (known : (d : String) → contains d types ≡ true → has_key d metadata ≡ true) where
  deps_of-insert :
      (a : String)
      → deps_of (insert x types metadata) a ≡ (if str_eq x a then types else deps_of metadata a)
  deps_of-insert a = ground (arith, lookup-insert x a types metadata)

  -- Nothing depends on a service that is loaded last.
  deps_of-known :
      (a d : String)
      → contains d (deps_of (insert x types metadata) a) ≡ true
      → has_key d metadata ≡ true
  deps_of-known a d m = elim (Bool-cases (str_eq x a)) [
    | inl e ↦ known d (ground (arith, deps_of-insert a, e, m))
    | inr e ↦ closed a d (ground (arith, deps_of-insert a, e, m))
  ]

  not_last : (d : String) → has_key d metadata ≡ true → str_eq d x ≡ false
  not_last d h = elim (Bool-cases (str_eq d x)) [
    | inl e ↦ let same : d ≡ x = (eq_iff d x).0 e in absurd (ground (arith, rw same at h, fresh))
    | inr e ↦ e
  ]

  insert-IsClosed : IsClosed (insert x types metadata)
  insert-IsClosed y d m = ground (arith, lookup-insert x d types metadata, deps_of-known y d m)

  -- What a member of a ring depends on there is another service of the ring.
  next_member :
      (ring : List String) (a : String)
      → IsLoop (insert x types metadata) ring
      → contains a ring ≡ true
      → (d : String) × (contains d (deps_of (insert x types metadata) a) ≡ true)
        × (contains d (others x ring) ≡ true)
  next_member ring a h m =
      let (d, inside, on) =
        any-witness (λ d. contains d ring) (deps_of (insert x types metadata) a) (h a m) in
      let before = not_last d (deps_of-known a d inside) in
      (d, inside, ground (arith, on, before, contains-keep (λ y. not (str_eq y x)) d ring))

  -- A ring keeps being one without the service that was loaded last.
  others-IsLoop :
      (ring : List String) → IsLoop (insert x types metadata) ring → IsLoop metadata (others x ring)
  others-IsLoop ring h a m =
      let kept = contains-keep (λ y. not (str_eq y x)) a ring in
      let (d, inside, on) = next_member ring a h (ground (arith, m, kept)) in
      let same : deps_of (insert x types metadata) a ≡ deps_of metadata a =
        ground (arith, m, kept, deps_of-insert a, eq_iff x a, eq_iff a x) in
      any-member (λ d. contains d (others x ring)) d (deps_of metadata a) (rw same at inside) on

  others-filled :
      (ring : List String)
      → IsLoop (insert x types metadata) ring
      → is_empty ring ≡ false
      → is_empty (others x ring) ≡ false
  others-filled ring h filled =
      let (a, m) = filled-member ring filled in
      let (d, _, on) = next_member ring a h m in
      elim (Bool-cases (is_empty (others x ring))) [
        | inl e ↦ absurd (ground (arith, on, contains-empty d (others x ring) e))
        | inr e ↦ e
      ]

-- No services that are known wait for one another.
abbrev IsLoopFree : Dict (List String) → Type 0
IsLoopFree metadata = (ring : List String) → is_empty ring ≡ false → IsLoop metadata ring → ⊥

get_signature-known :
    (metadata : Dict (List String)) (types ps ts : List String)
    → get_signature metadata types ps ≡ ok ts
    → contains "_empty" ps ≡ false
    → ((d : String) → contains d types ≡ true → has_key d metadata ≡ true)
    → (d : String) → contains d ts ≡ true
    → has_key d metadata ≡ true
unfolding get_signature
get_signature-known metadata types [] ts e n k d m = k d (ground (arith, e, m))
get_signature-known metadata types (p ∷ ps) ts e n k d m =
    let there : has_key p metadata ≡ true = ground (arith, e, n) in
    let rest : get_signature metadata (types ++ (p ∷ [])) ps ≡ ok ts = ground (arith, e, there) in
    get_signature-known metadata (types ++ (p ∷ [])) ps ts rest (ground (arith, n))
      (λ y h.
        let split = contains-append y types (p ∷ []) in
        elim (Bool-cases (str_eq p y)) [
          | inl q ↦ let same : p ≡ y = (eq_iff p y).0 q in rw same at there
          | inr q ↦ k y (ground (arith, h, split, q))
        ])
      d m

-- Each class has a name of its own, no parameter without a type, and nothing in the tables.
abbrev pub is_plain : List String → List Declared → Bool
is_plain seen [] = true
is_plain seen (x ∷ xs) =
    not (contains x.name seen)
    && (not (contains "_empty" x.params) && (is_empty x.added && is_plain (x.name ∷ seen) xs))

load_dep-IsLoopFree :
    (names abstract_classes seen : List String) (xs : List Declared)
    (metadata after : Dict (List String))
    → load_dep names abstract_classes xs metadata ≡ ok after
    → is_plain seen xs ≡ true
    → ((y : String) → has_key y metadata ≡ contains y seen)
    → IsClosed metadata
    → IsLoopFree metadata
    → IsLoopFree after
unfolding load_dep
load_dep-IsLoopFree names abs seen [] metadata after e p s c f =
    let same : metadata ≡ after = ground (arith, e) in rw same at f
load_dep-IsLoopFree names abs seen (x ∷ xs) metadata after e p s c f =
    elim (Result-cases (get_signature metadata [] x.params)) [
      | inr (_, h) ↦ absurd (ground (arith, e, h))
      | inl (types, h) ↦
          let ts = types ++ x.added in
          let next = insert x.name ts metadata in
          let fresh : has_key x.name metadata ≡ false = ground (arith, p, s x.name) in
          let known : (d : String) → contains d ts ≡ true → has_key d metadata ≡ true = λ d m.
            get_signature-known metadata [] x.params types h (ground (arith, p)) (λ y q. cc) d
              (ground (
                arith,
                m,
                p,
                contains-append d types x.added,
                contains-empty d x.added (ground (arith, p)),
              )) in
          let rest : load_dep names abs xs next ≡ ok after = ground (arith, e, h) in
          load_dep-IsLoopFree names abs (x.name ∷ seen) xs next after rest (ground (arith, p))
            (λ y. ground (arith, lookup-insert x.name y ts metadata, s y))
            (insert-IsClosed metadata x.name ts fresh c known)
            (λ ring filled loop.
              f (others x.name ring)
                (others-filled metadata x.name ts fresh c known ring loop filled)
                (others-IsLoop metadata x.name ts fresh c known ring loop))
    ]

-- If __load_dep accepts some classes, each with a name of its own, typed parameters and nothing in the
-- tables of abstract, possible and build-only dependencies, then __buildContainer returns: it raises
-- no CircularDependencyError.
pub load_dep-build_container :
    (names abstract_classes : List String) (xs : List Declared) (metadata : Dict (List String))
    → load_dep names abstract_classes xs [] ≡ ok metadata
    → is_plain [] xs ≡ true
    → (D : List String)
    → (services : List String) × (build_container (deps_of metadata) D ≡ ok services)
load_dep-build_container names abs xs metadata e p D =
    elim (build_container-circular (deps_of metadata) D).1 [
      | inl built ↦ built
      | inr (x, ring, h) ↦ absurd (
          load_dep-IsLoopFree names abs [] xs [] metadata e p (λ y. refl) (λ y d m. cc)
            (λ r filled loop. let (a, m) = filled-member r filled in ground (arith, loop a m))
            (x ∷ ring) refl
            (λ a m.
              (All-member
                (λ y.
                  (contains y D ≡ true)
                  × (any (λ d. contains d (x ∷ ring)) (deps_of metadata y) ≡ true))
                a (x ∷ ring) h m).1))
    ]
