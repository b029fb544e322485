-- ===== src/Container/Cycles.antt =====
-- app/container.py, __buildContainer and __load_dep: when the dependencies are circular.
use notifyr.Base.{
  ℕ, zero, suc, ◌<◌, String, ◌≡◌, refl, ◌⊎◌, inl, inr, ◌≢◌, ◌↔◌, Bool, true, false, not,
  if◌then◌else◌, List, [], ◌∷◌, ◌++◌, arith, any, is_empty, contains, length, All,
}
use notifyr.Failure.{Result, ok, raise, ◌>>=◌}
use notifyr.Container.{is_free, no_dep, still_waiting, build_rounds, build_container, circular}
use notifyr.Container.Members.{
  contains-empty, filled-member, contains-keep, length-keep-lt, All-members, All-member, any_mono,
}

module _ (deps : String → List String) where
  -- Some of the services wait for one another: each of `ring` is in D and depends on one of `ring`.
  abbrev IsRing : List String → List String → Type 0
  IsRing D ring =
      All (λ x. (contains x D ≡ true) × (any (λ d. contains d ring) (deps x) ≡ true)) ring

  abbrev pub HasRing : List String → Type 0
  HasRing D = (first : String) × (rest : List String) × IsRing D (first ∷ rest)

  IsRing-narrow :
      (D E ring : List String)
      → ((x : String)
          → contains x ring ≡ true
          → contains x D ≡ true
          → any (λ d. contains d ring) (deps x) ≡ true
          → contains x E ≡ true)
      → IsRing D ring
      → IsRing E ring
  IsRing-narrow D E ring sub h =
      All-members (λ x. (contains x E ≡ true) × (any (λ d. contains d ring) (deps x) ≡ true)) ring
        (λ x m.
          let k =
            All-member (λ x. (contains x D ≡ true) × (any (λ d. contains d ring) (deps x) ≡ true)) x
              ring h m in
          (sub x m k.0 k.1, k.1))

  -- Where no service is free, all that wait are such a ring.
  stuck-HasRing :
      (x : String) (xs : List String) → is_empty (no_dep deps (x ∷ xs)) ≡ true → HasRing (x ∷ xs)
  stuck-HasRing x xs h = (x, xs, All-members _ (x ∷ xs) (λ a m. (m, stuck a m)))
    where
      stuck :
          (a : String) → contains a (x ∷ xs) ≡ true → any (λ d. contains d (x ∷ xs)) (deps a) ≡ true
      stuck a m = ground (
        arith,
        m,
        contains-empty a (no_dep deps (x ∷ xs)) h,
        contains-keep (is_free deps (x ∷ xs)) a (x ∷ xs),
      )

  -- A member of a ring is never free, so that it goes on waiting.
  IsRing-still_waiting :
      (waiting ring : List String) → IsRing waiting ring → IsRing (still_waiting deps waiting) ring
  IsRing-still_waiting waiting ring h =
      IsRing-narrow waiting (still_waiting deps waiting) ring
        (λ x m k a.
          let busy = any_mono (λ d. contains d ring) (λ d. contains d waiting) (deps x) inside a in
          ground (
            arith,
            k,
            busy,
            contains-keep (is_free deps waiting) x waiting,
            contains-keep (λ y. not (contains y (no_dep deps waiting))) x waiting,
          ))
        h
    where
      inside : (d : String) → contains d ring ≡ true → contains d waiting ≡ true
      inside d m =
          (All-member
            (λ x. (contains x waiting ≡ true) × (any (λ e. contains e ring) (deps x) ≡ true)) d ring
            h m).0

  -- A round that makes something leaves fewer to wait.
  still_waiting-shrinks :
      (waiting : List String)
      → is_empty (no_dep deps waiting) ≡ false
      → length (still_waiting deps waiting) < length waiting
  still_waiting-shrinks waiting h =
      let (a, m) = filled-member (no_dep deps waiting) h in
      length-keep-lt (λ x. not (contains x (no_dep deps waiting))) a waiting
        (ground (arith, m, contains-keep (is_free deps waiting) a waiting)) (ground (arith, m))

  -- What waits behind a round waited before it.
  still_waiting-HasRing :
      (waiting : List String) → HasRing (still_waiting deps waiting) → HasRing waiting
  still_waiting-HasRing waiting (x, xs, h) = (
    x,
    xs,
    IsRing-narrow (still_waiting deps waiting) waiting (x ∷ xs)
        (λ y m k a.
          ground (arith, k, contains-keep (λ z. not (contains z (no_dep deps waiting))) y waiting))
        h,
  )

  -- The rounds end with the services or at a ring.
  abbrev Ends : List String → Result (List String) → Type 0
  Ends waiting result =
      ((services : List String) × (result ≡ ok services))
      ⊎ ((result ≡ raise circular) × HasRing waiting)

  step-Ends :
      (waiting : List String) (is_stuck : Bool) (rest : Result (List String))
      → (is_stuck ≡ true → HasRing waiting)
      → (is_stuck ≡ false → Ends (still_waiting deps waiting) rest)
      → Ends waiting
          (if is_stuck then raise circular else rest >>= λ s. ok (no_dep deps waiting ++ s))
  step-Ends waiting true rest stuck ih = inr (refl, stuck refl)
  step-Ends waiting false rest stuck ih = elim (ih refl) [
    | inl done ↦ inl (no_dep deps waiting ++ done.0, rw done.1 refl)
    | inr failed ↦ inr (rw failed.0 refl, still_waiting-HasRing waiting failed.1)
  ]

  build_rounds-Ends :
      (fuel : ℕ) (waiting : List String)
      → length waiting < fuel
      → Ends waiting (build_rounds deps fuel waiting)
  unfolding build_rounds
  build_rounds-Ends zero waiting h = absurd (omega (arith, h))
  build_rounds-Ends (suc fuel) [] h = inl ([], refl)
  build_rounds-Ends (suc fuel) (x ∷ xs) h =
      step-Ends (x ∷ xs) (is_empty (no_dep deps (x ∷ xs)))
        (build_rounds deps fuel (still_waiting deps (x ∷ xs))) (stuck-HasRing x xs)
        (λ e.
          build_rounds-Ends fuel (still_waiting deps (x ∷ xs))
            (omega (arith, h, still_waiting-shrinks (x ∷ xs) e)))

  step-ring :
      (waiting services : List String) (is_stuck : Bool) (rest : Result (List String))
      → ((s : List String) → rest ≢ ok s)
      → (if is_stuck then raise circular else rest >>= λ s. ok (no_dep deps waiting ++ s))
        ≢ ok services
  step-ring waiting services true rest never e = cc
  step-ring waiting services false (ok s) never e = never s refl
  step-ring waiting services false (raise _) never e = cc

  build_rounds-ring :
      (fuel : ℕ) (waiting services : List String) (first : String) (rest : List String)
      → IsRing waiting (first ∷ rest)
      → build_rounds deps fuel waiting ≢ ok services
  unfolding build_rounds
  build_rounds-ring zero waiting services first rest h e = cc
  build_rounds-ring (suc fuel) [] services first rest h e = cc
  build_rounds-ring (suc fuel) (x ∷ xs) services first rest h e =
      step-ring (x ∷ xs) services (is_empty (no_dep deps (x ∷ xs)))
        (build_rounds deps fuel (still_waiting deps (x ∷ xs)))
        (λ s.
          build_rounds-ring fuel (still_waiting deps (x ∷ xs)) s first rest
            (IsRing-still_waiting (x ∷ xs) (first ∷ rest) h))
        e

  -- __buildContainer always ends. It raises CircularDependencyError exactly when some of the
  -- services wait for one another, and else it makes them all.
  pub build_container-circular :
      (D : List String)
      → ((build_container deps D ≡ raise circular) ↔ HasRing D)
        × (((services : List String) × (build_container deps D ≡ ok services)) ⊎ HasRing D)
  unfolding build_container
  build_container-circular D = decide_by (build_rounds-Ends (suc (length D)) D (omega arith))
    where
      Claim : Type 0
      Claim =
          ((build_rounds deps (suc (length D)) D ≡ raise circular) ↔ HasRing D)
          × (((services : List String) × (build_rounds deps (suc (length D)) D ≡ ok services))
              ⊎ HasRing D)

      decide_by : Ends D (build_rounds deps (suc (length D)) D) → Claim
      decide_by (inl (s, e)) = (
        (
          λ c. absurd (ground (arith, e, c)),
          λ ring. absurd (build_rounds-ring (suc (length D)) D s ring.0 ring.1 ring.2 e),
        ),
        inl (s, e),
      )
      decide_by (inr (e, ring)) = ((λ _. ring, λ _. e), inr ring)
