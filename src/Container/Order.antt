-- ===== src/Container/Order.antt =====
-- app/container.py, __buildContainer: the order in which the services are made.
use notifyr.Base.{
  ℕ, zero, suc, String, ◌≡◌, refl, sym, ap, ◌∙◌, Bool, true, false, not, ◌||◌, if◌then◌else◌, List,
  [], ◌∷◌, ◌++◌, arith, any, contains, length, All, is_empty,
}
use notifyr.Failure.{Result, ok, raise, ◌>>=◌}
use notifyr.Container.{is_free, no_dep, still_waiting, build_rounds, build_container, circular}
use notifyr.Container.Members.{contains-append, contains-keep, All-members}

module _ (deps : String → List String) where
  -- No service stands at or before one that it depends on.
  abbrev pub IsOrdered : List String → Type 0
  IsOrdered [] = Unit
  IsOrdered (x ∷ xs) = All (λ d. contains d (x ∷ xs) ≡ false) (deps x) × IsOrdered xs

  -- What the services of a list depend on is not in `waiting`.
  abbrev AreFree : List String → List String → Type 0
  AreFree waiting = All (λ x. any (λ d. contains d waiting) (deps x) ≡ false)

  free-deps :
      (waiting xs ys : List String)
      → ((d : String) → contains d xs ≡ true → contains d waiting ≡ true)
      → (ds : List String) → any (λ d. contains d waiting) ds ≡ false
      → All (λ d. contains d xs ≡ false) ds
  free-deps waiting xs ys sub [] h = tt
  free-deps waiting xs ys sub (d ∷ ds) h =
      (ground (arith, sub d, h), free-deps waiting xs ys sub ds (ground (arith, h)))

  append-IsOrdered :
      (waiting xs ys : List String)
      → ((d : String) → contains d (xs ++ ys) ≡ true → contains d waiting ≡ true)
      → AreFree waiting xs
      → IsOrdered ys
      → IsOrdered (xs ++ ys)
  append-IsOrdered waiting [] ys sub free h = h
  append-IsOrdered waiting (x ∷ xs) ys sub free h = (
    free-deps waiting (x ∷ xs ++ ys) [] sub (deps x) free.0,
    append-IsOrdered waiting xs ys (λ d m. sub d (ground (arith, m))) free.1 h,
  )

  no_dep-AreFree : (waiting : List String) → AreFree waiting (no_dep deps waiting)
  no_dep-AreFree waiting =
      All-members (λ x. any (λ d. contains d waiting) (deps x) ≡ false) (no_dep deps waiting)
        (λ a m. ground (arith, m, contains-keep (is_free deps waiting) a waiting))

  -- A round divides what waits into what is made and what still waits.
  round-contains :
      (waiting : List String) (a : String)
      → (contains a (no_dep deps waiting) || contains a (still_waiting deps waiting))
        ≡ contains a waiting
  round-contains waiting a = ground (
    arith,
    contains-keep (is_free deps waiting) a waiting,
    contains-keep (λ x. not (contains x (no_dep deps waiting))) a waiting,
  )

  -- What a build with this result promises.
  abbrev pub IsBuild : List String → List String → Type 0
  IsBuild waiting services =
      ((a : String) → contains a services ≡ contains a waiting) × IsOrdered services

  round-IsBuild :
      (waiting services : List String)
      → IsBuild (still_waiting deps waiting) services
      → IsBuild waiting (no_dep deps waiting ++ services)
  round-IsBuild waiting services h =
      let members : (a : String)
          → contains a (no_dep deps waiting ++ services) ≡ contains a waiting =
        λ a.
          contains-append a (no_dep deps waiting) services
          ∙ ap (λ b. contains a (no_dep deps waiting) || b) (h.0 a)
          ∙ round-contains waiting a in
      (
        members,
        append-IsOrdered waiting (no_dep deps waiting) services (λ d m. sym (members d) ∙ m)
            (no_dep-AreFree waiting) h.1,
      )

  -- the services of a result
  abbrev made : Result (List String) → List String
  made (ok services) = services
  made (raise _) = []

  step-IsBuild :
      (waiting services : List String) (is_stuck : Bool) (rest : Result (List String))
      → ((s : List String) → rest ≡ ok s → IsBuild (still_waiting deps waiting) s)
      → (if is_stuck then raise circular else rest >>= λ s. ok (no_dep deps waiting ++ s))
        ≡ ok services
      → IsBuild waiting services
  step-IsBuild waiting services true rest ih h = cc
  step-IsBuild waiting services false (ok s) ih h =
      let e : no_dep deps waiting ++ s ≡ services = ap made h in
      rw (sym e) (round-IsBuild waiting s (ih s refl))
  step-IsBuild waiting services false (raise _) ih h = cc

  build_rounds-IsBuild :
      (fuel : ℕ) (waiting services : List String)
      → build_rounds deps fuel waiting ≡ ok services
      → IsBuild waiting services
  unfolding build_rounds
  build_rounds-IsBuild zero waiting services h = cc
  build_rounds-IsBuild (suc fuel) [] services h =
      let e : [] ≡ services = ap made h in rw (sym e) (λ a. refl, tt)
  build_rounds-IsBuild (suc fuel) (x ∷ xs) services h =
      step-IsBuild (x ∷ xs) services (is_empty (no_dep deps (x ∷ xs)))
        (build_rounds deps fuel (still_waiting deps (x ∷ xs)))
        (build_rounds-IsBuild fuel (still_waiting deps (x ∷ xs))) h

  -- If __buildContainer returns, it has made the services of D and no others, and none of them before
  -- one that it depends on.
  pub build_container-IsBuild :
      (D services : List String) → build_container deps D ≡ ok services → IsBuild D services
  unfolding build_container
  build_container-IsBuild D services h = build_rounds-IsBuild (suc (length D)) D services h
