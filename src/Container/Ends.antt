-- ===== src/Container/Ends.antt =====
-- app/container.py, destroyDep: the walk ends.
use notifyr.Base.{
  ℕ, zero, suc, ◌≤◌, ◌<◌, String, ◌≡◌, ◌≢◌, inl, inr, Bool, true, false, not, Option, none, some,
  List, [], ◌∷◌, arith, keep, contains, length, eq_iff, Bool-cases,
}
use notifyr.Failure.{ok, raise}
use notifyr.Container.{no_fuel}
use notifyr.Container.Destroy.{
  LinkParams, no_link, Walk, Plan, Visit, Went, visit_next, visit_user, visit_users, note, destroy,
  destroy_each, destroy_dep,
}
use notifyr.Container.Members.{length-keep-le, length-keep_mono, length-keep_strict}
use notifyr.Container.Walks.{IsOnce, destroy-keeps, destroy_each-IsOnce}

-- The services that are not in the cache yet.
abbrev uncached : List String → Walk → ℕ
uncached U w = length (keep (λ x. not (contains x w.cache)) U)

abbrev pub HasFuel : Went → Type 0
HasFuel r = r.1 ≢ raise no_fuel

visit_next-HasFuel :
    (I : Walk → Type 0) (r : Went) (go : Walk → Went)
    → HasFuel r
    → I r.0
    → ((v : Walk) → I v → HasFuel (go v))
    → HasFuel (visit_next r go)
visit_next-HasFuel I (w, ok _) go h i k = k w i
visit_next-HasFuel I (w, raise e) go h i k = h

visit_user-HasFuel :
    (I : Walk → Type 0) (known : Bool) (link : Option LinkParams) (visit : Visit) (s : String)
    (rest : Walk → Went) (w : Walk)
    → ((l : LinkParams) → HasFuel (visit s l w))
    → ((l : LinkParams) → I (visit s l w).0)
    → ((v : Walk) → I v → HasFuel (rest v))
    → I w
    → HasFuel (visit_user known link visit s rest w)
visit_user-HasFuel I true link visit s rest w h j k i = k w i
visit_user-HasFuel I false none visit s rest w h j k i = λ e. ground (arith, e)
visit_user-HasFuel I false (some l) visit s rest w h j k i =
    visit_next-HasFuel I (visit s l w) rest (h l) (j l) k

module _ (used_by : String → List String) (liaison : String → String → Option LinkParams)
    (plan : Plan) (U : List String)
    -- Each service of `U` is used by services of `U` only.
    (closed : (a d : String) → contains d (used_by a) ≡ true → contains d U ≡ true) where
  note-uncached :
      (name : String) (link : LinkParams) (w : Walk)
      → contains name U ≡ true
      → contains name w.cache ≡ false
      → uncached U (note used_by liaison plan name link w) < uncached U w
  unfolding note
  note-uncached name link w m h =
      length-keep_strict (λ x. not (contains x (name ∷ w.cache))) (λ x. not (contains x w.cache))
        name U (λ x p. ground (arith, p)) m (ground (arith, eq_iff name name)) (ground (arith, h))

  note-keeps :
      (k : ℕ) (name : String) (link : LinkParams) (w : Walk)
      → contains name w.cache ≡ false
      → uncached U w ≤ k
      → uncached U (note used_by liaison plan name link w) ≤ k
  unfolding note
  note-keeps k name link w h i = omega (
    arith,
    i,
    length-keep_mono (λ x. not (contains x (name ∷ w.cache))) (λ x. not (contains x w.cache)) U
        (λ x p. ground (arith, p)),
  )

  visit_users-HasFuel :
      (k fuel : ℕ) (name : String) (users : List String) (w : Walk)
      → ((s : String) (l : LinkParams) (v : Walk)
          → contains s U ≡ true
          → uncached U v ≤ k
          → HasFuel (destroy used_by liaison plan fuel s l v))
      → ((s : String) → contains s users ≡ true → contains s U ≡ true)
      → uncached U w ≤ k
      → HasFuel (visit_users used_by liaison plan (destroy used_by liaison plan fuel) name users w)
  unfolding visit_users
  visit_users-HasFuel k fuel name [] w h sub i = λ e. ground (arith, e)
  visit_users-HasFuel k fuel name (s ∷ users) w h sub i =
      visit_user-HasFuel (λ v. uncached U v ≤ k) (contains s w.cache) (liaison s name)
        (destroy used_by liaison plan fuel) s
        (visit_users used_by liaison plan (destroy used_by liaison plan fuel) name users) w
        (λ l. h s l w (sub s (ground (arith, eq_iff s s))) i)
        (λ l.
          destroy-keeps (λ v. uncached U v ≤ k) used_by liaison plan (note-keeps k) fuel s l w i)
        (λ v j. visit_users-HasFuel k fuel name users v h (λ t m. sub t (ground (arith, m))) j) i

  destroy-HasFuel :
      (fuel : ℕ) (name : String) (link : LinkParams) (w : Walk)
      → contains name U ≡ true
      → uncached U w < fuel
      → HasFuel (destroy used_by liaison plan fuel name link w)
  unfolding destroy
  destroy-HasFuel zero name link w m h = absurd (omega (arith, h))
  destroy-HasFuel (suc fuel) name link w m h = elim (Bool-cases (contains name w.cache)) [
    | inl c ↦ rw c (λ e. ground (arith, e))
    | inr c ↦
        let fewer = note-uncached name link w m c in
        let after = uncached U (note used_by liaison plan name link w) in
        let enough : after < fuel = omega (arith, fewer, h) in
        rw c (
          visit_users-HasFuel after fuel name (used_by name) (note used_by liaison plan name link w)
            (λ s l v n i. destroy-HasFuel fuel s l v n (omega (arith, i, enough))) (closed name)
            (omega arith))
  ]

  destroy_each-HasFuel :
      (fuel : ℕ) (ds : List String) (w : Walk)
      → ((d : String) → contains d ds ≡ true → contains d U ≡ true)
      → uncached U w < fuel
      → HasFuel (destroy_each used_by liaison plan fuel ds w)
  unfolding destroy_each
  destroy_each-HasFuel fuel [] w sub h = λ e. ground (arith, e)
  destroy_each-HasFuel fuel (d ∷ ds) w sub h =
      let k = uncached U w in
      visit_next-HasFuel (λ v. uncached U v ≤ k) (destroy used_by liaison plan fuel d no_link w)
        (destroy_each used_by liaison plan fuel ds)
        (destroy-HasFuel fuel d no_link w (sub d (ground (arith, eq_iff d d))) h)
        (destroy-keeps (λ v. uncached U v ≤ k) used_by liaison plan (note-keeps k) fuel d no_link w
          (omega arith))
        (λ v i.
          destroy_each-HasFuel fuel ds v (λ t m. sub t (ground (arith, m))) (omega (arith, i, h)))

  -- Let all services of `U` be used by services of `U` only. Then destroyDep ends for any of them: the
  -- depth of its calls is never above their number and one; and it destroys no service twice, however
  -- they use one another.
  pub destroy_dep-IsOnce :
      (services : List String)
      → ((d : String) → contains d services ≡ true → contains d U ≡ true)
      → let r = destroy_dep used_by liaison plan (suc (length U)) true (some services) in
        HasFuel r × IsOnce r.0
  unfolding destroy_dep
  destroy_dep-IsOnce services sub =
      let start : Walk = record { cache = []; steps = [] } in
      (
        destroy_each-HasFuel (suc (length U)) services start sub
            (omega (arith, length-keep-le (λ x. true) U)),
        destroy_each-IsOnce used_by liaison plan (suc (length U)) services start (λ n. omega arith),
      )
