-- ===== src/Container/Walks.antt =====
-- app/container.py, destroyDep: the walk ends, and it destroys no service twice.
use notifyr.Base.{
  ℕ, zero, suc, ◌+◌, ◌≤◌, String, ◌≡◌, inl, inr, Bool, true, false, Option, none, some, List, [],
  ◌∷◌, ◌++◌, arith, if◌then◌else◌, contains, str_eq, eq_iff, Bool-cases,
}
use notifyr.Failure.{ok, raise}
use notifyr.Container.Destroy.{
  LinkParams, no_link, Step, destroyer, builder, Walk, Plan, steps_of, Visit, Went, visit_next,
  visit_user, visit_users, note, destroy, destroy_each,
}

-- The destructions of a service.
abbrev pub times_destroyed : String → List Step → ℕ
times_destroyed n [] = 0
times_destroyed n (destroyer m _ ∷ steps) =
    if str_eq m n then suc (times_destroyed n steps) else times_destroyed n steps
times_destroyed n (builder _ _ ∷ steps) = times_destroyed n steps

times_destroyed-append :
    (n : String) (xs ys : List Step)
    → times_destroyed n (xs ++ ys) ≡ times_destroyed n xs + times_destroyed n ys
times_destroyed-append n [] ys = omega arith
times_destroyed-append n (destroyer m _ ∷ xs) ys = ground (arith, times_destroyed-append n xs ys)
times_destroyed-append n (builder _ _ ∷ xs) ys = times_destroyed-append n xs ys

-- Only services in the cache are destroyed, and none of them twice.
abbrev pub IsOnce : Walk → Type 0
IsOnce w = (n : String) → times_destroyed n w.steps ≤ (if contains n w.cache then 1 else 0)

-- What a visit keeps, if each step does.
module _ (I : Walk → Type 0) where
  visit_next-keeps :
      (r : Went) (go : Walk → Went)
      → I r.0
      → ((v : Walk) → I v → I (go v).0)
      → I (visit_next r go).0
  visit_next-keeps (w, ok _) go h k = k w h
  visit_next-keeps (w, raise e) go h k = h

  visit_user-keeps :
      (known : Bool) (link : Option LinkParams) (visit : Visit) (s : String) (rest : Walk → Went)
      (w : Walk)
      → ((l : LinkParams) (v : Walk) → I v → I (visit s l v).0)
      → ((v : Walk) → I v → I (rest v).0)
      → I w
      → I (visit_user known link visit s rest w).0
  visit_user-keeps true link visit s rest w h k i = k w i
  visit_user-keeps false none visit s rest w h k i = i
  visit_user-keeps false (some l) visit s rest w h k i =
      visit_next-keeps (visit s l w) rest (h l w i) k

  module _ (used_by : String → List String) (liaison : String → String → Option LinkParams)
      (plan : Plan)
      (note-keeps : (name : String) (link : LinkParams) (w : Walk)
        → contains name w.cache ≡ false
        → I w
        → I (note used_by liaison plan name link w)) where
    visit_users-keeps :
        (visit : Visit) (name : String) (users : List String) (w : Walk)
        → ((s : String) (l : LinkParams) (v : Walk) → I v → I (visit s l v).0)
        → I w
        → I (visit_users used_by liaison plan visit name users w).0
    unfolding visit_users
    visit_users-keeps visit name [] w h i = i
    visit_users-keeps visit name (s ∷ users) w h i =
        visit_user-keeps (contains s w.cache) (liaison s name) visit s
          (visit_users used_by liaison plan visit name users) w (h s)
          (λ v. visit_users-keeps visit name users v h) i

    pub destroy-keeps :
        (fuel : ℕ) (name : String) (link : LinkParams) (w : Walk)
        → I w
        → I (destroy used_by liaison plan fuel name link w).0
    unfolding destroy
    destroy-keeps zero name link w i = i
    destroy-keeps (suc fuel) name link w i = elim (Bool-cases (contains name w.cache)) [
      | inl h ↦ rw h i
      | inr h ↦ rw h (
          visit_users-keeps (destroy used_by liaison plan fuel) name (used_by name)
            (note used_by liaison plan name link w) (λ s l v. destroy-keeps fuel s l v)
            (note-keeps name link w h i))
    ]

    pub destroy_each-keeps :
        (fuel : ℕ) (ds : List String) (w : Walk)
        → I w
        → I (destroy_each used_by liaison plan fuel ds w).0
    unfolding destroy_each
    destroy_each-keeps fuel [] w i = i
    destroy_each-keeps fuel (d ∷ ds) w i =
        visit_next-keeps (destroy used_by liaison plan fuel d no_link w)
          (destroy_each used_by liaison plan fuel ds) (destroy-keeps fuel d no_link w i)
          (λ v. destroy_each-keeps fuel ds v)

module _ (used_by : String → List String) (liaison : String → String → Option LinkParams)
    (plan : Plan) where
  note-IsOnce :
      (name : String) (link : LinkParams) (w : Walk)
      → contains name w.cache ≡ false
      → IsOnce w
      → IsOnce (note used_by liaison plan name link w)
  unfolding note steps_of
  note-IsOnce name link w h once n =
      let now = times_destroyed-steps_of n name link in
      let both = times_destroyed-append n w.steps (steps_of plan name link) in
      ground (arith, now, both, once n, h, eq_iff name n)
    where
      times_destroyed-steps_of :
          (n name : String) (link : LinkParams)
          → times_destroyed n (steps_of plan name link) ≤ (if str_eq name n then 1 else 0)
      times_destroyed-steps_of n name link = ground arith

  pub destroy_each-IsOnce :
      (fuel : ℕ) (ds : List String) (w : Walk)
      → IsOnce w
      → IsOnce (destroy_each used_by liaison plan fuel ds w).0
  destroy_each-IsOnce = destroy_each-keeps IsOnce used_by liaison plan note-IsOnce
