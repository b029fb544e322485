-- ===== src/Container/Destroy.antt =====
-- app/container.py, destroyDep: the walk along the services that use a service. A service is its name,
-- which services use which, and the table LiaisonDependency are parameters, and so is what the walk
-- does to a service under the parameters of a link.
use notifyr.Base.{
  ℕ, zero, suc, String, Bool, true, false, ◌&&◌, if◌then◌else◌, Option, none, some, List, [], ◌∷◌,
  ◌++◌, contains,
}
use notifyr.Base.Int.{ℤ}
use notifyr.Failure.{Result, ok, raise, key_error, attribute_error, unbound_local}
use notifyr.Container.{no_fuel}

-- LinkParams, as far as they are read; a missing key is none.
pub record LinkParams : Type 0 where
  pub destroy_follow_dep : Option Bool
  pub rebuild : Option Bool
  pub destroy_state : Option ℤ
  pub build_state : Option ℤ

abbrev pub no_link : LinkParams
no_link = record {
  destroy_follow_dep = none;
  rebuild = none;
  destroy_state = none;
  build_state = none;
}

-- A call of `_destroyer` or `_builder`, with its state.
pub data Step : Type 0 where
  destroyer builder : String → ℤ → Step

pub record Walk : Type 0 where
  pub cache : List String
  pub steps : List Step

-- The settings of the container and of the call.
pub record Plan : Type 0 where
  pub rebuild : Bool
  pub build_state : ℤ
  pub destroy_state : ℤ

abbrev pub or_default {ℓ} : {A : Type ℓ} → A → Option A → A
or_default a none = a
or_default a (some b) = b

-- What is done to one service.
unfoldable pub steps_of : Plan → String → LinkParams → List Step
steps_of plan name link =
    (if or_default true link.destroy_follow_dep
      then destroyer name (or_default plan.destroy_state link.destroy_state) ∷ []
      else [])
    ++ (if plan.rebuild && or_default false link.rebuild
        then builder name (or_default plan.build_state link.build_state) ∷ []
        else [])

abbrev pub Visit : Type 0
Visit = String → LinkParams → Walk → Walk × Result (Unit {0})

abbrev pub Went : Type 0
Went = Walk × Result (Unit {0})

abbrev pub visit_next : Went → (Walk → Went) → Went
visit_next (w, ok _) go = go w
visit_next (w, raise e) go = (w, raise e)

-- One service `s` of the loops over `used_by_services`: whether it is in the cache, and its link.
abbrev pub visit_user : Bool → Option LinkParams → Visit → String → (Walk → Went) → Walk → Went
visit_user true link visit s rest w = rest w
visit_user false none visit s rest w = (w, raise key_error)
visit_user false (some link) visit s rest w = visit_next (visit s link w) rest

module _ (used_by : String → List String) (liaison : String → String → Option LinkParams)
    (plan : Plan) where
  -- The loops over `used_by_services`, with the recursive call.
  unfoldable pub visit_users : Visit → String → List String → Walk → Went
  visit_users visit name [] w = (w, ok tt)
  visit_users visit name (s ∷ users) w =
      visit_user (contains s w.cache) (liaison s name) visit s (visit_users visit name users) w

  unfoldable pub note : String → LinkParams → Walk → Walk
  note name link w = record { cache = name ∷ w.cache; steps = w.steps ++ steps_of plan name link }

  -- `__destroy`, on fuel for the depth of its calls.
  unfoldable pub destroy : ℕ → Visit
  destroy zero name link w = (w, raise no_fuel)
  destroy (suc fuel) name link w =
      let users = visit_users (destroy fuel) name (used_by name) (note name link w) in
      if contains name w.cache then (w, ok tt) else users

  unfoldable pub destroy_each : ℕ → List String → Walk → Went
  destroy_each fuel [] w = (w, ok tt)
  destroy_each fuel (d ∷ ds) w = visit_next (destroy fuel d no_link w) (destroy_each fuel ds)

  -- The end of destroyDep: `dependency` has values only where `all` services of an abstract class
  -- are meant, and `d` no value where not.
  unfoldable pub destroy_dep : ℕ → Bool → Option (List String) → Went
  destroy_dep fuel false dependency = (record { cache = []; steps = [] }, raise unbound_local)
  destroy_dep fuel true none = (record { cache = []; steps = [] }, raise attribute_error)
  destroy_dep fuel true (some services) =
      destroy_each fuel services record { cache = []; steps = [] }
