-- ===== src/Container/Tests.antt =====
-- Concrete services with their dependencies.
use notifyr.Base.Int.{pos}
use notifyr.Container.Loads.{deps_of, load_dep-build_container}
use notifyr.Container.Destroy.{
  LinkParams, no_link, destroyer, Plan, steps_of, visit_users, note, destroy, destroy_each,
  destroy_dep,
}
use notifyr.Container.Walks.{IsOnce}
use notifyr.Container.Ends.{HasFuel, destroy_dep-IsOnce}
use notifyr.Base.{
  arith, true, Option, some, Dict, contains, String, ◌≡◌, refl, ◌↔◌, ◌⊎◌, List, [], ◌∷◌, lookup_or,
}
use notifyr.Failure.{ok, raise, error}
use notifyr.Container.{build_rounds, build_container, circular, get_signature, Declared, load_dep}
use notifyr.Container.Order.{IsBuild, build_container-IsBuild}
use notifyr.Container.Cycles.{HasRing, build_container-circular}

abbrev deps : String → List String
deps x =
    lookup_or x
      (("Redis", "Config" ∷ [])
        ∷ ("Cost", "Redis" ∷ "Config" ∷ [])
        ∷ ("A", "B" ∷ [])
        ∷ ("B", "A" ∷ [])
        ∷ [])
      []

abbrev services : List String
services = "Cost" ∷ "Redis" ∷ "Config" ∷ []

build_container-IsBuild_example : IsBuild deps services ("Config" ∷ "Redis" ∷ "Cost" ∷ [])
unfolding build_container build_rounds
build_container-IsBuild_example =
    build_container-IsBuild deps services ("Config" ∷ "Redis" ∷ "Cost" ∷ []) refl

build_container-circular_example :
    ((build_container deps ("A" ∷ "B" ∷ []) ≡ raise circular) ↔ HasRing deps ("A" ∷ "B" ∷ []))
    × (((s : List String) × (build_container deps ("A" ∷ "B" ∷ []) ≡ ok s))
        ⊎ HasRing deps ("A" ∷ "B" ∷ []))
build_container-circular_example = build_container-circular deps ("A" ∷ "B" ∷ [])

stuck : build_container deps ("Cost" ∷ "A" ∷ "B" ∷ []) ≡ raise circular
unfolding build_container build_rounds
stuck = refl

abbrev config : Declared
config = record { name = "Config"; params = []; added = [] }

abbrev redis : Declared
redis = record { name = "Redis"; params = "Config" ∷ []; added = [] }

loaded :
    load_dep ("Config" ∷ "Redis" ∷ []) [] (config ∷ redis ∷ []) []
    ≡ ok (("Config", []) ∷ ("Redis", "Config" ∷ []) ∷ [])
unfolding load_dep get_signature
loaded = refl

-- A class has to stand behind the classes of its parameters.
too_early :
    load_dep ("Config" ∷ "Redis" ∷ []) [] (redis ∷ config ∷ []) []
    ≡ raise (error "NoResolvedDependencyError")
unfolding load_dep get_signature
too_early = refl

abbrev classes : List Declared
classes = config ∷ redis ∷ []

abbrev metadata : Dict (List String)
metadata = ("Config", []) ∷ ("Redis", "Config" ∷ []) ∷ []

load_dep-build_container_example :
    (made : List String) × (build_container (deps_of metadata) ("Redis" ∷ "Config" ∷ []) ≡ ok made)
load_dep-build_container_example =
    load_dep-build_container ("Config" ∷ "Redis" ∷ []) [] classes metadata loaded refl
      ("Redis" ∷ "Config" ∷ [])

-- Two services that use one another.
abbrev used_by : String → List String
used_by x = lookup_or x (("Mail", "Cost" ∷ []) ∷ ("Cost", "Mail" ∷ []) ∷ []) []

abbrev liaison : String → String → Option LinkParams
liaison s name = some no_link

abbrev plan : Plan
plan = record { rebuild = true; build_state = pos 1; destroy_state = pos 2 }

abbrev both : List String
both = "Mail" ∷ "Cost" ∷ []

used_by-closed : (a d : String) → contains d (used_by a) ≡ true → contains d both ≡ true
used_by-closed a d h = ground arith

walked :
    (destroy_dep used_by liaison plan 3 true (some both)).0.steps
    ≡ destroyer "Mail" (pos 2) ∷ destroyer "Cost" (pos 2) ∷ []
unfolding destroy_dep destroy_each destroy visit_users note steps_of
walked = refl

destroy_dep-IsOnce_example :
    let r = destroy_dep used_by liaison plan 3 true (some both) in HasFuel r × IsOnce r.0
destroy_dep-IsOnce_example =
    destroy_dep-IsOnce used_by liaison plan both used_by-closed both (λ d m. m)
