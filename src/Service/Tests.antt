-- ===== src/Service/Tests.antt =====
-- Concrete services, managers and stores.
use notifyr.Base.{ℕ, ◌≡◌, refl, List, true, none, some, [], ◌∷◌}
use notifyr.Service.{BuildError, new_service, Part, check_status, builder}
use notifyr.Service.Life.{builder-serves_iff}
use notifyr.Service.Store.{Call, adds, deletes, run, IsStore, answer, get, get-run}

abbrev works : Part
works self = (self, none)

abbrev is_partial : Part
is_partial self = (self, some BuildError.nearly)

builder-serves_iff_example :
    check_status "send" (builder true true works works new_service).0 ≡ none
unfolding new_service
builder-serves_iff_example =
    (builder-serves_iff true true works works new_service "send" refl (λ s. refl) (λ s. refl)).1
      (refl, refl)

-- The second service under "a" is refused; after a deletion a third one is taken.
abbrev changes : List (Call ℕ)
changes = adds "a" 1 ∷ adds "a" 2 ∷ adds "b" 4 ∷ deletes "b" ∷ adds "b" 3 ∷ []

get-run_example : IsStore (run changes []) × (get (some "a") (run changes []) ≡ answer (some 1))
get-run_example = get-run changes "a"
