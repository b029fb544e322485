-- ===== src/Container.antt =====
-- app/container.py: the container reads what each service depends on, and makes the services in an
-- order that respects it.
mod Members
mod Order
mod Cycles
mod Loads
mod Destroy
mod Walks
mod Ends
mod Tests
use notifyr.Base.{
  ℕ, zero, suc, String, Bool, true, false, not, ◌&&◌, if◌then◌else◌, List, [], ◌∷◌, ◌++◌, any, keep,
  str_eq, contains, length, is_empty, Dict, lookup_or, ◌==◌, has_key, lookup, insert, Option, none,
  some, arith, map,
}
use notifyr.Failure.{Result, ok, raise, error, key_error, ◌>>=◌, Failure}

abbrev pub circular : Failure
circular = error "CircularDependencyError"

-- What the fuel of a loop leads to when it runs out.
abbrev pub no_fuel : Failure
no_fuel = error "out of fuel"

module _ (deps : String → List String) where
  -- len(d.intersection(D)) == 0
  abbrev pub is_free : List String → String → Bool
  is_free waiting x = not (any (λ d. contains d waiting) (deps x))

  -- One round of the while loop: `no_dep`, in the order of the set.
  abbrev pub no_dep : List String → List String
  no_dep waiting = keep (is_free waiting) waiting

  -- D.difference_update(no_dep)
  abbrev pub still_waiting : List String → List String
  still_waiting waiting = keep (λ x. not (contains x (no_dep waiting))) waiting

  -- The while loop of __buildContainer on fuel, as the services in the order of their injection.
  unfoldable pub build_rounds : ℕ → List String → Result (List String)
  build_rounds zero waiting = raise no_fuel
  build_rounds (suc fuel) [] = ok []
  build_rounds (suc fuel) (x ∷ xs) =
      let rest = build_rounds fuel (still_waiting (x ∷ xs)) in
      if is_empty (no_dep (x ∷ xs))
      then raise circular
      else rest >>= λ services. ok (no_dep (x ∷ xs) ++ services)

  unfoldable pub build_container : List String → Result (List String)
  build_container D = build_rounds (suc (length D)) D

-- getSignature: the names of the parameters' types, each of which has to be known.
unfoldable pub get_signature : Dict (List String) → List String → List String → Result (List String)
get_signature metadata types [] = ok types
get_signature metadata types (p ∷ ps) =
    let rest = get_signature metadata (types ++ p ∷ []) ps in
    if contains p types
    then raise (error "MultipleParameterSameDependencyError")
    else if not (has_key p metadata) && not (str_eq p "_empty")
    then raise (error "NoResolvedDependencyError")
    else rest

-- A class as the container reads it: the types of its parameters, and what the tables of abstract,
-- possible and build-only dependencies add.
pub record Declared : Type 0 where
  pub name : String
  pub params : List String
  pub added : List String

-- The loop of __load_dep, as the DEP_KEY of each class. What a parameter names has to be one of the
-- classes `known` of the container or an abstract class.
unfoldable pub load_dep :
    List String → List String → List Declared → Dict (List String) → Result (Dict (List String))
load_dep known abstract_classes [] metadata = ok metadata
load_dep known abstract_classes (x ∷ xs) metadata = get_signature metadata [] x.params >>= λ types.
    if any (λ y. not (contains y known) && not (contains y abstract_classes)) types
    then raise (error "NotInDependenciesError")
    else load_dep known abstract_classes xs (insert x.name (types ++ x.added) metadata)
