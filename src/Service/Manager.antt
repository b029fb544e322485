-- ===== src/Service/Manager.antt =====
-- app/definition/_service.py, BaseMiniServiceManager: the counter of the mini services' states, and
-- what a manager's `build` makes of it.
use notifyr.Base.{
  ℕ, ◌+◌, ◌≤◌, ◌≡◌, ◌↔◌, Bool, true, false, Option, none, some, List, [], ◌∷◌, arith, ltb, ◌==◌,
  if◌then◌else◌, length, All, ◌∙◌, ap,
}
use notifyr.Service.{ServiceStatus, BuildError}

-- `service_status in ACCEPTABLE_STATES`.
abbrev pub is_acceptable : ServiceStatus → Bool
is_acceptable ServiceStatus.available = true
is_acceptable ServiceStatus.partially_available = true
is_acceptable ServiceStatus.works_almost_att = true
is_acceptable _ = false

abbrev pub is_available : ServiceStatus → Bool
is_available ServiceStatus.available = true
is_available _ = false

pub record StatusCounter : Type 0 where
  pub total_service : ℕ
  pub acceptable_service : ℕ
  pub available_service : ℕ

unfoldable pub new_counter : ℕ → StatusCounter
new_counter total_service = record {
  total_service = total_service;
  acceptable_service = 0;
  available_service = 0;
}

-- `counter.count(miniService)`, with the status of the mini service.
unfoldable pub count : ServiceStatus → StatusCounter → StatusCounter
count status self = record self {
  acceptable_service = self.acceptable_service + (if is_acceptable status then 1 else 0);
  available_service = self.available_service + (if is_available status then 1 else 0);
}

-- The loop of a manager that counts each mini service once.
unfoldable pub count_all : List ServiceStatus → StatusCounter → StatusCounter
count_all [] self = self
count_all (status ∷ statuses) self = count_all statuses (count status self)

-- `BaseMiniServiceManager.build(counter, build_state, no_service_as_ok)`: the error that it raises,
-- or `none` where it returns.
unfoldable pub build : StatusCounter → Bool → Option BuildError
build counter no_service_as_ok =
    if ltb counter.total_service 1
    then some (if no_service_as_ok then BuildError.nearly else BuildError.failure)
    else if counter.available_service == counter.total_service
    then none
    else if ltb counter.acceptable_service 1
    then some BuildError.warning
    else if ltb counter.acceptable_service counter.total_service
    then some BuildError.nearly
    else if counter.acceptable_service == counter.total_service
    then some BuildError.skip
    else none

-- How many of the statuses pass a test.
abbrev number : (ServiceStatus → Bool) → List ServiceStatus → ℕ
number p [] = 0
number p (status ∷ statuses) = (if p status then 1 else 0) + number p statuses

count_all-number :
    (statuses : List ServiceStatus) (total acceptable available : ℕ)
    → count_all statuses (record {
      total_service = total;
      acceptable_service = acceptable;
      available_service = available;
    })
      ≡ record {
        total_service = total;
        acceptable_service = acceptable + number is_acceptable statuses;
        available_service = available + number is_available statuses;
      }
unfolding count_all count
count_all-number [] total acceptable available = ground arith
count_all-number (status ∷ statuses) total acceptable available =
    count_all-number statuses total (acceptable + (if is_acceptable status then 1 else 0))
      (available + (if is_available status then 1 else 0))
    ∙ ground arith

number_le :
    (p : ServiceStatus → Bool) (statuses : List ServiceStatus) → number p statuses ≤ length statuses
number_le p [] = omega arith
number_le p (status ∷ statuses) = ground (arith, number_le p statuses)

number-All_iff :
    (p : ServiceStatus → Bool) (statuses : List ServiceStatus)
    → (number p statuses ≡ length statuses) ↔ All (λ s. p s ≡ true) statuses
number-All_iff p [] = (λ _. tt, λ _. omega arith)
number-All_iff p (status ∷ statuses) =
    ground (arith, number-All_iff p statuses, number_le p statuses)

number-none_iff :
    (p : ServiceStatus → Bool) (statuses : List ServiceStatus)
    → (number p statuses ≡ 0) ↔ All (λ s. p s ≡ false) statuses
number-none_iff p [] = (λ _. tt, λ _. omega arith)
number-none_iff p (status ∷ statuses) = ground (arith, number-none_iff p statuses)

available-acceptable_le :
    (statuses : List ServiceStatus) → number is_available statuses ≤ number is_acceptable statuses
available-acceptable_le [] = omega arith
available-acceptable_le (ServiceStatus.available ∷ ss) = omega (arith, available-acceptable_le ss)
available-acceptable_le (ServiceStatus.partially_available ∷ ss) =
    omega (arith, available-acceptable_le ss)
available-acceptable_le (ServiceStatus.works_almost_att ∷ ss) =
    omega (arith, available-acceptable_le ss)
available-acceptable_le (ServiceStatus.temporary_not_available ∷ ss) =
    omega (arith, available-acceptable_le ss)
available-acceptable_le (ServiceStatus.not_available ∷ ss) =
    omega (arith, available-acceptable_le ss)
available-acceptable_le (ServiceStatus.major_system_failure ∷ ss) =
    omega (arith, available-acceptable_le ss)

-- What a manager does after counting its mini services.
abbrev pub build_all : List ServiceStatus → Bool → Option BuildError
build_all statuses no_service_as_ok =
    build (count_all statuses (new_counter (length statuses))) no_service_as_ok

build_all_lem :
    (statuses : List ServiceStatus) (ok : Bool)
    → build_all statuses ok
      ≡ build
          (record {
            total_service = length statuses;
            acceptable_service = 0 + number is_acceptable statuses;
            available_service = 0 + number is_available statuses;
          })
          ok
unfolding new_counter
build_all_lem statuses ok = ap (λ c. build c ok) (count_all-number statuses (length statuses) 0 0)

-- What a manager's build makes of its mini services: it returns if there is one and all are
-- AVAILABLE; it warns if there is one and none is acceptable; it skips if all are acceptable and not
-- all AVAILABLE.
pub build_all_iff :
    (statuses : List ServiceStatus) (no_service_as_ok : Bool)
    → ((build_all statuses no_service_as_ok ≡ none)
        ↔ ((1 ≤ length statuses) × All (λ s. is_available s ≡ true) statuses))
      × ((build_all statuses no_service_as_ok ≡ some BuildError.warning)
          ↔ ((1 ≤ length statuses) × All (λ s. is_acceptable s ≡ false) statuses))
      × ((build_all statuses no_service_as_ok ≡ some BuildError.skip) ↔ (
          (1 ≤ length statuses)
          × All (λ s. is_acceptable s ≡ true) statuses
          × ¬ All (λ s. is_available s ≡ true) statuses))
unfolding build
build_all_iff statuses no_service_as_ok = rw build_all_lem (
    ground (
      arith,
      number-All_iff is_available statuses,
      number-All_iff is_acceptable statuses,
      number-none_iff is_acceptable statuses,
      number_le is_acceptable statuses,
      available-acceptable_le statuses,
    ))
