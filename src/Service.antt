-- ===== src/Service.antt =====
-- app/definition/_service.py and app/errors/service_error.py: the status of a service, the
-- functions `_builder`, `_destroyer` and `check_status` of BaseService, and (in the children) the
-- managers of mini services. What a service's own `verify_dependency`, `build` and `destroy` do is a
-- parameter. The lines that only print, and the report, are left out.
pub mod Life
pub mod Manager
pub mod Store
mod Tests
use notifyr.Base.{
  Bool, true, false, not, ◌||◌, Option, none, some, List, [], String, contains, if◌then◌else◌,
}

pub data ServiceStatus : Type 0 where
  available partially_available works_almost_att temporary_not_available not_available :
      ServiceStatus
  major_system_failure : ServiceStatus

-- The subclasses of BuildError, and the subclasses of Python's Exception.
pub data BuildError : Type 0 where
  failure abort warning nearly skip fallback not_implemented : BuildError
  exception : BuildError

-- The state that BaseService keeps of one service.
pub record Service : Type 0 where
  pub builded : Bool
  pub destroyed : Bool
  pub service_status : Option ServiceStatus
  pub method_not_available : List String

-- `BaseService.__init__`.
unfoldable pub new_service : Service
new_service = record {
  builded = false;
  destroyed = false;
  service_status = none;
  method_not_available = [];
}

pub data ServiceError : Type 0 where
  system_failure unavailable temporarily_unavailable method_unavailable : ServiceError

-- The end of `check_status`: the two flags, then the name of the method.
unfoldable pub check_flags : String → Service → Option ServiceError
check_flags func_name self =
    if not self.builded || self.destroyed
    then some ServiceError.unavailable
    else if contains func_name self.method_not_available
    then some ServiceError.method_unavailable
    else none

-- `check_status(func_name)`; `none` means that the method may be called.
unfoldable pub check_status : String → Service → Option ServiceError
unfolding check_flags
check_status func_name self = elim self.service_status [
  | some ServiceStatus.major_system_failure ↦ some ServiceError.system_failure
  | some ServiceStatus.not_available ↦ some ServiceError.unavailable
  | some ServiceStatus.temporary_not_available ↦ some ServiceError.temporarily_unavailable
  | _ ↦ check_flags func_name self
]

-- How `_builder` or `_destroyer` ends: it returns, `exit(-1)` ends the process, or an exception that
-- no `except` names goes on to the caller.
pub data Ending : Type 0 where
  returned exited : Ending
  propagated : BuildError → Ending

-- A part of a build: the state that it leaves, and what it raises.
abbrev pub Part : Type 0
Part = Service → Service × Option BuildError

abbrev with_status : ServiceStatus → Service → Service
with_status status self = record self { service_status = some status }

-- `exit(-1)`, where the process of the container is the one that builds.
abbrev leave : Bool → Ending
leave container = if container then exited else returned

-- The `except` clauses of `_builder`; `container` is CONTAINER_LIFECYCLE_SCOPE. BuildError is a
-- BaseException, so `except Exception` does not name BuildFallbackError.
unfoldable pub settle : Bool → BuildError → Service → Service × Ending
settle container BuildError.failure self = (with_status ServiceStatus.not_available self, returned)
settle container BuildError.abort self =
    (with_status ServiceStatus.major_system_failure self, leave container)
settle container BuildError.nearly self =
    (with_status ServiceStatus.partially_available self, returned)
settle container BuildError.warning self =
    (with_status ServiceStatus.temporary_not_available self, returned)
settle container BuildError.skip self = (with_status ServiceStatus.works_almost_att self, returned)
settle container BuildError.not_implemented self =
    (with_status ServiceStatus.not_available self, returned)
settle container BuildError.exception self =
    (with_status ServiceStatus.major_system_failure self, leave container)
settle container BuildError.fallback self = (self, propagated BuildError.fallback)

-- `self.build(...)` and the three assignments behind it.
unfoldable pub run_build : Bool → Part → Service → Service × Ending
unfolding settle
run_build container build self =
    let (after, error) = build self in
    elim error [
      | none ↦ (
        record after {
          builded = true;
          destroyed = false;
          service_status = some ServiceStatus.available;
        },
        returned,
      )
      | some e ↦ settle container e after
    ]

-- `_builder`. `sync` is the test `self.CONTEXT == 'sync' or force_sync_verify`.
unfoldable pub builder : Bool → Bool → Part → Part → Service → Service × Ending
unfolding settle run_build
builder container sync verify build self =
    if sync
    then (let (after, error) = verify (record self { method_not_available = [] }) in
        elim error [ none ↦ run_build container build after | some e ↦ settle container e after ])
    else run_build container build self

-- The `except` clauses of `_destroyer`, which swallow four of the errors.
unfoldable pub swallow : BuildError → Ending
swallow BuildError.failure = returned
swallow BuildError.abort = returned
swallow BuildError.warning = returned
swallow BuildError.skip = returned
swallow e = propagated e

-- `_destroyer`.
unfoldable pub destroyer : Part → Service → Service × Ending
unfolding swallow
destroyer destroy self =
    let (after, error) = destroy self in
    elim error [
      | none ↦ (record after { destroyed = true; builded = false }, returned)
      | some e ↦ (after, swallow e)
    ]
