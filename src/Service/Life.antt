-- ===== src/Service/Life.antt =====
-- app/definition/_service.py, BaseService: which services serve after a build or a destruction, and
-- the table STATUS_TO_ERROR_MAP.
use notifyr.Base.{
  ◌≡◌, ◌≢◌, ◌↔◌, ◌∙◌, Bool, true, false, Option, none, some, [], String, contains, arith,
  if◌then◌else◌,
}
use notifyr.Service.{
  ServiceStatus, BuildError, Service, Ending, returned, Part, check_flags, check_status, settle,
  run_build, builder, destroyer,
}

-- The status lets the method's own tests decide.
abbrev Serves : Option ServiceStatus → Type 0
Serves (some ServiceStatus.temporary_not_available) = ⊥
Serves (some ServiceStatus.not_available) = ⊥
Serves (some ServiceStatus.major_system_failure) = ⊥
Serves _ = Unit

check_flags_iff :
    (f : String) (self : Service)
    → (check_flags f self ≡ none) ↔ (
        (self.builded ≡ true)
        × (self.destroyed ≡ false)
        × (contains f self.method_not_available ≡ false))
unfolding check_flags
check_flags_iff f self = ground arith

-- `check_status` lets a method be called just when the status serves, the service is built and not
-- destroyed, and the method is not switched off.
pub check_status_iff :
    (f : String) (self : Service)
    → (check_status f self ≡ none) ↔ (
        Serves self.service_status
        × (self.builded ≡ true)
        × (self.destroyed ≡ false)
        × (contains f self.method_not_available ≡ false))
unfolding check_status
check_status_iff f self = ground (arith, check_flags_iff f self)

-- STATUS_TO_ERROR_MAP: the error by which a build asks for a status.
unfoldable pub error_of : ServiceStatus → Option BuildError
error_of ServiceStatus.not_available = some BuildError.failure
error_of ServiceStatus.temporary_not_available = some BuildError.warning
error_of ServiceStatus.partially_available = some BuildError.nearly
error_of ServiceStatus.works_almost_att = some BuildError.skip
error_of ServiceStatus.major_system_failure = some BuildError.abort
error_of ServiceStatus.available = none

-- Verification and build alone: the state that they leave and the error that stops them.
abbrev pub attempt : Bool → Part → Part → Part
attempt sync verify build self =
    if sync
    then (let (after, error) = verify (record self { method_not_available = [] }) in
        elim error [ none ↦ build after | some e ↦ (after, some e) ])
    else build self

-- What `_builder` does with the state and the error of an attempt.
abbrev finish : Bool → Service × Option BuildError → Service × Ending
finish container (after, none) = (
  record after { builded = true; destroyed = false; service_status = some ServiceStatus.available },
  returned,
)
finish container (after, some e) = settle container e after

builder_lem :
    (container sync : Bool) (verify build : Part) (self : Service)
    → builder container sync verify build self ≡ finish container (attempt sync verify build self)
unfolding builder run_build
builder_lem container false verify build self = ground arith
builder_lem container true verify build self = ground arith

finish-error_of :
    (container : Bool) (p : Service × Option BuildError) (status : ServiceStatus)
    → p.1 ≡ error_of status
    → (finish container p).0.service_status ≡ some status
unfolding error_of settle
finish-error_of container p status h = ground arith

-- Where an attempt ends with the error that STATUS_TO_ERROR_MAP has for a status, or with none for
-- AVAILABLE, `_builder` gives the service that status.
pub builder-error_of :
    (container sync : Bool) (verify build : Part) (self : Service) (status : ServiceStatus)
    → (attempt sync verify build self).1 ≡ error_of status
    → (builder container sync verify build self).0.service_status ≡ some status
builder-error_of container sync verify build self status h =
    rw builder_lem (finish-error_of container (attempt sync verify build self) status h)

-- A part of a build leaves it to `_builder` to say that the service is built.
abbrev pub KeepsBuilded : Part → Type 0
KeepsBuilded part = (s : Service) → (part s).0.builded ≡ s.builded

attempt-builded :
    (sync : Bool) (verify build : Part) (self : Service)
    → KeepsBuilded verify
    → KeepsBuilded build
    → (attempt sync verify build self).0.builded ≡ self.builded
attempt-builded false verify build self keeps_verify keeps_build = keeps_build self
attempt-builded true verify build self keeps_verify keeps_build = ground (
  arith,
  keeps_verify (record self { method_not_available = [] }),
  keeps_build (verify (record self { method_not_available = [] })).0,
)

check_status-finish_iff :
    (container : Bool) (p : Service × Option BuildError) (f : String)
    → p.0.builded ≡ false
    → (check_status f (finish container p).0 ≡ none)
      ↔ ((p.1 ≡ none) × (contains f p.0.method_not_available ≡ false))
unfolding settle
check_status-finish_iff container p f fresh =
    ground (arith, check_status_iff f (finish container p).0)

-- Where verification and build leave the flag `_builded` to `_builder`, a service that was not
-- built serves a method after `_builder` just when verification and build raised nothing and have
-- not switched the method off. So a build that ends in an acceptable state by BuildOkError or
-- BuildSkipError leaves a service that refuses every call.
pub builder-serves_iff :
    (container sync : Bool) (verify build : Part) (self : Service) (f : String)
    → self.builded ≡ false
    → KeepsBuilded verify
    → KeepsBuilded build
    → (check_status f (builder container sync verify build self).0 ≡ none) ↔ (
        ((attempt sync verify build self).1 ≡ none)
        × (contains f (attempt sync verify build self).0.method_not_available ≡ false))
builder-serves_iff container sync verify build self f fresh keeps_verify keeps_build =
    rw builder_lem (
      check_status-finish_iff container (attempt sync verify build self) f
        (attempt-builded sync verify build self keeps_verify keeps_build ∙ fresh))

-- After a destruction that raises nothing the service refuses every method, whatever its status.
pub destroyer-refuses :
    (destroy : Part) (self : Service) (f : String)
    → (destroy self).1 ≡ none
    → check_status f (destroyer destroy self).0 ≢ none
unfolding destroyer
destroyer-refuses destroy self f h e = ground (arith, check_status_iff f (destroyer destroy self).0)
