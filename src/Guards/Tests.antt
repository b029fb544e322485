-- ===== src/Guards/Tests.antt =====
-- Concrete requests in front of the guards.
use notifyr.TaskKind.{TaskType}
use notifyr.Guards.{pass}
use notifyr.Guards.Clients.{
  Link, access_link_guard, verify_link_guard, celery_broker_guard, access_link_guard_iff, IsShort,
  celery_broker_guard_iff,
}
use notifyr.Base.{◌≡◌, ◌≢◌, ◌↔◌, ◌⊎◌, true, false, some, List, [], ◌∷◌}
use notifyr.Guards.Uploads.{File, Limits}
use notifyr.Guards.Models.{Provider, Agent}

abbrev limits : Limits
limits = record {
  max_files = some 5;
  max_files_size = some 10;
  max_size = some 15;
  has_extensions = false;
}

abbrev files : List File
files = record { filename = "a"; size = 9 } ∷ record { filename = "b"; size = 6 } ∷ []

abbrev provider : Provider
provider = record { provider = "openai"; models = "m" ∷ []; max_output_tokens = 100 }

abbrev agent : Agent
agent = record { provider = "p"; model = "m"; max_tokens = 50 }

abbrev link : Link
link = record { public = false; archived = false; verified = true }

access_link_guard_iff_example :
    ((access_link_guard true link ≡ pass)
      ↔ ((link.public ≡ true) ⊎ ((link.archived ≡ false) × (link.verified ≡ true))))
    × ((verify_link_guard link ≡ pass) → access_link_guard true link ≢ pass)
access_link_guard_iff_example = access_link_guard_iff true link

celery_broker_guard_iff_example :
    (celery_broker_guard true 100 false TaskType.now (some 10) ≡ (pass, false)) ↔ (
      (TaskType.now ≢ TaskType.datetime)
      × (TaskType.now ≢ TaskType.timedelta)
      × ((TaskType.now ≢ TaskType.now) ⊎ IsShort 100 (some 10)))
celery_broker_guard_iff_example = celery_broker_guard_iff 100 false TaskType.now (some 10)
