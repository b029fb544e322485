-- ===== src/Guards/Clients.antt =====
-- app/decorators/guards.py: the guards on tasks, contacts, clients and links.
use notifyr.Base.{
  ℕ, ◌*◌, ◌<◌, ◌≡◌, ◌≢◌, ◌↔◌, ◌⊎◌, Bool, true, false, not, ◌&&◌, ◌||◌, Option, none, some, List, [],
  ◌∷◌, String, contains, str_eq, eq_iff, arith, if◌then◌else◌, leb, ◌==◌,
}
use notifyr.Failure.{ok, raise, http, type_error, attribute_error, error}
use notifyr.TaskKind.{TaskType, is_now}
use notifyr.Guards.{Answer, pass, refuse}

-- The values of an enum are told apart by their positions.
abbrev position : TaskType → ℕ
position TaskType.rrule = 0
position TaskType.solar = 1
position TaskType.crontab = 2
position TaskType.timedelta = 3
position TaskType.datetime = 4
position TaskType.now = 5
position TaskType.interval = 6

abbrev has_type : TaskType → List TaskType → Bool
has_type t [] = false
has_type t (u ∷ us) = (position u == position t) || has_type t us

abbrev is_empty {ℓ} : {A : Type ℓ} → List A → Bool
is_empty [] = true
is_empty (_ ∷ _) = false

-- CeleryTaskGuard: an empty list of names or of types permits all.
unfoldable pub celery_task_guard : List String → List TaskType → String → TaskType → Answer
celery_task_guard task_names task_types task_name task_type =
    if not (is_empty task_names) && not (contains task_name task_names)
    then refuse "The task is  not permitted for this route"
    else if not (is_empty task_types) && not (has_type task_type task_types)
    then refuse "The task_type is not permitted for this route"
    else pass

-- The enum Status of app/models/contacts_model.py, and ContentType.
pub data ContactStatus : Type 0 where
  active pending blacklist inactive : ContactStatus

pub data ContentType : Type 0 where
  newsletter event notification promotion update other : ContentType

abbrev pub is_urgent : ContentType → Bool
is_urgent ContentType.notification = true
is_urgent ContentType.update = true
is_urgent _ = false

abbrev is_active : ContactStatus → Bool
is_active ContactStatus.active = true
is_active _ = false

-- RegisteredContactsGuard
unfoldable pub registered_contacts_guard : Bool → Answer
registered_contacts_guard app_registered =
    if app_registered
    then pass
    else refuse "Contact Must be registered to proceed with this actions"

-- The relay test of ActiveContactGuard. A row holds members of the enum SubscriptionStatus, which are
-- never equal to the text 'Active'; a missing row or column is an AttributeError.
unfoldable pub check_relay : Bool → Option String → Answer
check_relay has_row none = pass
check_relay has_row (some relay) =
    if str_eq relay ""
    then pass
    else if has_row && (str_eq relay "email" || str_eq relay "sms")
    then refuse "Contact method is not active"
    else raise attribute_error

-- ActiveContactGuard: `content_type` is read before the test for None, and `getattr` is given a
-- member of the enum ContentType in place of an attribute's name.
unfoldable pub active_contact_guard :
    ContactStatus → Option ContentType → Option String → Bool → Answer
unfolding check_relay
active_contact_guard status none relay has_row = raise attribute_error
active_contact_guard status (some content) relay has_row =
    if is_urgent content
    then pass
    else if not (is_active status)
    then refuse "Contact is not active yet for non alert content type"
    else elim (check_relay has_row relay) [
      | ok (true, _) ↦ raise type_error
      | ok (false, message) ↦ refuse message
      | raise e ↦ raise e
    ]

-- ContactActionCodeGuard; `b64_encode` stands outside the model.
unfoldable pub contact_action_code_guard :
    (String → String) → Bool → String → Option String → Option ContentType → Answer
contact_action_code_guard b64_encode bypass action_code contact_code content =
    let rest = check_code in
    if bypass
    then elim content [
      | none ↦ raise attribute_error
      | some kind ↦ if is_urgent kind then pass else rest
    ]
    else rest
  where
    check_code : Answer
    check_code =
        if str_eq action_code ""
        then raise (http 400 "Action code is required")
        else elim contact_code [
          | none ↦ raise (http 403 "Contact action code is null at the moment")
          | some code ↦
              if str_eq code ""
              then raise (http 403 "Contact action code is null at the moment")
              else if not (str_eq (b64_encode action_code) code)
              then refuse "Contact action Code is not valid"
              else pass
        ]

-- AuthenticatedClientGuard
unfoldable pub authenticated_client_guard : Bool → Bool → Answer
authenticated_client_guard reverse authenticated =
    if reverse
    then if authenticated then refuse "Client is authenticated" else pass
    else if not authenticated
    then refuse "Client is not authenticated"
    else pass

-- BlacklistClientGuard, with the answer of AdminService.is_blacklisted.
unfoldable pub blacklist_client_guard : Bool → Answer
blacklist_client_guard is_blacklist = if is_blacklist then refuse "Client is blacklisted" else pass

-- LinkORM, as far as the guards read it.
pub record Link : Type 0 where
  pub public : Bool
  pub archived : Bool
  pub verified : Bool

-- AccessLinkGuard; `error` stands for ServerFileError(error_file, 410).
unfoldable pub access_link_guard : Bool → Link → Answer
access_link_guard return_file link =
    if link.public
    then pass
    else if link.archived
    then if not return_file
      then refuse "Link is currently archived"
      else raise (error "ServerFileError")
    else if not link.verified
    then if not return_file then refuse "Link is not verified" else raise (error "ServerFileError")
    else pass

unfoldable pub verify_link_guard : Link → Answer
verify_link_guard link =
    if link.public
    then refuse "Cannot verify public domain"
    else if link.archived
    then refuse "Cannot verify archived domain"
    else if link.verified
    then refuse "Already verified"
    else pass

-- CeleryBrokerGuard: the answer, and whether the task manager was switched to the algorithm 'aps'.
-- The largest countdown is 15 % of the visibility timeout.
unfoldable pub celery_broker_guard : Bool → ℕ → Bool → TaskType → Option ℕ → Answer × Bool
celery_broker_guard is_redis visibility_timeout allowed_fallback task_type countdown =
    if not is_redis
    then (pass, false)
    else if has_type task_type (TaskType.datetime ∷ TaskType.timedelta ∷ [])
    then if allowed_fallback
      then (pass, true)
      else (raise (error "CeleryRedisVisibilityTimeoutError"), false)
    else if is_now task_type
    then elim countdown [
      | none ↦ (pass, false)
      | some n ↦
          if not (n == 0) && leb (15 * visibility_timeout) (100 * n)
          then (raise (error "CelerySchedulerOptionError"), false)
          else (pass, false)
    ]
    else (pass, false)

-- ActiveContactGuard lets through contents that are notifications or updates, and nothing else.
pub active_contact_guard-passes_iff :
    (status : ContactStatus) (content : Option ContentType) (relay : Option String) (has_row : Bool)
    → (active_contact_guard status content relay has_row ≡ pass)
      ↔ ((content ≡ some ContentType.notification) ⊎ (content ≡ some ContentType.update))
unfolding active_contact_guard check_relay
active_contact_guard-passes_iff status content relay has_row = ground arith

-- AccessLinkGuard serves a link exactly when it is public, or verified and not archived; a link that
-- verify_link_guard lets through is not served.
pub access_link_guard_iff :
    (return_file : Bool) (link : Link)
    → ((access_link_guard return_file link ≡ pass)
        ↔ ((link.public ≡ true) ⊎ ((link.archived ≡ false) × (link.verified ≡ true))))
      × ((verify_link_guard link ≡ pass) → access_link_guard return_file link ≢ pass)
unfolding access_link_guard verify_link_guard
access_link_guard_iff return_file link = ground arith

-- The countdown is absent, 0, or below 15 % of the visibility timeout.
abbrev pub IsShort : ℕ → Option ℕ → Type 0
IsShort timeout none = Unit
IsShort timeout (some n) = (n ≡ 0) ⊎ (100 * n < 15 * timeout)

-- On the redis broker, CeleryBrokerGuard lets a task go on with its algorithm unchanged exactly when its
-- type is neither DATETIME nor TIMEDELTA and, if it is NOW, its countdown is absent, 0, or below 15 % of
-- the visibility timeout.
pub celery_broker_guard_iff :
    (timeout : ℕ) (fallback : Bool) (task_type : TaskType) (countdown : Option ℕ)
    → (celery_broker_guard true timeout fallback task_type countdown ≡ (pass, false)) ↔ (
        (task_type ≢ TaskType.datetime)
        × (task_type ≢ TaskType.timedelta)
        × ((task_type ≢ TaskType.now) ⊎ IsShort timeout countdown))
unfolding celery_broker_guard
celery_broker_guard_iff timeout fallback task_type countdown = ground arith

-- With an action code in hand and no bypass, the guard lets through just the contact whose stored code
-- is the encoded one.
pub contact_action_code_guard_iff :
    (b64_encode : String → String) (code : String) (stored : Option String)
    (content : Option ContentType)
    → (contact_action_code_guard b64_encode false code stored content ≡ pass)
      ↔ ((code ≢ "") × (stored ≢ some "") × (stored ≡ some (b64_encode code)))
unfolding contact_action_code_guard
contact_action_code_guard_iff b64_encode code none content = ground (arith, eq_iff code "")
contact_action_code_guard_iff b64_encode code (some stored) content =
    ground (arith, eq_iff code "", eq_iff stored "", eq_iff (b64_encode code) stored)
