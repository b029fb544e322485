-- ===== src/Offload.antt =====
-- app/manager/task_manager.py, how TaskManager places one task: the loop of _offload_task with its
-- fallbacks, and the handlers that it ends in. `self.scheduler` is a SchedulerModel here. Celery and
-- APScheduler take what they are given: their answer is a result without an error. The inline call of
-- a task either returns or raises TaskRetryError. The random pick of an environment is a parameter.
pub mod Loop
pub mod Placement
mod Tests
use notifyr.Base.{
  ℕ, zero, suc, ◌+◌, Bool, true, false, not, ◌||◌, Option, none, some, List, [], ◌∷◌, ◌++◌, String,
  leb, ◌==◌, keep, if◌then◌else◌,
}
use notifyr.Failure.{Result, ok, raise, key_error, type_error}
use notifyr.TaskKind.{TaskType, rrule, solar, crontab, timedelta, datetime, now, interval, is_now}

-- `meta['algorithm']`; `error` is the loop's own.
pub data Algorithm : Type 0 where
  normal mix worker route aps error : Algorithm
  unknown : String → Algorithm

-- EnvSelection of app/classes/env_selector.py.
pub data Env : Type 0 where
  on_route on_worker on_aps on_routebkg : Env

-- What the placement depends on: CELERY_WORKERS_EXPECTED, APS_ACTIVATED, whether the task service is
-- AVAILABLE, `meta['background']`, and whether the inline call raises TaskRetryError.
pub record Setup : Type 0 where
  pub celery_workers_expected : ℕ
  pub aps_activated : Bool
  pub task_service_available : Bool
  pub background : Bool
  pub retry_error : Bool

pub data Handler : Type 0 where
  route_handler background_task celery ap_scheduler : Handler

-- TaskExecutionResult, as far as a caller can tell the placements apart.
pub record Execution : Type 0 where
  pub offloaded : Bool
  pub handler : Handler
  pub error : Bool

abbrev pub has_workers : Setup → Bool
has_workers setup = leb 1 setup.celery_workers_expected

-- `trigger_task_from_scheduler`, where Celery takes the task; its exceptions are not modelled.
abbrev pub trigger_task : Execution
trigger_task = record { offloaded = true; handler = celery; error = false }

abbrev is_routebkg : Option Env → Bool
is_routebkg (some on_routebkg) = true
is_routebkg _ = false

-- `_route_offload`, for a callback that returns or raises a TaskRetryError, and an add_task that returns;
-- other exceptions, which it lets pass, are not modelled. After a TaskRetryError it reads
-- `meta['is_retry']`, a key that no TaskMeta has.
unfoldable pub route_offload : Setup → Option Env → Result Execution
route_offload setup from_env =
    if setup.background || is_routebkg from_env
    then ok (record { offloaded = true; handler = background_task; error = false })
    else if setup.retry_error
    then raise key_error
    else ok (record { offloaded = false; handler = route_handler; error = false })

abbrev aps_job : Execution
aps_job = record { offloaded = true; handler = ap_scheduler; error = false }

abbrev aps_refusal : Execution
aps_refusal = record { offloaded = false; handler = ap_scheduler; error = true }

-- `_schedule_aps_task`. The case `(TaskType.DATETIME, TaskType.TIMEDELTA)` is a sequence pattern,
-- which no task type matches.
unfoldable pub schedule_aps_task : TaskType → Execution
schedule_aps_task now = aps_job
schedule_aps_task crontab = aps_job
schedule_aps_task interval = aps_job
schedule_aps_task _ = aps_refusal

-- `_normal_offload`.
unfoldable pub normal_offload : Setup → TaskType → Result Execution
unfolding route_offload schedule_aps_task
normal_offload setup task =
    if is_now task
    then route_offload setup none
    else if has_workers setup
    then ok trigger_task
    else ok (schedule_aps_task task)

-- The mask that `_mix_offload` builds, and the environments that it allows (`apply_mask`).
abbrev pub mask : Setup → Env → Bool
mask setup on_route = true
mask setup on_worker = has_workers setup
mask setup on_aps = setup.task_service_available
mask setup on_routebkg = true

unfoldable pub allowed : Setup → List Env
allowed setup = keep (mask setup) (on_route ∷ on_worker ∷ on_aps ∷ on_routebkg ∷ [])

-- Where the picked environment leads.
unfoldable pub place : Setup → TaskType → Env → Result Execution
unfolding route_offload schedule_aps_task
place setup task on_route = route_offload setup (some on_route)
place setup task on_routebkg = route_offload setup (some on_routebkg)
place setup task on_worker = ok trigger_task
place setup task on_aps = ok (schedule_aps_task task)

-- `_mix_offload`, with the selector's pick among the allowed environments. The other two cases are
-- sequence patterns again, so every other task type ends in the last one.
unfoldable pub mix_offload : (List Env → Env) → Setup → TaskType → Result Execution
unfolding place allowed
mix_offload pick setup now = place setup now (pick (allowed setup))
mix_offload pick setup _ = ok (record { offloaded = false; handler = route_handler; error = true })

-- One round of the `while True` of `_offload_task`: it returns or raises, or goes on with another
-- algorithm and leaves a message that names the environment it falls back to.
pub data Round : Type 0 where
  finished : Result Execution → Round
  falls_back : Algorithm → List String → Round

unfoldable pub worker_round : Setup → TaskType → Round
worker_round setup task =
    if has_workers setup
    then finished (ok trigger_task)
    else if setup.task_service_available
    then falls_back aps ("aps" ∷ [])
    else
        -- `add_messages()` without its arguments is a TypeError.
        if is_now task
    then falls_back route ("route" ∷ [])
    else finished (raise type_error)

unfoldable pub aps_round : Setup → TaskType → Round
unfolding schedule_aps_task
aps_round setup task =
    if setup.aps_activated
    then finished (ok (schedule_aps_task task))
    else if has_workers setup
    then falls_back worker ("celery worker" ∷ [])
    else if is_now task
    then falls_back route ("route" ∷ [])
    else falls_back error []

unfoldable pub round : (List Env → Env) → Setup → TaskType → Algorithm → Round
unfolding worker_round aps_round normal_offload mix_offload route_offload
round pick setup task normal = finished (normal_offload setup task)
round pick setup task worker = worker_round setup task
round pick setup task route =
    if not (is_now task)
    then falls_back worker ("celery worker" ∷ [])
    else finished (route_offload setup none)
round pick setup task mix = finished (mix_offload pick setup task)
round pick setup task aps = aps_round setup task
round pick setup task error = finished (raise type_error)
-- The message reads `meta['task_id']`, which no TaskMeta has.
round pick setup task (unknown name) = finished (raise key_error)

-- The loop, on fuel; it gives the result and the messages.
unfoldable pub offload_loop :
    ℕ → (List Env → Env) → Setup → TaskType → Algorithm → Option (Result Execution × List String)
unfolding round
offload_loop zero pick setup task algorithm = none
offload_loop (suc fuel) pick setup task algorithm = elim (round pick setup task algorithm) [
  | finished result ↦ some (result, [])
  | falls_back next messages ↦ elim (offload_loop fuel pick setup task next) [
    | none ↦ none
    | some (result, later) ↦ some (result, messages ++ later)
  ]
]

-- `_offload_task`: four rounds are enough.
unfoldable pub offload_task :
    (List Env → Env) → Setup → TaskType → Algorithm → Option (Result Execution × List String)
unfolding offload_loop
offload_task pick setup task algorithm = offload_loop 4 pick setup task algorithm
