-- ===== src/Offload/Placement.antt =====
-- app/manager/task_manager.py: where tasks end up.
use notifyr.Base.{◌≡◌, refl, ◌≢◌, ◌⊎◌, true, false, Option, none, some, List, String, arith, Among}
use notifyr.Failure.{Result, ok, raise, type_error}
use notifyr.TaskKind.{TaskType, now, is_now}
use notifyr.Offload.{
  Algorithm, normal, mix, worker, route, aps, Env, on_route, on_worker, on_aps, on_routebkg, Setup,
  Execution, route_handler, celery, ap_scheduler, has_workers, mask, trigger_task, offload_task,
  place, allowed,
}

abbrev pub outcome : Option (Result Execution × List String) → Option (Result Execution)
outcome none = none
outcome (some (r, _)) = some r

-- The algorithms that a request may name, but for `mix`.
pub data IsPlain : Algorithm → Type 0 where
  is_normal : IsPlain normal
  is_worker : IsPlain worker
  is_route : IsPlain route
  is_aps : IsPlain aps

-- A plain algorithm that looks for another environment, which `normal` does not.
pub data Searches : Algorithm → Type 0 where
  by_worker : Searches worker
  by_route : Searches route
  by_aps : Searches aps

-- A scheduled task that no worker and no APScheduler can take ends in a TypeError of the message
-- call, and never in the result that the source prepares for it.
pub offload-nowhere :
    (pick : List Env → Env) (setup : Setup) (task : TaskType) (a : Algorithm)
    → Searches a
    → is_now task ≡ false
    → has_workers setup ≡ false
    → setup.aps_activated ≡ false
    → outcome (offload_task pick setup task a) ≡ some (raise type_error)
unfolding offload_task
offload-nowhere pick setup task a by_worker later none_left off = ground arith
offload-nowhere pick setup task a by_route later none_left off = ground arith
offload-nowhere pick setup task a by_aps later none_left off = ground arith

-- With expected workers, every plain algorithm hands a scheduled task to Celery, but for `aps` with
-- an activated APScheduler.
pub offload-celery :
    (pick : List Env → Env) (setup : Setup) (task : TaskType) (a : Algorithm)
    → IsPlain a
    → (a ≢ aps) ⊎ (setup.aps_activated ≡ false)
    → is_now task ≡ false
    → has_workers setup ≡ true
    → outcome (offload_task pick setup task a) ≡ some (ok trigger_task)
unfolding offload_task
offload-celery pick setup task a is_normal h later alive = ground arith
offload-celery pick setup task a is_worker h later alive = ground arith
offload-celery pick setup task a is_route h later alive = ground arith
offload-celery pick setup task a is_aps h later alive = ground arith

-- The algorithm `mix` refuses every scheduled task, even one that Celery or APScheduler could take.
pub offload-mix_scheduled :
    (pick : List Env → Env) (setup : Setup) (task : TaskType)
    → is_now task ≡ false
    → outcome (offload_task pick setup task mix)
      ≡ some (ok (record { offloaded = false; handler = route_handler; error = true }))
unfolding offload_task
offload-mix_scheduled pick setup task later = ground arith

allowed-mask : (setup : Setup) (e : Env) → Among e (allowed setup) → mask setup e ≡ true
unfolding allowed
allowed-mask setup on_route m = refl
allowed-mask setup on_worker m = ground arith
allowed-mask setup on_aps m = ground arith
allowed-mask setup on_routebkg m = refl

place-now_masked :
    (setup : Setup) (e : Env) {x : Execution}
    → mask setup e ≡ true
    → place setup now e ≡ ok x
    → (x.handler ≡ celery → has_workers setup ≡ true)
      × (x.handler ≡ ap_scheduler → setup.task_service_available ≡ true)
unfolding place
place-now_masked setup on_route m h = (λ e. ground arith, λ e. ground arith)
place-now_masked setup on_worker m h = (λ e. m, λ e. ground arith)
place-now_masked setup on_aps m h = (λ e. ground arith, λ e. m)
place-now_masked setup on_routebkg m h = (λ e. ground arith, λ e. ground arith)

-- If the selector picks one of the environments that it is given, the algorithm `mix`, where it places
-- a task for now, uses Celery only with expected workers, and APScheduler only while the task service
-- is available.
pub offload-mix_safe :
    (pick : List Env → Env) (setup : Setup) {x : Execution}
    → Among (pick (allowed setup)) (allowed setup)
    → outcome (offload_task pick setup now mix) ≡ some (ok x)
    → (x.handler ≡ celery → has_workers setup ≡ true)
      × (x.handler ≡ ap_scheduler → setup.task_service_available ≡ true)
offload-mix_safe pick setup among h =
    place-now_masked setup (pick (allowed setup)) (allowed-mask setup _ among) (placed h)
  where
    placed :
        {x : Execution}
        → outcome (offload_task pick setup now mix) ≡ some (ok x)
        → place setup now (pick (allowed setup)) ≡ ok x
    placed e = unfold offload_task in cc e
