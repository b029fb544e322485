-- ===== src/Offload/Tests.antt =====
-- Concrete setups of the task manager.
use notifyr.Base.{ℕ, ◌+◌, ◌≡◌, refl, inl, inr, true, false, some, List, String}
use notifyr.Failure.{Result}
use notifyr.TaskKind.{datetime}
use notifyr.Offload.{route, Env, on_worker, Setup, Execution, offload_loop, offload_task}
use notifyr.Offload.{celery, ap_scheduler, has_workers, trigger_task, place}
use notifyr.Offload.Placement.{offload-mix_safe}
use notifyr.Offload.Loop.{offload_loop_ends}

abbrev alone : Setup
alone = record {
  celery_workers_expected = 0;
  aps_activated = false;
  task_service_available = false;
  background = true;
  retry_error = false;
}

abbrev staffed : Setup
staffed = record alone { celery_workers_expected = 2 }

abbrev pick : List Env → Env
pick environments = on_worker

offload_loop_ends_example :
    (r : Result Execution × List String) × (offload_task pick alone datetime route ≡ some r)
    × ((more : ℕ) → offload_loop (4 + more) pick alone datetime route ≡ some r)
offload_loop_ends_example = offload_loop_ends pick alone datetime route

offload-mix_safe_example :
    (celery ≡ celery → has_workers staffed ≡ true)
    × (celery ≡ ap_scheduler → staffed.task_service_available ≡ true)
unfolding offload_task place
offload-mix_safe_example = offload-mix_safe pick staffed {x = trigger_task} (inr (inl refl)) refl
