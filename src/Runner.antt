-- ===== src/Runner.antt =====
-- Loops and timers that run a callback: `retry_logic` of app/callback/event_stream.py,
-- IntervalInterface of app/interface/timers.py, and StepRunner of app/classes/step.py. What the
-- callback does, and which asyncio tasks have ended, are parameters.
pub mod Laws
mod Tests
use notifyr.Base.{
  ℕ, zero, suc, ◌+◌, Bool, true, false, not, ◌&&◌, ◌||◌, Option, none, some, List, [], ◌∷◌,
  if◌then◌else◌, leb, ◌==◌, any,
}
use notifyr.Base.Int.{ℤ, pos, ltb_ℤ}
use notifyr.Failure.{Failure, Result, ok, raise, unbound_local}

-- One call of the function: it returns, an IntegrityError, or another exception.
pub data Attempt {ℓ} (A : Type ℓ) : Type ℓ where
  returns : A → Attempt A
  integrity_error : Attempt A
  other_error : Failure → Attempt A

-- How a retried call ends. `gave_up` is the last IntegrityError, raised again; `nothing` is None.
pub data Retried {ℓ} (A : Type ℓ) : Type ℓ where
  result : A → Retried A
  gave_up : Retried A
  failed : Failure → Retried A
  nothing : Retried A

module _ {ℓ} {A : Type ℓ} where
  -- The `while` of `retry_logic`, with the attempts that are left and the number of the next one: how
  -- it ends, and how often it has slept.
  unfoldable pub retry_loop : (ℕ → Attempt A) → ℕ → ℕ → Retried A × ℕ
  retry_loop func zero retry_count = (nothing, 0)
  retry_loop func (suc left) retry_count =
      let (ended, sleeps) = retry_loop func left (retry_count + 1) in
      elim (func retry_count) [
        | returns a ↦ (result a, 0)
        | integrity_error ↦ if left == 0 then (gave_up, 0) else (ended, sleeps + 1)
        | other_error e ↦ (failed e, 0)
      ]

  -- `retry_logic(retry, sleep_time)(func)`.
  unfoldable pub retry_logic : ℕ → (ℕ → Attempt A) → Retried A × ℕ
  unfolding retry_loop
  retry_logic retry func = retry_loop func retry 0

-- IntervalInterface: the task that it holds, the number of tasks that it has created, those that it
-- has cancelled, and its settings.
pub record Interval : Type 0 where
  pub task : Option ℕ
  pub created : ℕ
  pub cancelled : List ℕ
  pub interval : Option ℤ
  pub start_now : Bool
  pub active : Bool

unfoldable pub new_interval : Bool → Option ℤ → Interval
new_interval start_now interval = record {
  task = none;
  created = 0;
  cancelled = [];
  interval = interval;
  start_now = start_now;
  active = true;
}

unfoldable pub stop_interval : Interval → Interval
stop_interval self = elim self.task [
  | none ↦ record self { active = false }
  | some task ↦ record self { task = none; cancelled = task ∷ self.cancelled; active = false }
]

abbrev pub or_else {ℓ} : {A : Type ℓ} → Option A → Option A → Option A
or_else none old = old
or_else (some new) old = some new

-- `interval is None or interval < 0`
abbrev pub is_bad : Option ℤ → Bool
is_bad none = true
is_bad (some i) = ltb_ℤ i (pos 0)

-- `start_interval(interval, start_now)`: the state, and whether IntervalError was raised.
unfoldable pub start_interval : Option ℤ → Option Bool → Interval → Interval × Bool
unfolding stop_interval
start_interval interval start_now self =
    let stopped = stop_interval self in
    let set = record stopped {
      active = true;
      interval = or_else interval stopped.interval;
      start_now = elim start_now [ none ↦ stopped.start_now | some b ↦ b ];
    } in
    if is_bad set.interval
    then (set, true)
    else (record set { task = some set.created; created = set.created + 1 }, false)

-- `is_running()`, with the tasks that have ended.
unfoldable pub is_running : (ℕ → Bool) → Interval → Bool
is_running done self = elim self.task [ none ↦ false | some task ↦ not (done task) ]

-- The calls that a client makes of a timer.
pub data TimerCall : Type 0 where
  start : Option ℤ → Option Bool → TimerCall
  stop : TimerCall

unfoldable pub timer_calls : List TimerCall → Interval → Interval
timer_calls [] self = self
timer_calls (TimerCall.start i n ∷ cs) self = timer_calls cs (start_interval i n self).0
timer_calls (TimerCall.stop ∷ cs) self = timer_calls cs (stop_interval self)

-- A Step, by what StepRunner reads: the last step and the steps that are recorded.
pub record Step : Type 0 where
  pub current_step : ℕ
  pub steps : List ℕ

-- `__aenter__`: whether the body of the step raises SkipStep at once.
unfoldable pub aenter : ℕ → Step → Bool
aenter step_index state =
    any (λ s. s == step_index) state.steps || leb step_index state.current_step

-- `__aexit__`: it reads `now`, a name of its own, before it gives it a value, so it fails before it
-- records the step, however the body ended.
unfoldable pub aexit : ℕ → Option Failure → Step → Result Step
aexit step_index error state = raise unbound_local
