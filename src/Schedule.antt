-- ===== src/Schedule.antt =====
-- app/classes/scheduler.py and app/classes/celery.py: what a scheduled task's options must keep to.
-- The signed fields are integers; pydantic's own bounds, the clock and the schedulers' libraries stay
-- outside the model.
pub mod Limits
mod Tests
use notifyr.Base.{
  ℕ, ◌+◌, ◌*◌, ◌-◌, Bool, true, false, not, ◌&&◌, ◌||◌, Option, none, some, List, [], ◌∷◌,
  if◌then◌else◌, ltb, ◌==◌,
}
use notifyr.Base.Int.{ℤ, pos, ◌-ℤ◌, ltb_ℤ, leb_ℤ}
use notifyr.Failure.{Result, ok, raise, value_error}
use notifyr.TaskKind.{TaskType, is_now}

-- `v < low or v > high`
abbrev pub outside : ℤ → ℤ → ℤ → Bool
outside low high v = ltb_ℤ v low || ltb_ℤ high v

-- `v is not None and (v < low or v > high)`
abbrev pub given_outside : ℤ → ℤ → Option ℤ → Bool
given_outside low high none = false
given_outside low high (some v) = outside low high v

-- `validate_clock_value(day, hour, minute, month, second, microsecond)`.
unfoldable pub validate_clock_value : Option ℤ → ℤ → ℤ → Option ℤ → ℤ → ℤ → Result (Unit {0})
validate_clock_value day hour minute month second microsecond =
    if given_outside (pos 1) (pos 12) month
    then raise value_error
    else if given_outside (pos 1) (pos 31) day
    then raise value_error
    else if outside (pos 0) (pos 23) hour
    then raise value_error
    else if outside (pos 0) (pos 59) minute
    then raise value_error
    else if outside (pos 0) (pos 59) second
    then raise value_error
    else if outside (pos 0) (pos 999999) microsecond
    then raise value_error
    else ok tt

-- The loop of clock_limit.
abbrev pub all_within : ℤ → ℤ → List ℤ → Bool
all_within a b [] = true
all_within a b (item ∷ items) = leb_ℤ a item && leb_ℤ item b && all_within a b items

-- RRuleSchedulerModel.clock_limit on a list of values.
unfoldable pub clock_limit : Option (List ℤ) → ℤ → ℤ → Result (Option (List ℤ))
clock_limit none a b = ok none
clock_limit (some v) a b = if all_within a b v then ok (some v) else raise value_error

-- The lists of an RRuleSchedulerModel, and its validators for them.
pub record RuleFields : Type 0 where
  pub bymonth : Option (List ℤ)
  pub bymonthday : Option (List ℤ)
  pub byweekday : Option (List ℤ)
  pub byhour : Option (List ℤ)
  pub byminute : Option (List ℤ)
  pub bysecond : Option (List ℤ)

unfoldable pub fails : Result (Option (List ℤ)) → Bool
fails (ok v) = false
fails (raise e) = true

unfoldable pub validate_rule : RuleFields → Result (Unit {0})
unfolding clock_limit fails
validate_rule self =
    if fails (clock_limit self.bymonth (pos 1) (pos 12))
      || fails (clock_limit self.bymonthday (pos 1) (pos 31))
      || fails (clock_limit self.byweekday (pos 0) (pos 6))
      || fails (clock_limit self.byhour (pos 0) (pos 23))
      || fails (clock_limit self.byminute (pos 0) (pos 59))
      || fails (clock_limit self.bysecond (pos 0) (pos 59))
    then raise value_error
    else ok tt

-- The limits of CeleryOptionModel.
unfoldable pub limit_wrong : Option ℤ → Bool
limit_wrong none = false
limit_wrong (some t) = not (ltb_ℤ (pos 5) t && ltb_ℤ t (pos 1000))

-- `check_time_limit`, with `time_limit` and `soft_time_limit`.
unfoldable pub check_time_limit : Option ℤ → Option ℤ → Result (Unit {0})
unfolding limit_wrong
check_time_limit time_limit soft_time_limit =
    if limit_wrong time_limit
    then raise value_error
    else if limit_wrong soft_time_limit
    then raise value_error
    else elim soft_time_limit [
      | none ↦ ok tt
      | some soft ↦ elim time_limit [
        | none ↦ ok tt
        | some limit ↦ if ltb_ℤ (limit -ℤ pos 5) soft then raise value_error else ok tt
      ]
    ]

-- SchedulerModel.validate_model: a task that does not run now needs options that its scheduler's
-- model accepts. `accepts` is that model, none where there are no options.
unfoldable pub validate_model : TaskType → Option (Result (Unit {0})) → Result (Unit {0})
validate_model task_type option =
    if is_now task_type
    then ok tt
    else elim option [ none ↦ raise value_error | some accepts ↦ accepts ]

-- TimedeltaSchedulerModel: its fields are not negative.
pub record Timedelta : Type 0 where
  pub days : ℕ
  pub seconds : ℕ
  pub microseconds : ℕ
  pub milliseconds : ℕ
  pub minutes : ℕ
  pub hours : ℕ
  pub weeks : ℕ

-- `build('timedelta')`, as a number of microseconds.
unfoldable pub build : Timedelta → ℕ
build self =
    1000000
      * (self.seconds + 60 * (self.minutes + 60 * (self.hours + 24 * (self.days + 7 * self.weeks))))
    + 1000 * self.milliseconds
    + self.microseconds

-- The interval of the IntervalTrigger, in seconds: it is given neither the milliseconds nor the
-- microseconds.
unfoldable pub aps_seconds : Timedelta → ℕ
aps_seconds self =
    self.seconds + 60 * (self.minutes + 60 * (self.hours + 24 * (self.days + 7 * self.weeks)))

-- `check_after`: the length and the interval, or a ValueError for the length 0.
unfoldable pub check_after : Timedelta → Result (ℕ × ℕ)
unfolding build aps_seconds
check_after self = if build self == 0 then raise value_error else ok (build self, aps_seconds self)
