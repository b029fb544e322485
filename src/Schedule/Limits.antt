-- ===== src/Schedule/Limits.antt =====
-- app/classes/scheduler.py and app/classes/celery.py: which options are accepted.
use notifyr.Base.{
  ℕ, ◌+◌, ◌*◌, ◌<◌, ◌≡◌, ◌↔◌, true, false, Option, none, some, List, [], ◌∷◌, arith, All,
}
use notifyr.Base.Int.{ℤ, pos, ◌+ℤ◌, ◌≤ℤ◌, -ℤ_parts, +ℤ_parts}
use notifyr.Failure.{ok}
use notifyr.Schedule.{
  validate_clock_value, clock_limit, all_within, fails, RuleFields, validate_rule, limit_wrong,
  check_time_limit, Timedelta, build, aps_seconds, check_after,
}

-- `v` is from `low` to `high`.
abbrev pub Inside : ℤ → ℤ → ℤ → Type 0
Inside low high v = (low ≤ℤ v) × (v ≤ℤ high)

-- So is `v` where it is given.
abbrev pub MayInside : ℤ → ℤ → Option ℤ → Type 0
MayInside low high none = Unit
MayInside low high (some v) = Inside low high v

-- So is each item of a list that is given.
abbrev pub AllInside : ℤ → ℤ → Option (List ℤ) → Type 0
AllInside low high none = Unit
AllInside low high (some v) = All (Inside low high) v

-- A clock value is accepted just when each of its six parts is in its range, or is not given where it
-- may be left out.
pub validate_clock_value_iff :
    (day : Option ℤ) (hour minute : ℤ) (month : Option ℤ) (second microsecond : ℤ)
    → (validate_clock_value day hour minute month second microsecond ≡ ok tt) ↔ (
        MayInside (pos 1) (pos 12) month
        × MayInside (pos 1) (pos 31) day
        × Inside (pos 0) (pos 23) hour
        × Inside (pos 0) (pos 59) minute
        × Inside (pos 0) (pos 59) second
        × Inside (pos 0) (pos 999999) microsecond)
unfolding validate_clock_value
validate_clock_value_iff day hour minute month second microsecond = ground arith

-- Where both are given, the soft limit is at least 5 below the other.
abbrev pub IsBelow : Option ℤ → Option ℤ → Type 0
IsBelow (some soft) (some limit) = soft +ℤ pos 5 ≤ℤ limit
IsBelow _ _ = Unit

all_within_iff : (a b : ℤ) (v : List ℤ) → (all_within a b v ≡ true) ↔ All (Inside a b) v
all_within_iff a b [] = ground arith
all_within_iff a b (item ∷ items) = ground (arith, all_within_iff a b items)

clock_limit_iff :
    (v : Option (List ℤ)) (a b : ℤ) → (fails (clock_limit v a b) ≡ false) ↔ AllInside a b v
unfolding clock_limit fails
clock_limit_iff none a b = ground arith
clock_limit_iff (some v) a b = ground (arith, all_within_iff a b v)

-- A recurrence rule is accepted just when each of its lists that is given keeps to its range.
pub validate_rule_iff :
    (self : RuleFields)
    → (validate_rule self ≡ ok tt) ↔ (
        AllInside (pos 1) (pos 12) self.bymonth
        × AllInside (pos 1) (pos 31) self.bymonthday
        × AllInside (pos 0) (pos 6) self.byweekday
        × AllInside (pos 0) (pos 23) self.byhour
        × AllInside (pos 0) (pos 59) self.byminute
        × AllInside (pos 0) (pos 59) self.bysecond)
unfolding validate_rule
validate_rule_iff self = ground (
  arith,
  clock_limit_iff self.bymonth (pos 1) (pos 12),
  clock_limit_iff self.bymonthday (pos 1) (pos 31),
  clock_limit_iff self.byweekday (pos 0) (pos 6),
  clock_limit_iff self.byhour (pos 0) (pos 23),
  clock_limit_iff self.byminute (pos 0) (pos 59),
  clock_limit_iff self.bysecond (pos 0) (pos 59),
)

-- The limits of a worker's task are accepted just when each one that is given is from 6 to 999, and the soft
-- one is at least 5 below the other where both are given.
pub check_time_limit_iff :
    (time_limit soft_time_limit : Option ℤ)
    → (check_time_limit time_limit soft_time_limit ≡ ok tt) ↔ (
        MayInside (pos 6) (pos 999) time_limit
        × MayInside (pos 6) (pos 999) soft_time_limit
        × IsBelow soft_time_limit time_limit)
unfolding check_time_limit limit_wrong
check_time_limit_iff none soft_time_limit = ground arith
check_time_limit_iff (some limit) none = ground arith
check_time_limit_iff (some limit) (some soft) =
    ground (arith, -ℤ_parts limit (pos 5), +ℤ_parts soft (pos 5))

-- A timedelta is accepted just when one of its fields is not 0. Its length is then the interval's
-- seconds and, beyond them, the milliseconds and microseconds, which the interval leaves out.
pub check_after_iff :
    (self : Timedelta) (length interval : ℕ)
    → (check_after self ≡ ok (length, interval)) ↔ (
        (0 < length)
        × (length ≡ build self)
        × (interval ≡ aps_seconds self)
        × (length ≡ 1000000 * interval + 1000 * self.milliseconds + self.microseconds))
unfolding check_after build aps_seconds
check_after_iff self length interval = ground arith
