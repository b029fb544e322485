-- ===== src/Schedule/Tests.antt =====
-- Concrete options of a schedule.
use notifyr.Base.{none, some, [], ◌∷◌}
use notifyr.Base.Int.{pos}
use notifyr.Schedule.{RuleFields}

abbrev fields : RuleFields
fields = record {
  bymonth = some (pos 1 ∷ pos 12 ∷ []);
  bymonthday = none;
  byweekday = some (pos 0 ∷ []);
  byhour = none;
  byminute = none;
  bysecond = none;
}
