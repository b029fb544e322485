-- ===== src/TaskKind.antt =====
-- app/classes/celery.py, the enum TaskType: how a scheduled task is triggered.
use notifyr.Base.{Bool, true, false, String}

pub data TaskType : Type 0 where
  rrule solar crontab timedelta datetime now interval : TaskType

-- `scheduler.task_type == TaskType.NOW`.
abbrev pub is_now : TaskType → Bool
is_now now = true
is_now _ = false

-- The enum's `value`, which keys the price table and the allowed task options.
abbrev pub value : TaskType → String
value rrule = "rrule"
value solar = "solar"
value crontab = "crontab"
value timedelta = "timedelta"
value datetime = "datetime"
value now = "now"
value interval = "interval"

-- The item text `f"task_type:{scheduler.task_type}"`, by the name of the enum's member.
abbrev pub item_text : TaskType → String
item_text rrule = "task_type:TaskType.RRULE"
item_text solar = "task_type:TaskType.SOLAR"
item_text crontab = "task_type:TaskType.CRONTAB"
item_text timedelta = "task_type:TaskType.TIMEDELTA"
item_text datetime = "task_type:TaskType.DATETIME"
item_text now = "task_type:TaskType.NOW"
item_text interval = "task_type:TaskType.INTERVAL"
