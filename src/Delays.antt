-- ===== src/Delays.antt =====
-- app/manager/task_manager.py, the delays that TaskManager keeps: `append_taskConfig`, the property
-- `schedule_ttd`, and the counters of `offload_task`. Delays and weights are whole numbers of some
-- unit; the task itself is left out of its configuration, since nothing here reads it.
use notifyr.Base.{
  ℕ, ◌+◌, ◌≡◌, ◌∙◌, Option, none, some, List, [], ◌∷◌, ◌++◌, length, ◌==◌, if◌then◌else◌, arith, ap,
}
use mathlib.Core.List.{append-nil, append_assoc}
use native.Mathlib.Nat.{add-zero, add_assoc, zero-add}

pub record Manager : Type 0 where
  -- The delays of `self.taskConfig`.
  pub task_config : List ℕ
  -- `meta['ttd']` and `meta['tt']`.
  pub ttd : ℕ
  pub tt : ℕ

unfoldable pub new_manager : Manager
new_manager = record { task_config = []; ttd = 0; tt = 0 }

-- `append_taskConfig(task, delay)`: the new state and the delay that it returns.
unfoldable pub append_task_config : ℕ → Manager → Manager × ℕ
append_task_config delay self =
    let total = self.tt + delay in
    (
      record {
        task_config = self.task_config ++ delay ∷ [];
        ttd = if length self.task_config == 0 then self.ttd + delay else self.ttd;
        tt = total;
      },
      total,
    )

-- `schedule_ttd`, as the two numbers of the difference; `none` is an IndexError.
unfoldable pub schedule_ttd : Manager → Option (ℕ × ℕ)
schedule_ttd self = elim self.task_config [ [] ↦ none | delay ∷ _ ↦ some (self.ttd, delay) ]

unfoldable pub append_all : List ℕ → Manager → Manager
append_all [] self = self
append_all (d ∷ ds) self = append_all ds (append_task_config d self).0

abbrev pub sum : List ℕ → ℕ
sum [] = 0
sum (d ∷ ds) = d + sum ds

append_task_config-later :
    (d first : ℕ) (rest : List ℕ) (first_ttd total : ℕ)
    → (append_task_config d (record { task_config = first ∷ rest; ttd = first_ttd; tt = total })).0
      ≡ record { task_config = first ∷ (rest ++ d ∷ []); ttd = first_ttd; tt = total + d }
unfolding append_task_config
append_task_config-later d first rest first_ttd total = ground arith

append_all-later :
    (ds : List ℕ) (first : ℕ) (rest : List ℕ) (first_ttd total : ℕ)
    → append_all ds (record { task_config = first ∷ rest; ttd = first_ttd; tt = total })
      ≡ record { task_config = first ∷ (rest ++ ds); ttd = first_ttd; tt = total + sum ds }
unfolding append_all
append_all-later [] first rest first_ttd total = simp (append-nil, add-zero)
append_all-later (d ∷ ds) first rest first_ttd total =
    ap (append_all ds) (append_task_config-later d first rest first_ttd total)
    ∙ append_all-later ds first (rest ++ d ∷ []) first_ttd (total + d)
    ∙ simp (append_assoc, add_assoc)

-- After any number of tasks the configuration holds their delays in order, `tt` is their sum and
-- `ttd` the first of them.
pub append_all_new :
    (d : ℕ) (ds : List ℕ)
    → append_all (d ∷ ds) new_manager ≡ record { task_config = d ∷ ds; ttd = d; tt = d + sum ds }
unfolding append_all new_manager append_task_config
append_all_new d ds = append_all-later ds d [] (0 + d) (0 + d) ∙ simp zero-add

-- So `schedule_ttd` is 0 whenever there is a task: it takes the first delay from itself.
pub schedule_ttd_zero :
    (d : ℕ) (ds : List ℕ) → schedule_ttd (append_all (d ∷ ds) new_manager) ≡ some (d, d)
unfolding schedule_ttd
schedule_ttd_zero d ds = rw (append_all_new d ds)
