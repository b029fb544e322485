-- ===== src/Offload/Loop.antt =====
-- The fallback loop ends, and where it ends.
use notifyr.Base.{
  ℕ, suc, ◌+◌, ◌≡◌, refl, inl, inr, true, false, none, some, List, [], ◌∷◌, ◌++◌, String,
  Bool-cases,
}
use Prim.Native.Nat.add
use notifyr.Failure.{Result, ok, raise, key_error, type_error}
use notifyr.TaskKind.{TaskType, is_now}
use notifyr.Offload.{
  Algorithm, normal, mix, worker, route, aps, error, unknown, Env, Setup, Execution, finished,
  falls_back, has_workers, round, worker_round, aps_round, route_offload, normal_offload,
  mix_offload, schedule_aps_task, trigger_task, offload_loop, offload_task,
}

-- What one more round does, once the round is known.
loop-finished :
    (fuel : ℕ) (pick : List Env → Env) (setup : Setup) (task : TaskType) (a : Algorithm)
    (r : Result Execution)
    → round pick setup task a ≡ finished r
    → offload_loop (suc fuel) pick setup task a ≡ some (r, [])
unfolding offload_loop
loop-finished fuel pick setup task a r e = rw (e, offload_loop)

loop-falls_back :
    (fuel : ℕ) (pick : List Env → Env) (setup : Setup) (task : TaskType) (a b : Algorithm)
    (ms : List String)
    → round pick setup task a ≡ falls_back b ms
    → (r : Result Execution × List String) → offload_loop fuel pick setup task b ≡ some r
    → offload_loop (suc fuel) pick setup task a ≡ some (r.0, ms ++ r.1)
unfolding offload_loop
loop-falls_back fuel pick setup task a b ms e r h = rw (e, h, offload_loop)

-- The loop ends with n rounds and with any more.
record Ends (pick : List Env → Env) (setup : Setup) (task : TaskType) (a : Algorithm) (n : ℕ)
    : Type 0 where
  result : Result Execution × List String
  ends : (more : ℕ) → offload_loop (n + more) pick setup task a ≡ some result

module _ (pick : List Env → Env) (setup : Setup) (task : TaskType) where
  at_once :
      (a : Algorithm) (r : Result Execution) (n : ℕ)
      → round pick setup task a ≡ finished r
      → Ends pick setup task a (suc n)
  at_once a r n e = record {
    result = (r, []);
    ends = λ more. rw add.suc (loop-finished (n + more) pick setup task a r e);
  }

  after :
      (a b : Algorithm) (ms : List String) (n : ℕ)
      → round pick setup task a ≡ falls_back b ms
      → Ends pick setup task b n
      → Ends pick setup task a (suc n)
  after a b ms n e next = record {
    result = (next.result.0, ms ++ next.result.1);
    ends = λ more.
        rw add.suc
          (loop-falls_back (n + more) pick setup task a b ms e next.result (next.ends more));
  }

  at_error : (n : ℕ) → Ends pick setup task error (suc n)
  unfolding round
  at_error n = at_once error (raise type_error) n refl

  at_route_now : (n : ℕ) → is_now task ≡ true → Ends pick setup task route (suc n)
  at_route_now n e = at_once route (route_offload setup none) n (unfold round in rw e)

  at_aps_alone : (n : ℕ) → has_workers setup ≡ false → Ends pick setup task aps (suc (suc n))
  at_aps_alone n none_left = elim (Bool-cases setup.aps_activated) [
    | inl on ↦ at_once aps (ok (schedule_aps_task task)) (suc n) (unfold round aps_round in simp on)
    | inr off ↦ elim (Bool-cases (is_now task)) [
      | inl e ↦
          after aps route ("route" ∷ []) (suc n)
            (unfold round aps_round in simp (off, none_left, e)) (at_route_now n e)
      | inr e ↦
          after aps error [] (suc n) (unfold round aps_round in simp (off, none_left, e))
            (at_error n)
    ]
  ]

  at_worker : (n : ℕ) → Ends pick setup task worker (suc (suc (suc n)))
  at_worker n = elim (Bool-cases (has_workers setup)) [
    | inl some_left ↦
        at_once worker (ok trigger_task) (suc (suc n)) (unfold round worker_round in simp some_left)
    | inr none_left ↦ elim (Bool-cases setup.task_service_available) [
      | inl on ↦
          after worker aps ("aps" ∷ []) (suc (suc n))
            (unfold round worker_round in simp (none_left, on)) (at_aps_alone n none_left)
      | inr off ↦ elim (Bool-cases (is_now task)) [
        | inl e ↦
            after worker route ("route" ∷ []) (suc (suc n))
              (unfold round worker_round in simp (none_left, off, e)) (at_route_now (suc n) e)
        | inr e ↦
            at_once worker (raise type_error) (suc (suc n))
              (unfold round worker_round in simp (none_left, off, e))
      ]
    ]
  ]

  at_aps : (n : ℕ) → Ends pick setup task aps (suc (suc (suc n)))
  at_aps n = elim (Bool-cases (has_workers setup)) [
    | inr none_left ↦ at_aps_alone (suc n) none_left
    | inl some_left ↦ elim (Bool-cases setup.aps_activated) [
      | inl on ↦
          at_once aps (ok (schedule_aps_task task)) (suc (suc n))
            (unfold round aps_round in simp on)
      | inr off ↦
          after aps worker ("celery worker" ∷ []) (suc (suc n))
            (unfold round aps_round in simp (off, some_left)) (at_worker_alive (suc n) some_left)
    ]
  ]
    where
      at_worker_alive : (k : ℕ) → has_workers setup ≡ true → Ends pick setup task worker (suc k)
      at_worker_alive k alive =
          at_once worker (ok trigger_task) k (unfold round worker_round in simp alive)

  at_route : (n : ℕ) → Ends pick setup task route (suc (suc (suc (suc n))))
  at_route n = elim (Bool-cases (is_now task)) [
    | inl e ↦ at_route_now (suc (suc (suc n))) e
    | inr e ↦
        after route worker ("celery worker" ∷ []) (suc (suc (suc n))) (unfold round in simp e)
          (at_worker n)
  ]

  at_all : (a : Algorithm) → Ends pick setup task a 4
  at_all normal = at_once normal (normal_offload setup task) 3 (unfold round in refl)
  at_all mix = at_once mix (mix_offload pick setup task) 3 (unfold round in refl)
  at_all worker = at_worker 1
  at_all route = at_route 0
  at_all aps = at_aps 1
  at_all error = at_error 3
  at_all (unknown name) = at_once (unknown name) (raise key_error) 3 (unfold round in refl)

-- The `while True` of _offload_task ends for every task, setup and algorithm: four rounds give a
-- result, and the same with any more rounds.
pub offload_loop_ends :
    (pick : List Env → Env) (setup : Setup) (task : TaskType) (algorithm : Algorithm)
    → (r : Result Execution × List String) × (offload_task pick setup task algorithm ≡ some r)
      × ((more : ℕ) → offload_loop (4 + more) pick setup task algorithm ≡ some r)
unfolding offload_task
offload_loop_ends pick setup task algorithm =
    let e = at_all pick setup task algorithm in (e.result, e.ends 0, e.ends)
