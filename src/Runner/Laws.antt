-- ===== src/Runner/Laws.antt =====
-- app/callback/event_stream.py and app/interface/timers.py: how often a call is tried, and how many
-- timers run.
use notifyr.Base.{
  ℕ, zero, suc, ◌+◌, ◌<◌, ◌≡◌, ◌⊎◌, inr, Bool, false, Option, none, some, List, [], ◌∷◌, arith,
  Among,
}
use notifyr.Base.Int.{ℤ}
use notifyr.Runner.{
  Attempt, returns, integrity_error, result, retry_loop, retry_logic, Interval, stop_interval,
  start_interval, is_running, TimerCall, timer_calls,
}

module _ {ℓ} {A : Type ℓ} (func : ℕ → Attempt A) where
  retry_loop-returns :
      (n left count : ℕ) (a : A)
      → n < left
      → ((k : ℕ) → k < n → func (count + k) ≡ integrity_error)
      → func (count + n) ≡ returns a
      → retry_loop func left count ≡ (result a, n)
  unfolding retry_loop
  retry_loop-returns n zero count a h before now = absurd (omega (arith, h))
  retry_loop-returns zero (suc left) count a h before now =
      let e : count + 0 ≡ count = omega arith in
      let first : func count ≡ returns a = rw e at now in ground (arith, first)
  retry_loop-returns (suc n) (suc left) count a h before now =
      let e : count + 0 ≡ count = omega arith in
      let first : func count ≡ integrity_error = rw e at (before 0 (omega arith)) in
      let rest = retry_loop-returns n left (count + 1) a (omega (arith, h)) later last in
      ground (arith, first, rest, h)
    where
      shift : (k : ℕ) → count + 1 + k ≡ count + suc k
      shift k = omega arith

      later : (k : ℕ) → k < n → func (count + 1 + k) ≡ integrity_error
      later k lt = rw shift (before (suc k) (omega (arith, lt)))

      last : func (count + 1 + n) ≡ returns a
      last = rw shift now

  -- Where the first n attempts are IntegrityErrors and the next one, within the limit, returns, the
  -- caller gets its value after n sleeps.
  pub retry_logic-returns :
      (retry n : ℕ) (a : A)
      → n < retry
      → ((k : ℕ) → k < n → func k ≡ integrity_error)
      → func n ≡ returns a
      → retry_logic retry func ≡ (result a, n)
  unfolding retry_logic
  retry_logic-returns retry n a h before now =
      retry_loop-returns n retry 0 a h (λ k lt. rw from_zero (before k lt)) (rw from_zero now)
    where
      from_zero : (k : ℕ) → 0 + k ≡ k
      from_zero k = omega arith

-- Each task that the timer has created is the one that it holds, or is cancelled.
abbrev pub IsSingle : Interval → Type 0
IsSingle self = (n : ℕ) → n < self.created → (self.task ≡ some n) ⊎ Among n self.cancelled

stop_interval-IsSingle :
    (self : Interval)
    → IsSingle self
    → ((stop_interval self).task ≡ none)
      × ((n : ℕ) → n < (stop_interval self).created → Among n (stop_interval self).cancelled)
unfolding stop_interval
stop_interval-IsSingle self h = (ground arith, λ n. ground (arith, h n))

start_interval-IsSingle :
    (i : Option ℤ) (b : Option Bool) (self : Interval)
    → IsSingle self
    → IsSingle (start_interval i b self).0
unfolding start_interval
start_interval-IsSingle i b self h n lt =
    ground (arith, lt, (stop_interval-IsSingle self h).0, (stop_interval-IsSingle self h).1 n)

timer_calls-keeps :
    (cs : List TimerCall) (self : Interval) → IsSingle self → IsSingle (timer_calls cs self)
unfolding timer_calls
timer_calls-keeps [] self h = h
timer_calls-keeps (TimerCall.start i b ∷ cs) self h =
    timer_calls-keeps cs (start_interval i b self).0 (start_interval-IsSingle i b self h)
timer_calls-keeps (TimerCall.stop ∷ cs) self h =
    timer_calls-keeps cs (stop_interval self) (λ n lt. inr ((stop_interval-IsSingle self h).1 n lt))

-- If each task that a timer has created is the one that it holds or is cancelled, this stays so
-- however it is started and stopped. After one more stop all of them are, and it is not running.
pub timer_calls-IsSingle :
    (cs : List TimerCall) (self : Interval) (done : ℕ → Bool)
    → IsSingle self
    → let after = timer_calls cs self in
      IsSingle after
      × ((n : ℕ) → n < (stop_interval after).created → Among n (stop_interval after).cancelled)
      × (is_running done (stop_interval after) ≡ false)
unfolding is_running
timer_calls-IsSingle cs self done h =
    let single = timer_calls-keeps cs self h in
    let (none_held, all_cancelled) = stop_interval-IsSingle (timer_calls cs self) single in
    (single, all_cancelled, ground (arith, none_held))
