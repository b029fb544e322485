-- ===== src/Runner/Tests.antt =====
-- Concrete attempts and timers.
use notifyr.Base.{ℕ, zero, suc, ◌<◌, ◌≡◌, refl, false, none, some, List, [], ◌∷◌, Among, arith}
use notifyr.Base.Int.{pos}
use notifyr.Runner.{
  Attempt, returns, integrity_error, new_interval, stop_interval, is_running, TimerCall,
  timer_calls,
}
use notifyr.Runner.Laws.{IsSingle, timer_calls-IsSingle}

-- The first attempt collides with another row, the second one works.
abbrev attempts : ℕ → Attempt ℕ
attempts zero = integrity_error
attempts (suc n) = returns 7

collides_before : (k : ℕ) → k < 1 → attempts k ≡ integrity_error
collides_before zero h = refl
collides_before (suc k) h = absurd (omega (arith, h))

abbrev script : List TimerCall
script = TimerCall.start (some (pos 5)) none ∷ TimerCall.start none none ∷ []

new-IsSingle : IsSingle (new_interval false none)
unfolding new_interval
new-IsSingle n h = absurd (omega (arith, h))

timer_calls-IsSingle_example :
    let after = timer_calls script (new_interval false none) in
    IsSingle after
    × ((n : ℕ) → n < (stop_interval after).created → Among n (stop_interval after).cancelled)
    × (is_running (λ n. false) (stop_interval after) ≡ false)
timer_calls-IsSingle_example =
    timer_calls-IsSingle script (new_interval false none) (λ n. false) new-IsSingle
