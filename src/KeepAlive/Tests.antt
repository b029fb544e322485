-- ===== src/KeepAlive/Tests.antt =====
-- Concrete waits.
use notifyr.Base.{ℕ, String, ◌≡◌, refl, true, List, [], ◌∷◌, arith}
use notifyr.Failure.{error}
use notifyr.KeepAlive.{
  sequential, Wait, raises, wait_loop, new_manager, notify_all, notify, on_next, up_state,
  last_state, pop_state, completed,
}
use notifyr.KeepAlive.Waits.{
  IsWhole, in_order, told, IsAnswered, wait_loop-collected, wait_loop-IsAnswered,
}

-- A call of Twilio that is to end with a result before it is completed.
abbrev states : List String
states = "completed" ∷ "dtmf-result" ∷ []

abbrev messages : List (String × ℕ × ℕ)
messages = ("dtmf-result", 4711, 20) ∷ ("ringing", 0, 5) ∷ ("completed", 1, 10) ∷ []

abbrev rounds : List (Wait ℕ)
rounds = told messages

abbrev early : List (Wait ℕ)
early = told (("completed", 1, 10) ∷ [])

in_time : in_order sequential states messages ≡ true
unfolding up_state last_state pop_state
in_time = refl

-- The states come in the wrong order.
completed_first :
    wait_loop early 60 (new_manager sequential states) ≡ raises (error "SequentialStateError")
unfolding wait_loop notify_all notify on_next up_state last_state new_manager completed
completed_first = refl

wait_loop-collected_example : IsWhole states (wait_loop rounds 60 (new_manager sequential states))
wait_loop-collected_example = wait_loop-collected sequential states rounds 60 refl

wait_loop-IsAnswered_example :
    let answer = wait_loop (told messages) 60 (new_manager sequential states) in
    IsAnswered answer × IsWhole states answer
wait_loop-IsAnswered_example =
    wait_loop-IsAnswered sequential states messages 60 refl in_time (omega arith)
