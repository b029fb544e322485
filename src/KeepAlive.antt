-- ===== src/KeepAlive.antt =====
-- app/manager/keep_alive_manager.py and app/classes/stream_data_parser.py: a request that waits for
-- the messages of a subject until its parser has seen all states. When a message comes, and how long a
-- wait takes, are parameters.
pub mod Subjects
pub mod Collects
pub mod Waits
mod Tests
use notifyr.Base.{
  ℕ, ◌-◌, String, Bool, true, false, not, ◌&&◌, ◌||◌, Option, none, some, List, [], ◌∷◌,
  if◌then◌else◌, str_eq, contains, is_empty, ltb, Dict, insert,
}
use notifyr.Failure.{Failure, key_error, error, Result, ok, raise}

pub data StreamType : Type 0 where
  continuous sequential : StreamType

-- StreamDataParser, with its class.
pub record StreamDataParser : Type 0 where
  pub type : StreamType
  pub state : List String
  pub completed_ : Bool

-- `self.state.remove(state)`
unfoldable pub remove_state : String → List String → List String
remove_state state [] = []
remove_state state (s ∷ states) = if str_eq s state then states else s ∷ remove_state state states

-- `self.state[-1]`, of a list that starts with `s`, and what `self.state.pop()` leaves.
unfoldable pub last_state : String → List String → String
last_state s [] = s
last_state s (t ∷ states) = last_state t states

unfoldable pub pop_state : String → List String → List String
pop_state s [] = []
pop_state s (t ∷ states) = s ∷ pop_state t states

-- The states that `up_state` leaves.
unfoldable pub up_state : StreamType → String → List String → Result (List String)
up_state continuous state states =
    if contains state states
    then ok (remove_state state states)
    else raise (error "ContinuousStateError")
up_state sequential state [] = ok []
up_state sequential state (s ∷ states) =
    if contains state (s ∷ states)
    then (if str_eq (last_state s states) state
        then ok (pop_state s states)
        else raise (error "SequentialStateError"))
    else ok (s ∷ states)

unfoldable pub completed : StreamDataParser → Bool
completed self = self.completed_ || is_empty self.state

-- A message, a dict that may lack a key.
pub record StreamData (A : Type 0) : Type 0 where
  pub state : Option String
  pub content : Option A

-- What of the manager changes while it waits.
pub record KeepAlive (A : Type 0) : Type 0 where
  pub parser : StreamDataParser
  pub value : Dict A
  pub failure : Option Failure

-- What a subject tells its subscribers.
pub data Signal (A : Type 0) : Type 0 where
  next : StreamData A → Signal A
  fails : Failure → Signal A
  completes : Signal A

module _ {A : Type 0} where
  -- on_next, once the message has a state and, where it is used, a content.
  abbrev pub after_up : Result (List String) → KeepAlive A → KeepAlive A
  after_up (ok states) self = record self {
    parser = record (self.parser) { state = states };
    failure = none;
  }
  after_up (raise e) self = record self { failure = some e }

  abbrev pub take_content : String → Option A → KeepAlive A → KeepAlive A
  take_content state none self = record self { failure = some key_error }
  take_content state (some d) self =
      after_up (up_state self.parser.type state self.parser.state)
        (record self { value = insert state d self.value })

  abbrev pub take_state : Option String → Option A → KeepAlive A → KeepAlive A
  take_state none content self = record self { failure = some key_error }
  take_state (some state) content self =
      if contains state self.parser.state
      then take_content state content self
      else after_up (up_state self.parser.type state self.parser.state) self

  unfoldable pub on_next : StreamData A → KeepAlive A → KeepAlive A
  on_next v self = take_state v.state v.content self

  -- on_next, on_error and on_complete of the manager.
  unfoldable pub notify : Signal A → KeepAlive A → KeepAlive A
  notify (next v) self = on_next v self
  notify (fails e) self = record self { failure = some e }
  notify completes self = record self { parser = record (self.parser) { completed_ = true } }

  unfoldable pub notify_all : List (Signal A) → KeepAlive A → KeepAlive A
  notify_all [] self = self
  notify_all (s ∷ signals) self = notify_all signals (notify s self)

-- One wait for the lock of the request: it times out, or the lock is released, with what has been told
-- meanwhile and the time that is gone.
pub data Wait (A : Type 0) : Type 0 where
  expires : Wait A
  wakes : List (Signal A) → ℕ → Wait A

-- `waits` is a request that is still waiting.
pub data Answer (A : Type 0) : Type 0 where
  answers : Dict A → Answer A
  raises : Failure → Answer A
  times_out : Answer A
  waits : Answer A

module _ {A : Type 0} where
  -- The end of a round: the error of the manager, whether its parser is completed, and whether the
  -- time is up; then its value, and what the next rounds give.
  abbrev pub conclude : Option Failure → Bool → Bool → Dict A → Answer A → Answer A
  conclude (some e) done late value rest = raises e
  conclude none true late value rest = answers value
  conclude none false true value rest = times_out
  conclude none false false value rest = rest

  -- The `while True` of wait_for.
  unfoldable pub wait_loop : List (Wait A) → ℕ → KeepAlive A → Answer A
  wait_loop [] current_timeout self = waits
  wait_loop (expires ∷ rounds) current_timeout self = times_out
  wait_loop (wakes signals delta ∷ rounds) current_timeout self =
      let after = notify_all signals self in
      conclude after.failure (completed after.parser) (ltb current_timeout delta) after.value
        (wait_loop rounds (current_timeout - delta) after)

  -- `KeepAliveManager.__init__` with the parser that is set.
  unfoldable pub new_manager : StreamType → List String → KeepAlive A
  new_manager type states = record {
    parser = record { type = type; state = states; completed_ = false };
    value = [];
    failure = none;
  }
