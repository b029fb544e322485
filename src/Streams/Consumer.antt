-- ===== src/Streams/Consumer.antt =====
-- `lock_logic` of app/depends/lock.py and a round of `_consume_stream` of
-- app/services/database/redis_service.py, with the handlers of app/callback/track_stream.py and
-- app/callback/webhook_stream.py. What redis answers and what the mini services do are parameters.
use notifyr.Base.{String, Bool, true, false, List, [], ◌∷◌, ◌++◌, if◌then◌else◌, Dict}
use notifyr.Failure.{Result, ok, raise}
use notifyr.Service.{ServiceStatus, available, partially_available, works_almost_att}
use notifyr.Streams.Batch.{
  Value, Entry, Treat, empty_str_to_none, treat_all, acknowledged, ◌>>=◌, lift, modify,
}

-- _valid_state
unfoldable pub is_valid_state : ServiceStatus → Bool
is_valid_state available = true
is_valid_state partially_available = true
is_valid_state works_almost_att = true
is_valid_state _ = false

-- The callback that `lock_logic` puts around a handler.
unfoldable pub lock_logic :
    ServiceStatus → (List Entry → Result (List String)) → List Entry → Result (List String)
lock_logic status handler entries = if is_valid_state status then handler entries else ok []

module _ {Row : Type 0} (orm : Dict Value → Result Row) where
  unfoldable pub treat_row : String → Dict Value → Treat (List Row) (Unit {0})
  treat_row ids raw = do
    row ← lift (orm (empty_str_to_none raw))
    modify (λ objs. objs ++ (row ∷ []))

  -- Whether `bulk_create` returns is a parameter. Add_Email_Tracking and the two for Twilio call this.
  unfoldable pub simple_bulk_creates : (List Row → Bool) → List Entry → List String
  simple_bulk_creates bulk_create entries =
      let b =
        treat_all treat_row entries
          record { state = []; valid_entries = []; invalid_entries = [] } in
      acknowledged (bulk_create b.state) b.valid_entries b.invalid_entries

-- What redis has done in a round. Whether it answers a command without an error is a parameter.
pub data Command : Type 0 where
  xack xdel : List String → Command

module _ (handler : List Entry → Result (List String)) (answers : Command → Bool) where
  -- `for stream, entries in response`, up to the first exception, which is swallowed.
  unfoldable pub consume_response : List (String × List Entry) → List Command
  consume_response [] = []
  consume_response ((_, entries) ∷ response) =
      let rest = consume_response response in
      elim (handler entries) [
        | raise _ ↦ []
        | ok ids ↦
            if answers (xack ids)
            then xack ids ∷ (if answers (xdel ids) then xdel ids ∷ rest else [])
            else []
      ]

  -- One round of `while True`, for what xreadgroup answers.
  unfoldable pub consume_round : Result (List (String × List Entry)) → List Command
  consume_round (raise _) = []
  consume_round (ok response) = consume_response response
