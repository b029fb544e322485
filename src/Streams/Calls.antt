-- ===== src/Streams/Calls.antt =====
-- Add_Twilio_Call_Event of app/callback/event_stream.py. CallEventORM, what the table of calls answers,
-- and the outcomes of the transactions are parameters. The dict `prices` stays empty, and so does
-- `duration`, since `duration[call_id]['duration'] = ...` finds no `duration[call_id]`: the loop over
-- the table finds nothing in them.
use notifyr.Base.{
  ℕ, String, Bool, false, Option, none, some, List, [], ◌∷◌, ◌++◌, if◌then◌else◌, Dict, lookup,
  insert,
}
use notifyr.Base.Int.{ℤ, pos, negsuc, ◌+ℤ◌}
use notifyr.Failure.{Result, ok, raise, key_error, type_error, ◌>>=◌ as on_ok}
use notifyr.Runner.{Attempt, retry_logic}
use notifyr.Streams.Batch.{
  Value, Entry, Key, same_key, find, put, at_key, keys_of, Treat, empty_str_to_none, item, get_item,
  is_set, Batch, treat_all, acknowledged, ◌>>=◌, ◌>>◌, lift, modify, read,
}
use notifyr.Streams.Emails.{has_returned}
use notifyr.Streams.Messages.{is_text, without_price, update_sms as update_calls}

-- What Call_Ids holds for a call.
pub record Memo : Type 0 where
  pub key : Option Key
  pub temp : Option (List (Dict Value))

-- Call_Ids, which outlives a batch, with the state of one. The None that a key may be is `[]`.
pub record Calls (Row : Type 0) : Type 0 where
  pub call_ids : List (Key × Memo)
  pub objs : List Row
  pub analytics : List (Key × Dict (Dict ℤ))
  pub call_tracking_status : List (Key × Value)

abbrev pub table_key : Option Key → Key
table_key none = []
table_key (some k) = k

-- The counters of one direction, without the constant `direction`.
abbrev pub no_calls : Dict ℤ
no_calls =
    ("received", pos 0)
    ∷ ("sent", pos 0)
    ∷ ("started", pos 0)
    ∷ ("delivered", pos 0)
    ∷ ("failed", pos 0)
    ∷ ("bounce", pos 0)
    ∷ ("price", pos 0)
    ∷ ("no_answer", pos 0)
    ∷ ("declined", pos 0)
    ∷ ("rejected", pos 0)
    ∷ ("call_duration", pos 0)
    ∷ ("total_duration", pos 0)
    ∷ []

abbrev pub create_analytics : Dict (Dict ℤ)
create_analytics = ("I", no_calls) ∷ ("O", no_calls) ∷ []

abbrev pub drop_key : {V : Type 0} → Key → List (Key × V) → List (Key × V)
drop_key k [] = []
drop_key k ((j, v) ∷ t) = if same_key j k then t else (j, v) ∷ drop_key k t

-- `table[key][direction][name] += n`
unfoldable pub add_to : String → ℤ → Value → Dict (Dict ℤ) → Result (Dict (Dict ℤ))
add_to name n none table = raise key_error
add_to name n (some direction) table = elim (lookup direction table) [
  | none ↦ raise key_error
  | some counts ↦ elim (lookup name counts) [
    | none ↦ raise key_error
    | some m ↦ ok (insert direction (insert name (m +ℤ n) counts) table)
  ]
]

module _ {Row : Type 0} where
  unfoldable pub add_count : Key → String → ℤ → Dict Value → Treat (Calls Row) (Unit {0})
  add_count key name n v = do
    tables ← read (λ s. s.analytics)
    table ← lift (at_key key tables)
    direction ← lift (item "direction" v)
    counted ← lift (add_to name n direction table)
    modify (λ s. record s { analytics = put key counted s.analytics })

  -- `... += v[name]`, where the value is a text or None: nothing behind it is reached.
  abbrev pub add_text : String → Dict Value → Treat (Calls Row) (Unit {0})
  add_text name v = lift (on_ok (item name v) (λ _. raise type_error))

  -- The `match` on the event. The counters have no `completed` and no `no-answer`.
  unfoldable pub count_call : Key → ℤ → Value → Dict Value → Treat (Calls Row) (Unit {0})
  count_call key factor event v =
      if is_text "RECEIVED" event
      then add_count key "received" factor v
      else if is_text "SENT" event
      then add_count key "sent" factor v
      else if is_text "REJECTED" event
      then add_count key "sent" factor v
      else if is_text "INITIATED" event
      then add_count key "started" factor v
      else if is_text "COMPLETED" event
      then (add_count key "completed" factor v >> add_text "call_duration" v)
      else if is_text "DECLINED" event
      then (add_count key "declined" factor v >> add_text "total_duration" v)
      else if is_text "FAILED" event
      then add_count key "failed" factor v
      else if is_text "BOUNCE" event
      then add_count key "bounce" factor v
      else if is_text "NO-ANSWER" event
      then add_count key "no-answer" factor v
      else lift (ok tt)

  -- The key of the analytics and the events to count, for a call that Call_Ids does not hold:
  -- `Call_Ids[call_id]` fails in both branches.
  unfoldable pub new_call : Key → Dict Value → Treat (Calls Row) (Option Key × List (Dict Value))
  new_call id val = do
    city ← lift (item "city" val)
    elim city [
      | none ↦ lift (raise key_error)
      | some c ↦
          lift (on_ok (item "country" val) (λ _. on_ok (item "state" val) (λ _. raise key_error)))
    ]

  -- The same, for one that it holds.
  unfoldable pub known_call :
      Key → Memo → Dict Value → Treat (Calls Row) (Option Key × List (Dict Value))
  known_call id memo val = elim memo.temp [
    | none ↦ elim memo.key [
      | none ↦ lift (raise key_error)
      | some key ↦ lift (ok (some key, val ∷ []))
    ]
    | some temp ↦ do
      city ← lift (item "city" val)
      elim city [
        | none ↦ do
          modify (λ s. record s {
            call_ids = put id (record memo { temp = some (temp ++ (val ∷ [])) }) s.call_ids;
          })
          lift (ok (none, []))
        | some c ↦ do
          modify (λ s. record s {
            analytics = put [] create_analytics s.analytics;
            call_ids = put id (record memo { temp = some [] }) s.call_ids;
          })
          lift (ok (none, temp))
      ]
  ]

  -- `if key != None: del Call_Ids[call_id]`
  abbrev pub forget : Key → Option Key → Calls Row → Calls Row
  forget id none s = s
  forget id (some _) s = record s { call_ids = drop_key id s.call_ids }

module _ {Row : Type 0} (orm : Dict Value → Result Row) where
  -- `for v in data`
  unfoldable pub treat_events : Key → List (Dict Value) → Treat (Calls Row) (Unit {0})
  treat_events key [] = lift (ok tt)
  treat_events key (v ∷ vs) = do
    val_copy ← lift (without_price v)
    event ← lift (orm val_copy)
    modify (λ s. record s { objs = s.objs ++ (event ∷ []) })
    current_event ← lift (item "current_event" v)
    count_call key (if is_set (get_item "correction" v) then pos 1 else negsuc 0) current_event v
    treat_events key vs

  unfoldable pub treat_call : String → Dict Value → Treat (Calls Row) (Unit {0})
  treat_call ids raw =
      let val = empty_str_to_none raw in
      do
        call_id ← lift (item "call_id" val)
        memo ← read (λ s. find (call_id ∷ []) s.call_ids)
        found ← elim memo [
          | none ↦ new_call (call_id ∷ []) val
          | some m ↦ known_call (call_id ∷ []) m val
        ]
        modify (forget (call_id ∷ []) found.0)
        current_event ← lift (item "current_event" val)
        modify (λ s. record s {
          call_tracking_status = put (call_id ∷ []) current_event s.call_tracking_status;
        })
        treat_events (table_key found.0) found.1

abbrev pub begin_calls : {Row : Type 0} → List (Key × Memo) → Batch (Calls Row)
begin_calls call_ids = record {
  state = record { call_ids = call_ids; objs = []; analytics = []; call_tracking_status = [] };
  valid_entries = [];
  invalid_entries = [];
}

-- What one attempt of the second transaction is to write.
pub record CallWrites (Row : Type 0) : Type 0 where
  pub objs : List Row
  pub analytics : List (Key × Dict (Dict ℤ))

-- The fields of CallTrackingORM, with the column of its foreign key and the rows that refer to it.
abbrev pub call_tracking_fields : List String
call_tracking_fields =
    "call_id" ∷ "call_sid" ∷ "contact" ∷ "contact_id" ∷ "recipient" ∷ "sender" ∷ "date_started"
    ∷ "last_update" ∷ "expired_tracking_date" ∷ "call_current_status" ∷ "duration"
    ∷ "total_duration" ∷ "price" ∷ "price_unit" ∷ "events" ∷ []

-- What the handler leaves in Call_Ids, and what it returns. `filter field ids` awaits
-- `CallTrackingORM.filter(field__in=ids)`, outside of the try.
module _ {Row : Type 0} (orm : Dict Value → Result Row) where
  unfoldable pub treat_calls : List (Key × Memo) → List Entry → Batch (Calls Row)
  treat_calls call_ids entries = treat_all (treat_call orm) entries (begin_calls call_ids)

  -- `update` is the first transaction, which has something to do where the table has rows.
  unfoldable pub add_call_event :
      List (Key × Memo)
      → (String → List Key → Result (List Key))
      → (List (Key × Value) → Bool)
      → (CallWrites Row → ℕ → Attempt (Unit {0}))
      → List Entry
      → Result (List String)
  add_call_event call_ids filter update write entries =
      let b = treat_calls call_ids entries in
      on_ok (filter "sms_id" (keys_of b.state.call_tracking_status)) (λ rows.
        on_ok (update_calls b.state.call_tracking_status rows) (λ updated.
          let writes : CallWrites Row = record {
            objs = b.state.objs;
            analytics = b.state.analytics;
          } in
          let written =
            if update updated then has_returned (retry_logic 3 (write writes)).0 else false in
          ok (acknowledged written b.valid_entries b.invalid_entries)))
