-- ===== src/Streams/Messages.antt =====
-- Add_Twilio_Sms_Event of app/callback/event_stream.py. SMSEventORM, what the table of messages
-- answers, and the attempts of the transaction are parameters. As with the emails, no UUID of the table
-- is a text of the stream, so the prices are never looked up.
use notifyr.Base.{
  ℕ, String, Bool, false, ◌||◌, none, some, List, [], ◌∷◌, ◌++◌, if◌then◌else◌, str_eq, Dict,
  has_key, insert, remove,
}
use notifyr.Base.Int.{ℤ, pos}
use notifyr.Failure.{Result, ok, raise, key_error, type_error, ◌>>=◌ as on_ok}
use notifyr.Runner.{Attempt, retry_logic}
use notifyr.Streams.Batch.{
  Value, Entry, Key, find, put, at_key, keys_of, Treat, empty_str_to_none, item, add_id,
  acknowledged, ◌>>=◌, ◌>>◌, lift, modify, read,
}
use notifyr.Streams.Emails.{has_returned}

pub record Sms (Row : Type 0) : Type 0 where
  pub obs : List Row
  pub analytics : Dict (Dict ℤ)
  pub prices : List (Key × Dict Value)
  pub sms_tracking_status : List (Key × Value)
  pub valid_entries : List String
  pub invalid_entries : List String

abbrev pub no_counts : Dict ℤ
no_counts =
    ("received", pos 0)
    ∷ ("sent", pos 0)
    ∷ ("delivered", pos 0)
    ∷ ("failed", pos 0)
    ∷ ("bounce", pos 0)
    ∷ ("price", pos 0)
    ∷ ("rejected", pos 0)
    ∷ []

abbrev pub is_text : String → Value → Bool
is_text s none = false
is_text s (some t) = str_eq t s

-- The values of SMSStatusEnum that the `match` has a case for.
abbrev pub is_counted : Value → Bool
is_counted v =
    is_text "RECEIVED" v
    || is_text "REJECTED" v
    || is_text "SENT" v
    || is_text "FAILED" v
    || is_text "BOUNCE" v
    || is_text "DELIVERED" v

-- `del val_copy['correction']`, and the price and its unit.
unfoldable pub without_price : Dict Value → Result (Dict Value)
without_price val = on_ok (item "correction" val) (λ _. on_ok (item "price" val) (λ _.
    on_ok (item "price_unit" val)
      (λ _. ok (remove "price_unit" (remove "price" (remove "correction" val))))))

module _ {Row : Type 0} where
  -- `prices[sms_id][name] = v`
  abbrev pub set_price : Key → String → Value → Treat (Sms Row) (Unit {0})
  set_price id name v s = elim (find id s.prices) [
    | none ↦ (s, raise key_error)
    | some p ↦ (record s { prices = put id (insert name v p) s.prices }, ok tt)
  ]

  -- `analytics[val['direction']]['price'] += val['price']`, where the price is a text.
  unfoldable pub add_price : Value → Treat (Sms Row) (Unit {0})
  add_price none s = (s, raise key_error)
  add_price (some direction) s =
      (s, raise (if has_key direction s.analytics then type_error else key_error))

  unfoldable pub record_price : Key → Dict Value → Treat (Sms Row) (Unit {0})
  record_price id val = do
    price ← lift (item "price" val)
    elim price [
      | none ↦ lift (ok tt)
      | some p ↦ do
        set_price id "price" (some p)
        direction ← lift (item "direction" val)
        add_price direction
    ]
    price_unit ← lift (item "price_unit" val)
    elim price_unit [ none ↦ lift (ok tt) | some u ↦ set_price id "price_unit" (some u) ]

module _ {Row : Type 0} (orm : Dict Value → Result Row) where
  -- Each case of the `match` reads `val[analytics]`, and a dict is no key of a dict.
  unfoldable pub treat_sms : String → Dict Value → Treat (Sms Row) (Unit {0})
  treat_sms ids raw =
      let val = empty_str_to_none raw in
      do
        val_copy ← lift (without_price val)
        event ← lift (orm val_copy)
        modify (λ s. record s {
          obs = s.obs ++ (event ∷ []);
          valid_entries = add_id ids s.valid_entries;
        })
        current_event ← lift (item "current_event" val)
        lift (if is_counted current_event then raise type_error else ok tt)
        sms_id ← lift (item "sms_id" val)
        known ← read (λ s. find (sms_id ∷ []) s.prices)
        elim known [ none ↦ record_price (sms_id ∷ []) val | some _ ↦ lift (ok tt) ]
        modify (λ s. record s {
          sms_tracking_status = put (sms_id ∷ []) current_event s.sms_tracking_status;
        })

  -- The `except` clause.
  abbrev pub file_sms : String → Sms Row × Result (Unit {0}) → Sms Row
  file_sms ids (s, ok _) = s
  file_sms ids (s, raise _) = record s { invalid_entries = add_id ids s.invalid_entries }

  unfoldable pub treat_all_sms : List Entry → Sms Row → Sms Row
  treat_all_sms [] s = s
  treat_all_sms ((ids, val) ∷ entries) s =
      treat_all_sms entries (file_sms ids (treat_sms ids val s))

abbrev pub no_sms : {Row : Type 0} → Sms Row
no_sms = record {
  obs = [];
  analytics = ("I", no_counts) ∷ ("O", no_counts) ∷ [];
  prices = [];
  sms_tracking_status = [];
  valid_entries = [];
  invalid_entries = [];
}

-- The loop over the rows of the table, which is not under `try`: the new status of each.
unfoldable pub update_sms : List (Key × Value) → List Key → Result (List (Key × Value))
update_sms statuses [] = ok []
update_sms statuses (id ∷ rows) =
    on_ok (at_key id statuses)
      (λ status. on_ok (update_sms statuses rows) (λ rest. ok ((id, status) ∷ rest)))

-- What one attempt of the transaction is to write.
pub record SmsWrites (Row : Type 0) : Type 0 where
  pub sms_tracking : List (Key × Value)
  pub obs : List Row
  pub analytics : Dict (Dict ℤ)

module _ {Row : Type 0} (orm : Dict Value → Result Row) where
  unfoldable pub add_sms_event :
      (List Key → Result (List Key))
      → (SmsWrites Row → ℕ → Attempt (Unit {0}))
      → List Entry
      → Result (List String)
  add_sms_event filter write entries =
      let s = treat_all_sms orm entries no_sms in
      on_ok (filter (keys_of s.sms_tracking_status)) (λ rows.
        on_ok (update_sms s.sms_tracking_status rows) (λ updated.
          let writes : SmsWrites Row = record {
            sms_tracking = updated;
            obs = s.obs;
            analytics = s.analytics;
          } in
          let ended = (retry_logic 4 (write writes)).0 in
          ok (acknowledged (has_returned ended) s.valid_entries s.invalid_entries)))
