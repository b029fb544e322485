-- ===== src/Streams/Laws/Losses.antt =====
-- Add_Twilio_Call_Event, Add_Twilio_Sms_Event and Add_Contact_Subs_Event of
-- app/callback/event_stream.py: what is not kept.
use notifyr.Base.{
  ℕ, String, ◌≡◌, refl, ◌∙◌, Bool, true, false, ◌||◌, List, [], ◌∷◌, arith, contains, Dict,
}
use notifyr.Failure.{Result, ok, raise, error}
use notifyr.Runner.{Attempt}
use notifyr.Service.{ServiceStatus}
use notifyr.Streams.Batch.{
  Value, Entry, Key, keys_of, Treat, Batch, file_entry, treat_all, acknowledged, add_id,
}
use notifyr.Streams.Calls.{
  Calls, Memo, call_tracking_fields, new_call, treat_call, begin_calls, CallWrites, treat_calls,
  add_call_event,
}
use notifyr.Streams.Contacts.{Subs, treat_sub, treat_subs, add_contact_subs_event}
use notifyr.Streams.Consumer.{Command, is_valid_state, lock_logic, consume_response, consume_round}
use notifyr.Streams.Laws.Batches.{contains-union, ids_of, treat_all-union}

abbrev has_raised : Result (Unit {0}) → Bool
has_raised (ok _) = false
has_raised (raise _) = true

module _ {S : Type 0} where
  abbrev batch : S → List String → List String → Batch S
  batch s valid invalid = record { state = s; valid_entries = valid; invalid_entries = invalid }

  file_entry-raised :
      (ids : String) (r : S × Result (Unit {0})) (valid invalid : List String)
      → has_raised r.1 ≡ true
      → file_entry ids r valid invalid ≡ batch r.0 valid (add_id ids invalid)
  file_entry-raised ids (s, ok _) valid invalid h = cc
  file_entry-raised ids (s, raise _) valid invalid h = refl

-- Where the body raises in a state and leaves it alone, it does so for every entry: no id is valid.
module _ {S : Type 0} (treat : String → Dict Value → Treat S (Unit {0})) (s : S)
    (raises : (ids : String) (val : Dict Value)
      → ((treat ids val s).0 ≡ s) × (has_raised (treat ids val s).1 ≡ true)) where
  treat_all-raises :
      (es : List Entry) (valid invalid : List String)
      → let after = treat_all treat es (batch s valid invalid) in
        (after.state ≡ s) × (after.valid_entries ≡ valid)
  unfolding treat_all
  treat_all-raises [] valid invalid = (refl, refl)
  treat_all-raises ((ids, val) ∷ es) valid invalid =
      let filed = file_entry-raised ids (treat ids val s) valid invalid (raises ids val).1 in
      let kept = (raises ids val).0 in
      let later = treat_all-raises es valid (add_id ids invalid) in
      ground (arith, filed, kept, later)

module _ {Row : Type 0} (orm : Dict Value → Result Row) where
  treat_call-raises :
      (ids : String) (raw : Dict Value)
      → let s : Calls Row = (begin_calls []).state in
        let after = treat_call orm ids raw s in (after.0 ≡ s) × (has_raised after.1 ≡ true)
  unfolding treat_call new_call
  treat_call-raises ids raw = ground arith

treat_sub-raises :
    (ids : String) (raw : Dict Value)
    → ((treat_sub ids raw []).0 ≡ []) × (has_raised (treat_sub ids raw []).1 ≡ true)
unfolding treat_sub
treat_sub-raises ids raw = ground arith

all_invalid :
    (i : String) (valid invalid ids : List String) (written : Bool)
    → valid ≡ []
    → (contains i valid || contains i invalid) ≡ contains i ids
    → contains i (acknowledged written valid invalid) ≡ contains i ids
all_invalid i valid invalid ids true e h = contains-union i valid invalid ∙ h
all_invalid i valid invalid ids false e h = cc

module _ {S : Type 0} (treat : String → Dict Value → Treat S (Unit {0})) (s : S)
    (raises : (ids : String) (val : Dict Value)
      → ((treat ids val s).0 ≡ s) × (has_raised (treat ids val s).1 ≡ true)) where
  all_acknowledged :
      (es : List Entry) (written : Bool) (i : String)
      → let b = treat_all treat es (batch s [] []) in
        contains i (acknowledged written b.valid_entries b.invalid_entries) ≡ contains i (ids_of es)
  all_acknowledged es written i =
      let b = treat_all treat es (batch s [] []) in
      all_invalid i b.valid_entries b.invalid_entries (ids_of es) written
        (treat_all-raises treat s raises es [] []).1
        (ground (arith, treat_all-union treat i es (batch s [] [])))

-- Whatever the upsert does, each subscription that comes in is acknowledged and none is counted.
pub sub_events-lost :
    (es : List Entry) (upsert : Subs → Bool) (i : String)
    → ((treat_subs es).state ≡ [])
      × (contains i (add_contact_subs_event upsert es) ≡ contains i (ids_of es))
unfolding treat_subs add_contact_subs_event
sub_events-lost es upsert i = (
  (treat_all-raises treat_sub [] treat_sub-raises es [] []).0,
  all_acknowledged treat_sub [] treat_sub-raises es (upsert (treat_subs es).state) i,
)

-- tortoise raises a FieldError for a filter on a field that the model does not have.
abbrev pub KnowsFields : (String → List Key → Result (List Key)) → Type 0
KnowsFields filter =
    (field : String) (ids : List Key)
    → contains field call_tracking_fields ≡ false
    → filter field ids ≡ raise (error "FieldError")

module _ {Row : Type 0} (orm : Dict Value → Result Row) (status : ServiceStatus)
    (filter : String → List Key → Result (List Key)) (update : List (Key × Value) → Bool)
    (write : CallWrites Row → ℕ → Attempt (Unit {0})) (answers : Command → Bool)
    (reached : is_valid_state status ≡ true) (knows_fields : KnowsFields filter) where
  nothing_treated : (es : List Entry) → (treat_calls orm [] es).state ≡ (begin_calls []).state
  unfolding treat_calls
  nothing_treated es =
      (treat_all-raises (treat_call orm) (begin_calls []).state (treat_call-raises orm) es [] []).0

  add_call_event-raises :
      (call_ids : List (Key × Memo)) (es : List Entry)
      → add_call_event orm call_ids filter update write es ≡ raise (error "FieldError")
  unfolding add_call_event
  add_call_event-raises call_ids es =
      rw
        (knows_fields "sms_id" (keys_of (treat_calls orm call_ids es).state.call_tracking_status)
          refl)
        refl

  -- If the database is reached, and a filter on a field that CallTrackingORM does not have raises a
  -- FieldError, then the handler of call events ends in that error for every batch and whatever
  -- Call_Ids holds, so that the round of the consumer has redis acknowledge and delete nothing of the
  -- batch or of the streams behind it in the response. While Call_Ids is empty, as it is at first, the
  -- batch has made no row, no count, and no item of Call_Ids before.
  pub call_events-lost :
      (call_ids : List (Key × Memo)) (es : List Entry) (stream : String)
      (behind : List (String × List Entry))
      → let handler = lock_logic status (add_call_event orm call_ids filter update write) in
        ((treat_calls orm [] es).state ≡ (begin_calls []).state)
        × (handler es ≡ raise (error "FieldError"))
        × (consume_round handler answers (ok ((stream, es) ∷ behind)) ≡ [])
  unfolding lock_logic consume_round consume_response
  call_events-lost call_ids es stream behind =
      let raises = add_call_event-raises call_ids es in
      (nothing_treated es, ground (arith, reached, raises), ground (arith, reached, raises))
