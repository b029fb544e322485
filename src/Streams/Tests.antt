-- ===== src/Streams/Tests.antt =====
-- Concrete entries of the streams.
use notifyr.Base.{
  ℕ, String, ◌≡◌, refl, ◌≢◌, Bool, true, false, none, some, List, [], ◌∷◌, arith, contains,
  if◌then◌else◌, Dict, length,
}
use notifyr.Failure.{Result, ok, raise, error}
use notifyr.Runner.{Attempt, integrity_error}
use notifyr.Service.{available}
use notifyr.Streams.Batch.{
  Value, Entry, Key, find, count_of, empty_str_to_none, treat_all as all_entries,
}
use notifyr.Streams.Links.{
  add_link_event, treat_link, treat_links, place_of, device_of, known_device,
}
use notifyr.Streams.Emails.{
  EmailStatus, delivered, opened, EmailEvent, treat_emails, treat_email, count_email, count_status,
  remember, set_status,
}
use notifyr.Streams.Calls.{
  call_tracking_fields, CallWrites, treat_calls, begin_calls, add_call_event,
}
use notifyr.Streams.Consumer.{Command, lock_logic, consume_round, is_valid_state}
use notifyr.Streams.Laws.Visits.{names_link, number_of, IsCounted, treat_links-IsCounted}
use notifyr.Streams.Laws.Statuses.{events_of, final_status, treat_emails-final_status}
use notifyr.Streams.Laws.Losses.{KnowsFields, call_events-lost}

-- Two visits of one link, from a known place and from an unknown one, and an entry without a link.
abbrev visits : List Entry
visits =
    ("1-0", ("link_id", some "a") ∷ ("country", some "") ∷ [])
    ∷ (
      "2-0",
      ("link_id", some "a")
          ∷ ("country", some "CA")
          ∷ ("region", some "QC")
          ∷ ("city", some "Laval")
          ∷ [],
    )
    ∷ ("3-0", ("country", some "CA") ∷ [])
    ∷ []

abbrev phone : String → Result String
phone user_agent = ok "smartphone"

abbrev whole_row : Dict Value → Result (Dict Value)
whole_row val = ok val

-- The second transaction fails: the visits are kept, and only the entry without a link is done with.
add_link_event_second_fails : (add_link_event phone whole_row true false visits).1 ≡ "3-0" ∷ []
unfolding add_link_event treat_links treat_link all_entries empty_str_to_none place_of device_of
    known_device
add_link_event_second_fails = refl

treat_links-IsCounted_example :
    (count_of (some "a" ∷ []) (treat_links phone whole_row visits).state.event_count
      ≡ number_of (names_link (some "a")) visits)
    × IsCounted (length visits) (treat_links phone whole_row visits)
treat_links-IsCounted_example = treat_links-IsCounted phone whole_row visits (some "a")

-- An email is delivered, opened, and then reported as delivered once more.
abbrev mails : List Entry
mails =
    ("1-0", ("email_id", some "m") ∷ ("event", some "opened") ∷ [])
    ∷ ("2-0", ("email_id", some "m") ∷ ("event", some "") ∷ [])
    ∷ []

abbrev status_of : Dict Value → EmailStatus
status_of [] = delivered
status_of ((_, some _) ∷ (_, some _) ∷ _) = opened
status_of (_ ∷ _) = delivered

abbrev mail_row : Dict Value → Result (EmailEvent (Dict Value))
mail_row val = ok record { row = val; current_event = some (status_of val) }

mail_row-has_status :
    (val : Dict Value) (event : EmailEvent (Dict Value))
    → mail_row val ≡ ok event
    → event.current_event ≢ none
mail_row-has_status val event h missing = ground arith

opened_then_delivered :
    find (some "m" ∷ []) (treat_emails mail_row mails).state.email_status ≡ some delivered
unfolding treat_emails treat_email all_entries empty_str_to_none count_email count_status remember
    set_status
opened_then_delivered = refl

treat_emails-final_status_example :
    find (some "m" ∷ []) (treat_emails mail_row mails).state.email_status
    ≡ final_status (events_of mail_row (some "m") mails)
treat_emails-final_status_example =
    treat_emails-final_status mail_row mail_row-has_status (some "m") mails

abbrev calls : List Entry
calls =
    (
      "1-0",
      ("call_id", some "c")
          ∷ ("city", some "Laval")
          ∷ ("country", some "CA")
          ∷ ("state", some "QC")
          ∷ [],
    )
    ∷ ("2-0", ("call_id", some "d") ∷ ("city", some "") ∷ [])
    ∷ []

abbrev rows_of : String → List Key → Result (List Key)
rows_of field ids =
    if contains field call_tracking_fields then ok [] else raise (error "FieldError")

rows_of-KnowsFields : KnowsFields rows_of
rows_of-KnowsFields field ids h = rw h refl

abbrev never : CallWrites (Dict Value) → ℕ → Attempt (Unit {0})
never writes n = integrity_error

abbrev answers : Command → Bool
answers c = true

available-is_valid : is_valid_state available ≡ true
unfolding is_valid_state
available-is_valid = refl

call_events-lost_example :
    let handler = lock_logic available (add_call_event whole_row [] rows_of (λ _. false) never) in
    ((treat_calls whole_row [] calls).state ≡ (begin_calls []).state)
    × (handler calls ≡ raise (error "FieldError"))
    × (consume_round handler answers (ok (("twilio-event-call", calls) ∷ ("links", visits) ∷ []))
        ≡ [])
call_events-lost_example =
    call_events-lost whole_row available rows_of (λ _. false) never answers available-is_valid
      rows_of-KnowsFields [] calls "twilio-event-call" (("links", visits) ∷ [])
