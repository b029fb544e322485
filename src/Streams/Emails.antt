-- ===== src/Streams/Emails.antt =====
-- Add_Email_Event of app/callback/event_stream.py. TrackingEmailEventORM, what the table of emails
-- answers, and the attempts of the transaction are parameters. An email's id in the table is a UUID,
-- which is never a text of the stream, so neither branch of the loop over the table that looks one up
-- among those is ever taken.
use notifyr.Base.{
  ℕ, String, Bool, true, false, Option, none, some, List, [], ◌∷◌, ◌++◌, if◌then◌else◌, Dict,
  lookup_or,
}
use notifyr.Base.Int.{ℤ, pos, negsuc, ◌+ℤ◌}
use notifyr.Failure.{Result, ok, raise, attribute_error, ◌>>=◌ as on_ok}
use notifyr.Runner.{Attempt, Retried, result, retry_logic}
use notifyr.Streams.Batch.{
  Value, Entry, Key, find, put, at_key, Treat, empty_str_to_none, item, get_item, is_set, Batch,
  treat_all, acknowledged, keys_of, ◌>>=◌, ◌>>◌, lift, modify, read,
}

pub data EmailStatus : Type 0 where
  received sent delivered soft_bounce hard_bounce mailbox_full opened link_clicked : EmailStatus
  failed blocked complaint deferred delayed replied rejected : EmailStatus

-- The counters of one provider.
pub record EmailCounts : Type 0 where
  pub sent : ℤ
  pub received : ℤ
  pub delivered : ℤ
  pub complaint : ℤ
  pub failed : ℤ
  pub opened : ℤ
  pub bounced : ℤ
  pub replied : ℤ
  pub rejected : ℤ

abbrev pub no_emails : EmailCounts
no_emails = record {
  sent = pos 0;
  received = pos 0;
  delivered = pos 0;
  complaint = pos 0;
  failed = pos 0;
  opened = pos 0;
  bounced = pos 0;
  replied = pos 0;
  rejected = pos 0;
}

-- The row, and its `current_event`, which may be None.
pub record EmailEvent (Row : Type 0) : Type 0 where
  pub row : Row
  pub current_event : Option EmailStatus

pub record Emails (Row : Type 0) : Type 0 where
  pub objs : List (EmailEvent Row)
  pub analytics : List (Key × EmailCounts)
  pub contact_id_to_delete_from : List (Key × Bool)
  pub opens_per_email : List (Key × Bool)
  pub delivered_per_email : List (Key × Bool)
  pub replied_per_email : List (Key × Bool)
  pub email_status : List (Key × EmailStatus)

-- `flags.get(email_id, False)`
abbrev pub flag : Key → List (Key × Bool) → Bool
flag k flags = elim (find k flags) [ none ↦ false | some b ↦ b ]

abbrev pub counts_of : Key → List (Key × EmailCounts) → EmailCounts
counts_of k t = elim (find k t) [ none ↦ no_emails | some c ↦ c ]

-- The `match` on the event, for the counters; the flag says whether the email was delivered before.
unfoldable pub count_status : Bool → ℤ → EmailStatus → EmailCounts → EmailCounts
count_status before factor received c = record c { received = c.received +ℤ factor }
count_status before factor rejected c = record c { rejected = c.rejected +ℤ factor }
count_status before factor sent c = record c { sent = c.sent +ℤ factor }
count_status true factor delivered c = c
count_status false factor delivered c = record c { delivered = c.delivered +ℤ factor }
count_status before factor opened c = record c { opened = c.opened +ℤ factor }
count_status before factor link_clicked c = record c { opened = c.opened +ℤ factor }
count_status before factor soft_bounce c = record c { bounced = c.bounced +ℤ factor }
count_status before factor hard_bounce c = record c { bounced = c.bounced +ℤ factor }
count_status before factor mailbox_full c = record c { bounced = c.bounced +ℤ factor }
count_status before factor replied c = record c {
  replied = c.replied +ℤ factor;
  opened = c.opened +ℤ factor;
}
count_status before factor failed c = record c { failed = c.failed +ℤ factor }
count_status before factor complaint c = record c { complaint = c.complaint +ℤ factor }
count_status before factor blocked c = c
count_status before factor deferred c = c
count_status before factor delayed c = c

abbrev pub count_event : Bool → ℤ → Option EmailStatus → EmailCounts → EmailCounts
count_event before factor none c = c
count_event before factor (some status) c = count_status before factor status c

module _ {Row : Type 0} where
  -- The `match` on the event, for what is remembered of the email.
  unfoldable pub remember : Key → Option EmailStatus → Emails Row → Emails Row
  remember id (some delivered) s = record s {
    delivered_per_email = put id true s.delivered_per_email;
  }
  remember id (some opened) s = record s { opens_per_email = put id true s.opens_per_email }
  remember id (some link_clicked) s = record s { opens_per_email = put id true s.opens_per_email }
  remember id (some hard_bounce) s = record s {
    contact_id_to_delete_from = put id true s.contact_id_to_delete_from;
  }
  remember id (some replied) s = record s {
    replied_per_email = put id true s.replied_per_email;
    opens_per_email = put id true s.opens_per_email;
  }
  remember id _ s = s

  -- The counters of the provider are made, where it has none, and then changed.
  unfoldable pub count_email : Key → Key → ℤ → Option EmailStatus → Emails Row → Emails Row
  count_email id provider factor event s =
      let counts = counts_of provider s.analytics in
      let after = count_event (flag id s.delivered_per_email) factor event counts in
      remember id event (record s { analytics = put provider after s.analytics })

-- `event.current_event.value`
abbrev pub value_of : Option EmailStatus → Result EmailStatus
value_of none = raise attribute_error
value_of (some status) = ok status

module _ {Row : Type 0} where
  abbrev pub write_status : Key → EmailStatus → Emails Row → Emails Row
  write_status id status s = record s { email_status = put id status s.email_status }

  unfoldable pub set_status : Key → Option EmailStatus → Treat (Emails Row) (Unit {0})
  set_status id event = do
    was_opened ← read (λ s. flag id s.opens_per_email)
    first ← lift (if was_opened then ok opened else value_of event)
    modify (write_status id first)
    was_replied ← read (λ s. flag id s.replied_per_email)
    last ← lift (if was_replied then ok replied else value_of event)
    modify (write_status id last)

-- `val.get('esp_provider', 'Untracked Provider')`
abbrev pub provider_of : Dict Value → Value
provider_of val = lookup_or "esp_provider" val (some "Untracked Provider")

-- `-1 if val.get('correction', False) else 1`
abbrev pub factor_of : Dict Value → ℤ
factor_of val = if is_set (get_item "correction" val) then negsuc 0 else pos 1

abbrev pub no_events : {Row : Type 0} → Batch (Emails Row)
no_events = record {
  state = record {
    objs = [];
    analytics = [];
    contact_id_to_delete_from = [];
    opens_per_email = [];
    delivered_per_email = [];
    replied_per_email = [];
    email_status = [];
  };
  valid_entries = [];
  invalid_entries = [];
}

-- A row of the table of emails, with the text of its id.
pub record Tracked : Type 0 where
  pub email_id : Key
  pub email_current_status : EmailStatus

abbrev pub is_replied : EmailStatus → Bool
is_replied replied = true
is_replied _ = false

-- The loop over the rows of the table, which is not under `try`.
unfoldable pub update_tracked : List (Key × EmailStatus) → List Tracked → Result (List Tracked)
update_tracked statuses [] = ok []
update_tracked statuses (et ∷ ets) =
    on_ok
      (if is_replied et.email_current_status
        then ok et.email_current_status
        else at_key et.email_id statuses)
      (λ status.
        on_ok (update_tracked statuses ets)
          (λ rest. ok (record et { email_current_status = status } ∷ rest)))

-- What one attempt of the transaction is to write.
pub record EmailWrites (Row : Type 0) : Type 0 where
  pub analytics : List (Key × EmailCounts)
  pub email_tracker : List Tracked
  pub objs : List (EmailEvent Row)

abbrev pub has_returned : Retried (Unit {0}) → Bool
has_returned (result _) = true
has_returned _ = false

module _ {Row : Type 0} (orm : Dict Value → Result (EmailEvent Row)) where
  unfoldable pub treat_email : String → Dict Value → Treat (Emails Row) (Unit {0})
  treat_email ids raw =
      let val = empty_str_to_none raw in
      do
        email_id ← lift (item "email_id" val)
        event ← lift (orm val)
        modify (λ s. record s { objs = s.objs ++ (event ∷ []) })
        modify
            (count_email (email_id ∷ []) (provider_of val ∷ []) (factor_of val) event.current_event)
        set_status (email_id ∷ []) event.current_event

  unfoldable pub treat_emails : List Entry → Batch (Emails Row)
  treat_emails entries = treat_all treat_email entries no_events

  unfoldable pub add_email_event :
      (List Key → Result (List Tracked))
      → (EmailWrites Row → ℕ → Attempt (Unit {0}))
      → List Entry
      → Result (List String)
  add_email_event filter write entries =
      let b = treat_emails entries in
      on_ok (filter (keys_of b.state.email_status)) (λ email_tracker.
        on_ok (update_tracked b.state.email_status email_tracker) (λ updated.
          let writes : EmailWrites Row = record {
            analytics = b.state.analytics;
            email_tracker = updated;
            objs = b.state.objs;
          } in
          let ended = (retry_logic 4 (write writes)).0 in
          ok (acknowledged (has_returned ended) b.valid_entries b.invalid_entries)))
