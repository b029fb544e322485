-- ===== src/Streams/Laws/Statuses.antt =====
-- Add_Email_Event of app/callback/event_stream.py: the status that it gives an email.
use notifyr.Base.{
  String, ◌≡◌, refl, ◌∙◌, ◌≢◌, Bool, true, false, ◌||◌, ◌&&◌, Option, none, some, List, [], ◌∷◌,
  ◌++◌, if◌then◌else◌, arith, Dict, any, not, is_empty, inl, inr, Option-cases,
}
use notifyr.Base.Int.{ℤ}
use notifyr.Failure.{Result, ok, raise, Result-cases}
use notifyr.Streams.Batch.{
  Value, Entry, Key, same_value, same_key, find, put, empty_str_to_none, item, Batch, treat_all,
  file_entry,
}
use notifyr.Streams.Emails.{
  EmailStatus, opened, replied, EmailEvent, Emails, flag, remember, count_email, set_status,
  is_replied, provider_of, factor_of, treat_email, no_events, treat_emails,
}
use notifyr.Streams.Laws.Batches.{same_key_iff, find-put}

module _ {Row : Type 0} where
  -- What is remembered of the replies, and that no status is touched, by the counters of an event.
  count_email-replied :
      (id k provider : Key) (factor : ℤ) (c : EmailStatus) (s : Emails Row)
      → let after = count_email id provider factor (some c) s in
        (flag k after.replied_per_email
          ≡ (if same_key id k && is_replied c then true else flag k s.replied_per_email))
        × (after.email_status ≡ s.email_status)
  unfolding count_email remember
  count_email-replied id k provider factor c s =
      (ground (arith, find-put id k true s.replied_per_email), ground arith)

  -- What `set_status` does for an event that has a status.
  set_status-find :
      (id k : Key) (c : EmailStatus) (s : Emails Row)
      → let (after, r) = set_status id (some c) s in
        (r ≡ ok tt)
        × (find k after.email_status ≡ (
            if same_key id k
            then some (if flag id s.replied_per_email then replied else c)
            else find k s.email_status))
        × (after.replied_per_email ≡ s.replied_per_email)
  unfolding set_status
  set_status-find id k c s =
      let last : EmailStatus = if flag id s.replied_per_email then replied else c in
      let first : EmailStatus = if flag id s.opens_per_email then opened else c in
      ground (
        arith,
        find-put id k first s.email_status,
        find-put id k last (put id first s.email_status),
      )

-- The status of an entry's event, if the entry is about the email `e` and a row can be made of it.
abbrev pub event_of :
    {Row : Type 0}
    → (Dict Value → Result (EmailEvent Row))
    → Value
    → Dict Value
    → Option EmailStatus
event_of orm e raw =
    let val = empty_str_to_none raw in
    elim (item "email_id" val) [
      | raise _ ↦ none
      | ok id ↦ elim (orm val) [
        | raise _ ↦ none
        | ok event ↦ if same_value id e then event.current_event else none
      ]
    ]

abbrev pub events_of :
    {Row : Type 0} → (Dict Value → Result (EmailEvent Row)) → Value → List Entry → List EmailStatus
events_of orm e [] = []
events_of orm e ((_, raw) ∷ entries) =
    let rest = events_of orm e entries in
    elim (event_of orm e raw) [ none ↦ rest | some c ↦ c ∷ rest ]

abbrev last_status : EmailStatus → List EmailStatus → EmailStatus
last_status c [] = c
last_status c (d ∷ ds) = last_status d ds

abbrev event_list : Option EmailStatus → List EmailStatus
event_list none = []
event_list (some c) = c ∷ []

-- REPLIED stays, and else the last event counts.
abbrev pub final_status : List EmailStatus → Option EmailStatus
final_status [] = none
final_status (c ∷ cs) = some (if any is_replied (c ∷ cs) then replied else last_status c cs)

-- The same, from a state in which the email has been replied to or not.
abbrev resume : Bool → Option EmailStatus → List EmailStatus → Option EmailStatus
resume was st [] = st
resume was st (c ∷ cs) =
    let now = was || is_replied c in resume now (some (if now then replied else c)) cs

resume-final :
    (was : Bool) (st : EmailStatus) (cs : List EmailStatus)
    → resume was (some st) cs
      ≡ some
          (if any is_replied cs || (was && not (is_empty cs)) then replied else last_status st cs)
resume-final was st [] = ground arith
resume-final was st (c ∷ []) = ground arith
resume-final was st (c ∷ d ∷ cs) =
    let now = was || is_replied c in
    ground (arith, resume-final now (if now then replied else c) (d ∷ cs))

module _ {Row : Type 0} (orm : Dict Value → Result (EmailEvent Row))
    -- Each row that is made has a status.
    (has_status : (val : Dict Value) (event : EmailEvent Row)
      → orm val ≡ ok event
      → event.current_event ≢ none) where
  abbrev IsStatusStep : Value → Dict Value → Emails Row → Emails Row → Type 0
  IsStatusStep e raw s after =
      (flag (e ∷ []) after.replied_per_email
        ≡ (flag (e ∷ []) s.replied_per_email || any is_replied (event_list (event_of orm e raw))))
      × (find (e ∷ []) after.email_status
          ≡ resume (flag (e ∷ []) s.replied_per_email) (find (e ∷ []) s.email_status)
              (event_list (event_of orm e raw)))

  treat_email-IsStatusStep :
      (e : Value) (ids : String) (raw : Dict Value) (s : Emails Row)
      → IsStatusStep e raw s (treat_email orm ids raw s).0
  unfolding treat_email
  treat_email-IsStatusStep e ids raw s =
      let val = empty_str_to_none raw in
      elim (Result-cases (item "email_id" val)) [
        | inr (_, h) ↦ ground (arith, h)
        | inl (id, h) ↦ elim (Result-cases (orm val)) [
          | inr (_, ho) ↦ ground (arith, h, ho)
          | inl (event, ho) ↦ elim (Option-cases event.current_event) [
            | inl missing ↦ absurd (has_status val event ho missing)
            | inr (c, hc) ↦
                let k : Key = id ∷ [] in
                let provider : Key = provider_of val ∷ [] in
                let s1 : Emails Row = record s { objs = s.objs ++ (event ∷ []) } in
                let s2 = count_email k provider (factor_of val) (some c) s1 in
                ground (
                  arith,
                  h,
                  ho,
                  hc,
                  count_email-replied k k provider (factor_of val) c s1,
                  count_email-replied k (e ∷ []) provider (factor_of val) c s1,
                  set_status-find k (e ∷ []) c s2,
                  same_key_iff k (e ∷ []),
                )
          ]
        ]
      ]

  loop-status :
      (e : Value) (es : List Entry) (b : Batch (Emails Row))
      → find (e ∷ []) (treat_all (treat_email orm) es b).state.email_status
        ≡ resume
            (flag (e ∷ []) b.state.replied_per_email)
            (find (e ∷ []) b.state.email_status)
            (events_of orm e es)
  unfolding treat_all
  loop-status e [] b = refl
  loop-status e ((ids, raw) ∷ es) b =
      let r = treat_email orm ids raw b.state in
      let now = treat_email-IsStatusStep e ids raw b.state in
      let later = loop-status e es (file_entry ids r b.valid_entries b.invalid_entries) in
      elim (Option-cases (event_of orm e raw)) [
        | inl h ↦ ground (arith, now, later, h)
        | inr (c, h) ↦ ground (arith, now, later, h)
      ]

  -- Where each row has a status, Add_Email_Event gives an email REPLIED if one of its events is a
  -- reply, and else the status of its last event; without an event it gives it none.
  pub treat_emails-final_status :
      (e : Value) (es : List Entry)
      → find (e ∷ []) (treat_emails orm es).state.email_status ≡ final_status (events_of orm e es)
  unfolding treat_emails
  treat_emails-final_status e es = loop-status e es no_events ∙ resume_all (events_of orm e es)
    where
      resume_all : (cs : List EmailStatus) → resume false none cs ≡ final_status cs
      resume_all [] = refl
      resume_all (c ∷ cs) =
          ground (arith, resume-final (is_replied c) (if is_replied c then replied else c) cs)
