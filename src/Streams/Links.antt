-- ===== src/Streams/Links.antt =====
-- Add_Link_Event of app/callback/event_stream.py. What DeviceDetector finds for a user agent (with
-- its spaces stripped) and what LinkEventORM makes of a dict are parameters, and so are the outcomes of
-- the two transactions.
use notifyr.Base.{
  String, Bool, true, false, none, some, List, [], ◌∷◌, ◌++◌, if◌then◌else◌, str_eq, Dict,
}
use notifyr.Failure.{Result, ok, ◌>>=◌ as on_ok}
use notifyr.Streams.Batch.{
  Value, Entry, Key, Counts, Treat, empty_str_to_none, item, get_item, tally, Batch, treat_all,
  acknowledged, ◌>>=◌, ◌>>◌, lift, modify,
}

pub record Links (Row : Type 0) : Type 0 where
  pub event_count : Counts
  pub analytics : Counts
  pub objs : List Row

abbrev pub no_links : {Row : Type 0} → Batch (Links Row)
no_links = record {
  state = record { event_count = []; analytics = []; objs = [] };
  valid_entries = [];
  invalid_entries = [];
}

unfoldable pub known_device : String → String
known_device device_type = if str_eq device_type "" then "unknown" else device_type

-- What the database is told, in the order of the statements.
pub data LinkWrite (Row : Type 0) : Type 0 where
  bulk_create : List Row → LinkWrite Row
  bulk_upsert_links_vc : Counts → LinkWrite Row
  bulk_upsert_analytics : Counts → LinkWrite Row

unfoldable pub device_of : (String → Result String) → Value → Result String
device_of detect none = ok "unknown"
device_of detect (some user_agent) = on_ok (detect user_agent) (λ d. ok (known_device d))

unfoldable pub place_of : Value → String → Dict Value → Value → Result Key
place_of link_id device_type val none =
    ok (link_id ∷ some "N/A" ∷ some "N/A" ∷ some "N/A" ∷ some device_type ∷ [])
place_of link_id device_type val (some country) = on_ok (item "region" val) (λ region.
    on_ok (item "city" val)
      (λ city. ok (link_id ∷ some country ∷ region ∷ city ∷ some device_type ∷ [])))

module _ {Row : Type 0} (detect : String → Result String) (orm : Dict Value → Result Row) where
  unfoldable pub treat_link : String → Dict Value → Treat (Links Row) (Unit {0})
  treat_link ids raw =
      let val = empty_str_to_none raw in
      do
        link_id ← lift (item "link_id" val)
        modify (λ s. record s { event_count = tally (link_id ∷ []) s.event_count })
        device_type ← lift (device_of detect (get_item "user_agent" val))
        analytics_key ← lift (place_of link_id device_type val (get_item "country" val))
        modify (λ s. record s { analytics = tally analytics_key s.analytics })
        row ← lift (orm val)
        modify (λ s. record s { objs = s.objs ++ (row ∷ []) })

  unfoldable pub treat_links : List Entry → Batch (Links Row)
  treat_links entries = treat_all treat_link entries no_links

  -- The two transactions: what the database has been told and keeps, and what is returned. The second
  -- one is begun only where the first one has been committed.
  unfoldable pub add_link_event : Bool → Bool → List Entry → List (LinkWrite Row) × List String
  add_link_event first second entries =
      let b = treat_links entries in
      let kept = λ (written : Bool). acknowledged written b.valid_entries b.invalid_entries in
      let visits = bulk_create b.state.objs ∷ bulk_upsert_links_vc b.state.event_count ∷ [] in
      let all = visits ++ (bulk_upsert_analytics b.state.analytics ∷ []) in
      if first
      then (if second then (all, kept true) else (visits, kept false))
      else ([], kept false)
