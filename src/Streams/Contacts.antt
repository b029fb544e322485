-- ===== src/Streams/Contacts.antt =====
-- Add_Contact_Subs_Event and Add_Contact_Creation_Event of app/callback/event_stream.py. Whether the
-- upsert of the analytics returns is a parameter.
use notifyr.Base.{String, Bool, none, some, List, [], ◌∷◌, Dict}
use notifyr.Base.Int.{ℤ}
use notifyr.Failure.{Result, ok, raise, key_error, type_error, ◌>>=◌ as on_ok}
use notifyr.Streams.Batch.{
  Value, Entry, Key, Counts, find, tally, Treat, empty_str_to_none, item, get_item, Batch,
  treat_all, acknowledged, ◌>>=◌, lift, modify, read,
}

-- The place of an event; without a country it is N/A.
unfoldable pub area_of : Value → Dict Value → Result Key
area_of none val = ok (some "N/A" ∷ some "N/A" ∷ some "N/A" ∷ [])
area_of (some country) val =
    on_ok (item "state" val)
      (λ state. on_ok (item "region" val) (λ region. ok (some country ∷ state ∷ region ∷ [])))

-- The counters of subscriptions by place.
abbrev pub Subs : Type 0
Subs = List (Key × Dict ℤ)

-- `analytics[key]['sub'] = 0` finds no `analytics[key]`, and a dict takes no `+=`.
unfoldable pub treat_sub : String → Dict Value → Treat Subs (Unit {0})
treat_sub ids raw =
    let val = empty_str_to_none raw in
    do
      key ← lift (area_of (get_item "country" val) val)
      known ← read (λ s. find key s)
      lift (elim known [ none ↦ raise key_error | some _ ↦ raise type_error ])

unfoldable pub treat_subs : List Entry → Batch Subs
treat_subs entries =
    treat_all treat_sub entries record { state = []; valid_entries = []; invalid_entries = [] }

unfoldable pub add_contact_subs_event : (Subs → Bool) → List Entry → List String
add_contact_subs_event upsert entries =
    let b = treat_subs entries in acknowledged (upsert b.state) b.valid_entries b.invalid_entries

unfoldable pub treat_creation : String → Dict Value → Treat Counts (Unit {0})
treat_creation ids raw =
    let val = empty_str_to_none raw in
    do country ← lift (item "country" val); key ← lift (area_of country val); modify (tally key)

unfoldable pub treat_creations : List Entry → Batch Counts
treat_creations entries =
    treat_all treat_creation entries record { state = []; valid_entries = []; invalid_entries = [] }

unfoldable pub add_contact_creation_event : (Counts → Bool) → List Entry → List String
add_contact_creation_event upsert entries =
    let b = treat_creations entries in
    acknowledged (upsert b.state) b.valid_entries b.invalid_entries
