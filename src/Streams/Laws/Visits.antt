-- ===== src/Streams/Laws/Visits.antt =====
-- Add_Link_Event of app/callback/event_stream.py: what it counts and what it stores.
use notifyr.Base.{
  ℕ, suc, ◌+◌, ◌≤◌, String, ◌≡◌, refl, ◌⊎◌, inl, inr, ◌≢◌, Bool, false, List, [], ◌∷◌,
  if◌then◌else◌, arith, Dict, length, length-append, is_empty,
}
use notifyr.Failure.{Result, ok, raise, Result-cases}
use notifyr.Streams.Batch.{
  Value, Entry, same_value, empty_str_to_none, item, get_item, count_of, total, Batch, file_entry,
  add_id, treat_all,
}
use notifyr.Streams.Links.{Links, device_of, place_of, treat_link, no_links, treat_links}
use notifyr.Streams.Laws.Batches.{count_of-tally, total-tally}

-- The entry is about the link `l`.
abbrev pub names_link : Value → Dict Value → Bool
names_link l val = elim (item "link_id" (empty_str_to_none val)) [
  | ok link_id ↦ same_value link_id l
  | raise _ ↦ false
]

abbrev pub number_of : (Dict Value → Bool) → List Entry → ℕ
number_of p [] = 0
number_of p ((_, val) ∷ entries) =
    let rest = number_of p entries in if p val then suc rest else rest

module _ {Row : Type 0} (detect : String → Result String) (orm : Dict Value → Result Row) where
  treat_link-visits :
      (l : Value) (ids : String) (raw : Dict Value) (s : Links Row)
      → count_of (l ∷ []) (treat_link detect orm ids raw s).0.event_count ≡ (
          if names_link l raw
          then suc (count_of (l ∷ []) s.event_count)
          else count_of (l ∷ []) s.event_count)
  unfolding treat_link
  treat_link-visits l ids raw s =
      let val = empty_str_to_none raw in
      elim (Result-cases (item "link_id" val)) [
        | inr (e, h) ↦ ground (arith, h)
        | inl (link_id, h) ↦
            let device = device_of detect (get_item "user_agent" val) in
            let counted = count_of-tally (link_id ∷ []) (l ∷ []) s.event_count in
            elim (Result-cases device) [
              | inr (e, hd) ↦ ground (arith, h, hd, counted)
              | inl (d, hd) ↦
                  elim (Result-cases (place_of link_id d val (get_item "country" val))) [
                    | inr (e, hp) ↦ ground (arith, h, hd, hp, counted)
                    | inl (k, hp) ↦ ground (arith, h, hd, hp, counted)
                  ]
            ]
      ]

  -- How far one entry takes the counts: each row has its count in `analytics`, and each of those in
  -- `event_count`; a row is missing only where the entry is invalid.
  abbrev IsStep : Links Row → Links Row × Result (Unit {0}) → Type 0
  IsStep s (after, r) =
      (length after.objs + total s.analytics ≤ total after.analytics + length s.objs)
      × (total after.analytics + total s.event_count ≤ total after.event_count + total s.analytics)
      × (total after.event_count ≤ suc (total s.event_count))
      × ((length after.objs ≡ suc (length s.objs)) ⊎ (r ≢ ok tt))

  treat_link-IsStep :
      (ids : String) (raw : Dict Value) (s : Links Row) → IsStep s (treat_link detect orm ids raw s)
  unfolding treat_link
  treat_link-IsStep ids raw s =
      let val = empty_str_to_none raw in
      elim (Result-cases (item "link_id" val)) [
        | inr (e, h) ↦ ground (arith, h)
        | inl (link_id, h) ↦
            let device = device_of detect (get_item "user_agent" val) in
            let visit = total-tally (link_id ∷ []) s.event_count in
            elim (Result-cases device) [
              | inr (e, hd) ↦ ground (arith, h, hd, visit)
              | inl (d, hd) ↦
                  elim (Result-cases (place_of link_id d val (get_item "country" val))) [
                    | inr (e, hp) ↦ ground (arith, h, hd, hp, visit)
                    | inl (k, hp) ↦
                        let place = total-tally k s.analytics in
                        elim (Result-cases (orm val)) [
                          | inr (e, ho) ↦ ground (arith, h, hd, hp, ho, visit, place)
                          | inl (row, ho) ↦
                              ground (
                                arith,
                                h,
                                hd,
                                hp,
                                ho,
                                visit,
                                place,
                                length-append s.objs (row ∷ []),
                              )
                        ]
                  ]
            ]
      ]

  loop-visits :
      (l : Value) (es : List Entry) (b : Batch (Links Row))
      → count_of (l ∷ []) (treat_all (treat_link detect orm) es b).state.event_count
        ≡ count_of (l ∷ []) b.state.event_count + number_of (names_link l) es
  unfolding treat_all
  loop-visits l [] b = ground arith
  loop-visits l ((ids, raw) ∷ es) b =
      let r = treat_link detect orm ids raw b.state in
      let next = file_entry ids r b.valid_entries b.invalid_entries in
      let now = treat_link-visits l ids raw b.state in
      let later = loop-visits l es next in ground (arith, now, later)

-- The rows have their counts, the counts their visits, the visits their entries; and rows are missing
-- only where ids are invalid.
abbrev pub IsCounted : {Row : Type 0} → ℕ → Batch (Links Row) → Type 0
IsCounted n b =
    (length b.state.objs ≤ total b.state.analytics)
    × (total b.state.analytics ≤ total b.state.event_count)
    × (total b.state.event_count ≤ n)
    × ((length b.state.objs ≡ n) ⊎ (is_empty b.invalid_entries ≡ false))

is_empty-add_id : (i : String) (ids : List String) → is_empty (add_id i ids) ≡ false
is_empty-add_id i [] = refl
is_empty-add_id i (x ∷ xs) = ground arith

module _ {Row : Type 0} (detect : String → Result String) (orm : Dict Value → Result Row) where
  file_entry-IsCounted :
      (n : ℕ) (ids : String) (r : Links Row × Result (Unit {0})) (b : Batch (Links Row))
      → IsStep detect orm b.state r
      → IsCounted n b
      → IsCounted (suc n) (file_entry ids r b.valid_entries b.invalid_entries)
  file_entry-IsCounted n ids (s, ok tt) b h c = ground (arith, h, c)
  file_entry-IsCounted n ids (s, raise e) b h c =
      ground (arith, h, c, is_empty-add_id ids b.invalid_entries)

  loop-IsCounted :
      (es : List Entry) (n : ℕ) (b : Batch (Links Row))
      → IsCounted n b
      → IsCounted (n + length es) (treat_all (treat_link detect orm) es b)
  unfolding treat_all
  loop-IsCounted [] n b c = let e : n + 0 ≡ n = omega arith in rw e c
  loop-IsCounted ((ids, raw) ∷ es) n b c =
      let r = treat_link detect orm ids raw b.state in
      let now = file_entry-IsCounted n ids r b (treat_link-IsStep detect orm ids raw b.state) c in
      let e : n + suc (length es) ≡ suc n + length es = omega arith in
      rw e (loop-IsCounted es (suc n) (file_entry ids r b.valid_entries b.invalid_entries) now)

  -- After the entries of a batch, Add_Link_Event has counted for each link the entries that name it,
  -- invalid ones among them. It stores no more rows than it has counts by place, and has no more of
  -- these than visits; a row for each entry is there unless an id is invalid.
  pub treat_links-IsCounted :
      (es : List Entry) (l : Value)
      → (count_of (l ∷ []) (treat_links detect orm es).state.event_count
          ≡ number_of (names_link l) es)
        × IsCounted (length es) (treat_links detect orm es)
  unfolding treat_links
  treat_links-IsCounted es l = (
    ground (arith, loop-visits detect orm l es no_links),
    rw from_zero at (loop-IsCounted es 0 no_links (ground arith)),
  )
    where
      from_zero : 0 + length es ≡ length es
      from_zero = omega arith
