-- ===== src/Pointer/Laws.antt =====
-- app/utils/helper.py, PointerIterator: what a pointer finds after it has written.
use notifyr.Base.{String, ◌≡◌, ◌≢◌, some, List, [], ◌∷◌}
use notifyr.Pointer.{dict, Entries, get_entry}

module _ {A : Type 0} where
  -- No dict stands under the key.
  abbrev pub IsNoDict : String → Entries A → Type 0
  IsNoDict k es = (inside : Entries A) → get_entry k es ≢ some (dict inside)

  -- The dict at which a path ends: it goes from dict to dict, and stays where there is no further one.
  pub data Reaches : List String → Entries A → Entries A → Type 0 where
    here : {es : Entries A} → Reaches [] es es
    below :
        {k : String} {ks : List String} {es inside target : Entries A}
        → get_entry k es ≡ some (dict inside)
        → Reaches ks inside target
        → Reaches (k ∷ ks) es target
    stops :
        {k : String} {ks : List String} {es : Entries A} → IsNoDict k es → Reaches (k ∷ ks) es es
