-- ===== src/IntegrityCache.antt =====
-- IntegrityCache of app/utils/helper.py, over a dict. A value is a text.
mod Laws
mod Tests
use notifyr.Base.{
  String, Bool, true, false, Option, none, some, List, [], ◌∷◌, if◌then◌else◌, str_eq, Dict, lookup,
  insert, remove,
}

pub data CacheMode : Type 0 where
  presence_only by_value : CacheMode

abbrev pub same_text : Option String → Option String → Bool
same_text none none = true
same_text (some a) (some b) = str_eq a b
same_text _ _ = false

-- What `cache` compares and stores.
unfoldable pub stored_value : CacheMode → Option String → Option String
stored_value presence_only value = none
stored_value by_value value = value

-- What `cache` does, by what the dict has for the key.
abbrev pub cache_with :
    CacheMode
    → String
    → Option String
    → Option (Option String)
    → Dict (Option String)
    → Bool × Dict (Option String)
cache_with mode key stored none self = (false, insert key stored self)
cache_with presence_only key stored (some before) self = (true, self)
cache_with by_value key stored (some before) self =
    if same_text before stored then (true, self) else (false, insert key stored self)

-- `cache(key, value)`: whether it is a hit, and the cache.
unfoldable pub cache :
    CacheMode → String → Option String → Dict (Option String) → Bool × Dict (Option String)
cache mode key value self = cache_with mode key (stored_value mode value) (lookup key self) self

pub data CacheCall : Type 0 where
  cached : String → Option String → CacheCall
  cleared : CacheCall
  invalidated : String → CacheCall

-- `cache`, `clear` and `invalid`.
unfoldable pub cache_call : CacheMode → CacheCall → Dict (Option String) → Dict (Option String)
cache_call mode (cached key value) self = (cache mode key value self).1
cache_call mode cleared self = []
cache_call mode (invalidated key) self = remove key self

-- Calls in the order of the list, the last one first.
unfoldable pub cache_calls : CacheMode → List CacheCall → Dict (Option String)
cache_calls mode [] = []
cache_calls mode (c ∷ before) = cache_call mode c (cache_calls mode before)
