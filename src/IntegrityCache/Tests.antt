-- ===== src/IntegrityCache/Tests.antt =====
-- Concrete calls of a cache.
use notifyr.Base.{◌≡◌, some, List, [], ◌∷◌}
use notifyr.IntegrityCache.{by_value, cache, CacheCall, cached, invalidated, cache_calls}
use notifyr.IntegrityCache.Laws.{is_hit, last_value, cache-is_hit}

abbrev calls : List CacheCall
calls = invalidated "b" ∷ cached "a" (some "2") ∷ cached "b" (some "1") ∷ cached "a" (some "1") ∷ []

cache-is_hit_example :
    (cache by_value "a" (some "2") (cache_calls by_value calls)).0
    ≡ is_hit by_value (some "2") (last_value "a" calls)
cache-is_hit_example = cache-is_hit by_value calls "a" (some "2")
