-- ===== src/Functions/Cache/Tests.antt =====
-- A rule that caches a text and reads it back.
use plaid.Base.Int.{as_i32, pos}
use plaid.Cache.InMemory.{put_cached, IsLruCache, new_in_memory_cache, capacity_of}
use plaid.Functions.Storage.{guest_string}
use plaid.Guest.{get_memory, write_or_code}
use plaid.Base.{ℕ, arith, eq_iff, ◌≡◌, refl, Option, none, some, [], ◌∷◌, String}
use plaid.Base.Dict.{HashMap, lookup}
use plaid.Message.{limited}
use plaid.Env.{Env}
use plaid.Storage.InMemory.{empty}
use plaid.Loader.Limits.{Amount}
use plaid.Samples.{encoding, cells, view, platform, env_of, last_put}
use plaid.Functions.Cache.{cache_insert, cache_get, respond}
use plaid.Functions.Cache.Laws.{cache_insert-get}

last_put-IsLruCache : IsLruCache last_put
last_put-IsLruCache = record { get_put = λ k v c. ground (arith, eq_iff k k) }

abbrev env : Env platform
env = env_of 0 empty (limited 0)

abbrev sizes : ℕ → Amount ℕ
sizes n = record { default = 4; log_type = ("log", n) ∷ []; module_overrides = [] }

-- The cache of a log type with a capacity of 0 panics.
no_capacity : new_in_memory_cache last_put (("rule", "log") ∷ []) (sizes 0) ≡ none
unfolding new_in_memory_cache capacity_of lookup
no_capacity = refl

-- An overwritten value is returned: here it is the text of two bytes.
overwritten :
    (cache_insert platform encoding
      (record env { cache = some (("rule", some ("key", "team")) ∷ []) })
      2
      3
      4
      5
      9
      5).0
    ≡ pos 2
unfolding cache_insert get_memory guest_string respond put_cached as_i32
overwritten = refl

abbrev inserted : Env platform
inserted = record env { cache = some (("rule", some ("key", "team")) ∷ ("other", none) ∷ []) }

cache_insert-get_example :
    (after : HashMap (Option (String × String))) × (inserted.cache ≡ some after)
    × (lookup "other" after ≡ some none)
    × ((cache_get platform encoding inserted 2 3 9 5).0
        ≡ (write_or_code cells view (encoding.as_bytes "team") 9 5).0)
unfolding lookup cache_insert get_memory guest_string respond put_cached
cache_insert-get_example =
    cache_insert-get last_put last_put-IsLruCache platform encoding env inserted view view
      (("rule", none) ∷ ("other", none) ∷ []) none 2 3 3 4 9 5 2 3 9 5 "key" "team" "other" refl
      refl refl refl refl refl refl refl refl refl
