-- ===== src/Cache/InMemory.antt =====
-- runtime/plaid/src/cache/in_memory/mod.rs: one cache for each module. The caches themselves are the
-- lru crate's, a parameter; waiting for their locks is left out.
use plaid.Base.{ℕ, String, Option, none, some, [], ◌∷◌, ◌≡◌, ◌==◌, if◌then◌else◌}
use plaid.Base.Result.{Result, ok, err}
use plaid.Base.Dict.{HashMap, lookup, insert}
use plaid.Cache.{CacheError, CacheProvider, cache_access_error}
use plaid.Loader.Limits.{Amount}

-- `LruCache<String, String>`; `new_cache` is asked for a capacity that is not 0 only.
pub record LruCache : Type 1 where
  pub State : Type 0
  pub new_cache : ℕ → State
  pub put : String → String → State → Option String × State
  pub get : String → State → Option String × State

-- What the documentation says of a key that was put last.
pub record IsLruCache (l : LruCache) : Type 0 where
  pub get_put : (k v : String) (c : l.State) → (l.get k (l.put k v c).1).0 ≡ some v

-- `config.cache_entries`, with the entries of the type and of the module over the default
unfoldable pub capacity_of : Amount ℕ → String → String → ℕ
unfolding lookup
capacity_of entries module_ logtype = elim (lookup module_ entries.module_overrides) [
  | some n ↦ n
  | none ↦ elim (lookup logtype entries.log_type) [ some n ↦ n | none ↦ entries.default ]
]

module _ (l : LruCache) where
  -- `InMemoryCache::new`; a capacity of 0 panics.
  unfoldable pub new_in_memory_cache : HashMap String → Amount ℕ → Option (HashMap l.State)
  unfolding capacity_of insert
  new_in_memory_cache [] entries = some []
  new_in_memory_cache ((module_, logtype) ∷ rest) entries =
      elim (new_in_memory_cache rest entries) [
        | none ↦ none
        | some caches ↦
            if capacity_of entries module_ logtype == 0
            then none
            else some (insert module_ (l.new_cache (capacity_of entries module_ logtype)) caches)
      ]

  abbrev pub no_cache_for : String → CacheError
  no_cache_for namespace = cache_access_error namespace

  unfoldable pub put_cached :
      String
      → String
      → String
      → HashMap l.State
      → Option (Result CacheError (Option String)) × HashMap l.State
  unfolding lookup insert
  put_cached namespace key value caches = elim (lookup namespace caches) [
    | none ↦ (some (err (no_cache_for namespace)), caches)
    | some module_cache ↦
        let (old, cache') = l.put key value module_cache in
        (some (ok old), insert namespace cache' caches)
  ]

  -- A read changes the order of the cache.
  unfoldable pub get_cached :
      String
      → String
      → HashMap l.State
      → Option (Result CacheError (Option String)) × HashMap l.State
  unfolding lookup insert
  get_cached namespace key caches = elim (lookup namespace caches) [
    | none ↦ (some (err (no_cache_for namespace)), caches)
    | some module_cache ↦
        let (value, cache') = l.get key module_cache in
        (some (ok value), insert namespace cache' caches)
  ]

  abbrev pub in_memory_cache : CacheProvider
  in_memory_cache = record { State = HashMap l.State; put = put_cached; get = get_cached }
