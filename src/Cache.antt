-- ===== src/Cache.antt =====
-- The cache: runtime/plaid/src/cache/mod.rs. A call of a provider that has not ended after five
-- seconds is given up by the host functions: its result is `none`.
pub mod InMemory
use plaid.Base.{String, Option}
use plaid.Base.Result.{Result}

pub data CacheError : Type 0 where
  cache_init_error cache_access_error put_error get_error : String → CacheError
  no_cache_configured : CacheError

-- `put` returns the value that it overwrites.
pub record CacheProvider : Type 1 where
  pub State : Type 0
  pub put : String → String → String → State → Option (Result CacheError (Option String)) × State
  pub get : String → String → State → Option (Result CacheError (Option String)) × State
