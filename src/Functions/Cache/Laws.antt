-- ===== src/Functions/Cache/Laws.antt =====
-- What a module gets from the cache: the host functions of runtime/plaid/src/functions/cache.rs over
-- the provider of runtime/plaid/src/cache/in_memory/mod.rs.
use plaid.Base.{ℕ, ◌≡◌, refl, ap, ◌∙◌, String, str_eq, eq_iff, false, Option, none, some, arith}
use plaid.Base.Result.{Result, ok, err}
use plaid.Base.Dict.{HashMap, lookup, insert, lookup-insert}
use plaid.Guest.{write_or_code, get_memory, safely_get_string}
use plaid.Cache.{CacheProvider}
use plaid.Cache.InMemory.{LruCache, IsLruCache, in_memory_cache, put_cached, get_cached}
use plaid.Env.{Platform, Env}
use plaid.Functions.Message.{Encoding}
use plaid.Functions.Storage.{guest_string}
use plaid.Functions.Cache.{respond, cache_insert, cache_get}

module _ (l : LruCache) (laws : IsLruCache l) where
  -- A put stands under its key, and leaves the caches of other modules alone.
  put_cached_lem :
      (ns key value : String) (caches : HashMap l.State) (c : l.State)
      → lookup ns caches ≡ some c
      → ((put_cached l ns key value caches).0 ≡ some (ok (l.put key value c).0))
        × ((put_cached l ns key value caches).1 ≡ insert ns (l.put key value c).1 caches)
  unfolding put_cached
  put_cached_lem ns key value caches c e = rw (put_cached, e) (refl, refl)

  get_cached-put :
      (ns key value : String) (caches : HashMap l.State) (c : l.State)
      → lookup ns caches ≡ some (l.put key value c).1
      → (get_cached l ns key caches).0 ≡ some (ok (some value))
  unfolding get_cached
  get_cached-put ns key value caches c e =
      let found = laws.get_put key value c in rw (get_cached, e, found)

module _ (w : Platform) (enc : Encoding) where
  respond-cache :
      (env : Env w) (view : w.guest.View) (buf size : ℕ)
      (r : Option (Result plaid.Cache.CacheError (Option String)) × w.cache.State)
      → (respond w enc env view buf size r).1.cache ≡ some r.1
  unfolding respond
  respond-cache env view buf size (some (ok (some value)), s) = refl
  respond-cache env view buf size (some (ok none), s) = refl
  respond-cache env view buf size (some (err _), s) = refl
  respond-cache env view buf size (none, s) = refl

  respond-value :
      (env : Env w) (view : w.guest.View) (buf size : ℕ) (value : String)
      (r : Option (Result plaid.Cache.CacheError (Option String)) × w.cache.State)
      → r.0 ≡ some (ok (some value))
      → (respond w enc env view buf size r).0
        ≡ (write_or_code w.guest view (enc.as_bytes value) buf size).0
  unfolding respond
  respond-value env view buf size value (some (ok (some v)), s) e =
      let same : v ≡ value = cc in rw same
  respond-value env view buf size value (some (ok none), s) e = cc
  respond-value env view buf size value (some (err _), s) e = cc
  respond-value env view buf size value (none, s) e = cc

  cache_insert-put :
      (env : Env w) (view : w.guest.View) (s : w.cache.State) (kb kl vb vl buf size : ℕ)
      (key value : String)
      → env.cache ≡ some s
      → env.memory ≡ some view
      → w.guest.read_utf8_string view kb kl ≡ some key
      → w.guest.read_utf8_string view vb vl ≡ some value
      → cache_insert w enc env kb kl vb vl buf size
        ≡ respond w enc env view buf size (w.cache.put env.module_.name key value s)
  unfolding cache_insert guest_string get_memory safely_get_string
  cache_insert-put env view s kb kl vb vl buf size key value c m k v =
      simp (cache_insert, c, m, k, v)

  cache_get-get :
      (env : Env w) (view : w.guest.View) (s : w.cache.State) (kb kl buf size : ℕ) (key : String)
      → env.cache ≡ some s
      → env.memory ≡ some view
      → w.guest.read_utf8_string view kb kl ≡ some key
      → cache_get w enc env kb kl buf size
        ≡ respond w enc env view buf size (w.cache.get env.module_.name key s)
  unfolding cache_get guest_string get_memory safely_get_string
  cache_get-get env view s kb kl buf size key c m k = simp (cache_get, c, m, k)

abbrev pub with_cache : Platform → LruCache → Platform
with_cache w l = record w { cache = in_memory_cache l }

module _ (l : LruCache) (laws : IsLruCache l) (p : Platform) (enc : Encoding) where
  -- `cache_insert` by a module with a cache of its own, where key and value can be read: the caches
  -- of all other modules are as before, and a `cache_get` of the same module name that meets the
  -- caches it leaves, and reads the same key from its memory, returns what writing the value to its
  -- buffer returns. The provider is the cache in memory, over an LRU cache that returns the value of
  -- the key put last.
  pub cache_insert-get :
      (env env' : Env (with_cache p l)) (view view' : p.guest.View) (caches : HashMap l.State)
      (c : l.State) (kb kl vb vl buf size kb' kl' buf' size' : ℕ) (key value other : String)
      → env.cache ≡ some caches
      → lookup env.module_.name caches ≡ some c
      → env.memory ≡ some view
      → p.guest.read_utf8_string view kb kl ≡ some key
      → p.guest.read_utf8_string view vb vl ≡ some value
      → str_eq env.module_.name other ≡ false
      → env'.module_.name ≡ env.module_.name
      → env'.cache ≡ (cache_insert (with_cache p l) enc env kb kl vb vl buf size).1.cache
      → env'.memory ≡ some view'
      → p.guest.read_utf8_string view' kb' kl' ≡ some key
      → (after : HashMap l.State) × (env'.cache ≡ some after)
        × (lookup other after ≡ lookup other caches)
        × ((cache_get (with_cache p l) enc env' kb' kl' buf' size').0
            ≡ (write_or_code p.guest view' (enc.as_bytes value) buf' size').0)
  cache_insert-get env env' view view' caches c kb kl vb vl buf size kb' kl' buf' size' key value
        other hc hl hm hk hv hne hn hc' hm' hk' =
      (after, kept, apart, found)
    where
      w : Platform
      w = with_cache p l

      name : String
      name = env.module_.name

      after : HashMap l.State
      after = insert name (l.put key value c).1 caches

      left : (put_cached l name key value caches).1 ≡ after
      left = (put_cached_lem l laws name key value caches c hl).1

      put_eq :
          cache_insert w enc env kb kl vb vl buf size
          ≡ respond w enc env view buf size (put_cached l name key value caches)
      put_eq = cache_insert-put w enc env view caches kb kl vb vl buf size key value hc hm hk hv

      kept : env'.cache ≡ some after
      kept =
          hc'
          ∙ ap (λ r. r.1.cache) put_eq
          ∙ respond-cache w enc env view buf size (put_cached l name key value caches)
          ∙ ap some left

      apart : lookup other after ≡ lookup other caches
      apart =
          let asked = lookup-insert name other (l.put key value c).1 caches in
          ground (arith, asked, hne)

      there : lookup env'.module_.name after ≡ some (l.put key value c).1
      there =
          let asked = lookup-insert name name (l.put key value c).1 caches in
          ground (arith, asked, hn, eq_iff name name)

      found :
          (cache_get w enc env' kb' kl' buf' size').0
          ≡ (write_or_code p.guest view' (enc.as_bytes value) buf' size').0
      found =
          ap (λ r. r.0) (cache_get-get w enc env' view' after kb' kl' buf' size' key kept hm' hk')
          ∙ respond-value w enc env' view' buf' size' value
              (get_cached l env'.module_.name key after)
              (get_cached-put l laws env'.module_.name key value after c there)
