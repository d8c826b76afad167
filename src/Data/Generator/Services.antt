-- ===== src/Data/Generator/Services.antt =====
-- The generators of runtime/plaid/src/data/okta/mod.rs and runtime/plaid/src/data/github/mod.rs,
-- less their calls to the services: `fetch` stands for `fetch_logs`. The LRU cache is the lru
-- crate's and the channel crossbeam's. `send` waits while the channel is full, so here a refusal
-- means that no one receives.
use plaid.Base.{
  ℕ, suc, ◌-◌, ◌≤◌, ◌<◌, ◌≡◌, refl, ap, ◌∙◌, String, str_eq, Bool, ◌||◌, Option, none, some, List,
  [], ◌∷◌, ◌++◌, map, length, ◌==◌, if◌then◌else◌, inl, inr, arith,
}
use mathlib.Core.List.{map-append}
use plaid.Base.Result.{ok, err, Result-cases}
use plaid.Base.Words.{add_u64}
use plaid.Guest.{Bytes}
use plaid.Message.{Message, LogbacksAllowed, Generator, generator, new}
use plaid.Channel.{Channel, IsQueue}
use plaid.Functions.Storage.{contains}
use plaid.Data.Generator.{Support, DataGenerator, DataGeneratorLog}
use plaid.Data.Generator.Interface.{IsGenerator}

-- `LruCache<String, u32>`, with its values left out: they are all 0.
pub record Lru : Type 1 where
  pub State : Type 0
  -- for a size that is not 0
  pub new_cache : ℕ → State
  pub has : String → State → Bool
  pub put : String → State → State
  -- the keys in the order of `iter`
  pub keys : State → List String
  pub cap_of : State → ℕ

-- What the documentation of the cache says: a key that is put is there, and no other goes while
-- there is room.
pub record IsLru (l : Lru) : Type 0 where
  pub put_has :
      (i j : String) (c : l.State)
      → length (l.keys c) < l.cap_of c
      → l.has j (l.put i c) ≡ (str_eq i j || l.has j c)
  pub put_keys : (i : String) (c : l.State) → length (l.keys (l.put i c)) ≤ suc (length (l.keys c))
  pub put_cap : (i : String) (c : l.State) → l.cap_of (l.put i c) ≡ l.cap_of c
  pub keys_has : (j : String) (c : l.State) → contains (l.keys c) j ≡ l.has j c

-- The fields of `OktaConfig` and `GithubConfig` that the methods read.
pub record Config : Type 0 where
  pub logbacks_allowed : LogbacksAllowed
  pub canon_time : ℕ
  pub lru_cache_size : ℕ
  pub max_since_until : ℕ
  pub max_catchup : ℕ

module _ (s : Support) (c : Channel Message) (l : Lru) where
  -- `Okta` and `Github`. `logs_fetched` counts where metrics are enabled.
  pub record Service : Type 0 where
    pub config : Config
    pub last_seen : s.OffsetDateTime
    pub logger : c.State
    pub seen_logs_uuid : l.State
    pub logs_fetched : Option ℕ

  -- `Okta::new` fails on a size of 0; `metrics` is the new counter.
  unfoldable pub new_okta : Config → c.State → Option ℕ → s.OffsetDateTime → Option Service
  new_okta config logger metrics now =
      if config.lru_cache_size == 0
      then none
      else some (record {
        config = config;
        last_seen = now;
        logger = logger;
        seen_logs_uuid = l.new_cache config.lru_cache_size;
        logs_fetched = metrics;
      })

  -- `Github::new` takes the default size instead.
  unfoldable pub new_github : Config → c.State → Option ℕ → s.OffsetDateTime → Service
  new_github config logger metrics now = record {
    config = config;
    last_seen = now;
    logger = logger;
    seen_logs_uuid =
        l.new_cache (if config.lru_cache_size == 0 then 4096 else config.lru_cache_size);
    logs_fetched = metrics;
  }

  -- `counter.inc()`
  unfoldable pub counted : Option ℕ → Option ℕ
  unfolding add_u64
  counted none = none
  counted (some n) = some (add_u64 n 1)

  -- `uuid` gives the ids of the messages.
  unfoldable pub send_message :
      String → Generator → (Bytes → String) → Bytes → Service → Option Service
  unfolding counted new
  send_message type_ source uuid payload d =
      elim (c.try_send
        (new (uuid payload) type_ payload (generator source) d.config.logbacks_allowed) d.logger) [
          | err _ ↦ none
          | ok sender ↦ some (record d { logger = sender; logs_fetched = counted d.logs_fetched })
        ]

  -- The payloads that wait in the channel, and the ids that the cache has room for.
  abbrev pub payloads_in : (c.State → List Message) → Service → List Bytes
  payloads_in queue d = map Message.content (queue d.logger)

  abbrev pub room_in : Service → ℕ
  room_in d = l.cap_of d.seen_logs_uuid - length (l.keys d.seen_logs_uuid)

  module _ (uuid : Bytes → String)
      (fetch : ℕ
        → Service
        → s.OffsetDateTime
        → s.OffsetDateTime
        → Option (List (DataGeneratorLog s))) where
    -- What the two implementations of the trait share.
    abbrev methods : String → (Bytes → Service → Option Service) → DataGenerator s
    methods name send = record {
      Self = Service;
      fetch_logs = fetch;
      get_name = λ d. name;
      get_canon_time = λ d. d.config.canon_time;
      get_last_seen = λ d. d.last_seen;
      set_last_seen = λ v d. record d { last_seen = v };
      was_already_seen = λ id d. l.has id d.seen_logs_uuid;
      mark_already_seen = λ id d. record d { seen_logs_uuid = l.put id d.seen_logs_uuid };
      list_already_seen = λ d. l.keys d.seen_logs_uuid;
      send_for_processing = send;
      get_max_since_until_interval = λ d. d.config.max_since_until;
      get_max_catchup_time = λ d. d.config.max_catchup;
    }

    abbrev pub okta : DataGenerator s
    okta = methods "Okta" (send_message "okta" Generator.okta uuid)

    abbrev pub github : DataGenerator s
    github = methods "GitHub" (send_message "github" Generator.github uuid)

    module _ (queue : c.State → List Message) (q : IsQueue c queue) (lru : IsLru l) where
      send_message_ok :
          (type_ : String) (source : Generator) (b : Bytes) (d d' : Service)
          → send_message type_ source uuid b d ≡ some d'
          → (d'.last_seen ≡ d.last_seen)
            × (d'.seen_logs_uuid ≡ d.seen_logs_uuid)
            × (payloads_in queue d' ≡ payloads_in queue d ++ b ∷ [])
      unfolding send_message new
      send_message_ok type_ source b d d' h =
          let m = new (uuid b) type_ b (generator source) d.config.logbacks_allowed in
          elim (Result-cases (c.try_send m d.logger)) [
            | inl (sender, e) ↦
                let queued = q.try_send_ok m d.logger sender e in
                let after : Service = record d {
                  logger = sender;
                  logs_fetched = counted d.logs_fetched;
                } in
                let eq : send_message type_ source uuid b d ≡ some after = rw (send_message, e) in
                let same : after ≡ d' = cc in
                rw (← same) (
                  refl,
                  refl,
                  ap (map Message.content) queued
                      ∙ map-append Message.content (queue d.logger) (m ∷ []),
                )
            | inr (x, e) ↦
                let eq : send_message type_ source uuid b d ≡ none = rw (send_message, e) in cc
          ]

      methods-IsGenerator :
          (name type_ : String) (source : Generator)
          → IsGenerator s
              (methods name (send_message type_ source uuid))
              (payloads_in queue)
              room_in
      methods-IsGenerator name type_ source = record {
        set_last = λ v d. refl;
        set_seen = λ v d id. refl;
        set_sent = λ v d. refl;
        set_room = λ v d. refl;
        mark_last = λ id d. refl;
        mark_seen = λ id d j h. lru.put_has id j d.seen_logs_uuid (omega arith);
        list_seen = λ d j. lru.keys_has j d.seen_logs_uuid;
        mark_sent = λ id d. refl;
        mark_room = λ id d.
            omega (arith, lru.put_keys id d.seen_logs_uuid, lru.put_cap id d.seen_logs_uuid);
        send_last = λ b d d' h. (send_message_ok type_ source b d d' h).0;
        send_seen = λ b d d' id h. ap (l.has id) (send_message_ok type_ source b d d' h).1;
        send_sent = λ b d d' h. (send_message_ok type_ source b d d' h).2;
        send_room = λ b d d' h.
            ap (λ x. l.cap_of x - length (l.keys x)) (send_message_ok type_ source b d d' h).1;
      }

      pub okta-IsGenerator : IsGenerator s okta (payloads_in queue) room_in
      okta-IsGenerator = methods-IsGenerator "Okta" "okta" Generator.okta

      pub github-IsGenerator : IsGenerator s github (payloads_in queue) room_in
      github-IsGenerator = methods-IsGenerator "GitHub" "github" Generator.github
