-- ===== src/Lib.antt =====
-- Plaid runs rules, which are WebAssembly modules, on log messages. Messages come in from webhooks,
-- from data generators and from the rules themselves ("logbacks"); the executor gives each to the
-- rules of its type; a rule calls host functions, among others to store data and to log back. This
-- library models that core, the part of runtime/plaid/src that is the program's own logic.
--
-- The parts and their files (all paths below runtime/plaid/src, where no other is given):
--
-- - Base: Rust's Result, HashMap (an association list with text keys), BinaryHeap (a list in the
--   order of its pops), i32 and u64; a release build wraps, and so do `add_u64` and `sub_u64`.
-- - Guest: functions/memory.rs and the error codes of functions/mod.rs. A guest's linear memory is
--   wasmer's, a parameter (`GuestMemory`).
-- - Message, Channel, Env: `Message` of executor/mod.rs, the message types of
--   runtime/plaid-stl/src/messages.rs, crossbeam's channels as a parameter, and `Env` of
--   executor/mod.rs with `PlaidModule` of loader/mod.rs.
-- - Storage: storage/mod.rs. A provider is a record of the trait's methods with its state made
--   explicit; Storage/Contract says what the trait promises, Storage/InMemory is
--   storage/in_memory/mod.rs, Storage/Migration is `apply_migration`, Storage/Shared is
--   `Storage::new` and `init_shared_db`.
-- - Functions/Storage: functions/storage.rs, one function for each host function, each returning its
--   code and the environment that it leaves. `insert_common`, `delete_common`, `get_common` and
--   `list_keys_common` stand in Functions/Storage/Common.
-- - Functions/Logback: `log_back_detailed` and `dispatch_logback` of functions/internal.rs. Its
--   Budget follows the logbacks from message to message, each message being for several rules.
-- - Functions/Message: functions/message.rs, functions/runtime_data.rs, functions/response.rs and
--   `set_error_context` of functions/internal.rs.
-- - Cache: cache/mod.rs and cache/in_memory/mod.rs, with the lru crate as a parameter (`LruCache`);
--   Functions/Cache is functions/cache.rs.
-- - Functions/Run: a run of a module as a sequence of host calls, for what holds over whole
--   runs; Functions/Stays has the calls that leave the storage alone.
-- - Executor: `execution_loop`, `process_message_with_module` and `update_persistent_response` of
--   executor/mod.rs, with wasmer's instantiation and calls and the logging system as a parameter
--   (`Runtime`); Executor/Pools is executor/thread_pools.rs with `execute_webhook_message`.
-- - Data: Internal is data/internal/mod.rs (delayed logbacks), Interval data/interval/mod.rs
--   (scheduled jobs), Selector data/websocket/selector.rs (endpoints and their back-off).
-- - Data/Generator: the loop of data/mod.rs that polls Okta and GitHub, with what it stores and
--   recovers; Data/Generator/Services is data/okta/mod.rs and data/github/mod.rs without their HTTP
--   calls. The trait `DataGenerator` is a record, and Data/Generator/Interface says what it promises.
-- - Blockchain: apis/blockchain/common, the choice of nodes and the retries that the EVM and Solana
--   clients share; reqwest is a parameter (`Http`).
-- - Loader: Limits is loader/limits.rs with the limits of loader/utils.rs and loader/mod.rs, Signing
--   is loader/signing.rs, with sshcerts as a parameter (`Ssh`), and Signers the count in it,
--   Accessory is `module_accessory_data` and Load is `load`, with wasmer's
--   compiler, the files and the order in which concurrent lookups end as parameters.
-- - Functions/Api: the macros of functions/api.rs that call an API for a rule.
-- - Stl: runtime/plaid-stl/src/lib.rs, the guest's side: the error codes and the entry points of
--   rules. Stl/Delivery joins them with the host functions. Stl/Storage is
--   runtime/plaid-stl/src/plaid/storage.rs, which Stl/Stored, Stl/Inserted and Stl/Deleted join
--   with the host functions of storage. A guest's `main`, its allocator and UTF-8 and JSON are
--   parameters (`GuestCode`, `Encoding`).
-- - Apis: Network is apis/general, the requests that rules may make by name, with reqwest and the
--   header map of the http crate as a parameter (`Http`); Web is apis/web/mod.rs, tokens signed for rules, with JSON, keys and the
--   encoding of tokens as a parameter (`Json`).
-- - Webhook: the handlers of POST and GET requests of bin/plaid.rs with their configuration in
--   config.rs; warp and the clock are parameters.
-- - Executor/NextRun joins the host functions of responses with the executor.
-- - Samples and the modules called Tests run the definitions and the theorems at small examples.
--
-- Fuel: `run_jobs` of Data/Interval takes one turn for each job and one more, and
-- `get_and_process_dg_logs` of Data/Generator one for each id that is new and one more; that this is
-- enough are results below. All other loops are structural.
--
-- A host function, and the handling of a message by one thread, is one step; locks are counters with
-- a flag for poisoning. Numbers of bytes and times are natural numbers; where the source can wrap,
-- the model does.
--
-- Not modelled: the bindings of the other external services (apis), the providers over sled,
-- DynamoDB and Redis, the HTTP calls of the data generators, logging,
-- metrics, configuration parsing, the command-line programs, the rest of the guest library and the
-- example rules: I/O, glue or client code. Timeouts are left out, but those of calls of the cache,
-- and so are texts of log lines.
pub mod Apis
pub mod Base
pub mod Blockchain
pub mod Cache
pub mod Channel
pub mod Data
pub mod Env
pub mod Executor
pub mod Functions
pub mod Guest
pub mod Loader
pub mod Message
pub mod Samples
pub mod Stl
pub mod Storage
pub mod Webhook
