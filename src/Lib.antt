-- ===== src/Lib.antt =====
-- limiteron, a flow control library in Rust: limiters, a decision chain over them, a circuit
-- breaker, quotas and bans over storages, and fallbacks. This library models its core.
--
-- The parts and their files. Paths of the code are from the repository's root.
--
-- Errors: src/error.rs. The errors, and the values that operations answer with. `Result` here is
-- Rust's `Result` with the crate's error, and `panic` for a panic of the code that the model
-- spells out.
--
-- Limiters: src/limiters.rs. Limiters.TokenBucket is TokenBucketLimiter, Limiters.FixedWindow is
-- FixedWindowLimiter, Limiters.SlidingWindow is SlidingWindowLimiter, Limiters.Quota is
-- QuotaLimiter (src/limiters/quota_limiter.rs), and Limiters.Cost is validate_cost. The first two
-- keep atomics: `move` is one atomic access of a thread that runs `allow`, with `Pc` the place
-- where the thread is, and any number of threads take moves in any order; the whole functions
-- beside it are what one thread does alone. The sliding window limiter takes its lock twice in a
-- call, and its `allow` is a call that no other comes into; the quota limiter holds one lock
-- throughout, so a call is one step.
--
-- DecisionChain: src/decision_chain.rs. The nodes' limiters are any functions on one state, so
-- that nodes can share a limiter; the limiters above are such functions. DecisionChain.Step,
-- Check, Order, Stats and Agree are about `check`, `add_node`, the statistics, and `check_all`
-- beside `check`.
--
-- CircuitBreaker: src/circuit_breaker.rs. `execute` is `admit`, the operation, and `settle`, each
-- as a whole function for a call that no other interrupts. The code takes several locks and
-- atomics in each, so CircuitBreaker.Threads has the same code as moves of one access, which any
-- number of threads take in any order; Probes and Overlap are about these, Trip, Reopen and
-- Invariant about calls that follow one another.
--
-- Storage: src/storage.rs. Storage.Interface holds the traits as records of operations that pass
-- the state, Storage.Memory the storage in memory, which fills both. Its maps are association
-- lists. A call is one function of the state, for a caller that no other interrupts;
-- `after_lookup` is the second access of `is_banned`.
--
-- QuotaController: src/quota_controller.rs. A client of the quota interface, with any storage.
-- `save_quota_state` and the rest are the code's functions; `consume_in` is `consume` from the
-- state of the window on. The alerts are kept in the order in which they are handed to the
-- channels.
--
-- BanManager: src/ban_manager.rs. A client of the ban interface, with any storage;
-- BanManager.Validate holds the checks of targets and reasons.
--
-- Fallback: src/fallback.rs. An operation and its fallback are functions on a state of the
-- caller's; Fallback.Failures runs a manager through calls, failures and recoveries.
--
-- Matchers: src/matchers/mod.rs. Matchers.IpRanges is IpRange with its parser, Matchers.Context is
-- RequestContext, Matchers.Conditions the conditions, Matchers.Rules the rule matcher,
-- Matchers.Configured its from_config, and Matchers.Extractors the identifiers and their
-- extractors. A boxed trait object is the one function of it that matters, and a hash map an
-- association list. `contains` may panic: a prefix over 128 indexes past the segments of an
-- address.
--
-- Config: src/config.rs. The configuration with its validation (Config.Validate) and the history
-- of changes (Config.History). Config.Valid says which configurations are accepted.
-- Config.Security is the report on the security of a configuration (src/config_security.rs).
--
-- LimiterManager: src/limiter_manager.rs, the limiters that the macro flow_control shares by key,
-- and the constructors of ConcurrencyLimiter (src/limiters.rs). A shared limiter is a position in
-- a store. The semaphore of tokio is a parameter.
--
-- Governor: src/governor.rs. `check` from the extraction of an identifier over the match of the
-- rules to their decision chains, in the build without the feature parallel-checker, and the rules
-- that a configuration gives (Governor.Rules). It stands on Matchers and DecisionChain.
--
-- CustomLimiter: src/custom_limiter.rs. CustomLimiter.LeakyBucket and CustomLimiter.Tokens are its
-- two limiters, one call after the other; CustomLimiter.Registry is the registry, whose limiters
-- work on one state.
--
-- Cache.L2: src/cache/l2.rs. The cache over lru::LruCache, which is the parameter
-- Cache.L2.Lru.LruCache with the laws that its documentation gives; Cache.L2.Values says what a
-- cache holds for a key at a time.
--
-- Common: what these share. Common.Words is arithmetic on machine words, Common.Bits masks of high
-- bits, Common.Texts what the program uses of str and char, Common.Search the contract of
-- binary_search_by, Common.Ranked lists that are kept sorted by it, Common.Maps the maps,
-- Common.Lists and Common.Booleans lists and tests, Common.Keys the equality of keys, Common.Float
-- the operations of f64.
--
-- Conventions. Instants and durations are natural numbers of nanoseconds; the clock is an
-- argument. A u64 or u32 is a natural number, and an addition that may overflow wraps as in a
-- release build. f64 is a parameter, since the model does not say how it rounds. A text that the
-- code looks into is a list of code points. The parsers of IP addresses, str::to_lowercase, JSON
-- values, the addition of a duration to a date, and slice::binary_search_by are parameters, the
-- last with its documented contract.
--
-- Bounds and fuel. No definition of the program's code runs on fuel: the loops go over lists, and
-- the retries of a compare-and-swap are moves of a thread. MAX_RETRY is the code's bound on them.
--
-- Not modelled: the permits of the concurrency limiter, the bans and updates of the governor, the
-- custom, device and geo matchers, the single-flight loader of the L2 cache, the L3 and smart
-- caches, the parallel ban checker, the watching of configurations, the Redis and PostgreSQL
-- storages, and what surrounds them (telemetry, logging, macros, binaries). They are I/O, or stand
-- on the parts above.
pub mod Common
pub mod Errors
pub mod Limiters
pub mod Config
pub mod CustomLimiter
pub mod Cache
pub mod Governor
pub mod Matchers
pub mod Storage
pub mod QuotaController
pub mod CircuitBreaker
pub mod DecisionChain
pub mod BanManager
pub mod Fallback
pub mod LimiterManager
