-- ===== src/LimiterManager.antt =====
-- src/limiter_manager.rs: the limiters that the macro `flow_control` shares, and the constructors of
-- `ConcurrencyLimiter` (src/limiters.rs). An `Arc` is the position of a limiter in the store of its kind,
-- so that callers with the same position share one limiter.
use limiteron.Common.{
  ℕ, List, [], ◌∷◌, ◌++◌, Option, none, some, Text, Text_key, lookup, insert, length, get_elem?,
  ◌≡◌, ◌≢◌, refl, lookup-insert_self, lookup-insert_ne, Option-cases, inl, inr,
}
use limiteron.Errors.{Result, ok, ◌>>=◌}
use limiteron.Limiters.TokenBucket
use limiteron.Limiters.FixedWindow

-- A map from keys to limiters under one lock, and the limiters.
pub record Shared (A : Type 0) : Type 0 where
  pub store : List A
  pub limiters : List (Text × ℕ)

abbrev pub no_limiters : {A : Type 0} → Shared A
no_limiters = record { store = []; limiters = [] }

module _ {A : Type 0} where
  abbrev pub allocate : Text → A → Shared A → Shared A × ℕ
  allocate key limiter shared = (
    record {
      store = shared.store ++ (limiter ∷ []);
      limiters = insert key (length shared.store) shared.limiters;
    },
    length shared.store,
  )

  -- The limiter that was found, and else the given one, which is kept.
  abbrev pub or_insert : Text → A → Shared A → Option ℕ → Shared A × ℕ
  or_insert key limiter shared (some found) = (shared, found)
  or_insert key limiter shared none = allocate key limiter shared

  unfoldable pub get_or_insert : Text → A → Shared A → Shared A × ℕ
  get_or_insert key limiter shared = or_insert key limiter shared (lookup key shared.limiters)

-- `Semaphore` is that of tokio, whose constructor may panic.
pub record ConcurrencyLimiter (Semaphore : Type 0) : Type 0 where
  pub semaphore : Semaphore
  pub timeout : Option ℕ

pub record LimiterManager (Semaphore : Type 0) : Type 0 where
  pub rate_limiters : Shared TokenBucket.TokenBucketLimiter
  pub quota_limiters : Shared FixedWindow.FixedWindowLimiter
  pub concurrency_limiters : Shared (ConcurrencyLimiter Semaphore)

module _ {Semaphore : Type 0} (new_semaphore : ℕ → Result Semaphore) where
  -- `ConcurrencyLimiter::new`
  unfoldable pub new : ℕ → Result (ConcurrencyLimiter Semaphore)
  new max_concurrent = do
    semaphore ← new_semaphore max_concurrent
    ok (record { semaphore = semaphore; timeout = none })

  unfoldable pub with_timeout : ℕ → ℕ → Result (ConcurrencyLimiter Semaphore)
  with_timeout max_concurrent timeout = do
    semaphore ← new_semaphore max_concurrent
    ok (record { semaphore = semaphore; timeout = some timeout })

  -- The timeout is 50 milliseconds, in nanoseconds.
  unfoldable pub get_concurrency_limiter :
      Text → ℕ → LimiterManager Semaphore → Result (LimiterManager Semaphore × ℕ)
  unfolding lookup with_timeout
  get_concurrency_limiter key max_concurrent manager =
      elim (lookup key manager.concurrency_limiters.limiters) [
        | some found ↦ ok (manager, found)
        | none ↦ do
          limiter ← with_timeout max_concurrent 50000000
          let made = allocate key limiter manager.concurrency_limiters
          ok (record manager { concurrency_limiters = made.0 }, made.1)
      ]

module _ {Semaphore : Type 0} where
  abbrev pub new_manager : LimiterManager Semaphore
  new_manager = record {
    rate_limiters = no_limiters;
    quota_limiters = no_limiters;
    concurrency_limiters = no_limiters;
  }

  unfoldable pub get_rate_limiter :
      Text → ℕ → ℕ → ℕ → LimiterManager Semaphore → LimiterManager Semaphore × ℕ
  unfolding get_or_insert TokenBucket.new
  get_rate_limiter key capacity refill_rate now manager =
      let found =
        get_or_insert key (TokenBucket.new capacity refill_rate now) manager.rate_limiters in
      (record manager { rate_limiters = found.0 }, found.1)

  unfoldable pub get_quota_limiter :
      Text → ℕ → ℕ → ℕ → LimiterManager Semaphore → LimiterManager Semaphore × ℕ
  unfolding get_or_insert FixedWindow.new
  get_quota_limiter key duration max_requests now manager =
      let found =
        get_or_insert key (FixedWindow.new duration max_requests now) manager.quota_limiters in
      (record manager { quota_limiters = found.0 }, found.1)

  -- The maps are emptied; a limiter that a caller still holds lives on.
  unfoldable pub clear : LimiterManager Semaphore → LimiterManager Semaphore
  clear manager = record {
    rate_limiters = record manager.rate_limiters { limiters = [] };
    quota_limiters = record manager.quota_limiters { limiters = [] };
    concurrency_limiters = record manager.concurrency_limiters { limiters = [] };
  }

-- A key has a limiter after it was asked for.
get_or_insert-found :
    {A : Type 0} (key : Text) (limiter : A) (shared : Shared A)
    → let made = get_or_insert key limiter shared in lookup key made.0.limiters ≡ some made.1
unfolding get_or_insert
get_or_insert-found key limiter shared = elim (Option-cases (lookup key shared.limiters)) [
  | inl e ↦ rw e (lookup-insert_self key (length shared.store) shared.limiters)
  | inr e ↦ rw e.1 e.1
]

get_or_insert-kept :
    {A : Type 0} (key : Text) (limiter : A) (shared : Shared A) (found : ℕ)
    → lookup key shared.limiters ≡ some found
    → get_or_insert key limiter shared ≡ (shared, found)
unfolding get_or_insert
get_or_insert-kept key limiter shared found e = rw e refl

-- A key keeps its limiter: a later call, whatever its parameters, gets the same limiter and changes
-- nothing.
pub get_or_insert-again :
    {A : Type 0} (key : Text) (first second : A) (shared : Shared A)
    → let made = get_or_insert key first shared in get_or_insert key second made.0 ≡ made
get_or_insert-again key first second shared =
    let made = get_or_insert key first shared in
    get_or_insert-kept key second made.0 made.1 (get_or_insert-found key first shared)

-- The position after a list is that of the entry put there.
get_elem?-snoc :
    {A : Type 0} (xs : List A) (x : A) → get_elem? (xs ++ (x ∷ [])) (length xs) ≡ some x
get_elem?-snoc [] x = refl
get_elem?-snoc (y ∷ xs) x = get_elem?-snoc xs x

-- A key without a limiter gets the one that is made for it, and the other keys keep theirs.
pub get_or_insert-new :
    {A : Type 0} (key : Text) (limiter : A) (shared : Shared A)
    → lookup key shared.limiters ≡ none
    → let made = get_or_insert key limiter shared in
      (get_elem? made.0.store made.1 ≡ some limiter)
      × ((other : Text) → other ≢ key → lookup other made.0.limiters ≡ lookup other shared.limiters)
unfolding get_or_insert
get_or_insert-new key limiter shared e = rw e (
  get_elem?-snoc shared.store limiter,
  λ other d. lookup-insert_ne key other (length shared.store) shared.limiters d,
)
