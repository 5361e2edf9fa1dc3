-- ===== src/Limiters/SlidingWindow.antt =====
-- src/limiters.rs: `SlidingWindowLimiter`. Instants are nanoseconds; the front of the deque is the
-- head of the list.
pub mod Queue
pub mod Invariant
pub mod Budget
pub mod Exact
mod Tests
use limiteron.Common.{
  ℕ, ◌-◌, Bool, true, false, List, [], ◌∷◌, ◌++◌, ltb, if◌then◌else◌, add_u64, length, replicate,
}
use limiteron.Errors.{Result, ok, ◌>>=◌}
use limiteron.Limiters.Cost.{validate_cost}

pub record SlidingWindowLimiter : Type 0 where
  pub window_size : ℕ
  pub max_requests : ℕ
  pub requests : List ℕ

unfoldable pub new : ℕ → ℕ → SlidingWindowLimiter
new window_size max_requests = record {
  window_size = window_size;
  max_requests = max_requests;
  requests = [];
}

-- The `while let` loop: it stops at the first request that is still in the window.
unfoldable pub drop_expired : ℕ → ℕ → List ℕ → List ℕ
drop_expired now window_size [] = []
drop_expired now window_size (front ∷ rest) =
    if ltb window_size (now - front) then drop_expired now window_size rest else front ∷ rest

unfoldable pub cleanup_expired_requests : ℕ → SlidingWindowLimiter → SlidingWindowLimiter
cleanup_expired_requests now l = record l { requests = drop_expired now l.window_size l.requests }

-- What follows the cleanup, with the lock taken anew.
unfoldable pub push_requests : ℕ → ℕ → SlidingWindowLimiter → SlidingWindowLimiter × Bool
push_requests now cost l =
    if ltb l.max_requests (add_u64 (length l.requests) cost)
    then (l, false)
    else (record l { requests = l.requests ++ replicate cost now }, true)

-- A call that no other comes into: the lock is taken twice, for the cleanup and for the rest, and the
-- clock is read under each.
unfoldable pub allow : ℕ → ℕ → ℕ → SlidingWindowLimiter → Result (SlidingWindowLimiter × Bool)
allow cleaned now cost l = do
  cost ← validate_cost cost
  ok (push_requests now cost (cleanup_expired_requests cleaned l))
