-- ===== src/DecisionChain/Tests.antt =====
-- Three counters as limiters, which share a state of three numbers.
use limiteron.Common.{
  ℕ, ◌-◌, ◌≡◌, ◌↔◌, refl, Bool, true, false, [], ◌∷◌, none, leb, if◌then◌else◌, codes, total,
}
use limiteron.Errors.{allowed, rejected, Result, ok}
use limiteron.DecisionChain.{
  DecisionNode, DecisionChain, new_node, with_short_circuit, new, default_stats, enabled_nodes,
  check, count_rejection, count_check, count_allowed,
}
use limiteron.Common.Search.{first_from, first_from-Answers}
use limiteron.DecisionChain.Order.{IsSorted, new-IsSorted}
use limiteron.DecisionChain.Step.{Grants}
use limiteron.DecisionChain.Check.{check-allows_iff, check-short_circuits}

-- A limiter that takes its cost off the shared number.
abbrev counter : ℕ → ℕ → ℕ × Result Bool
counter cost s = if leb cost s then (s - cost, ok true) else (s, ok false)

abbrev small : DecisionNode ℕ
small = new_node (codes "s") (codes "small") counter 10

abbrev large : DecisionNode ℕ
large = record (new_node (codes "l") (codes "large") counter 90) { cost = 3 }

abbrev middle : DecisionNode ℕ
middle = new_node (codes "m") (codes "middle") counter 10

new-IsSorted_example :
    IsSorted (new first_from (small ∷ large ∷ middle ∷ [])).nodes
    × (total (λ n. n.priority) (new first_from (small ∷ large ∷ middle ∷ [])).nodes ≡ 110)
new-IsSorted_example =
    new-IsSorted first_from first_from-Answers (small ∷ large ∷ middle ∷ []) (λ n. n.priority)

abbrev chain : DecisionChain ℕ
chain = record { nodes = large ∷ small ∷ []; stats = default_stats }

check-allows_iff_example :
    (((check chain 5).1 ≡ ok (allowed none)) ↔ Grants (large ∷ small ∷ []) 5)
    × (Grants (large ∷ small ∷ []) 5
        → (check chain 5).0
          ≡ (record chain { stats = count_allowed (count_check default_stats) }, 1))
unfolding enabled_nodes
check-allows_iff_example = check-allows_iff chain 5

check-short_circuits_example : check chain 3 ≡ (
  (record chain { stats = count_rejection (codes "s") (count_check default_stats) }, 0),
  ok (rejected (codes "Rejected by small: rate limit exceeded")),
)
unfolding enabled_nodes
check-short_circuits_example =
    check-short_circuits chain (large ∷ []) [] small 3 refl (refl, tt) refl refl refl

abbrev patient : DecisionChain ℕ
patient = record {
  nodes = with_short_circuit false large ∷ with_short_circuit false small ∷ [];
  stats = default_stats;
}
