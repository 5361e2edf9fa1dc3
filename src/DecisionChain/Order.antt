-- ===== src/DecisionChain/Order.antt =====
-- The order of the chain, whatever element of equal priority the search finds.
use limiteron.Common.{
  ℕ, ◌+◌, ◌≡◌, ◌∙◌, total, total-append, List, [], ◌∷◌, ◌++◌, arith, Ordering, ap,
}
use limiteron.Common.Search.{Found, IsBinarySearch}
use limiteron.Common.Ranked
use limiteron.Common.Ranked.{insert_at, insert_ranked}
use limiteron.DecisionChain.{DecisionNode, add_node, add_each, new}

-- From the highest priority down.
abbrev pub IsSorted : {S : Type 0} → List (DecisionNode S) → Type 0
IsSorted = Ranked.IsSorted (λ n. n.priority)

module _ {S : Type 0} where
  module _ (search : (DecisionNode S → Ordering) → List (DecisionNode S) → Found)
      (contract : IsBinarySearch search) where
    -- A node that is added to a sorted chain stands somewhere between its nodes, whose order stays,
    -- and the chain is sorted by priority again.
    pub add_node-IsSorted :
        (node : DecisionNode S) (nodes : List (DecisionNode S))
        → IsSorted nodes
        → IsSorted (add_node search node nodes)
          × ((front : List (DecisionNode S)) × (back : List (DecisionNode S)) × (nodes
                ≡ front ++ back)
              × (add_node search node nodes ≡ front ++ (node ∷ back)))
    unfolding add_node
    add_node-IsSorted node nodes s = insert_ranked (λ n. n.priority) search node nodes contract s

    add_each-IsSorted :
        (given nodes : List (DecisionNode S))
        → IsSorted nodes
        → IsSorted (add_each search given nodes)
    unfolding add_each
    add_each-IsSorted [] nodes s = s
    add_each-IsSorted (node ∷ rest) nodes s =
        add_each-IsSorted rest (add_node search node nodes) (add_node-IsSorted node nodes s).0

    add_each-counts :
        (w : DecisionNode S → ℕ) (given nodes : List (DecisionNode S))
        → IsSorted nodes
        → total w (add_each search given nodes) ≡ total w given + total w nodes
    unfolding add_each
    add_each-counts w [] nodes s = omega arith
    add_each-counts w (node ∷ rest) nodes s =
        let (sorted, (front, back, e, e')) = add_node-IsSorted node nodes s in
        let before : total w nodes ≡ total w front + total w back =
          ap (total w) e ∙ total-append w front back in
        let after : total w (add_node search node nodes) ≡ total w front + (w node + total w back) =
          ap (total w) e' ∙ total-append w front (node ∷ back) in
        omega (arith, add_each-counts w rest (add_node search node nodes) sorted)

    -- A chain that is built from nodes in any order is sorted by priority, and holds each of them as
    -- often as it was given: any weight of the nodes adds up to the same.
    pub new-IsSorted :
        (given : List (DecisionNode S)) (w : DecisionNode S → ℕ)
        → IsSorted (new search given).nodes × (total w (new search given).nodes ≡ total w given)
    unfolding new
    new-IsSorted given w =
        (add_each-IsSorted given [] tt, omega (arith, add_each-counts w given [] tt))
