-- ===== src/DecisionChain/Stats.antt =====
-- The statistics of the chain, and `check_all` beside `check`.
use limiteron.Common.{
  ℕ, ◌+◌, ◌%◌, ◌≡◌, refl, Bool, true, false, List, [], ◌∷◌, Option, none, some, arith, total,
  u64_mod, Text, Text_key, Bool-cases, inl, inr,
}
use limiteron.Errors.{Decision, Result, ok, err, panic}
use limiteron.DecisionChain.{
  DecisionNode, DecisionChain, ChainStats, count_node, count_rejection, count_check, count_allowed,
  check_node, Visit, go_on, stop, visit, visited, check_from, check, visit_all, visited_all,
  check_all_from, check_all,
}

abbrev by_count : Text × ℕ → ℕ
by_count e = e.1

-- The counts of the nodes add up to the count of rejections, as words.
abbrev pub IsCounted : ChainStats → Type 0
IsCounted stats = stats.rejected_count ≡ total by_count stats.node_rejections % u64_mod

count_node-total :
    (id : Text) (counts : List (Text × ℕ))
    → total by_count (count_node id counts) % u64_mod ≡ (total by_count counts + 1) % u64_mod
unfolding count_node
count_node-total id [] = refl
count_node-total id (e ∷ rest) = ground (arith, count_node-total id rest)

count_rejection-IsCounted :
    (id : Text) (stats : ChainStats) → IsCounted stats → IsCounted (count_rejection id stats)
unfolding count_rejection
count_rejection-IsCounted id stats h = omega (arith, count_node-total id stats.node_rejections)

module _ {S : Type 0} where
  -- A step of the loop keeps a property of the statistics that rejections keep.
  abbrev StatsOf : {R : Type 0} → (ChainStats → Type 0) → Visit R S → Type 0
  StatsOf P (go_on reason stats s) = P stats
  StatsOf P (stop stats s r) = P stats

  visited-StatsOf :
      (node : DecisionNode S) (o : Option Text) (stats : ChainStats) (s : S) (r : Result Bool)
      → IsCounted stats
      → StatsOf IsCounted (visited node o stats s r)
  unfolding visited
  visited-StatsOf node o stats s (ok true) h = h
  visited-StatsOf node o stats s (ok false) h = elim (Bool-cases node.short_circuit) [
    | inl on ↦ rw on (count_rejection-IsCounted node.id stats h)
    | inr off ↦ rw off (count_rejection-IsCounted node.id stats h)
  ]
  visited-StatsOf node o stats s (err e) h = h
  visited-StatsOf node o stats s panic h = h

  visit-StatsOf :
      (node : DecisionNode S) (o : Option Text) (stats : ChainStats) (s : S)
      → IsCounted stats
      → StatsOf IsCounted (visit node o stats s)
  unfolding visit visited check_node
  visit-StatsOf node o stats s h = elim (Bool-cases node.enabled) [
    | inl on ↦ rw on (visited-StatsOf node o stats _ _ h)
    | inr off ↦ rw off h
  ]

  visited_all-StatsOf :
      (node : DecisionNode S) (o : List Text) (stats : ChainStats) (s : S) (r : Result Bool)
      → IsCounted stats
      → StatsOf IsCounted (visited_all node o stats s r)
  unfolding visited_all
  visited_all-StatsOf node o stats s (ok true) h = h
  visited_all-StatsOf node o stats s (ok false) h = count_rejection-IsCounted node.id stats h
  visited_all-StatsOf node o stats s (err e) h = h
  visited_all-StatsOf node o stats s panic h = h

  visit_all-StatsOf :
      (node : DecisionNode S) (o : List Text) (stats : ChainStats) (s : S)
      → IsCounted stats
      → StatsOf IsCounted (visit_all node o stats s)
  unfolding visit_all visited_all check_node
  visit_all-StatsOf node o stats s h = elim (Bool-cases node.enabled) [
    | inl on ↦ rw on (visited_all-StatsOf node o stats _ _ h)
    | inr off ↦ rw off h
  ]

  check_from-IsCounted :
      (nodes : List (DecisionNode S)) (o : Option Text) (stats : ChainStats) (s : S)
      → IsCounted stats
      → IsCounted (check_from nodes o stats s).0.0
  unfolding check_from count_allowed
  check_from-IsCounted [] none stats s h = h
  check_from-IsCounted [] (some t) stats s h = h
  check_from-IsCounted (node ∷ rest) o stats s h =
      go (check_from-IsCounted rest) (visit node o stats s) (visit-StatsOf node o stats s h)
    where
      go :
          ((o : Option Text) (st : ChainStats) (t : S)
            → IsCounted st
            → IsCounted (check_from rest o st t).0.0)
          → (v : Visit (Option Text) S) → StatsOf IsCounted v
          → IsCounted
              (elim v as (λ x. (ChainStats × S) × Result Decision) [
                | go_on o st t ↦ check_from rest o st t
                | stop st t r ↦ ((st, t), r)
              ]).0.0
      go ih (go_on o st t) k = ih o st t k
      go ih (stop st t r) k = k

  check_all_from-IsCounted :
      (nodes : List (DecisionNode S)) (o : List Text) (stats : ChainStats) (s : S)
      → IsCounted stats
      → IsCounted (check_all_from nodes o stats s).0.0
  unfolding check_all_from count_allowed
  check_all_from-IsCounted [] [] stats s h = h
  check_all_from-IsCounted [] (t ∷ ts) stats s h = h
  check_all_from-IsCounted (node ∷ rest) o stats s h =
      go (check_all_from-IsCounted rest) (visit_all node o stats s)
        (visit_all-StatsOf node o stats s h)
    where
      go :
          ((o : List Text) (st : ChainStats) (t : S)
            → IsCounted st
            → IsCounted (check_all_from rest o st t).0.0)
          → (v : Visit (List Text) S) → StatsOf IsCounted v
          → IsCounted
              (elim v as (λ x. (ChainStats × S) × Result Decision) [
                | go_on o st t ↦ check_all_from rest o st t
                | stop st t r ↦ ((st, t), r)
              ]).0.0
      go ih (go_on o st t) k = ih o st t k
      go ih (stop st t r) k = k

  -- Whatever the limiters answer, errors included, a call of `check` or `check_all` keeps the count of
  -- rejections equal to the sum of the nodes' counts (modulo `2 ^ 64`).
  pub check-IsCounted :
      (chain : DecisionChain S) (s : S)
      → IsCounted chain.stats
      → IsCounted (check chain s).0.0.stats × IsCounted (check_all chain s).0.0.stats
  unfolding check check_all count_check
  check-IsCounted chain s h = (
    check_from-IsCounted chain.nodes none (count_check chain.stats) s h,
    check_all_from-IsCounted chain.nodes [] (count_check chain.stats) s h,
  )
