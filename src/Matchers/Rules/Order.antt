-- ===== src/Matchers/Rules/Order.antt =====
-- src/matchers/mod.rs: the rules stay sorted by priority.
use limiteron.Common.{List, [], ◌∷◌, ◌++◌, ◌≡◌, Ordering}
use limiteron.Common.Search.{Found, IsBinarySearch}
use limiteron.Common.Ranked.{IsSorted as IsRanked, insert_ranked}
use limiteron.Matchers.Rules.{Rule, add_rule, add_each, new}

-- From the highest priority down.
abbrev pub IsSorted : List Rule → Type 0
IsSorted rules = IsRanked (λ (r : Rule). r.priority) rules

module _ (search : (Rule → Ordering) → List Rule → Found) (contract : IsBinarySearch search) where
  -- A rule is put between the rules of at least its priority and those of at most its priority, and
  -- none is lost.
  pub add_rule-keeps :
      (rule : Rule) (rules : List Rule)
      → IsSorted rules
      → IsSorted (add_rule search rule rules)
        × ((front : List Rule) × (back : List Rule) × (rules ≡ front ++ back)
            × (add_rule search rule rules ≡ front ++ (rule ∷ back)))
  unfolding add_rule
  add_rule-keeps rule rules sorted =
      insert_ranked (λ (r : Rule). r.priority) search rule rules contract sorted

  add_each-IsSorted :
      (added rules : List Rule) → IsSorted rules → IsSorted (add_each search added rules)
  unfolding add_each
  add_each-IsSorted [] rules sorted = sorted
  add_each-IsSorted (rule ∷ rest) rules sorted =
      add_each-IsSorted rest (add_rule search rule rules) (add_rule-keeps rule rules sorted).0

  -- The rules of a new matcher are sorted.
  pub new_matcher-IsSorted : (rules : List Rule) → IsSorted (new search rules).rules
  unfolding new
  new_matcher-IsSorted rules = add_each-IsSorted rules [] tt
