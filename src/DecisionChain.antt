-- ===== src/DecisionChain.antt =====
-- src/decision_chain.rs: a chain of limiters in the order of their priorities.
-- The limiters are a parameter: `S` is the state that they keep together (nodes may share a
-- limiter), and a node's limiter is its `allow`. `slice::binary_search_by` is a parameter too, since
-- its documentation leaves open which of several equal elements it finds.
pub mod Order
pub mod Step
pub mod Check
pub mod Stats
pub mod Agree
mod Tests
use limiteron.Common.{
  ℕ, zero, suc, Bool, true, false, List, [], ◌∷◌, ◌++◌, Option, none, some, length, add_u64,
  unwrap_or, if◌then◌else◌, Text, Text_key, ◌==◌, codes, compare, Ordering,
}
use limiteron.Common.Search.{Found, unwrap_or_else, reverse_cmp}
use limiteron.Common.Ranked.{insert_at}
use limiteron.Errors.{Decision, allowed, rejected, Result, ok, err, panic}

pub record DecisionNode (S : Type 0) : Type 0 where
  pub id : Text
  pub name : Text
  pub limiter : ℕ → S → S × Result Bool
  pub priority : ℕ
  pub enabled : Bool
  pub short_circuit : Bool
  pub cost : ℕ

abbrev pub new_node : {S : Type 0} → Text → Text → (ℕ → S → S × Result Bool) → ℕ → DecisionNode S
new_node id name limiter priority = record {
  id = id;
  name = name;
  limiter = limiter;
  priority = priority;
  enabled = true;
  short_circuit = true;
  cost = 1;
}

abbrev pub with_enabled : {S : Type 0} → Bool → DecisionNode S → DecisionNode S
with_enabled enabled node = record node { enabled = enabled }

abbrev pub with_short_circuit : {S : Type 0} → Bool → DecisionNode S → DecisionNode S
with_short_circuit short_circuit node = record node { short_circuit = short_circuit }

abbrev pub with_cost : {S : Type 0} → ℕ → DecisionNode S → DecisionNode S
with_cost cost node = record node { cost = cost }

pub record ChainStats : Type 0 where
  pub total_checks : ℕ
  pub allowed_count : ℕ
  pub rejected_count : ℕ
  pub node_rejections : List (Text × ℕ)

abbrev pub default_stats : ChainStats
default_stats = record {
  total_checks = 0;
  allowed_count = 0;
  rejected_count = 0;
  node_rejections = [];
}

pub record DecisionChain (S : Type 0) : Type 0 where
  pub nodes : List (DecisionNode S)
  pub stats : ChainStats

unfoldable pub remove_node :
    {S : Type 0} → Text → List (DecisionNode S) → List (DecisionNode S) × Option (DecisionNode S)
remove_node node_id [] = ([], none)
remove_node node_id (node ∷ rest) =
    let (others, found) = remove_node node_id rest in
    if node.id == node_id then (rest, some node) else (node ∷ others, found)

-- `iter_mut().find` and the write to what it finds.
unfoldable pub update_node :
    {S : Type 0}
    → (DecisionNode S → DecisionNode S)
    → Text
    → List (DecisionNode S)
    → List (DecisionNode S) × Bool
update_node change node_id [] = ([], false)
update_node change node_id (node ∷ rest) =
    let (others, found) = update_node change node_id rest in
    if node.id == node_id then (change node ∷ rest, true) else (node ∷ others, found)

abbrev pub on_nodes :
    {S A : Type 0}
    → (List (DecisionNode S) → List (DecisionNode S) × A)
    → DecisionChain S
    → DecisionChain S × A
on_nodes f chain = let (nodes, a) = f chain.nodes in (record chain { nodes = nodes }, a)

unfoldable pub enable_node : {S : Type 0} → Text → DecisionChain S → DecisionChain S × Bool
enable_node node_id = on_nodes (update_node (with_enabled true) node_id)

unfoldable pub disable_node : {S : Type 0} → Text → DecisionChain S → DecisionChain S × Bool
disable_node node_id = on_nodes (update_node (with_enabled false) node_id)

unfoldable pub set_short_circuit :
    {S : Type 0} → Text → Bool → DecisionChain S → DecisionChain S × Bool
set_short_circuit node_id short_circuit =
    on_nodes (update_node (with_short_circuit short_circuit) node_id)

unfoldable pub reset_stats : {S : Type 0} → DecisionChain S → DecisionChain S
reset_stats chain = record chain { stats = default_stats }

unfoldable pub node_count : {S : Type 0} → DecisionChain S → ℕ
node_count chain = length chain.nodes

unfoldable pub enabled_nodes : {S : Type 0} → List (DecisionNode S) → List (DecisionNode S)
enabled_nodes [] = []
enabled_nodes (node ∷ rest) =
    let others = enabled_nodes rest in if node.enabled then node ∷ others else others

unfoldable pub enabled_node_count : {S : Type 0} → DecisionChain S → ℕ
unfolding enabled_nodes
enabled_node_count chain = length (enabled_nodes chain.nodes)

-- The counting of a rejection: the first entry of the node, or a new entry at the end.
unfoldable pub count_node : Text → List (Text × ℕ) → List (Text × ℕ)
count_node id [] = (id, 1) ∷ []
count_node id (e ∷ rest) =
    let others = count_node id rest in if e.0 == id then (e.0, add_u64 e.1 1) ∷ rest else e ∷ others

unfoldable pub count_rejection : Text → ChainStats → ChainStats
unfolding count_node
count_rejection id stats = record stats {
  rejected_count = add_u64 stats.rejected_count 1;
  node_rejections = count_node id stats.node_rejections;
}

unfoldable pub count_check : ChainStats → ChainStats
count_check stats = record stats { total_checks = add_u64 stats.total_checks 1 }

unfoldable pub count_allowed : ChainStats → ChainStats
count_allowed stats = record stats { allowed_count = add_u64 stats.allowed_count 1 }

-- `DecisionNode::check`
unfoldable pub check_node : {S : Type 0} → DecisionNode S → S → S × Result Bool
check_node node s = if node.enabled then node.limiter node.cost s else (s, ok true)

abbrev pub reason_of : Text → Text
reason_of name = codes "Rejected by " ++ (name ++ codes ": rate limit exceeded")

-- What comes after a node: the loop goes on with the reasons so far, or the call returns.
pub data Visit (R S : Type 0) : Type 0 where
  go_on : R → ChainStats → S → Visit R S
  stop : ChainStats → S → Result Decision → Visit R S

-- The `match` on a node's answer in `check`; `reason` is `rejected_reason` so far.
unfoldable pub visited :
    {S : Type 0}
    → DecisionNode S
    → Option Text
    → ChainStats
    → S
    → Result Bool
    → Visit (Option Text) S
visited node reason stats s (ok true) = go_on reason stats s
visited node reason stats s (ok false) =
    let stats' = count_rejection node.id stats in
    let text = unwrap_or reason (reason_of node.name) in
    if node.short_circuit then stop stats' s (ok (rejected text)) else go_on (some text) stats' s
visited node reason stats s (err e) = stop stats s (err e)
visited node reason stats s panic = stop stats s panic

unfoldable pub visit :
    {S : Type 0} → DecisionNode S → Option Text → ChainStats → S → Visit (Option Text) S
unfolding check_node
visit node reason stats s =
    if node.enabled
    then (let (s', r) = check_node node s in visited node reason stats s' r)
    else go_on reason stats s

-- The loop of `check` from a node on.
unfoldable pub check_from :
    {S : Type 0}
    → List (DecisionNode S)
    → Option Text
    → ChainStats
    → S
    → (ChainStats × S) × Result Decision
check_from [] none stats s = ((count_allowed stats, s), ok (allowed none))
check_from [] (some reason) stats s = ((stats, s), ok (rejected reason))
check_from (node ∷ rest) reason stats s = elim (visit node reason stats s) [
  | go_on reason' stats' s' ↦ check_from rest reason' stats' s'
  | stop stats' s' r ↦ ((stats', s'), r)
]

unfoldable pub check : {S : Type 0} → DecisionChain S → S → (DecisionChain S × S) × Result Decision
check chain s =
    let ((stats, s'), r) = check_from chain.nodes none (count_check chain.stats) s in
    ((record chain { stats = stats }, s'), r)

-- `join("; ")`
unfoldable pub join : List Text → Text
join [] = []
join (t ∷ []) = t
join (t ∷ u ∷ rest) = t ++ (codes "; " ++ join (u ∷ rest))

-- The same of `check_all`; `reasons` are those so far, in order.
unfoldable pub visited_all :
    {S : Type 0} → DecisionNode S → List Text → ChainStats → S → Result Bool → Visit (List Text) S
visited_all node reasons stats s (ok true) = go_on reasons stats s
visited_all node reasons stats s (ok false) =
    go_on (reasons ++ ((node.name ++ codes ": rate limit exceeded") ∷ []))
      (count_rejection node.id stats) s
visited_all node reasons stats s (err e) = stop stats s (err e)
visited_all node reasons stats s panic = stop stats s panic

unfoldable pub visit_all :
    {S : Type 0} → DecisionNode S → List Text → ChainStats → S → Visit (List Text) S
unfolding check_node
visit_all node reasons stats s =
    if node.enabled
    then (let (s', r) = check_node node s in visited_all node reasons stats s' r)
    else go_on reasons stats s

unfoldable pub check_all_from :
    {S : Type 0}
    → List (DecisionNode S)
    → List Text
    → ChainStats
    → S
    → (ChainStats × S) × Result Decision
check_all_from [] [] stats s = ((count_allowed stats, s), ok (allowed none))
check_all_from [] (t ∷ reasons) stats s = ((stats, s), ok (rejected (join (t ∷ reasons))))
check_all_from (node ∷ rest) reasons stats s = elim (visit_all node reasons stats s) [
  | go_on reasons' stats' s' ↦ check_all_from rest reasons' stats' s'
  | stop stats' s' r ↦ ((stats', s'), r)
]

unfoldable pub check_all :
    {S : Type 0} → DecisionChain S → S → (DecisionChain S × S) × Result Decision
check_all chain s =
    let ((stats, s'), r) = check_all_from chain.nodes [] (count_check chain.stats) s in
    ((record chain { stats = stats }, s'), r)

module _ {S : Type 0}
    (binary_search_by : (DecisionNode S → Ordering) → List (DecisionNode S) → Found) where
  unfoldable pub add_node : DecisionNode S → List (DecisionNode S) → List (DecisionNode S)
  unfolding insert_at
  add_node node nodes =
      insert_at
        (unwrap_or_else (binary_search_by (λ n. reverse_cmp n.priority node.priority) nodes)) node
        nodes

  unfoldable pub add_each : List (DecisionNode S) → List (DecisionNode S) → List (DecisionNode S)
  add_each [] nodes = nodes
  add_each (node ∷ rest) nodes = add_each rest (add_node node nodes)

  -- `new`, and `build` of the builder.
  unfoldable pub new : List (DecisionNode S) → DecisionChain S
  new nodes = record { nodes = add_each nodes []; stats = default_stats }
