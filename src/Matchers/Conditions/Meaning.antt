-- ===== src/Matchers/Conditions/Meaning.antt =====
-- src/matchers/mod.rs: what the conditions ask of a request.
use mathlib.Core.Path.{subst}
use limiteron.Common.{
  Bool, true, false, not, List, [], ◌∷◌, Option, none, some, Text, Text_key, codes, ◌≡◌, refl, sym,
  ◌↔◌, ◌⊎◌, Any, All, text_beq_iff, arith,
}
use limiteron.Errors.{ok, Decides, Decides-answer, Decides-and, Decides-or}
use limiteron.Matchers.IpRanges.{IpAddr, IpRange, contains, Parsers}
use limiteron.Matchers.IpRanges.Cidr.{IsAddress, IsValidRange, InRange, contains_lem}
use limiteron.Matchers.IpRanges.Parse.{IsParser}
use limiteron.Matchers.Context.{RequestContext, get_header}
use limiteron.Matchers.Conditions.{
  ConditionEvaluator, MatchCondition, user, ip, geo, api_version, device, custom, and, or, negation,
  CompositeCondition, has_name, listed, any_range, any_range_of, all_of, any_of, none_first,
  evaluate_composite, in_ranges, evaluate,
}

abbrev pub Has : Text → List Text → Type 0
Has name names = Any (λ n. n ≡ name) names

has_name_iff : (name : Text) (names : List Text) → (has_name name names ≡ true) ↔ Has name names
unfolding has_name
has_name_iff name [] = ground arith
has_name_iff name (n ∷ rest) = ground (arith, has_name_iff name rest, text_beq_iff n name)

-- A list names a header's value, or everything, also a header that is not there.
abbrev pub Names : List Text → Option Text → Type 0
Names names (some name) = Has name names ⊎ Has (codes "*") names
Names names none = Has (codes "*") names

listed_iff :
    (names : List Text) (value : Option Text) → (listed names value ≡ true) ↔ Names names value
unfolding listed
listed_iff names (some name) =
    ground (arith, has_name_iff name names, has_name_iff (codes "*") names)
listed_iff names none = has_name_iff (codes "*") names

any_range_lem :
    (addr : IpAddr) (ranges : List IpRange)
    → IsAddress addr
    → All IsValidRange ranges
    → Decides (any_range addr ranges) (Any (λ range. InRange range addr) ranges)
unfolding any_range
any_range_lem addr [] h f = (false, refl, ground arith)
any_range_lem addr (range ∷ rest) h f =
    Decides-or (InRange range addr) (Any (λ range. InRange range addr) rest) (contains range addr)
      (any_range addr rest) (contains_lem range addr f.0 h) (any_range_lem addr rest h f.1)

any_range_of_lem :
    (o : Option IpAddr) (ranges : List IpRange)
    → ((addr : IpAddr) → o ≡ some addr → IsAddress addr)
    → All IsValidRange ranges
    → Decides
        (any_range_of o ranges)
        ((addr : IpAddr) × (o ≡ some addr) × Any (λ range. InRange range addr) ranges)
unfolding any_range_of
any_range_of_lem none ranges h f = (false, refl, ((λ e. ground arith), λ g. ground arith))
any_range_of_lem (some addr) ranges h f =
    let (b, e, i) = any_range_lem addr ranges (h addr refl) f in
    (
      b,
      e,
      (
        (λ t. (addr, refl, i.0 t)),
        λ g. i.1 (subst (λ a. Any (λ range. InRange range a) ranges) (sym (some_inj g.1)) g.2),
      ),
    )
  where
    some_inj : {a b : IpAddr} → some a ≡ some b → a ≡ b
    some_inj e = ground arith

module _ (to_lowercase : Text → Text) (std : Parsers) where
  -- The client's address is one of those of the ranges.
  abbrev pub FromRanges : List IpRange → Option Text → Type 0
  FromRanges ranges none = ⊥
  FromRanges ranges (some t) =
      (addr : IpAddr) × (std.parse_ip t ≡ some addr) × Any (λ range. InRange range addr) ranges

  -- What a condition asks of a request.
  abbrev pub Asks : MatchCondition → RequestContext → Type 0
  Asks (user names) context = Names names (get_header to_lowercase (codes "X-User-Id") context)
  Asks (ip ranges) context = FromRanges ranges context.client_ip
  Asks (geo names) context = Names names (get_header to_lowercase (codes "X-Country") context)
  Asks (api_version names) context =
      Names names (get_header to_lowercase (codes "X-API-Version") context)
  Asks (device names) context =
      Names names (get_header to_lowercase (codes "X-Device-Type") context)
  Asks (custom f) context = f context ≡ ok true

  -- Ranges are those that the parser accepts, and a closure answers.
  abbrev pub IsValidCondition : MatchCondition → Type 0
  IsValidCondition (ip ranges) = All IsValidRange ranges
  IsValidCondition (custom f) = (context : RequestContext) → (b : Bool) × (f context ≡ ok b)
  IsValidCondition _ = Unit {0}

  in_ranges_lem :
      (ranges : List IpRange) (client_ip : Option Text)
      → IsParser std
      → All IsValidRange ranges
      → Decides (in_ranges to_lowercase std ranges client_ip) (FromRanges ranges client_ip)
  unfolding in_ranges
  in_ranges_lem ranges none documented h = (false, refl, ground arith)
  in_ranges_lem ranges (some t) documented h =
      any_range_of_lem (std.parse_ip t) ranges (documented.ip_width t) h

  -- A valid condition answers, and with `true` exactly for the requests that it asks for; the
  -- parsers of `std` give addresses of the width of their type.
  pub evaluate_lem :
      (condition : MatchCondition) (context : RequestContext)
      → IsParser std
      → IsValidCondition condition
      → Decides (evaluate to_lowercase std condition context) (Asks condition context)
  unfolding evaluate
  evaluate_lem (user names) context documented h = (_, refl, listed_iff names _)
  evaluate_lem (ip ranges) context documented h =
      in_ranges_lem ranges context.client_ip documented h
  evaluate_lem (geo names) context documented h = (_, refl, listed_iff names _)
  evaluate_lem (api_version names) context documented h = (_, refl, listed_iff names _)
  evaluate_lem (device names) context documented h = (_, refl, listed_iff names _)
  evaluate_lem (custom f) context documented h = Decides-answer (f context) (h context)

module _ (context : RequestContext) where
  -- A condition answers on the request.
  abbrev pub Answering : ConditionEvaluator → Type 0
  Answering c = (b : Bool) × (c context ≡ ok b)

  abbrev pub Met : ConditionEvaluator → Type 0
  Met c = c context ≡ ok true

  all_of_lem :
      (cs : List ConditionEvaluator) → All Answering cs → Decides (all_of context cs) (All Met cs)
  unfolding all_of
  all_of_lem [] h = (true, refl, ground arith)
  all_of_lem (c ∷ rest) h =
      Decides-and (Met c) (All Met rest) (c context) (all_of context rest)
        (Decides-answer (c context) h.0) (all_of_lem rest h.1)

  any_of_lem :
      (cs : List ConditionEvaluator) → All Answering cs → Decides (any_of context cs) (Any Met cs)
  unfolding any_of
  any_of_lem [] h = (false, refl, ground arith)
  any_of_lem (c ∷ rest) h =
      Decides-or (Met c) (Any Met rest) (c context) (any_of context rest)
        (Decides-answer (c context) h.0) (any_of_lem rest h.1)

  -- A negation is of its first condition; without one it does not hold.
  abbrev pub FirstFails : List ConditionEvaluator → Type 0
  FirstFails [] = ⊥
  FirstFails (c ∷ rest) = c context ≡ ok false

  none_first_lem :
      (cs : List ConditionEvaluator)
      → All Answering cs
      → Decides (none_first context cs) (FirstFails cs)
  unfolding none_first
  none_first_lem [] h = (false, refl, ground arith)
  none_first_lem (c ∷ rest) h = let (b, e) = h.0 in rw e (not b, refl, ground arith)

  abbrev pub Meets : CompositeCondition → Type 0
  Meets condition = elim condition.operator [
    | and ↦ All Met condition.conditions
    | or ↦ Any Met condition.conditions
    | negation ↦ FirstFails condition.conditions
  ]

  -- A composite condition whose parts answer does answer, and with `true` exactly where all of them
  -- hold (and), one of them holds (or), or the first of them does not (not).
  pub evaluate_composite_lem :
      (condition : CompositeCondition)
      → All Answering condition.conditions
      → Decides (evaluate_composite condition context) (Meets condition)
  unfolding evaluate_composite
  evaluate_composite_lem condition h =
      elim condition.operator
        as (λ o.
          Decides
            (elim o [
              | and ↦ all_of context condition.conditions
              | or ↦ any_of context condition.conditions
              | negation ↦ none_first context condition.conditions
            ])
            (elim o [
              | and ↦ All Met condition.conditions
              | or ↦ Any Met condition.conditions
              | negation ↦ FirstFails condition.conditions
            ])) [
              | and ↦ all_of_lem condition.conditions h
              | or ↦ any_of_lem condition.conditions h
              | negation ↦ none_first_lem condition.conditions h
            ]
