-- ===== src/Config/Valid.antt =====
-- src/config.rs: the configurations that `validate` accepts.
use limiteron.Common.{
  ℕ, suc, ◌≤◌, Bool, true, false, not, List, [], ◌∷◌, ◌++◌, Option, none, some, Text, Text_key,
  text_beq_iff, is_empty, codes, ◌≡◌, ◌≢◌, ◌↔◌, All, Any, arith, inl, inr, Bool-cases, sym,
}
use limiteron.Config.{
  Values, GlobalConfig, OverdraftConfig, Matcher, user, ip, geo, api_version, device, custom,
  LimiterConfig, token_bucket, sliding_window, fixed_window, quota, concurrency, custom_limiter,
  BanConfig, ActionConfig, Rule, FlowControlConfig,
}
use limiteron.Config.Validate.{
  Verdict, valid, invalid, ◌andthen◌, map_err, unless, one_of, storages, caches, metrics_kinds,
  actions, scopes, not_among, validate_global, validate_window_size, validate_overdraft, maybe,
  no_entries, each, validate_matcher, validate_limiter, validate_ban, validate_action, labelled,
  validate_rule, rule_failed, validate_rules, validate,
}

abbrev pub Among : Text → List Text → Type 0
Among name allowed = Any (λ n. n ≡ name) allowed

one_of_iff : (name : Text) (allowed : List Text) → (one_of name allowed ≡ true) ↔ Among name allowed
unfolding one_of
one_of_iff name [] = ground arith
one_of_iff name (n ∷ rest) = ground (arith, one_of_iff name rest, text_beq_iff n name)

andthen_iff : (a b : Verdict) → ((a andthen b) ≡ valid) ↔ ((a ≡ valid) × (b ≡ valid))
andthen_iff valid b = ground arith
andthen_iff (invalid e) b = ground arith

unless_iff : (b : Bool) (e : Text) → (unless b e ≡ valid) ↔ (b ≡ false)
unless_iff true e = ground arith
unless_iff false e = ground arith

map_err_iff : (f : Text → Text) (v : Verdict) → (map_err f v ≡ valid) ↔ (v ≡ valid)
map_err_iff f valid = ground arith
map_err_iff f (invalid e) = ground arith

not_among_iff :
    (what name : Text) (allowed : List Text)
    → (not_among what name allowed ≡ valid) ↔ Among name allowed
unfolding not_among
not_among_iff what name allowed =
    ground (arith, one_of_iff name allowed, unless_iff (not (one_of name allowed)) _)

each_iff :
    {A : Type 0} (P : A → Type 0) (f : ℕ → A → Verdict)
    → ((i : ℕ) (x : A) → (f i x ≡ valid) ↔ P x)
    → (i : ℕ) (xs : List A) → (each f i xs ≡ valid) ↔ All P xs
unfolding each
each_iff P f h i [] = ground arith
each_iff P f h i (x ∷ rest) =
    ground (arith, h i x, each_iff P f h (suc i) rest, andthen_iff (f i x) (each f (suc i) rest))

abbrev pub NonEmpty {ℓ} : {A : Type ℓ} → List A → Type 0
NonEmpty [] = ⊥
NonEmpty (x ∷ rest) = Unit {0}

abbrev pub IsValidGlobal : GlobalConfig → Type 0
IsValidGlobal global =
    Among global.storage storages × Among global.cache caches × Among global.metrics metrics_kinds

abbrev pub IsValidOverdraft : Option OverdraftConfig → Type 0
IsValidOverdraft none = Unit {0}
IsValidOverdraft (some overdraft) = overdraft.enabled ≡ true → 1 ≤ overdraft.max_overdraft

module _ (V : Values) where
  abbrev pub IsValidMatcher : Matcher V → Type 0
  IsValidMatcher (user user_ids) = NonEmpty user_ids
  IsValidMatcher (ip ip_ranges) = NonEmpty ip_ranges
  IsValidMatcher (geo countries) = NonEmpty countries
  IsValidMatcher (api_version versions) = NonEmpty versions
  IsValidMatcher (device device_types) = NonEmpty device_types
  IsValidMatcher (custom name config) = NonEmpty name × (V.is_null config ≡ false)

  abbrev pub IsValidLimiter : LimiterConfig V → Type 0
  IsValidLimiter (token_bucket capacity refill_rate) = (1 ≤ capacity) × (1 ≤ refill_rate)
  IsValidLimiter (sliding_window window_size max_requests) =
      (1 ≤ max_requests) × NonEmpty window_size
  IsValidLimiter (fixed_window window_size max_requests) = (1 ≤ max_requests) × NonEmpty window_size
  IsValidLimiter (quota quota_type limit window overdraft) =
      NonEmpty quota_type × (1 ≤ limit) × NonEmpty window × IsValidOverdraft overdraft
  IsValidLimiter (concurrency max_concurrent) = 1 ≤ max_concurrent
  IsValidLimiter (custom_limiter name config) = NonEmpty name × (V.is_null config ≡ false)

  validate_matcher_iff : (m : Matcher V) → (validate_matcher V m ≡ valid) ↔ IsValidMatcher m
  unfolding validate_matcher
  validate_matcher_iff (user []) = ground arith
  validate_matcher_iff (user (x ∷ rest)) = ground arith
  validate_matcher_iff (ip []) = ground arith
  validate_matcher_iff (ip (x ∷ rest)) = ground arith
  validate_matcher_iff (geo []) = ground arith
  validate_matcher_iff (geo (x ∷ rest)) = ground arith
  validate_matcher_iff (api_version []) = ground arith
  validate_matcher_iff (api_version (x ∷ rest)) = ground arith
  validate_matcher_iff (device []) = ground arith
  validate_matcher_iff (device (x ∷ rest)) = ground arith
  validate_matcher_iff (custom [] config) = ground arith
  validate_matcher_iff (custom (c ∷ name) config) = ground arith

  validate_limiter_iff : (l : LimiterConfig V) → (validate_limiter V l ≡ valid) ↔ IsValidLimiter l
  unfolding validate_limiter validate_window_size validate_overdraft
  validate_limiter_iff (token_bucket capacity refill_rate) = ground arith
  validate_limiter_iff (sliding_window window_size max_requests) = ground arith
  validate_limiter_iff (fixed_window window_size max_requests) = ground arith
  validate_limiter_iff (quota quota_type limit window overdraft) = ground arith
  validate_limiter_iff (concurrency max_concurrent) = ground arith
  validate_limiter_iff (custom_limiter name config) = ground arith

  abbrev pub IsValidBan : Option (BanConfig V) → Type 0
  IsValidBan none = Unit {0}
  IsValidBan (some ban) =
      (1 ≤ ban.threshold) × (V.not_positive ban.backoff_multiplier ≡ false) × Among ban.scope scopes

  abbrev pub IsValidRule : Rule V → Type 0
  IsValidRule rule =
      NonEmpty rule.id
      × NonEmpty rule.name
      × NonEmpty rule.matchers
      × NonEmpty rule.limiters
      × All IsValidMatcher rule.matchers
      × All IsValidLimiter rule.limiters
      × Among rule.action.on_exceed actions
      × IsValidBan rule.action.ban

  -- No two rules have one identifier.
  abbrev pub AreDistinct : List (Rule V) → Type 0
  AreDistinct [] = Unit {0}
  AreDistinct (rule ∷ rest) = All (λ (r : Rule V). r.id ≢ rule.id) rest × AreDistinct rest

  abbrev pub IsValidConfig : FlowControlConfig V → Type 0
  IsValidConfig config =
      NonEmpty config.version
      × IsValidGlobal config.global
      × All IsValidRule config.rules
      × AreDistinct config.rules
      × NonEmpty config.rules

  validate_ban_iff : (ban : BanConfig V) → (validate_ban V ban ≡ valid) ↔ IsValidBan (some ban)
  unfolding validate_ban
  validate_ban_iff ban = ground (arith, not_among_iff (codes "无效的封禁范围: ") ban.scope scopes)

  validate_action_iff :
      (action : ActionConfig V)
      → (validate_action V action ≡ valid)
        ↔ (Among action.on_exceed actions × IsValidBan action.ban)
  unfolding validate_action
  validate_action_iff action = go action.ban
    where
      go :
          (ban : Option (BanConfig V))
          → ((not_among (codes "无效的动作: ") action.on_exceed actions
                andthen maybe (validate_ban V) ban)
              ≡ valid)
            ↔ (Among action.on_exceed actions × IsValidBan ban)
      go none = ground (
        arith,
        not_among_iff (codes "无效的动作: ") action.on_exceed actions,
        andthen_iff (not_among (codes "无效的动作: ") action.on_exceed actions) valid,
      )
      go (some ban) = ground (
        arith,
        validate_ban_iff ban,
        not_among_iff (codes "无效的动作: ") action.on_exceed actions,
        andthen_iff (not_among (codes "无效的动作: ") action.on_exceed actions) (validate_ban V ban),
      )

  name_iff : (t e : Text) → (unless (is_empty t) e ≡ valid) ↔ NonEmpty t
  name_iff [] e = ground arith
  name_iff (c ∷ t) e = ground arith

  entries_iff :
      {A : Type 0} (xs : List A) (e : Text) → (unless (no_entries xs) e ≡ valid) ↔ NonEmpty xs
  entries_iff [] e = ground arith
  entries_iff (x ∷ xs) e = ground arith

  both :
      (P Q : Type 0) (a b : Verdict)
      → (a ≡ valid) ↔ P
      → (b ≡ valid) ↔ Q
      → ((a andthen b) ≡ valid) ↔ (P × Q)
  both P Q a b i j = ground (arith, andthen_iff a b)

  validate_rule_iff : (rule : Rule V) → (validate_rule V rule ≡ valid) ↔ IsValidRule rule
  unfolding validate_rule
  validate_rule_iff rule =
      let matcher =
        λ (i : ℕ) (m : Matcher V). map_err (labelled V (codes "匹配器") i) (validate_matcher V m) in
      let limiter = λ (i : ℕ) (l : LimiterConfig V).
        map_err (labelled V (codes "限流器") i) (validate_limiter V l) in
      let ms =
        each_iff IsValidMatcher matcher
          (λ i m. ground (
            arith,
            map_err_iff (labelled V (codes "匹配器") i) (validate_matcher V m),
            validate_matcher_iff m,
          ))
          0 rule.matchers in
      let ls =
        each_iff IsValidLimiter limiter
          (λ i l. ground (
            arith,
            map_err_iff (labelled V (codes "限流器") i) (validate_limiter V l),
            validate_limiter_iff l,
          ))
          0 rule.limiters in
      let i1 =
        both _ _ _ _ (name_iff rule.id (codes "规则ID不能为空"))
          (name_iff rule.name (codes "规则名称不能为空")) in
      let i2 = both _ _ _ _ i1 (entries_iff rule.matchers (codes "规则至少需要一个匹配器")) in
      let i3 = both _ _ _ _ i2 (entries_iff rule.limiters (codes "规则至少需要一个限流器")) in
      let i4 = both _ _ _ _ i3 ms in
      let i5 = both _ _ _ _ i4 ls in
      let i6 = both _ _ _ _ i5 (validate_action_iff rule.action) in
      (
        λ e. let ((((((a, b), c), d), m), l), (o, n)) = i6.0 e in (a, b, c, d, m, l, o, n),
        λ h. let (a, b, c, d, m, l, o, n) = h in i6.1 ((((((a, b), c), d), m), l), (o, n)),
      )

  abbrev Unseen : List Text → Rule V → Type 0
  Unseen rule_ids rule = ¬ Among rule.id rule_ids

  -- What is unseen after a rule was unseen before it and is another rule's.
  Unseen-after :
      (id : Text) (seen : List Text) (rules : List (Rule V))
      → All (Unseen (id ∷ seen)) rules
        ↔ (All (Unseen seen) rules × All (λ (r : Rule V). r.id ≢ id) rules)
  Unseen-after id seen [] = ground arith
  Unseen-after id seen (rule ∷ rest) =
      let ih = Unseen-after id seen rest in
      (
        λ h. (((λ a. h.0 (inr a)), (ih.0 h.1).0), ((λ e. h.0 (inl (sym e))), (ih.0 h.1).1)),
        λ h. ((λ a. elim a [ inl e ↦ h.1.0 (sym e) | inr b ↦ h.0.0 b ]), ih.1 (h.0.1, h.1.1)),
      )

  one_of-Unseen :
      (rule : Rule V) (seen : List Text) (e : Text)
      → (unless (one_of rule.id seen) e ≡ valid) ↔ Unseen seen rule
  one_of-Unseen rule seen e =
      let i = one_of_iff rule.id seen in
      let u = unless_iff (one_of rule.id seen) e in
      (
        λ h a. ground (arith, u.0 h, i.1 a),
        λ n. elim (Bool-cases (one_of rule.id seen)) [ inl t ↦ absurd (n (i.0 t)) | inr f ↦ u.1 f ],
      )

  validate_rules_iff :
      (index : ℕ) (seen : List Text) (rules : List (Rule V))
      → (validate_rules V index seen rules ≡ valid)
        ↔ (All IsValidRule rules × All (Unseen seen) rules × AreDistinct rules)
  unfolding validate_rules
  validate_rules_iff index seen [] = ground arith
  validate_rules_iff index seen (rule ∷ rest) =
      let label = rule_failed V index in
      let checked = map_err_iff label (validate_rule V rule) in
      let own = validate_rule_iff rule in
      let ih = validate_rules_iff (suc index) (rule.id ∷ seen) rest in
      let later = Unseen-after rule.id seen rest in
      let i =
        both _ _ _ _ (one_of-Unseen rule seen (codes "规则ID重复: " ++ rule.id))
          ((λ e. own.0 (checked.0 e)), λ h. checked.1 (own.1 h)) in
      let j = both _ _ _ _ i ih in
      (
        λ e.
            let ((u, r), (rs, us, d)) = j.0 e in
            let (us', ds) = later.0 us in ((r, rs), (u, us'), (ds, d)),
        λ h. let ((r, rs), (u, us), (ds, d)) = h in j.1 ((u, r), (rs, later.1 (us, ds), d)),
      )

  All-Unseen : (rules : List (Rule V)) → All (Unseen []) rules
  All-Unseen [] = tt
  All-Unseen (rule ∷ rest) = ((λ a. a), All-Unseen rest)

  validate_global_iff :
      (global : GlobalConfig) → (validate_global global ≡ valid) ↔ IsValidGlobal global
  unfolding validate_global
  validate_global_iff global =
      let i =
        both _ _ _ _
          (both _ _ _ _ (not_among_iff (codes "无效的存储类型: ") global.storage storages)
            (not_among_iff (codes "无效的缓存类型: ") global.cache caches))
          (not_among_iff (codes "无效的指标类型: ") global.metrics metrics_kinds) in
      (λ e. let ((a, b), c) = i.0 e in (a, b, c), λ h. let (a, b, c) = h in i.1 ((a, b), c))

  -- `validate` accepts exactly the configurations with a version, known kinds of storage, cache and
  -- metrics, and at least one rule, whose rules have different identifiers and are valid: named, with
  -- matchers and limiters that are valid, a known action, and a ban of a positive threshold, a
  -- multiplier that does not test as zero or less, and a known scope.
  pub validate_iff :
      (config : FlowControlConfig V) → (validate V config ≡ valid) ↔ IsValidConfig config
  unfolding validate
  validate_iff config =
      let i1 =
        both _ _ _ _ (name_iff config.version (codes "版本号不能为空"))
          (validate_global_iff config.global) in
      let i2 = both _ _ _ _ i1 (validate_rules_iff 0 [] config.rules) in
      let i = both _ _ _ _ i2 (entries_iff config.rules (codes "至少需要一个规则")) in
      (
        λ e. let (((v, g), (rs, u, d)), n) = i.0 e in (v, g, rs, d, n),
        λ h. let (v, g, rs, d, n) = h in i.1 (((v, g), (rs, All-Unseen config.rules, d)), n),
      )
