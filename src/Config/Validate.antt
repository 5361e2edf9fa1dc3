-- ===== src/Config/Validate.antt =====
-- src/config.rs: `validate` of each part of the configuration.
use limiteron.Common.{
  ℕ, suc, Bool, true, false, not, ◌&&◌, List, [], ◌∷◌, ◌++◌, Option, none, some, Text, Text_key,
  ◌==◌, codes, is_empty, nat_beq, if◌then◌else◌, to_decimal,
}
use limiteron.Config.{
  Values, GlobalConfig, OverdraftConfig, Matcher, user, ip, geo, api_version, device, custom,
  LimiterConfig, token_bucket, sliding_window, fixed_window, quota, concurrency, custom_limiter,
  BanConfig, ActionConfig, Rule, FlowControlConfig,
}

-- `Result<(), String>`
pub data Verdict : Type 0 where
  valid : Verdict
  invalid : Text → Verdict

-- `?`, and `map_err` before it.
infixl 5 ◌andthen◌
abbrev pub ◌andthen◌ : Verdict → Verdict → Verdict
valid andthen next = next
invalid e andthen next = invalid e

abbrev pub map_err : (Text → Text) → Verdict → Verdict
map_err f valid = valid
map_err f (invalid e) = invalid (f e)

abbrev pub unless : Bool → Text → Verdict
unless true e = invalid e
unless false e = valid

unfoldable pub one_of : Text → List Text → Bool
one_of name [] = false
one_of name (n ∷ rest) = let later = one_of name rest in if n == name then true else later

abbrev pub storages : List Text
storages = codes "memory" ∷ codes "redis" ∷ codes "postgresql" ∷ []

abbrev pub caches : List Text
caches = codes "memory" ∷ codes "redis" ∷ []

abbrev pub metrics_kinds : List Text
metrics_kinds = codes "prometheus" ∷ codes "opentelemetry" ∷ []

abbrev pub actions : List Text
actions = codes "reject" ∷ codes "allow" ∷ codes "degrade" ∷ []

abbrev pub scopes : List Text
scopes = codes "ip" ∷ codes "user" ∷ codes "mac" ∷ []

-- `{:?}` of a list of names without characters to escape.
unfoldable pub debug_rest : List Text → Text
debug_rest [] = codes "]"
debug_rest (n ∷ rest) = codes ", \"" ++ (n ++ (codes "\"" ++ debug_rest rest))

unfoldable pub debug_names : List Text → Text
unfolding debug_rest
debug_names [] = codes "[]"
debug_names (n ∷ rest) = codes "[\"" ++ (n ++ (codes "\"" ++ debug_rest rest))

unfoldable pub not_among : Text → Text → List Text → Verdict
unfolding one_of debug_names
not_among what name allowed =
    unless (not (one_of name allowed)) (what ++ (name ++ (codes ", 有效值: " ++ debug_names allowed)))

unfoldable pub validate_global : GlobalConfig → Verdict
unfolding not_among
validate_global global =
    not_among (codes "无效的存储类型: ") global.storage storages
    andthen not_among (codes "无效的缓存类型: ") global.cache caches
    andthen not_among (codes "无效的指标类型: ") global.metrics metrics_kinds

unfoldable pub validate_window_size : Text → Verdict
validate_window_size window_size = unless (is_empty window_size) (codes "窗口大小不能为空")

unfoldable pub validate_overdraft : OverdraftConfig → Verdict
validate_overdraft overdraft =
    unless (overdraft.enabled && nat_beq overdraft.max_overdraft 0) (codes "透支启用时，最大透支量不能为0")

abbrev pub maybe {ℓ} : {A : Type ℓ} → (A → Verdict) → Option A → Verdict
maybe f none = valid
maybe f (some a) = f a

-- `is_empty` of a list.
abbrev pub no_entries {ℓ} : {A : Type ℓ} → List A → Bool
no_entries [] = true
no_entries (x ∷ rest) = false

-- A loop over a list with the positions of its entries.
unfoldable pub each {ℓ} : {A : Type ℓ} → (ℕ → A → Verdict) → ℕ → List A → Verdict
each f index [] = valid
each f index (x ∷ rest) = let later = each f (suc index) rest in f index x andthen later

module _ (V : Values) where
  unfoldable pub validate_matcher : Matcher V → Verdict
  validate_matcher (user user_ids) = unless (no_entries user_ids) (codes "用户ID列表不能为空")
  validate_matcher (ip ip_ranges) = unless (no_entries ip_ranges) (codes "IP范围列表不能为空")
  validate_matcher (geo countries) = unless (no_entries countries) (codes "国家列表不能为空")
  validate_matcher (api_version versions) = unless (no_entries versions) (codes "API版本列表不能为空")
  validate_matcher (device device_types) = unless (no_entries device_types) (codes "设备类型列表不能为空")
  validate_matcher (custom name config) =
      unless (is_empty name) (codes "自定义匹配器名称不能为空")
      andthen unless (V.is_null config) (codes "自定义匹配器配置不能为空")

  unfoldable pub validate_limiter : LimiterConfig V → Verdict
  unfolding validate_window_size validate_overdraft
  validate_limiter (token_bucket capacity refill_rate) =
      unless (nat_beq capacity 0) (codes "令牌桶容量不能为0")
      andthen unless (nat_beq refill_rate 0) (codes "填充速率不能为0")
  validate_limiter (sliding_window window_size max_requests) =
      unless (nat_beq max_requests 0) (codes "最大请求数不能为0") andthen validate_window_size window_size
  validate_limiter (fixed_window window_size max_requests) =
      unless (nat_beq max_requests 0) (codes "最大请求数不能为0") andthen validate_window_size window_size
  validate_limiter (quota quota_type limit window overdraft) =
      unless (is_empty quota_type) (codes "配额类型不能为空")
      andthen unless (nat_beq limit 0) (codes "配额限制不能为0")
      andthen validate_window_size window
      andthen maybe validate_overdraft overdraft
  validate_limiter (concurrency max_concurrent) =
      unless (nat_beq max_concurrent 0) (codes "最大并发数不能为0")
  validate_limiter (custom_limiter name config) =
      unless (is_empty name) (codes "自定义限流器名称不能为空")
      andthen unless (V.is_null config) (codes "自定义限流器配置不能为空")

  unfoldable pub validate_ban : BanConfig V → Verdict
  unfolding not_among
  validate_ban ban =
      unless (nat_beq ban.threshold 0) (codes "封禁阈值不能为0")
      andthen unless (V.not_positive ban.backoff_multiplier) (codes "退避倍数必须大于0")
      andthen not_among (codes "无效的封禁范围: ") ban.scope scopes

  unfoldable pub validate_action : ActionConfig V → Verdict
  unfolding not_among validate_ban
  validate_action action =
      not_among (codes "无效的动作: ") action.on_exceed actions andthen maybe validate_ban action.ban

  abbrev pub labelled : Text → ℕ → Text → Text
  labelled what index e = what ++ (codes "[" ++ (to_decimal index ++ (codes "]: " ++ e)))

  unfoldable pub validate_rule : Rule V → Verdict
  unfolding each validate_matcher validate_limiter validate_action
  validate_rule rule =
      unless (is_empty rule.id) (codes "规则ID不能为空")
      andthen unless (is_empty rule.name) (codes "规则名称不能为空")
      andthen unless (no_entries rule.matchers) (codes "规则至少需要一个匹配器")
      andthen unless (no_entries rule.limiters) (codes "规则至少需要一个限流器")
      andthen each (λ i m. map_err (labelled (codes "匹配器") i) (validate_matcher m)) 0 rule.matchers
      andthen each (λ i l. map_err (labelled (codes "限流器") i) (validate_limiter l)) 0 rule.limiters
      andthen validate_action rule.action

  abbrev pub rule_failed : ℕ → Text → Text
  rule_failed index e = codes "规则[" ++ (to_decimal index ++ (codes "]校验失败: " ++ e))

  -- The loop over the rules; `rule_ids` are the identifiers so far.
  unfoldable pub validate_rules : ℕ → List Text → List (Rule V) → Verdict
  unfolding one_of validate_rule
  validate_rules index rule_ids [] = valid
  validate_rules index rule_ids (rule ∷ rest) =
      let later = validate_rules (suc index) (rule.id ∷ rule_ids) rest in
      unless (one_of rule.id rule_ids) (codes "规则ID重复: " ++ rule.id)
      andthen map_err (rule_failed index) (validate_rule rule)
      andthen later

  unfoldable pub validate : FlowControlConfig V → Verdict
  unfolding validate_global validate_rules
  validate config =
      unless (is_empty config.version) (codes "版本号不能为空")
      andthen validate_global config.global
      andthen validate_rules 0 [] config.rules
      andthen unless (no_entries config.rules) (codes "至少需要一个规则")
