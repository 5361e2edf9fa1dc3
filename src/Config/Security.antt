-- ===== src/Config/Security.antt =====
-- src/config_security.rs: the report on the security of a configuration. A check takes the report so
-- far and gives the one after it.
use limiteron.Common.{
  ℕ, suc, Bool, true, false, not, ◌&&◌, ◌||◌, List, [], ◌∷◌, ◌++◌, Option, none, some, Text,
  is_empty, has_char, len, ltb, nat_beq, if◌then◌else◌,
}
use limiteron.Errors.{Message, literal, format, Field, chars, num}
use limiteron.Config.{
  Values, GlobalConfig, OverdraftConfig, Matcher, user, ip, geo, api_version, device, custom,
  LimiterConfig, token_bucket, sliding_window, fixed_window, quota, concurrency, custom_limiter,
  Rule, FlowControlConfig,
}
use limiteron.Config.Validate.{one_of, storages, caches, metrics_kinds, debug_names, no_entries}

pub record ConfigSecurityReport : Type 0 where
  pub is_safe : Bool
  pub warnings : List Message
  pub suggestions : List Text

-- `ConfigSecurityReport::new`
abbrev pub new_report : ConfigSecurityReport
new_report = record { is_safe = true; warnings = []; suggestions = [] }

unfoldable pub add_warning : Message → ConfigSecurityReport → ConfigSecurityReport
add_warning warning report = record report {
  warnings = report.warnings ++ (warning ∷ []);
  is_safe = false;
}

unfoldable pub add_suggestion : Text → ConfigSecurityReport → ConfigSecurityReport
add_suggestion suggestion report = record report {
  suggestions = report.suggestions ++ (suggestion ∷ []);
}

unfoldable pub contains_sensitive_info : ConfigSecurityReport → Bool
contains_sensitive_info report = not (no_entries report.warnings)

abbrev pub Check : Type 0
Check = ConfigSecurityReport → ConfigSecurityReport

-- `if condition { report.add_warning(..) }`
unfoldable pub warn_if : Bool → Message → Check
unfolding add_warning
warn_if condition warning report = if condition then add_warning warning report else report

infixl 4 ◌followed◌
abbrev pub ◌followed◌ : Check → Check → Check
(f followed g) report = g (f report)

-- A loop over a list with the positions of its entries.
unfoldable pub for_each {ℓ} : {A : Type ℓ} → (ℕ → A → Check) → ℕ → List A → Check
for_each f index [] report = report
for_each f index (x ∷ rest) report = for_each f (suc index) rest (f index x report)

-- Any of some characters.
unfoldable pub has_any : List ℕ → Text → Bool
has_any [] t = false
has_any (c ∷ rest) t = has_char c t || has_any rest t

-- `<`, `>`, `|` and `&`.
abbrev pub special : List ℕ
special = 60 ∷ 62 ∷ 124 ∷ 38 ∷ []

unfoldable pub validate_version : Text → Check
unfolding warn_if has_any
validate_version version =
    warn_if (is_empty version) (literal "版本号为空，可能导致配置管理问题")
    followed warn_if (ltb 50 (len version)) (literal "版本号过长，可能影响性能")
    followed warn_if (has_any special version) (literal "版本号包含特殊字符，可能存在注入风险")

unfoldable pub validate_global_config : GlobalConfig → Check
unfolding warn_if one_of debug_names
validate_global_config global =
    warn_if (not (one_of global.storage storages))
      (format "无效的存储类型: {}，仅支持 {:?}" (chars global.storage ∷ chars (debug_names storages) ∷ []))
    followed warn_if (not (one_of global.cache caches))
        (format "无效的缓存类型: {}，仅支持 {:?}" (chars global.cache ∷ chars (debug_names caches) ∷ []))
    followed warn_if (not (one_of global.metrics metrics_kinds)) (
        format "无效的指标类型: {}，仅支持 {:?}"
          (chars global.metrics ∷ chars (debug_names metrics_kinds) ∷ []))

-- The positions of a rule and of what is checked in it, and a value.
abbrev pub at : ℕ → ℕ → List Field → List Field
at rule_index index more = num rule_index ∷ num index ∷ more

unfoldable pub validate_user_id : ℕ → ℕ → Text → Check
unfolding warn_if add_warning has_any
validate_user_id rule_index index user_id =
    if is_empty user_id
    then add_warning (format "规则[{}]匹配器[{}]的用户ID为空" (at rule_index index []))
    else (warn_if (ltb 256 (len user_id))
          (format "规则[{}]匹配器[{}]的用户ID过长: {}" (at rule_index index (chars user_id ∷ [])))
        followed warn_if (has_any special user_id)
            (format "规则[{}]匹配器[{}]的用户ID包含特殊字符: {}" (at rule_index index (chars user_id ∷ []))))

unfoldable pub validate_ip_range : ℕ → ℕ → Text → Check
unfolding warn_if add_warning has_any
validate_ip_range rule_index index ip_range =
    if is_empty ip_range
    then add_warning (format "规则[{}]匹配器[{}]的IP范围为空" (at rule_index index []))
    else (warn_if (ltb 100 (len ip_range))
          (format "规则[{}]匹配器[{}]的IP范围过长: {}" (at rule_index index (chars ip_range ∷ [])))
        followed warn_if (has_any special ip_range)
            (format "规则[{}]匹配器[{}]的IP范围包含特殊字符: {}" (at rule_index index (chars ip_range ∷ []))))

unfoldable pub validate_api_version : ℕ → ℕ → Text → Check
unfolding warn_if add_warning has_any
validate_api_version rule_index index version =
    if is_empty version
    then add_warning (format "规则[{}]匹配器[{}]的API版本为空" (at rule_index index []))
    else (warn_if (ltb 50 (len version))
          (format "规则[{}]匹配器[{}]的API版本过长: {}" (at rule_index index (chars version ∷ [])))
        followed warn_if (has_any (32 ∷ 59 ∷ 36 ∷ []) version)
            (format "规则[{}]匹配器[{}]的API版本格式可能无效: {}" (at rule_index index (chars version ∷ []))))

-- `ends_with` of a character, and of `ms`, which ends in `s`.
unfoldable pub ends_with : ℕ → Text → Bool
ends_with c [] = false
ends_with c (d ∷ []) = nat_beq c d
ends_with c (d ∷ e ∷ rest) = ends_with c (e ∷ rest)

unfoldable pub validate_window : ℕ → ℕ → Text → Check
unfolding warn_if add_warning ends_with
validate_window rule_index index window_size =
    if is_empty window_size
    then add_warning (format "规则[{}]限流器[{}]的窗口大小为空" (at rule_index index []))
    else (warn_if (ltb 50 (len window_size))
          (format "规则[{}]限流器[{}]的窗口大小格式过长: {}" (at rule_index index (chars window_size ∷ [])))
        followed warn_if
            (not (ends_with 115 window_size)
              && (not (ends_with 109 window_size) && not (ends_with 104 window_size)))
            (format "规则[{}]限流器[{}]的窗口大小格式无效: {}" (at rule_index index (chars window_size ∷ []))))

module _ (V : Values) where
  unfoldable pub validate_matcher : ℕ → ℕ → Matcher V → Check
  unfolding warn_if for_each validate_user_id validate_ip_range validate_api_version
  validate_matcher rule_index index (user user_ids) =
      for_each (λ i. validate_user_id rule_index index) 0 user_ids
  validate_matcher rule_index index (ip ip_ranges) =
      for_each (λ i. validate_ip_range rule_index index) 0 ip_ranges
  validate_matcher rule_index index (geo countries) =
      warn_if (no_entries countries) (format "规则[{}]匹配器[{}]的国家列表为空" (at rule_index index []))
  validate_matcher rule_index index (api_version versions) =
      for_each (λ i. validate_api_version rule_index index) 0 versions
  validate_matcher rule_index index (device device_types) =
      warn_if (no_entries device_types) (format "规则[{}]匹配器[{}]的设备类型列表为空" (at rule_index index []))
  validate_matcher rule_index index (custom name config) =
      warn_if (is_empty name) (format "规则[{}]匹配器[{}]的自定义匹配器名称为空" (at rule_index index []))

  unfoldable pub validate_overdraft : ℕ → ℕ → ℕ → Option OverdraftConfig → Check
  unfolding warn_if
  validate_overdraft rule_index index limit none report = report
  validate_overdraft rule_index index limit (some overdraft) report =
      warn_if (ltb limit overdraft.max_overdraft)
        (format "规则[{}]限流器[{}]的透支配额({})超过配额限制({})"
          (at rule_index index (num overdraft.max_overdraft ∷ num limit ∷ [])))
        report

  unfoldable pub validate_limiter : ℕ → ℕ → LimiterConfig V → Check
  unfolding warn_if validate_window validate_overdraft
  validate_limiter rule_index index (token_bucket capacity refill_rate) =
      warn_if (nat_beq capacity 0) (format "规则[{}]限流器[{}]的令牌桶容量为0" (at rule_index index []))
      followed warn_if (ltb 1000000 capacity)
          (format "规则[{}]限流器[{}]的令牌桶容量过大: {}" (at rule_index index (num capacity ∷ [])))
      followed warn_if (nat_beq refill_rate 0)
          (format "规则[{}]限流器[{}]的填充速率为0" (at rule_index index []))
      followed warn_if (ltb 1000000 refill_rate)
          (format "规则[{}]限流器[{}]的填充速率过大: {}" (at rule_index index (num refill_rate ∷ [])))
  validate_limiter rule_index index (sliding_window window_size max_requests) =
      validate_window rule_index index window_size
      followed warn_if (nat_beq max_requests 0)
          (format "规则[{}]限流器[{}]的最大请求数为0" (at rule_index index []))
      followed warn_if (ltb 1000000 max_requests)
          (format "规则[{}]限流器[{}]的最大请求数过大: {}" (at rule_index index (num max_requests ∷ [])))
  validate_limiter rule_index index (fixed_window window_size max_requests) =
      validate_window rule_index index window_size
      followed warn_if (nat_beq max_requests 0)
          (format "规则[{}]限流器[{}]的最大请求数为0" (at rule_index index []))
  validate_limiter rule_index index (quota quota_type limit window overdraft) =
      warn_if (is_empty quota_type) (format "规则[{}]限流器[{}]的配额类型为空" (at rule_index index []))
      followed warn_if (nat_beq limit 0) (format "规则[{}]限流器[{}]的配额限制为0" (at rule_index index []))
      followed warn_if (ltb 1000000000 limit)
          (format "规则[{}]限流器[{}]的配额限制过大: {}" (at rule_index index (num limit ∷ [])))
      followed validate_overdraft rule_index index limit overdraft
      followed validate_window rule_index index window
  validate_limiter rule_index index (concurrency max_concurrent) =
      warn_if (nat_beq max_concurrent 0) (format "规则[{}]限流器[{}]的最大并发数为0" (at rule_index index []))
      followed warn_if (ltb 100000 max_concurrent)
          (format "规则[{}]限流器[{}]的最大并发数过大: {}" (at rule_index index (num max_concurrent ∷ [])))
  validate_limiter rule_index index (custom_limiter name config) =
      warn_if (is_empty name) (format "规则[{}]限流器[{}]的自定义限流器名称为空" (at rule_index index []))

  unfoldable pub validate_rule : ℕ → Rule V → Check
  unfolding warn_if add_warning has_any for_each validate_matcher validate_limiter
  validate_rule index rule =
      (if is_empty rule.id
        then add_warning (format "规则[{}]的ID为空" (num index ∷ []))
        else warn_if (ltb 100 (len rule.id)) (format "规则[{}]的ID过长，可能影响性能" (num index ∷ [])))
      followed warn_if (has_any (60 ∷ 62 ∷ 124 ∷ 38 ∷ 39 ∷ 34 ∷ []) rule.id)
          (format "规则[{}]的ID包含特殊字符，可能存在注入风险: {}" (num index ∷ chars rule.id ∷ []))
      followed warn_if (is_empty rule.name) (format "规则[{}]的名称为空" (num index ∷ []))
      followed warn_if (ltb 10000 rule.priority)
          (format "规则[{}]的优先级过高({})，可能导致其他规则被忽略" (num index ∷ num rule.priority ∷ []))
      followed for_each (validate_matcher index) 0 rule.matchers
      followed for_each (validate_limiter index) 0 rule.limiters

  unfoldable pub validate_config : FlowControlConfig V → ConfigSecurityReport
  unfolding validate_version validate_global_config for_each validate_rule
  validate_config config =
      (validate_version config.version
          followed validate_global_config config.global
          followed for_each validate_rule 0 config.rules)
        new_report
