-- ===== src/Config.antt =====
-- src/config.rs: the configuration of the flow control, its validation and the history of changes.
-- `serde_json::Value` and `f64` are parameters, with the tests that the code makes of them.
pub mod Validate
pub mod Valid
pub mod History
pub mod Security
mod Tests
use limiteron.Common.{ℕ, Bool, List, [], ◌∷◌, Option, none, Text, codes}

-- The values that the code only tests.
pub record Values : Type 1 where
  pub Json : Type 0
  -- `Value::is_null`
  pub is_null : Json → Bool
  pub F64 : Type 0
  -- `x <= 0.0`
  pub not_positive : F64 → Bool

pub record GlobalConfig : Type 0 where
  pub storage : Text
  pub cache : Text
  pub metrics : Text

abbrev pub default_global : GlobalConfig
default_global = record {
  storage = codes "memory";
  cache = codes "memory";
  metrics = codes "prometheus";
}

pub record OverdraftConfig : Type 0 where
  pub enabled : Bool
  pub max_overdraft : ℕ

module _ (V : Values) where
  pub data Matcher : Type 0 where
    user : List Text → Matcher
    ip : List Text → Matcher
    geo : List Text → Matcher
    api_version : List Text → Matcher
    device : List Text → Matcher
    custom : Text → V.Json → Matcher

  pub data LimiterConfig : Type 0 where
    token_bucket : ℕ → ℕ → LimiterConfig
    sliding_window : Text → ℕ → LimiterConfig
    fixed_window : Text → ℕ → LimiterConfig
    quota : Text → ℕ → Text → Option OverdraftConfig → LimiterConfig
    concurrency : ℕ → LimiterConfig
    custom_limiter : Text → V.Json → LimiterConfig

  pub record BanConfig : Type 0 where
    pub threshold : ℕ
    pub initial_duration : Text
    pub backoff_multiplier : V.F64
    pub max_duration : Text
    pub scope : Text

  pub record ActionConfig : Type 0 where
    pub on_exceed : Text
    pub ban : Option BanConfig

  pub record Rule : Type 0 where
    pub id : Text
    pub name : Text
    pub priority : ℕ
    pub matchers : List Matcher
    pub limiters : List LimiterConfig
    pub action : ActionConfig

  pub record FlowControlConfig : Type 0 where
    pub version : Text
    pub global : GlobalConfig
    pub rules : List Rule

  abbrev pub default_action : ActionConfig
  default_action = record { on_exceed = codes "reject"; ban = none }

  abbrev pub default_config : FlowControlConfig
  default_config = record { version = codes "0.1.0"; global = default_global; rules = [] }
