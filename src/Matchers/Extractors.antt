-- ===== src/Matchers/Extractors.antt =====
-- src/matchers/mod.rs: identifiers and the extractors that find one in a request. A boxed extractor
-- is its `extract`. `clean_key` and the checks of an address and a MAC work on code points.
pub mod Sources
use limiteron.Common.{
  ℕ, Bool, true, false, not, ◌&&◌, ◌||◌, List, [], ◌∷◌, ◌++◌, Option, none, some, Text, Text_key,
  lookup, codes, len, is_empty, nat_beq, if◌then◌else◌, all_hexdigits, split, trim, strip_prefix,
}
use limiteron.Matchers.IpRanges.{Parsers}
use limiteron.Matchers.Context.{RequestContext, get_header}

pub data Identifier : Type 0 where
  user_id ip mac api_key device_id : Text → Identifier

unfoldable pub as_str : Identifier → Text
as_str (user_id s) = s
as_str (ip s) = s
as_str (mac s) = s
as_str (api_key s) = s
as_str (device_id s) = s

unfoldable pub type_name : Identifier → Text
type_name (user_id s) = codes "user_id"
type_name (ip s) = codes "ip"
type_name (mac s) = codes "mac"
type_name (api_key s) = codes "api_key"
type_name (device_id s) = codes "device_id"

unfoldable pub key : Identifier → Text
unfolding as_str type_name
key identifier = type_name identifier ++ (58 ∷ as_str identifier)

abbrev pub Extractor : Type 0
Extractor = RequestContext → Option Identifier

pub record UserIdExtractor : Type 0 where
  pub header_name : Option Text
  pub query_param_name : Option Text
  pub default_user_id : Option Text

pub record IpExtractor : Type 0 where
  pub header_names : List Text
  pub validate : Bool

pub record MacExtractor : Type 0 where
  pub header_name : Option Text
  pub query_param_name : Option Text
  pub validate : Bool

pub record ApiKeyExtractor : Type 0 where
  pub header_name : Option Text
  pub query_param_name : Option Text
  pub prefix : Option Text

pub record DeviceIdExtractor : Type 0 where
  pub header_name : Option Text
  pub query_param_name : Option Text

pub record CompositeExtractor : Type 0 where
  pub extractors : List Extractor
  pub fallback_to_default : Bool

abbrev pub from_authorization_header : ApiKeyExtractor
from_authorization_header = record {
  header_name = some (codes "Authorization");
  query_param_name = none;
  prefix = some (codes "Bearer ");
}

-- `if let Some(_) = first { return it }` and what comes after.
abbrev pub or_else {ℓ} : {A : Type ℓ} → Option A → Option A → Option A
or_else none next = next
or_else (some a) next = some a

abbrev pub bind {ℓ κ} : {A : Type ℓ} {B : Type κ} → Option A → (A → Option B) → Option B
bind none f = none
bind (some a) f = f a

abbrev pub when {ℓ} : {A : Type ℓ} → Bool → A → Option A
when true a = some a
when false a = none

-- A value that is not empty.
abbrev pub filled : (Text → Identifier) → Text → Option Identifier
filled make value = when (not (is_empty value)) (make value)

-- The separators of a MAC address taken out.
unfoldable pub without_separators : Text → Text
without_separators [] = []
without_separators (c ∷ rest) =
    let later = without_separators rest in
    if nat_beq c 58 || (nat_beq c 45 || nat_beq c 46) then later else c ∷ later

unfoldable pub validate_mac : MacExtractor → Text → Bool
unfolding without_separators
validate_mac extractor value =
    if not extractor.validate
    then true
    else (if not (nat_beq (len (without_separators value)) 12)
        then false
        else all_hexdigits (without_separators value))

unfoldable pub clean_key : ApiKeyExtractor → Text → Option Text
clean_key extractor value =
    bind (elim extractor.prefix [ some prefix ↦ strip_prefix prefix value | none ↦ some value ])
      (λ k. when (not (is_empty (trim k))) (trim k))

-- The parts of a list of addresses: trimmed, without the empty ones.
unfoldable pub parts_of : List Text → List Text
parts_of [] = []
parts_of (part ∷ rest) =
    let later = parts_of rest in
    let trimmed = trim part in if is_empty trimmed then later else trimmed ∷ later

module _ (to_lowercase : Text → Text) (std : Parsers) where
  abbrev pub is_ip : Text → Bool
  is_ip t = elim (std.parse_ip t) [ some addr ↦ true | none ↦ false ]

  -- `IpExtractor::parse_ip`: the leftmost address, also of a single one.
  unfoldable pub leftmost : Bool → List Text → Option Text
  leftmost validate [] = none
  leftmost validate (first ∷ rest) = if validate && not (is_ip first) then none else some first

  unfoldable pub parse_ip : IpExtractor → Text → Option Text
  unfolding leftmost parts_of
  parse_ip extractor value = leftmost extractor.validate (parts_of (split 44 value))

  abbrev pub header : Option Text → RequestContext → Option Text
  header name context = bind name (λ n. get_header to_lowercase n context)

  abbrev pub query_param : Option Text → RequestContext → Option Text
  query_param name context = bind name (λ n. lookup n context.query_params)

  unfoldable pub extract_user_id : UserIdExtractor → Extractor
  extract_user_id extractor context =
      or_else (bind (header extractor.header_name context) (filled user_id)) (
        or_else (bind (query_param extractor.query_param_name context) (filled user_id))
          (bind extractor.default_user_id (λ t. some (user_id t))))

  -- The loop over the headers.
  unfoldable pub from_headers : IpExtractor → List Text → RequestContext → Option Identifier
  unfolding parse_ip
  from_headers extractor [] context = none
  from_headers extractor (name ∷ rest) context =
      let later = from_headers extractor rest context in
      or_else
        (bind (get_header to_lowercase name context)
          (λ v. bind (parse_ip extractor v) (λ t. some (ip t))))
        later

  unfoldable pub extract_ip : IpExtractor → Extractor
  unfolding from_headers parse_ip
  extract_ip extractor context =
      or_else (from_headers extractor extractor.header_names context)
        (bind context.client_ip (λ v. bind (parse_ip extractor v) (λ t. some (ip t))))

  abbrev pub valid_mac : MacExtractor → Text → Option Identifier
  valid_mac extractor value =
      when (not (is_empty value) && validate_mac extractor value) (mac value)

  unfoldable pub extract_mac : MacExtractor → Extractor
  unfolding validate_mac
  extract_mac extractor context =
      or_else (bind (header extractor.header_name context) (valid_mac extractor))
        (bind (query_param extractor.query_param_name context) (valid_mac extractor))

  unfoldable pub extract_api_key : ApiKeyExtractor → Extractor
  unfolding clean_key
  extract_api_key extractor context =
      bind (header extractor.header_name context)
        (λ v. bind (clean_key extractor v) (λ k. some (api_key k)))

  unfoldable pub extract_device_id : DeviceIdExtractor → Extractor
  extract_device_id extractor context =
      or_else (bind (header extractor.header_name context) (filled device_id))
        (bind (query_param extractor.query_param_name context) (filled device_id))

  unfoldable pub first_of : List Extractor → Extractor
  first_of [] context = none
  first_of (extract ∷ rest) context =
      let later = first_of rest context in or_else (extract context) later

  unfoldable pub extract_composite : CompositeExtractor → Extractor
  unfolding first_of
  extract_composite extractor context = or_else (first_of extractor.extractors context) (
      if extractor.fallback_to_default
      then bind context.client_ip (λ t. when (is_ip t) (ip t))
      else none)
