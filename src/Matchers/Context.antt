-- ===== src/Matchers/Context.antt =====
-- src/matchers/mod.rs: the request that conditions and extractors look at. Hash maps are association
-- lists; `str::to_lowercase`, which the tables of Unicode define, is a parameter.
use limiteron.Common.{
  List, [], Option, none, some, Text, Text_key, lookup, insert, lookup-insert_self,
  lookup-insert_ne, ◌≡◌, ◌≢◌, ap, ◌∙◌,
}

pub record RequestContext : Type 0 where
  pub user_id : Option Text
  pub ip : Option Text
  pub mac : Option Text
  pub device_id : Option Text
  pub api_key : Option Text
  pub headers : List (Text × Text)
  pub path : Text
  pub method : Text
  pub client_ip : Option Text
  pub query_params : List (Text × Text)

-- `RequestContext::new`
abbrev pub new_context : RequestContext
new_context = record {
  user_id = none;
  ip = none;
  mac = none;
  device_id = none;
  api_key = none;
  headers = [];
  path = [];
  method = [];
  client_ip = none;
  query_params = [];
}

unfoldable pub with_client_ip : Text → RequestContext → RequestContext
with_client_ip ip context = record context { client_ip = some ip }

unfoldable pub with_query_param : Text → Text → RequestContext → RequestContext
unfolding insert
with_query_param key value context = record context {
  query_params = insert key value context.query_params;
}

unfoldable pub with_path : Text → RequestContext → RequestContext
with_path path context = record context { path = path }

module _ (to_lowercase : Text → Text) where
  unfoldable pub with_header : Text → Text → RequestContext → RequestContext
  unfolding insert
  with_header key value context = record context {
    headers = insert (to_lowercase key) value context.headers;
  }

  unfoldable pub get_header : Text → RequestContext → Option Text
  unfolding lookup
  get_header key context = lookup (to_lowercase key) context.headers

  -- A header that was added is found under every name that differs in case only, and the headers of
  -- other names are as they were.
  pub get_header-with_header :
      (key other value : Text) (context : RequestContext)
      → (to_lowercase other ≡ to_lowercase key
          → get_header other (with_header key value context) ≡ some value)
        × (to_lowercase other ≢ to_lowercase key
            → get_header other (with_header key value context) ≡ get_header other context)
  unfolding get_header with_header
  get_header-with_header key other value context = (
    λ e.
        ap (λ (k : Text). lookup k (insert (to_lowercase key) value context.headers)) e
        ∙ lookup-insert_self (to_lowercase key) value context.headers,
    λ d. lookup-insert_ne (to_lowercase key) (to_lowercase other) value context.headers d,
  )
