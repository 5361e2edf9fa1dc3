-- ===== src/Matchers/Extractors/Sources.antt =====
-- src/matchers/mod.rs: where an identifier comes from.
use limiteron.Common.{
  ℕ, true, false, List, [], ◌∷◌, ◌++◌, Option, none, some, Text, Text_key, is_empty, nat_beq,
  nat_beq_iff, if◌then◌else◌, split, trim, has_char, ◌≡◌, refl, arith, Bool-cases, Option-cases,
  inl, inr, ◌⊎◌, All,
}
use limiteron.Matchers.IpRanges.{Parsers}
use limiteron.Matchers.Context.{RequestContext, get_header}
use limiteron.Matchers.Extractors.{
  Identifier, user_id, ip, mac, api_key, device_id, as_str, type_name, key, Extractor, IpExtractor,
  or_else, bind, when, parts_of, is_ip, leftmost, parse_ip, from_headers, extract_ip,
  CompositeExtractor, extract_composite, first_of,
}

-- Identifiers with one key are one identifier: keys of two kinds never meet.
pub key-injective : (a b : Identifier) → key a ≡ key b → a ≡ b
unfolding key as_str type_name
key-injective (user_id s) (user_id t) e = ground arith
key-injective (ip s) (ip t) e = ground arith
key-injective (mac s) (mac t) e = ground arith
key-injective (api_key s) (api_key t) e = ground arith
key-injective (device_id s) (device_id t) e = ground arith
key-injective _ _ e = absurd (ground arith)

-- A text without the separator, and the separator after it.
split-first :
    (sep : ℕ) (first rest : Text)
    → has_char sep first ≡ false
    → split sep (first ++ (sep ∷ rest)) ≡ first ∷ split sep rest
unfolding split has_char
split-first sep [] rest h =
    let e : nat_beq sep sep ≡ true = ground (arith, nat_beq_iff sep sep) in rw e refl
split-first sep (c ∷ first) rest h =
    let e : nat_beq c sep ≡ false = ground arith in
    let ih = split-first sep first rest (ground arith) in rw (e, ih) refl

module _ (to_lowercase : Text → Text) (std : Parsers) where
  -- An identifier that is an address.
  abbrev pub IsAddressOf : Option Identifier → Type 0
  IsAddressOf none = Unit {0}
  IsAddressOf (some identifier) =
      (t : Text) × (identifier ≡ ip t) × (is_ip to_lowercase std t ≡ true)

  abbrev as_ip : Option Text → Option Identifier
  as_ip o = bind o (λ t. some (ip t))

  leftmost-parsed : (parts : List Text) → IsAddressOf (as_ip (leftmost to_lowercase std true parts))
  unfolding leftmost
  leftmost-parsed [] = tt
  leftmost-parsed (first ∷ rest) = elim (Bool-cases (is_ip to_lowercase std first)) [
    | inl e ↦ rw e (first, refl, e)
    | inr e ↦ rw e tt
  ]

  parse_ip-parsed :
      (extractor : IpExtractor) (value : Text)
      → extractor.validate ≡ true
      → IsAddressOf (as_ip (parse_ip to_lowercase std extractor value))
  unfolding parse_ip
  parse_ip-parsed extractor value h = rw h (leftmost-parsed (parts_of (split 44 value)))

  or_else-address :
      (a b : Option Identifier) → IsAddressOf a → IsAddressOf b → IsAddressOf (or_else a b)
  or_else-address none b h f = f
  or_else-address (some a) b h f = h

  bind-address :
      (o : Option Text) (f : Text → Option Identifier)
      → ((v : Text) → IsAddressOf (f v))
      → IsAddressOf (bind o f)
  bind-address none f h = tt
  bind-address (some v) f h = h v

  from_headers-parsed :
      (extractor : IpExtractor) (names : List Text) (context : RequestContext)
      → extractor.validate ≡ true
      → IsAddressOf (from_headers to_lowercase std extractor names context)
  unfolding from_headers
  from_headers-parsed extractor [] context h = tt
  from_headers-parsed extractor (name ∷ rest) context h =
      or_else-address _ _
        (bind-address (get_header to_lowercase name context) _ (λ v. parse_ip-parsed extractor v h))
        (from_headers-parsed extractor rest context h)

  -- An address that an extractor with validation answers with is one that parses.
  pub extract_ip-IsAddressOf :
      (extractor : IpExtractor) (context : RequestContext)
      → extractor.validate ≡ true
      → IsAddressOf (extract_ip to_lowercase std extractor context)
  unfolding extract_ip
  extract_ip-IsAddressOf extractor context h =
      or_else-address _ _ (from_headers-parsed extractor extractor.header_names context h)
        (bind-address context.client_ip _ (λ v. parse_ip-parsed extractor v h))

  -- Whatever address stands first in the first header that the extractor reads is the identifier, also
  -- with the addresses of proxies behind it; the address has no comma and no space around it, and it
  -- parses. A client that sends the header chooses its identifier.
  pub extract_ip-leftmost :
      (extractor : IpExtractor) (names : List Text) (context : RequestContext)
      (name client proxies : Text)
      → extractor.header_names ≡ name ∷ names
      → get_header to_lowercase name context ≡ some (client ++ (44 ∷ proxies))
      → has_char 44 client ≡ false
      → trim client ≡ client
      → is_empty client ≡ false
      → is_ip to_lowercase std client ≡ true
      → extract_ip to_lowercase std extractor context ≡ some (ip client)
  unfolding extract_ip from_headers parse_ip leftmost parts_of
  extract_ip-leftmost extractor names context name client proxies e f no_comma no_space filled
        parses =
      let parts = split-first 44 client proxies no_comma in
      elim (Bool-cases extractor.validate) [
        | inl v ↦ rw (e, f, parts, no_space, filled, parses, v) refl
        | inr v ↦ rw (e, f, parts, no_space, filled, parses, v) refl
      ]

  abbrev pub FoundBy : List Extractor → RequestContext → Identifier → Type 0
  FoundBy [] context identifier = ⊥
  FoundBy (extract ∷ rest) context identifier =
      (extract context ≡ some identifier)
      ⊎ ((extract context ≡ none) × FoundBy rest context identifier)

  abbrev pub FallsBack : CompositeExtractor → RequestContext → Identifier → Type 0
  FallsBack extractor context identifier =
      All (λ extract. extract context ≡ none) extractor.extractors
      × (extractor.fallback_to_default ≡ true)
      × ((t : Text) × (context.client_ip ≡ some t)
          × (is_ip to_lowercase std t ≡ true)
          × (identifier ≡ ip t))

  first_of-FoundBy :
      (extractors : List Extractor) (context : RequestContext)
      → ((identifier : Identifier)
          → first_of to_lowercase std extractors context ≡ some identifier
          → FoundBy extractors context identifier)
        × (first_of to_lowercase std extractors context ≡ none
            → All (λ extract. extract context ≡ none) extractors)
  unfolding first_of
  first_of-FoundBy [] context = ((λ identifier e. ground arith), λ e. tt)
  first_of-FoundBy (extract ∷ rest) context =
      let ih = first_of-FoundBy rest context in
      elim (Option-cases (extract context)) [
        | inl e ↦ (
          (λ identifier f. inr (e, ih.0 identifier (ground arith))),
          λ f. (e, ih.1 (ground arith)),
        )
        | inr (found, e) ↦ ((λ identifier f. inl (ground arith)), λ f. absurd (ground arith))
      ]

  -- A composite extractor answers with what the first of its extractors that finds anything found;
  -- when none does and the fallback is on, with the client's address if that parses.
  pub extract_composite_lem :
      (extractor : CompositeExtractor) (context : RequestContext) (identifier : Identifier)
      → extract_composite to_lowercase std extractor context ≡ some identifier
      → FoundBy extractor.extractors context identifier ⊎ FallsBack extractor context identifier
  unfolding extract_composite
  extract_composite_lem extractor context identifier e =
      let first = first_of-FoundBy extractor.extractors context in
      elim (Option-cases (first_of to_lowercase std extractor.extractors context)) [
        | inr (found, f) ↦ inl (first.0 identifier (ground arith))
        | inl f ↦ let (on, back) = fallback (ground arith) in inr (first.1 f, on, back)
      ]
    where
      fallback :
          (if extractor.fallback_to_default
              then bind context.client_ip (λ t. when (is_ip to_lowercase std t) (ip t))
              else none)
            ≡ some identifier
          → (extractor.fallback_to_default ≡ true)
            × ((t : Text) × (context.client_ip ≡ some t)
                × (is_ip to_lowercase std t ≡ true)
                × (identifier ≡ ip t))
      fallback h = elim (Option-cases context.client_ip) [
        | inl f ↦ absurd (ground arith)
        | inr (t, f) ↦ elim (Bool-cases (is_ip to_lowercase std t)) [
          | inl g ↦ (ground arith, (t, f, g, ground arith))
          | inr g ↦ absurd (ground arith)
        ]
      ]
