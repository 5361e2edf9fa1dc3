-- ===== src/Matchers/Configured/Asked.antt =====
-- src/matchers/mod.rs: what a configured matcher asks of a request.
use mathlib.Core.Path.{subst}
use limiteron.Common.{
  false, List, [], ◌∷◌, Option, none, some, Text, codes, ◌≡◌, refl, arith, sym, ◌∙◌, ◌↔◌, Any, inl,
  inr, All,
}
use limiteron.Errors.{Result, ok, err, panic, Decides, ◌>>=◌, Ensures, Ensures-ok}
use limiteron.Config.{Values, Matcher}
use limiteron.Config as Config
use limiteron.Matchers.IpRanges.{IpAddr, IpRange, Parsers, from_str}
use limiteron.Matchers.IpRanges.Cidr.{InRange, IsValidRange}
use limiteron.Matchers.IpRanges.Parse.{IsParser}
use limiteron.Matchers.Context.{RequestContext, get_header}
use limiteron.Matchers.Conditions.{MatchCondition, user, ip, geo, api_version, device, evaluate}
use limiteron.Matchers.Conditions.Meaning.{FromRanges, Names, evaluate_lem}
use limiteron.Matchers.Configured.{parse_ranges, condition_of, parse_ranges-valid}

pub ok_inj : {A : Type 0} {a b : A} → ok a ≡ ok b → a ≡ b
ok_inj {A} {a} {b} e = Ensures-ok (λ x. a ≡ x) (ok a) b refl e

module _ (to_lowercase : Text → Text) (std : Parsers) where
  -- The address lies in the range that one of the texts stands for.
  abbrev AnyText : IpAddr → List Text → Type 0
  AnyText addr texts =
      Any (λ t. (range : IpRange) × (from_str std t ≡ ok range) × InRange range addr) texts

  abbrev FromTexts : List Text → Option Text → Type 0
  FromTexts texts none = ⊥
  FromTexts texts (some t) = (addr : IpAddr) × (std.parse_ip t ≡ some addr) × AnyText addr texts

  abbrev Same : List Text → List IpRange → Type 0
  Same texts ranges =
      (addr : IpAddr) → Any (λ range. InRange range addr) ranges ↔ AnyText addr texts

  Same-cons :
      (t : Text) (texts : List Text) (range : IpRange) (ranges : List IpRange)
      → from_str std t ≡ ok range
      → Same texts ranges
      → Same (t ∷ texts) (range ∷ ranges)
  Same-cons t texts range ranges e h addr = (
    λ a. elim a [ inl i ↦ inl (range, e, i) | inr j ↦ inr ((h addr).0 j) ],
    λ a. elim a [
      | inl (other, f, i) ↦ inl (subst (λ r. InRange r addr) (ok_inj (sym f ∙ e)) i)
      | inr j ↦ inr ((h addr).1 j)
    ],
  )

  parse_ranges-Same : (texts : List Text) → Ensures (Same texts) (parse_ranges std texts)
  unfolding parse_ranges
  parse_ranges-Same [] = λ addr. ((λ a. a), λ a. a)
  parse_ranges-Same (t ∷ rest) =
      go (from_str std t) refl (parse_ranges std rest) (parse_ranges-Same rest)
    where
      go :
          (r : Result IpRange)
          → from_str std t ≡ r
          → (later : Result (List IpRange)) → Ensures (Same rest) later
          → Ensures (Same (t ∷ rest)) (r >>= λ range. later >>= λ ranges. ok (range ∷ ranges))
      go (ok range) e (ok ranges) h = Same-cons t rest range ranges e h
      go (ok range) e (err x) h = tt
      go (ok range) e panic h = tt
      go (err x) e later h = tt
      go panic e later h = tt

  FromRanges-iff :
      (texts : List Text) (ranges : List IpRange) (client_ip : Option Text)
      → Same texts ranges
      → FromRanges to_lowercase std ranges client_ip ↔ FromTexts texts client_ip
  FromRanges-iff texts ranges none h = ((λ a. a), λ a. a)
  FromRanges-iff texts ranges (some t) h =
      ((λ a. (a.0, a.1, (h a.0).0 a.2)), λ a. (a.0, a.1, (h a.0).1 a.2))

module _ (to_lowercase : Text → Text) (std : Parsers) (V : Values) (context : RequestContext) where
  -- What a configured matcher asks of the request; a custom one holds of none.
  abbrev pub AskedBy : Matcher V → Type 0
  AskedBy (Config.user user_ids) =
      Names user_ids (get_header to_lowercase (codes "X-User-Id") context)
  AskedBy (Config.ip ip_ranges) = FromTexts to_lowercase std ip_ranges context.client_ip
  AskedBy (Config.geo countries) =
      Names countries (get_header to_lowercase (codes "X-Country") context)
  AskedBy (Config.api_version versions) =
      Names versions (get_header to_lowercase (codes "X-API-Version") context)
  AskedBy (Config.device device_types) =
      Names device_types (get_header to_lowercase (codes "X-Device-Type") context)
  AskedBy (Config.custom name config) = ⊥

  abbrev Decided : Matcher V → MatchCondition → Type 0
  Decided m condition = Decides (evaluate to_lowercase std condition context) (AskedBy m)

  ip-decides :
      (texts : List Text) (ranges : List IpRange)
      → IsParser std
      → All IsValidRange ranges × Same to_lowercase std texts ranges
      → Decided (Config.ip texts) (ip ranges)
  ip-decides texts ranges documented (valid, same) =
      let (b, e, i) = evaluate_lem to_lowercase std (ip ranges) context documented valid in
      let j = FromRanges-iff to_lowercase std texts ranges context.client_ip same in
      (b, e, ((λ t. j.0 (i.0 t)), λ a. i.1 (j.1 a)))

  pub condition_of-decides :
      (m : Matcher V) → IsParser std → Ensures (Decided m) (condition_of to_lowercase std V m)
  unfolding condition_of evaluate
  condition_of-decides (Config.user names) documented =
      evaluate_lem to_lowercase std (user names) context documented tt
  condition_of-decides (Config.ip texts) documented =
      go (parse_ranges std texts) (parse_ranges-valid to_lowercase std V texts documented)
        (parse_ranges-Same to_lowercase std texts)
    where
      go :
          (r : Result (List IpRange))
          → Ensures (All IsValidRange) r
          → Ensures (Same to_lowercase std texts) r
          → Ensures (Decided (Config.ip texts)) (r >>= λ ranges. ok (ip ranges))
      go (ok ranges) h f = ip-decides texts ranges documented (h, f)
      go (err x) h f = tt
      go panic h f = tt
  condition_of-decides (Config.geo names) documented =
      evaluate_lem to_lowercase std (geo names) context documented tt
  condition_of-decides (Config.api_version names) documented =
      evaluate_lem to_lowercase std (api_version names) context documented tt
  condition_of-decides (Config.device names) documented =
      evaluate_lem to_lowercase std (device names) context documented tt
  condition_of-decides (Config.custom name config) documented =
      (false, refl, ((λ e. ground arith), λ a. elim a [ ]))
