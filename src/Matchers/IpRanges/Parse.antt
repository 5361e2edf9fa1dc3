-- ===== src/Matchers/IpRanges/Parse.antt =====
-- src/matchers/mod.rs: what `IpRange::from_str` accepts.
use limiteron.Common.{
  ℕ, ◌^◌, ◌<◌, ◌≡◌, refl, List, [], ◌∷◌, Option, some, none, split, parse_unsigned, arith, Text,
}
use limiteron.Errors.{ok, Message, format, chars, Ensures, Ensures-bind, Ensures-ok}
use limiteron.Matchers.IpRanges.{
  IpAddr, v4, v6, IpRange, single, Parsers, from_str, cidr_from, range_from, with_prefix, parsed,
}
use limiteron.Matchers.IpRanges.Cidr.{IsAddress, IsValidRange}

-- The parsers give addresses of the width of their type.
pub record IsParser (std : Parsers) : Type 0 where
  pub ip_width : (t : Text) (a : IpAddr) → std.parse_ip t ≡ some a → IsAddress a
  pub ipv4_width : (t : Text) (a : ℕ) → std.parse_ipv4 t ≡ some a → a < 2 ^ 32

with_prefix-valid :
    (addr : IpAddr) (prefix : ℕ) → IsAddress addr → Ensures IsValidRange (with_prefix addr prefix)
unfolding with_prefix
with_prefix-valid (v4 a) p h = ground arith
with_prefix-valid (v6 a) p h = ground arith

parsed-Ensures :
    {A : Type 0} (P : A → Type 0) (o : Option A) (message : Message)
    → ((a : A) → o ≡ some a → P a)
    → Ensures P (parsed o message)
parsed-Ensures P none message h = tt
parsed-Ensures P (some a) message h = h a refl

module _ (std : Parsers) (documented : IsParser std) where
  cidr_from-valid : (s : Text) (parts : List Text) → Ensures IsValidRange (cidr_from std s parts)
  unfolding cidr_from
  cidr_from-valid s [] = tt
  cidr_from-valid s (address ∷ []) = tt
  cidr_from-valid s (address ∷ prefix ∷ []) =
      Ensures-bind IsAddress IsValidRange (parsed (std.parse_ip address) _) _
        (parsed-Ensures IsAddress (std.parse_ip address) _ (documented.ip_width address))
        (λ addr h.
          Ensures-bind (λ p. Unit {0}) IsValidRange (parsed (parse_unsigned 255 prefix) _) _
            (parsed-Ensures (λ p. Unit {0}) (parse_unsigned 255 prefix) _ (λ p e. tt))
            (λ p _. with_prefix-valid addr p h))
  cidr_from-valid s (address ∷ prefix ∷ part ∷ parts) = tt

  range_from-valid : (s : Text) (parts : List Text) → Ensures IsValidRange (range_from std s parts)
  unfolding range_from
  range_from-valid s [] = tt
  range_from-valid s (first ∷ []) = tt
  range_from-valid s (first ∷ last ∷ []) =
      let Fits = λ (a : ℕ). a < 2 ^ 32 in
      Ensures-bind Fits IsValidRange (parsed (std.parse_ipv4 first) _) _
        (parsed-Ensures Fits (std.parse_ipv4 first) _ (documented.ipv4_width first))
        (λ start f.
          Ensures-bind Fits IsValidRange (parsed (std.parse_ipv4 last) _) _
            (parsed-Ensures Fits (std.parse_ipv4 last) _ (documented.ipv4_width last))
            (λ end g. ground arith))
  range_from-valid s (first ∷ last ∷ part ∷ parts) = tt

  pub from_str-valid : (s : Text) → Ensures IsValidRange (from_str std s)
  unfolding from_str
  from_str-valid s = ground (
    arith,
    cidr_from-valid s (split 47 s),
    range_from-valid s (split 45 s),
    Ensures-bind IsAddress IsValidRange
        (parsed (std.parse_ip s) (format "无效的IP地址: {}" (chars s ∷ []))) (λ addr. ok (single addr))
        (parsed-Ensures IsAddress (std.parse_ip s) _ (documented.ip_width s)) (λ addr h. h),
  )

-- Every range that the parser accepts is valid: its prefix has at most the bits of its address, and
-- its start is not behind its end; it is assumed that the parsers of `std` give addresses of the
-- width of their type.
pub from_str-IsValidRange :
    (std : Parsers) (s : Text) (range : IpRange)
    → IsParser std
    → from_str std s ≡ ok range
    → IsValidRange range
from_str-IsValidRange std s range documented e =
    Ensures-ok IsValidRange (from_str std s) range (from_str-valid std documented s) e
