-- ===== src/Matchers/IpRanges.antt =====
-- src/matchers/mod.rs: `IpRange`, its tests and its parser. An IPv4 address is its `u32` and an IPv6
-- address its `u128`. The parsers of `std::net` are parameters.
mod Prefixes
pub mod Cidr
pub mod Parse
use limiteron.Common.{
  ℕ, zero, suc, ◌+◌, ◌-◌, ◌*◌, ◌/◌, ◌%◌, ◌^◌, Bool, true, false, not, ◌&&◌, List, [], ◌∷◌, Option,
  none, some, get_elem?, ltb, leb, nat_beq, if◌then◌else◌, Text, split, has_char, parse_unsigned,
}
use Prim.Native.Nat.{bit_and}
use limiteron.Errors.{Message, format, chars, num, config_error, Result, ok, err, panic, ◌>>=◌}

pub data IpAddr : Type 0 where
  v4 v6 : ℕ → IpAddr

pub data IpRange : Type 0 where
  single : IpAddr → IpRange
  ipv4_cidr ipv6_cidr : ℕ → ℕ → IpRange
  ipv4_range : ℕ → ℕ → IpRange

abbrev pub ip_beq : IpAddr → IpAddr → Bool
ip_beq (v4 a) (v4 b) = nat_beq a b
ip_beq (v6 a) (v6 b) = nat_beq a b
ip_beq _ _ = false

-- `0xFFFFFFFF << (32 - prefix)`: of a shift by 32 or more a release build takes the low 5 bits.
unfoldable pub ipv4_mask : ℕ → ℕ
ipv4_mask prefix = if nat_beq prefix 0 then 0 else (2 ^ 32 - 1) * 2 ^ ((288 - prefix) % 32) % 2 ^ 32

unfoldable pub ipv4_in_cidr : ℕ → ℕ → ℕ → Bool
unfolding ipv4_mask
ipv4_in_cidr ip network prefix =
    let mask = ipv4_mask prefix in nat_beq (bit_and ip mask) (bit_and network mask)

-- The `n` lowest segments of 16 bits, the highest of them first.
unfoldable pub low_segments : ℕ → ℕ → List ℕ
low_segments zero ip = []
low_segments (suc n) ip = ip / 2 ^ (16 * n) % 65536 ∷ low_segments n ip

-- `Ipv6Addr::segments`
unfoldable pub segments : ℕ → List ℕ
unfolding low_segments
segments ip = low_segments 8 ip

-- The loop over the full segments; an index past the last segment panics.
unfoldable pub full_equal : ℕ → List ℕ → List ℕ → Result Bool
full_equal zero a b = ok true
full_equal (suc n) (x ∷ a) (y ∷ b) =
    let rest = full_equal n a b in if nat_beq x y then rest else ok false
full_equal (suc n) _ _ = panic

-- The segments that the prefix ends in, under the mask of its remaining bits.
unfoldable pub masked_equal : ℕ → Option ℕ → Option ℕ → Result Bool
masked_equal remaining_bits (some x) (some y) =
    let mask = (2 ^ 16 - 1) * 2 ^ (16 - remaining_bits) % 2 ^ 16 in
    ok (nat_beq (bit_and x mask) (bit_and y mask))
masked_equal remaining_bits _ _ = panic

unfoldable pub ipv6_in_cidr : ℕ → ℕ → ℕ → Result Bool
unfolding full_equal masked_equal segments
ipv6_in_cidr ip network prefix =
    let full_segments = prefix / 16 in
    let remaining_bits = prefix % 16 in
    full_equal full_segments (segments ip) (segments network) >>= λ same.
    if same
    then (if ltb 0 remaining_bits && ltb full_segments 8
        then masked_equal remaining_bits (get_elem? (segments ip) full_segments)
            (get_elem? (segments network) full_segments)
        else ok true)
    else ok false

unfoldable pub contains : IpRange → IpAddr → Result Bool
unfolding ipv4_in_cidr ipv6_in_cidr
contains (single addr) ip = ok (ip_beq addr ip)
contains (ipv4_cidr addr prefix) (v4 ip) = ok (ipv4_in_cidr ip addr prefix)
contains (ipv4_cidr addr prefix) (v6 ip) = ok false
contains (ipv6_cidr addr prefix) (v6 ip) = ipv6_in_cidr ip addr prefix
contains (ipv6_cidr addr prefix) (v4 ip) = ok false
contains (ipv4_range start end) (v4 ip) = ok (leb start ip && leb ip end)
contains (ipv4_range start end) (v6 ip) = ok false

abbrev pub invalid {ℓ} : {A : Type ℓ} → Message → Result A
invalid message = err (config_error message)

abbrev pub parsed {ℓ} : {A : Type ℓ} → Option A → Message → Result A
parsed none message = invalid message
parsed (some a) message = ok a

unfoldable pub with_prefix : IpAddr → ℕ → Result IpRange
with_prefix (v4 ip) prefix =
    if ltb 32 prefix
    then invalid (format "IPv4前缀不能超过32: {}" (num prefix ∷ []))
    else ok (ipv4_cidr ip prefix)
with_prefix (v6 ip) prefix =
    if ltb 128 prefix
    then invalid (format "IPv6前缀不能超过128: {}" (num prefix ∷ []))
    else ok (ipv6_cidr ip prefix)

-- `str::parse::<IpAddr>` and `str::parse::<Ipv4Addr>`
pub record Parsers : Type 0 where
  pub parse_ip : Text → Option IpAddr
  pub parse_ipv4 : Text → Option ℕ

-- `FromStr`
module _ (std : Parsers) where
  unfoldable pub cidr_from : Text → List Text → Result IpRange
  unfolding with_prefix
  cidr_from s (address ∷ prefix ∷ []) =
      parsed (std.parse_ip address) (format "无效的IP地址: {}" (chars address ∷ [])) >>= λ addr.
      parsed (parse_unsigned 255 prefix) (format "无效的前缀: {}" (chars prefix ∷ [])) >>= λ p.
      with_prefix addr p
  cidr_from s _ = invalid (format "无效的CIDR格式: {}" (chars s ∷ []))

  unfoldable pub range_from : Text → List Text → Result IpRange
  range_from s (first ∷ last ∷ []) =
      parsed (std.parse_ipv4 first) (format "无效的起始IP: {}" (chars first ∷ [])) >>= λ start.
      parsed (std.parse_ipv4 last) (format "无效的结束IP: {}" (chars last ∷ [])) >>= λ end.
      (if ltb end start
        then invalid (format "起始IP不能大于结束IP: {} - {}" (chars first ∷ chars last ∷ []))
        else ok (ipv4_range start end))
  range_from s _ = invalid (format "无效的IP范围格式: {}" (chars s ∷ []))

  unfoldable pub from_str : Text → Result IpRange
  unfolding cidr_from range_from
  from_str s =
      if has_char 47 s
      then cidr_from s (split 47 s)
      else if has_char 45 s
      then range_from s (split 45 s)
      else (parsed (std.parse_ip s) (format "无效的IP地址: {}" (chars s ∷ [])) >>= λ addr.
          ok (single addr))
