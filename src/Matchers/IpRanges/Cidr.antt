-- ===== src/Matchers/IpRanges/Cidr.antt =====
-- src/matchers/mod.rs: the addresses that a range contains.
use limiteron.Common.{
  ℕ, zero, suc, ◌+◌, ◌-◌, ◌*◌, ◌/◌, ◌%◌, ◌^◌, ◌≤◌, ◌<◌, ◌≡◌, refl, sym, ap, ◌∙◌, ◌↔◌, arith, true,
  false, inl, inr, some, get_elem?, nat_beq, nat_beq_iff, Bool-cases, ltb, pow_add, leb, ◌&&◌,
}
use native.Mathlib.Nat.{div-eq_of_lt, one-le-pow}
use Prim.Native.Nat.{bit_and}
use limiteron.Errors.{Decides}
use limiteron.Matchers.IpRanges.{
  IpAddr, v4, v6, IpRange, single, ipv4_cidr, ipv6_cidr, ipv4_range, contains, ipv4_in_cidr,
  ipv4_mask, ipv6_in_cidr, low_segments, segments, full_equal, masked_equal, ip_beq,
}
use limiteron.Matchers.IpRanges.Prefixes.{dropped, parted, agree_higher, masked_iff}

-- The value of an address has the width of its kind.
abbrev pub IsAddress : IpAddr → Type 0
IsAddress (v4 a) = a < 2 ^ 32
IsAddress (v6 a) = a < 2 ^ 128

-- What the constructors of `from_str` keep.
abbrev pub IsValidRange : IpRange → Type 0
IsValidRange (single addr) = IsAddress addr
IsValidRange (ipv4_cidr addr prefix) = IsAddress (v4 addr) × (prefix ≤ 32)
IsValidRange (ipv6_cidr addr prefix) = IsAddress (v6 addr) × (prefix ≤ 128)
IsValidRange (ipv4_range start end) = IsAddress (v4 start) × IsAddress (v4 end) × (start ≤ end)

-- The addresses of a range: those with the same leading bits, or between the two ends.
abbrev pub InRange : IpRange → IpAddr → Type 0
InRange (single addr) ip = addr ≡ ip
InRange (ipv4_cidr addr prefix) (v4 ip) = ip / 2 ^ (32 - prefix) ≡ addr / 2 ^ (32 - prefix)
InRange (ipv4_cidr addr prefix) (v6 ip) = ⊥
InRange (ipv6_cidr addr prefix) (v6 ip) = ip / 2 ^ (128 - prefix) ≡ addr / 2 ^ (128 - prefix)
InRange (ipv6_cidr addr prefix) (v4 ip) = ⊥
InRange (ipv4_range start end) (v4 ip) = (start ≤ ip) × (ip ≤ end)
InRange (ipv4_range start end) (v6 ip) = ⊥

ip_beq_iff : (a b : IpAddr) → (ip_beq a b ≡ true) ↔ (a ≡ b)
ip_beq_iff (v4 a) (v4 b) = ground arith
ip_beq_iff (v6 a) (v6 b) = ground arith
ip_beq_iff (v4 a) (v6 b) = ground arith
ip_beq_iff (v6 a) (v4 b) = ground arith

nothing_left : (x w : ℕ) → x < 2 ^ w → x / 2 ^ w ≡ 0
nothing_left x w h = div-eq_of_lt h

ipv4_mask_lem :
    (prefix : ℕ) → prefix ≤ 32 → ipv4_mask prefix ≡ (2 ^ 32 - 1) * 2 ^ (32 - prefix) % 2 ^ 32
unfolding ipv4_mask
ipv4_mask_lem zero h = refl
ipv4_mask_lem (suc p) h =
    let k : (288 - suc p) % 32 ≡ 32 - suc p = omega arith in
    let e : nat_beq (suc p) 0 ≡ false = ground arith in rw (e, k) refl

ipv4_in_cidr_lem :
    (ip network prefix : ℕ)
    → prefix ≤ 32
    → ip < 2 ^ 32
    → network < 2 ^ 32
    → (ipv4_in_cidr ip network prefix ≡ true)
      ↔ (ip / 2 ^ (32 - prefix) ≡ network / 2 ^ (32 - prefix))
unfolding ipv4_in_cidr
ipv4_in_cidr_lem ip network prefix h f g =
    let mask = ipv4_mask prefix in
    let i = nat_beq_iff (bit_and ip mask) (bit_and network mask) in
    let m = masked_iff 32 (32 - prefix) ip network (omega arith) f g in
    let e = ipv4_mask_lem prefix h in
    (
      λ t. m.0 (sym (ap (bit_and ip) e) ∙ i.0 t ∙ ap (bit_and network) e),
      λ t. i.1 (ap (bit_and ip) e ∙ m.1 t ∙ sym (ap (bit_and network) e)),
    )

seg_high : (k x : ℕ) → x / 2 ^ (16 * suc k) ≡ x / 2 ^ (16 * k) / 65536
seg_high k x = dropped 16 (16 * suc k) (16 * k) x (omega arith)

full-agree :
    (n k x y : ℕ)
    → n ≤ k
    → x / 2 ^ (16 * k) ≡ y / 2 ^ (16 * k)
    → Decides
        (full_equal n (low_segments k x) (low_segments k y))
        (x / 2 ^ (16 * (k - n)) ≡ y / 2 ^ (16 * (k - n)))
unfolding full_equal low_segments
full-agree zero k x y h e =
    let same : k - 0 ≡ k = omega arith in (true, refl, rw same ((λ _. e), (λ _. refl)))
full-agree (suc n) zero x y h e = absurd (omega arith)
full-agree (suc n) (suc k) x y h e =
    let a = x / 2 ^ (16 * k) in
    let b = y / 2 ^ (16 * k) in
    let high : a / 65536 ≡ b / 65536 = sym (seg_high k x) ∙ e ∙ seg_high k y in
    let less : suc k - suc n ≡ k - n = omega arith in
    elim (Bool-cases (nat_beq (a % 65536) (b % 65536))) [
      | inl same ↦
          let eq : a ≡ b = ground (arith, high, nat_beq_iff (a % 65536) (b % 65536)) in
          let (c, r, i) = full-agree n k x y (omega arith) eq in rw (same, less) (c, r, i)
      | inr differ ↦
          rw (differ, less)
            (
              false,
              refl,
              (
                (λ f. ground arith),
                λ t. ground (
                  arith,
                  nat_beq_iff (a % 65536) (b % 65536),
                  agree_higher (16 * k) (16 * (k - n)) x y (omega arith) t,
                ),
              ),
            )
    ]

segment_at :
    (k n x : ℕ) → n < k → get_elem? (low_segments k x) n ≡ some (x / 2 ^ (16 * (k - suc n)) % 65536)
unfolding low_segments
segment_at zero n x h = absurd (omega arith)
segment_at (suc k) zero x h = let e : suc k - 1 ≡ k = omega arith in rw e refl
segment_at (suc k) (suc n) x h =
    let e : suc k - suc (suc n) ≡ k - suc n = omega arith in rw e (segment_at k n x (omega arith))

-- The number of `n` leading segments and `r` bits after them, for two addresses that agree so far.
masked-agree :
    (r a b : ℕ)
    → 1 ≤ r
    → r < 16
    → a / 65536 ≡ b / 65536
    → Decides
        (masked_equal r (some (a % 65536)) (some (b % 65536)))
        (a / 2 ^ (16 - r) ≡ b / 2 ^ (16 - r))
unfolding masked_equal
masked-agree r a b f g e =
    let k = 16 - r in
    let mask = (2 ^ 16 - 1) * 2 ^ k % 2 ^ 16 in
    let x = bit_and (a % 65536) mask in
    let y = bit_and (b % 65536) mask in
    let i = nat_beq_iff x y in
    let m = masked_iff 16 k (a % 65536) (b % 65536) (omega arith) (omega arith) (omega arith) in
    let whole : 65536 ≡ 2 ^ k * 2 ^ r =
      (let w : 16 ≡ k + r = omega arith in ap (λ (t : ℕ). 2 ^ t) w ∙ pow_add 2 k r) in
    let p = parted (2 ^ k) (2 ^ r) 65536 a whole (one-le-pow k 2 (omega arith)) in
    let q = parted (2 ^ k) (2 ^ r) 65536 b whole (one-le-pow k 2 (omega arith)) in
    let same = ap (λ (t : ℕ). 2 ^ r * t) e in
    (
      nat_beq x y,
      refl,
      (λ t. omega (arith, p, q, same, m.0 (i.0 t)), λ t. i.1 (m.1 (omega (arith, p, q, same, t)))),
    )

ipv6_in_cidr_lem :
    (ip network prefix : ℕ)
    → prefix ≤ 128
    → ip < 2 ^ 128
    → network < 2 ^ 128
    → Decides
        (ipv6_in_cidr ip network prefix)
        (ip / 2 ^ (128 - prefix) ≡ network / 2 ^ (128 - prefix))
unfolding ipv6_in_cidr segments
ipv6_in_cidr_lem ip network prefix h f g =
    let n = prefix / 16 in
    let r = prefix % 16 in
    let start = nothing_left ip 128 f ∙ sym (nothing_left network 128 g) in
    let (same, e, i) = full-agree n 8 ip network (omega arith) start in
    let k = 16 * (8 - suc n) in
    let a = ip / 2 ^ k in
    let b = network / 2 ^ k in
    elim (Bool-cases same) [
      | inr differ ↦
          rw (e, differ)
            (
              false,
              refl,
              (
                (λ t. ground arith),
                λ t.
                    let up =
                      agree_higher (16 * (8 - n)) (128 - prefix) ip network (omega arith) t in
                    ground (arith, i),
              ),
            )
      | inl agree ↦
          rw (e, agree)
            (elim (Bool-cases (ltb 0 r && ltb n 8)) [
              | inr none_left ↦
                  let whole : 16 * (8 - n) ≡ 128 - prefix = ground arith in
                  rw (none_left, sym whole) (true, refl, ((λ t. i.0 agree), λ t. refl))
              | inl some_left ↦
                  let in_segment : n < 8 = ground arith in
                  let some_bits : 1 ≤ r = ground arith in
                  let next : 16 * (8 - n) ≡ k + 16 = omega arith in
                  let full : a / 65536 ≡ b / 65536 =
                    sym (dropped 16 (16 * (8 - n)) k ip next)
                    ∙ i.0 agree
                    ∙ dropped 16 (16 * (8 - n)) k network next in
                  let last : 128 - prefix ≡ k + (16 - r) = omega arith in
                  let at_ip = segment_at 8 n ip in_segment in
                  let at_network = segment_at 8 n network in_segment in
                  rw
                    (
                      some_left,
                      at_ip,
                      at_network,
                      dropped (16 - r) (128 - prefix) k ip last,
                      dropped (16 - r) (128 - prefix) k network last,
                    )
                    (masked-agree r a b some_bits (omega arith) full)
            ])
    ]

-- On a valid range and an address of its kind's width the test answers, and with `true` exactly for
-- the addresses of the range: of a CIDR block those that have the block's leading bits, of any other
-- range those between its ends.
pub contains_lem :
    (range : IpRange) (ip : IpAddr)
    → IsValidRange range
    → IsAddress ip
    → Decides (contains range ip) (InRange range ip)
unfolding contains
contains_lem (single addr) ip h f = (ip_beq addr ip, refl, ip_beq_iff addr ip)
contains_lem (ipv4_cidr addr p) (v4 ip) h f =
    (ipv4_in_cidr ip addr p, refl, ipv4_in_cidr_lem ip addr p h.1 f h.0)
contains_lem (ipv4_cidr addr p) (v6 ip) h f = (false, refl, ground arith)
contains_lem (ipv6_cidr addr p) (v6 ip) h f = ipv6_in_cidr_lem ip addr p h.1 f h.0
contains_lem (ipv6_cidr addr p) (v4 ip) h f = (false, refl, ground arith)
contains_lem (ipv4_range start end) (v4 ip) h f = (leb start ip && leb ip end, refl, ground arith)
contains_lem (ipv4_range start end) (v6 ip) h f = (false, refl, ground arith)
