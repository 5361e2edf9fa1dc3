-- ===== src/Matchers/IpRanges/Prefixes.antt =====
-- src/matchers/mod.rs: the leading bits of an address, by division.
use limiteron.Common.{
  ℕ, zero, suc, ◌+◌, ◌-◌, ◌*◌, ◌/◌, ◌%◌, ◌^◌, ◌≤◌, ◌<◌, ◌≡◌, sym, ap, ◌∙◌, ◌↔◌, and_high, pow_add,
  arith,
}
use Prim.Native.Nat.{bit_and}
use native.Mathlib.Nat.{div-div-eq-div-mul, mod-add-div, mul_assoc, add-mul-div_left, one-le-pow}

-- To drop low bits twice.
pub dropped : (a j k x : ℕ) → j ≡ k + a → x / 2 ^ j ≡ x / 2 ^ k / 2 ^ a
dropped a j k x e =
    ap (λ (t : ℕ). x / t) (ap (λ (t : ℕ). 2 ^ t) e ∙ pow_add 2 k a)
    ∙ sym (div-div-eq-div-mul x (2 ^ k) (2 ^ a))

-- Numbers that agree without some low bits agree without more of them.
pub agree_higher : (j k x y : ℕ) → k ≤ j → x / 2 ^ k ≡ y / 2 ^ k → x / 2 ^ j ≡ y / 2 ^ j
agree_higher j k x y h e =
    let a = j - k in
    let s : j ≡ k + a = omega arith in
    dropped a j k x s ∙ ap (λ (t : ℕ). t / 2 ^ a) e ∙ sym (dropped a j k y s)

-- Under the mask of its `w - k` high bits a word is what it is without the `k` low ones.
pub masked_iff :
    (w k x y : ℕ)
    → k ≤ w
    → x < 2 ^ w
    → y < 2 ^ w
    → let mask = (2 ^ w - 1) * 2 ^ k % 2 ^ w in
      (bit_and x mask ≡ bit_and y mask) ↔ (x / 2 ^ k ≡ y / 2 ^ k)
masked_iff w k x y h f g =
    let some_p : 1 ≤ 2 ^ k = one-le-pow k 2 (omega arith) in
    rw (and_high w k x h f, and_high w k y h g)
      (λ e. cancel (2 ^ k) (x / 2 ^ k) (y / 2 ^ k) some_p e, λ e. ap (λ (t : ℕ). t * 2 ^ k) e)
  where
    cancel : (q a b : ℕ) → 1 ≤ q → a * q ≡ b * q → a ≡ b
    cancel zero a b p e = absurd (omega arith)
    cancel (suc q) a b p e = grind arith

-- A quotient, in parts: of the low digit and of the rest.
pub parted : (q p n a : ℕ) → n ≡ q * p → 1 ≤ q → a / q ≡ a % n / q + p * (a / n)
parted q p n a e some_q =
    let split : a ≡ a % n + q * (p * (a / n)) =
      sym (mod-add-div a n)
      ∙ ap (λ (t : ℕ). a % n + t) (ap (λ (t : ℕ). t * (a / n)) e ∙ mul_assoc q p (a / n)) in
    ap (λ (t : ℕ). t / q) split ∙ add-mul-div_left (a % n) (p * (a / n)) some_q
