-- ===== src/Common/Bits.antt =====
-- `&` with a mask of high bits, as arithmetic.
use Prim.Native.Nat.{
  ℕ, zero, suc, ◌+◌, ◌-◌, ◌*◌, ◌/◌, ◌%◌, ◌^◌, ◌≤◌, ◌<◌, min, bit_and, digits, bit_and-bitwise,
}
use mathlib.Core.Path.{◌≡◌, refl, ap, sym, ◌∙◌}
use native.Mathlib.Omega.{arith}
use native.Mathlib.Nat.{
  pow-suc, pow-succ', mod-add-div, add-mul-mod_self_left, pow-zero, one-le-pow, div-div-eq-div-mul,
  mod-eq_of_lt, mul_comm, mul_assoc, mod-lt, div-lt_iff_lt-mul,
}

pub pow_add : (b m n : ℕ) → b ^ (m + n) ≡ b ^ m * b ^ n
pow_add b m zero = ground (arith, pow-zero b)
pow_add b m (suc n) =
    let e : m + suc n ≡ suc (m + n) = omega arith in
    rw e (
      pow-suc b (m + n)
      ∙ ap (λ (t : ℕ). t * b) (pow_add b m n)
      ∙ mul_assoc (b ^ m) (b ^ n) b
      ∙ ap (λ (t : ℕ). b ^ m * t) (sym (pow-suc b n)))

abbrev lows : ℕ → ℕ → ℕ → ℕ
lows n a b = digits (λ b. 0) min n a b

-- The count of digits does not matter from the number up.
lows_count : (m n a b : ℕ) → a ≤ m → a ≤ n → lows m a b ≡ lows n a b
lows_count zero zero a b p q = refl
lows_count zero (suc n) zero b p q = refl
lows_count (suc m) zero zero b p q = refl
lows_count (suc m) (suc n) zero b p q = refl
lows_count zero (suc n) (suc a) b p q = absurd (omega arith)
lows_count (suc m) zero (suc a) b p q = absurd (omega arith)
lows_count (suc m) (suc n) (suc a) b p q =
    ap (λ (t : ℕ). t * 2 + min (suc a % 2) (b % 2))
      (lows_count m n (suc a / 2) (b / 2) (omega arith) (omega arith))

and_zero : (b : ℕ) → bit_and 0 b ≡ 0
and_zero b = bit_and-bitwise 0 b

-- The lowest digit apart.
and_halves : (a b : ℕ) → bit_and a b ≡ bit_and (a / 2) (b / 2) * 2 + min (a % 2) (b % 2)
and_halves zero b = omega (arith, and_zero b, and_zero (b / 2))
and_halves (suc a) b =
    bit_and-bitwise (suc a) b
    ∙ ap (λ (t : ℕ). t * 2 + min (suc a % 2) (b % 2))
        (lows_count a (suc a / 2) (suc a / 2) (b / 2) (omega arith) (omega arith)
          ∙ sym (bit_and-bitwise (suc a / 2) (b / 2)))

and_none_count : (n a : ℕ) → a ≤ n → bit_and a 0 ≡ 0
and_none_count n zero h = and_zero 0
and_none_count zero (suc a) h = absurd (omega arith)
and_none_count (suc n) (suc a) h =
    omega (arith, and_halves (suc a) 0, and_none_count n (suc a / 2) (omega arith))

-- A mask that is shifted to the left looks at the number shifted to the right.
and_shifted : (k a m : ℕ) → bit_and a (m * 2 ^ k) ≡ bit_and (a / 2 ^ k) m * 2 ^ k
and_shifted zero a m =
    let e : m * 1 ≡ m = omega arith in let d : a / 1 ≡ a = omega arith in rw (e, d) (omega arith)
and_shifted (suc k) a m =
    let twice : m * 2 ^ suc k ≡ m * 2 ^ k * 2 =
      ap (λ (t : ℕ). m * t) (pow-suc 2 k) ∙ sym (mul_assoc m (2 ^ k) 2) in
    let halved : a / 2 / 2 ^ k ≡ a / 2 ^ suc k =
      div-div-eq-div-mul a 2 (2 ^ k) ∙ ap (λ (t : ℕ). a / t) (sym (pow-succ' 2 k)) in
    let x = m * 2 ^ k in
    let below : x * 2 / 2 ≡ x = omega arith in
    let even : x * 2 % 2 ≡ 0 = omega arith in
    ap (bit_and a) twice
    ∙ and_halves a (x * 2)
    ∙ rw (below, even)
        (let last : min (a % 2) 0 ≡ 0 = omega arith in
          rw (last, and_shifted k (a / 2) m, halved, pow-suc 2 k)
            (let u = bit_and (a / 2 ^ suc k) m in omega (arith, mul_assoc u (2 ^ k) 2)))

-- A mask of `n` ones.
and_ones : (n a : ℕ) → bit_and a (2 ^ n - 1) ≡ a % 2 ^ n
and_ones zero a = omega (arith, and_none_count a a (omega arith))
and_ones (suc n) a =
    let p = 2 ^ n in
    let some_one : 1 ≤ p = one-le-pow n 2 (omega arith) in
    let double : 2 ^ suc n ≡ p * 2 = pow-suc 2 n in
    let below : (p * 2 - 1) / 2 ≡ p - 1 = omega (arith, some_one) in
    let odd : (p * 2 - 1) % 2 ≡ 1 = omega (arith, some_one) in
    let r = a / 2 % p in
    let whole : a / 2 ≡ r + p * (a / 2 / p) = sym (mod-add-div (a / 2) p) in
    let q = a / 2 / p in
    let c = a % 2 in
    let split : a ≡ (r * 2 + c) + p * 2 * q =
      omega (arith, ap (λ (t : ℕ). t * 2) whole, mul_assoc p 2 q, mul_comm 2 q, mul_assoc p q 2) in
    let small : r * 2 + c < p * 2 = omega (arith, mod-lt (a / 2) some_one) in
    let rest : a % (p * 2) ≡ r * 2 + c =
      ap (λ (t : ℕ). t % (p * 2)) split
      ∙ add-mul-mod_self_left (r * 2 + c) (p * 2) q
      ∙ mod-eq_of_lt small in
    rw double (and_halves a (p * 2 - 1) ∙ rw (below, odd, and_ones n (a / 2)) (omega (arith, rest)))

mask_parts : (p q : ℕ) → 1 ≤ p → 1 ≤ q → (p * q - 1) * q ≡ (p - 1) * q + p * q * (q - 1)
mask_parts (suc p) (suc q) h f =
    let e : suc p * suc q - 1 ≡ p * suc q + q = grind arith in
    let e' : suc p - 1 ≡ p = omega arith in
    let e'' : suc q - 1 ≡ q = omega arith in rw (e, e', e'') (grind arith)
mask_parts zero q h f = absurd (omega arith)
mask_parts (suc p) zero h f = absurd (omega arith)

mask_below : (p q : ℕ) → 1 ≤ p → 1 ≤ q → (p - 1) * q < p * q
mask_below (suc p) q h f = grind arith
mask_below zero q h f = absurd (omega arith)

-- What the mask of the `w - k` high bits of a word of `w` bits leaves.
pub and_high :
    (w k x : ℕ) → k ≤ w → x < 2 ^ w → bit_and x ((2 ^ w - 1) * 2 ^ k % 2 ^ w) ≡ x / 2 ^ k * 2 ^ k
and_high w k x h f =
    let p = 2 ^ (w - k) in
    let q = 2 ^ k in
    let some_p : 1 ≤ p = one-le-pow (w - k) 2 (omega arith) in
    let some_q : 1 ≤ q = one-le-pow k 2 (omega arith) in
    let parts : 2 ^ w ≡ p * q =
      (let e : w ≡ w - k + k = omega arith in ap (λ (t : ℕ). 2 ^ t) e ∙ pow_add 2 (w - k) k) in
    let split : (p * q - 1) * q ≡ (p - 1) * q + p * q * (q - 1) = mask_parts p q some_p some_q in
    let mask : (2 ^ w - 1) * q % 2 ^ w ≡ (p - 1) * q =
      rw (parts, split)
        (add-mul-mod_self_left ((p - 1) * q) (p * q) (q - 1)
          ∙ mod-eq_of_lt (mask_below p q some_p some_q)) in
    let fits : x / q < p = (div-lt_iff_lt-mul some_q).1 (omega (arith, parts)) in
    ap (bit_and x) mask
    ∙ and_shifted k x (p - 1)
    ∙ ap (λ (t : ℕ). t * q) (and_ones (w - k) (x / q) ∙ mod-eq_of_lt fits)
