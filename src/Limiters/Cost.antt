-- ===== src/Limiters/Cost.antt =====
-- src/limiters.rs and src/constants.rs: the check of a request's cost.
use limiteron.Common.{ℕ, ◌≤◌, ◌≡◌, arith, ◌⊎◌, inl, inr, ltb, if◌then◌else◌, nat_beq}
use native.Mathlib.Decide.{dec_le}
use limiteron.Errors.{Message, literal, config_error, Result, ok, err}

abbrev pub max_cost : ℕ
max_cost = 1000000

unfoldable pub validate_cost : ℕ → Result ℕ
validate_cost cost =
    if nat_beq cost 0
    then err (config_error (literal "Cost cannot be zero"))
    else if ltb max_cost cost
    then err (config_error (literal "Cost exceeds maximum limit (1000000)"))
    else ok cost

-- A cost that passes is the cost given, and lies between 1 and `max_cost`.
pub validate_cost-eq-ok :
    (cost c : ℕ) → validate_cost cost ≡ ok c → (c ≡ cost) × (1 ≤ c) × (c ≤ max_cost)
unfolding validate_cost
validate_cost-eq-ok cost c h = ground arith

pub validate_cost_valid : (cost : ℕ) → 1 ≤ cost → cost ≤ max_cost → validate_cost cost ≡ ok cost
unfolding validate_cost
validate_cost_valid cost lo hi = ground arith

-- Every cost passes as it is, or is refused with a configuration error.
pub validate_cost-cases :
    (cost : ℕ)
    → ((1 ≤ cost) × (cost ≤ max_cost) × (validate_cost cost ≡ ok cost))
      ⊎ ((m : Message) × (validate_cost cost ≡ err (config_error m)))
validate_cost-cases cost = elim (dec_le 1 cost) [
  | no z ↦ inr (literal "Cost cannot be zero", unfold validate_cost in ground arith)
  | yes lo ↦ elim (dec_le cost max_cost) [
    | yes hi ↦ inl (lo, hi, validate_cost_valid cost lo hi)
    | no high ↦
        inr (literal "Cost exceeds maximum limit (1000000)", unfold validate_cost in ground arith)
  ]
]
