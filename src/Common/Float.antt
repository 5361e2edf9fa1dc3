-- ===== src/Common/Float.antt =====
-- `f64`, as far as the program computes with it. The operations are a parameter: the model does
-- not say how a value is rounded.
use Prim.Native.Nat.{ℕ, ◌*◌, ◌-◌, ◌/◌, min}
use limiteron.Common.Booleans.{leb, if◌then◌else◌}
use limiteron.Common.Words.{u64_max}

pub record Float : Type 1 where
  pub F64 : Type 0
  -- `x as f64`
  pub of_u64 : ℕ → F64
  pub div : F64 → F64 → F64
  pub mul : F64 → F64 → F64
  pub sub : F64 → F64 → F64
  pub min_f64 : F64 → F64 → F64
  -- `x as u64`, which cuts off the fraction and saturates
  pub to_u64 : F64 → ℕ

-- Fractions from 0 up, without rounding: a value that the parameter can take.
abbrev pub exact : Float
exact = record {
  F64 = ℕ × ℕ;
  of_u64 = λ n. (n, 1);
  div = λ x y. (x.0 * y.1, x.1 * y.0);
  mul = λ x y. (x.0 * y.0, x.1 * y.1);
  sub = λ x y. (x.0 * y.1 - y.0 * x.1, x.1 * y.1);
  min_f64 = λ x y. if leb (x.0 * y.1) (y.0 * x.1) then x else y;
  to_u64 = λ x. min (x.0 / x.1) u64_max;
}
