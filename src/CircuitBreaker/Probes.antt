-- ===== src/CircuitBreaker/Probes.antt =====
-- How many probes are admitted when any number of threads take turns at the accesses.
use limiteron.Common.{
  ℕ, zero, suc, ◌+◌, ◌≤◌, ◌<◌, max, ◌≡◌, ◌∙◌, sym, ap, refl, List, [], ◌∷◌, some, arith, u64_mod,
  length, get_elem?, set, replicate, total, total-set, length-replicate,
}
use limiteron.Errors.{Result}
use limiteron.CircuitBreaker.{CircuitBreakerConfig, CircuitBreaker, new}
use limiteron.CircuitBreaker.Threads.{
  Pc, add_call, done, count_call, reset_state, move, System, moved, admitted_after, Step, moves,
  executes, resets, Reach, here, next,
}

-- A thread that found room for a call and has not counted it yet.
abbrev adding : Pc → ℕ
adding add_call = 1
adding _ = 0

length-set : (xs : List Pc) (i : ℕ) (v : Pc) → length (set xs i v) ≡ length xs
length-set [] i v = refl
length-set (x ∷ xs) zero v = refl
length-set (x ∷ xs) (suc i) v = omega (arith, length-set xs i v)

total-adding_le : (xs : List Pc) → total adding xs ≤ length xs
total-adding_le [] = omega arith
total-adding_le (x ∷ xs) = ground (arith, total-adding_le xs)

-- A thread that is not adding is one less that can be.
others_adding :
    (xs : List Pc) (i : ℕ) (pc : Pc)
    → get_elem? xs i ≡ some pc
    → total adding xs + 1 ≤ length xs + adding pc
others_adding xs i pc h = omega (
  arith,
  total-set adding xs i pc add_call h,
  total-adding_le (set xs i add_call),
  length-set xs i add_call,
)

module _ {ℓ} {T : Type ℓ} (now : ℕ) (result : Result T) (cb : CircuitBreaker) where
  move-config : (pc : Pc) → (move now result cb pc).0.config ≡ cb.config
  unfolding move
  move-config pc = ground arith

  -- `before` and `after` are how many threads are adding.
  move-bounded :
      (pc : Pc) (before after n : ℕ)
      → after + adding pc ≡ before + adding (move now result cb pc).1
      → before + 1 ≤ n + adding pc
      → cb.config.half_open_max_calls + n < u64_mod
      → cb.half_open_calls + before < max 1 cb.config.half_open_max_calls + n
      → (move now result cb pc).0.half_open_calls + after < max 1 cb.config.half_open_max_calls + n
  unfolding move
  move-bounded pc before after n e few f h = ground arith

  move-admitted :
      (pc : Pc) (admitted : ℕ)
      → cb.half_open_calls + 1 < u64_mod
      → admitted ≡ cb.half_open_calls
      → admitted_after pc admitted ≡ (move now result cb pc).0.half_open_calls
  unfolding move
  move-admitted pc admitted f e = ground arith

record Inv (n : ℕ) (c : CircuitBreakerConfig) (s : System) : Type 0 where
  many : length s.threads ≡ n
  configured : s.breaker.config ≡ c
  counted : s.admitted ≡ s.breaker.half_open_calls
  bounded : s.breaker.half_open_calls + total adding s.threads < max 1 c.half_open_max_calls + n

started-Inv :
    (n : ℕ) (c : CircuitBreakerConfig) (s : System) (i : ℕ) (pc first : Pc)
    → Inv n c s
    → get_elem? s.threads i ≡ some pc
    → adding first ≡ 0
    → Inv n c (record s { threads = set s.threads i first })
started-Inv n c s i pc first v h e = record {
  many = omega (arith, length-set s.threads i first, v.many);
  configured = v.configured;
  counted = v.counted;
  bounded = omega (arith, total-set adding s.threads i pc first h, v.bounded);
}

moved-Inv :
    (n : ℕ) (c : CircuitBreakerConfig) (s : System) (i : ℕ) (pc : Pc) (now : ℕ)
    (result : Result (Unit {0}))
    → max 1 c.half_open_max_calls + n < u64_mod
    → Inv n c s
    → get_elem? s.threads i ≡ some pc
    → Inv n c (moved i pc now result s)
moved-Inv n c s i pc now result f v h =
    let pc' = (move now result s.breaker pc).1 in
    let calls : s.breaker.config.half_open_max_calls ≡ c.half_open_max_calls =
      ap (λ (d : CircuitBreakerConfig). d.half_open_max_calls) v.configured in
    let few = others_adding s.threads i pc h in
    let bound : s.breaker.half_open_calls + total adding s.threads
        < max 1 s.breaker.config.half_open_max_calls + n =
      rw calls v.bounded in
    let after =
      move-bounded now result s.breaker pc (total adding s.threads)
        (total adding (set s.threads i pc')) n (total-set adding s.threads i pc pc' h)
        (omega (arith, few, v.many)) (omega (arith, calls)) bound in
    record {
      many = omega (arith, length-set s.threads i pc', v.many);
      configured = move-config now result s.breaker pc ∙ v.configured;
      counted =
          move-admitted now result s.breaker pc s.admitted (omega (arith, v.bounded, few))
            v.counted;
      bounded = rw (sym calls) after;
    }

Step-Inv :
    {n : ℕ} {c : CircuitBreakerConfig} {s u : System}
    → max 1 c.half_open_max_calls + n < u64_mod
    → Step s u
    → Inv n c s
    → Inv n c u
Step-Inv {n} {c} {s} f (moves i pc now result h) v = moved-Inv n c s i pc now result f v h
Step-Inv {n} {c} {s} f (executes i pc h idle) v = started-Inv n c s i pc count_call v h refl
Step-Inv {n} {c} {s} f (resets i pc h idle) v = started-Inv n c s i pc reset_state v h refl

total-idle : (n : ℕ) → total adding (replicate n done) ≡ 0
total-idle zero = refl
total-idle (suc n) = omega (arith, total-idle n)

Reach-Inv-Threads :
    {n : ℕ} {c : CircuitBreakerConfig} {t : ℕ} {s : System}
    → max 1 c.half_open_max_calls + n < u64_mod
    → 1 ≤ n
    → Reach n c t s
    → Inv n c s
unfolding new
Reach-Inv-Threads {n} f p here = record {
  many = length-replicate n done;
  configured = refl;
  counted = refl;
  bounded = omega (arith, total-idle n);
}
Reach-Inv-Threads f p (next r step) = Step-Inv f step (Reach-Inv-Threads f p r)

-- However the accesses of `n` threads interleave, the breaker's count of half-open calls is the number
-- of calls that were let through by the check of `half_open_max_calls` since the count was last set, with
-- the one that set it to 1, and exceeds `half_open_max_calls` (or 1, where that is 0) by less than the
-- number of threads: a thread alone never exceeds it. That bound and the number of threads are so small
-- that their sum does not wrap.
pub probes_bounded :
    {n : ℕ} {c : CircuitBreakerConfig} {t : ℕ} {s : System}
    → max 1 c.half_open_max_calls + n < u64_mod
    → 1 ≤ n
    → Reach n c t s
    → (s.admitted ≡ s.breaker.half_open_calls) × (s.admitted < max 1 c.half_open_max_calls + n)
probes_bounded f p r =
    let v = Reach-Inv-Threads f p r in (v.counted, omega (arith, v.counted, v.bounded))
