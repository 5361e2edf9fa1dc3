-- ===== src/Limiters/TokenBucket/Conservation.antt =====
-- No interleaving grants more tokens than the bucket held and the time claimed.
use limiteron.Common.{
  ℕ, zero, suc, ◌+◌, ◌-◌, ◌≤◌, ◌≡◌, ◌∙◌, ap, refl, Bool, List, some, get_elem?, arith, sum, map,
  total, total-set, All, All-set, All-get_elem?,
}
use limiteron.Common.Float.{Float}
use limiteron.Limiters.TokenBucket.{
  TokenBucketLimiter, Pc, refill_load, refill_cas, tokens_load, tokens_cas, consume_cas, done,
  tokens_to_add, move, new,
}
use limiteron.Limiters.TokenBucket.Threads.{
  Thread, System, grant, claim, moved, begun, moves, begins, idle, start, Reach, here, next,
}

-- Tokens that a thread has claimed and not yet put into the bucket.
abbrev pending_of : Pc → ℕ
pending_of (tokens_load add) = add
pending_of (tokens_cas add _) = add
pending_of _ = 0

abbrev pending : Thread → ℕ
pending t = pending_of t.pc

module _ (fl : Float) where
  -- What a claim of each of these stretches adds, rounded as the program rounds it.
  abbrev pub earned : ℕ → List ℕ → ℕ
  earned rate spans = sum (map (λ e. tokens_to_add fl e rate) spans)

  abbrev Claims : ℕ → Thread → Type 0
  Claims rate t = elim t.pc [
    | refill_cas last add ↦ (last ≤ t.now) × (add ≡ tokens_to_add fl (t.now - last) rate)
    | consume_cas retry_count current ↦ t.cost ≤ current
    | _ ↦ Unit
  ]

  record Inv (capacity rate t0 : ℕ) (s : System) : Type 0 where
    cap : s.bucket.capacity ≡ capacity
    rated : s.bucket.refill_rate ≡ rate
    full : s.bucket.tokens ≤ capacity
    paid : s.bucket.tokens + s.granted + total pending s.threads ≤ capacity + earned rate s.spans
    timed : t0 + sum s.spans ≡ s.bucket.last_refill
    claims : All (Claims rate) s.threads

  move-Claims :
      (rate : ℕ) (b : TokenBucketLimiter) (t : Thread)
      → b.refill_rate ≡ rate
      → Claims rate t
      → Claims rate (record t { pc = (move fl t.now t.cost b t.pc).1 })
  unfolding move
  move-Claims rate b t r c = ground arith

  move-frame :
      (b : TokenBucketLimiter) (t : Thread)
      → let after = (move fl t.now t.cost b t.pc).0 in
        (after.capacity ≡ b.capacity) × (after.refill_rate ≡ b.refill_rate)
  unfolding move
  move-frame b t = ground arith

  move-full :
      (b : TokenBucketLimiter) (t : Thread)
      → b.tokens ≤ b.capacity
      → (move fl t.now t.cost b t.pc).0.tokens ≤ b.capacity
  unfolding move
  move-full b t h = ground arith

  move-timed :
      (rate : ℕ) (spans : List ℕ) (t0 : ℕ) (b : TokenBucketLimiter) (t : Thread)
      → Claims rate t
      → t0 + sum spans ≡ b.last_refill
      → let (after, pc) = move fl t.now t.cost b t.pc in
        t0 + sum (claim t.now t.pc pc spans) ≡ after.last_refill
  unfolding move
  move-timed rate spans t0 b t c h = ground arith

  move-paid :
      (rate : ℕ) (spans : List ℕ) (b : TokenBucketLimiter) (t : Thread)
      → Claims rate t
      → let (after, pc) = move fl t.now t.cost b t.pc in
        after.tokens + grant t.cost t.pc pc + pending_of pc + earned rate spans
        ≤ b.tokens + pending t + earned rate (claim t.now t.pc pc spans)
  unfolding move
  move-paid rate spans b t c = ground arith

  moved-Inv :
      (capacity rate t0 i : ℕ) (s : System) (t : Thread)
      → get_elem? s.threads i ≡ some t
      → Inv capacity rate t0 s
      → Inv capacity rate t0 (moved fl i t s)
  moved-Inv capacity rate t0 i s t e v =
      let mine = All-get_elem? (Claims rate) s.threads i t v.claims e in
      let pc = (move fl t.now t.cost s.bucket t.pc).1 in
      let frame = move-frame s.bucket t in
      record {
        cap = frame.0 ∙ v.cap;
        rated = frame.1 ∙ v.rated;
        full = omega (arith, move-full s.bucket t (omega (arith, v.cap, v.full)), v.cap);
        paid = omega (
          arith,
          v.paid,
          move-paid rate s.spans s.bucket t mine,
          total-set pending s.threads i t (record t { pc = pc }) e,
        );
        timed = move-timed rate s.spans t0 s.bucket t mine v.timed;
        claims =
            All-set (Claims rate) s.threads i (record t { pc = pc }) v.claims
              (move-Claims rate s.bucket t v.rated mine);
      }

  begun-Inv :
      (capacity rate t0 i now cost : ℕ) (s : System) (t : Thread) (answer : Bool)
      → get_elem? s.threads i ≡ some t
      → t.pc ≡ done answer
      → Inv capacity rate t0 s
      → Inv capacity rate t0 (begun i now cost s)
  begun-Inv capacity rate t0 i now cost s t answer e d v =
      let fresh : Thread = record { now = now; cost = cost; pc = refill_load } in
      let none_pending : pending t ≡ 0 = ap pending_of d in
      record {
        cap = v.cap;
        rated = v.rated;
        full = v.full;
        timed = v.timed;
        paid = omega (arith, v.paid, total-set pending s.threads i t fresh e, none_pending);
        claims = All-set (Claims rate) s.threads i fresh v.claims tt;
      }

  idle-Claims : (rate n : ℕ) → All (Claims rate) (idle n)
  idle-Claims rate zero = tt
  idle-Claims rate (suc n) = (tt, idle-Claims rate n)

  idle-pending : (n : ℕ) → total pending (idle n) ≡ 0
  idle-pending zero = refl
  idle-pending (suc n) = omega (arith, idle-pending n)

  start-Inv : (n capacity rate t : ℕ) → Inv capacity rate t (start n capacity rate t)
  unfolding new
  start-Inv n capacity rate t = record {
    cap = refl;
    rated = refl;
    full = omega arith;
    paid = omega (arith, idle-pending n);
    timed = omega arith;
    claims = idle-Claims rate n;
  }

  Reach-paid :
      {n capacity rate t : ℕ} {s : System} → Reach fl n capacity rate t s → Inv capacity rate t s
  Reach-paid {n} {capacity} {rate} {t} here = start-Inv n capacity rate t
  Reach-paid {n} {capacity} {rate} {t} (next {s} r (moves i th e)) =
      moved-Inv capacity rate t i s th e (Reach-paid r)
  Reach-paid {n} {capacity} {rate} {t} (next {s} r (begins i now cost th answer e d c)) =
      begun-Inv capacity rate t i now cost s th answer e d (Reach-paid r)

  -- In every state that threads can reach by any interleaving, the bucket holds no more than its
  -- capacity; the tokens granted and those left are at most the capacity and what the claimed
  -- stretches of time earned; and those stretches, laid end to end, lead from the creation to
  -- `last_refill`, so no time is claimed twice.
  pub grants_bounded :
      {n capacity rate t : ℕ} {s : System}
      → Reach fl n capacity rate t s
      → (s.bucket.tokens ≤ capacity)
        × (s.bucket.tokens + s.granted ≤ capacity + earned rate s.spans)
        × (t + sum s.spans ≡ s.bucket.last_refill)
  grants_bounded r = let v = Reach-paid r in (v.full, omega (arith, v.paid), v.timed)
