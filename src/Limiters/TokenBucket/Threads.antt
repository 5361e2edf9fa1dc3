-- ===== src/Limiters/TokenBucket/Threads.antt =====
-- Any number of threads over one bucket, as interleavings of their accesses.
use limiteron.Common.{
  ℕ, zero, suc, ◌+◌, ◌-◌, ◌≤◌, ◌≡◌, Bool, true, false, List, [], ◌∷◌, some, get_elem?, set,
}
use limiteron.Common.Float.{Float}
use limiteron.Limiters.Cost.{max_cost}
use limiteron.Limiters.TokenBucket.{
  TokenBucketLimiter, Pc, refill_load, refill_cas, tokens_load, consume_cas, done, move, new,
}

pub record Thread : Type 0 where
  pub now : ℕ
  pub cost : ℕ
  pub pc : Pc

-- Beside the bucket and its threads: the tokens granted so far, and the stretches of time, newest
-- first, for which some thread set `last_refill`.
pub record System : Type 0 where
  pub bucket : TokenBucketLimiter
  pub threads : List Thread
  pub granted : ℕ
  pub spans : List ℕ

-- What an access from `p` to `q` grants, and the time that it claims.
abbrev pub grant : ℕ → Pc → Pc → ℕ
grant cost (consume_cas _ _) (done true) = cost
grant cost _ _ = 0

abbrev pub claim : ℕ → Pc → Pc → List ℕ → List ℕ
claim now (refill_cas last _) (tokens_load _) spans = (now - last) ∷ spans
claim now _ _ spans = spans

abbrev pub begun : ℕ → ℕ → ℕ → System → System
begun i now cost s = record s {
  threads = set s.threads i (record { now = now; cost = cost; pc = refill_load });
}

abbrev pub idle : ℕ → List Thread
idle zero = []
idle (suc n) = record { now = 0; cost = 0; pc = done false } ∷ idle n

abbrev pub start : ℕ → ℕ → ℕ → ℕ → System
start n capacity refill_rate t = record {
  bucket = new capacity refill_rate t;
  threads = idle n;
  granted = 0;
  spans = [];
}

module _ (fl : Float) where
  abbrev pub moved : ℕ → Thread → System → System
  moved i t s =
      let (bucket, pc) = move fl t.now t.cost s.bucket t.pc in
      record {
        bucket = bucket;
        threads = set s.threads i (record t { pc = pc });
        granted = s.granted + grant t.cost t.pc pc;
        spans = claim t.now t.pc pc s.spans;
      }

  -- A thread makes its next access, or one whose call is over starts another. The clock that it
  -- reads may lie before another thread's.
  pub data Step : System → System → Type 0 where
    moves :
        {s : System} (i : ℕ) (t : Thread) → get_elem? s.threads i ≡ some t → Step s (moved i t s)
    begins :
        {s : System} (i now cost : ℕ) (t : Thread) (answer : Bool)
        → get_elem? s.threads i ≡ some t
        → t.pc ≡ done answer
        → cost ≤ max_cost
        → Step s (begun i now cost s)

  pub data Reach (n capacity refill_rate t : ℕ) : System → Type 0 where
    here : Reach n capacity refill_rate t (start n capacity refill_rate t)
    next :
        {s u : System}
        → Reach n capacity refill_rate t s
        → Step s u
        → Reach n capacity refill_rate t u
