-- ===== src/Cache/L2/Lru.antt =====
-- `lru::LruCache`, which is not code of the repository: its operations, and what it documents of
-- them. `touch` is the change of the order by a lookup, `write` one through the reference that
-- `get_mut` gives.
use limiteron.Common.{
  inr, sym, ap, ◌∙◌, Bool-cases, arith, text_beq, text_beq_iff, ℕ, Bool, true, false, List, [], ◌∷◌,
  Option, none, some, Text, Text_key, ◌≡◌, ◌≢◌, ◌⊎◌, lookup, insert, remove, lookup-insert_self,
  lookup-insert_ne, lookup-remove_self, lookup-remove_ne, length, refl, inl, if◌then◌else◌, ltb,
}

pub record LruCache (V C : Type 0) : Type 0 where
  pub new : ℕ → C
  pub peek : Text → C → Option V
  pub touch : Text → C → C
  pub write : Text → V → C → C
  pub put : Text → V → C → C
  pub pop : Text → C → C
  pub pop_lru : C → C × Bool
  pub clear : C → C
  pub len : C → ℕ
  pub iter : C → List (Text × V)

-- What is documented: a lookup changes the order only; a write concerns one key; `put` may take
-- another entry out; `iter` goes over all entries.
pub record IsLruCache {V C : Type 0} (lru : LruCache V C) : Type 0 where
  pub peek-new : (k : Text) (n : ℕ) → lru.peek k (lru.new n) ≡ none
  pub peek-touch : (j k : Text) (c : C) → lru.peek j (lru.touch k c) ≡ lru.peek j c
  pub peek-write_self : (k : Text) (v : V) (c : C) → lru.peek k (lru.write k v c) ≡ some v
  pub peek-write_ne :
      (j k : Text) (v : V) (c : C) → j ≢ k → lru.peek j (lru.write k v c) ≡ lru.peek j c
  pub peek-put_self : (k : Text) (v : V) (c : C) → lru.peek k (lru.put k v c) ≡ some v
  pub peek-put_ne :
      (j k : Text) (v : V) (c : C)
      → j ≢ k
      → (lru.peek j (lru.put k v c) ≡ lru.peek j c) ⊎ (lru.peek j (lru.put k v c) ≡ none)
  pub peek-pop_self : (k : Text) (c : C) → lru.peek k (lru.pop k c) ≡ none
  pub peek-pop_ne : (j k : Text) (c : C) → j ≢ k → lru.peek j (lru.pop k c) ≡ lru.peek j c
  pub lookup-iter : (k : Text) (c : C) → lookup k (lru.iter c) ≡ lru.peek k c

-- A list with the most recent entry first: a value that the parameter can take.
module _ {V : Type 0} where
  unfoldable pub drop_last : List (Text × V) → List (Text × V)
  drop_last [] = []
  drop_last (e ∷ []) = []
  drop_last (e ∷ f ∷ rest) = e ∷ drop_last (f ∷ rest)

  unfoldable pub moved : Text → Option V → List (Text × V) → List (Text × V)
  unfolding remove
  moved k none entries = entries
  moved k (some v) entries = (k, v) ∷ remove k entries

  unfoldable pub room_for : ℕ → List (Text × V) → List (Text × V)
  unfolding drop_last
  room_for capacity entries = if ltb (length entries) capacity then entries else drop_last entries

  unfoldable pub list_lru : LruCache V (ℕ × List (Text × V))
  unfolding moved room_for lookup insert remove
  list_lru = record {
    new = λ n. (n, []);
    peek = λ k c. lookup k c.1;
    touch = λ k c. (c.0, moved k (lookup k c.1) c.1);
    write = λ k v c. (c.0, insert k v c.1);
    put = λ k v c. (c.0, (k, v) ∷ room_for c.0 (remove k c.1));
    pop = λ k c. (c.0, remove k c.1);
    pop_lru = λ c. elim c.1 [ [] ↦ (c, false) | e ∷ rest ↦ ((c.0, drop_last c.1), true) ];
    clear = λ c. (c.0, []);
    len = λ c. length c.1;
    iter = λ c. c.1;
  }

  lookup-drop_last :
      (j : Text) (entries : List (Text × V))
      → (lookup j (drop_last entries) ≡ lookup j entries) ⊎ (lookup j (drop_last entries) ≡ none)
  unfolding drop_last lookup
  lookup-drop_last j [] = inl refl
  lookup-drop_last j (e ∷ []) = inr refl
  lookup-drop_last j (e ∷ f ∷ rest) = ground (arith, lookup-drop_last j (f ∷ rest))

  lookup-room_for :
      (j : Text) (n : ℕ) (entries : List (Text × V))
      → (lookup j (room_for n entries) ≡ lookup j entries) ⊎ (lookup j (room_for n entries) ≡ none)
  unfolding room_for
  lookup-room_for j n entries = elim (Bool-cases (ltb (length entries) n)) [
    | inl e ↦ rw e (inl refl)
    | inr e ↦ rw e (lookup-drop_last j entries)
  ]

  lookup-moved :
      (j k : Text) (o : Option V) (entries : List (Text × V))
      → lookup k entries ≡ o
      → lookup j (moved k o entries) ≡ lookup j entries
  unfolding moved lookup
  lookup-moved j k none entries e = refl
  lookup-moved j k (some v) entries e = elim (Bool-cases (text_beq j k)) [
    | inl same ↦ rw same (sym (ap (λ (t : Text). lookup t entries) ((text_beq_iff j k).0 same) ∙ e))
    | inr other ↦ rw other (lookup-remove_ne k j entries (λ d. ground (arith, text_beq_iff j k)))
  ]

  head_ne :
      (j k : Text) (v : V) (entries : List (Text × V))
      → j ≢ k
      → lookup j ((k, v) ∷ entries) ≡ lookup j entries
  unfolding lookup
  head_ne j k v entries d =
      let e : text_beq j k ≡ false = ground (arith, text_beq_iff j k) in rw e refl

  head_self : (k : Text) (v : V) (entries : List (Text × V)) → lookup k ((k, v) ∷ entries) ≡ some v
  unfolding lookup
  head_self k v entries = let e : text_beq k k ≡ true = (text_beq_iff k k).1 refl in rw e refl

  pub list_lru-IsLruCache : IsLruCache list_lru
  unfolding list_lru
  list_lru-IsLruCache = record {
    peek-new = λ k n. refl;
    peek-touch = λ j k c. lookup-moved j k (lookup k c.1) c.1 refl;
    peek-write_self = λ k v c. lookup-insert_self k v c.1;
    peek-write_ne = λ j k v c d. lookup-insert_ne k j v c.1 d;
    peek-put_self = λ k v c. head_self k v _;
    peek-put_ne = λ j k v c d.
        rw (head_ne j k v (room_for c.0 (remove k c.1)) d, sym (lookup-remove_ne k j c.1 d))
          (lookup-room_for j c.0 (remove k c.1));
    peek-pop_self = λ k c. lookup-remove_self k c.1;
    peek-pop_ne = λ j k c d. lookup-remove_ne k j c.1 d;
    lookup-iter = λ k c. refl;
  }
