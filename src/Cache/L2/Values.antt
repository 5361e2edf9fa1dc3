-- ===== src/Cache/L2/Values.antt =====
-- src/cache/l2.rs: what the cache holds for a key, and what the operations do to it.
use limiteron.Common.{
  ℕ, ◌+◌, ◌≤◌, true, false, Bool-cases, List, [], ◌∷◌, Option, none, some, Text, Text_key, text_beq,
  text_beq_iff, lookup, ltb, if◌then◌else◌, ◌≡◌, ◌≢◌, refl, sym, ap, ◌∙◌, ◌⊎◌, inl, inr, arith, All,
  Distinct,
}
use limiteron.Cache.L2.{
  CacheEntry, new_entry, is_expired, update_access, L2Cache, some_or, got, get, set, expired_keys,
  expire_each, cleanup_expired,
}
use limiteron.Cache.L2.Lru.{LruCache, IsLruCache}

-- What an entry is worth at a time.
abbrev pub worth : ℕ → Option CacheEntry → Option Text
worth now none = none
worth now (some entry) = if is_expired now entry then none else some entry.value

-- The entry of the key is expired.
abbrev IsGone : ℕ → List (Text × CacheEntry) → Text → Type 0
IsGone now xs k = (entry : CacheEntry) × (lookup k xs ≡ some entry) × (is_expired now entry ≡ true)

behind-IsGone :
    (now : ℕ) (e : Text × CacheEntry) (rest : List (Text × CacheEntry)) (keys : List Text)
    → lookup e.0 rest ≡ none
    → All (IsGone now rest) keys
    → All (IsGone now (e ∷ rest)) keys
unfolding lookup
behind-IsGone now e rest [] d a = tt
behind-IsGone now e rest (k ∷ keys) d a = (
  elim (Bool-cases (text_beq k e.0)) [
    | inr other ↦ rw other a.0
    | inl same ↦ absurd (
        none_some
          (sym d ∙ ap (λ (t : Text). lookup t rest) (sym ((text_beq_iff k e.0).0 same)) ∙ a.0.1))
  ],
  behind-IsGone now e rest keys d a.1,
)
  where
    none_some : {x : CacheEntry} → none ≡ some x → ⊥
    none_some h = ground arith

expired_keys-IsGone :
    (now : ℕ) (xs : List (Text × CacheEntry))
    → Distinct xs
    → All (IsGone now xs) (expired_keys now xs)
unfolding expired_keys
expired_keys-IsGone now [] d = tt
expired_keys-IsGone now (e ∷ rest) d =
    let later =
      behind-IsGone now e rest (expired_keys now rest) d.0 (expired_keys-IsGone now rest d.1) in
    elim (Bool-cases (is_expired now e.1)) [
      | inl gone ↦ rw gone ((e.1, first e rest, gone), later)
      | inr live ↦ rw live later
    ]
  where
    first :
        (e : Text × CacheEntry) (rest : List (Text × CacheEntry)) → lookup e.0 (e ∷ rest) ≡ some e.1
    first e rest =
        unfold lookup in
        (let h : text_beq e.0 e.0 ≡ true = (text_beq_iff e.0 e.0).1 refl in rw h refl)

module _ {C : Type 0} (lru : LruCache CacheEntry C) (documented : IsLruCache lru) where
  -- What a cache holds for a key at a time.
  abbrev pub value_at : ℕ → Text → L2Cache C → Option Text
  value_at now key cache = worth now (lru.peek key cache.entries)

  -- What `get` answers, and that it changes what no key holds, at no later time.
  abbrev pub Gets : ℕ → Text → L2Cache C → L2Cache C × Option Text → Type 0
  Gets now key before (after, answer) =
      (answer ≡ value_at now key before)
      × ((j : Text) (t : ℕ) → now ≤ t → value_at t j after ≡ value_at t j before)

  later_expired :
      (now t : ℕ) (entry : CacheEntry)
      → now ≤ t
      → is_expired now entry ≡ true
      → is_expired t entry ≡ true
  unfolding is_expired
  later_expired now t entry h e = go entry.expires_at e
    where
      go :
          (o : Option ℕ)
          → (elim o [ some u ↦ ltb u now | none ↦ false ]) ≡ true
          → (elim o [ some u ↦ ltb u t | none ↦ false ]) ≡ true
      go none f = f
      go (some u) f = ground arith

  same_entry :
      (now t : ℕ) (entry : CacheEntry)
      → worth t (some (update_access now entry)) ≡ worth t (some entry)
  unfolding update_access is_expired
  same_entry now t entry = refl

  -- An entry that is expired at `now` may be taken out.
  popped-value :
      (now t : ℕ) (j key : Text) (entry : CacheEntry) (c : C)
      → now ≤ t
      → lru.peek key c ≡ some entry
      → is_expired now entry ≡ true
      → worth t (lru.peek j (lru.pop key c)) ≡ worth t (lru.peek j c)
  popped-value now t j key entry c h e gone = elim (Bool-cases (text_beq j key)) [
    | inr other ↦
        ap (worth t) (documented.peek-pop_ne j key c (λ d. ground (arith, text_beq_iff j key)))
    | inl same ↦
        let q = (text_beq_iff j key).0 same in
        ap (λ (k : Text). worth t (lru.peek k (lru.pop key c))) q
        ∙ ap (worth t) (documented.peek-pop_self key c)
        ∙ sym (
            ap (λ (k : Text). worth t (lru.peek k c)) q
            ∙ ap (worth t) e
            ∙ rw (later_expired now t entry h gone) refl)
  ]

  written-value :
      (now t : ℕ) (j key : Text) (entry : CacheEntry) (c : C)
      → lru.peek key c ≡ some entry
      → worth t (lru.peek j (lru.write key (update_access now entry) c)) ≡ worth t (lru.peek j c)
  written-value now t j key entry c e = elim (Bool-cases (text_beq j key)) [
    | inr other ↦
        ap (worth t) (documented.peek-write_ne j key _ c (λ d. ground (arith, text_beq_iff j key)))
    | inl same ↦
        let q = (text_beq_iff j key).0 same in
        ap (λ (k : Text). worth t (lru.peek k (lru.write key (update_access now entry) c))) q
        ∙ ap (worth t) (documented.peek-write_self key (update_access now entry) c)
        ∙ same_entry now t entry
        ∙ sym (ap (λ (k : Text). worth t (lru.peek k c)) q ∙ ap (worth t) e)
  ]

  got-Gets :
      (now later : ℕ) (key : Text) (o : Option CacheEntry) (cache : L2Cache C)
      → lru.peek key cache.entries ≡ o
      → Gets now key cache (got lru now later key o cache)
  unfolding got
  got-Gets now later key none cache e = (sym (ap (worth now) e), λ j t h. refl)
  got-Gets now later key (some entry) cache e = elim (Bool-cases (is_expired now entry)) [
    | inl gone ↦ rw gone (
      sym (ap (worth now) e ∙ rw gone refl),
      λ j t h. popped-value now t j key entry cache.entries h e gone,
    )
    | inr live ↦ rw live (
      sym (ap (worth now) e ∙ rw live refl),
      λ j t h. written-value later t j key entry cache.entries e,
    )
  ]

  -- `get` answers with the value of the key that is not expired, and with none where there is no such
  -- value; it changes nothing that any key holds from then on.
  pub get-answers :
      (now later : ℕ) (key : Text) (cache : L2Cache C)
      → let (after, answer) = get lru now later key cache in
        (answer ≡ value_at now key cache)
        × ((j : Text) (t : ℕ) → now ≤ t → value_at t j after ≡ value_at t j cache)
  unfolding get
  get-answers now later key cache =
      let touched : L2Cache C = record cache { entries = lru.touch key cache.entries } in
      let (a, b) =
        got-Gets now later key (lru.peek key cache.entries) touched
          (documented.peek-touch key key cache.entries) in
      (
        a ∙ ap (worth now) (documented.peek-touch key key cache.entries),
        λ j t h. b j t h ∙ ap (worth t) (documented.peek-touch j key cache.entries),
      )

  -- A value that was set is held until its time to live is over, for good where there is none, and
  -- not after that; every other key holds what it held, or nothing where its entry was evicted.
  pub set-value :
      (now later : ℕ) (key value : Text) (ttl : Option ℕ) (cache : L2Cache C)
      → let after = set lru now later key value ttl cache in
        ((t : ℕ)
          → value_at t key after ≡ (elim (some_or ttl cache.default_ttl) [
            | none ↦ some value
            | some d ↦ if ltb (now + d) t then none else some value
          ]))
        × ((t : ℕ) (j : Text)
            → j ≢ key
            → (value_at t j after ≡ value_at t j cache) ⊎ (value_at t j after ≡ none))
  unfolding set new_entry is_expired
  set-value now later key value ttl cache =
      let entry = new_entry now later value (some_or ttl cache.default_ttl) in
      (
        (λ t.
            ap (worth t) (documented.peek-put_self key entry cache.entries)
            ∙ go t (some_or ttl cache.default_ttl)),
        λ t j d. elim (documented.peek-put_ne j key entry cache.entries d) [
          | inl e ↦ inl (ap (worth t) e)
          | inr e ↦ inr (ap (worth t) e)
        ],
      )
    where
      go :
          (t : ℕ) (o : Option ℕ)
          → worth t (some (new_entry now later value o))
            ≡ (elim o [ none ↦ some value | some d ↦ if ltb (now + d) t then none else some value ])
      go t none = refl
      go t (some d) = refl

  -- Nothing is under the key, or an entry that is expired.
  abbrev IsDead : ℕ → C → Text → Type 0
  IsDead now c k =
      (lru.peek k c ≡ none)
      ⊎ ((entry : CacheEntry) × (lru.peek k c ≡ some entry) × (is_expired now entry ≡ true))

  popped-IsDead : (now : ℕ) (j k : Text) (c : C) → IsDead now c k → IsDead now (lru.pop j c) k
  popped-IsDead now j k c h = elim (Bool-cases (text_beq k j)) [
    | inl same ↦ inl (
        ap (λ (q : Text). lru.peek q (lru.pop j c)) ((text_beq_iff k j).0 same)
        ∙ documented.peek-pop_self j c)
    | inr other ↦
        let e = documented.peek-pop_ne k j c (λ d. ground (arith, text_beq_iff k j)) in
        elim h [ inl f ↦ inl (e ∙ f) | inr f ↦ inr (f.0, e ∙ f.1, f.2) ]
  ]

  All-IsDead :
      (now : ℕ) (j : Text) (c : C) (keys : List Text)
      → All (IsDead now c) keys
      → All (IsDead now (lru.pop j c)) keys
  All-IsDead now j c [] a = tt
  All-IsDead now j c (k ∷ rest) a = (popped-IsDead now j k c a.0, All-IsDead now j c rest a.1)

  dead-value :
      (now t : ℕ) (j key : Text) (c : C)
      → now ≤ t
      → IsDead now c key
      → worth t (lru.peek j (lru.pop key c)) ≡ worth t (lru.peek j c)
  dead-value now t j key c h (inr d) = popped-value now t j key d.0 c h d.1 d.2
  dead-value now t j key c h (inl d) = elim (Bool-cases (text_beq j key)) [
    | inr other ↦
        ap (worth t) (documented.peek-pop_ne j key c (λ d. ground (arith, text_beq_iff j key)))
    | inl same ↦
        let q = (text_beq_iff j key).0 same in
        ap (λ (k : Text). worth t (lru.peek k (lru.pop key c))) q
        ∙ ap (worth t) (documented.peek-pop_self key c ∙ sym d)
        ∙ sym (ap (λ (k : Text). worth t (lru.peek k c)) q)
  ]

  expire_each-value :
      (now t : ℕ) (keys : List Text) (cache : L2Cache C)
      → now ≤ t
      → All (IsDead now cache.entries) keys
      → (j : Text) → value_at t j (expire_each lru keys cache) ≡ value_at t j cache
  unfolding expire_each
  expire_each-value now t [] cache h a j = refl
  expire_each-value now t (key ∷ rest) cache h a j =
      expire_each-value now t rest _ h (All-IsDead now key cache.entries rest a.1) j
      ∙ dead-value now t j key cache.entries h a.0

  -- The cleanup changes nothing that any key holds from then on, in a map without a key that stands
  -- twice.
  pub cleanup_expired-value :
      (now t : ℕ) (cache : L2Cache C)
      → Distinct (lru.iter cache.entries)
      → now ≤ t
      → (j : Text) → value_at t j (cleanup_expired lru now cache).0 ≡ value_at t j cache
  unfolding cleanup_expired
  cleanup_expired-value now t cache d h j =
      expire_each-value now t _ cache h
        (found (expired_keys now (lru.iter cache.entries))
          (expired_keys-IsGone now (lru.iter cache.entries) d))
        j
    where
      found :
          (keys : List Text)
          → All (IsGone now (lru.iter cache.entries)) keys
          → All (IsDead now cache.entries) keys
      found [] a = tt
      found (k ∷ rest) a =
          (inr (a.0.0, sym (documented.lookup-iter k cache.entries) ∙ a.0.1, a.0.2), found rest a.1)
