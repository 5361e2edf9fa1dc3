-- ===== src/CustomLimiter/Registry.antt =====
-- src/custom_limiter.rs: `CustomLimiterRegistry`. `S` is the state that the limiters keep together; a
-- lookup and its answer run under one lock.
use limiteron.Common.{
  Bool-cases, inl, inr, ap, ℕ, Bool, true, false, List, [], ◌∷◌, Option, none, some, Text, Text_key,
  length, lookup, insert, remove, if◌then◌else◌, ◌≡◌, ◌≢◌, refl, lookup-insert_self,
  lookup-insert_ne, lookup-remove_self, map,
}
use limiteron.Errors.{format, chars, config_error, Result, ok, err}
use limiteron.CustomLimiter.{LimiterStats}

pub record CustomLimiter (S : Type 0) : Type 0 where
  pub name : Text
  pub allow : ℕ → S → S × Result Bool
  pub stats : S → LimiterStats

abbrev pub Limiters : Type 0 → Type 0
Limiters S = List (Text × CustomLimiter S)

abbrev pub is_some {ℓ} : {A : Type ℓ} → Option A → Bool
is_some none = false
is_some (some a) = true

module _ {S : Type 0} where
  unfoldable pub contains_key : Text → Limiters S → Bool
  unfolding lookup
  contains_key name limiters = elim (lookup name limiters) [ none ↦ false | some l ↦ true ]

  unfoldable pub register : Text → CustomLimiter S → Limiters S → Limiters S × Result (Unit {0})
  unfolding contains_key insert
  register name limiter limiters =
      if contains_key name limiters
      then (limiters, err (config_error (format "限流器 '{}' 已存在" (chars name ∷ []))))
      else (insert name limiter limiters, ok tt)

  -- `get`, which answers with none on both branches.
  unfoldable pub get : Text → Limiters S → Option (CustomLimiter S)
  unfolding lookup
  get name limiters = elim (lookup name limiters) [ some l ↦ none | none ↦ none ]

  unfoldable pub unregister : Text → Limiters S → Limiters S × Result (Unit {0})
  unfolding contains_key remove
  unregister name limiters =
      if contains_key name limiters
      then (remove name limiters, ok tt)
      else (limiters, err (config_error (format "限流器 '{}' 不存在" (chars name ∷ []))))

  unfoldable pub list : Limiters S → List Text
  list limiters = map (λ e. e.0) limiters

  unfoldable pub count : Limiters S → ℕ
  count limiters = length limiters

  unfoldable pub clear : Limiters S → Limiters S
  clear limiters = []

  -- `ok_or_else` and the call of the limiter that was found.
  unfoldable pub with_limiter :
      {A : Type 0}
      → Text
      → (CustomLimiter S → S × Result A)
      → S
      → Option (CustomLimiter S)
      → S × Result A
  with_limiter name f s none = (s, err (config_error (format "限流器 '{}' 不存在" (chars name ∷ []))))
  with_limiter name f s (some limiter) = f limiter

  unfoldable pub allow : Text → ℕ → Limiters S → S → S × Result Bool
  unfolding with_limiter lookup
  allow name cost limiters s =
      with_limiter name (λ limiter. limiter.allow cost s) s (lookup name limiters)

  unfoldable pub get_stats : Text → Limiters S → S → S × Result LimiterStats
  unfolding with_limiter lookup
  get_stats name limiters s =
      with_limiter name (λ limiter. (s, ok (limiter.stats s))) s (lookup name limiters)

unregister-gone :
    {S : Type 0} (name : Text) (limiters : Limiters S)
    → contains_key name (unregister name limiters).0 ≡ false
unfolding unregister
unregister-gone name limiters = elim (Bool-cases (contains_key name limiters)) [
  | inl e ↦ rw e (unfold contains_key in ap is_some (lookup-remove_self name limiters))
  | inr e ↦ rw e e
]

-- The registry `after` has the limiter under the name, and is as `before` otherwise.
abbrev pub Registered : {S : Type 0} → Text → CustomLimiter S → Limiters S → Limiters S → Type 0
Registered {S} name limiter before after =
    ((cost : ℕ) (s : S) → allow name cost after s ≡ limiter.allow cost s)
    × ((other : Text) (cost : ℕ) (s : S)
        → other ≢ name
        → allow other cost after s ≡ allow other cost before s)
    × (contains_key name (unregister name after).0 ≡ false)

-- A name is registered once: a second registration is refused with an error and changes nothing. A
-- limiter that was registered is the one that decides under its name until it is unregistered, and no
-- other name is concerned.
pub register_lem :
    {S : Type 0} (name : Text) (limiter : CustomLimiter S) (limiters : Limiters S)
    → (contains_key name limiters ≡ true
        → register name limiter limiters
          ≡ (limiters, err (config_error (format "限流器 '{}' 已存在" (chars name ∷ [])))))
      × (contains_key name limiters ≡ false
          → ((register name limiter limiters).1 ≡ ok tt)
            × Registered name limiter limiters (register name limiter limiters).0)
unfolding register allow with_limiter
register_lem name limiter limiters = (
  λ e. rw e refl,
  λ e.
      let after = insert name limiter limiters in
      let self = lookup-insert_self name limiter limiters in
      rw e (
        refl,
        (
          (λ cost s. rw self refl),
          (λ other cost s d. rw (lookup-insert_ne name other limiter limiters d) refl),
          unregister-gone name after,
        ),
      ),
)
