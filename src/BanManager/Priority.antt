-- ===== src/BanManager/Priority.antt =====
-- What `check_ban_priority` looks at, over `MemoryStorage`.
use limiteron.Common.{
  ℕ, ◌≡◌, ◌↔◌, ◌∙◌, ap, sym, refl, Bool, List, [], ◌∷◌, Option, none, some, arith, All, Text,
  lookup, Option-cases, inl, inr,
}
use mathlib.Core.Path.{subst}
use limiteron.Errors.{ok}
use limiteron.Storage.Interface.{stored, BanTarget, BanTarget_key, BanRecord}
use limiteron.Storage.Memory.{MemoryStorage, memory_bans}
use limiteron.Storage.Memory as Memory
use limiteron.Storage.Bans.{in_force, is_banned-in_force, asked-answer}
use limiteron.BanManager.{BanManager, detail_of, find_ip, skip_ips, check_each, check_ban_priority}

-- No ban holds for a target.
abbrev pub IsClear : ℕ → MemoryStorage → BanTarget → Type 0
IsClear now s t = in_force now (lookup t s.bans) ≡ none

abbrev pub FirstIsClear : ℕ → MemoryStorage → Option BanTarget → Type 0
FirstIsClear now s none = Unit {0}
FirstIsClear now s (some t) = IsClear now s t

-- A question does not change the answers at its time.
asked-in_force :
    (now : ℕ) (t u : BanTarget) (s : MemoryStorage)
    → in_force now (lookup u (Memory.is_banned now t s).0.bans) ≡ in_force now (lookup u s.bans)
asked-in_force now t u s =
    let e : stored (in_force now (lookup u (Memory.is_banned now t s).0.bans))
        ≡ stored (in_force now (lookup u s.bans)) =
      sym (is_banned-in_force now u _)
      ∙ asked-answer now now t u s (omega arith)
      ∙ is_banned-in_force now u s in
    cc

module _ {Json : Type 0} (empty_object : Json) (is_ip_address : Text → Bool)
    (date_add : ℕ → ℕ → Option ℕ) where
  check_each-clear :
      (now : ℕ) (id : Text) (t : BanTarget) (rest : List BanTarget) (b : BanManager MemoryStorage)
      → (Memory.is_banned now t b.storage).1 ≡ stored none
      → check_each empty_object is_ip_address date_add memory_bans now id (t ∷ rest) b
        ≡ check_each empty_object is_ip_address date_add memory_bans now id rest
            (record b { storage = (Memory.is_banned now t b.storage).0 })
  unfolding check_each
  check_each-clear now id t rest b e = ground arith

  check_each-found :
      (now : ℕ) (id : Text) (t : BanTarget) (rest : List BanTarget) (b : BanManager MemoryStorage)
      (r : BanRecord)
      → (Memory.is_banned now t b.storage).1 ≡ stored (some r)
      → (check_each empty_object is_ip_address date_add memory_bans now id (t ∷ rest) b).1
        ≡ ok (some (detail_of empty_object is_ip_address date_add id r))
  unfolding check_each
  check_each-found now id t rest b r e = ground arith

  All-IsClear-asked :
      (now : ℕ) (t : BanTarget) (s : MemoryStorage) (targets : List BanTarget)
      → All (IsClear now (Memory.is_banned now t s).0) targets ↔ All (IsClear now s) targets
  All-IsClear-asked now t s [] = (λ h. h, λ h. h)
  All-IsClear-asked now t s (u ∷ rest) =
      let same = asked-in_force now t u s in
      let below = All-IsClear-asked now t s rest in
      (λ h. (sym same ∙ h.0, below.0 h.1), λ h. (same ∙ h.0, below.1 h.1))

  check_each-none_iff :
      (now : ℕ) (id : Text) (targets : List BanTarget) (b : BanManager MemoryStorage)
      → ((check_each empty_object is_ip_address date_add memory_bans now id targets b).1 ≡ ok none)
        ↔ All (IsClear now b.storage) targets
  unfolding check_each
  check_each-none_iff now id [] b = (λ h. tt, λ a. refl)
  check_each-none_iff now id (t ∷ rest) b =
      let answer = is_banned-in_force now t b.storage in
      elim (Option-cases (in_force now (lookup t b.storage.bans))) [
        | inl clear ↦
            let step = check_each-clear now id t rest b (answer ∙ ap stored clear) in
            let ih =
              check_each-none_iff now id rest
                (record b { storage = (Memory.is_banned now t b.storage).0 }) in
            let same = All-IsClear-asked now t b.storage rest in
            (
              λ h. (clear, same.0 (ih.0 (ap (λ x. x.1) (sym step) ∙ h))),
              (λ a. ap (λ x. x.1) step ∙ ih.1 (same.1 a.1)),
            )
        | inr (r, held) ↦
            let step = check_each-found now id t rest b r (answer ∙ ap stored held) in
            (λ h. absurd (cc), (λ a. absurd (cc)))
      ]

  module _ (now : ℕ) (id : Text) (targets : List BanTarget) (b : BanManager MemoryStorage) where
    no_ip :
        find_ip targets ≡ none
        → check_ban_priority empty_object is_ip_address date_add memory_bans now id targets b
          ≡ check_each empty_object is_ip_address date_add memory_bans now id (skip_ips targets) b
    unfolding check_ban_priority
    no_ip e = rw e refl

    clear_ip :
        (t : BanTarget)
        → find_ip targets ≡ some t
        → (Memory.is_banned now t b.storage).1 ≡ stored none
        → check_ban_priority empty_object is_ip_address date_add memory_bans now id targets b
          ≡ check_each empty_object is_ip_address date_add memory_bans now id
              (skip_ips targets)
              (record b { storage = (Memory.is_banned now t b.storage).0 })
    unfolding check_ban_priority
    clear_ip t e f = ground arith

    banned_ip :
        (t : BanTarget) (r : BanRecord)
        → find_ip targets ≡ some t
        → (Memory.is_banned now t b.storage).1 ≡ stored (some r)
        → (check_ban_priority empty_object is_ip_address date_add memory_bans now id targets b).1
          ≡ ok (some (detail_of empty_object is_ip_address date_add id r))
    unfolding check_ban_priority
    banned_ip t r e f = ground arith

    -- No ban is reported exactly if none holds for the first of the IP targets and none for any target
    -- that is not an IP. The other IP targets are not looked at.
    pub check_ban_priority-none_iff :
        ((check_ban_priority empty_object is_ip_address date_add memory_bans now id targets b).1
          ≡ ok none)
        ↔ (FirstIsClear now b.storage (find_ip targets)
            × All (IsClear now b.storage) (skip_ips targets))
    check_ban_priority-none_iff = elim (Option-cases (find_ip targets)) [
      | inl e ↦
          let each = check_each-none_iff now id (skip_ips targets) b in
          let run = no_ip e in
          (
            λ h. (rw e tt, each.0 (ap (λ x. x.1) (sym run) ∙ h)),
            (λ c. ap (λ x. x.1) run ∙ each.1 c.1),
          )
      | inr (t, e) ↦
          let answer = is_banned-in_force now t b.storage in
          elim (Option-cases (in_force now (lookup t b.storage.bans))) [
            | inl clear ↦
                let run = clear_ip t e (answer ∙ ap stored clear) in
                let each =
                  check_each-none_iff now id (skip_ips targets)
                    (record b { storage = (Memory.is_banned now t b.storage).0 }) in
                let same = All-IsClear-asked now t b.storage (skip_ips targets) in
                (
                  λ h. (rw e clear, same.0 (each.0 (ap (λ x. x.1) (sym run) ∙ h))),
                  (λ c. ap (λ x. x.1) run ∙ each.1 (same.1 c.1)),
                )
            | inr (r, held) ↦
                let run = banned_ip t r e (answer ∙ ap stored held) in
                (
                  λ h. absurd (cc),
                  (λ c.
                      let c0 : FirstIsClear now b.storage (some t) =
                        subst (FirstIsClear now b.storage) e c.0 in
                      absurd (cc)),
                )
          ]
    ]
