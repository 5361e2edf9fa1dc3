-- ===== src/Config/History.antt =====
-- src/config.rs: the history of configuration changes.
use limiteron.Common.{
  ℕ, zero, suc, ◌+◌, ◌-◌, ◌≤◌, true, false, List, [], ◌∷◌, ◌++◌, Option, none, some, Text, length,
  length-append, ltb, if◌then◌else◌, ◌≡◌, refl, sym, ap, ◌∙◌, inl, inr, arith, Bool-cases,
}
use mathlib.Core.List.{append_assoc, append-nil}

pub data ChangeSource : Type 0 where
  manual : Text → ChangeSource
  poll watch api : ChangeSource

pub record ConfigChangeRecord : Type 0 where
  pub timestamp : ℕ
  pub old_version : Option Text
  pub new_version : Text
  pub old_hash : Option Text
  pub new_hash : Text
  pub source : ChangeSource
  pub changes : List Text

pub record ConfigHistory : Type 0 where
  pub records : List ConfigChangeRecord
  pub max_records : ℕ

unfoldable pub new_history : ℕ → ConfigHistory
new_history max_records = record { records = []; max_records = max_records }

-- `remove(0)`
abbrev pub remove_first : List ConfigChangeRecord → List ConfigChangeRecord
remove_first [] = []
remove_first (r ∷ rest) = rest

unfoldable pub add_record : ConfigChangeRecord → ConfigHistory → ConfigHistory
add_record r history =
    let pushed = history.records ++ (r ∷ []) in
    record history {
      records = if ltb history.max_records (length pushed) then remove_first pushed else pushed;
    }

-- `last`
unfoldable pub last_of : List ConfigChangeRecord → Option ConfigChangeRecord
last_of [] = none
last_of (r ∷ []) = some r
last_of (r ∷ s ∷ rest) = last_of (s ∷ rest)

unfoldable pub get_latest : ConfigHistory → Option ConfigChangeRecord
unfolding last_of
get_latest history = last_of history.records

unfoldable pub clear : ConfigHistory → ConfigHistory
clear history = record history { records = [] }

-- Additions in turn.
unfoldable pub add_all : List ConfigChangeRecord → ConfigHistory → ConfigHistory
unfolding add_record
add_all [] history = history
add_all (r ∷ rest) history = add_all rest (add_record r history)

abbrev pub drop : ℕ → List ConfigChangeRecord → List ConfigChangeRecord
drop zero rs = rs
drop (suc n) [] = []
drop (suc n) (r ∷ rs) = drop n rs

add_record-fits :
    (r : ConfigChangeRecord) (records : List ConfigChangeRecord) (most : ℕ)
    → ltb most (length (records ++ (r ∷ []))) ≡ false
    → add_record r (record { records = records; max_records = most })
      ≡ record { records = records ++ (r ∷ []); max_records = most }
unfolding add_record
add_record-fits r records most e = rw e refl

add_record-over :
    (r : ConfigChangeRecord) (records : List ConfigChangeRecord) (most : ℕ)
    → ltb most (length (records ++ (r ∷ []))) ≡ true
    → add_record r (record { records = records; max_records = most })
      ≡ record { records = remove_first (records ++ (r ∷ [])); max_records = most }
unfolding add_record
add_record-over r records most e = rw e refl

kept :
    (added records : List ConfigChangeRecord) (most : ℕ)
    → length records ≤ most
    → (add_all added (record { records = records; max_records = most })).records
      ≡ drop (length records + length added - most) (records ++ added)
unfolding add_all
kept [] records most h =
    let e : length records + 0 - most ≡ 0 = omega arith in rw e (sym (append-nil records))
kept (r ∷ rest) records most h = elim (Bool-cases (ltb most (length (records ++ (r ∷ []))))) [
  | inr fits ↦
      let n = length-append records (r ∷ []) in
      let m : length (records ++ (r ∷ [])) + length rest ≡ length records + suc (length rest) =
        omega (arith, n) in
      ap (λ (history : ConfigHistory). (add_all rest history).records)
        (add_record-fits r records most fits)
      ∙ kept rest (records ++ (r ∷ [])) most (ground arith)
      ∙ rw m (
          ap (drop (length records + suc (length rest) - most))
            (append_assoc records (r ∷ []) rest))
  | inl over ↦
      ap (λ (history : ConfigHistory). (add_all rest history).records)
        (add_record-over r records most over)
      ∙ shifted (kept rest) records h over
]
  where
    shifted :
        ((rs : List ConfigChangeRecord) (m : ℕ)
          → length rs ≤ m
          → (add_all rest (record { records = rs; max_records = m })).records
            ≡ drop (length rs + length rest - m) (rs ++ rest))
        → (records : List ConfigChangeRecord) → length records ≤ most
        → ltb most (length (records ++ (r ∷ []))) ≡ true
        → (add_all rest
            (record { records = remove_first (records ++ (r ∷ [])); max_records = most })).records
          ≡ drop (length records + suc (length rest) - most) (records ++ (r ∷ rest))
    shifted ih [] h over =
        let n : 0 + suc (length rest) - most ≡ suc (length rest - most) = ground arith in
        let m : 0 + length rest - most ≡ length rest - most = omega arith in
        rw n (ih [] most (omega arith) ∙ rw m refl)
    shifted ih (s ∷ rs) h over =
        let l = length-append rs (r ∷ []) in
        let n : suc (length rs) + suc (length rest) - most
            ≡ suc (length (rs ++ (r ∷ [])) + length rest - most) =
          ground (arith, l) in
        rw n (
          ih (rs ++ (r ∷ [])) most (ground (arith, l))
          ∙ ap (drop (length (rs ++ (r ∷ [])) + length rest - most))
              (append_assoc rs (r ∷ []) rest))

-- A history holds the last of the records that were added to it, as many as it may hold, in order.
pub add_all-keeps_last :
    (most : ℕ) (added : List ConfigChangeRecord)
    → (add_all added (new_history most)).records ≡ drop (length added - most) added
unfolding new_history
add_all-keeps_last most added =
    let e : 0 + length added - most ≡ length added - most = omega arith in
    kept added [] most (omega arith) ∙ rw e refl
