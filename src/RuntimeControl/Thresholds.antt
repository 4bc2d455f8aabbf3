-- ===== src/RuntimeControl/Thresholds.antt =====
-- What `decide` of controller/runtime_control.py decides, and over several samples.
use v91_core_system.Prelude.{
  ℕ, ◌+◌, ◌≤◌, ◌<◌, ◌≡◌, ◌↔◌, ◌⊎◌, true, false, some, List, [], ◌∷◌, arith,
}
use v91_core_system.Prelude.Float.{Floats}
use v91_core_system.RuntimeControl.Decision.{
  Snapshot, Scaling, scale_up, scale_down, decide, is_high, is_low, target_of,
}

module _ ⦃fl : Floats⦄ where
  -- `decide` scales up exactly when the count is 1 or 2 and a scale-up threshold is met. It scales
  -- down exactly when the count is 2 or 3, no scale-up threshold is met, use is low, and two low
  -- samples came before.
  pub decide_exact :
      (s : Snapshot fl.Carrier) (n : ℕ)
      → (((decide s n).0 ≡ some scale_up)
          ↔ ((1 ≤ s.replicas) × (s.replicas < 3) × (is_high s ≡ true)))
        × (((decide s n).0 ≡ some scale_down) ↔ (
            (1 < s.replicas)
            × (s.replicas ≤ 3)
            × (is_high s ≡ false)
            × (is_low s ≡ true)
            × (2 ≤ n)))
  unfolding decide
  decide_exact s n =
      (((λ h. ground arith), (λ h. ground arith)), ((λ h. ground arith), (λ h. ground arith)))

  -- Whatever the sample count that was read, the target of a decision that acts lies between 1 and
  -- 3 replicas and differs by one from the observed count, and the next sample count is 2 at most.
  pub decide_bounds :
      (s : Snapshot fl.Carrier) (n : ℕ) (a : Scaling)
      → (decide s n).0 ≡ some a
      → let target = target_of (some a) s.replicas in
        (1 ≤ target)
        × (target ≤ 3)
        × ((target ≡ s.replicas + 1) ⊎ (s.replicas ≡ target + 1))
        × ((decide s n).1 ≡ 0)
  unfolding decide target_of
  decide_bounds s n scale_up h = ground arith
  decide_bounds s n scale_down h = ground arith

  -- A low sample that may count towards a scale-down.
  abbrev pub IsQuiet : Snapshot fl.Carrier → Type 0
  IsQuiet s = (1 < s.replicas) × (s.replicas ≤ 3) × (is_high s ≡ false) × (is_low s ≡ true)

  -- The sample count that the cycles store, with the latest snapshot first, from no state file.
  abbrev pub count_after : List (Snapshot fl.Carrier) → ℕ
  count_after [] = 0
  count_after (s ∷ older) = (decide s (count_after older)).1

  -- Three quiet samples in a row do scale down, whatever came before a sample that is not low.
  pub scale_down_reached :
      (x a b s : Snapshot fl.Carrier) (older : List (Snapshot fl.Carrier))
      → is_low x ≡ false
      → IsQuiet a
      → IsQuiet b
      → IsQuiet s
      → (decide s (count_after (b ∷ a ∷ x ∷ older))).0 ≡ some scale_down
  unfolding decide
  scale_down_reached x a b s older h qa qb qs = ground arith
