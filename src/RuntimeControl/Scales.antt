-- ===== src/RuntimeControl/Scales.antt =====
-- The scale commands in the record of a control cycle of controller/runtime_control.py.
use v91_core_system.Prelude.{
  ℕ, ◌+◌, ◌≤◌, ◌≡◌, refl, ap, ◌⊎◌, Bool, true, false, List, [], ◌∷◌, ◌++◌, arith, length,
  length-append, All, All-append,
}
use v91_core_system.Prelude.Float.{Floats}
use v91_core_system.RuntimeControl.Cycle.{
  Act, ran, logged, stored, config_services, ps_all, stats, scale, decision,
}

module _ ⦃fl : Floats⦄ where
  -- The replica counts that the scale commands of a record ask for, in order.
  abbrev pub scales : List Act → List ℕ
  scales [] = []
  scales (ran (scale n) ∷ t) = n ∷ scales t
  scales (_ ∷ t) = scales t

  abbrev pub is_decision : Act → Bool
  is_decision (logged (decision _ _ _ _ _ _)) = true
  is_decision _ = false

  pub scales-append : (t u : List Act) → scales (t ++ u) ≡ scales t ++ scales u
  scales-append [] u = refl
  scales-append (ran (scale n) ∷ t) u = ap (λ l. n ∷ l) (scales-append t u)
  scales-append (ran config_services ∷ t) u = scales-append t u
  scales-append (ran ps_all ∷ t) u = scales-append t u
  scales-append (ran stats ∷ t) u = scales-append t u
  scales-append (logged e ∷ t) u = scales-append t u
  scales-append (stored n ∷ t) u = scales-append t u

  -- No scale command.
  abbrev pub IsStill : List Act → Type 0
  IsStill t = scales t ≡ []

  -- At most `n` scale commands, each for 1, 2 or 3 replicas.
  abbrev pub IsBounded : ℕ → List Act → Type 0
  IsBounded n t = All (λ k. (1 ≤ k) × (k ≤ 3)) (scales t) × (length (scales t) ≤ n)

  -- Bounded, and a decision event stands before the first scale command.
  abbrev pub IsAnnounced : List Act → Type 0
  IsAnnounced t =
      IsBounded 2 t
      × (IsStill t
          ⊎ ((before : List Act) × (d : Act) × (after : List Act) × (t ≡ before ++ d ∷ after)
              × (is_decision d ≡ true)
              × IsStill before))

  pub IsStill-append : (t u : List Act) → IsStill t → IsStill u → IsStill (t ++ u)
  IsStill-append t u p q = rw (scales-append t u, p) q

  pub IsBounded-append :
      (n m : ℕ) (t u : List Act) → IsBounded n t → IsBounded m u → IsBounded (n + m) (t ++ u)
  IsBounded-append n m t u p q = rw (scales-append t u) (
    All-append (λ k. (1 ≤ k) × (k ≤ 3)) (scales t) (scales u) p.0 q.0,
    omega (arith, length-append (scales t) (scales u), p.1, q.1),
  )

  pub IsStill-IsBounded : (t : List Act) → IsStill t → IsBounded 0 t
  IsStill-IsBounded t p = rw p (tt, omega arith)

  pub IsBounded-mono : (n m : ℕ) (t : List Act) → n ≤ m → IsBounded n t → IsBounded m t
  IsBounded-mono n m t h p = (p.0, omega arith)
