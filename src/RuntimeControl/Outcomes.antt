-- ===== src/RuntimeControl/Outcomes.antt =====
-- What the result of a control cycle of controller/runtime_control.py says, and what a cycle
-- without authorization leaves alone.
use v91_core_system.Prelude.{◌≡◌, true, some}
use v91_core_system.Prelude.Float.{Floats}
use v91_core_system.Prelude.Result.{Result, ok}
use v91_core_system.RuntimeControl.Decision.{Scaling, Snapshot, target_of}
use v91_core_system.RuntimeControl.Cycle.{Host, Config, State, M, Outcome, Status, action_verified}

module _ ⦃fl : Floats⦄ (h : Host) (c : Config) where
  -- Whenever the step returns, its value has the property `P`.
  record Returns {A : Type 0} (P : A → Type 0) (m : M h c A) : Type 0 where
    at : (s : State h c) (a : A) → (m s).0 ≡ ok a → P a

  -- What a status claims of the outcome that carries it.
  abbrev pub IsHonest : Status → Outcome → Type 0
  IsHonest action_verified o =
      (a : Scaling) × (before after : Snapshot fl.Carrier) × (o.action ≡ some a)
      × (o.before ≡ some before)
      × (o.after ≡ some after)
      × (after.replicas ≡ target_of (some a) before.replicas)
      × (after.running ≡ target_of (some a) before.replicas)
      × (c.allow_actions ≡ true)
  IsHonest _ o = Unit

  abbrev HonestReturn : Outcome → Type 0
  HonestReturn o = IsHonest o.status o
