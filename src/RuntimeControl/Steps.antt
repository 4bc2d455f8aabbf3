-- ===== src/RuntimeControl/Steps.antt =====
-- How many scale commands each step of a control cycle of controller/runtime_control.py may run.
use v91_core_system.Prelude.{
  ℕ, ◌+◌, ◌≤◌, ◌≡◌, refl, sym, ap, ◌∙◌, Bool, true, false, ◌&&◌, Option, List, [], ◌∷◌, ◌++◌,
  append-nil, append_assoc, arith, leb,
}
use v91_core_system.Prelude.Float.{Floats}
use v91_core_system.Prelude.Result.{Result, ok, err}
use v91_core_system.RuntimeControl.Decision.{Exception, control_error, Scaling, Snapshot}
use v91_core_system.RuntimeControl.Cycle.{
  Act, Event, Host, Config, State, M, Outcome, ran, config_services, ps_all, stats, scale,
  run_command, append_audit, compose_prefix, collect_snapshot, scale_worker, apply_action, restore,
  recover, act, pure, raise, or_raise, raise_unless, ◌>>=◌, ◌>>◌,
}
use v91_core_system.RuntimeControl.Monad.{
  Appends, Appends-bind, IsClosed, Appends-still, Appends-then, Appends-or_raise,
  Appends-raise_unless, Appends-run_command, Appends-append_audit,
}
use v91_core_system.RuntimeControl.Scales.{
  IsStill, IsBounded, IsStill-append, IsBounded-append, IsStill-IsBounded, IsBounded-mono,
}

module _ ⦃fl : Floats⦄ where
  module _ (h : Host) (c : Config) where
    pub closed : IsClosed h c IsStill
    closed = record { nil = refl; append = IsStill-append }

    pub compose_prefix-IsStill : Appends h c IsStill (compose_prefix h c)
    unfolding compose_prefix
    compose_prefix-IsStill = Appends-still h c closed (compose_prefix h c) (λ s. refl)

    pub then-IsStill :
        {A B : Type 0} (m : M h c A) (f : A → M h c B)
        → Appends h c IsStill m
        → ((a : A) → Appends h c IsStill (f a))
        → Appends h c IsStill (◌>>=◌ h c m f)
    then-IsStill = Appends-then h c closed

    pub or_raise-IsStill :
        {A : Type 0} (o : Option A) (e : Exception) → Appends h c IsStill (or_raise h c o e)
    or_raise-IsStill = Appends-or_raise h c closed

    pub raise_unless-IsStill :
        (b : Bool) (e : Exception) → Appends h c IsStill (raise_unless h c b e)
    raise_unless-IsStill = Appends-raise_unless h c closed

    pub config_services-IsStill : Appends h c IsStill (run_command h c config_services)
    config_services-IsStill = Appends-run_command h c closed config_services refl

    pub ps_all-IsStill : Appends h c IsStill (run_command h c ps_all)
    ps_all-IsStill = Appends-run_command h c closed ps_all refl

    pub stats-IsStill : Appends h c IsStill (run_command h c stats)
    stats-IsStill = Appends-run_command h c closed stats refl

    pub ruleset still_rules = (
      compose_prefix-IsStill, then-IsStill, or_raise-IsStill, raise_unless-IsStill,
      config_services-IsStill, ps_all-IsStill, stats-IsStill,
    )

    pub collect_snapshot-IsStill : Appends h c IsStill (collect_snapshot h c)
    unfolding collect_snapshot
    collect_snapshot-IsStill = search still_rules depth 12

    -- After a step with no scale command the bound is that of the rest.
    pub still_then :
        {A B : Type 0} (n : ℕ) (m : M h c A) (f : A → M h c B)
        → Appends h c IsStill m
        → ((a : A) → Appends h c (IsBounded n) (f a))
        → Appends h c (IsBounded n) (◌>>=◌ h c m f)
    still_then n m f hm hf =
        Appends-bind h c IsStill (IsBounded n) (IsBounded n) m f hm hf
          (λ t p. IsBounded-mono 0 n t (omega arith) (IsStill-IsBounded t p))
          (λ t u p q.
            IsBounded-mono (0 + n) n (t ++ u) (omega arith)
              (IsBounded-append 0 n t u (IsStill-IsBounded t p) q))

    -- After a bounded step that is followed by none but still ones the bound stays.
    pub then_still :
        {A B : Type 0} (n : ℕ) (m : M h c A) (f : A → M h c B)
        → Appends h c (IsBounded n) m
        → ((a : A) → Appends h c IsStill (f a))
        → Appends h c (IsBounded n) (◌>>=◌ h c m f)
    then_still n m f hm hf =
        Appends-bind h c (IsBounded n) IsStill (IsBounded n) m f hm hf (λ t p. p)
          (λ t u p q.
            IsBounded-mono (n + 0) n (t ++ u) (omega arith)
              (IsBounded-append n 0 t u p (IsStill-IsBounded u q)))

    pub pure-IsStill : {A : Type 0} (a : A) → Appends h c IsStill (pure h c a)
    pure-IsStill a = Appends-still h c closed (pure h c a) (λ s. refl)

    pub append_audit-IsStill : (e : Event) → Appends h c IsStill (append_audit h c e)
    append_audit-IsStill e = Appends-append_audit h c closed e refl

    pub run_scale :
        (n : ℕ) → (1 ≤ n) × (n ≤ 3) → Appends h c (IsBounded 1) (run_command h c (scale n))
    unfolding run_command
    run_scale n fits = record { at = λ s. (ran (scale n) ∷ [], refl, ((fits, tt), omega arith)) }

    pub raise-then :
        {A B : Type 0} (n : ℕ) (e : Exception) (f : A → M h c B)
        → Appends h c (IsBounded n) (◌>>=◌ h c (raise h c e) f)
    unfolding ◌>>=◌
    raise-then n e f = record { at = λ s. ([], sym (append-nil s.acts), (tt, omega arith)) }

    pub scale_rest :
        (n : ℕ) (b : Bool)
        → (b ≡ true → (1 ≤ n) × (n ≤ 3))
        → Appends h c (IsBounded 1) (
            ◌>>◌ h c
              (raise_unless h c b control_error)
              (◌>>◌ h c (compose_prefix h c) (◌>>◌ h c (run_command h c (scale n)) (pure h c tt))))
    scale_rest n true fits = still_then 1 _ _ (raise_unless-IsStill true control_error) (λ _.
        still_then 1 _ _ compose_prefix-IsStill
          (λ _. then_still 1 _ _ (run_scale n (fits refl)) (λ _. pure-IsStill tt)))
    scale_rest n false fits = raise-then 1 control_error _

    pub scale_worker-IsBounded : (n : ℕ) → Appends h c (IsBounded 1) (scale_worker h c n)
    unfolding scale_worker
    scale_worker-IsBounded n = scale_rest n (leb 1 n && leb n 3) (λ e. ground arith)

    pub ruleset cycle_rules =
        (still_rules, collect_snapshot-IsStill, append_audit-IsStill, pure-IsStill)

    pub apply_action-IsBounded :
        (s : Snapshot fl.Carrier) (a : Scaling) (n : ℕ)
        → Appends h c (IsBounded 1) (apply_action h c s a n)
    unfolding apply_action
    apply_action-IsBounded s a n =
        then_still 1 _ _ (scale_worker-IsBounded n) (λ _. search cycle_rules depth 12)

    pub restore-IsBounded : (n : ℕ) → Appends h c (IsBounded 1) (restore h c n)
    unfolding restore
    restore-IsBounded n = record {
      at = (then_still 1 _ _ (scale_worker-IsBounded n) (λ _. search cycle_rules depth 12)).at;
    }

    pub recover-IsBounded :
        (s : Snapshot fl.Carrier) (a : Scaling) (n : ℕ) (e : Exception)
        → Appends h c (IsBounded 1) (recover h c s a n e)
    unfolding recover
    recover-IsBounded s a n e =
        then_still 1 _ _ (restore-IsBounded s.replicas) (λ _. search cycle_rules depth 12)

    -- `act` after its `try` has ended with `r`.
    pub act_rest :
        (s : Snapshot fl.Carrier) (a : Scaling) (n : ℕ) (acts t : List Act)
        (r : Result Exception Outcome) (s' : State h c)
        → s'.acts ≡ acts ++ t
        → IsBounded 1 t
        → let after : Result Exception Outcome × State h c = elim r [
          | ok o ↦ (ok o, s')
          | err e ↦ recover h c s a n e s'
        ] in
          (u : List Act) × (after.1.acts ≡ acts ++ u) × IsBounded 2 u
    act_rest s a n acts t (ok o) s' e p = (t, e, IsBounded-mono 1 2 t (omega arith) p)
    act_rest s a n acts t (err x) s' e p =
        let (u, e', q) = (recover-IsBounded s a n x).at s' in
        (t ++ u, e' ∙ ap (λ l. l ++ u) e ∙ append_assoc acts t u, IsBounded-append 1 1 t u p q)

    pub act-IsBounded :
        (s : Snapshot fl.Carrier) (a : Scaling) (n : ℕ) → Appends h c (IsBounded 2) (act h c s a n)
    unfolding act
    act-IsBounded s a n = record {
      at = λ s0.
          let (r, s') = apply_action h c s a n s0 in
          let (t, e, p) = (apply_action-IsBounded s a n).at s0 in act_rest s a n s0.acts t r s' e p;
    }
