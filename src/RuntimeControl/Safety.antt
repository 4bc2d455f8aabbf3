-- ===== src/RuntimeControl/Safety.antt =====
-- The limits of a control cycle of controller/runtime_control.py, on every path, whatever Docker
-- and the file system do.
use v91_core_system.Prelude.{
  ℕ, ◌+◌, ◌≡◌, refl, sym, ap, ◌∙◌, inl, inr, Bool, false, Option, none, some, List, [], ◌∷◌, ◌++◌,
  append_assoc, arith,
}
use v91_core_system.Prelude.Float.{Floats}
use v91_core_system.Prelude.Result.{Result, ok, err}
use v91_core_system.RuntimeControl.Decision.{
  decide, Reason, Exception, control_error, Scaling, scale_up, scale_down, Snapshot,
}
use v91_core_system.RuntimeControl.Cycle.{
  Status, Act, Host, Config, State, M, Outcome, logged, decision, append_audit, write_state,
  collect_snapshot, act, proceed, record_no_data, run_cycle, authorized, read_low, pure, ◌>>=◌,
  ◌>>◌,
}
use v91_core_system.RuntimeControl.Monad.{
  Appends, Appends-bind, Appends-weaken, Appends-still, Appends-write_state, Appends-announce,
}
use v91_core_system.RuntimeControl.Scales.{
  scales, IsStill, IsBounded, IsAnnounced, IsStill-append, IsBounded-append, IsStill-IsBounded,
  IsBounded-mono,
}
use v91_core_system.RuntimeControl.Steps.{
  closed, then-IsStill, raise_unless-IsStill, collect_snapshot-IsStill, pure-IsStill,
  append_audit-IsStill, cycle_rules, act-IsBounded,
}

module _ ⦃fl : Floats⦄ where
  module _ (h : Host) (c : Config) where
    IsStill-IsAnnounced : (t : List Act) → IsStill t → IsAnnounced t
    IsStill-IsAnnounced t p = (IsBounded-mono 0 2 t (omega arith) (IsStill-IsBounded t p), inl p)

    still-IsAnnounced : (t u : List Act) → IsStill t → IsAnnounced u → IsAnnounced (t ++ u)
    still-IsAnnounced t u p (q, inl none_at_all) =
        IsStill-IsAnnounced (t ++ u) (IsStill-append t u p none_at_all)
    still-IsAnnounced t u p (q, inr (before, d, after, e, is, still)) = (
      IsBounded-mono (0 + 2) 2 (t ++ u) (omega arith)
          (IsBounded-append 0 2 t u (IsStill-IsBounded t p) q),
      inr (
        t ++ before,
        d,
        after,
        ap (λ l. t ++ l) e ∙ sym (append_assoc t before (d ∷ after)),
        is,
        IsStill-append t before p still,
      ),
    )

    still_before :
        {A B : Type 0} (m : M h c A) (f : A → M h c B)
        → Appends h c IsStill m
        → ((a : A) → Appends h c IsAnnounced (f a))
        → Appends h c IsAnnounced (◌>>=◌ h c m f)
    still_before m f hm hf =
        Appends-bind h c IsStill IsAnnounced IsAnnounced m f hm hf IsStill-IsAnnounced
          still-IsAnnounced

    announce :
        {A : Type 0} (a : Option Scaling) (r : Reason fl.Carrier) (s : Snapshot fl.Carrier) (n : ℕ)
        (b : Bool) (st : Status) (k : M h c A)
        → Appends h c (IsBounded 2) k
        → Appends h c IsAnnounced (◌>>◌ h c (append_audit h c (decision a r s n b st)) k)
    announce a r s n b st k hk =
        Appends-announce h c (IsBounded 2) IsAnnounced (decision a r s n b st) k hk
          (IsStill-IsAnnounced [] refl)
          (λ u q. (q, inr ([], logged (decision a r s n b st), u, refl, refl, refl)))

    finish :
        (o : Option Scaling) (outcome : Outcome) (s : Snapshot fl.Carrier) (n : ℕ)
        → Appends h c (IsBounded 2) (elim o [ none ↦ pure h c outcome | some a ↦ act h c s a n ])
    finish none outcome s n =
        Appends-weaken h c (pure h c outcome) (pure-IsStill h c outcome)
          (λ t p. IsBounded-mono 0 2 t (omega arith) (IsStill-IsBounded t p))
    finish (some a) outcome s n = act-IsBounded h c s a n

    read_low-IsStill : Appends h c IsStill (read_low h c)
    read_low-IsStill = Appends-still h c (closed h c) (read_low h c) (λ s. refl)

    write_state-IsStill : (n : ℕ) → Appends h c IsStill (write_state h c n)
    write_state-IsStill n = Appends-write_state h c (closed h c) n refl

    proceed-IsAnnounced : (s : Snapshot fl.Carrier) → Appends h c IsAnnounced (proceed h c s)
    unfolding proceed
    proceed-IsAnnounced s = still_before _ _ read_low-IsStill (λ low.
        let (action, next, reason) = decide s low in
        still_before _ _ (write_state-IsStill next)
          (λ _. announce action reason s _ _ _ _ (finish (authorized h c action) _ s _)))

    -- `run_cycle` after its observation has ended with `r`.
    cycle_rest :
        (acts t : List Act) (r : Result Exception (Snapshot fl.Carrier)) (s' : State h c)
        (k : M h c Outcome)
        → s'.acts ≡ acts ++ t
        → IsStill t
        → Appends h c IsStill k
        → let after : Result Exception Outcome × State h c = elim r [
          | ok s ↦ proceed h c s s'
          | err e ↦ k s'
        ] in
          (u : List Act) × (after.1.acts ≡ acts ++ u) × IsAnnounced u
    cycle_rest acts t (ok s) s' k e p hk =
        let (u, e', q) = (proceed-IsAnnounced s).at s' in
        (t ++ u, e' ∙ ap (λ l. l ++ u) e ∙ append_assoc acts t u, still-IsAnnounced t u p q)
    cycle_rest acts t (err x) s' k e p hk =
        let (u, e', q) = hk.at s' in
        (
          t ++ u,
          e' ∙ ap (λ l. l ++ u) e ∙ append_assoc acts t u,
          IsStill-IsAnnounced (t ++ u) (IsStill-append t u p q),
        )

    record_no_data-IsStill : Appends h c IsStill (record_no_data h c)
    unfolding record_no_data
    record_no_data-IsStill = search cycle_rules depth 12

    -- Whatever the host does, a cycle runs at most two scale commands, each for 1, 2 or 3
    -- replicas, and only after it has appended its decision to the audit log.
    pub run_cycle_limits :
        (s : State h c) → (t : List Act) × ((run_cycle h c s).1.acts ≡ s.acts ++ t) × IsAnnounced t
    unfolding run_cycle
    run_cycle_limits s =
        (still_before _ _ (raise_unless-IsStill h c c.runtime_dir_absolute control_error) (λ _.
            record {
              at = λ s0.
                  let (r, s') = collect_snapshot h c s0 in
                  let (t, e, p) = (collect_snapshot-IsStill h c).at s0 in
                  cycle_rest s0.acts t r s' (record_no_data h c) e p record_no_data-IsStill;
            })).at
          s

    -- What a decision without authorization comes to.
    unauthorized : (o : Option Scaling) → c.allow_actions ≡ false → authorized h c o ≡ none
    unfolding authorized
    unauthorized none off = refl
    unauthorized (some scale_up) off = ground arith
    unauthorized (some scale_down) off = ground arith

    finish-IsStill :
        (proposed found : Option Scaling) (outcome : Outcome) (s : Snapshot fl.Carrier) (n : ℕ)
        → authorized h c proposed ≡ found
        → c.allow_actions ≡ false
        → Appends h c IsStill (elim found [ none ↦ pure h c outcome | some a ↦ act h c s a n ])
    finish-IsStill proposed none outcome s n e off = pure-IsStill h c outcome
    finish-IsStill proposed (some a) outcome s n e off = cc (unauthorized proposed off)

    proceed-IsStill :
        (s : Snapshot fl.Carrier) → c.allow_actions ≡ false → Appends h c IsStill (proceed h c s)
    unfolding proceed
    proceed-IsStill s off = then-IsStill h c _ _ read_low-IsStill (λ low.
        let (action, next, reason) = decide s low in
        then-IsStill h c _ _ (write_state-IsStill next) (λ _.
          then-IsStill h c _ _ (append_audit-IsStill h c _)
            (λ _. finish-IsStill action (authorized h c action) _ s _ refl off)))

    dry_rest :
        (acts t : List Act) (r : Result Exception (Snapshot fl.Carrier)) (s' : State h c)
        → s'.acts ≡ acts ++ t
        → IsStill t
        → c.allow_actions ≡ false
        → let after : Result Exception Outcome × State h c = elim r [
          | ok s ↦ proceed h c s s'
          | err e ↦ record_no_data h c s'
        ] in
          (u : List Act) × (after.1.acts ≡ acts ++ u) × IsStill u
    dry_rest acts t (ok s) s' e p off =
        let (u, e', q) = (proceed-IsStill s off).at s' in
        (t ++ u, e' ∙ ap (λ l. l ++ u) e ∙ append_assoc acts t u, IsStill-append t u p q)
    dry_rest acts t (err x) s' e p off =
        let (u, e', q) = record_no_data-IsStill.at s' in
        (t ++ u, e' ∙ ap (λ l. l ++ u) e ∙ append_assoc acts t u, IsStill-append t u p q)

    -- Without the opt-in to real actions a cycle runs no scale command, whatever it observes and
    -- however the host fails.
    pub run_cycle_dry :
        (s : State h c)
        → c.allow_actions ≡ false
        → (t : List Act) × ((run_cycle h c s).1.acts ≡ s.acts ++ t) × (scales t ≡ [])
    unfolding run_cycle
    run_cycle_dry s off =
        (then-IsStill h c _ _ (raise_unless-IsStill h c c.runtime_dir_absolute control_error) (λ _.
            record {
              at = λ s0.
                  let (r, s') = collect_snapshot h c s0 in
                  let (t, e, p) = (collect_snapshot-IsStill h c).at s0 in
                  dry_rest s0.acts t r s' e p off;
            })).at
          s
