-- ===== src/GlobalGuard/Permission.antt =====
-- What global_guard/policy.py allows, stated by the request and the policy alone.
use v91_core_system.Prelude.{
  ◌==◌, String, ◌≡◌, refl, ap, ◌∙◌, Bool, true, false, ◌||◌, inl, inr, All, arith, Option-cases,
}
use v91_core_system.Prelude.Float.{Floats}
use v91_core_system.Prelude.Result.{ok, >>=-eq-ok}
use v91_core_system.Prelude.Text.{is_blank, one_of}
use v91_core_system.Prelude.Value.{str, Fields, get, get_value, as_text}
use v91_core_system.GlobalGuard.Policy.{
  GuardPolicy, is_known, is_denied, is_networked, is_mutating, flag_names, numeric_fields, estimate,
  short_text, check_class, check_texts, flag, check_grants, evaluate, invalid_purpose,
  invalid_expected_effect,
}
use v91_core_system.GlobalGuard.Chains.{
  IsShort, IsFlag, IsWithin, short_text-IsShort, IsShort-short_text, check_class_ok,
  check_class_known, check_flags-All, All-check_flags, check_estimates-All, All-check_estimates,
  as_text-given, demand_met, demands_met,
}

module _ ⦃fl : Floats⦄ where
  -- What the policy must grant to a request of the class `k`.
  pub record IsGranted (p : GuardPolicy) (approved : Bool) (k : String) (r : Fields fl.Carrier)
      : Type 0 where
    pub capability : one_of k p.allowed_capabilities ≡ true
    pub network : is_networked k || flag "network_required" r ≡ true → p.allow_network ≡ true
    pub model : k == "model_change" || flag "model_change" r ≡ true → p.allow_model_changes ≡ true
    pub production :
        k == "production_change" || flag "production_change" r ≡ true
        → p.allow_production_changes ≡ true
    pub approval :
        is_mutating k ≡ true → p.require_human_approval_for_mutations ≡ true → approved ≡ true

  -- A well-formed request of the class `k` that the policy permits.
  pub record IsPermitted (p : GuardPolicy) (approved : Bool) (k : String) (r : Fields fl.Carrier)
      : Type 0 where
    pub id : (s : String) × (get_value "action_id" r ≡ str s) × (is_blank s ≡ false)
    pub purpose : IsShort (get_value "purpose" r)
    pub effect : IsShort (get_value "expected_effect" r)
    pub class_given : get_value "action_class" r ≡ str k
    pub known : is_known k ≡ true
    pub not_denied : is_denied k ≡ false
    pub flags : All (λ f. IsFlag (get f r)) flag_names
    pub estimates : All (λ e. IsWithin e.1 (estimate e.0 r)) (numeric_fields p)
    pub granted : IsGranted p approved k r

  check_grants-IsGranted :
      (p : GuardPolicy) (approved : Bool) (k : String) (r : Fields fl.Carrier)
      → check_grants p approved k r ≡ ok tt
      → IsGranted p approved k r
  unfolding check_grants
  check_grants-IsGranted p approved k r h = record {
    capability = ground arith;
    network = λ e. ground arith;
    model = λ e. ground arith;
    production = λ e. ground arith;
    approval = λ e q. ground arith;
  }

  IsGranted-check_grants :
      (p : GuardPolicy) (approved : Bool) (k : String) (r : Fields fl.Carrier)
      → IsGranted p approved k r
      → check_grants p approved k r ≡ ok tt
  unfolding check_grants
  IsGranted-check_grants p approved k r h =
      let network = is_networked k || flag "network_required" r in
      let model = k == "model_change" || flag "model_change" r in
      let production = k == "production_change" || flag "production_change" r in
      rw
        (
          h.capability,
          demand_met network p.allow_network h.network,
          demand_met model p.allow_model_changes h.model,
          demand_met production p.allow_production_changes h.production,
          demands_met (is_mutating k) p.require_human_approval_for_mutations approved h.approval,
        )
        (refl)

  check_texts_inv :
      (k : String) (r : Fields fl.Carrier)
      → check_texts r ≡ ok k
      → ((s : String) × (get_value "action_id" r ≡ str s) × (is_blank s ≡ false))
        × IsShort (get_value "purpose" r)
        × IsShort (get_value "expected_effect" r)
        × (check_class (get_value "action_class" r) ≡ ok k)
  unfolding check_texts
  check_texts_inv k r h =
      let purpose = λ (s : Unit {0}). short_text invalid_purpose (get_value "purpose" r) in
      elim (Option-cases (as_text (get_value "action_id" r))) [
        | inl e ↦ (let bad = rw e at h in cc)
        | inr (s, e) ↦
            (let h1 = rw e at h in
              let (_, p, h2) = >>=-eq-ok _ _ h1 in
              let (_, q, h3) = >>=-eq-ok _ _ h2 in
              let (given, filled) = as_text-given (get_value "action_id" r) s e in
              (
                (s, given, filled),
                short_text-IsShort invalid_purpose (get_value "purpose" r) p,
                short_text-IsShort invalid_expected_effect (get_value "expected_effect" r) q,
                h3,
              ))
      ]

  pub evaluate-IsPermitted :
      (p : GuardPolicy) (approved : Bool) (k : String) (r : Fields fl.Carrier)
      → evaluate p approved r ≡ ok k
      → IsPermitted p approved k r
  unfolding evaluate
  evaluate-IsPermitted p approved k r h =
      let (j, texts, h1) = >>=-eq-ok _ _ h in
      let (_, flags, h2) = >>=-eq-ok _ _ h1 in
      let (_, estimates, h3) = >>=-eq-ok _ _ h2 in
      let (_, grants, h4) = >>=-eq-ok (check_grants p approved j r) (λ _. ok j) h3 in
      let same : j ≡ k = cc in
      let (id, purpose, effect, class) = check_texts_inv k r (texts ∙ ap ok same) in
      let (given, known, fine) = check_class_ok (get_value "action_class" r) k class in
      record {
        id = id;
        purpose = purpose;
        effect = effect;
        class_given = given;
        known = known;
        not_denied = fine;
        flags = check_flags-All flag_names r flags;
        estimates = check_estimates-All (numeric_fields p) r estimates;
        granted = check_grants-IsGranted p approved k r (rw same at grants);
      }

  pub IsPermitted-evaluate :
      (p : GuardPolicy) (approved : Bool) (k : String) (r : Fields fl.Carrier)
      → IsPermitted p approved k r
      → evaluate p approved r ≡ ok k
  unfolding evaluate check_texts
  IsPermitted-evaluate p approved k r h =
      rw
        (
          h.id.1,
          h.id.2,
          IsShort-short_text invalid_purpose (get_value "purpose" r) h.purpose,
          IsShort-short_text invalid_expected_effect (get_value "expected_effect" r) h.effect,
          check_class_known (get_value "action_class" r) k h.class_given h.known h.not_denied,
          All-check_flags flag_names r h.flags,
          All-check_estimates (numeric_fields p) r h.estimates,
          IsGranted-check_grants p approved k r h.granted,
        )
        (refl)
