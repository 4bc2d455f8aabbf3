-- ===== src/GlobalGuard/Guarantees.antt =====
-- What the decisions of global_guard/policy.py guarantee over policies and requests.
use v91_core_system.Prelude.{
  ◌==◌, String, ◌≡◌, refl, ap, ◌∙◌, sym, Bool, true, false, ◌||◌, ◌↔◌, inl, inr, ◌⊎◌, arith, eq_iff,
  Bool-cases,
}
use v91_core_system.Prelude.Float.{Floats}
use v91_core_system.Prelude.Int.{ℤ, pos, negsuc, ◌≤ℤ◌}
use v91_core_system.Prelude.Result.{Result, ok, err}
use v91_core_system.Prelude.Text.{one_of}
use v91_core_system.Prelude.Value.{
  Value, null, bool, int, float, str, list, dict, Fields, get_value,
}
use v91_core_system.GlobalGuard.Policy.{
  GuardPolicy, no_policy, given_policy, default_policy, Code, is_networked, evaluate, flag,
  estimate, decision, authorize_action,
}
use v91_core_system.GlobalGuard.Chains.{IsWithin}
use v91_core_system.GlobalGuard.Permission.{IsPermitted, evaluate-IsPermitted, IsPermitted-evaluate}

-- `q` grants whatever `p` grants.
pub record IsWider (p q : GuardPolicy) : Type 0 where
  pub capabilities :
      (k : String) → one_of k p.allowed_capabilities ≡ true → one_of k q.allowed_capabilities ≡ true
  pub steps : p.max_steps ≤ℤ q.max_steps
  pub external_calls : p.max_external_calls ≤ℤ q.max_external_calls
  pub cost_units : p.max_cost_units ≤ℤ q.max_cost_units
  pub output_bytes : p.max_output_bytes ≤ℤ q.max_output_bytes
  pub network : p.allow_network ≡ true → q.allow_network ≡ true
  pub model : p.allow_model_changes ≡ true → q.allow_model_changes ≡ true
  pub production : p.allow_production_changes ≡ true → q.allow_production_changes ≡ true
  pub approval :
      q.require_human_approval_for_mutations ≡ true → p.require_human_approval_for_mutations ≡ true

IsWithin-more : {F : Type 0} (m n : ℤ) (v : Value F) → m ≤ℤ n → IsWithin m v → IsWithin n v
IsWithin-more m n v le (x, e, low, high) = (x, e, low, omega arith)

zero_only : {F : Type 0} (v : Value F) → IsWithin (pos 0) v → v ≡ int (pos 0)
zero_only v (pos n, e, low, high) = e ∙ ap (λ m. int (pos m)) (omega arith)
zero_only v (negsuc n, e, low, high) = absurd (omega arith)

no_demand : (a b : Bool) → (a || b ≡ true → false ≡ true) → b ≡ false
no_demand a false h = refl
no_demand true true h = sym (h refl)
no_demand false true h = sym (h refl)

default_classes :
    (k : String)
    → one_of k default_policy.allowed_capabilities ≡ true
    → (k ≡ "read_only") ⊎ (k ≡ "local_analysis")
default_classes k h = elim (Bool-cases ("read_only" == k)) [
  | inl e ↦ inl (ground (arith, eq_iff "read_only" k))
  | inr e ↦ inr (ground (arith, eq_iff "local_analysis" k))
]

module _ ⦃fl : Floats⦄ where
  IsPermitted-more :
      (p q : GuardPolicy) (a b : Bool) (k : String) (r : Fields fl.Carrier)
      → IsWider p q
      → (a ≡ true → b ≡ true)
      → IsPermitted p a k r
      → IsPermitted q b k r
  IsPermitted-more p q a b k r w more h = record {
    id = h.id;
    purpose = h.purpose;
    effect = h.effect;
    class_given = h.class_given;
    known = h.known;
    not_denied = h.not_denied;
    flags = h.flags;
    estimates = (
      IsWithin-more p.max_steps q.max_steps (estimate "steps" r) w.steps h.estimates.0,
      (
        IsWithin-more p.max_external_calls q.max_external_calls (estimate "external_calls" r)
            w.external_calls h.estimates.1.0,
        (
          IsWithin-more p.max_cost_units q.max_cost_units (estimate "cost_units" r) w.cost_units
              h.estimates.1.1.0,
          (
            IsWithin-more p.max_output_bytes q.max_output_bytes (estimate "output_bytes" r)
                w.output_bytes h.estimates.1.1.1.0,
            tt,
          ),
        ),
      ),
    );
    granted = record {
      capability = w.capabilities k h.granted.capability;
      network = λ e. w.network (h.granted.network e);
      model = λ e. w.model (h.granted.model e);
      production = λ e. w.production (h.granted.production e);
      approval = λ e need. more (h.granted.approval e (w.approval need));
    };
  }

  module _ (text_of : Value fl.Carrier → String) where
    decision_allowed :
        (r : Fields fl.Carrier) (x : Result Code String)
        → (decision text_of r x).allowed ≡ true
        → (k : String) × (x ≡ ok k)
    decision_allowed r (ok k) h = (k, refl)
    decision_allowed r (err e) h = cc

    -- A request is allowed exactly if it is well formed and within the policy in each respect.
    pub allowed_exact :
        (p : GuardPolicy) (a : Bool) (r : Fields fl.Carrier)
        → ((authorize_action text_of (dict r) (given_policy p) (bool a)).allowed ≡ true)
          ↔ ((k : String) × IsPermitted p a k r)
    unfolding authorize_action
    allowed_exact p a r = (
      λ h.
          let (k, e) = decision_allowed r (evaluate p a r) h in (k, evaluate-IsPermitted p a k r e),
      λ x. let e = IsPermitted-evaluate p a x.0 r x.1 in rw e (refl),
    )

    -- Whoever grants more and approves as much, allows what was allowed before.
    pub allowed_wider :
        (p q : GuardPolicy) (a b : Bool) (r : Fields fl.Carrier)
        → IsWider p q
        → (a ≡ true → b ≡ true)
        → (authorize_action text_of (dict r) (given_policy p) (bool a)).allowed ≡ true
        → (authorize_action text_of (dict r) (given_policy q) (bool b)).allowed ≡ true
    allowed_wider p q a b r w more h =
        let (k, permitted) = (allowed_exact p a r).0 h in
        (allowed_exact q b r).1 (k, IsPermitted-more p q a b k r w more permitted)

    -- Whatever the request and the approval, without a policy only reading and local analysis are
    -- allowed, with no network, no model or production change, no external call and no more than
    -- 100 steps.
    pub default_harmless :
        (v a : Value fl.Carrier)
        → (authorize_action text_of v no_policy a).allowed ≡ true
        → (r : Fields fl.Carrier) × (v ≡ dict r)
          × ((get_value "action_class" r ≡ str "read_only")
              ⊎ (get_value "action_class" r ≡ str "local_analysis"))
          × (flag "network_required" r ≡ false)
          × (flag "model_change" r ≡ false)
          × (flag "production_change" r ≡ false)
          × (estimate "external_calls" r ≡ int (pos 0))
          × IsWithin (pos 100) (estimate "steps" r)
    unfolding authorize_action
    default_harmless (dict r) (bool a) h =
        let (k, e) = decision_allowed r (evaluate default_policy a r) h in
        let x = evaluate-IsPermitted default_policy a k r e in
        (
          r,
          refl,
          elim (default_classes k x.granted.capability) [
            | inl q ↦ inl (x.class_given ∙ ap str q)
            | inr q ↦ inr (x.class_given ∙ ap str q)
          ],
          no_demand (is_networked k) (flag "network_required" r) x.granted.network,
          no_demand (k == "model_change") (flag "model_change" r) x.granted.model,
          no_demand (k == "production_change") (flag "production_change" r) x.granted.production,
          zero_only (estimate "external_calls" r) x.estimates.1.0,
          x.estimates.0,
        )
    default_harmless (dict r) null h = cc
    default_harmless (dict r) (int n) h = cc
    default_harmless (dict r) (float x) h = cc
    default_harmless (dict r) (str s) h = cc
    default_harmless (dict r) (list l) h = cc
    default_harmless (dict r) (dict d) h = cc
    default_harmless null a h = cc
    default_harmless (bool b) a h = cc
    default_harmless (int n) a h = cc
    default_harmless (float x) a h = cc
    default_harmless (str s) a h = cc
    default_harmless (list l) a h = cc
