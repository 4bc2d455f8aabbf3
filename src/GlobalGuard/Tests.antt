-- ===== src/GlobalGuard/Tests.antt =====
-- Concrete runs of global_guard, and its theorems at inputs.
use v91_core_system.Prelude.{
  ◌≡◌, ◌↔◌, ◌≤◌, String, refl, true, false, some, ◌⊎◌, [], ◌∷◌, All, arith,
}
use v91_core_system.Prelude.Float.{whole}
use v91_core_system.Prelude.Int.{ℤ, pos}
use v91_core_system.Prelude.Text.{is_blank, is_space}
use v91_core_system.Prelude.Value.{Value, bool, int, str, dict, Fields, end, field, get_value}
use v91_core_system.GlobalGuard.Policy.{
  GuardPolicy, no_policy, given_policy, default_policy, authorize_action, evaluate, check_texts,
  short_text, check_class, check_flags, check_flag, check_estimates, check_estimate, check_grants,
  flag, estimate, is_known, is_denied, is_networked, is_mutating, human_approval_required,
}
use v91_core_system.GlobalGuard.Chains.{IsWithin}
use v91_core_system.GlobalGuard.Permission.{IsPermitted}
use v91_core_system.GlobalGuard.Guarantees.{IsWider, allowed_exact, allowed_wider, default_harmless}
use v91_core_system.GlobalGuard.Scenarios.{pass, run_scenarios}
use v91_core_system.GlobalGuard.Verdict.{IsMet, scenarios_pass}

abbrev text_of : Value ℤ → String
text_of v = "?"

abbrev request : String → Fields ℤ
request k = field "action_id" (str "a-1") (
    field "action_class" (str k) (
      field "purpose" (str "test")
        (field "expected_effect" (str "none") (field "steps" (int (pos 3)) end))))

abbrev writer : GuardPolicy
writer = record default_policy { allowed_capabilities = "read_only" ∷ "file_write" ∷ [] }

abbrev careless : GuardPolicy
careless = record writer { require_human_approval_for_mutations = false }

read_allowed :
    (authorize_action ⦃fl = whole⦄ text_of
      (dict (request "read_only"))
      no_policy
      (bool false)).allowed
    ≡ true
unfolding authorize_action evaluate check_texts short_text check_class check_flags check_flag
    check_estimates check_estimate check_grants flag is_known is_denied is_networked is_mutating
    is_blank is_space
read_allowed = refl

write_approved :
    (authorize_action ⦃fl = whole⦄ text_of
      (dict (request "file_write"))
      (given_policy writer)
      (bool true)).allowed
    ≡ true
unfolding authorize_action evaluate check_texts short_text check_class check_flags check_flag
    check_estimates check_estimate check_grants flag is_known is_denied is_networked is_mutating
    is_blank is_space
write_approved = refl

write_refused :
    (authorize_action ⦃fl = whole⦄ text_of
      (dict (request "file_write"))
      (given_policy writer)
      (bool false)).code
    ≡ human_approval_required
unfolding authorize_action evaluate check_texts short_text check_class check_flags check_flag
    check_estimates check_estimate check_grants flag is_known is_denied is_networked is_mutating
    is_blank is_space
write_refused = refl

wider : IsWider writer careless
wider = record {
  capabilities = λ k h. h;
  steps = omega arith;
  external_calls = omega arith;
  cost_units = omega arith;
  output_bytes = omega arith;
  network = λ h. h;
  model = λ h. h;
  production = λ h. h;
  approval = λ h. refl;
}

allowed_exact_example :
    ((authorize_action ⦃fl = whole⦄ text_of
        (dict (request "file_write"))
        (given_policy writer)
        (bool true)).allowed
      ≡ true)
    ↔ ((k : String) × IsPermitted ⦃fl = whole⦄ writer true k (request "file_write"))
allowed_exact_example = allowed_exact ⦃fl = whole⦄ text_of writer true (request "file_write")

allowed_wider_example :
    (authorize_action ⦃fl = whole⦄ text_of
      (dict (request "file_write"))
      (given_policy careless)
      (bool true)).allowed
    ≡ true
allowed_wider_example =
    allowed_wider ⦃fl = whole⦄ text_of writer careless true true (request "file_write") wider
      (λ h. h) write_approved

default_harmless_example :
    (r : Fields ℤ) × (dict (request "read_only") ≡ dict r)
    × ((get_value "action_class" r ≡ str "read_only")
        ⊎ (get_value "action_class" r ≡ str "local_analysis"))
    × (flag ⦃fl = whole⦄ "network_required" r ≡ false)
    × (flag ⦃fl = whole⦄ "model_change" r ≡ false)
    × (flag ⦃fl = whole⦄ "production_change" r ≡ false)
    × (estimate "external_calls" r ≡ int (pos 0))
    × IsWithin (pos 100) (estimate "steps" r)
default_harmless_example =
    default_harmless ⦃fl = whole⦄ text_of (dict (request "read_only")) (bool false) read_allowed

abbrev scenario : Value ℤ
scenario =
    dict (field "request" (dict (request "read_only")) (field "expected_allowed" (bool true) end))

scenarios_pass_example :
    ((run_scenarios ⦃fl = whole⦄ text_of (some default_policy) (scenario ∷ [])).status ≡ pass)
    ↔ ((1 ≤ 1) × All (IsMet ⦃fl = whole⦄ text_of default_policy) (scenario ∷ []))
scenarios_pass_example = scenarios_pass ⦃fl = whole⦄ text_of default_policy (scenario ∷ [])
