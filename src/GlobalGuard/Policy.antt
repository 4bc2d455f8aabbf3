-- ===== src/GlobalGuard/Policy.antt =====
-- global_guard/policy.py. A request is a JSON value. The texts of the reasons and the fixed entries
-- of the audit are left out; `str` of an action class that is no text is a parameter.
use v91_core_system.Prelude.{
  ◌==◌, ltb, String, Bool, true, false, not, ◌&&◌, ◌||◌, Option, none, some, List, [], ◌∷◌, any,
  if◌then◌else◌,
}
use v91_core_system.Prelude.Float.{Floats}
use v91_core_system.Prelude.Int.{ℤ, pos, ltb_ℤ}
use v91_core_system.Prelude.Result.{Result, ok, err, raise_if, or_raise, ◌>>=◌, ◌>>◌}
use v91_core_system.Prelude.Text.{count_chars, is_blank, one_of}
use v91_core_system.Prelude.Value.{
  Value, bool, int, str, dict, Fields, get, get_value, as_str, as_text, is_bool, truthy,
}

abbrev pub denied_classes : List String
denied_classes =
    "weapons_development" ∷ "target_selection_for_violence" ∷ "autonomous_attack"
    ∷ "unauthorized_propagation" ∷ "credential_exfiltration" ∷ "destructive_cleanup" ∷ []

abbrev pub known_classes : List String
known_classes =
    "read_only" ∷ "local_analysis" ∷ "resource_efficiency" ∷ "file_write" ∷ "network_read"
    ∷ "network_write" ∷ "model_change" ∷ "production_change" ∷ denied_classes

abbrev pub network_classes : List String
network_classes = "network_read" ∷ "network_write" ∷ []

abbrev pub mutating_classes : List String
mutating_classes = "file_write" ∷ "network_write" ∷ "model_change" ∷ "production_change" ∷ []

-- Membership in a set of classes.
unfoldable pub is_known : String → Bool
is_known k = one_of k known_classes

unfoldable pub is_denied : String → Bool
is_denied k = one_of k denied_classes

unfoldable pub is_networked : String → Bool
is_networked k = one_of k network_classes

unfoldable pub is_mutating : String → Bool
is_mutating k = one_of k mutating_classes

pub record GuardPolicy : Type 0 where
  pub allowed_capabilities : List String
  pub max_steps : ℤ
  pub max_external_calls : ℤ
  pub max_cost_units : ℤ
  pub max_output_bytes : ℤ
  pub allow_network : Bool
  pub allow_model_changes : Bool
  pub allow_production_changes : Bool
  pub require_human_approval_for_mutations : Bool

-- `GuardPolicy()`
abbrev pub default_policy : GuardPolicy
default_policy = record {
  allowed_capabilities = "read_only" ∷ "local_analysis" ∷ [];
  max_steps = pos 100;
  max_external_calls = pos 0;
  max_cost_units = pos 100;
  max_output_bytes = pos 1000000;
  allow_network = false;
  allow_model_changes = false;
  allow_production_changes = false;
  require_human_approval_for_mutations = true;
}

-- The ValueErrors of the constructor.
pub data PolicyError : Type 0 where
  negative_limit unknown_capability : PolicyError

unfoldable pub post_init : GuardPolicy → Result PolicyError (Unit {0})
post_init p =
    raise_if
      (any (λ n. ltb_ℤ n (pos 0))
        (p.max_steps ∷ p.max_external_calls ∷ p.max_cost_units ∷ p.max_output_bytes ∷ []))
      negative_limit
    >> raise_if (any (λ k. not (is_known k)) p.allowed_capabilities) unknown_capability

-- The argument `policy`: None, a policy, or an object of another type.
pub data PolicyArgument : Type 0 where
  no_policy other_object : PolicyArgument
  given_policy : GuardPolicy → PolicyArgument

pub data Code : Type 0 where
  invalid_request invalid_policy invalid_approval_flag missing_action_id invalid_purpose : Code
  invalid_expected_effect unknown_action_class prohibited_action_class invalid_boolean_flag : Code
  invalid_resource_estimate resource_limit_exceeded capability_not_granted network_disabled : Code
  model_change_disabled production_change_disabled human_approval_required : Code
  allow_within_policy : Code

-- `action_id` is that of the audit.
pub record GuardDecision (F : Type 0) : Type 0 where
  pub allowed : Bool
  pub code : Code
  pub action_class : String
  pub action_id : Option (Value F)

abbrev pub flag_names : List String
flag_names = "network_required" ∷ "model_change" ∷ "production_change" ∷ []

-- `numeric_fields`
abbrev pub numeric_fields : GuardPolicy → List (String × ℤ)
numeric_fields p =
    ("steps", p.max_steps)
    ∷ ("external_calls", p.max_external_calls)
    ∷ ("cost_units", p.max_cost_units)
    ∷ ("output_bytes", p.max_output_bytes)
    ∷ []

module _ {F : Type 0} where
  -- A text that is not blank and has 500 characters at most.
  unfoldable pub short_text : Code → Value F → Result Code (Unit {0})
  short_text e (str s) = raise_if (is_blank s || ltb 500 (count_chars s)) e
  short_text e _ = err e

  unfoldable pub check_class : Value F → Result Code String
  check_class (str s) =
      if not (is_known s)
      then err unknown_action_class
      else if is_denied s
      then err prohibited_action_class
      else ok s
  check_class _ = err unknown_action_class

  unfoldable pub check_texts : Fields F → Result Code String
  check_texts r = do
    or_raise (as_text (get_value "action_id" r)) missing_action_id >>= λ _.
        short_text invalid_purpose (get_value "purpose" r)
    short_text invalid_expected_effect (get_value "expected_effect" r)
    check_class (get_value "action_class" r)

  unfoldable pub check_flag : Option (Value F) → Result Code (Unit {0})
  check_flag none = ok tt
  check_flag (some v) = raise_if (not (is_bool v)) invalid_boolean_flag

  unfoldable pub check_flags : List String → Fields F → Result Code (Unit {0})
  check_flags [] r = ok tt
  check_flags (f ∷ fs) r = check_flag (get f r) >> check_flags fs r

  -- `request.get(field, 0)`
  abbrev pub estimate : String → Fields F → Value F
  estimate f r = elim (get f r) [ none ↦ int (pos 0) | some v ↦ v ]

  unfoldable pub check_estimate : ℤ → Value F → Result Code (Unit {0})
  check_estimate maximum (int n) =
      raise_if (ltb_ℤ n (pos 0)) invalid_resource_estimate
      >> raise_if (ltb_ℤ maximum n) resource_limit_exceeded
  check_estimate maximum _ = err invalid_resource_estimate

  unfoldable pub check_estimates : List (String × ℤ) → Fields F → Result Code (Unit {0})
  check_estimates [] r = ok tt
  check_estimates ((f, maximum) ∷ es) r =
      check_estimate maximum (estimate f r) >> check_estimates es r

module _ ⦃fl : Floats⦄ where
  -- `request.get(field, False)`, as a test.
  unfoldable pub flag : String → Fields fl.Carrier → Bool
  flag f r = elim (get f r) [ none ↦ false | some v ↦ truthy v ]

  unfoldable pub check_grants :
      GuardPolicy → Bool → String → Fields fl.Carrier → Result Code (Unit {0})
  check_grants p approved k r = do
    raise_if (not (one_of k p.allowed_capabilities)) capability_not_granted
    raise_if ((is_networked k || flag "network_required" r) && not p.allow_network) network_disabled
    raise_if ((k == "model_change" || flag "model_change" r) && not p.allow_model_changes)
        model_change_disabled
    raise_if
        ((k == "production_change" || flag "production_change" r) && not p.allow_production_changes)
        production_change_disabled
    raise_if (is_mutating k && p.require_human_approval_for_mutations && not approved)
        human_approval_required

  -- The tests of a request that is a mapping, in their order; the action class where all pass.
  unfoldable pub evaluate : GuardPolicy → Bool → Fields fl.Carrier → Result Code String
  evaluate p approved r = do
    k ← check_texts r
    check_flags flag_names r
    check_estimates (numeric_fields p) r
    check_grants p approved k r
    ok k

  abbrev refuse_early : Code → GuardDecision fl.Carrier
  refuse_early e = record { allowed = false; code = e; action_class = "UNKNOWN"; action_id = none }

  module _ (text_of : Value fl.Carrier → String) where
    -- `str(action_class or "UNKNOWN")`
    abbrev class_text : Value fl.Carrier → String
    class_text v = if truthy v then elim (as_str v) [ none ↦ text_of v | some s ↦ s ] else "UNKNOWN"

    abbrev pub decision : Fields fl.Carrier → Result Code String → GuardDecision fl.Carrier
    decision r (ok k) = record {
      allowed = true;
      code = allow_within_policy;
      action_class = k;
      action_id = some (get_value "action_id" r);
    }
    decision r (err e) = record {
      allowed = false;
      code = e;
      action_class = class_text (get_value "action_class" r);
      action_id = some (get_value "action_id" r);
    }

    -- With the policy that is given, or the default.
    abbrev with_approval :
        GuardPolicy → Value fl.Carrier → Fields fl.Carrier → GuardDecision fl.Carrier
    with_approval p (bool approved) r = decision r (evaluate p approved r)
    with_approval p _ r = refuse_early invalid_approval_flag

    unfoldable pub authorize_action :
        Value fl.Carrier → PolicyArgument → Value fl.Carrier → GuardDecision fl.Carrier
    authorize_action (dict r) no_policy approved = with_approval default_policy approved r
    authorize_action (dict r) (given_policy p) approved = with_approval p approved r
    authorize_action (dict r) other_object approved = refuse_early invalid_policy
    authorize_action _ p approved = refuse_early invalid_request
