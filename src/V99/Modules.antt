-- ===== src/V99/Modules.antt =====
-- v99/core/module_standard.py: `load_module_spec` and `ModuleSpec.to_dict`. A Boolean is an `int` in
-- Python, so `true` is accepted as the interval 1.
use v91_core_system.Prelude.{
  String, Bool, true, not, Option, none, some, List, [], ◌∷◌, if◌then◌else◌,
}
use v91_core_system.Prelude.Int.{ℤ, pos, ltb_ℤ}
use v91_core_system.Prelude.Result.{Result, ok, raise_if, or_raise, ◌>>=◌, ◌>>◌}
use v91_core_system.Prelude.Value.{
  Value, bool, int, str, list, dict, Items, nil, cons, Fields, end, field, get_value, has, as_dict,
  as_text, as_nonempty,
}

pub record HealthcheckSpec : Type 0 where
  pub enabled : Bool
  pub interval_seconds : ℤ

pub record UpdatePolicySpec : Type 0 where
  pub automatic_check : Bool
  pub automatic_install : Bool
  pub rollback_required : Bool

pub record ModuleSpec : Type 0 where
  pub module_id : String
  pub name : String
  pub version : String
  pub api_version : String
  pub enabled : Bool
  pub platforms : List String
  pub capabilities : List String
  pub permissions : List String
  pub healthcheck : HealthcheckSpec
  pub update_policy : UpdatePolicySpec

-- The ValueErrors, with the key that they name.
pub data SpecError : Type 0 where
  not_object bad_healthcheck no_update_policy : SpecError
  missing not_text not_bool not_text_list not_policy_bool : String → SpecError

abbrev pub required_top_level : List String
required_top_level =
    "module_id" ∷ "name" ∷ "version" ∷ "api_version" ∷ "enabled" ∷ "platforms" ∷ "capabilities"
    ∷ "permissions" ∷ []

module _ {F : Type 0} where
  abbrev as_bool : Value F → Option Bool
  as_bool (bool b) = some b
  as_bool _ = none

  -- `isinstance(v, int) and v >= 1`, and the number.
  abbrev pub as_interval : Value F → Option ℤ
  as_interval (int n) = if ltb_ℤ n (pos 1) then none else some n
  as_interval (bool true) = some (pos 1)
  as_interval _ = none

  abbrev pub names_of : Items F → Option (List String)
  names_of nil = some []
  names_of (cons v vs) = elim (as_nonempty v) [
    | none ↦ none
    | some s ↦ elim (names_of vs) [ none ↦ none | some ss ↦ some (s ∷ ss) ]
  ]

  abbrev as_names : Value F → Option (List String)
  as_names (list vs) = names_of vs
  as_names _ = none

  unfoldable pub require_str : Fields F → String → Result SpecError String
  require_str d key = or_raise (as_text (get_value key d)) (not_text key)

  unfoldable pub require_bool : Fields F → String → Result SpecError Bool
  require_bool d key = or_raise (as_bool (get_value key d)) (not_bool key)

  unfoldable pub require_str_list : Fields F → String → Result SpecError (List String)
  require_str_list d key = or_raise (as_names (get_value key d)) (not_text_list key)

  unfoldable pub require_keys : List String → Fields F → Result SpecError (Unit {0})
  require_keys [] d = ok tt
  require_keys (key ∷ keys) d = raise_if (not (has key d)) (missing key) >> require_keys keys d

  unfoldable pub load_healthcheck : Value F → Result SpecError HealthcheckSpec
  load_healthcheck v = do
    hc ← or_raise (as_dict v) bad_healthcheck
    enabled ← or_raise (as_bool (get_value "enabled" hc)) bad_healthcheck
    interval ← or_raise (as_interval (get_value "interval_seconds" hc)) bad_healthcheck
    ok (record { enabled = enabled; interval_seconds = interval })

  abbrev policy_bool : Fields F → String → Result SpecError Bool
  policy_bool up key = or_raise (as_bool (get_value key up)) (not_policy_bool key)

  unfoldable pub load_update_policy : Value F → Result SpecError UpdatePolicySpec
  load_update_policy v = do
    up ← or_raise (as_dict v) no_update_policy
    check ← policy_bool up "automatic_check"
    install ← policy_bool up "automatic_install"
    rollback ← policy_bool up "rollback_required"
    ok (record {
      automatic_check = check;
      automatic_install = install;
      rollback_required = rollback;
    })

  unfoldable pub load_fields : Fields F → Result SpecError ModuleSpec
  load_fields d = do
    require_keys required_top_level d
    hc ← load_healthcheck (get_value "healthcheck" d)
    up ← load_update_policy (get_value "update_policy" d)
    module_id ← require_str d "module_id"
    name ← require_str d "name"
    version ← require_str d "version"
    api_version ← require_str d "api_version"
    enabled ← require_bool d "enabled"
    platforms ← require_str_list d "platforms"
    capabilities ← require_str_list d "capabilities"
    permissions ← require_str_list d "permissions"
    ok (record {
      module_id = module_id;
      name = name;
      version = version;
      api_version = api_version;
      enabled = enabled;
      platforms = platforms;
      capabilities = capabilities;
      permissions = permissions;
      healthcheck = hc;
      update_policy = up;
    })

  unfoldable pub load_module_spec : Value F → Result SpecError ModuleSpec
  unfolding load_fields
  load_module_spec v = or_raise (as_dict v) not_object >>= λ d. load_fields d

  abbrev pub items_of : List String → Items F
  items_of [] = nil
  items_of (s ∷ ss) = cons (str s) (items_of ss)

  unfoldable pub to_dict : ModuleSpec → Value F
  to_dict s = dict (
      field "module_id" (str s.module_id) (
        field "name" (str s.name) (
          field "version" (str s.version) (
            field "api_version" (str s.api_version) (
              field "enabled" (bool s.enabled) (
                field "platforms" (list (items_of s.platforms)) (
                  field "capabilities" (list (items_of s.capabilities)) (
                    field "permissions" (list (items_of s.permissions)) (
                      field "healthcheck"
                        (dict (
                          field "enabled" (bool s.healthcheck.enabled)
                            (field "interval_seconds" (int s.healthcheck.interval_seconds) end)))
                        (field "update_policy"
                          (dict (
                            field "automatic_check" (bool s.update_policy.automatic_check) (
                              field "automatic_install" (bool s.update_policy.automatic_install) (
                                field "rollback_required" (bool s.update_policy.rollback_required)
                                  end))))
                          end))))))))))
