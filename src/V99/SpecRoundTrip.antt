-- ===== src/V99/SpecRoundTrip.antt =====
-- A module specification of v99/core/module_standard.py survives `to_dict` and `load_module_spec`.
use v91_core_system.Prelude.{
  ◌==◌, String, ◌≡◌, refl, Bool, true, false, not, some, List, [], ◌∷◌, all, arith,
}
use v91_core_system.Prelude.Int.{pos, ltb_ℤ, ◌≤ℤ◌}
use v91_core_system.Prelude.Result.{ok}
use v91_core_system.Prelude.Text.{is_blank}
use v91_core_system.V99.Modules.{
  ModuleSpec, items_of, names_of, require_keys, require_str, require_bool, require_str_list,
  load_healthcheck, load_update_policy, load_module_spec, to_dict,
}

abbrev pub are_names : List String → Bool
are_names = all (λ s. not (s == ""))

-- Texts that are not blank, lists of texts that are not empty, and an interval of at least 1.
pub record IsWellFormed (s : ModuleSpec) : Type 0 where
  pub module_id : is_blank s.module_id ≡ false
  pub name : is_blank s.name ≡ false
  pub version : is_blank s.version ≡ false
  pub api_version : is_blank s.api_version ≡ false
  pub platforms : are_names s.platforms ≡ true
  pub capabilities : are_names s.capabilities ≡ true
  pub permissions : are_names s.permissions ≡ true
  pub interval : pos 1 ≤ℤ s.healthcheck.interval_seconds

module _ (F : Type 0) where
  names_of-items_of :
      (ss : List String) → are_names ss ≡ true → names_of {F = F} (items_of ss) ≡ some ss
  names_of-items_of [] h = refl
  names_of-items_of (s ∷ ss) h = ground (arith, names_of-items_of ss)

  -- Loading what `to_dict` writes gives the specification back.
  pub load_module_spec-to_dict :
      (s : ModuleSpec) → IsWellFormed s → load_module_spec {F = F} (to_dict s) ≡ ok s
  unfolding load_module_spec to_dict require_keys require_str require_bool require_str_list
      load_healthcheck load_update_policy
  load_module_spec-to_dict s w =
      let low : ltb_ℤ s.healthcheck.interval_seconds (pos 1) ≡ false = ground arith in
      rw
        (
          w.module_id,
          w.name,
          w.version,
          w.api_version,
          low,
          names_of-items_of s.platforms w.platforms,
          names_of-items_of s.capabilities w.capabilities,
          names_of-items_of s.permissions w.permissions,
        )
        (refl)
