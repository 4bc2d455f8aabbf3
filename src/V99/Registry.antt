-- ===== src/V99/Registry.antt =====
-- v99/core/registry.py: `ModuleRegistry`, over any type of adapters.
use v91_core_system.Prelude.{
  String, Bool, not, Option, none, some, List, [], ◌∷◌, any, if◌then◌else◌,
}
use v91_core_system.Prelude.Dict.{Dict, lookup, contains, insert}
use v91_core_system.Prelude.Result.{Result, ok, err}
use v91_core_system.Prelude.Sorting.{sorted}
use v91_core_system.Prelude.Text.{one_of}
use v91_core_system.V99.Modules.{ModuleSpec}

pub data RegistryError : Type 0 where
  double_registration permission_denied key_error : RegistryError

-- An adapter may be `None`.
pub record Registry {ℓ} (A : Type ℓ) : Type ℓ where
  pub allowed_permissions : List String
  pub specs : Dict ModuleSpec
  pub adapters : Dict (Option A)

abbrev pub keys {ℓ} : {V : Type ℓ} → Dict V → List String
keys [] = []
keys ((k, v) ∷ d) = k ∷ keys d

module _ {ℓ} {A : Type ℓ} where
  -- `set(spec.permissions) - self._allowed_permissions` is not empty.
  unfoldable pub denied : Registry A → ModuleSpec → Bool
  denied g spec = any (λ p. not (one_of p g.allowed_permissions)) spec.permissions

  unfoldable pub register :
      ModuleSpec → Option A → Registry A → Result RegistryError (Unit {0}) × Registry A
  unfolding denied
  register spec adapter g =
      if contains spec.module_id g.specs
      then (err double_registration, g)
      else if denied g spec
      then (err permission_denied, g)
      else (
        ok tt,
        record g {
          specs = insert spec.module_id spec g.specs;
          adapters = insert spec.module_id adapter g.adapters;
        },
      )

  unfoldable pub get_spec : String → Registry A → Option ModuleSpec
  get_spec k g = lookup k g.specs

  -- `None` for no adapter and for no module.
  unfoldable pub get_adapter : String → Registry A → Option A
  get_adapter k g = elim (lookup k g.adapters) [ none ↦ none | some a ↦ a ]

  unfoldable pub list_module_ids : Registry A → List String
  list_module_ids g = sorted (keys g.specs)
