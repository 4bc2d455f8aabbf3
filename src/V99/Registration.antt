-- ===== src/V99/Registration.antt =====
-- The registry of v99/core/registry.py: permissions and identities over any registrations.
use v91_core_system.Prelude.{
  ◌==◌, String, ◌≡◌, refl, sym, ap, ◌∙◌, inl, inr, true, false, not, Option, some, List, [], ◌∷◌,
  any, all, arith, eq_iff, Bool-cases, if_cases,
}
use v91_core_system.Prelude.Dict.{lookup, contains, lookup-insert, lookup-nil}
use v91_core_system.Prelude.Result.{Result}
use v91_core_system.Prelude.Text.{one_of}
use v91_core_system.V99.Modules.{ModuleSpec}
use v91_core_system.V99.Registry.{Registry, RegistryError, denied, register, get_spec}

-- What the registry holds of a module has its identifier and allowed permissions only.
pub record IsGranted (allowed : List String) (k : String) (spec : ModuleSpec) : Type 0 where
  pub same : spec.module_id ≡ k
  pub within : all (λ p. one_of p allowed) spec.permissions ≡ true

all_allowed :
    (allowed ps : List String)
    → any (λ p. not (one_of p allowed)) ps ≡ false
    → all (λ p. one_of p allowed) ps ≡ true
all_allowed allowed [] h = refl
all_allowed allowed (p ∷ ps) h = ground (arith, all_allowed allowed ps)

module _ {ℓ} {A : Type ℓ} where
  -- The registry of a list of registrations, those that raise among them.
  unfoldable pub register_all : List (ModuleSpec × Option A) → Registry A → Registry A
  register_all [] g = g
  register_all ((spec, a) ∷ rs) g = register_all rs (register spec a g).1

  abbrev pub empty : List String → Registry A
  empty allowed = record { allowed_permissions = allowed; specs = []; adapters = [] }

  register_allowed :
      (spec : ModuleSpec) (a : Option A) (g : Registry A)
      → (register spec a g).1.allowed_permissions ≡ g.allowed_permissions
  unfolding register
  register_allowed spec a g = ground arith

  register-IsGranted :
      (spec : ModuleSpec) (a : Option A) (g : Registry A) (k : String)
      → ((x : ModuleSpec) → lookup k g.specs ≡ some x → IsGranted g.allowed_permissions k x)
      → (x : ModuleSpec) → lookup k (register spec a g).1.specs ≡ some x
      → IsGranted g.allowed_permissions k x
  unfolding register denied
  register-IsGranted spec a g k h x =
      let P = λ (y : Result RegistryError (Unit {0}) × Registry A).
        lookup k y.1.specs ≡ some x → IsGranted g.allowed_permissions k x in
      if_cases P (contains spec.module_id g.specs) (λ _. h x)
        λ fresh.
          if_cases P (denied g spec) (λ _. h x)
            λ fine e. elim (Bool-cases (spec.module_id == k)) [
              | inl same ↦
                  (let found = lookup-insert spec.module_id k spec g.specs in
                    let mine : spec ≡ x = ground (arith, same, found) in
                    record {
                      same =
                          ap (λ (s : ModuleSpec). s.module_id) (sym mine)
                          ∙ (eq_iff spec.module_id k).0 same;
                      within =
                          ap
                            (λ (s : ModuleSpec).
                              all (λ p. one_of p g.allowed_permissions) s.permissions)
                            (sym mine)
                          ∙ all_allowed g.allowed_permissions spec.permissions fine;
                    })
              | inr other ↦ h x (ground (arith, other, lookup-insert spec.module_id k spec g.specs))
            ]

  register_all-IsGranted :
      (rs : List (ModuleSpec × Option A)) (g : Registry A) (k : String)
      → ((x : ModuleSpec) → lookup k g.specs ≡ some x → IsGranted g.allowed_permissions k x)
      → (x : ModuleSpec) → lookup k (register_all rs g).specs ≡ some x
      → IsGranted g.allowed_permissions k x
  unfolding register_all
  register_all-IsGranted [] g k h x e = h x e
  register_all-IsGranted ((spec, a) ∷ rs) g k h x e = rw (← register_allowed spec a g) (
      register_all-IsGranted rs (register spec a g).1 k
        (λ y q. rw (register_allowed spec a g) (register-IsGranted spec a g k h y q)) x e)

  -- Whatever modules apply, under a set of allowed permissions, what is registered under an
  -- identifier carries that identifier and asks for allowed permissions only.
  pub registered-IsGranted :
      (allowed : List String) (rs : List (ModuleSpec × Option A)) (k : String) (x : ModuleSpec)
      → get_spec k (register_all rs (empty allowed)) ≡ some x
      → IsGranted allowed k x
  unfolding get_spec
  registered-IsGranted allowed rs k x e =
      register_all-IsGranted rs (empty allowed) k
        (λ y q. absurd (ground (arith, lookup-nil {V = ModuleSpec} k))) x e

  register_keeps :
      (spec : ModuleSpec) (a : Option A) (g : Registry A) (k : String) (x : ModuleSpec)
      → get_spec k g ≡ some x
      → get_spec k (register spec a g).1 ≡ some x
  unfolding register get_spec
  register_keeps spec a g k x e =
      ground (arith, lookup-insert spec.module_id k spec g.specs, eq_iff spec.module_id k)

  -- A later registration does not replace a module.
  pub registered_stays :
      (rs : List (ModuleSpec × Option A)) (g : Registry A) (k : String) (x : ModuleSpec)
      → get_spec k g ≡ some x
      → get_spec k (register_all rs g) ≡ some x
  unfolding register_all
  registered_stays [] g k x e = e
  registered_stays ((spec, a) ∷ rs) g k x e =
      registered_stays rs (register spec a g).1 k x (register_keeps spec a g k x e)
