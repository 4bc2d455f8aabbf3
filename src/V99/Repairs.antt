-- ===== src/V99/Repairs.antt =====
-- Which repairs the agent of v99/core/agent.py tries.
use v91_core_system.Prelude.{
  ◌≡◌, refl, ap, ◌∙◌, true, false, not, Option, none, some, List, [], ◌∷◌, map, All, arith,
  if_cases,
}
use v91_core_system.V99.Registry.{Registry, get_adapter}
use v91_core_system.V99.Agent.{
  ActionProposal, Adapter, Executed, allowed, execute_one, execute_safe_repairs,
}

-- A proposal that may be tried: reversible, with no approval missing, for a module with an adapter.
pub record IsSafe (g : Registry Adapter) (p : ActionProposal) : Type 0 where
  pub adapter : Adapter
  pub registered : get_adapter p.module_id g ≡ some adapter
  pub reversible : p.reversible ≡ true
  pub approved : p.requires_approval ≡ false

execute_one-All :
    (g : Registry Adapter) (p : ActionProposal) (adapter : Option Adapter) (rest : Executed)
    → get_adapter p.module_id g ≡ adapter
    → All (IsSafe g) rest.tried
    → All (IsSafe g) (execute_one p adapter rest).tried
unfolding execute_one
execute_one-All g p none rest e h =
    if_cases (λ (x : Executed). All (IsSafe g) x.tried) (not (allowed p)) (λ _. h) (λ _. h)
execute_one-All g p (some a) rest e h =
    if_cases (λ (x : Executed). All (IsSafe g) x.tried) (not (allowed p)) (λ _. h)
      λ fine. (
        record { adapter = a; registered = e; reversible = ground arith; approved = ground arith },
        h,
      )

-- Only reversible proposals that need no approval reach an adapter.
pub repairs-IsSafe :
    (ps : List ActionProposal) (g : Registry Adapter)
    → All (IsSafe g) (execute_safe_repairs ps g).tried
unfolding execute_safe_repairs
repairs-IsSafe [] g = tt
repairs-IsSafe (p ∷ ps) g =
    execute_one-All g p (get_adapter p.module_id g) (execute_safe_repairs ps g) refl
      (repairs-IsSafe ps g)

execute_one_id :
    (p : ActionProposal) (adapter : Option Adapter) (rest : Executed)
    → map (λ r. r.0) (execute_one p adapter rest).results
      ≡ p.module_id ∷ map (λ r. r.0) rest.results
unfolding execute_one
execute_one_id p none rest = ground arith
execute_one_id p (some a) rest = ground arith

-- Every proposal has one result, in the order of the proposals.
pub repairs_answered :
    (ps : List ActionProposal) (g : Registry Adapter)
    → map (λ r. r.0) (execute_safe_repairs ps g).results ≡ map (λ p. p.module_id) ps
unfolding execute_safe_repairs
repairs_answered [] g = refl
repairs_answered (p ∷ ps) g =
    execute_one_id p (get_adapter p.module_id g) (execute_safe_repairs ps g)
    ∙ ap (λ ids. p.module_id ∷ ids) (repairs_answered ps g)
