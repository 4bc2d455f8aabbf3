-- ===== src/V99/Agent.antt =====
-- v99/core/agent.py: `V99Agent` and `PolicyEngine`. An adapter is what its calls answer in one cycle,
-- `none` for an exception; an execution that is tried is recorded beside the results.
use v91_core_system.Prelude.{
  ◌==◌, String, Bool, true, false, not, Option, none, some, List, [], ◌∷◌, if◌then◌else◌,
}
use v91_core_system.V99.Modules.{ModuleSpec}
use v91_core_system.V99.Registry.{Registry, get_spec, get_adapter, list_module_ids}

-- The texts of `details`.
pub data Details : Type 0 where
  no_adapter inspection_failed : Details
  identity_mismatch given : String → Details

pub record ModuleReport : Type 0 where
  pub module_id : String
  pub version : String
  pub status : String
  pub details : Details

pub record ActionProposal : Type 0 where
  pub module_id : String
  pub action : String
  pub reason : String
  pub reversible : Bool
  pub requires_approval : Bool

pub record Adapter : Type 0 where
  pub inspect : Option ModuleReport
  pub propose_repair : Option (Option ActionProposal)
  pub execute : ActionProposal → Option Bool

pub data Outcome : Type 0 where
  not_authorized no_adapter_left success failed raised : Outcome

-- `PolicyEngine.allowed`
unfoldable pub allowed : ActionProposal → Bool
allowed p = if not p.reversible then false else if p.requires_approval then false else true

abbrev pub unknown_report : String → ModuleSpec → Details → ModuleReport
unknown_report k spec d = record {
  module_id = k;
  version = spec.version;
  status = "UNKNOWN";
  details = d;
}

-- The report after the call of the adapter, or its exception.
unfoldable pub checked_report : String → ModuleSpec → Option ModuleReport → ModuleReport
checked_report k spec none = unknown_report k spec inspection_failed
checked_report k spec (some r) =
    if not (r.module_id == k) then unknown_report k spec (identity_mismatch r.module_id) else r

-- The body of the loop of `inspect_all`.
unfoldable pub inspect_one : String → ModuleSpec → Option Adapter → ModuleReport
unfolding checked_report
inspect_one k spec none = unknown_report k spec no_adapter
inspect_one k spec (some a) = checked_report k spec a.inspect

-- `get_spec` raises a KeyError for a module that is not registered, which the loop does not meet.
abbrev pub report_for : String → Option ModuleSpec → Option Adapter → Option ModuleReport
report_for k none adapter = none
report_for k (some spec) adapter = some (inspect_one k spec adapter)

abbrev pub add_report :
    Option ModuleReport → Option (List ModuleReport) → Option (List ModuleReport)
add_report (some r) (some rs) = some (r ∷ rs)
add_report (some r) none = none
add_report none _ = none

unfoldable pub inspect_each : List String → Registry Adapter → Option (List ModuleReport)
unfolding inspect_one
inspect_each [] g = some []
inspect_each (k ∷ ks) g =
    add_report (report_for k (get_spec k g) (get_adapter k g)) (inspect_each ks g)

unfoldable pub inspect_all : Registry Adapter → Option (List ModuleReport)
inspect_all g = inspect_each (list_module_ids g) g

-- The body of the loop of `prepare_repairs`: a proposal for the module itself.
unfoldable pub proposal_of : String → Option Adapter → Option ActionProposal
proposal_of k none = none
proposal_of k (some a) = elim a.propose_repair [
  | none ↦ none
  | some none ↦ none
  | some (some p) ↦ (if not (p.module_id == k) then none else some p)
]

unfoldable pub propose_each : List String → Registry Adapter → List ActionProposal
unfolding proposal_of
propose_each [] g = []
propose_each (k ∷ ks) g =
    let rest = propose_each ks g in
    elim (proposal_of k (get_adapter k g)) [ none ↦ rest | some p ↦ p ∷ rest ]

unfoldable pub prepare_repairs : Registry Adapter → List ActionProposal
prepare_repairs g = propose_each (list_module_ids g) g

-- The results, and the proposals that were handed to an adapter.
pub record Executed : Type 0 where
  pub results : List (String × Outcome)
  pub tried : List ActionProposal

abbrev pub outcome_of : Option Bool → Outcome
outcome_of none = raised
outcome_of (some true) = success
outcome_of (some false) = failed

abbrev pub skip : ActionProposal → Outcome → Executed → Executed
skip p o rest = record rest { results = (p.module_id, o) ∷ rest.results }

-- One round of `execute_safe_repairs` before the rest.
unfoldable pub execute_one : ActionProposal → Option Adapter → Executed → Executed
unfolding allowed
execute_one p adapter rest = if not (allowed p) then skip p not_authorized rest else elim adapter [
  | none ↦ skip p no_adapter_left rest
  | some a ↦ record {
    results = (p.module_id, outcome_of (a.execute p)) ∷ rest.results;
    tried = p ∷ rest.tried;
  }
]

unfoldable pub execute_safe_repairs : List ActionProposal → Registry Adapter → Executed
unfolding execute_one
execute_safe_repairs [] g = record { results = []; tried = [] }
execute_safe_repairs (p ∷ ps) g =
    execute_one p (get_adapter p.module_id g) (execute_safe_repairs ps g)
