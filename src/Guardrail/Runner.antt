-- ===== src/Guardrail/Runner.antt =====
-- addons/v91_guardrail/guarded_runner.py: `GuardedToolRunner`. A tool is a function of its arguments
-- and of the world that it may change; it returns, or raises an exception with a type name.
use v91_core_system.Prelude.{
  String, Bool, true, false, not, ◌||◌, Option, none, some, List, [], ◌∷◌, ◌++◌, if◌then◌else◌,
}
use v91_core_system.Prelude.Dict.{Dict, lookup}
use v91_core_system.Prelude.Result.{Result, ok, err}
use v91_core_system.Guardrail.Policy.{
  Decision, EvidenceState, PolicyStatus, block, review_required, allow_local_review, evaluate,
}

pub data ToolStatus : Type 0 where
  block_unknown_tool block_unsafe_tool_spec block_policy tool_error executed_local_read_only :
      ToolStatus

-- The entries of an audit after `tool_name` and `proposal_checked`.
pub data AuditEntry : Type 0 where
  not_allowlisted not_local_read_only : AuditEntry
  policy : Decision → AuditEntry
  -- the status of the policy and the type of the exception
  error : PolicyStatus → String → AuditEntry
  returned : PolicyStatus → EvidenceState → AuditEntry

pub record Audit : Type 0 where
  pub tool_name : String
  pub proposal_checked : Bool
  pub entry : AuditEntry

-- `execution_attempted`
abbrev pub attempted : AuditEntry → Bool
attempted not_allowlisted = false
attempted not_local_read_only = false
attempted (policy d) = false
attempted (error s e) = true
attempted (returned s e) = true

pub record ToolSpec (W A R : Type 0) : Type 0 where
  pub function : A → W → Result String R × W
  pub read_only : Bool
  pub network_access : Bool
  pub destructive : Bool

pub record ToolResult (R : Type 0) : Type 0 where
  pub status : ToolStatus
  pub result : Option R
  pub audit : Audit

pub record Runner (W A R : Type 0) : Type 0 where
  pub tools : Dict (ToolSpec W A R)
  pub audit_log : List Audit

abbrev pub is_text : Option String → Bool
is_text none = false
is_text (some s) = true

module _ {R : Type 0} where
  abbrev pub result_of : String → Option String → ToolStatus → Option R → AuditEntry → ToolResult R
  result_of name proposal status value entry = record {
    status = status;
    result = value;
    audit = record { tool_name = name; proposal_checked = is_text proposal; entry = entry };
  }

  -- The result after the call of the tool.
  abbrev pub called : String → Option String → Decision → Result String R → ToolResult R
  called name proposal d (err e) = result_of name proposal tool_error none (error d.status e)
  called name proposal d (ok value) =
      result_of name proposal executed_local_read_only (some value)
        (returned d.status d.evidence_state)

abbrev pub is_allow : PolicyStatus → Bool
is_allow allow_local_review = true
is_allow block = false
is_allow review_required = false

module _ {W A R : Type 0} where
  unfoldable pub record_result : ToolResult R → Runner W A R → ToolResult R × Runner W A R
  record_result r g = (r, record g { audit_log = g.audit_log ++ (r.audit ∷ []) })

module _ {W A R : Type 0} (search : String → String → Bool) where
  -- `run` for a registered tool, with its result and the world after it.
  unfoldable pub run_spec : String → Option String → A → ToolSpec W A R → W → ToolResult R × W
  run_spec name proposal args spec w =
      if not spec.read_only || spec.network_access || spec.destructive
      then (result_of name proposal block_unsafe_tool_spec none not_local_read_only, w)
      else let d = evaluate search proposal none in
        if not (is_allow d.status)
        then (result_of name proposal block_policy none (policy d), w)
        else (called name proposal d (spec.function args w).0, (spec.function args w).1)

  abbrev pub run_tool : String → Option String → A → Option (ToolSpec W A R) → W → ToolResult R × W
  run_tool name proposal args none w =
      (result_of name proposal block_unknown_tool none not_allowlisted, w)
  run_tool name proposal args (some spec) w = run_spec name proposal args spec w

  unfoldable pub run :
      String → Option String → A → Runner W A R × W → ToolResult R × Runner W A R × W
  unfolding run_spec record_result
  run name proposal args (g, w) =
      let out = run_tool name proposal args (lookup name g.tools) w in
      let kept = record_result out.0 g in (kept.0, kept.1, out.1)
