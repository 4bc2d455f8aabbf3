-- ===== src/Guardrail/Gate.antt =====
-- When the gateway of addons/v91_guardrail/guarded_runner.py calls a tool, and what it records.
use v91_core_system.Prelude.{
  String, ◌≡◌, refl, sym, ◌∙◌, inl, inr, ◌⊎◌, Bool, true, false, not, ◌||◌, Option, none, some,
  List, [], ◌∷◌, ◌++◌, map, arith, if_cases, append_assoc, append-nil,
}
use v91_core_system.Prelude.Dict.{lookup}
use v91_core_system.Prelude.Result.{Result, ok, err}
use v91_core_system.Guardrail.Decisions.{IsPlain, allow_exact}
use v91_core_system.Guardrail.Policy.{Decision, PolicyStatus, allow_local_review, evaluate}
use v91_core_system.Guardrail.Runner.{
  attempted, ToolSpec, ToolResult, Runner, is_allow, called, record_result, run_spec, run_tool, run,
}

is_allow-eq : (s : PolicyStatus) → is_allow s ≡ true → s ≡ allow_local_review
is_allow-eq s h = ground arith

called-attempted :
    {R : Type 0} (name : String) (proposal : Option String) (d : Decision)
    (answer : Result String R)
    → attempted (called name proposal d answer).audit.entry ≡ true
called-attempted name proposal d (ok value) = refl
called-attempted name proposal d (err e) = refl

called-name :
    {R : Type 0} (name : String) (proposal : Option String) (d : Decision)
    (answer : Result String R)
    → (called name proposal d answer).audit.tool_name ≡ name
called-name name proposal d (ok value) = refl
called-name name proposal d (err e) = refl

module _ {W A R : Type 0} (search : String → String → Bool) where
  -- The tool is registered as local and read-only and the proposal is plain; the world and the
  -- result are what the tool makes of them.
  pub record IsCalled (name : String) (proposal : Option String) (args : A) (g : Runner W A R)
      (w : W) (w' : W) : Type 0 where
    pub spec : ToolSpec W A R
    pub registered : lookup name g.tools ≡ some spec
    pub read_only : spec.read_only ≡ true
    pub local : spec.network_access ≡ false
    pub harmless : spec.destructive ≡ false
    pub plain : IsPlain search proposal
    pub effect : w' ≡ (spec.function args w).1

  -- What a call leaves: no attempt and the world as it was, or an attempt.
  abbrev Outcome : String → Option String → A → Runner W A R → W → ToolResult R × W → Type 0
  Outcome name proposal args g w out =
      ((attempted out.0.audit.entry ≡ false) × (out.1 ≡ w))
      ⊎ ((attempted out.0.audit.entry ≡ true) × IsCalled name proposal args g w out.1)

  run_spec-Outcome :
      (name : String) (proposal : Option String) (args : A) (g : Runner W A R) (w : W)
      (spec : ToolSpec W A R)
      → lookup name g.tools ≡ some spec
      → Outcome name proposal args g w (run_spec search name proposal args spec w)
  unfolding run_spec
  run_spec-Outcome name proposal args g w spec found =
      let P = λ (out : ToolResult R × W). Outcome name proposal args g w out in
      let d = evaluate search proposal none in
      if_cases P (not spec.read_only || spec.network_access || spec.destructive)
        (λ unsafe. inl (refl, refl))
        λ safe.
          if_cases P (not (is_allow d.status)) (λ refused. inl (refl, refl))
            λ fine. inr (
              called-attempted name proposal d (spec.function args w).0,
              record {
                spec = spec;
                registered = found;
                read_only = ground arith;
                local = ground arith;
                harmless = ground arith;
                plain =
                    ((allow_exact search proposal none).0 (is_allow-eq d.status (ground arith))).0;
                effect = refl;
              },
            )

  run_tool-Outcome :
      (name : String) (proposal : Option String) (args : A) (g : Runner W A R) (w : W)
      (tool : Option (ToolSpec W A R))
      → lookup name g.tools ≡ tool
      → Outcome name proposal args g w (run_tool search name proposal args tool w)
  run_tool-Outcome name proposal args g w none found = inl (refl, refl)
  run_tool-Outcome name proposal args g w (some spec) found =
      run_spec-Outcome name proposal args g w spec found

  -- A run changes nothing and records that no execution was attempted, or it records an attempt,
  -- the tool is registered as read-only, without network and not destructive, the proposal is a text
  -- that is not blank and has none of the patterns, and the world is what the tool leaves.
  pub run-IsCalled :
      (name : String) (proposal : Option String) (args : A) (g : Runner W A R) (w : W)
      → let out = run search name proposal args (g, w) in
        ((attempted out.0.audit.entry ≡ false) × (out.2 ≡ w))
        ⊎ ((attempted out.0.audit.entry ≡ true) × IsCalled name proposal args g w out.2)
  unfolding run
  run-IsCalled name proposal args g w =
      run_tool-Outcome name proposal args g w (lookup name g.tools) refl

  run_tool-name :
      (name : String) (proposal : Option String) (args : A) (tool : Option (ToolSpec W A R)) (w : W)
      → (run_tool search name proposal args tool w).0.audit.tool_name ≡ name
  unfolding run_spec
  run_tool-name name proposal args none w = refl
  run_tool-name name proposal args (some spec) w =
      let d = evaluate search proposal none in
      let P = λ (out : ToolResult R × W). out.0.audit.tool_name ≡ name in
      if_cases P (not spec.read_only || spec.network_access || spec.destructive) (λ unsafe. refl)
        λ safe.
          if_cases P (not (is_allow d.status)) (λ refused. refl)
            λ fine. called-name name proposal d (spec.function args w).0

  -- The runs of a list of calls, with their results.
  unfoldable pub run_all :
      List (String × Option String × A) → Runner W A R → W → List (ToolResult R) × Runner W A R × W
  run_all [] g w = ([], g, w)
  run_all ((name, proposal, args) ∷ calls) g w =
      let (r, g', w') = run search name proposal args (g, w) in
      let (rs, last, world) = run_all calls g' w' in (r ∷ rs, last, world)

  -- After any calls the log is the old log and the audit of each result, in order, with the names
  -- that were called, and the tools are as they were.
  pub runs_audited :
      (calls : List (String × Option String × A)) (g : Runner W A R) (w : W)
      → let out = run_all calls g w in
        (out.1.audit_log ≡ g.audit_log ++ map (λ r. r.audit) out.0)
        × (out.1.tools ≡ g.tools)
        × (map (λ r. r.audit.tool_name) out.0 ≡ map (λ c. c.0) calls)
  unfolding run_all run record_result
  runs_audited [] g w = (sym (append-nil g.audit_log), refl, refl)
  runs_audited ((name, proposal, args) ∷ calls) g w =
      let out = run_tool search name proposal args (lookup name g.tools) w in
      let g' = (record_result out.0 g).1 in
      let (log, tools, names) = runs_audited calls g' out.1 in
      (
        log ∙ append_assoc g.audit_log (out.0.audit ∷ []) _,
        tools,
        λ i. run_tool-name name proposal args (lookup name g.tools) w i ∷ names i,
      )
