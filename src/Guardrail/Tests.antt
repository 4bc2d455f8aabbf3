-- ===== src/Guardrail/Tests.antt =====
-- Concrete runs of addons/v91_guardrail, and the theorems at inputs. A search finds a text that is
-- the last word of a pattern's list.
use v91_core_system.Prelude.{
  ◌==◌, String, ◌≡◌, ◌↔◌, ◌⊎◌, refl, Bool, true, false, ◌&&◌, ◌||◌, Option, none, some, List, [],
  ◌∷◌, ◌++◌, map,
}
use v91_core_system.Prelude.Dict.{lookup}
use v91_core_system.Prelude.Result.{ok}
use v91_core_system.Prelude.Sorting.{sorted, insert_sorted}
use v91_core_system.Prelude.Text.{is_blank, is_space}
use v91_core_system.Guardrail.Decisions.{IsPlain, IsHarmless, allow_exact}
use v91_core_system.Guardrail.Gate.{IsCalled, run-IsCalled, run_all, runs_audited}
use v91_core_system.Guardrail.Policy.{
  block, allow_local_review, context_reasons, decide, found, evaluate_text, context_or_default,
  evaluate,
}
use v91_core_system.Guardrail.Runner.{Runner, ToolSpec, attempted, run_spec, record_result, run}

abbrev search : String → String → Bool
search pattern text =
    (text == "wipe" && pattern == "\\b(lösche|löschen|vernichte|wipe|purge|formatier(?:e|en))\\b")
    || (text == "Waffenhandel"
        && pattern
          == "\\b(krieg|bewaffnet(?:e|er|en)? konflikt|waffenhandel|militärangriff|munitionsproduktion|rüstungsindustrie|frontverlauf)\\b")

-- A tool that gives its argument back and counts its calls by a text.
abbrev echo : ToolSpec String String String
echo = record {
  function = λ args w. (ok args, "called");
  read_only = true;
  network_access = false;
  destructive = false;
}

abbrev runner : Runner String String String
runner = record { tools = ("echo", echo) ∷ []; audit_log = [] }

wipe_blocked : (evaluate search (some "wipe") none).status ≡ block
unfolding evaluate evaluate_text decide context_reasons found sorted insert_sorted is_blank is_space
wipe_blocked = refl

topic_reviewed : (evaluate search (some "Waffenhandel") none).topic_flags ≡ "CONFLICT_OR_WAR" ∷ []
unfolding evaluate evaluate_text decide context_reasons found sorted insert_sorted is_blank is_space
topic_reviewed = refl

allow_exact_example :
    ((evaluate search (some "count files") none).status ≡ allow_local_review)
    ↔ (IsPlain search (some "count files") × IsHarmless (context_or_default search none))
allow_exact_example = allow_exact search (some "count files") none

run-IsCalled_example :
    let out = run search "echo" (some "count files") "a" (runner, "idle") in
    ((attempted out.0.audit.entry ≡ false) × (out.2 ≡ "idle"))
    ⊎ ((attempted out.0.audit.entry ≡ true)
        × IsCalled search "echo" (some "count files") "a" runner "idle" out.2)
run-IsCalled_example = run-IsCalled search "echo" (some "count files") "a" runner "idle"

echo_called : (run search "echo" (some "count files") "a" (runner, "idle")).2 ≡ "called"
unfolding run run_spec record_result lookup evaluate evaluate_text decide context_reasons found
    sorted insert_sorted is_blank is_space
echo_called = refl

abbrev calls : List (String × Option String × String)
calls = ("echo", some "count files", "a") ∷ ("rm", some "count files", "b") ∷ []

audited_runs :
    let out = run_all search calls runner "idle" in
    (out.1.audit_log ≡ [] ++ map (λ r. r.audit) out.0)
    × (out.1.tools ≡ runner.tools)
    × (map (λ r. r.audit.tool_name) out.0 ≡ map (λ c. c.0) calls)
audited_runs = runs_audited search calls runner "idle"
