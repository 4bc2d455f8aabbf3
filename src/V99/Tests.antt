-- ===== src/V99/Tests.antt =====
-- Concrete runs of v99/core, and the theorems at inputs.
use v91_core_system.Prelude.{
  ℕ, arith, ◌≤◌, ◌≡◌, ◌⊎◌, ◌↔◌, refl, inl, true, false, none, some, [], ◌∷◌, length, All, any,
}
use v91_core_system.Prelude.Dict.{lookup, insert}
use v91_core_system.Prelude.Sorting.{sorted, insert_sorted}
use v91_core_system.Prelude.Int.{ℤ, pos}
use v91_core_system.Prelude.Result.{ok, err}
use v91_core_system.Prelude.Text.{is_blank, one_of}
use v91_core_system.V99.Agent.{
  checked_report, inspect_one, inspect_each, execute_one, allowed, ModuleReport, ActionProposal,
  Adapter, success, not_authorized, given, inspect_all, execute_safe_repairs,
}
use v91_core_system.V99.History.{
  Round, run_rounds, log_of, last_of, fresh, history_window, due_iff_missed,
}
use v91_core_system.V99.Inspection.{IsInspected, healthy-IsInspected}
use v91_core_system.V99.Lifecycle.{
  initializing, running, paused, halted, not_allowed, transition, transition_to, run,
}
use v91_core_system.V99.Modules.{ModuleSpec, load_module_spec, to_dict}
use v91_core_system.V99.Registration.{IsGranted, empty, register_all, registered-IsGranted}
use v91_core_system.V99.Registry.{
  denied, Registry, permission_denied, register, get_spec, get_adapter, list_module_ids,
}
use v91_core_system.V99.Repairs.{IsSafe, repairs-IsSafe}
use v91_core_system.V99.Scheduler.{
  trim, aggregate_of, status_dict, aware, naive, Scheduler, CycleResult, max_history, result_of,
  run_cycle, due, missed_intervals,
}
use v91_core_system.V99.Severity.{severity, aggregate_worst}
use v91_core_system.V99.SpecRoundTrip.{IsWellFormed, load_module_spec-to_dict}
use v91_core_system.V99.Status.{first_level, aggregate_order, aggregate_status}
use v91_core_system.V99.Transitions.{Transits, transition-Transits, halted_absorbs}

unknown_among : aggregate_status ("HEALTHY" ∷ "UNKNOWN" ∷ "DEGRADED" ∷ []) ≡ "UNKNOWN"
unfolding aggregate_status first_level
unknown_among = refl

-- A status that is no level does not count.
stray_status : aggregate_status ("HEALTHY" ∷ "LOST" ∷ []) ≡ "HEALTHY"
unfolding aggregate_status first_level
stray_status = refl

aggregate_worst_example :
    All
      (λ s. severity s ≤ severity (aggregate_status ("HEALTHY" ∷ "FAILED" ∷ [])))
      ("HEALTHY" ∷ "FAILED" ∷ [])
    × ((one_of (aggregate_status ("HEALTHY" ∷ "FAILED" ∷ [])) ("HEALTHY" ∷ "FAILED" ∷ []) ≡ true)
        ⊎ ((aggregate_status ("HEALTHY" ∷ "FAILED" ∷ []) ≡ "UNKNOWN")
            × (any (λ l. one_of l ("HEALTHY" ∷ "FAILED" ∷ [])) aggregate_order ≡ false)))
aggregate_worst_example = aggregate_worst ("HEALTHY" ∷ "FAILED" ∷ [])

not_back : transition (some initializing) running ≡ (err not_allowed, running)
unfolding transition
not_back = refl

transition-Transits_example : Transits running paused (transition (some paused) running)
transition-Transits_example = transition-Transits running paused

halted_run : run (transition_to (some running) ∷ transition_to none ∷ []) halted ≡ halted
halted_run = halted_absorbs (transition_to (some running) ∷ transition_to none ∷ []) refl

abbrev monitor : ModuleSpec
monitor = record {
  module_id = "monitor";
  name = "Monitor";
  version = "1.0";
  api_version = "1";
  enabled = true;
  platforms = "linux" ∷ [];
  capabilities = [];
  permissions = "read" ∷ [];
  healthcheck = record { enabled = true; interval_seconds = pos 60 };
  update_policy = record {
    automatic_check = true;
    automatic_install = false;
    rollback_required = true;
  };
}

monitor-IsWellFormed : IsWellFormed monitor
unfolding is_blank
monitor-IsWellFormed = record {
  module_id = refl;
  name = refl;
  version = refl;
  api_version = refl;
  platforms = refl;
  capabilities = refl;
  permissions = refl;
  interval = omega arith;
}

load_module_spec-to_dict_example : load_module_spec {F = ℤ} (to_dict monitor) ≡ ok monitor
load_module_spec-to_dict_example = load_module_spec-to_dict ℤ monitor monitor-IsWellFormed

abbrev restart : ActionProposal
restart = record {
  module_id = "monitor";
  action = "restart";
  reason = "no answer";
  reversible = true;
  requires_approval = false;
}

abbrev report : ModuleReport
report = record { module_id = "monitor"; version = "1.0"; status = "HEALTHY"; details = given "" }

abbrev adapter : Adapter
adapter = record {
  inspect = some report;
  propose_repair = some (some restart);
  execute = λ p. some true;
}

abbrev registry : Registry Adapter
registry = register_all ((monitor, some adapter) ∷ []) (empty ("read" ∷ []))

abbrev wiping : ActionProposal
wiping = record restart { action = "wipe"; reversible = false }

denied_permission :
    (register {A = Adapter} monitor none (empty ("write" ∷ []))).0 ≡ err permission_denied
unfolding register lookup denied
denied_permission = refl

inspected_all : inspect_all registry ≡ some (report ∷ [])
unfolding inspect_all register_all inspect_each inspect_one checked_report get_spec get_adapter
    list_module_ids sorted insert_sorted lookup insert register denied
inspected_all = refl

repairs_run :
    (execute_safe_repairs (restart ∷ wiping ∷ []) registry).results
    ≡ ("monitor", success) ∷ ("monitor", not_authorized) ∷ []
unfolding execute_safe_repairs execute_one allowed register_all get_adapter lookup insert register
    denied
repairs_run = refl

registered-IsGranted_example : IsGranted ("read" ∷ []) "monitor" monitor
unfolding register_all register denied insert get_spec lookup
registered-IsGranted_example =
    registered-IsGranted ("read" ∷ []) ((monitor, some adapter) ∷ []) "monitor" monitor refl

repairs-IsSafe_example :
    All (IsSafe registry) (execute_safe_repairs (restart ∷ wiping ∷ []) registry).tried
repairs-IsSafe_example = repairs-IsSafe (restart ∷ wiping ∷ []) registry

abbrev result : CycleResult
result = result_of (pos 0) (pos 1) (report ∷ []) registry

abbrev later : Scheduler
later = record { interval_seconds = 60; history = result ∷ []; last_run = some (pos 2) }

healthy-IsInspected_example :
    (r : ModuleReport) × IsInspected "monitor" (get_adapter "monitor" registry) r
unfolding run_cycle trim run_rounds inspect_all register_all result_of aggregate_of aggregate_status
    first_level status_dict inspect_each inspect_one checked_report get_spec get_adapter
    list_module_ids sorted insert_sorted lookup insert register denied
healthy-IsInspected_example =
    healthy-IsInspected (aware (pos 0)) (aware (pos 1)) (aware (pos 2)) registry (fresh 60) later
      result "monitor" refl (inl refl) refl

abbrev round : Round
round = record {
  start = aware (pos 0);
  finish = aware (pos 1);
  remembered = naive;
  registry = registry;
}

history_window_example :
    ((run_rounds (round ∷ round ∷ []) (fresh 60)).history
      ≡ last_of max_history (log_of (round ∷ round ∷ [])))
    × (length (run_rounds (round ∷ round ∷ []) (fresh 60)).history ≤ max_history)
history_window_example = history_window 60 (round ∷ round ∷ [])

due_run :
    (due (aware (pos 60000002)) later ≡ ok true)
    ↔ ((n : ℕ) × (missed_intervals (aware (pos 60000002)) later ≡ ok n) × (1 ≤ n))
due_run = due_iff_missed (pos 60000002) (pos 2) later refl (omega arith)
