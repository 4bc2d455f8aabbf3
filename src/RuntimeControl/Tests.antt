-- ===== src/RuntimeControl/Tests.antt =====
-- A concrete host for the cycles of controller/runtime_control.py, runs on it, and the theorems at
-- inputs. The world of the host is the number of its worker containers.
use v91_core_system.Prelude.{
  ℕ, ◌+◌, ◌≤◌, ◌<◌, ◌≡◌, ◌↔◌, ◌⊎◌, refl, Bool, true, false, Option, none, some, String, List, [],
  ◌∷◌, ◌++◌, ◌==◌, ltb, length, All, if◌then◌else◌,
}
use v91_core_system.Prelude.Float.{whole}
use v91_core_system.Prelude.Int.{ℤ, pos}
use v91_core_system.Prelude.Text.{is_space}
use v91_core_system.Prelude.Dict.{lookup, insert}
use v91_core_system.Prelude.Result.{ok, err}
use v91_core_system.Prelude.Value.{Value, Fields, str, list, dict, nil, cons, field, end}
use v91_core_system.RuntimeControl.Decision.{
  Snapshot, scale_up, scale_down, not_found, decide, is_high, is_low, target_of,
  read_low_sample_count,
}
use v91_core_system.RuntimeControl.Observation.{
  Builtins, is_project_name, parse_json_lines, defines_worker, snapshot_of, parse_percent,
}
use v91_core_system.RuntimeControl.Cycle.{
  Act, Command, config_services, ps_all, stats, scale, Host, Config, State, Outcome, no_action,
  run_cycle, proceed, collect_snapshot, compose_prefix, run_command, append_audit, write_state,
  scale_worker, apply_action, act, authorized, initial_status, ◌>>=◌,
}
use v91_core_system.RuntimeControl.Thresholds.{decide_exact, decide_bounds}
use v91_core_system.RuntimeControl.Snapshots.{IsMeasured, snapshot_sound}
use v91_core_system.RuntimeControl.Scales.{scales, IsAnnounced}
use v91_core_system.RuntimeControl.Safety.{run_cycle_limits, run_cycle_dry}

abbrev worker : String → Value ℤ
worker name =
    dict
      (field "Name" (str name) (field "Service" (str "worker") (field "State" (str "running") end)))

abbrev measured : String → String → Value ℤ
measured name cpu =
    dict (field "Name" (str name) (field "CPUPerc" (str cpu) (field "MemPerc" (str "40%") end)))

-- The reader of the host knows the three documents that its Docker prints.
abbrev loads : String → Option (Value ℤ)
loads s =
    if s == "one"
    then some (list (cons (worker "w1") nil))
    else if s == "two"
    then some (list (cons (worker "w1") (cons (worker "w2") nil)))
    else if s == "stats"
    then some (list (cons (measured "/w1" "90%") (cons (measured "w2" "30%") nil)))
    else none

abbrev builtins : Builtins ℤ
builtins = record { loads = loads; to_str = λ v. ""; is_alnum = λ c. true }

-- One or two containers.
abbrev execute : Command → ℕ → Option String × ℕ
execute config_services n = (some "worker\nobserver\n", n)
execute ps_all n = (some (if ltb n 2 then "one" else "two"), n)
execute stats n = (some "stats", n)
execute (scale k) n = (some "", k)

abbrev docker : Host ⦃fl = whole⦄
docker = record {
  World = ℕ;
  builtins = builtins;
  round = λ x. x;
  execute = execute;
  compose_file_usable = λ n. true;
  create_lock = λ n. (true, n);
  write_line = λ e n. (true, n);
  remove_lock = λ n. n;
  read_state = λ n. not_found;
  replace_state = λ k n. (true, n);
}

abbrev config : Bool → Config ⦃fl = whole⦄
config allowed = record {
  project_name = "v91";
  runtime_dir_absolute = true;
  allow_actions = allowed;
  allow_scale_down = false;
}

abbrev start : State ⦃fl = whole⦄ docker (config true)
start = record { world = 1; acts = [] }

abbrev start_dry : State ⦃fl = whole⦄ docker (config false)
start_dry = record { world = 1; acts = [] }

-- One hot container: the cycle runs one scale command, for two replicas.
scaled_up : scales (run_cycle ⦃fl = whole⦄ docker (config true) start).1.acts ≡ 2 ∷ []
unfolding run_cycle proceed act apply_action scale_worker collect_snapshot compose_prefix
    run_command append_audit write_state authorized initial_status ◌>>=◌ decide target_of
    is_project_name parse_json_lines defines_worker snapshot_of parse_percent read_low_sample_count
    lookup insert is_space
scaled_up = refl

-- The outcome of that cycle.
abbrev snapshot : ℕ → ℤ → Snapshot ℤ
snapshot n cpu = record {
  project = "v91";
  replicas = n;
  running = n;
  max_cpu_percent = cpu;
  max_memory_percent = pos 40;
  containers = [];
}

abbrev outcome : Outcome ⦃fl = whole⦄
outcome =
    let r = (run_cycle ⦃fl = whole⦄ docker (config true) start).0 in
    elim r [
      | ok o ↦ o
      | err e ↦ record { status = no_action; action = none; before = none; after = none }
    ]

decide_exact_example :
    (((decide ⦃fl = whole⦄ (snapshot 1 (pos 75)) 0).0 ≡ some scale_up)
      ↔ ((1 ≤ 1) × (1 < 3) × (is_high ⦃fl = whole⦄ (snapshot 1 (pos 75)) ≡ true)))
    × (((decide ⦃fl = whole⦄ (snapshot 1 (pos 75)) 0).0 ≡ some scale_down) ↔ (
        (1 < 1)
        × (1 ≤ 3)
        × (is_high ⦃fl = whole⦄ (snapshot 1 (pos 75)) ≡ false)
        × (is_low ⦃fl = whole⦄ (snapshot 1 (pos 75)) ≡ true)
        × (2 ≤ 0)))
decide_exact_example = decide_exact (snapshot 1 (pos 75)) 0

hot_decision : (decide ⦃fl = whole⦄ (snapshot 2 (pos 75)) 0).0 ≡ some scale_up
unfolding decide
hot_decision = refl

decide_bounds_example :
    let target = target_of ⦃fl = whole⦄ (some scale_up) 2 in
    (1 ≤ target)
    × (target ≤ 3)
    × ((target ≡ 2 + 1) ⊎ (2 ≡ target + 1))
    × ((decide ⦃fl = whole⦄ (snapshot 2 (pos 75)) 0).1 ≡ 0)
decide_bounds_example = decide_bounds (snapshot 2 (pos 75)) 0 scale_up hot_decision

abbrev quiet : Snapshot ℤ
quiet = snapshot 2 (pos 10)

abbrev one_worker : List (Fields ℤ)
one_worker =
    field "Name" (str "w1") (field "Service" (str "worker") (field "State" (str "running") end))
    ∷ []

abbrev statistics : List (Fields ℤ)
statistics =
    field "Name" (str "/w1") (field "CPUPerc" (str "90%") (field "MemPerc" (str "40%") end)) ∷ []

abbrev observed : Snapshot ℤ
observed = record (snapshot 1 (pos 90)) {
  containers =
      record {
        name = "w1";
        state = "running";
        health = "not-reported";
        cpu_percent = pos 90;
        memory_percent = pos 40;
      }
      ∷ [];
}

observed_once : snapshot_of ⦃fl = whole⦄ builtins "v91" one_worker statistics ≡ some observed
unfolding snapshot_of parse_percent lookup insert is_space
observed_once = refl

snapshot_sound_example :
    All (IsMeasured ⦃fl = whole⦄ builtins) observed.containers
    × (length observed.containers ≡ 1)
    × (observed.replicas ≡ 1)
    × (observed.running ≡ 1)
snapshot_sound_example = snapshot_sound builtins "v91" one_worker statistics observed observed_once

run_cycle_limits_example :
    (t : List (Act ⦃fl = whole⦄)) × ((run_cycle ⦃fl = whole⦄ docker (config true) start).1.acts
      ≡ [] ++ t)
    × IsAnnounced t
run_cycle_limits_example = run_cycle_limits docker (config true) start

run_cycle_dry_example :
    (t : List (Act ⦃fl = whole⦄)) × ((run_cycle ⦃fl = whole⦄ docker (config false) start_dry).1.acts
      ≡ [] ++ t)
    × (scales t ≡ [])
run_cycle_dry_example = run_cycle_dry docker (config false) start_dry refl
