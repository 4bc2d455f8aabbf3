-- ===== src/Worker/Tests.antt =====
-- Concrete runs of controller/worker.py and controller/observer.py, and the theorems at inputs.
use v91_core_system.Prelude.{
  Option, none, if◌then◌else◌, ◌==◌, String, ◌≡◌, refl, true, false, some, [], ◌∷◌,
}
use v91_core_system.Prelude.Dict.{lookup, insert, erase}
use v91_core_system.Prelude.Float.{whole}
use v91_core_system.Prelude.Int.{ℤ}
use v91_core_system.Prelude.Result.{ok, err}
use v91_core_system.Prelude.Sorting.{sorted, insert_sorted}
use v91_core_system.Prelude.Text.{is_blank, is_space}
use v91_core_system.Prelude.Value.{Value, str, dict, Fields, end, field}
use v91_core_system.Worker.Observer.{
  files, not_found, lines, count_tasks, read_line, read_lines, inspect_action_log, snapshot,
}
use v91_core_system.Worker.Outcomes.{process_all, results_kept}
use v91_core_system.Worker.Queue.{
  completed, Queue, Calls, Documents, renamed, written, append_audit, atomic_result, finish,
  set_aside, claim_one, before_dot, ◌>>=◌, run_claimed, handle_failure, process_one,
}
use v91_core_system.Worker.Task.{
  FileSystem, TaskResult, bad_path, compared, is_task_id, is_sha256, is_relative_to, has_symlink,
  validate_task_envelope, workspace_file, execute_task,
}
use v91_core_system.Worker.Verification.{IsCompared, compared-IsCompared}

abbrev sha : String
sha = "0123456789abcdef0123456789abcdef0123456789abcdef0123456789abcdef"

abbrev big_sha : String
big_sha = "0123456789ABCDEF0123456789abcdef0123456789abcdef0123456789abcdef"

-- A workspace with one file.
abbrev disk : FileSystem
disk = record {
  workspace_root = "/" ∷ "workspace" ∷ [];
  is_absolute = λ s. s == "/etc/passwd";
  parts = λ s. s ∷ [];
  is_symlink = λ path. false;
  resolve = λ path. some path;
  is_file = λ path. true;
  size = λ path. some 12;
  digest = λ path. some (sha, 12);
}

abbrev task : Fields ℤ
task = field "task_id" (str "t1") (
    field "action" (str "verify_sha256") (
      field "relative_path" (str "report.txt") (
        field "expected_sha256" (str big_sha)
          (field "purpose" (str "check") (field "expected_effect" (str "a verdict") end)))))

abbrev result : TaskResult
result = record {
  task_id = "t1";
  envelope = record { action = "verify_sha256"; purpose = "check"; expected_effect = "a verdict" };
  outcome = compared "report.txt" sha 12 true;
}

executed : execute_task disk 0 1 (dict task) "t1" ≡ ok result
unfolding execute_task validate_task_envelope workspace_file is_task_id is_sha256 is_relative_to
    has_symlink is_blank is_space
executed = refl

outside : workspace_file {F = ℤ} disk (str "..") ≡ err bad_path
unfolding workspace_file is_blank is_space
outside = refl

compared-IsCompared_example :
    (t : Fields ℤ) × (dict task ≡ dict t) × IsCompared disk t "report.txt" sha 12 true
compared-IsCompared_example =
    compared-IsCompared disk 0 1 (dict task) "t1" result "report.txt" sha 12 true executed refl

abbrev documents : Documents ℤ
documents = record {
  Document = Value ℤ;
  size = λ d. 100;
  read = λ d. some d;
  target = λ name. "t1.host.1.json";
}

abbrev queue : Queue (Value ℤ)
queue = record {
  pending = ("t1.json", dict task) ∷ [];
  processing = [];
  done = [];
  failed = [];
  results = [];
  audit = [];
}

-- No call fails.
abbrev calm : Calls
calm = record {
  claim = λ name. renamed;
  claimed_raises = false;
  started_raises = false;
  completed_raises = false;
  failed_raises = false;
  write_result = written;
  write_failure = written;
  done_raises = false;
  move_failed_raises = false;
}

abbrev finished : Queue (Value ℤ)
finished = (process_one disk documents calm queue).1

done_lem :
    (finished.done ≡ ("t1.host.1.json", dict task) ∷ [])
    × (finished.results ≡ ("t1", completed result) ∷ [])
unfolding process_one claim_one sorted insert_sorted lookup insert erase run_claimed append_audit
    atomic_result finish before_dot ◌>>=◌ execute_task validate_task_envelope workspace_file
    is_task_id is_sha256 is_relative_to has_symlink is_blank is_space
done_lem = (refl, refl)

-- A second task of the same name fails on the result that is there.
abbrev again : Queue (Value ℤ)
again = record queue { results = ("t1", completed result) ∷ [] }

repeated :
    ((process_one disk documents calm again).1.failed ≡ ("t1.host.1.json", dict task) ∷ [])
    × ((process_one disk documents calm again).1.results ≡ again.results)
unfolding process_one claim_one sorted insert_sorted lookup insert erase run_claimed handle_failure
    append_audit atomic_result finish set_aside before_dot ◌>>=◌ execute_task validate_task_envelope
    workspace_file is_task_id is_sha256 is_relative_to has_symlink is_blank is_space
repeated = (refl, refl)

results_kept_example :
    lookup "t1" (process_all disk documents (calm ∷ calm ∷ []) again).results
    ≡ some (completed result)
unfolding lookup
results_kept_example =
    results_kept disk documents (calm ∷ calm ∷ []) again "t1" (completed result) refl

-- Every line but "{}" is no JSON.
abbrev toy_loads : String → Option (Value ℤ)
toy_loads line = if line == "{}" then some (dict end) else none

snapshot_seen :
    (snapshot ⦃fl = whole⦄ toy_loads
      (files ("a.json" ∷ []) ∷ not_found ∷ [])
      (lines ("{}" ∷ " " ∷ []) false)).observed
    ≡ true
unfolding snapshot count_tasks inspect_action_log read_lines read_line is_blank is_space
snapshot_seen = refl

snapshot_corrupt :
    (snapshot ⦃fl = whole⦄ toy_loads [] (lines ("{}" ∷ "{" ∷ []) false)).observed ≡ false
unfolding snapshot count_tasks inspect_action_log read_lines read_line is_blank is_space
snapshot_corrupt = refl
