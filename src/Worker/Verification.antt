-- ===== src/Worker/Verification.antt =====
-- What a result of controller/worker.py that compares a file shows.
use v91_core_system.Prelude.{
  ℕ, ◌==◌, String, ◌≡◌, sym, ap, ◌∙◌, inl, inr, Bool, true, not, some, List, arith, Bool-cases,
  if◌then◌else◌,
}
use v91_core_system.Prelude.Result.{Result, ok, raise_if, or_raise, ◌>>=◌, ◌>>◌, >>=-eq-ok}
use v91_core_system.Prelude.Text.{lower}
use v91_core_system.Prelude.Value.{
  Value, null, bool, int, float, str, list, dict, Fields, get_value, as_dict, as_str, as_text,
}
use v91_core_system.Worker.Task.{
  TaskError, not_object, os_error, no_path, bad_digest, FileSystem, Envelope, Outcome, health,
  compared, TaskResult, is_sha256, judge, workspace_file, compare_digest, file_outcome,
  validate_task_envelope, execute_task,
}
use v91_core_system.Worker.Files.{IsWorkspaceFile, or_raise-some, locate-IsWorkspaceFile}

matched :
    (sha expected : String) (same : Bool)
    → (raise_if (not (is_sha256 expected)) bad_digest >> ok (lower sha == lower expected)) ≡ ok same
    → (is_sha256 expected ≡ true) × (same ≡ (lower sha == lower expected))
matched sha expected same h = (ground arith, ground arith)

compared_inj :
    (found : String × ℕ) (relative r sha : String) (size : ℕ) (same b : Bool)
    → ◌≡◌ {A = Result TaskError Outcome}
        (ok (compared relative found.0 found.1 b))
        (ok (compared r sha size same))
    → (relative ≡ r) × (found ≡ (sha, size)) × (b ≡ same)
compared_inj (x, n) relative r sha size same b h = (cc, cc, cc)

outcome_inj :
    (id : String) (envelope : Envelope) (outcome : Outcome) (result : TaskResult)
    → ◌≡◌ {A = Result TaskError TaskResult}
        (ok (record { task_id = id; envelope = envelope; outcome = outcome }))
        (ok result)
    → outcome ≡ result.outcome
outcome_inj id envelope outcome result h = cc

module _ {F : Type 0} where
  text-str : (v : Value F) (s : String) → as_text v ≡ some s → v ≡ str s
  text-str (str t) s h = ground arith
  text-str null s h = cc
  text-str (bool b) s h = cc
  text-str (int n) s h = cc
  text-str (float x) s h = cc
  text-str (list l) s h = cc
  text-str (dict d) s h = cc

  as_str-str : (v : Value F) (s : String) → as_str v ≡ some s → v ≡ str s
  as_str-str (str t) s h = cc
  as_str-str null s h = cc
  as_str-str (bool b) s h = cc
  as_str-str (int n) s h = cc
  as_str-str (float x) s h = cc
  as_str-str (list l) s h = cc
  as_str-str (dict d) s h = cc

  -- The text of a relative path is that of the located file.
  workspace_file-IsWorkspaceFile :
      (fs : FileSystem) (v : Value F) (relative : String) (file : List String)
      → workspace_file fs v ≡ ok file
      → as_str v ≡ some relative
      → IsWorkspaceFile fs relative file
  unfolding workspace_file
  workspace_file-IsWorkspaceFile fs v relative file h e =
      let (raw, e1, h1) = >>=-eq-ok (or_raise (as_text v) no_path) _ h in
      let q = text-str v raw (or_raise-some (as_text v) no_path raw e1) in
      let same : raw ≡ relative = (let r = as_str-str v relative e in cc) in
      rw (← same) (locate-IsWorkspaceFile fs raw file h1)

  -- What a comparison rests on: the file, its digest, and the digest that the task expects.
  pub record IsCompared (fs : FileSystem) (task : Fields F) (relative sha : String) (size : ℕ)
      (same : Bool) : Type 0 where
    pub path : get_value "relative_path" task ≡ str relative
    pub file : List String
    pub located : IsWorkspaceFile fs relative file
    pub digest : fs.digest file ≡ some (sha, size)
    pub expected : String
    pub expects : get_value "expected_sha256" task ≡ str expected
    pub form : is_sha256 expected ≡ true
    pub verdict : same ≡ (lower sha == lower expected)

  judged :
      (task : Fields F) (action relative r sha : String) (found : String × ℕ) (size : ℕ)
      (same : Bool)
      → judge task action relative found ≡ ok (compared r sha size same)
      → (relative ≡ r)
        × (found ≡ (sha, size))
        × (compare_digest (get_value "expected_sha256" task) found.0 ≡ ok same)
  judged task action relative r sha found size same h =
      elim (Bool-cases (action == "sha256_file")) [
        | inl e ↦ absurd (ground (arith, e))
        | inr e ↦
            (let start : (compare_digest (get_value "expected_sha256" task) found.0 >>= λ b.
            ok (compared relative found.0 found.1 b))
                  ≡ ok (compared r sha size same) =
                ground (arith, e, h) in
              let (b, e1, h1) =
                >>=-eq-ok (compare_digest (get_value "expected_sha256" task) found.0) _ start in
              let (p, q, s) = compared_inj found relative r sha size same b h1 in
              (p, q, e1 ∙ ap (λ x. ok x) s))
      ]

  compare-IsExpected :
      (v : Value F) (sha : String) (same : Bool)
      → compare_digest v sha ≡ ok same
      → (expected : String) × (v ≡ str expected)
        × (is_sha256 expected ≡ true)
        × (same ≡ (lower sha == lower expected))
  compare-IsExpected v sha same h =
      let (expected, e1, h1) = >>=-eq-ok (or_raise (as_str v) bad_digest) _ h in
      let (form, verdict) = matched sha expected same h1 in
      (
        expected,
        as_str-str v expected (or_raise-some (as_str v) bad_digest expected e1),
        form,
        verdict,
      )

  file_outcome-IsCompared :
      (fs : FileSystem) (task : Fields F) (action relative sha : String) (size : ℕ) (same : Bool)
      → file_outcome fs task action ≡ ok (compared relative sha size same)
      → IsCompared fs task relative sha size same
  file_outcome-IsCompared fs task action relative sha size same h =
      let (file, e1, h1) = >>=-eq-ok (workspace_file fs (get_value "relative_path" task)) _ h in
      let (found, e2, h2) = >>=-eq-ok (or_raise (fs.digest file) os_error) _ h1 in
      let (r, e3, h3) =
        >>=-eq-ok (or_raise (as_str (get_value "relative_path" task)) no_path) _ h2 in
      let (p, q, c) = judged task action r relative sha found size same h3 in
      let text =
        or_raise-some (as_str (get_value "relative_path" task)) no_path r e3 ∙ ap (λ x. some x) p in
      let (expected, expects, form, verdict) =
        compare-IsExpected (get_value "expected_sha256" task) sha same
          (ap (λ x. compare_digest (get_value "expected_sha256" task) x.0) (sym q) ∙ c) in
      record {
        path = as_str-str (get_value "relative_path" task) relative text;
        file = file;
        located =
            workspace_file-IsWorkspaceFile fs (get_value "relative_path" task) relative file e1
              text;
        digest = or_raise-some (fs.digest file) os_error found e2 ∙ ap (λ x. some x) q;
        expected = expected;
        expects = expects;
        form = form;
        verdict = verdict;
      }

  outcome_of :
      (fs : FileSystem) (task : Fields F) (action : String) (pending processing : ℕ)
      (relative sha : String) (size : ℕ) (same : Bool)
      → ◌≡◌ {A = Result TaskError Outcome}
          (if action == "health_snapshot"
            then ok (health pending processing)
            else file_outcome fs task action)
          (ok (compared relative sha size same))
      → file_outcome fs task action ≡ ok (compared relative sha size same)
  outcome_of fs task action pending processing relative sha size same h =
      elim (Bool-cases (action == "health_snapshot")) [
        | inl e ↦ absurd (ground (arith, e))
        | inr e ↦ ground (arith, e)
      ]

  as_dict-dict : (v : Value F) (d : Fields F) → as_dict v ≡ some d → v ≡ dict d
  as_dict-dict (dict t) d h = cc
  as_dict-dict null d h = cc
  as_dict-dict (bool b) d h = cc
  as_dict-dict (int n) d h = cc
  as_dict-dict (float x) d h = cc
  as_dict-dict (str s) d h = cc
  as_dict-dict (list l) d h = cc

  -- A task that returns a comparison names a regular file of the workspace, reached over no symbolic
  -- link and of at most 512 MiB; the digest is that of the file, and the verdict is whether it equals
  -- the digest that the task expects, without regard to case.
  pub compared-IsCompared :
      (fs : FileSystem) (pending processing : ℕ) (v : Value F) (id : String) (result : TaskResult)
      (relative sha : String) (size : ℕ) (same : Bool)
      → execute_task fs pending processing v id ≡ ok result
      → result.outcome ≡ compared relative sha size same
      → (task : Fields F) × (v ≡ dict task) × IsCompared fs task relative sha size same
  unfolding execute_task
  compared-IsCompared fs pending processing v id result relative sha size same h o =
      let (envelope, e1, h1) = >>=-eq-ok (validate_task_envelope v id) _ h in
      let (task, e2, h2) = >>=-eq-ok (or_raise (as_dict v) not_object) _ h1 in
      let (outcome, e3, h3) =
        >>=-eq-ok
          (if envelope.action == "health_snapshot"
            then ok (health pending processing)
            else file_outcome fs task envelope.action)
          _ h2 in
      let out = outcome_inj id envelope outcome result h3 ∙ o in
      (
        task,
        as_dict-dict v task (or_raise-some (as_dict v) not_object task e2),
        file_outcome-IsCompared fs task envelope.action relative sha size same (
            outcome_of fs task envelope.action pending processing relative sha size same
              (e3 ∙ ap (λ x. ok x) out)),
      )
