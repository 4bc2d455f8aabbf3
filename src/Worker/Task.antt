-- ===== src/Worker/Task.antt =====
-- controller/worker.py: `validate_task_envelope`, `workspace_file` and `execute_task`. The file system
-- is a parameter; a path is the list of its parts.
use v91_core_system.Prelude.{
  ℕ, ◌*◌, leb, ltb, eqb, ◌==◌, String, Bool, true, false, not, ◌&&◌, ◌||◌, Option, List, [], ◌∷◌,
  ◌++◌, any, all, if◌then◌else◌,
}
use v91_core_system.Prelude.Result.{Result, ok, raise_if, or_raise, ◌>>=◌, ◌>>◌}
use v91_core_system.Prelude.Text.{codes, count_chars, strip, lower, one_of}
use v91_core_system.Prelude.Value.{Value, str, Fields, get_value, keys, as_dict, as_str, as_text}

-- The ControlErrors, and `os_error` for any other exception.
pub data TaskError : Type 0 where
  not_object unsupported_fields bad_task_id unknown_action bad_text no_path bad_path symbolic_link
        not_there not_regular file_too_large bad_digest result_exists task_too_large os_error :
      TaskError

-- What the worker asks the file system; `none` for an OSError.
pub record FileSystem : Type 0 where
  pub workspace_root : List String
  -- `Path(s).is_absolute()` and `Path(s).parts`
  pub is_absolute : String → Bool
  pub parts : String → List String
  pub is_symlink : List String → Bool
  -- `resolve(strict=True)`
  pub resolve : List String → Option (List String)
  pub is_file : List String → Bool
  pub size : List String → Option ℕ
  -- the SHA-256 of the bytes in hexadecimal, and their number
  pub digest : List String → Option (String × ℕ)

abbrev pub max_task_bytes : ℕ
max_task_bytes = 64 * 1024

abbrev pub max_workspace_file_bytes : ℕ
max_workspace_file_bytes = 512 * 1024 * 1024

-- `[A-Za-z0-9_-]`
abbrev is_id_char : ℕ → Bool
is_id_char c =
    (leb 65 c && leb c 90)
    || (leb 97 c && leb c 122)
    || (leb 48 c && leb c 57)
    || eqb c 95
    || eqb c 45

abbrev is_hex_char : ℕ → Bool
is_hex_char c = (leb 97 c && leb c 102) || (leb 65 c && leb c 70) || (leb 48 c && leb c 57)

-- `TASK_ID_RE.fullmatch(s)` and `SHA256_RE.fullmatch(s)`
unfoldable pub is_task_id : String → Bool
is_task_id s = leb 1 (count_chars s) && leb (count_chars s) 80 && all is_id_char (codes s)

unfoldable pub is_sha256 : String → Bool
is_sha256 s = eqb (count_chars s) 64 && all is_hex_char (codes s)

abbrev pub allowed_fields : List String
allowed_fields =
    "task_id" ∷ "action" ∷ "relative_path" ∷ "expected_sha256" ∷ "purpose" ∷ "expected_effect" ∷ []

abbrev pub allowed_actions : List String
allowed_actions = "health_snapshot" ∷ "sha256_file" ∷ "verify_sha256" ∷ []

pub record Envelope : Type 0 where
  pub action : String
  pub purpose : String
  pub expected_effect : String

-- `path.is_relative_to(root)`
unfoldable pub is_relative_to : List String → List String → Bool
is_relative_to [] path = true
is_relative_to (r ∷ root) [] = false
is_relative_to (r ∷ root) (p ∷ path) = r == p && is_relative_to root path

-- A path below `candidate` that is a symbolic link, of the parts one after another.
unfoldable pub has_symlink : (List String → Bool) → List String → List String → Bool
has_symlink is_symlink candidate [] = false
has_symlink is_symlink candidate (part ∷ parts) =
    let next = candidate ++ (part ∷ []) in is_symlink next || has_symlink is_symlink next parts

pub data Outcome : Type 0 where
  -- the tasks pending and in processing
  health : ℕ → ℕ → Outcome
  -- the relative path, the SHA-256 and the size
  hashed : String → String → ℕ → Outcome
  -- the same, and whether they match what is expected
  compared : String → String → ℕ → Bool → Outcome

-- A result without its time; `status` is COMPLETED.
pub record TaskResult : Type 0 where
  pub task_id : String
  pub envelope : Envelope
  pub outcome : Outcome

module _ (fs : FileSystem) where
  -- The tests of a resolved path.
  abbrev pub check_file : List String → Result TaskError (List String)
  check_file resolved = do
    raise_if (not (is_relative_to fs.workspace_root resolved) || not (fs.is_file resolved))
        not_regular
    size ← or_raise (fs.size resolved) os_error
    raise_if (ltb max_workspace_file_bytes size) file_too_large
    ok resolved

  abbrev pub locate : String → Result TaskError (List String)
  locate raw = do
    raise_if (fs.is_absolute raw || any (λ p. one_of p (".." ∷ "." ∷ [])) (fs.parts raw)) bad_path
    raise_if (has_symlink fs.is_symlink fs.workspace_root (fs.parts raw)) symbolic_link
    resolved ← or_raise (fs.resolve (fs.workspace_root ++ fs.parts raw)) not_there
    check_file resolved

module _ {F : Type 0} where
  -- A text that is not blank and has at most 500 characters without the white space around it.
  abbrev pub short_text : Value F → Result TaskError String
  short_text v = do
    s ← or_raise (as_text v) bad_text
    raise_if (ltb 500 (count_chars (strip s))) bad_text
    ok (strip s)

  abbrev pub same_id : Value F → String → Bool
  same_id (str t) id = t == id
  same_id _ id = false

  unfoldable pub validate_task_envelope : Value F → String → Result TaskError Envelope
  validate_task_envelope v id = do
    task ← or_raise (as_dict v) not_object
    raise_if (any (λ k. not (one_of k allowed_fields)) (keys task)) unsupported_fields
    raise_if (not (same_id (get_value "task_id" task) id) || not (is_task_id id)) bad_task_id
    action ← or_raise (as_str (get_value "action" task)) unknown_action
    raise_if (not (one_of action allowed_actions)) unknown_action
    purpose ← short_text (get_value "purpose" task)
    effect ← short_text (get_value "expected_effect" task)
    ok (record { action = action; purpose = purpose; expected_effect = effect })

  -- The comparison of a digest with the one that the task expects.
  abbrev pub compare_digest : Value F → String → Result TaskError Bool
  compare_digest v sha = do
    expected ← or_raise (as_str v) bad_digest
    raise_if (not (is_sha256 expected)) bad_digest
    ok (lower sha == lower expected)

  -- The outcome for a file of the digest and the size that are found.
  abbrev pub judge : Fields F → String → String → String × ℕ → Result TaskError Outcome
  judge task action relative found =
      if action == "sha256_file"
      then ok (hashed relative found.0 found.1)
      else compare_digest (get_value "expected_sha256" task) found.0 >>= λ same.
          ok (compared relative found.0 found.1 same)

  module _ (fs : FileSystem) where
    -- The file that a relative path names in the workspace.
    unfoldable pub workspace_file : Value F → Result TaskError (List String)
    workspace_file v = or_raise (as_text v) no_path >>= λ raw. locate fs raw

    abbrev pub file_outcome : Fields F → String → Result TaskError Outcome
    file_outcome task action = do
      path ← workspace_file (get_value "relative_path" task)
      found ← or_raise (fs.digest path) os_error
      relative ← or_raise (as_str (get_value "relative_path" task)) no_path
      judge task action relative found

    -- `execute_task` with the numbers of files that a health snapshot counts.
    unfoldable pub execute_task : ℕ → ℕ → Value F → String → Result TaskError TaskResult
    unfolding validate_task_envelope workspace_file
    execute_task pending processing v id = do
      envelope ← validate_task_envelope v id
      task ← or_raise (as_dict v) not_object
      outcome ←
          if envelope.action == "health_snapshot"
          then ok (health pending processing)
          else file_outcome task envelope.action
      ok (record { task_id = id; envelope = envelope; outcome = outcome })
