-- ===== src/Worker/Queue.antt =====
-- controller/worker.py: the queue directories, `claim_one`, `atomic_result` and `process_one`. A
-- directory is a dictionary from file names to documents. Which calls of the system fail is an
-- argument.
use Prim.Native.Char.{code}
use v91_core_system.Prelude.{
  ℕ, ltb, eqb, String, Bool, true, false, not, Option, none, some, List, [], ◌∷◌, ◌++◌, length,
  if◌then◌else◌,
}
use v91_core_system.Prelude.Dict.{Dict, lookup, contains, insert, erase}
use v91_core_system.Prelude.Result.{Result, ok, err, or_raise}
use v91_core_system.Prelude.Sorting.{sorted}
use v91_core_system.Prelude.Value.{Value}
use v91_core_system.Worker.Task.{
  TaskError, bad_task_id, result_exists, task_too_large, os_error, FileSystem, Envelope, TaskResult,
  is_task_id, max_task_bytes, validate_task_envelope, execute_task,
}

-- A result file: of a task that is completed, of a failure, or what a write that failed has left.
pub data ResultFile : Type 0 where
  completed : TaskResult → ResultFile
  failed_with : String → TaskError → ResultFile
  partial : ResultFile

pub data AuditEvent : Type 0 where
  task_claimed : String → AuditEvent
  task_started : String → Envelope → AuditEvent
  task_completed : String → TaskResult → AuditEvent
  task_failed : String → TaskError → AuditEvent

abbrev pub names_of {ℓ} : {V : Type ℓ} → Dict V → List String
names_of [] = []
names_of ((k, v) ∷ d) = k ∷ names_of d

pub record Queue (D : Type 0) : Type 0 where
  -- the files with the suffix .json
  pub pending : Dict D
  pub processing : Dict D
  pub done : Dict D
  pub failed : Dict D
  pub results : Dict ResultFile
  pub audit : List AuditEvent

-- A rename of a pending file: another worker may have taken it.
pub data Rename : Type 0 where
  renamed gone refused : Rename

-- A write of a result file: what is written, or a failure whose file is removed or left.
pub data Write : Type 0 where
  written removed left : Write

-- How the calls of one `process_one` end.
pub record Calls : Type 0 where
  pub claim : String → Rename
  pub claimed_raises : Bool
  pub started_raises : Bool
  pub completed_raises : Bool
  pub failed_raises : Bool
  pub write_result : Write
  pub write_failure : Write
  pub done_raises : Bool
  pub move_failed_raises : Bool

-- What is known of documents: their size, and what reading and `json.loads` give.
pub record Documents (F : Type 0) : Type 1 where
  pub Document : Type 0
  pub size : Document → ℕ
  pub read : Document → Option (Value F)
  -- the name of a pending file with the host, the process and a random number before its suffix
  pub target : String → String

-- `name.split(".", 1)[0]`
unfoldable pub before_dot : String → String
before_dot String.[] = String.[]
before_dot (String.◌∷◌ c s) = if eqb (code c) 46 then String.[] else String.◌∷◌ c (before_dot s)

abbrev pub Work : Type 0 → Type 0 → Type 0
Work D A = Queue D → Result TaskError A × Queue D

-- The rest of a step after a part that has ended.
abbrev pub continue :
    {D A B : Type 0} → Result TaskError A × Queue D → (A → Work D B) → Result TaskError B × Queue D
continue (ok a, q) f = f a q
continue (err e, q) f = (err e, q)

infixl 5 ◌>>=◌ ◌>>◌
unfoldable pub ◌>>=◌ : {D A B : Type 0} → Work D A → (A → Work D B) → Work D B
(m >>= f) q = continue (m q) f

abbrev pub ◌>>◌ : {D B : Type 0} → Work D (Unit {0}) → Work D B → Work D B
m >> k = m >>= λ _. k

abbrev pub lift : {D A : Type 0} → Result TaskError A → Work D A
lift r q = (r, q)

module _ {D : Type 0} where
  unfoldable pub append_audit : Bool → AuditEvent → Work D (Unit {0})
  append_audit raises e q =
      if raises then (err os_error, q) else (ok tt, record q { audit = q.audit ++ (e ∷ []) })

  abbrev pub write_file : Write → String → ResultFile → Work D (Unit {0})
  write_file written id r q = (ok tt, record q { results = insert id r q.results })
  write_file removed id r q = (err os_error, q)
  write_file left id r q = (err os_error, record q { results = insert id partial q.results })

  unfoldable pub atomic_result : Write → String → ResultFile → Work D (Unit {0})
  atomic_result w id r q =
      if not (is_task_id id)
      then (err bad_task_id, q)
      else if contains id q.results
      then (err result_exists, q)
      else write_file w id r q

  -- `os.rename` of the claimed file, which raises if the file is not there.
  abbrev pub move_done : String → Option D → Work D (Unit {0})
  move_done name none q = (err os_error, q)
  move_done name (some d) q =
      (ok tt, record q { processing = erase name q.processing; done = insert name d q.done })

  unfoldable pub finish : Bool → String → Work D (Unit {0})
  finish raises name q =
      if raises then (err os_error, q) else move_done name (lookup name q.processing) q

  abbrev pub move_failed : String → Option D → Queue D → Queue D
  move_failed name none q = q
  move_failed name (some d) q = record q {
    processing = erase name q.processing;
    failed = insert name d q.failed;
  }

  -- The rename into `failed`, whose OSError is ignored.
  unfoldable pub set_aside : Bool → String → Queue D → Queue D
  set_aside raises name q = if raises then q else move_failed name (lookup name q.processing) q

module _ {F : Type 0} (fs : FileSystem) (docs : Documents F) where
  abbrev pub claim : String → Option docs.Document → Queue docs.Document → Queue docs.Document
  claim name none q = q
  claim name (some d) q = record q {
    pending = erase name q.pending;
    processing = insert (docs.target name) d q.processing;
  }

  -- `claim_one` over the sorted names: the claimed name, if any.
  unfoldable pub claim_one : (String → Rename) → List String → Work docs.Document (Option String)
  claim_one rename [] q = (ok none, q)
  claim_one rename (name ∷ names) q =
      let rest = claim_one rename names q in
      elim (rename name) [
        | renamed ↦ (ok (some name), claim name (lookup name q.pending) q)
        | gone ↦ rest
        | refused ↦ (err os_error, q)
      ]

  -- Reading the claimed file, with the size limit.
  abbrev pub read_task : Option docs.Document → Result TaskError (Value F)
  read_task none = err os_error
  read_task (some d) =
      if ltb max_task_bytes (docs.size d)
      then err task_too_large
      else or_raise (docs.read d) os_error

  abbrev pub read_claimed : String → Work docs.Document (Value F)
  read_claimed name q = (read_task (lookup name q.processing), q)

  abbrev pub execute : Value F → String → Work docs.Document TaskResult
  execute v id q = (execute_task fs (length q.pending) (length q.processing) v id, q)

  -- The body of the `try` of `process_one`.
  unfoldable pub run_claimed : Calls → String → String → Work docs.Document (Unit {0})
  run_claimed c name id = do
    append_audit c.claimed_raises (task_claimed id)
    v ← read_claimed name
    envelope ← lift (validate_task_envelope v id)
    append_audit c.started_raises (task_started id envelope)
    result ← execute v id
    atomic_result c.write_result id (completed result)
    append_audit c.completed_raises (task_completed id result)
    finish c.done_raises name

  -- Its `except`: the result of the failure, the audit, and the rename in any case.
  unfoldable pub handle_failure :
      Calls → String → String → TaskError → Work docs.Document (Unit {0})
  unfolding append_audit atomic_result set_aside
  handle_failure c name id e q =
      let noted = (atomic_result c.write_failure id (failed_with id e) q).1 in
      let audited = append_audit c.failed_raises (task_failed id e) noted in
      (audited.0, set_aside c.move_failed_raises name audited.1)

  abbrev pub guarded :
      Calls
      → String
      → String
      → Result TaskError (Unit {0}) × Queue docs.Document
      → Result TaskError Bool × Queue docs.Document
  guarded c name id (ok u, q) = (ok true, q)
  guarded c name id (err e, q) = continue (handle_failure c name id e q) (λ _. lift (ok true))

  abbrev pub process_claimed : Calls → Option String → Work docs.Document Bool
  process_claimed c none q = lift (ok false) q
  process_claimed c (some name) q =
      let id = before_dot (docs.target name) in
      guarded c (docs.target name) id (run_claimed c (docs.target name) id q)

  unfoldable pub process_one : Calls → Work docs.Document Bool
  unfolding claim_one ◌>>=◌
  process_one c q =
      (claim_one c.claim (sorted (names_of q.pending)) >>= λ name. process_claimed c name) q
