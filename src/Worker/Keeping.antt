-- ===== src/Worker/Keeping.antt =====
-- Properties of the queue that the steps of controller/worker.py keep, whatever calls fail.
use v91_core_system.Prelude.{String, Bool, true, Option, none, some}
use v91_core_system.Prelude.Result.{Result, ok, err}
use v91_core_system.Worker.Task.{TaskError, FileSystem, validate_task_envelope}
use v91_core_system.Worker.Queue.{
  ResultFile, completed, failed_with, AuditEvent, task_claimed, task_started, task_completed,
  task_failed, Queue, Write, Calls, Documents, Work, ◌>>=◌, lift, continue, append_audit,
  atomic_result, finish, set_aside, run_claimed, handle_failure, before_dot, guarded,
  process_claimed,
}

module _ {D : Type 0} (P : Queue D → Type 0) where
  pub record Keeps {A : Type 0} (m : Work D A) : Type 0 where
    pub at : (q : Queue D) → P q → P (m q).1

  continue_keeps :
      {A B : Type 0} (out : Result TaskError A × Queue D) (f : A → Work D B)
      → P out.1
      → ((a : A) → Keeps (f a))
      → P (continue out f).1
  continue_keeps (ok a, q) f p h = (h a).at q p
  continue_keeps (err e, q) f p h = p

  pub Keeps->>= :
      {A B : Type 0} (m : Work D A) (f : A → Work D B)
      → Keeps m
      → ((a : A) → Keeps (f a))
      → Keeps (m >>= f)
  unfolding ◌>>=◌
  Keeps->>= m f hm hf = record { at = λ q p. continue_keeps (m q) f (hm.at q p) hf }

  pub Keeps-lift : {A : Type 0} (r : Result TaskError A) → Keeps (lift r)
  Keeps-lift r = record { at = λ q p. p }

  -- What the operations keep, for any failing calls.
  pub record IsStable : Type 0 where
    pub appended : (raises : Bool) (e : AuditEvent) → Keeps (append_audit raises e)
    pub recorded : (w : Write) (id : String) (r : ResultFile) → Keeps (atomic_result w id r)
    pub moved : (raises : Bool) (name : String) → Keeps (finish raises name)
    pub put_aside :
        (raises : Bool) (name : String) (q : Queue D) → P q → P (set_aside raises name q)

module _ {F : Type 0} (fs : FileSystem) (docs : Documents F)
    (P : Queue docs.Document → Type 0) where
  run_claimed-Keeps :
      (c : Calls) (name id : String) → IsStable P → Keeps P (run_claimed fs docs c name id)
  unfolding run_claimed
  run_claimed-Keeps c name id s =
      Keeps->>= P _ _ (s.appended c.claimed_raises (task_claimed id)) λ _.
        Keeps->>= P _ _ (record { at = λ q p. p })
          λ v. Keeps->>= P _ _ (Keeps-lift P (validate_task_envelope v id)) λ envelope.
            Keeps->>= P _ _ (s.appended c.started_raises (task_started id envelope)) λ _.
              Keeps->>= P _ _ (record { at = λ q p. p })
                λ result. Keeps->>= P _ _ (s.recorded c.write_result id (completed result)) λ _.
                  Keeps->>= P _ _ (s.appended c.completed_raises (task_completed id result))
                    λ _. s.moved c.done_raises name

  handle_failure-Keeps :
      (c : Calls) (name id : String) (e : TaskError)
      → IsStable P
      → Keeps P (handle_failure fs docs c name id e)
  unfolding handle_failure
  handle_failure-Keeps c name id e s = record {
    at = λ q p.
        let noted = (s.recorded c.write_failure id (failed_with id e)).at q p in
        s.put_aside c.move_failed_raises name _ (
          (s.appended c.failed_raises (task_failed id e)).at
            (atomic_result c.write_failure id (failed_with id e) q).1 noted);
  }

  guarded_keeps :
      (c : Calls) (name id : String) (out : Result TaskError (Unit {0}) × Queue docs.Document)
      → IsStable P
      → P out.1
      → P (guarded fs docs c name id out).1
  guarded_keeps c name id (ok u, q) s p = p
  guarded_keeps c name id (err e, q) s p =
      continue_keeps P (handle_failure fs docs c name id e q) (λ _. lift (ok true))
        ((handle_failure-Keeps c name id e s).at q p) (λ _. Keeps-lift P (ok true))

  -- The work on a claimed file keeps what the operations keep.
  pub process_claimed-Keeps :
      (c : Calls) (name : Option String) → IsStable P → Keeps P (process_claimed fs docs c name)
  process_claimed-Keeps c none s = record { at = λ q p. p }
  process_claimed-Keeps c (some name) s = record {
    at = λ q p.
        let id = before_dot (docs.target name) in
        guarded_keeps c (docs.target name) id (run_claimed fs docs c (docs.target name) id q) s
          ((run_claimed-Keeps c (docs.target name) id s).at q p);
  }
