-- ===== src/RuntimeControl/Cycle.antt =====
-- controller/runtime_control.py: the control cycle over a host. Docker, the file system and
-- Python's readers are a parameter; the state of a cycle is the host's world with the record of
-- what the cycle did there, in order. Timestamps, the event's identifier and the texts of messages
-- and of rollback details are left out; nothing of the code reads them.
use v91_core_system.Prelude.{
  ℕ, leb, eqb, String, Bool, true, false, not, ◌&&◌, Option, none, some, List, [], ◌∷◌, ◌++◌,
  length, if◌then◌else◌,
}
use v91_core_system.Prelude.Float.{Floats}
use v91_core_system.Prelude.Result.{Result, ok, err}
use v91_core_system.Prelude.Value.{Fields}
use v91_core_system.RuntimeControl.Decision.{
  Exception, control_error, os_error, Scaling, scale_up, scale_down, Reason, Snapshot, StateFile,
  Effect, decide, target_of, measure_effect, read_low_sample_count, min_replicas, max_replicas,
}
use v91_core_system.RuntimeControl.Observation.{
  Builtins, is_project_name, parse_json_lines, defines_worker, workers_of, snapshot_of,
}

-- The commands of the source, after the prefix that `compose_prefix` makes.
pub data Command : Type 0 where
  config_services ps_all stats : Command
  scale : ℕ → Command

pub data Status : Type 0 where
  no_data_available scale_down_requires_opt_in proposed_not_executed no_action : Status
  action_verified rolled_back rollback_failed : Status

module _ ⦃fl : Floats⦄ where
  -- The events of the audit log. `result` is what `run_cycle` returns.
  pub data Event : Type 0 where
    observation_failed : Event
    decision : Option Scaling → Reason fl.Carrier → Snapshot fl.Carrier → ℕ → Bool → Status → Event
    verify : Snapshot fl.Carrier → ℕ → Snapshot fl.Carrier → Effect → Event
    rollback : ℕ → ℕ → Status → Exception → Event

  -- What a cycle does to the outside: a command that it runs, an event that it has appended, a
  -- count that it has stored.
  pub data Act : Type 0 where
    ran : Command → Act
    logged : Event → Act
    stored : ℕ → Act

  -- The host: its world changes under every call, and a call may fail.
  pub record Host : Type 1 where
    pub World : Type 0
    pub builtins : Builtins fl.Carrier
    pub round : fl.Carrier → fl.Carrier
    -- `run_command`: the output, or the ControlError
    pub execute : Command → World → Option String × World
    -- `compose_file.is_absolute() and compose_file.is_file()`
    pub compose_file_usable : World → Bool
    -- the creation of the audit log's lock file, which fails where it exists
    pub create_lock : World → Bool × World
    -- the append to the audit log: whether it succeeded
    pub write_line : Event → World → Bool × World
    pub remove_lock : World → World
    pub read_state : World → StateFile fl.Carrier
    -- the atomic replacement of the state file: whether it succeeded
    pub replace_state : ℕ → World → Bool × World

  pub record Config : Type 0 where
    pub project_name : String
    pub runtime_dir_absolute : Bool
    pub allow_actions : Bool
    pub allow_scale_down : Bool

  -- `result.update(…)`: what the returned dictionary says.
  pub record Outcome : Type 0 where
    pub status : Status
    pub action : Option Scaling
    pub before : Option (Snapshot fl.Carrier)
    pub after : Option (Snapshot fl.Carrier)

module _ ⦃fl : Floats⦄ (h : Host) (c : Config) where
  open h use {World}

  pub record State : Type 0 where
    pub world : World
    pub acts : List Act

  abbrev pub M : Type 0 → Type 0
  M A = State → Result Exception A × State

  infixl 5 ◌>>=◌ ◌>>◌
  unfoldable pub ◌>>=◌ : {A B : Type 0} → M A → (A → M B) → M B
  ◌>>=◌ m f s = let (r, s') = m s in elim r [ ok a ↦ f a s' | err e ↦ (err e, s') ]

  abbrev pub ◌>>◌ : {A B : Type 0} → M A → M B → M B
  m >> k = m >>= λ _. k

  abbrev pub pure : {A : Type 0} → A → M A
  pure a s = (ok a, s)

  abbrev pub raise : {A : Type 0} → Exception → M A
  raise e s = (err e, s)

  abbrev pub or_raise : {A : Type 0} → Option A → Exception → M A
  or_raise none e = raise e
  or_raise (some a) e = pure a

  abbrev pub raise_unless : Bool → Exception → M (Unit {0})
  raise_unless true e = pure tt
  raise_unless false e = raise e

  -- `compose_prefix`: the checks before every Compose command.
  unfoldable pub compose_prefix : M (Unit {0})
  compose_prefix s = (
    if is_project_name h.builtins c.project_name && h.compose_file_usable s.world
        then ok tt
        else err control_error,
    s,
  )

  unfoldable pub run_command : Command → M String
  run_command k s =
      let (out, w) = h.execute k s.world in
      (
        elim out [ none ↦ err control_error | some text ↦ ok text ],
        record { world = w; acts = s.acts ++ ran k ∷ [] },
      )

  abbrev pub run_json : Command → M (List (Fields fl.Carrier))
  run_json k = do out ← run_command k; or_raise (parse_json_lines h.builtins out) control_error

  unfoldable pub collect_snapshot : M (Snapshot fl.Carrier)
  collect_snapshot = do
    compose_prefix
    services ← run_command config_services
    raise_unless (defines_worker services) control_error
    records ← run_json ps_all
    raise_unless (not (leb (length (workers_of records)) 0)) control_error
    measured ← run_json stats
    or_raise (snapshot_of h.builtins c.project_name (workers_of records) measured) control_error

  -- `append_audit`: the lock is removed whether or not the write succeeds.
  unfoldable pub append_audit : Event → M (Unit {0})
  append_audit e s =
      let (locked, w) = h.create_lock s.world in
      if not locked
      then (err control_error, record s { world = w })
      else let (written, w') = h.write_line e w in
        let s' : State = record {
          world = h.remove_lock w';
          acts = if written then s.acts ++ logged e ∷ [] else s.acts;
        } in
        (if written then ok tt else err os_error, s')

  unfoldable pub scale_worker : ℕ → M (Unit {0})
  scale_worker replicas = do
    raise_unless (leb min_replicas replicas && leb replicas max_replicas) control_error
    compose_prefix
    run_command (scale replicas)
    pure tt

  unfoldable pub write_state : ℕ → M (Unit {0})
  write_state n s =
      let (written, w) = h.replace_state n s.world in
      (
        if written then ok tt else err os_error,
        record { world = w; acts = if written then s.acts ++ stored n ∷ [] else s.acts },
      )

  abbrev pub read_low : M ℕ
  read_low s = (read_low_sample_count (h.read_state s.world), s)

  -- The body of the `try` after the decision: scale, observe, compare, measure, record.
  unfoldable pub apply_action : Snapshot fl.Carrier → Scaling → ℕ → M Outcome
  apply_action snapshot action target = do
    scale_worker target
    post ← collect_snapshot
    raise_unless (eqb post.replicas target && eqb post.running target) control_error
    append_audit (verify snapshot target post (measure_effect h.round snapshot post action))
    pure (record {
      status = action_verified;
      action = some action;
      before = some snapshot;
      after = some post;
    })

  -- The inner `try` of the rollback: whether the old count is in place again, as observed.
  unfoldable pub restore : ℕ → M Status
  restore replicas s =
      let (r, s') =
        (do
          scale_worker replicas
          post ← collect_snapshot
          pure (
              if eqb post.replicas replicas && eqb post.running replicas
              then rolled_back
              else rollback_failed))
          s in
      (elim r [ ok status ↦ ok status | err e ↦ ok rollback_failed ], s')

  -- The `except Exception` of an action.
  unfoldable pub recover : Snapshot fl.Carrier → Scaling → ℕ → Exception → M Outcome
  recover snapshot action target e = do
    status ← restore snapshot.replicas
    append_audit (rollback snapshot.replicas target status e)
    pure (record { status = status; action = some action; before = some snapshot; after = none })

  unfoldable pub act : Snapshot fl.Carrier → Scaling → ℕ → M Outcome
  act snapshot action target s =
      let (r, s') = apply_action snapshot action target s in
      elim r [ ok outcome ↦ (ok outcome, s') | err e ↦ recover snapshot action target e s' ]

  -- `initial_status`
  unfoldable pub initial_status : Option Scaling → Status
  initial_status none = no_action
  initial_status (some scale_up) = if c.allow_actions then no_action else proposed_not_executed
  initial_status (some scale_down) =
      if not c.allow_scale_down && c.allow_actions
      then scale_down_requires_opt_in
      else if c.allow_actions
      then no_action
      else proposed_not_executed

  -- The action that the cycle goes on to execute, if any.
  unfoldable pub authorized : Option Scaling → Option Scaling
  authorized none = none
  authorized (some scale_up) = if c.allow_actions then some scale_up else none
  authorized (some scale_down) =
      if c.allow_actions && c.allow_scale_down then some scale_down else none

  -- The cycle from an observation on.
  unfoldable pub proceed : Snapshot fl.Carrier → M Outcome
  proceed snapshot = do
    low_samples ← read_low
    let (action, next_low_samples, reason) = decide snapshot low_samples
    write_state next_low_samples
    let target = target_of action snapshot.replicas
    append_audit (decision action reason snapshot target c.allow_actions (initial_status action))
    elim (authorized action) [
      | none ↦ pure (record {
        status = initial_status action;
        action = action;
        before = some snapshot;
        after = none;
      })
      | some a ↦ act snapshot a target
    ]

  -- The `except ControlError` of the first observation: it is recorded, and nothing else is done.
  unfoldable pub record_no_data : M Outcome
  record_no_data = do
    append_audit observation_failed
    pure (record { status = no_data_available; action = none; before = none; after = none })

  unfoldable pub run_cycle : M Outcome
  run_cycle = do
    raise_unless c.runtime_dir_absolute control_error
    (λ s.
        let (r, s') = collect_snapshot s in
        elim r [ ok snapshot ↦ proceed snapshot s' | err e ↦ record_no_data s' ])
