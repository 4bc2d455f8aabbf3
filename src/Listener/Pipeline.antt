-- ===== src/Listener/Pipeline.antt =====
-- controller/v91_listener.py: `process_file`. A database transaction records an event wholly or not
-- at all; which calls of the database and the file system fail is an argument. Of a table the model
-- keeps the event identifiers.
use v91_core_system.Prelude.{String, Bool, false, List, ◌∷◌, if◌then◌else◌}
use v91_core_system.Prelude.Float.{Floats}
use v91_core_system.Prelude.Result.{Result, ok, err, ◌>>=◌}
use v91_core_system.Prelude.Text.{one_of}
use v91_core_system.Prelude.Value.{Value, Fields}
use v91_core_system.Listener.Envelope.{
  Reason, json_parse_error, type_error, World, safesignal_check, validate_payload,
  compute_confidence,
}

-- What `json.loads` makes of a file with the hash of its bytes.
pub data Raw (F : Type 0) : Type 0 where
  malformed : String → Raw F
  parsed : Value F → Raw F

pub record Database : Type 0 where
  pub audit_log : List String
  pub ledger : List String
  pub hitl_queue : List String
  pub quarantine : List String

-- The tables, and whether the file is still in the inbox.
pub record State : Type 0 where
  pub db : Database
  pub in_inbox : Bool

pub record Faults : Type 0 where
  pub lookup_fails : Bool
  pub commit_fails : Bool
  pub unlink_fails : Bool

-- Where an event goes; `raised` is an exception that leaves `process_file`.
pub data Route : Type 0 where
  to_ledger to_hitl raised : Route
  to_quarantine : Reason → Route

-- The rows of one transaction.
unfoldable pub record_event : Route → String → Database → Database
record_event to_ledger id db = record db { ledger = id ∷ db.ledger; audit_log = id ∷ db.audit_log }
record_event to_hitl id db = record db {
  hitl_queue = id ∷ db.hitl_queue;
  audit_log = id ∷ db.audit_log;
}
record_event (to_quarantine r) id db = record db {
  quarantine = id ∷ db.quarantine;
  audit_log = id ∷ db.audit_log;
}
record_event raised id db = db

unfoldable pub unlink : Faults → State → State
unlink x s = if x.unlink_fails then s else record s { in_inbox = false }

-- The transaction, and after its commit the removal of the file.
unfoldable pub commit : Faults → Route → String → State → State
unfolding record_event unlink
commit x raised id s = s
commit x r id s = if x.commit_fails then s else unlink x (record s { db = record_event r id s.db })

module _ ⦃fl : Floats⦄ (w : World fl.Carrier) where
  abbrev pub id_of : Raw fl.Carrier → String
  id_of (malformed hash) = hash
  id_of (parsed event) = w.event_hash event

  abbrev pub route_checked : Result Reason (Fields fl.Carrier × (String × String)) → Route
  route_checked (err type_error) = raised
  route_checked (err r) = to_quarantine r
  route_checked (ok (payload, names)) =
      if fl.lt (compute_confidence w payload names) w.threshold then to_hitl else to_ledger

  unfoldable pub route : Raw fl.Carrier → fl.Carrier → Route
  route (malformed hash) now = to_quarantine json_parse_error
  route (parsed event) now = route_checked (
      safesignal_check w event now >>= λ payload.
      validate_payload w payload >>= λ names. ok (payload, names))

  unfoldable pub process_file : Faults → Raw fl.Carrier → fl.Carrier → State → State
  unfolding unlink commit
  process_file x raw now s =
      if x.lookup_fails
      then s
      else if one_of (id_of raw) s.db.audit_log
      then unlink x s
      else commit x (route raw now) (id_of raw) s
