-- ===== src/Listener/Recording.antt =====
-- The listener of controller/v91_listener.py records an event once, and keeps its file until then.
use v91_core_system.Prelude.{
  ℕ, suc, ◌+◌, ◌≤◌, ◌==◌, String, ◌≡◌, refl, true, false, List, [], ◌∷◌, arith, eq_iff, if_cases,
  if◌then◌else◌,
}
use v91_core_system.Prelude.Float.{Floats}
use v91_core_system.Prelude.Text.{one_of}
use v91_core_system.Listener.Envelope.{World}
use v91_core_system.Listener.Pipeline.{
  Raw, Database, State, Faults, Route, to_ledger, to_hitl, raised, to_quarantine, record_event,
  unlink, commit, id_of, route, process_file,
}

-- How often an identifier stands in a table.
unfoldable pub occurrences : String → List String → ℕ
occurrences id [] = 0
occurrences id (x ∷ xs) = let rest = occurrences id xs in if x == id then suc rest else rest

not_one_of : (id : String) (l : List String) → one_of id l ≡ false → occurrences id l ≡ 0
unfolding occurrences
not_one_of id [] h = refl
not_one_of id (x ∷ xs) h = ground (arith, not_one_of id xs)

-- Each identifier stands in the audit log once at most, and as often as in the three tables.
abbrev pub IsOnce : Database → String → Type 0
IsOnce db id =
    (occurrences id db.audit_log ≤ 1)
    × (occurrences id db.audit_log
        ≡ occurrences id db.ledger + occurrences id db.hitl_queue + occurrences id db.quarantine)

record_event-IsOnce :
    (r : Route) (new id : String) (db : Database)
    → one_of new db.audit_log ≡ false
    → IsOnce db id
    → IsOnce (record_event r new db) id
unfolding record_event occurrences
record_event-IsOnce to_ledger new id db fresh (once, sums) =
    let zero_new = not_one_of new db.audit_log fresh in
    (ground (arith, eq_iff new id), ground (arith, eq_iff new id))
record_event-IsOnce to_hitl new id db fresh (once, sums) =
    let zero_new = not_one_of new db.audit_log fresh in
    (ground (arith, eq_iff new id), ground (arith, eq_iff new id))
record_event-IsOnce (to_quarantine x) new id db fresh (once, sums) =
    let zero_new = not_one_of new db.audit_log fresh in
    (ground (arith, eq_iff new id), ground (arith, eq_iff new id))
record_event-IsOnce raised new id db fresh h = h

unlink-db : (x : Faults) (s : State) → (unlink x s).db ≡ s.db
unfolding unlink
unlink-db x s = ground arith

unlink-IsOnce : (x : Faults) (s : State) (id : String) → IsOnce s.db id → IsOnce (unlink x s).db id
unlink-IsOnce x s id h = rw (unlink-db x s) (h)

commit-IsOnce :
    (x : Faults) (r : Route) (new id : String) (s : State)
    → one_of new s.db.audit_log ≡ false
    → IsOnce s.db id
    → IsOnce (commit x r new s).db id
unfolding commit
commit-IsOnce x raised new id s fresh h = h
commit-IsOnce x to_ledger new id s fresh h =
    if_cases (λ (t : State). IsOnce t.db id) x.commit_fails (λ _. h)
      λ _. unlink-IsOnce x _ id (record_event-IsOnce to_ledger new id s.db fresh h)
commit-IsOnce x to_hitl new id s fresh h =
    if_cases (λ (t : State). IsOnce t.db id) x.commit_fails (λ _. h)
      λ _. unlink-IsOnce x _ id (record_event-IsOnce to_hitl new id s.db fresh h)
commit-IsOnce x (to_quarantine q) new id s fresh h =
    if_cases (λ (t : State). IsOnce t.db id) x.commit_fails (λ _. h)
      λ _. unlink-IsOnce x _ id (record_event-IsOnce (to_quarantine q) new id s.db fresh h)

abbrev pub empty : Database
empty = record { audit_log = []; ledger = []; hitl_queue = []; quarantine = [] }

-- The file is gone only if its event is in the audit log.
abbrev IsKept : String → State → Type 0
IsKept id s = s.in_inbox ≡ false → one_of id s.db.audit_log ≡ true

unlink-IsKept :
    (x : Faults) (id : String) (s : State)
    → one_of id s.db.audit_log ≡ true
    → IsKept id (unlink x s)
unlink-IsKept x id s h gone = rw (unlink-db x s) (h)

commit-IsKept :
    (x : Faults) (r : Route) (id : String) (db : Database)
    → IsKept id (commit x r id (record { db = db; in_inbox = true }))
unfolding commit record_event
commit-IsKept x raised id db = λ gone. cc
commit-IsKept x to_ledger id db =
    if_cases (IsKept id) x.commit_fails (λ _ gone. cc)
      λ _. unlink-IsKept x id _ (ground (arith, eq_iff id id))
commit-IsKept x to_hitl id db =
    if_cases (IsKept id) x.commit_fails (λ _ gone. cc)
      λ _. unlink-IsKept x id _ (ground (arith, eq_iff id id))
commit-IsKept x (to_quarantine q) id db =
    if_cases (IsKept id) x.commit_fails (λ _ gone. cc)
      λ _. unlink-IsKept x id _ (ground (arith, eq_iff id id))

module _ ⦃fl : Floats⦄ (w : World fl.Carrier) where
  process_file-IsOnce :
      (x : Faults) (raw : Raw fl.Carrier) (now : fl.Carrier) (s : State) (id : String)
      → IsOnce s.db id
      → IsOnce (process_file w x raw now s).db id
  unfolding process_file
  process_file-IsOnce x raw now s id h =
      let P = λ (t : State). IsOnce t.db id in
      if_cases P x.lookup_fails (λ _. h)
        λ _.
          if_cases P (one_of (id_of w raw) s.db.audit_log) (λ _. unlink-IsOnce x s id h)
            λ fresh. commit-IsOnce x (route w raw now) (id_of w raw) id s fresh h

  -- One delivery of a file, with what fails, its contents and the time.
  pub record Delivery : Type 0 where
    pub faults : Faults
    pub raw : Raw fl.Carrier
    pub now : fl.Carrier

  -- Files that come into the inbox one after the other, the same again among them.
  unfoldable pub deliver : List Delivery → Database → Database
  deliver [] db = db
  deliver (d ∷ ds) db =
      deliver ds (process_file w d.faults d.raw d.now (record { db = db; in_inbox = true })).db

  deliver-IsOnce :
      (ds : List Delivery) (db : Database) (id : String) → IsOnce db id → IsOnce (deliver ds db) id
  unfolding deliver
  deliver-IsOnce [] db id h = h
  deliver-IsOnce (d ∷ ds) db id h =
      deliver-IsOnce ds _ id
        (process_file-IsOnce d.faults d.raw d.now (record { db = db; in_inbox = true }) id h)

  -- From empty tables on, whatever files come, as often as they come and whatever fails, an event
  -- stands in the audit log once at most, and as often in the ledger, the queue for humans and the
  -- quarantine together.
  pub recorded-IsOnce : (ds : List Delivery) (id : String) → IsOnce (deliver ds empty) id
  unfolding occurrences
  recorded-IsOnce ds id = deliver-IsOnce ds empty id (omega arith, refl)

  process_file-IsKept :
      (x : Faults) (raw : Raw fl.Carrier) (now : fl.Carrier) (db : Database)
      → IsKept (id_of w raw) (process_file w x raw now (record { db = db; in_inbox = true }))
  unfolding process_file
  process_file-IsKept x raw now db =
      let P = IsKept (id_of w raw) in
      if_cases P x.lookup_fails (λ _ gone. cc)
        λ _.
          if_cases P (one_of (id_of w raw) db.audit_log)
            (λ old. unlink-IsKept x (id_of w raw) (record { db = db; in_inbox = true }) old)
            λ _. commit-IsKept x (route w raw now) (id_of w raw) db

  -- Whatever fails, a file that leaves the inbox has its event in the audit log.
  pub kept_until_recorded :
      (x : Faults) (raw : Raw fl.Carrier) (now : fl.Carrier) (db : Database)
      → (process_file w x raw now (record { db = db; in_inbox = true })).in_inbox ≡ false
      → one_of
          (id_of w raw)
          (process_file w x raw now (record { db = db; in_inbox = true })).db.audit_log
        ≡ true
  kept_until_recorded x raw now db gone = process_file-IsKept x raw now db gone
