-- ===== src/Listener/Tests.antt =====
-- Concrete runs of controller/v91_listener.py with whole seconds, and its theorems at inputs.
use v91_core_system.Prelude.{◌+◌, ◌≤◌, String, ◌≡◌, refl, Bool, true, false, some, [], ◌∷◌}
use v91_core_system.Prelude.Float.{whole}
use v91_core_system.Prelude.Int.{ℤ, pos, ◌-ℤ◌}
use v91_core_system.Prelude.Text.{is_blank, is_space, one_of}
use v91_core_system.Prelude.Value.{Value, str, dict, end, field}
use v91_core_system.Listener.Envelope.{
  World, aware, safesignal_check, validate_payload, check_time, compute_confidence,
  signature_mismatch,
}
use v91_core_system.Listener.Pipeline.{
  parsed, Database, Faults, to_ledger, to_hitl, to_quarantine, route, record_event, unlink, commit,
  process_file,
}
use v91_core_system.Listener.Recording.{
  Delivery, deliver, empty, occurrences, recorded-IsOnce, kept_until_recorded,
}

-- A signature that is the timestamp, in the place of HMAC; scores from 0 to 1 in whole steps.
abbrev world : World ℤ
world = record {
  sign = λ version timestamp payload. timestamp;
  fromisoformat = λ s. some (aware (pos 1000));
  event_hash = λ v. "id";
  dumped_length = λ v. 10;
  risky = pos 1;
  large = pos 1;
  unknown = pos 1;
  threshold = pos 1;
}

abbrev event : String → String → Value ℤ
event sig type = dict (
    field "safesignal"
      (dict (field "version" (str "1") (field "sig" (str sig) (field "ts" (str "t") end))))
      (field "payload"
        (dict (
          field "event_type" (str type)
            (field "source" (str "sensor") (field "data" (dict end) end))))
        end))

route_ledger : route ⦃fl = whole⦄ world (parsed (event "t" "note")) (pos 1010) ≡ to_ledger
unfolding route safesignal_check check_time validate_payload compute_confidence is_blank is_space
    ◌-ℤ◌
route_ledger = refl

route_hitl : route ⦃fl = whole⦄ world (parsed (event "t" "Delete")) (pos 1010) ≡ to_hitl
unfolding route safesignal_check check_time validate_payload compute_confidence is_blank is_space
    ◌-ℤ◌
route_hitl = refl

route_forged :
    route ⦃fl = whole⦄ world (parsed (event "u" "note")) (pos 1010)
    ≡ to_quarantine signature_mismatch
unfolding route safesignal_check check_time validate_payload compute_confidence is_blank is_space
    ◌-ℤ◌
route_forged = refl

abbrev faults : Bool → Faults
faults b = record { lookup_fails = false; commit_fails = false; unlink_fails = b }

abbrev delivery : Bool → Delivery ⦃fl = whole⦄ world
delivery b = record { faults = faults b; raw = parsed (event "t" "note"); now = pos 1010 }

abbrev one : Database
one = record empty { ledger = "id" ∷ []; audit_log = "id" ∷ [] }

-- A file that could not be removed comes again.
deliver_again : deliver ⦃fl = whole⦄ world (delivery true ∷ delivery false ∷ []) empty ≡ one
unfolding deliver process_file commit record_event unlink route safesignal_check check_time
    validate_payload compute_confidence is_blank is_space ◌-ℤ◌
deliver_again = refl

recorded-IsOnce_example :
    (occurrences "id"
        (deliver ⦃fl = whole⦄ world (delivery true ∷ delivery false ∷ []) empty).audit_log
      ≤ 1)
    × (occurrences "id"
          (deliver ⦃fl = whole⦄ world (delivery true ∷ delivery false ∷ []) empty).audit_log
        ≡ occurrences "id"
            (deliver ⦃fl = whole⦄ world (delivery true ∷ delivery false ∷ []) empty).ledger
          + occurrences "id"
              (deliver ⦃fl = whole⦄ world (delivery true ∷ delivery false ∷ []) empty).hitl_queue
          + occurrences "id"
              (deliver ⦃fl = whole⦄ world (delivery true ∷ delivery false ∷ []) empty).quarantine)
recorded-IsOnce_example =
    recorded-IsOnce ⦃fl = whole⦄ world (delivery true ∷ delivery false ∷ []) "id"

removed :
    (process_file ⦃fl = whole⦄ world
      (faults false)
      (parsed (event "t" "note"))
      (pos 1010)
      (record { db = empty; in_inbox = true })).in_inbox
    ≡ false
unfolding process_file commit record_event unlink route safesignal_check check_time validate_payload
    compute_confidence is_blank is_space ◌-ℤ◌
removed = refl

kept_until_recorded_example :
    one_of "id"
      (process_file ⦃fl = whole⦄ world
        (faults false)
        (parsed (event "t" "note"))
        (pos 1010)
        (record { db = empty; in_inbox = true })).db.audit_log
    ≡ true
kept_until_recorded_example =
    kept_until_recorded ⦃fl = whole⦄ world (faults false) (parsed (event "t" "note")) (pos 1010)
      empty removed
