-- ===== src/Listener/Envelope.antt =====
-- controller/v91_listener.py: `safesignal_check`, `validate_payload` and `compute_confidence`. JSON,
-- HMAC-SHA256, `datetime.fromisoformat` and the weights, which are decimal fractions, are parameters.
use v91_core_system.Prelude.{
  ℕ, ltb, ◌==◌, String, Bool, not, ◌&&◌, Option, List, [], ◌∷◌, if◌then◌else◌,
}
use v91_core_system.Prelude.Float.{Floats}
use v91_core_system.Prelude.Int.{pos}
use v91_core_system.Prelude.Result.{Result, ok, err, raise_if, or_raise, ◌>>=◌, ◌>>◌}
use v91_core_system.Prelude.Text.{is_ascii, lower, one_of}
use v91_core_system.Prelude.Value.{
  Value, Fields, get_value, has, as_dict, as_text, as_nonempty, as_str,
}

-- Why an event goes to quarantine; `type_error` is the exception of `hmac.compare_digest` at a text
-- that is not ASCII, which leaves `process_file`.
pub data Reason : Type 0 where
  json_parse_error not_object no_envelope bad_version empty_sig no_ts no_payload no_timezone :
      Reason
  bad_timestamp signature_mismatch too_old in_future : Reason
  missing_fields bad_event_type bad_source bad_data : Reason
  type_error : Reason

-- The moment of a timestamp, if it has a timezone.
pub data Moment (F : Type 0) : Type 0 where
  naive : Moment F
  aware : F → Moment F

pub record World (F : Type 0) : Type 1 where
  -- HMAC under the key over the version, the timestamp and the payload, in hexadecimal
  pub sign : String → String → Fields F → String
  -- `none` for the ValueError
  pub fromisoformat : String → Option (Moment F)
  -- SHA-256 of the canonical JSON of an event
  pub event_hash : Value F → String
  -- `len(json.dumps(v))`
  pub dumped_length : Value F → ℕ
  -- 0.4, 0.2, 0.3 and `HITL_THRESHOLD`
  pub risky : F
  pub large : F
  pub unknown : F
  pub threshold : F

abbrev pub risky_types : List String
risky_types = "delete" ∷ "override" ∷ "force_merge" ∷ "escalate" ∷ "admin_action" ∷ []

module _ ⦃fl : Floats⦄ (w : World fl.Carrier) where
  unfoldable pub check_time : fl.Carrier → Moment fl.Carrier → Result Reason fl.Carrier
  check_time now naive = err no_timezone
  check_time now (aware t) = ok (fl.sub now t)

  -- `safesignal_check`: the payload of an event that passes.
  unfoldable pub safesignal_check :
      Value fl.Carrier → fl.Carrier → Result Reason (Fields fl.Carrier)
  safesignal_check event now = do
    fields ← or_raise (as_dict event) not_object
    envelope ← or_raise (as_dict (get_value "safesignal" fields)) no_envelope
    version ← or_raise (as_str (get_value "version" envelope)) bad_version
    raise_if (not (version == "1")) bad_version
    sig ← or_raise (as_nonempty (get_value "sig" envelope)) empty_sig
    timestamp ← or_raise (as_text (get_value "ts" envelope)) no_ts
    payload ← or_raise (as_dict (get_value "payload" fields)) no_payload
    moment ← or_raise (w.fromisoformat timestamp) bad_timestamp
    age ← check_time now moment
    raise_if (not (is_ascii sig)) type_error
    raise_if (not (w.sign version timestamp payload == sig)) signature_mismatch
    raise_if (fl.lt (fl.of_int (pos 300)) age) too_old
    raise_if (fl.lt age (fl.sub (fl.of_int (pos 0)) (fl.of_int (pos 60)))) in_future
    ok payload

  unfoldable pub validate_payload : Fields fl.Carrier → Result Reason (String × String)
  validate_payload payload = do
    raise_if (not (has "event_type" payload && has "source" payload && has "data" payload))
        missing_fields
    event_type ← or_raise (as_text (get_value "event_type" payload)) bad_event_type
    source ← or_raise (as_text (get_value "source" payload)) bad_source
    or_raise (as_dict (get_value "data" payload)) bad_data >>= λ _. ok (event_type, source)

  abbrev less_if : Bool → fl.Carrier → fl.Carrier → fl.Carrier
  less_if b x score = if b then fl.sub score x else score

  -- `max(0.0, min(1.0, score))`
  abbrev clamp : fl.Carrier → fl.Carrier
  clamp score =
      let top = if fl.lt score (fl.of_int (pos 1)) then score else fl.of_int (pos 1) in
      if fl.lt (fl.of_int (pos 0)) top then top else fl.of_int (pos 0)

  -- Of a payload that `validate_payload` has passed, with its event type and source.
  unfoldable pub compute_confidence : Fields fl.Carrier → String × String → fl.Carrier
  compute_confidence payload (event_type, source) = clamp (
      less_if (source == "unknown") w.unknown (
        less_if (ltb 4096 (w.dumped_length (get_value "data" payload))) w.large
          (less_if (one_of (lower event_type) risky_types) w.risky (fl.of_int (pos 1)))))
