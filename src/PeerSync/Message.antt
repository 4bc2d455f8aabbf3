-- ===== src/PeerSync/Message.antt =====
-- controller/peer_sync.py: the validation of a received message and the making of a signed one. The
-- HMAC over the canonical JSON of a payload is a parameter, as is the test whether an integer is
-- in the range of floats.
use v91_core_system.Prelude.{
  ◌==◌, eqb, String, Bool, false, not, ◌&&◌, ◌||◌, Option, none, some, List, [], ◌∷◌, all,
  if◌then◌else◌,
}
use v91_core_system.Prelude.Float.{Floats}
use v91_core_system.Prelude.Int.{ℤ, pos, eqb_ℤ, ltb_ℤ}
use v91_core_system.Prelude.Result.{Result, ok, err, raise_if, or_raise, ◌>>=◌, ◌>>◌}
use v91_core_system.Prelude.Text.{count_chars, one_of}
use v91_core_system.Prelude.Value.{
  Value, int, float, str, list, dict, Items, nil, cons, Fields, end, field, get_value, keys,
  as_nonempty,
}

-- The reasons of the refusals; `overflow` is the OverflowError of `math.isfinite` at an integer,
-- `incomparable` the TypeError of `hmac.compare_digest` at a text that is not ASCII.
pub data Reason : Type 0 where
  fields_differ bad_version bad_peer_id bad_key_id bad_sequence bad_timestamp : Reason
  bad_software bad_capabilities duplicate_capabilities bad_state unhashable_state : Reason
  bad_signature_format bad_receiver_time unknown_key key_not_bound bad_key_material : Reason
  bad_signature in_future replayed too_old verified unseen : Reason
  overflow incomparable : Reason

-- HMAC-SHA256 in hexadecimal over the canonical JSON of a payload, `isinstance(secret, bytes) and
-- len(secret) >= 32`, and whether `float(n)` is in range.
pub record Crypto (F : Type 0) : Type 1 where
  pub Secret : Type 0
  pub mac : Secret → Fields F → String
  pub is_key : Secret → Bool
  pub in_float_range : ℤ → Bool

abbrev pub required : List String
required =
    "schema_version" ∷ "peer_id" ∷ "key_id" ∷ "sequence" ∷ "timestamp" ∷ "software_version"
    ∷ "capabilities" ∷ "state" ∷ "signature" ∷ []

abbrev pub peer_states : List String
peer_states = "READY" ∷ "BUSY" ∷ "DEGRADED" ∷ "STOPPING" ∷ []

-- A message whose fields have passed every test of the `try` block.
pub record Checked (F : Type 0) : Type 0 where
  pub peer_id : String
  pub key_id : String
  pub sequence : ℤ
  pub timestamp : F
  pub signature : String

-- `len(set(names)) != len(names)`
abbrev pub has_duplicate : List String → Bool
has_duplicate [] = false
has_duplicate (s ∷ ss) = one_of s ss || has_duplicate ss

module _ {F : Type 0} where
  -- `set(message) == required`, for a mapping.
  unfoldable pub has_required_fields : Fields F → Bool
  has_required_fields m =
      all (λ k. one_of k required) (keys m) && all (λ k. one_of k (keys m)) required

  -- `{key: value for key, value in message.items() if key != "signature"}`
  abbrev pub unsigned : Fields F → Fields F
  unsigned end = end
  unsigned (field k v fs) = if k == "signature" then unsigned fs else field k v (unsigned fs)

  -- A list of texts that are not empty, as texts.
  abbrev pub names : Items F → Option (List String)
  names nil = some []
  names (cons v vs) = elim (as_nonempty v) [
    | none ↦ none
    | some s ↦ elim (names vs) [ none ↦ none | some ss ↦ some (s ∷ ss) ]
  ]

  abbrev positive : Value F → Option ℤ
  positive (int n) = if ltb_ℤ n (pos 1) then none else some n
  positive _ = none

  abbrev check_capabilities : Value F → Result Reason (Unit {0})
  check_capabilities (list vs) = or_raise (names vs) bad_capabilities >>= λ ss.
      raise_if (has_duplicate ss) duplicate_capabilities
  check_capabilities _ = err bad_capabilities

  -- A list or an object cannot be looked up in a set.
  abbrev check_state : Value F → Result Reason (Unit {0})
  check_state (str s) = raise_if (not (one_of s peer_states)) bad_state
  check_state (list _) = err unhashable_state
  check_state (dict _) = err unhashable_state
  check_state _ = err bad_state

  abbrev check_signature : Value F → Result Reason String
  check_signature (str s) = if eqb (count_chars s) 64 then ok s else err bad_signature_format
  check_signature _ = err bad_signature_format

module _ ⦃fl : Floats⦄ (c : Crypto fl.Carrier) where
  -- `value == 1`, and no bool.
  abbrev is_version_one : Value fl.Carrier → Bool
  is_version_one (int n) = eqb_ℤ n (pos 1)
  is_version_one (float x) = fl.le x (fl.of_int (pos 1)) && fl.le (fl.of_int (pos 1)) x
  is_version_one _ = false

  -- A finite number; an integer out of the range of floats raises.
  abbrev check_timestamp : Value fl.Carrier → Result Reason fl.Carrier
  check_timestamp (int n) = if c.in_float_range n then ok (fl.of_int n) else err overflow
  check_timestamp (float x) = if fl.is_finite x then ok x else err bad_timestamp
  check_timestamp _ = err bad_timestamp

  -- The `try` block of `receive`.
  unfoldable pub check_message : Fields fl.Carrier → fl.Carrier → Result Reason (Checked fl.Carrier)
  check_message m now = do
    raise_if (not (has_required_fields m)) fields_differ
    raise_if (not (is_version_one (get_value "schema_version" m))) bad_version
    peer_id ← or_raise (as_nonempty (get_value "peer_id" m)) bad_peer_id
    key_id ← or_raise (as_nonempty (get_value "key_id" m)) bad_key_id
    sequence ← or_raise (positive (get_value "sequence" m)) bad_sequence
    timestamp ← check_timestamp (get_value "timestamp" m)
    or_raise (as_nonempty (get_value "software_version" m)) bad_software >>= λ _.
        check_capabilities (get_value "capabilities" m)
    check_state (get_value "state" m)
    signature ← check_signature (get_value "signature" m)
    raise_if (not (fl.is_finite now)) bad_receiver_time
    ok (record {
      peer_id = peer_id;
      key_id = key_id;
      sequence = sequence;
      timestamp = timestamp;
      signature = signature;
    })
