-- ===== src/Manifest/Signing.antt =====
-- controller/signed_manifest.py: the structure of a manifest, `sign_manifest` and `verify_manifest`.
use v91_core_system.Prelude.{
  eqb, ◌==◌, String, Bool, true, false, not, ◌&&◌, Option, none, some, List, [], ◌∷◌, all,
  if◌then◌else◌,
}
use v91_core_system.Prelude.Float.{Floats}
use v91_core_system.Prelude.Int.{ℤ, pos, ltb_ℤ, eqb_ℤ}
use v91_core_system.Prelude.Objects.{put}
use v91_core_system.Prelude.Result.{Result, ok, err, raise_if, or_raise, ◌>>=◌, ◌>>◌}
use v91_core_system.Prelude.Text.{one_of, count_chars}
use v91_core_system.Prelude.Value.{
  Value, bool, int, float, str, dict, Fields, end, field, get, get_value, has, as_dict, as_str,
  as_text, is_bool, without,
}
use v91_core_system.Manifest.Receipts.{Ed25519}

pub data Instant : Type 0 where
  naive : Instant
  aware : ℤ → Instant

-- The ManifestErrors, with the field that they name.
pub data ManifestError : Type 0 where
  not_object already_signed unsupported_version not_text_time unparsable naive_time bad_key :
      ManifestError
  missing not_text no_resources no_contributions bad_resource bad_contribution : ManifestError

pub data Reason : Type 0 where
  not_dict no_signature bad_algorithm malformed_signature signature_failed not_yet_valid expired
        revoked_node revoked_key :
      Reason
  structural : ManifestError → Reason

-- `(True, …)` and `(False, reason)`.
pub data Verdict : Type 0 where
  valid : Verdict
  invalid : Reason → Verdict

abbrev pub required_top_level : List String
required_top_level =
    "schema_version" ∷ "node_id" ∷ "key_id" ∷ "software_version" ∷ "issued_at" ∷ "expires_at"
    ∷ "resources" ∷ "contributions" ∷ "policy_version" ∷ []

abbrev pub required_resources : List String
required_resources =
    "cpu_cores_available" ∷ "ram_mb_available" ∷ "vram_mb_available" ∷ "disk_mb_available" ∷ []

abbrev pub required_contributions : List String
required_contributions = "compute" ∷ "verification" ∷ "encrypted_storage" ∷ "metadata_index" ∷ []

-- `datetime.fromisoformat(value.replace("Z", "+00:00"))` in microseconds of UTC, and `none` for the
-- ValueError.
abbrev pub Clock : Type 0
Clock = String → Option Instant

abbrev timezone : Instant → Result ManifestError ℤ
timezone naive = err naive_time
timezone (aware t) = ok t

module _ {F : Type 0} (clock : Clock) where
  unfoldable pub parse_instant : Value F → Result ManifestError ℤ
  parse_instant v = do
    s ← or_raise (as_str v) not_text_time
    t ← or_raise (clock s) unparsable
    timezone t

module _ ⦃fl : Floats⦄ where
  -- `v == 1`
  abbrev pub is_one : Value fl.Carrier → Bool
  is_one (int n) = eqb_ℤ n (pos 1)
  is_one (bool b) = b
  is_one (float x) = fl.le x (fl.of_int (pos 1)) && fl.le (fl.of_int (pos 1)) x
  is_one _ = false

  -- A number that is no Boolean and not `< 0`.
  abbrev pub is_amount : Value fl.Carrier → Bool
  is_amount (int n) = not (ltb_ℤ n (pos 0))
  is_amount (float x) = not (fl.lt x (fl.of_int (pos 0)))
  is_amount _ = false

  abbrev pub is_text : Value fl.Carrier → Bool
  is_text v = elim (as_text v) [ none ↦ false | some s ↦ true ]

  -- An object that has all keys.
  abbrev pub object_with : List String → Value fl.Carrier → Option (Fields fl.Carrier)
  object_with ks (dict d) = if not (all (λ k. has k d) ks) then none else some d
  object_with ks _ = none

module _ ⦃fl : Floats⦄ (clock : Clock) where
  unfoldable pub validate_structure : Fields fl.Carrier → Result ManifestError (Unit {0})
  validate_structure m = do
    raise_if (not (all (λ k. has k m) required_top_level)) missing
    raise_if (not (is_one (get_value "schema_version" m))) unsupported_version
    raise_if
        (not (
          all (λ k. is_text (get_value k m))
            ("node_id" ∷ "key_id" ∷ "software_version" ∷ "policy_version" ∷ [])))
        not_text
    issued ← parse_instant clock (get_value "issued_at" m)
    expires ← parse_instant clock (get_value "expires_at" m)
    resources ← or_raise (object_with required_resources (get_value "resources" m)) no_resources
    raise_if (not (all (λ k. is_amount (get_value k resources)) required_resources)) bad_resource
    contributions ←
        or_raise (object_with required_contributions (get_value "contributions" m)) no_contributions
    raise_if (not (all (λ k. is_bool (get_value k contributions)) required_contributions))
        bad_contribution

module _ ⦃fl : Floats⦄ (clock : Clock) (c : Ed25519 fl.Carrier) where
  abbrev pub signature_of : String → Value fl.Carrier
  signature_of s = dict (field "algorithm" (str "Ed25519") (field "value" (str s) end))

  unfoldable pub sign_manifest :
      Value fl.Carrier → c.PrivateKey → Result ManifestError (Fields fl.Carrier)
  sign_manifest (dict m) key =
      raise_if (has "signature" m) already_signed
      >> validate_structure clock m
      >> raise_if (not (c.is_private key)) bad_key
      >> ok (put "signature" (signature_of (c.sign key (c.canonical m))) m)
  sign_manifest _ key = err not_object

  -- The value of a signature of the algorithm.
  abbrev pub value_of : Value fl.Carrier → Value fl.Carrier → Result Reason String
  value_of algorithm value = do
    name ← or_raise (as_str algorithm) bad_algorithm
    raise_if (not (name == "Ed25519")) bad_algorithm
    s ← or_raise (as_str value) malformed_signature
    raise_if (not (eqb (count_chars s) 128)) malformed_signature
    ok s

  unfoldable pub read_signature : Option (Value fl.Carrier) → Result Reason String
  read_signature none = err no_signature
  read_signature (some v) = or_raise (as_dict v) bad_algorithm >>= λ d.
      value_of (get_value "algorithm" d) (get_value "value" d)

  abbrev pub structural_reason : Result ManifestError (Unit {0}) → Result Reason (Unit {0})
  structural_reason (ok u) = ok u
  structural_reason (err e) = err (structural e)

  -- The tests before the times, which give a reason.
  unfoldable pub check_signed : Fields fl.Carrier → c.PublicKey → Result Reason (Unit {0})
  unfolding read_signature
  check_signed m key = do
    value ← read_signature (get "signature" m)
    structural_reason (validate_structure clock (without "signature" m))
    raise_if (not (c.verify key value (c.canonical (without "signature" m)))) signature_failed

  abbrev pub is_member : Value fl.Carrier → List String → Bool
  is_member (str s) l = one_of s l
  is_member _ l = false

  -- The window and the revocations.
  unfoldable pub check_window : ℤ → ℤ → ℤ → Fields fl.Carrier → List String → List String → Verdict
  check_window now issued expires m nodes keys =
      if ltb_ℤ now issued
      then invalid not_yet_valid
      else if ltb_ℤ expires now
      then invalid expired
      else if is_member (get_value "node_id" m) nodes
      then invalid revoked_node
      else if is_member (get_value "key_id" m) keys
      then invalid revoked_key
      else valid

  abbrev pub check_times :
      Value fl.Carrier
      → Fields fl.Carrier
      → List String
      → List String
      → Result ManifestError Verdict
  check_times now m nodes keys = do
    n ← parse_instant clock now
    issued ← parse_instant clock (get_value "issued_at" m)
    expires ← parse_instant clock (get_value "expires_at" m)
    ok (check_window n issued expires m nodes keys)

  -- The revoked identifiers are sets or `None`, which is an empty list here; a time that does not
  -- parse raises.
  unfoldable pub verify_manifest :
      Value fl.Carrier
      → c.PublicKey
      → Value fl.Carrier
      → List String
      → List String
      → Result ManifestError Verdict
  unfolding check_signed check_window
  verify_manifest (dict m) key now nodes keys = elim (check_signed m key) [
    | err r ↦ ok (invalid r)
    | ok u ↦ check_times now m nodes keys
  ]
  verify_manifest _ key now nodes keys = ok (invalid not_dict)
