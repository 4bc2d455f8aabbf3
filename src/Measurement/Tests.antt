-- ===== src/Measurement/Tests.antt =====
-- Concrete runs of controller/measurement_core.py, and its theorems at inputs.
use v91_core_system.Prelude.{
  ◌==◌, String, ◌≡◌, refl, ◌⊎◌, true, false, none, some, List, [], ◌∷◌, if◌then◌else◌,
}
use v91_core_system.Prelude.Float.{whole}
use v91_core_system.Prelude.Int.{ℤ, pos}
use v91_core_system.Prelude.Result.{ok, err}
use v91_core_system.Prelude.Text.{is_blank, is_space}
use v91_core_system.Prelude.Value.{null, int, str, dict, Fields, end, field, has, without}
use v91_core_system.Measurement.Chain.{
  Codec, genesis, Verified, event_hash_mismatch, check_record, check_line, check_lines, is_number,
  is_text, verify_ledger,
}
use v91_core_system.Measurement.Tampering.{Collision, bodies, tamper_evident}

abbrev digest : String
digest = "ffffffffffffffffffffffffffffffffffffffffffffffffffffffffffffffff"

abbrev event : String → Fields ℤ
event hash = field "event_hash" (str hash) (
    field "previous_hash" (str genesis) (
      field "recorded_at_utc" (str "now")
        (field "sequence" (int (pos 1)) (field "snapshot" null end))))

-- JSON of one event, whole and less its hash, with one digest for all texts.
abbrev codec : Codec ℤ
codec = record {
  canonical = λ fs. if has "event_hash" fs then some "line" else some "body";
  loads = λ s.
      if s == "line"
      then some (dict (event digest))
      else if s == "forged"
      then some (dict (event genesis))
      else none;
  sha256 = λ s. digest;
}

abbrev nothing : Verified
nothing = record { empty_ledger = true; events = 0; last_hash = genesis }

abbrev one : Verified
one = record { empty_ledger = false; events = 1; last_hash = digest }

verify_one : verify_ledger ⦃fl = whole⦄ codec (some ("line" ∷ [])) ≡ ok one
unfolding verify_ledger check_lines check_line check_record is_number is_text is_blank is_space
    without
verify_one = refl

verify_forged :
    verify_ledger ⦃fl = whole⦄ codec (some ("forged" ∷ [])) ≡ err (event_hash_mismatch 1)
unfolding verify_ledger check_lines check_line check_record is_number is_text is_blank is_space
    without
verify_forged = refl

tamper_evident_example :
    ((bs : List String) × (bodies ⦃fl = whole⦄ codec ("line" ∷ []) ≡ some bs)
      × (bodies ⦃fl = whole⦄ codec ("line" ∷ []) ≡ some bs))
    ⊎ Collision (λ s. digest)
tamper_evident_example =
    tamper_evident ⦃fl = whole⦄ codec (λ x. refl) ("line" ∷ []) ("line" ∷ []) one one verify_one
      verify_one refl refl
