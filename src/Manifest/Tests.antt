-- ===== src/Manifest/Tests.antt =====
-- Concrete runs of the signed records, with a fixed text in the place of a signature, and the
-- theorems at inputs.
use v91_core_system.Prelude.{
  ℕ, List, none, ◌==◌, String, ◌≡◌, ◌↔◌, refl, true, false, some, [], ◌∷◌, arith, if◌then◌else◌,
}
use v91_core_system.Prelude.Float.{whole}
use v91_core_system.Prelude.Int.{ℤ, pos}
use v91_core_system.Prelude.Objects.{put}
use v91_core_system.Prelude.Result.{ok, err}
use v91_core_system.Prelude.Text.{is_blank, is_space}
use v91_core_system.Prelude.Value.{Value, bool, int, str, dict, Fields, end, field, without}
use v91_core_system.Manifest.Keys.{key_of, resolve_trusted_ed25519_key}
use v91_core_system.Manifest.Receipts.{Ed25519, sign_record, verify_record_signature}
use v91_core_system.Manifest.RoundTrip.{
  verify_record_signature-sign_record, verify_manifest-sign_manifest,
}
use v91_core_system.Manifest.Signing.{
  Clock, aware, naive, missing, revoked_node, valid, invalid, parse_instant, validate_structure,
  sign_manifest, read_signature, check_signed, check_window, verify_manifest,
}
use v91_core_system.Manifest.Validity.{IsSigned, IsCurrent, valid_exact}

abbrev fixed : String
fixed =
    "0123456789abcdef0123456789abcdef0123456789abcdef0123456789abcdef0123456789abcdef0123456789abcdef0123456789abcdef0123456789abcdef"

abbrev toy : Ed25519 ℤ
toy = record {
  PrivateKey = String;
  PublicKey = String;
  is_private = λ key. true;
  is_public = λ key. true;
  sign = λ key text. fixed;
  verify = λ key value text. value == fixed;
  canonical = λ fs. "record";
}

abbrev clock : Clock
clock s =
    if s == "early"
    then some (aware (pos 1))
    else if s == "now"
    then some (aware (pos 5))
    else if s == "late"
    then some (aware (pos 9))
    else some naive

abbrev manifest : Fields ℤ
manifest = field "schema_version" (int (pos 1)) (
    field "node_id" (str "node") (
      field "key_id" (str "key") (
        field "software_version" (str "1.0") (
          field "issued_at" (str "early") (
            field "expires_at" (str "late") (
              field "resources"
                (dict (
                  field "cpu_cores_available" (int (pos 4)) (
                    field "ram_mb_available" (int (pos 8)) (
                      field "vram_mb_available" (int (pos 0))
                        (field "disk_mb_available" (int (pos 100)) end)))))
                (field "contributions"
                  (dict (
                    field "compute" (bool true) (
                      field "verification" (bool true) (
                        field "encrypted_storage" (bool false)
                          (field "metadata_index" (bool false) end)))))
                  (field "policy_version" (str "1") end))))))))

abbrev signed : Fields ℤ
signed =
    put "signature" (dict (field "algorithm" (str "Ed25519") (field "value" (str fixed) end)))
      manifest

signed_lem : sign_manifest ⦃fl = whole⦄ clock toy (dict manifest) "private" ≡ ok signed
unfolding sign_manifest validate_structure parse_instant is_blank is_space put
signed_lem = refl

nothing_there : sign_manifest ⦃fl = whole⦄ clock toy (dict end) "private" ≡ err missing
unfolding sign_manifest validate_structure
nothing_there = refl

revoked :
    verify_manifest ⦃fl = whole⦄ clock toy (dict signed) "public" (str "now") ("node" ∷ []) []
    ≡ ok (invalid revoked_node)
unfolding verify_manifest check_signed check_window read_signature validate_structure parse_instant
    is_blank is_space put without
revoked = refl

manifest-IsCurrent : IsCurrent ⦃fl = whole⦄ clock toy manifest (str "now") [] []
unfolding parse_instant
manifest-IsCurrent = record {
  time = pos 5;
  issued = pos 1;
  expires = pos 9;
  now_is = refl;
  issued_at = refl;
  expires_at = refl;
  begun = omega arith;
  not_over = omega arith;
  node = refl;
  key = refl;
}

valid_exact_example :
    (verify_manifest ⦃fl = whole⦄ clock toy (dict signed) "public" (str "now") [] [] ≡ ok valid) ↔ (
      IsSigned ⦃fl = whole⦄ clock toy signed "public"
      × IsCurrent ⦃fl = whole⦄ clock toy signed (str "now") [] [])
valid_exact_example = valid_exact ⦃fl = whole⦄ clock toy signed "public" (str "now") [] []

verify_manifest-sign_manifest_example :
    verify_manifest ⦃fl = whole⦄ clock toy (dict signed) "public" (str "now") [] [] ≡ ok valid
verify_manifest-sign_manifest_example =
    verify_manifest-sign_manifest ⦃fl = whole⦄ clock toy manifest signed "private" "public"
      (str "now") [] [] signed_lem (λ text. refl) (λ text. refl) manifest-IsCurrent

record_verified :
    verify_record_signature toy (dict (put "receipt_signature" (str fixed) manifest)) "public"
    ≡ true
unfolding sign_record
record_verified =
    verify_record_signature-sign_record toy manifest "private" "public" fixed refl (λ text. refl)
      (λ text. refl) refl

-- A registry with one key, and base64 that gives 32 bytes.
abbrev keys_of : String → Value ℤ
keys_of status = dict (
    field "peers"
      (dict (
        field "p"
          (dict (
            field "keys"
              (dict (
                field "k"
                  (dict (
                    field "status" (str status)
                      (field "algorithm" (str "Ed25519") (field "public_key_b64" (str "AA") end))))
                  end))
              end))
          end))
      end)

abbrev key_bytes : List ℕ
key_bytes =
    0 ∷ 0 ∷ 0 ∷ 0 ∷ 0 ∷ 0 ∷ 0 ∷ 0 ∷ 0 ∷ 0 ∷ 0 ∷ 0 ∷ 0 ∷ 0 ∷ 0 ∷ 0 ∷ 0 ∷ 0 ∷ 0 ∷ 0 ∷ 0 ∷ 0 ∷ 0 ∷ 0
    ∷ 0 ∷ 0 ∷ 0 ∷ 0 ∷ 0 ∷ 0 ∷ 0 ∷ 0 ∷ []

active_key :
    resolve_trusted_ed25519_key (λ s. some key_bytes) (keys_of "active") (str "p") (str "k")
    ≡ some key_bytes
unfolding resolve_trusted_ed25519_key key_of is_blank is_space
active_key = refl

revoked_key :
    resolve_trusted_ed25519_key (λ s. some key_bytes) (keys_of "revoked") (str "p") (str "k") ≡ none
unfolding resolve_trusted_ed25519_key key_of is_blank is_space
revoked_key = refl
