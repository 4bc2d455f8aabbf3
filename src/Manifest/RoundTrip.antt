-- ===== src/Manifest/RoundTrip.antt =====
-- What is signed by controller/signed_manifest.py and controller/crypto_receipts.py is verified there.
use v91_core_system.Prelude.{arith, ◌==◌, String, ◌≡◌, refl, sym, ap, ◌∙◌, true, false, List}
use v91_core_system.Prelude.Float.{Floats}
use v91_core_system.Prelude.Objects.{put, get-put_self, get-put_other, without-put}
use v91_core_system.Prelude.Result.{ok}
use v91_core_system.Prelude.Text.{count_chars}
use v91_core_system.Prelude.Value.{Value, str, dict, Fields, get, get_value, has, without}
use v91_core_system.Manifest.Receipts.{Ed25519, sign_record, verify_record_signature}
use v91_core_system.Manifest.Signing.{
  Clock, valid, validate_structure, signature_of, sign_manifest, verify_manifest,
}
use v91_core_system.Manifest.Validity.{IsCurrent, valid_exact}

get_value-put_other :
    {F : Type 0} (k j : String) (v : Value F) (fs : Fields F)
    → k == j ≡ false
    → get_value j (put k v fs) ≡ get_value j fs
get_value-put_other k j v fs h = rw (get_value, get-put_other k j v fs h) (refl)

get_value-put_self :
    {F : Type 0} (k : String) (v : Value F) (fs : Fields F) → get_value k (put k v fs) ≡ v
get_value-put_self k v fs = rw (get_value, get-put_self k v fs) (refl)

module _ {F : Type 0} (c : Ed25519 F) where
  -- A record that is signed with a private key and carries the signature in its field is verified
  -- with a public key that verifies what the private key signs.
  pub verify_record_signature-sign_record :
      (d : Fields F) (private : c.PrivateKey) (public : c.PublicKey) (s : String)
      → sign_record c (dict d) private ≡ ok s
      → ((text : String) → c.verify public (c.sign private text) text ≡ true)
      → ((text : String) → count_chars (c.sign private text) ≡ 128)
      → c.is_public public ≡ true
      → verify_record_signature c (dict (put "receipt_signature" (str s) d)) public ≡ true
  unfolding sign_record verify_record_signature
  verify_record_signature-sign_record d private public s signed pair size known =
      let fresh : has "receipt_signature" d ≡ false = ground arith in
      let same : c.sign private (c.canonical d) ≡ s = ground arith in
      let checks = pair (c.canonical d) in
      let long = size (c.canonical d) in
      rw
        (
          get_value-put_self "receipt_signature" (str s) d,
          without-put "receipt_signature" (str s) d fresh,
          ← same,
          long,
          known,
          checks,
        )
        (refl)

module _ ⦃fl : Floats⦄ (clock : Clock) (c : Ed25519 fl.Carrier) where
  signed_parts :
      (m : Fields fl.Carrier) (private : c.PrivateKey) (s : Fields fl.Carrier)
      → sign_manifest clock c (dict m) private ≡ ok s
      → (has "signature" m ≡ false)
        × (validate_structure clock m ≡ ok tt)
        × (put "signature" (signature_of clock c (c.sign private (c.canonical m))) m ≡ s)
  unfolding sign_manifest
  signed_parts m private s h = (ground arith, ground arith, ground arith)

  -- A manifest that is signed and issued, not expired and not revoked is valid, for keys of which the
  -- public one verifies what the private one signs.
  pub verify_manifest-sign_manifest :
      (m s : Fields fl.Carrier) (private : c.PrivateKey) (public : c.PublicKey)
      (now : Value fl.Carrier) (nodes keys : List String)
      → sign_manifest clock c (dict m) private ≡ ok s
      → ((text : String) → c.verify public (c.sign private text) text ≡ true)
      → ((text : String) → count_chars (c.sign private text) ≡ 128)
      → IsCurrent clock c m now nodes keys
      → verify_manifest clock c (dict s) public now nodes keys ≡ ok valid
  verify_manifest-sign_manifest m s private public now nodes keys signed pair size current =
      let (fresh, structure, same) = signed_parts m private s signed in
      let value = c.sign private (c.canonical m) in
      let sig = signature_of clock c value in
      let rest : without "signature" s ≡ m =
        ap (λ x. without "signature" x) (sym same) ∙ without-put "signature" sig m fresh in
      let kept = λ (k : String) (h : "signature" == k ≡ false).
        ap (λ x. get_value k x) (sym same) ∙ get_value-put_other "signature" k sig m h in
      (valid_exact clock c s public now nodes keys).1 (
        record {
          value = value;
          signature = record {
            fields = _;
            given = ap (λ x. get "signature" x) (sym same) ∙ get-put_self "signature" sig m;
            algorithm = refl;
            text = refl;
            size = size (c.canonical m);
          };
          structure = rw rest (structure);
          authentic = rw rest (pair (c.canonical m));
        },
        record {
          time = current.time;
          issued = current.issued;
          expires = current.expires;
          now_is = current.now_is;
          issued_at = rw (kept "issued_at" refl) (current.issued_at);
          expires_at = rw (kept "expires_at" refl) (current.expires_at);
          begun = current.begun;
          not_over = current.not_over;
          node = rw (kept "node_id" refl) (current.node);
          key = rw (kept "key_id" refl) (current.key);
        },
      )
