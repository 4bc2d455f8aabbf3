-- ===== src/Manifest/Validity.antt =====
-- Which manifests controller/signed_manifest.py verifies.
use v91_core_system.Prelude.{
  eqb, eq_iff, arith, ◌==◌, String, ◌≡◌, ◌↔◌, refl, sym, ap, ◌∙◌, inl, inr, Bool, true, false, not,
  Option, none, some, List,
}
use v91_core_system.Prelude.Float.{Floats}
use v91_core_system.Prelude.Int.{ℤ, ltb_ℤ, ◌≤ℤ◌}
use v91_core_system.Prelude.Result.{
  Result, ok, err, raise_if, or_raise, >>=-eq-ok, ◌>>◌, Result-cases,
}
use v91_core_system.Prelude.Text.{count_chars}
use v91_core_system.Prelude.Value.{
  as_str, Value, null, bool, int, float, str, list, dict, Fields, get, get_value, without,
}
use v91_core_system.Manifest.Receipts.{Ed25519}
use v91_core_system.Manifest.Signing.{
  Clock, Reason, bad_algorithm, malformed_signature, signature_failed, structural_reason, Verdict,
  valid, ManifestError, parse_instant, validate_structure, value_of, read_signature, check_signed,
  is_member, check_window, check_times, verify_manifest,
}

ok_inj : {a b : Verdict} → ◌≡◌ {A = Result ManifestError Verdict} (ok a) (ok b) → a ≡ b
ok_inj h = cc

named :
    (name : String) (u : Unit {0})
    → raise_if (not (name == "Ed25519")) bad_algorithm ≡ ok u
    → name ≡ "Ed25519"
named name u h = ground (arith, eq_iff name "Ed25519")

sized :
    (s value : String)
    → (raise_if (not (eqb (count_chars s) 128)) malformed_signature >> ok s) ≡ ok value
    → (s ≡ value) × (count_chars s ≡ 128)
sized s value h = (ground arith, ground arith)

module _ ⦃fl : Floats⦄ (clock : Clock) (c : Ed25519 fl.Carrier) where
  -- A signature of the algorithm, whose value has 128 characters.
  pub record IsSignature (v : Option (Value fl.Carrier)) (value : String) : Type 0 where
    pub fields : Fields fl.Carrier
    pub given : v ≡ some (dict fields)
    pub algorithm : get_value "algorithm" fields ≡ str "Ed25519"
    pub text : get_value "value" fields ≡ str value
    pub size : count_chars value ≡ 128

  -- The signature is that of the rest of the manifest under the key.
  pub record IsSigned (m : Fields fl.Carrier) (key : c.PublicKey) : Type 0 where
    pub value : String
    pub signature : IsSignature (get "signature" m) value
    pub structure : validate_structure clock (without "signature" m) ≡ ok tt
    pub authentic : c.verify key value (c.canonical (without "signature" m)) ≡ true

  -- The time lies in the window and no identifier is revoked.
  pub record IsCurrent (m : Fields fl.Carrier) (now : Value fl.Carrier) (nodes keys : List String)
      : Type 0 where
    pub time : ℤ
    pub issued : ℤ
    pub expires : ℤ
    pub now_is : parse_instant clock now ≡ ok time
    pub issued_at : parse_instant clock (get_value "issued_at" m) ≡ ok issued
    pub expires_at : parse_instant clock (get_value "expires_at" m) ≡ ok expires
    pub begun : issued ≤ℤ time
    pub not_over : time ≤ℤ expires
    pub node : is_member clock c (get_value "node_id" m) nodes ≡ false
    pub key : is_member clock c (get_value "key_id" m) keys ≡ false

  or_raise-str :
      (v : Value fl.Carrier) (e : Reason) (s : String) → or_raise (as_str v) e ≡ ok s → v ≡ str s
  or_raise-str (str s) e t h = cc
  or_raise-str null e t h = cc
  or_raise-str (bool b) e t h = cc
  or_raise-str (int n) e t h = cc
  or_raise-str (float x) e t h = cc
  or_raise-str (list l) e t h = cc
  or_raise-str (dict d) e t h = cc

  value_of_ok :
      (algorithm text : Value fl.Carrier) (value : String)
      → value_of clock c algorithm text ≡ ok value
      → (algorithm ≡ str "Ed25519") × (text ≡ str value) × (count_chars value ≡ 128)
  value_of_ok algorithm text value h =
      let (name, e1, h1) = >>=-eq-ok (or_raise (as_str algorithm) bad_algorithm) _ h in
      let (u, e2, h2) = >>=-eq-ok (raise_if (not (name == "Ed25519")) bad_algorithm) _ h1 in
      let (s, e3, h3) = >>=-eq-ok (or_raise (as_str text) malformed_signature) _ h2 in
      (
        or_raise-str algorithm bad_algorithm name e1 ∙ ap (λ x. str x) (named name u e2),
        or_raise-str text malformed_signature s e3 ∙ ap (λ x. str x) (sized s value h3).0,
        ap (λ x. count_chars x) (sym (sized s value h3).0) ∙ (sized s value h3).1,
      )

  read_signature-IsSignature :
      (v : Option (Value fl.Carrier)) (value : String)
      → read_signature clock c v ≡ ok value
      → IsSignature v value
  unfolding read_signature
  read_signature-IsSignature (some (dict d)) value h =
      let (algorithm, text, size) =
        value_of_ok (get_value "algorithm" d) (get_value "value" d) value h in
      record { fields = d; given = refl; algorithm = algorithm; text = text; size = size }
  read_signature-IsSignature none value h = cc
  read_signature-IsSignature (some null) value h = cc
  read_signature-IsSignature (some (bool b)) value h = cc
  read_signature-IsSignature (some (int n)) value h = cc
  read_signature-IsSignature (some (float x)) value h = cc
  read_signature-IsSignature (some (str s)) value h = cc
  read_signature-IsSignature (some (list l)) value h = cc

  IsSignature-read_signature :
      (v : Option (Value fl.Carrier)) (value : String)
      → IsSignature v value
      → read_signature clock c v ≡ ok value
  unfolding read_signature
  IsSignature-read_signature v value h = rw (h.given, h.algorithm, h.text, h.size) (refl)

  structural_ok :
      (r : Result ManifestError (Unit {0})) (u : Unit {0})
      → structural_reason clock c r ≡ ok u
      → r ≡ ok tt
  structural_ok (ok u) v h = refl
  structural_ok (err e) v h = cc

  verified : (b : Bool) → raise_if (not b) signature_failed ≡ ok tt → b ≡ true
  verified b h = ground arith

  check_signed-IsSigned :
      (m : Fields fl.Carrier) (key : c.PublicKey)
      → check_signed clock c m key ≡ ok tt
      → IsSigned m key
  unfolding check_signed
  check_signed-IsSigned m key h =
      let (value, e1, h1) = >>=-eq-ok (read_signature clock c (get "signature" m)) _ h in
      let (u, e2, h2) =
        >>=-eq-ok (structural_reason clock c (validate_structure clock (without "signature" m))) _
          h1 in
      record {
        value = value;
        signature = read_signature-IsSignature (get "signature" m) value e1;
        structure = structural_ok (validate_structure clock (without "signature" m)) u e2;
        authentic = verified (c.verify key value (c.canonical (without "signature" m))) h2;
      }

  IsSigned-check_signed :
      (m : Fields fl.Carrier) (key : c.PublicKey)
      → IsSigned m key
      → check_signed clock c m key ≡ ok tt
  unfolding check_signed
  IsSigned-check_signed m key h =
      rw
        (
          IsSignature-read_signature (get "signature" m) h.value h.signature,
          h.structure,
          h.authentic,
        )
        (refl)

  check_window_valid :
      (now issued expires : ℤ) (m : Fields fl.Carrier) (nodes keys : List String)
      → check_window clock c now issued expires m nodes keys ≡ valid
      → (issued ≤ℤ now)
        × (now ≤ℤ expires)
        × (is_member clock c (get_value "node_id" m) nodes ≡ false)
        × (is_member clock c (get_value "key_id" m) keys ≡ false)
  unfolding check_window
  check_window_valid now issued expires m nodes keys h =
      let node = is_member clock c (get_value "node_id" m) nodes in
      let key = is_member clock c (get_value "key_id" m) keys in
      (ground arith, ground arith, ground arith, ground arith)

  check_times-IsCurrent :
      (now : Value fl.Carrier) (m : Fields fl.Carrier) (nodes keys : List String)
      → check_times clock c now m nodes keys ≡ ok valid
      → IsCurrent m now nodes keys
  unfolding check_window
  check_times-IsCurrent now m nodes keys h =
      let (n, e1, h1) = >>=-eq-ok (parse_instant clock now) _ h in
      let (i, e2, h2) = >>=-eq-ok (parse_instant clock (get_value "issued_at" m)) _ h1 in
      let (x, e3, h3) = >>=-eq-ok (parse_instant clock (get_value "expires_at" m)) _ h2 in
      let (begun, not_over, node, key) = check_window_valid n i x m nodes keys (ok_inj h3) in
      record {
        time = n;
        issued = i;
        expires = x;
        now_is = e1;
        issued_at = e2;
        expires_at = e3;
        begun = begun;
        not_over = not_over;
        node = node;
        key = key;
      }

  IsCurrent-check_times :
      (now : Value fl.Carrier) (m : Fields fl.Carrier) (nodes keys : List String)
      → IsCurrent m now nodes keys
      → check_times clock c now m nodes keys ≡ ok valid
  unfolding check_window
  IsCurrent-check_times now m nodes keys h =
      let early : ltb_ℤ h.time h.issued ≡ false = (let b = h.begun in ground arith) in
      let late : ltb_ℤ h.expires h.time ≡ false = (let b = h.not_over in ground arith) in
      rw (h.now_is, h.issued_at, h.expires_at, early, late, h.node, h.key) (refl)

  -- A manifest is valid exactly if it is signed and current.
  pub valid_exact :
      (m : Fields fl.Carrier) (key : c.PublicKey) (now : Value fl.Carrier)
      (nodes keys : List String)
      → (verify_manifest clock c (dict m) key now nodes keys ≡ ok valid)
        ↔ (IsSigned m key × IsCurrent m now nodes keys)
  unfolding verify_manifest
  valid_exact m key now nodes keys = elim (Result-cases (check_signed clock c m key)) [
    | inl (r, e) ↦ (
      λ h. absurd (ground (arith, e)),
      λ x. let f = IsSigned-check_signed m key x.0 in absurd (ground (arith, e)),
    )
    | inr (u, e) ↦ (
      λ h. (
        check_signed-IsSigned m key e,
        check_times-IsCurrent now m nodes keys (ground (arith, e)),
      ),
      λ x. rw (verify_manifest, e) (IsCurrent-check_times now m nodes keys x.1),
    )
  ]
