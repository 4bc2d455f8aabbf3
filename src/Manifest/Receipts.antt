-- ===== src/Manifest/Receipts.antt =====
-- controller/crypto_receipts.py: `sign_record` and `verify_record_signature`. The library's Ed25519
-- and `json.dumps` are a parameter.
use v91_core_system.Prelude.{eqb, String, Bool, false, not, Option, none, some, if◌then◌else◌}
use v91_core_system.Prelude.Result.{Result, ok, err, raise_if, ◌>>◌}
use v91_core_system.Prelude.Text.{count_chars}
use v91_core_system.Prelude.Value.{Value, str, dict, Fields, get_value, has, without}

pub record Ed25519 (F : Type 0) : Type 1 where
  pub PrivateKey : Type 0
  pub PublicKey : Type 0
  -- bytes, 32 of them
  pub is_private : PrivateKey → Bool
  pub is_public : PublicKey → Bool
  -- the signature of the bytes of a text, in hexadecimal
  pub sign : PrivateKey → String → String
  -- `bytes.fromhex` and `verify` of a key of the right size, with `false` for an exception
  pub verify : PublicKey → String → String → Bool
  -- `canonical_record_bytes`, as a text
  pub canonical : Fields F → String

pub data ReceiptError : Type 0 where
  not_object already_signed bad_key : ReceiptError

module _ {F : Type 0} (c : Ed25519 F) where
  unfoldable pub sign_record : Value F → c.PrivateKey → Result ReceiptError String
  sign_record (dict d) key =
      raise_if (has "receipt_signature" d) already_signed
      >> raise_if (not (c.is_private key)) bad_key
      >> ok (c.sign key (c.canonical d))
  sign_record _ key = err not_object

  -- A text of 128 characters.
  abbrev pub as_signature : Value F → Option String
  as_signature (str s) = if not (eqb (count_chars s) 128) then none else some s
  as_signature _ = none

  abbrev check_signature : Fields F → c.PublicKey → Option String → Bool
  check_signature unsigned key none = false
  check_signature unsigned key (some s) =
      if not (c.is_public key) then false else c.verify key s (c.canonical unsigned)

  unfoldable pub verify_record_signature : Value F → c.PublicKey → Bool
  verify_record_signature (dict d) key =
      check_signature (without "receipt_signature" d) key
        (as_signature (get_value "receipt_signature" d))
  verify_record_signature _ key = false
