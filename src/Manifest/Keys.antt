-- ===== src/Manifest/Keys.antt =====
-- controller/trusted_peer_registry.py: `resolve_trusted_ed25519_key`. base64 is a parameter.
use v91_core_system.Prelude.{
  eqb, ◌==◌, ℕ, String, Bool, true, false, Option, none, some, List, length,
}
use v91_core_system.Prelude.Value.{Value, str, Fields, get_value, as_dict, as_text, as_nonempty}

infixl 5 ◌>>=◌ ◌>>◌
abbrev pub ◌>>=◌ {ℓ κ} : {A : Type ℓ} {B : Type κ} → Option A → (A → Option B) → Option B
none >>= f = none
some a >>= f = f a

abbrev pub ◌>>◌ {κ} : {B : Type κ} → Option (Unit {0}) → Option B → Option B
m >> k = m >>= λ _. k

-- `return None` unless the test holds.
abbrev pub unless_none : Bool → Option (Unit {0})
unless_none true = some tt
unless_none false = none

module _ {F : Type 0} where
  abbrev pub is_text : String → Value F → Bool
  is_text t (str s) = s == t
  is_text t _ = false

-- `b64decode` gives the bytes of a text in base64, with `none` for an exception.
module _ {F : Type 0} (b64decode : String → Option (List ℕ)) where
  -- The key of an entry that is active and for Ed25519.
  unfoldable pub key_of : Fields F → Option (List ℕ)
  key_of entry = do
    unless_none (is_text "active" (get_value "status" entry))
    unless_none (is_text "Ed25519" (get_value "algorithm" entry))
    encoded ← as_nonempty (get_value "public_key_b64" entry)
    raw ← b64decode encoded
    unless_none (eqb (length raw) 32)
    some raw

  unfoldable pub resolve_trusted_ed25519_key : Value F → Value F → Value F → Option (List ℕ)
  unfolding key_of
  resolve_trusted_ed25519_key registry peer_id key_id = do
    g ← as_dict registry
    peer ← as_text peer_id
    key ← as_text key_id
    peers ← as_dict (get_value "peers" g)
    known ← as_dict (get_value peer peers)
    keys ← as_dict (get_value "keys" known)
    entry ← as_dict (get_value key keys)
    key_of entry
