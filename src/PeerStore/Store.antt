-- ===== src/PeerStore/Store.antt =====
-- controller/peer_store.py: `PeerObjectStore`. The bytes of an object are a text with one character for
-- each. SHA-256, HMAC and `str` are a parameter.
use v91_core_system.Prelude.{
  ltb, ◌==◌, String, Bool, false, not, ◌&&◌, Option, none, some, List, [], ◌∷◌, all, if◌then◌else◌,
}
use v91_core_system.Prelude.Dict.{Dict, lookup, insert}
use v91_core_system.Prelude.Objects.{put}
use v91_core_system.Prelude.Result.{Result, ok, err, raise_if, or_raise, ◌>>=◌, ◌>>◌}
use v91_core_system.Prelude.Text.{count_chars, is_ascii, join}
use v91_core_system.Prelude.Value.{
  Value, str, Fields, end, field, get_value, has, as_dict, as_str, as_text,
}

pub record Hashes (F : Type 0) : Type 0 where
  -- the SHA-256 of bytes, and the HMAC of a text under a secret, in hexadecimal
  pub sha256 : String → String
  pub hmac : String → String → String
  -- `str(v)`
  pub text_of : Value F → String

-- The PeerStoreErrors, and `type_error` for the TypeErrors.
pub data StoreError : Type 0 where
  no_opt_in no_store_id weak_secret not_bytes no_owner collision : StoreError
  not_object missing_key other_store bad_algorithm bad_mac not_available corrupted type_error :
      StoreError

pub record ObjectStore : Type 0 where
  pub store_id : String
  pub secret : String
  pub objects : Dict String

abbrev pub receipt_keys : List String
receipt_keys =
    "object_digest" ∷ "owner_id" ∷ "store_id" ∷ "algorithm" ∷ "encryption" ∷ "receipt_mac" ∷ []

-- `"|".join(parts)`
abbrev pub join_parts : List String → String
join_parts [] = ""
join_parts (s ∷ []) = s
join_parts (s ∷ t ∷ l) = join s (join "|" (join_parts (t ∷ l)))

module _ {F : Type 0} where
  abbrev texts_at : List String → Fields F → Option (List String)
  texts_at [] r = some []
  texts_at (k ∷ ks) r = elim (as_str (get_value k r)) [
    | none ↦ none
    | some s ↦ elim (texts_at ks r) [ none ↦ none | some l ↦ some (s ∷ l) ]
  ]

  -- `_canonical_receipt_bytes`, with `none` for the TypeError of a field that is no text.
  unfoldable pub canonical_receipt : Fields F → Option String
  canonical_receipt r =
      elim (texts_at ("object_digest" ∷ "owner_id" ∷ "store_id" ∷ "algorithm" ∷ "encryption" ∷ [])
        r) [ none ↦ none | some parts ↦ some (join_parts parts) ]

  -- `PeerObjectStore(…)` with a secret that is `none` if it is no bytes.
  unfoldable pub open_store : Value F → Option String → Bool → Result StoreError ObjectStore
  open_store id secret opt_in = do
    raise_if (not opt_in) no_opt_in
    store_id ← or_raise (as_text id) no_store_id
    key ← or_raise secret weak_secret
    raise_if (ltb (count_chars key) 32) weak_secret
    ok (record { store_id = store_id; secret = key; objects = [] })

module _ {F : Type 0} (h : Hashes F) where
  abbrev pub unsigned : String → String → String → Fields F
  unsigned digest owner id = field "object_digest" (str digest) (
      field "owner_id" (str owner) (
        field "store_id" (str id) (
          field "algorithm" (str "HMAC-SHA256")
            (field "encryption" (str "NOT_IMPLEMENTED_STDLIB_GAP") end))))

  abbrev pub mac_of : String → Fields F → Result StoreError String
  mac_of secret r = or_raise (canonical_receipt r) type_error >>= λ text. ok (h.hmac secret text)

  abbrev pub receipt_for : String → String → ObjectStore → Result StoreError (Fields F)
  receipt_for digest owner s = mac_of s.secret (unsigned digest owner s.store_id) >>= λ mac.
      ok (put "receipt_mac" (str mac) (unsigned digest owner s.store_id))

  -- Another object under the digest.
  abbrev pub collides : Option String → String → Bool
  collides none bytes = false
  collides (some old) bytes = not (old == bytes)

  abbrev pub put_object : String → String → ObjectStore → Result StoreError (Fields F) × ObjectStore
  put_object bytes owner s =
      if collides (lookup (h.sha256 bytes) s.objects) bytes then (err collision, s) else (
        receipt_for (h.sha256 bytes) owner s,
        record s { objects = insert (h.sha256 bytes) bytes s.objects },
      )

  abbrev store_for :
      String → Option String → ObjectStore → Result StoreError (Fields F) × ObjectStore
  store_for bytes none s = (err no_owner, s)
  store_for bytes (some owner) s = put_object bytes owner s

  -- `store` of data, `none` for an object that is no bytes, and its owner.
  unfoldable pub store :
      Option String → Value F → ObjectStore → Result StoreError (Fields F) × ObjectStore
  unfolding canonical_receipt
  store none owner s = (err not_bytes, s)
  store (some bytes) owner s = store_for bytes (as_text owner) s

  unfoldable pub is_available : String → ObjectStore → Bool
  is_available digest s = elim (lookup digest s.objects) [
    | none ↦ false
    | some bytes ↦ h.sha256 bytes == digest
  ]

  -- `hmac.compare_digest(expected, str(mac))`, which raises a TypeError for a text that is not ASCII.
  abbrev pub check_mac : String → String → Result StoreError (Unit {0})
  check_mac expected mac =
      raise_if (not (is_ascii expected && is_ascii mac)) type_error
      >> raise_if (not (expected == mac)) bad_mac

  -- The end of `retrieve`: the object under the digest of the receipt.
  abbrev pub fetch : String → ObjectStore → Result StoreError String
  fetch digest s = do
    bytes ← or_raise (lookup digest s.objects) not_available
    raise_if (not (is_ascii (h.sha256 bytes) && is_ascii digest)) type_error
    raise_if (not (h.sha256 bytes == digest)) corrupted
    ok bytes

  abbrev pub is_text : String → Value F → Bool
  is_text t (str s) = s == t
  is_text t _ = false

  unfoldable pub retrieve : Value F → ObjectStore → Result StoreError String
  retrieve v s = do
    r ← or_raise (as_dict v) not_object
    raise_if (not (all (λ k. has k r) receipt_keys)) missing_key
    raise_if (not (is_text s.store_id (get_value "store_id" r))) other_store
    raise_if (not (is_text "HMAC-SHA256" (get_value "algorithm" r))) bad_algorithm
    expected ← mac_of s.secret r
    check_mac expected (h.text_of (get_value "receipt_mac" r))
    digest ← or_raise (as_str (get_value "object_digest" r)) type_error
    fetch digest s
