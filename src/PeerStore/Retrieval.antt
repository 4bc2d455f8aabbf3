-- ===== src/PeerStore/Retrieval.antt =====
-- What the store of controller/peer_store.py gives back for a receipt.
use v91_core_system.Prelude.{
  ◌==◌, eq_iff, eq_refl, String, ◌≡◌, refl, sym, ap, ◌∙◌, inl, inr, ◌⊎◌, true, false, Option, none,
  some, List, [], ◌∷◌, arith, Bool-cases, Option-cases, if_cases,
}
use v91_core_system.Prelude.Dict.{lookup, insert, lookup-insert, lookup-insert_self}
use v91_core_system.Prelude.Objects.{put}
use v91_core_system.Prelude.Result.{Result, ok, err, >>=-eq-ok}
use v91_core_system.Prelude.Text.{is_ascii}
use v91_core_system.Prelude.Value.{Value, str, dict, Fields, as_text}
use v91_core_system.PeerStore.Store.{
  Hashes, StoreError, collision, ObjectStore, unsigned, mac_of, collides, put_object,
  canonical_receipt, store, retrieve,
}

module _ {F : Type 0} (h : Hashes F) where
  collides_same :
      (o : Option String) (bytes : String)
      → collides h o bytes ≡ false
      → (o ≡ none) ⊎ (o ≡ some bytes)
  collides_same none bytes e = inl refl
  collides_same (some old) bytes e = inr (ap (λ x. some x) (ground (arith, eq_iff old bytes)))

  -- An object that is there stays under its digest.
  put_object_keeps :
      (bytes owner digest old : String) (s : ObjectStore)
      → lookup digest s.objects ≡ some old
      → lookup digest (put_object h bytes owner s).1.objects ≡ some old
  put_object_keeps bytes owner digest old s e =
      if_cases
        (λ (out : Result StoreError (Fields F) × ObjectStore).
          lookup digest out.1.objects ≡ some old)
        (collides h (lookup (h.sha256 bytes) s.objects) bytes) (λ _. e)
        λ fine. elim (Bool-cases (h.sha256 bytes == digest)) [
          | inr other ↦ ground (arith, other, lookup-insert (h.sha256 bytes) digest bytes s.objects)
          | inl same ↦
              (let id = (eq_iff (h.sha256 bytes) digest).0 same in
                elim (collides_same (lookup (h.sha256 bytes) s.objects) bytes fine) [
                  | inl gone ↦ absurd (let k = ap (λ d. lookup d s.objects) id in cc)
                  | inr there ↦
                      ap (λ d. lookup digest (insert d bytes s.objects)) id
                      ∙ lookup-insert_self digest bytes s.objects
                      ∙ sym there
                      ∙ ap (λ d. lookup d s.objects) id
                      ∙ e
                ])
        ]

  store_keeps :
      (bytes : Option String) (owner : Value F) (digest old : String) (s : ObjectStore)
      → lookup digest s.objects ≡ some old
      → lookup digest (store h bytes owner s).1.objects ≡ some old
  unfolding store
  store_keeps none owner digest old s e = e
  store_keeps (some bytes) owner digest old s e = elim (Option-cases (as_text owner)) [
    | inl f ↦ rw (store, f) (e)
    | inr (o, f) ↦ rw (store, f) (put_object_keeps bytes o digest old s e)
  ]

  put_object_same :
      (bytes owner : String) (s : ObjectStore)
      → ((put_object h bytes owner s).1.store_id ≡ s.store_id)
        × ((put_object h bytes owner s).1.secret ≡ s.secret)
  put_object_same bytes owner s = (ground arith, ground arith)

  store_same :
      (bytes : Option String) (owner : Value F) (s : ObjectStore)
      → ((store h bytes owner s).1.store_id ≡ s.store_id)
        × ((store h bytes owner s).1.secret ≡ s.secret)
  unfolding store
  store_same none owner s = (refl, refl)
  store_same (some bytes) owner s = elim (Option-cases (as_text owner)) [
    | inl f ↦ rw (store, f) (refl, refl)
    | inr (o, f) ↦ rw (store, f) (put_object_same bytes o s)
  ]

  -- The calls of `store` one after another, those that raise among them.
  unfoldable pub store_all : List (Option String × Value F) → ObjectStore → ObjectStore
  store_all [] s = s
  store_all ((bytes, owner) ∷ calls) s = store_all calls (store h bytes owner s).1

  -- What a receipt is to a store: its own, with the digest under which the bytes stand.
  record IsReceipt (r : Fields F) (bytes owner : String) (s : ObjectStore) : Type 0 where
    mac : String
    keyed : mac_of h s.secret (unsigned h (h.sha256 bytes) owner s.store_id) ≡ ok mac
    made : put "receipt_mac" (str mac) (unsigned h (h.sha256 bytes) owner s.store_id) ≡ r
    stands : lookup (h.sha256 bytes) s.objects ≡ some bytes

  refused :
      (s s' : ObjectStore) (r : Fields F)
      → ¬ (◌≡◌ {A = Result StoreError (Fields F)} (err collision) (ok r))
  refused s s' r e = cc

  ok_inj : {a b : Fields F} → ◌≡◌ {A = Result StoreError (Fields F)} (ok a) (ok b) → a ≡ b
  ok_inj e = cc

  put_object-IsReceipt :
      (bytes owner : String) (s s' : ObjectStore) (r : Fields F)
      → put_object h bytes owner s ≡ (ok r, s')
      → IsReceipt r bytes owner s'
  put_object-IsReceipt bytes owner s s' r =
      if_cases
        (λ (x : Result StoreError (Fields F) × ObjectStore).
          x ≡ (ok r, s') → IsReceipt r bytes owner s')
        (collides h (lookup (h.sha256 bytes) s.objects) bytes)
        (λ _ e. absurd (refused s s' r (ap (λ x. x.0) e)))
        λ _ e.
          let (mac, keyed, made) =
            >>=-eq-ok (mac_of h s.secret (unsigned h (h.sha256 bytes) owner s.store_id)) _
              (ap (λ x. x.0) e) in
          rw (← ap (λ x. x.1) e) (record {
            mac = mac;
            keyed = keyed;
            made = ok_inj made;
            stands = lookup-insert_self (h.sha256 bytes) bytes s.objects;
          })

  mac_inj : (a b : String) → ◌≡◌ {A = Result StoreError String} (ok a) (ok b) → a ≡ b
  mac_inj a b e = cc

  IsReceipt-retrieve :
      (bytes owner : String) (s : ObjectStore) (r : Fields F)
      → ((v : String) → h.text_of (str v) ≡ v)
      → ((k t : String) → is_ascii (h.hmac k t) ≡ true)
      → ((b : String) → is_ascii (h.sha256 b) ≡ true)
      → IsReceipt r bytes owner s
      → retrieve h (dict r) s ≡ ok bytes
  unfolding retrieve canonical_receipt put
  IsReceipt-retrieve bytes owner s r text ascii hex w =
      let k = mac_inj (h.hmac s.secret _) w.mac w.keyed in
      let plain : is_ascii w.mac ≡ true = rw (← k) (ascii s.secret _) in
      rw
        (
          ← w.made,
          eq_refl s.store_id,
          k,
          text w.mac,
          plain,
          eq_refl w.mac,
          w.stands,
          hex bytes,
          eq_refl (h.sha256 bytes),
        )
        (refl)

  IsReceipt-store :
      (r : Fields F) (bytes owner : String) (s : ObjectStore) (other : Option String) (by : Value F)
      → IsReceipt r bytes owner s
      → IsReceipt r bytes owner (store h other by s).1
  IsReceipt-store r bytes owner s other by w =
      let (id, secret) = store_same other by s in
      record {
        mac = w.mac;
        keyed = rw (id, secret) (w.keyed);
        made = rw id (w.made);
        stands = store_keeps other by (h.sha256 bytes) bytes s w.stands;
      }

  IsReceipt-store_all :
      (calls : List (Option String × Value F)) (r : Fields F) (bytes owner : String)
      (s : ObjectStore)
      → IsReceipt r bytes owner s
      → IsReceipt r bytes owner (store_all calls s)
  unfolding store_all
  IsReceipt-store_all [] r bytes owner s w = w
  IsReceipt-store_all ((other, by) ∷ calls) r bytes owner s w =
      IsReceipt-store_all calls r bytes owner (store h other by s).1
        (IsReceipt-store r bytes owner s other by w)

  store-IsReceipt :
      (bytes : String) (by : Value F) (s s' : ObjectStore) (r : Fields F)
      → store h (some bytes) by s ≡ (ok r, s')
      → (owner : String) × IsReceipt r bytes owner s'
  unfolding store
  store-IsReceipt bytes by s s' r e = elim (Option-cases (as_text by)) [
    | inl f ↦ absurd (ground (arith, f, e))
    | inr (owner, f) ↦ (owner, put_object-IsReceipt bytes owner s s' r (ground (arith, f, e)))
  ]

  -- An object that is stored is given back for its receipt after any later calls of store, if `str`
  -- leaves texts as they are and digests are ASCII.
  pub retrieve-store :
      (bytes : String) (by : Value F) (s s' : ObjectStore) (r : Fields F)
      (calls : List (Option String × Value F))
      → store h (some bytes) by s ≡ (ok r, s')
      → ((v : String) → h.text_of (str v) ≡ v)
      → ((k t : String) → is_ascii (h.hmac k t) ≡ true)
      → ((b : String) → is_ascii (h.sha256 b) ≡ true)
      → retrieve h (dict r) (store_all calls s') ≡ ok bytes
  retrieve-store bytes by s s' r calls e text ascii hex =
      let (owner, w) = store-IsReceipt bytes by s s' r e in
      IsReceipt-retrieve bytes owner (store_all calls s') r text ascii hex
        (IsReceipt-store_all calls r bytes owner s' w)
