-- ===== src/PeerStore/Tests.antt =====
-- Concrete runs of controller/peer_store.py, with fixed digests, and the
-- theorem at inputs.
use v91_core_system.Prelude.{◌≡◌, refl, true, false, none, some, [], ◌∷◌}
use v91_core_system.Prelude.Dict.{lookup, insert}
use v91_core_system.Prelude.Int.{ℤ}
use v91_core_system.Prelude.Objects.{put}
use v91_core_system.Prelude.Result.{ok, err}
use v91_core_system.Prelude.Text.{is_blank, is_space}
use v91_core_system.Prelude.Value.{str, dict, Fields}
use v91_core_system.PeerStore.Retrieval.{store_all, retrieve-store}
use v91_core_system.PeerStore.Store.{
  Hashes, ObjectStore, no_opt_in, bad_mac, canonical_receipt, open_store, unsigned, store,
  is_available, retrieve,
}

-- Every text has the same digests.
abbrev toy : Hashes ℤ
toy = record {
  sha256 = λ b. "ab12";
  hmac = λ secret text. "cd34";
  text_of = λ v. elim v [ str s ↦ s | _ ↦ "" ];
}

abbrev fresh : ObjectStore
fresh = record { store_id = "store"; secret = "0123456789abcdef0123456789abcdef"; objects = [] }

abbrev kept : ObjectStore
kept = record fresh { objects = ("ab12", "bytes") ∷ [] }

abbrev receipt : Fields ℤ
receipt = put "receipt_mac" (str "cd34") (unsigned toy "ab12" "owner" "store")

opened : open_store {F = ℤ} (str "store") (some "0123456789abcdef0123456789abcdef") true ≡ ok fresh
unfolding open_store is_blank is_space
opened = refl

not_asked :
    open_store {F = ℤ} (str "store") (some "0123456789abcdef0123456789abcdef") false ≡ err no_opt_in
unfolding open_store
not_asked = refl

stored : store toy (some "bytes") (str "owner") fresh ≡ (ok receipt, kept)
unfolding store canonical_receipt lookup insert put is_blank is_space
stored = refl

there : is_available toy "ab12" kept ≡ true
unfolding is_available lookup
there = refl

forged :
    retrieve toy (dict (put "receipt_mac" (str "00") (unsigned toy "ab12" "owner" "store"))) kept
    ≡ err bad_mac
unfolding retrieve canonical_receipt put
forged = refl

retrieve-store_example :
    retrieve toy
      (dict receipt)
      (store_all toy ((some "other", str "owner") ∷ (none, str "owner") ∷ []) kept)
    ≡ ok "bytes"
retrieve-store_example =
    retrieve-store toy "bytes" (str "owner") fresh kept receipt
      ((some "other", str "owner") ∷ (none, str "owner") ∷ []) stored (λ v. refl) (λ k t. refl)
      (λ b. refl)
