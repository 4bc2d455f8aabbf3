-- ===== src/PeerSync/Tests.antt =====
-- Concrete runs of controller/peer_sync.py, with whole seconds, and the theorems at inputs.
use v91_core_system.Prelude.{String, ◌≡◌, refl, true, false, some, [], ◌∷◌}
use v91_core_system.Prelude.Dict.{lookup, insert}
use v91_core_system.Prelude.Float.{whole}
use v91_core_system.Prelude.Int.{ℤ, pos, ◌+ℤ◌, ◌-ℤ◌, ◌<ℤ◌}
use v91_core_system.Prelude.Result.{ok, err}
use v91_core_system.Prelude.Value.{int, str, list, nil, cons, Fields, end, field}
use v91_core_system.PeerSync.Message.{
  Crypto, check_message, has_required_fields, overflow, verified,
}
use v91_core_system.PeerSync.Registry.{
  Limits, Registry, PeerResult, alive_verified, accept, authenticate, received, receive, run,
}
use v91_core_system.PeerSync.Replay.{no_replay}

-- A keyed text of 64 characters in the place of HMAC-SHA256.
abbrev keyed : Crypto ℤ
keyed = record {
  Secret = String;
  mac = λ secret fs. secret;
  is_key = λ secret. true;
  in_float_range = λ n. true;
}

-- No integer fits into a float.
abbrev narrow : Crypto ℤ
narrow = record keyed { in_float_range = λ n. false }

abbrev secret : String
secret = "0123456789abcdef0123456789abcdef0123456789abcdef0123456789abcdef"

abbrev limits : Limits ⦃fl = whole⦄ keyed
limits = record {
  trusted_keys = ("key", ("peer", secret)) ∷ [];
  max_age = pos 90;
  future_skew = pos 15;
}

abbrev empty : Registry ℤ
empty = record { last_sequence = []; states = []; accepted_at = [] }

abbrev heartbeat : ℤ → ℤ → Fields ℤ
heartbeat n t = field "schema_version" (int (pos 1)) (
    field "peer_id" (str "peer") (
      field "key_id" (str "key") (
        field "sequence" (int n) (
          field "timestamp" (int t) (
            field "software_version" (str "1.0") (
              field "capabilities" (list (cons (str "cpu") nil))
                (field "state" (str "READY") (field "signature" (str secret) end))))))))

abbrev alive : ℤ → PeerResult
alive n = record {
  peer_id = some "peer";
  state = alive_verified;
  reason = verified;
  sequence = some n;
}

abbrev after : ℤ → ℤ → Registry ℤ
after n t = record {
  last_sequence = ("peer", n) ∷ [];
  states = ("peer", alive n) ∷ [];
  accepted_at = ("peer", t) ∷ [];
}

receive_first :
    receive ⦃fl = whole⦄ keyed limits (heartbeat (pos 1) (pos 100)) (pos 101) empty
    ≡ (ok (alive (pos 1)), after (pos 1) (pos 101))
unfolding receive check_message has_required_fields received authenticate accept lookup insert ◌+ℤ◌
    ◌-ℤ◌
receive_first = refl

receive_second :
    receive ⦃fl = whole⦄ keyed limits
      (heartbeat (pos 2) (pos 110))
      (pos 110)
      (after (pos 1) (pos 101))
    ≡ (ok (alive (pos 2)), after (pos 2) (pos 110))
unfolding receive check_message has_required_fields received authenticate accept lookup insert ◌+ℤ◌
    ◌-ℤ◌
receive_second = refl

-- An integer that no float holds, in a message that nobody signed.
overflow_test :
    receive ⦃fl = whole⦄ narrow
      (record { trusted_keys = []; max_age = pos 90; future_skew = pos 15 })
      (heartbeat (pos 1) (pos 100))
      (pos 101)
      empty
    ≡ (err overflow, empty)
unfolding receive check_message has_required_fields received
overflow_test = refl

no_replay_example : pos 1 <ℤ pos 2
unfolding run
no_replay_example =
    no_replay ⦃fl = whole⦄ keyed limits "peer" (pos 1) (pos 2) (heartbeat (pos 1) (pos 100))
      (heartbeat (pos 2) (pos 110)) (pos 101) (pos 110) [] empty (after (pos 1) (pos 101))
      (after (pos 2) (pos 110)) (alive (pos 1)) (alive (pos 2)) receive_first receive_second
      (λ e. cc) (λ e. cc) refl refl refl refl
