-- ===== src/PeerSync/Registry.antt =====
-- controller/peer_sync.py: `PeerRegistry`. The time of a call is its argument; what a call leaves in
-- the registry comes back beside its result.
use v91_core_system.Prelude.{
  ◌==◌, String, Bool, true, false, not, Option, none, some, List, [], ◌∷◌, if◌then◌else◌,
}
use v91_core_system.Prelude.Dict.{Dict, lookup, get_or, insert}
use v91_core_system.Prelude.Float.{Floats}
use v91_core_system.Prelude.Int.{ℤ, pos, leb_ℤ}
use v91_core_system.Prelude.Result.{Result, ok, err}
use v91_core_system.Prelude.Text.{is_ascii}
use v91_core_system.Prelude.Value.{Fields}
use v91_core_system.PeerSync.Message.{
  Reason, overflow, incomparable, unknown_key, key_not_bound, bad_key_material, bad_signature,
  in_future, replayed, too_old, verified, unseen, Crypto, Checked, check_message, unsigned,
}

pub data PeerState : Type 0 where
  invalid stale alive_verified : PeerState

pub record PeerResult : Type 0 where
  pub peer_id : Option String
  pub state : PeerState
  pub reason : Reason
  pub sequence : Option ℤ

pub record Registry (F : Type 0) : Type 0 where
  pub last_sequence : Dict ℤ
  pub states : Dict PeerResult
  pub accepted_at : Dict F

abbrev pub is_alive : PeerState → Bool
is_alive alive_verified = true
is_alive _ = false

abbrev pub refuse : {F : Type 0} → Checked F → Reason → PeerResult
refuse m r = record {
  peer_id = some m.peer_id;
  state = invalid;
  reason = r;
  sequence = some m.sequence;
}

module _ ⦃fl : Floats⦄ (c : Crypto fl.Carrier) where
  -- The arguments of the constructor.
  pub record Limits : Type 0 where
    pub trusted_keys : Dict (String × c.Secret)
    pub max_age : fl.Carrier
    pub future_skew : fl.Carrier

  module _ (p : Limits) where
    -- The end of `receive`: the sequence is new, and counts from here on.
    unfoldable pub accept :
        Checked fl.Carrier
        → fl.Carrier
        → fl.Carrier
        → Registry fl.Carrier
        → PeerResult × Registry fl.Carrier
    accept m age now g =
        let result : PeerResult = record {
          peer_id = some m.peer_id;
          state = if fl.lt p.max_age age then stale else alive_verified;
          reason = if fl.lt p.max_age age then too_old else verified;
          sequence = some m.sequence;
        } in
        (
          result,
          record {
            last_sequence = insert m.peer_id m.sequence g.last_sequence;
            states = insert m.peer_id result g.states;
            accepted_at =
                if fl.lt p.max_age age then g.accepted_at else insert m.peer_id now g.accepted_at;
          },
        )

    -- `receive` after the shape of the message is checked, with the entry of its key.
    unfoldable pub authenticate :
        Fields fl.Carrier
        → Checked fl.Carrier
        → Option (String × c.Secret)
        → fl.Carrier
        → Registry fl.Carrier
        → Result Reason PeerResult × Registry fl.Carrier
    unfolding accept
    authenticate fields m none now g = (ok (refuse m unknown_key), g)
    authenticate fields m (some (peer, secret)) now g =
        let age = fl.sub now m.timestamp in
        if not (m.peer_id == peer)
        then (ok (refuse m key_not_bound), g)
        else if not (c.is_key secret)
        then (ok (refuse m bad_key_material), g)
        else if not (is_ascii m.signature)
        then (err incomparable, g)
        else if not (m.signature == c.mac secret (unsigned fields))
        then (ok (refuse m bad_signature), g)
        else if fl.lt age (fl.sub (fl.of_int (pos 0)) p.future_skew)
        then (ok (refuse m in_future), g)
        else if leb_ℤ m.sequence (get_or (pos 0) m.peer_id g.last_sequence)
        then (ok (refuse m replayed), g)
        else (ok (accept m age now g).0, (accept m age now g).1)

    -- `receive` after its `try` block has ended with `r`; an OverflowError is not caught there.
    unfoldable pub received :
        Fields fl.Carrier
        → Result Reason (Checked fl.Carrier)
        → fl.Carrier
        → Registry fl.Carrier
        → Result Reason PeerResult × Registry fl.Carrier
    unfolding authenticate
    received fields (err overflow) now g = (err overflow, g)
    received fields (err r) now g =
        (ok (record { peer_id = none; state = invalid; reason = r; sequence = none }), g)
    received fields (ok m) now g = authenticate fields m (lookup m.key_id p.trusted_keys) now g

    unfoldable pub receive :
        Fields fl.Carrier
        → fl.Carrier
        → Registry fl.Carrier
        → Result Reason PeerResult × Registry fl.Carrier
    unfolding received
    receive fields now g = received fields (check_message c fields now) now g

    -- The body of the loop of `mark_unseen_stale`, for one peer.
    unfoldable pub mark_one :
        fl.Carrier → String × PeerResult → Registry fl.Carrier → Registry fl.Carrier
    mark_one now (peer, result) g =
        if is_alive result.state
        then elim (lookup peer g.accepted_at) [
          | none ↦ g
          | some at ↦
              (if fl.lt p.max_age (fl.sub now at)
                then record g {
                  states = insert peer (record result { state = stale; reason = unseen }) g.states;
                }
                else g)
        ]
        else g

    unfoldable pub mark_all :
        fl.Carrier → List (String × PeerResult) → Registry fl.Carrier → Registry fl.Carrier
    unfolding mark_one
    mark_all now [] g = g
    mark_all now (e ∷ es) g = mark_all now es (mark_one now e g)

    unfoldable pub mark_unseen_stale : fl.Carrier → Registry fl.Carrier → Registry fl.Carrier
    unfolding mark_all
    mark_unseen_stale now g = mark_all now g.states g

    -- `receive_and_track` after `receive`.
    unfoldable pub track :
        fl.Carrier
        → Result Reason PeerResult × Registry fl.Carrier
        → Result Reason PeerResult × Registry fl.Carrier
    track now (err r, g) = (err r, g)
    track now (ok result, g) = (
      ok result,
      if is_alive result.state
          then elim result.peer_id [
            | none ↦ g
            | some peer ↦ record g { accepted_at = insert peer now g.accepted_at }
          ]
          else g,
    )

    unfoldable pub receive_and_track :
        Fields fl.Carrier
        → fl.Carrier
        → Registry fl.Carrier
        → Result Reason PeerResult × Registry fl.Carrier
    unfolding receive track
    receive_and_track fields now g = track now (receive fields now g)

    -- What a registry goes through: messages and sweeps, each at its time.
    pub data Event : Type 0 where
      message : Fields fl.Carrier → fl.Carrier → Event
      tracked : Fields fl.Carrier → fl.Carrier → Event
      sweep : fl.Carrier → Event

    unfoldable pub step : Event → Registry fl.Carrier → Registry fl.Carrier
    step (message fields now) g = (receive fields now g).1
    step (tracked fields now) g = (receive_and_track fields now g).1
    step (sweep now) g = mark_unseen_stale now g

    unfoldable pub run : List Event → Registry fl.Carrier → Registry fl.Carrier
    unfolding step
    run [] g = g
    run (e ∷ es) g = run es (step e g)
