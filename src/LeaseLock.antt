-- ===== src/LeaseLock.antt =====
-- controller/lease_lock.py: expiring leases with fencing tokens. A call reads the clock at most
-- once, so the time that it reads is an argument; what it leaves in the manager comes back beside
-- its result, after a raise too. Arguments have the types of the source's annotations, and the
-- tokens, which the manager issues from 1 on, are natural numbers.
use v91_core_system.Prelude.{
  ℕ, ◌+◌, ltb, eqb, String, Bool, true, false, not, ◌&&◌, ◌||◌, Option, none, some, [], List, ◌∷◌,
  ◌==◌, if◌then◌else◌,
}
use v91_core_system.Prelude.Dict.{Dict, lookup, get_or, insert, erase}
use v91_core_system.Prelude.Float.{Floats}
use v91_core_system.Prelude.Int.{pos}
use v91_core_system.Prelude.Text.{is_blank}
use v91_core_system.Prelude.Result.{Result, ok, err}
pub mod Tokens
pub mod Exclusion
mod Tests

pub data LeaseLockError : Type 0 where
  lock_id_blank holder_id_blank bad_duration not_holder expired no_lease : LeaseLockError

pub record Lease (T : Type 0) : Type 0 where
  pub lock_id : String
  pub holder_id : String
  pub fencing_token : ℕ
  pub expires_at : T

pub record Manager (T : Type 0) : Type 0 where
  pub leases : Dict (Lease T)
  pub last_token : Dict ℕ

abbrev pub init : {T : Type 0} → Manager T
init = record { leases = []; last_token = [] }

-- A call: its result, and the manager after it.
abbrev pub Call : Type 0 → Type 0 → Type 0
Call T A = Result LeaseLockError A × Manager T

module _ {T : Type 0} where
  abbrev pub raise : {A : Type 0} → LeaseLockError → Manager T → Call T A
  raise e m = (err e, m)

  -- `lease.holder_id != holder_id or lease.fencing_token != fencing_token`, negated
  unfoldable pub is_held_by : Lease T → String → ℕ → Bool
  is_held_by l holder token = l.holder_id == holder && eqb l.fencing_token token

  unfoldable pub current : String → Manager T → Option (Lease T)
  current lock m = lookup lock m.leases

  unfoldable pub is_fenced : String → ℕ → Manager T → Bool
  is_fenced lock token m = ltb token (get_or 0 lock m.last_token)

  -- The checked part of `release`, at the lease that is found.
  release_found : String → String → ℕ → Option (Lease T) → Manager T → Call T (Unit {0})
  unfolding is_held_by
  release_found lock holder token none m = raise no_lease m
  release_found lock holder token (some l) m =
      if is_held_by l holder token
      then (ok tt, record m { leases = erase lock m.leases })
      else raise not_holder m

  unfoldable pub release : String → String → ℕ → Manager T → Call T (Unit {0})
  unfolding release_found
  release lock holder token m =
      if is_blank lock
      then raise lock_id_blank m
      else if is_blank holder
      then raise holder_id_blank m
      else release_found lock holder token (lookup lock m.leases) m

module _ ⦃fl : Floats⦄ where
  unfoldable pub is_expired : Lease fl.Carrier → fl.Carrier → Bool
  is_expired l now = fl.le l.expires_at now

  -- `current is not None and not current.is_expired(now)`
  unfoldable pub is_held : Option (Lease fl.Carrier) → fl.Carrier → Bool
  unfolding is_expired
  is_held none now = false
  is_held (some l) now = not (is_expired l now)

  -- The end of `acquire`: the next token, and the lease that carries it.
  grant :
      String
      → String
      → fl.Carrier
      → fl.Carrier
      → Manager fl.Carrier
      → Lease fl.Carrier × Manager fl.Carrier
  grant lock holder duration now m =
      let token = get_or 0 lock m.last_token + 1 in
      let lease : Lease fl.Carrier = record {
        lock_id = lock;
        holder_id = holder;
        fencing_token = token;
        expires_at = fl.add now duration;
      } in
      (
        lease,
        record { leases = insert lock lease m.leases; last_token = insert lock token m.last_token },
      )

  -- `none` is the result of a lock that is actively held.
  unfoldable pub acquire :
      String
      → String
      → fl.Carrier
      → fl.Carrier
      → Manager fl.Carrier
      → Call fl.Carrier (Option (Lease fl.Carrier))
  unfolding grant is_held
  acquire lock holder duration now m =
      if is_blank lock
      then raise lock_id_blank m
      else if is_blank holder
      then raise holder_id_blank m
      else if fl.le duration (fl.of_int (pos 0))
      then raise bad_duration m
      else if is_held (lookup lock m.leases) now
      then (ok none, m)
      else let (l, m') = grant lock holder duration now m in (ok (some l), m')

  -- The checked part of `renew`, at the lease that is found.
  renew_found :
      String
      → String
      → ℕ
      → fl.Carrier
      → fl.Carrier
      → Option (Lease fl.Carrier)
      → Manager fl.Carrier
      → Call fl.Carrier (Lease fl.Carrier)
  unfolding is_held_by is_expired
  renew_found lock holder token duration now none m = raise not_holder m
  renew_found lock holder token duration now (some l) m =
      if not (is_held_by l holder token)
      then raise not_holder m
      else if is_expired l now
      then raise expired m
      else let renewed : Lease fl.Carrier = record {
        lock_id = lock;
        holder_id = holder;
        fencing_token = token;
        expires_at = fl.add now duration;
      } in
        (ok renewed, record m { leases = insert lock renewed m.leases })

  unfoldable pub renew :
      String
      → String
      → ℕ
      → fl.Carrier
      → fl.Carrier
      → Manager fl.Carrier
      → Call fl.Carrier (Lease fl.Carrier)
  unfolding renew_found
  renew lock holder token duration now m =
      if is_blank lock
      then raise lock_id_blank m
      else if is_blank holder
      then raise holder_id_blank m
      else if fl.le duration (fl.of_int (pos 0))
      then raise bad_duration m
      else renew_found lock holder token duration now (lookup lock m.leases) m

  -- The guard of an action, at the lease that is found.
  validate_found : Option (Lease fl.Carrier) → String → ℕ → fl.Carrier → Bool
  unfolding is_held_by is_expired
  validate_found none holder token now = false
  validate_found (some l) holder token now =
      if not (is_held_by l holder token) then false else not (is_expired l now)

  unfoldable pub validate_action : String → String → ℕ → fl.Carrier → Manager fl.Carrier → Bool
  unfolding validate_found
  validate_action lock holder token now m = validate_found (lookup lock m.leases) holder token now

  -- The operations that change the manager, each with the time that it reads.
  pub data Op : Type 0 where
    acquire_op : String → String → fl.Carrier → fl.Carrier → Op
    renew_op : String → String → ℕ → fl.Carrier → fl.Carrier → Op
    release_op : String → String → ℕ → Op

  unfoldable pub step : Op → Manager fl.Carrier → Manager fl.Carrier
  unfolding acquire renew release
  step (acquire_op lock holder duration now) m = (acquire lock holder duration now m).1
  step (renew_op lock holder token duration now) m = (renew lock holder token duration now m).1
  step (release_op lock holder token) m = (release lock holder token m).1

  unfoldable pub run : List Op → Manager fl.Carrier → Manager fl.Carrier
  unfolding step
  run [] m = m
  run (o ∷ ops) m = run ops (step o m)
