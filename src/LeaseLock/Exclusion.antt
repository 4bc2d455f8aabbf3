-- ===== src/LeaseLock/Exclusion.antt =====
-- Who may act under a lease of controller/lease_lock.py.
use v91_core_system.Prelude.{
  ℕ, String, ◌≡◌, ◌≢◌, true, false, none, some, inl, inr, arith, eq_iff, Option-cases,
}
use v91_core_system.Prelude.Dict.{lookup, lookup-insert, lookup-insert_self, lookup-erase}
use v91_core_system.Prelude.Float.{Floats}
use v91_core_system.Prelude.Int.{pos}
use v91_core_system.Prelude.Text.{is_blank}
use v91_core_system.Prelude.Result.{ok, is_ok}
use v91_core_system.LeaseLock.{
  Lease, Manager, acquire, grant, renew, release, validate_action, is_held, is_held_by,
}

module _ ⦃fl : Floats⦄ where
  -- At one moment at most one holder and one token of a lock pass the guard of an action, and
  -- while they do a well-formed request of anybody for the lock returns `None` and leaves the
  -- manager as it was.
  pub exclusion :
      (lock h1 h2 other : String) (t1 t2 : ℕ) (now d : fl.Carrier) (m : Manager fl.Carrier)
      → validate_action lock h1 t1 now m ≡ true
      → validate_action lock h2 t2 now m ≡ true
      → is_blank lock ≡ false
      → is_blank other ≡ false
      → fl.le d (fl.of_int (pos 0)) ≡ false
      → (h1 ≡ h2) × (t1 ≡ t2) × (acquire lock other d now m ≡ (ok none, m))
  unfolding validate_action acquire
  exclusion lock h1 h2 other t1 t2 now d m a1 a2 b c e =
      elim (Option-cases (lookup lock m.leases)) [
        | inl free ↦ ground arith
        | inr (l, held) ↦ ground (arith, eq_iff l.holder_id h1, eq_iff l.holder_id h2)
      ]

  -- A well-formed request for a lock with no lease, or with one that has expired, is granted: the
  -- lease carries the caller and the end of its time, and its token passes the guard of an action
  -- at every moment before that end.
  pub acquire_free :
      (lock holder : String) (d now at : fl.Carrier) (m : Manager fl.Carrier)
      → is_blank lock ≡ false
      → is_blank holder ≡ false
      → fl.le d (fl.of_int (pos 0)) ≡ false
      → is_held (lookup lock m.leases) now ≡ false
      → fl.le (fl.add now d) at ≡ false
      → (l : Lease fl.Carrier) × (m' : Manager fl.Carrier) × (acquire lock holder d now m
          ≡ (ok (some l), m'))
        × (l.holder_id ≡ holder)
        × (l.expires_at ≡ fl.add now d)
        × (validate_action lock holder l.fencing_token at m' ≡ true)
  unfolding acquire validate_action grant
  acquire_free lock holder d now at m b c e f g =
      let (l, m') = grant lock holder d now m in
      (
        l,
        m',
        ground arith,
        ground arith,
        ground arith,
        ground (arith, lookup-insert_self lock l m.leases, eq_iff holder holder),
      )

  -- `renew` by the holder of a live lease, with its token, keeps holder and token and moves the
  -- end of the lease; other locks and the last tokens stay as they were.
  pub renew_live :
      (lock holder other : String) (token : ℕ) (d now : fl.Carrier) (m : Manager fl.Carrier)
      → is_blank lock ≡ false
      → is_blank holder ≡ false
      → fl.le d (fl.of_int (pos 0)) ≡ false
      → other ≢ lock
      → validate_action lock holder token now m ≡ true
      → let m' = (renew lock holder token d now m).1 in
        (lookup lock m'.leases
          ≡ some (record {
            lock_id = lock;
            holder_id = holder;
            fencing_token = token;
            expires_at = fl.add now d;
          }))
        × (lookup other m'.leases ≡ lookup other m.leases)
        × (m'.last_token ≡ m.last_token)
  unfolding renew validate_action
  renew_live lock holder other token d now m b c e ne h =
      let renewed : Lease fl.Carrier = record {
        lock_id = lock;
        holder_id = holder;
        fencing_token = token;
        expires_at = fl.add now d;
      } in
      ground (
        arith,
        lookup-insert lock other renewed m.leases,
        lookup-insert_self lock renewed m.leases,
        eq_iff lock other,
      )

  -- Where the caller does not pass the guard of an action, `renew` raises: nothing is extended,
  -- and an expired lease is not revived.
  pub renew_refused :
      (lock holder : String) (token : ℕ) (d now : fl.Carrier) (m : Manager fl.Carrier)
      → validate_action lock holder token now m ≡ false
      → let (r, m') = renew lock holder token d now m in (is_ok r ≡ false) × (m' ≡ m)
  unfolding renew validate_action
  renew_refused lock holder token d now m h = ground arith

  -- `release` by the holder of a lease, with its token, ends the lease: its lock has none, every
  -- other lock keeps its own, and the last tokens stay.
  pub release_held :
      (lock holder other : String) (token : ℕ) (l : Lease fl.Carrier) (m : Manager fl.Carrier)
      → is_blank lock ≡ false
      → is_blank holder ≡ false
      → other ≢ lock
      → lookup lock m.leases ≡ some l
      → is_held_by l holder token ≡ true
      → let (r, m') = release lock holder token m in
        (r ≡ ok tt)
        × (lookup lock m'.leases ≡ none)
        × (lookup other m'.leases ≡ lookup other m.leases)
        × (m'.last_token ≡ m.last_token)
  unfolding release
  release_held lock holder other token l m b c ne e h = ground (
    arith,
    lookup-erase lock lock m.leases,
    lookup-erase lock other m.leases,
    eq_iff lock lock,
    eq_iff lock other,
  )

  -- Nobody else releases a lease, whatever the identifiers: the manager stays as it was.
  pub release_refused :
      (lock holder : String) (token : ℕ) (l : Lease fl.Carrier) (m : Manager fl.Carrier)
      → lookup lock m.leases ≡ some l
      → is_held_by l holder token ≡ false
      → (release lock holder token m).1 ≡ m
  unfolding release
  release_refused lock holder token l m e h = ground arith
