-- ===== src/LeaseLock/Tokens.antt =====
-- The fencing tokens of controller/lease_lock.py: what is issued, what never falls, who is fenced.
use v91_core_system.Prelude.{
  ℕ, ◌+◌, ◌≤◌, ◌<◌, String, ◌≡◌, refl, true, false, Option, none, some, List, [], ◌∷◌, arith,
  eq_iff, ap, inl, inr, Option-cases,
}
use mathlib.Core.Path.{subst}
use mathlib.Core.Logic.{◌⊎◌}
use v91_core_system.Prelude.Dict.{
  lookup, get_or, lookup-insert, lookup-erase, lookup-insert_self, lookup-nil,
}
use v91_core_system.Prelude.Float.{Floats}
use v91_core_system.Prelude.Result.{ok}
use v91_core_system.LeaseLock.{
  Lease, Manager, init, Op, acquire_op, renew_op, release_op, acquire, renew, release, grant,
  release_found, renew_found, step, run, is_fenced, is_held_by, validate_action,
}

-- The lease of a lock is stored under its own name and carries the last token issued for it.
pub record IsValid {T : Type 0} (m : Manager T) : Type 0 where
  pub issued :
      (k : String) (l : Lease T)
      → lookup k m.leases ≡ some l
      → (lookup k m.last_token ≡ some l.fencing_token) × (l.lock_id ≡ k)

pub init-IsValid : {T : Type 0} → IsValid (init {T = T})
init-IsValid {T} = record { issued = λ k l h. cc (lookup-nil {V = Lease T} k) }

-- The last token issued for a lock.
abbrev pub last : {T : Type 0} → String → Manager T → ℕ
last k m = get_or 0 k m.last_token

module _ ⦃fl : Floats⦄ where
  grant-IsValid :
      (lock holder : String) (d now : fl.Carrier) (m : Manager fl.Carrier)
      → IsValid m
      → IsValid (grant lock holder d now m).1
  unfolding grant
  grant-IsValid lock holder d now m v = record {
    issued = λ k l h. ground (
      arith,
      lookup-insert lock k (grant lock holder d now m).0 m.leases,
      lookup-insert lock k (last lock m + 1) m.last_token,
      eq_iff lock k,
      v.issued k l,
    );
  }

  acquire_leaves :
      (lock holder : String) (d now : fl.Carrier) (m : Manager fl.Carrier)
      → let m' = (acquire lock holder d now m).1 in (m' ≡ m) ⊎ (m' ≡ (grant lock holder d now m).1)
  unfolding acquire
  acquire_leaves lock holder d now m = ground arith

  acquire-IsValid :
      (lock holder : String) (d now : fl.Carrier) (m : Manager fl.Carrier)
      → IsValid m
      → IsValid (acquire lock holder d now m).1
  acquire-IsValid lock holder d now m v = elim (acquire_leaves lock holder d now m) [
    | inl same ↦ rw same v
    | inr granted ↦ rw granted (grant-IsValid lock holder d now m v)
  ]

  renew_found-IsValid :
      (lock holder : String) (token : ℕ) (d now : fl.Carrier) (m : Manager fl.Carrier)
      (found : Option (Lease fl.Carrier))
      → lookup lock m.leases ≡ found
      → IsValid m
      → IsValid (renew_found lock holder token d now found m).1
  unfolding renew_found
  renew_found-IsValid lock holder token d now m none e v = v
  renew_found-IsValid lock holder token d now m (some old) e v = record {
    issued = λ k l h. ground (
      arith,
      lookup-insert lock k
          (record {
            lock_id = lock;
            holder_id = holder;
            fencing_token = token;
            expires_at = fl.add now d;
          })
          m.leases,
      eq_iff lock k,
      v.issued k l,
      v.issued lock old,
    );
  }

  renew_leaves :
      (lock holder : String) (token : ℕ) (d now : fl.Carrier) (m : Manager fl.Carrier)
      → let m' = (renew lock holder token d now m).1 in
        (m' ≡ m) ⊎ (m' ≡ (renew_found lock holder token d now (lookup lock m.leases) m).1)
  unfolding renew
  renew_leaves lock holder token d now m = ground arith

  release_leaves :
      (lock holder : String) (token : ℕ) (m : Manager fl.Carrier)
      → let m' = (release lock holder token m).1 in
        (m' ≡ m) ⊎ (m' ≡ (release_found lock holder token (lookup lock m.leases) m).1)
  unfolding release
  release_leaves lock holder token m = ground arith

  release_found-IsValid :
      (lock holder : String) (token : ℕ) (m : Manager fl.Carrier)
      (found : Option (Lease fl.Carrier))
      → IsValid m
      → IsValid (release_found lock holder token found m).1
  unfolding release_found
  release_found-IsValid lock holder token m none v = v
  release_found-IsValid lock holder token m (some old) v = record {
    issued = λ k l h. ground (arith, lookup-erase lock k m.leases, v.issued k l);
  }

  -- Every operation keeps the invariant, on every branch.
  pub step-IsValid : (o : Op) (m : Manager fl.Carrier) → IsValid m → IsValid (step o m)
  unfolding step
  step-IsValid (acquire_op lock holder d now) m v = acquire-IsValid lock holder d now m v
  step-IsValid (renew_op lock holder token d now) m v =
      elim (renew_leaves lock holder token d now m) [
        | inl same ↦ rw same v
        | inr found ↦
            rw found (renew_found-IsValid lock holder token d now m (lookup lock m.leases) refl v)
      ]
  step-IsValid (release_op lock holder token) m v = elim (release_leaves lock holder token m) [
    | inl same ↦ rw same v
    | inr found ↦ rw found (release_found-IsValid lock holder token m (lookup lock m.leases) v)
  ]

  run-IsValid : (ops : List Op) (m : Manager fl.Carrier) → IsValid m → IsValid (run ops m)
  unfolding run
  run-IsValid [] m v = v
  run-IsValid (o ∷ ops) m v = run-IsValid ops (step o m) (step-IsValid o m v)

  -- No operation lowers the last token of a lock.
  last-step : (k : String) (o : Op) (m : Manager fl.Carrier) → last k m ≤ last k (step o m)
  unfolding step grant
  last-step k (acquire_op lock holder d now) m =
      ground (arith, lookup-insert lock k (last lock m + 1) m.last_token, eq_iff lock k)
  last-step k (renew_op lock holder token d now) m = ground arith
  last-step k (release_op lock holder token) m = ground arith

  -- Over any run of operations the last token of a lock never falls.
  last-run : (k : String) (ops : List Op) (m : Manager fl.Carrier) → last k m ≤ last k (run ops m)
  unfolding run
  last-run k [] m = omega arith
  last-run k (o ∷ ops) m = omega (arith, last-step k o m, last-run k ops (step o m))

  -- A lease that `acquire` returns carries the next token, which becomes the last.
  acquire_token :
      (lock holder : String) (d now : fl.Carrier) (m : Manager fl.Carrier) {l : Lease fl.Carrier}
      {m' : Manager fl.Carrier}
      → acquire lock holder d now m ≡ (ok (some l), m')
      → (l.fencing_token ≡ last lock m + 1) × (last lock m' ≡ last lock m + 1)
  unfolding acquire
  acquire_token lock holder d now m h =
      ground (arith, lookup-insert_self lock (last lock m + 1) m.last_token)

  acquired-IsValid :
      (lock holder : String) (d now : fl.Carrier) (m : Manager fl.Carrier) {l : Lease fl.Carrier}
      {m' : Manager fl.Carrier}
      → IsValid m
      → acquire lock holder d now m ≡ (ok (some l), m')
      → IsValid m'
  acquired-IsValid lock holder d now m v h =
      subst IsValid (ap (λ c. c.1) h) (acquire-IsValid lock holder d now m v)

  -- With the invariant, a token below the last one of its lock validates no action.
  stale_validate :
      (k holder : String) (token : ℕ) (now : fl.Carrier) (m : Manager fl.Carrier)
      → IsValid m
      → token < last k m
      → validate_action k holder token now m ≡ false
  unfolding validate_action is_held_by
  stale_validate k holder token now m v h = elim (Option-cases (lookup k m.leases)) [
    | inl e ↦ ground arith
    | inr (l, e) ↦ ground (arith, v.issued k l)
  ]

  -- Two leases granted for one lock, with any operations before, between and after: the later one
  -- has the greater token, and the earlier token is fenced and validates no action from then on,
  -- whatever the holder and the time.
  pub fencing :
      (before between after : List Op) (lock h1 h2 : String) (d1 d2 now1 now2 : fl.Carrier)
      {l1 l2 : Lease fl.Carrier} {m1 m2 : Manager fl.Carrier}
      → acquire lock h1 d1 now1 (run before init) ≡ (ok (some l1), m1)
      → acquire lock h2 d2 now2 (run between m1) ≡ (ok (some l2), m2)
      → (l1.fencing_token < l2.fencing_token)
        × (is_fenced lock l1.fencing_token (run after m2) ≡ true)
        × ((holder : String) (now : fl.Carrier)
            → validate_action lock holder l1.fencing_token now (run after m2) ≡ false)
  unfolding is_fenced
  fencing before between after lock h1 h2 d1 d2 now1 now2 {l1} {l2} {m1} {m2} e1 e2 =
      let m0 = run before init in
      let m' = run between m1 in
      let t1 = acquire_token lock h1 d1 now1 m0 e1 in
      let t2 = acquire_token lock h2 d2 now2 m' e2 in
      let grows = last-run lock between m1 in
      let later = last-run lock after m2 in
      let stale : l1.fencing_token < last lock (run after m2) = omega arith in
      let v1 = acquired-IsValid lock h1 d1 now1 m0 (run-IsValid before init init-IsValid) e1 in
      let v2 = acquired-IsValid lock h2 d2 now2 m' (run-IsValid between m1 v1) e2 in
      let v3 = run-IsValid after m2 v2 in
      (
        omega arith,
        ground arith,
        λ holder now. stale_validate lock holder l1.fencing_token now (run after m2) v3 stale,
      )
