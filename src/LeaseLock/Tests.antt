-- ===== src/LeaseLock/Tests.antt =====
-- Concrete runs of controller/lease_lock.py, with time in whole seconds, and the lease theorems at
-- inputs.
use v91_core_system.Prelude.{
  ℕ, ◌<◌, String, ◌≡◌, ◌≢◌, refl, true, false, none, some, [], ◌∷◌, arith, eq_iff,
}
use v91_core_system.Prelude.Dict.{lookup, insert}
use v91_core_system.Prelude.Float.{whole}
use v91_core_system.Prelude.Int.{ℤ, pos, ◌+ℤ◌}
use v91_core_system.Prelude.Text.{is_blank}
use v91_core_system.Prelude.Result.{ok, is_ok}
use v91_core_system.LeaseLock.{
  Lease, Manager, acquire_op, init, step, acquire, renew, release, run, validate_action, is_fenced,
  is_held, is_held_by,
}
use v91_core_system.LeaseLock.Tokens.{IsValid, init-IsValid, step-IsValid, fencing}
use v91_core_system.LeaseLock.Exclusion.{
  exclusion, acquire_free, renew_live, renew_refused, release_held, release_refused,
}

-- `a` holds "db" from second 0 to second 10.
abbrev first : Lease ℤ
first = record { lock_id = "db"; holder_id = "a"; fencing_token = 1; expires_at = pos 10 }

abbrev held : Manager ℤ
held = record { leases = ("db", first) ∷ []; last_token = ("db", 1) ∷ [] }

abbrev second : Lease ℤ
second = record { lock_id = "db"; holder_id = "b"; fencing_token = 2; expires_at = pos 15 }

abbrev taken_over : Manager ℤ
taken_over = record { leases = ("db", second) ∷ []; last_token = ("db", 2) ∷ [] }

grant_a : acquire ⦃fl = whole⦄ "db" "a" (pos 10) (pos 0) init ≡ (ok (some first), held)
unfolding acquire lookup insert ◌+ℤ◌ is_blank
grant_a = refl

acquire_busy : acquire ⦃fl = whole⦄ "db" "b" (pos 5) (pos 9) held ≡ (ok none, held)
unfolding acquire lookup is_blank
acquire_busy = refl

grant_b : acquire ⦃fl = whole⦄ "db" "b" (pos 5) (pos 10) held ≡ (ok (some second), taken_over)
unfolding acquire lookup insert ◌+ℤ◌ is_blank
grant_b = refl

step-IsValid_example : IsValid (step ⦃fl = whole⦄ (acquire_op "db" "a" (pos 10) (pos 0)) init)
step-IsValid_example = step-IsValid (acquire_op "db" "a" (pos 10) (pos 0)) init init-IsValid

fencing_example :
    (1 < 2)
    × (is_fenced "db" 1 taken_over ≡ true)
    × ((holder : String) (now : ℤ)
        → validate_action ⦃fl = whole⦄ "db" holder 1 now taken_over ≡ false)
unfolding run
fencing_example = fencing [] [] [] "db" "a" "b" (pos 10) (pos 5) (pos 0) (pos 10) grant_a grant_b

validate_test : validate_action ⦃fl = whole⦄ "db" "a" 1 (pos 9) held ≡ true
unfolding validate_action lookup
validate_test = refl

exclusion_example :
    (◌≡◌ {A = String} "a" "a")
    × (◌≡◌ {A = ℕ} 1 1)
    × (acquire ⦃fl = whole⦄ "db" "b" (pos 5) (pos 9) held ≡ (ok none, held))
unfolding is_blank
exclusion_example =
    exclusion "db" "a" "a" "b" 1 1 (pos 9) (pos 5) held validate_test validate_test refl refl refl

acquire_free_example :
    (l : Lease ℤ) × (m' : Manager ℤ) × (acquire ⦃fl = whole⦄ "db" "b" (pos 5) (pos 10) held
      ≡ (ok (some l), m'))
    × (l.holder_id ≡ "b")
    × (l.expires_at ≡ pos 15)
    × (validate_action ⦃fl = whole⦄ "db" "b" l.fencing_token (pos 14) m' ≡ true)
unfolding is_blank is_held lookup ◌+ℤ◌
acquire_free_example = acquire_free "db" "b" (pos 5) (pos 10) (pos 14) held refl refl refl refl refl

other_lock : ◌≢◌ {A = String} "log" "db"
other_lock = ground (arith, eq_iff "log" "db")

renew_live_example :
    let m' = (renew ⦃fl = whole⦄ "db" "a" 1 (pos 10) (pos 9) held).1 in
    (lookup "db" m'.leases ≡ some (record first { expires_at = pos 19 }))
    × (lookup "log" m'.leases ≡ lookup "log" held.leases)
    × (m'.last_token ≡ held.last_token)
unfolding is_blank ◌+ℤ◌
renew_live_example =
    renew_live "db" "a" "log" 1 (pos 10) (pos 9) held refl refl refl other_lock validate_test

expired_test : validate_action ⦃fl = whole⦄ "db" "a" 1 (pos 10) held ≡ false
unfolding validate_action lookup
expired_test = refl

renew_refused_example :
    let (r, m') = renew ⦃fl = whole⦄ "db" "a" 1 (pos 10) (pos 10) held in
    (is_ok r ≡ false) × (m' ≡ held)
renew_refused_example = renew_refused "db" "a" 1 (pos 10) (pos 10) held expired_test

release_held_example :
    let (r, m') = release "db" "a" 1 held in
    (r ≡ ok tt)
    × (lookup "db" m'.leases ≡ none)
    × (lookup "log" m'.leases ≡ lookup "log" held.leases)
    × (m'.last_token ≡ held.last_token)
unfolding is_blank lookup is_held_by
release_held_example =
    release_held ⦃fl = whole⦄ "db" "a" "log" 1 first held refl refl other_lock refl refl

release_refused_example : (release "db" "b" 1 held).1 ≡ held
unfolding lookup is_held_by
release_refused_example = release_refused ⦃fl = whole⦄ "db" "b" 1 first held refl refl
