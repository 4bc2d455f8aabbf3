-- ===== src/GlobalGuard/Chains.antt =====
-- The tests of global_guard/policy.py one by one: what a request has that passes them.
use v91_core_system.Prelude.{
  ◌≤◌, String, ◌≡◌, refl, Bool, true, false, not, ◌&&◌, Option, none, some, inl, inr, ◌⊎◌, List, [],
  ◌∷◌, All, arith,
}
use v91_core_system.Prelude.Int.{ℤ, pos, ◌≤ℤ◌}
use v91_core_system.Prelude.Result.{ok, >>=-eq-ok}
use v91_core_system.Prelude.Text.{count_chars, is_blank}
use v91_core_system.Prelude.Value.{
  Value, null, bool, int, float, str, list, dict, Fields, get, as_text,
}
use v91_core_system.GlobalGuard.Policy.{
  Code, is_known, is_denied, estimate, short_text, check_class, check_flag, check_flags,
  check_estimate, check_estimates,
}

module _ {F : Type 0} where
  abbrev pub IsShort : Value F → Type 0
  IsShort v = (s : String) × (v ≡ str s) × (is_blank s ≡ false) × (count_chars s ≤ 500)

  -- A key that is not there or holds a Boolean.
  abbrev pub IsFlag : Option (Value F) → Type 0
  IsFlag v = (v ≡ none) ⊎ ((b : Bool) × (v ≡ some (bool b)))

  -- An integer from 0 to the maximum.
  abbrev pub IsWithin : ℤ → Value F → Type 0
  IsWithin maximum v = (n : ℤ) × (v ≡ int n) × (pos 0 ≤ℤ n) × (n ≤ℤ maximum)

  pub short_text-IsShort : (e : Code) (v : Value F) → short_text e v ≡ ok tt → IsShort v
  unfolding short_text
  short_text-IsShort e (str s) h = (s, refl, ground arith, ground arith)
  short_text-IsShort e null h = cc
  short_text-IsShort e (bool b) h = cc
  short_text-IsShort e (int n) h = cc
  short_text-IsShort e (float x) h = cc
  short_text-IsShort e (list l) h = cc
  short_text-IsShort e (dict d) h = cc

  pub IsShort-short_text : (e : Code) (v : Value F) → IsShort v → short_text e v ≡ ok tt
  unfolding short_text
  IsShort-short_text e v (s, q, b, n) = rw (q, b) (ground arith)

  pub check_class_ok :
      (v : Value F) (k : String)
      → check_class v ≡ ok k
      → (v ≡ str k) × (is_known k ≡ true) × (is_denied k ≡ false)
  unfolding check_class
  check_class_ok (str s) k h = (ground arith, ground arith, ground arith)
  check_class_ok null k h = cc
  check_class_ok (bool b) k h = cc
  check_class_ok (int n) k h = cc
  check_class_ok (float x) k h = cc
  check_class_ok (list l) k h = cc
  check_class_ok (dict d) k h = cc

  check_flag-IsFlag : (v : Option (Value F)) → check_flag v ≡ ok tt → IsFlag v
  unfolding check_flag
  check_flag-IsFlag none h = inl refl
  check_flag-IsFlag (some (bool b)) h = inr (b, refl)
  check_flag-IsFlag (some null) h = cc
  check_flag-IsFlag (some (str s)) h = cc
  check_flag-IsFlag (some (int n)) h = cc
  check_flag-IsFlag (some (float x)) h = cc
  check_flag-IsFlag (some (list l)) h = cc
  check_flag-IsFlag (some (dict d)) h = cc

  pub check_flags-All :
      (fs : List String) (r : Fields F) → check_flags fs r ≡ ok tt → All (λ f. IsFlag (get f r)) fs
  unfolding check_flags
  check_flags-All [] r h = tt
  check_flags-All (f ∷ fs) r h =
      let (u, first, rest) = >>=-eq-ok (check_flag (get f r)) (λ _. check_flags fs r) h in
      (check_flag-IsFlag (get f r) first, check_flags-All fs r rest)

  check_estimate-IsWithin :
      (maximum : ℤ) (v : Value F) → check_estimate maximum v ≡ ok tt → IsWithin maximum v
  unfolding check_estimate
  check_estimate-IsWithin maximum (int n) h = (n, refl, ground arith, ground arith)
  check_estimate-IsWithin maximum (str s) h = cc
  check_estimate-IsWithin maximum null h = cc
  check_estimate-IsWithin maximum (bool b) h = cc
  check_estimate-IsWithin maximum (float x) h = cc
  check_estimate-IsWithin maximum (list l) h = cc
  check_estimate-IsWithin maximum (dict d) h = cc

  pub check_estimates-All :
      (es : List (String × ℤ)) (r : Fields F)
      → check_estimates es r ≡ ok tt
      → All (λ e. IsWithin e.1 (estimate e.0 r)) es
  unfolding check_estimates
  check_estimates-All [] r h = tt
  check_estimates-All ((f, maximum) ∷ es) r h =
      let (u, first, rest) =
        >>=-eq-ok (check_estimate maximum (estimate f r)) (λ _. check_estimates es r) h in
      (check_estimate-IsWithin maximum (estimate f r) first, check_estimates-All es r rest)

  IsFlag-check_flag : (v : Option (Value F)) → IsFlag v → check_flag v ≡ ok tt
  unfolding check_flag
  IsFlag-check_flag v (inl e) = rw e (refl)
  IsFlag-check_flag v (inr (b, e)) = rw e (refl)

  pub All-check_flags :
      (fs : List String) (r : Fields F) → All (λ f. IsFlag (get f r)) fs → check_flags fs r ≡ ok tt
  unfolding check_flags
  All-check_flags [] r h = refl
  All-check_flags (f ∷ fs) r (h, hs) = rw (IsFlag-check_flag (get f r) h) (All-check_flags fs r hs)

  IsWithin-check_estimate :
      (maximum : ℤ) (v : Value F) → IsWithin maximum v → check_estimate maximum v ≡ ok tt
  unfolding check_estimate
  IsWithin-check_estimate maximum v (n, e, low, high) = rw e (ground arith)

  pub All-check_estimates :
      (es : List (String × ℤ)) (r : Fields F)
      → All (λ e. IsWithin e.1 (estimate e.0 r)) es
      → check_estimates es r ≡ ok tt
  unfolding check_estimates
  All-check_estimates [] r h = refl
  All-check_estimates ((f, maximum) ∷ es) r (h, hs) =
      rw (IsWithin-check_estimate maximum (estimate f r) h) (All-check_estimates es r hs)

  pub check_class_known :
      (v : Value F) (k : String)
      → v ≡ str k
      → is_known k ≡ true
      → is_denied k ≡ false
      → check_class v ≡ ok k
  unfolding check_class
  check_class_known v k e known fine = rw e (ground arith)

  pub as_text-given :
      (v : Value F) (s : String) → as_text v ≡ some s → (v ≡ str s) × (is_blank s ≡ false)
  as_text-given (str t) s h = (ground arith, ground arith)
  as_text-given null s h = cc
  as_text-given (bool b) s h = cc
  as_text-given (int n) s h = cc
  as_text-given (float x) s h = cc
  as_text-given (list l) s h = cc
  as_text-given (dict d) s h = cc

-- A test that is off, since what it asks for is there.
pub demand_met : (a b : Bool) → (a ≡ true → b ≡ true) → (a && not b) ≡ false
demand_met false b h = refl
demand_met true b h = rw (h refl) (refl)

pub demands_met : (a b c : Bool) → (a ≡ true → b ≡ true → c ≡ true) → (a && b && not c) ≡ false
demands_met false b c h = refl
demands_met true false c h = refl
demands_met true true c h = rw (h refl refl) (refl)
