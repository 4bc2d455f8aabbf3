-- ===== src/Prelude/Float.antt =====
-- Python's floats. There is no model of IEEE arithmetic here: the carrier and its operations are a
-- parameter, and a theorem that needs an order law takes it as a hypothesis.
use Prim.Native.Nat.{ℕ, ◌+◌, ◌-◌, ◌*◌}
use Prim.Native.Char.{code}
use Prim.Native.String.{String}
use mathlib.Core.Bool.{Bool, true, ◌&&◌}
use mathlib.Core.Option
use mathlib.Core.Option.{Option, none, some}
use text.Mathlib.Text.{◌==◌}
use v91_core_system.Prelude.Tests.{leb, if◌then◌else◌}
use v91_core_system.Prelude.Int.{ℤ, pos, ◌+ℤ◌, ◌-ℤ◌, ltb_ℤ, leb_ℤ}

pub record Floats : Type 1 where
  pub Carrier : Type 0
  -- `a < b` and `a <= b`
  pub lt : Carrier → Carrier → Bool
  pub le : Carrier → Carrier → Bool
  pub add : Carrier → Carrier → Carrier
  pub sub : Carrier → Carrier → Carrier
  -- the float of an integer literal, `float(n)`
  pub of_int : ℤ → Carrier
  pub is_finite : Carrier → Bool
  -- `float(s)` of a text, with `none` for the ValueError
  pub of_text : String → Option Carrier

-- A number in decimal digits.
abbrev pub digits : ℕ → String → Option ℕ
digits n String.[] = some n
digits n (String.◌∷◌ c s) =
    if leb 48 (code c) && leb (code c) 57 then digits (n * 10 + (code c - 48)) s else none

-- Whole numbers, for concrete runs.
instance abbrev pub whole : Floats
whole = record {
  Carrier = ℤ;
  lt = ltb_ℤ;
  le = leb_ℤ;
  add = λ a b. a +ℤ b;
  sub = λ a b. a -ℤ b;
  of_int = λ n. n;
  is_finite = λ n. true;
  of_text = λ s. Option.map pos (if s == "" then none else digits 0 s);
}
