-- ===== src/Prelude/Value.antt =====
-- The dynamic values of Python that come out of `json.loads`, and the tests made on them. A JSON
-- object has no key twice, since `json.loads` keeps the last.
use Prim.Native.String.{String}
use mathlib.Core.Bool.{Bool, true, false, not, ◌&&◌}
use mathlib.Core.Option.{Option, none, some}
use mathlib.Core.List.{List, [], ◌∷◌}
use text.Mathlib.Text.{◌==◌}
use v91_core_system.Prelude.Tests.{if◌then◌else◌}
use v91_core_system.Prelude.Int.{ℤ, pos, eqb_ℤ}
use v91_core_system.Prelude.Text.{is_blank}
use v91_core_system.Prelude.Float.{Floats}

mutual
  -- `F` is the type of floats.
  pub data Value (F : Type 0) : Type 0 where
    null : Value F
    bool : Bool → Value F
    int : ℤ → Value F
    float : F → Value F
    str : String → Value F
    list : Items F → Value F
    dict : Fields F → Value F

  pub data Items (F : Type 0) : Type 0 where
    nil : Items F
    cons : Value F → Items F → Items F

  pub data Fields (F : Type 0) : Type 0 where
    end : Fields F
    field : String → Value F → Fields F → Fields F

module _ {F : Type 0} where
  -- `d.get(key)` of a JSON object, with `none` where the key is not there.
  abbrev pub get : String → Fields F → Option (Value F)
  get k end = none
  get k (field j v fs) = if j == k then some v else get k fs

  -- `d.get(key)`, which is `None` where the key is not there.
  abbrev pub get_value : String → Fields F → Value F
  get_value k fs = elim (get k fs) [ none ↦ null | some v ↦ v ]

  -- `key in d`
  abbrev pub has : String → Fields F → Bool
  has k fs = elim (get k fs) [ none ↦ false | some v ↦ true ]

  -- The object without the key, as `d.pop(key, None)` leaves it.
  unfoldable pub without : String → Fields F → Fields F
  without k end = end
  without k (field j v fs) = if j == k then without k fs else field j v (without k fs)

  abbrev pub keys : Fields F → List String
  keys end = []
  keys (field k v fs) = k ∷ keys fs

  abbrev pub elements : Items F → List (Value F)
  elements nil = []
  elements (cons v vs) = v ∷ elements vs

  -- `isinstance(v, str)`, and the text.
  abbrev pub as_str : Value F → Option String
  as_str (str s) = some s
  as_str _ = none

  abbrev pub is_str : Value F → Bool
  is_str (str s) = true
  is_str _ = false

  -- `type(v) is bool`
  abbrev pub is_bool : Value F → Bool
  is_bool (bool b) = true
  is_bool _ = false

  -- `isinstance(v, dict)`, and the object.
  abbrev pub as_dict : Value F → Option (Fields F)
  as_dict (dict fs) = some fs
  as_dict _ = none

  -- `isinstance(v, int) and not isinstance(v, bool)`, and the number.
  abbrev pub as_int : Value F → Option ℤ
  as_int (int n) = some n
  as_int _ = none

  -- `isinstance(v, str) and v.strip()`, and the text.
  abbrev pub as_text : Value F → Option String
  as_text (str s) = if is_blank s then none else some s
  as_text _ = none

  -- `isinstance(v, str) and v`: a text that is not empty.
  abbrev pub as_nonempty : Value F → Option String
  as_nonempty (str s) = if s == "" then none else some s
  as_nonempty _ = none

module _ ⦃fl : Floats⦄ where
  -- The truth value of `v`, for `v or w` and `if v`.
  abbrev pub truthy : Value fl.Carrier → Bool
  truthy null = false
  truthy (bool b) = b
  truthy (int n) = not (eqb_ℤ n (pos 0))
  truthy (float x) = not (fl.le x (fl.of_int (pos 0)) && fl.le (fl.of_int (pos 0)) x)
  truthy (str s) = not (s == "")
  truthy (list nil) = false
  truthy (list (cons v vs)) = true
  truthy (dict end) = false
  truthy (dict (field k v fs)) = true

  -- `v or w`
  abbrev pub or_else : Value fl.Carrier → Value fl.Carrier → Value fl.Carrier
  or_else v w = if truthy v then v else w

  -- `isinstance(v, (int, float)) and not isinstance(v, bool)`, and the number as a float.
  abbrev pub as_number : Value fl.Carrier → Option fl.Carrier
  as_number (int n) = some (fl.of_int n)
  as_number (float x) = some x
  as_number _ = none
