-- ===== src/Prelude/Objects.antt =====
-- A JSON object with a key set as `d[k] = v` does it, and what `get` and `without` find then.
use Prim.Native.String.{String}
use mathlib.Core.Path.{◌≡◌, refl}
use mathlib.Core.Bool.{false}
use mathlib.Core.Option.{some}
use native.Mathlib.Omega.{arith}
use text.Mathlib.Text.{◌==◌}
use text.Mathlib.TextEquality.{eq_iff}
use v91_core_system.Prelude.Tests.{if◌then◌else◌}
use v91_core_system.Prelude.Value.{Value, Fields, end, field, get, has, without}

module _ {F : Type 0} where
  unfoldable pub put : String → Value F → Fields F → Fields F
  put k v end = field k v end
  put k v (field j w fs) = if j == k then field j v fs else field j w (put k v fs)

  pub get-put_self : (k : String) (v : Value F) (fs : Fields F) → get k (put k v fs) ≡ some v
  unfolding put
  get-put_self k v end = ground (arith, eq_iff k k)
  get-put_self k v (field j w fs) = ground (arith, eq_iff k k, get-put_self k v fs)

  pub get-put_other :
      (k j : String) (v : Value F) (fs : Fields F) → k == j ≡ false → get j (put k v fs) ≡ get j fs
  unfolding put
  get-put_other k j v end h = ground arith
  get-put_other k j v (field i w fs) h =
      ground (arith, eq_iff k j, eq_iff i k, eq_iff i j, get-put_other k j v fs h)

  pub without_absent : (k : String) (fs : Fields F) → has k fs ≡ false → without k fs ≡ fs
  unfolding without
  without_absent k end h = refl
  without_absent k (field j v fs) h = ground (arith, without_absent k fs)

  pub without-put :
      (k : String) (v : Value F) (fs : Fields F) → has k fs ≡ false → without k (put k v fs) ≡ fs
  unfolding put without
  without-put k v end h = ground (arith, eq_iff k k)
  without-put k v (field j w fs) h = ground (arith, without-put k v fs, without_absent k fs)
