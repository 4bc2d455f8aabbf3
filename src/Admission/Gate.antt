-- ===== src/Admission/Gate.antt =====
-- controller/resource_admission.py: `missing_fields`, `invalid_fields`, `_quota_violations` and
-- `request_admission`. What the adapter measures and what the clock reads are arguments.
use v91_core_system.Prelude.{
  ◌==◌, String, Bool, true, false, not, ◌&&◌, Option, none, some, List, [], ◌∷◌, ◌++◌,
  if◌then◌else◌,
}
use mathlib.Core.Option
use v91_core_system.Prelude.Dict.{Dict}
use v91_core_system.Prelude.Float.{Floats}
use v91_core_system.Prelude.Int.{ℤ, pos, ltb_ℤ, leb_ℤ}
use v91_core_system.Prelude.Result.{Result, ok, raise_if, or_raise, ◌>>=◌, ◌>>◌}
use v91_core_system.Prelude.Value.{Value, null, as_int, as_number}

pub record ResourceMeasurements (F : Type 0) : Type 0 where
  pub cpu_cores : Option F
  pub ram_mb : Option ℤ
  pub vram_mb : Option ℤ
  pub disk_mb : Option ℤ
  pub measured_at : F

-- The fields of a request may hold anything.
pub record AdmissionRequest (F : Type 0) : Type 0 where
  pub cpu_cores : Value F
  pub ram_mb : Value F
  pub disk_mb : Value F
  pub vram_mb : Value F

-- The reasons for DENIED_LOCAL.
pub data Denial : Type 0 where
  malformed_request unmeasured quota_exceeded insufficient : List String → Denial
  no_measurements stale vram_unmeasured : Denial

abbrev pub named_if : Bool → String → List String
named_if true name = name ∷ []
named_if false name = []

abbrev pub is_empty : List String → Bool
is_empty [] = true
is_empty (s ∷ l) = false

module _ ⦃fl : Floats⦄ where
  -- `v <= 0` of a float
  abbrev pub no_more : fl.Carrier → Bool
  no_more x = fl.le x (fl.of_int (pos 0))

  -- `value is None or value <= 0`
  abbrev pub lacks_float : Option fl.Carrier → Bool
  lacks_float none = true
  lacks_float (some x) = no_more x

  abbrev pub lacks_int : Option ℤ → Bool
  lacks_int none = true
  lacks_int (some n) = leb_ℤ n (pos 0)

  unfoldable pub missing_fields : ResourceMeasurements fl.Carrier → List String
  missing_fields m =
      named_if (lacks_float m.cpu_cores) "cpu_cores"
      ++ named_if (lacks_int m.ram_mb) "ram_mb"
      ++ named_if (lacks_int m.disk_mb) "disk_mb"

  -- A disk may be 0, and a VRAM that is not needed is `None`.
  abbrev pub negative_int : Option ℤ → Bool
  negative_int none = true
  negative_int (some n) = ltb_ℤ n (pos 0)

  abbrev pub is_null : Value fl.Carrier → Bool
  is_null null = true
  is_null _ = false

  unfoldable pub invalid_fields : AdmissionRequest fl.Carrier → List String
  invalid_fields r =
      named_if (lacks_float (as_number r.cpu_cores)) "cpu_cores"
      ++ named_if (lacks_int (as_int r.ram_mb)) "ram_mb"
      ++ named_if (negative_int (as_int r.disk_mb)) "disk_mb"
      ++ named_if (not (is_null r.vram_mb) && lacks_int (as_int r.vram_mb)) "vram_mb"

  -- `getattr(m, key, None)`, of the fields.
  abbrev pub attribute : String → ResourceMeasurements fl.Carrier → Option fl.Carrier
  attribute key m =
      if key == "cpu_cores"
      then m.cpu_cores
      else if key == "ram_mb"
      then Option.map fl.of_int m.ram_mb
      else if key == "vram_mb"
      then Option.map fl.of_int m.vram_mb
      else if key == "disk_mb"
      then Option.map fl.of_int m.disk_mb
      else if key == "measured_at"
      then some m.measured_at
      else none

  abbrev pub exceeds : fl.Carrier → Option fl.Carrier → Bool
  exceeds limit none = false
  exceeds limit (some x) = fl.lt limit x

  unfoldable pub quota_violations : Dict fl.Carrier → ResourceMeasurements fl.Carrier → List String
  quota_violations [] m = []
  quota_violations ((key, limit) ∷ quota) m =
      named_if (exceeds limit (attribute key m)) key ++ quota_violations quota m

  -- `requested > measured`, of two numbers that are there.
  abbrev pub more_float : Option fl.Carrier → Option fl.Carrier → Bool
  more_float (some x) (some y) = fl.lt y x
  more_float (some x) none = false
  more_float none _ = false

  abbrev pub more_int : Option ℤ → Option ℤ → Bool
  more_int (some x) (some y) = ltb_ℤ y x
  more_int (some x) none = false
  more_int none _ = false

  unfoldable pub deficits :
      AdmissionRequest fl.Carrier → ResourceMeasurements fl.Carrier → List String
  deficits r m =
      named_if (more_float (as_number r.cpu_cores) m.cpu_cores) "cpu_cores"
      ++ named_if (more_int (as_int r.ram_mb) m.ram_mb) "ram_mb"
      ++ named_if (more_int (as_int r.disk_mb) m.disk_mb) "disk_mb"
      ++ named_if (not (is_null r.vram_mb) && more_int (as_int r.vram_mb) m.vram_mb) "vram_mb"

  abbrev pub unmeasured_vram : AdmissionRequest fl.Carrier → ResourceMeasurements fl.Carrier → Bool
  unmeasured_vram r m = not (is_null r.vram_mb) && elim m.vram_mb [ none ↦ true | some n ↦ false ]

  abbrev pub deny_if_any : List String → (List String → Denial) → Result Denial (Unit {0})
  deny_if_any names reason = raise_if (not (is_empty names)) (reason names)

  -- The gate: its freshness and quota, what the adapter measures (`none` for another object), the
  -- time that the clock reads then, and the request.
  unfoldable pub request_admission :
      fl.Carrier
      → Dict fl.Carrier
      → Option (ResourceMeasurements fl.Carrier)
      → fl.Carrier
      → AdmissionRequest fl.Carrier
      → Result Denial (ResourceMeasurements fl.Carrier)
  unfolding missing_fields invalid_fields quota_violations deficits
  request_admission freshness quota measured now r = do
    deny_if_any (invalid_fields r) malformed_request
    m ← or_raise measured no_measurements
    deny_if_any (missing_fields m) unmeasured
    raise_if (fl.lt freshness (fl.sub now m.measured_at)) stale
    deny_if_any (quota_violations quota m) quota_exceeded
    raise_if (unmeasured_vram r m) vram_unmeasured
    deny_if_any (deficits r m) insufficient
    ok m
