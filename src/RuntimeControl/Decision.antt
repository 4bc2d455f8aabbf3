-- ===== src/RuntimeControl/Decision.antt =====
-- controller/runtime_control.py: `decide`, `read_low_sample_count`, `measure_effect` and the
-- constants. A reason keeps the numbers that the message of the source prints.
use v91_core_system.Prelude.{
  ℕ, ◌+◌, ◌-◌, min, ltb, leb, Bool, ◌&&◌, ◌||◌, Option, none, some, String, List, if◌then◌else◌,
}
use v91_core_system.Prelude.Float.{Floats}
use v91_core_system.Prelude.Int.{ℤ, pos, negsuc, sub_ℕ}
use v91_core_system.Prelude.Result.{Result, ok, err}
use v91_core_system.Prelude.Value.{Value, int, dict, get}

abbrev pub min_replicas : ℕ
min_replicas = 1

abbrev pub max_replicas : ℕ
max_replicas = 3

abbrev pub low_samples_required : ℕ
low_samples_required = 3

pub data Scaling : Type 0 where
  scale_up scale_down : Scaling

pub data Reason (F : Type 0) : Type 0 where
  outside_bounds : Reason F
  at_maximum : F → F → Reason F
  above_threshold : F → F → ℕ → Reason F
  at_minimum : Reason F
  low_persisted : F → F → ℕ → Reason F
  low_sample : ℕ → Reason F
  no_threshold : F → F → ℕ → Reason F

-- One container that `collect_snapshot` has observed, and the snapshot.
pub record Observed (F : Type 0) : Type 0 where
  pub name : String
  pub state : String
  pub health : String
  pub cpu_percent : F
  pub memory_percent : F

pub record Snapshot (F : Type 0) : Type 0 where
  pub project : String
  pub replicas : ℕ
  pub running : ℕ
  pub max_cpu_percent : F
  pub max_memory_percent : F
  pub containers : List (Observed F)

module _ ⦃fl : Floats⦄ where
  abbrev pub literal : ℕ → fl.Carrier
  literal n = fl.of_int (pos n)

  -- CPU at 75 or more, or memory at 80 or more.
  unfoldable pub is_high : Snapshot fl.Carrier → Bool
  is_high s = fl.le (literal 75) s.max_cpu_percent || fl.le (literal 80) s.max_memory_percent

  -- CPU at 20 or less, and memory at 50 or less.
  unfoldable pub is_low : Snapshot fl.Carrier → Bool
  is_low s = fl.le s.max_cpu_percent (literal 20) && fl.le s.max_memory_percent (literal 50)

  unfoldable pub decide : Snapshot fl.Carrier → ℕ → Option Scaling × ℕ × Reason fl.Carrier
  unfolding is_high is_low
  decide s low_samples =
      let cpu = s.max_cpu_percent in
      let memory = s.max_memory_percent in
      if ltb s.replicas min_replicas || ltb max_replicas s.replicas
      then (none, 0, outside_bounds)
      else if is_high s
      then (if leb max_replicas s.replicas
          then (none, 0, at_maximum cpu memory)
          else (some scale_up, 0, above_threshold cpu memory (s.replicas + 1)))
      else if is_low s
      then (if leb s.replicas min_replicas
          then (none, 0, at_minimum)
          else let next_count = min (low_samples + 1) low_samples_required in
            if leb low_samples_required next_count
            then (some scale_down, 0, low_persisted cpu memory (s.replicas - 1))
            else (none, next_count, low_sample next_count))
      else (none, 0, no_threshold cpu memory s.replicas)

  -- `target`: the replica count that the action asks for.
  unfoldable pub target_of : Option Scaling → ℕ → ℕ
  target_of none n = n
  target_of (some scale_up) n = n + 1
  target_of (some scale_down) n = n - 1

  pub data EffectStatus : Type 0 where
    measured_improvement effect_not_confirmed efficiency_not_assessed : EffectStatus

  pub record Effect : Type 0 where
    pub cpu_delta : fl.Carrier
    pub memory_delta : fl.Carrier
    pub replica_delta : ℤ
    pub effect_status : EffectStatus

  -- `round(x, 2)` is a parameter.
  unfoldable pub measure_effect :
      (fl.Carrier → fl.Carrier) → Snapshot fl.Carrier → Snapshot fl.Carrier → Scaling → Effect
  measure_effect round before after action =
      let cpu_delta = round (fl.sub after.max_cpu_percent before.max_cpu_percent) in
      let memory_delta = round (fl.sub after.max_memory_percent before.max_memory_percent) in
      let improved =
        (fl.le (literal 75) before.max_cpu_percent && fl.le cpu_delta (fl.of_int (negsuc 0)))
        || (fl.le (literal 80) before.max_memory_percent
            && fl.le memory_delta (fl.of_int (negsuc 0))) in
      record {
        cpu_delta = cpu_delta;
        memory_delta = memory_delta;
        replica_delta = sub_ℕ after.replicas before.replicas;
        effect_status = elim action [
          | scale_up ↦ if improved then measured_improvement else effect_not_confirmed
          | scale_down ↦ efficiency_not_assessed
        ];
      }

-- The names of the exceptions that a cycle can meet.
pub data Exception : Type 0 where
  control_error os_error attribute_error unicode_error : Exception

-- What `state_path.read_text` and `json.loads` give.
pub data StateFile (F : Type 0) : Type 0 where
  not_found unreadable not_text not_json : StateFile F
  parsed : Value F → StateFile F

-- `count` is an integer that is no bool and not negative; any other counts as 0.
abbrev clamp_count : {F : Type 0} → Option (Value F) → ℕ
clamp_count none = 0
clamp_count (some (int (pos n))) = min n low_samples_required
clamp_count (some _) = 0

-- A file that is no UTF-8, and a JSON document that is no object and so has no `get`, raise
-- errors that the source does not catch.
unfoldable pub read_low_sample_count : {F : Type 0} → StateFile F → Result Exception ℕ
read_low_sample_count not_found = ok 0
read_low_sample_count unreadable = ok 0
read_low_sample_count not_text = err unicode_error
read_low_sample_count not_json = ok 0
read_low_sample_count (parsed (dict fs)) = ok (clamp_count (get "low_resource_samples" fs))
read_low_sample_count (parsed _) = err attribute_error
