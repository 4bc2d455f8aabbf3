-- ===== src/V99/Scheduler.antt =====
-- v99/core/scheduler.py: `CycleScheduler`. Times are whole microseconds; a reading of the clock may
-- lack a timezone, and is then a ValueError.
use v91_core_system.Prelude.{
  ℕ, ◌-◌, ◌*◌, ◌/◌, ltb, String, Bool, true, Option, none, some, List, [], ◌∷◌, ◌++◌, length, drop,
  map, if◌then◌else◌,
}
use v91_core_system.Prelude.Dict.{Dict, insert}
use v91_core_system.Prelude.Int.{ℤ, pos, negsuc, ◌-ℤ◌, leb_ℤ}
use v91_core_system.Prelude.Result.{Result, ok, err, ◌>>=◌}
use v91_core_system.V99.Agent.{
  ModuleReport, Adapter, Outcome, inspect_all, prepare_repairs, execute_safe_repairs,
}
use v91_core_system.V99.Registry.{Registry}
use v91_core_system.V99.Status.{aggregate_status}

abbrev pub max_history : ℕ
max_history = 100

pub data Moment : Type 0 where
  naive : Moment
  aware : ℤ → Moment

pub data SchedulerError : Type 0 where
  no_timezone key_error : SchedulerError

pub record CycleResult : Type 0 where
  pub started_at : ℤ
  pub finished_at : ℤ
  pub aggregate : String
  pub module_statuses : Dict String
  pub proposals : ℕ
  pub executed : List (String × Outcome)

pub record Scheduler : Type 0 where
  pub interval_seconds : ℕ
  pub history : List CycleResult
  pub last_run : Option ℤ

unfoldable pub now : Moment → Result SchedulerError ℤ
now naive = err no_timezone
now (aware t) = ok t

abbrev pub microseconds : ℕ → ℕ
microseconds s = s * 1000000

-- `max(0, int(elapsed // interval))`
unfoldable pub whole_intervals : ℕ → ℤ → ℕ
whole_intervals interval (pos elapsed) = elapsed / microseconds interval
whole_intervals interval (negsuc _) = 0

unfoldable pub missed_intervals : Moment → Scheduler → Result SchedulerError ℕ
unfolding whole_intervals
missed_intervals m s = elim s.last_run [
  | none ↦ ok 0
  | some last ↦ now m >>= λ t. ok (whole_intervals s.interval_seconds (t -ℤ last))
]

unfoldable pub due : Moment → Scheduler → Result SchedulerError Bool
due m s = elim s.last_run [
  | none ↦ ok true
  | some last ↦ now m >>= λ t. ok (leb_ℤ (pos (microseconds s.interval_seconds)) (t -ℤ last))
]

abbrev pub statuses_of : List ModuleReport → List String
statuses_of = map (λ r. r.status)

unfoldable pub status_dict : List ModuleReport → Dict String → Dict String
status_dict [] d = d
status_dict (r ∷ rs) d = status_dict rs (insert r.module_id r.status d)

-- Without modules the aggregate is UNKNOWN.
unfoldable pub aggregate_of : List ModuleReport → String
aggregate_of [] = "UNKNOWN"
aggregate_of (r ∷ rs) = aggregate_status (statuses_of (r ∷ rs))

-- The result between its two readings of the clock.
unfoldable pub result_of : ℤ → ℤ → List ModuleReport → Registry Adapter → CycleResult
unfolding status_dict aggregate_of
result_of started finished reports g = record {
  started_at = started;
  finished_at = finished;
  aggregate = aggregate_of reports;
  module_statuses = status_dict reports [];
  proposals = length (prepare_repairs g);
  executed = (execute_safe_repairs (prepare_repairs g) g).results;
}

-- `self.history[-MAX_HISTORY:]` of a history that is longer.
unfoldable pub trim : List CycleResult → List CycleResult
trim h = if ltb max_history (length h) then drop (length h - max_history) h else h

-- The append, and the reading of the clock after it.
abbrev pub remember :
    CycleResult → Moment → Scheduler → Result SchedulerError CycleResult × Scheduler
remember r naive s = (err no_timezone, record s { history = trim (s.history ++ (r ∷ [])) })
remember r (aware t) s =
    (ok r, record s { history = trim (s.history ++ (r ∷ [])); last_run = some t })

-- The cycle with the three readings of the clock that it makes.
unfoldable pub run_cycle :
    Moment
    → Moment
    → Moment
    → Registry Adapter
    → Scheduler
    → Result SchedulerError CycleResult × Scheduler
unfolding trim
run_cycle naive m2 m3 g s = (err no_timezone, s)
run_cycle (aware started) m2 m3 g s = elim (inspect_all g) [
  | none ↦ (err key_error, s)
  | some reports ↦ elim m2 [
    | naive ↦ (err no_timezone, s)
    | aware finished ↦ remember (result_of started finished reports g) m3 s
  ]
]
