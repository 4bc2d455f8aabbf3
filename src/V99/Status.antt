-- ===== src/V99/Status.antt =====
-- v99/core/status.py. A status is its text, since a report may hold any text.
use v91_core_system.Prelude.{String, List, [], ◌∷◌, if◌then◌else◌}
use v91_core_system.Prelude.Text.{one_of}

-- `reversed(_AGGREGATE_ORDER)`
abbrev pub aggregate_order : List String
aggregate_order =
    "FAILED" ∷ "ISOLATED" ∷ "UNKNOWN" ∷ "DEGRADED" ∷ "RECOVERING" ∷ "HEALTHY" ∷ "VERIFIED" ∷ []

-- The loop over the levels.
unfoldable pub first_level : List String → List String → String
first_level [] values = "UNKNOWN"
first_level (level ∷ levels) values =
    let rest = first_level levels values in if one_of level values then level else rest

unfoldable pub aggregate_status : List String → String
aggregate_status statuses = first_level aggregate_order statuses
