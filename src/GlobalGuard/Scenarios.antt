-- ===== src/GlobalGuard/Scenarios.antt =====
-- global_guard/scenario_runner.py: `run_scenarios`. The names of the results and the parts of a
-- decision that a result repeats are left out.
use v91_core_system.Prelude.{
  ℕ, suc, eqb, ltb, Bool, true, false, not, ◌&&◌, Option, none, some, List, [], ◌∷◌, length, String,
  if◌then◌else◌,
}
use v91_core_system.Prelude.Float.{Floats}
use v91_core_system.Prelude.Value.{Value, bool, dict, get_value}
use v91_core_system.GlobalGuard.Policy.{GuardPolicy, given_policy, default_policy, authorize_action}

pub data Status : Type 0 where
  pass fail invalid_scenario : Status

pub record Summary : Type 0 where
  pub total : ℕ
  pub valid : ℕ
  pub passed : ℕ
  pub failed : ℕ
  pub invalid : ℕ

pub record Report : Type 0 where
  pub status : Status
  pub summary : Summary
  pub results : List Status

abbrev pub is_pass : Status → Bool
is_pass pass = true
is_pass _ = false

abbrev pub is_fail : Status → Bool
is_fail fail = true
is_fail _ = false

abbrev pub is_invalid : Status → Bool
is_invalid invalid_scenario = true
is_invalid _ = false

-- `sum(p(item) for item in results)`
unfoldable pub count : (Status → Bool) → List Status → ℕ
count p [] = 0
count p (s ∷ ss) = let rest = count p ss in if p s then suc rest else rest

abbrev pub same : Bool → Bool → Bool
same true b = b
same false b = not b

-- The end of `run_scenarios`: the verdict on the results.
unfoldable pub report_of : List Status → Report
report_of results =
    let valid = count (λ s. not (is_invalid s)) results in
    let passed = count is_pass results in
    record {
      status = if ltb 0 valid && eqb passed valid && eqb valid (length results) then pass else fail;
      summary = record {
        total = length results;
        valid = valid;
        passed = passed;
        failed = count is_fail results;
        invalid = count is_invalid results;
      };
      results = results;
    }

module _ ⦃fl : Floats⦄ (text_of : Value fl.Carrier → String) where
  abbrev pub judge : GuardPolicy → Value fl.Carrier → Value fl.Carrier → Status
  judge p (dict r) (bool expected) =
      let found = (authorize_action text_of (dict r) (given_policy p) (bool false)).allowed in
      if same found expected then pass else fail
  judge p _ _ = invalid_scenario

  -- The body of the loop.
  unfoldable pub run_scenario : GuardPolicy → Value fl.Carrier → Status
  run_scenario p (dict s) = judge p (get_value "request" s) (get_value "expected_allowed" s)
  run_scenario p _ = invalid_scenario

  unfoldable pub run_all : GuardPolicy → List (Value fl.Carrier) → List Status
  run_all p [] = []
  run_all p (s ∷ ss) = run_scenario p s ∷ run_all p ss

  unfoldable pub run_scenarios : Option GuardPolicy → List (Value fl.Carrier) → Report
  run_scenarios none scenarios = report_of (run_all default_policy scenarios)
  run_scenarios (some p) scenarios = report_of (run_all p scenarios)
