-- ===== src/GlobalGuard/Verdict.antt =====
-- When a report of global_guard/scenario_runner.py passes.
use v91_core_system.Prelude.{
  suc, ◌+◌, ◌≤◌, ◌≡◌, refl, ap, Bool, true, false, not, ◌↔◌, some, List, [], ◌∷◌, All, arith,
  length, String, if◌then◌else◌,
}
use v91_core_system.Prelude.Float.{Floats}
use v91_core_system.Prelude.Value.{
  Value, null, bool, int, float, str, list, dict, Fields, get_value,
}
use v91_core_system.GlobalGuard.Policy.{GuardPolicy, given_policy, authorize_action}
use v91_core_system.GlobalGuard.Scenarios.{
  Status, pass, fail, invalid_scenario, is_pass, is_fail, is_invalid, count, same, judge,
  run_scenario, run_all, report_of, run_scenarios,
}

-- The parts of a report add up.
count_parts :
    (ss : List Status)
    → (count is_pass ss + count is_fail ss ≡ count (λ s. not (is_invalid s)) ss)
      × (count (λ s. not (is_invalid s)) ss + count is_invalid ss ≡ length ss)
unfolding count
count_parts [] = (refl, refl)
count_parts (pass ∷ ss) = (omega (arith, (count_parts ss).0), omega (arith, (count_parts ss).1))
count_parts (fail ∷ ss) = (omega (arith, (count_parts ss).0), omega (arith, (count_parts ss).1))
count_parts (invalid_scenario ∷ ss) =
    (omega (arith, (count_parts ss).0), omega (arith, (count_parts ss).1))

count_pass_bound : (ss : List Status) → count is_pass ss ≤ length ss
count_pass_bound ss = omega (arith, (count_parts ss).0, (count_parts ss).1)

full_count : (ss : List Status) → count is_pass ss ≡ length ss → All (λ s. s ≡ pass) ss
unfolding count
full_count [] h = tt
full_count (pass ∷ ss) h = (refl, full_count ss (omega arith))
full_count (fail ∷ ss) h = absurd (omega (arith, count_pass_bound ss))
full_count (invalid_scenario ∷ ss) h = absurd (omega (arith, count_pass_bound ss))

full_count_back : (ss : List Status) → All (λ s. s ≡ pass) ss → count is_pass ss ≡ length ss
unfolding count
full_count_back [] h = refl
full_count_back (s ∷ ss) (e, h) = rw e (omega (arith, full_count_back ss h))

report_passes :
    (ss : List Status) → ((report_of ss).status ≡ pass) ↔ ((1 ≤ length ss) × All (λ s. s ≡ pass) ss)
unfolding report_of
report_passes ss =
    let parts = count_parts ss in
    let p = count is_pass ss in
    (
      λ h. (ground (arith, parts.0, parts.1), full_count ss (ground (arith, parts.0, parts.1))),
      λ x. let q = full_count_back ss x.1 in ground (arith, parts.0, parts.1, q, x.0),
    )

same_pass : (f e : Bool) → (if same f e then pass else fail) ≡ pass → f ≡ e
same_pass true true h = refl
same_pass true false h = cc
same_pass false true h = cc
same_pass false false h = refl

pass_same : (f e : Bool) → f ≡ e → (if same f e then pass else fail) ≡ pass
pass_same true true h = refl
pass_same true false h = cc
pass_same false true h = cc
pass_same false false h = refl

module _ ⦃fl : Floats⦄ (text_of : Value fl.Carrier → String) where
  -- A scenario that is an object with a request and an expectation, which the gate meets.
  pub record IsMet (p : GuardPolicy) (s : Value fl.Carrier) : Type 0 where
    pub fields : Fields fl.Carrier
    pub request : Fields fl.Carrier
    pub expected : Bool
    pub is_object : s ≡ dict fields
    pub has_request : get_value "request" fields ≡ dict request
    pub has_expected : get_value "expected_allowed" fields ≡ bool expected
    pub met :
        (authorize_action text_of (dict request) (given_policy p) (bool false)).allowed ≡ expected

  judge_pass :
      (p : GuardPolicy) (r e : Value fl.Carrier)
      → judge text_of p r e ≡ pass
      → (request : Fields fl.Carrier) × (expected : Bool) × (r ≡ dict request)
        × (e ≡ bool expected)
        × ((authorize_action text_of (dict request) (given_policy p) (bool false)).allowed
            ≡ expected)
  judge_pass p (dict r) (bool b) h = (
    r,
    b,
    refl,
    refl,
    same_pass (authorize_action text_of (dict r) (given_policy p) (bool false)).allowed b h,
  )
  judge_pass p (dict r) null h = cc
  judge_pass p (dict r) (int n) h = cc
  judge_pass p (dict r) (float x) h = cc
  judge_pass p (dict r) (str s) h = cc
  judge_pass p (dict r) (list l) h = cc
  judge_pass p (dict r) (dict d) h = cc
  judge_pass p null e h = cc
  judge_pass p (bool b) e h = cc
  judge_pass p (int n) e h = cc
  judge_pass p (float x) e h = cc
  judge_pass p (str s) e h = cc
  judge_pass p (list l) e h = cc

  scenario-IsMet :
      (p : GuardPolicy) (s : Value fl.Carrier) → run_scenario text_of p s ≡ pass → IsMet p s
  unfolding run_scenario
  scenario-IsMet p (dict fs) h =
      let (r, e, has_r, has_e, met) =
        judge_pass p (get_value "request" fs) (get_value "expected_allowed" fs) h in
      record {
        fields = fs;
        request = r;
        expected = e;
        is_object = refl;
        has_request = has_r;
        has_expected = has_e;
        met = met;
      }
  scenario-IsMet p null h = cc
  scenario-IsMet p (bool b) h = cc
  scenario-IsMet p (int n) h = cc
  scenario-IsMet p (float x) h = cc
  scenario-IsMet p (str s) h = cc
  scenario-IsMet p (list l) h = cc

  run_scenario_pass :
      (p : GuardPolicy) (s : Value fl.Carrier) → (run_scenario text_of p s ≡ pass) ↔ IsMet p s
  unfolding run_scenario
  run_scenario_pass p s = (
    scenario-IsMet p s,
    λ h.
        rw (h.is_object, h.has_request, h.has_expected)
          (pass_same
            (authorize_action text_of (dict h.request) (given_policy p) (bool false)).allowed
            h.expected h.met),
  )

  run_all_pass :
      (p : GuardPolicy) (ss : List (Value fl.Carrier))
      → (All (λ s. s ≡ pass) (run_all text_of p ss)) ↔ All (IsMet p) ss
  unfolding run_all
  run_all_pass p [] = (λ h. tt, λ h. tt)
  run_all_pass p (s ∷ ss) =
      let here = run_scenario_pass p s in
      let there = run_all_pass p ss in
      (λ h. (here.0 h.0, there.0 h.1), λ h. (here.1 h.0, there.1 h.1))

  length-run_all :
      (p : GuardPolicy) (ss : List (Value fl.Carrier)) → length (run_all text_of p ss) ≡ length ss
  unfolding run_all
  length-run_all p [] = refl
  length-run_all p (s ∷ ss) = ap suc (length-run_all p ss)

  -- A report with a policy passes exactly if there are scenarios and each is an object with a
  -- request that is an object and a Boolean expectation, which the gate meets without approval.
  pub scenarios_pass :
      (p : GuardPolicy) (ss : List (Value fl.Carrier))
      → ((run_scenarios text_of (some p) ss).status ≡ pass) ↔ ((1 ≤ length ss) × All (IsMet p) ss)
  unfolding run_scenarios
  scenarios_pass p ss =
      let report = report_passes (run_all text_of p ss) in
      let all = run_all_pass p ss in
      let same_length = length-run_all p ss in
      (
        λ h. (rw same_length at ((report.0 h).0), all.0 (report.0 h).1),
        λ x. report.1 (rw same_length (x.0), all.1 x.1),
      )
