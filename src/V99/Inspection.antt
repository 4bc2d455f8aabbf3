-- ===== src/V99/Inspection.antt =====
-- What an inspection of v99/core/agent.py and the status of a cycle of v99/core/scheduler.py prove.
use v91_core_system.Prelude.{
  ◌≤◌, ◌<◌, ◌==◌, String, ◌≡◌, refl, sym, ap, ◌∙◌, inl, inr, ◌⊎◌, true, not, Option, none, some,
  List, [], ◌∷◌, arith, eq_iff, Bool-cases, Option-cases, if_cases,
}
use v91_core_system.Prelude.Dict.{Dict}
use v91_core_system.Prelude.Result.{ok}
use v91_core_system.Prelude.Sorting.{sorted, one_of-sorted}
use v91_core_system.Prelude.Text.{one_of}
use v91_core_system.V99.Modules.{ModuleSpec}
use v91_core_system.V99.Registry.{Registry, keys, get_spec, get_adapter, list_module_ids}
use v91_core_system.V99.Agent.{
  ModuleReport, Adapter, checked_report, inspect_one, inspect_each, inspect_all,
}
use v91_core_system.V99.Severity.{severity, rank, severity_bound}
use v91_core_system.V99.Scheduler.{
  Moment, naive, aware, Scheduler, CycleResult, statuses_of, aggregate_of, result_of, run_cycle,
}

-- The adapter has answered the inspection with a report of its module.
pub record IsInspected (k : String) (adapter : Option Adapter) (r : ModuleReport) : Type 0 where
  pub answering : Adapter
  pub registered : adapter ≡ some answering
  pub answered : answering.inspect ≡ some r
  pub identity : r.module_id ≡ k

checked_report_cases :
    (k : String) (spec : ModuleSpec) (a : Adapter) (answer : Option ModuleReport)
    → a.inspect ≡ answer
    → ((checked_report k spec answer).status ≡ "UNKNOWN")
      ⊎ IsInspected k (some a) (checked_report k spec answer)
unfolding checked_report
checked_report_cases k spec a none e = inl refl
checked_report_cases k spec a (some r) e =
    let P = λ (x : ModuleReport). (x.status ≡ "UNKNOWN") ⊎ IsInspected k (some a) x in
    if_cases P (not (r.module_id == k)) (λ other. inl refl)
      λ same. inr (record {
        answering = a;
        registered = refl;
        answered = e;
        identity = ground (arith, eq_iff r.module_id k);
      })

inspect_one_cases :
    (k : String) (spec : ModuleSpec) (adapter : Option Adapter)
    → ((inspect_one k spec adapter).status ≡ "UNKNOWN")
      ⊎ IsInspected k adapter (inspect_one k spec adapter)
unfolding inspect_one
inspect_one_cases k spec none = inl refl
inspect_one_cases k spec (some a) = checked_report_cases k spec a a.inspect refl

one_of_head : (s : String) (l : List String) → one_of s (s ∷ l) ≡ true
one_of_head s l = ground (arith, eq_iff s s)

one_of_tail : (s t : String) (l : List String) → one_of s l ≡ true → one_of s (t ∷ l) ≡ true
one_of_tail s t l h = ground arith

-- The report of a module of the list is among the reports.
inspect_each_member :
    (ks : List String) (g : Registry Adapter) (rs : List ModuleReport) (k : String)
    → inspect_each ks g ≡ some rs
    → one_of k ks ≡ true
    → (spec : ModuleSpec) × (one_of (inspect_one k spec (get_adapter k g)).status (statuses_of rs)
        ≡ true)
unfolding inspect_each
inspect_each_member [] g rs k e h = cc
inspect_each_member (j ∷ ks) g rs k e h = elim (Option-cases (get_spec j g)) [
  | inl f ↦ absurd (ground (arith, f))
  | inr (spec, f) ↦ elim (Option-cases (inspect_each ks g)) [
    | inl q ↦ absurd (ground (arith, f, q))
    | inr (rest, q) ↦
        (let whole : inspect_one j spec (get_adapter j g) ∷ rest ≡ rs = ground (arith, f, q) in
          elim (Bool-cases (j == k)) [
            | inl same ↦
                (let id = (eq_iff j k).0 same in
                  (
                    spec,
                    ap (λ t. one_of (inspect_one t spec (get_adapter t g)).status (statuses_of rs))
                          (sym id)
                        ∙ ap
                            (λ x.
                              one_of (inspect_one j spec (get_adapter j g)).status (statuses_of x))
                            (sym whole)
                        ∙ one_of_head (inspect_one j spec (get_adapter j g)).status
                            (statuses_of rest),
                  ))
            | inr other ↦
                (let (s, m) = inspect_each_member ks g rest k q (ground (arith, other)) in
                  (
                    s,
                    rw (← whole) (
                        one_of_tail (inspect_one k s (get_adapter k g)).status
                          (inspect_one j spec (get_adapter j g)).status (statuses_of rest) m),
                  ))
          ])
  ]
]

severity_low : (s : String) → (s ≡ "HEALTHY") ⊎ (s ≡ "VERIFIED") → severity s < severity "UNKNOWN"
unfolding rank
severity_low s (inl e) = rw e (omega arith)
severity_low s (inr e) = rw e (omega arith)

-- The aggregate of reports is at least as severe as each of them.
aggregate_of_bound :
    (rs : List ModuleReport) (status : String)
    → one_of status (statuses_of rs) ≡ true
    → severity status ≤ severity (aggregate_of rs)
unfolding aggregate_of
aggregate_of_bound [] status h = cc
aggregate_of_bound (r ∷ rs) status h = severity_bound (statuses_of (r ∷ rs)) status h

below-IsInspected :
    (g : Registry Adapter) (rs : List ModuleReport) (k : String)
    → inspect_all g ≡ some rs
    → one_of k (keys g.specs) ≡ true
    → severity (aggregate_of rs) < severity "UNKNOWN"
    → (r : ModuleReport) × IsInspected k (get_adapter k g) r
unfolding inspect_all list_module_ids
below-IsInspected g rs k e h low =
    let (spec, m) =
      inspect_each_member (sorted (keys g.specs)) g rs k e (one_of-sorted k (keys g.specs) ∙ h) in
    elim (inspect_one_cases k spec (get_adapter k g)) [
      | inr inspected ↦ (inspect_one k spec (get_adapter k g), inspected)
      | inl unknown ↦ absurd (
          omega (
            arith,
            low,
            aggregate_of_bound rs "UNKNOWN" (ap (λ s. one_of s (statuses_of rs)) (sym unknown) ∙ m),
          ))
    ]

-- A cycle whose aggregate is HEALTHY or VERIFIED has a report of every registered module from its
-- own adapter.
pub healthy-IsInspected :
    (m1 m2 m3 : Moment) (g : Registry Adapter) (s s' : Scheduler) (result : CycleResult)
    (k : String)
    → run_cycle m1 m2 m3 g s ≡ (ok result, s')
    → (result.aggregate ≡ "HEALTHY") ⊎ (result.aggregate ≡ "VERIFIED")
    → one_of k (keys g.specs) ≡ true
    → (r : ModuleReport) × IsInspected k (get_adapter k g) r
unfolding run_cycle result_of
healthy-IsInspected naive m2 m3 g s s' result k e fine h = cc
healthy-IsInspected (aware t1) naive m3 g s s' result k e fine h =
    elim (Option-cases (inspect_all g)) [
      | inl f ↦ absurd (ground (arith, f))
      | inr (rs, f) ↦ absurd (ground (arith, f))
    ]
healthy-IsInspected (aware t1) (aware t2) naive g s s' result k e fine h =
    elim (Option-cases (inspect_all g)) [
      | inl f ↦ absurd (ground (arith, f))
      | inr (rs, f) ↦ absurd (ground (arith, f))
    ]
healthy-IsInspected (aware t1) (aware t2) (aware t3) g s s' result k e fine h =
    elim (Option-cases (inspect_all g)) [
      | inl f ↦ absurd (ground (arith, f))
      | inr (rs, f) ↦
          (let same : aggregate_of rs ≡ result.aggregate = ground (arith, f) in
            below-IsInspected g rs k f h (rw same (severity_low result.aggregate fine)))
    ]
