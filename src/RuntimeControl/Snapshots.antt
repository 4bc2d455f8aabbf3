-- ===== src/RuntimeControl/Snapshots.antt =====
-- What a snapshot of controller/runtime_control.py proves of the containers that it observed.
use v91_core_system.Prelude.{
  ℕ, ◌≡◌, ◌≢◌, ◌==◌, refl, ◌∙◌, Bool, true, false, not, ◌||◌, Option, none, some, String, List, [],
  ◌∷◌, length, All, arith, eq_iff, if◌then◌else◌,
}
use v91_core_system.Prelude.Dict.{Dict, lookup}
use v91_core_system.Prelude.Float.{Floats}
use v91_core_system.Prelude.Int.{pos}
use v91_core_system.Prelude.Text.{one_of, lstrip_of}
use v91_core_system.Prelude.Value.{as_nonempty, Value, str, Fields}
use v91_core_system.RuntimeControl.Decision.{Snapshot, Observed}
use v91_core_system.RuntimeControl.Observation.{
  first_of_keys, word, Builtins, parse_percent, observe_worker, observe_all, snapshot_of,
  index_stats, summarize, count_running, ◌>>=◌,
}

>>=-eq-some :
    {A B : Type 0} (m : Option A) (f : A → Option B) {b : B}
    → (m >>= f) ≡ some b
    → (a : A) × (m ≡ some a) × (f a ≡ some b)
>>=-eq-some none f h = cc
>>=-eq-some (some a) f h = (a, refl, h)

unless-eq-some :
    {A : Type 0} (t : Bool) (m : Option A) {a : A}
    → (if t then none else m) ≡ some a
    → (t ≡ false) × (m ≡ some a)
unless-eq-some true m h = cc
unless-eq-some false m h = (refl, h)

module _ ⦃fl : Floats⦄ (b : Builtins fl.Carrier) where
  -- A container runs, is not reported unhealthy or starting, and its percentages are finite and
  -- not below 0.
  abbrev pub IsMeasured : Observed fl.Carrier → Type 0
  IsMeasured o =
      (o.state ≡ "running")
      × (o.health ≢ "unhealthy")
      × (o.health ≢ "starting")
      × (fl.is_finite o.cpu_percent ≡ true)
      × (fl.lt o.cpu_percent (fl.of_int (pos 0)) ≡ false)
      × (fl.is_finite o.memory_percent ≡ true)
      × (fl.lt o.memory_percent (fl.of_int (pos 0)) ≡ false)

  parse_percent_sound :
      (v : Value fl.Carrier) (x : fl.Carrier)
      → parse_percent v ≡ some x
      → (fl.is_finite x ≡ true) × (fl.lt x (fl.of_int (pos 0)) ≡ false)
  unfolding parse_percent
  parse_percent_sound (str s) x h = ground arith
  parse_percent_sound _ x h = cc

  assembled :
      (name state health : String) (cpu memory : fl.Carrier) {o : Observed fl.Carrier}
      → not (state == "running") || one_of health ("unhealthy" ∷ "starting" ∷ []) ≡ false
      → (fl.is_finite cpu ≡ true) × (fl.lt cpu (fl.of_int (pos 0)) ≡ false)
      → (fl.is_finite memory ≡ true) × (fl.lt memory (fl.of_int (pos 0)) ≡ false)
      → some (record {
        name = name;
        state = state;
        health = if health == "" then "not-reported" else health;
        cpu_percent = cpu;
        memory_percent = memory;
      })
        ≡ some o
      → IsMeasured o
  assembled name state health cpu memory fits c m h = ground (
    arith,
    eq_iff state "running",
    eq_iff "unhealthy" health,
    eq_iff "starting" health,
    eq_iff "not-reported" "unhealthy",
    eq_iff "not-reported" "starting",
  )

  observe_worker_sound :
      (stats : Dict (Fields fl.Carrier)) (item : Fields fl.Carrier) (o : Observed fl.Carrier)
      → observe_worker b stats item ≡ some o
      → IsMeasured o
  unfolding observe_worker
  observe_worker_sound stats item o h =
      let state = word b (first_of_keys "State" "state" item) in
      let health = word b (first_of_keys "Health" "health" item) in
      let (name, _, h1) = >>=-eq-some (as_nonempty (first_of_keys "Name" "name" item)) _ h in
      let (fits, h2) =
        unless-eq-some (not (state == "running") || one_of health ("unhealthy" ∷ "starting" ∷ [])) _
          h1 in
      let (measured, _, h3) = >>=-eq-some (lookup (lstrip_of "/" name) stats) _ h2 in
      let (cpu, e4, h4) =
        >>=-eq-some (parse_percent (first_of_keys "CPUPerc" "cpuperc" measured)) _ h3 in
      let (memory, e5, h5) =
        >>=-eq-some (parse_percent (first_of_keys "MemPerc" "memperc" measured)) _ h4 in
      let c = parse_percent_sound (first_of_keys "CPUPerc" "cpuperc" measured) cpu e4 in
      let m = parse_percent_sound (first_of_keys "MemPerc" "memperc" measured) memory e5 in
      assembled name state health cpu memory fits c m h5

  observe_all_sound :
      (stats : Dict (Fields fl.Carrier)) (items : List (Fields fl.Carrier))
      (os : List (Observed fl.Carrier))
      → observe_all b stats items ≡ some os
      → All IsMeasured os × (length os ≡ length items) × (count_running os ≡ length items)
  observe_all_sound stats [] os h = ground arith
  observe_all_sound stats (item ∷ items) os h =
      let (o, e, h1) = >>=-eq-some (observe_worker b stats item) _ h in
      let (rest, e', h2) = >>=-eq-some (observe_all b stats items) _ h1 in
      let (measured, counted, running) = observe_all_sound stats items rest e' in
      let m = observe_worker_sound stats item o e in
      let same : os ≡ o ∷ rest = cc in
      rw same ((m, measured), omega arith, ground (arith, eq_iff o.state "running"))

  summarize_sound :
      (project : String) (n : ℕ) (os : List (Observed fl.Carrier)) (s : Snapshot fl.Carrier)
      → summarize project n os ≡ some s
      → (s.containers ≡ os) × (s.replicas ≡ n) × (s.running ≡ count_running os)
  summarize_sound project n [] s h = cc
  summarize_sound project n (o ∷ os) s h = (cc, cc, cc)

  -- A snapshot exists only if every worker container runs, is not reported unhealthy or starting,
  -- and is measured by finite percentages that are not below 0. Then its replica count and its
  -- running count are both the number of worker records.
  pub snapshot_sound :
      (project : String) (workers stats : List (Fields fl.Carrier)) (s : Snapshot fl.Carrier)
      → snapshot_of b project workers stats ≡ some s
      → All IsMeasured s.containers
        × (length s.containers ≡ length workers)
        × (s.replicas ≡ length workers)
        × (s.running ≡ length workers)
  unfolding snapshot_of
  snapshot_sound project workers stats s h =
      let (os, e, h') = >>=-eq-some (observe_all b (index_stats stats []) workers) _ h in
      let (measured, counted, running) = observe_all_sound (index_stats stats []) workers os e in
      let (c, n, r) = summarize_sound project (length workers) os s h' in
      rw c (measured, counted, n, r ∙ running)
