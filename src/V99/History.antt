-- ===== src/V99/History.antt =====
-- The bounded history of v99/core/scheduler.py is the end of an unbounded log, and when a cycle is due.
use native.Mathlib.Nat.{le-div_iff_mul-le}
use v91_core_system.Prelude.{
  ℕ, zero, suc, ◌-◌, ◌≤◌, ◌<◌, ltb, ◌≡◌, ◌↔◌, refl, sym, ap, ◌∙◌, inl, inr, true, none, some, List,
  [], ◌∷◌, ◌++◌, length, drop, length-append, length-drop, arith, Bool-cases, Option-cases,
  append-nil, append_assoc,
}
use v91_core_system.Prelude.Int.{ℤ, pos, negsuc, ◌-ℤ◌, leb_ℤ}
use v91_core_system.Prelude.Result.{Result, ok}
use v91_core_system.V99.Agent.{Adapter, inspect_all}
use v91_core_system.V99.Registry.{Registry}
use v91_core_system.V99.Scheduler.{
  Moment, naive, aware, Scheduler, SchedulerError, CycleResult, max_history, microseconds,
  whole_intervals, missed_intervals, due, now, result_of, trim, remember, run_cycle,
}

-- The last `n` of a list.
abbrev pub last_of {ℓ} : {A : Type ℓ} → ℕ → List A → List A
last_of n l = drop (length l - n) l

drop-append {ℓ} :
    {A : Type ℓ} (k : ℕ) (l m : List A) → k ≤ length l → drop k (l ++ m) ≡ drop k l ++ m
drop-append zero l m h = refl
drop-append (suc k) [] m h = absurd (omega arith)
drop-append (suc k) (x ∷ l) m h = drop-append k l m (omega arith)

drop_one {ℓ} : {A : Type ℓ} (k : ℕ) (l : List A) → drop 1 (drop k l) ≡ drop (suc k) l
drop_one zero l = refl
drop_one (suc k) [] = refl
drop_one (suc k) (x ∷ l) = drop_one k l

last_of-append {ℓ} :
    {A : Type ℓ} (n : ℕ) (l : List A) (x : A)
    → last_of (suc n) (last_of (suc n) l ++ (x ∷ [])) ≡ last_of (suc n) (l ++ (x ∷ []))
last_of-append n l x = elim (Bool-cases (ltb (suc n) (length l))) [
  | inr short ↦ (let e : length l - suc n ≡ 0 = ground arith in rw e (refl))
  | inl long ↦
      (let k = length l - suc n in
        let shorter = length-append (drop k l) (x ∷ []) in
        let whole = length-append l (x ∷ []) in
        let more : suc n < length l = ground arith in
        let a : length (drop k l ++ (x ∷ [])) - suc n ≡ 1 =
          omega (arith, shorter, length-drop k l) in
        let b : length (l ++ (x ∷ [])) - suc n ≡ suc k = omega (arith, whole) in
        ap (λ j. drop j (drop k l ++ (x ∷ []))) a
        ∙ ap (λ m. drop 1 m) (sym (drop-append k l (x ∷ []) (omega arith)))
        ∙ drop_one k (l ++ (x ∷ []))
        ∙ ap (λ j. drop j (l ++ (x ∷ []))) (sym b))
]

trim_last : (h : List CycleResult) → trim h ≡ last_of max_history h
unfolding trim
trim_last h = elim (Bool-cases (ltb max_history (length h))) [
  | inl long ↦ rw long (refl)
  | inr short ↦ (let e : length h - 100 ≡ 0 = ground arith in rw (short, e) (refl))
]

-- One cycle with its registry and the readings of its clock.
pub record Round : Type 0 where
  pub start : Moment
  pub finish : Moment
  pub remembered : Moment
  pub registry : Registry Adapter

unfoldable pub run_rounds : List Round → Scheduler → Scheduler
run_rounds [] s = s
run_rounds (c ∷ cs) s = run_rounds cs (run_cycle c.start c.finish c.remembered c.registry s).1

-- What a cycle adds to a log that keeps everything: its result, once the second reading is made.
unfoldable pub logged : Round → List CycleResult
logged c = elim c.start [
  | naive ↦ []
  | aware t1 ↦ elim c.finish [
    | naive ↦ []
    | aware t2 ↦ elim (inspect_all c.registry) [
      | none ↦ []
      | some rs ↦ result_of t1 t2 rs c.registry ∷ []
    ]
  ]
]

unfoldable pub log_of : List Round → List CycleResult
log_of [] = []
log_of (c ∷ cs) = logged c ++ log_of cs

remember_history :
    (r : CycleResult) (m : Moment) (s : Scheduler)
    → (remember r m s).1.history ≡ last_of max_history (s.history ++ (r ∷ []))
remember_history r naive s = trim_last (s.history ++ (r ∷ []))
remember_history r (aware t) s = trim_last (s.history ++ (r ∷ []))

remember_window :
    (r : CycleResult) (m : Moment) (s : Scheduler) (log : List CycleResult)
    → s.history ≡ last_of max_history log
    → (remember r m s).1.history ≡ last_of max_history (log ++ (r ∷ []))
remember_window r m s log e =
    remember_history r m s
    ∙ ap (λ h. last_of max_history (h ++ (r ∷ []))) e
    ∙ last_of-append 99 log r

same_window :
    (h log : List CycleResult) → h ≡ last_of max_history log → h ≡ last_of max_history (log ++ [])
same_window h log e = e ∙ ap (λ l. last_of max_history l) (sym (append-nil log))

cycle_window :
    (m1 m2 m3 : Moment) (g : Registry Adapter) (s : Scheduler) (log : List CycleResult)
    → s.history ≡ last_of max_history log
    → (run_cycle m1 m2 m3 g s).1.history
      ≡ last_of max_history
          (log ++ logged (record { start = m1; finish = m2; remembered = m3; registry = g }))
unfolding run_cycle logged
cycle_window naive m2 m3 g s log e = same_window s.history log e
cycle_window (aware t1) naive m3 g s log e = elim (Option-cases (inspect_all g)) [
  | inl f ↦ rw (run_cycle, logged, f) (same_window s.history log e)
  | inr (rs, f) ↦ rw (run_cycle, logged, f) (same_window s.history log e)
]
cycle_window (aware t1) (aware t2) m3 g s log e = elim (Option-cases (inspect_all g)) [
  | inl f ↦ rw (run_cycle, logged, f) (same_window s.history log e)
  | inr (rs, f) ↦ rw (run_cycle, logged, f) (remember_window (result_of t1 t2 rs g) m3 s log e)
]

rounds_window :
    (cs : List Round) (s : Scheduler) (log : List CycleResult)
    → s.history ≡ last_of max_history log
    → (run_rounds cs s).history ≡ last_of max_history (log ++ log_of cs)
unfolding run_rounds log_of
rounds_window [] s log e = same_window s.history log e
rounds_window (c ∷ cs) s log e =
    rounds_window cs (run_cycle c.start c.finish c.remembered c.registry s).1 (log ++ logged c)
      (cycle_window c.start c.finish c.remembered c.registry s log e)
    ∙ ap (λ l. last_of max_history l) (append_assoc log (logged c) (log_of cs))

abbrev pub fresh : ℕ → Scheduler
fresh interval = record { interval_seconds = interval; history = []; last_run = none }

-- After any cycles, those that raise among them, the history of a new scheduler is the last 100
-- entries of a log that keeps the results of them all, and has no more than 100.
pub history_window :
    (interval : ℕ) (cs : List Round)
    → ((run_rounds cs (fresh interval)).history ≡ last_of max_history (log_of cs))
      × (length (run_rounds cs (fresh interval)).history ≤ max_history)
history_window interval cs =
    let same = rounds_window cs (fresh interval) [] refl in
    (same, rw same (omega (arith, length-drop (length (log_of cs) - max_history) (log_of cs))))

ok_inj {ℓ} : {A : Type ℓ} {a b : A} → ◌≡◌ {A = Result SchedulerError A} (ok a) (ok b) → a ≡ b
ok_inj h = cc

whole_intervals_iff :
    (interval : ℕ) (d : ℤ)
    → 0 < interval
    → (leb_ℤ (pos (microseconds interval)) d ≡ true) ↔ (1 ≤ whole_intervals interval d)
unfolding whole_intervals
whole_intervals_iff interval (pos e) positive =
    let (up, down) = le-div_iff_mul-le {k = microseconds interval} {x = 1} {y = e} (omega arith) in
    (λ h. down (ground arith), λ h. let m = up h in ground arith)
whole_intervals_iff interval (negsuc e) positive =
    (λ h. absurd (ground arith), λ h. absurd (omega arith))

due_lem :
    (t last : ℤ) (s : Scheduler)
    → s.last_run ≡ some last
    → due (aware t) s ≡ ok (leb_ℤ (pos (microseconds s.interval_seconds)) (t -ℤ last))
unfolding due now
due_lem t last s e = rw (due, e) (refl)

missed_intervals_lem :
    (t last : ℤ) (s : Scheduler)
    → s.last_run ≡ some last
    → missed_intervals (aware t) s ≡ ok (whole_intervals s.interval_seconds (t -ℤ last))
unfolding missed_intervals now
missed_intervals_lem t last s e = rw (missed_intervals, e) (refl)

-- After a first run, with an interval of at least a second, a cycle is due exactly if an interval
-- or more has passed by `missed_intervals`.
pub due_iff_missed :
    (t last : ℤ) (s : Scheduler)
    → s.last_run ≡ some last
    → 0 < s.interval_seconds
    → (due (aware t) s ≡ ok true) ↔ ((n : ℕ) × (missed_intervals (aware t) s ≡ ok n) × (1 ≤ n))
due_iff_missed t last s e positive =
    let (up, down) = whole_intervals_iff s.interval_seconds (t -ℤ last) positive in
    (
      λ h. (
        whole_intervals s.interval_seconds (t -ℤ last),
        missed_intervals_lem t last s e,
        up (ok_inj (sym (due_lem t last s e) ∙ h)),
      ),
      λ x.
          due_lem t last s e
          ∙ ap (λ b. ok b) (down (rw (ok_inj (sym (missed_intervals_lem t last s e) ∙ x.1)) (x.2))),
    )
