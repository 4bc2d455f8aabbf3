-- ===== src/Worker/Outcomes.antt =====
-- The results and the files that controller/worker.py leaves, whatever calls fail.
use v91_core_system.Prelude.{
  String, ◌≡◌, refl, ap, ◌∙◌, inl, inr, ◌⊎◌, Option, none, some, List, [], ◌∷◌,
}
use v91_core_system.Prelude.Dict.{lookup}
use v91_core_system.Prelude.Result.{ok, err}
use v91_core_system.Prelude.Sorting.{sorted}
use v91_core_system.Worker.Task.{os_error, FileSystem}
use v91_core_system.Worker.Queue.{
  ResultFile, Queue, names_of, Rename, renamed, gone, refused, Calls, Documents, ◌>>=◌, claim,
  claim_one, process_one,
}
use v91_core_system.Worker.Keeping.{IsStable, process_claimed-Keeps}
use v91_core_system.Worker.Places.{HasResult, HasResult-IsStable}

Rename-cases : (r : Rename) → (r ≡ renamed) ⊎ (r ≡ gone) ⊎ (r ≡ refused)
Rename-cases renamed = inl refl
Rename-cases gone = inr (inl refl)
Rename-cases refused = inr (inr refl)

module _ {F : Type 0} (fs : FileSystem) (docs : Documents F) where
  -- A pending file is moved under its new name, or none is and nothing changes.
  claim_one_cases :
      (rename : String → Rename) (names : List String) (q : Queue docs.Document)
      → ((n : String) × (claim_one fs docs rename names q
            ≡ (ok (some n), claim fs docs n (lookup n q.pending) q)))
        ⊎ (claim_one fs docs rename names q ≡ (ok none, q))
        ⊎ (claim_one fs docs rename names q ≡ (err os_error, q))
  unfolding claim_one
  claim_one_cases rename [] q = inr (inl refl)
  claim_one_cases rename (name ∷ names) q = elim (Rename-cases (rename name)) [
    | inl e ↦ inl (name, rw (claim_one, e) (refl))
    | inr (inl e) ↦ rw (claim_one, e) (claim_one_cases rename names q)
    | inr (inr e) ↦ inr (inr (rw (claim_one, e) (refl)))
  ]

  -- What holds of the queue once a file is claimed and what is stable holds after `process_one`.
  process_one_rest :
      (P : Queue docs.Document → Type 0) (c : Calls) (q : Queue docs.Document)
      → IsStable P
      → P q
      → ((n : String) → P (claim fs docs n (lookup n q.pending) q))
      → P (process_one fs docs c q).1
  unfolding process_one ◌>>=◌
  process_one_rest P c q s p h = elim (claim_one_cases c.claim (sorted (names_of q.pending)) q) [
    | inl (n, e) ↦ rw e (
        (process_claimed-Keeps fs docs P c (some n) s).at (claim fs docs n (lookup n q.pending) q)
          (h n))
    | inr (inl e) ↦ rw e (p)
    | inr (inr e) ↦ rw e (p)
  ]

  claim_results :
      (n : String) (found : Option docs.Document) (q : Queue docs.Document)
      → (claim fs docs n found q).results ≡ q.results
  claim_results n none q = refl
  claim_results n (some d) q = refl

  process_one_results :
      (c : Calls) (q : Queue docs.Document) (id : String) (r : ResultFile)
      → lookup id q.results ≡ some r
      → lookup id (process_one fs docs c q).1.results ≡ some r
  process_one_results c q id r h =
      process_one_rest (HasResult id r) c q (HasResult-IsStable id r) h
        (λ n. ap (λ x. lookup id x) (claim_results n (lookup n q.pending) q) ∙ h)

  unfoldable pub process_all : List Calls → Queue docs.Document → Queue docs.Document
  process_all [] q = q
  process_all (c ∷ cs) q = process_all cs (process_one fs docs c q).1

  -- Whatever tasks are processed and whatever calls fail, a result file that is there stays as it is.
  pub results_kept :
      (cs : List Calls) (q : Queue docs.Document) (id : String) (r : ResultFile)
      → lookup id q.results ≡ some r
      → lookup id (process_all cs q).results ≡ some r
  unfolding process_all
  results_kept [] q id r h = h
  results_kept (c ∷ cs) q id r h =
      results_kept cs (process_one fs docs c q).1 id r (process_one_results c q id r h)
