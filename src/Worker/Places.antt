-- ===== src/Worker/Places.antt =====
-- What the steps of controller/worker.py keep of the results and of the places of a file.
use v91_core_system.Prelude.{
  ◌==◌, String, ◌≡◌, refl, ap, ◌∙◌, inl, inr, ◌⊎◌, Bool, false, not, Option, none, some, arith,
  eq_iff, Bool-cases, if_cases,
}
use v91_core_system.Prelude.Dict.{
  Dict, lookup, contains, insert, erase, lookup-insert, lookup-erase,
}
use v91_core_system.Prelude.Result.{Result}
use v91_core_system.Worker.Task.{TaskError, is_task_id}
use v91_core_system.Worker.Queue.{
  ResultFile, Queue, Write, written, removed, left, append_audit, write_file, atomic_result,
  move_done, finish, move_failed, set_aside,
}
use v91_core_system.Worker.Keeping.{IsStable}

module _ {D : Type 0} where
  abbrev pub HasResult : String → ResultFile → Queue D → Type 0
  HasResult id r q = lookup id q.results ≡ some r

  set_aside_results :
      (raises : Bool) (name : String) (q : Queue D) → (set_aside raises name q).results ≡ q.results
  unfolding set_aside
  set_aside_results raises name q = ground arith

  set_aside_pending :
      (raises : Bool) (name : String) (q : Queue D) → (set_aside raises name q).pending ≡ q.pending
  unfolding set_aside
  set_aside_pending raises name q = ground arith

  finish_results :
      (raises : Bool) (name : String) (q : Queue D) → (finish raises name q).1.results ≡ q.results
  unfolding finish
  finish_results raises name q = ground arith

  finish_pending :
      (raises : Bool) (name : String) (q : Queue D) → (finish raises name q).1.pending ≡ q.pending
  unfolding finish
  finish_pending raises name q = ground arith

  write_kept :
      (w : Write) (k id : String) (r s : ResultFile) (q : Queue D)
      → HasResult id r q
      → contains k q.results ≡ false
      → HasResult id r (write_file w k s q).1
  write_kept written k id r s q h fresh =
      ground (arith, eq_iff k id, lookup-insert k id s q.results)
  write_kept removed k id r s q h fresh = h
  write_kept left k id r s q h fresh =
      ground (arith, eq_iff k id, lookup-insert k id ResultFile.partial q.results)

  atomic_kept :
      (w : Write) (k id : String) (r s : ResultFile) (q : Queue D)
      → HasResult id r q
      → HasResult id r (atomic_result w k s q).1
  unfolding atomic_result
  atomic_kept w k id r s q h =
      let P = λ (out : Result TaskError (Unit {0}) × Queue D). HasResult id r out.1 in
      if_cases P (not (is_task_id k)) (λ bad. h)
        λ good. if_cases P (contains k q.results) (λ there. h) (write_kept w k id r s q h)

  pub HasResult-IsStable : (id : String) (r : ResultFile) → IsStable (HasResult id r)
  unfolding append_audit
  HasResult-IsStable id r = record {
    appended = λ raises e. record { at = λ q p. ground arith };
    recorded = λ w k s. record { at = λ q p. atomic_kept w k id r s q p };
    moved = λ raises name. record {
      at = λ q p. ap (λ x. lookup id x) (finish_results raises name q) ∙ p;
    };
    put_aside = λ raises name q p. ap (λ x. lookup id x) (set_aside_results raises name q) ∙ p;
  }

  atomic_directories :
      (w : Write) (k : String) (s : ResultFile) (q : Queue D)
      → ((atomic_result w k s q).1.pending ≡ q.pending)
        × ((atomic_result w k s q).1.processing ≡ q.processing)
        × ((atomic_result w k s q).1.done ≡ q.done)
        × ((atomic_result w k s q).1.failed ≡ q.failed)
  unfolding atomic_result
  atomic_directories written k s q = (ground arith, ground arith, ground arith, ground arith)
  atomic_directories removed k s q = (ground arith, ground arith, ground arith, ground arith)
  atomic_directories left k s q = (ground arith, ground arith, ground arith, ground arith)

  abbrev pub IsPending : String → D → Queue D → Type 0
  IsPending name d q = lookup name q.pending ≡ some d

  pub IsPending-IsStable : (name : String) (d : D) → IsStable (IsPending name d)
  unfolding append_audit
  IsPending-IsStable name d = record {
    appended = λ raises e. record { at = λ q p. ground arith };
    recorded =
        λ w k s. record { at = λ q p. ap (λ x. lookup name x) (atomic_directories w k s q).0 ∙ p };
    moved =
        λ raises t. record { at = λ q p. ap (λ x. lookup name x) (finish_pending raises t q) ∙ p };
    put_aside = λ raises t q p. ap (λ x. lookup name x) (set_aside_pending raises t q) ∙ p;
  }

  -- The document stands under a name in processing, or in done or failed and not in processing.
  abbrev pub IsClaimed : String → D → Queue D → Type 0
  IsClaimed name d q =
      (lookup name q.processing ≡ some d)
      ⊎ ((lookup name q.processing ≡ none)
          × ((lookup name q.done ≡ some d) ⊎ (lookup name q.failed ≡ some d)))

  -- A file that is taken out of processing and put into another directory.
  moved_file :
      (t name : String) (d x : D) (processing directory : Dict D)
      → lookup t processing ≡ some x
      → lookup name processing ≡ some d
      → (lookup name (erase t processing) ≡ some d)
        ⊎ ((lookup name (erase t processing) ≡ none)
            × (lookup name (insert t x directory) ≡ some d))
  moved_file t name d x processing directory e p = elim (Bool-cases (t == name)) [
    | inl same ↦ inr (
      ground (arith, same, lookup-erase t name processing),
      ground (arith, (eq_iff t name).0 same, eq_iff t name, lookup-insert t name x directory),
    )
    | inr other ↦ inl (ground (arith, other, lookup-erase t name processing))
  ]

  other_file :
      (t name : String) (x : D) (processing : Dict D)
      → lookup t processing ≡ some x
      → lookup name processing ≡ none
      → (t == name ≡ false) × (lookup name (erase t processing) ≡ none)
  other_file t name x processing e n = elim (Bool-cases (t == name)) [
    | inl same ↦ absurd (let k = (eq_iff t name).0 same in cc)
    | inr other ↦ (other, ground (arith, other, lookup-erase t name processing))
  ]

  kept_file :
      (t name : String) (d x : D) (directory : Dict D)
      → t == name ≡ false
      → lookup name directory ≡ some d
      → lookup name (insert t x directory) ≡ some d
  kept_file t name d x directory other p = ground (arith, lookup-insert t name x directory)

  move_done-IsClaimed :
      (t name : String) (d : D) (found : Option D) (q : Queue D)
      → lookup t q.processing ≡ found
      → IsClaimed name d q
      → IsClaimed name d (move_done t found q).1
  move_done-IsClaimed t name d none q e p = p
  move_done-IsClaimed t name d (some x) q e (inl p) =
      elim (moved_file t name d x q.processing q.done e p) [
        | inl still ↦ inl still
        | inr (out, there) ↦ inr (out, inl there)
      ]
  move_done-IsClaimed t name d (some x) q e (inr (n, inl p)) =
      let (other, out) = other_file t name x q.processing e n in
      inr (out, inl (kept_file t name d x q.done other p))
  move_done-IsClaimed t name d (some x) q e (inr (n, inr p)) =
      inr ((other_file t name x q.processing e n).1, inr p)

  move_failed-IsClaimed :
      (t name : String) (d : D) (found : Option D) (q : Queue D)
      → lookup t q.processing ≡ found
      → IsClaimed name d q
      → IsClaimed name d (move_failed t found q)
  move_failed-IsClaimed t name d none q e p = p
  move_failed-IsClaimed t name d (some x) q e (inl p) =
      elim (moved_file t name d x q.processing q.failed e p) [
        | inl still ↦ inl still
        | inr (out, there) ↦ inr (out, inr there)
      ]
  move_failed-IsClaimed t name d (some x) q e (inr (n, inl p)) =
      inr ((other_file t name x q.processing e n).1, inl p)
  move_failed-IsClaimed t name d (some x) q e (inr (n, inr p)) =
      let (other, out) = other_file t name x q.processing e n in
      inr (out, inr (kept_file t name d x q.failed other p))

  IsClaimed-same :
      (name : String) (d : D) (q r : Queue D)
      → (r.processing ≡ q.processing) × (r.done ≡ q.done) × (r.failed ≡ q.failed)
      → IsClaimed name d q
      → IsClaimed name d r
  IsClaimed-same name d q r (e1, e2, e3) (inl p) = inl (ap (λ x. lookup name x) e1 ∙ p)
  IsClaimed-same name d q r (e1, e2, e3) (inr (n, inl p)) =
      inr (ap (λ x. lookup name x) e1 ∙ n, inl (ap (λ x. lookup name x) e2 ∙ p))
  IsClaimed-same name d q r (e1, e2, e3) (inr (n, inr p)) =
      inr (ap (λ x. lookup name x) e1 ∙ n, inr (ap (λ x. lookup name x) e3 ∙ p))

  pub IsClaimed-IsStable : (name : String) (d : D) → IsStable (IsClaimed name d)
  unfolding append_audit finish set_aside
  IsClaimed-IsStable name d = record {
    appended = λ raises e. record {
      at = λ q p.
          IsClaimed-same name d q (append_audit raises e q).1
            (ground arith, ground arith, ground arith) p;
    };
    recorded = λ w k s. record {
      at = λ q p.
          let (a, b, c, e) = atomic_directories w k s q in
          IsClaimed-same name d q (atomic_result w k s q).1 (b, c, e) p;
    };
    moved = λ raises t. record {
      at = λ q p.
          if_cases (λ (out : Result TaskError (Unit {0}) × Queue D). IsClaimed name d out.1) raises
            (λ _. p) (λ _. move_done-IsClaimed t name d (lookup t q.processing) q refl p);
    };
    put_aside = λ raises t q p.
        if_cases (IsClaimed name d) raises (λ _. p)
          (λ _. move_failed-IsClaimed t name d (lookup t q.processing) q refl p);
  }
