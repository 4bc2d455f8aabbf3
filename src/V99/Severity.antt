-- ===== src/V99/Severity.antt =====
-- The aggregate of v99/core/status.py is the worst status there is.
use v91_core_system.Prelude.{
  ℕ, suc, ◌≤◌, ◌==◌, String, ◌≡◌, refl, inl, inr, ◌⊎◌, true, false, List, [], ◌∷◌, length, All, any,
  arith, eq_iff, Bool-cases, if◌then◌else◌,
}
use v91_core_system.Prelude.Text.{one_of}
use v91_core_system.V99.Status.{aggregate_order, first_level, aggregate_status}

-- The place of a status among the levels, from the last on, and 0 if it is none of them.
unfoldable pub rank : List String → String → ℕ
rank [] s = 0
rank (l ∷ ls) s = let rest = rank ls s in if l == s then suc (length ls) else rest

-- The levels as the documentation has them: FAILED before UNKNOWN before HEALTHY.
abbrev pub severity : String → ℕ
severity s =
    rank
      ("FAILED" ∷ "ISOLATED" ∷ "UNKNOWN" ∷ "DEGRADED" ∷ "RECOVERING" ∷ "HEALTHY" ∷ "VERIFIED" ∷ [])
      s

rank-le-length : (ls : List String) (s : String) → rank ls s ≤ length ls
unfolding rank
rank-le-length [] s = omega arith
rank-le-length (l ∷ ls) s = ground (arith, rank-le-length ls s)

-- The rank under a level that no value has.
rank_of_rest :
    (l s : String) (ls : List String) (values : List String)
    → one_of l values ≡ false
    → one_of s values ≡ true
    → rank (l ∷ ls) s ≡ rank ls s
unfolding rank
rank_of_rest l s ls [] h k = cc
rank_of_rest l s ls (v ∷ vs) h k =
    ground (arith, eq_iff l s, eq_iff v l, eq_iff v s, rank_of_rest l s ls vs)

first_level_bound :
    (ls : List String) (values : List String) (s : String)
    → one_of s values ≡ true
    → rank ls s ≤ rank ls (first_level ls values)
unfolding rank first_level
first_level_bound [] values s h = omega arith
first_level_bound (l ∷ ls) values s h = elim (Bool-cases (one_of l values)) [
  | inl here ↦ rw here (ground (arith, eq_iff l l, rank-le-length (l ∷ ls) s))
  | inr absent ↦ rw absent (
      ground (
        arith,
        rank_of_rest l s ls values absent h,
        first_level_bound ls values s h,
        rank-le-length ls (first_level ls values),
      ))
]

-- A level that is found, or the default where no level is there.
first_level_among :
    (ls : List String) (values : List String)
    → (one_of (first_level ls values) values ≡ true)
      ⊎ ((first_level ls values ≡ "UNKNOWN") × (any (λ l. one_of l values) ls ≡ false))
unfolding first_level
first_level_among [] values = inr (refl, refl)
first_level_among (l ∷ ls) values = elim (Bool-cases (one_of l values)) [
  | inl here ↦ rw here (inl here)
  | inr absent ↦ rw absent (first_level_among ls values)
]

members-All {κ} :
    (P : String → Type κ) (values : List String)
    → ((s : String) → one_of s values ≡ true → P s)
    → All P values
members-All P [] h = tt
members-All P (v ∷ vs) h =
    (h v (ground (arith, eq_iff v v)), members-All P vs (λ s m. h s (ground (arith, m))))

-- Every status is at most as severe as the aggregate, which is one of them, or UNKNOWN where none
-- of them is a level.
pub aggregate_worst :
    (values : List String)
    → All (λ s. severity s ≤ severity (aggregate_status values)) values
      × ((one_of (aggregate_status values) values ≡ true)
          ⊎ ((aggregate_status values ≡ "UNKNOWN")
              × (any (λ l. one_of l values) aggregate_order ≡ false)))
unfolding aggregate_status
aggregate_worst values = (
  members-All (λ s. severity s ≤ severity (aggregate_status values)) values
      (first_level_bound aggregate_order values),
  first_level_among aggregate_order values,
)

pub severity_bound :
    (values : List String) (s : String)
    → one_of s values ≡ true
    → severity s ≤ severity (aggregate_status values)
unfolding aggregate_status
severity_bound values s h = first_level_bound aggregate_order values s h
