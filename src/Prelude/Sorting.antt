-- ===== src/Prelude/Sorting.antt =====
-- Python's `sorted` of texts, by code points: an insertion sort, and what it keeps.
use Prim.Native.Nat.{suc, Ordering}
use Prim.Native.String.{String, compare}
use mathlib.Core.Path.{◌≡◌, refl, ◌∙◌, ap}
use mathlib.Core.Bool.{Bool, true, false, ◌||◌}
use mathlib.Core.List.{List, [], ◌∷◌}
use native.Mathlib.Omega.{arith}
use text.Mathlib.Text.{◌==◌}
use v91_core_system.Prelude.Lists.{length}
use v91_core_system.Prelude.Tests.{if◌then◌else◌}
use v91_core_system.Prelude.Text.{one_of}

-- `s <= t`
abbrev pub leb_text : String → String → Bool
leb_text s t = elim (compare s t) [ Ordering.gt ↦ false | _ ↦ true ]

unfoldable pub insert_sorted : String → List String → List String
insert_sorted s [] = s ∷ []
insert_sorted s (t ∷ ts) = if leb_text s t then s ∷ t ∷ ts else t ∷ insert_sorted s ts

unfoldable pub sorted : List String → List String
unfolding insert_sorted
sorted [] = []
sorted (s ∷ ss) = insert_sorted s (sorted ss)

one_of-insert_sorted :
    (k s : String) (ts : List String) → one_of k (insert_sorted s ts) ≡ (s == k || one_of k ts)
unfolding insert_sorted
one_of-insert_sorted k s [] = refl
one_of-insert_sorted k s (t ∷ ts) = ground (arith, one_of-insert_sorted k s ts)

pub one_of-sorted : (k : String) (ss : List String) → one_of k (sorted ss) ≡ one_of k ss
unfolding sorted
one_of-sorted k [] = refl
one_of-sorted k (s ∷ ss) =
    one_of-insert_sorted k s (sorted ss) ∙ ap (λ b. s == k || b) (one_of-sorted k ss)

length-insert_sorted :
    (s : String) (ts : List String) → length (insert_sorted s ts) ≡ suc (length ts)
unfolding insert_sorted
length-insert_sorted s [] = refl
length-insert_sorted s (t ∷ ts) = ground (arith, length-insert_sorted s ts)

pub length-sorted : (ss : List String) → length (sorted ss) ≡ length ss
unfolding sorted
length-sorted [] = refl
length-sorted (s ∷ ss) = length-insert_sorted s (sorted ss) ∙ ap suc (length-sorted ss)

sorted_test : sorted ("b" ∷ "a" ∷ "ab" ∷ []) ≡ "a" ∷ "ab" ∷ "b" ∷ []
unfolding sorted
sorted_test = refl
