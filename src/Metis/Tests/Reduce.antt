-- ===== src/Metis/Tests/Reduce.antt =====
-- lib/reduce.c at small inputs, with insertion sort for `qsort`.
use mage_artifact_baseline.Common.{
  ℕ, ◌+◌, ◌≤◌, ◌≡◌, refl, Bool, false, some, List, [], ◌∷◌, inl, inr, arith, leb, if◌then◌else◌,
  Returns, Bool-cases, leb→le,
}
use mage_artifact_baseline.Metis.Types.{KeyVal, Arr}
use mage_artifact_baseline.Metis.Mergesort.Merge.{tally}
use mage_artifact_baseline.Metis.Psrs.Ranges.{all_elems}
use mage_artifact_baseline.Metis.Reduce.{reduce_or_groupkv}
use mage_artifact_baseline.Metis.Reduce.Groups.{PairsFrom, SortedPairs, Ascends, out_values}
use mage_artifact_baseline.Metis.Reduce.Task.{picks, reduce_or_groupkv-groups}
use mage_artifact_baseline.Metis.Tests.{number_order, grouping}

abbrev put_in : KeyVal ℕ ℕ → List (KeyVal ℕ ℕ) → List (KeyVal ℕ ℕ)
put_in x [] = x ∷ []
put_in x (y ∷ ys) = if leb x.key y.key then x ∷ y ∷ ys else y ∷ put_in x ys

abbrev sort : List (KeyVal ℕ ℕ) → List (KeyVal ℕ ℕ)
sort [] = []
sort (x ∷ xs) = put_in x (sort xs)

below : (r s : ℕ) (ys : List (KeyVal ℕ ℕ)) → r ≤ s → PairsFrom s ys → PairsFrom r ys
below r s [] le a = tt
below r s (y ∷ ys) le a = (omega arith, below r s ys le a.1)

put_in-PairsFrom :
    (r : ℕ) (x : KeyVal ℕ ℕ) (ys : List (KeyVal ℕ ℕ))
    → r ≤ x.key
    → PairsFrom r ys
    → PairsFrom r (put_in x ys)
put_in-PairsFrom r x [] le a = (le, tt)
put_in-PairsFrom r x (y ∷ ys) le a = elim (Bool-cases (leb x.key y.key)) [
  | inl e ↦ rw e (le, a)
  | inr e ↦ rw e (a.0, put_in-PairsFrom r x ys le a.1)
]

put_in-SortedPairs :
    (x : KeyVal ℕ ℕ) (ys : List (KeyVal ℕ ℕ)) → SortedPairs ys → SortedPairs (put_in x ys)
put_in-SortedPairs x [] s = (tt, tt)
put_in-SortedPairs x (y ∷ ys) s = elim (Bool-cases (leb x.key y.key)) [
  | inl e ↦ let le = leb→le x.key y.key e in rw e ((le, below x.key y.key ys le s.0), s)
  | inr e ↦ rw e (put_in-PairsFrom y.key x ys (ground (arith, e)) s.0, put_in-SortedPairs x ys s.1)
]

sort-SortedPairs : (xs : List (KeyVal ℕ ℕ)) → SortedPairs (sort xs)
sort-SortedPairs [] = tt
sort-SortedPairs (x ∷ xs) = put_in-SortedPairs x (sort xs) (sort-SortedPairs xs)

tally-put_in :
    (p : KeyVal ℕ ℕ → Bool) (x : KeyVal ℕ ℕ) (ys : List (KeyVal ℕ ℕ))
    → tally p (put_in x ys) ≡ (if p x then 1 else 0) + tally p ys
tally-put_in p x [] = refl
tally-put_in p x (y ∷ ys) = elim (Bool-cases (leb x.key y.key)) [
  | inl e ↦ rw e
  | inr e ↦ rw e (omega (arith, tally-put_in p x ys))
]

tally-sort : (p : KeyVal ℕ ℕ → Bool) (xs : List (KeyVal ℕ ℕ)) → tally p (sort xs) ≡ tally p xs
tally-sort p [] = refl
tally-sort p (x ∷ xs) = omega (arith, tally-put_in p x (sort xs), tally-sort p xs)

abbrev pair : ℕ → ℕ → KeyVal ℕ ℕ
pair key val = record { key = key; val = val; hash = 0 }

abbrev nodes : List (Arr (KeyVal ℕ ℕ))
nodes =
    record { len = 2; alloc_len = 8; arr = some (pair 5 1 ∷ pair 2 2 ∷ []) }
    ∷ record { len = 1; alloc_len = 8; arr = some (pair 5 3 ∷ []) }
    ∷ []

reduce_or_groupkv-groups_example : Returns (reduce_or_groupkv sort grouping false nodes) λ out.
    Ascends out
    × ((r : ℕ) (p : ℕ → Bool) → tally p (out_values r out) ≡ tally (picks r p) (all_elems nodes))
reduce_or_groupkv-groups_example =
    reduce_or_groupkv-groups sort sort-SortedPairs tally-sort grouping nodes refl (ground arith)
      (omega arith) (omega arith)

abbrev sorted_pairs : List (KeyVal ℕ ℕ)
sorted_pairs = pair 2 2 ∷ pair 5 1 ∷ pair 5 3 ∷ []
