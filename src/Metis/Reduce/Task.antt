-- ===== src/Metis/Reduce/Task.antt =====
-- lib/reduce.c: the whole of `reduce_or_groupkv`, for an application that groups.
use mage_artifact_baseline.Common.{
  ℕ, suc, ◌+◌, ◌^◌, ◌<◌, ◌≡◌, refl, sym, ap, ◌∙◌, Bool, true, false, some, List, [], ◌∷◌, inl, inr,
  arith, ◌==◌, if◌then◌else◌, length, Returns, Bool-cases, lt→ltb,
}
use mage_artifact_baseline.Metis.Order.{KeyOrder}
use mage_artifact_baseline.Metis.Types.{KeyVal, App, Arr}
use mage_artifact_baseline.Metis.Values.{is_mapreduce}
use mage_artifact_baseline.Metis.KeyvalArray.{pch_copy_kv-contents}
use mage_artifact_baseline.Metis.Mergesort.Merge.{tally}
use mage_artifact_baseline.Metis.Psrs.Ranges.{all_elems, AllArr}
use mage_artifact_baseline.Metis.Reduce.{copy_all, reduce_or_groupkv}
use mage_artifact_baseline.Metis.Reduce.Groups.{
  values_of, out_values, SortedPairs, Ascends, run_groups-Grouped,
}

tally-length : {A : Type 0} (xs : List A) → tally (λ x. true) xs ≡ length xs
tally-length [] = refl
tally-length (x ∷ xs) = omega (arith, tally-length xs)

module _ {K V : Type 0} ⦃o : KeyOrder K⦄ where
  copy_all-elems :
      (nodes : List (Arr (KeyVal K V))) → AllArr nodes → copy_all nodes ≡ some (all_elems nodes)
  unfolding copy_all
  copy_all-elems [] all = refl
  copy_all-elems (node ∷ nodes) all =
      rw (pch_copy_kv-contents node all.0, copy_all-elems nodes all.1)

  -- The pairs of a rank whose value satisfies a test.
  abbrev pub picks : ℕ → (V → Bool) → KeyVal K V → Bool
  picks r p kv = if o.rank kv.key == r then p kv.val else false

  tally-values_of :
      (r : ℕ) (p : V → Bool) (pairs : List (KeyVal K V))
      → tally p (values_of r pairs) ≡ tally (picks r p) pairs
  tally-values_of r p [] = refl
  tally-values_of r p (kv ∷ kvs) = elim (Bool-cases (o.rank kv.key == r)) [
    | inl e ↦ rw e (ap (λ n. (if p kv.val then 1 else 0) + n) (tally-values_of r p kvs))
    | inr e ↦ rw e (omega (arith, tally-values_of r p kvs))
  ]

  -- For an application that groups, without `meth`, and with a `qsort` that sorts by key and keeps
  -- the elements: the pairs of one collection or more, fewer than 2 ^ 31, are grouped without a
  -- fault. Each key goes out once, in ascending order, and under the keys of each rank exactly the
  -- values of its pairs go out, each as often as the collections have it.
  pub reduce_or_groupkv-groups :
      (qsort : List (KeyVal K V) → List (KeyVal K V))
      → ((pairs : List (KeyVal K V)) → SortedPairs (qsort pairs))
      → ((p : KeyVal K V → Bool) (pairs : List (KeyVal K V))
          → tally p (qsort pairs) ≡ tally p pairs)
      → (app : App K V) (nodes : List (Arr (KeyVal K V))) → is_mapreduce app.atype ≡ false
      → AllArr nodes
      → 0 < length nodes
      → length (all_elems nodes) < 2 ^ 31
      → Returns (reduce_or_groupkv qsort app false nodes) λ out.
        Ascends out
        × ((r : ℕ) (p : V → Bool)
            → tally p (out_values r out) ≡ tally (picks r p) (all_elems nodes))
  unfolding reduce_or_groupkv
  reduce_or_groupkv-groups qsort sorts keeps app nodes grouping all some_node small =
      let pairs = all_elems nodes in
      let same_length : length (qsort pairs) ≡ length pairs =
        sym (tally-length (qsort pairs)) ∙ keeps (λ kv. true) pairs ∙ tally-length pairs in
      let (out, run, g) =
        run_groups-Grouped app grouping (suc (length pairs)) (qsort pairs)
          (omega (arith, same_length)) (sorts pairs) (omega (arith, same_length)) in
      (
        out,
        rw (lt→ltb _ _ some_node, copy_all-elems nodes all, run),
        (
          g.ascends,
          λ r p.
              ap (tally p) (g.values r)
              ∙ tally-values_of r p (qsort pairs)
              ∙ keeps (picks r p) pairs,
        ),
      )
