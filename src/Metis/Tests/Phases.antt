-- ===== src/Metis/Tests/Phases.antt =====
-- The bucket managers, the merge and the parallel sort at small inputs.
use mage_artifact_baseline.Common.{
  Returns, ◌≤◌, ◌↔◌, true, ℕ, ◌+◌, ◌<◌, ◌≡◌, refl, none, some, List, [], ◌∷◌, arith, compare,
  Returns, set,
}
use mage_artifact_baseline.Metis.Types.{Arr}
use mage_artifact_baseline.Metis.Bsearch.Bounds.{upper}
use mage_artifact_baseline.Metis.Estimation.{zero_state}
use mage_artifact_baseline.Metis.Values.Model.{combining}
use mage_artifact_baseline.Metis.KeyvalsArray.{copied_key}
use mage_artifact_baseline.Metis.Mapper.{bucket_at}
use mage_artifact_baseline.Metis.Mapper.ArrayBktMgr.{ArrayBktMgr, mbm_map_put, Put, mbm_map_put-Put}
use mage_artifact_baseline.Metis.Kvstore.{passes, next_passing}
use mage_artifact_baseline.Metis.Kvstore.Passing.{
  NoDivisor, Next, passes-NoDivisor, next_passing-Next,
}
use mage_artifact_baseline.Metis.Values.{no_values}
use mage_artifact_baseline.Metis.Reduce.{Node, no_scan, scan_nodes}
use mage_artifact_baseline.Metis.Reduce.Minimum.{Least, heads, scan_nodes-Least}
use mage_artifact_baseline.Metis.Mergesort.{merge_loop}
use mage_artifact_baseline.Metis.Mergesort.Merge.{Merged, merge_loop-Merged}
use mage_artifact_baseline.Metis.Psrs.{sublists}
use mage_artifact_baseline.Metis.Psrs.Ranges.{sublists_short}
use mage_artifact_baseline.Metis.Tests.{
  number_order, counting, meaning_total, total_congruent, counting-Combines,
}
use mage_artifact_baseline.Metis.Tests.Arrays.{
  counting-plain, one_group, history, one_group-IsKeyvals, one_group-Models,
}

-- Two rows and one column; the bucket of row 1 has one group, and the key of row 0 goes elsewhere.
abbrev two_rows : ArrayBktMgr ℕ ℕ
two_rows = record {
  mapper = record {
    map_rows = 2;
    map_cols = 1;
    mbks = some ((record { len = 0; alloc_len = 0; arr = none } ∷ []) ∷ (one_group ∷ []) ∷ []);
  };
  mapper_bak = record { map_rows = 0; map_cols = 0; mbks = none };
  map_out = none;
}

mbm_map_put-Put_example :
    Returns (mbm_map_put counting 1 9 8 0 2 two_rows (zero_state ∷ zero_state ∷ [])) (
      Put
        (combining counting meaning_total counting-plain counting-Combines total_congruent)
        history
        1
        9
        8
        2
        one_group
        zero_state
        two_rows)
unfolding copied_key bucket_at
mbm_map_put-Put_example =
    mbm_map_put-Put
      (combining counting meaning_total counting-plain counting-Combines total_congruent) two_rows
      (zero_state ∷ zero_state ∷ []) 1 9 8 0 2 one_group zero_state history (omega arith) refl refl
      one_group-IsKeyvals one_group-Models (omega arith) (omega arith) refl

abbrev three_arrays : List (List ℕ)
three_arrays = (1 ∷ 4 ∷ []) ∷ [] ∷ (2 ∷ 4 ∷ []) ∷ []

merge_loop-Merged_example :
    Returns (merge_loop compare 8 4 (0 ∷ 0 ∷ 0 ∷ []) three_arrays) (Merged three_arrays)
merge_loop-Merged_example =
    merge_loop-Merged 8 4 (0 ∷ 0 ∷ 0 ∷ []) three_arrays (omega arith) (ground arith) (ground arith)
      refl

abbrev two_arrs : List (Arr ℕ)
two_arrs =
    record { len = 2; alloc_len = 8; arr = some (5 ∷ 6 ∷ []) }
    ∷ record { len = 3; alloc_len = 8; arr = some (7 ∷ 8 ∷ 9 ∷ []) }
    ∷ []

sublists_short_example :
    (sublists compare 8 2 (1 ∷ 2 ∷ 3 ∷ 4 ∷ []) 0 3 (0 ∷ 0 ∷ 4 ∷ []) (0 ∷ 9 ∷ []) 1 1
      ≡ some (set (0 ∷ 0 ∷ 4 ∷ []) 1 (upper {A = ℕ} 9 (1 ∷ 2 ∷ []) + 0)))
    × (upper {A = ℕ} 9 (1 ∷ 2 ∷ []) + 0 < 3)
sublists_short_example =
    sublists_short 8 1 (1 ∷ 2 ∷ 3 ∷ 4 ∷ []) 0 3 (0 ∷ 0 ∷ 4 ∷ []) (0 ∷ 9 ∷ []) 1 9 refl (omega arith)
      (omega arith) (omega arith) (omega arith) (omega arith) (omega arith) (omega arith)
      (ground arith)

passes-NoDivisor_example : (passes 25 2 25 ≡ true) ↔ NoDivisor 2 25
passes-NoDivisor_example = passes-NoDivisor 25

passes_29 : passes 29 2 29 ≡ true
unfolding passes
passes_29 = refl

next_passing-Next_example : Returns (next_passing 4 26) λ p. (p ≤ 29) × Next 26 p
next_passing-Next_example =
    next_passing-Next 4 26 29 (omega arith) (omega arith) (omega arith)
      ((passes-NoDivisor 29).0 passes_29)

-- Two collections with the key 5, one at its end and one with the key 8.
abbrev group_of : ℕ → Node Unit ℕ ℕ
group_of key = record {
  coll = tt;
  head = some (record { key = key; values = no_values; hash = 0 });
}

abbrev four_nodes : List (Node Unit ℕ ℕ)
four_nodes = group_of 8 ∷ group_of 5 ∷ record { coll = tt; head = none } ∷ group_of 5 ∷ []

scan_nodes-Least_example :
    Least
      (scan_nodes four_nodes no_scan).min_key
      (scan_nodes four_nodes no_scan).m
      (scan_nodes four_nodes no_scan).marks
      (heads four_nodes)
scan_nodes-Least_example = scan_nodes-Least four_nodes
