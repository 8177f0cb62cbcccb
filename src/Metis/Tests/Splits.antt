-- ===== src/Metis/Tests/Splits.antt =====
-- lib/defsplitter.c, lib/presplitter.c and lib/estimation.c at small inputs.
use mage_artifact_baseline.Common.{
  ℕ, ◌+◌, ◌*◌, ◌<◌, ◌≤◌, ◌≡◌, refl, Bool, true, false, none, List, [], ◌∷◌, arith, length, Returns,
  map,
}
use mage_artifact_baseline.Metis.Splitter.{
  Split, DefSplitter, PreSplitter, defsplitter, presplitter_fill, presplitter_init,
}
use mage_artifact_baseline.Metis.Splitter.Tiles.{
  Tiles, presplitter_init-Tiles, presplitter_fill_stuck,
}
use mage_artifact_baseline.Metis.Splitter.Schedule.{two_phases, two_phases_lem}
use mage_artifact_baseline.Metis.Estimation.{
  MState, zero_state, est_newpair, est_task_finished, est_estimate,
}
use mage_artifact_baseline.Metis.Estimation.Rates.{
  IsCounting, run_tasks, est_newpair-IsCounting, est_task_finished-IsCounting, est_estimate_uniform,
}

-- 100 bytes in 3 splits, aligned to 8: three pieces of 32 bytes and one of 4.
abbrev hundred : DefSplitter
hundred = record { split_pos = 0; data_size = 100; nsplits = 3; align = 8 }

presplitter_init-Tiles_example :
    Returns
      (presplitter_init (defsplitter 2) 101 hundred)
      λ ps. Tiles 8 0 100 ps.ma × (ps.nsplits ≡ length ps.ma) × (0 < ps.nsplits) × (ps.idx ≡ 0)
presplitter_init-Tiles_example =
    presplitter_init-Tiles 2 100 3 8 (omega arith) (omega arith) (omega arith) (omega arith)

-- 16 bytes in 3 splits, aligned to 8.
abbrev sixteen : DefSplitter
sixteen = record { split_pos = 0; data_size = 16; nsplits = 3; align = 8 }

presplitter_fill_stuck_example :
    (presplitter_fill (defsplitter 2) 6 sixteen [] 1
      ≡ presplitter_fill (defsplitter 2) 5 sixteen (record { offset = 0; length = 0 } ∷ []) 2)
    × (presplitter_fill (defsplitter 2) 5 sixteen [] 1 ≡ none)
presplitter_fill_stuck_example =
    presplitter_fill_stuck 2 5 sixteen [] 1 (omega arith) (omega arith) (omega arith) (omega arith)
      refl (omega arith)

abbrev piece : ℕ → Split
piece i = record { offset = i * 8; length = 8 }

abbrev three_pieces : PreSplitter
three_pieces = record {
  ma = piece 0 ∷ piece 1 ∷ piece 2 ∷ [];
  idx = 0;
  nsplits = 3;
  nsplits_bak = 0;
  ma_bak = [];
}

two_phases_lem_example :
    Returns
      (two_phases 1 (0 ∷ 1 ∷ []) (1 ∷ 0 ∷ 1 ∷ []) three_pieces)
      λ r. (map (λ w. w.1) r.0 ≡ piece 0 ∷ []) × (map (λ w. w.1) r.1 ≡ piece 1 ∷ piece 2 ∷ [])
two_phases_lem_example =
    two_phases_lem 1 (0 ∷ 1 ∷ []) (1 ∷ 0 ∷ 1 ∷ []) three_pieces refl refl (omega arith)
      (omega arith) (omega arith) (omega arith) (omega arith)

-- After 999 pairs with 10 keys.
abbrev near_interval : MState
near_interval = record {
  cur_nkeys = 10;
  cur_npairs = 999;
  last_nkeys = 0;
  last_npairs = 0;
  key_rate = 0;
  pair_rate = 0;
  nsampled = 0;
}

near_interval-IsCounting : IsCounting near_interval
near_interval-IsCounting = record {
  keys_le_pairs = omega arith;
  keys_grow = omega arith;
  pairs_grow = omega arith;
  interval = omega arith;
  rate = omega arith;
}

est_newpair-IsCounting_example : IsCounting (est_newpair near_interval true)
est_newpair-IsCounting_example =
    est_newpair-IsCounting near_interval true (omega arith) near_interval-IsCounting

est_task_finished-IsCounting_example : IsCounting (est_task_finished near_interval)
est_task_finished-IsCounting_example =
    est_task_finished-IsCounting near_interval near_interval-IsCounting

abbrev two_tasks : List (List Bool)
two_tasks = (true ∷ true ∷ false ∷ []) ∷ (true ∷ false ∷ false ∷ []) ∷ []

est_estimate_uniform_example :
    ((est_estimate (run_tasks two_tasks zero_state) 5).1 ≤ 5 * 3)
    × (5 * 3 ≤ (est_estimate (run_tasks two_tasks zero_state) 5).1 + 3)
est_estimate_uniform_example =
    est_estimate_uniform 3 5 two_tasks (refl, (refl, tt)) (omega arith) (omega arith) (omega arith)
      (omega arith) (omega arith)
