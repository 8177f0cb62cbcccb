-- ===== src/Metis/Kvstore.antt =====
-- lib/kvstore.c: how many reduce tasks the sampling asks for.
pub mod Passing
use mage_artifact_baseline.Common.{
  ℕ, zero, suc, ◌+◌, ◌*◌, ◌/◌, ◌%◌, Bool, true, false, Option, none, some, List, [], ◌∷◌, ltb, ◌==◌,
  if◌then◌else◌, ◌>>=◌, ◌>>◌, assert, u64_mod,
}
use mage_artifact_baseline.Metis.Estimation.{
  MState, est_task_finished, est_estimate, est_get_finished, on_row,
}

-- `kvst_map_task_finished`: only while sampling.
unfoldable pub kvst_map_task_finished : Bool → ℕ → List MState → Option (List MState)
kvst_map_task_finished bsampling row ms =
    if bsampling then on_row est_task_finished row ms else some ms

-- The sums over the mappers that have finished a task: their number, keys and pairs.
unfoldable pub sum_estimates : List MState → ℕ → ℕ × ℕ × ℕ → ℕ × ℕ × ℕ
sum_estimates [] ntotal (nvalid, nkeys, npairs) = (nvalid, nkeys, npairs)
sum_estimates (s ∷ ms) ntotal (nvalid, nkeys, npairs) =
    let e = est_estimate s ntotal in
    if est_get_finished s == 0
    then sum_estimates ms ntotal (nvalid, nkeys, npairs)
    else sum_estimates ms ntotal (nvalid + 1, (nkeys + e.0) % u64_mod, (npairs + e.1) % u64_mod)

-- `for (int q = 2; q < sqrt((double) ntasks); q++)`: whether no `q` divides. `q < sqrt(n)` is
-- `q * q < n`.
unfoldable pub passes : ℕ → ℕ → ℕ → Bool
passes zero q ntasks = true
passes (suc fuel) q ntasks =
    let rest = passes fuel (q + 1) ntasks in
    if ltb (q * q) ntasks then (if ntasks % q == 0 then false else rest) else true

-- `while (1)`: the next number that passes.
unfoldable pub next_passing : ℕ → ℕ → Option ℕ
next_passing zero ntasks = none
next_passing (suc fuel) ntasks = elim (passes ntasks 2 ntasks) [
  | true ↦ some ntasks
  | false ↦ next_passing fuel ((ntasks + 1) % u64_mod)
]

abbrev pub nkeys_per_bkt : ℕ
nkeys_per_bkt = 10

-- The number of reduce tasks, from the keys and pairs for each mapper; `nkeys` and `npairs` are the
-- static sums as they stand.
unfoldable pub kvst_sample_finished : ℕ → List MState → ℕ → ℕ × ℕ → Option (ℕ × (ℕ × ℕ))
kvst_sample_finished fuel ms ntotal (nkeys, npairs) = do
  let (nvalid, nkeys', npairs') = sum_estimates ms ntotal (0, nkeys, npairs)
  assert (ltb 0 nvalid)
  ntasks ← next_passing fuel (nkeys' / nvalid / nkeys_per_bkt)
  some (ntasks, (nkeys' / nvalid, npairs' / nvalid))
