-- ===== src/Metis/Estimation/Rates.antt =====
-- lib/estimation.c: the counters stay in step, and what is estimated from them.
use mage_artifact_baseline.Common.{
  ℕ, zero, suc, ◌+◌, ◌-◌, ◌*◌, ◌/◌, ◌%◌, ◌≤◌, ◌<◌, ◌^◌, ◌≡◌, ap, Bool, true, false, List, [], ◌∷◌,
  arith, length, u64_mod,
}
use mage_artifact_baseline.Metis.Estimation.{
  MState, zero_state, est_interval_passed, est_task_finished, est_estimate, est_newpair,
}

-- The counters of a mapper that has emitted fewer than 2 ^ 63 pairs.
pub record IsCounting (s : MState) : Type 0 where
  pub keys_le_pairs : s.cur_nkeys ≤ s.cur_npairs
  pub keys_grow : s.last_nkeys ≤ s.cur_nkeys
  pub pairs_grow : s.last_npairs ≤ s.cur_npairs
  pub interval : s.cur_nkeys ≤ s.last_nkeys + s.cur_npairs % 1000
  pub rate : s.key_rate ≤ 1000

-- A new pair keeps the counters in step: no more keys than pairs, and no more new keys in an
-- interval than pairs in it, so that the key rate is at most one key for each pair.
pub est_newpair-IsCounting :
    (s : MState) (newkey : Bool)
    → s.cur_npairs < 2 ^ 63
    → IsCounting s
    → IsCounting (est_newpair s newkey)
unfolding est_newpair est_interval_passed
est_newpair-IsCounting s true small v = ground arith
est_newpair-IsCounting s false small v = ground arith

pub est_task_finished-IsCounting : (s : MState) → IsCounting s → IsCounting (est_task_finished s)
unfolding est_task_finished
est_task_finished-IsCounting s v = ground arith

estimate_le :
    (rate x nkeys npairs : ℕ)
    → rate ≤ 1000
    → nkeys ≤ npairs
    → npairs < 2 ^ 63
    → x < 2 ^ 53
    → ((rate * (((x + npairs) % u64_mod + u64_mod - npairs) % u64_mod)) % u64_mod / 1000 + nkeys)
        % u64_mod
      ≤ (x + npairs) % u64_mod
estimate_le rate x nkeys npairs r le few work =
    let sum : (x + npairs) % u64_mod ≡ x + npairs = omega arith in
    let back : (x + npairs + u64_mod - npairs) % u64_mod ≡ x = omega arith in
    let product : rate * x ≤ 1000 * x = grind arith in rw (sum, back) (omega arith)

-- From counters in step, and short of overflow, no more keys than pairs are estimated.
pub est_estimate-le :
    (s : MState) (ntotal : ℕ)
    → IsCounting s
    → s.nsampled ≤ ntotal
    → ntotal < 2 ^ 31
    → s.cur_npairs < 2 ^ 63
    → s.pair_rate * (ntotal - s.nsampled) < 2 ^ 53
    → (est_estimate s ntotal).0 ≤ (est_estimate s ntotal).1
unfolding est_estimate
est_estimate-le s ntotal v le small few work =
    let left = ntotal - s.nsampled in
    let x = s.pair_rate * left in
    let left_eq : (ntotal + u64_mod - s.nsampled) % u64_mod ≡ left = omega arith in
    rw left_eq (estimate_le s.key_rate x s.cur_nkeys s.cur_npairs v.rate v.keys_le_pairs few work)

-- The pairs of one task, new keys marked, and then its end.
pub run_pairs : List Bool → MState → MState
run_pairs [] s = s
run_pairs (newkey ∷ pairs) s = run_pairs pairs (est_newpair s newkey)

pub run_tasks : List (List Bool) → MState → MState
unfolding run_pairs
run_tasks [] s = s
run_tasks (pairs ∷ tasks) s = run_tasks tasks (est_task_finished (run_pairs pairs s))

-- After `n` tasks of `p` pairs each.
pub record IsUniform (p n : ℕ) (s : MState) : Type 0 where
  pub tasks : s.nsampled ≡ n
  pub pairs : s.cur_npairs ≡ n * p
  pub last : s.last_npairs ≡ n * p
  pub rate_le : s.pair_rate ≤ p
  pub rate_ge : 0 < n → p ≤ s.pair_rate + 1

record Ran (k : ℕ) (s t : MState) : Type 0 where
  tasks : t.nsampled ≡ s.nsampled
  last : t.last_npairs ≡ s.last_npairs
  rate : t.pair_rate ≡ s.pair_rate
  pairs : t.cur_npairs ≡ s.cur_npairs + k

est_newpair-Ran :
    (s : MState) (newkey : Bool) → s.cur_npairs < 2 ^ 63 → Ran 1 s (est_newpair s newkey)
unfolding est_newpair est_interval_passed
est_newpair-Ran s newkey small = ground arith

run_pairs-Ran :
    (pairs : List Bool) (s : MState)
    → s.cur_npairs + length pairs < 2 ^ 63
    → Ran (length pairs) s (run_pairs pairs s)
unfolding run_pairs
run_pairs-Ran [] s small = omega arith
run_pairs-Ran (k ∷ pairs) s small =
    let first = est_newpair-Ran s k (omega arith) in
    let rest = run_pairs-Ran pairs (est_newpair s k) (omega (arith, first)) in
    record {
      tasks = omega (arith, first, rest);
      last = omega (arith, first, rest);
      rate = omega (arith, first, rest);
      pairs = omega (arith, first, rest);
    }

task-IsUniform :
    (p n : ℕ) (pairs : List Bool) (s : MState)
    → length pairs ≡ p
    → 0 < p
    → n < 2 ^ 31
    → n * p + p < 2 ^ 63
    → IsUniform p n s
    → IsUniform p (n + 1) (est_task_finished (run_pairs pairs s))
unfolding est_task_finished
task-IsUniform p zero pairs s len pos few small u =
    let r = run_pairs-Ran pairs s (omega (arith, u.pairs)) in
    let none_yet : 0 * p ≡ 0 = omega arith in ground (arith, r, none_yet)
task-IsUniform p (suc n) pairs s len pos few small u =
    let r = run_pairs-Ran pairs s (omega (arith, u.pairs)) in
    let some_yet : p ≤ suc n * p = grind arith in
    let next : (suc n + 1) * p ≡ suc n * p + p = omega arith in ground (arith, r, some_yet, next)

-- Every task emits `p` pairs.
abbrev pub EachOf : ℕ → List (List Bool) → Type 0
EachOf p [] = Unit
EachOf p (pairs ∷ tasks) = (length pairs ≡ p) × EachOf p tasks

run_tasks-IsUniform :
    (p : ℕ) (tasks : List (List Bool)) (n m : ℕ) (s : MState)
    → EachOf p tasks
    → 0 < p
    → n + length tasks ≡ m
    → m < 2 ^ 31
    → m * p < 2 ^ 63
    → IsUniform p n s
    → IsUniform p m (run_tasks tasks s)
unfolding run_tasks
run_tasks-IsUniform p [] n m s each pos e few small u = rw (← zero_more) u
  where
    zero_more : n ≡ m
    zero_more = omega arith
run_tasks-IsUniform p (pairs ∷ tasks) n m s each pos e few small u =
    let fits : (n + 1) * p ≤ m * p = grind arith in
    let step = task-IsUniform p n pairs s each.0 pos (omega arith) (omega arith) u in
    run_tasks-IsUniform p tasks (n + 1) m _ each.1 pos (omega arith) few small step

zero_state-IsUniform : (p : ℕ) → IsUniform p 0 zero_state
zero_state-IsUniform p = omega arith

uniform_bounds :
    (p ntotal n left : ℕ) (s : MState)
    → left + n ≡ ntotal
    → 0 < n
    → ntotal < 2 ^ 31
    → ntotal * p < 2 ^ 63
    → IsUniform p n s
    → ((est_estimate s ntotal).1 ≤ ntotal * p) × (ntotal * p ≤ (est_estimate s ntotal).1 + left)
unfolding est_estimate
uniform_bounds p ntotal n left s sum some_task few small u =
    let left_eq : (ntotal + u64_mod - s.nsampled) % u64_mod ≡ left = omega (arith, u.tasks) in
    let parts : (left + n) * p ≡ ntotal * p = ap (λ (t : ℕ). t * p) sum in
    let upper : s.pair_rate * left ≤ p * left = grind (arith, u.rate_le) in
    let ge = u.rate_ge some_task in
    let lower : p * left ≤ (s.pair_rate + 1) * left = grind arith in
    let exact : (s.pair_rate * left + s.cur_npairs) % u64_mod ≡ s.pair_rate * left + s.cur_npairs =
      omega (arith, u.pairs) in
    rw (left_eq, exact) (omega (arith, u.pairs), omega (arith, u.pairs))

-- When some tasks of a run were sampled and each of them has emitted `p` pairs, the estimate of all
-- pairs is not above `ntotal * p`, which is their number if the other tasks emit `p` pairs each as
-- well, and short of it by at most one pair for each task not sampled. There are fewer than 2 ^ 31
-- tasks, and `ntotal * p` is below 2 ^ 63.
pub est_estimate_uniform :
    (p ntotal : ℕ) (tasks : List (List Bool))
    → EachOf p tasks
    → 0 < p
    → 0 < length tasks
    → length tasks ≤ ntotal
    → ntotal < 2 ^ 31
    → ntotal * p < 2 ^ 63
    → let npairs = (est_estimate (run_tasks tasks zero_state) ntotal).1 in
      (npairs ≤ ntotal * p) × (ntotal * p ≤ npairs + (ntotal - length tasks))
unfolding est_estimate
est_estimate_uniform p ntotal tasks each pos some_task le few small =
    let n = length tasks in
    let fits : n * p ≤ ntotal * p = grind arith in
    let u =
      run_tasks-IsUniform p tasks 0 n zero_state each pos (omega arith) (omega arith) (omega arith)
        (zero_state-IsUniform p) in
    uniform_bounds p ntotal n (ntotal - n) (run_tasks tasks zero_state) (omega arith) some_task few
      small u
