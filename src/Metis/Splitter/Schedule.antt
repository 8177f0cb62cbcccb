-- ===== src/Metis/Splitter/Schedule.antt =====
-- lib/presplitter.c: the calls of all map workers, in the order in which their atomic steps come.
use mage_artifact_baseline.Common.{
  ℕ, zero, suc, ◌+◌, ◌-◌, ◌≤◌, ◌<◌, ◌^◌, ◌≡◌, refl, ◌∙◌, ap, Option, none, some, List, [], ◌∷◌,
  arith, length, Returns, ◌>>=◌, take, drop, map, get_elem?, get_elem?-some, min, take-length,
  length-drop, le→leb,
}
use native.Mathlib.Decide.{dec_lt}
use native.Mathlib.Numerals.{add-one}
use native.Mathlib.Nat.{le_of_eq}
use mage_artifact_baseline.Metis.Splitter.{
  Split, PreSplitter, presplitter, presplitter_prep_sample, presplitter_done_sample,
}

-- One call for each worker named; the splits that the calls got, with the worker that got each.
pub take_splits : List ℕ → PreSplitter → Option (List (ℕ × Split) × PreSplitter)
take_splits [] ps = some ([], ps)
take_splits (worker ∷ workers) ps = do
  (next, ps') ← presplitter ps
  (rest, ps'') ← take_splits workers ps'
  some (elim next [ none ↦ rest | some split ↦ (worker, split) ∷ rest ], ps'')

drop-step :
    {A : Type 0} (n : ℕ) (xs : List A) {x : A}
    → get_elem? xs n ≡ some x
    → drop n xs ≡ x ∷ drop (suc n) xs
drop-step n [] at = ground (arith, at)
drop-step zero (y ∷ ys) at = ground (arith, at)
drop-step (suc n) (y ∷ ys) at = drop-step n ys at

presplitter_more :
    (ps : PreSplitter) (s : Split)
    → ps.idx < ps.nsplits
    → ps.idx < 2 ^ 31
    → get_elem? ps.ma ps.idx ≡ some s
    → presplitter ps ≡ some (some s, record ps { idx = ps.idx + 1 })
unfolding presplitter
presplitter_more ps s more small at = ground (arith, more, small, at)

presplitter_over :
    (ps : PreSplitter)
    → ¬ (ps.idx < ps.nsplits)
    → ps.idx < 2 ^ 31
    → presplitter ps ≡ some (none, record ps { idx = ps.idx + 1 })
unfolding presplitter
presplitter_over ps over small = ground (arith, over, small)

-- Whatever the order of the workers, the calls hand out the splits from `idx` to `nsplits` one
-- after another, each once, and none from there on.
pub take_splits_lem :
    (workers : List ℕ) (ps : PreSplitter)
    → ps.nsplits ≤ length ps.ma
    → ps.idx + length workers < 2 ^ 31
    → Returns (take_splits workers ps) λ r.
      (map (λ w. w.1) r.0 ≡ take (min (length workers) (ps.nsplits - ps.idx)) (drop ps.idx ps.ma))
      × (r.1 ≡ record ps { idx = ps.idx + length workers })
unfolding take_splits
take_splits_lem [] ps room small = (
  ([], ps),
  refl,
  (rw (none_left (ps.nsplits - ps.idx)), ap (λ n. record ps { idx = n }) (same_idx ps.idx)),
)
  where
    none_left : (n : ℕ) → min 0 n ≡ 0
    none_left n = omega arith

    same_idx : (n : ℕ) → n ≡ n + 0
    same_idx n = omega arith
take_splits_lem (worker ∷ workers) ps room small =
    let (r, run, (got, state)) =
      take_splits_lem workers (record ps { idx = ps.idx + 1 }) room (omega arith) in
    elim (dec_lt ps.idx ps.nsplits) [
      | yes more ↦
          let (s, at) = get_elem?-some ps.ma ps.idx (omega arith) in
          let count : min (suc (length workers)) (ps.nsplits - ps.idx)
              ≡ suc (min (length workers) (ps.nsplits - (ps.idx + 1))) =
            omega arith in
          (
            ((worker, s) ∷ r.0, r.1),
            rw (presplitter_more ps s more (omega arith) at, ◌>>=◌, run),
            (
              rw (count, drop-step ps.idx ps.ma at)
                  (ap (λ t. s ∷ t)
                    (got
                      ∙ ap
                          (λ n.
                            take (min (length workers) (ps.nsplits - (ps.idx + 1))) (drop n ps.ma))
                          (add-one ps.idx))),
              state ∙ ap (λ n. record ps { idx = n }) (omega arith),
            ),
          )
      | no over ↦
          let none_left : min (suc (length workers)) (ps.nsplits - ps.idx)
              ≡ min (length workers) (ps.nsplits - (ps.idx + 1)) =
            omega arith in
          let none_now : min (length workers) (ps.nsplits - (ps.idx + 1)) ≡ 0 = omega arith in
          (
            r,
            rw (presplitter_over ps over (omega arith), ◌>>=◌, run),
            (
              rw none_left (got ∙ rw none_now),
              state ∙ ap (λ n. record ps { idx = n }) (omega arith),
            ),
          )
    ]

-- The sampling phase and the map phase of a run with sampling: the workers of a phase call until
-- they get no more, each worker for itself.
pub two_phases : ℕ → List ℕ → List ℕ → PreSplitter → Option (List (ℕ × Split) × List (ℕ × Split))
two_phases ntasks sampling mapping ps = do
  ps₁ ← presplitter_prep_sample ps ntasks
  (sampled, ps₂) ← take_splits sampling ps₁
  (mapped, _) ← take_splits mapping (presplitter_done_sample ps₂)
  some (sampled, mapped)

-- A run that samples `ntasks` splits first hands out each split exactly once, in order: the
-- sampled ones in the first phase, and the rest in the second.
pub two_phases_lem :
    (ntasks : ℕ) (sampling mapping : List ℕ) (ps : PreSplitter)
    → ps.idx ≡ 0
    → ps.nsplits ≡ length ps.ma
    → ntasks ≤ ps.nsplits
    → ntasks ≤ length sampling
    → ps.nsplits ≤ ntasks + length mapping
    → length sampling < 2 ^ 31
    → ntasks + length mapping < 2 ^ 31
    → Returns
        (two_phases ntasks sampling mapping ps)
        λ r. (map (λ w. w.1) r.0 ≡ take ntasks ps.ma) × (map (λ w. w.1) r.1 ≡ drop ntasks ps.ma)
unfolding two_phases presplitter_prep_sample presplitter_done_sample
two_phases_lem ntasks sampling mapping ps start all few enough rest small₁ small₂ =
    let ps₁ : PreSplitter = record ps {
      nsplits = ntasks;
      nsplits_bak = ps.nsplits;
      ma_bak = take ps.nsplits ps.ma;
    } in
    let (r₁, run₁, (got₁, state₁)) = take_splits_lem sampling ps₁ (omega arith) (omega arith) in
    let ps₃ : PreSplitter = record ps₁ { idx = ntasks; nsplits = ps.nsplits } in
    let (r₂, run₂, (got₂, state₂)) = take_splits_lem mapping ps₃ (omega arith) (omega arith) in
    let switch : presplitter_done_sample r₁.1 ≡ ps₃ = ground (arith, state₁) in
    let sampled : min (length sampling) (ntasks - ps.idx) ≡ ntasks = omega arith in
    let mapped : length (drop ntasks ps.ma) ≤ min (length mapping) (ps.nsplits - ntasks) =
      omega (arith, length-drop ntasks ps.ma) in
    (
      (r₁.0, r₂.0),
      rw (le→leb _ _ few, le→leb _ _ (le_of_eq all), run₁, switch, run₂),
      (got₁ ∙ rw (sampled, start), got₂ ∙ take-length _ _ mapped),
    )
