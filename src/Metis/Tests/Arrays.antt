-- ===== src/Metis/Tests/Arrays.antt =====
-- lib/bsearch.c, lib/value_helper.c and the arrays of pairs at small inputs.
use mage_artifact_baseline.Common.{
  ℕ, ◌+◌, ◌≤◌, ◌≡◌, refl, true, none, some, List, [], ◌∷◌, ◌++◌, arith, compare, Returns,
  if◌then◌else◌, ◌==◌, inl, inr, Bool-cases,
}
use mage_artifact_baseline.Metis.Types.{Values, buffer, KeyVals, Arr}
use mage_artifact_baseline.Metis.Bsearch.{bsearch_lar, bsearch_eq}
use mage_artifact_baseline.Metis.Bsearch.Bounds.{upper, Lands, bsearch_lar-upper, bsearch_eq-Lands}
use mage_artifact_baseline.Metis.Values.{values_insert, values_mv, modifier}
use mage_artifact_baseline.Metis.Values.Capacity.{live, IsValues, Keeps, values_insert-Keeps}
use mage_artifact_baseline.Metis.Values.Move.{values_mv-Keeps}
use mage_artifact_baseline.Metis.Values.Model.{combining}
use mage_artifact_baseline.Metis.Arr.Room.{IsArr, contents}
use mage_artifact_baseline.Metis.KeyvalArray.{pch_insert_kv-append}
use mage_artifact_baseline.Metis.KeyvalsArray.{copied_key, pch_insert_kv}
use mage_artifact_baseline.Metis.KeyvalsArray.Find.{find}
use mage_artifact_baseline.Metis.KeyvalsArray.Models.{
  IsKeyvals, Models, Inserted, pch_insert_kv-Inserted,
}
use mage_artifact_baseline.Metis.Tests.{
  number_order, grouping, counting, total, meaning_total, total_congruent, counting-Combines,
}

-- With ties.
abbrev sorted : List ℕ
sorted = 1 ∷ 3 ∷ 3 ∷ 3 ∷ 7 ∷ []

bsearch_lar-upper_example : bsearch_lar compare 3 sorted 5 ≡ some (upper 3 sorted)
bsearch_lar-upper_example = bsearch_lar-upper 3 sorted (ground arith) (omega arith)

bsearch_eq-Lands_example : Lands 4 sorted (bsearch_eq compare 4 sorted 5)
bsearch_eq-Lands_example = bsearch_eq-Lands 4 sorted (ground arith) (omega arith)

-- Eight values after the next insertion, so that the combiner is called.
abbrev seven : Values ℕ
seven = record { vals = buffer (1 ∷ 2 ∷ 3 ∷ 4 ∷ 5 ∷ 6 ∷ 7 ∷ []); len = 7; alloc_len = 8 }

pub counting-plain : modifier counting ≡ none
unfolding modifier
counting-plain = refl

grouping-plain : modifier grouping ≡ none
unfolding modifier
grouping-plain = refl

values_insert-Keeps_example :
    Returns (values_insert counting 9 seven 8) λ kvs'.
      IsValues kvs' × (kvs'.len ≤ 7 + 1) × (total (live kvs') ≡ total (live seven ++ 8 ∷ []))
values_insert-Keeps_example =
    values_insert-Keeps counting meaning_total counting-plain counting-Combines total_congruent 9
      seven 8 (omega arith) (omega arith)

values_mv-Keeps_example :
    Returns
      (values_mv grouping seven seven)
      λ r. Keeps (live seven ++ live seven) r.0 × (r.1 ≡ seven)
values_mv-Keeps_example =
    values_mv-Keeps grouping grouping-plain seven seven (omega arith) (omega arith) (omega arith)

abbrev empty : {A : Type 0} → Arr A
empty = record { len = 0; alloc_len = 0; arr = none }

pch_insert_kv-append_example :
    Returns (mage_artifact_baseline.Metis.KeyvalArray.pch_insert_kv grouping empty 4 5 0 6) λ r.
      IsArr r.0 × (contents r.0 ≡ [] ++ record { key = 4; val = 5; hash = 6 } ∷ []) × (r.1 ≡ true)
unfolding copied_key
pch_insert_kv-append_example =
    pch_insert_kv-append grouping empty 4 5 0 6 (refl, refl) (omega arith)

abbrev pub one_group : Arr (KeyVals ℕ ℕ)
one_group = record {
  len = 1;
  alloc_len = 10;
  arr = some (record { key = 9; values = seven; hash = 2 } ∷ []);
}

abbrev pub history : ℕ → List ℕ
history r = if 9 == r then 1 ∷ 2 ∷ 3 ∷ 4 ∷ 5 ∷ 6 ∷ 7 ∷ [] else []

pub one_group-IsKeyvals : IsKeyvals one_group
one_group-IsKeyvals = record { fits = (refl, omega arith, omega arith); strict = (tt, tt) }

pub one_group-Models :
    Models
      (combining counting meaning_total counting-plain counting-Combines total_congruent)
      (contents one_group)
      history
unfolding find
one_group-Models r = elim (Bool-cases (9 == r)) [
  | inl e ↦ rw e ((omega arith, omega arith, refl), omega arith)
  | inr e ↦ rw e refl
]

pch_insert_kv-Inserted_example : Returns (pch_insert_kv counting one_group 9 8 0 2) (
    Inserted
      (combining counting meaning_total counting-plain counting-Combines total_congruent)
      history
      9
      8
      one_group)
unfolding copied_key
pch_insert_kv-Inserted_example =
    pch_insert_kv-Inserted
      (combining counting meaning_total counting-plain counting-Combines total_congruent) one_group
      history 9 8 0 2 one_group-IsKeyvals one_group-Models (omega arith) (omega arith) refl
