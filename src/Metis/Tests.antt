-- ===== src/Metis/Tests.antt =====
-- Runs of the Metis modules on small inputs, and the applications that they use.
pub mod Arrays
pub mod Splits
pub mod Phases
pub mod Reduce
use mage_artifact_baseline.Common.{
  ℕ, zero, suc, ◌+◌, ◌≤◌, ◌≡◌, refl, sym, ap, compare, Bool, Option, none, some, List, [], ◌∷◌,
  ◌++◌, arith, ◌==◌, if◌then◌else◌, length, take,
}
use mage_artifact_baseline.Metis.Order.{KeyOrder}
use mage_artifact_baseline.Metis.Types.{mapreduce, mapgroup, App}
use mage_artifact_baseline.Metis.Values.{combiner_of}
use mage_artifact_baseline.Metis.Values.Capacity.{Combines}

instance abbrev pub number_order : KeyOrder ℕ
number_order = record { cmp = compare; rank = λ a. a; cmp_rank = λ a b. refl }

-- An application that groups, and copies no keys.
abbrev pub grouping : App ℕ ℕ
grouping = record {
  atype = mapgroup;
  vm = none;
  combiner = none;
  reduce_func = λ key vals n. [];
  keycopy = none;
}

abbrev pub total : List ℕ → ℕ
total [] = 0
total (x ∷ xs) = x + total xs

-- A combiner that adds the values up in the first slot.
abbrev pub add_up : ℕ → List ℕ → ℕ → List ℕ × ℕ
add_up key [] n = ([], n)
add_up key (x ∷ xs) zero = (x ∷ xs, 0)
add_up key (x ∷ xs) (suc n) = (total (take (suc n) (x ∷ xs)) ∷ xs, 1)

-- Word count: a combiner and a reducer that add up.
abbrev pub counting : App ℕ ℕ
counting = record {
  atype = mapreduce;
  vm = none;
  combiner = some add_up;
  reduce_func = λ key vals n. (key, total vals) ∷ [];
  keycopy = none;
}

abbrev pub meaning_total : ℕ → List ℕ → ℕ
meaning_total key xs = total xs

pub total_congruent :
    (key : ℕ) (xs ys : List ℕ) (v : ℕ)
    → total xs ≡ total ys
    → total (xs ++ v ∷ []) ≡ total (ys ++ v ∷ [])
total_congruent key xs ys v e = omega (arith, e, total-append xs v, total-append ys v)
  where
    total-append : (xs : List ℕ) (v : ℕ) → total (xs ++ v ∷ []) ≡ total xs + v
    total-append [] v = omega arith
    total-append (x ∷ xs) v = omega (arith, total-append xs v)

pub counting-Combines : Combines counting meaning_total
unfolding combiner_of
counting-Combines combine is key xs n fits = rw (sym is') (add_up_lawful key xs n fits)
  where
    is' : add_up ≡ combine
    is' = ap (λ o. elim o [ none ↦ add_up | some f ↦ f ]) is

    add_up_lawful :
        (key : ℕ) (xs : List ℕ) (n : ℕ)
        → n ≤ length xs
        → (length (add_up key xs n).0 ≡ length xs)
          × ((add_up key xs n).1 ≤ n)
          × (total (take (add_up key xs n).1 (add_up key xs n).0) ≡ total (take n xs))
    add_up_lawful key [] zero h = (refl, omega arith, refl)
    add_up_lawful key [] (suc n) h = elim h [ ]
    add_up_lawful key (x ∷ xs) zero h = (refl, omega arith, refl)
    add_up_lawful key (x ∷ xs) (suc n) h = (refl, omega arith, omega arith)
