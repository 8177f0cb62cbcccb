-- ===== src/Metis/Mergesort.antt =====
-- lib/mergesort.c and the `mergesort` of lib/psrs.c: sorted arrays are merged into one.
pub mod Merge
use mage_artifact_baseline.Common.{
  ℕ, zero, suc, ◌+◌, ◌-◌, ◌*◌, ◌/◌, ◌%◌, Ordering, Bool, true, false, Option, none, some, List, [],
  ◌∷◌, ltb, ◌==◌, if◌then◌else◌, ◌>>=◌, ◌>>◌, assert, get_elem?, set, take, replicate, ◌&&◌,
  u32_mod,
}
use mage_artifact_baseline.Metis.Types.{Arr}
use mage_artifact_baseline.Metis.Arr.{slots, pch_set_elems, pch_shallow_free}

-- `ARRELEM(elems, psz, task_pos[i])` multiplies in 32 bits: whether no offset of the next elements
-- wraps.
unfoldable pub in_reach : {A : Type 0} → ℕ → List ℕ → List (List A) → Bool
in_reach psz [] arrs = true
in_reach psz (pos ∷ task_pos) [] = true
in_reach psz (pos ∷ task_pos) ([] ∷ arrs) = in_reach psz task_pos arrs
in_reach psz (pos ∷ task_pos) ((x ∷ xs) ∷ arrs) =
    let rest = in_reach psz task_pos arrs in ltb (psz * pos) u32_mod && rest

-- `task_pos[min_idx]++`
unfoldable pub advance_pos : ℕ → List ℕ → List ℕ
advance_pos i [] = []
advance_pos zero (pos ∷ task_pos) = (pos + 1) % u32_mod ∷ task_pos
advance_pos (suc i) (pos ∷ task_pos) = pos ∷ advance_pos i task_pos

-- The array from that position on.
unfoldable pub advance : {A : Type 0} → ℕ → List (List A) → List (List A)
advance i [] = []
advance zero ([] ∷ arrs) = [] ∷ arrs
advance zero ((x ∷ xs) ∷ arrs) = xs ∷ arrs
advance (suc i) (xs ∷ arrs) = xs ∷ advance i arrs

module _ {A : Type 0} (pcmp : A → A → Ordering) where
  -- The loop that finds the least of the next elements, from array `i` on: the array is what is
  -- left of it, from its `task_pos` on.
  unfoldable pub find_min : List (List A) → ℕ → Option (ℕ × A) → Option (ℕ × A)
  find_min [] i best = best
  find_min ([] ∷ arrs) i best = find_min arrs (suc i) best
  find_min ((x ∷ xs) ∷ arrs) i none = find_min arrs (suc i) (some (i, x))
  find_min ((x ∷ xs) ∷ arrs) i (some (j, y)) =
      let this = find_min arrs (suc i) (some (i, x)) in
      let old = find_min arrs (suc i) (some (j, y)) in
      elim (pcmp y x) [ Ordering.gt ↦ this | _ ↦ old ]

  -- `while (nsorted < npairs)`, with `task_pos` and what is left of the arrays from there on. A copy
  -- from NULL is a fault, and so is an offset that wraps.
  unfoldable pub merge_loop : ℕ → ℕ → List ℕ → List (List A) → Option (List A)
  unfolding in_reach advance_pos
  merge_loop psz zero task_pos arrs = some []
  merge_loop psz (suc left) task_pos arrs = do
    assert (in_reach psz task_pos arrs)
    (i, x) ← find_min arrs 0 none
    rest ← merge_loop psz left (advance_pos i task_pos) (advance i arrs)
    some (x ∷ rest)

-- The arrays `lcpu`, `lcpu + ncpus`, and so on, `mycolls` of them.
unfoldable pub my_colls : {A : Type 0} → List (Arr A) → ℕ → ℕ → ℕ → Option (List (Arr A))
my_colls acolls ncpus zero i = some []
my_colls acolls ncpus (suc left) i = do
  coll ← get_elem? acolls i
  rest ← my_colls acolls ncpus left (i + ncpus)
  some (coll ∷ rest)

-- `pch_shallow_free` on them.
unfoldable pub free_colls : {A : Type 0} → List (Arr A) → ℕ → ℕ → ℕ → Option (List (Arr A))
free_colls acolls ncpus zero i = some acolls
free_colls acolls ncpus (suc left) i = do
  coll ← get_elem? acolls i
  free_colls (set acolls i (pch_shallow_free coll)) ncpus left (i + ncpus)

abbrev pub total_len : {A : Type 0} → List (Arr A) → ℕ
total_len [] = 0
total_len (coll ∷ colls) = coll.len + total_len colls

abbrev pub elems : {A : Type 0} → List (Arr A) → List (List A)
elems [] = []
elems (coll ∷ colls) = take coll.len (slots coll.arr) ∷ elems colls

-- The arrays of one worker are merged into the first of them; `psz` is the size of a pair.
unfoldable pub mergesort :
    {A : Type 0} → (A → A → Ordering) → ℕ → List (Arr A) → ℕ → ℕ → ℕ → Option (List (Arr A))
mergesort pcmp psz acolls ncolls ncpus lcpu = do
  assert (ltb 0 ncpus)
  let mycolls = ncolls / ncpus + (if ltb lcpu (ncolls % ncpus) then 1 else 0)
  colls ← my_colls acolls ncpus mycolls lcpu
  let npairs = total_len colls
  elim (npairs == 0) [
    | true ↦ some acolls
    | false ↦ do
      out ← merge_loop pcmp psz npairs (replicate mycolls 0) (elems colls)
      freed ← free_colls acolls ncpus mycolls lcpu
      first ← get_elem? freed lcpu
      some (set freed lcpu (pch_set_elems first out npairs))
  ]
