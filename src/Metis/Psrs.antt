-- ===== src/Metis/Psrs.antt =====
-- lib/psrs.c: the parallel sort by regular sampling.
pub mod Ranges
use mage_artifact_baseline.Common.{
  ℕ, zero, suc, ◌+◌, ◌-◌, ◌*◌, ◌/◌, ◌%◌, ◌^◌, ◌≡◌, refl, min, max, Ordering, Bool, true, false,
  Option, none, some, List, [], ◌∷◌, ◌++◌, ltb, leb, ◌==◌, if◌then◌else◌, ◌&&◌, ◌>>=◌, ◌>>◌, assert,
  get_elem?, set, take, drop, length, compare,
}
use mage_artifact_baseline.Metis.Types.{Arr}
use mage_artifact_baseline.Metis.Arr.{slots}
use mage_artifact_baseline.Metis.Bsearch.{bsearch_lar}
use mage_artifact_baseline.Metis.Mergesort.{find_min, advance}

-- A write to `subsize`; out of range it is a fault.
unfoldable pub put_size : List ℕ → ℕ → ℕ → Option (List ℕ)
put_size subsize i v = assert (ltb i (length subsize)) >> some (set subsize i v)

-- `while (fp < mid) subsize[fp++] = v`, a number of times.
unfoldable pub fill : ℕ → ℕ → ℕ → List ℕ → Option (List ℕ)
fill zero fp v subsize = some subsize
fill (suc left) fp v subsize = put_size subsize fp v >>= fill left (fp + 1) v

module _ {A : Type 0} (pcmp : A → A → Ordering) where
  -- Where `bsearch_lar` on `array[start ...]` and `end - start - 1` elements leads to. The search
  -- reads no more than these. For `start == end` their number is -1: the search compares with the
  -- element at -2 first, and that one may be outside of the array.
  unfoldable pub search_pos : A → List A → ℕ → ℕ → Option ℕ
  search_pos pv base start end = elim (start == end) [
    | false ↦ do
      assert (ltb start end)
      let nelems = end - start - 1
      pos ← bsearch_lar pcmp pv (take nelems (drop start base)) nelems
      some (pos + start)
    | true ↦ do
      assert (leb 2 start)
      last ← get_elem? base (start - 2)
      first ← get_elem? base start
      some (elim (pcmp pv last) [
        | Ordering.lt ↦ elim (pcmp pv first) [ Ordering.lt ↦ start | _ ↦ start + 1 ]
        | _ ↦ start - 1
      ])
  ]

  -- `array[start .. end]` is divided by `pivots[fp .. lp]`; an element takes `sz` bytes. Each call
  -- takes one pivot at least, so one more call than pivots is enough. An `int` that overflows, an
  -- index or an offset of `ARRELEM`, is a fault.
  unfoldable pub sublists : ℕ → ℕ → List A → ℕ → ℕ → List ℕ → List A → ℕ → ℕ → Option (List ℕ)
  sublists sz zero base start end subsize pivots fp lp = none
  sublists sz (suc fuel) base start end subsize pivots fp lp = do
    assert (ltb (fp + lp) (2 ^ 31))
    let mid = (fp + lp) / 2
    assert (ltb (sz * mid) (2 ^ 31))
    pv ← get_elem? pivots mid
    assert (ltb (sz * start) (2 ^ 31))
    pos ← search_pos pv base start end
    subsize₁ ← put_size subsize mid pos
    subsize₂ ← elim (ltb fp mid) [
      | true ↦ elim (ltb start pos) [
        | true ↦ sublists sz fuel base start (pos - 1) subsize₁ pivots fp (mid - 1)
        | false ↦ fill (mid - fp) fp start subsize₁
      ]
      | false ↦ some subsize₁
    ]
    elim (ltb mid lp) [
      | true ↦ elim (leb pos end) [
        | true ↦ sublists sz fuel base pos end subsize₂ pivots (mid + 1) lp
        | false ↦ assert (ltb (end + 1) (2 ^ 31)) >> fill (lp - mid) (mid + 1) (end + 1) subsize₂
      ]
      | false ↦ some subsize₂
    ]

  -- The part of each array between two of its entries in `subsize`.
  unfoldable pub parts : List (List A) → List ℕ → ℕ → ℕ → ℕ → Option (List (List A))
  parts [] subsize ncpus lcpu i = some []
  parts (arr ∷ arrs) subsize ncpus lcpu i = do
    from ← get_elem? subsize (i * (ncpus + 1) + lcpu)
    to ← get_elem? subsize (i * (ncpus + 1) + lcpu + 1)
    rest ← parts arrs subsize ncpus lcpu (i + 1)
    some (take (to - from) (drop from arr) ∷ rest)

  -- `while (nsorted < npairs)` in the `mergesort` of this file, on what is left of the parts. Here
  -- `psz` is a `size_t`, and the offsets do not wrap.
  unfoldable pub merge_rest : ℕ → List (List A) → Option (List A)
  merge_rest zero arrs = some []
  merge_rest (suc left) arrs = do
    (i, x) ← find_min pcmp arrs 0 none
    rest ← merge_rest left (advance i arrs)
    some (x ∷ rest)

  -- That `mergesort`: the parts of one partition are merged.
  unfoldable pub merge_parts : List (List A) → ℕ → List ℕ → ℕ → ℕ → Option (List A)
  merge_parts lpairs npairs subsize lcpu ncpus = do
    arrs ← parts lpairs subsize ncpus lcpu 0
    merge_rest npairs arrs

module _ {A : Type 0} where
  -- The loop of `copy_elems`, where `dst_stop` is `dst_end + 1` and `glb_stop` is `glb_end + 1`.
  -- `memcpy` reads the local range from the array.
  unfoldable pub copy_loop : List (Arr A) → ℕ → ℕ → ℕ → List A
  copy_loop [] dst_start dst_stop glb_start = []
  copy_loop (parr ∷ parrs) dst_start dst_stop glb_start =
      let glb_stop = glb_start + parr.len in
      let rest = copy_loop parrs dst_start dst_stop glb_stop in
      if parr.len == 0
      then rest
      else if ltb glb_start dst_stop && ltb dst_start glb_stop
      then (let loc_start = max dst_start glb_start - glb_start in
          let loc_stop = min dst_stop glb_stop - glb_start in
          take (loc_stop - loc_start) (drop loc_start (slots parr.arr)) ++ rest)
      else rest

  -- `assert(copied == dst_end - dst_start + 1)`
  unfoldable pub copy_elems : List (Arr A) → ℕ → ℕ → Option (List A)
  copy_elems arr_colls dst_start dst_stop = do
    let dest = copy_loop arr_colls dst_start dst_stop 0
    assert (leb dst_start dst_stop)
    assert (length dest == dst_stop - dst_start)
    some dest

-- The range of the pairs that a worker sorts, its end as the position after it; for few pairs the
-- main worker sorts all of them, and the others return.
unfoldable pub local_range : ℕ → ℕ → ℕ → Option (Option (ℕ × ℕ))
local_range total_len ncpus lcpu = do
  assert (ltb 0 ncpus)
  let w = (total_len + ncpus - 1) / ncpus
  let start = w * lcpu
  let stop = w * (lcpu + 1)
  some (
      if ltb total_len (ncpus * ncpus * ncpus)
      then (if lcpu == 0 then some (0, total_len) else none)
      else some (start, if ltb total_len stop then total_len else stop))
