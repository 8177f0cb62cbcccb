-- ===== src/Metis/Psrs/Ranges.antt =====
-- lib/psrs.c: what `copy_elems` copies, and where `sublists` divides.
use mage_artifact_baseline.Common.{
  ℕ, zero, suc, ◌+◌, ◌-◌, ◌*◌, ◌^◌, ◌/◌, true, lt→ltb, ◌≤◌, ◌<◌, ◌≡◌, refl, sym, ap, ◌∙◌, min, max,
  false, some, List, [], ◌∷◌, ◌++◌, inl, inr, arith, subst, ==_iff, ltb, ◌==◌, if◌then◌else◌, ◌&&◌,
  get_elem?, set, take, drop, length, length-take, length-drop, Bool-cases, le→leb,
}
use mage_artifact_baseline.Metis.Order.{KeyOrder}
use mage_artifact_baseline.Metis.Types.{Arr}
use mage_artifact_baseline.Metis.Arr.Room.{IsArr, contents, len-contents}
use mage_artifact_baseline.Metis.Bsearch.Bounds.{
  IsSorted, upper, upper-le-length, bsearch_lar-upper,
}
use mage_artifact_baseline.Metis.Bsearch.{bsearch_lar}
use mage_artifact_baseline.Metis.Psrs.{search_pos, put_size, sublists, copy_loop, copy_elems}

module _ {A : Type 0} where
  take-append : (n : ℕ) (xs ys : List A) → take n (xs ++ ys) ≡ take n xs ++ take (n - length xs) ys
  take-append zero [] ys = refl
  take-append zero (x ∷ xs) ys =
      let none_left : 0 - length (x ∷ xs) ≡ 0 = omega arith in rw none_left
  take-append (suc n) [] ys = let all : suc n - 0 ≡ suc n = omega arith in rw all
  take-append (suc n) (x ∷ xs) ys =
      let shift : suc n - length (x ∷ xs) ≡ n - length xs = omega arith in
      rw shift (ap (λ t. x ∷ t) (take-append n xs ys))

  drop-append : (n : ℕ) (xs ys : List A) → drop n (xs ++ ys) ≡ drop n xs ++ drop (n - length xs) ys
  drop-append zero [] ys = refl
  drop-append zero (x ∷ xs) ys =
      let none_left : 0 - length (x ∷ xs) ≡ 0 = omega arith in rw none_left
  drop-append (suc n) [] ys = let all : suc n - 0 ≡ suc n = omega arith in rw all
  drop-append (suc n) (x ∷ xs) ys =
      let shift : suc n - length (x ∷ xs) ≡ n - length xs = omega arith in
      rw shift (drop-append n xs ys)

  -- All pairs in the order of the collections.
  abbrev pub all_elems : List (Arr A) → List A
  all_elems [] = []
  all_elems (arr ∷ arrs) = contents arr ++ all_elems arrs

  abbrev pub AllArr : List (Arr A) → Type 0
  AllArr [] = Unit
  AllArr (arr ∷ arrs) = IsArr arr × AllArr arrs

  take-min : (n : ℕ) (xs : List A) → take n xs ≡ take (min n (length xs)) xs
  take-min zero xs = let z : min 0 (length xs) ≡ 0 = omega arith in rw z
  take-min (suc n) [] = let z : min (suc n) 0 ≡ 0 = omega arith in rw z
  take-min (suc n) (x ∷ xs) =
      let z : min (suc n) (length (x ∷ xs)) ≡ suc (min n (length xs)) = omega arith in
      rw z (ap (λ t. x ∷ t) (take-min n xs))

  take-as : (a b : ℕ) (xs : List A) → min a (length xs) ≡ min b (length xs) → take a xs ≡ take b xs
  take-as a b xs e = take-min a xs ∙ ap (λ k. take k xs) e ∙ sym (take-min b xs)

  take-drop_nil : (a b : ℕ) → take {A = A} a (drop b []) ≡ []
  take-drop_nil zero zero = refl
  take-drop_nil zero (suc b) = refl
  take-drop_nil (suc a) zero = refl
  take-drop_nil (suc a) (suc b) = refl

  take_none : (k : ℕ) (xs : List A) → min k (length xs) ≡ 0 → take k xs ≡ []
  take_none k xs e = take-min k xs ∙ ap (λ j. take j xs) e

  -- One collection's part of a range, and what follows it.
  piece :
      (n s t g : ℕ) (xs rest : List A)
      → n ≡ length xs
      → s ≤ t
      → (if n == 0
          then rest
          else if ltb g t && ltb s (g + n)
          then take (min t (g + n) - g - (max s g - g)) (drop (max s g - g) xs) ++ rest
          else rest)
        ≡ take (t - max s g) (drop (s - g) xs) ++ rest
  piece n s t g xs rest len le = elim (Bool-cases (n == 0)) [
    | inl e ↦
        let none_here =
          take_none (t - max s g) (drop (s - g) xs)
            (ground (arith, length-drop (s - g) xs, len, e)) in
        rw (e, none_here)
    | inr e ↦ elim (Bool-cases (ltb g t && ltb s (g + n))) [
      | inl over ↦
          let from : max s g - g ≡ s - g = omega arith in
          let same =
            take-as (min t (g + n) - g - (s - g)) (t - max s g) (drop (s - g) xs)
              (ground (arith, over, len, length-drop (s - g) xs)) in
          rw (e, over, from) (ap (λ p. p ++ rest) same)
      | inr apart ↦
          let none_here =
            take_none (t - max s g) (drop (s - g) xs)
              (ground (arith, apart, len, le, length-drop (s - g) xs)) in
          rw (e, apart, none_here)
    ]
  ]

  -- The range of the collections from the global index `glb_start` on.
  copy_loop-range :
      (arrs : List (Arr A)) (s t g : ℕ)
      → AllArr arrs
      → s ≤ t
      → copy_loop arrs s t g ≡ take (t - max s g) (drop (s - g) (all_elems arrs))
  unfolding copy_loop
  copy_loop-range [] s t g all le = sym (take-drop_nil (t - max s g) (s - g))
  copy_loop-range (arr ∷ arrs) s t g all le =
      let xs = contents arr in
      let len = len-contents arr all.0 in
      let rest = copy_loop-range arrs s t (g + arr.len) all.1 le in
      let dropped = length-drop (s - g) xs in
      let left : t - max s g - length (drop (s - g) xs) ≡ t - max s (g + arr.len) =
        omega (arith, len, dropped) in
      let behind : s - g - length xs ≡ s - (g + arr.len) = omega (arith, len) in
      let whole : take (t - max s g) (drop (s - g) (all_elems (arr ∷ arrs)))
          ≡ take (t - max s g) (drop (s - g) xs) ++ copy_loop arrs s t (g + arr.len) =
        rw (
          rest,
          drop-append (s - g) xs (all_elems arrs),
          take-append (t - max s g) (drop (s - g) xs),
          left,
          behind,
        ) in
      piece arr.len s t g xs (copy_loop arrs s t (g + arr.len)) len le ∙ sym whole

  length-all_elems :
      (arrs : List (Arr A)) (s t : ℕ)
      → s ≤ t
      → t ≤ length (all_elems arrs)
      → length (take (t - s) (drop s (all_elems arrs))) ≡ t - s
  length-all_elems arrs s t le inside =
      omega (arith, length-take (t - s) (drop s (all_elems arrs)), length-drop s (all_elems arrs))

  -- `copy_elems` copies the pairs from one global index to another, counted through all
  -- collections, and its assertion holds, where the range lies within the pairs.
  pub copy_elems-range :
      (arrs : List (Arr A)) (dst_start dst_stop : ℕ)
      → AllArr arrs
      → dst_start ≤ dst_stop
      → dst_stop ≤ length (all_elems arrs)
      → copy_elems arrs dst_start dst_stop
        ≡ some (take (dst_stop - dst_start) (drop dst_start (all_elems arrs)))
  unfolding copy_elems
  copy_elems-range arrs s t all le inside =
      let loop = copy_loop-range arrs s t 0 all le in
      let from : max s 0 ≡ s = omega arith in
      let zero_shift : s - 0 ≡ s = omega arith in
      let sized = length-all_elems arrs s t le inside in
      rw (loop, from, zero_shift, le→leb s t le, sized, (==_iff (t - s) (t - s)).1 refl)

module _ {A : Type 0} ⦃o : KeyOrder A⦄ where
  -- For one pivot, whose place is in `subsize`, and a sorted range of two elements or more and at
  -- most 2 ^ 30, with offsets within `int`, `sublists` does not fault and answers the first
  -- element greater than the pivot among all but the last two of the range, so that the answer is
  -- before the last element even where the pivot is greater than both.
  pub sublists_short :
      (sz fuel : ℕ) (base : List A) (start end : ℕ) (subsize : List ℕ) (pivots : List A) (mid : ℕ)
      (pv : A)
      → get_elem? pivots mid ≡ some pv
      → mid < length subsize
      → mid + mid < 2 ^ 31
      → sz * mid < 2 ^ 31
      → sz * start < 2 ^ 31
      → start < end
      → end < length base
      → end - start ≤ 2 ^ 30
      → IsSorted (take (end - start - 1) (drop start base))
      → let pos = upper pv (take (end - start - 1) (drop start base)) + start in
        (sublists o.cmp sz (suc fuel) base start end subsize pivots mid mid
          ≡ some (set subsize mid pos))
        × (pos < end)
  unfolding sublists search_pos put_size
  sublists_short sz fuel base start end subsize pivots mid pv at room twice pivot first two inside
        short sorted =
      let xs = take (end - start - 1) (drop start base) in
      let sized : length xs ≡ end - start - 1 =
        omega (arith, length-take (end - start - 1) (drop start base), length-drop start base) in
      let search : bsearch_lar o.cmp pv xs (end - start - 1) ≡ some (upper pv xs) =
        subst (λ n. bsearch_lar o.cmp pv xs n ≡ some (upper pv xs)) sized
          (bsearch_lar-upper pv xs sorted (omega (arith, sized))) in
      let half : (mid + mid) / 2 ≡ mid = omega arith in
      let at' : get_elem? pivots ((mid + mid) / 2) ≡ some pv = rw half at in
      let apart : (start == end) ≡ false = ground arith in
      let fits = lt→ltb (mid + mid) (2 ^ 31) twice in
      let pivot_fits : ltb (sz * ((mid + mid) / 2)) (2 ^ 31) ≡ true =
        rw half (lt→ltb (sz * mid) (2 ^ 31) pivot) in
      let first_fits = lt→ltb (sz * start) (2 ^ 31) first in
      (
        ground (arith, fits, pivot_fits, first_fits, at', apart, two, search, half, room),
        omega (arith, upper-le-length pv xs, sized),
      )
