-- ===== src/Metis/Bsearch/Bounds.antt =====
-- lib/bsearch.c against the positions that a scan of the array finds.
use mage_artifact_baseline.Common.{
  ℕ, zero, suc, ◌+◌, ◌-◌, ◌/◌, ◌≤◌, ◌<◌, ◌≡◌, refl, Ordering, Bool, true, false, Option, none, some,
  List, [], ◌∷◌, inl, inr, arith, ltb, get_elem?, length, get_elem?-some, Bool-cases, ◌>>=◌, ◌^◌,
  lt→ltb,
}
use mage_artifact_baseline.Metis.Order.{KeyOrder}
use mage_artifact_baseline.Metis.Bsearch.{
  lar_loop, lar_final, bsearch_lar, eq_loop, eq_final, bsearch_eq,
}

module _ {ℓ} {A : Type ℓ} ⦃o : KeyOrder A⦄ where
  -- Every element is at least `r`.
  abbrev pub Above : ℕ → List A → Type 0
  Above r [] = Unit
  Above r (x ∷ xs) = (r ≤ o.rank x) × Above r xs

  abbrev pub IsSorted : List A → Type 0
  IsSorted [] = Unit
  IsSorted (x ∷ xs) = Above (o.rank x) xs × IsSorted xs

  -- The number of elements before the first one greater than the key.
  unfoldable pub upper : A → List A → ℕ
  upper key [] = 0
  upper key (x ∷ xs) = elim (o.cmp key x) [ Ordering.lt ↦ 0 | _ ↦ suc (upper key xs) ]

  -- The number of elements before the first one that is not less than the key.
  unfoldable pub lower : A → List A → ℕ
  lower key [] = 0
  lower key (x ∷ xs) = elim (o.cmp key x) [ Ordering.gt ↦ suc (lower key xs) | _ ↦ 0 ]

  pub Above-get :
      (r : ℕ) (xs : List A) (i : ℕ) (x : A) → Above r xs → get_elem? xs i ≡ some x → r ≤ o.rank x
  Above-get r [] i x a h = ground arith
  Above-get r (y ∷ ys) zero x a h = ground arith
  Above-get r (y ∷ ys) (suc i) x a h = Above-get r ys i x a.1 h

  pub upper-le-length : (key : A) (xs : List A) → upper key xs ≤ length xs
  unfolding upper
  upper-le-length key [] = omega arith
  upper-le-length key (x ∷ xs) = ground (arith, upper-le-length key xs)

  -- An element not above the key stands before `upper`, one above it does not.
  pub upper-gt :
      (key : A) (xs : List A) (i : ℕ) (x : A)
      → IsSorted xs
      → get_elem? xs i ≡ some x
      → o.rank x ≤ o.rank key
      → i < upper key xs
  unfolding upper
  upper-gt key [] i x s h le = ground arith
  upper-gt key (y ∷ ys) zero x s h le = ground (arith, o.cmp_rank key y)
  upper-gt key (y ∷ ys) (suc i) x s h le =
      ground
        (arith, o.cmp_rank key y, Above-get (o.rank y) ys i x s.0 h, upper-gt key ys i x s.1 h le)

  pub upper-le :
      (key : A) (xs : List A) (i : ℕ) (x : A)
      → get_elem? xs i ≡ some x
      → o.rank key < o.rank x
      → upper key xs ≤ i
  unfolding upper
  upper-le key [] i x h lt = ground arith
  upper-le key (y ∷ ys) zero x h lt = ground (arith, o.cmp_rank key y)
  upper-le key (y ∷ ys) (suc i) x h lt = ground (arith, upper-le key ys i x h lt)

  module _ (key : A) (xs : List A) (sorted : IsSorted xs) (short : length xs ≤ 2 ^ 30) where
    lar_loop-upper :
        (fuel left hi : ℕ)
        → hi < left + fuel
        → left < length xs
        → hi < length xs
        → left ≤ upper key xs
        → upper key xs ≤ hi
        → (lar_loop o.cmp key xs fuel left hi >>= lar_final o.cmp key xs) ≡ some (upper key xs)
    unfolding lar_loop lar_final
    lar_loop-upper zero left hi f l h lo up = absurd (omega arith)
    lar_loop-upper (suc fuel) left hi f l h lo up = elim (Bool-cases (ltb (left + 1) hi)) [
      | inl more ↦
          let mid = (left + (hi - 1)) / 2 in
          let (e, at) = get_elem?-some xs mid (ground arith) in
          let fits : ltb (left + (hi - 1)) (2 ^ 31) ≡ true =
            lt→ltb (left + (hi - 1)) (2 ^ 31) (omega arith) in
          ground (
            arith,
            fits,
            at,
            o.cmp_rank key e,
            upper-gt key xs mid e sorted at,
            upper-le key xs mid e at,
            lar_loop-upper fuel left mid,
            lar_loop-upper fuel (mid + 1) hi,
          )
      | inr stop ↦
          let (e, at) = get_elem?-some xs left l in
          ground (
            arith,
            stop,
            at,
            o.cmp_rank key e,
            upper-gt key xs left e sorted at,
            upper-le key xs left e at,
          )
    ]

    bsearch_lar-upper_at :
        (n : ℕ) → length xs ≡ n → bsearch_lar o.cmp key xs n ≡ some (upper key xs)
    unfolding bsearch_lar
    bsearch_lar-upper_at zero len = ground (arith, upper-le-length key xs)
    bsearch_lar-upper_at (suc n) len =
        let (first, at₀) = get_elem?-some xs 0 (omega arith) in
        let (last, at) = get_elem?-some xs (suc n - 1) (omega arith) in
        ground (
          arith,
          at₀,
          at,
          o.cmp_rank key first,
          o.cmp_rank key last,
          upper-le-length key xs,
          upper-gt key xs 0 first sorted at₀,
          upper-le key xs 0 first at₀,
          upper-gt key xs (suc n - 1) last sorted at,
          upper-le key xs (suc n - 1) last at,
          lar_loop-upper (suc n) 0 (suc n - 1),
        )

    -- On a sorted array of at most 2 ^ 30 elements `bsearch_lar` returns the position of the first element greater than the
    -- key, or the length of the array if there is none. It ends, and reads no element out of range.
    pub bsearch_lar-upper : bsearch_lar o.cmp key xs (length xs) ≡ some (upper key xs)
    bsearch_lar-upper = bsearch_lar-upper_at (length xs) refl

  pub lower-le-upper : (key : A) (xs : List A) → lower key xs ≤ upper key xs
  unfolding lower upper
  lower-le-upper key [] = omega arith
  lower-le-upper key (x ∷ xs) = ground (arith, lower-le-upper key xs)

  -- An element less than the key stands before `lower`, one not less does not.
  pub lower-gt :
      (key : A) (xs : List A) (i : ℕ) (x : A)
      → IsSorted xs
      → get_elem? xs i ≡ some x
      → o.rank x < o.rank key
      → i < lower key xs
  unfolding lower
  lower-gt key [] i x s h lt = ground arith
  lower-gt key (y ∷ ys) zero x s h lt = ground (arith, o.cmp_rank key y)
  lower-gt key (y ∷ ys) (suc i) x s h lt =
      ground
        (arith, o.cmp_rank key y, Above-get (o.rank y) ys i x s.0 h, lower-gt key ys i x s.1 h lt)

  pub lower-le :
      (key : A) (xs : List A) (i : ℕ) (x : A)
      → get_elem? xs i ≡ some x
      → o.rank key ≤ o.rank x
      → lower key xs ≤ i
  unfolding lower
  lower-le key [] i x h le = ground arith
  lower-le key (y ∷ ys) zero x h le = ground (arith, o.cmp_rank key y)
  lower-le key (y ∷ ys) (suc i) x h le = ground (arith, lower-le key ys i x h le)

  -- What a search answers: a position of an element equal to the key, or, if there is none, the
  -- position before which all elements are less and from which on all are greater.
  abbrev pub Lands : A → List A → Option (ℕ × Bool) → Type 0
  Lands key xs none = ⊥
  Lands key xs (some (pos, true)) = (lower key xs ≤ pos) × (pos < upper key xs)
  Lands key xs (some (pos, false)) = (lower key xs ≡ pos) × (upper key xs ≡ pos)

  module _ (key : A) (xs : List A) (sorted : IsSorted xs) (short : length xs ≤ 2 ^ 30) where
    -- Where the element `e` at `i` stands between the two bounds.
    bounds_at : (i : ℕ) (e : A) → get_elem? xs i ≡ some e → elim (o.cmp key e) as (λ _. Type 0) [
      | Ordering.lt ↦ upper key xs ≤ i
      | Ordering.eq ↦ (lower key xs ≤ i) × (i < upper key xs)
      | Ordering.gt ↦ i < lower key xs
    ]
    bounds_at i e at = ground (
      arith,
      o.cmp_rank key e,
      upper-gt key xs i e sorted at,
      upper-le key xs i e at,
      lower-gt key xs i e sorted at,
      lower-le key xs i e at,
    )

    eq_loop-Lands :
        (fuel left hi : ℕ)
        → hi < left + fuel
        → left < length xs
        → hi < length xs
        → left ≤ lower key xs
        → upper key xs ≤ hi
        → Lands key xs (eq_loop o.cmp key xs fuel left hi >>= eq_final o.cmp key xs)
    unfolding eq_loop eq_final
    eq_loop-Lands zero left hi f l h lo up = absurd (omega (arith, lower-le-upper key xs))
    eq_loop-Lands (suc fuel) left hi f l h lo up = elim (Bool-cases (ltb (left + 1) hi)) [
      | inl more ↦
          let mid = (left + (hi - 1)) / 2 in
          let (e, at) = get_elem?-some xs mid (ground arith) in
          let fits : ltb (left + (hi - 1)) (2 ^ 31) ≡ true =
            lt→ltb (left + (hi - 1)) (2 ^ 31) (omega arith) in
          ground (
            arith,
            fits,
            more,
            at,
            bounds_at mid e at,
            eq_loop-Lands fuel left mid,
            eq_loop-Lands fuel (mid + 1) hi,
          )
      | inr stop ↦
          let (e, at) = get_elem?-some xs left l in
          ground (arith, stop, at, bounds_at left e at, lower-le-upper key xs)
    ]

    bsearch_eq-Lands_at : (n : ℕ) → length xs ≡ n → Lands key xs (bsearch_eq o.cmp key xs n)
    unfolding bsearch_eq
    bsearch_eq-Lands_at zero len = ground (arith, upper-le-length key xs, lower-le-upper key xs)
    bsearch_eq-Lands_at (suc n) len =
        let (first, at₀) = get_elem?-some xs 0 (omega arith) in
        let (last, at) = get_elem?-some xs (suc n - 1) (omega arith) in
        ground (
          arith,
          at₀,
          at,
          upper-le-length key xs,
          lower-le-upper key xs,
          bounds_at 0 first at₀,
          bounds_at (suc n - 1) last at,
          eq_loop-Lands (suc n) 0 (suc n - 1),
        )

    -- On a sorted array of at most 2 ^ 30 elements `bsearch_eq` ends, reads no element out of range, and finds: if it reports
    -- a hit, a position between the bounds of the elements equal to the key, and if it reports
    -- none, the one position where the key would stand, all smaller elements before it and all
    -- greater ones from it on.
    pub bsearch_eq-Lands : Lands key xs (bsearch_eq o.cmp key xs (length xs))
    bsearch_eq-Lands = bsearch_eq-Lands_at (length xs) refl
