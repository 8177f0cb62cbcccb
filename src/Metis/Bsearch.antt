-- ===== src/Metis/Bsearch.antt =====
-- lib/bsearch.c: the two binary searches over an array of pairs.
pub mod Bounds
use mage_artifact_baseline.Common.{
  ℕ, zero, suc, ◌+◌, ◌-◌, ◌/◌, Ordering, Bool, true, false, Option, none, some, List, ltb, ◌==◌,
  if◌then◌else◌, get_elem?, ◌>>=◌, ◌>>◌, assert, ◌^◌,
}

module _ {ℓ} {A : Type ℓ} (keycmp : A → A → Ordering) (key : A) (base : List A) where
  -- The `while` of `bsearch_lar`. The C variable `right` can become -1, so `hi` is `right + 1`:
  -- `left < right` reads `left + 1 < hi`, and `right = mid - 1` reads `hi = mid`. A sum
  -- `left + right` that no `int` holds is a fault.
  unfoldable pub lar_loop : ℕ → ℕ → ℕ → Option ℕ
  lar_loop zero left hi = none
  lar_loop (suc fuel) left hi = elim (ltb (left + 1) hi) [
    | false ↦ some left
    | true ↦
        let mid = (left + (hi - 1)) / 2 in
        assert (ltb (left + (hi - 1)) (2 ^ 31)) >> get_elem? base mid >>= λ e. elim (keycmp key e) [
          | Ordering.lt ↦ lar_loop fuel left mid
          | _ ↦ lar_loop fuel (mid + 1) hi
        ]
  ]

  -- The last test, on the element where the loop stopped.
  unfoldable pub lar_final : ℕ → Option ℕ
  lar_final left = do
    e ← get_elem? base left
    elim (keycmp key e) [ Ordering.lt ↦ some left | _ ↦ some (left + 1) ]

  unfoldable pub bsearch_lar : ℕ → Option ℕ
  bsearch_lar nelems =
      if nelems == 0
      then some 0
      else get_elem? base (nelems - 1) >>= λ last. elim (keycmp key last) [
        | Ordering.lt ↦
            if nelems == 1
            then some 0
            else if nelems == 2
            then (get_elem? base 0 >>= λ e. elim (keycmp key e) [
              | Ordering.lt ↦ some 0
              | _ ↦ some 1
            ])
            else lar_loop nelems 0 (nelems - 1) >>= lar_final
        | _ ↦ some nelems
      ]

  -- The `while` of `bsearch_eq`: the index where it stopped, and `true` if it returned `mid`.
  unfoldable pub eq_loop : ℕ → ℕ → ℕ → Option (ℕ × Bool)
  eq_loop zero left hi = none
  eq_loop (suc fuel) left hi = elim (ltb (left + 1) hi) [
    | false ↦ some (left, false)
    | true ↦
        let mid = (left + (hi - 1)) / 2 in
        assert (ltb (left + (hi - 1)) (2 ^ 31)) >> get_elem? base mid >>= λ e. elim (keycmp key e) [
          | Ordering.eq ↦ some (mid, true)
          | Ordering.lt ↦ eq_loop fuel left mid
          | Ordering.gt ↦ eq_loop fuel (mid + 1) hi
        ]
  ]

  unfoldable pub eq_final : ℕ × Bool → Option (ℕ × Bool)
  eq_final (mid, true) = some (mid, true)
  eq_final (left, false) = do
    e ← get_elem? base left
    elim (keycmp key e) [
      | Ordering.eq ↦ some (left, true)
      | Ordering.gt ↦ some (left + 1, false)
      | Ordering.lt ↦ some (left, false)
    ]

  -- The result is paired with `*bfound`.
  unfoldable pub bsearch_eq : ℕ → Option (ℕ × Bool)
  bsearch_eq nelems =
      if nelems == 0
      then some (0, false)
      else get_elem? base (nelems - 1) >>= λ last. elim (keycmp key last) [
        | Ordering.eq ↦ some (nelems - 1, true)
        | Ordering.gt ↦ some (nelems, false)
        | Ordering.lt ↦
            if nelems == 1
            then some (0, false)
            else if nelems == 2
            then (get_elem? base 0 >>= λ e. elim (keycmp key e) [
              | Ordering.eq ↦ some (0, true)
              | Ordering.lt ↦ some (0, false)
              | Ordering.gt ↦ some (1, false)
            ])
            else eq_loop nelems 0 (nelems - 1) >>= eq_final
      ]
