-- ===== src/Metis/Order.antt =====
-- lib/mr-types.h `key_cmp_t`: the comparison function that the application passes to Metis. Only
-- the sign of its result is used, so the result is an `Ordering`.
use mage_artifact_baseline.Common.{ℕ, ◌≡◌, compare, Ordering}

-- A comparison orders the keys consistently (reflexive, antisymmetric up to ties, transitive,
-- total). Of the finitely many keys of a run this says that each key has a rank, and that the
-- comparison compares the ranks. Keys of one rank need not be the same key.
pub record KeyOrder {ℓ} (A : Type ℓ) : Type ℓ where
  pub cmp : A → A → Ordering
  pub rank : A → ℕ
  pub cmp_rank : (a b : A) → cmp a b ≡ compare (rank a) (rank b)
