-- ===== src/Metis/Mapper.antt =====
-- lib/arraybktmgr.c and lib/appendbktmgr.c: the table of buckets, one row for each mapper and one
-- column for each reduce task, that both managers write out for their own kind of bucket.
pub mod ArrayBktMgr
pub mod AppendBktMgr
use mage_artifact_baseline.Common.{
  ℕ, zero, suc, ◌+◌, [], ◌∷◌, ◌%◌, ◌≡◌, ◌≢◌, ◌⊎◌, inl, inr, sym, ◌∙◌, ap, refl, arith, Returns,
  Option-cases, Bool-cases, ==_iff, ◌==◌, length, get_elem?-lt, get_elem?-set_self,
  get_elem?-set_ne, Option, none, some, List, ltb, ◌>>=◌, ◌>>◌, assert, get_elem?, set, replicate,
}
use mage_artifact_baseline.Metis.Types.{Arr}
use mage_artifact_baseline.Metis.Arr.{pch_shallow_free}

-- `mapper_t`; `mbks` is none for NULL.
pub record Mapper (B : Type 0) : Type 0 where
  pub map_rows : ℕ
  pub map_cols : ℕ
  pub mbks : Option (List (List B))

module _ {B : Type 0} where
  -- `memset(&mapper, 0, sizeof(mapper))`
  abbrev pub no_mapper : Mapper B
  no_mapper = record { map_rows = 0; map_cols = 0; mbks = none }

  unfoldable pub new_mapper : ℕ → ℕ → B → Mapper B
  new_mapper rows cols empty = record {
    map_rows = rows;
    map_cols = cols;
    mbks = some (replicate rows (replicate cols empty));
  }

  -- `mapper.mbks[row][col]`, read and written; out of range is a fault.
  unfoldable pub bucket_at : Mapper B → ℕ → ℕ → Option B
  bucket_at mapper row col = do
    mbks ← mapper.mbks
    buckets ← get_elem? mbks row
    get_elem? buckets col

  unfoldable pub set_bucket : Mapper B → ℕ → ℕ → B → Option (Mapper B)
  set_bucket mapper row col bucket = do
    mbks ← mapper.mbks
    buckets ← get_elem? mbks row
    some (record mapper { mbks = some (set mbks row (set buckets col bucket)) })

  -- `hash % mapper.map_cols`; a remainder by 0 is a fault.
  unfoldable pub column : Mapper B → ℕ → Option ℕ
  column mapper hash = do assert (ltb 0 mapper.map_cols); some (hash % mapper.map_cols)

  -- The buckets of a column, in the rows from `i` on.
  unfoldable pub column_buckets : Mapper B → ℕ → ℕ → ℕ → Option (List B)
  column_buckets mapper col zero i = some []
  column_buckets mapper col (suc left) i = do
    bucket ← bucket_at mapper i col
    rest ← column_buckets mapper col left (i + 1)
    some (bucket ∷ rest)

-- `pch_shallow_free` on the buckets of a column.
unfoldable pub free_column : {A : Type 0} → Mapper (Arr A) → ℕ → ℕ → ℕ → Option (Mapper (Arr A))
free_column mapper col zero i = some mapper
free_column mapper col (suc left) i = do
  bucket ← bucket_at mapper i col
  mapper' ← set_bucket mapper i col (pch_shallow_free bucket)
  free_column mapper' col left (i + 1)

module _ {B : Type 0} where
  -- What a write to a bucket leaves.
  pub record Written (row col : ℕ) (bucket : B) (old new : Mapper B) : Type 0 where
    pub cols : new.map_cols ≡ old.map_cols
    pub here : bucket_at new row col ≡ some bucket
    pub others : (i j : ℕ) → (i ≢ row) ⊎ (j ≢ col) → bucket_at new i j ≡ bucket_at old i j

  pub set_bucket-Written :
      (mapper : Mapper B) (row col : ℕ) (old new : B)
      → bucket_at mapper row col ≡ some old
      → Returns (set_bucket mapper row col new) (Written row col new mapper)
  unfolding bucket_at set_bucket
  set_bucket-Written mapper row col old new = go mapper.mbks
    where
      go :
          (mbks : Option (List (List B)))
          → bucket_at (record mapper { mbks = mbks }) row col ≡ some old
          → Returns
              (set_bucket (record mapper { mbks = mbks }) row col new)
              (Written row col new (record mapper { mbks = mbks }))
      go none at = ground (arith, at)
      go (some rows) at = elim (Option-cases (get_elem? rows row)) [
        | inl e ↦ ground (arith, e, at)
        | inr (buckets, e) ↦
            let in_row : get_elem? buckets col ≡ some old = rw e at at in
            (
              record mapper { mbks = some (set rows row (set buckets col new)) },
              rw e,
              record {
                cols = refl;
                here =
                    rw (get_elem?-set_self rows row (set buckets col new) (get_elem?-lt rows row e))
                      (get_elem?-set_self buckets col new (get_elem?-lt buckets col in_row));
                others = λ i j apart. elim (Bool-cases (i == row)) [
                  | inl same ↦
                      let at_row = (==_iff i row).0 same in
                      let other_col : col ≢ j = elim apart as (λ _. col ≢ j) [
                        | inl ne ↦ absurd (ne at_row)
                        | inr ne ↦ λ h. ne (sym h)
                      ] in
                      rw
                        (
                          at_row,
                          get_elem?-set_self rows row (set buckets col new)
                              (get_elem?-lt rows row e),
                          e,
                        )
                        (get_elem?-set_ne buckets new other_col)
                  | inr differs ↦
                      let other_row : row ≢ i = λ h. ground (arith, differs, h) in
                      rw (get_elem?-set_ne rows (set buckets col new) other_row)
                ];
              },
            )
      ]
