-- ===== src/Metis/Mapper/ArrayBktMgr.antt =====
-- lib/arraybktmgr.c: each bucket is a sorted array of key groups.
use mage_artifact_baseline.Common.{
  ℕ, zero, suc, ◌+◌, ◌*◌, ◌^◌, ◌<◌, ◌≤◌, ◌≢◌, ◌⊎◌, ◌≡◌, Bool, true, Option, none, some, List, [],
  ◌∷◌, ◌>>=◌, get_elem?, set, replicate, length, Returns, get_elem?-set_self, get_elem?-lt, lt→ltb,
  ◌%◌,
}
use mage_artifact_baseline.Metis.Order.{KeyOrder}
use mage_artifact_baseline.Metis.Types.{KeyVals, App, Arr}
use mage_artifact_baseline.Metis.Arr.{pch_init, pch_shallow_free}
use mage_artifact_baseline.Metis.Values.Model.{ValuesModel}
use mage_artifact_baseline.Metis.KeyvalsArray.{
  copied_key, pch_insert_kv, pch_insert_kvs, pch_iter_next_kvs,
}
use mage_artifact_baseline.Metis.Reduce.{Emit, array_next, reduce_or_groupkvs}
use mage_artifact_baseline.Metis.Estimation.{MState, est_newpair, on_row}
use mage_artifact_baseline.Metis.KeyvalsArray.Models.{
  IsKeyvals, Models, Inserted, pch_insert_kv-Inserted,
}
use mage_artifact_baseline.Metis.Arr.Room.{contents}
use mage_artifact_baseline.Metis.Mapper.{
  Mapper, no_mapper, new_mapper, bucket_at, set_bucket, column, column_buckets, free_column,
  set_bucket-Written,
}

-- The static variables of the file.
pub record ArrayBktMgr (K V : Type 0) : Type 0 where
  pub mapper : Mapper (Arr (KeyVals K V))
  pub mapper_bak : Mapper (Arr (KeyVals K V))
  pub map_out : Option (List (Arr (KeyVals K V)))

module _ {K V : Type 0} where
  unfoldable pub mbm_mbks_init : ℕ → ℕ → ArrayBktMgr K V → ArrayBktMgr K V
  mbm_mbks_init rows cols st = record st {
    mapper = new_mapper rows cols pch_init;
    map_out = some (replicate (rows * cols) pch_init);
  }

  unfoldable pub mbm_mbks_destroy : ArrayBktMgr K V → ArrayBktMgr K V
  mbm_mbks_destroy st =
      let mapper : Mapper (Arr (KeyVals K V)) = record st.mapper { mbks = none } in
      record st { mapper = mapper }

  -- The table becomes the backup, and there is no table.
  unfoldable pub mbm_mbks_bak : ArrayBktMgr K V → ArrayBktMgr K V
  mbm_mbks_bak st = record st { mapper = no_mapper; mapper_bak = st.mapper }

  unfoldable pub mbm_map_get_output : ArrayBktMgr K V → Option (List (Arr (KeyVals K V))) × ℕ
  mbm_map_get_output st = (st.map_out, st.mapper.map_rows * st.mapper.map_cols)

  -- The loop of `mbm_map_prepare_merge` from column `i` on: a bucket goes to the output, and an
  -- empty one takes its place.
  unfoldable pub prepare_columns : ℕ → ℕ → ℕ → ArrayBktMgr K V → Option (ArrayBktMgr K V)
  prepare_columns row zero i st = some st
  prepare_columns row (suc left) i st = do
    bucket ← bucket_at st.mapper row i
    out ← st.map_out
    mapper ← set_bucket st.mapper row i pch_init
    prepare_columns row left (i + 1) (record st {
      mapper = mapper;
      map_out = some (set out (row * st.mapper.map_cols + i) bucket);
    })

  unfoldable pub mbm_map_prepare_merge : ℕ → ArrayBktMgr K V → Option (ArrayBktMgr K V)
  mbm_map_prepare_merge row st = prepare_columns row st.mapper.map_cols 0 st

module _ {K V : Type 0} ⦃o : KeyOrder K⦄ where
  -- The new table and the counts of the mappers.
  unfoldable pub mbm_map_put :
      App K V
      → ℕ
      → K
      → V
      → ℕ
      → ℕ
      → ArrayBktMgr K V
      → List MState
      → Option (ArrayBktMgr K V × List MState)
  mbm_map_put app row key val keylen hash st ms = do
    col ← column st.mapper hash
    bucket ← bucket_at st.mapper row col
    (bucket', bnewkey) ← pch_insert_kv app bucket key val keylen hash
    mapper ← set_bucket st.mapper row col bucket'
    ms' ← on_row (λ s. est_newpair s bnewkey) row ms
    some (record st { mapper = mapper }, ms')

  -- The loop over the groups of one old bucket: each goes to its column in the new table. `nil`
  -- stands for the NULL that the iterator leaves for a key.
  unfoldable pub rehash_groups :
      K
      → ℕ
      → ℕ
      → Arr (KeyVals K V)
      → ℕ
      → Mapper (Arr (KeyVals K V))
      → Option (Mapper (Arr (KeyVals K V)))
  rehash_groups nil row zero old next mapper = none
  rehash_groups nil row (suc fuel) old next mapper = do
    got ← pch_iter_next_kvs nil old next true
    elim got [
      | none ↦ some mapper
      | some (kvs, old', next') ↦ do
        col ← column mapper kvs.hash
        dest ← bucket_at mapper row col
        dest' ← pch_insert_kvs dest kvs
        mapper' ← set_bucket mapper row col dest'
        rehash_groups nil row fuel old' next' mapper'
    ]

  unfoldable pub rehash_columns : K → ℕ → ℕ → ℕ → ArrayBktMgr K V → Option (ArrayBktMgr K V)
  rehash_columns nil row zero i st = some st
  rehash_columns nil row (suc left) i st = do
    old ← bucket_at st.mapper_bak row i
    mapper ← rehash_groups nil row (suc old.len) old 0 st.mapper
    mapper_bak ← set_bucket st.mapper_bak row i (pch_shallow_free old)
    rehash_columns nil row left (i + 1) (record st { mapper = mapper; mapper_bak = mapper_bak })

  unfoldable pub mbm_rehash_bak : K → ℕ → ArrayBktMgr K V → Option (ArrayBktMgr K V)
  mbm_rehash_bak nil row st = elim (st.mapper_bak.mbks) [
    | none ↦ some st
    | some _ ↦ rehash_columns nil row st.mapper_bak.map_cols 0 st
  ]

module _ {K V : Type 0} ⦃o : KeyOrder K⦄ where
  -- `pch_iter_begin` on each bucket.
  abbrev pub iters : List (Arr (KeyVals K V)) → List (Arr (KeyVals K V) × ℕ)
  iters [] = []
  iters (bucket ∷ buckets) = (bucket, 0) ∷ iters buckets

  -- Each round of the reduction takes a pair at least, so one more than all pairs is enough.
  abbrev pub total_groups : List (Arr (KeyVals K V)) → ℕ
  total_groups [] = 0
  total_groups (arr ∷ rest) = arr.len + total_groups rest

  unfoldable pub mbm_do_reduce_task :
      K → App K V → ℕ → ArrayBktMgr K V → Option (List (Emit K V) × ArrayBktMgr K V)
  mbm_do_reduce_task nil app col st = elim (st.mapper.mbks) [
    | none ↦ some ([], st)
    | some _ ↦ do
      nodes ← column_buckets st.mapper col st.mapper.map_rows 0
      out ← reduce_or_groupkvs (array_next nil) app (suc (total_groups nodes)) (iters nodes)
      mapper ← free_column st.mapper col st.mapper.map_rows 0
      some (out, record st { mapper = mapper })
  ]

module _ {K V : Type 0} ⦃o : KeyOrder K⦄ {app : App K V} (m : ValuesModel app) where
  -- What a `mbm_map_put` leaves: the bucket of the key's row and column has taken the pair, every
  -- other bucket is as it was, and the estimation has counted the pair for the row.
  pub record Put (f : ℕ → List V) (row : ℕ) (key : K) (val : V) (hash : ℕ) (old : Arr (KeyVals K V))
      (s : MState) (st : ArrayBktMgr K V) (r : ArrayBktMgr K V × List MState) : Type 0 where
    pub bucket : Arr (KeyVals K V) × Bool
    pub inserted : Inserted m f key val old bucket
    pub here : bucket_at r.0.mapper row (hash % st.mapper.map_cols) ≡ some bucket.0
    pub others :
        (i j : ℕ)
        → (i ≢ row) ⊎ (j ≢ hash % st.mapper.map_cols)
        → bucket_at r.0.mapper i j ≡ bucket_at st.mapper i j
    pub counted : get_elem? r.1 row ≡ some (est_newpair s bucket.1)

  -- A pair that a mapper emits goes to the bucket of its row and of its hash value: where that
  -- bucket has at most 2 ^ 30 groups and stands for the history `f` of its keys, of which that of the
  -- key has room, the run does not fault, the bucket stands for the history with the value appended,
  -- every other bucket stays, and the pair is counted, as one with a new key exactly where the bucket
  -- did not have its key.
  pub mbm_map_put-Put :
      (st : ArrayBktMgr K V) (ms : List MState) (row : ℕ) (key : K) (val : V) (keylen hash : ℕ)
      (old : Arr (KeyVals K V)) (s : MState) (f : ℕ → List V)
      → 0 < st.mapper.map_cols
      → bucket_at st.mapper row (hash % st.mapper.map_cols) ≡ some old
      → get_elem? ms row ≡ some s
      → IsKeyvals old
      → Models m (contents old) f
      → length (f (o.rank key)) < 2 ^ 31
      → old.len ≤ 2 ^ 30
      → o.rank (copied_key app key keylen) ≡ o.rank key
      → Returns (mbm_map_put app row key val keylen hash st ms) (Put f row key val hash old s st)
  unfolding mbm_map_put column on_row
  mbm_map_put-Put st ms row key val keylen hash old s f cols at counts inv models short small same =
      let col = hash % st.mapper.map_cols in
      let (bucket, insert, inserted) =
        pch_insert_kv-Inserted m old f key val keylen hash inv models short small same in
      let (mapper, write, w) = set_bucket-Written st.mapper row col old bucket.0 at in
      (
        (record st { mapper = mapper }, set ms row (est_newpair s bucket.1)),
        rw (lt→ltb _ _ cols, at, ◌>>=◌, insert, ◌>>=◌, write, ◌>>=◌, counts),
        record {
          bucket = bucket;
          inserted = inserted;
          here = w.here;
          others = w.others;
          counted = get_elem?-set_self ms row (est_newpair s bucket.1) (get_elem?-lt ms row counts);
        },
      )
