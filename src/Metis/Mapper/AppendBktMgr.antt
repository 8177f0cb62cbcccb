-- ===== src/Metis/Mapper/AppendBktMgr.antt =====
-- lib/appendbktmgr.c: each bucket is an array of pairs in the order of their emission.
use mage_artifact_baseline.Common.{
  ℕ, zero, suc, ◌+◌, ◌*◌, Bool, true, false, Option, none, some, List, [], ◌∷◌, ◌>>=◌, ◌>>◌, assert,
  get_elem?, set, replicate, ◌==◌,
}
use mage_artifact_baseline.Metis.Order.{KeyOrder}
use mage_artifact_baseline.Metis.Types.{AppType, maponly, KeyVals, KeyVal, App, Arr}
use mage_artifact_baseline.Metis.Arr.{pch_init, pch_shallow_free}
use mage_artifact_baseline.Metis.KeyvalArray.{pch_insert_kv, pch_copy_kv}
use mage_artifact_baseline.Metis.KeyvalsArray.{pch_append_kvs}
use mage_artifact_baseline.Metis.Estimation.{MState, est_newpair, on_row}
use mage_artifact_baseline.Metis.Reduce.{Emit, emit_kv, emit_kvs_len, emit_kvs, reduce_or_groupkv}
use mage_artifact_baseline.Metis.Mapper.{
  Mapper, no_mapper, new_mapper, bucket_at, set_bucket, column, column_buckets, free_column,
}

abbrev not_maponly : AppType → Bool
not_maponly maponly = false
not_maponly _ = true

-- `map_out`: NULL, or arrays of pairs, or of groups where the pairs are grouped before the merge.
pub data MapOut (K V : Type 0) : Type 0 where
  no_output : MapOut K V
  pairs : List (Arr (KeyVal K V)) → MapOut K V
  groups : List (Arr (KeyVals K V)) → MapOut K V

-- The static variables of the file.
pub record AppendBktMgr (K V : Type 0) : Type 0 where
  pub mapper : Mapper (Arr (KeyVal K V))
  pub mapper_bak : Mapper (Arr (KeyVal K V))
  pub map_out : MapOut K V
  pub group_before_merge : Bool

module _ {K V : Type 0} where
  -- `merge_first` says whether the build has set SINGLE_APPEND_GROUP_MERGE_FIRST.
  unfoldable pub mbm_mbks_init : Bool → ℕ → ℕ → AppendBktMgr K V → AppendBktMgr K V
  mbm_mbks_init merge_first rows cols st = record st {
    mapper = new_mapper rows cols pch_init;
    group_before_merge = merge_first;
    map_out = elim merge_first [
      | true ↦ groups (replicate (rows * cols) pch_init)
      | false ↦ pairs (replicate (rows * cols) pch_init)
    ];
  }

  -- Every pair counts as one with a new key.
  unfoldable pub mbm_map_put :
      App K V
      → ℕ
      → K
      → V
      → ℕ
      → ℕ
      → AppendBktMgr K V
      → List MState
      → Option (AppendBktMgr K V × List MState)
  mbm_map_put app row key val keylen hash st ms = do
    col ← column st.mapper hash
    bucket ← bucket_at st.mapper row col
    (bucket', _) ← pch_insert_kv app bucket key val keylen hash
    mapper ← set_bucket st.mapper row col bucket'
    ms' ← on_row (λ s. est_newpair s true) row ms
    some (record st { mapper = mapper }, ms')

  unfoldable pub mbm_mbks_bak : AppendBktMgr K V → AppendBktMgr K V
  mbm_mbks_bak st = record st { mapper = no_mapper; mapper_bak = st.mapper }

  -- The pairs of one old bucket, put once more, with a key length of 0: no key is copied twice.
  unfoldable pub put_pairs :
      App K V
      → ℕ
      → List (KeyVal K V)
      → AppendBktMgr K V
      → List MState
      → Option (AppendBktMgr K V × List MState)
  put_pairs app row [] st ms = some (st, ms)
  put_pairs app row (kv ∷ kvs) st ms = do
    (st', ms') ← mbm_map_put app row kv.key kv.val 0 kv.hash st ms
    put_pairs app row kvs st' ms'

  unfoldable pub rehash_columns :
      App K V → ℕ → ℕ → ℕ → AppendBktMgr K V → List MState → Option (AppendBktMgr K V × List MState)
  rehash_columns app row zero i st ms = some (st, ms)
  rehash_columns app row (suc left) i st ms = do
    old ← bucket_at st.mapper_bak row i
    kvs ← pch_copy_kv old
    (st', ms') ← put_pairs app row kvs st ms
    mapper_bak ← set_bucket st'.mapper_bak row i (pch_shallow_free old)
    rehash_columns app row left (i + 1) (record st' { mapper_bak = mapper_bak }) ms'

  unfoldable pub mbm_rehash_bak :
      App K V → ℕ → AppendBktMgr K V → List MState → Option (AppendBktMgr K V × List MState)
  mbm_rehash_bak app row st ms = elim (st.mapper_bak.mbks) [
    | none ↦ some (st, ms)
    | some _ ↦ rehash_columns app row st.mapper_bak.map_cols 0 st ms
  ]

  unfoldable pub mbm_map_get_output : AppendBktMgr K V → MapOut K V × ℕ
  mbm_map_get_output st = (st.map_out, st.mapper.map_rows * st.mapper.map_cols)

module _ {K V : Type 0} ⦃o : KeyOrder K⦄ where
  -- The groups that `reduce_or_groupkv` hands to `hkvsarr.pch_append_kvs`.
  unfoldable pub append_groups : List (Emit K V) → Arr (KeyVals K V) → Option (Arr (KeyVals K V))
  append_groups [] arr = some arr
  append_groups (emit_kvs kvs ∷ out) arr = pch_append_kvs arr kvs >>= append_groups out
  append_groups (emit_kv _ _ ∷ out) arr = none
  append_groups (emit_kvs_len _ _ _ ∷ out) arr = none

  unfoldable pub mbm_do_reduce_task :
      (List (KeyVal K V) → List (KeyVal K V))
      → App K V
      → ℕ
      → AppendBktMgr K V
      → Option (List (Emit K V) × AppendBktMgr K V)
  mbm_do_reduce_task qsort app col st = elim (st.mapper.mbks) [
    | none ↦ some ([], st)
    | some _ ↦ do
      assert (not_maponly app.atype)
      nodes ← column_buckets st.mapper col st.mapper.map_rows 0
      out ← reduce_or_groupkv qsort app false nodes
      mapper ← free_column st.mapper col st.mapper.map_rows 0
      some (out, record st { mapper = mapper })
  ]

  unfoldable pub mbm_map_prepare_merge :
      (List (KeyVal K V) → List (KeyVal K V))
      → App K V
      → ℕ
      → AppendBktMgr K V
      → Option (AppendBktMgr K V)
  mbm_map_prepare_merge qsort app row st = do
    assert (st.mapper.map_cols == 1)
    bucket ← bucket_at st.mapper row 0
    elim (st.map_out) [
      | no_output ↦ none
      | pairs out ↦ do
        mapper ← set_bucket st.mapper row 0 pch_init
        some (record st { mapper = mapper; map_out = pairs (set out row bucket) })
      | groups out ↦ do
        dest ← get_elem? out row
        emitted ← reduce_or_groupkv qsort app true (bucket ∷ [])
        dest' ← append_groups emitted dest
        mapper ← set_bucket st.mapper row 0 (pch_shallow_free bucket)
        some (record st { mapper = mapper; map_out = groups (set out row dest') })
    ]
