-- ===== src/Metis/Rbktsmgr.antt =====
-- lib/rbktsmgr.c and lib/apphelper.c: the buckets of the reduce phase, and the final results.
use mage_artifact_baseline.Common.{
  ℕ, Bool, true, false, Option, none, some, List, [], ◌∷◌, ◌++◌, ◌==◌, if◌then◌else◌, ◌>>=◌,
  get_elem?, set, replicate, take, length,
}
use mage_artifact_baseline.Metis.Types.{
  AppType, mapgroup, mapreduce, Vals, KeyVal, KeyValsLen, App, Arr,
}
use mage_artifact_baseline.Metis.Arr.{slots, pch_init, pch_set_elems, pch_shallow_free}
use mage_artifact_baseline.Metis.KeyvalArray.{pch_insert_kv}
use mage_artifact_baseline.Metis.KeyvalsLenArray.{pch_insert_kvslen}
use mage_artifact_baseline.Metis.Reduce.{Emit, emit_kv, emit_kvs_len, emit_kvs}

-- `rbkts` by the handler `rbkt_pch`: `hkvarr`, or `hkvslenarr` for an application that groups.
pub data Rbkts (K V : Type 0) : Type 0 where
  pairs : List (Arr (KeyVal K V)) → Rbkts K V
  groups : List (Arr (KeyValsLen K V)) → Rbkts K V

-- `rbkts_cat` over either handler: all buckets go to the first.
module _ {A : Type 0} where
  abbrev pub joined : List (Arr A) → List A
  joined [] = []
  joined (rbkt ∷ rbkts) = take rbkt.len (slots rbkt.arr) ++ joined rbkts

  abbrev pub freed : List (Arr A) → List (Arr A)
  freed [] = []
  freed (rbkt ∷ rbkts) = pch_shallow_free rbkt ∷ freed rbkts

  unfoldable pub cat_buckets : List (Arr A) → Option (List (Arr A))
  cat_buckets rbkts = elim (length rbkts == 1) [
    | true ↦ some rbkts
    | false ↦ do
      let output = joined rbkts
      first ← get_elem? (freed rbkts) 0
      some (set (freed rbkts) 0 (pch_set_elems first output (length output)))
  ]

module _ {K V : Type 0} where
  -- `app_set_arg` chooses the handler, and `rbkts_init` makes the buckets.
  unfoldable pub rbkts_init : AppType → ℕ → Rbkts K V
  rbkts_init mapgroup n = groups (replicate n pch_init)
  rbkts_init _ n = pairs (replicate n pch_init)

  -- The checks of `app_set_arg` on a value modifier.
  unfoldable pub app_set_arg : App K V → Bool → Bool
  app_set_arg app has_reduce_func = elim (app.atype) [
    | mapreduce ↦ elim (app.vm) [
      | none ↦ true
      | some _ ↦
          if has_reduce_func then false else elim (app.combiner) [ none ↦ true | some _ ↦ false ]
    ]
    | _ ↦ true
  ]

  unfoldable pub rbkts_emit_kv : App K V → ℕ → K → V → Rbkts K V → Option (Rbkts K V)
  rbkts_emit_kv app cur_task key val (pairs rbkts) = do
    rbkt ← get_elem? rbkts cur_task
    (rbkt', _) ← pch_insert_kv app rbkt key val 0 0
    some (pairs (set rbkts cur_task rbkt'))
  rbkts_emit_kv app cur_task key val (groups rbkts) = none

  unfoldable pub rbkts_emit_kvs_len : ℕ → K → Vals V → ℕ → Rbkts K V → Option (Rbkts K V)
  rbkts_emit_kvs_len cur_task key vals len (groups rbkts) = do
    rbkt ← get_elem? rbkts cur_task
    rbkt' ← pch_insert_kvslen rbkt key vals len
    some (groups (set rbkts cur_task rbkt'))
  rbkts_emit_kvs_len cur_task key vals len (pairs rbkts) = none

  -- All that a reduce task puts out.
  unfoldable pub rbkts_emit : App K V → ℕ → List (Emit K V) → Rbkts K V → Option (Rbkts K V)
  rbkts_emit app cur_task [] r = some r
  rbkts_emit app cur_task (emit_kv key val ∷ out) r =
      rbkts_emit_kv app cur_task key val r >>= rbkts_emit app cur_task out
  rbkts_emit app cur_task (emit_kvs_len key vals len ∷ out) r =
      rbkts_emit_kvs_len cur_task key vals len r >>= rbkts_emit app cur_task out
  rbkts_emit app cur_task (emit_kvs kvs ∷ out) r = none

  unfoldable pub rbkts_cat : Rbkts K V → Option (Rbkts K V)
  rbkts_cat (pairs rbkts) = cat_buckets rbkts >>= λ out. some (pairs out)
  rbkts_cat (groups rbkts) = cat_buckets rbkts >>= λ out. some (groups out)
