-- ===== src/Metis/Reduce.antt =====
-- lib/reduce.c: the pairs of one reduce task are grouped by key, and each group is reduced or put
-- out. What goes out is the list of the calls into lib/rbktsmgr.c.
pub mod Minimum
pub mod Groups
pub mod Task
use mage_artifact_baseline.Common.{
  ℕ, zero, suc, ◌+◌, ◌%◌, Ordering, Bool, true, false, Option, none, some, List, [], ◌∷◌, ◌++◌, map,
  ltb, ◌==◌, if◌then◌else◌, ◌>>=◌, ◌>>◌, assert, length, u32_mod,
}
use mage_artifact_baseline.Metis.Order.{KeyOrder}
use mage_artifact_baseline.Metis.Types.{Vals, buffer, Values, KeyVals, KeyVal, App, Arr}
use mage_artifact_baseline.Metis.Values.{
  is_mapreduce, no_values, as_value, values_insert, values_mv,
}
use mage_artifact_baseline.Metis.KeyvalArray.{pch_copy_kv}
use mage_artifact_baseline.Metis.KeyvalsArray.{pch_iter_next_kvs}

-- A call of `rbkts_emit_kv` (of a reducer, through `kvst_reduce_put`, too), of
-- `rbkts_emit_kvs_len`, or of `meth` of `reduce_or_groupkv`.
pub data Emit (K V : Type 0) : Type 0 where
  emit_kv : K → V → Emit K V
  emit_kvs_len : K → Vals V → ℕ → Emit K V
  emit_kvs : KeyVals K V → Emit K V

-- A collection in the middle of an iteration, and its pair that was read last; none at the end.
pub record Node (N K V : Type 0) : Type 0 where
  pub coll : N
  pub head : Option (KeyVals K V)

-- The search for the least key: the least so far, the number of times that it has changed, and
-- the marks.
pub record Scan (K : Type 0) : Type 0 where
  pub min_key : Option K
  pub m : ℕ
  pub marks : List ℕ

abbrev pub no_scan : {K : Type 0} → Scan K
no_scan = record { min_key = none; m = 0; marks = [] }

module _ {V : Type 0} where
  -- The array that a reducer gets.
  abbrev pub values_list : Vals V → List V
  values_list (buffer xs) = xs
  values_list _ = []

  -- `dst` gets an array with room for the whole group.
  unfoldable pub group_room : ℕ → Values V → Values V
  group_room needed_len dst =
      if ltb dst.alloc_len needed_len
      then record dst { vals = buffer []; alloc_len = needed_len }
      else dst

module _ {K V : Type 0} where
  abbrev pub pair_out : K × V → Emit K V
  pair_out p = emit_kv (p.0) (p.1)

  -- The group of a key goes out, and what is kept of the array of values.
  unfoldable pub emit_group : App K V → K → Values V → Option (List (Emit K V) × Values V)
  emit_group app key dst =
      if is_mapreduce app.atype
      then elim (app.vm) [
        | some vm ↦ as_value dst.vals >>= λ v. some (emit_kv key v ∷ [], no_values)
        | none ↦ some (
          map pair_out (app.reduce_func key (values_list dst.vals) dst.len),
          record dst { len = 0 },
        )
      ]
      else some (emit_kvs_len key dst.vals dst.len ∷ [], no_values)

  -- The values of the marked heads, counted.
  unfoldable pub needed : {N : Type 0} → ℕ → List ℕ → List (Node N K V) → ℕ
  needed m (mark ∷ marks) (node ∷ nodes) =
      let rest = needed m marks nodes in
      elim (node.head) [
        | none ↦ rest
        | some kvs ↦ if mark == m then (kvs.values.len + rest) % u32_mod else rest
      ]
  needed m _ _ = 0

  -- The marked collections give their values to `dst` and go on to their next pair.
  unfoldable pub take_marked :
      {N : Type 0}
      → (N → Option (Option (KeyVals K V × N)))
      → App K V
      → ℕ
      → List ℕ
      → List (Node N K V)
      → Values V
      → Option (List (Node N K V) × Values V)
  take_marked next app m (mark ∷ marks) (node ∷ nodes) dst = elim (mark == m) [
    | true ↦ do
      kvs ← node.head
      (dst', _) ← values_mv app dst kvs.values
      got ← next node.coll
      let node' : Node _ K V = elim got [
        | none ↦ record node { head = none }
        | some (kvs', coll') ↦ record { coll = coll'; head = some kvs' }
      ]
      (nodes', dst'') ← take_marked next app m marks nodes dst'
      some (node' ∷ nodes', dst'')
    | false ↦ do (nodes', dst') ← take_marked next app m marks nodes dst; some (node ∷ nodes', dst')
  ]
  take_marked next app m marks nodes dst = some (nodes, dst)

  -- The first `pch_iter_next_kvs` on each collection.
  unfoldable pub start_nodes :
      {N : Type 0} → (N → Option (Option (KeyVals K V × N))) → List N → Option (List (Node N K V))
  start_nodes next [] = some []
  start_nodes next (coll ∷ colls) = do
    got ← next coll
    nodes ← start_nodes next colls
    let node : Node _ K V = elim got [
      | none ↦ record { coll = coll; head = none }
      | some (kvs, coll') ↦ record { coll = coll'; head = some kvs }
    ]
    some (node ∷ nodes)

module _ {K V : Type 0} ⦃o : KeyOrder K⦄ where
  -- The body of the loop that finds the minimum key.
  unfoldable pub scan_node : Option (KeyVals K V) → Scan K → Scan K
  scan_node none s = record s { marks = s.marks ++ 0 ∷ [] }
  scan_node (some kvs) s =
      let less : Scan K = record {
        min_key = some (kvs.key);
        m = s.m + 1;
        marks = s.marks ++ (s.m + 1) ∷ [];
      } in
      elim (s.min_key) [
        | none ↦ less
        | some key ↦ elim (o.cmp key kvs.key) [
          | Ordering.gt ↦ less
          | Ordering.eq ↦ record s { marks = s.marks ++ s.m ∷ [] }
          | Ordering.lt ↦ record s { marks = s.marks ++ 0 ∷ [] }
        ]
      ]

  unfoldable pub scan_nodes : {N : Type 0} → List (Node N K V) → Scan K → Scan K
  scan_nodes [] s = s
  scan_nodes (node ∷ nodes) s = scan_nodes nodes (scan_node node.head s)

  -- The main loop of `reduce_or_groupkvs`.
  unfoldable pub group_rounds :
      {N : Type 0}
      → (N → Option (Option (KeyVals K V × N)))
      → App K V
      → ℕ
      → List (Node N K V)
      → Values V
      → Option (List (Emit K V))
  group_rounds next app zero nodes dst = none
  group_rounds next app (suc fuel) nodes dst =
      let s = scan_nodes nodes no_scan in
      elim (s.min_key) [
        | none ↦ some []
        | some key ↦ do
          let roomy = group_room (needed s.m s.marks nodes) dst
          (nodes', dst') ← take_marked next app s.m s.marks nodes roomy
          (out, dst'') ← emit_group app key dst'
          rest ← group_rounds next app fuel nodes' dst''
          some (out ++ rest)
      ]

  unfoldable pub reduce_or_groupkvs :
      {N : Type 0}
      → (N → Option (Option (KeyVals K V × N)))
      → App K V
      → ℕ
      → List N
      → Option (List (Emit K V))
  reduce_or_groupkvs next app fuel colls = do
    nodes ← start_nodes next colls
    group_rounds next app fuel nodes no_values

  -- The iterator of `hkvsarr` over an array and the index of its next element.
  unfoldable pub array_next :
      K → Arr (KeyVals K V) × ℕ → Option (Option (KeyVals K V × (Arr (KeyVals K V) × ℕ)))
  array_next nil (arr, next) = pch_iter_next_kvs nil arr next true >>= λ got. elim got [
    | none ↦ some none
    | some (kvs, arr', next') ↦ some (some (kvs, (arr', next')))
  ]

  -- The rest of a group: the loop that finds its end, and the values inserted in order.
  unfoldable pub group_run :
      App K V → K → List (KeyVal K V) → Values V → Option (List (KeyVal K V) × Values V)
  group_run app key [] kvs = some ([], kvs)
  group_run app key (kv ∷ rest) kvs = elim (o.cmp key kv.key) [
    | Ordering.eq ↦ values_insert app key kvs kv.val >>= group_run app key rest
    | _ ↦ some (kv ∷ rest, kvs)
  ]

  -- The group goes to `meth` where there is one.
  unfoldable pub emit_run : App K V → Bool → K → Values V → Option (List (Emit K V) × Values V)
  emit_run app meth key kvs = elim meth [
    | true ↦ some (emit_kvs (record { key = key; values = kvs; hash = 0 }) ∷ [], no_values)
    | false ↦ do
      assert (
          if is_mapreduce app.atype
          then elim (app.vm) [ none ↦ true | some vm ↦ kvs.len == 1 ]
          else true)
      emit_group app key kvs
  ]

  unfoldable pub run_groups :
      App K V → Bool → ℕ → List (KeyVal K V) → Values V → Option (List (Emit K V))
  run_groups app meth zero arr kvs = none
  run_groups app meth (suc fuel) [] kvs = some []
  run_groups app meth (suc fuel) (kv ∷ rest) kvs = do
    first ← values_insert app kv.key kvs kv.val
    (rest', kvs') ← group_run app kv.key rest first
    (out, kvs'') ← emit_run app meth kv.key kvs'
    outs ← run_groups app meth fuel rest' kvs''
    some (out ++ outs)

  -- The pairs of all collections. A single collection is not copied but sorted in place; its
  -- callers free it afterwards.
  unfoldable pub copy_all : List (Arr (KeyVal K V)) → Option (List (KeyVal K V))
  copy_all [] = some []
  copy_all (node ∷ nodes) = do pairs ← pch_copy_kv node; rest ← copy_all nodes; some (pairs ++ rest)

  -- `qsort` of the C library sorts the pairs by key.
  unfoldable pub reduce_or_groupkv :
      (List (KeyVal K V) → List (KeyVal K V))
      → App K V
      → Bool
      → List (Arr (KeyVal K V))
      → Option (List (Emit K V))
  reduce_or_groupkv qsort app meth nodes = do
    assert (ltb 0 (length nodes))
    pairs ← copy_all nodes
    run_groups app meth (suc (length pairs)) (qsort pairs) no_values
