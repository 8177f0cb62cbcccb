-- ===== src/Metis/Values.antt =====
-- lib/value_helper.c: the values of one key.
pub mod Capacity
pub mod Move
pub mod Model
use mage_artifact_baseline.Common.{
  ℕ, zero, suc, ◌+◌, ◌*◌, ◌%◌, Bool, true, false, Option, none, some, List, [], ◌∷◌, ◌++◌, ltb, leb,
  ◌==◌, ◌&&◌, if◌then◌else◌, ◌>>=◌, ◌>>◌, assert, take, drop, u32_mod, length,
}
use mage_artifact_baseline.Metis.Types.{
  AppType, mapreduce, Vals, null, buffer, modified, Values, App,
}

abbrev pub is_mapreduce : AppType → Bool
is_mapreduce mapreduce = true
is_mapreduce _ = false

-- `the_app.atype == atype_mapreduce && the_app.mapreduce.vm`, with the modifier.
unfoldable pub modifier : {K V : Type 0} → App K V → Option (Option V → V → Bool → V)
modifier app = if is_mapreduce app.atype then app.vm else none

-- `the_app.atype == atype_mapreduce && the_app.mapreduce.combiner`, with the combiner.
unfoldable pub combiner_of : {K V : Type 0} → App K V → Option (K → List V → ℕ → List V × ℕ)
combiner_of app = if is_mapreduce app.atype then app.combiner else none

-- No values yet. The slot's old `vals` is not read while `len` and `alloc_len` are 0.
abbrev pub no_values : {V : Type 0} → Values V
no_values = record { vals = null; len = 0; alloc_len = 0 }

abbrev pub combiner_threshold : ℕ
combiner_threshold = 8

-- `while (dst->alloc_len < needed) dst->alloc_len *= 2;`
unfoldable pub double_until : ℕ → ℕ → ℕ → Option ℕ
double_until zero needed alloc_len = none
double_until (suc fuel) needed alloc_len = elim (ltb alloc_len needed) [
  | true ↦ double_until fuel needed ((alloc_len * 2) % u32_mod)
  | false ↦ some alloc_len
]

module _ {V : Type 0} where
  -- `vals` read as a value. Only a value that a modifier returned is read in this way.
  abbrev pub as_value : Vals V → Option V
  as_value (modified x) = some x
  as_value _ = none

  -- `vals[i] = v` and the slots around it.
  abbrev pub store : ℕ → V → List V → List V
  store i v xs = take i xs ++ v ∷ drop (suc i) xs

  -- Room for one more value: `malloc` for a new array, `realloc` for a full one.
  unfoldable pub values_grow : Values V → Values V
  values_grow kvs =
      if kvs.alloc_len == 0
      then record kvs { alloc_len = combiner_threshold; vals = buffer [] }
      else if kvs.alloc_len == kvs.len
      then record kvs { alloc_len = (kvs.alloc_len * 2) % u32_mod }
      else kvs

  -- `kvs->vals[kvs->len++] = val`; a write past the allocated array is a fault.
  unfoldable pub values_push : V → Values V → Option (Values V)
  values_push val kvs = elim (kvs.vals) [
    | buffer xs ↦ do
      assert (ltb kvs.len kvs.alloc_len)
      some (record kvs { vals = buffer (store kvs.len val xs); len = (kvs.len + 1) % u32_mod })
    | _ ↦ none
  ]

  unfoldable pub values_modify : (Option V → V → Bool → V) → Values V → V → Values V
  values_modify vm kvs val =
      if kvs.len == 0
      then record kvs { len = 1; vals = modified (vm none val true) }
      else record kvs { vals = modified (vm (as_value kvs.vals) val false) }

  unfoldable pub values_deep_free : Values V → Values V
  values_deep_free _ = record { vals = null; len = 0; alloc_len = 0 }

  -- The array of `dst` with its length, after it has got room for `n` more values: a new array,
  -- or a longer one. Doubling a length of 32 bits takes 32 rounds at most.
  unfoldable pub values_room : Values V → ℕ → Option (Vals V × ℕ)
  values_room dst n =
      if dst.alloc_len == 0
      then some (buffer [], n)
      else if ltb dst.alloc_len ((dst.len + n) % u32_mod)
      then (double_until 33 ((dst.len + n) % u32_mod) dst.alloc_len >>= λ alloc_len.
          some (dst.vals, alloc_len))
      else some (dst.vals, dst.alloc_len)

  -- `memcpy(&dst->vals[dst->len], src->vals, sizeof(void *) * src->len)`, where `vals` and
  -- `alloc_len` are those of `dst` by now.
  unfoldable pub values_copy : Values V → Values V → Vals V × ℕ → Option (Values V)
  values_copy dst src (buffer xs, alloc_len) = elim (src.vals) [
    | buffer ys ↦ do
      assert (leb (dst.len + src.len) alloc_len)
      some (record {
        vals = buffer (take dst.len xs ++ take src.len ys);
        len = (dst.len + src.len) % u32_mod;
        alloc_len = alloc_len;
      })
    | _ ↦ do
      assert (src.len == 0)
      some (record { vals = buffer xs; len = dst.len; alloc_len = alloc_len })
  ]
  values_copy dst src _ = none

module _ {K V : Type 0} (app : App K V) where
  -- The combiner is called once `combiner_threshold` values have gathered.
  unfoldable pub values_combine : K → Values V → Option (Values V)
  values_combine key kvs = elim (combiner_of app) [
    | none ↦ some kvs
    | some combine ↦
        if leb combiner_threshold kvs.len
        then elim (kvs.vals) [
          | buffer xs ↦
              let r = combine key xs kvs.len in
              some (record kvs { vals = buffer (r.0); len = r.1 % u32_mod })
          | _ ↦ none
        ]
        else some kvs
  ]

  unfoldable pub values_insert : K → Values V → V → Option (Values V)
  values_insert key kvs val = elim (modifier app) [
    | some vm ↦ some (values_modify vm kvs val)
    | none ↦ values_push val (values_grow kvs) >>= values_combine key
  ]

  -- The new `dst` and `src`.
  unfoldable pub values_mv : Values V → Values V → Option (Values V × Values V)
  values_mv dst src = elim (modifier app) [
    | some vm ↦ do
      assert (src.len == 1)
      dst' ←
          if dst.len == 0
          then some (record dst { vals = src.vals; alloc_len = src.alloc_len; len = 1 })
          else (as_value src.vals >>= λ val.
              some (record dst { vals = modified (vm (as_value dst.vals) val false) }))
      some (dst', record { vals = null; len = 0; alloc_len = 0 })
    | none ↦ do room ← values_room dst src.len; dst' ← values_copy dst src room; some (dst', src)
  ]
