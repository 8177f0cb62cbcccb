-- ===== src/Metis/KeyvalsArray.antt =====
-- lib/keyvals_array.c: the handler `hkvsarr`, an array of key groups sorted by key.
pub mod Find
pub mod Models
use mage_artifact_baseline.Common.{
  ℕ, zero, suc, ◌+◌, ◌%◌, Ordering, Bool, true, false, Option, none, some, List, [], ◌∷◌, ltb, ◌==◌,
  if◌then◌else◌, ◌>>=◌, ◌>>◌, assert, get_elem?, set, u32_mod,
}
use mage_artifact_baseline.Metis.Order.{KeyOrder}
use mage_artifact_baseline.Metis.Types.{null, Values, KeyVals, App, Arr}
use mage_artifact_baseline.Metis.Bsearch.{bsearch_eq}
use mage_artifact_baseline.Metis.Values.{no_values, values_insert}
use mage_artifact_baseline.Metis.Arr.{slots, checkfull, push}

-- `memmove(&arr[dst + 1], &arr[dst], ...)` if `dst` is not the end, and `arr[dst] = pair`.
unfoldable pub insert_at {ℓ} : {A : Type ℓ} → ℕ → A → List A → List A
insert_at zero x ys = x ∷ ys
insert_at (suc i) x [] = x ∷ []
insert_at (suc i) x (y ∷ ys) = y ∷ insert_at i x ys

-- `keylen && mrkeycopy`
unfoldable pub copied_key : {K V : Type 0} → App K V → K → ℕ → K
copied_key app key keylen = elim (app.keycopy) [
  | none ↦ key
  | some keycopy ↦ if keylen == 0 then key else keycopy key keylen
]

module _ {K V : Type 0} ⦃o : KeyOrder K⦄ where
  -- `keyvals_cmp` compares the keys.
  instance abbrev pub keyvals_order : KeyOrder (KeyVals K V)
  keyvals_order = record {
    cmp = λ a b. o.cmp a.key b.key;
    rank = λ a. o.rank a.key;
    cmp_rank = λ a b. o.cmp_rank a.key b.key;
  }

  -- `tmp`, of which only the key is set and read.
  abbrev pub probe : K → KeyVals K V
  probe key = record { key = key; values = no_values; hash = 0 }

  unfoldable pub pch_append_kvs : Arr (KeyVals K V) → KeyVals K V → Option (Arr (KeyVals K V))
  pch_append_kvs arr kvs = push kvs (checkfull arr)

  -- The tail of the two insertions: an element is written between the others.
  unfoldable pub place : Arr (KeyVals K V) → ℕ → KeyVals K V → Option (Arr (KeyVals K V))
  place arr dst kvs = elim (arr.arr) [
    | none ↦ none
    | some xs ↦ do
      assert (ltb arr.len arr.alloc_len)
      some (record arr { len = (arr.len + 1) % u32_mod; arr = some (insert_at dst kvs xs) })
  ]

  unfoldable pub pch_insert_kvs : Arr (KeyVals K V) → KeyVals K V → Option (Arr (KeyVals K V))
  pch_insert_kvs arr kvs = do
    let arr' = checkfull arr
    (dst, bfound) ← bsearch_eq keyvals_order.cmp kvs (slots arr'.arr) arr'.len
    elim bfound [ true ↦ none | false ↦ place arr' dst kvs ]

  -- The new array, and whether the key was new.
  unfoldable pub pch_insert_kv :
      App K V → Arr (KeyVals K V) → K → V → ℕ → ℕ → Option (Arr (KeyVals K V) × Bool)
  pch_insert_kv app arr key val keylen hash = do
    (dst, bfound) ← bsearch_eq keyvals_order.cmp (probe key) (slots arr.arr) arr.len
    elim bfound [
      | true ↦ do
        kvs ← get_elem? (slots arr.arr) dst
        values ← values_insert app kvs.key kvs.values val
        some (
          record arr { arr = some (set (slots arr.arr) dst (record kvs { values = values })) },
          false,
        )
      | false ↦ do
        let key' = copied_key app key keylen
        values ← values_insert app key' no_values val
        arr' ← place (checkfull arr) dst (record { key = key'; values = values; hash = hash })
        some (arr', true)
    ]

  -- The iterator is the index of the next element; `bclear` clears the element that was read, the
  -- key too, which is then NULL.
  unfoldable pub pch_iter_next_kvs :
      K → Arr (KeyVals K V) → ℕ → Bool → Option (Option (KeyVals K V × Arr (KeyVals K V) × ℕ))
  pch_iter_next_kvs nil arr next bclear =
      if next == arr.len
      then some none
      else (get_elem? (slots arr.arr) next >>= λ kvs.
          let arr' =
            if bclear
            then record arr { arr = some (set (slots arr.arr) next (probe nil)) }
            else arr in
          some (some (kvs, arr', next + 1)))
