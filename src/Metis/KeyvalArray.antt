-- ===== src/Metis/KeyvalArray.antt =====
-- lib/keyval_array.c: the handler `hkvarr`, an array of pairs in the order of their emission.
use mage_artifact_baseline.Common.{
  ℕ, ◌+◌, ◌^◌, ◌<◌, ◌≡◌, refl, Bool, true, Option, none, some, List, [], ◌∷◌, ◌++◌, ◌==◌, leb,
  if◌then◌else◌, ◌>>=◌, ◌>>◌, assert, get_elem?, take, length, Returns, arith, take-length,
}
use mage_artifact_baseline.Metis.Types.{KeyVal, App, Arr}
use mage_artifact_baseline.Metis.Arr.{slots, checkfull, push}
use mage_artifact_baseline.Metis.Arr.Room.{IsArr, contents, len-contents, push-checkfull}
use mage_artifact_baseline.Metis.KeyvalsArray.{copied_key}

module _ {K V : Type 0} where
  -- The new array, and 1.
  unfoldable pub pch_insert_kv :
      App K V → Arr (KeyVal K V) → K → V → ℕ → ℕ → Option (Arr (KeyVal K V) × Bool)
  pch_insert_kv app arr key val keylen hash = do
    let pair : KeyVal K V = record { key = copied_key app key keylen; val = val; hash = hash }
    arr' ← push pair (checkfull arr)
    some (arr', true)

  -- `*next`, the index after it; none at the end.
  unfoldable pub pch_iter_next_kv : Arr (KeyVal K V) → ℕ → Option (Option (KeyVal K V × ℕ))
  pch_iter_next_kv arr next =
      if next == arr.len
      then some none
      else (get_elem? (slots arr.arr) next >>= λ kv. some (some (kv, next + 1)))

  -- `memcpy(dst, arr->arr, arr->len * sizeof(keyval_t))`, into the slots from `dst` on.
  unfoldable pub pch_copy_kv : Arr (KeyVal K V) → Option (List (KeyVal K V))
  pch_copy_kv arr = do
    assert (leb arr.len (length (slots arr.arr)))
    some (take arr.len (slots arr.arr))

  -- An insertion does not fault and appends the pair, with the application's copy of the key.
  pub pch_insert_kv-append :
      (app : App K V) (arr : Arr (KeyVal K V)) (key : K) (val : V) (keylen hash : ℕ)
      → IsArr arr
      → arr.len < 2 ^ 31
      → Returns (pch_insert_kv app arr key val keylen hash) λ r.
        IsArr r.0
        × (contents r.0
            ≡ contents arr
              ++ record { key = copied_key app key keylen; val = val; hash = hash } ∷ [])
        × (r.1 ≡ true)
  unfolding pch_insert_kv
  pch_insert_kv-append app arr key val keylen hash inv small =
      let pair : KeyVal K V = record { key = copied_key app key keylen; val = val; hash = hash } in
      let (arr', run, (inv', appended)) = push-checkfull pair arr inv small in
      ((arr', true), rw run, (inv', appended, refl))

  pub pch_copy_kv-contents :
      (arr : Arr (KeyVal K V)) → IsArr arr → pch_copy_kv arr ≡ some (contents arr)
  unfolding pch_copy_kv
  pch_copy_kv-contents arr inv =
      let n = len-contents arr inv in ground (arith, n, take-length arr.len (contents arr))
