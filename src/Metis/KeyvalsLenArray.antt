-- ===== src/Metis/KeyvalsLenArray.antt =====
-- lib/keyvals_len_array.c: the handler `hkvslenarr`, an array of the groups of a grouping run.
use mage_artifact_baseline.Common.{ℕ, Option, Returns, ◌^◌, ◌<◌, ◌≡◌, [], ◌∷◌, ◌++◌}
use mage_artifact_baseline.Metis.Types.{Vals, KeyValsLen, Arr}
use mage_artifact_baseline.Metis.Arr.{checkfull, push}
use mage_artifact_baseline.Metis.Arr.Room.{IsArr, contents, push-checkfull}

module _ {K V : Type 0} where
  unfoldable pub pch_insert_kvslen :
      Arr (KeyValsLen K V) → K → Vals V → ℕ → Option (Arr (KeyValsLen K V))
  pch_insert_kvslen arr key vals len =
      push (record { key = key; vals = vals; len = len }) (checkfull arr)

  -- An insertion does not fault, and appends the group.
  pub pch_insert_kvslen-append :
      (arr : Arr (KeyValsLen K V)) (key : K) (vals : Vals V) (len : ℕ)
      → IsArr arr
      → arr.len < 2 ^ 31
      → Returns (pch_insert_kvslen arr key vals len) λ arr'.
        IsArr arr'
        × (contents arr' ≡ contents arr ++ record { key = key; vals = vals; len = len } ∷ [])
  unfolding pch_insert_kvslen
  pch_insert_kvslen-append arr key vals len inv small = push-checkfull _ arr inv small
