-- ===== src/Memcached/Assoc/Updates.antt =====
-- src/assoc.c: insertion and deletion, as operations on the map that the table holds.
use mage_artifact_baseline.Common.{
  ◌+◌, ◌-◌, ◌*◌, ◌/◌, ◌%◌, ◌^◌, ◌<◌, ◌≡◌, Bool, true, none, some, ◌∷◌, inl, inr, arith,
  if◌then◌else◌, ◌>>=◌, length, Returns, Bool-cases, ltb, u32_mod, pow2_pos,
}
use mage_artifact_baseline.Memcached.Assoc.{
  Item, ItemKeys, Assoc, in_old, bucket, write_bucket, assoc_insert, assoc_delete,
  assoc_start_expand,
}
use mage_artifact_baseline.Memcached.Assoc.Holds.{
  IsAssoc, holds, home-IsTable, update, Holds, old_written, primary_written, old_written-Holds,
  primary_written-Holds,
}
use mage_artifact_baseline.Memcached.Assoc.Table.{
  count-set, find_in-push, bucket-some, IsTable-push, unlink-Without,
}

module _ {K V : Type 0} ⦃keys : ItemKeys K⦄ where
  -- Whether the maintenance thread is woken after an insertion.
  abbrev started : Assoc (Item K V) → Bool
  started st =
      if st.expanding
      then st.started_expanding
      else if ltb (2 ^ st.hashpower * 3 / 2) (st.hash_items + 1)
      then true
      else st.started_expanding

  -- An insertion of an item whose key the map does not hold ends without a fault, keeps the
  -- invariant, puts the item under its key, leaves every other key, and counts the item.
  pub assoc_insert-Holds :
      (it : Item K V) (st : Assoc (Item K V))
      → IsAssoc st
      → holds st it.key ≡ none
      → st.hash_items + 1 < 2 ^ 32
      → Returns
          (assoc_insert it (keys.hash it.key) st)
          (Holds (update (holds st) it.key (some it)) (st.hash_items + 1) st.hashpower)
  unfolding assoc_insert bucket write_bucket holds assoc_start_expand
  assoc_insert-Holds it st is absent small = elim (Bool-cases (in_old st (keys.hash it.key))) [
    | inl e ↦
        let n = 2 ^ (st.hashpower - 1) in
        let table = home-IsTable true st (keys.hash it.key) e is in
        let (c, at) =
          bucket-some n st.old_hashtable (keys.hash it.key) (pow2_pos (st.hashpower - 1)) table in
        let absent' = rw e at absent in
        (
          old_written st it.key (some it) c (it ∷ c) (st.hash_items + 1) (started st) is,
          ground (arith, e, at, small),
          old_written-Holds st it.key (some it) c (it ∷ c) (st.hash_items + 1) (started st) is e at
              (IsTable-push n st.old_hashtable it c at table absent')
              (λ k. find_in-push n st.old_hashtable it c k at) (omega arith),
        )
    | inr e ↦
        let n = 2 ^ st.hashpower in
        let (c, at) =
          bucket-some n st.primary_hashtable (keys.hash it.key) (pow2_pos st.hashpower)
            is.primary in
        let absent' = rw e at absent in
        (
          primary_written st it.key (some it) c (it ∷ c) (st.hash_items + 1) (started st) is,
          ground (arith, e, at, small),
          primary_written-Holds st it.key (some it) c (it ∷ c) (st.hash_items + 1) (started st) is e
              at (IsTable-push n st.primary_hashtable it c at is.primary absent')
              (λ k. find_in-push n st.primary_hashtable it c k at) (omega arith),
        )
  ]

  -- A deletion of a key that the map holds ends without a fault, keeps the invariant, takes the
  -- key out, leaves every other key, and counts the item off.
  pub assoc_delete-Holds :
      (key : K) (st : Assoc (Item K V)) {x : Item K V}
      → IsAssoc st
      → holds st key ≡ some x
      → st.hash_items < 2 ^ 32
      → Returns
          (assoc_delete key (keys.hash key) st)
          (Holds (update (holds st) key none) (st.hash_items - 1) st.hashpower)
  unfolding assoc_delete bucket write_bucket holds
  assoc_delete-Holds key st {x} is found small = elim (Bool-cases (in_old st (keys.hash key))) [
    | inl e ↦
        let n = 2 ^ (st.hashpower - 1) in
        let table = home-IsTable true st (keys.hash key) e is in
        let (c, at) =
          bucket-some n st.old_hashtable (keys.hash key) (pow2_pos (st.hashpower - 1)) table in
        let (c', run, w) = unlink-Without n st.old_hashtable key c at table (rw e at found) in
        let sizes : st.hash_items - 1 + length c ≡ st.hash_items + length c' =
          omega
            (arith, count-set st.old_hashtable (keys.hash key % n) c c' at, w.fewer, is.items) in
        let counted : (st.hash_items + u32_mod - 1) % u32_mod ≡ st.hash_items - 1 =
          omega (arith, w.fewer, is.items) in
        (
          old_written st key none c c' (st.hash_items - 1) st.started_expanding is,
          rw (e, at, ◌>>=◌, run, counted),
          old_written-Holds st key none c c' (st.hash_items - 1) st.started_expanding is e at
              w.table w.finds sizes,
        )
    | inr e ↦
        let n = 2 ^ st.hashpower in
        let (c, at) =
          bucket-some n st.primary_hashtable (keys.hash key) (pow2_pos st.hashpower) is.primary in
        let (c', run, w) =
          unlink-Without n st.primary_hashtable key c at is.primary (rw e at found) in
        let sizes : st.hash_items - 1 + length c ≡ st.hash_items + length c' =
          omega (
            arith,
            count-set st.primary_hashtable (keys.hash key % n) c c' at,
            w.fewer,
            is.items,
          ) in
        let counted : (st.hash_items + u32_mod - 1) % u32_mod ≡ st.hash_items - 1 =
          omega (arith, w.fewer, is.items) in
        (
          primary_written st key none c c' (st.hash_items - 1) st.started_expanding is,
          rw (e, at, ◌>>=◌, run, counted),
          primary_written-Holds st key none c c' (st.hash_items - 1) st.started_expanding is e at
              w.table w.finds sizes,
        )
  ]
