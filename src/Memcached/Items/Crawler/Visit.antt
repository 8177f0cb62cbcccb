-- ===== src/Memcached/Items/Crawler/Visit.antt =====
-- src/items.c: what a visit of the crawler does to an item.
use mage_artifact_baseline.Common.{
  ℕ, ◌+◌, ◌^◌, ◌≤◌, ◌<◌, ◌≡◌, ◌≢◌, ◌⊎◌, Bool, true, false, none, List, ◌∷◌, ◌++◌, length,
}
use mage_artifact_baseline.Memcached.Heap.{StrItem}
use mage_artifact_baseline.Memcached.Lru.{put}
use mage_artifact_baseline.Memcached.Assoc.{ItemKeys}
use mage_artifact_baseline.Memcached.Assoc.Holds.{holds, update}
use mage_artifact_baseline.Memcached.Slabs.Agree.{Agree}
use mage_artifact_baseline.Memcached.Items.{Settings, Store, item_at, put_item}
use mage_artifact_baseline.Memcached.Items.Alloc.{count, is_reclaimable}
use mage_artifact_baseline.Memcached.Items.Invariant.{In, IsStore}
use mage_artifact_baseline.Memcached.Items.Link.{more}
use mage_artifact_baseline.Memcached.Items.Lookup.{with_mem}
use mage_artifact_baseline.Memcached.Items.Crawler.{count_crawled, count_unfetched}

module _ {K : Type 0} ⦃keys : ItemKeys K⦄ (is_crawler : ℕ → Bool) where
  -- Its lock is taken, somebody holds the item, or it lives: all items and all else stay as they were.
  pub record Passed (settings : Settings) (trylock : ℕ → Bool) (st : Store K) (p : ℕ)
      (queue chunks : ℕ → List ℕ) (st' : Store K) : Type 0 where
    pub reason :
        (trylock (keys.hash (item_at st p).key) ≡ false)
        ⊎ ((item_at st p).refcount ≢ 1)
        ⊎ (is_reclaimable settings (item_at st p) ≡ false)
    pub store : IsStore is_crawler st' queue chunks
    pub table : st'.assoc ≡ st.assoc
    pub same : item_at st' p ≡ item_at st p
    pub others : (a : ℕ) → a ≢ p → item_at st' a ≡ item_at st a
    pub rest : with_mem st.lru.mem st' ≡ st

  -- A dead item that only the table held: it is gone, and its chunk is free.
  pub record Reclaimed (settings : Settings) (st : Store K) (p : ℕ) (queue chunks : ℕ → List ℕ)
      (st' : Store K) : Type 0 where
    pub dead : is_reclaimable settings (item_at st p) ≡ true
    pub alone : (item_at st p).refcount ≡ 1
    pub before : List ℕ
    pub after : List ℕ
    pub split : queue (item_at st p).slabs_clsid ≡ before ++ p ∷ after
    pub store :
        IsStore is_crawler st'
          (put (item_at st p).slabs_clsid (before ++ after) queue)
          (put (item_at st p).slabs_clsid (p ∷ chunks (item_at st p).slabs_clsid) chunks)
    pub table : (k : K) → holds st'.assoc k ≡ update (holds st.assoc) (item_at st p).key none k

  module _ (settings : Settings) (trylock : ℕ → Bool) (i p : ℕ) (st : Store K)
      (queue chunks : ℕ → List ℕ) (is : IsStore is_crawler st queue chunks)
      (at : In p (queue (item_at st p).slabs_clsid)) (real : is_crawler p ≡ false)
      (held : 1 ≤ (item_at st p).refcount) (small : (item_at st p).refcount + 1 < 2 ^ 16)
      (items : st.assoc.hash_items < 2 ^ 32)
      (room : length (chunks (item_at st p).slabs_clsid) + 1 < 2 ^ 32) where
    abbrev it : StrItem K
    it = item_at st p

    abbrev st₁ : Store K
    st₁ = put_item p (more it) st

    abbrev counted : Store K
    counted = count i (λ s. count_unfetched (item_at st₁ p).it_flags.fetched (count_crawled s)) st₁
