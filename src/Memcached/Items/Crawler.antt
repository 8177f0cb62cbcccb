-- ===== src/Memcached/Items/Crawler.antt =====
-- src/items.c: the thread of the LRU crawler, which walks the queues and frees dead items.
pub mod Visit
pub mod Start
use mathlib.Core.Bool.{not}
use mage_artifact_baseline.Common.{
  ℕ, zero, suc, ◌+◌, ◌-◌, ◌%◌, Bool, true, false, ◌&&◌, ◌||◌, Option, none, some, ◌==◌,
  if◌then◌else◌, ◌>>=◌, ◌>>◌, assert, u32_mod,
}
use mage_artifact_baseline.Memcached.Heap.{Flags, StrItem}
use mage_artifact_baseline.Memcached.Lru.{
  Lru, put, only_linked, largest_id, crawler_crawl_q, crawler_link_q, crawler_unlink_q,
}
use mage_artifact_baseline.Memcached.Assoc.{ItemKeys}
use mage_artifact_baseline.Memcached.Items.{
  ItemStats, Store, Settings, item_at, put_item, with_lru, refcount_incr, refcount_decr,
  do_item_unlink, do_item_remove,
}
use mage_artifact_baseline.Memcached.Items.Alloc.{count, is_reclaimable}

-- `crawlers[i].remaining` and `crawler_count`; the rest of `crawlers[i]` lies in the memory of the
-- items, at the address `crawlers i`.
pub record Crawl (K : Type 0) : Type 0 where
  pub crawlers : ℕ → ℕ
  pub remaining : ℕ → ℕ
  pub crawler_count : ℕ
  pub store : Store K

abbrev pub no_flags : Flags
no_flags = record { linked = false; with_cas = false; slabbed = false; fetched = false }

abbrev pub count_crawled : ItemStats → ItemStats
count_crawled s = record s { crawler_reclaimed = s.crawler_reclaimed + 1 }

abbrev pub count_unfetched : Bool → ItemStats → ItemStats
count_unfetched fetched s = record s {
  expired_unfetched = if fetched then s.expired_unfetched else s.expired_unfetched + 1;
}

module _ {K : Type 0} ⦃keys : ItemKeys K⦄ where
  -- A dead item leaves the table and the queue and is freed; of a live one the reference is given back.
  unfoldable pub item_crawler_evaluate : Settings → ℕ → ℕ → ℕ → Store K → Option (Store K)
  unfolding is_reclaimable do_item_unlink do_item_remove refcount_decr
  item_crawler_evaluate settings search hv i st =
      let it = item_at st search in
      let counted = count i (λ s. count_unfetched it.it_flags.fetched (count_crawled s)) st in
      let reclaimed = (do_item_unlink search hv counted >>= do_item_remove search) >>= λ st'.
      assert ((item_at st' search).slabs_clsid == 0) >> some st' in
      if is_reclaimable settings it then reclaimed else some (refcount_decr search st)

  -- What the thread does with the item that it has passed. `item_trylock` may fail, and an item that
  -- somebody else holds is left alone.
  unfoldable pub visit_item : Settings → (ℕ → Bool) → ℕ → ℕ → Store K → Option (Store K)
  unfolding item_crawler_evaluate refcount_incr refcount_decr
  visit_item settings trylock i search st =
      let hv = keys.hash (item_at st search).key in
      let st' = refcount_incr search st in
      if not (trylock hv)
      then some st
      else if not ((item_at st' search).refcount == 2)
      then some (refcount_decr search st')
      else item_crawler_evaluate settings search hv i st'

  -- The crawler of class `i` is at the head, or has seen as many items as it should.
  unfoldable pub stop_crawling : ℕ → Crawl K → Option (Crawl K)
  stop_crawling i c = do
    let p = c.crawlers i
    let off = put_item p (record (item_at c.store p) { it_flags = no_flags }) c.store
    lru ← crawler_unlink_q p off.lru
    some (record c {
      crawler_count = (c.crawler_count + u32_mod - 1) % u32_mod;
      store = with_lru off lru;
    })

  -- One round of the inner loop.
  unfoldable pub crawl_class : Settings → (ℕ → Bool) → ℕ → Crawl K → Option (Crawl K)
  unfolding stop_crawling visit_item
  crawl_class settings trylock i c =
      if not (only_linked (item_at c.store (c.crawlers i)).it_flags)
      then some c
      else (crawler_crawl_q (c.crawlers i) c.store.lru >>= λ (search, lru).
          let left = c.remaining i in
          let remaining =
            if search == 0 || left == 0 then c.remaining else put i (left - 1) c.remaining in
          let c' : Crawl K = record c { remaining = remaining; store = with_lru c.store lru } in
          if search == 0 || left == 1
          then stop_crawling i c'
          else (visit_item settings trylock i search c'.store >>= λ st.
              some (record c' { store = st })))

  -- The loop over the classes from `i` on, of which `left` are left.
  unfoldable pub crawl_classes : Settings → (ℕ → Bool) → ℕ → ℕ → Crawl K → Option (Crawl K)
  unfolding crawl_class
  crawl_classes settings trylock i zero c = some c
  crawl_classes settings trylock i (suc left) c =
      crawl_class settings trylock i c >>= crawl_classes settings trylock (i + 1) left

  -- The loop while a crawler is on its way; the fuel bounds its rounds.
  unfoldable pub item_crawler_run : ℕ → Settings → (ℕ → Bool) → Crawl K → Option (Crawl K)
  unfolding crawl_classes
  item_crawler_run zero settings trylock c = none
  item_crawler_run (suc fuel) settings trylock c = elim (c.crawler_count == 0) [
    | true ↦ some c
    | false ↦
        crawl_classes settings trylock 0 largest_id c >>= item_crawler_run fuel settings trylock
  ]

  -- The second loop of `lru_crawler_crawl`, for the classes from `i` on: `tocrawl` says which
  -- classes, and `limit` is `settings.lru_crawler_tocrawl`.
  unfoldable pub start_crawlers : (ℕ → Bool) → ℕ → ℕ → ℕ → Crawl K → Option (Crawl K)
  start_crawlers tocrawl limit i zero c = some c
  start_crawlers tocrawl limit i (suc left) c = elim (tocrawl i && not (c.store.lru.tails i == 0)) [
    | false ↦ start_crawlers tocrawl limit (i + 1) left c
    | true ↦
        let p = c.crawlers i in
        let started : StrItem K = record (item_at c.store p) {
          nbytes = 0;
          nkey = 0;
          next = 0;
          prev = 0;
          time = 0;
          slabs_clsid = i;
          it_flags = record { linked = true; with_cas = false; slabbed = false; fetched = false };
        } in
        let st = put_item p started c.store in
        crawler_link_q p st.lru >>= λ lru. start_crawlers tocrawl limit (i + 1) left (record c {
          remaining = put i limit c.remaining;
          crawler_count = (c.crawler_count + 1) % u32_mod;
          store = with_lru st lru;
        })
  ]
