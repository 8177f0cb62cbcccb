-- ===== src/Memcached/Items/Crawler/Start.antt =====
-- src/items.c: `lru_crawler_crawl`, which sends the crawlers of some classes on their way.
use mathlib.Core.Bool.{not}
use mage_artifact_baseline.Common.{
  ℕ, Bool, true, ◌||◌, Option, none, some, List, [], ◌∷◌, ◌++◌, ltb, ◌==◌, if◌then◌else◌, ◌>>=◌,
}
use mage_artifact_baseline.Memcached.Lru.{put, largest_id}
use mage_artifact_baseline.Memcached.Slabs.{power_smallest}
use mage_artifact_baseline.Memcached.Assoc.{ItemKeys}
use mage_artifact_baseline.Memcached.Util.{Scan, safe_strtoul}
use mage_artifact_baseline.Memcached.Tokens.{is_empty}
use mage_artifact_baseline.Memcached.Items.Crawler.{Crawl, start_crawlers}

-- `enum crawler_result_type`, as far as this function answers it.
pub data CrawlerResult : Type 0 where
  crawler_ok : CrawlerResult
  crawler_running : CrawlerResult
  crawler_badclass : CrawlerResult

-- `strtok_r(slabs, ",", &b)`: the parts between commas that are not empty.
unfoldable pub split_commas : List ℕ → List ℕ → List (List ℕ)
split_commas word [] = if is_empty word then [] else word ∷ []
split_commas word (c ∷ cs) =
    let next = split_commas [] cs in
    let longer = split_commas (word ++ c ∷ []) cs in
    if not (c == 44) then longer else if is_empty word then next else word ∷ next

-- The loop over the parts: the classes to crawl, or none inside where a part is no class. A write
-- behind the array is a fault.
unfoldable pub choose_classes :
    (List ℕ → Scan) → List (List ℕ) → (ℕ → Bool) → Option (Option (ℕ → Bool))
unfolding safe_strtoul
choose_classes strtoul [] tocrawl = some (some tocrawl)
choose_classes strtoul (p ∷ ps) tocrawl = elim (safe_strtoul strtoul p) [
  | none ↦ some none
  | some sid ↦
      let rest = choose_classes strtoul ps (put sid true tocrawl) in
      if ltb sid power_smallest || ltb largest_id sid
      then some none
      else if sid == largest_id
      then none
      else rest
]

module _ {K : Type 0} ⦃keys : ItemKeys K⦄ where
  -- `free` says that the lock of the crawler is free, `all` that the argument is "all"; `stale` is
  -- what lies in the array `tocrawl` before it is written, and `limit` is
  -- `settings.lru_crawler_tocrawl`.
  unfoldable pub lru_crawler_crawl :
      (List ℕ → Scan)
      → Bool
      → Bool
      → (ℕ → Bool)
      → ℕ
      → List ℕ
      → Crawl K
      → Option (CrawlerResult × Crawl K)
  unfolding split_commas choose_classes start_crawlers
  lru_crawler_crawl strtoul free all stale limit slabs c =
      if not free
      then some (crawler_running, c)
      else ((if all
            then some (some (λ sid. true))
            else choose_classes strtoul (split_commas [] slabs) stale)
          >>= λ chosen. elim chosen [
            | none ↦ some (crawler_badclass, c)
            | some tocrawl ↦
                start_crawlers tocrawl limit 0 largest_id c >>= λ c'. some (crawler_ok, c')
          ])
