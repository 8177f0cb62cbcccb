-- ===== src/Memcached/Lru.antt =====
-- src/items.c: the queues of items by their last use, one for each slab class, and the walk of the
-- crawler through them. `next` leads from the head, which is the item used last, to the tail.
pub mod Queue
pub mod Swap
pub mod Crawl
pub mod Ends
pub mod Start
pub mod Link
pub mod Cut
pub mod Unlink
use mathlib.Core.Bool.{not}
use mage_artifact_baseline.Common.{
  ℕ, ◌+◌, ◌-◌, ◌%◌, Bool, true, false, ◌&&◌, ◌||◌, Option, none, some, ltb, ◌==◌, if◌then◌else◌,
  ◌>>=◌, ◌>>◌, assert, u32_mod,
}
use mage_artifact_baseline.Memcached.Heap.{
  Flags, StrItem, Mem, set_next, set_prev, next_if, prev_if,
}

-- `heads`, `tails` and `sizes`, by slab class, and the memory of the items.
pub record Lru (K : Type 0) : Type 0 where
  pub mem : Mem K
  pub heads : ℕ → ℕ
  pub tails : ℕ → ℕ
  pub sizes : ℕ → ℕ

abbrev pub largest_id : ℕ
largest_id = 200

-- `f[i] = v`
unfoldable pub put {ℓ} : {A : Type ℓ} → ℕ → A → (ℕ → A) → ℕ → A
put i v f j = if j == i then v else f j

-- `it_flags == 1`
unfoldable pub only_linked : Flags → Bool
only_linked f = f.linked && not f.with_cas && not f.slabbed && not f.fetched

-- `(*head && *tail) || (*head == 0 && *tail == 0)`
unfoldable pub ends_agree : ℕ → ℕ → Bool
ends_agree head tail = (not (head == 0) && not (tail == 0)) || (head == 0 && tail == 0)

module _ {K : Type 0} where
  -- The item becomes the new head.
  unfoldable pub item_link_q : ℕ → Lru K → Option (Lru K)
  item_link_q it st = do
    let c = (st.mem it).slabs_clsid
    let head = st.heads c
    let tail = st.tails c
    assert (ltb c largest_id)
    assert (not (st.mem it).it_flags.slabbed)
    assert (not (it == head))
    assert (ends_agree head tail)
    some (record {
      mem = prev_if head it (set_next it head (set_prev it 0 st.mem));
      heads = put c it st.heads;
      tails = if tail == 0 then put c it st.tails else st.tails;
      sizes = put c ((st.sizes c + 1) % u32_mod) st.sizes;
    })

  unfoldable pub crawler_unlink_q : ℕ → Lru K → Option (Lru K)
  crawler_unlink_q it st = do
    let c = (st.mem it).slabs_clsid
    let next = (st.mem it).next
    let prev = (st.mem it).prev
    assert (ltb c largest_id)
    assert (if st.heads c == it then prev == 0 else true)
    assert (if st.tails c == it then next == 0 else true)
    assert (not (next == it))
    assert (not (prev == it))
    some (record st {
      mem = next_if prev next (prev_if next prev st.mem);
      heads = if st.heads c == it then put c next st.heads else st.heads;
      tails = if st.tails c == it then put c prev st.tails else st.tails;
    })

  unfoldable pub item_unlink_q : ℕ → Lru K → Option (Lru K)
  item_unlink_q it st = do
    let c = (st.mem it).slabs_clsid
    st' ← crawler_unlink_q it st
    some (record st' { sizes = put c ((st.sizes c + u32_mod - 1) % u32_mod) st.sizes })

  -- A crawler becomes the new tail.
  unfoldable pub crawler_link_q : ℕ → Lru K → Option (Lru K)
  crawler_link_q it st = do
    let c = (st.mem it).slabs_clsid
    let head = st.heads c
    let tail = st.tails c
    assert (ltb c largest_id)
    assert (only_linked (st.mem it).it_flags)
    assert ((st.mem it).nbytes == 0)
    assert (not (tail == 0))
    assert (not (it == tail))
    assert (ends_agree head tail)
    let mem = set_next it 0 (set_prev it tail st.mem)
    assert ((mem tail).next == 0)
    some (record st {
      mem = set_next tail it mem;
      heads = if head == 0 then put c it st.heads else st.heads;
      tails = put c it st.tails;
    })

  -- `it->prev == 0`: the crawler leaves the links, and `tails` where it is the tail as well.
  unfoldable pub crawl_at_head : ℕ → Lru K → Option (ℕ × Lru K)
  crawl_at_head it st = do
    let c = (st.mem it).slabs_clsid
    let next = (st.mem it).next
    assert (st.heads c == it)
    assert (if next == 0 then true else (st.mem next).prev == it)
    some (
      0,
      record st {
        mem = prev_if next 0 st.mem;
        heads = if next == 0 then st.heads else put c next st.heads;
      },
    )

  -- The crawler and the item before it change places.
  unfoldable pub swap_links : ℕ → ℕ → ℕ → Mem K → Mem K
  swap_links it next prev mem =
      let mem₁ = set_next it prev (prev_if next prev (set_next prev next mem)) in
      let before = (mem₁ prev).prev in
      next_if before it (set_prev prev it (set_prev it before mem₁))

  unfoldable pub crawl_past : ℕ → Lru K → Option (ℕ × Lru K)
  crawl_past it st = do
    let c = (st.mem it).slabs_clsid
    let next = (st.mem it).next
    let prev = (st.mem it).prev
    assert (not (prev == it))
    assert (not (next == it))
    assert (if next == 0 then true else (st.mem prev).next == it)
    let mem = swap_links it next prev st.mem
    assert (not ((mem it).next == it))
    assert (not ((mem it).prev == it))
    some (
      (mem it).next,
      record st {
        mem = mem;
        heads = if st.heads c == prev then put c it st.heads else st.heads;
        tails = if st.tails c == it then put c prev st.tails else st.tails;
      },
    )

  -- The crawler goes one step towards the head, and the answer is the item that it has passed; at
  -- the head the answer is NULL.
  unfoldable pub crawler_crawl_q : ℕ → Lru K → Option (ℕ × Lru K)
  crawler_crawl_q it st = do
    assert (only_linked (st.mem it).it_flags)
    assert ((st.mem it).nbytes == 0)
    assert (ltb (st.mem it).slabs_clsid largest_id)
    if (st.mem it).prev == 0 then crawl_at_head it st else crawl_past it st
