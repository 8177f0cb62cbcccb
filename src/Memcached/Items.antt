-- ===== src/Memcached/Items.antt =====
-- src/items.c: the items, from their allocation to their release. An item is found through the hash
-- table and aged in the queue of its slab class; a reference count keeps it alive meanwhile.
pub mod Invariant
pub mod Unlinked
pub mod Unlink
pub mod Linked
pub mod Link
pub mod Free
pub mod Get
pub mod Lookup
pub mod Roundtrip
pub mod Alloc
pub mod Crawler
pub mod Move
use mathlib.Core.Bool.{not}
use mage_artifact_baseline.Common.{
  ℕ, zero, suc, ◌+◌, ◌-◌, ◌*◌, ◌%◌, ◌^◌, Bool, true, false, ◌&&◌, ◌||◌, Option, none, some, List,
  [], leb, ltb, ◌==◌, if◌then◌else◌, ◌>>=◌, ◌>>◌, assert, u32_mod, u64_mod,
}
use mage_artifact_baseline.Memcached.Heap.{Flags, StrItem, Mem, write}
use mage_artifact_baseline.Memcached.Lru.{
  Lru, put, item_link_q, item_unlink_q, crawler_crawl_q, crawler_unlink_q,
}
use mage_artifact_baseline.Memcached.Slabs.{Slabs, do_slabs_free}
use mage_artifact_baseline.Memcached.Slabs.Rebalance.{Rebal}
use mage_artifact_baseline.Memcached.Assoc.{
  Item, ItemKeys, Assoc, assoc_find, assoc_insert, assoc_delete,
}

-- `itemstats_t`
pub record ItemStats : Type 0 where
  pub evicted : ℕ
  pub evicted_nonzero : ℕ
  pub evicted_time : ℕ
  pub reclaimed : ℕ
  pub outofmemory : ℕ
  pub tailrepairs : ℕ
  pub expired_unfetched : ℕ
  pub evicted_unfetched : ℕ
  pub crawler_reclaimed : ℕ
  pub lrutail_reflocked : ℕ

-- The static variables of items.c, slabs.c and assoc.c, the counters of `stats` that items.c keeps,
-- and the static `cas_id` and `cur`. The value of an entry of the hash table is the item's address.
pub record Store (K : Type 0) : Type 0 where
  pub lru : Lru K
  pub slabs : Slabs
  pub assoc : Assoc (Item K ℕ)
  pub curr_bytes : ℕ
  pub curr_items : ℕ
  pub total_items : ℕ
  pub cas_id : ℕ
  pub itemstats : ℕ → ItemStats
  pub rebal : Rebal
  pub cur : ℕ

-- `settings` and `current_time`.
pub record Settings : Type 0 where
  pub use_cas : Bool
  pub oldest_live : ℕ
  pub evict_to_free : Bool
  pub tail_repair_time : ℕ
  pub slab_automove : ℕ
  pub slab_reassign : Bool
  pub item_size_max : ℕ
  pub current_time : ℕ

abbrev pub item_update_interval : ℕ
item_update_interval = 60

-- `sizeof(struct _stritem)`, on a machine with 64 bits.
abbrev pub sizeof_item : ℕ
sizeof_item = 48

abbrev pub u16_mod : ℕ
u16_mod = 2 ^ 16

-- `get_cas_id()` where CAS is on: the next id; else 0.
unfoldable pub next_cas : Bool → ℕ → ℕ
next_cas use_cas cas_id = if use_cas then (cas_id + 1) % u64_mod else cas_id

abbrev pub in_moving_page : ℕ → Rebal → Bool
in_moving_page p r = not (r.signal == 0) && leb r.slab_start p && ltb p r.slab_end

-- An item that has expired, or that is older than the last flush.
unfoldable pub is_dead : {K : Type 0} → Settings → StrItem K → Bool
is_dead settings it =
    (not (settings.oldest_live == 0)
      && leb settings.oldest_live settings.current_time
      && leb it.time settings.oldest_live)
    || (not (it.exptime == 0) && leb it.exptime settings.current_time)

module _ {K : Type 0} where
  abbrev pub item_at : Store K → ℕ → StrItem K
  item_at st p = st.lru.mem p

  -- A write to the fields of an item.
  abbrev pub put_item : ℕ → StrItem K → Store K → Store K
  put_item p it st =
      let lru : Lru K = record st.lru { mem = write p it st.lru.mem } in record st { lru = lru }

  abbrev pub with_lru : Store K → Lru K → Store K
  with_lru st lru = record st { lru = lru }

  unfoldable pub item_ntotal : StrItem K → ℕ
  item_ntotal it =
      sizeof_item + it.nkey + 1 + it.nsuffix + it.nbytes + (if it.it_flags.with_cas then 8 else 0)

  -- `refcount_incr` and `refcount_decr`; the new count is in the item.
  unfoldable pub refcount_incr : ℕ → Store K → Store K
  refcount_incr p st =
      put_item p (record (item_at st p) { refcount = ((item_at st p).refcount + 1) % u16_mod }) st

  unfoldable pub refcount_decr : ℕ → Store K → Store K
  refcount_decr p st =
      put_item p
        (record (item_at st p) { refcount = ((item_at st p).refcount + u16_mod - 1) % u16_mod }) st

  abbrev pub set_linked : Bool → StrItem K → StrItem K
  set_linked b it =
      let flags : Flags = record it.it_flags { linked = b } in record it { it_flags = flags }

  unfoldable pub item_set_cas : ℕ → StrItem K → StrItem K
  item_set_cas v it = if it.it_flags.with_cas then record it { cas = v } else it

  unfoldable pub item_get_cas : StrItem K → ℕ
  item_get_cas it = if it.it_flags.with_cas then it.cas else 0

  -- The chunk goes back to its slab class.
  unfoldable pub item_free : ℕ → Store K → Option (Store K)
  unfolding item_ntotal
  item_free p st = do
    let it = item_at st p
    assert (not it.it_flags.linked)
    assert (not (p == st.lru.heads it.slabs_clsid))
    assert (not (p == st.lru.tails it.slabs_clsid))
    assert (it.refcount == 0)
    let st' = put_item p (record it { slabs_clsid = 0 }) st
    (mem, slabs) ← do_slabs_free p (item_ntotal it) it.slabs_clsid (st'.lru.mem, st'.slabs)
    let lru : Lru K = record st'.lru { mem = mem }
    some (record st' { lru = lru; slabs = slabs })

  -- A reference is given back; the last one frees the item.
  unfoldable pub do_item_remove : ℕ → Store K → Option (Store K)
  unfolding refcount_decr item_free
  do_item_remove p st = do
    assert (not (item_at st p).it_flags.slabbed)
    assert (ltb 0 (item_at st p).refcount)
    let st' = refcount_decr p st
    if (item_at st' p).refcount == 0 then item_free p st' else some st'

module _ {K : Type 0} ⦃keys : ItemKeys K⦄ where
  unfoldable pub do_item_link : Settings → ℕ → ℕ → Store K → Option (Store K)
  unfolding item_ntotal next_cas item_set_cas refcount_incr
  do_item_link settings p hv st = do
    let it = item_at st p
    assert (not it.it_flags.linked && not it.it_flags.slabbed)
    let cas_id = next_cas settings.use_cas st.cas_id
    let linked : StrItem K = record (set_linked true it) { time = settings.current_time }
    let st' = put_item p (item_set_cas (if settings.use_cas then cas_id else 0) linked) st
    assoc ← assoc_insert (record { key = it.key; value = p }) hv st.assoc
    lru ← item_link_q p st'.lru
    some (
        refcount_incr p (record st' {
          lru = lru;
          assoc = assoc;
          curr_bytes = (st.curr_bytes + item_ntotal it) % u64_mod;
          curr_items = (st.curr_items + 1) % u32_mod;
          total_items = (st.total_items + 1) % u32_mod;
          cas_id = cas_id;
        }))

  -- `do_item_unlink` and `do_item_unlink_nolock`: nothing happens to an item that is not linked.
  unfoldable pub do_item_unlink : ℕ → ℕ → Store K → Option (Store K)
  unfolding item_ntotal do_item_remove
  do_item_unlink p hv st = elim ((item_at st p).it_flags.linked) [
    | true ↦ do
      let it = item_at st p
      let st' = put_item p (set_linked false it) st
      assoc ← assoc_delete it.key hv st.assoc
      lru ← item_unlink_q p st'.lru
      do_item_remove p (record st' {
        lru = lru;
        assoc = assoc;
        curr_bytes = (st.curr_bytes + u64_mod - item_ntotal it) % u64_mod;
        curr_items = (st.curr_items + u32_mod - 1) % u32_mod;
      })
    | false ↦ some st
  ]

  -- The item goes to the head of its queue, with the current time.
  unfoldable pub relink : Settings → ℕ → Store K → Option (Store K)
  relink settings p st = do
    lru ← item_unlink_q p st.lru
    let timed = put_item p (record (lru.mem p) { time = settings.current_time }) (with_lru st lru)
    lru' ← item_link_q p timed.lru
    some (with_lru st lru')

  -- `do_item_update` and `do_item_update_nolock`: an item that has not been touched for a minute
  -- goes to the head of its queue. The difference of the times wraps in the first minute.
  unfoldable pub do_item_update : Settings → ℕ → Store K → Option (Store K)
  do_item_update settings p st = do
    let it = item_at st p
    let stale = ltb it.time ((settings.current_time + u32_mod - item_update_interval) % u32_mod)
    assert (if stale then not it.it_flags.slabbed else true)
    if stale && it.it_flags.linked then relink settings p st else some st

  unfoldable pub do_item_replace : Settings → ℕ → ℕ → ℕ → Store K → Option (Store K)
  unfolding do_item_unlink do_item_link
  do_item_replace settings p new_p hv st = do
    assert (not (item_at st p).it_flags.slabbed)
    st' ← do_item_unlink p hv st
    do_item_link settings new_p hv st'

  abbrev pub set_fetched : StrItem K → StrItem K
  set_fetched it =
      let flags : Flags = record it.it_flags { fetched = true } in record it { it_flags = flags }

  -- The address of the item with a reference for the caller, or NULL. An item in a page that is
  -- being moved, and one that is dead, is unlinked.
  unfoldable pub do_item_get : Settings → K → ℕ → Store K → Option (ℕ × Store K)
  unfolding do_item_unlink do_item_remove is_dead refcount_incr
  do_item_get settings key hv st = assoc_find key hv st.assoc >>= λ found. elim found [
    | none ↦ some (0, st)
    | some entry ↦
        let p = entry.value in
        let st' = refcount_incr p st in
        if in_moving_page p st.rebal || is_dead settings (item_at st' p)
        then ((do_item_unlink p hv st' >>= do_item_remove p) >>= λ gone. some (0, gone))
        else some (p, put_item p (set_fetched (item_at st' p)) st')
  ]

  unfoldable pub do_item_touch : Settings → K → ℕ → ℕ → Store K → Option (ℕ × Store K)
  unfolding do_item_get
  do_item_touch settings key exptime hv st = do
    (p, st') ← do_item_get settings key hv st
    some (
        if p == 0
        then (p, st')
        else (p, put_item p (record (item_at st' p) { exptime = exptime }) st'))

  -- The walk over one queue: `fuel` bounds the number of items.
  unfoldable pub flush_queue : ℕ → Settings → ℕ → Store K → Option (Store K)
  unfolding do_item_unlink
  flush_queue zero settings iter st = none
  flush_queue (suc fuel) settings iter st =
      let it = item_at st iter in
      elim (iter == 0 || it.time == 0 || ltb it.time settings.oldest_live) [
        | true ↦ some st
        | false ↦ elim (it.it_flags.slabbed) [
          | true ↦ flush_queue fuel settings it.next st
          | false ↦ do_item_unlink iter (keys.hash it.key) st >>= flush_queue fuel settings it.next
        ]
      ]

  -- `left` queues are left, from class `i` on.
  unfoldable pub flush_queues : ℕ → Settings → ℕ → ℕ → Store K → Option (Store K)
  unfolding flush_queue
  flush_queues fuel settings i zero st = some st
  flush_queues fuel settings i (suc left) st =
      flush_queue fuel settings (st.lru.heads i) st >>= flush_queues fuel settings (i + 1) left

  unfoldable pub do_item_flush_expired : ℕ → Settings → Store K → Option (Store K)
  unfolding flush_queues
  do_item_flush_expired fuel settings st =
      if settings.oldest_live == 0 then some st else flush_queues fuel settings 0 200 st
