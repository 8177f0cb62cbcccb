-- ===== src/Memcached/Items/Alloc.antt =====
-- src/items.c: `do_item_alloc`, which takes the memory of a dead item at the tail of the queue, or a
-- free chunk, or evicts the item at the tail.
use mathlib.Core.Bool.{not}
use mage_artifact_baseline.Common.{
  ℕ, zero, suc, ◌+◌, ◌-◌, ◌%◌, Bool, true, false, ◌&&◌, ◌||◌, Option, none, some, leb, ltb, ◌==◌,
  if◌then◌else◌, ◌>>=◌, ◌>>◌, assert, u32_mod,
}
use mage_artifact_baseline.Memcached.Heap.{StrItem}
use mage_artifact_baseline.Memcached.Lru.{Lru, put, only_linked}
use mage_artifact_baseline.Memcached.Slabs.{
  Slabs, slabs_clsid, do_slabs_alloc, slabs_adjust_mem_requested,
}
use mage_artifact_baseline.Memcached.Slabs.Rebalance.{do_slabs_reassign}
use mage_artifact_baseline.Memcached.Assoc.{ItemKeys}
use mage_artifact_baseline.Memcached.Items.{
  ItemStats, Store, Settings, sizeof_item, item_at, put_item, item_ntotal, refcount_incr,
  refcount_decr, do_item_unlink, do_item_update,
}

-- What the functions of other libraries answer during one call: `malloc` and `realloc` for a new
-- page, `item_trylock` for each hash value, the trylock of `slabs_reassign`, and the number of
-- characters of `snprintf(suffix, 40, " %d %d\r\n", flags, nbytes - 2)`.
pub record Answers : Type 0 where
  pub malloc : Option ℕ
  pub realloc_ok : Bool
  pub trylock : ℕ → Bool
  pub rebalance_lock : Bool
  pub suffix_len : ℕ → ℕ → ℕ

-- `item_make_header`: the size with the header, and `nsuffix`. `nkey` comes as an 8-bit number.
unfoldable pub item_make_header : Answers → ℕ → ℕ → ℕ → ℕ × ℕ
item_make_header env nkey flags nbytes =
    let nsuffix = env.suffix_len flags nbytes % 256 in
    (sizeof_item + nkey % 256 + nsuffix + nbytes, nsuffix)

unfoldable pub item_size : Answers → Settings → ℕ → ℕ → ℕ → ℕ
unfolding item_make_header
item_size env settings nkey flags nbytes =
    (item_make_header env (nkey + 1) flags nbytes).0 + (if settings.use_cas then 8 else 0)

unfoldable pub item_size_ok : Answers → Settings → ℕ → ℕ → ℕ → Slabs → Bool
unfolding item_size
item_size_ok env settings nkey flags nbytes sl =
    not (slabs_clsid (item_size env settings nkey flags nbytes) sl == 0)

-- Where the loop of `do_item_alloc` has ended.
pub record Search (K : Type 0) : Type 0 where
  pub it : ℕ
  pub tried_alloc : Bool
  pub tries : ℕ
  pub search : ℕ
  pub store : Store K

module _ {K : Type 0} where
  -- A counter of the class is changed.
  abbrev pub count : ℕ → (ItemStats → ItemStats) → Store K → Store K
  count id f st = record st { itemstats = put id (f (st.itemstats id)) st.itemstats }

  abbrev pub count_reclaimed : StrItem K → ItemStats → ItemStats
  count_reclaimed it s = record s {
    reclaimed = s.reclaimed + 1;
    expired_unfetched =
        if it.it_flags.fetched then s.expired_unfetched else s.expired_unfetched + 1;
  }

  abbrev pub count_evicted : ℕ → StrItem K → ItemStats → ItemStats
  count_evicted now it s = record s {
    evicted = s.evicted + 1;
    evicted_time = (now + u32_mod - it.time) % u32_mod;
    evicted_nonzero = if it.exptime == 0 then s.evicted_nonzero else s.evicted_nonzero + 1;
    evicted_unfetched =
        if it.it_flags.fetched then s.evicted_unfetched else s.evicted_unfetched + 1;
  }

  unfoldable pub slabs_alloc : Answers → Settings → ℕ → ℕ → Store K → Option (ℕ × Store K)
  slabs_alloc env settings size id st = do
    (p, (mem, slabs)) ←
        do_slabs_alloc settings.slab_reassign settings.item_size_max env.realloc_ok env.malloc size
          id (st.lru.mem, st.slabs)
    let lru : Lru K = record st.lru { mem = mem }
    some (p, record st { lru = lru; slabs = slabs })

  -- `slabs_reassign(-1, id)`, whose answer is not used.
  unfoldable pub ask_for_page : Answers → Settings → ℕ → Store K → Store K
  ask_for_page env settings id st =
      if settings.slab_automove == 2 && env.rebalance_lock
      then (let (_, (rebal, cur)) = do_slabs_reassign none id st.cur (st.rebal, st.slabs) in
          record st { rebal = rebal; cur = cur })
      else st

  -- Expired or flushed; unlike `do_item_get`, an item that expires now still lives.
  unfoldable pub is_reclaimable : Settings → StrItem K → Bool
  is_reclaimable settings it =
      (not (it.exptime == 0) && ltb it.exptime settings.current_time)
      || (leb it.time settings.oldest_live && leb settings.oldest_live settings.current_time)

  abbrev pub is_crawler_item : StrItem K → Bool
  is_crawler_item it = it.nbytes == 0 && it.nkey == 0 && only_linked it.it_flags

module _ {K : Type 0} ⦃keys : ItemKeys K⦄ where
  -- The memory of an item that is in use by nobody else is taken over.
  unfoldable pub take_over : ℕ → ℕ → ℕ → Store K → Option (Store K)
  unfolding do_item_unlink item_ntotal
  take_over ntotal p hv st = do
    let it = item_at st p
    slabs ← slabs_adjust_mem_requested it.slabs_clsid (item_ntotal it) ntotal st.slabs
    st' ← do_item_unlink p hv (record st { slabs = slabs })
    some (put_item p (record (item_at st' p) { slabs_clsid = 0 }) st')

  -- The item at the tail is not referenced: it is reclaimed, or a chunk is allocated, or it is
  -- evicted. The answer has the memory, or NULL, and whether an allocation was tried.
  unfoldable pub try_item :
      Answers → Settings → ℕ → ℕ → ℕ → ℕ → Store K → Option (ℕ × (Bool × Store K))
  unfolding take_over slabs_alloc ask_for_page is_reclaimable
  try_item env settings id ntotal p hv st =
      let it = item_at st p in
      if is_reclaimable settings it
      then (take_over ntotal p hv (count id (count_reclaimed it) st) >>= λ st'.
          some (p, (false, st')))
      else (slabs_alloc env settings ntotal id st >>= λ (new, st').
          if not (new == 0)
          then some (new, (false, st'))
          else if not settings.evict_to_free
          then some (0, (true, count id (λ s. record s { outofmemory = s.outofmemory + 1 }) st'))
          else (take_over ntotal p hv (count id (count_evicted settings.current_time it) st')
              >>= λ st''. some (p, (true, ask_for_page env settings id st''))))

  -- The item is in use: it goes to the head of its queue. After a time such an item is taken for one
  -- whose count is wrong.
  unfoldable pub pass_locked : Settings → ℕ → ℕ → ℕ → Store K → Option (Store K)
  unfolding do_item_update do_item_unlink refcount_decr
  pass_locked settings id p hv st = do
    st₁ ← do_item_update settings p st
    let st₂ =
        count id (λ s. record s { lrutail_reflocked = s.lrutail_reflocked + 1 })
          (refcount_decr p st₁)
    let stuck =
        not (settings.tail_repair_time == 0)
        && ltb (((item_at st₂ p).time + settings.tail_repair_time) % u32_mod) settings.current_time
    let repaired = count id (λ s. record s { tailrepairs = s.tailrepairs + 1 }) st₂
    let alone = put_item p (record (item_at repaired p) { refcount = 1 }) repaired
    if stuck then do_item_unlink p hv alone else some st₂

  -- The loop: `reflocked` is `tries_lrutail_reflocked`. The fuel bounds the items that it passes.
  unfoldable pub alloc_loop :
      ℕ → Answers → Settings → ℕ → ℕ → ℕ → ℕ → ℕ → ℕ → Store K → Option (Search K)
  unfolding try_item pass_locked refcount_incr refcount_decr
  alloc_loop zero env settings id ntotal cur_hv tries reflocked search st = none
  alloc_loop (suc fuel) env settings id ntotal cur_hv tries reflocked search st =
      let it = item_at st search in
      let hv = keys.hash it.key in
      elim (tries == 0 || search == 0) [
        | true ↦
            some
              (record { it = 0; tried_alloc = false; tries = tries; search = search; store = st })
        | false ↦ elim (is_crawler_item it) [
          | true ↦ alloc_loop fuel env settings id ntotal cur_hv tries reflocked it.prev st
          | false ↦ elim (hv == cur_hv || not (env.trylock hv)) [
            | true ↦ alloc_loop fuel env settings id ntotal cur_hv (tries - 1) reflocked it.prev st
            | false ↦
                let st' = refcount_incr search st in
                elim ((item_at st' search).refcount == 2) [
                  | false ↦ pass_locked settings id search hv st' >>= λ passed.
                      elim (ltb reflocked 2) [
                        | true ↦ some (record {
                          it = 0;
                          tried_alloc = false;
                          tries = tries + 1;
                          search = search;
                          store = passed;
                        })
                        | false ↦
                            alloc_loop fuel env settings id ntotal cur_hv tries (reflocked - 1)
                              it.prev passed
                      ]
                  | true ↦ try_item env settings id ntotal search hv st' >>= λ (got, (tried, st'')).
                      some (record {
                        it = got;
                        tried_alloc = tried;
                        tries = tries;
                        search = search;
                        store = refcount_decr search st'';
                      })
                ]
          ]
        ]
      ]

  -- The fields of a new item.
  abbrev pub fresh_item : Bool → ℕ → K → ℕ → ℕ → ℕ → ℕ → StrItem K → StrItem K
  fresh_item use_cas id key nkey nsuffix exptime nbytes it = record it {
    next = 0;
    prev = 0;
    refcount = 1;
    slabs_clsid = id;
    key = key;
    nkey = nkey;
    nsuffix = nsuffix;
    exptime = exptime;
    nbytes = nbytes;
    it_flags = record { linked = false; with_cas = use_cas; slabbed = false; fetched = false };
  }

  unfoldable pub do_item_alloc :
      ℕ → Answers → Settings → K → ℕ → ℕ → ℕ → ℕ → ℕ → Store K → Option (ℕ × Store K)
  unfolding alloc_loop slabs_alloc item_size item_make_header
  do_item_alloc fuel env settings key nkey flags exptime nbytes cur_hv st =
      let ntotal = item_size env settings nkey flags nbytes in
      let nsuffix = (item_make_header env (nkey + 1) flags nbytes).1 in
      let id = slabs_clsid ntotal st.slabs in
      if id == 0
      then some (0, st)
      else (alloc_loop fuel env settings id ntotal cur_hv 5 1000 (st.lru.tails id) st >>= λ s.
          (if not s.tried_alloc && (s.tries == 0 || s.search == 0)
            then slabs_alloc env settings ntotal id s.store
            else some (s.it, s.store))
          >>= λ (p, st').
              if p == 0
              then some (0, count id (λ c. record c { outofmemory = c.outofmemory + 1 }) st')
              else (assert ((item_at st' p).slabs_clsid == 0)
                  >> assert (not (p == st'.lru.heads id))
                  >> some (
                    p,
                    put_item p
                        (fresh_item settings.use_cas id key nkey nsuffix exptime nbytes
                          (item_at st' p))
                        st',
                  )))
