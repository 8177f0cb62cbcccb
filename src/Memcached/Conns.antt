-- ===== src/Memcached/Conns.antt =====
-- src/thread.c: the queue in which the listening thread hands new connections to a worker.
pub mod Fifo
use mage_artifact_baseline.Common.{
  ℕ, zero, suc, ◌+◌, ◌-◌, Bool, true, false, Option, none, some, List, [], ◌∷◌, ◌==◌, if◌then◌else◌,
}
use mage_artifact_baseline.Memcached.Lru.{put}

-- `struct conn_queue`, `cqi_freelist`, and the `next` of all items, by their address.
pub record Conns : Type 0 where
  pub next : ℕ → ℕ
  pub head : ℕ
  pub tail : ℕ
  pub cqi_freelist : ℕ

unfoldable pub cq_init : Conns → Conns
cq_init st = record st { head = 0; tail = 0 }

unfoldable pub cq_push : ℕ → Conns → Conns
cq_push item st =
    let next = put item 0 st.next in
    record st {
      next = if st.tail == 0 then next else put st.tail item next;
      head = if st.tail == 0 then item else st.head;
      tail = item;
    }

-- The item, or NULL, and the queue.
unfoldable pub cq_pop : Conns → ℕ × Conns
cq_pop st =
    let next = st.next st.head in
    if st.head == 0
    then (0, st)
    else (st.head, record st { head = next; tail = if next == 0 then 0 else st.tail })

abbrev pub items_per_alloc : ℕ
items_per_alloc = 64

-- The loop of `cqi_new` from `i` on, of which `left` rounds are left; an item has one address.
unfoldable pub link_items : ℕ → ℕ → ℕ → (ℕ → ℕ) → ℕ → ℕ
link_items item i zero next = next
link_items item i (suc left) next =
    link_items item (i + 1) left (put (item + i - 1) (item + i) next)

-- An item from the free list, or the first of a new block.
unfoldable pub cqi_new : Option ℕ → Conns → ℕ × Conns
unfolding link_items
cqi_new malloc st =
    if st.cqi_freelist == 0
    then elim malloc [
      | none ↦ (0, st)
      | some item ↦ (
        item,
        record st {
          next =
              put (item + items_per_alloc - 1) st.cqi_freelist
                (link_items item 2 (items_per_alloc - 2) st.next);
          cqi_freelist = item + 1;
        },
      )
    ]
    else (st.cqi_freelist, record st { cqi_freelist = st.next st.cqi_freelist })

unfoldable pub cqi_free : ℕ → Conns → Conns
cqi_free item st = record st { next = put item st.cqi_freelist st.next; cqi_freelist = item }
