-- ===== src/Memcached/Items/Move.antt =====
-- src/slabs.c: `slab_rebalance_move`, which clears the page that is to be moved, and
-- `slab_automove_decision`, which picks one.
use mathlib.Core.Bool.{not}
use mage_artifact_baseline.Common.{
  ℕ, zero, suc, ◌+◌, ◌-◌, ◌%◌, Bool, true, false, ◌&&◌, Option, none, some, leb, ltb, length, ◌==◌,
  if◌then◌else◌, ◌>>=◌, u32_mod, u64_mod,
}
use mage_artifact_baseline.Memcached.Heap.{next_if, prev_if}
use mage_artifact_baseline.Memcached.Lru.{Lru, put}
use mage_artifact_baseline.Memcached.Assoc.{ItemKeys}
use mage_artifact_baseline.Memcached.Slabs.{SlabClass, Slabs, power_smallest}
use mage_artifact_baseline.Memcached.Slabs.Rebalance.{Rebal}
use mage_artifact_baseline.Memcached.Items.{
  Store, item_at, put_item, refcount_incr, refcount_decr, do_item_unlink,
}

-- `enum move_status`
pub data MoveStatus : Type 0 where
  move_pass : MoveStatus
  move_done : MoveStatus
  move_busy : MoveStatus
  move_locked : MoveStatus

-- At the end of the page the walk starts again if an item was busy; else the page is clear.
abbrev pub end_of_page : Rebal → Rebal
end_of_page r =
    if ltb r.slab_pos r.slab_end
    then r
    else if r.busy_items == 0
    then record r { done = true }
    else record r { slab_pos = r.slab_start; busy_items = 0 }

module _ {K : Type 0} where
  -- The chunk at `p` leaves the free list of class `id`.
  unfoldable pub detach : ℕ → ℕ → Store K → Store K
  detach id p st =
      let cls = st.slabs.slabclass id in
      let it = item_at st p in
      let mem = next_if it.prev it.next (prev_if it.next it.prev st.lru.mem) in
      let lru : Lru K = record st.lru { mem = mem } in
      let cls' : SlabClass = record cls {
        slots = if cls.slots == p then it.next else cls.slots;
        sl_curr = (cls.sl_curr + u32_mod - 1) % u32_mod;
      } in
      let slabs : Slabs = record st.slabs { slabclass = put id cls' st.slabs.slabclass } in
      record st { lru = lru; slabs = slabs }

  -- The `switch`: whether the item was busy, and the store.
  unfoldable pub settle : MoveStatus → ℕ → Store K → Bool × Store K
  unfolding refcount_decr
  settle move_pass p st = (false, st)
  settle move_done p st = (
    false,
    put_item p
        (record (item_at st p) {
          refcount = 0;
          it_flags = record { linked = false; with_cas = false; slabbed = false; fetched = false };
          slabs_clsid = 255;
        })
        st,
  )
  settle move_busy p st = (true, refcount_decr p st)
  settle move_locked p st = (true, st)

module _ {K : Type 0} ⦃keys : ItemKeys K⦄ where
  -- What is to be done with the chunk at `p`.
  unfoldable pub examine : (ℕ → Bool) → ℕ → ℕ → Store K → Option (MoveStatus × Store K)
  unfolding refcount_incr detach do_item_unlink
  examine trylock id p st =
      let it = item_at st p in
      let hv = keys.hash it.key in
      let st' = refcount_incr p st in
      let refcount = (item_at st' p).refcount in
      if it.slabs_clsid == 255
      then some (move_pass, st)
      else if not (trylock hv)
      then some (move_locked, st)
      else if refcount == 1
      then some (if it.it_flags.slabbed then (move_done, detach id p st') else (move_busy, st'))
      else if refcount == 2 && it.it_flags.linked
      then (do_item_unlink p hv st' >>= λ st''. some (move_done, st''))
      else some (move_busy, st')

  -- One round: `was_busy` counts, and `slab_pos` goes to the next chunk.
  unfoldable pub move_chunk : (ℕ → Bool) → ℕ × Store K → Option (ℕ × Store K)
  unfolding examine settle
  move_chunk trylock (was_busy, st) =
      let r = st.rebal in
      examine trylock r.s_clsid r.slab_pos st >>= λ (status, st').
      let (busy, st'') = settle status r.slab_pos st' in
      let rebal : Rebal = record r {
        slab_pos = r.slab_pos + (st.slabs.slabclass r.s_clsid).size;
        busy_items = if busy then (r.busy_items + 1) % u32_mod else r.busy_items;
      } in
      some (if busy then was_busy + 1 else was_busy, record st'' { rebal = rebal })

  -- The loop: `left` is what is left of `slab_bulk_check`.
  unfoldable pub move_chunks : (ℕ → Bool) → ℕ → ℕ × Store K → Option (ℕ × Store K)
  unfolding move_chunk
  move_chunks trylock zero s = some s
  move_chunks trylock (suc left) s = move_chunk trylock s >>= λ (was_busy, st).
      elim (leb st.rebal.slab_end st.rebal.slab_pos) [
        | true ↦ some (was_busy, st)
        | false ↦ move_chunks trylock left (was_busy, st)
      ]

  unfoldable pub slab_rebalance_move : (ℕ → Bool) → ℕ → Store K → Option (ℕ × Store K)
  unfolding move_chunks
  slab_rebalance_move trylock slab_bulk_check st =
      move_chunks trylock slab_bulk_check (0, st) >>= λ (was_busy, st').
      some (was_busy, record st' { rebal = end_of_page st'.rebal })

-- The static variables of `slab_automove_decision`.
pub record Automove : Type 0 where
  pub evicted_old : ℕ → ℕ
  pub slab_zeroes : ℕ → ℕ
  pub slab_winner : ℕ
  pub slab_wins : ℕ
  pub next_run : ℕ

-- What the loop over the classes has found.
pub record Candidates : Type 0 where
  pub source : ℕ
  pub evicted_max : ℕ
  pub highest_slab : ℕ
  pub state : Automove

-- The round for class `i`: a class without evictions that has pages to spare may give one, and the
-- class with the most evictions is to get one.
unfoldable pub weigh_class : Slabs → (ℕ → ℕ) → ℕ → Candidates → Candidates
weigh_class sl evicted_new i c =
    let evicted_diff = (evicted_new i + u64_mod - c.state.evicted_old i) % u64_mod in
    let zeroes = c.state.slab_zeroes i + 1 in
    let idle = evicted_diff == 0 && ltb 2 (length (sl.slabclass i).slab_list) in
    let more = not idle && ltb c.evicted_max evicted_diff in
    let state : Automove = record c.state {
      slab_zeroes = put i (if idle then zeroes else 0) c.state.slab_zeroes;
      evicted_old = put i (evicted_new i) c.state.evicted_old;
    } in
    record {
      source = if idle && c.source == 0 && leb 3 zeroes then i else c.source;
      evicted_max = if more then evicted_diff else c.evicted_max;
      highest_slab = if more then i else c.highest_slab;
      state = state;
    }

-- The loop from class `i` on, of which `left` are left; the largest class is not looked at.
unfoldable pub weigh_classes : Slabs → (ℕ → ℕ) → ℕ → ℕ → Candidates → Candidates
unfolding weigh_class
weigh_classes sl evicted_new i zero c = c
weigh_classes sl evicted_new i (suc left) c =
    weigh_classes sl evicted_new (i + 1) left (weigh_class sl evicted_new i c)

-- The source and the destination, if there is a move, and the state. Not more often than every ten
-- seconds.
unfoldable pub slab_automove_decision : ℕ → Slabs → (ℕ → ℕ) → Automove → Option (ℕ × ℕ) × Automove
unfolding weigh_classes
slab_automove_decision current_time sl evicted_new a =
    let timed : Automove = record a { next_run = (current_time + 10) % u32_mod } in
    let c =
      weigh_classes sl evicted_new power_smallest (sl.power_largest - power_smallest)
        (record { source = 0; evicted_max = 0; highest_slab = 0; state = timed }) in
    let again = not (a.slab_winner == 0) && a.slab_winner == c.highest_slab in
    let wins = a.slab_wins + 1 in
    let dest = if again && leb 3 wins then a.slab_winner else 0 in
    let state : Automove = record c.state {
      slab_wins = if again then wins else 1;
      slab_winner = if again then a.slab_winner else c.highest_slab;
    } in
    if ltb current_time a.next_run
    then (none, a)
    else (if not (c.source == 0) && not (dest == 0) then some (c.source, dest) else none, state)
