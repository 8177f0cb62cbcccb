-- ===== src/Memcached/Lru/Ends.antt =====
-- src/items.c: the crawler at the head of a queue, where it stops, and at the tail, where it starts.
use mathlib.Core.Path.{fun_ext}
use mage_artifact_baseline.Common.{
  ℕ, ◌<◌, ◌≡◌, refl, sym, ap, ◌∙◌, subst, Bool, true, false, some, List, [], ◌∷◌, arith, ◌==◌,
  ==_iff, if◌then◌else◌, Returns, lt→ltb,
}
use mage_artifact_baseline.Memcached.Heap.{write, Mem, set_prev, prev_if}
use mage_artifact_baseline.Memcached.Heap.Segments.{Apart, Seg, SameContents}
use mage_artifact_baseline.Memcached.Heap.Writes.{Outside-prev_if}
use mage_artifact_baseline.Memcached.Lru.{
  Lru, largest_id, put, crawler_unlink_q, crawler_crawl_q, crawl_at_head, only_linked,
}
use mage_artifact_baseline.Memcached.Lru.Queue.{IsLru, IsQueue, put_self}
use mage_artifact_baseline.Memcached.Lru.Unlink.{crawler_unlink_q-IsLru}

module _ {K : Type 0} where
  prev_if-prev_if : (p v : ℕ) (mem : Mem K) → prev_if p v (prev_if p v mem) ≡ prev_if p v mem
  unfolding prev_if set_prev write
  prev_if-prev_if p v mem = fun_ext (λ q. ground arith)

  prev_if_zero : (v : ℕ) (mem : Mem K) → prev_if 0 v mem ≡ mem
  unfolding prev_if
  prev_if_zero v mem = refl

module _ {K : Type 0} (is_crawler : ℕ → Bool) where
  module _ (it : ℕ) (st : Lru K) (queue : ℕ → List ℕ) (zs : List ℕ) (is : IsLru is_crawler st queue)
      (split : queue (st.mem it).slabs_clsid ≡ it ∷ zs) where
    abbrev c : ℕ
    c = (st.mem it).slabs_clsid

    abbrev next : ℕ
    next = (st.mem it).next

    in_queue : IsQueue is_crawler st c (it ∷ zs)
    in_queue = subst (IsQueue is_crawler st c) split (is.each c)

    -- The state that `crawl_at_head` leaves.
    abbrev popped : Lru K
    popped = record st {
      mem = prev_if next 0 st.mem;
      heads = if next == 0 then st.heads else put c next st.heads;
    }

    back :
        (zs' : List ℕ)
        → Seg st.mem it next zs' 0
        → (if next == 0 then true else (st.mem next).prev == it) ≡ true
    back [] s = rw s
    back (z ∷ zs') s =
        let e : (st.mem next).prev ≡ it = ap (λ q. (st.mem q).prev) s.0 ∙ s.2 in
        rw ((==_iff (st.mem next).prev it).1 e) (ground arith)

    crawl_at_head-popped : crawl_at_head it st ≡ some (0, popped)
    unfolding crawl_at_head
    crawl_at_head-popped =
        let q = in_queue in rw ((==_iff (st.heads c) it).1 q.links.0, back zs q.links.3)

    popped-it : (zs' : List ℕ) → Seg st.mem it next zs' 0 → Apart it zs' → popped.mem it ≡ st.mem it
    popped-it zs' s apart = Outside-prev_if st.mem it next zs' 0 st.mem s it apart

    popped_alone : next ≡ 0 → popped ≡ st
    popped_alone s = rw (s, prev_if_zero 0 st.mem)

    crawler_unlink_q-popped :
        (zs' : List ℕ)
        → Seg st.mem it next zs' 0
        → Apart it zs'
        → crawler_unlink_q it popped ≡ crawler_unlink_q it st
    unfolding crawler_unlink_q
    crawler_unlink_q-popped [] s apart = ap (crawler_unlink_q it) (popped_alone s)
    crawler_unlink_q-popped (z ∷ zs') s apart =
        let q = in_queue in
        let same = popped-it (z ∷ zs') s apart in
        let there : (next == 0) ≡ false = ground (arith, s.0, s.1) in
        let other : (next == it) ≡ false = ground (arith, s.0, apart.0) in
        rw (
          same,
          there,
          q.links.2,
          (==_iff (st.heads c) it).1 q.links.0,
          put_self c next st.heads,
          other,
          prev_if-prev_if next 0 st.mem,
        )

    -- A crawler at the head gets NULL, and the `crawler_unlink_q` that follows takes it out of the
    -- queue, although its links are partly gone.
    pub crawler_crawl_q-stops :
        only_linked (st.mem it).it_flags ≡ true
        → (st.mem it).nbytes ≡ 0
        → is_crawler it ≡ true
        → c < largest_id
        → Returns (crawler_crawl_q it st) λ (found, st').
          (found ≡ 0)
          × Returns
              (crawler_unlink_q it st')
              λ st''. IsLru is_crawler st'' (put c zs queue) × SameContents st.mem st''.mem
    unfolding crawler_crawl_q
    crawler_crawl_q-stops enabled empty crawler small =
        let q = in_queue in
        let first : ((st.mem it).prev == 0) ≡ true = (==_iff (st.mem it).prev 0).1 q.links.2 in
        (
          (0, popped),
          rw (enabled, (==_iff (st.mem it).nbytes 0).1 empty, lt→ltb c largest_id small, first)
              crawl_at_head-popped,
          (
            refl,
            subst
                (λ r.
                  Returns r
                    λ st''. IsLru is_crawler st'' (put c zs queue) × SameContents st.mem st''.mem)
                (sym (crawler_unlink_q-popped zs q.links.3 q.distinct.0))
                (crawler_unlink_q-IsLru is_crawler it st queue [] zs is split crawler small),
          ),
        )
