-- ===== src/Memcached/Lru/Unlink.antt =====
-- src/items.c: `item_unlink_q` and `crawler_unlink_q`.
use mage_artifact_baseline.Common.{
  ℕ, ◌+◌, ◌-◌, ◌%◌, ◌<◌, ◌≡◌, ◌≢◌, refl, sym, ap, ◌∙◌, subst, Bool, true, false, List, ◌∷◌, ◌++◌,
  arith, if◌then◌else◌, Returns, lt→ltb, u32_mod,
}
use mage_artifact_baseline.Memcached.Heap.Segments.{Off, Seg, Outside, SameContents}
use mage_artifact_baseline.Memcached.Heap.Writes.{Off-sym, Distinct-split, Distinct-append}
use mage_artifact_baseline.Memcached.Lru.{Lru, largest_id, put, item_unlink_q, crawler_unlink_q}
use mage_artifact_baseline.Memcached.Lru.Queue.{
  IsLru, IsQueue, InClass-SameContents, Local-IsLru, items_in, put_self, put_other,
}
use mage_artifact_baseline.Memcached.Lru.Cut.{
  unlinked, At, place, Seg-cut, head-cut, tail-cut, head_first, tail_last, not_next, not_prev,
  InClass-cut, unlinked-Local, Off-cut, items_in-cut,
}

module _ {K : Type 0} (is_crawler : ℕ → Bool) where
  module _ (it : ℕ) (st : Lru K) (queue : ℕ → List ℕ) (xs zs : List ℕ)
      (is : IsLru is_crawler st queue) (split : queue (st.mem it).slabs_clsid ≡ xs ++ it ∷ zs) where
    in_queue : IsQueue is_crawler st (st.mem it).slabs_clsid (xs ++ it ∷ zs)
    in_queue =
        subst (IsQueue is_crawler st (st.mem it).slabs_clsid) split
          (is.each (st.mem it).slabs_clsid)

    there : At st.mem it (st.heads (st.mem it).slabs_clsid) (st.tails (st.mem it).slabs_clsid) xs zs
    there =
        place st.mem it (st.heads (st.mem it).slabs_clsid) (st.tails (st.mem it).slabs_clsid) xs zs
          in_queue.links in_queue.tail in_queue.distinct

    unlinked-IsLru :
        (sizes : ℕ → ℕ)
        → sizes (st.mem it).slabs_clsid ≡ items_in is_crawler (xs ++ zs) % u32_mod
        → ((d : ℕ) → d ≢ (st.mem it).slabs_clsid → sizes d ≡ st.sizes d)
        → IsLru is_crawler (unlinked it st sizes) (put (st.mem it).slabs_clsid (xs ++ zs) queue)
    unlinked-IsLru sizes size same_sizes =
        let c = (st.mem it).slabs_clsid in
        let q = in_queue in
        let a = there in
        let l = unlinked-Local it st sizes xs zs a same_sizes in
        let off =
          λ (d : ℕ) (other : d ≢ c). subst (λ ys. Off (queue d) ys) split (is.apart d c other) in
        let (dl, (apart, dr), between) = Distinct-split xs (it ∷ zs) q.distinct in
        Local-IsLru is_crawler st (unlinked it st sizes) queue c (xs ++ it ∷ zs) (xs ++ zs) is l off
          (λ d other. Off-cut (queue d) xs it zs (off d other))
          record {
            links =
                subst (λ h. Seg (unlinked it st sizes).mem 0 h (xs ++ zs) 0)
                  (sym (head-cut st.mem st.heads c it (st.tails c) xs zs a))
                  (Seg-cut st.mem it (st.heads c) (st.tails c) xs zs a);
            tail = tail-cut st.mem st.tails c it (st.heads c) xs zs a;
            distinct = Distinct-append xs zs dl dr (Off-sym zs xs (Off-sym xs (it ∷ zs) between).1);
            class =
                InClass-SameContents st.mem (unlinked it st sizes).mem c (xs ++ zs) l.contents
                  (InClass-cut st.mem c it xs zs q.class).1;
            size = size;
          }

    -- A crawler leaves its queue.
    pub crawler_unlink_q-IsLru :
        is_crawler it ≡ true
        → (st.mem it).slabs_clsid < largest_id
        → Returns (crawler_unlink_q it st) λ st'.
          IsLru is_crawler st' (put (st.mem it).slabs_clsid (xs ++ zs) queue)
          × SameContents st.mem st'.mem
    unfolding crawler_unlink_q
    crawler_unlink_q-IsLru crawler small =
        let c = (st.mem it).slabs_clsid in
        let h = st.heads c in
        let t = st.tails c in
        let a = there in
        let size : st.sizes c ≡ items_in is_crawler (xs ++ zs) % u32_mod =
          in_queue.size
          ∙ ap (λ n. n % u32_mod) (items_in-cut is_crawler xs it zs ∙ rw crawler (omega arith)) in
        (
          unlinked it st st.sizes,
          rw (
            lt→ltb c largest_id small,
            head_first st.mem it h t xs zs a,
            tail_last st.mem it h t xs zs a,
            not_next st.mem it h t xs zs a,
            not_prev st.mem it h t xs zs a,
          ),
          (
            unlinked-IsLru st.sizes size (λ d other. refl),
            (unlinked-Local it st st.sizes xs zs a (λ d other. refl)).contents,
          ),
        )

    -- An item leaves the queue of its class; the order of the others stays, and so do the other
    -- queues and all but the links of the items.
    pub item_unlink_q-IsLru :
        is_crawler it ≡ false
        → (st.mem it).slabs_clsid < largest_id
        → Returns (item_unlink_q it st) λ st'.
          IsLru is_crawler st' (put (st.mem it).slabs_clsid (xs ++ zs) queue)
          × SameContents st.mem st'.mem
          × Outside (xs ++ it ∷ zs) st.mem st'.mem
    unfolding item_unlink_q crawler_unlink_q
    item_unlink_q-IsLru real small =
        let c = (st.mem it).slabs_clsid in
        let h = st.heads c in
        let t = st.tails c in
        let a = there in
        let n = (st.sizes c + u32_mod - 1) % u32_mod in
        let size : put c n st.sizes c ≡ items_in is_crawler (xs ++ zs) % u32_mod =
          put_self c n st.sizes
          ∙ omega (
            arith,
            in_queue.size,
            items_in-cut is_crawler xs it zs
                ∙ ap (λ b. (if b then 0 else 1) + items_in is_crawler (xs ++ zs)) real,
          ) in
        (
          unlinked it st (put c n st.sizes),
          rw (
            lt→ltb c largest_id small,
            head_first st.mem it h t xs zs a,
            tail_last st.mem it h t xs zs a,
            not_next st.mem it h t xs zs a,
            not_prev st.mem it h t xs zs a,
          ),
          (
            unlinked-IsLru (put c n st.sizes) size (put_other c n st.sizes),
            (unlinked-Local it st (put c n st.sizes) xs zs a (put_other c n st.sizes)).contents,
            (unlinked-Local it st (put c n st.sizes) xs zs a (put_other c n st.sizes)).outside,
          ),
        )
