-- ===== src/Memcached/Lru/Crawl.antt =====
-- src/items.c: a step of the crawler past an item.
use mage_artifact_baseline.Common.{
  ℕ, ◌%◌, ◌<◌, ◌≡◌, ◌≢◌, refl, sym, ap, ◌∙◌, subst, Bool, true, false, some, List, [], ◌∷◌, ◌++◌,
  inl, inr, arith, ◌==◌, ==_iff, if◌then◌else◌, Returns, Bool-cases, lt→ltb, u32_mod,
}
use mage_artifact_baseline.Memcached.Heap.Segments.{
  Apart, Off, last_or, last_or-ne_zero, last_or-Apart, Seg, SameContents,
}
use mage_artifact_baseline.Memcached.Heap.Writes.{last_or-append}
use mage_artifact_baseline.Memcached.Lru.{
  Lru, largest_id, put, crawler_crawl_q, crawl_past, swap_links, only_linked,
}
use mage_artifact_baseline.Memcached.Lru.Queue.{
  IsLru, IsQueue, InClass-SameContents, Local, Local-IsLru, put_self, put_other,
}
use mage_artifact_baseline.Memcached.Lru.Swap.{
  swapped, before_p, swapped-it_next, swapped-it_prev, swapped-Seg, swapped-Outside,
  swapped-SameContents, parts, InClass-swap, Parts, Off-swap, items_in-swap, Distinct-swap,
}

module _ {K : Type 0} (is_crawler : ℕ → Bool) where
  module _ (it p : ℕ) (st : Lru K) (queue : ℕ → List ℕ) (xs zs : List ℕ)
      (is : IsLru is_crawler st queue)
      (split : queue (st.mem it).slabs_clsid ≡ xs ++ p ∷ it ∷ zs) where
    abbrev c : ℕ
    c = (st.mem it).slabs_clsid

    abbrev moved : Lru K
    moved = record st {
      mem = swapped it (st.mem it).next p (last_or 0 xs) st.mem;
      heads = if st.heads c == p then put c it st.heads else st.heads;
      tails = if st.tails c == it then put c p st.tails else st.tails;
    }

    in_queue : IsQueue is_crawler st c (xs ++ p ∷ it ∷ zs)
    in_queue = subst (IsQueue is_crawler st c) split (is.each c)

    place : Parts st.mem it p (st.heads c) xs zs in_queue.links in_queue.distinct
    place = parts st.mem it p (st.heads c) xs zs in_queue.links in_queue.distinct

    moved-Local : Local st moved c (xs ++ p ∷ it ∷ zs)
    moved-Local = record {
      heads = λ d other. elim (Bool-cases (st.heads c == p)) [
        | inl e ↦ rw e (put_other c it st.heads d other)
        | inr e ↦ rw e
      ];
      tails = λ d other. elim (Bool-cases (st.tails c == it)) [
        | inl e ↦ rw e (put_other c p st.tails d other)
        | inr e ↦ rw e
      ];
      sizes = λ d other. refl;
      outside = swapped-Outside st.mem it p (st.heads c) xs zs in_queue.links in_queue.distinct;
      contents =
          swapped-SameContents st.mem it p (st.heads c) xs zs in_queue.links in_queue.distinct;
    }

    -- The predecessor is the head exactly where nothing is before it.
    head-moved :
        (xs' : List ℕ)
        → Seg st.mem 0 (st.heads c) xs' p
        → Apart p xs'
        → (if st.heads c == p then put c it st.heads else st.heads) c
          ≡ (if last_or 0 xs' == 0 then it else st.heads c)
    head-moved [] s apart = rw ((==_iff (st.heads c) p).1 s) (put_self c it st.heads)
    head-moved (x ∷ xs') s apart =
        let other : (st.heads c == p) ≡ false = ground (arith, s.0, apart.0) in
        let some_item : (last_or x xs' == 0) ≡ false =
          ground (arith, last_or-ne_zero st.mem 0 (st.heads c) x xs' p s) in
        rw (other, some_item)

    tail-moved :
        (zs' : List ℕ)
        → st.tails c ≡ last_or it zs'
        → Apart it zs'
        → (if st.tails c == it then put c p st.tails else st.tails) c ≡ last_or p zs'
    tail-moved [] e apart = rw ((==_iff (st.tails c) it).1 e) (put_self c p st.tails)
    tail-moved (z ∷ zs') e apart =
        let other : (st.tails c == it) ≡ false = ground (arith, e, last_or-Apart it z zs' apart) in
        rw other e

    moved-IsQueue : IsQueue is_crawler moved c (xs ++ it ∷ p ∷ zs)
    moved-IsQueue =
        let q = in_queue in
        record {
          links =
              subst (λ h. Seg moved.mem 0 h (xs ++ it ∷ p ∷ zs) 0)
                (sym (head-moved xs place.left place.p_left))
                (swapped-Seg st.mem it p (st.heads c) xs zs q.links q.distinct);
          tail =
              tail-moved zs (q.tail ∙ last_or-append 0 xs p (it ∷ zs)) place.it_right
              ∙ sym (last_or-append 0 xs it (p ∷ zs));
          distinct = Distinct-swap xs p it zs q.distinct;
          class =
              InClass-SameContents st.mem moved.mem c (xs ++ it ∷ p ∷ zs) moved-Local.contents
                (InClass-swap st.mem c xs p it zs q.class);
          size = q.size ∙ ap (λ n. n % u32_mod) (items_in-swap is_crawler xs p it zs);
        }

    moved-IsLru : IsLru is_crawler moved (put c (xs ++ it ∷ p ∷ zs) queue)
    moved-IsLru =
        let off =
          λ (d : ℕ) (other : d ≢ c). subst (λ ys. Off (queue d) ys) split (is.apart d c other) in
        Local-IsLru is_crawler st moved queue c (xs ++ p ∷ it ∷ zs) (xs ++ it ∷ p ∷ zs) is
          moved-Local off (λ d other. Off-swap (queue d) xs p it zs (off d other)) moved-IsQueue

    swap_links-swapped : swap_links it (st.mem it).next p st.mem ≡ moved.mem
    unfolding swap_links
    swap_links-swapped =
        ap (λ b. swapped it (st.mem it).next p b st.mem)
          (before_p st.mem it p (st.heads c) xs zs in_queue.links in_queue.distinct)

    next_is :
        (next : ℕ) (zs' : List ℕ) → Seg st.mem it next zs' 0 → Apart it zs' → (next == it) ≡ false
    next_is next [] s apart = ground (arith, s, place.it_item)
    next_is next (z ∷ zs') s apart = ground (arith, s.0, apart.0)

    last_is : (xs' : List ℕ) → Apart it xs' → (last_or 0 xs' == it) ≡ false
    last_is [] apart = ground (arith, place.it_item)
    last_is (x ∷ xs') apart = ground (arith, last_or-Apart it x xs' apart)

    crawl_past-moved : crawl_past it st ≡ some (p, moved)
    unfolding crawl_past
    crawl_past-moved =
        let not_p : (p == it) ≡ false = ground (arith, place.differ) in
        let next = next_is (st.mem it).next zs place.right place.it_right in
        let back : (if (st.mem it).next == 0 then true else (st.mem p).next == it) ≡ true =
          rw ((==_iff (st.mem p).next it).1 place.p_next) (ground arith) in
        let on : (moved.mem it).next ≡ p =
          swapped-it_next st.mem it p (st.heads c) xs zs in_queue.links in_queue.distinct in
        let behind : ((moved.mem it).prev == it) ≡ false =
          rw (swapped-it_prev st.mem it p (st.heads c) xs zs in_queue.links in_queue.distinct)
            (last_is xs place.it_left) in
        rw (place.it_prev, not_p, next, back, swap_links-swapped, on, not_p, behind)

    -- A crawler that is not at the head passes the item before it, which is the answer; nothing
    -- else changes.
    pub crawler_crawl_q-passes :
        only_linked (st.mem it).it_flags ≡ true
        → (st.mem it).nbytes ≡ 0
        → c < largest_id
        → Returns (crawler_crawl_q it st) λ (found, st').
          (found ≡ p)
          × IsLru is_crawler st' (put c (xs ++ it ∷ p ∷ zs) queue)
          × SameContents st.mem st'.mem
    unfolding crawler_crawl_q
    crawler_crawl_q-passes enabled empty small =
        let there : ((st.mem it).prev == 0) ≡ false = ground (arith, place.it_prev, place.p_item) in
        (
          (p, moved),
          rw (enabled, (==_iff (st.mem it).nbytes 0).1 empty, lt→ltb c largest_id small, there)
              crawl_past-moved,
          (refl, moved-IsLru, moved-Local.contents),
        )
