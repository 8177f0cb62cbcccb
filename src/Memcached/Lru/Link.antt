-- ===== src/Memcached/Lru/Link.antt =====
-- src/items.c: `item_link_q`.
use mage_artifact_baseline.Common.{
  ℕ, ◌+◌, ◌%◌, ◌<◌, ◌≡◌, ◌≢◌, sym, ap, ◌∙◌, Bool, true, false, List, [], ◌∷◌, inl, inr, arith, ◌==◌,
  if◌then◌else◌, Returns, Bool-cases, lt→ltb, u32_mod,
}
use mage_artifact_baseline.Memcached.Heap.{Mem, set_next, set_prev, prev_if}
use mage_artifact_baseline.Memcached.Heap.Segments.{
  Apart, last_or, last_or-ne_zero, Seg, Seg-cons, Outside, SameContents, Seg-prev_if, set_next_self,
  set_prev_self, set_next_other, set_prev_other,
}
use mage_artifact_baseline.Memcached.Heap.Writes.{
  Off-nil, Off-cons, Seg-Outside, Outside-prev_if, SameContents-refl, then_next, then_prev,
  then_prev_if,
}
use mage_artifact_baseline.Memcached.Lru.{Lru, largest_id, put, ends_agree, item_link_q}
use mage_artifact_baseline.Memcached.Lru.Queue.{
  IsLru, IsQueue, InClass-SameContents, Local, Local-IsLru, put_self, put_other,
}

module _ {K : Type 0} where
  pub head-Apart :
      (mem : Mem K) (h a : ℕ) (xs : List ℕ) → Seg mem 0 h xs 0 → Apart a xs → a ≢ 0 → a ≢ h
  head-Apart mem h a [] s apart some_item = λ e. some_item (e ∙ s)
  head-Apart mem h a (x ∷ xs) s apart some_item = λ e. apart.0 (e ∙ s.0)

  pub ends_agree_lem :
      (mem : Mem K) (h t : ℕ) (xs : List ℕ)
      → Seg mem 0 h xs 0
      → t ≡ last_or 0 xs
      → ends_agree h t ≡ true
  unfolding ends_agree
  ends_agree_lem mem h t [] s e = rw (s, e)
  ends_agree_lem mem h t (x ∷ xs) s e =
      let last = last_or-ne_zero mem 0 h x xs 0 s in
      let first : h ≢ 0 = λ z. s.1 (sym s.0 ∙ z) in ground (arith, first, last, e)

module _ {K : Type 0} (is_crawler : ℕ → Bool) where
  -- The state after the call.
  abbrev linked : ℕ → Lru K → Lru K
  linked it st =
      let c = (st.mem it).slabs_clsid in
      record {
        mem = prev_if (st.heads c) it (set_next it (st.heads c) (set_prev it 0 st.mem));
        heads = put c it st.heads;
        tails = if st.tails c == 0 then put c it st.tails else st.tails;
        sizes = put c ((st.sizes c + 1) % u32_mod) st.sizes;
      }

  linked-Local :
      (it : ℕ) (st : Lru K) (xs : List ℕ)
      → Seg st.mem 0 (st.heads (st.mem it).slabs_clsid) xs 0
      → Local st (linked it st) (st.mem it).slabs_clsid (it ∷ xs)
  linked-Local it st xs s =
      let c = (st.mem it).slabs_clsid in
      record {
        heads = λ d other. put_other c it st.heads d other;
        tails = λ d other. elim (Bool-cases (st.tails c == 0)) [
          | inl e ↦ rw e (put_other c it st.tails d other)
          | inr e ↦ rw e
        ];
        sizes = λ d other. put_other c _ st.sizes d other;
        outside = λ a out.
            Outside-prev_if st.mem 0 (st.heads c) xs it
              (set_next it (st.heads c) (set_prev it 0 st.mem)) s a out.1
            ∙ set_next_other it (st.heads c) (set_prev it 0 st.mem) a out.0
            ∙ set_prev_other it 0 st.mem a out.0;
        contents =
            then_prev_if (st.heads c) it st.mem (set_next it (st.heads c) (set_prev it 0 st.mem)) (
              then_next it (st.heads c) st.mem (set_prev it 0 st.mem)
                (then_prev it 0 st.mem st.mem (SameContents-refl st.mem)));
      }

  linked-tail :
      (mem : Mem K) (tails : ℕ → ℕ) (c h it : ℕ) (xs : List ℕ)
      → Seg mem 0 h xs 0
      → tails c ≡ last_or 0 xs
      → (if tails c == 0 then put c it tails else tails) c ≡ last_or it xs
  linked-tail mem tails c h it [] s e = rw e (put_self c it tails)
  linked-tail mem tails c h it (x ∷ xs) s e =
      let there : (tails c == 0) ≡ false = ground (arith, e, last_or-ne_zero mem 0 h x xs 0 s) in
      rw there e

  linked-IsQueue :
      (it : ℕ) (st : Lru K) (xs : List ℕ)
      → it ≢ 0
      → is_crawler it ≡ false
      → Apart it xs
      → IsQueue is_crawler st (st.mem it).slabs_clsid xs
      → IsQueue is_crawler (linked it st) (st.mem it).slabs_clsid (it ∷ xs)
  linked-IsQueue it st xs some_item real apart q =
      let c = (st.mem it).slabs_clsid in
      let h = st.heads c in
      let m = set_next it h (set_prev it 0 st.mem) in
      let inner : Seg m 0 h xs 0 =
        Seg-Outside (it ∷ []) st.mem m 0 h xs 0
          (λ a out.
            set_next_other it h (set_prev it 0 st.mem) a out.0 ∙ set_prev_other it 0 st.mem a out.0)
          (Off-cons xs it [] apart (Off-nil xs)) q.links in
      let self : prev_if h it m it ≡ m it = Outside-prev_if m 0 h xs it m inner it apart in
      let here : m it ≡ record (set_prev it 0 st.mem it) { next = h } =
        set_next_self it h (set_prev it 0 st.mem) in
      let l = linked-Local it st xs q.links in
      record {
        links =
            Seg-cons (prev_if h it m) 0 (put c it st.heads c) it h xs 0 (put_self c it st.heads)
              some_item
              (ap (λ n. n.prev) (self ∙ here) ∙ ap (λ n. n.prev) (set_prev_self it 0 st.mem))
              (ap (λ n. n.next) (self ∙ here)) (Seg-prev_if m 0 h xs it inner q.distinct);
        tail = linked-tail st.mem st.tails c h it xs q.links q.tail;
        distinct = (apart, q.distinct);
        class = (
          ap (λ n. n.slabs_clsid) (l.contents it),
          InClass-SameContents st.mem (prev_if h it m) c xs l.contents q.class,
        );
        size = put_self c ((st.sizes c + 1) % u32_mod) st.sizes ∙ rw real (omega (arith, q.size));
      }

  -- An item that is in no queue, is no crawler and is not free becomes the head of the queue of its
  -- class; the other queues stay, and so does all but the links of the items.
  pub item_link_q-IsLru :
      (it : ℕ) (st : Lru K) (queue : ℕ → List ℕ)
      → IsLru is_crawler st queue
      → it ≢ 0
      → is_crawler it ≡ false
      → (st.mem it).it_flags.slabbed ≡ false
      → (st.mem it).slabs_clsid < largest_id
      → ((c : ℕ) → Apart it (queue c))
      → Returns (item_link_q it st) λ st'.
        IsLru is_crawler st'
          (put (st.mem it).slabs_clsid (it ∷ queue (st.mem it).slabs_clsid) queue)
        × SameContents st.mem st'.mem
        × Outside (it ∷ queue (st.mem it).slabs_clsid) st.mem st'.mem
  unfolding item_link_q
  item_link_q-IsLru it st queue is some_item real used small apart =
      let c = (st.mem it).slabs_clsid in
      let q = is.each c in
      let l = linked-Local it st (queue c) q.links in
      let new : (it == st.heads c) ≡ false =
        ground (arith, head-Apart st.mem (st.heads c) it (queue c) q.links (apart c) some_item) in
      let off =
        λ (d : ℕ) (other : d ≢ c). Off-cons (queue d) it (queue c) (apart d) (is.apart d c other) in
      (
        linked it st,
        rw (
          lt→ltb c largest_id small,
          used,
          new,
          ends_agree_lem st.mem _ _ (queue c) q.links q.tail,
        ),
        (
          Local-IsLru is_crawler st (linked it st) queue c (it ∷ queue c) (it ∷ queue c) is l off
              off (linked-IsQueue it st (queue c) some_item real (apart c) q),
          l.contents,
          l.outside,
        ),
      )
