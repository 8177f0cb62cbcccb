-- ===== src/Memcached/Lru/Start.antt =====
-- src/items.c: the crawler enters a queue at its tail.
use mage_artifact_baseline.Common.{
  ℕ, ◌%◌, ◌<◌, ◌≡◌, ◌≢◌, refl, sym, ap, ◌∙◌, subst, Bool, true, false, List, [], ◌∷◌, ◌++◌, arith,
  ◌==◌, ==_iff, Returns, lt→ltb, u32_mod,
}
use mage_artifact_baseline.Memcached.Heap.{StrItem, Mem, set_next, set_prev}
use mage_artifact_baseline.Memcached.Heap.Segments.{
  Apart, Off, last_or, last_or-ne_zero, last_or-Apart, Seg, Seg-cons, Outside, SameContents,
  Seg-append, set_next_self, set_prev_self, set_next_other, set_prev_other,
}
use mage_artifact_baseline.Memcached.Heap.Writes.{
  Off-nil, Off-cons, Off-sym, Distinct-append, Seg-Outside, last_or-append, SameContents-refl,
  then_next, then_prev,
}
use mage_artifact_baseline.Memcached.Lru.{
  Lru, largest_id, put, ends_agree, crawler_link_q, only_linked,
}
use mage_artifact_baseline.Memcached.Lru.Queue.{
  IsLru, IsQueue, InClass, InClass-SameContents, Local, Local-IsLru, items_in, put_self, put_other,
}
use mage_artifact_baseline.Memcached.Heap.Segments.{Seg-set_next}
use mage_artifact_baseline.Memcached.Heap.Writes.{Off-append}
use mage_artifact_baseline.Memcached.Lru.Link.{ends_agree_lem}

module _ {K : Type 0} where
  last_next :
      (mem : Mem K) (before p x : ℕ) (xs : List ℕ) (stop : ℕ)
      → Seg mem before p (x ∷ xs) stop
      → (mem (last_or x xs)).next ≡ stop
  last_next mem before p x [] stop s = s.3
  last_next mem before p x (y ∷ ys) stop s = last_next mem x (mem x).next y ys stop s.3

  InClass-append :
      (mem : Mem K) (c : ℕ) (xs ys : List ℕ)
      → InClass mem c xs
      → InClass mem c ys
      → InClass mem c (xs ++ ys)
  InClass-append mem c [] ys p q = q
  InClass-append mem c (x ∷ xs) ys (here, p) q = (here, InClass-append mem c xs ys p q)

items_in-append_crawler :
    (is_crawler : ℕ → Bool) (it : ℕ) (xs : List ℕ)
    → is_crawler it ≡ true
    → items_in is_crawler (xs ++ it ∷ []) ≡ items_in is_crawler xs
items_in-append_crawler is_crawler it [] crawler = rw crawler
items_in-append_crawler is_crawler it (x ∷ xs) crawler =
    ground (arith, items_in-append_crawler is_crawler it xs crawler)

module _ {K : Type 0} (is_crawler : ℕ → Bool) where
  module _ (it : ℕ) (st : Lru K) (queue : ℕ → List ℕ) (x : ℕ) (xs : List ℕ)
      (is : IsLru is_crawler st queue) (split : queue (st.mem it).slabs_clsid ≡ x ∷ xs)
      (some_item : it ≢ 0) (apart : (c : ℕ) → Apart it (queue c)) where
    abbrev c : ℕ
    c = (st.mem it).slabs_clsid

    abbrev last : ℕ
    last = last_or x xs

    abbrev m₂ : Mem K
    m₂ = set_next it 0 (set_prev it last st.mem)

    abbrev m₃ : Mem K
    m₃ = set_next last it m₂

    abbrev tailed : Lru K
    tailed = record st { mem = m₃; tails = put c it st.tails }

    in_queue : IsQueue is_crawler st c (x ∷ xs)
    in_queue = subst (IsQueue is_crawler st c) split (is.each c)

    away : Apart it (x ∷ xs)
    away = subst (Apart it) split (apart c)

    writes : Outside (it ∷ []) st.mem m₂
    writes a out =
        set_next_other it 0 (set_prev it last st.mem) a out.0
        ∙ set_prev_other it last st.mem a out.0

    entered : m₃ it ≡ record (st.mem it) { next = 0; prev = last }
    entered =
        let with_end : StrItem K → StrItem K = λ n. record n { next = 0 } in
        set_next_other last it m₂ it (last_or-Apart it x xs away)
        ∙ set_next_self it 0 (set_prev it last st.mem)
        ∙ ap with_end (set_prev_self it last st.mem)

    tailed-Local : Local st tailed c (it ∷ x ∷ xs)
    tailed-Local = record {
      heads = λ d other. refl;
      tails = λ d other. put_other c it st.tails d other;
      sizes = λ d other. refl;
      outside =
          λ a out. set_next_other last it m₂ a (last_or-Apart a x xs out.1) ∙ writes a (out.0, tt);
      contents = then_next last it st.mem m₂ (
          then_next it 0 st.mem (set_prev it last st.mem)
            (then_prev it last st.mem st.mem (SameContents-refl st.mem)));
    }

    tailed-IsQueue : is_crawler it ≡ true → IsQueue is_crawler tailed c ((x ∷ xs) ++ it ∷ [])
    tailed-IsQueue crawler =
        let q = in_queue in
        record {
          links =
              Seg-append m₃ 0 (st.heads c) (x ∷ xs) it (it ∷ []) 0
                (Seg-set_next m₂ 0 (st.heads c) x xs 0 it
                  (Seg-Outside (it ∷ []) st.mem m₂ 0 (st.heads c) (x ∷ xs) 0 writes
                    (Off-cons (x ∷ xs) it [] away (Off-nil (x ∷ xs))) q.links)
                  q.distinct)
                (Seg-cons m₃ last it it 0 [] 0 refl some_item (ap (λ n. n.prev) entered)
                  (ap (λ n. n.next) entered) refl);
          tail = put_self c it st.tails ∙ sym (last_or-append 0 (x ∷ xs) it []);
          distinct =
              Distinct-append (x ∷ xs) (it ∷ []) q.distinct (tt, tt)
                (Off-cons (x ∷ xs) it [] away (Off-nil (x ∷ xs)));
          class =
              InClass-append m₃ c (x ∷ xs) (it ∷ [])
                (InClass-SameContents st.mem m₃ c (x ∷ xs) tailed-Local.contents q.class)
                (ap (λ n. n.slabs_clsid) entered, tt);
          size =
              q.size
              ∙ ap (λ n. n % u32_mod)
                  (sym (items_in-append_crawler is_crawler it (x ∷ xs) crawler));
        }

    -- A crawler that is enabled and in no queue becomes the tail of the queue of its class, which
    -- has a first element; nothing else changes.
    pub crawler_link_q-IsLru :
        is_crawler it ≡ true
        → only_linked (st.mem it).it_flags ≡ true
        → (st.mem it).nbytes ≡ 0
        → c < largest_id
        → Returns (crawler_link_q it st) λ st'.
          IsLru is_crawler st' (put c ((x ∷ xs) ++ it ∷ []) queue) × SameContents st.mem st'.mem
    unfolding crawler_link_q
    crawler_link_q-IsLru crawler enabled empty small =
        let q = in_queue in
        let there : (last == 0) ≡ false =
          ground (arith, last_or-ne_zero st.mem 0 (st.heads c) x xs 0 q.links) in
        let other : (it == last) ≡ false = ground (arith, last_or-Apart it x xs away) in
        let ends : ends_agree (st.heads c) last ≡ true =
          ends_agree_lem st.mem (st.heads c) last (x ∷ xs) q.links refl in
        let end : ((m₂ last).next == 0) ≡ true = (==_iff (m₂ last).next 0).1 (
          ap (λ n. n.next) (writes last ((λ e. last_or-Apart it x xs away (sym e)), tt))
          ∙ last_next st.mem 0 (st.heads c) x xs 0 q.links) in
        let first : (st.heads c == 0) ≡ false = ground (arith, q.links.0, q.links.1) in
        let off = λ (d : ℕ) (different : d ≢ c).
          Off-cons (queue d) it (x ∷ xs) (apart d)
            (subst (λ ys. Off (queue d) ys) split (is.apart d c different)) in
        (
          tailed,
          rw (
            q.tail,
            lt→ltb c largest_id small,
            enabled,
            (==_iff (st.mem it).nbytes 0).1 empty,
            there,
            other,
            ends,
            end,
            first,
          ),
          (
            Local-IsLru is_crawler st tailed queue c (it ∷ x ∷ xs) ((x ∷ xs) ++ it ∷ []) is
                tailed-Local off
                (λ d different. Off-sym ((x ∷ xs) ++ it ∷ []) (queue d) (
                  Off-append (x ∷ xs) (it ∷ []) (queue d)
                    (Off-sym (queue d) (x ∷ xs)
                      (subst (λ ys. Off (queue d) ys) split (is.apart d c different)))
                    (apart d, tt)))
                (tailed-IsQueue crawler),
            tailed-Local.contents,
          ),
        )
