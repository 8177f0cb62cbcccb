-- ===== src/Memcached/Slabs/Freelist.antt =====
-- src/slabs.c: the free chunks of a class as a list.
use mage_artifact_baseline.Common.{
  ℕ, ◌+◌, ◌-◌, ◌%◌, ◌^◌, ◌<◌, ◌≡◌, ◌≢◌, refl, sym, ap, ◌∙◌, subst, true, false, List, [], ◌∷◌,
  arith, ◌==◌, ==_iff, length, Returns, u32_mod, u64_mod,
}
use mage_artifact_baseline.Memcached.Heap.{Flags, StrItem, Mem, write, prev_if}
use mage_artifact_baseline.Memcached.Heap.Segments.{
  Apart, Distinct, Seg, Seg-cons, Seg-frame, Outside, SameContents, Seg-prev_if, write_self,
  write_other, SameLinks-write,
}
use mage_artifact_baseline.Memcached.Heap.Writes.{Outside-prev_if, SameContents-refl, then_prev_if}
use mage_artifact_baseline.Memcached.Lru.{put}
use mage_artifact_baseline.Memcached.Lru.Queue.{put_self, put_other}
use mage_artifact_baseline.Memcached.Slabs.{SlabClass, Slabs, is_class, do_slabs_free, take_slot}

-- The class after its first chunk has gone.
abbrev taken : ℕ → ℕ → SlabClass → SlabClass
taken size next p = record p {
  slots = next;
  sl_curr = p.sl_curr - 1;
  requested = (p.requested + size) % u64_mod;
}

module _ {K : Type 0} where
  -- The chunks are marked as free and belong to no class.
  abbrev pub AllFree : Mem K → List ℕ → Type 0
  AllFree mem [] = Unit
  AllFree mem (x ∷ xs) =
      ((mem x).it_flags.slabbed ≡ true) × ((mem x).slabs_clsid ≡ 0) × AllFree mem xs

  -- The free chunks of a class are the list `xs`.
  pub record IsFree (mem : Mem K) (p : SlabClass) (xs : List ℕ) : Type 0 where
    pub links : Seg mem 0 p.slots xs 0
    pub distinct : Distinct xs
    pub count : p.sl_curr ≡ length xs
    pub free : AllFree mem xs

  AllFree-SameContents :
      (mem mem' : Mem K) (xs : List ℕ) → SameContents mem mem' → AllFree mem xs → AllFree mem' xs
  AllFree-SameContents mem mem' [] same a = tt
  AllFree-SameContents mem mem' (x ∷ xs) same (slabbed, none', a) = (
    ap (λ n. n.it_flags.slabbed) (same x) ∙ slabbed,
    ap (λ n. n.slabs_clsid) (same x) ∙ none',
    AllFree-SameContents mem mem' xs same a,
  )

  AllFree-write :
      (p : ℕ) (it : StrItem K) (mem : Mem K) (xs : List ℕ)
      → Apart p xs
      → AllFree mem xs
      → AllFree (write p it mem) xs
  AllFree-write p it mem [] apart a = tt
  AllFree-write p it mem (x ∷ xs) (other, apart) (slabbed, none', a) =
      let same = write_other p it mem x (λ e. other (sym e)) in
      (
        ap (λ n. n.it_flags.slabbed) same ∙ slabbed,
        ap (λ n. n.slabs_clsid) same ∙ none',
        AllFree-write p it mem xs apart a,
      )

  -- The chunk that a call frees.
  abbrev freed : StrItem K → ℕ → StrItem K
  freed it next =
      let flags : Flags = record it.it_flags { slabbed = true } in
      record it { it_flags = flags; prev = 0; next = next }

  freed-IsFree :
      (ptr : ℕ) (mem : Mem K) (p : SlabClass) (xs : List ℕ) (requested : ℕ)
      → IsFree mem p xs
      → ptr ≢ 0
      → Apart ptr xs
      → (mem ptr).slabs_clsid ≡ 0
      → length xs + 1 < 2 ^ 32
      → IsFree
          (prev_if p.slots ptr (write ptr (freed (mem ptr) p.slots) mem))
          (record p { slots = ptr; sl_curr = (p.sl_curr + 1) % u32_mod; requested = requested })
          (ptr ∷ xs)
  freed-IsFree ptr mem p xs requested is some_item apart no_class small =
      let chunk = freed (mem ptr) p.slots in
      let m = write ptr chunk mem in
      let s = Seg-frame mem m 0 p.slots xs 0 (SameLinks-write ptr chunk mem xs apart) is.links in
      let self : prev_if p.slots ptr m ptr ≡ chunk =
        Outside-prev_if m 0 p.slots xs ptr m s ptr apart ∙ write_self ptr chunk mem in
      record {
        links =
            Seg-cons (prev_if p.slots ptr m) 0 ptr ptr p.slots xs 0 refl some_item
              (ap (λ n. n.prev) self) (ap (λ n. n.next) self)
              (Seg-prev_if m 0 p.slots xs ptr s is.distinct);
        distinct = (apart, is.distinct);
        count = omega (arith, is.count);
        free = (
          ap (λ n. n.it_flags.slabbed) self,
          ap (λ n. n.slabs_clsid) self ∙ no_class,
          AllFree-SameContents m (prev_if p.slots ptr m) xs
              (then_prev_if p.slots ptr m m (SameContents-refl m))
              (AllFree-write ptr chunk mem xs apart is.free),
        );
      }

  -- What a call leaves: the free list of the class, and the rest as it was.
  pub record Freed (id : ℕ) (xs ws : List ℕ) (mem : Mem K) (sl : Slabs) (st : Mem K × Slabs)
      : Type 0 where
    pub list : IsFree st.0 (st.1.slabclass id) xs
    pub outside : Outside ws mem st.0
    pub others : (c : ℕ) → c ≢ id → st.1.slabclass c ≡ sl.slabclass c
    pub size : (st.1.slabclass id).size ≡ (sl.slabclass id).size
    pub pages : (st.1.slabclass id).slab_list ≡ (sl.slabclass id).slab_list
    pub largest : st.1.power_largest ≡ sl.power_largest
    pub malloced : st.1.mem_malloced ≡ sl.mem_malloced

  -- A chunk that belongs to no class and is not free becomes the first of the free list.
  pub do_slabs_free-Freed :
      (ptr size id : ℕ) (mem : Mem K) (sl : Slabs) (xs : List ℕ)
      → IsFree mem (sl.slabclass id) xs
      → is_class id sl ≡ true
      → ptr ≢ 0
      → Apart ptr xs
      → (mem ptr).slabs_clsid ≡ 0
      → length xs + 1 < 2 ^ 32
      → Returns (do_slabs_free ptr size id (mem, sl)) (Freed id (ptr ∷ xs) (ptr ∷ xs) mem sl)
  unfolding do_slabs_free
  do_slabs_free-Freed ptr size id mem sl xs is class some_item apart no_class small =
      let p = sl.slabclass id in
      let m = write ptr (freed (mem ptr) p.slots) mem in
      let requested = (p.requested + u64_mod - size) % u64_mod in
      let p' : SlabClass = record p {
        slots = ptr;
        sl_curr = (p.sl_curr + 1) % u32_mod;
        requested = requested;
      } in
      let self = put_self id p' sl.slabclass in
      (
        (prev_if p.slots ptr m, record sl { slabclass = put id p' sl.slabclass }),
        rw ((==_iff (mem ptr).slabs_clsid 0).1 no_class, class),
        record {
          list =
              subst (λ q. IsFree (prev_if p.slots ptr m) q (ptr ∷ xs)) (sym self)
                (freed-IsFree ptr mem p xs requested is some_item apart no_class small);
          outside = λ a out.
              Outside-prev_if mem 0 p.slots xs ptr m is.links a out.1
              ∙ write_other ptr _ mem a out.0;
          others = λ c other. put_other id p' sl.slabclass c other;
          size = ap (λ q. q.size) self;
          pages = ap (λ q. q.slab_list) self;
          largest = refl;
          malloced = refl;
        },
      )

  take_slot_lem :
      (size id : ℕ) (mem : Mem K) (sl : Slabs) (x : ℕ) (xs : List ℕ)
      → IsFree mem (sl.slabclass id) (x ∷ xs)
      → take_slot size id (mem, sl) ≡ (
        x,
        (
          prev_if (mem x).next 0 mem,
          record sl { slabclass = put id (taken size (mem x).next (sl.slabclass id)) sl.slabclass },
        ),
      )
  unfolding take_slot
  take_slot_lem size id mem sl x xs is =
      let some_free : ((sl.slabclass id).sl_curr == 0) ≡ false = ground (arith, is.count) in
      rw (some_free, is.links.0)

  -- The first chunk leaves the list.
  pub take_slot-Freed :
      (size id : ℕ) (mem : Mem K) (sl : Slabs) (x : ℕ) (xs : List ℕ)
      → IsFree mem (sl.slabclass id) (x ∷ xs)
      → ((take_slot size id (mem, sl)).0 ≡ x)
        × Freed id xs xs mem sl (take_slot size id (mem, sl)).1
  take_slot-Freed size id mem sl x xs is =
      let next = (mem x).next in
      let p = sl.slabclass id in
      let self = put_self id (taken size next p) sl.slabclass in
      subst (λ r. (r.0 ≡ x) × Freed id xs xs mem sl r.1)
        (sym (take_slot_lem size id mem sl x xs is))
        (
          refl,
          record {
            list =
                subst (λ q. IsFree (prev_if next 0 mem) q xs) (sym self)
                  record {
                    links = Seg-prev_if mem x next xs 0 is.links.3 is.distinct.1;
                    distinct = is.distinct.1;
                    count = omega (arith, is.count);
                    free =
                        AllFree-SameContents mem (prev_if next 0 mem) xs
                          (then_prev_if next 0 mem mem (SameContents-refl mem)) is.free.2;
                  };
            outside = Outside-prev_if mem x next xs 0 mem is.links.3;
            others = λ c other. put_other id (taken size next p) sl.slabclass c other;
            size = ap (λ q. q.size) self;
            pages = ap (λ q. q.slab_list) self;
            largest = refl;
            malloced = refl;
          },
        )
