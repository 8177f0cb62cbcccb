-- ===== src/Memcached/Lru/Cut.antt =====
-- src/items.c: a queue without one of its items.
use mathlib.Core.List.{append-nil}
use mage_artifact_baseline.Common.{
  ℕ, ◌+◌, ◌≡◌, ◌≢◌, sym, ◌∙◌, subst, Bool, true, false, List, [], ◌∷◌, ◌++◌, inl, inr, arith, ◌==◌,
  ==_iff, if◌then◌else◌, Bool-cases,
}
use mage_artifact_baseline.Memcached.Heap.{Mem, next_if, prev_if}
use mage_artifact_baseline.Memcached.Heap.Segments.{
  Apart, Off, Distinct, last_or, last_or-ne_zero, last_or-Apart, Seg, Seg-prev_if, Seg-next_if,
  Seg-split, Seg-append,
}
use mage_artifact_baseline.Memcached.Heap.Writes.{
  Apart-split, Off-sym, Distinct-split, Seg-Outside, Outside-prev_if, Outside-next_if,
  last_or-append, SameContents-refl, then_next_if, then_prev_if,
}
use mage_artifact_baseline.Memcached.Lru.{Lru, put}
use mage_artifact_baseline.Memcached.Lru.Queue.{InClass, Local, items_in, put_self, put_other}

module _ {K : Type 0} where
  -- The state after the call, with the sizes that the caller leaves.
  abbrev pub unlinked : ℕ → Lru K → (ℕ → ℕ) → Lru K
  unlinked it st sizes =
      let c = (st.mem it).slabs_clsid in
      let next = (st.mem it).next in
      let prev = (st.mem it).prev in
      record {
        mem = next_if prev next (prev_if next prev st.mem);
        heads = if st.heads c == it then put c next st.heads else st.heads;
        tails = if st.tails c == it then put c prev st.tails else st.tails;
        sizes = sizes;
      }

  -- What the links of an item say of its place in the queue.
  pub record At (mem : Mem K) (it h t : ℕ) (xs zs : List ℕ) : Type 0 where
    pub some_item : it ≢ 0
    pub prev : (mem it).prev ≡ last_or 0 xs
    pub before : Seg mem 0 h xs it
    pub after : Seg mem it (mem it).next zs 0
    pub tail : t ≡ last_or it zs
    pub distinct_before : Distinct xs
    pub distinct_after : Distinct zs
    pub off : Off xs zs
    pub apart_before : Apart it xs
    pub apart_after : Apart it zs

  pub place :
      (mem : Mem K) (it h t : ℕ) (xs zs : List ℕ)
      → Seg mem 0 h (xs ++ it ∷ zs) 0
      → t ≡ last_or 0 (xs ++ it ∷ zs)
      → Distinct (xs ++ it ∷ zs)
      → At mem it h t xs zs
  place mem it h t xs zs s e d =
      let (m, left, (at, some_item, back, right)) = Seg-split mem 0 h xs (it ∷ zs) 0 s in
      let (dl, (apart, dr), off) = Distinct-split xs (it ∷ zs) d in
      let (away, off') = Off-sym xs (it ∷ zs) off in
      record {
        some_item = some_item;
        prev = back;
        before = subst (λ q. Seg mem 0 h xs q) at left;
        after = right;
        tail = e ∙ last_or-append 0 xs it zs;
        distinct_before = dl;
        distinct_after = dr;
        off = Off-sym zs xs off';
        apart_before = away;
        apart_after = apart;
      }

  -- The links after the call, the head and the tail.
  pub Seg-cut :
      (mem : Mem K) (it h t : ℕ) (xs zs : List ℕ)
      → At mem it h t xs zs
      → Seg
          (next_if (mem it).prev (mem it).next (prev_if (mem it).next (mem it).prev mem))
          0
          (if (mem it).prev == 0 then (mem it).next else h)
          (xs ++ zs)
          0
  Seg-cut mem it h t xs zs a =
      let next = (mem it).next in
      let last = last_or 0 xs in
      let m₁ = prev_if next last mem in
      let m₂ = next_if last next m₁ in
      let right : Seg m₂ last next zs 0 =
        Seg-Outside xs m₁ m₂ last next zs 0 (Outside-next_if xs next m₁) (Off-sym xs zs a.off)
          (Seg-prev_if mem it next zs last a.after a.distinct_after) in
      let left : Seg m₂ 0 (if last == 0 then next else h) xs next =
        Seg-next_if m₁ h xs it next
          (Seg-Outside zs mem m₁ 0 h xs it (Outside-prev_if mem it next zs last mem a.after) a.off
            a.before)
          a.distinct_before in
      subst
        (λ p. Seg (next_if p next (prev_if next p mem)) 0 (if p == 0 then next else h) (xs ++ zs) 0)
        (sym a.prev) (Seg-append m₂ 0 (if last == 0 then next else h) xs next zs 0 left right)

  pub head-cut :
      (mem : Mem K) (heads : ℕ → ℕ) (c it t : ℕ) (xs zs : List ℕ)
      → At mem it (heads c) t xs zs
      → (if heads c == it then put c (mem it).next heads else heads) c
        ≡ (if (mem it).prev == 0 then (mem it).next else heads c)
  head-cut mem heads c it t [] zs a =
      rw (a.prev, (==_iff (heads c) it).1 a.before) (put_self c (mem it).next heads)
  head-cut mem heads c it t (x ∷ xs) zs a =
      let there : ((mem it).prev == 0) ≡ false =
        ground (arith, a.prev, last_or-ne_zero mem 0 (heads c) x xs it a.before) in
      let other : (heads c == it) ≡ false = ground (arith, a.before.0, a.apart_before.0) in
      rw (there, other)

  pub tail-cut :
      (mem : Mem K) (tails : ℕ → ℕ) (c it h : ℕ) (xs zs : List ℕ)
      → At mem it h (tails c) xs zs
      → (if tails c == it then put c (mem it).prev tails else tails) c ≡ last_or 0 (xs ++ zs)
  tail-cut mem tails c it h xs [] a =
      rw ((==_iff (tails c) it).1 a.tail, append-nil) (put_self c (mem it).prev tails ∙ a.prev)
  tail-cut mem tails c it h xs (z ∷ zs) a =
      let other : (tails c == it) ≡ false =
        ground (arith, a.tail, last_or-Apart it z zs a.apart_after) in
      rw other (a.tail ∙ sym (last_or-append 0 xs z zs))

  -- The assertions hold.
  pub head_first :
      (mem : Mem K) (it h t : ℕ) (xs zs : List ℕ)
      → At mem it h t xs zs
      → (if h == it then (mem it).prev == 0 else true) ≡ true
  head_first mem it h t [] zs a = rw (a.prev, (==_iff h it).1 a.before)
  head_first mem it h t (x ∷ xs) zs a =
      let other : (h == it) ≡ false = ground (arith, a.before.0, a.apart_before.0) in rw other

  pub tail_last :
      (mem : Mem K) (it h t : ℕ) (xs zs : List ℕ)
      → At mem it h t xs zs
      → (if t == it then (mem it).next == 0 else true) ≡ true
  tail_last mem it h t xs [] a = rw ((==_iff t it).1 a.tail, a.after)
  tail_last mem it h t xs (z ∷ zs) a =
      let other : (t == it) ≡ false = ground (arith, a.tail, last_or-Apart it z zs a.apart_after) in
      rw other

  pub not_next :
      (mem : Mem K) (it h t : ℕ) (xs zs : List ℕ)
      → At mem it h t xs zs
      → ((mem it).next == it) ≡ false
  not_next mem it h t xs [] a = ground (arith, a.after, a.some_item)
  not_next mem it h t xs (z ∷ zs) a = ground (arith, a.after.0, a.apart_after.0)

  pub not_prev :
      (mem : Mem K) (it h t : ℕ) (xs zs : List ℕ)
      → At mem it h t xs zs
      → ((mem it).prev == it) ≡ false
  not_prev mem it h t [] zs a = ground (arith, a.prev, a.some_item)
  not_prev mem it h t (x ∷ xs) zs a = ground (arith, a.prev, last_or-Apart it x xs a.apart_before)

  pub InClass-cut :
      (mem : Mem K) (c it : ℕ) (xs zs : List ℕ)
      → InClass mem c (xs ++ it ∷ zs)
      → ((mem it).slabs_clsid ≡ c) × InClass mem c (xs ++ zs)
  InClass-cut mem c it [] zs (is, rest) = (is, rest)
  InClass-cut mem c it (x ∷ xs) zs (is, rest) =
      let (here, others) = InClass-cut mem c it xs zs rest in (here, (is, others))

  -- No link outside of the queue is written.
  pub unlinked-Local :
      (it : ℕ) (st : Lru K) (sizes : ℕ → ℕ) (xs zs : List ℕ)
      → At st.mem it (st.heads (st.mem it).slabs_clsid) (st.tails (st.mem it).slabs_clsid) xs zs
      → ((d : ℕ) → d ≢ (st.mem it).slabs_clsid → sizes d ≡ st.sizes d)
      → Local st (unlinked it st sizes) (st.mem it).slabs_clsid (xs ++ it ∷ zs)
  unlinked-Local it st sizes xs zs a same_sizes =
      let c = (st.mem it).slabs_clsid in
      let next = (st.mem it).next in
      let prev = (st.mem it).prev in
      let m₁ = prev_if next prev st.mem in
      record {
        heads = λ d other. elim (Bool-cases (st.heads c == it)) [
          | inl e ↦ rw e (put_other c next st.heads d other)
          | inr e ↦ rw e
        ];
        tails = λ d other. elim (Bool-cases (st.tails c == it)) [
          | inl e ↦ rw e (put_other c prev st.tails d other)
          | inr e ↦ rw e
        ];
        sizes = same_sizes;
        outside = λ b out.
            let (before, (here, after)) = Apart-split b xs (it ∷ zs) out in
            let last : next_if prev next m₁ b ≡ m₁ b =
              subst (λ p. next_if p next m₁ b ≡ m₁ b) (sym a.prev)
                (Outside-next_if xs next m₁ b before) in
            last ∙ Outside-prev_if st.mem it next zs prev st.mem a.after b after;
        contents =
            then_next_if prev next st.mem m₁
              (then_prev_if next prev st.mem st.mem (SameContents-refl st.mem));
      }

pub Off-cut_left :
    (xs : List ℕ) (it : ℕ) (zs ys : List ℕ) → Off (xs ++ it ∷ zs) ys → Off (xs ++ zs) ys
Off-cut_left [] it zs ys off = off.1
Off-cut_left (x ∷ xs) it zs ys off = (off.0, Off-cut_left xs it zs ys off.1)

pub Off-cut : (ys xs : List ℕ) (it : ℕ) (zs : List ℕ) → Off ys (xs ++ it ∷ zs) → Off ys (xs ++ zs)
Off-cut ys xs it zs off =
    Off-sym (xs ++ zs) ys (Off-cut_left xs it zs ys (Off-sym ys (xs ++ it ∷ zs) off))

pub items_in-cut :
    (is_crawler : ℕ → Bool) (xs : List ℕ) (it : ℕ) (zs : List ℕ)
    → items_in is_crawler (xs ++ it ∷ zs)
      ≡ (if is_crawler it then 0 else 1) + items_in is_crawler (xs ++ zs)
items_in-cut is_crawler [] it zs = elim (Bool-cases (is_crawler it)) [
  | inl e ↦ rw e (omega arith)
  | inr e ↦ rw e (omega arith)
]
items_in-cut is_crawler (x ∷ xs) it zs = elim (Bool-cases (is_crawler x)) [
  | inl e ↦ rw e (items_in-cut is_crawler xs it zs)
  | inr e ↦ rw e (omega (arith, items_in-cut is_crawler xs it zs))
]
