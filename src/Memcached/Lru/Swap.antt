-- ===== src/Memcached/Lru/Swap.antt =====
-- src/items.c: the links after the crawler has passed an item.
use mage_artifact_baseline.Common.{
  ℕ, ◌≡◌, ◌≢◌, refl, sym, ap, ◌∙◌, subst, Bool, List, [], ◌∷◌, ◌++◌, arith, ◌==◌, if◌then◌else◌,
}
use mage_artifact_baseline.Memcached.Heap.{StrItem, Mem, set_next, set_prev, next_if, prev_if}
use mage_artifact_baseline.Memcached.Heap.Segments.{
  Apart, Off, Distinct, last_or, Seg, Seg-cons, Outside, SameContents, Seg-prev_if, Seg-next_if,
  Seg-split, Seg-append, set_next_self, set_prev_self, set_next_other, set_prev_other,
}
use mage_artifact_baseline.Memcached.Heap.Writes.{
  Apart-split, Off-nil, Off-cons, Off-sym, Distinct-split, Seg-Outside, Outside-set_next,
  Outside-prev_if, Outside-next_if, SameContents-refl, then_next, then_prev, then_next_if,
  then_prev_if,
}
use mage_artifact_baseline.Memcached.Lru.Queue.{InClass, items_in}

module _ {K : Type 0} where
  -- `swap_links`, where the predecessor of `p` is `b`.
  abbrev before_swap : ℕ → ℕ → ℕ → Mem K → Mem K
  before_swap it next p mem = prev_if next p (set_next p next mem)

  abbrev pub swapped : ℕ → ℕ → ℕ → ℕ → Mem K → Mem K
  swapped it next p b mem =
      next_if b it (set_prev p it (set_prev it b (set_next it p (before_swap it next p mem))))

  -- In the queue `xs ++ p ∷ it ∷ zs`, from the head `h`.
  module _ (mem : Mem K) (it p h : ℕ) (xs zs : List ℕ) (s : Seg mem 0 h (xs ++ p ∷ it ∷ zs) 0)
      (d : Distinct (xs ++ p ∷ it ∷ zs)) where
    -- The parts of the queue.
    pub record Parts : Type 0 where
      pub left : Seg mem 0 h xs p
      pub p_item : p ≢ 0
      pub p_prev : (mem p).prev ≡ last_or 0 xs
      pub p_next : (mem p).next ≡ it
      pub it_item : it ≢ 0
      pub it_prev : (mem it).prev ≡ p
      pub right : Seg mem it (mem it).next zs 0
      pub distinct_left : Distinct xs
      pub distinct_right : Distinct zs
      pub off : Off xs zs
      pub p_left : Apart p xs
      pub it_left : Apart it xs
      pub p_right : Apart p zs
      pub it_right : Apart it zs
      pub differ : p ≢ it

    pub parts : Parts
    parts =
        let (m, left, (at, p_item, p_prev, (at', it_item, it_prev, right))) =
          Seg-split mem 0 h xs (p ∷ it ∷ zs) 0 s in
        let (dl, ((differ, p_right), (it_right, dr)), off) = Distinct-split xs (p ∷ it ∷ zs) d in
        let (p_left, (it_left, rest)) = Off-sym xs (p ∷ it ∷ zs) off in
        record {
          left = subst (λ q. Seg mem 0 h xs q) at left;
          p_item = p_item;
          p_prev = p_prev;
          p_next = at';
          it_item = it_item;
          it_prev = it_prev;
          right = right;
          distinct_left = dl;
          distinct_right = dr;
          off = Off-sym zs xs rest;
          p_left = p_left;
          it_left = it_left;
          p_right = p_right;
          it_right = it_right;
          differ = differ;
        }

    -- The memory after each of the writes.
    abbrev m₁ : Mem K
    m₁ = set_next p (mem it).next mem

    abbrev m₂ : Mem K
    m₂ = prev_if (mem it).next p m₁

    abbrev m₃ : Mem K
    m₃ = set_next it p m₂

    abbrev m₄ : Mem K
    m₄ = set_prev it (last_or 0 xs) m₃

    abbrev m₅ : Mem K
    m₅ = set_prev p it m₄

    abbrev m₆ : Mem K
    m₆ = next_if (last_or 0 xs) it m₅

    early : Outside (p ∷ it ∷ zs) mem m₅
    early a (other, (other', out)) =
        set_prev_other p it m₄ a other
        ∙ set_prev_other it (last_or 0 xs) m₃ a other'
        ∙ set_next_other it p m₂ a other'
        ∙ Outside-prev_if mem it (mem it).next zs p m₁ parts.right a out
        ∙ set_next_other p (mem it).next mem a other

    late : Outside (it ∷ p ∷ xs) m₂ m₆
    late a (other, (other', out)) =
        Outside-next_if xs it m₅ a out
        ∙ set_prev_other p it m₄ a other'
        ∙ set_prev_other it (last_or 0 xs) m₃ a other
        ∙ set_next_other it p m₂ a other

    pub swapped-Outside : Outside (xs ++ p ∷ it ∷ zs) mem m₆
    swapped-Outside a out =
        let (l, r) = Apart-split a xs (p ∷ it ∷ zs) out in Outside-next_if xs it m₅ a l ∙ early a r

    -- The fields of the two after the writes.
    m₂-p : m₂ p ≡ record (mem p) { next = (mem it).next }
    m₂-p =
        Outside-prev_if mem it (mem it).next zs p m₁ parts.right p parts.p_right
        ∙ set_next_self p (mem it).next mem

    m₃-p : m₃ p ≡ record (mem p) { next = (mem it).next }
    m₃-p = set_next_other it p m₂ p parts.differ ∙ m₂-p

    pub before_p : (m₃ p).prev ≡ last_or 0 xs
    before_p = ap (λ n. n.prev) m₃-p ∙ parts.p_prev

    m₆-p : m₆ p ≡ record (mem p) { next = (mem it).next; prev = it }
    m₆-p =
        let set_back : StrItem K → StrItem K = λ n. record n { prev = it } in
        Outside-next_if xs it m₅ p parts.p_left
        ∙ set_prev_self p it m₄
        ∙ ap set_back (set_prev_other it (last_or 0 xs) m₃ p parts.differ ∙ m₃-p)

    m₆-it : m₆ it ≡ record (m₂ it) { next = p; prev = last_or 0 xs }
    m₆-it =
        let set_back : StrItem K → StrItem K = λ n. record n { prev = last_or 0 xs } in
        Outside-next_if xs it m₅ it parts.it_left
        ∙ set_prev_other p it m₄ it (λ e. parts.differ (sym e))
        ∙ set_prev_self it (last_or 0 xs) m₃
        ∙ ap set_back (set_next_self it p m₂)

    pub swapped-it_next : (m₆ it).next ≡ p
    swapped-it_next = ap (λ n. n.next) m₆-it

    pub swapped-it_prev : (m₆ it).prev ≡ last_or 0 xs
    swapped-it_prev = ap (λ n. n.prev) m₆-it

    right_after : Seg m₆ p (mem it).next zs 0
    right_after =
        let off₂ : Off zs (it ∷ p ∷ xs) =
          Off-cons zs it (p ∷ xs) parts.it_right
            (Off-cons zs p xs parts.p_right (Off-sym xs zs parts.off)) in
        let s₁ =
          Seg-Outside (p ∷ []) mem m₁ it (mem it).next zs 0 (Outside-set_next p (mem it).next mem)
            (Off-cons zs p [] parts.p_right (Off-nil zs)) parts.right in
        Seg-Outside (it ∷ p ∷ xs) m₂ m₆ p (mem it).next zs 0 late off₂
          (Seg-prev_if m₁ it (mem it).next zs p s₁ parts.distinct_right)

    left_after : Seg m₆ 0 (if last_or 0 xs == 0 then it else h) xs it
    left_after =
        Seg-next_if m₅ h xs p it
          (Seg-Outside (p ∷ it ∷ zs) mem m₅ 0 h xs p early
            (Off-cons xs p (it ∷ zs) parts.p_left (Off-cons xs it zs parts.it_left parts.off))
            parts.left)
          parts.distinct_left

    pub swapped-Seg : Seg m₆ 0 (if last_or 0 xs == 0 then it else h) (xs ++ it ∷ p ∷ zs) 0
    swapped-Seg =
        Seg-append m₆ 0 (if last_or 0 xs == 0 then it else h) xs it (it ∷ p ∷ zs) 0 left_after (
          Seg-cons m₆ (last_or 0 xs) it it p (p ∷ zs) 0 refl parts.it_item swapped-it_prev
            swapped-it_next
            (Seg-cons m₆ it p p (mem it).next zs 0 refl parts.p_item (ap (λ n. n.prev) m₆-p)
              (ap (λ n. n.next) m₆-p) right_after))

    pub swapped-SameContents : SameContents mem m₆
    swapped-SameContents = then_next_if (last_or 0 xs) it mem m₅ (
        then_prev p it mem m₄ (
          then_prev it (last_or 0 xs) mem m₃ (
            then_next it p mem m₂ (
              then_prev_if (mem it).next p mem m₁
                (then_next p (mem it).next mem mem (SameContents-refl mem))))))

module _ {K : Type 0} where
  pub InClass-swap :
      (mem : Mem K) (c : ℕ) (xs : List ℕ) (a b : ℕ) (zs : List ℕ)
      → InClass mem c (xs ++ a ∷ b ∷ zs)
      → InClass mem c (xs ++ b ∷ a ∷ zs)
  InClass-swap mem c [] a b zs (p, (q, r)) = (q, (p, r))
  InClass-swap mem c (x ∷ xs) a b zs (p, r) = (p, InClass-swap mem c xs a b zs r)

Apart-swap :
    (y : ℕ) (xs : List ℕ) (a b : ℕ) (zs : List ℕ)
    → Apart y (xs ++ a ∷ b ∷ zs)
    → Apart y (xs ++ b ∷ a ∷ zs)
Apart-swap y [] a b zs (p, (q, r)) = (q, (p, r))
Apart-swap y (x ∷ xs) a b zs (p, r) = (p, Apart-swap y xs a b zs r)

pub Off-swap :
    (ys xs : List ℕ) (a b : ℕ) (zs : List ℕ) → Off ys (xs ++ a ∷ b ∷ zs) → Off ys (xs ++ b ∷ a ∷ zs)
Off-swap [] xs a b zs off = tt
Off-swap (y ∷ ys) xs a b zs (p, off) = (Apart-swap y xs a b zs p, Off-swap ys xs a b zs off)

pub Distinct-swap :
    (xs : List ℕ) (a b : ℕ) (zs : List ℕ)
    → Distinct (xs ++ a ∷ b ∷ zs)
    → Distinct (xs ++ b ∷ a ∷ zs)
Distinct-swap [] a b zs ((differ, p), (q, d)) = (((λ e. differ (sym e)), q), (p, d))
Distinct-swap (x ∷ xs) a b zs (p, d) = (Apart-swap x xs a b zs p, Distinct-swap xs a b zs d)

pub items_in-swap :
    (is_crawler : ℕ → Bool) (xs : List ℕ) (a b : ℕ) (zs : List ℕ)
    → items_in is_crawler (xs ++ a ∷ b ∷ zs) ≡ items_in is_crawler (xs ++ b ∷ a ∷ zs)
items_in-swap is_crawler [] a b zs = ground arith
items_in-swap is_crawler (x ∷ xs) a b zs = ground (arith, items_in-swap is_crawler xs a b zs)
