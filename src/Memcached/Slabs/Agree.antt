-- ===== src/Memcached/Slabs/Agree.antt =====
-- src/slabs.c: memories that agree at the chunks of a list, and the clearing of a page.
use mage_artifact_baseline.Common.{
  ℕ, ◌+◌, ◌≤◌, ◌<◌, ◌≡◌, ◌⊎◌, ap, ◌∙◌, inl, inr, List, [], ◌∷◌, arith,
}
use mage_artifact_baseline.Memcached.Heap.{Mem}
use mage_artifact_baseline.Memcached.Heap.Segments.{SameLinks, Seg-frame}
use mage_artifact_baseline.Memcached.Slabs.{SlabClass, memset_zero}
use mage_artifact_baseline.Memcached.Slabs.Pages.{OutsidePage}
use mage_artifact_baseline.Memcached.Slabs.Freelist.{IsFree, AllFree}

module _ {K : Type 0} where
  -- The memories agree at the elements.
  abbrev pub Agree : Mem K → Mem K → List ℕ → Type 0
  Agree mem mem' [] = Unit
  Agree mem mem' (x ∷ xs) = (mem' x ≡ mem x) × Agree mem mem' xs

  pub Agree-SameLinks : (mem mem' : Mem K) (xs : List ℕ) → Agree mem mem' xs → SameLinks mem mem' xs
  Agree-SameLinks mem mem' [] a = tt
  Agree-SameLinks mem mem' (x ∷ xs) (e, a) =
      (ap (λ n. n.next) e, ap (λ n. n.prev) e, Agree-SameLinks mem mem' xs a)

  pub Agree-AllFree :
      (mem mem' : Mem K) (xs : List ℕ) → Agree mem mem' xs → AllFree mem xs → AllFree mem' xs
  Agree-AllFree mem mem' [] a f = tt
  Agree-AllFree mem mem' (x ∷ xs) (e, a) (slabbed, none', f) = (
    ap (λ n. n.it_flags.slabbed) e ∙ slabbed,
    ap (λ n. n.slabs_clsid) e ∙ none',
    Agree-AllFree mem mem' xs a f,
  )

  pub Agree-IsFree :
      (mem mem' : Mem K) (p : SlabClass) (xs : List ℕ)
      → Agree mem mem' xs
      → IsFree mem p xs
      → IsFree mem' p xs
  Agree-IsFree mem mem' p xs a is = record {
    links = Seg-frame mem mem' 0 p.slots xs 0 (Agree-SameLinks mem mem' xs a) is.links;
    distinct = is.distinct;
    count = is.count;
    free = Agree-AllFree mem mem' xs a is.free;
  }

  pub memset_zero-outside :
      (ptr len : ℕ) (mem : Mem K) (a : ℕ)
      → (a < ptr) ⊎ (ptr + len ≤ a)
      → memset_zero ptr len mem a ≡ mem a
  unfolding memset_zero
  memset_zero-outside ptr len mem a (inl before) = ground arith
  memset_zero-outside ptr len mem a (inr after) = ground arith

  pub memset_zero-inside :
      (ptr len : ℕ) (mem : Mem K) (a : ℕ)
      → ptr ≤ a
      → a < ptr + len
      → (memset_zero ptr len mem a).slabs_clsid ≡ 0
  unfolding memset_zero
  memset_zero-inside ptr len mem a lo hi = ground arith

  pub memset_zero-Agree :
      (ptr len : ℕ) (mem : Mem K) (xs : List ℕ)
      → OutsidePage ptr (ptr + len) xs
      → Agree mem (memset_zero ptr len mem) xs
  memset_zero-Agree ptr len mem [] out = tt
  memset_zero-Agree ptr len mem (x ∷ xs) (here, out) =
      (memset_zero-outside ptr len mem x here, memset_zero-Agree ptr len mem xs out)

  -- The free list does not depend on the other fields of the class.
  pub same_list :
      (mem : Mem K) (p q : SlabClass) (xs : List ℕ)
      → q.slots ≡ p.slots
      → q.sl_curr ≡ p.sl_curr
      → IsFree mem p xs
      → IsFree mem q xs
  same_list mem p q xs slots count is = record {
    links = rw slots is.links;
    distinct = is.distinct;
    count = count ∙ is.count;
    free = is.free;
  }
