-- ===== src/Memcached/Slabs/Alloc.antt =====
-- src/slabs.c: allocation, from the free list or from a new page.
use mathlib.Core.Bool.{not}
use mage_artifact_baseline.Common.{
  ℕ, ◌+◌, ◌*◌, ◌%◌, ◌^◌, ◌≤◌, ◌<◌, ◌≡◌, ◌≢◌, ◌⊎◌, Bool, true, false, ◌&&◌, Option, none, some, List,
  [], ◌∷◌, ◌++◌, ltb, ◌==◌, if◌then◌else◌, length, u64_mod,
}
use mage_artifact_baseline.Memcached.Heap.{Mem}
use mage_artifact_baseline.Memcached.Heap.Segments.{Apart}
use mage_artifact_baseline.Memcached.Slabs.{Slabs, is_class}
use mage_artifact_baseline.Memcached.Slabs.Pages.{cut, OutsideBoth}
use mage_artifact_baseline.Memcached.Slabs.Freelist.{IsFree}

module _ (reassign : Bool) (item_size_max : ℕ) (realloc_ok : Bool) (malloc : Option ℕ) (id : ℕ)
    (sl : Slabs) where
  abbrev pub page_len : ℕ
  page_len = if reassign then item_size_max else (sl.slabclass id).size * (sl.slabclass id).perslab

  -- A page would be over the limit, and the class has one already.
  abbrev pub OverLimit : Type 0
  OverLimit =
      (sl.mem_limit ≢ 0)
      × (sl.mem_limit < sl.mem_malloced + page_len)
      × (0 < length (sl.slabclass id).slab_list)

  -- Why there is no page: the limit, the list of pages that cannot grow, or `malloc`.
  abbrev pub NoMemory : Type 0
  NoMemory =
      OverLimit
      ⊎ ((length (sl.slabclass id).slab_list ≡ (sl.slabclass id).list_size) × (realloc_ok ≡ false))
      ⊎ (malloc ≡ none)

  abbrev pub over_limit : Bool
  over_limit =
      not (sl.mem_limit == 0)
      && ltb sl.mem_limit (sl.mem_malloced + page_len)
      && ltb 0 (length (sl.slabclass id).slab_list)

  -- An address that was on the free list, or that the new page has brought.
  abbrev pub Source : List ℕ → List ℕ → Type 0
  Source xs new =
      (xs ≡ new)
      ⊎ ((xs ≡ [])
          × (¬ OverLimit)
          × (ptr : ℕ) × (malloc ≡ some ptr)
          × (cut (sl.slabclass id).perslab ptr (sl.slabclass id).size [] ≡ new))

module _ {K : Type 0} where
  -- What a new page leaves: all of its chunks are free, and the class owns it.
  pub record Paged (id ptr len : ℕ) (xs : List ℕ) (mem : Mem K) (sl : Slabs) (st : Mem K × Slabs)
      : Type 0 where
    pub list :
        IsFree st.0
          (st.1.slabclass id)
          (cut (sl.slabclass id).perslab ptr (sl.slabclass id).size xs)
    pub outside : OutsideBoth ptr (ptr + len) xs mem st.0
    pub others : (c : ℕ) → c ≢ id → st.1.slabclass c ≡ sl.slabclass c
    pub pages : (st.1.slabclass id).slab_list ≡ (sl.slabclass id).slab_list ++ ptr ∷ []
    pub malloced : st.1.mem_malloced ≡ (sl.mem_malloced + len) % u64_mod

  -- `result` of a request for a page: none and an empty list, or the chunks of the page.
  abbrev pub NewPage : Bool → ℕ → Bool → Option ℕ → ℕ → Slabs → Bool × (Mem K × Slabs) → Type 0
  NewPage reassign item_size_max realloc_ok malloc id sl (false, st) =
      IsFree st.0 (st.1.slabclass id) [] × NoMemory reassign item_size_max realloc_ok malloc id sl
  NewPage reassign item_size_max realloc_ok malloc id sl (true, st) =
      (ptr : ℕ) × (malloc ≡ some ptr)
      × (¬ OverLimit reassign item_size_max realloc_ok malloc id sl)
      × IsFree st.0 (st.1.slabclass id)
          (cut (sl.slabclass id).perslab ptr (sl.slabclass id).size [])

  module _ (reassign : Bool) (item_size_max : ℕ) (realloc_ok : Bool) (malloc : Option ℕ) (id : ℕ)
      (mem : Mem K) (sl : Slabs) (is : IsFree mem (sl.slabclass id) [])
      (class : is_class id sl ≡ true) (pos : 0 < (sl.slabclass id).size)
      (page : (sl.slabclass id).perslab * (sl.slabclass id).size ≤ item_size_max)
      (small : (sl.slabclass id).perslab < 2 ^ 32) (own : sl.prealloc ≡ false)
      (real : (ptr : ℕ) → malloc ≡ some ptr → 0 < ptr) where
    abbrev len : ℕ
    len = page_len reassign item_size_max realloc_ok malloc id sl

  -- NULL where nothing is free and there is no memory for a page; else a chunk that is no longer free.
  abbrev pub Allocated :
      Bool → ℕ → Bool → Option ℕ → ℕ → Slabs → List ℕ → ℕ × (Mem K × Slabs) → Type 0
  Allocated reassign item_size_max realloc_ok malloc id sl xs (ret, st) =
      ((ret ≡ 0)
        × (xs ≡ [])
        × IsFree st.0 (st.1.slabclass id) []
        × NoMemory reassign item_size_max realloc_ok malloc id sl)
      ⊎ ((ys : List ℕ) × (ret ≢ 0)
          × Apart ret ys
          × IsFree st.0 (st.1.slabclass id) ys
          × Source reassign item_size_max realloc_ok malloc id sl xs (ret ∷ ys))
