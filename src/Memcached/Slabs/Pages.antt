-- ===== src/Memcached/Slabs/Pages.antt =====
-- src/slabs.c: `split_slab_page_into_freelist`.
use mage_artifact_baseline.Common.{
  ℕ, zero, suc, ◌+◌, ◌*◌, ◌^◌, ◌≤◌, ◌<◌, ◌≡◌, ◌≢◌, ◌⊎◌, refl, ap, ◌∙◌, subst, true, inl, inr, List,
  [], ◌∷◌, arith, length, Returns, Returns-bind,
}
use mage_artifact_baseline.Memcached.Heap.{Mem}
use mage_artifact_baseline.Memcached.Heap.Segments.{Apart}
use mage_artifact_baseline.Memcached.Slabs.{
  Slabs, is_class, do_slabs_free, split_slab_page_into_freelist,
}
use mage_artifact_baseline.Memcached.Slabs.Freelist.{IsFree, do_slabs_free-Freed}

-- The chunks of a page, the last one first, before the chunks that are free already.
abbrev pub cut : ℕ → ℕ → ℕ → List ℕ → List ℕ
cut zero ptr size xs = xs
cut (suc n) ptr size xs = cut n (ptr + size) size (ptr ∷ xs)

-- No chunk of the list lies in the page.
abbrev pub OutsidePage : ℕ → ℕ → List ℕ → Type 0
OutsidePage ptr end [] = Unit
OutsidePage ptr end (x ∷ xs) = ((x < ptr) ⊎ (end ≤ x)) × OutsidePage ptr end xs

pub Apart-page :
    (ptr end a : ℕ) (xs : List ℕ) → OutsidePage ptr end xs → ptr ≤ a → a < end → Apart a xs
Apart-page ptr end a [] out lo hi = tt
Apart-page ptr end a (x ∷ xs) (here, out) lo hi = (
  elim here [ inl before ↦ λ e. omega (arith, e) | inr after ↦ λ e. omega (arith, e) ],
  Apart-page ptr end a xs out lo hi,
)

pub OutsidePage-later :
    (ptr size end : ℕ) (xs : List ℕ) → OutsidePage ptr end xs → OutsidePage (ptr + size) end xs
OutsidePage-later ptr size end [] out = tt
OutsidePage-later ptr size end (x ∷ xs) (here, out) = (
  elim here [ inl before ↦ inl (omega arith) | inr after ↦ inr after ],
  OutsidePage-later ptr size end xs out,
)

pub outside_page : (ptr end a : ℕ) → (a < ptr) ⊎ (end ≤ a) → ptr < end → a ≢ ptr
outside_page ptr end a (inl before) some_page = λ e. omega (arith, e)
outside_page ptr end a (inr after) some_page = λ e. omega (arith, e)

pub later : (ptr size end a : ℕ) → (a < ptr) ⊎ (end ≤ a) → (a < ptr + size) ⊎ (end ≤ a)
later ptr size end a (inl before) = inl (omega arith)
later ptr size end a (inr after) = inr after

pub length-cut : (n ptr size : ℕ) (xs : List ℕ) → length (cut n ptr size xs) ≡ n + length xs
length-cut zero ptr size xs = omega arith
length-cut (suc n) ptr size xs = omega (arith, length-cut n (ptr + size) size (ptr ∷ xs))

module _ {K : Type 0} where
  -- Only the page and the chunks that were free before are written.
  abbrev pub OutsideBoth : ℕ → ℕ → List ℕ → Mem K → Mem K → Type 0
  OutsideBoth ptr end xs mem mem' = (a : ℕ) → (a < ptr) ⊎ (end ≤ a) → Apart a xs → mem' a ≡ mem a

  -- What the cutting of a page leaves.
  pub record Split (id ptr end : ℕ) (xs new : List ℕ) (mem : Mem K) (sl : Slabs)
      (st : Mem K × Slabs) : Type 0 where
    pub list : IsFree st.0 (st.1.slabclass id) new
    pub outside : OutsideBoth ptr end xs mem st.0
    pub others : (c : ℕ) → c ≢ id → st.1.slabclass c ≡ sl.slabclass c
    pub pages : (st.1.slabclass id).slab_list ≡ (sl.slabclass id).slab_list
    pub malloced : st.1.mem_malloced ≡ sl.mem_malloced

  -- A page of chunks that belong to no class is cut: each chunk is free afterwards.
  pub split_slab_page_into_freelist-Split :
      (n ptr id end : ℕ) (mem : Mem K) (sl : Slabs) (xs : List ℕ)
      → IsFree mem (sl.slabclass id) xs
      → is_class id sl ≡ true
      → 0 < (sl.slabclass id).size
      → 0 < ptr
      → ptr + n * (sl.slabclass id).size ≤ end
      → ((a : ℕ) → ptr ≤ a → a < end → (mem a).slabs_clsid ≡ 0)
      → OutsidePage ptr end xs
      → length xs + n < 2 ^ 32
      → Returns
          (split_slab_page_into_freelist n ptr id (mem, sl))
          (Split id ptr end xs (cut n ptr (sl.slabclass id).size xs) mem sl)
  unfolding split_slab_page_into_freelist
  split_slab_page_into_freelist-Split zero ptr id end mem sl xs is class pos some_ptr inside clear
        out small =
      (
        (mem, sl),
        refl,
        record {
          list = is;
          outside = λ a o apart. refl;
          others = λ c other. refl;
          pages = refl;
          malloced = refl;
        },
      )
  split_slab_page_into_freelist-Split (suc n) ptr id end mem sl xs is class pos some_ptr inside
        clear out small =
      let size = (sl.slabclass id).size in
      let fits : ptr + size + n * size ≤ end = grind arith in
      let here : ptr < end = grind (arith, fits, pos) in
      Returns-bind (do_slabs_free ptr 0 id (mem, sl))
        (split_slab_page_into_freelist n (ptr + size) id)
        (do_slabs_free-Freed ptr 0 id mem sl xs is class (λ e. omega (arith, e))
          (Apart-page ptr end ptr xs out (omega arith) here) (clear ptr (omega arith) here)
          (omega arith))
        λ st f.
          let again =
            split_slab_page_into_freelist-Split n (ptr + size) id end st.0 st.1 (ptr ∷ xs) f.list
              (rw f.largest class) (rw f.size pos) (omega arith) (rw f.size fits)
              (λ a lo hi.
                ap (λ q. q.slabs_clsid)
                  (f.outside a
                    ((λ e. omega (arith, e)), Apart-page ptr end a xs out (omega arith) hi))
                ∙ clear a (omega arith) hi)
              (inl (omega arith), OutsidePage-later ptr size end xs out) (omega arith) in
          let (st', run, r) = again in
          (
            st',
            run,
            record {
              list =
                  subst (λ w. IsFree st'.0 (st'.1.slabclass id) (cut n (ptr + size) w (ptr ∷ xs)))
                    f.size r.list;
              outside = λ a o apart.
                  let other : a ≢ ptr = outside_page ptr end a o here in
                  r.outside a (later ptr size end a o) (other, apart) ∙ f.outside a (other, apart);
              others = λ c other. r.others c other ∙ f.others c other;
              pages = r.pages ∙ f.pages;
              malloced = r.malloced ∙ f.malloced;
            },
          )
