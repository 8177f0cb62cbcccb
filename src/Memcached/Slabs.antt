-- ===== src/Memcached/Slabs.antt =====
-- src/slabs.c: pages of memory cut into chunks of the size of their class, and the lists of free
-- chunks.
pub mod Rebalance
pub mod Classes
pub mod Freelist
pub mod Pages
pub mod Agree
pub mod Alloc
use mathlib.Core.Bool.{not}
use mage_artifact_baseline.Common.{
  ℕ, zero, suc, ◌+◌, ◌-◌, ◌*◌, ◌/◌, ◌%◌, Bool, true, false, ◌&&◌, ◌||◌, Option, none, some, List,
  [], ◌∷◌, ◌++◌, take, ltb, leb, ◌==◌, if◌then◌else◌, ◌>>=◌, ◌>>◌, assert, length, get_elem?, set,
  u32_mod, u64_mod,
}
use mage_artifact_baseline.Memcached.Heap.{
  Flags, StrItem, Mem, write, set_next, set_prev, next_if, prev_if,
}
use mage_artifact_baseline.Memcached.Lru.{put}

-- `slabclass_t`. `slab_list` is the used part of the array, `slabs` long.
pub record SlabClass : Type 0 where
  pub size : ℕ
  pub perslab : ℕ
  pub slots : ℕ
  pub sl_curr : ℕ
  pub slab_list : List ℕ
  pub list_size : ℕ
  pub killing : ℕ
  pub requested : ℕ

-- The static variables. `mem_base` only says whether the memory is one large block.
pub record Slabs : Type 0 where
  pub slabclass : ℕ → SlabClass
  pub mem_limit : ℕ
  pub mem_malloced : ℕ
  pub power_largest : ℕ
  pub prealloc : Bool
  pub mem_current : ℕ
  pub mem_avail : ℕ

abbrev pub power_smallest : ℕ
power_smallest = 1

abbrev pub chunk_align_bytes : ℕ
chunk_align_bytes = 8

-- The loop of `slabs_clsid`: the classes from `res` on, `left` of them after it.
unfoldable pub clsid_from : (ℕ → SlabClass) → ℕ → ℕ → ℕ → ℕ
clsid_from classes size res zero = if ltb (classes res).size size then 0 else res
clsid_from classes size res (suc left) =
    let rest = clsid_from classes size (res + 1) left in
    if ltb (classes res).size size then rest else res

unfoldable pub slabs_clsid : ℕ → Slabs → ℕ
unfolding clsid_from
slabs_clsid size sl =
    if size == 0
    then 0
    else clsid_from sl.slabclass size power_smallest (sl.power_largest - power_smallest)

-- `size += CHUNK_ALIGN_BYTES - (size % CHUNK_ALIGN_BYTES)` where it is no multiple.
unfoldable pub align : ℕ → ℕ
align size =
    if size % chunk_align_bytes == 0
    then size
    else size + (chunk_align_bytes - size % chunk_align_bytes)

abbrev pub no_class : SlabClass
no_class = record {
  size = 0;
  perslab = 0;
  slots = 0;
  sl_curr = 0;
  slab_list = [];
  list_size = 0;
  killing = 0;
  requested = 0;
}

-- The loop of `slabs_init`: the size class `i` is next, and `left` are left. `fits size` stands for
-- `size <= settings.item_size_max / factor`, and `scale size` for `size * factor`, made whole.
unfoldable pub init_classes :
    (ℕ → Bool) → (ℕ → ℕ) → ℕ → ℕ → ℕ → ℕ → (ℕ → SlabClass) → ℕ × (ℕ → SlabClass)
unfolding align
init_classes fits scale item_size_max i size zero classes = (i, classes)
init_classes fits scale item_size_max i size (suc left) classes = elim (fits size) [
  | true ↦
      let chunk = align size in
      init_classes fits scale item_size_max (i + 1) (scale chunk) left
        (put i (record no_class { size = chunk; perslab = item_size_max / chunk }) classes)
  | false ↦ (i, classes)
]

-- Without the preallocation; `size` is `sizeof(item) + settings.chunk_size`.
unfoldable pub slabs_init : (ℕ → Bool) → (ℕ → ℕ) → ℕ → ℕ → ℕ → Slabs
unfolding init_classes
slabs_init fits scale item_size_max size limit =
    let (i, classes) =
      init_classes fits scale item_size_max power_smallest size 199 (λ _. no_class) in
    record {
      slabclass = put i (record no_class { size = item_size_max; perslab = 1 }) classes;
      mem_limit = limit;
      mem_malloced = 0;
      power_largest = i;
      prealloc = false;
      mem_current = 0;
      mem_avail = 0;
    }

-- `realloc` may fail, and then the list stays.
unfoldable pub grow_slab_list : Bool → SlabClass → Option SlabClass
grow_slab_list realloc_ok p =
    if length p.slab_list == p.list_size
    then (if realloc_ok
        then some (record p { list_size = if p.list_size == 0 then 16 else p.list_size * 2 })
        else none)
    else some p

-- `malloc` answers an address or NULL; from the large block the memory is taken in order.
unfoldable pub memory_allocate : Option ℕ → ℕ → Slabs → Option ℕ × Slabs
unfolding align
memory_allocate malloc size sl =
    if not sl.prealloc then (malloc, sl) else if ltb sl.mem_avail size then (none, sl) else (
      some sl.mem_current,
      record sl {
        mem_current = sl.mem_current + align size;
        mem_avail = if ltb (align size) sl.mem_avail then sl.mem_avail - align size else 0;
      },
    )

module _ {K : Type 0} where
  -- The bytes of an item all 0; the key of an item with `nkey` 0 is not read.
  abbrev pub zeroed : StrItem K → StrItem K
  zeroed it = record it {
    next = 0;
    prev = 0;
    time = 0;
    exptime = 0;
    nbytes = 0;
    refcount = 0;
    nsuffix = 0;
    slabs_clsid = 0;
    it_flags = record { linked = false; with_cas = false; slabbed = false; fetched = false };
    nkey = 0;
    cas = 0;
    bytes = [];
  }

  -- `memset(ptr, 0, len)`
  unfoldable pub memset_zero : ℕ → ℕ → Mem K → Mem K
  memset_zero ptr len mem a = if leb ptr a && ltb a (ptr + len) then zeroed (mem a) else mem a

  -- The chunk becomes the first of the free list.
  unfoldable pub do_slabs_free : ℕ → ℕ → ℕ → Mem K × Slabs → Option (Mem K × Slabs)
  do_slabs_free ptr size id (mem, sl) = do
    assert ((mem ptr).slabs_clsid == 0)
    assert (leb power_smallest id && leb id sl.power_largest)
    let p = sl.slabclass id
    let it = mem ptr
    let flags : Flags = record it.it_flags { slabbed = true }
    let mem' = write ptr (record it { it_flags = flags; prev = 0; next = p.slots }) mem
    some (
      prev_if p.slots ptr mem',
      record sl {
        slabclass =
            put id
              (record p {
                slots = ptr;
                sl_curr = (p.sl_curr + 1) % u32_mod;
                requested = (p.requested + u64_mod - size) % u64_mod;
              })
              sl.slabclass;
      },
    )

  unfoldable pub split_slab_page_into_freelist : ℕ → ℕ → ℕ → Mem K × Slabs → Option (Mem K × Slabs)
  split_slab_page_into_freelist zero ptr id st = some st
  split_slab_page_into_freelist (suc x) ptr id (mem, sl) =
      do_slabs_free ptr 0 id (mem, sl)
      >>= split_slab_page_into_freelist x (ptr + (sl.slabclass id).size) id

  -- The page is cleared and cut, and the class owns it.
  unfoldable pub add_page : ℕ → ℕ → ℕ → Mem K × Slabs → Option (Mem K × Slabs)
  add_page id len ptr (mem, sl) = do
    (mem', sl') ←
        split_slab_page_into_freelist (sl.slabclass id).perslab ptr id (memset_zero ptr len mem, sl)
    let p = sl'.slabclass id
    some (
      mem',
      record sl' {
        slabclass = put id (record p { slab_list = p.slab_list ++ ptr ∷ [] }) sl'.slabclass;
        mem_malloced = (sl'.mem_malloced + len) % u64_mod;
      },
    )

  abbrev pub with_page : ℕ → ℕ → Mem K → Option ℕ × Slabs → Option (Bool × (Mem K × Slabs))
  with_page id len mem (none, sl) = some (false, (mem, sl))
  with_page id len mem (some ptr, sl) = add_page id len ptr (mem, sl) >>= λ st. some (true, st)

  -- A new page for the class; false where there is no memory. `reassign` is
  -- `settings.slab_reassign`, with which all pages are as large as the largest item.
  unfoldable pub do_slabs_newslab :
      Bool → ℕ → Bool → Option ℕ → ℕ → Mem K × Slabs → Option (Bool × (Mem K × Slabs))
  do_slabs_newslab reassign item_size_max realloc_ok malloc id (mem, sl) =
      let p = sl.slabclass id in
      let len = if reassign then item_size_max else p.size * p.perslab in
      if not (sl.mem_limit == 0)
        && ltb sl.mem_limit (sl.mem_malloced + len)
        && ltb 0 (length p.slab_list)
      then some (false, (mem, sl))
      else elim (grow_slab_list realloc_ok p) [
        | none ↦ some (false, (mem, sl))
        | some p' ↦
            let sl' : Slabs = record sl { slabclass = put id p' sl.slabclass } in
            with_page id len mem (memory_allocate malloc len sl')
      ]

  -- The first of the free list, if there is one.
  unfoldable pub take_slot : ℕ → ℕ → Mem K × Slabs → ℕ × (Mem K × Slabs)
  take_slot size id (mem, sl) =
      let p = sl.slabclass id in
      let next = (mem p.slots).next in
      if p.sl_curr == 0 then (0, (mem, sl)) else (
        p.slots,
        (
          prev_if next 0 mem,
          record sl {
            slabclass =
                put id
                  (record p {
                    slots = next;
                    sl_curr = p.sl_curr - 1;
                    requested = (p.requested + size) % u64_mod;
                  })
                  sl.slabclass;
          },
        ),
      )

  -- An address, or NULL.
  unfoldable pub do_slabs_alloc :
      Bool → ℕ → Bool → Option ℕ → ℕ → ℕ → Mem K × Slabs → Option (ℕ × (Mem K × Slabs))
  do_slabs_alloc reassign item_size_max realloc_ok malloc size id (mem, sl) =
      let p = sl.slabclass id in
      if ltb id power_smallest || ltb sl.power_largest id
      then some (0, (mem, sl))
      else (assert (p.sl_curr == 0 || (mem p.slots).slabs_clsid == 0)
          >> (if p.sl_curr == 0
              then (do_slabs_newslab reassign item_size_max realloc_ok malloc id (mem, sl)
                  >>= λ (_, st). some (take_slot size id st))
              else some (take_slot size id (mem, sl))))

-- `abort()` at a class that there is not.
unfoldable pub slabs_adjust_mem_requested : ℕ → ℕ → ℕ → Slabs → Option Slabs
slabs_adjust_mem_requested id old ntotal sl = do
  assert (leb power_smallest id && leb id sl.power_largest)
  let p = sl.slabclass id
  some (record sl {
    slabclass =
        put id (record p { requested = (p.requested + u64_mod - old + ntotal) % u64_mod })
          sl.slabclass;
  })

abbrev pub is_class : ℕ → Slabs → Bool
is_class id sl = leb power_smallest id && leb id sl.power_largest
