-- ===== src/Memcached/Heap.antt =====
-- src/memcached.h: the item as it lies in memory, at its address. Address 0 is NULL.
pub mod Segments
pub mod Writes
use mage_artifact_baseline.Common.{ℕ, Bool, List, ◌==◌, if◌then◌else◌}

-- The bits of `it_flags`: ITEM_LINKED, ITEM_CAS, ITEM_SLABBED and ITEM_FETCHED.
pub record Flags : Type 0 where
  pub linked : Bool
  pub with_cas : Bool
  pub slabbed : Bool
  pub fetched : Bool

-- `struct _stritem`, with the key, the suffix and the data that follow it. The chain link `h_next`
-- belongs to the hash table.
pub record StrItem (K : Type 0) : Type 0 where
  pub next : ℕ
  pub prev : ℕ
  pub time : ℕ
  pub exptime : ℕ
  pub nbytes : ℕ
  pub refcount : ℕ
  pub nsuffix : ℕ
  pub it_flags : Flags
  pub slabs_clsid : ℕ
  pub nkey : ℕ
  pub cas : ℕ
  pub key : K
  pub bytes : List ℕ

abbrev pub Mem : Type 0 → Type 0
Mem K = ℕ → StrItem K

module _ {K : Type 0} where
  unfoldable pub write : ℕ → StrItem K → Mem K → Mem K
  write p it mem q = if q == p then it else mem q

  -- `p->next = v` and `p->prev = v`
  unfoldable pub set_next : ℕ → ℕ → Mem K → Mem K
  unfolding write
  set_next p v mem = write p (record (mem p) { next = v }) mem

  unfoldable pub set_prev : ℕ → ℕ → Mem K → Mem K
  unfolding write
  set_prev p v mem = write p (record (mem p) { prev = v }) mem

  -- `if (p) p->next = v` and `if (p) p->prev = v`
  unfoldable pub next_if : ℕ → ℕ → Mem K → Mem K
  unfolding set_next
  next_if p v mem = if p == 0 then mem else set_next p v mem

  unfoldable pub prev_if : ℕ → ℕ → Mem K → Mem K
  unfolding set_prev
  prev_if p v mem = if p == 0 then mem else set_prev p v mem
