-- ===== src/Memcached/Tests/Lru.antt =====
-- src/items.c, src/slabs.c at small inputs: class 1 has an item at address 1 and a crawler at 9.
use mage_artifact_baseline.Common.{
  ℕ, zero, suc, ◌*◌, ◌≡◌, ◌≢◌, ◌⊎◌, refl, Bool, true, false, List, [], ◌∷◌, ◌++◌, arith, ◌==◌,
  if◌then◌else◌, Returns,
}
use mage_artifact_baseline.Memcached.Heap.{Flags, StrItem}
use mage_artifact_baseline.Memcached.Heap.Segments.{SameContents, Off}
use mage_artifact_baseline.Memcached.Lru.{Lru, put, crawler_crawl_q, crawler_unlink_q, only_linked}
use mage_artifact_baseline.Memcached.Lru.Queue.{IsLru, IsQueue}
use mage_artifact_baseline.Memcached.Lru.Crawl.{crawler_crawl_q-passes}
use mage_artifact_baseline.Memcached.Lru.Ends.{crawler_crawl_q-stops}
use mage_artifact_baseline.Memcached.Slabs.{Slabs, slabs_clsid}
use mage_artifact_baseline.Memcached.Slabs.Classes.{Fits, NoClass, slabs_clsid-Fits}

abbrev pub blank_item : StrItem ℕ
blank_item = record {
  next = 0;
  prev = 0;
  time = 0;
  exptime = 0;
  nbytes = 0;
  refcount = 0;
  nsuffix = 0;
  it_flags = record { linked = false; with_cas = false; slabbed = false; fetched = false };
  slabs_clsid = 0;
  nkey = 0;
  cas = 0;
  key = 0;
  bytes = [];
}

abbrev crawler_flags : Flags
crawler_flags = record { linked = true; with_cas = false; slabbed = false; fetched = false }

-- The arrays where only class 1 has an entry.
abbrev at_one : ℕ → ℕ → ℕ
at_one v zero = 0
at_one v (suc zero) = v
at_one v (suc (suc c)) = 0

-- The crawler behind the item.
abbrev behind : Lru ℕ
behind = record {
  mem = λ p.
      if p == 1
      then record blank_item { next = 9; slabs_clsid = 1; nbytes = 10; it_flags = crawler_flags }
      else if p == 9
      then record blank_item { prev = 1; slabs_clsid = 1; it_flags = crawler_flags }
      else blank_item;
  heads = at_one 1;
  tails = at_one 9;
  sizes = at_one 1;
}

-- The crawler before the item.
abbrev ahead : Lru ℕ
ahead = record {
  mem = λ p.
      if p == 9
      then record blank_item { next = 1; slabs_clsid = 1; it_flags = crawler_flags }
      else if p == 1
      then record blank_item { prev = 9; slabs_clsid = 1; nbytes = 10; it_flags = crawler_flags }
      else blank_item;
  heads = at_one 9;
  tails = at_one 1;
  sizes = at_one 1;
}

abbrev is_nine : ℕ → Bool
is_nine p = p == 9

-- The queues where only that of class 1 has elements.
abbrev only_one : List ℕ → ℕ → List ℕ
only_one xs zero = []
only_one xs (suc zero) = xs
only_one xs (suc (suc c)) = []

Off-empty : (xs : List ℕ) → Off xs []
Off-empty [] = tt
Off-empty (x ∷ xs) = (tt, Off-empty xs)

only_one-Off : (xs : List ℕ) (c d : ℕ) → c ≢ d → Off (only_one xs c) (only_one xs d)
only_one-Off xs zero d other = tt
only_one-Off xs (suc zero) zero other = Off-empty xs
only_one-Off xs (suc zero) (suc zero) other = absurd (other refl)
only_one-Off xs (suc zero) (suc (suc d)) other = Off-empty xs
only_one-Off xs (suc (suc c)) d other = tt

behind-IsQueue : (c : ℕ) → IsQueue is_nine behind c (only_one (1 ∷ 9 ∷ []) c)
behind-IsQueue zero = record { links = refl; tail = refl; distinct = tt; class = tt; size = refl }
behind-IsQueue (suc zero) = record {
  links = (refl, omega arith, refl, (refl, omega arith, refl, refl));
  tail = refl;
  distinct = ((omega arith, tt), (tt, tt));
  class = (refl, (refl, tt));
  size = refl;
}
behind-IsQueue (suc (suc c)) = record {
  links = refl;
  tail = refl;
  distinct = tt;
  class = tt;
  size = refl;
}

behind-IsLru : IsLru is_nine behind (only_one (1 ∷ 9 ∷ []))
behind-IsLru = record { each = behind-IsQueue; apart = only_one-Off (1 ∷ 9 ∷ []) }

ahead-IsQueue : (c : ℕ) → IsQueue is_nine ahead c (only_one (9 ∷ 1 ∷ []) c)
ahead-IsQueue zero = record { links = refl; tail = refl; distinct = tt; class = tt; size = refl }
ahead-IsQueue (suc zero) = record {
  links = (refl, omega arith, refl, (refl, omega arith, refl, refl));
  tail = refl;
  distinct = ((omega arith, tt), (tt, tt));
  class = (refl, (refl, tt));
  size = refl;
}
ahead-IsQueue (suc (suc c)) = record {
  links = refl;
  tail = refl;
  distinct = tt;
  class = tt;
  size = refl;
}

ahead-IsLru : IsLru is_nine ahead (only_one (9 ∷ 1 ∷ []))
ahead-IsLru = record { each = ahead-IsQueue; apart = only_one-Off (9 ∷ 1 ∷ []) }

crawler_crawl_q-passes_example : Returns (crawler_crawl_q 9 behind) λ (found, st').
    (found ≡ 1)
    × IsLru is_nine st' (put 1 ([] ++ 9 ∷ 1 ∷ []) (only_one (1 ∷ 9 ∷ [])))
    × SameContents behind.mem st'.mem
unfolding only_linked
crawler_crawl_q-passes_example =
    crawler_crawl_q-passes is_nine 9 1 behind (only_one (1 ∷ 9 ∷ [])) [] [] behind-IsLru refl refl
      refl (omega arith)

crawler_crawl_q-stops_example : Returns (crawler_crawl_q 9 ahead) λ (found, st').
    (found ≡ 0)
    × Returns (crawler_unlink_q 9 st') λ st''.
      IsLru is_nine st'' (put 1 (1 ∷ []) (only_one (9 ∷ 1 ∷ []))) × SameContents ahead.mem st''.mem
unfolding only_linked
crawler_crawl_q-stops_example =
    crawler_crawl_q-stops is_nine 9 ahead (only_one (9 ∷ 1 ∷ [])) (1 ∷ []) ahead-IsLru refl refl
      refl refl (omega arith)

-- One class of chunks of 96 bytes, two of them in a page, none of them free.
abbrev pub one_class : Slabs
one_class = record {
  slabclass = λ c. record {
    size = 96 * c;
    perslab = 2;
    slots = 0;
    sl_curr = 0;
    slab_list = [];
    list_size = 0;
    killing = 0;
    requested = 0;
  };
  mem_limit = 0;
  mem_malloced = 0;
  power_largest = 2;
  prealloc = false;
  mem_current = 0;
  mem_avail = 0;
}

slabs_clsid-Fits_example :
    ((slabs_clsid 100 one_class ≡ 0) × NoClass one_class 100)
    ⊎ Fits one_class 100 (slabs_clsid 100 one_class)
slabs_clsid-Fits_example = slabs_clsid-Fits 100 one_class (omega arith) (omega arith)
