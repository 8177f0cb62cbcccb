-- ===== src/Memcached/Cache/Owned.antt =====
-- src/cache.c: no buffer is in two hands at once.
use mage_artifact_baseline.Common.{
  ℕ, ◌+◌, ◌≤◌, ◌<◌, ◌≡◌, refl, sym, subst, Bool, true, false, Option, none, some, List, [], ◌∷◌,
  inl, inr, arith, ◌==◌, ==_iff, if◌then◌else◌, length, Bool-cases,
}
use mage_artifact_baseline.Memcached.Cache.{Cache, free, Pool, get_object, hand_out, cache_alloc}

-- How often a block stands in a list.
abbrev pub occurrences : ℕ → List ℕ → ℕ
occurrences b [] = 0
occurrences b (x ∷ xs) = (if b == x then 1 else 0) + occurrences b xs

-- The list without the first occurrence of a block.
abbrev pub without : ℕ → List ℕ → List ℕ
without b [] = []
without b (x ∷ xs) = if b == x then xs else x ∷ without b xs

-- The callers hold the objects of the blocks `out`: no block is there or in the pool twice, and
-- the red zones of theirs are whole.
pub record Owned (out : List ℕ) (p : Pool) : Type 0 where
  pub once : (b : ℕ) → occurrences b p.cache.ptr + occurrences b out ≤ 1
  pub zones : (b : ℕ) → 0 < occurrences b out → (p.before b ≡ true) × (p.after b ≡ true)
  pub room : length p.cache.ptr ≤ p.cache.freetotal
  pub some_room : 0 < p.cache.freetotal

-- What an allocation leaves: no object, or one that nobody holds.
abbrev pub Allocated : List ℕ → Option ℕ × Pool → Type 0
Allocated out (none, p) = Owned out p
Allocated out (some object, p) =
    (block : ℕ) × (object ≡ get_object block) × (occurrences block out ≡ 0) × Owned (block ∷ out) p

hand_out-Allocated :
    (block : ℕ) (out : List ℕ) (p : Pool)
    → Owned out p
    → occurrences block p.cache.ptr + occurrences block out ≡ 0
    → Allocated out (hand_out block p)
hand_out-Allocated block out p o fresh = (
  block,
  refl,
  omega arith,
  record {
    once = λ b. ground (arith, o.once b, fresh);
    zones = λ b held. ground (arith, o.zones b, held);
    room = o.room;
    some_room = o.some_room;
  },
)

-- A pool with other free blocks and another constructor.
abbrev with_blocks : List ℕ → Option (ℕ → ℕ) → Pool → Pool
with_blocks ptr constructor p =
    let cache : Cache = record p.cache { ptr = ptr; constructor = constructor } in
    record p { cache = cache }

from_pool :
    (block : ℕ) (blocks out : List ℕ) (c : Option (ℕ → ℕ)) (p : Pool)
    → Owned out (with_blocks (block ∷ blocks) c p)
    → Owned out (with_blocks blocks c p) × (occurrences block blocks + occurrences block out ≡ 0)
from_pool block blocks out c p o = (
  record {
    once = λ b. ground (arith, o.once b);
    zones = o.zones;
    room = omega (arith, o.room);
    some_room = o.some_room;
  },
  ground (arith, o.once block, (==_iff block block).1 refl),
)

-- An allocation leaves every object with its holder, and hands out one that nobody holds, with
-- whole red zones, or none. Of `malloc` this asks that it returns no block that is in use.
pub cache_alloc-Allocated :
    (new : Option ℕ) (out : List ℕ) (p : Pool)
    → Owned out p
    → ((b : ℕ) → new ≡ some b → occurrences b p.cache.ptr + occurrences b out ≡ 0)
    → Allocated out (cache_alloc new p)
unfolding cache_alloc
cache_alloc-Allocated new out p = go p.cache.ptr new p.cache.constructor
  where
    go :
        (ptr : List ℕ) (new : Option ℕ) (c : Option (ℕ → ℕ))
        → Owned out (with_blocks ptr c p)
        → ((b : ℕ) → new ≡ some b → occurrences b ptr + occurrences b out ≡ 0)
        → Allocated out (cache_alloc new (with_blocks ptr c p))
    go (block ∷ blocks) new c o fresh =
        let (o', unused) = from_pool block blocks out c p o in
        hand_out-Allocated block out (with_blocks blocks c p) o' unused
    go [] none c o fresh = o
    go [] (some block) none o fresh =
        hand_out-Allocated block out (with_blocks [] none p) o (fresh block refl)
    go [] (some block) (some construct) o fresh =
        let p' = with_blocks [] (some construct) p in
        let Checked = λ (ok : Bool). Allocated out (elim ok as (λ _. Option ℕ × Pool) [
          | true ↦ hand_out block p'
          | false ↦ (none, record p' { effects = free block ∷ p'.effects })
        ]) in
        elim (Bool-cases (construct (get_object block) == 0)) [
          | inl ok ↦ subst Checked (sym ok) (hand_out-Allocated block out p' o (fresh block refl))
          | inr refused ↦
              subst Checked (sym refused)
                (record { once = o.once; zones = o.zones; room = o.room; some_room = o.some_room })
        ]
