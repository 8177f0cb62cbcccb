-- ===== src/Memcached/Cache.antt =====
-- src/cache.c: a pool of buffers of one size, in a build with NDEBUG unset, where a red zone of 8
-- bytes stands on each side of an object.
pub mod Owned
use mage_artifact_baseline.Common.{
  ℕ, zero, suc, ◌+◌, ◌-◌, ◌*◌, Bool, true, false, Option, none, some, List, [], ◌∷◌, ltb, ◌==◌,
  if◌then◌else◌, ◌>>=◌, ◌>>◌, assert, length,
}

-- `cache_t`. `ptr` is the first `freecurr` slots of the array, the last one first: blocks by their
-- address, which is that of the red zone in front.
pub record Cache : Type 0 where
  pub ptr : List ℕ
  pub bufsize : ℕ
  pub freetotal : ℕ
  pub constructor : Option (ℕ → ℕ)
  pub destructor : Bool

abbrev pub initial_pool_size : ℕ
initial_pool_size = 64

-- What happens outside of the pool: the destructor is called on an address, and a block is freed.
pub data Effect : Type 0 where
  destruct : ℕ → Effect
  free : ℕ → Effect

-- The state with the memory: whether the red zones of a block in front and behind hold the
-- pattern, and what has happened so far, the last first.
pub record Pool : Type 0 where
  pub cache : Cache
  pub before : ℕ → Bool
  pub after : ℕ → Bool
  pub effects : List Effect

-- `pre + 1`
abbrev pub get_object : ℕ → ℕ
get_object pre = pre + 8

unfoldable pub cache_create : ℕ → Option (ℕ → ℕ) → Bool → Cache
cache_create bufsize constructor destructor = record {
  ptr = [];
  bufsize = bufsize + 2 * 8;
  freetotal = initial_pool_size;
  constructor = constructor;
  destructor = destructor;
}

abbrev pub mark : (ℕ → Bool) → ℕ → ℕ → Bool
mark zones block b = if b == block then true else zones b

-- Both red zones of the block get the pattern, and the object goes to the caller.
abbrev pub hand_out : ℕ → Pool → Option ℕ × Pool
hand_out block p =
    (some (get_object block), record p { before = mark p.before block; after = mark p.after block })

-- `new` is what `malloc` returns, if it is called. An object that the constructor refuses is freed
-- again.
unfoldable pub cache_alloc : Option ℕ → Pool → Option ℕ × Pool
cache_alloc new p = elim (p.cache.ptr) [
  | block ∷ blocks ↦
      let cache : Cache = record p.cache { ptr = blocks } in
      hand_out block (record p { cache = cache })
  | [] ↦ elim new [
    | none ↦ (none, p)
    | some block ↦ elim (p.cache.constructor) [
      | none ↦ hand_out block p
      | some construct ↦ elim (construct (get_object block) == 0) [
        | true ↦ hand_out block p
        | false ↦ (none, record p { effects = free block ∷ p.effects })
      ]
    ]
  ]
]

abbrev pub keep : ℕ → ℕ → Pool → Pool
keep block freetotal p =
    let cache : Cache = record p.cache { ptr = block ∷ p.cache.ptr; freetotal = freetotal } in
    record p { cache = cache }

-- A red zone without the pattern raises SIGABRT. The array of free blocks doubles when it is full,
-- and where `realloc` fails, the block is freed. The destructor gets the address of the block then,
-- not that of the object.
unfoldable pub cache_free : Bool → ℕ → Pool → Option Pool
cache_free realloc_ok ptr p = do
  assert (ltb 7 ptr)
  let block = ptr - 8
  assert (p.after block)
  assert (p.before block)
  some (
      if ltb (length p.cache.ptr) p.cache.freetotal
      then keep block p.cache.freetotal p
      else if realloc_ok
      then keep block (p.cache.freetotal * 2) p
      else if p.cache.destructor
      then record p { effects = free block ∷ destruct block ∷ p.effects }
      else record p { effects = free block ∷ p.effects })

-- The free blocks, from the last slot on.
unfoldable pub destroy_blocks : Bool → List ℕ → List Effect → List Effect
destroy_blocks destructor [] effects = effects
destroy_blocks destructor (block ∷ blocks) effects =
    destroy_blocks destructor blocks
      (free block ∷ (if destructor then destruct (get_object block) ∷ effects else effects))

unfoldable pub cache_destroy : Pool → List Effect
cache_destroy p = destroy_blocks p.cache.destructor p.cache.ptr p.effects
