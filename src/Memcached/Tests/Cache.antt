-- ===== src/Memcached/Tests/Cache.antt =====
-- src/cache.c at small inputs: one block in the pool, one with a caller.
use mage_artifact_baseline.Common.{
  ℕ, ◌+◌, ◌≡◌, refl, true, none, some, [], ◌∷◌, arith, ◌==◌, if◌then◌else◌,
}
use mage_artifact_baseline.Memcached.Cache.{Pool, cache_alloc}
use mage_artifact_baseline.Memcached.Cache.Owned.{Owned, Allocated, cache_alloc-Allocated}

abbrev pool : Pool
pool = record {
  cache = record {
    ptr = 100 ∷ [];
    bufsize = 48;
    freetotal = 1;
    constructor = none;
    destructor = true;
  };
  before = λ b. true;
  after = λ b. true;
  effects = [];
}

pool-Owned : Owned (200 ∷ []) pool
pool-Owned = record {
  once = λ b. ground arith;
  zones = λ b held. (refl, refl);
  room = omega arith;
  some_room = omega arith;
}

cache_alloc-Allocated_example : Allocated (200 ∷ []) (cache_alloc (some 300) pool)
cache_alloc-Allocated_example =
    cache_alloc-Allocated (some 300) (200 ∷ []) pool pool-Owned (λ b e. fresh b (some_eq e))
  where
    some_eq : {b : ℕ} → some 300 ≡ some b → b ≡ 300
    some_eq e = ground (arith, e)

    fresh :
        (b : ℕ) → b ≡ 300 → (if b == 100 then 1 else 0) + 0 + ((if b == 200 then 1 else 0) + 0) ≡ 0
    fresh b e = ground (arith, e)
