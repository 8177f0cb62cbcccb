-- ===== src/Memcached/Assoc.antt =====
-- src/assoc.c: the hash table of items, which grows while it is in use.
pub mod Table
pub mod Holds
pub mod Find
pub mod Updates
pub mod Expansion
pub mod BulkMove
pub mod Events
pub mod Runs
use mage_artifact_baseline.Common.{
  ℕ, zero, suc, ◌+◌, ◌-◌, ◌*◌, ◌/◌, ◌%◌, ◌^◌, ◌≡◌, Bool, true, false, ◌&&◌, Option, none, some,
  List, [], ◌∷◌, leb, ltb, ◌==◌, if◌then◌else◌, ◌>>=◌, ◌>>◌, assert, get_elem?, set, replicate,
  u32_mod,
}

-- An item: `nkey` bytes of key, and the rest, which the table does not read.
pub record Item (K V : Type 0) : Type 0 where
  pub key : K
  pub value : V

-- Of keys the table uses the comparison of `nkey` and of the bytes (`memcmp`), and `hash()` of
-- hash.c, which the build chooses.
pub record ItemKeys (K : Type 0) : Type 0 where
  pub same : K → K → Bool
  pub hash : K → ℕ
  pub same_eq : (a b : K) → same a b ≡ true → a ≡ b
  pub same_refl : (a : K) → same a a ≡ true

abbrev pub hashsize : ℕ → ℕ
hashsize n = 2 ^ n

-- The file's static variables. A bucket is the chain of items linked by `h_next`.
pub record Assoc (I : Type 0) : Type 0 where
  pub hashpower : ℕ
  pub primary_hashtable : List (List I)
  pub old_hashtable : List (List I)
  pub hash_items : ℕ
  pub expanding : Bool
  pub started_expanding : Bool
  pub expand_bucket : ℕ

abbrev pub hashpower_default : ℕ
hashpower_default = 16

-- The first element that satisfies the test, and how many stand before it.
module _ {K V : Type 0} ⦃keys : ItemKeys K⦄ where
  -- The walk along a chain in `assoc_find`.
  unfoldable pub chain_find : K → List (Item K V) → Option (Item K V)
  chain_find key [] = none
  chain_find key (it ∷ its) = if keys.same key it.key then some it else chain_find key its

  -- The walk in `_hashitem_before`: the number of links passed.
  unfoldable pub chain_before : K → List (Item K V) → ℕ
  chain_before key [] = 0
  chain_before key (it ∷ its) = if keys.same key it.key then 0 else suc (chain_before key its)

module _ {I : Type 0} where
  -- `*before = (*before)->h_next`; none where `*before` is NULL.
  unfoldable pub unlink : ℕ → List I → Option (List I)
  unlink n [] = none
  unlink zero (it ∷ its) = some its
  unlink (suc n) (it ∷ its) = unlink n its >>= λ rest. some (it ∷ rest)

  unfoldable pub assoc_init : ℕ → Assoc I
  assoc_init hashtable_init =
      let hashpower = if hashtable_init == 0 then hashpower_default else hashtable_init in
      record {
        hashpower = hashpower;
        primary_hashtable = replicate (hashsize hashpower) [];
        old_hashtable = [];
        hash_items = 0;
        expanding = false;
        started_expanding = false;
        expand_bucket = 0;
      }

  -- `expanding && (oldbucket = (hv & hashmask(hashpower - 1))) >= expand_bucket`
  unfoldable pub in_old : Assoc I → ℕ → Bool
  in_old st hv = st.expanding && leb st.expand_bucket (hv % hashsize (st.hashpower - 1))

  -- The bucket of a hash value; a bucket out of range is a fault.
  unfoldable pub bucket : Assoc I → ℕ → Option (List I)
  bucket st hv =
      if in_old st hv
      then get_elem? st.old_hashtable (hv % hashsize (st.hashpower - 1))
      else get_elem? st.primary_hashtable (hv % hashsize st.hashpower)

  -- The state after a write to that bucket.
  unfoldable pub write_bucket : Assoc I → ℕ → List I → Assoc I
  write_bucket st hv chain =
      if in_old st hv
      then record st {
        old_hashtable = set st.old_hashtable (hv % hashsize (st.hashpower - 1)) chain;
      }
      else record st {
        primary_hashtable = set st.primary_hashtable (hv % hashsize st.hashpower) chain;
      }

  -- The test for a table that is too full. `pthread_cond_signal` wakes the maintenance thread.
  unfoldable pub assoc_start_expand : Assoc I → Assoc I
  assoc_start_expand st = record st { started_expanding = true }

  unfoldable pub assoc_insert : I → ℕ → Assoc I → Option (Assoc I)
  assoc_insert it hv st = do
    chain ← bucket st hv
    let st' = write_bucket st hv (it ∷ chain)
    let st'' = record st' { hash_items = (st.hash_items + 1) % u32_mod }
    some (
        if st.expanding
        then st''
        else if ltb (hashsize st.hashpower * 3 / 2) st''.hash_items
        then assoc_start_expand st''
        else st'')

  -- `calloc` may fail, and then the table stays as it is.
  unfoldable pub assoc_expand : Bool → Assoc I → Assoc I
  assoc_expand calloc_ok st =
      if calloc_ok
      then record st {
        old_hashtable = st.primary_hashtable;
        primary_hashtable = replicate (hashsize (st.hashpower + 1)) [];
        hashpower = st.hashpower + 1;
        expanding = true;
        expand_bucket = 0;
      }
      else st

module _ {K V : Type 0} ⦃keys : ItemKeys K⦄ where
  unfoldable pub assoc_find : K → ℕ → Assoc (Item K V) → Option (Option (Item K V))
  assoc_find key hv st = bucket st hv >>= λ chain. some (chain_find key chain)

  -- The assertion at the end fails where the key is not in the table.
  unfoldable pub assoc_delete : K → ℕ → Assoc (Item K V) → Option (Assoc (Item K V))
  assoc_delete key hv st = do
    chain ← bucket st hv
    chain' ← unlink (chain_before key chain) chain
    some (record (write_bucket st hv chain') {
      hash_items = (st.hash_items + u32_mod - 1) % u32_mod;
    })

  -- The inner loop of the maintenance thread: each item of the old bucket goes to the front of its
  -- new one. `int bucket` is negative from 2 ^ 31 on, and such an index is a fault.
  unfoldable pub move_items :
      ℕ → List (Item K V) → List (List (Item K V)) → Option (List (List (Item K V)))
  move_items hashpower [] table = some table
  move_items hashpower (it ∷ its) table =
      let b = keys.hash it.key % hashsize hashpower in
      assert (ltb b (2 ^ 31)) >> get_elem? table b >>= λ chain.
      move_items hashpower its (set table b (it ∷ chain))

  -- One round of the outer loop.
  unfoldable pub move_bucket : Assoc (Item K V) → Option (Assoc (Item K V))
  move_bucket st = do
    its ← get_elem? st.old_hashtable st.expand_bucket
    primary ← move_items st.hashpower its st.primary_hashtable
    let old = set st.old_hashtable st.expand_bucket []
    let next = (st.expand_bucket + 1) % u32_mod
    some (
        if next == hashsize (st.hashpower - 1)
        then record st {
          primary_hashtable = primary;
          old_hashtable = [];
          expand_bucket = next;
          expanding = false;
        }
        else record st { primary_hashtable = primary; old_hashtable = old; expand_bucket = next })

  -- `for (ii = 0; ii < hash_bulk_move && expanding; ++ii)`, with the locks held.
  unfoldable pub bulk_move : ℕ → Assoc (Item K V) → Option (Assoc (Item K V))
  bulk_move zero st = some st
  bulk_move (suc ii) st = elim (st.expanding) [
    | true ↦ move_bucket st >>= bulk_move ii
    | false ↦ some st
  ]

module _ {I : Type 0} where
  -- The thread goes to wait only after an expansion, or where there is none.
  unfoldable pub finish_expansion : Assoc I → Assoc I
  finish_expansion st = if st.expanding then st else record st { started_expanding = false }
