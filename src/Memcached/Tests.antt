-- ===== src/Memcached/Tests.antt =====
-- src/assoc.c at small inputs: keys are numbers that hash to themselves, in a table of 2 buckets.
pub mod Cache
pub mod Lru
pub mod Items
pub mod Commands
pub mod Crawler
pub mod Conns
use mage_artifact_baseline.Common.{
  ℕ, ◌+◌, ◌≡◌, ◌↔◌, refl, true, false, none, some, List, [], ◌∷◌, arith, ◌==◌, ==_iff, Returns,
  zero, some-injective, suc, ap, subst, get_elem?,
}
use mage_artifact_baseline.Memcached.Assoc.{
  Item, ItemKeys, Assoc, assoc_init, assoc_insert, assoc_expand, assoc_find, assoc_delete,
  bulk_move, in_old, chain_find,
}
use mage_artifact_baseline.Memcached.Assoc.Table.{IsChain, find_in}
use mage_artifact_baseline.Memcached.Assoc.Holds.{IsAssoc, holds, update, Holds}
use mage_artifact_baseline.Memcached.Assoc.Find.{OccursIn, assoc_find-Occurs}
use mage_artifact_baseline.Memcached.Assoc.Updates.{assoc_insert-Holds, assoc_delete-Holds}
use mage_artifact_baseline.Memcached.Assoc.Expansion.{assoc_expand-Holds}
use mage_artifact_baseline.Memcached.Assoc.BulkMove.{bulk_move-Holds, bulk_move-ends}
use mage_artifact_baseline.Memcached.Assoc.Events.{
  Event, insert, delete, move, finish, expand, run_events, spec_events,
}
use mage_artifact_baseline.Memcached.Assoc.Runs.{run_events-refines, assoc_init-IsAssoc}

instance abbrev number_keys : ItemKeys ℕ
number_keys = record {
  same = λ a b. a == b;
  hash = λ a. a;
  same_eq = λ a b. (==_iff a b).0;
  same_refl = λ a. (==_iff a a).1 refl;
}

abbrev item : ℕ → Item ℕ ℕ
item k = record { key = k; value = k + 100 }

-- Keys 0 and 2 hang in one bucket, and the table grows between two rounds of calls.
abbrev events : List (Event ℕ ℕ)
events =
    insert (item 0)
    ∷ insert (item 2)
    ∷ insert (item 3)
    ∷ expand true
    ∷ insert (item 4)
    ∷ move 1
    ∷ delete 2
    ∷ move 1
    ∷ finish
    ∷ insert (item 2)
    ∷ []

abbrev two_buckets : Assoc (Item ℕ ℕ)
two_buckets = record {
  hashpower = 1;
  primary_hashtable = [] ∷ [] ∷ [];
  old_hashtable = [];
  hash_items = 0;
  expanding = false;
  started_expanding = false;
  expand_bucket = 0;
}

two_buckets-IsAssoc :
    IsAssoc two_buckets × ((k : ℕ) → holds two_buckets k ≡ none) × (two_buckets.hash_items ≡ 0)
unfolding assoc_init
two_buckets-IsAssoc = assoc_init-IsAssoc 1 (omega arith)

run_events-refines_example :
    Returns
      (run_events events two_buckets)
      λ st'. IsAssoc st' × ((k : ℕ) → assoc_find k k st' ≡ some (spec_events events (λ k. none) k))
run_events-refines_example =
    run_events-refines events two_buckets (λ k. none) two_buckets-IsAssoc.0 two_buckets-IsAssoc.1
      (refl, (refl, (refl, (tt, (refl, (tt, ((item 2, refl), (tt, (tt, (refl, tt))))))))))
      (omega arith) (omega arith)

assoc_insert-Holds_example :
    Returns
      (assoc_insert (item 7) 7 two_buckets)
      (Holds (update (holds two_buckets) 7 (some (item 7))) 1 1)
assoc_insert-Holds_example =
    assoc_insert-Holds (item 7) two_buckets two_buckets-IsAssoc.0 (two_buckets-IsAssoc.1 7)
      (omega arith)

-- Three items in the two buckets.
abbrev three_items : Assoc (Item ℕ ℕ)
three_items = record two_buckets {
  primary_hashtable = (item 2 ∷ item 0 ∷ []) ∷ (item 3 ∷ []) ∷ [];
  hash_items = 3;
}

three_items-IsAssoc : IsAssoc three_items
unfolding chain_find
three_items-IsAssoc = record {
  primary = record { size = refl; chains = chains };
  phase = refl;
  items = omega arith;
  power = omega arith;
}
  where
    chains :
        (b : ℕ) (c : List (Item ℕ ℕ))
        → get_elem? three_items.primary_hashtable b ≡ some c
        → IsChain 2 b c
    chains zero c at = subst (IsChain 2 0) (some-injective at) (refl, refl, (refl, refl, tt))
    chains (suc zero) c at = subst (IsChain 2 1) (some-injective at) (refl, refl, tt)
    chains (suc (suc b)) c at = ground (arith, at)

assoc_delete-Holds_example :
    Returns (assoc_delete 0 0 three_items) (Holds (update (holds three_items) 0 none) 2 1)
unfolding holds in_old find_in chain_find
assoc_delete-Holds_example =
    assoc_delete-Holds 0 three_items {x = item 0} three_items-IsAssoc refl (omega arith)

-- The same table at the start of an expansion.
abbrev growing : Assoc (Item ℕ ℕ)
growing = record three_items {
  hashpower = 2;
  old_hashtable = three_items.primary_hashtable;
  primary_hashtable = [] ∷ [] ∷ [] ∷ [] ∷ [];
  expanding = true;
}

growing-Holds : Holds (holds three_items) 3 2 growing
unfolding assoc_expand
growing-Holds = assoc_expand-Holds true three_items three_items-IsAssoc refl (omega arith)

-- Before the first bucket has moved, all items hang in the old table.
assoc_find-Occurs_example :
    Returns
      (assoc_find 3 3 growing)
      λ found. (it : Item ℕ ℕ) → (found ≡ some it) ↔ ((it.key ≡ 3) × OccursIn it growing)
assoc_find-Occurs_example = assoc_find-Occurs 3 growing growing-Holds.inv

bulk_move-Holds_example : Returns (bulk_move 1 growing) (Holds (holds growing) 3 2)
bulk_move-Holds_example = bulk_move-Holds 1 growing growing-Holds.inv (omega arith)

bulk_move-ends_example : Returns (bulk_move 5 growing) λ st'. st'.expanding ≡ false
bulk_move-ends_example = bulk_move-ends 5 growing growing-Holds.inv (omega arith) (omega arith)
