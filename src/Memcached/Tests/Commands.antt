-- ===== src/Memcached/Tests/Commands.antt =====
-- src/memcached.c at small inputs: the storage commands on a store that holds one item, or none.
use mathlib.Core.Bool.{not}
use mage_artifact_baseline.Common.{
  ℕ, List, [], ◌∷◌, ◌≢◌, subst, ◌≡◌, refl, ap, ◌∙◌, true, false, none, some, arith, ◌==◌, Returns,
}
use mage_artifact_baseline.Memcached.Heap.{write, set_next, set_prev, prev_if}
use mage_artifact_baseline.Memcached.Lru.{put, item_link_q, ends_agree}
use mage_artifact_baseline.Memcached.Assoc.{assoc_insert, bucket, write_bucket, in_old}
use mage_artifact_baseline.Memcached.Assoc.Holds.{holds}
use mage_artifact_baseline.Memcached.Items.{
  item_at, item_get_cas, item_set_cas, next_cas, refcount_incr, item_ntotal, is_dead, do_item_link,
}
use mage_artifact_baseline.Memcached.Items.Lookup.{is_dropped}
use mage_artifact_baseline.Memcached.Commands.{Library, nread_set, nread_append, do_store_item}
use mage_artifact_baseline.Memcached.Commands.Absent.{Without, do_store_item-Without}
use mage_artifact_baseline.Memcached.Commands.Mismatch.{Clashes, do_store_item-Clashes}
use mage_artifact_baseline.Memcached.Tokens.{
  tokenize_command, join_words, tokenize_command-join_words,
}
use mage_artifact_baseline.Memcached.Tests.{number_keys}
use mage_artifact_baseline.Memcached.Tests.Items.{
  settings, start, nothing, no_crawler, linked, queue, start-IsStore, start-IsNew, linked-Entered,
  linked_facts, linked-IsReady,
}

abbrev library : Library
library = record {
  answers = record {
    malloc = none;
    realloc_ok = true;
    trylock = λ hv. true;
    rebalance_lock = true;
    suffix_len = λ flags nbytes. 6;
  };
  suffix_flags = 0;
  strtoull = λ str. record { value = 0; rest = str; moved = false; erange = false };
  fuel = 10;
}

do_store_item-Without_example :
    Returns
      (do_store_item library settings 1 nread_set 5 start)
      (Without no_crawler settings nread_set 1 start nothing nothing)
do_store_item-Without_example =
    do_store_item-Without no_crawler library settings 1 start nothing nothing start-IsStore
      start-IsNew (omega arith) (omega arith) nread_set

-- The item at address 2 has the key of the linked item, and another CAS.
second :
    ((item_at linked 2).key ≡ 5)
    × (item_get_cas (item_at linked 2) ≡ 9)
    × (item_get_cas (item_at linked 1) ≡ 1)
    × (is_dropped settings linked 1 ≡ false)
unfolding do_item_link assoc_insert bucket write_bucket in_old item_link_q ends_agree write put
    item_set_cas next_cas refcount_incr item_ntotal set_next set_prev prev_if item_get_cas is_dead
second = (refl, refl, refl, refl)

linked-holds : holds linked.assoc 5 ≡ some record { key = 5; value = 1 }
linked-holds = linked-Entered.table 5

do_store_item-Clashes_example :
    Returns
      (do_store_item library settings 2 nread_append (item_at linked 2).key linked)
      (Clashes no_crawler 1 linked queue nothing)
unfolding queue
do_store_item-Clashes_example =
    do_store_item-Clashes no_crawler library settings 2 linked queue nothing linked-Entered.store
      record { key = 5; value = 1 } (ap (holds linked.assoc) second.0 ∙ linked-holds)
      (linked-IsReady record { key = 5; value = 1 } linked-holds) (omega (arith, linked_facts.3))
      second.3 (omega arith) (omega (arith, second.1, second.2)) nread_append
      (ap (λ c. not (c == 0)) second.1)

-- "get" and "ab".
abbrev words : List (List ℕ)
words = (103 ∷ 101 ∷ 116 ∷ []) ∷ (97 ∷ 98 ∷ []) ∷ []

some_letter : (c : ℕ) (cs : List ℕ) → (c ∷ cs) ≢ []
some_letter c cs = λ e. subst (λ l. elim l as (λ l. Type 0) [ [] ↦ ⊥ | x ∷ xs ↦ Unit ]) e tt

tokenize_command-join_words_example : tokenize_command (join_words words) 24 ≡ some (words, none)
tokenize_command-join_words_example =
    tokenize_command-join_words words 24
      (
        some_letter 103 (101 ∷ 116 ∷ []),
        (omega arith, (omega arith, (omega arith, tt))),
        (some_letter 97 (98 ∷ []), (omega arith, (omega arith, tt)), tt),
      )
      (omega arith) (omega arith)
