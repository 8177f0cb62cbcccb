-- ===== src/Memcached/Tests/Items.antt =====
-- src/items.c at small inputs: an item at address 1 that is linked, found, unlinked and removed.
use mage_artifact_baseline.Common.{
  ℕ, ◌≡◌, refl, sym, ap, ◌∙◌, subst, Bool, true, false, none, some, List, [], ◌∷◌, arith, ◌==◌,
  if◌then◌else◌, Returns, inl, some-injective, none-ne-some, ◌>>=◌,
}
use mage_artifact_baseline.Memcached.Heap.{Flags, write, set_next, set_prev, prev_if}
use mage_artifact_baseline.Memcached.Lru.{put, item_link_q, ends_agree}
use mage_artifact_baseline.Memcached.Lru.Queue.{put_self}
use mage_artifact_baseline.Memcached.Assoc.{Item, assoc_insert, bucket, write_bucket, in_old}
use mage_artifact_baseline.Memcached.Assoc.Holds.{holds}
use mage_artifact_baseline.Memcached.Items.{
  Store, Settings, item_at, item_set_cas, next_cas, refcount_incr, item_ntotal, do_item_link,
  do_item_unlink, do_item_remove, do_item_get,
}
use mage_artifact_baseline.Memcached.Items.Invariant.{In, IsStore}
use mage_artifact_baseline.Memcached.Items.Linked.{IsNew}
use mage_artifact_baseline.Memcached.Items.Link.{Entered, do_item_link-Entered}
use mage_artifact_baseline.Memcached.Items.Unlink.{Gone, do_item_unlink-Gone}
use mage_artifact_baseline.Memcached.Items.Free.{do_item_remove-frees}
use mage_artifact_baseline.Memcached.Items.Lookup.{Got, IsReady, do_item_get-Got}
use mage_artifact_baseline.Memcached.Items.Roundtrip.{Stored, do_item_get-do_item_link}
use mage_artifact_baseline.Memcached.Tests.{number_keys, two_buckets, two_buckets-IsAssoc}
use mage_artifact_baseline.Memcached.Tests.Lru.{blank_item, one_class}

abbrev pub settings : Settings
settings = record {
  use_cas = true;
  oldest_live = 0;
  evict_to_free = true;
  tail_repair_time = 0;
  slab_automove = 0;
  slab_reassign = false;
  item_size_max = 1000;
  current_time = 100;
}

abbrev fresh_flags : Flags
fresh_flags = record { linked = false; with_cas = true; slabbed = false; fetched = false }

-- A store with nothing in it, and items at addresses 1 and 2 that their caller holds, under key 5.
abbrev pub start : Store ℕ
start = record {
  lru = record {
    mem = λ p.
        if p == 1
        then record blank_item {
          slabs_clsid = 1;
          key = 5;
          nkey = 1;
          nbytes = 10;
          refcount = 1;
          it_flags = fresh_flags;
        }
        else if p == 2
        then record blank_item {
          slabs_clsid = 1;
          key = 5;
          nkey = 1;
          nbytes = 8;
          refcount = 1;
          cas = 9;
          it_flags = fresh_flags;
        }
        else blank_item;
    heads = λ c. 0;
    tails = λ c. 0;
    sizes = λ c. 0;
  };
  slabs = one_class;
  assoc = two_buckets;
  curr_bytes = 0;
  curr_items = 0;
  total_items = 0;
  cas_id = 0;
  itemstats = λ c. record {
    evicted = 0;
    evicted_nonzero = 0;
    evicted_time = 0;
    reclaimed = 0;
    outofmemory = 0;
    tailrepairs = 0;
    expired_unfetched = 0;
    evicted_unfetched = 0;
    crawler_reclaimed = 0;
    lrutail_reflocked = 0;
  };
  rebal = record {
    slab_start = 0;
    slab_end = 0;
    slab_pos = 0;
    s_clsid = 0;
    d_clsid = 0;
    busy_items = 0;
    done = false;
    signal = 0;
  };
  cur = 0;
}

abbrev pub no_crawler : ℕ → Bool
no_crawler p = false

abbrev pub nothing : ℕ → List ℕ
nothing c = []

pub start-IsStore : IsStore no_crawler start nothing nothing
start-IsStore = record {
  lru = record {
    each = λ c. record { links = refl; tail = refl; distinct = tt; class = tt; size = refl };
    apart = λ c d other. tt;
  };
  assoc = two_buckets-IsAssoc.0;
  queued = λ c p i real. elim i [ ];
  found = λ k e h. absurd (none-ne-some (sym (two_buckets-IsAssoc.1 k) ∙ h));
  free = λ c class. record { links = refl; distinct = tt; count = refl; free = tt };
  free_queue = λ c d. tt;
  free_free = λ c d other. tt;
}

pub start-IsNew : IsNew no_crawler start nothing nothing 1
start-IsNew = record {
  some_item = omega arith;
  real = refl;
  unlinked = refl;
  used = refl;
  class = refl;
  small = omega arith;
  no_queue = λ c. tt;
  no_chunk = λ c. tt;
  absent = two_buckets-IsAssoc.1 5;
}

do_item_link-Entered_example :
    Returns (do_item_link settings 1 5 start) (Entered no_crawler settings start 1 nothing nothing)
do_item_link-Entered_example =
    do_item_link-Entered no_crawler settings 1 start nothing nothing start-IsStore start-IsNew
      (omega arith) (omega arith)

do_item_remove-frees_example : Returns (do_item_remove 1 start) λ st'.
    IsStore no_crawler st' nothing (put 1 (1 ∷ []) nothing)
    × (st'.assoc ≡ start.assoc)
    × ((item_at st' 1).slabs_clsid ≡ 0)
do_item_remove-frees_example =
    do_item_remove-frees no_crawler start nothing nothing 1 start-IsStore
      record {
        some_item = omega arith;
        unlinked = refl;
        used = refl;
        count = refl;
        class = refl;
        no_queue = λ c. tt;
        no_chunk = λ c. tt;
      }
      (omega arith)

-- The store after the link.
abbrev pub linked : Store ℕ
linked = elim (do_item_link settings 1 5 start) [ none ↦ start | some st ↦ st ]

pub linked-Entered : Entered no_crawler settings start 1 nothing nothing linked
linked-Entered =
    let (st, e, p) =
      do_item_link-Entered no_crawler settings 1 start nothing nothing start-IsStore start-IsNew
        (omega arith) (omega arith) in
    subst (Entered no_crawler settings start 1 nothing nothing)
      (sym (ap (λ o. elim o [ none ↦ start | some st ↦ st ]) e)) p

unfoldable pub queue : ℕ → List ℕ
queue = put 1 (1 ∷ nothing 1) nothing

pub linked_facts :
    ((item_at linked 1).slabs_clsid ≡ 1)
    × ((item_at linked 1).refcount ≡ 2)
    × ((item_at linked 1).key ≡ 5)
    × (linked.assoc.hash_items ≡ 1)
unfolding do_item_link assoc_insert bucket write_bucket in_old item_link_q ends_agree write put
    item_set_cas next_cas refcount_incr item_ntotal set_next set_prev prev_if
linked_facts = (refl, refl, refl, refl)

pub linked-place : In 1 (queue (item_at linked 1).slabs_clsid)
unfolding queue
linked-place =
    subst (λ c. In 1 (queue c)) (sym linked_facts.0)
      (subst (In 1) (sym (put_self 1 (1 ∷ []) nothing)) (inl refl))

do_item_unlink-Gone_example :
    Returns
      (do_item_unlink 1 (item_at linked 1).key linked)
      (Gone no_crawler linked 1 queue nothing)
unfolding queue
do_item_unlink-Gone_example =
    do_item_unlink-Gone no_crawler 1 linked queue nothing linked-Entered.store linked-place refl
      (omega (arith, linked_facts.1)) (omega (arith, linked_facts.1))
      (omega (arith, linked_facts.3))

pub linked-found :
    (e : Item ℕ ℕ) → holds linked.assoc 5 ≡ some e → record { key = 5; value = 1 } ≡ e
linked-found e h = some-injective (sym (linked-Entered.table 5) ∙ h)

pub linked-IsReady :
    (e : Item ℕ ℕ) → holds linked.assoc 5 ≡ some e → IsReady no_crawler settings linked nothing e
linked-IsReady e h = subst (IsReady no_crawler settings linked nothing) (linked-found e h) record {
  held = omega (arith, linked_facts.1);
  small = omega (arith, linked_facts.1);
  room = omega arith;
}

do_item_get-Got_example :
    Returns (do_item_get settings 5 5 linked) (Got no_crawler settings linked 5 queue nothing)
unfolding queue
do_item_get-Got_example =
    do_item_get-Got no_crawler settings linked 5 queue nothing linked-Entered.store linked-IsReady
      (omega (arith, linked_facts.3))

do_item_get-do_item_link_example :
    Returns
      (do_item_link settings 1 5 start >>= do_item_get settings 5 5)
      (Stored no_crawler settings 1 start nothing nothing)
do_item_get-do_item_link_example =
    do_item_get-do_item_link no_crawler settings 1 start nothing nothing start-IsStore start-IsNew
      record { later = inl refl; no_flush = omega arith; stays = refl } (omega arith) (omega arith)
      (omega arith)
