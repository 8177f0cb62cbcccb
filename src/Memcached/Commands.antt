-- ===== src/Memcached/Commands.antt =====
-- src/memcached.c: what the storage commands and the arithmetic commands do to the store.
pub mod Delta
pub mod Absent
pub mod Mismatch
use mathlib.Core.Bool.{not}
use mage_artifact_baseline.Common.{
  ℕ, zero, suc, ◌+◌, ◌-◌, ◌%◌, ◌^◌, Bool, true, false, ◌&&◌, ◌||◌, Option, none, some, List, [],
  ◌∷◌, ◌++◌, take, drop, replicate, length, leb, ltb, ◌==◌, if◌then◌else◌, ◌>>=◌, ◌>>◌, assert,
  u64_mod,
}
use mage_artifact_baseline.Memcached.Heap.{StrItem}
use mage_artifact_baseline.Memcached.Assoc.{ItemKeys}
use mage_artifact_baseline.Memcached.Util.{Scan, safe_strtoull, print_u64}
use mage_artifact_baseline.Memcached.Items.{
  Store, Settings, item_at, put_item, next_cas, item_set_cas, item_get_cas, do_item_remove,
  do_item_link, do_item_update, do_item_replace, do_item_get,
}
use mage_artifact_baseline.Memcached.Items.Alloc.{Answers, do_item_alloc}

-- NREAD_ADD and so on.
pub data Command : Type 0 where
  nread_add : Command
  nread_set : Command
  nread_replace : Command
  nread_append : Command
  nread_prepend : Command
  nread_cas : Command

-- `enum store_item_type`
pub data StoreItemType : Type 0 where
  not_stored : StoreItemType
  stored : StoreItemType
  exists : StoreItemType
  not_found : StoreItemType

-- The answer, `c->cas` where it is written, and the store.
pub record Outcome (K : Type 0) : Type 0 where
  pub answer : StoreItemType
  pub cas : Option ℕ
  pub store : Store K

-- What the libraries answer during a call: the answers of an allocation, the flags that `strtol` or
-- `atoi` read in the suffix of the old item, and `strtoull`. `fuel` bounds the loop of `do_item_alloc`.
pub record Library : Type 0 where
  pub answers : Answers
  pub suffix_flags : ℕ
  pub strtoull : List ℕ → Scan
  pub fuel : ℕ

abbrev pub needs_old : Command → Bool
needs_old nread_add = false
needs_old nread_set = false
needs_old nread_replace = true
needs_old nread_append = true
needs_old nread_prepend = true
needs_old nread_cas = false

abbrev pub is_stored : StoreItemType → Bool
is_stored not_stored = false
is_stored stored = true
is_stored exists = false
is_stored not_found = false

module _ {K : Type 0} where
  -- `if (p != NULL) do_item_remove(p)`
  unfoldable pub release : ℕ → Store K → Option (Store K)
  unfolding do_item_remove
  release p st = if p == 0 then some st else do_item_remove p st

  -- The end of `do_store_item`: `old` and `new` are released.
  unfoldable pub finish_store : StoreItemType → ℕ → ℕ → ℕ → Store K → Option (Outcome K)
  unfolding release item_get_cas
  finish_store answer it old new st = do
    st' ← release old st
    st'' ← release new st'
    some (record {
      answer = answer;
      cas = if is_stored answer then some (item_get_cas (item_at st'' it)) else none;
      store = st'';
    })

  -- The data of both without the line end of the first. Data shorter than a line end is a fault: the
  -- copies then do not fit.
  unfoldable pub join_data : StrItem K → StrItem K → Option (List ℕ)
  join_data first second = do
    assert (leb 2 first.nbytes && leb 2 second.nbytes)
    some (take (first.nbytes - 2) first.bytes ++ take second.nbytes second.bytes)

module _ {K : Type 0} ⦃keys : ItemKeys K⦄ where
  -- The new item takes the place of the old one, or is linked where there is none.
  unfoldable pub store_new : Settings → ℕ → ℕ → ℕ → ℕ → Store K → Option (Outcome K)
  unfolding do_item_link do_item_replace finish_store
  store_new settings it old new hv st =
      (if old == 0 then do_item_link settings it hv st else do_item_replace settings old it hv st)
      >>= finish_store stored it old new

  unfoldable pub store_cas : Settings → ℕ → ℕ → ℕ → Store K → Option (Outcome K)
  unfolding do_item_replace finish_store item_get_cas
  store_cas settings it old hv st =
      if old == 0
      then finish_store not_found it old 0 st
      else if item_get_cas (item_at st it) == item_get_cas (item_at st old)
      then (do_item_replace settings old it hv st >>= finish_store stored it old 0)
      else finish_store exists it old 0 st

  -- The new item that has the data of both.
  unfoldable pub join_items : Library → Settings → Bool → ℕ → ℕ → ℕ → Store K → Option (ℕ × Store K)
  unfolding do_item_alloc join_data
  join_items lib settings append it old hv st = do
    let a = item_at st it
    let b = item_at st old
    assert (leb 2 (a.nbytes + b.nbytes))
    (new, st') ←
        do_item_alloc lib.fuel lib.answers settings a.key a.nkey lib.suffix_flags b.exptime
          (a.nbytes + b.nbytes - 2) hv st
    let a' = item_at st' it
    let b' = item_at st' old
    let filled = join_data (if append then b' else a') (if append then a' else b')
    if new == 0
        then some (0, st')
        else (filled >>= λ bytes.
            some (new, put_item new (record (item_at st' new) { bytes = bytes }) st'))

  unfoldable pub store_joined : Library → Settings → Bool → ℕ → ℕ → ℕ → Store K → Option (Outcome K)
  unfolding join_items store_new finish_store item_get_cas
  store_joined lib settings append it old hv st =
      let cas = item_get_cas (item_at st it) in
      if not (cas == 0) && not (cas == item_get_cas (item_at st old))
      then finish_store exists it old 0 st
      else (join_items lib settings append it old hv st >>= λ (new, st').
          if new == 0
          then finish_store not_stored it old 0 st'
          else store_new settings new old new hv st')

  -- What the command does after the lookup.
  unfoldable pub store_found :
      Library → Settings → Command → ℕ → ℕ → ℕ → Store K → Option (Outcome K)
  unfolding store_new store_cas store_joined do_item_update finish_store
  store_found lib settings nread_add it old hv st =
      if old == 0
      then store_new settings it old 0 hv st
      else (do_item_update settings old st >>= finish_store not_stored it old 0)
  store_found lib settings nread_set it old hv st = store_new settings it old 0 hv st
  store_found lib settings nread_replace it old hv st =
      if old == 0 then finish_store not_stored it old 0 st else store_new settings it old 0 hv st
  store_found lib settings nread_append it old hv st =
      if old == 0
      then finish_store not_stored it old 0 st
      else store_joined lib settings true it old hv st
  store_found lib settings nread_prepend it old hv st =
      if old == 0
      then finish_store not_stored it old 0 st
      else store_joined lib settings false it old hv st
  store_found lib settings nread_cas it old hv st = store_cas settings it old hv st

  -- The counters of the worker thread are left out.
  unfoldable pub do_store_item : Library → Settings → ℕ → Command → ℕ → Store K → Option (Outcome K)
  unfolding do_item_get store_found
  do_store_item lib settings it comm hv st = do
    (old, st') ← do_item_get settings (item_at st it).key hv st
    store_found lib settings comm it old hv st'
