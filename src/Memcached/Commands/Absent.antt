-- ===== src/Memcached/Commands/Absent.antt =====
-- src/memcached.c: `do_store_item` where the key is not in the table.
use mage_artifact_baseline.Common.{
  ℕ, ◌+◌, ◌^◌, ◌<◌, ◌≡◌, refl, Bool, none, some, List, Returns, Returns-bind,
}
use mage_artifact_baseline.Memcached.Assoc.{ItemKeys}
use mage_artifact_baseline.Memcached.Items.{Store, Settings, item_at, item_get_cas, do_item_link}
use mage_artifact_baseline.Memcached.Items.Invariant.{IsStore}
use mage_artifact_baseline.Memcached.Items.Linked.{IsNew}
use mage_artifact_baseline.Memcached.Items.Link.{Entered, do_item_link-Entered}
use mage_artifact_baseline.Memcached.Items.Lookup.{do_item_get-absent}
use mage_artifact_baseline.Memcached.Commands.{
  Command, nread_add, nread_set, nread_replace, nread_append, nread_prepend, nread_cas,
  StoreItemType, not_stored, stored, not_found, Outcome, Library, release, finish_store, store_new,
  store_cas, store_found, do_store_item,
}

module _ {K : Type 0} ⦃keys : ItemKeys K⦄ (is_crawler : ℕ → Bool) where
  -- Nothing has happened.
  abbrev pub Refuses : StoreItemType → Store K → Outcome K → Type 0
  Refuses answer st out = (out.answer ≡ answer) × (out.cas ≡ none) × (out.store ≡ st)

  -- The item is in the store, and `c->cas` is its CAS.
  pub record Stores (settings : Settings) (it : ℕ) (st : Store K) (queue chunks : ℕ → List ℕ)
      (out : Outcome K) : Type 0 where
    pub answer : out.answer ≡ stored
    pub cas : out.cas ≡ some (item_get_cas (item_at out.store it))
    pub entered : Entered is_crawler settings st it queue chunks out.store

  -- What a command does where there is no item under its key.
  abbrev pub Without :
      Settings → Command → ℕ → Store K → (ℕ → List ℕ) → (ℕ → List ℕ) → Outcome K → Type 0
  Without settings nread_add it st queue chunks out = Stores settings it st queue chunks out
  Without settings nread_set it st queue chunks out = Stores settings it st queue chunks out
  Without settings nread_replace it st queue chunks out = Refuses not_stored st out
  Without settings nread_append it st queue chunks out = Refuses not_stored st out
  Without settings nread_prepend it st queue chunks out = Refuses not_stored st out
  Without settings nread_cas it st queue chunks out = Refuses not_found st out

  module _ (lib : Library) (settings : Settings) (it : ℕ) (st : Store K) (queue chunks : ℕ → List ℕ)
      (is : IsStore is_crawler st queue chunks) (new : IsNew is_crawler st queue chunks it)
      (small : (item_at st it).refcount + 1 < 2 ^ 16)
      (items : st.assoc.hash_items + 1 < 2 ^ 32) where
    stores :
        Returns
          (store_new settings it 0 0 (keys.hash (item_at st it).key) st)
          (Stores settings it st queue chunks)
    unfolding store_new finish_store release
    stores =
        Returns-bind (do_item_link settings it (keys.hash (item_at st it).key) st) _
          (do_item_link-Entered is_crawler settings it st queue chunks is new small items)
          λ st' entered. (_, refl, record { answer = refl; cas = refl; entered = entered })

    found :
        (comm : Command)
        → Returns
            (store_found lib settings comm it 0 (keys.hash (item_at st it).key) st)
            (Without settings comm it st queue chunks)
    unfolding store_found store_cas finish_store release
    found nread_add = stores
    found nread_set = stores
    found nread_replace = (_, refl, (refl, refl, refl))
    found nread_append = (_, refl, (refl, refl, refl))
    found nread_prepend = (_, refl, (refl, refl, refl))
    found nread_cas = (_, refl, (refl, refl, refl))

    -- Where the table has no item under the key, add and set store the new item and answer STORED
    -- with its CAS, replace, append and prepend answer NOT_STORED and cas answers NOT_FOUND, and
    -- these change nothing. The count of the item and that of the table must have room.
    pub do_store_item-Without :
        (comm : Command)
        → Returns
            (do_store_item lib settings it comm (keys.hash (item_at st it).key) st)
            (Without settings comm it st queue chunks)
    unfolding do_store_item
    do_store_item-Without comm =
        rw
          (do_item_get-absent is_crawler settings st (item_at st it).key queue chunks is new.absent)
          (found comm)
