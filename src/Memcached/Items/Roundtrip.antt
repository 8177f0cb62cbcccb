-- ===== src/Memcached/Items/Roundtrip.antt =====
-- src/items.c: an item that has just been linked is found.
use mage_artifact_baseline.Common.{
  some-injective, none-ne-some, ℕ, ◌+◌, ◌^◌, ◌<◌, ◌≡◌, ◌≢◌, ◌⊎◌, sym, ap, ◌∙◌, subst, Bool, true,
  false, Option, some, List, ◌∷◌, arith, inl, inr, ◌>>=◌, length, Returns, Returns-bind,
}
use mage_artifact_baseline.Memcached.Heap.{StrItem}
use mage_artifact_baseline.Memcached.Lru.{put}
use mage_artifact_baseline.Memcached.Assoc.{Item, ItemKeys}
use mage_artifact_baseline.Memcached.Assoc.Holds.{holds, update}
use mage_artifact_baseline.Memcached.Items.{
  Settings, Store, item_at, is_dead, in_moving_page, do_item_link, do_item_get,
}
use mage_artifact_baseline.Memcached.Items.Invariant.{IsStore, entry_of}
use mage_artifact_baseline.Memcached.Items.Linked.{IsNew}
use mage_artifact_baseline.Memcached.Items.Link.{Entered, do_item_link-Entered}
use mage_artifact_baseline.Memcached.Items.Lookup.{Got, IsReady, is_dropped, do_item_get-Got}

module _ {K : Type 0} ⦃keys : ItemKeys K⦄ where
  update_self : (f : K → Option (Item K ℕ)) (k : K) (v : Option (Item K ℕ)) → update f k v k ≡ v
  update_self f k v = rw (keys.same_refl k)

-- An item that is stored now and will still be there: it does not expire at once, no flush is at
-- this second, and its page is not being moved.
pub record Lasts {K : Type 0} (settings : Settings) (st : Store K) (p : ℕ) : Type 0 where
  pub later : ((item_at st p).exptime ≡ 0) ⊎ (settings.current_time < (item_at st p).exptime)
  pub no_flush : settings.current_time ≢ settings.oldest_live
  pub stays : in_moving_page p st.rebal ≡ false

module _ {K : Type 0} ⦃keys : ItemKeys K⦄ (is_crawler : ℕ → Bool) (settings : Settings) where
  -- What the caller of both has.
  abbrev pub Stored : ℕ → Store K → (ℕ → List ℕ) → (ℕ → List ℕ) → ℕ × Store K → Type 0
  Stored p st queue chunks (found, st') =
      (found ≡ p)
      × IsStore is_crawler st'
          (put (item_at st p).slabs_clsid (p ∷ queue (item_at st p).slabs_clsid) queue) chunks
      × ((item_at st' p).refcount ≡ (item_at st p).refcount + 2)
      × ((item_at st' p).it_flags.fetched ≡ true)

  module _ (p : ℕ) (st : Store K) (queue chunks : ℕ → List ℕ)
      (is : IsStore is_crawler st queue chunks) (new : IsNew is_crawler st queue chunks p)
      (lasts : Lasts settings st p) (small : (item_at st p).refcount + 2 < 2 ^ 16)
      (items : st.assoc.hash_items + 1 < 2 ^ 32)
      (room : length (chunks (item_at st p).slabs_clsid) + 1 < 2 ^ 32) where
    abbrev it : StrItem K
    it = item_at st p

    abbrev queue' : ℕ → List ℕ
    queue' = put it.slabs_clsid (p ∷ queue it.slabs_clsid) queue

    module _ (st' : Store K) (entered : Entered is_crawler settings st p queue chunks st') where
      entry_found : holds st'.assoc it.key ≡ some (entry_of is_crawler st p)
      entry_found =
          entered.table it.key
          ∙ update_self (holds st.assoc) it.key (some (entry_of is_crawler st p))

      ready :
          (e : Item K ℕ)
          → holds st'.assoc it.key ≡ some e
          → IsReady is_crawler settings st' chunks e
      ready e found =
          subst (IsReady is_crawler settings st' chunks) (some-injective (sym entry_found ∙ found))
            record {
              held = omega (arith, entered.count);
              small = omega (arith, entered.count, small);
              room = subst (λ c. length (chunks c) + 1 < 2 ^ 32) (sym entered.class) room;
            }

      alive : is_dropped settings st' p ≡ false
      unfolding is_dead
      alive =
          let here : in_moving_page p st'.rebal ≡ false =
            ap (in_moving_page p) entered.rebal ∙ lasts.stays in
          rw here (ground (arith, entered.time, entered.exptime, lasts.later, lasts.no_flush))

      -- The three answers of the lookup, two of which are out.
      stored :
          (r : ℕ × Store K)
          → Got is_crawler settings st' it.key queue' chunks r
          → Stored p st queue chunks r
      stored (found, st'') (inl (absent, nothing, same)) =
          absurd (none-ne-some (sym absent ∙ entry_found))
      stored (found, st'') (inr (inl h)) =
          let e : h.entry ≡ entry_of is_crawler st p = some-injective (sym h.found ∙ entry_found) in
          let at : found ≡ p = h.address ∙ ap (λ i. i.value) e in
          (
            at,
            h.store,
            omega (
              arith,
              ap (λ a. (item_at st'' a).refcount) at,
              ap (λ a. (item_at st' a).refcount) at,
              h.count,
              entered.count,
            ),
            ap (λ a. (item_at st'' a).it_flags.fetched) (sym at) ∙ h.fetched,
          )
      stored (found, st'') (inr (inr d)) =
          let e : d.entry ≡ entry_of is_crawler st p = some-injective (sym d.found ∙ entry_found) in
          let live : is_dropped settings st' d.entry.value ≡ false =
            ap (λ i. is_dropped settings st' i.value) e ∙ alive in
          ground (arith, live, d.dead)

    -- A new item that is linked and then looked up under its key is the answer of the lookup, with
    -- one reference more for the table and one for the caller, and the mark that it was fetched. The
    -- item must not expire at once, no flush may be at this second, its page may not be moving, and
    -- the counters must have room.
    pub do_item_get-do_item_link :
        Returns
          (do_item_link settings p (keys.hash it.key) st
            >>= do_item_get settings it.key (keys.hash it.key))
          (Stored p st queue chunks)
    do_item_get-do_item_link =
        Returns-bind (do_item_link settings p (keys.hash it.key) st) _
          (do_item_link-Entered is_crawler settings p st queue chunks is new (omega (arith, small))
            items)
          λ st' entered.
            let (r, e, got) =
              do_item_get-Got is_crawler settings st' it.key queue' chunks entered.store
                (ready st' entered) (omega (arith, entered.items, items)) in
            (r, e, stored st' entered r got)
