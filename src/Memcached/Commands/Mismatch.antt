-- ===== src/Memcached/Commands/Mismatch.antt =====
-- src/memcached.c: `do_store_item` where the CAS of the command is not that of the item.
use mathlib.Core.Bool.{not}
use mage_artifact_baseline.Common.{
  some-injective, ℕ, ◌+◌, ◌-◌, ◌%◌, ◌^◌, ◌<◌, ◌≡◌, ◌≢◌, refl, sym, ap, ◌∙◌, subst, Bool, true,
  false, none, some, List, ◌==◌, arith, Returns, Returns-bind,
}
use mage_artifact_baseline.Memcached.Heap.Segments.{write_self, write_other}
use mage_artifact_baseline.Memcached.Assoc.{Item, ItemKeys}
use mage_artifact_baseline.Memcached.Assoc.Holds.{holds}
use mage_artifact_baseline.Memcached.Items.{
  Store, Settings, item_at, put_item, set_fetched, item_get_cas, do_item_get,
}
use mage_artifact_baseline.Memcached.Items.Invariant.{IsStore}
use mage_artifact_baseline.Memcached.Items.Unlink.{less, do_item_remove-held}
use mage_artifact_baseline.Memcached.Items.Get.{put_item-IsStore}
use mage_artifact_baseline.Memcached.Items.Lookup.{
  with_mem, Hit, IsReady, is_dropped, do_item_get-Hit,
}
use mage_artifact_baseline.Memcached.Commands.{
  Command, nread_add, nread_set, nread_replace, nread_append, nread_prepend, nread_cas, exists,
  Outcome, Library, release, finish_store, store_cas, store_joined, store_found, do_store_item,
}

-- The commands that compare the CAS of their item, `cas`, with that of the item in the store.
abbrev pub compares : Command → ℕ → Bool
compares nread_add cas = false
compares nread_set cas = false
compares nread_replace cas = false
compares nread_append cas = not (cas == 0)
compares nread_prepend cas = not (cas == 0)
compares nread_cas cas = true

module _ {K : Type 0} ⦃keys : ItemKeys K⦄ (is_crawler : ℕ → Bool) where
  -- The answer is EXISTS, and of the store only the mark of a fetch at the old item has changed: the other
  -- items and all that is not in the items stay.
  pub record Clashes (old : ℕ) (st : Store K) (queue chunks : ℕ → List ℕ) (out : Outcome K)
      : Type 0 where
    pub answer : out.answer ≡ exists
    pub cas : out.cas ≡ none
    pub store : IsStore is_crawler out.store queue chunks
    pub table : out.store.assoc ≡ st.assoc
    pub item : item_at out.store old ≡ set_fetched (item_at st old)
    pub others : (a : ℕ) → a ≢ old → item_at out.store a ≡ item_at st a
    pub rest : with_mem st.lru.mem out.store ≡ st

  module _ (lib : Library) (settings : Settings) (it : ℕ) (st : Store K) (queue chunks : ℕ → List ℕ)
      (is : IsStore is_crawler st queue chunks) (e : Item K ℕ)
      (found : holds st.assoc (item_at st it).key ≡ some e)
      (ready : IsReady is_crawler settings st chunks e) (items : st.assoc.hash_items < 2 ^ 32)
      (alive : is_dropped settings st e.value ≡ false) (other : it ≢ e.value)
      (differ : item_get_cas (item_at st it) ≢ item_get_cas (item_at st e.value)) where
    abbrev cas : ℕ
    cas = item_get_cas (item_at st it)

    module _ (st' : Store K)
        (h : Hit is_crawler settings st (item_at st it).key queue chunks e.value st') where
      cas_it : item_get_cas (item_at st' it) ≡ cas
      cas_it = ap item_get_cas (h.others it other)

      cas_old : item_get_cas (item_at st' e.value) ≡ item_get_cas (item_at st e.value)
      unfolding item_get_cas
      cas_old = ap item_get_cas h.whole

      clash : (item_get_cas (item_at st' it) == item_get_cas (item_at st' e.value)) ≡ false
      clash = ground (arith, cas_it, cas_old, differ)

      abbrev st₂ : Store K
      st₂ = put_item e.value (less (item_at st' e.value)) st'

      releases :
          finish_store exists it e.value 0 st'
          ≡ some record { answer = exists; cas = none; store = st₂ }
      unfolding finish_store release
      releases =
          let there : (e.value == 0) ≡ false = ground (arith, h.some_item) in
          rw (
            there,
            do_item_remove-held e.value st' (ap (λ n. n.it_flags.slabbed) h.whole ∙ h.used)
                (omega (arith, ready.held, h.count)) (omega (arith, ready.small, h.count)),
          )

      same : less (item_at st' e.value) ≡ set_fetched (item_at st e.value)
      same =
          let old = item_at st e.value in
          let count : ((old.refcount + 1) % 2 ^ 16 + 2 ^ 16 - 1) % 2 ^ 16 ≡ old.refcount =
            omega (arith, ready.small) in
          ap less h.whole ∙ ap (λ n. record (set_fetched old) { refcount = n }) count

      clashes : Clashes e.value st queue chunks record { answer = exists; cas = none; store = st₂ }
      clashes = record {
        answer = refl;
        cas = refl;
        store =
            put_item-IsStore is_crawler e.value (less (item_at st' e.value)) st' queue chunks
              h.store h.no_chunk
              record {
                next = refl;
                prev = refl;
                class = refl;
                linked = refl;
                slabbed = refl;
                key = refl;
              };
        table = h.table;
        item = write_self e.value (less (item_at st' e.value)) st'.lru.mem ∙ same;
        others = λ a apart.
            write_other e.value (less (item_at st' e.value)) st'.lru.mem a apart ∙ h.others a apart;
        rest = h.rest;
      }

      refuses :
          (comm : Command)
          → compares comm cas ≡ true
          → store_found lib settings comm it e.value (keys.hash (item_at st it).key) st'
            ≡ finish_store exists it e.value 0 st'
      unfolding store_found store_cas store_joined
      refuses nread_add c = ground (arith, c)
      refuses nread_set c = ground (arith, c)
      refuses nread_replace c = ground (arith, c)
      refuses nread_append c =
          let there : (e.value == 0) ≡ false = ground (arith, h.some_item) in
          let set : (item_get_cas (item_at st' it) == 0) ≡ false = ground (arith, cas_it, c) in
          rw (there, set, clash)
      refuses nread_prepend c =
          let there : (e.value == 0) ≡ false = ground (arith, h.some_item) in
          let set : (item_get_cas (item_at st' it) == 0) ≡ false = ground (arith, cas_it, c) in
          rw (there, set, clash)
      refuses nread_cas c =
          let there : (e.value == 0) ≡ false = ground (arith, h.some_item) in rw (there, clash)

    address :
        (old : ℕ) (st' : Store K)
        → Hit is_crawler settings st (item_at st it).key queue chunks old st'
        → old ≡ e.value
    address old st' h = h.address ∙ ap (λ i. i.value) (some-injective (sym h.found ∙ found))

    at_old :
        (old : ℕ) (st' : Store K)
        → Hit is_crawler settings st (item_at st it).key queue chunks old st'
        → Hit is_crawler settings st (item_at st it).key queue chunks e.value st'
    at_old old st' h =
        subst (λ o. Hit is_crawler settings st (item_at st it).key queue chunks o st')
          (address old st' h) h

    -- A command that compares the CAS, and meets a live item under its key whose CAS is another one,
    -- answers EXISTS, and does nothing to the store but mark the old item as fetched: cas always
    -- compares, append and prepend where the CAS of their item is not 0.
    pub do_store_item-Clashes :
        (comm : Command)
        → compares comm cas ≡ true
        → Returns
            (do_store_item lib settings it comm (keys.hash (item_at st it).key) st)
            (Clashes e.value st queue chunks)
    unfolding do_store_item
    do_store_item-Clashes comm c =
        Returns-bind (do_item_get settings (item_at st it).key (keys.hash (item_at st it).key) st) _
          (do_item_get-Hit is_crawler settings st (item_at st it).key queue chunks is e found
            ready.held ready.small items ready.room alive)
          λ (old, st') h.
            subst
              (λ o.
                Returns (store_found lib settings comm it o (keys.hash (item_at st it).key) st')
                  (Clashes e.value st queue chunks))
              (sym (address old st' h))
              (
                _,
                refuses st' (at_old old st' h) comm c ∙ releases st' (at_old old st' h),
                clashes st' (at_old old st' h),
              )
