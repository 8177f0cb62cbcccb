-- ===== src/Memcached/Items/Unlink.antt =====
-- src/items.c: `do_item_remove` while others hold the item, and `do_item_unlink`.
use mage_artifact_baseline.Common.{
  ℕ, ◌+◌, ◌-◌, ◌%◌, ◌^◌, ◌≤◌, ◌<◌, ◌≡◌, ◌≢◌, refl, sym, ap, ◌∙◌, subst, Bool, true, false, none,
  some, List, ◌∷◌, ◌++◌, arith, ltb, ◌==◌, Returns, Returns-bind, u32_mod, u64_mod,
}
use mage_artifact_baseline.Memcached.Heap.{StrItem, Mem, write}
use mage_artifact_baseline.Memcached.Heap.Segments.{Outside, SameContents, write_self, write_other}
use mage_artifact_baseline.Memcached.Heap.Writes.{Apart-split}
use mage_artifact_baseline.Memcached.Lru.{Lru, put, item_unlink_q}
use mage_artifact_baseline.Memcached.Lru.Queue.{IsLru}
use mage_artifact_baseline.Memcached.Lru.Unlink.{item_unlink_q-IsLru}
use mage_artifact_baseline.Memcached.Assoc.{Item, ItemKeys, Assoc, assoc_delete}
use mage_artifact_baseline.Memcached.Assoc.Holds.{holds, update, Holds}
use mage_artifact_baseline.Memcached.Assoc.Updates.{assoc_delete-Holds}
use mage_artifact_baseline.Memcached.Items.{
  Store, item_at, put_item, set_linked, u16_mod, item_ntotal, refcount_decr, do_item_remove,
  do_item_unlink,
}
use mage_artifact_baseline.Memcached.Items.Invariant.{
  In, In-split, SamePlace, SamePlace-IsLru, IsStore, IsQueued,
}
use mage_artifact_baseline.Memcached.Items.Unlinked.{Kept, unlinked-IsStore}

module _ {K : Type 0} where
  -- A write that keeps the place of the item.
  pub SamePlace-write :
      (p : ℕ) (it : StrItem K) (mem : Mem K)
      → it.next ≡ (mem p).next
      → it.prev ≡ (mem p).prev
      → it.slabs_clsid ≡ (mem p).slabs_clsid
      → SamePlace mem (write p it mem)
  unfolding write
  SamePlace-write p it mem next prev class a = (ground arith, ground arith, ground arith)

  -- The item after the call.
  abbrev pub less : StrItem K → StrItem K
  less it = record it { refcount = (it.refcount + u16_mod - 1) % u16_mod }

  -- While others hold the item, only its count changes.
  pub do_item_remove-held :
      (p : ℕ) (st : Store K)
      → (item_at st p).it_flags.slabbed ≡ false
      → 2 ≤ (item_at st p).refcount
      → (item_at st p).refcount < 2 ^ 16
      → do_item_remove p st ≡ some (put_item p (less (item_at st p)) st)
  unfolding do_item_remove refcount_decr
  do_item_remove-held p st used held small =
      let it = item_at st p in
      let pos : ltb 0 it.refcount ≡ true = ground arith in
      let self = ap (λ n. n.refcount) (write_self p (less it) st.lru.mem) in
      let left : ((write p (less it) st.lru.mem p).refcount == 0) ≡ false = ground (arith, self) in
      rw (used, pos, left)

module _ {K : Type 0} ⦃keys : ItemKeys K⦄ (is_crawler : ℕ → Bool) where
  -- What `do_item_unlink` leaves of an item and of the others.
  pub record Gone (st : Store K) (p : ℕ) (queue chunks : ℕ → List ℕ) (st' : Store K) : Type 0 where
    pub before : List ℕ
    pub after : List ℕ
    pub split : queue (item_at st p).slabs_clsid ≡ before ++ p ∷ after
    pub store :
        IsStore is_crawler st' (put (item_at st p).slabs_clsid (before ++ after) queue) chunks
    pub table : (k : K) → holds st'.assoc k ≡ update (holds st.assoc) (item_at st p).key none k
    pub unlinked : (item_at st' p).it_flags.linked ≡ false
    pub used : (item_at st' p).it_flags.slabbed ≡ false
    pub class : (item_at st' p).slabs_clsid ≡ (item_at st p).slabs_clsid
    pub count : (item_at st' p).refcount + 1 ≡ (item_at st p).refcount
    pub others : (a : ℕ) → a ≢ p → Kept (item_at st a) (item_at st' a)
    pub slabs : st'.slabs ≡ st.slabs

  module _ (p : ℕ) (st : Store K) (queue chunks : ℕ → List ℕ)
      (is : IsStore is_crawler st queue chunks) (at : In p (queue (item_at st p).slabs_clsid))
      (real : is_crawler p ≡ false) (held : 2 ≤ (item_at st p).refcount)
      (small : (item_at st p).refcount < 2 ^ 16) (items : st.assoc.hash_items < 2 ^ 32) where
    abbrev it : StrItem K
    it = item_at st p

    abbrev c : ℕ
    c = it.slabs_clsid

    abbrev st₁ : Store K
    st₁ = put_item p (set_linked false it) st

    q : IsQueued is_crawler st c p
    q = is.queued c p at real

    first : item_at st₁ p ≡ set_linked false it
    first = write_self p (set_linked false it) st.lru.mem

    lru₁ : IsLru is_crawler st₁.lru queue
    lru₁ =
        SamePlace-IsLru is_crawler st.lru st₁.lru.mem queue
          (SamePlace-write p (set_linked false it) st.lru.mem refl refl refl) is.lru

    class₁ : (item_at st₁ p).slabs_clsid ≡ c
    class₁ = ap (λ n. n.slabs_clsid) first

    -- The queue after its item has gone.
    cut_queue :
        (xs zs : List ℕ)
        → queue c ≡ xs ++ p ∷ zs
        → Returns (item_unlink_q p st₁.lru) λ lru.
          IsLru is_crawler lru (put c (xs ++ zs) queue)
          × SameContents st₁.lru.mem lru.mem
          × Outside (xs ++ p ∷ zs) st₁.lru.mem lru.mem
    cut_queue xs zs split =
        subst
          (λ d. Returns (item_unlink_q p st₁.lru) λ lru.
            IsLru is_crawler lru (put d (xs ++ zs) queue)
            × SameContents st₁.lru.mem lru.mem
            × Outside (xs ++ p ∷ zs) st₁.lru.mem lru.mem)
          class₁
          (item_unlink_q-IsLru is_crawler p st₁.lru queue xs zs lru₁ (ap queue class₁ ∙ split) real
            (subst (λ d. d < 200) (sym class₁) q.small))

    module _ (xs zs : List ℕ) (split : queue c ≡ xs ++ p ∷ zs) (assoc : Assoc (Item K ℕ))
        (table : Holds
          (update (holds st.assoc) it.key none)
          (st.assoc.hash_items - 1)
          st.assoc.hashpower
          assoc)
        (lru : Lru K) (cut : IsLru is_crawler lru (put c (xs ++ zs) queue))
        (same : SameContents st₁.lru.mem lru.mem)
        (out : Outside (xs ++ p ∷ zs) st₁.lru.mem lru.mem) where
      abbrev st₂ : Store K
      st₂ = record st₁ {
        lru = lru;
        assoc = assoc;
        curr_bytes = (st.curr_bytes + u64_mod - item_ntotal it) % u64_mod;
        curr_items = (st.curr_items + u32_mod - 1) % u32_mod;
      }

      abbrev st₃ : Store K
      st₃ = put_item p (less (item_at st₂ p)) st₂

      here : Kept (set_linked false it) (item_at st₂ p)
      here = subst (λ n. record (lru.mem p) { next = n.next; prev = n.prev } ≡ n) first (same p)

      kept : (a : ℕ) → a ≢ p → Kept (item_at st a) (item_at st₃ a)
      kept a other =
          subst (λ n. Kept n (item_at st₃ a))
            (write_other p (set_linked false it) st.lru.mem a other)
            (subst (λ n. Kept (item_at st₁ a) n)
              (sym (write_other p (less (item_at st₂ p)) lru.mem a other)) (same a))

      outside : Outside (xs ++ p ∷ zs) st.lru.mem st₃.lru.mem
      outside a apart =
          let other = (Apart-split a xs (p ∷ zs) apart).1.0 in
          write_other p (less (item_at st₂ p)) lru.mem a other
          ∙ out a apart
          ∙ write_other p (set_linked false it) st.lru.mem a other

      gone : Gone st p queue chunks st₃
      gone =
          let self = write_self p (less (item_at st₂ p)) lru.mem in
          record {
            before = xs;
            after = zs;
            split = split;
            store =
                unlinked-IsStore is_crawler st st₃ p queue chunks xs zs is split
                  (SamePlace-IsLru is_crawler lru st₃.lru.mem (put c (xs ++ zs) queue)
                    (SamePlace-write p (less (item_at st₂ p)) lru.mem refl refl refl) cut)
                  table.inv table.map kept outside refl real;
            table = table.map;
            unlinked = ap (λ n. n.it_flags.linked) self ∙ ap (λ n. n.it_flags.linked) here;
            used = ap (λ n. n.it_flags.slabbed) self ∙ ap (λ n. n.it_flags.slabbed) here ∙ q.used;
            class = ap (λ n. n.slabs_clsid) self ∙ ap (λ n. n.slabs_clsid) here;
            count = omega (arith, ap (λ n. n.refcount) self, ap (λ n. n.refcount) here);
            others = kept;
            slabs = refl;
          }

    -- An item that is linked, and that the caller holds besides, leaves the table and its queue. It
    -- keeps the other references, and nothing else changes but the links of the neighbours.
    pub do_item_unlink-Gone :
        Returns (do_item_unlink p (keys.hash it.key) st) (Gone st p queue chunks)
    unfolding do_item_unlink
    do_item_unlink-Gone =
        let (xs, zs, split) = In-split p (queue c) at in
        rw (q.linked, do_item_unlink)
          (Returns-bind (assoc_delete it.key (keys.hash it.key) st.assoc) _
            (assoc_delete-Holds it.key st.assoc is.assoc q.found items)
            λ assoc table.
              Returns-bind (item_unlink_q p st₁.lru) _ (cut_queue xs zs split)
                λ lru (cut, same, out). (
                  st₃ xs zs split assoc table lru cut same out,
                  do_item_remove-held p (st₂ xs zs split assoc table lru cut same out)
                      (ap (λ n. n.it_flags.slabbed) (here xs zs split assoc table lru cut same out)
                        ∙ q.used)
                      (omega (
                        arith,
                        ap (λ n. n.refcount) (here xs zs split assoc table lru cut same out),
                      ))
                      (omega (
                        arith,
                        ap (λ n. n.refcount) (here xs zs split assoc table lru cut same out),
                      )),
                  gone xs zs split assoc table lru cut same out,
                ))
