-- ===== src/Memcached/Items/Link.antt =====
-- src/items.c: `do_item_link`.
use mathlib.Core.Bool.{not}
use mage_artifact_baseline.Common.{
  ℕ, ◌+◌, ◌%◌, ◌^◌, ◌<◌, ◌≡◌, ◌≢◌, refl, sym, ap, ◌∙◌, subst, Bool, true, false, ◌&&◌, some, List,
  ◌∷◌, arith, inl, inr, Bool-cases, if◌then◌else◌, Returns, Returns-bind, u32_mod, u64_mod,
}
use mage_artifact_baseline.Memcached.Heap.{StrItem}
use mage_artifact_baseline.Memcached.Heap.Segments.{Outside, SameContents, write_self, write_other}
use mage_artifact_baseline.Memcached.Lru.{Lru, put, item_link_q}
use mage_artifact_baseline.Memcached.Lru.Queue.{IsLru}
use mage_artifact_baseline.Memcached.Lru.Link.{item_link_q-IsLru}
use mage_artifact_baseline.Memcached.Assoc.{Item, ItemKeys, Assoc, assoc_insert}
use mage_artifact_baseline.Memcached.Assoc.Holds.{holds, update, Holds}
use mage_artifact_baseline.Memcached.Assoc.Updates.{assoc_insert-Holds}
use mage_artifact_baseline.Memcached.Items.{
  Settings, Store, item_at, put_item, set_linked, u16_mod, item_ntotal, next_cas, item_set_cas,
  refcount_incr, do_item_link,
}
use mage_artifact_baseline.Memcached.Items.Invariant.{SamePlace-IsLru, IsStore, entry_of}
use mage_artifact_baseline.Memcached.Items.Unlinked.{Kept}
use mage_artifact_baseline.Memcached.Items.Unlink.{SamePlace-write}
use mage_artifact_baseline.Memcached.Items.Linked.{IsNew, linked-IsStore}

next_cas_lem :
    (use_cas : Bool) (cas_id : ℕ)
    → (if use_cas then next_cas use_cas cas_id else 0)
      ≡ (if use_cas then (cas_id + 1) % u64_mod else 0)
unfolding next_cas
next_cas_lem true cas_id = refl
next_cas_lem false cas_id = refl

module _ {K : Type 0} where
  abbrev pub more : StrItem K → StrItem K
  more it = record it { refcount = (it.refcount + 1) % u16_mod }

  item_set_cas-others : (v : ℕ) (it : StrItem K) → record (item_set_cas v it) { cas = it.cas } ≡ it
  unfolding item_set_cas
  item_set_cas-others v it = elim (Bool-cases it.it_flags.with_cas) [ inl e ↦ rw e | inr e ↦ rw e ]

  item_set_cas-cas :
      (v : ℕ) (it : StrItem K) → it.it_flags.with_cas ≡ true → (item_set_cas v it).cas ≡ v
  unfolding item_set_cas
  item_set_cas-cas v it e = rw e

module _ {K : Type 0} ⦃keys : ItemKeys K⦄ (is_crawler : ℕ → Bool) where
  -- What `do_item_link` leaves.
  pub record Entered (settings : Settings) (st : Store K) (p : ℕ) (queue chunks : ℕ → List ℕ)
      (st' : Store K) : Type 0 where
    pub store :
        IsStore is_crawler st'
          (put (item_at st p).slabs_clsid (p ∷ queue (item_at st p).slabs_clsid) queue)
          chunks
    pub table :
        (k : K)
        → holds st'.assoc k
          ≡ update (holds st.assoc) (item_at st p).key (some (entry_of is_crawler st p)) k
    pub time : (item_at st' p).time ≡ settings.current_time
    pub count : (item_at st' p).refcount ≡ (item_at st p).refcount + 1
    pub cas :
        (item_at st p).it_flags.with_cas ≡ true
        → (item_at st' p).cas ≡ (if settings.use_cas then (st.cas_id + 1) % u64_mod else 0)
    pub class : (item_at st' p).slabs_clsid ≡ (item_at st p).slabs_clsid
    pub exptime : (item_at st' p).exptime ≡ (item_at st p).exptime
    pub items : st'.assoc.hash_items ≡ st.assoc.hash_items + 1
    pub others : (a : ℕ) → a ≢ p → Kept (item_at st a) (item_at st' a)
    pub slabs : st'.slabs ≡ st.slabs
    pub rebal : st'.rebal ≡ st.rebal

  module _ (settings : Settings) (p : ℕ) (st : Store K) (queue chunks : ℕ → List ℕ)
      (is : IsStore is_crawler st queue chunks) (new : IsNew is_crawler st queue chunks p)
      (small : (item_at st p).refcount + 1 < 2 ^ 16)
      (items : st.assoc.hash_items + 1 < 2 ^ 32) where
    abbrev it : StrItem K
    it = item_at st p

    abbrev c : ℕ
    c = it.slabs_clsid

    abbrev timed : StrItem K
    timed = record (set_linked true it) { time = settings.current_time }

    abbrev cas_id : ℕ
    cas_id = next_cas settings.use_cas st.cas_id

    abbrev marked : StrItem K
    marked = item_set_cas (if settings.use_cas then cas_id else 0) timed

    marked_lem : record marked { cas = it.cas } ≡ timed
    marked_lem = item_set_cas-others (if settings.use_cas then cas_id else 0) timed

    abbrev st₁ : Store K
    st₁ = put_item p marked st

    first : item_at st₁ p ≡ marked
    first = write_self p marked st.lru.mem

    lru₁ : IsLru is_crawler st₁.lru queue
    lru₁ =
        SamePlace-IsLru is_crawler st.lru st₁.lru.mem queue
          (SamePlace-write p marked st.lru.mem (ap (λ n. n.next) marked_lem)
            (ap (λ n. n.prev) marked_lem) (ap (λ n. n.slabs_clsid) marked_lem))
          is.lru

    class₁ : (item_at st₁ p).slabs_clsid ≡ c
    class₁ = ap (λ n. n.slabs_clsid) first ∙ ap (λ n. n.slabs_clsid) marked_lem

    longer_queue : Returns (item_link_q p st₁.lru) λ lru.
        IsLru is_crawler lru (put c (p ∷ queue c) queue)
        × SameContents st₁.lru.mem lru.mem
        × Outside (p ∷ queue c) st₁.lru.mem lru.mem
    longer_queue =
        subst
          (λ d. Returns (item_link_q p st₁.lru) λ lru.
            IsLru is_crawler lru (put d (p ∷ queue d) queue)
            × SameContents st₁.lru.mem lru.mem
            × Outside (p ∷ queue d) st₁.lru.mem lru.mem)
          class₁
          (item_link_q-IsLru is_crawler p st₁.lru queue lru₁ new.some_item new.real
            (ap (λ n. n.it_flags.slabbed) first
              ∙ ap (λ n. n.it_flags.slabbed) marked_lem
              ∙ new.used)
            (subst (λ d. d < 200) (sym class₁) new.small) new.no_queue)

    module _ (assoc : Assoc (Item K ℕ))
        (table : Holds
          (update (holds st.assoc) it.key (some (entry_of is_crawler st p)))
          (st.assoc.hash_items + 1)
          st.assoc.hashpower
          assoc)
        (lru : Lru K) (long : IsLru is_crawler lru (put c (p ∷ queue c) queue))
        (same : SameContents st₁.lru.mem lru.mem)
        (out : Outside (p ∷ queue c) st₁.lru.mem lru.mem) where
      abbrev st₂ : Store K
      st₂ = record st₁ {
        lru = lru;
        assoc = assoc;
        curr_bytes = (st.curr_bytes + item_ntotal it) % u64_mod;
        curr_items = (st.curr_items + 1) % u32_mod;
        total_items = (st.total_items + 1) % u32_mod;
        cas_id = cas_id;
      }

      abbrev st₃ : Store K
      st₃ = put_item p (more (item_at st₂ p)) st₂

      -- The item after the call, but for its links and its count.
      here : Kept marked (item_at st₂ p)
      here = subst (λ n. record (lru.mem p) { next = n.next; prev = n.prev } ≡ n) first (same p)

      self : item_at st₃ p ≡ more (item_at st₂ p)
      self = write_self p (more (item_at st₂ p)) lru.mem

      kept : (a : ℕ) → a ≢ p → Kept (item_at st a) (item_at st₃ a)
      kept a other =
          subst (λ n. Kept n (item_at st₃ a)) (write_other p marked st.lru.mem a other)
            (subst (λ n. Kept (item_at st₁ a) n)
              (sym (write_other p (more (item_at st₂ p)) lru.mem a other)) (same a))

      outside : Outside (p ∷ queue c) st.lru.mem st₃.lru.mem
      outside a apart =
          write_other p (more (item_at st₂ p)) lru.mem a apart.0
          ∙ out a apart
          ∙ write_other p marked st.lru.mem a apart.0

      entered : Entered settings st p queue chunks st₃
      entered = record {
        store =
            linked-IsStore is_crawler st st₃ p queue chunks is new
              (SamePlace-IsLru is_crawler lru st₃.lru.mem (put c (p ∷ queue c) queue)
                (SamePlace-write p (more (item_at st₂ p)) lru.mem refl refl refl) long)
              table.inv table.map kept outside refl
              (ap (λ n. n.it_flags.linked) self
                ∙ ap (λ n. n.it_flags.linked) here
                ∙ ap (λ n. n.it_flags.linked) marked_lem)
              (ap (λ n. n.it_flags.slabbed) self
                ∙ ap (λ n. n.it_flags.slabbed) here
                ∙ ap (λ n. n.it_flags.slabbed) marked_lem
                ∙ new.used)
              (ap (λ n. n.key) self ∙ ap (λ n. n.key) here ∙ ap (λ n. n.key) marked_lem)
              (ap (λ n. n.slabs_clsid) self
                ∙ ap (λ n. n.slabs_clsid) here
                ∙ ap (λ n. n.slabs_clsid) marked_lem);
        table = table.map;
        time = ap (λ n. n.time) self ∙ ap (λ n. n.time) here ∙ ap (λ n. n.time) marked_lem;
        count = omega (
          arith,
          ap (λ n. n.refcount) self,
          ap (λ n. n.refcount) here,
          ap (λ n. n.refcount) marked_lem,
        );
        cas = λ e.
            ap (λ n. n.cas) self
            ∙ ap (λ n. n.cas) here
            ∙ item_set_cas-cas _ timed e
            ∙ next_cas_lem settings.use_cas st.cas_id;
        class =
            ap (λ n. n.slabs_clsid) self
            ∙ ap (λ n. n.slabs_clsid) here
            ∙ ap (λ n. n.slabs_clsid) marked_lem;
        exptime =
            ap (λ n. n.exptime) self ∙ ap (λ n. n.exptime) here ∙ ap (λ n. n.exptime) marked_lem;
        items = table.size;
        others = kept;
        slabs = refl;
        rebal = refl;
      }

    -- A new item enters the table under its key and becomes the head of its queue, with one
    -- reference more, the current time and the next CAS id; nothing else changes but links.
    pub do_item_link-Entered :
        Returns (do_item_link settings p (keys.hash it.key) st) (Entered settings st p queue chunks)
    unfolding do_item_link refcount_incr
    do_item_link-Entered =
        let fresh : (not it.it_flags.linked && not it.it_flags.slabbed) ≡ true =
          ground (arith, new.unlinked, new.used) in
        rw fresh (
          Returns-bind (assoc_insert (entry_of is_crawler st p) (keys.hash it.key) st.assoc) _
            (assoc_insert-Holds (entry_of is_crawler st p) st.assoc is.assoc new.absent items)
            λ assoc table.
              Returns-bind (item_link_q p st₁.lru) _ longer_queue λ lru (long, same, out).
                (st₃ assoc table lru long same out, refl, entered assoc table lru long same out))
