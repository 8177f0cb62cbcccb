-- ===== src/Memcached/Items/Free.antt =====
-- src/items.c: `do_item_remove` where the last reference is given back, and `item_free`.
use native.Mathlib.Decide.{ℕ_discrete}
use mage_artifact_baseline.Common.{
  ℕ, ◌+◌, ◌^◌, ◌<◌, ◌≡◌, ◌≢◌, refl, sym, ap, ◌∙◌, subst, Bool, true, false, some, List, [], ◌∷◌,
  arith, inl, inr, ltb, ◌==◌, length, Returns, Returns-bind,
}
use mage_artifact_baseline.Memcached.Heap.{Mem}
use mage_artifact_baseline.Memcached.Heap.Segments.{
  Apart, Off, last_or, last_or-Apart, Outside, Seg-frame, write_self, write_other,
}
use mage_artifact_baseline.Memcached.Heap.Writes.{Off-cons, Off-sym}
use mage_artifact_baseline.Memcached.Lru.{Lru, put}
use mage_artifact_baseline.Memcached.Lru.Queue.{IsLru, InClass, put_self, put_other, Off-put}
use mage_artifact_baseline.Memcached.Lru.Link.{head-Apart}
use mage_artifact_baseline.Memcached.Slabs.{Slabs, is_class, do_slabs_free}
use mage_artifact_baseline.Memcached.Slabs.Freelist.{IsFree, Freed, do_slabs_free-Freed}
use mage_artifact_baseline.Memcached.Slabs.Agree.{Agree, Agree-SameLinks, Agree-IsFree}
use mage_artifact_baseline.Memcached.Assoc.{Item, ItemKeys}
use mage_artifact_baseline.Memcached.Assoc.Holds.{IsAssoc, holds}
use mage_artifact_baseline.Memcached.Items.{
  Store, item_at, put_item, item_ntotal, refcount_decr, item_free, do_item_remove,
}
use mage_artifact_baseline.Memcached.Items.Invariant.{In, IsStore}
use mage_artifact_baseline.Memcached.Items.Unlinked.{Outside-Agree}
use mage_artifact_baseline.Memcached.Items.Unlink.{less}

pub last_or-other : (p : ℕ) (xs : List ℕ) → p ≢ 0 → Apart p xs → p ≢ last_or 0 xs
last_or-other p [] some_item apart = some_item
last_or-other p (x ∷ xs) some_item apart = last_or-Apart p x xs apart

module _ {K : Type 0} where
  Agree-InClass :
      (mem mem' : Mem K) (c : ℕ) (xs : List ℕ)
      → Agree mem mem' xs
      → InClass mem c xs
      → InClass mem' c xs
  Agree-InClass mem mem' c [] a is = tt
  Agree-InClass mem mem' c (x ∷ xs) (e, a) (is, rest) =
      (ap (λ n. n.slabs_clsid) e ∙ is, Agree-InClass mem mem' c xs a rest)

  pub Agree-IsLru :
      (is_crawler : ℕ → Bool) (lru : Lru K) (mem' : Mem K) (queue : ℕ → List ℕ)
      → ((c : ℕ) → Agree lru.mem mem' (queue c))
      → IsLru is_crawler lru queue
      → IsLru is_crawler (record lru { mem = mem' }) queue
  Agree-IsLru is_crawler lru mem' queue same is = record {
    each = λ c.
        let q = is.each c in
        record {
          links =
              Seg-frame lru.mem mem' 0 (lru.heads c) (queue c) 0
                (Agree-SameLinks lru.mem mem' (queue c) (same c)) q.links;
          tail = q.tail;
          distinct = q.distinct;
          class = Agree-InClass lru.mem mem' c (queue c) (same c) q.class;
          size = q.size;
        };
    apart = is.apart;
  }

  pub Agree-In :
      (mem mem' : Mem K) (xs : List ℕ) (a : ℕ) → Agree mem mem' xs → In a xs → mem' a ≡ mem a
  Agree-In mem mem' [] a same i = elim i [ ]
  Agree-In mem mem' (x ∷ xs) a (e, same) (inl at) = ap mem' at ∙ e ∙ ap mem (sym at)
  Agree-In mem mem' (x ∷ xs) a (e, same) (inr i) = Agree-In mem mem' xs a same i

module _ {K : Type 0} ⦃keys : ItemKeys K⦄ (is_crawler : ℕ → Bool) where
  -- A memory that agrees on the queues, a table that is the same, and free lists.
  pub Agree-IsStore :
      (st st' : Store K) (queue chunks chunks' : ℕ → List ℕ)
      → IsStore is_crawler st queue chunks
      → ((c : ℕ) → Agree st.lru.mem st'.lru.mem (queue c))
      → IsLru is_crawler st'.lru queue
      → st'.assoc ≡ st.assoc
      → ((c : ℕ) → is_class c st'.slabs ≡ is_class c st.slabs)
      → ((c : ℕ)
          → is_class c st'.slabs ≡ true
          → IsFree st'.lru.mem (st'.slabs.slabclass c) (chunks' c))
      → ((c d : ℕ) → Off (chunks' c) (queue d))
      → ((c d : ℕ) → c ≢ d → Off (chunks' c) (chunks' d))
      → IsStore is_crawler st' queue chunks'
  Agree-IsStore st st' queue chunks chunks' is same lru assoc class free free_queue free_free =
      record {
        lru = lru;
        assoc = subst IsAssoc (sym assoc) is.assoc;
        queued = λ c y i real.
            let q = is.queued c y i real in
            let e = Agree-In st.lru.mem st'.lru.mem (queue c) y (same c) i in
            let entry : K → Item K ℕ = λ k. record { key = k; value = y } in
            record {
              linked = ap (λ n. n.it_flags.linked) e ∙ q.linked;
              used = ap (λ n. n.it_flags.slabbed) e ∙ q.used;
              found =
                  ap (λ a. holds a (item_at st' y).key) assoc
                  ∙ ap (λ n. holds st.assoc n.key) e
                  ∙ q.found
                  ∙ ap (λ n. some (entry n.key)) (sym e);
              class = class c ∙ q.class;
              small = q.small;
            };
        found = λ k e h.
            let f = is.found k e (subst (λ a. holds a k ≡ some e) assoc h) in
            let eq =
              Agree-In st.lru.mem st'.lru.mem (queue (item_at st e.value).slabs_clsid) e.value
                (same (item_at st e.value).slabs_clsid) f.place in
            record {
              key = ap (λ n. n.key) eq ∙ f.key;
              place = subst (λ n. In e.value (queue n.slabs_clsid)) (sym eq) f.place;
              real = f.real;
            };
        free = free;
        free_queue = free_queue;
        free_free = free_free;
      }

  -- An item that nobody but the caller holds.
  pub record IsLast (st : Store K) (queue chunks : ℕ → List ℕ) (p : ℕ) : Type 0 where
    pub some_item : p ≢ 0
    pub unlinked : (item_at st p).it_flags.linked ≡ false
    pub used : (item_at st p).it_flags.slabbed ≡ false
    pub count : (item_at st p).refcount ≡ 1
    pub class : is_class (item_at st p).slabs_clsid st.slabs ≡ true
    pub no_queue : (c : ℕ) → Apart p (queue c)
    pub no_chunk : (c : ℕ) → Apart p (chunks c)

  module _ (st : Store K) (queue chunks : ℕ → List ℕ) (p : ℕ)
      (is : IsStore is_crawler st queue chunks) (last : IsLast st queue chunks p)
      (room : length (chunks (item_at st p).slabs_clsid) + 1 < 2 ^ 32) where
    abbrev c : ℕ
    c = (item_at st p).slabs_clsid

    abbrev chunks' : ℕ → List ℕ
    chunks' = put c (p ∷ chunks c) chunks

    abbrev st₁ : Store K
    st₁ = put_item p (less (item_at st p)) st

    abbrev st₂ : Store K
    st₂ = put_item p (record (item_at st₁ p) { slabs_clsid = 0 }) st₁

    first : item_at st₁ p ≡ less (item_at st p)
    first = write_self p (less (item_at st p)) st.lru.mem

    early : Outside (p ∷ []) st.lru.mem st₂.lru.mem
    early a apart =
        write_other p (record (item_at st₁ p) { slabs_clsid = 0 }) st₁.lru.mem a apart.0
        ∙ write_other p (less (item_at st p)) st.lru.mem a apart.0

    alone : (xs : List ℕ) → Apart p xs → Off xs (p ∷ [])
    alone [] apart = tt
    alone (x ∷ xs) (other, apart) = (((λ e. other (sym e)), tt), alone xs apart)

    free₂ : IsFree st₂.lru.mem (st.slabs.slabclass c) (chunks c)
    free₂ =
        Agree-IsFree st.lru.mem st₂.lru.mem (st.slabs.slabclass c) (chunks c)
          (Outside-Agree (p ∷ []) st.lru.mem st₂.lru.mem (chunks c) early
            (alone (chunks c) (last.no_chunk c)))
          (is.free c last.class)

    freed :
        Returns
          (do_slabs_free p
            (item_ntotal (item_at st₁ p))
            (item_at st₁ p).slabs_clsid
            (st₂.lru.mem, st.slabs))
          (Freed c (p ∷ chunks c) (p ∷ chunks c) st₂.lru.mem st.slabs)
    freed =
        subst
          (λ d.
            Returns (do_slabs_free p (item_ntotal (item_at st₁ p)) d (st₂.lru.mem, st.slabs))
              (Freed c (p ∷ chunks c) (p ∷ chunks c) st₂.lru.mem st.slabs))
          (sym (ap (λ n. n.slabs_clsid) first))
          (do_slabs_free-Freed p (item_ntotal (item_at st₁ p)) c st₂.lru.mem st.slabs (chunks c)
            free₂ last.class last.some_item (last.no_chunk c)
            (ap (λ n. n.slabs_clsid)
              (write_self p (record (item_at st₁ p) { slabs_clsid = 0 }) st₁.lru.mem))
            room)

    module _ (got : Mem K × Slabs)
        (f : Freed c (p ∷ chunks c) (p ∷ chunks c) st₂.lru.mem st.slabs got) where
      abbrev st₃ : Store K
      st₃ =
          let lru : Lru K = record st₂.lru { mem = got.0 } in
          record st₂ { lru = lru; slabs = got.1 }

      outside : Outside (p ∷ chunks c) st.lru.mem got.0
      outside a apart = f.outside a apart ∙ early a (apart.0, tt)

      queues : (d : ℕ) → Agree st.lru.mem got.0 (queue d)
      queues d = Outside-Agree (p ∷ chunks c) st.lru.mem got.0 (queue d) outside (
          Off-cons (queue d) p (chunks c) (last.no_queue d)
            (Off-sym (chunks c) (queue d) (is.free_queue c d)))

      same_class : (d : ℕ) → is_class d got.1 ≡ is_class d st.slabs
      same_class d = rw f.largest

      free₃ : (d : ℕ) → is_class d got.1 ≡ true → IsFree got.0 (got.1.slabclass d) (chunks' d)
      free₃ d class = elim (ℕ_discrete d c) [
        | yes e ↦
            subst (λ w. IsFree got.0 (got.1.slabclass w) (chunks' w)) (sym e)
              (subst (IsFree got.0 (got.1.slabclass c)) (sym (put_self c (p ∷ chunks c) chunks))
                f.list)
        | no other ↦
            subst (IsFree got.0 (got.1.slabclass d))
              (sym (put_other c (p ∷ chunks c) chunks d other))
              (subst (λ q. IsFree got.0 q (chunks d)) (sym (f.others d other))
                (Agree-IsFree st.lru.mem got.0 (st.slabs.slabclass d) (chunks d)
                  (Outside-Agree (p ∷ chunks c) st.lru.mem got.0 (chunks d) outside
                    (Off-cons (chunks d) p (chunks c) (last.no_chunk d) (is.free_free d c other)))
                  (is.free d (sym (same_class d) ∙ class))))
      ]

      freed-IsStore : IsStore is_crawler st₃ queue chunks'
      freed-IsStore =
          Agree-IsStore st st₃ queue chunks chunks' is queues
            (Agree-IsLru is_crawler st.lru got.0 queue queues is.lru) refl same_class free₃
            (λ d e. elim (ℕ_discrete d c) [
              | yes f ↦
                  subst (λ l. Off l (queue e))
                    (sym (ap chunks' f ∙ put_self c (p ∷ chunks c) chunks))
                    (last.no_queue e, is.free_queue c e)
              | no other ↦
                  subst (λ l. Off l (queue e)) (sym (put_other c (p ∷ chunks c) chunks d other))
                    (is.free_queue d e)
            ])
            (Off-put chunks c (p ∷ chunks c) is.free_free (λ d other.
              Off-cons (chunks d) p (chunks c) (last.no_chunk d) (is.free_free d c other)))

    -- The last reference to an item that is not linked is given back: its chunk becomes free, and
    -- belongs to no class, and everything else stays.
    pub do_item_remove-frees : Returns (do_item_remove p st) λ st'.
        IsStore is_crawler st' queue chunks'
        × (st'.assoc ≡ st.assoc)
        × ((item_at st' p).slabs_clsid ≡ 0)
    unfolding do_item_remove refcount_decr item_free
    do_item_remove-frees =
        let q = is.lru.each c in
        let h : (p == st.lru.heads (item_at st₁ p).slabs_clsid) ≡ false =
          rw (ap (λ n. n.slabs_clsid) first) (
            ground (
              arith,
              head-Apart st.lru.mem (st.lru.heads c) p (queue c) q.links (last.no_queue c)
                  last.some_item,
            )) in
        let t : (p == st.lru.tails (item_at st₁ p).slabs_clsid) ≡ false =
          rw (ap (λ n. n.slabs_clsid) first)
            (ground (arith, q.tail, last_or-other p (queue c) last.some_item (last.no_queue c))) in
        let pos : ltb 0 (item_at st p).refcount ≡ true = ground (arith, last.count) in
        let nobody : ((item_at st₁ p).refcount == 0) ≡ true =
          ground (arith, last.count, ap (λ n. n.refcount) first) in
        let flag : (item_at st₁ p).it_flags.linked ≡ false =
          ap (λ n. n.it_flags.linked) first ∙ last.unlinked in
        rw (last.used, pos, nobody, flag, h, t)
          (Returns-bind
            (do_slabs_free p (item_ntotal (item_at st₁ p)) (item_at st₁ p).slabs_clsid
              (st₂.lru.mem, st.slabs))
            _ freed λ got f. (st₃ got f, refl, (freed-IsStore got f, refl, f.list.free.1)))
