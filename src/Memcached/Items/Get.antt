-- ===== src/Memcached/Items/Get.antt =====
-- src/items.c: `do_item_get`, with the expiry of items that nobody has removed.
use native.Mathlib.Decide.{ℕ_discrete}
use mage_artifact_baseline.Common.{
  ℕ, ◌+◌, ◌^◌, ◌≤◌, ◌<◌, ◌≡◌, ◌≢◌, refl, sym, ap, ◌∙◌, subst, Bool, true, some, List, [], ◌∷◌, ◌++◌,
  arith, inl, inr, ◌==◌, if◌then◌else◌, Bool-cases, length, Returns,
}
use mage_artifact_baseline.Memcached.Heap.{StrItem, Mem, write}
use mage_artifact_baseline.Memcached.Heap.Segments.{Apart, Distinct, write_self, write_other}
use mage_artifact_baseline.Memcached.Heap.Writes.{Off-sym, Off-cons, Off-nil}
use mage_artifact_baseline.Memcached.Lru.{put}
use mage_artifact_baseline.Memcached.Lru.Queue.{put_self, put_other}
use mage_artifact_baseline.Memcached.Slabs.{is_class}
use mage_artifact_baseline.Memcached.Slabs.Agree.{Agree-IsFree}
use mage_artifact_baseline.Memcached.Assoc.{Item, ItemKeys}
use mage_artifact_baseline.Memcached.Assoc.Holds.{holds}
use mage_artifact_baseline.Memcached.Items.{Store, item_at, put_item, do_item_remove}
use mage_artifact_baseline.Memcached.Items.Invariant.{
  In, Off-In, Distinct-cut, SamePlace-IsLru, IsStore,
}
use mage_artifact_baseline.Memcached.Items.Unlinked.{Outside-Agree}
use mage_artifact_baseline.Memcached.Items.Unlink.{less, do_item_remove-held, Gone}
use mage_artifact_baseline.Memcached.Items.Free.{do_item_remove-frees}

module _ {K : Type 0} where
  -- What must stay of an item for the lists and the table.
  pub record SameRole (it it' : StrItem K) : Type 0 where
    pub next : it'.next ≡ it.next
    pub prev : it'.prev ≡ it.prev
    pub class : it'.slabs_clsid ≡ it.slabs_clsid
    pub linked : it'.it_flags.linked ≡ it.it_flags.linked
    pub slabbed : it'.it_flags.slabbed ≡ it.it_flags.slabbed
    pub key : it'.key ≡ it.key

  role_of :
      (p : ℕ) (it : StrItem K) (mem : Mem K)
      → SameRole (mem p) it
      → (a : ℕ) → SameRole (mem a) (write p it mem a)
  role_of p it mem role a = elim (ℕ_discrete a p) [
    | yes e ↦
        let at : write p it mem a ≡ it = ap (write p it mem) e ∙ write_self p it mem in
        subst (λ n. SameRole (mem a) n) (sym at) (subst (λ q. SameRole (mem q) it) (sym e) role)
    | no other ↦
        subst (λ n. SameRole (mem a) n) (sym (write_other p it mem a other))
          record {
            next = refl;
            prev = refl;
            class = refl;
            linked = refl;
            slabbed = refl;
            key = refl;
          }
  ]

module _ {K : Type 0} ⦃keys : ItemKeys K⦄ (is_crawler : ℕ → Bool) where
  -- A write to the other fields of an item that is not free.
  pub put_item-IsStore :
      (p : ℕ) (it : StrItem K) (st : Store K) (queue chunks : ℕ → List ℕ)
      → IsStore is_crawler st queue chunks
      → ((c : ℕ) → Apart p (chunks c))
      → SameRole (item_at st p) it
      → IsStore is_crawler (put_item p it st) queue chunks
  put_item-IsStore p it st queue chunks is apart role =
      let r = role_of p it st.lru.mem role in
      let st' = put_item p it st in
      record {
        lru =
            SamePlace-IsLru is_crawler st.lru st'.lru.mem queue
              (λ a. ((r a).next, (r a).prev, (r a).class)) is.lru;
        assoc = is.assoc;
        queued = λ c y i real.
            let q = is.queued c y i real in
            let entry : K → Item K ℕ = λ k. record { key = k; value = y } in
            record {
              linked = (r y).linked ∙ q.linked;
              used = (r y).slabbed ∙ q.used;
              found =
                  ap (holds st.assoc) (r y).key
                  ∙ q.found
                  ∙ ap (λ k. some (entry k)) (sym (r y).key);
              class = q.class;
              small = q.small;
            };
        found = λ k e h.
            let f = is.found k e h in
            record {
              key = (r e.value).key ∙ f.key;
              place = subst (λ d. In e.value (queue d)) (sym (r e.value).class) f.place;
              real = f.real;
            };
        free = λ c class.
            Agree-IsFree st.lru.mem st'.lru.mem (st.slabs.slabclass c) (chunks c)
              (Outside-Agree (p ∷ []) st.lru.mem st'.lru.mem (chunks c)
                (λ a out. write_other p it st.lru.mem a out.0)
                (Off-cons (chunks c) p [] (apart c) (Off-nil (chunks c))))
              (is.free c class);
        free_queue = is.free_queue;
        free_free = is.free_free;
      }

  pub no_chunk_of :
      (st : Store K) (queue chunks : ℕ → List ℕ) (p d : ℕ)
      → IsStore is_crawler st queue chunks
      → In p (queue d)
      → (c : ℕ) → Apart p (chunks c)
  no_chunk_of st queue chunks p d is i c =
      Off-In (queue d) (chunks c) p (Off-sym (chunks c) (queue d) (is.free_queue c d)) i

  pub gone-Apart :
      (st : Store K) (p : ℕ) (queue chunks : ℕ → List ℕ) (st' : Store K)
      → IsStore is_crawler st queue chunks
      → In p (queue (item_at st p).slabs_clsid)
      → (g : Gone is_crawler st p queue chunks st') → (d : ℕ)
      → Apart p (put (item_at st p).slabs_clsid (g.before ++ g.after) queue d)
  gone-Apart st p queue chunks st' is at g d =
      let c = (item_at st p).slabs_clsid in
      let rest = g.before ++ g.after in
      elim (ℕ_discrete d c) [
        | yes e ↦
            subst (Apart p) (sym (ap (put c rest queue) e ∙ put_self c rest queue))
              (Distinct-cut g.before p g.after (subst Distinct g.split (is.lru.each c).distinct))
        | no other ↦
            subst (Apart p) (sym (put_other c rest queue d other))
              (Off-In (queue c) (queue d) p (is.lru.apart c d (λ e. other (sym e))) at)
      ]

  -- The free chunks after the caller has given its reference back: the chunk of an item that only
  -- the table held besides is among them.
  abbrev pub chunks_after : Store K → ℕ → (ℕ → List ℕ) → ℕ → List ℕ
  chunks_after st p chunks =
      let c = (item_at st p).slabs_clsid in
      if (item_at st p).refcount == 1 then put c (p ∷ chunks c) chunks else chunks

  -- After the item has been unlinked, the caller gives its reference back. `st₀` is the state before
  -- the caller got it.
  pub Gone-remove :
      (st₀ st : Store K) (p : ℕ) (queue chunks : ℕ → List ℕ) (st' : Store K)
      → IsStore is_crawler st queue chunks
      → In p (queue (item_at st p).slabs_clsid)
      → p ≢ 0
      → (g : Gone is_crawler st p queue chunks st')
      → (item_at st p).refcount ≡ (item_at st₀ p).refcount + 1
      → (item_at st p).slabs_clsid ≡ (item_at st₀ p).slabs_clsid
      → 1 ≤ (item_at st₀ p).refcount
      → (item_at st p).refcount < 2 ^ 16
      → is_class (item_at st p).slabs_clsid st.slabs ≡ true
      → length (chunks (item_at st p).slabs_clsid) + 1 < 2 ^ 32
      → Returns (do_item_remove p st') λ st''.
        IsStore is_crawler st''
          (put (item_at st p).slabs_clsid (g.before ++ g.after) queue)
          (chunks_after st₀ p chunks)
        × (st''.assoc ≡ st'.assoc)
  Gone-remove st₀ st p queue chunks st' is at some_item g one_more same_class held small class
        room =
      let c = (item_at st p).slabs_clsid in
      let queue' = put c (g.before ++ g.after) queue in
      let apart = gone-Apart st p queue chunks st' is at g in
      let no_chunk = no_chunk_of st queue chunks p c is at in
      let class' : is_class (item_at st' p).slabs_clsid st'.slabs ≡ true =
        rw (g.slabs, g.class) class in
      let room' : length (chunks (item_at st' p).slabs_clsid) + 1 < 2 ^ 32 = rw g.class room in
      elim (Bool-cases ((item_at st₀ p).refcount == 1)) [
        | inl last ↦
            let freed : Returns (do_item_remove p st') λ st''.
              IsStore is_crawler st'' queue'
                (put (item_at st' p).slabs_clsid (p ∷ chunks (item_at st' p).slabs_clsid) chunks)
              × (st''.assoc ≡ st'.assoc) =
              let (st'', e, (store, table, unowned)) =
                do_item_remove-frees is_crawler st' queue' chunks p g.store
                  record {
                    some_item = some_item;
                    unlinked = g.unlinked;
                    used = g.used;
                    count = ground (arith, g.count, one_more, last);
                    class = class';
                    no_queue = apart;
                    no_chunk = no_chunk;
                  }
                  room' in
              (st'', e, (store, table)) in
            rw last (
              subst
                (λ d. Returns (do_item_remove p st') λ st''.
                  IsStore is_crawler st'' queue' (put d (p ∷ chunks d) chunks)
                  × (st''.assoc ≡ st'.assoc))
                (g.class ∙ same_class) freed)
        | inr others ↦ rw others (
          put_item p (less (item_at st' p)) st',
          do_item_remove-held p st' g.used (ground (arith, g.count, one_more, others, held))
              (omega (arith, g.count)),
          (
            put_item-IsStore p (less (item_at st' p)) st' queue' chunks g.store no_chunk record {
              next = refl;
              prev = refl;
              class = refl;
              linked = refl;
              slabbed = refl;
              key = refl;
            },
            refl,
          ),
        )
      ]
