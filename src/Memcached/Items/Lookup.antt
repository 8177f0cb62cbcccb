-- ===== src/Memcached/Items/Lookup.antt =====
-- src/items.c: what `do_item_get` answers.
use mage_artifact_baseline.Common.{
  ℕ, ◌+◌, ◌^◌, ◌≤◌, ◌<◌, ◌≡◌, ◌≢◌, ◌⊎◌, refl, sym, ap, ◌∙◌, subst, Bool, true, false, ◌||◌, none,
  some, List, [], ◌∷◌, ◌++◌, arith, inl, inr, if◌then◌else◌, ◌>>=◌, Bool-cases, Option-cases,
  length, Returns, Returns-bind,
}
use mage_artifact_baseline.Memcached.Heap.{StrItem, Mem}
use mage_artifact_baseline.Memcached.Heap.Segments.{Apart, Seg, write_self, write_other}
use mage_artifact_baseline.Memcached.Lru.{Lru, put}
use mage_artifact_baseline.Memcached.Slabs.{is_class}
use mage_artifact_baseline.Memcached.Assoc.{Item, ItemKeys}
use mage_artifact_baseline.Memcached.Assoc.Holds.{holds, update, assoc_find-holds}
use mage_artifact_baseline.Memcached.Items.{
  Settings, Store, item_at, put_item, set_fetched, refcount_incr, is_dead, in_moving_page,
  do_item_remove, do_item_unlink, do_item_get,
}
use mage_artifact_baseline.Memcached.Items.Invariant.{In, IsStore, IsQueued, IsFound}
use mage_artifact_baseline.Memcached.Items.Unlink.{Gone, do_item_unlink-Gone}
use mage_artifact_baseline.Memcached.Items.Link.{more}
use mage_artifact_baseline.Memcached.Items.Get.{
  put_item-IsStore, no_chunk_of, chunks_after, Gone-remove,
}

pub In-ne_zero :
    {K : Type 0} (mem : Mem K) (before h : ℕ) (xs : List ℕ) (stop p : ℕ)
    → Seg mem before h xs stop
    → In p xs
    → p ≢ 0
In-ne_zero mem before h [] stop p s i = elim i [ ]
In-ne_zero mem before h (x ∷ xs) stop p s (inl e) = λ z. s.1 (sym e ∙ z)
In-ne_zero mem before h (x ∷ xs) stop p s (inr i) = In-ne_zero mem x (mem x).next xs stop p s.3 i

-- The store with another content of the memory.
abbrev pub with_mem : {K : Type 0} → Mem K → Store K → Store K
with_mem {K = K} mem st = let lru : Lru K = record st.lru { mem = mem } in record st { lru = lru }

-- Whether `do_item_get` drops the item at `p`.
abbrev pub is_dropped : {K : Type 0} → Settings → Store K → ℕ → Bool
is_dropped settings st p = in_moving_page p st.rebal || is_dead settings (item_at st p)

module _ {K : Type 0} ⦃keys : ItemKeys K⦄ (is_crawler : ℕ → Bool) (settings : Settings) where
  -- The caller gets the item, with a reference and the mark that it has been fetched.
  pub record Hit (st : Store K) (k : K) (queue chunks : ℕ → List ℕ) (p : ℕ) (st' : Store K)
      : Type 0 where
    pub entry : Item K ℕ
    pub found : holds st.assoc k ≡ some entry
    pub alive : is_dropped settings st entry.value ≡ false
    pub address : p ≡ entry.value
    pub store : IsStore is_crawler st' queue chunks
    pub table : st'.assoc ≡ st.assoc
    pub count : (item_at st' p).refcount ≡ (item_at st p).refcount + 1
    pub fetched : (item_at st' p).it_flags.fetched ≡ true
    pub whole : item_at st' p ≡ set_fetched (more (item_at st p))
    pub others : (a : ℕ) → a ≢ p → item_at st' a ≡ item_at st a
    pub rest : with_mem st.lru.mem st' ≡ st
    pub some_item : p ≢ 0
    pub used : (item_at st p).it_flags.slabbed ≡ false
    pub no_chunk : (c : ℕ) → Apart p (chunks c)

  -- The item is taken out of the table and the queue; if nobody else held it, its chunk is free.
  pub record Dropped (st : Store K) (k : K) (queue chunks : ℕ → List ℕ) (p : ℕ) (st' : Store K)
      : Type 0 where
    pub entry : Item K ℕ
    pub found : holds st.assoc k ≡ some entry
    pub dead : is_dropped settings st entry.value ≡ true
    pub nothing : p ≡ 0
    pub before : List ℕ
    pub after : List ℕ
    pub split : queue (item_at st entry.value).slabs_clsid ≡ before ++ entry.value ∷ after
    pub store :
        IsStore is_crawler st'
          (put (item_at st entry.value).slabs_clsid (before ++ after) queue)
          (chunks_after is_crawler st entry.value chunks)
    pub table : (j : K) → holds st'.assoc j ≡ update (holds st.assoc) k none j

  abbrev pub Got : Store K → K → (ℕ → List ℕ) → (ℕ → List ℕ) → ℕ × Store K → Type 0
  Got st k queue chunks (p, st') =
      ((holds st.assoc k ≡ none) × (p ≡ 0) × (st' ≡ st))
      ⊎ Hit st k queue chunks p st'
      ⊎ Dropped st k queue chunks p st'

  module _ (st : Store K) (k : K) (queue chunks : ℕ → List ℕ)
      (is : IsStore is_crawler st queue chunks) (e : Item K ℕ) (found : holds st.assoc k ≡ some e)
      (held : 1 ≤ (item_at st e.value).refcount)
      (small : (item_at st e.value).refcount + 1 < 2 ^ 16) (items : st.assoc.hash_items < 2 ^ 32)
      (room : length (chunks (item_at st e.value).slabs_clsid) + 1 < 2 ^ 32) where
    abbrev p : ℕ
    p = e.value

    abbrev it : StrItem K
    it = item_at st p

    abbrev st₁ : Store K
    st₁ = put_item p (more it) st

    f : IsFound is_crawler st queue k p
    f = is.found k e found

    q : IsQueued is_crawler st it.slabs_clsid p
    q = is.queued it.slabs_clsid p f.place f.real

    first : item_at st₁ p ≡ more it
    first = write_self p (more it) st.lru.mem

    no_chunk : (c : ℕ) → Apart p (chunks c)
    no_chunk = no_chunk_of is_crawler st queue chunks p it.slabs_clsid is f.place

    is₁ : IsStore is_crawler st₁ queue chunks
    is₁ =
        put_item-IsStore is_crawler p (more it) st queue chunks is no_chunk record {
          next = refl;
          prev = refl;
          class = refl;
          linked = refl;
          slabbed = refl;
          key = refl;
        }

    same_death : is_dropped settings st₁ p ≡ is_dropped settings st p
    unfolding is_dead
    same_death = ap (λ n. in_moving_page p st.rebal || is_dead settings n) first

    hit :
        is_dropped settings st p ≡ false
        → Hit st k queue chunks p (put_item p (set_fetched (item_at st₁ p)) st₁)
    hit alive =
        let self = write_self p (set_fetched (item_at st₁ p)) st₁.lru.mem in
        record {
          entry = e;
          found = found;
          alive = alive;
          address = refl;
          store =
              put_item-IsStore is_crawler p (set_fetched (item_at st₁ p)) st₁ queue chunks is₁
                no_chunk
                record {
                  next = refl;
                  prev = refl;
                  class = refl;
                  linked = refl;
                  slabbed = refl;
                  key = refl;
                };
          table = refl;
          count = omega (arith, ap (λ n. n.refcount) self, ap (λ n. n.refcount) first);
          fetched = ap (λ n. n.it_flags.fetched) self;
          whole = self ∙ ap set_fetched first;
          others = λ a other.
              write_other p (set_fetched (item_at st₁ p)) st₁.lru.mem a other
              ∙ write_other p (more it) st.lru.mem a other;
          rest = refl;
          some_item =
              In-ne_zero st.lru.mem 0 (st.lru.heads it.slabs_clsid) (queue it.slabs_clsid) 0 p
                (is.lru.each it.slabs_clsid).links f.place;
          used = q.used;
          no_chunk = no_chunk;
        }

    -- A live item is found.
    pub do_item_get-Hit :
        is_dropped settings st p ≡ false
        → Returns
            (do_item_get settings k (keys.hash k) st)
            λ (found, st'). Hit st k queue chunks found st'
    unfolding do_item_get refcount_incr
    do_item_get-Hit alive =
        rw (assoc_find-holds k st.assoc is.assoc ∙ ap some found, same_death ∙ alive)
          (_, refl, hit alive)

    key₁ : (item_at st₁ p).key ≡ k
    key₁ = ap (λ n. n.key) first ∙ f.key

    class₁ : (item_at st₁ p).slabs_clsid ≡ it.slabs_clsid
    class₁ = ap (λ n. n.slabs_clsid) first

    place₁ : In p (queue (item_at st₁ p).slabs_clsid)
    place₁ = subst (λ d. In p (queue d)) (sym class₁) f.place

    count₁ : (item_at st₁ p).refcount ≡ it.refcount + 1
    count₁ = omega (arith, ap (λ n. n.refcount) first)

    unlinks : Returns (do_item_unlink p (keys.hash k) st₁) (Gone is_crawler st₁ p queue chunks)
    unlinks =
        subst
          (λ j. Returns (do_item_unlink p (keys.hash j) st₁) (Gone is_crawler st₁ p queue chunks))
          key₁
          (do_item_unlink-Gone is_crawler p st₁ queue chunks is₁ place₁ f.real
            (omega (arith, count₁, held)) (omega (arith, count₁, small)) items)

    removes :
        (st₂ : Store K) (g : Gone is_crawler st₁ p queue chunks st₂)
        → Returns (do_item_remove p st₂) λ st₃.
          IsStore is_crawler st₃
            (put (item_at st₁ p).slabs_clsid (g.before ++ g.after) queue)
            (chunks_after is_crawler st p chunks)
          × (st₃.assoc ≡ st₂.assoc)
    removes st₂ g =
        Gone-remove is_crawler st st₁ p queue chunks st₂ is₁ place₁
          (In-ne_zero st.lru.mem 0 (st.lru.heads it.slabs_clsid) (queue it.slabs_clsid) 0 p
            (is.lru.each it.slabs_clsid).links f.place)
          g count₁ class₁ held (omega (arith, count₁, small))
          (ap (λ d. is_class d st.slabs) class₁ ∙ q.class)
          (subst (λ d. length (chunks d) + 1 < 2 ^ 32) (sym class₁) room)

    dropped :
        is_dropped settings st p ≡ true
        → (st₂ : Store K) (g : Gone is_crawler st₁ p queue chunks st₂) → (st₃ : Store K)
        → IsStore is_crawler st₃
            (put (item_at st₁ p).slabs_clsid (g.before ++ g.after) queue)
            (chunks_after is_crawler st p chunks)
        → st₃.assoc ≡ st₂.assoc
        → Dropped st k queue chunks 0 st₃
    dropped dead st₂ g st₃ is₃ table = record {
      entry = e;
      found = found;
      dead = dead;
      nothing = refl;
      before = g.before;
      after = g.after;
      split = ap queue (sym class₁) ∙ g.split;
      store =
          subst
            (λ d.
              IsStore is_crawler st₃ (put d (g.before ++ g.after) queue)
                (chunks_after is_crawler st p chunks))
            class₁ is₃;
      table = λ j.
          ap (λ a. holds a j) table ∙ g.table j ∙ ap (λ i. update (holds st.assoc) i none j) key₁;
    }

    got :
        Returns
          (if in_moving_page p st.rebal || is_dead settings (item_at st₁ p)
            then ((do_item_unlink p (keys.hash k) st₁ >>= do_item_remove p) >>= λ gone.
                some (0, gone))
            else some (p, put_item p (set_fetched (item_at st₁ p)) st₁))
          (Got st k queue chunks)
    got = elim (Bool-cases (is_dropped settings st p)) [
      | inl dead ↦ rw (same_death ∙ dead) (
          Returns-bind (do_item_unlink p (keys.hash k) st₁ >>= do_item_remove p) _
            (Returns-bind (do_item_unlink p (keys.hash k) st₁) _ unlinks λ st₂ g.
              let (st₃, e₃, (is₃, table)) = removes st₂ g in
              (st₃, e₃, dropped dead st₂ g st₃ is₃ table))
            λ st₃ d. ((0, st₃), refl, inr (inr d)))
      | inr alive ↦ rw (same_death ∙ alive) (_, refl, inr (inl (hit alive)))
    ]

  -- What the lookup of a key needs of the item that the table finds: a reference count that can grow,
  -- and a free list whose length the counter can hold.
  pub record IsReady (st : Store K) (chunks : ℕ → List ℕ) (e : Item K ℕ) : Type 0 where
    pub held : 1 ≤ (item_at st e.value).refcount
    pub small : (item_at st e.value).refcount + 1 < 2 ^ 16
    pub room : length (chunks (item_at st e.value).slabs_clsid) + 1 < 2 ^ 32

  -- The lookup never fails on a consistent store. Of a key that is not in the table it answers NULL;
  -- a live item it returns with one reference more; an item that has expired, was flushed or stands
  -- in a moving page leaves the table and its queue, its chunk is freed if nobody else holds it,
  -- and the answer is NULL. In each case the store stays consistent. The reference count of a found
  -- item must be positive and below its bound, and the counters of items and chunks in range.
  pub do_item_get-Got :
      (st : Store K) (k : K) (queue chunks : ℕ → List ℕ)
      → IsStore is_crawler st queue chunks
      → ((e : Item K ℕ) → holds st.assoc k ≡ some e → IsReady st chunks e)
      → st.assoc.hash_items < 2 ^ 32
      → Returns (do_item_get settings k (keys.hash k) st) (Got st k queue chunks)
  unfolding do_item_get refcount_incr
  do_item_get-Got st k queue chunks is ready items = elim (Option-cases (holds st.assoc k)) [
    | inl e ↦
        rw (assoc_find-holds k st.assoc is.assoc ∙ ap some e) ((0, st), refl, inl (e, refl, refl))
    | inr (e, found) ↦
        let r = ready e found in
        rw (assoc_find-holds k st.assoc is.assoc ∙ ap some found)
          (got st k queue chunks is e found r.held r.small items r.room)
  ]

  pub do_item_get-absent :
      (st : Store K) (k : K) (queue chunks : ℕ → List ℕ)
      → IsStore is_crawler st queue chunks
      → holds st.assoc k ≡ none
      → do_item_get settings k (keys.hash k) st ≡ some (0, st)
  unfolding do_item_get
  do_item_get-absent st k queue chunks is absent =
      rw (assoc_find-holds k st.assoc is.assoc ∙ ap some absent)
