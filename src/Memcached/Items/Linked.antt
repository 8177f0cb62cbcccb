-- ===== src/Memcached/Items/Linked.antt =====
-- src/items.c: what is left when an item has entered the table and its queue.
use native.Mathlib.Decide.{ℕ_discrete}
use mage_artifact_baseline.Common.{
  some-injective, none-ne-some, ℕ, ◌<◌, ◌≡◌, ◌≢◌, ◌⊎◌, refl, sym, ap, ◌∙◌, subst, Bool, true, false,
  none, some, List, ◌∷◌, inl, inr, Bool-cases,
}
use mage_artifact_baseline.Memcached.Heap.Segments.{Apart, Off, Outside}
use mage_artifact_baseline.Memcached.Heap.Writes.{Off-cons}
use mage_artifact_baseline.Memcached.Lru.{largest_id, put}
use mage_artifact_baseline.Memcached.Lru.Queue.{IsLru, put_self, put_other}
use mage_artifact_baseline.Memcached.Slabs.{is_class}
use mage_artifact_baseline.Memcached.Slabs.Freelist.{IsFree}
use mage_artifact_baseline.Memcached.Slabs.Agree.{Agree-IsFree}
use mage_artifact_baseline.Memcached.Assoc.{Item, ItemKeys}
use mage_artifact_baseline.Memcached.Assoc.Holds.{IsAssoc, holds, update}
use mage_artifact_baseline.Memcached.Items.{Store, item_at}
use mage_artifact_baseline.Memcached.Items.Invariant.{
  In, Apart-In, IsStore, IsQueued, IsFound, entry_of,
}
use mage_artifact_baseline.Memcached.Items.Unlinked.{Kept, Outside-Agree, not_true}

module _ {K : Type 0} ⦃keys : ItemKeys K⦄ (is_crawler : ℕ → Bool) where
  -- An item that is in no list, and whose key is not in the table.
  pub record IsNew (st : Store K) (queue chunks : ℕ → List ℕ) (p : ℕ) : Type 0 where
    pub some_item : p ≢ 0
    pub real : is_crawler p ≡ false
    pub unlinked : (item_at st p).it_flags.linked ≡ false
    pub used : (item_at st p).it_flags.slabbed ≡ false
    pub class : is_class (item_at st p).slabs_clsid st.slabs ≡ true
    pub small : (item_at st p).slabs_clsid < largest_id
    pub no_queue : (c : ℕ) → Apart p (queue c)
    pub no_chunk : (c : ℕ) → Apart p (chunks c)
    pub absent : holds st.assoc (item_at st p).key ≡ none

  module _ (st st' : Store K) (p : ℕ) (queue chunks : ℕ → List ℕ)
      (is : IsStore is_crawler st queue chunks) (new : IsNew st queue chunks p)
      (lru : IsLru is_crawler st'.lru
        (put (item_at st p).slabs_clsid (p ∷ queue (item_at st p).slabs_clsid) queue))
      (assoc : IsAssoc st'.assoc)
      (map' : (k : K)
        → holds st'.assoc k
          ≡ update (holds st.assoc) (item_at st p).key (some (entry_of is_crawler st p)) k)
      (kept : (a : ℕ) → a ≢ p → Kept (item_at st a) (item_at st' a))
      (outside : Outside (p ∷ queue (item_at st p).slabs_clsid) st.lru.mem st'.lru.mem)
      (slabs : st'.slabs ≡ st.slabs) (flag : (item_at st' p).it_flags.linked ≡ true)
      (used : (item_at st' p).it_flags.slabbed ≡ false)
      (key : (item_at st' p).key ≡ (item_at st p).key)
      (class : (item_at st' p).slabs_clsid ≡ (item_at st p).slabs_clsid) where
    abbrev c : ℕ
    c = (item_at st p).slabs_clsid

    abbrev key_p : K
    key_p = (item_at st p).key

    abbrev queue' : ℕ → List ℕ
    queue' = put c (p ∷ queue c) queue

    -- What is in a queue afterwards is the item in its own queue, or was there before.
    in_queue' : (d y : ℕ) → In y (queue' d) → ((y ≡ p) × (d ≡ c)) ⊎ (In y (queue d) × (y ≢ p))
    in_queue' d y i = elim (ℕ_discrete d c) [
      | yes e ↦
          let j : In y (p ∷ queue c) =
            subst (In y) (ap queue' e ∙ put_self c (p ∷ queue c) queue) i in
          elim j [
            | inl same ↦ inl (same, e)
            | inr old ↦
                inr
                  (subst (In y) (sym (ap queue e)) old, Apart-In p y (queue c) old (new.no_queue c))
          ]
      | no other ↦
          let j : In y (queue d) = subst (In y) (put_other c (p ∷ queue c) queue d other) i in
          inr (j, Apart-In p y (queue d) j (new.no_queue d))
    ]

    into_queue' : (d y : ℕ) → In y (queue d) → In y (queue' d)
    into_queue' d y i = elim (ℕ_discrete d c) [
      | yes e ↦
          subst (In y) (sym (ap queue' e ∙ put_self c (p ∷ queue c) queue))
            (inr (subst (In y) (ap queue e) i))
      | no other ↦ subst (In y) (sym (put_other c (p ∷ queue c) queue d other)) i
    ]

    other_key :
        (d y : ℕ)
        → In y (queue d)
        → is_crawler y ≡ false
        → keys.same (item_at st y).key key_p ≡ false
    other_key d y i real = elim (Bool-cases (keys.same (item_at st y).key key_p)) [
      | inr different ↦ different
      | inl same ↦
          let e = keys.same_eq (item_at st y).key key_p same in
          absurd (
            none-ne-some
              (sym new.absent ∙ ap (holds st.assoc) (sym e) ∙ (is.queued d y i real).found))
    ]

    entry_kept : entry_of is_crawler st p ≡ entry_of is_crawler st' p
    entry_kept = let entry : K → Item K ℕ = λ k. record { key = k; value = p } in ap entry (sym key)

    new_queued : IsQueued is_crawler st' c p
    new_queued = record {
      linked = flag;
      used = used;
      found =
          ap (holds st'.assoc) key ∙ map' key_p ∙ rw (keys.same_refl key_p) (ap some entry_kept);
      class = subst (λ s. is_class c s ≡ true) (sym slabs) new.class;
      small = new.small;
    }

    queued' : (d y : ℕ) → In y (queue' d) → is_crawler y ≡ false → IsQueued is_crawler st' d y
    queued' d y i real = elim (in_queue' d y i) [
      | inl (same, at) ↦
          subst (λ w. IsQueued is_crawler st' d w) (sym same)
            (subst (λ e. IsQueued is_crawler st' e p) (sym at) new_queued)
      | inr (old, other) ↦
          let q = is.queued d y old real in
          let key_y = ap (λ n. n.key) (kept y other) in
          let entry : K → Item K ℕ = λ k. record { key = k; value = y } in
          record {
            linked = ap (λ n. n.it_flags.linked) (kept y other) ∙ q.linked;
            used = ap (λ n. n.it_flags.slabbed) (kept y other) ∙ q.used;
            found =
                ap (holds st'.assoc) key_y
                ∙ map' (item_at st y).key
                ∙ rw (other_key d y old real) q.found
                ∙ ap (λ k. some (entry k)) (sym key_y);
            class = subst (λ s. is_class d s ≡ true) (sym slabs) q.class;
            small = q.small;
          }
    ]

    found' :
        (k : K) (e : Item K ℕ)
        → holds st'.assoc k ≡ some e
        → IsFound is_crawler st' queue' k e.value
    found' k e h = elim (Bool-cases (keys.same k key_p)) [
      | inl same ↦
          let it : entry_of is_crawler st p ≡ e = some-injective (sym (map' k ∙ rw same) ∙ h) in
          let value : p ≡ e.value = ap (λ (q : Item K ℕ). q.value) it in
          subst (λ y. IsFound is_crawler st' queue' k y) value
            record {
              key = key ∙ sym (keys.same_eq k key_p same);
              place =
                  subst (λ d. In p (queue' d)) (sym class)
                    (subst (In p) (sym (put_self c (p ∷ queue c) queue)) (inl refl));
              real = new.real;
            }
      | inr different ↦
          let f = is.found k e (sym (map' k ∙ rw different) ∙ h) in
          let other : e.value ≢ p = λ same.
            let at : key_p ≡ k = sym (ap (λ a. (item_at st a).key) same) ∙ f.key in
            not_true (sym (keys.same_refl k) ∙ ap (keys.same k) (sym at) ∙ different) in
          record {
            key = ap (λ n. n.key) (kept e.value other) ∙ f.key;
            place =
                subst (λ d. In e.value (queue' d))
                  (sym (ap (λ n. n.slabs_clsid) (kept e.value other)))
                  (into_queue' (item_at st e.value).slabs_clsid e.value f.place);
            real = f.real;
          }
    ]

    chunks-Off : (d : ℕ) → Off (chunks d) (p ∷ queue c)
    chunks-Off d = Off-cons (chunks d) p (queue c) (new.no_chunk d) (is.free_queue d c)

    pub linked-IsStore : IsStore is_crawler st' queue' chunks
    linked-IsStore = record {
      lru = lru;
      assoc = assoc;
      queued = queued';
      found = found';
      free = λ d class'.
          subst (λ s. IsFree st'.lru.mem (s.slabclass d) (chunks d)) (sym slabs)
            (Agree-IsFree st.lru.mem st'.lru.mem (st.slabs.slabclass d) (chunks d)
              (Outside-Agree (p ∷ queue c) st.lru.mem st'.lru.mem (chunks d) outside (chunks-Off d))
              (is.free d (subst (λ s. is_class d s ≡ true) slabs class')));
      free_queue = λ d e. elim (ℕ_discrete e c) [
        | yes f ↦
            subst (Off (chunks d)) (sym (ap queue' f ∙ put_self c (p ∷ queue c) queue))
              (chunks-Off d)
        | no other ↦
            subst (Off (chunks d)) (sym (put_other c (p ∷ queue c) queue e other))
              (is.free_queue d e)
      ];
      free_free = is.free_free;
    }
