-- ===== src/Memcached/Items/Unlinked.antt =====
-- src/items.c: what is left when an item has gone from the table and from its queue.
use native.Mathlib.Decide.{ℕ_discrete}
use mage_artifact_baseline.Common.{
  some-injective, none-ne-some, ℕ, ◌≡◌, ◌≢◌, refl, sym, ap, ◌∙◌, subst, Bool, true, false, none,
  some, List, [], ◌∷◌, ◌++◌, inl, inr, Bool-cases,
}
use mage_artifact_baseline.Memcached.Heap.{StrItem, Mem}
use mage_artifact_baseline.Memcached.Heap.Segments.{Off, Distinct, Outside}
use mage_artifact_baseline.Memcached.Lru.{put}
use mage_artifact_baseline.Memcached.Lru.Queue.{IsLru, put_self, put_other}
use mage_artifact_baseline.Memcached.Lru.Cut.{Off-cut}
use mage_artifact_baseline.Memcached.Slabs.{is_class}
use mage_artifact_baseline.Memcached.Slabs.Freelist.{IsFree}
use mage_artifact_baseline.Memcached.Slabs.Agree.{Agree, Agree-IsFree}
use mage_artifact_baseline.Memcached.Assoc.{Item, ItemKeys}
use mage_artifact_baseline.Memcached.Assoc.Holds.{IsAssoc, holds, update}
use mage_artifact_baseline.Memcached.Items.{Store, item_at}
use mage_artifact_baseline.Memcached.Items.Invariant.{
  In, Apart-In, In-cut, In-uncut, Off-In, Distinct-cut, IsStore, IsQueued, IsFound,
}

module _ {K : Type 0} where
  -- Nothing but the links has changed.
  abbrev pub Kept : StrItem K → StrItem K → Type 0
  Kept it it' = record it' { next = it.next; prev = it.prev } ≡ it

  pub Outside-Agree :
      (ws : List ℕ) (mem mem' : Mem K) (xs : List ℕ)
      → Outside ws mem mem'
      → Off xs ws
      → Agree mem mem' xs
  Outside-Agree ws mem mem' [] out off = tt
  Outside-Agree ws mem mem' (x ∷ xs) out (here, off) =
      (out x here, Outside-Agree ws mem mem' xs out off)

pub not_true : true ≡ false → ⊥
not_true e = cc

module _ {K : Type 0} ⦃keys : ItemKeys K⦄ (is_crawler : ℕ → Bool) where
  module _ (st st' : Store K) (p : ℕ) (queue chunks : ℕ → List ℕ) (xs zs : List ℕ)
      (is : IsStore is_crawler st queue chunks)
      (split : queue (item_at st p).slabs_clsid ≡ xs ++ p ∷ zs)
      (lru : IsLru is_crawler st'.lru (put (item_at st p).slabs_clsid (xs ++ zs) queue))
      (assoc : IsAssoc st'.assoc)
      (map' : (k : K) → holds st'.assoc k ≡ update (holds st.assoc) (item_at st p).key none k)
      (kept : (a : ℕ) → a ≢ p → Kept (item_at st a) (item_at st' a))
      (outside : Outside (xs ++ p ∷ zs) st.lru.mem st'.lru.mem) (slabs : st'.slabs ≡ st.slabs)
      (real : is_crawler p ≡ false) where
    abbrev c : ℕ
    c = (item_at st p).slabs_clsid

    abbrev key_p : K
    key_p = (item_at st p).key

    in_queue : In p (queue c)
    in_queue = subst (In p) (sym split) (middle xs)
      where
        middle : (ys : List ℕ) → In p (ys ++ p ∷ zs)
        middle [] = inl refl
        middle (y ∷ ys) = inr (middle ys)

    -- What is in a queue afterwards was there before, and is not the item.
    still_there : (d y : ℕ) → In y (put c (xs ++ zs) queue d) → In y (queue d) × (y ≢ p)
    still_there d y i = elim (ℕ_discrete d c) [
      | yes e ↦
          let j : In y (xs ++ zs) =
            subst (In y) (ap (put c (xs ++ zs) queue) e ∙ put_self c (xs ++ zs) queue) i in
          (
            subst (In y) (sym (ap queue e ∙ split)) (In-cut y xs p zs j),
            Apart-In p y (xs ++ zs) j
                (Distinct-cut xs p zs (subst Distinct split (is.lru.each c).distinct)),
          )
      | no other ↦
          let j : In y (queue d) = subst (In y) (put_other c (xs ++ zs) queue d other) i in
          (
            j,
            Apart-In p y (queue d) j
                (Off-In (queue c) (queue d) p (is.lru.apart c d (λ e. other (sym e))) in_queue),
          )
    ]

    key_kept : (a : ℕ) → a ≢ p → (item_at st' a).key ≡ (item_at st a).key
    key_kept a other = ap (λ n. n.key) (kept a other)

    -- Two queued items have different keys.
    other_key :
        (d y : ℕ)
        → In y (queue d)
        → is_crawler y ≡ false
        → y ≢ p
        → keys.same (item_at st y).key key_p ≡ false
    other_key d y i real_y other = elim (Bool-cases (keys.same (item_at st y).key key_p)) [
      | inr different ↦ different
      | inl same ↦
          let e = keys.same_eq (item_at st y).key key_p same in
          let twice =
            sym (is.queued d y i real_y).found
            ∙ ap (holds st.assoc) e
            ∙ (is.queued c p in_queue real).found in
          absurd (other (ap (λ (q : Item K ℕ). q.value) (some-injective twice)))
    ]

    queued' :
        (d y : ℕ)
        → In y (put c (xs ++ zs) queue d)
        → is_crawler y ≡ false
        → IsQueued is_crawler st' d y
    queued' d y i real_y =
        let (j, other) = still_there d y i in
        let q = is.queued d y j real_y in
        record {
          linked = ap (λ n. n.it_flags.linked) (kept y other) ∙ q.linked;
          used = ap (λ n. n.it_flags.slabbed) (kept y other) ∙ q.used;
          found =
              ap (holds st'.assoc) (key_kept y other)
              ∙ map' (item_at st y).key
              ∙ rw (other_key d y j real_y other) q.found
              ∙ ap (λ k. some (record { key = k; value = y })) (sym (key_kept y other));
          class = subst (λ s. is_class d s ≡ true) (sym slabs) q.class;
          small = q.small;
        }

    still_queued :
        (y : ℕ)
        → In y (queue (item_at st y).slabs_clsid)
        → y ≢ p
        → In y (put c (xs ++ zs) queue (item_at st' y).slabs_clsid)
    still_queued y i other =
        let d = (item_at st y).slabs_clsid in
        subst (λ e. In y (put c (xs ++ zs) queue e)) (sym (ap (λ n. n.slabs_clsid) (kept y other)))
          (elim (ℕ_discrete d c) [
            | yes e ↦
                subst (In y) (sym (ap (put c (xs ++ zs) queue) e ∙ put_self c (xs ++ zs) queue))
                  (In-uncut y xs p zs (subst (In y) (ap queue e ∙ split) i) other)
            | no different ↦ subst (In y) (sym (put_other c (xs ++ zs) queue d different)) i
          ])

    found' :
        (k : K) (e : Item K ℕ)
        → holds st'.assoc k ≡ some e
        → IsFound is_crawler st' (put c (xs ++ zs) queue) k e.value
    found' k e h = elim (Bool-cases (keys.same k key_p)) [
      | inl same ↦
          let gone : holds st'.assoc k ≡ none = map' k ∙ rw same in
          absurd (none-ne-some (sym gone ∙ h))
      | inr different ↦
          let before : holds st.assoc k ≡ some e = sym (map' k ∙ rw different) ∙ h in
          let f = is.found k e before in
          let other : e.value ≢ p = λ same.
            let at : key_p ≡ k = sym (ap (λ a. (item_at st a).key) same) ∙ f.key in
            not_true (sym (keys.same_refl k) ∙ ap (keys.same k) (sym at) ∙ different) in
          record {
            key = key_kept e.value other ∙ f.key;
            place = still_queued e.value f.place other;
            real = f.real;
          }
    ]

    free' :
        (d : ℕ)
        → is_class d st'.slabs ≡ true
        → IsFree st'.lru.mem (st'.slabs.slabclass d) (chunks d)
    free' d class =
        let off : Off (chunks d) (xs ++ p ∷ zs) =
          subst (Off (chunks d)) split (is.free_queue d c) in
        subst (λ s. IsFree st'.lru.mem (s.slabclass d) (chunks d)) (sym slabs)
          (Agree-IsFree st.lru.mem st'.lru.mem (st.slabs.slabclass d) (chunks d)
            (Outside-Agree (xs ++ p ∷ zs) st.lru.mem st'.lru.mem (chunks d) outside off)
            (is.free d (subst (λ s. is_class d s ≡ true) slabs class)))

    pub unlinked-IsStore : IsStore is_crawler st' (put c (xs ++ zs) queue) chunks
    unlinked-IsStore = record {
      lru = lru;
      assoc = assoc;
      queued = queued';
      found = found';
      free = free';
      free_queue = λ d e. elim (ℕ_discrete e c) [
        | yes f ↦
            subst (Off (chunks d))
              (sym (ap (put c (xs ++ zs) queue) f ∙ put_self c (xs ++ zs) queue))
              (Off-cut (chunks d) xs p zs (subst (Off (chunks d)) split (is.free_queue d c)))
        | no other ↦
            subst (Off (chunks d)) (sym (put_other c (xs ++ zs) queue e other)) (is.free_queue d e)
      ];
      free_free = is.free_free;
    }
