-- ===== src/Memcached/Items/Invariant.antt =====
-- src/items.c: how the hash table, the queues, the free chunks and the items fit together.
use mage_artifact_baseline.Common.{
  ℕ, ◌<◌, ◌≡◌, ◌≢◌, ◌⊎◌, sym, ap, ◌∙◌, subst, Bool, true, false, some, List, [], ◌∷◌, ◌++◌, inl,
  inr,
}
use mage_artifact_baseline.Memcached.Heap.{Mem}
use mage_artifact_baseline.Memcached.Heap.Segments.{Apart, Off, Distinct, SameLinks, Seg-frame}
use mage_artifact_baseline.Memcached.Heap.Writes.{Apart-split}
use mage_artifact_baseline.Memcached.Lru.{Lru, largest_id}
use mage_artifact_baseline.Memcached.Lru.Queue.{IsLru, InClass}
use mage_artifact_baseline.Memcached.Slabs.{is_class}
use mage_artifact_baseline.Memcached.Slabs.Freelist.{IsFree}
use mage_artifact_baseline.Memcached.Assoc.{Item, ItemKeys}
use mage_artifact_baseline.Memcached.Assoc.Holds.{IsAssoc, holds}
use mage_artifact_baseline.Memcached.Items.{Store, item_at}

abbrev pub In : ℕ → List ℕ → Type 0
In p [] = ⊥
In p (x ∷ xs) = (p ≡ x) ⊎ In p xs

pub In-Apart : (p : ℕ) (xs : List ℕ) → In p xs → Apart p xs → ⊥
In-Apart p [] i apart = elim i [ ]
In-Apart p (x ∷ xs) (inl e) (other, apart) = other e
In-Apart p (x ∷ xs) (inr i) (other, apart) = In-Apart p xs i apart

module _ {K : Type 0} where
  -- The links and the class of every item are the same.
  abbrev pub SamePlace : Mem K → Mem K → Type 0
  SamePlace mem mem' =
      (a : ℕ)
      → ((mem' a).next ≡ (mem a).next)
        × ((mem' a).prev ≡ (mem a).prev)
        × ((mem' a).slabs_clsid ≡ (mem a).slabs_clsid)

  SamePlace-SameLinks :
      (mem mem' : Mem K) (xs : List ℕ) → SamePlace mem mem' → SameLinks mem mem' xs
  SamePlace-SameLinks mem mem' [] same = tt
  SamePlace-SameLinks mem mem' (x ∷ xs) same =
      ((same x).0, (same x).1, SamePlace-SameLinks mem mem' xs same)

  SamePlace-InClass :
      (mem mem' : Mem K) (c : ℕ) (xs : List ℕ)
      → SamePlace mem mem'
      → InClass mem c xs
      → InClass mem' c xs
  SamePlace-InClass mem mem' c [] same is = tt
  SamePlace-InClass mem mem' c (x ∷ xs) same (is, rest) =
      ((same x).2 ∙ is, SamePlace-InClass mem mem' c xs same rest)

  pub SamePlace-IsLru :
      (is_crawler : ℕ → Bool) (lru : Lru K) (mem' : Mem K) (queue : ℕ → List ℕ)
      → SamePlace lru.mem mem'
      → IsLru is_crawler lru queue
      → IsLru is_crawler (record lru { mem = mem' }) queue
  SamePlace-IsLru is_crawler lru mem' queue same is = record {
    each = λ c.
        let q = is.each c in
        record {
          links =
              Seg-frame lru.mem mem' 0 (lru.heads c) (queue c) 0
                (SamePlace-SameLinks lru.mem mem' (queue c) same) q.links;
          tail = q.tail;
          distinct = q.distinct;
          class = SamePlace-InClass lru.mem mem' c (queue c) same q.class;
          size = q.size;
        };
    apart = is.apart;
  }

  pub InClass-In :
      (mem : Mem K) (c p : ℕ) (xs : List ℕ) → InClass mem c xs → In p xs → (mem p).slabs_clsid ≡ c
  InClass-In mem c p [] is i = elim i [ ]
  InClass-In mem c p (x ∷ xs) (is, rest) (inl e) = ap (λ q. (mem q).slabs_clsid) e ∙ is
  InClass-In mem c p (x ∷ xs) (is, rest) (inr i) = InClass-In mem c p xs rest i

module _ {K : Type 0} ⦃keys : ItemKeys K⦄ (is_crawler : ℕ → Bool) where
  -- The entry of an item in the hash table.
  abbrev pub entry_of : Store K → ℕ → Item K ℕ
  entry_of st p = record { key = (item_at st p).key; value = p }

  -- What holds of an item in the queue of class `c`.
  pub record IsQueued (st : Store K) (c p : ℕ) : Type 0 where
    pub linked : (item_at st p).it_flags.linked ≡ true
    pub used : (item_at st p).it_flags.slabbed ≡ false
    pub found : holds st.assoc (item_at st p).key ≡ some (entry_of st p)
    pub class : is_class c st.slabs ≡ true
    pub small : c < largest_id

  -- What holds of an item that the hash table finds under `k`.
  pub record IsFound (st : Store K) (queue : ℕ → List ℕ) (k : K) (p : ℕ) : Type 0 where
    pub key : (item_at st p).key ≡ k
    pub place : In p (queue (item_at st p).slabs_clsid)
    pub real : is_crawler p ≡ false

  -- Every queued item is linked, in use, and found under its key, and nothing else is found. The
  -- free chunks of the classes are lists that share nothing with each other or with the queues.
  pub record IsStore (st : Store K) (queue chunks : ℕ → List ℕ) : Type 0 where
    pub lru : IsLru is_crawler st.lru queue
    pub assoc : IsAssoc st.assoc
    pub queued : (c p : ℕ) → In p (queue c) → is_crawler p ≡ false → IsQueued st c p
    pub found : (k : K) (e : Item K ℕ) → holds st.assoc k ≡ some e → IsFound st queue k e.value
    pub free :
        (c : ℕ) → is_class c st.slabs ≡ true → IsFree st.lru.mem (st.slabs.slabclass c) (chunks c)
    pub free_queue : (c d : ℕ) → Off (chunks c) (queue d)
    pub free_free : (c d : ℕ) → c ≢ d → Off (chunks c) (chunks d)

pub Apart-In : (p y : ℕ) (xs : List ℕ) → In y xs → Apart p xs → y ≢ p
Apart-In p y xs i apart = λ e. In-Apart p xs (subst (λ z. In z xs) e i) apart

pub In-split : (p : ℕ) (ys : List ℕ) → In p ys → (xs : List ℕ) × (zs : List ℕ) × (ys ≡ xs ++ p ∷ zs)
In-split p [] i = elim i [ ]
In-split p (y ∷ ys) (inl e) = ([], ys, ap (λ z. z ∷ ys) (sym e))
In-split p (y ∷ ys) (inr i) = let (xs, zs, e) = In-split p ys i in (y ∷ xs, zs, ap (λ l. y ∷ l) e)

pub In-cut : (y : ℕ) (xs : List ℕ) (p : ℕ) (zs : List ℕ) → In y (xs ++ zs) → In y (xs ++ p ∷ zs)
In-cut y [] p zs i = inr i
In-cut y (x ∷ xs) p zs (inl e) = inl e
In-cut y (x ∷ xs) p zs (inr i) = inr (In-cut y xs p zs i)

pub In-uncut :
    (y : ℕ) (xs : List ℕ) (p : ℕ) (zs : List ℕ) → In y (xs ++ p ∷ zs) → y ≢ p → In y (xs ++ zs)
In-uncut y [] p zs (inl e) other = absurd (other e)
In-uncut y [] p zs (inr i) other = i
In-uncut y (x ∷ xs) p zs (inl e) other = inl e
In-uncut y (x ∷ xs) p zs (inr i) other = inr (In-uncut y xs p zs i other)

pub Off-In : (xs ys : List ℕ) (a : ℕ) → Off xs ys → In a xs → Apart a ys
Off-In [] ys a off i = elim i [ ]
Off-In (x ∷ xs) ys a (here, off) (inl e) = subst (λ z. Apart z ys) (sym e) here
Off-In (x ∷ xs) ys a (here, off) (inr i) = Off-In xs ys a off i

pub Distinct-cut :
    (xs : List ℕ) (p : ℕ) (zs : List ℕ) → Distinct (xs ++ p ∷ zs) → Apart p (xs ++ zs)
Distinct-cut [] p zs d = d.0
Distinct-cut (x ∷ xs) p zs (apart, d) =
    let (l, (other, r)) = Apart-split x xs (p ∷ zs) apart in
    ((λ e. other (sym e)), Distinct-cut xs p zs d)
