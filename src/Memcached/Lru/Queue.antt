-- ===== src/Memcached/Lru/Queue.antt =====
-- src/items.c: the queues as lists, and what linking and unlinking do to them.
use mage_artifact_baseline.Common.{
  ℕ, suc, ◌%◌, ◌≡◌, ◌≢◌, sym, ap, ◌∙◌, subst, Bool, List, [], ◌∷◌, arith, if◌then◌else◌, u32_mod,
}
use native.Mathlib.Decide.{ℕ_discrete}
use mage_artifact_baseline.Memcached.Heap.{Mem}
use mage_artifact_baseline.Memcached.Heap.Segments.{
  Off, Distinct, last_or, Seg, Outside, SameContents,
}
use mage_artifact_baseline.Memcached.Heap.Writes.{Off-sym, Seg-Outside}
use mage_artifact_baseline.Memcached.Lru.{Lru, put}

-- How many elements of the queue are no crawlers.
abbrev pub items_in : (ℕ → Bool) → List ℕ → ℕ
items_in is_crawler [] = 0
items_in is_crawler (x ∷ xs) =
    if is_crawler x then items_in is_crawler xs else suc (items_in is_crawler xs)

pub put_self : {A : Type 0} (i : ℕ) (v : A) (f : ℕ → A) → put i v f i ≡ v
unfolding put
put_self i v f = ground arith

pub put_other : {A : Type 0} (i : ℕ) (v : A) (f : ℕ → A) (j : ℕ) → j ≢ i → put i v f j ≡ f j
unfolding put
put_other i v f j other = ground arith

-- Lists that share no element still share none where one of them becomes `xs`.
pub Off-put :
    (queue : ℕ → List ℕ) (k : ℕ) (xs : List ℕ)
    → ((c d : ℕ) → c ≢ d → Off (queue c) (queue d))
    → ((c : ℕ) → c ≢ k → Off (queue c) xs)
    → (c d : ℕ) → c ≢ d
    → Off (put k xs queue c) (put k xs queue d)
Off-put queue k xs apart fresh c d different = elim (ℕ_discrete c k) [
  | yes e ↦
      let other : d ≢ k = λ f. different (e ∙ sym f) in
      subst (λ l. Off l (put k xs queue d)) (sym (ap (put k xs queue) e ∙ put_self k xs queue))
        (subst (λ l. Off xs l) (sym (put_other k xs queue d other))
          (Off-sym (queue d) xs (fresh d other)))
  | no other ↦
      subst (λ l. Off l (put k xs queue d)) (sym (put_other k xs queue c other))
        (elim (ℕ_discrete d k) [
          | yes f ↦
              subst (λ l. Off (queue c) l) (sym (ap (put k xs queue) f ∙ put_self k xs queue))
                (fresh c other)
          | no g ↦
              subst (λ l. Off (queue c) l) (sym (put_other k xs queue d g)) (apart c d different)
        ])
]

module _ {K : Type 0} where
  -- All elements are of class `c`.
  abbrev pub InClass : Mem K → ℕ → List ℕ → Type 0
  InClass mem c [] = Unit
  InClass mem c (x ∷ xs) = ((mem x).slabs_clsid ≡ c) × InClass mem c xs

  pub InClass-SameContents :
      (mem mem' : Mem K) (c : ℕ) (xs : List ℕ)
      → SameContents mem mem'
      → InClass mem c xs
      → InClass mem' c xs
  InClass-SameContents mem mem' c [] same is = tt
  InClass-SameContents mem mem' c (x ∷ xs) same (is, rest) =
      (ap (λ n. n.slabs_clsid) (same x) ∙ is, InClass-SameContents mem mem' c xs same rest)

module _ {K : Type 0} where
  -- What an operation on the queue of one class does to the rest of the state: links are written at
  -- elements of `ws` only.
  pub record Local (st st' : Lru K) (k : ℕ) (ws : List ℕ) : Type 0 where
    pub heads : (c : ℕ) → c ≢ k → st'.heads c ≡ st.heads c
    pub tails : (c : ℕ) → c ≢ k → st'.tails c ≡ st.tails c
    pub sizes : (c : ℕ) → c ≢ k → st'.sizes c ≡ st.sizes c
    pub outside : Outside ws st.mem st'.mem
    pub contents : SameContents st.mem st'.mem

module _ {K : Type 0} (is_crawler : ℕ → Bool) where
  -- The queue of class `c` is the list `xs`.
  pub record IsQueue (st : Lru K) (c : ℕ) (xs : List ℕ) : Type 0 where
    pub links : Seg st.mem 0 (st.heads c) xs 0
    pub tail : st.tails c ≡ last_or 0 xs
    pub distinct : Distinct xs
    pub class : InClass st.mem c xs
    pub size : st.sizes c ≡ items_in is_crawler xs % u32_mod

  -- The queues of all classes, which share no item.
  pub record IsLru (st : Lru K) (queue : ℕ → List ℕ) : Type 0 where
    pub each : (c : ℕ) → IsQueue st c (queue c)
    pub apart : (c d : ℕ) → c ≢ d → Off (queue c) (queue d)

  Local-IsQueue :
      (st st' : Lru K) (k : ℕ) (ws : List ℕ) (c : ℕ) (xs : List ℕ)
      → Local st st' k ws
      → c ≢ k
      → Off xs ws
      → IsQueue st c xs
      → IsQueue st' c xs
  Local-IsQueue st st' k ws c xs l other off q = record {
    links =
        subst (λ h. Seg st'.mem 0 h xs 0) (sym (l.heads c other))
          (Seg-Outside ws st.mem st'.mem 0 (st.heads c) xs 0 l.outside off q.links);
    tail = l.tails c other ∙ q.tail;
    distinct = q.distinct;
    class = InClass-SameContents st.mem st'.mem c xs l.contents q.class;
    size = l.sizes c other ∙ q.size;
  }

  -- An operation on the queue of one class that makes `xs` of it.
  pub Local-IsLru :
      (st st' : Lru K) (queue : ℕ → List ℕ) (k : ℕ) (ws xs : List ℕ)
      → IsLru st queue
      → Local st st' k ws
      → ((c : ℕ) → c ≢ k → Off (queue c) ws)
      → ((c : ℕ) → c ≢ k → Off (queue c) xs)
      → IsQueue st' k xs
      → IsLru st' (put k xs queue)
  Local-IsLru st st' queue k ws xs is l off fresh q = record {
    each = λ c. elim (ℕ_discrete c k) [
      | yes e ↦
          subst (λ ys. IsQueue st' c ys) (sym (ap (put k xs queue) e ∙ put_self k xs queue))
            (subst (λ d. IsQueue st' d xs) (sym e) q)
      | no other ↦
          subst (λ ys. IsQueue st' c ys) (sym (put_other k xs queue c other))
            (Local-IsQueue st st' k ws c (queue c) l other (off c other) (is.each c))
    ];
    apart = λ c d different. Off-put queue k xs is.apart fresh c d different;
  }
