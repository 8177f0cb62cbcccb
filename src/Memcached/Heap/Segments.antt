-- ===== src/Memcached/Heap/Segments.antt =====
-- src/items.c, src/slabs.c: stretches of doubly linked lists, and what a write to one link does.
use mage_artifact_baseline.Common.{
  ℕ, ◌≡◌, ◌≢◌, refl, sym, ap, ◌∙◌, subst, false, List, [], ◌∷◌, ◌++◌, arith, ◌==◌, if◌then◌else◌,
}
use mage_artifact_baseline.Memcached.Heap.{
  StrItem, Mem, write, set_next, set_prev, next_if, prev_if,
}

-- No element of the list is `a`.
abbrev pub Apart : ℕ → List ℕ → Type 0
Apart a [] = Unit
Apart a (x ∷ xs) = (a ≢ x) × Apart a xs

abbrev pub Distinct : List ℕ → Type 0
Distinct [] = Unit
Distinct (x ∷ xs) = Apart x xs × Distinct xs

-- No element of the one list is in the other.
abbrev pub Off : List ℕ → List ℕ → Type 0
Off [] ws = Unit
Off (x ∷ xs) ws = Apart x ws × Off xs ws

-- The last element, or `p` where there is none.
abbrev pub last_or : ℕ → List ℕ → ℕ
last_or p [] = p
last_or p (x ∷ xs) = last_or x xs

pub last_or-Apart : (a x : ℕ) (xs : List ℕ) → Apart a (x ∷ xs) → a ≢ last_or x xs
last_or-Apart a x [] (other, apart) = other
last_or-Apart a x (y ∷ ys) (other, apart) = last_or-Apart a y ys apart

module _ {K : Type 0} where
  -- From `p`, whose predecessor is `before`, the `next` pointers lead through `xs` to `stop`, and
  -- the `prev` pointers lead back.
  abbrev pub Seg : Mem K → ℕ → ℕ → List ℕ → ℕ → Type 0
  Seg mem before p [] stop = p ≡ stop
  Seg mem before p (x ∷ xs) stop =
      (p ≡ x) × (x ≢ 0) × ((mem x).prev ≡ before) × Seg mem x (mem x).next xs stop

  -- The links of the elements are the same in both memories.
  abbrev pub SameLinks : Mem K → Mem K → List ℕ → Type 0
  SameLinks mem mem' [] = Unit
  SameLinks mem mem' (x ∷ xs) =
      ((mem' x).next ≡ (mem x).next) × ((mem' x).prev ≡ (mem x).prev) × SameLinks mem mem' xs

  pub Seg-frame :
      (mem mem' : Mem K) (before p : ℕ) (xs : List ℕ) (stop : ℕ)
      → SameLinks mem mem' xs
      → Seg mem before p xs stop
      → Seg mem' before p xs stop
  Seg-frame mem mem' before p [] stop same s = s
  Seg-frame mem mem' before p (x ∷ xs) stop (next, prev, rest) (at, some_item, back, s) =
      (at, some_item, prev ∙ back, rw next (Seg-frame mem mem' x (mem x).next xs stop rest s))

  -- Outside of the list the memories are the same.
  abbrev pub Outside : List ℕ → Mem K → Mem K → Type 0
  Outside ws mem mem' = (a : ℕ) → Apart a ws → mem' a ≡ mem a

  -- Nothing but links differs.
  abbrev pub SameContents : Mem K → Mem K → Type 0
  SameContents mem mem' =
      (a : ℕ) → record (mem' a) { next = (mem a).next; prev = (mem a).prev } ≡ mem a

  pub Outside-SameLinks :
      (ws : List ℕ) (mem mem' : Mem K) (xs : List ℕ)
      → Outside ws mem mem'
      → Off xs ws
      → SameLinks mem mem' xs
  Outside-SameLinks ws mem mem' [] same off = tt
  Outside-SameLinks ws mem mem' (x ∷ xs) same (here, off) =
      let e = same x here in
      (ap (λ n. n.next) e, ap (λ n. n.prev) e, Outside-SameLinks ws mem mem' xs same off)

  pub write_other :
      (p : ℕ) (it : StrItem K) (mem : Mem K) (a : ℕ) → a ≢ p → write p it mem a ≡ mem a
  unfolding write
  write_other p it mem a other = ground arith

  pub write_self : (p : ℕ) (it : StrItem K) (mem : Mem K) → write p it mem p ≡ it
  unfolding write
  write_self p it mem = ground arith

  pub SameLinks-write :
      (p : ℕ) (it : StrItem K) (mem : Mem K) (xs : List ℕ)
      → Apart p xs
      → SameLinks mem (write p it mem) xs
  SameLinks-write p it mem [] apart = tt
  SameLinks-write p it mem (x ∷ xs) (other, apart) =
      let same = write_other p it mem x (λ e. other (sym e)) in
      (ap (λ n. n.next) same, ap (λ n. n.prev) same, SameLinks-write p it mem xs apart)

  pub SameLinks-set_prev :
      (p v : ℕ) (mem : Mem K) (xs : List ℕ) → Apart p xs → SameLinks mem (set_prev p v mem) xs
  unfolding set_prev
  SameLinks-set_prev p v mem xs apart = SameLinks-write p _ mem xs apart

  pub SameLinks-set_next :
      (p v : ℕ) (mem : Mem K) (xs : List ℕ) → Apart p xs → SameLinks mem (set_next p v mem) xs
  unfolding set_next
  SameLinks-set_next p v mem xs apart = SameLinks-write p _ mem xs apart

  pub set_prev_self : (p v : ℕ) (mem : Mem K) → set_prev p v mem p ≡ record (mem p) { prev = v }
  unfolding set_prev
  set_prev_self p v mem = write_self p _ mem

  pub set_next_self : (p v : ℕ) (mem : Mem K) → set_next p v mem p ≡ record (mem p) { next = v }
  unfolding set_next
  set_next_self p v mem = write_self p _ mem

  pub set_prev_other : (p v : ℕ) (mem : Mem K) (a : ℕ) → a ≢ p → set_prev p v mem a ≡ mem a
  unfolding set_prev
  set_prev_other p v mem a other = write_other p _ mem a other

  pub set_next_other : (p v : ℕ) (mem : Mem K) (a : ℕ) → a ≢ p → set_next p v mem a ≡ mem a
  unfolding set_next
  set_next_other p v mem a other = write_other p _ mem a other

  pub prev_if-set_prev : (p v : ℕ) (mem : Mem K) → p ≢ 0 → prev_if p v mem ≡ set_prev p v mem
  unfolding prev_if
  prev_if-set_prev p v mem some_item = ground arith

  pub next_if-set_next : (p v : ℕ) (mem : Mem K) → p ≢ 0 → next_if p v mem ≡ set_next p v mem
  unfolding next_if
  next_if-set_next p v mem some_item = ground arith

  pub Seg-cons :
      (mem : Mem K) (before p x next : ℕ) (xs : List ℕ) (stop : ℕ)
      → p ≡ x
      → x ≢ 0
      → (mem x).prev ≡ before
      → (mem x).next ≡ next
      → Seg mem x next xs stop
      → Seg mem before p (x ∷ xs) stop
  Seg-cons mem before p x next xs stop at some_item back on s = (at, some_item, back, rw on s)

  -- The `prev` link of the first element gets a new value.
  pub Seg-prev_if :
      (mem : Mem K) (before p : ℕ) (xs : List ℕ) (v : ℕ)
      → Seg mem before p xs 0
      → Distinct xs
      → Seg (prev_if p v mem) v p xs 0
  Seg-prev_if mem before p [] v s distinct = s
  Seg-prev_if mem before p (x ∷ xs) v (at, some_item, back, s) distinct =
      let there : p ≢ 0 = λ e. some_item (sym at ∙ e) in
      let same : prev_if p v mem ≡ set_prev x v mem =
        prev_if-set_prev p v mem there ∙ ap (λ q. set_prev q v mem) at in
      subst (λ m. Seg m v p (x ∷ xs) 0) (sym same)
        (Seg-cons (set_prev x v mem) v p x (mem x).next xs 0 at some_item
          (ap (λ n. n.prev) (set_prev_self x v mem)) (ap (λ n. n.next) (set_prev_self x v mem))
          (Seg-frame mem (set_prev x v mem) x (mem x).next xs 0
            (SameLinks-set_prev x v mem xs distinct.0) s))

  -- The `next` link of the last element gets a new value.
  pub Seg-set_next :
      (mem : Mem K) (before p x : ℕ) (xs : List ℕ) (stop v : ℕ)
      → Seg mem before p (x ∷ xs) stop
      → Distinct (x ∷ xs)
      → Seg (set_next (last_or x xs) v mem) before p (x ∷ xs) v
  Seg-set_next mem before p x [] stop v (at, some_item, back, s) distinct =
      Seg-cons (set_next x v mem) before p x v [] v at some_item
        (ap (λ n. n.prev) (set_next_self x v mem) ∙ back) (ap (λ n. n.next) (set_next_self x v mem))
        refl
  Seg-set_next mem before p x (y ∷ ys) stop v (at, some_item, back, s) distinct =
      let same = set_next_other (last_or y ys) v mem x (last_or-Apart x y ys distinct.0) in
      Seg-cons (set_next (last_or y ys) v mem) before p x (mem x).next (y ∷ ys) v at some_item
        (ap (λ n. n.prev) same ∙ back) (ap (λ n. n.next) same)
        (Seg-set_next mem x (mem x).next y ys stop v s distinct.1)

  pub last_or-ne_zero :
      (mem : Mem K) (before p x : ℕ) (xs : List ℕ) (stop : ℕ)
      → Seg mem before p (x ∷ xs) stop
      → last_or x xs ≢ 0
  last_or-ne_zero mem before p x [] stop s = s.1
  last_or-ne_zero mem before p x (y ∷ ys) stop s = last_or-ne_zero mem x (mem x).next y ys stop s.3

  -- What follows a list from its head is redirected: by the `next` link of its last element, or at
  -- the head where there is none.
  pub Seg-next_if :
      (mem : Mem K) (p : ℕ) (xs : List ℕ) (stop v : ℕ)
      → Seg mem 0 p xs stop
      → Distinct xs
      → Seg (next_if (last_or 0 xs) v mem) 0 (if last_or 0 xs == 0 then v else p) xs v
  Seg-next_if mem p [] stop v s distinct = refl
  Seg-next_if mem p (x ∷ xs) stop v s distinct =
      let there = last_or-ne_zero mem 0 p x xs stop s in
      let test : (last_or x xs == 0) ≡ false = ground (arith, there) in
      let from : p ≡ (if last_or x xs == 0 then v else p) = rw test in
      subst (λ m. Seg m 0 (if last_or x xs == 0 then v else p) (x ∷ xs) v)
        (sym (next_if-set_next (last_or x xs) v mem there))
        (subst (λ q. Seg (set_next (last_or x xs) v mem) 0 q (x ∷ xs) v) from
          (Seg-set_next mem 0 p x xs stop v s distinct))

  pub Seg-append :
      (mem : Mem K) (before p : ℕ) (xs : List ℕ) (m : ℕ) (ys : List ℕ) (stop : ℕ)
      → Seg mem before p xs m
      → Seg mem (last_or before xs) m ys stop
      → Seg mem before p (xs ++ ys) stop
  Seg-append mem before p [] m ys stop s t = rw s t
  Seg-append mem before p (x ∷ xs) m ys stop (at, some_item, back, s) t =
      (at, some_item, back, Seg-append mem x (mem x).next xs m ys stop s t)

  pub Seg-split :
      (mem : Mem K) (before p : ℕ) (xs ys : List ℕ) (stop : ℕ)
      → Seg mem before p (xs ++ ys) stop
      → (m : ℕ) × Seg mem before p xs m × Seg mem (last_or before xs) m ys stop
  Seg-split mem before p [] ys stop s = (p, refl, s)
  Seg-split mem before p (x ∷ xs) ys stop (at, some_item, back, s) =
      let (m, left, right) = Seg-split mem x (mem x).next xs ys stop s in
      (m, (at, some_item, back, left), right)
