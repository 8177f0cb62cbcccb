-- ===== src/Memcached/Heap/Writes.antt =====
-- src/items.c, src/slabs.c: where a write to a link is felt.
use mage_artifact_baseline.Common.{ℕ, ◌≡◌, ◌≢◌, refl, sym, ap, ◌∙◌, List, [], ◌∷◌, ◌++◌, arith}
use mage_artifact_baseline.Memcached.Heap.{
  StrItem, Mem, write, set_next, set_prev, next_if, prev_if,
}
use mage_artifact_baseline.Memcached.Heap.Segments.{
  Apart, Off, Distinct, last_or, last_or-Apart, SameContents, Seg, Seg-frame, Outside,
  Outside-SameLinks, set_next_other, set_prev_other, prev_if-set_prev,
}

pub Apart-append : (a : ℕ) (xs ys : List ℕ) → Apart a xs → Apart a ys → Apart a (xs ++ ys)
Apart-append a [] ys p q = q
Apart-append a (x ∷ xs) ys (other, p) q = (other, Apart-append a xs ys p q)

pub Apart-split : (a : ℕ) (xs ys : List ℕ) → Apart a (xs ++ ys) → Apart a xs × Apart a ys
Apart-split a [] ys p = (tt, p)
Apart-split a (x ∷ xs) ys (other, p) = let (l, r) = Apart-split a xs ys p in ((other, l), r)

pub Off-nil : (xs : List ℕ) → Off xs []
Off-nil [] = tt
Off-nil (x ∷ xs) = (tt, Off-nil xs)

pub Off-cons : (xs : List ℕ) (y : ℕ) (ys : List ℕ) → Apart y xs → Off xs ys → Off xs (y ∷ ys)
Off-cons [] y ys p off = tt
Off-cons (x ∷ xs) y ys (other, p) (q, off) = ((λ e. other (sym e), q), Off-cons xs y ys p off)

pub Off-sym : (xs ys : List ℕ) → Off xs ys → Off ys xs
Off-sym [] ys off = Off-nil ys
Off-sym (x ∷ xs) ys (p, off) = Off-cons ys x xs p (Off-sym xs ys off)

pub Off-append : (xs ys zs : List ℕ) → Off xs zs → Off ys zs → Off (xs ++ ys) zs
Off-append [] ys zs p q = q
Off-append (x ∷ xs) ys zs (here, p) q = (here, Off-append xs ys zs p q)

pub Distinct-append : (xs ys : List ℕ) → Distinct xs → Distinct ys → Off xs ys → Distinct (xs ++ ys)
Distinct-append [] ys p q off = q
Distinct-append (x ∷ xs) ys (a, p) q (b, off) =
    (Apart-append x xs ys a b, Distinct-append xs ys p q off)

pub Distinct-split : (xs ys : List ℕ) → Distinct (xs ++ ys) → Distinct xs × Distinct ys × Off xs ys
Distinct-split [] ys p = (tt, p, tt)
Distinct-split (x ∷ xs) ys (a, p) =
    let (l, r, off) = Distinct-split xs ys p in
    let (al, ar) = Apart-split x xs ys a in ((al, l), r, (ar, off))

pub last_or-append :
    (p : ℕ) (xs : List ℕ) (y : ℕ) (ys : List ℕ) → last_or p (xs ++ y ∷ ys) ≡ last_or y ys
last_or-append p [] y ys = refl
last_or-append p (x ∷ xs) y ys = last_or-append x xs y ys

module _ {K : Type 0} where
  pub Outside-trans :
      (ws : List ℕ) (m₁ m₂ m₃ : Mem K) → Outside ws m₁ m₂ → Outside ws m₂ m₃ → Outside ws m₁ m₃
  Outside-trans ws m₁ m₂ m₃ p q a out = q a out ∙ p a out

  pub Seg-Outside :
      (ws : List ℕ) (mem mem' : Mem K) (before p : ℕ) (xs : List ℕ) (stop : ℕ)
      → Outside ws mem mem'
      → Off xs ws
      → Seg mem before p xs stop
      → Seg mem' before p xs stop
  Seg-Outside ws mem mem' before p xs stop same off s =
      Seg-frame mem mem' before p xs stop (Outside-SameLinks ws mem mem' xs same off) s

  pub Outside-set_next : (p v : ℕ) (mem : Mem K) → Outside (p ∷ []) mem (set_next p v mem)
  Outside-set_next p v mem a out = set_next_other p v mem a out.0

  pub Outside-set_prev : (p v : ℕ) (mem : Mem K) → Outside (p ∷ []) mem (set_prev p v mem)
  Outside-set_prev p v mem a out = set_prev_other p v mem a out.0

  prev_if_zero : (v : ℕ) (mem : Mem K) → prev_if 0 v mem ≡ mem
  unfolding prev_if
  prev_if_zero v mem = refl

  next_if_zero : (v : ℕ) (mem : Mem K) → next_if 0 v mem ≡ mem
  unfolding next_if
  next_if_zero v mem = refl

  pub next_if_other : (p v : ℕ) (mem : Mem K) (a : ℕ) → a ≢ p → next_if p v mem a ≡ mem a
  unfolding next_if set_next write
  next_if_other p v mem a other = ground arith

  pub prev_if_other : (p v : ℕ) (mem : Mem K) (a : ℕ) → a ≢ p → prev_if p v mem a ≡ mem a
  unfolding prev_if set_prev write
  prev_if_other p v mem a other = ground arith

  -- A write to the first element of a list, if there is one, is not felt outside of the list.
  pub Outside-prev_if :
      (mem : Mem K) (before p : ℕ) (xs : List ℕ) (v : ℕ) (mem' : Mem K)
      → Seg mem before p xs 0
      → Outside xs mem' (prev_if p v mem')
  Outside-prev_if mem before p [] v mem' s a out =
      ap (λ q. prev_if q v mem' a) s ∙ ap (λ m. m a) (prev_if_zero v mem')
  Outside-prev_if mem before p (x ∷ xs) v mem' (at, some_item, back, s) a (other, out) =
      ap (λ q. prev_if q v mem' a) at
      ∙ ap (λ m. m a) (prev_if-set_prev x v mem' some_item)
      ∙ set_prev_other x v mem' a other

  -- Likewise a write to the last element.
  pub Outside-next_if :
      (xs : List ℕ) (v : ℕ) (mem : Mem K) → Outside xs mem (next_if (last_or 0 xs) v mem)
  Outside-next_if [] v mem a out = ap (λ m. m a) (next_if_zero v mem)
  Outside-next_if (x ∷ xs) v mem a out =
      next_if_other (last_or x xs) v mem a (last_or-Apart a x xs out)

  SameContents-set_next : (p v : ℕ) (mem : Mem K) → SameContents mem (set_next p v mem)
  unfolding set_next write
  SameContents-set_next p v mem a = ground arith

  SameContents-set_prev : (p v : ℕ) (mem : Mem K) → SameContents mem (set_prev p v mem)
  unfolding set_prev write
  SameContents-set_prev p v mem a = ground arith

  SameContents-next_if : (p v : ℕ) (mem : Mem K) → SameContents mem (next_if p v mem)
  unfolding next_if set_next write
  SameContents-next_if p v mem a = ground arith

  SameContents-prev_if : (p v : ℕ) (mem : Mem K) → SameContents mem (prev_if p v mem)
  unfolding prev_if set_prev write
  SameContents-prev_if p v mem a = ground arith

  SameContents-trans :
      (m₁ m₂ m₃ : Mem K) → SameContents m₁ m₂ → SameContents m₂ m₃ → SameContents m₁ m₃
  SameContents-trans m₁ m₂ m₃ p q a =
      let with_links : StrItem K → StrItem K =
        λ n. record n { next = (m₁ a).next; prev = (m₁ a).prev } in
      ap with_links (q a) ∙ p a

  pub SameContents-refl : (mem : Mem K) → SameContents mem mem
  SameContents-refl mem a = refl

  -- A sequence of writes to links, the last one first.
  pub then_next : (p v : ℕ) (m₁ m₂ : Mem K) → SameContents m₁ m₂ → SameContents m₁ (set_next p v m₂)
  then_next p v m₁ m₂ same =
      SameContents-trans m₁ m₂ (set_next p v m₂) same (SameContents-set_next p v m₂)

  pub then_prev : (p v : ℕ) (m₁ m₂ : Mem K) → SameContents m₁ m₂ → SameContents m₁ (set_prev p v m₂)
  then_prev p v m₁ m₂ same =
      SameContents-trans m₁ m₂ (set_prev p v m₂) same (SameContents-set_prev p v m₂)

  pub then_next_if :
      (p v : ℕ) (m₁ m₂ : Mem K) → SameContents m₁ m₂ → SameContents m₁ (next_if p v m₂)
  then_next_if p v m₁ m₂ same =
      SameContents-trans m₁ m₂ (next_if p v m₂) same (SameContents-next_if p v m₂)

  pub then_prev_if :
      (p v : ℕ) (m₁ m₂ : Mem K) → SameContents m₁ m₂ → SameContents m₁ (prev_if p v m₂)
  then_prev_if p v m₁ m₂ same =
      SameContents-trans m₁ m₂ (prev_if p v m₂) same (SameContents-prev_if p v m₂)
