-- ===== src/Metis/KeyvalsArray/Find.antt =====
-- Key groups sorted by key, each key once: lookup after a write and after an insertion.
use mage_artifact_baseline.Common.{
  ℕ, zero, suc, ◌≤◌, ◌<◌, ◌≡◌, refl, ap, Option, none, some, List, [], ◌∷◌, arith, ◌==◌,
  if◌then◌else◌, get_elem?, set, length,
}
use mage_artifact_baseline.Metis.Order.{KeyOrder}
use mage_artifact_baseline.Metis.Types.{KeyVals}
use mage_artifact_baseline.Metis.Bsearch.Bounds.{Above, IsSorted, lower, upper}
use mage_artifact_baseline.Metis.KeyvalsArray.{insert_at, keyvals_order, probe}

module _ {K V : Type 0} ⦃o : KeyOrder K⦄ where
  abbrev pub key_rank : KeyVals K V → ℕ
  key_rank e = o.rank e.key

  -- The group of the keys of rank `r`.
  unfoldable pub find : ℕ → List (KeyVals K V) → Option (KeyVals K V)
  find r [] = none
  find r (e ∷ es) = if key_rank e == r then some e else find r es

  abbrev pub Beyond : ℕ → List (KeyVals K V) → Type 0
  Beyond r [] = Unit
  Beyond r (e ∷ es) = (r < key_rank e) × Beyond r es

  -- The keys ascend, and none comes twice.
  abbrev pub IsStrict : List (KeyVals K V) → Type 0
  IsStrict [] = Unit
  IsStrict (e ∷ es) = Beyond (key_rank e) es × IsStrict es

  pub Beyond-le : (r s : ℕ) (es : List (KeyVals K V)) → r ≤ s → Beyond s es → Beyond r es
  Beyond-le r s [] le b = tt
  Beyond-le r s (e ∷ es) le b = (omega arith, Beyond-le r s es le b.1)

  Beyond-Above : (r : ℕ) (es : List (KeyVals K V)) → Beyond r es → Above r es
  Beyond-Above r [] b = tt
  Beyond-Above r (e ∷ es) b = (omega arith, Beyond-Above r es b.1)

  pub IsStrict-IsSorted : (es : List (KeyVals K V)) → IsStrict es → IsSorted es
  IsStrict-IsSorted [] s = tt
  IsStrict-IsSorted (e ∷ es) s = (Beyond-Above (key_rank e) es s.0, IsStrict-IsSorted es s.1)

  pub find-Beyond : (r s : ℕ) (es : List (KeyVals K V)) → Beyond s es → r ≤ s → find r es ≡ none
  unfolding find
  find-Beyond r s [] b le = refl
  find-Beyond r s (e ∷ es) b le = ground (arith, find-Beyond r s es b.1 le)

  module _ (key : K) where
    bounds-Beyond :
        (r : ℕ) (es : List (KeyVals K V))
        → Beyond r es
        → o.rank key ≤ r
        → (lower (probe key) es ≡ 0) × (upper (probe key) es ≡ 0)
    unfolding lower upper
    bounds-Beyond r [] b le = (refl, refl)
    bounds-Beyond r (e ∷ es) b le = ground (arith, o.cmp_rank key e.key)

    -- A position between the bounds of a key holds its group.
    pub find-hit :
        (pos : ℕ) (es : List (KeyVals K V))
        → IsStrict es
        → lower (probe key) es ≤ pos
        → pos < upper (probe key) es
        → (e : KeyVals K V) × (get_elem? es pos ≡ some e)
          × (key_rank e ≡ o.rank key)
          × (find (o.rank key) es ≡ some e)
    unfolding lower upper find
    find-hit pos [] s lo up = absurd (omega arith)
    find-hit zero (e ∷ es) s lo up =
        (e, refl, ground (arith, o.cmp_rank key e.key), ground (arith, o.cmp_rank key e.key))
    find-hit (suc pos) (e ∷ es) s lo up =
        let apart = bounds-Beyond (key_rank e) es s.0 in
        let after : o.rank e.key < o.rank key = ground (arith, o.cmp_rank key e.key, apart) in
        let (x, at, same, found) =
          find-hit pos es s.1 (ground (arith, o.cmp_rank key e.key))
            (ground (arith, o.cmp_rank key e.key)) in
        (x, at, same, ground (arith, found))

    -- Where the bounds of a key meet, no group has the key.
    pub find-miss :
        (es : List (KeyVals K V))
        → IsStrict es
        → lower (probe key) es ≡ upper (probe key) es
        → find (o.rank key) es ≡ none
    unfolding lower upper find
    find-miss [] s e = refl
    find-miss (x ∷ es) s e = ground (
      arith,
      o.cmp_rank key x.key,
      find-Beyond (o.rank key) (key_rank x) es s.0,
      find-miss es s.1,
    )

  Beyond-get :
      (r pos : ℕ) (es : List (KeyVals K V)) (e : KeyVals K V)
      → Beyond r es
      → get_elem? es pos ≡ some e
      → r < key_rank e
  Beyond-get r pos [] e b at = ground (arith, at)
  Beyond-get r zero (x ∷ es) e b at = ground (arith, at)
  Beyond-get r (suc pos) (x ∷ es) e b at = Beyond-get r pos es e b.1 at

  -- A write to the group at `pos` that keeps its key changes that group and no other.
  pub set-Beyond :
      (pos r : ℕ) (es : List (KeyVals K V)) (e e' : KeyVals K V)
      → get_elem? es pos ≡ some e
      → key_rank e' ≡ key_rank e
      → Beyond r es
      → Beyond r (set es pos e')
  set-Beyond pos r [] e e' at same b = tt
  set-Beyond zero r (x ∷ es) e e' at same b = (ground (arith, at), b.1)
  set-Beyond (suc pos) r (x ∷ es) e e' at same b = (b.0, set-Beyond pos r es e e' at same b.1)

  pub set-IsStrict :
      (pos : ℕ) (es : List (KeyVals K V)) (e e' : KeyVals K V)
      → get_elem? es pos ≡ some e
      → key_rank e' ≡ key_rank e
      → IsStrict es
      → IsStrict (set es pos e')
  set-IsStrict pos [] e e' at same s = tt
  set-IsStrict zero (x ∷ es) e e' at same s =
      (Beyond-le (key_rank e') (key_rank x) es (ground (arith, at)) s.0, s.1)
  set-IsStrict (suc pos) (x ∷ es) e e' at same s =
      (set-Beyond pos (key_rank x) es e e' at same s.0, set-IsStrict pos es e e' at same s.1)

  pub find-set :
      (r pos : ℕ) (es : List (KeyVals K V)) (e e' : KeyVals K V)
      → get_elem? es pos ≡ some e
      → key_rank e' ≡ key_rank e
      → IsStrict es
      → find r (set es pos e') ≡ (if key_rank e == r then some e' else find r es)
  unfolding find
  find-set r pos [] e e' at same s = ground (arith, at)
  find-set r zero (x ∷ es) e e' at same s = ground (arith, at)
  find-set r (suc pos) (x ∷ es) e e' at same s =
      ground (arith, find-set r pos es e e' at same s.1, Beyond-get (key_rank x) pos es e s.0 at)

  -- An insertion at the place of a key that is not there.
  module _ (key : K) (e' : KeyVals K V) (is_key : key_rank e' ≡ o.rank key) where
    pub insert_at-Beyond :
        (r : ℕ) (es : List (KeyVals K V)) (n : ℕ)
        → r < o.rank key
        → Beyond r es
        → Beyond r (insert_at n e' es)
    unfolding insert_at
    insert_at-Beyond r [] zero lt b = (omega arith, tt)
    insert_at-Beyond r [] (suc n) lt b = (omega arith, tt)
    insert_at-Beyond r (x ∷ es) zero lt b = (omega arith, b)
    insert_at-Beyond r (x ∷ es) (suc n) lt b = (b.0, insert_at-Beyond r es n lt b.1)

    pub insert_at-IsStrict :
        (n : ℕ) (es : List (KeyVals K V))
        → IsStrict es
        → lower (probe key) es ≡ n
        → upper (probe key) es ≡ n
        → IsStrict (insert_at n e' es)
    unfolding insert_at lower upper
    insert_at-IsStrict zero [] s lo up = (tt, tt)
    insert_at-IsStrict (suc n) [] s lo up = (tt, tt)
    insert_at-IsStrict zero (x ∷ es) s lo up =
        let first : o.rank key < key_rank x = ground (arith, o.cmp_rank key x.key) in
        ((omega arith, Beyond-le _ _ es (omega arith) s.0), s)
    insert_at-IsStrict (suc n) (x ∷ es) s lo up =
        let first : key_rank x < o.rank key = ground (arith, o.cmp_rank key x.key) in
        let rest : (lower (probe key) es ≡ n) × (upper (probe key) es ≡ n) =
          (ground (arith, o.cmp_rank key x.key), ground (arith, o.cmp_rank key x.key)) in
        (insert_at-Beyond (key_rank x) es n first s.0, insert_at-IsStrict n es s.1 rest.0 rest.1)

    pub find-insert_at :
        (r n : ℕ) (es : List (KeyVals K V))
        → find (o.rank key) es ≡ none
        → find r (insert_at n e' es) ≡ (if o.rank key == r then some e' else find r es)
    unfolding insert_at find
    find-insert_at r zero es absent = ground (arith, absent)
    find-insert_at r (suc n) [] absent = ground arith
    find-insert_at r (suc n) (x ∷ es) absent = ground (arith, find-insert_at r n es)

pub length-insert_at {ℓ} :
    {A : Type ℓ} (n : ℕ) (x : A) (ys : List A) → length (insert_at n x ys) ≡ suc (length ys)
unfolding insert_at
length-insert_at zero x ys = refl
length-insert_at (suc n) x [] = refl
length-insert_at (suc n) x (y ∷ ys) = ap suc (length-insert_at n x ys)
