-- ===== src/Memcached/Assoc/Find.antt =====
-- src/assoc.c: which items `assoc_find` finds, while an expansion is under way and otherwise.
use mage_artifact_baseline.Common.{
  ℕ, ◌-◌, ◌%◌, ◌<◌, Bool, ◌≡◌, ◌⊎◌, ◌↔◌, refl, sym, ap, ◌∙◌, subst, true, false, some, List, [],
  ◌∷◌, inl, inr, arith, get_elem?, Bool-cases, Returns, pow2_pos, some-injective,
}
use mage_artifact_baseline.Memcached.Assoc.{Item, ItemKeys, Assoc, in_old, chain_find, assoc_find}
use mage_artifact_baseline.Memcached.Assoc.Table.{
  IsTable, IsChain, find_in, find_in-bucket, bucket-some, chain_find-placed, apart,
}
use mage_artifact_baseline.Memcached.Assoc.Holds.{
  IsAssoc, IsExpanding, Phase, holds, in_old-expanding, assoc_find-holds,
}

module _ {K V : Type 0} ⦃keys : ItemKeys K⦄ where
  abbrev pub InChain : Item K V → List (Item K V) → Type 0
  InChain it [] = ⊥
  InChain it (x ∷ xs) = (it ≡ x) ⊎ InChain it xs

  -- The item hangs in some bucket of the table.
  abbrev pub Occurs : Item K V → List (List (Item K V)) → Type 0
  Occurs it t = (b : ℕ) × (c : List (Item K V)) × (get_elem? t b ≡ some c) × InChain it c

  chain_find-InChain :
      (k : K) (c : List (Item K V)) (it : Item K V)
      → chain_find k c ≡ some it
      → (it.key ≡ k) × InChain it c
  unfolding chain_find
  chain_find-InChain k [] it found = ground (arith, found)
  chain_find-InChain k (x ∷ xs) it found = elim (Bool-cases (keys.same k x.key)) [
    | inl e ↦
        let this : x ≡ it = some-injective (rw e at found) in
        (sym (keys.same_eq k x.key e ∙ ap (λ i. i.key) this), inl (sym this))
    | inr e ↦ let (key, later) = chain_find-InChain k xs it (rw e at found) in (key, inr later)
  ]

  InChain-chain_find :
      (n b : ℕ) (c : List (Item K V)) (it : Item K V)
      → IsChain n b c
      → InChain it c
      → chain_find it.key c ≡ some it
  unfolding chain_find
  InChain-chain_find n b [] it is i = absurd i
  InChain-chain_find n b (x ∷ xs) it is (inl this) = rw (this, keys.same_refl x.key)
  InChain-chain_find n b (x ∷ xs) it is (inr later) =
      let found = InChain-chain_find n b xs it is.2 later in
      rw (apart x xs it.key it is.1 found) found

  -- An item that occurs hangs in the bucket of its key.
  Occurs-home :
      (n : ℕ) (t : List (List (Item K V))) (it : Item K V)
      → IsTable n t
      → Occurs it t
      → (c : List (Item K V)) × (get_elem? t (keys.hash it.key % n) ≡ some c) × InChain it c
  Occurs-home n t it is (b, c, at, i) =
      let chain = is.chains b c at in
      let placed = chain_find-placed n b c it.key it chain (InChain-chain_find n b c it chain i) in
      (c, subst (λ j. get_elem? t j ≡ some c) (sym placed) at, i)

  Occurs-find_in :
      (n : ℕ) (t : List (List (Item K V))) (it : Item K V)
      → IsTable n t
      → Occurs it t
      → find_in n t it.key ≡ some it
  Occurs-find_in n t it is occurs =
      let (c, at, i) = Occurs-home n t it is occurs in
      find_in-bucket n t it.key at ∙ InChain-chain_find n _ c it (is.chains _ c at) i

  find_in-Occurs :
      (n : ℕ) (t : List (List (Item K V))) (k : K) (it : Item K V)
      → 0 < n
      → IsTable n t
      → find_in n t k ≡ some it
      → (it.key ≡ k) × Occurs it t
  find_in-Occurs n t k it pos is found =
      let (c, at) = bucket-some n t (keys.hash k) pos is in
      let (key, i) = chain_find-InChain k c it (sym (find_in-bucket n t k at) ∙ found) in
      (key, (keys.hash k % n, c, at, i))

  abbrev pub OccursIn : Item K V → Assoc (Item K V) → Type 0
  OccursIn it st = Occurs it st.primary_hashtable ⊎ Occurs it st.old_hashtable

  holds-OccursIn :
      (st : Assoc (Item K V)) (k : K) (it : Item K V)
      → IsAssoc st
      → holds st k ≡ some it
      → (it.key ≡ k) × OccursIn it st
  unfolding holds
  holds-OccursIn st k it is found = elim (Bool-cases (in_old st (keys.hash k))) [
    | inl e ↦
        let x = subst (λ b. Phase b st) (in_old-expanding st (keys.hash k) e) is.phase in
        let (key, occurs) =
          find_in-Occurs _ st.old_hashtable k it (pow2_pos (st.hashpower - 1)) x.old
            (rw e at found) in
        (key, inr occurs)
    | inr e ↦
        let (key, occurs) =
          find_in-Occurs _ st.primary_hashtable k it (pow2_pos st.hashpower) is.primary
            (rw e at found) in
        (key, inl occurs)
  ]

  -- Behind `expand_bucket` nothing hangs in the primary table yet.
  not_yet :
      (st : Assoc (Item K V)) (it : Item K V)
      → IsAssoc st
      → IsExpanding st
      → in_old st (keys.hash it.key) ≡ true
      → ¬ Occurs it st.primary_hashtable
  unfolding in_old
  not_yet st it is x old occurs =
      let found = Occurs-find_in _ st.primary_hashtable it is.primary occurs in
      ground (arith, sym (x.fresh it.key (ground (arith, old))) ∙ found)

  -- Before it, and out of an expansion, nothing hangs in the old table any more.
  no_more :
      (st : Assoc (Item K V)) (it : Item K V) (expanding : Bool)
      → st.expanding ≡ expanding
      → Phase expanding st
      → in_old st (keys.hash it.key) ≡ false
      → ¬ Occurs it st.old_hashtable
  unfolding in_old
  no_more st it false s phase new (b, c, at, i) = ground (arith, rw phase at at)
  no_more st it true s x new occurs =
      let (c, at, i) = Occurs-home _ st.old_hashtable it x.old occurs in
      let empty : [] ≡ c = some-injective (sym (x.moved _ (ground (arith, s, new))) ∙ at) in
      subst (InChain it) (sym empty) i

  OccursIn-holds :
      (st : Assoc (Item K V)) (it : Item K V)
      → IsAssoc st
      → OccursIn it st
      → holds st it.key ≡ some it
  unfolding holds
  OccursIn-holds st it is occurs = elim (Bool-cases (in_old st (keys.hash it.key))) [
    | inl e ↦
        let x = subst (λ b. Phase b st) (in_old-expanding st (keys.hash it.key) e) is.phase in
        elim occurs [
          | inl primary ↦ absurd (not_yet st it is x e primary)
          | inr old ↦ rw e (Occurs-find_in _ st.old_hashtable it x.old old)
        ]
    | inr e ↦ elim occurs [
      | inl primary ↦ rw e (Occurs-find_in _ st.primary_hashtable it is.primary primary)
      | inr old ↦ absurd (no_more st it st.expanding refl is.phase e old)
    ]
  ]

  -- A search in a table with its invariant ends without a fault. It finds an item exactly where the
  -- item has the key and hangs in some bucket of the primary or of the old table, whether or not
  -- an expansion is under way.
  pub assoc_find-Occurs :
      (key : K) (st : Assoc (Item K V))
      → IsAssoc st
      → Returns
          (assoc_find key (keys.hash key) st)
          λ found. (it : Item K V) → (found ≡ some it) ↔ ((it.key ≡ key) × OccursIn it st)
  assoc_find-Occurs key st is = (
    holds st key,
    assoc_find-holds key st is,
    λ it. (
      holds-OccursIn st key it is,
      λ (same, occurs). subst (λ k. holds st k ≡ some it) same (OccursIn-holds st it is occurs),
    ),
  )
