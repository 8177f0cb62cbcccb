-- ===== src/Memcached/Assoc/Table.antt =====
-- src/assoc.c: one table of buckets, as a map from keys to items.
use mage_artifact_baseline.Common.{
  subst, ◌^◌, pow2_pos, pow2_mono, lt→ltb, ltb, true, ◌≤◌, ℕ, zero, suc, ◌+◌, ◌%◌, ◌<◌, ◌≡◌, ◌≢◌,
  refl, sym, ap, ◌∙◌, false, Option, none, some, List, [], ◌∷◌, inl, inr, arith, ◌==◌,
  if◌then◌else◌, ◌>>=◌, get_elem?, set, replicate, length, Returns, length-set, length-replicate,
  get_elem?-set_self, get_elem?-set_ne, get_elem?-lt, get_elem?-some, Bool-cases, Option-cases,
  ==_iff,
}
use mage_artifact_baseline.Memcached.Assoc.{
  Item, ItemKeys, chain_find, chain_before, unlink, move_items,
}

-- The number of items in a table.
abbrev pub count : {I : Type 0} → List (List I) → ℕ
count [] = 0
count (c ∷ cs) = length c + count cs

pub count-set :
    {I : Type 0} (t : List (List I)) (b : ℕ) (c c' : List I)
    → get_elem? t b ≡ some c
    → count (set t b c') + length c ≡ count t + length c'
count-set [] b c c' at = ground (arith, at)
count-set (x ∷ xs) zero c c' at = ground (arith, at)
count-set (x ∷ xs) (suc b) c c' at = omega (arith, count-set xs b c c' at)

pub count-replicate : (I : Type 0) (n : ℕ) → count {I = I} (replicate n []) ≡ 0
count-replicate I zero = refl
count-replicate I (suc n) = omega (arith, count-replicate I n)

pub differ :
    {K : Type 0} ⦃keys : ItemKeys K⦄ (a b : K) → keys.hash a ≢ keys.hash b → keys.same a b ≡ false
differ ⦃keys⦄ a b h = elim (Bool-cases (keys.same a b)) [
  | inl e ↦ absurd (h (ap keys.hash (keys.same_eq a b e)))
  | inr e ↦ e
]

module _ {K V : Type 0} ⦃keys : ItemKeys K⦄ where
  -- Every item hangs in the bucket of its hash value, and no key comes twice.
  abbrev pub IsChain : (n b : ℕ) → List (Item K V) → Type 0
  IsChain n b [] = Unit
  IsChain n b (it ∷ its) =
      (keys.hash it.key % n ≡ b) × (chain_find it.key its ≡ none) × IsChain n b its

  pub record IsTable (n : ℕ) (t : List (List (Item K V))) : Type 0 where
    pub size : length t ≡ n
    pub chains : (b : ℕ) (c : List (Item K V)) → get_elem? t b ≡ some c → IsChain n b c

  unfoldable pub find_in : ℕ → List (List (Item K V)) → K → Option (Item K V)
  find_in n t key = elim (get_elem? t (keys.hash key % n)) [
    | none ↦ none
    | some c ↦ chain_find key c
  ]

  pub bucket-some :
      (n : ℕ) (t : List (List (Item K V))) (hv : ℕ)
      → 0 < n
      → IsTable n t
      → (c : List (Item K V)) × (get_elem? t (hv % n) ≡ some c)
  bucket-some n t hv pos is = get_elem?-some t (hv % n) (omega (arith, is.size))

  pub find_in-bucket :
      (n : ℕ) (t : List (List (Item K V))) (key : K) {c : List (Item K V)}
      → get_elem? t (keys.hash key % n) ≡ some c
      → find_in n t key ≡ chain_find key c
  unfolding find_in
  find_in-bucket n t key at = rw (at, find_in)

  -- A write to the bucket of a hash value changes what is found there, and nothing else.
  pub find_in-set :
      (n : ℕ) (t : List (List (Item K V))) (b : ℕ) (c c' : List (Item K V)) (key : K)
      → get_elem? t b ≡ some c
      → find_in n (set t b c') key
        ≡ (if b == keys.hash key % n then chain_find key c' else find_in n t key)
  unfolding find_in
  find_in-set n t b c c' key at = elim (Bool-cases (b == keys.hash key % n)) [
    | inl e ↦
        let written = get_elem?-set_self t b c' (get_elem?-lt t b at) in
        rw e (
          find_in-bucket n (set t b c') key
            (subst (λ i. get_elem? (set t b c') i ≡ some c') ((==_iff b _).0 e) written))
    | inr e ↦
        let other : b ≢ keys.hash key % n = λ same. ground (arith, e, same) in
        rw e (
          ap (λ o. elim o as (λ _. Option (Item K V)) [ none ↦ none | some c ↦ chain_find key c ])
            (get_elem?-set_ne t c' other))
  ]

  pub IsTable-set :
      (n : ℕ) (t : List (List (Item K V))) (b : ℕ) (c c' : List (Item K V))
      → get_elem? t b ≡ some c
      → IsTable n t
      → IsChain n b c'
      → IsTable n (set t b c')
  IsTable-set n t b c c' at is chain = record { size = length-set t b c' ∙ is.size; chains = go }
    where
      go : (i : ℕ) (d : List (Item K V)) → get_elem? (set t b c') i ≡ some d → IsChain n i d
      go i d here = elim (Bool-cases (b == i)) [
        | inl e ↦
            let same = (==_iff b i).0 e in
            let written : get_elem? (set t b c') b ≡ some c' =
              get_elem?-set_self t b c' (get_elem?-lt t b at) in
            subst (λ j. IsChain n j d) same
              (subst (λ o. elim o as (λ _. Type 0) [ none ↦ Unit | some e ↦ IsChain n b e ])
                (sym written ∙ subst (λ j. get_elem? (set t b c') j ≡ some d) (sym same) here)
                chain)
        | inr e ↦
            is.chains i d (sym (get_elem?-set_ne t c' (λ same. ground (arith, e, same))) ∙ here)
      ]

  -- An item at the front of its bucket is found under its key, and every other key as before.
  pub find_in-push :
      (n : ℕ) (t : List (List (Item K V))) (it : Item K V) (c : List (Item K V)) (key : K)
      → get_elem? t (keys.hash it.key % n) ≡ some c
      → find_in n (set t (keys.hash it.key % n) (it ∷ c)) key
        ≡ (if keys.same key it.key then some it else find_in n t key)
  unfolding chain_find
  find_in-push n t it c key at =
      find_in-set n t _ c (it ∷ c) key at
      ∙ elim (Bool-cases (keys.hash it.key % n == keys.hash key % n)) [
        | inl e ↦
            let here = subst (λ i. get_elem? t i ≡ some c) ((==_iff _ _).0 e) at in
            rw (e, find_in-bucket n t key here) refl
        | inr e ↦
            let other : keys.same key it.key ≡ false =
              differ key it.key (λ h. ground (arith, e, ap (λ v. v % n) h)) in
            rw (e, other)
      ]

  pub IsTable-push :
      (n : ℕ) (t : List (List (Item K V))) (it : Item K V) (c : List (Item K V))
      → get_elem? t (keys.hash it.key % n) ≡ some c
      → IsTable n t
      → find_in n t it.key ≡ none
      → IsTable n (set t (keys.hash it.key % n) (it ∷ c))
  IsTable-push n t it c at is absent =
      IsTable-set n t _ c (it ∷ c) at is
        (refl, sym (find_in-bucket n t it.key at) ∙ absent, is.chains _ c at)

  -- What is left of a chain without the item of a key.
  record Unlinked (n b : ℕ) (key : K) (c c' : List (Item K V)) : Type 0 where
    chain : IsChain n b c'
    shorter : length c ≡ suc (length c')
    finds : (k : K) → chain_find k c' ≡ (if keys.same k key then none else chain_find k c)

  unlink-Unlinked :
      (n b : ℕ) (key : K) (c : List (Item K V)) {x : Item K V}
      → IsChain n b c
      → chain_find key c ≡ some x
      → Returns (unlink (chain_before key c) c) (Unlinked n b key c)
  unfolding unlink chain_before chain_find
  unlink-Unlinked n b key [] is found = ground (arith, found)
  unlink-Unlinked n b key (it ∷ its) is found = elim (Bool-cases (keys.same key it.key)) [
    | inl here ↦ (
      its,
      rw here,
      record {
        chain = is.2;
        shorter = refl;
        finds = λ k. elim (Bool-cases (keys.same k key)) [
          | inl e ↦ rw e (
              subst (λ j. chain_find j its ≡ none)
                (sym (keys.same_eq k key e ∙ keys.same_eq key it.key here)) is.1)
          | inr e ↦ rw (e, ap (keys.same k) (sym (keys.same_eq key it.key here)) ∙ e)
        ];
      },
    )
    | inr later ↦
        let (rest, run, u) = unlink-Unlinked n b key its is.2 (rw later at found) in
        (
          it ∷ rest,
          rw (later, run),
          record {
            chain = (
              is.0,
              u.finds it.key
                  ∙ elim (Bool-cases (keys.same it.key key)) [ inl e ↦ rw e | inr e ↦ rw e is.1 ],
              u.chain,
            );
            shorter = ap suc u.shorter;
            finds = λ k. elim (Bool-cases (keys.same k key)) [
              | inl e ↦
                  rw (e, ap (λ j. keys.same j it.key) (keys.same_eq k key e) ∙ later)
                    (u.finds k ∙ rw e)
              | inr e ↦
                  rw e (ap (λ t. if keys.same k it.key then some it else t) (u.finds k ∙ rw e))
            ];
          },
        )
  ]

  -- What is left of a table without the item of a key.
  pub record Without (n b : ℕ) (key : K) (t : List (List (Item K V))) (c c' : List (Item K V))
      : Type 0 where
    pub table : IsTable n (set t b c')
    pub fewer : suc (count (set t b c')) ≡ count t
    pub finds :
        (k : K) → find_in n (set t b c') k ≡ (if keys.same k key then none else find_in n t k)

  pub unlink-Without :
      (n : ℕ) (t : List (List (Item K V))) (key : K) (c : List (Item K V)) {x : Item K V}
      → get_elem? t (keys.hash key % n) ≡ some c
      → IsTable n t
      → find_in n t key ≡ some x
      → Returns (unlink (chain_before key c) c) (Without n (keys.hash key % n) key t c)
  unlink-Without n t key c at is found =
      let b = keys.hash key % n in
      let (c', run, u) =
        unlink-Unlinked n b key c (is.chains b c at) (sym (find_in-bucket n t key at) ∙ found) in
      (
        c',
        run,
        record {
          table = IsTable-set n t b c c' at is u.chain;
          fewer = omega (arith, count-set t b c c' at, u.shorter);
          finds = λ k. find_in-set n t b c c' k at ∙ elim (Bool-cases (b == keys.hash k % n)) [
            | inl e ↦
                let here = subst (λ i. get_elem? t i ≡ some c) ((==_iff _ _).0 e) at in
                rw (e, find_in-bucket n t k here) (u.finds k)
            | inr e ↦
                let other : keys.same k key ≡ false =
                  differ k key (λ h. ground (arith, e, ap (λ v. v % n) h)) in
                rw (e, other)
          ];
        },
      )

  -- The first of two answers.
  abbrev pub or_else : Option (Item K V) → Option (Item K V) → Option (Item K V)
  or_else (some it) o = some it
  or_else none o = o

  -- A key that is found in a chain is not that of an item that is not.
  pub apart :
      (it : Item K V) (its : List (Item K V)) (k : K) (x : Item K V)
      → chain_find it.key its ≡ none
      → chain_find k its ≡ some x
      → keys.same k it.key ≡ false
  apart it its k x absent found = elim (Bool-cases (keys.same k it.key)) [
    | inl e ↦
        let none_here = ap (λ j. chain_find j its) (keys.same_eq k it.key e) ∙ absent in
        ground (arith, sym found ∙ none_here)
    | inr e ↦ e
  ]

  -- What the inner loop of the maintenance thread leaves.
  pub record Moved (n : ℕ) (its : List (Item K V)) (t t' : List (List (Item K V))) : Type 0 where
    pub table : IsTable n t'
    pub more : count t' ≡ count t + length its
    pub finds : (k : K) → find_in n t' k ≡ or_else (chain_find k its) (find_in n t k)

  pub move_items-Moved :
      (hashpower m b : ℕ) (its : List (Item K V)) (t : List (List (Item K V)))
      → hashpower ≤ 31
      → IsTable (2 ^ hashpower) t
      → IsChain m b its
      → ((k : K) (x : Item K V) → chain_find k its ≡ some x → find_in (2 ^ hashpower) t k ≡ none)
      → Returns (move_items hashpower its t) (Moved (2 ^ hashpower) its t)
  unfolding move_items chain_find
  move_items-Moved hashpower m b [] t low is chain fresh =
      (t, refl, record { table = is; more = omega arith; finds = λ k. refl })
  move_items-Moved hashpower m b (it ∷ its) t low is chain fresh =
      let n = 2 ^ hashpower in
      let (c, at) = bucket-some n t (keys.hash it.key) (pow2_pos hashpower) is in
      let b' = keys.hash it.key % n in
      let t₁ = set t b' (it ∷ c) in
      let room : 2 ^ hashpower ≤ 2 ^ 31 = pow2_mono hashpower 31 low in
      let positive : ltb b' (2 ^ 31) ≡ true =
        lt→ltb b' (2 ^ 31) (omega (arith, room, pow2_pos hashpower)) in
      let absent = fresh it.key it (rw (keys.same_refl it.key)) in
      let (t', run, m') =
        move_items-Moved hashpower m b its t₁ low (IsTable-push n t it c at is absent) chain.2
          λ k x found.
            let other = apart it its k x chain.1 found in
            find_in-push n t it c k at ∙ rw other (fresh k x (rw other found)) in
      (
        t',
        rw (positive, at, ◌>>=◌, run),
        record {
          table = m'.table;
          more = omega (arith, m'.more, count-set t b' c (it ∷ c) at);
          finds = λ k. m'.finds k ∙ elim (Bool-cases (keys.same k it.key)) [
            | inl e ↦
                let none_later = ap (λ j. chain_find j its) (keys.same_eq k it.key e) ∙ chain.1 in
                rw (none_later, find_in-push n t it c k at, e)
            | inr e ↦ rw (find_in-push n t it c k at, e)
          ];
        },
      )

  replicate-get : (n b : ℕ) (c : List (Item K V)) → get_elem? (replicate n []) b ≡ some c → c ≡ []
  replicate-get zero b c at = ground (arith, at)
  replicate-get (suc n) zero c at = ground (arith, at)
  replicate-get (suc n) (suc b) c at = replicate-get n b c at

  -- A new table, in which `calloc` has set every bucket to NULL.
  pub new-IsTable : (n : ℕ) (t : List (List (Item K V))) → t ≡ replicate n [] → IsTable n t
  new-IsTable n t new = record {
    size = rw new (length-replicate n _);
    chains = λ b c at. subst (IsChain n b) (sym (replicate-get n b c (rw new at at))) tt;
  }

  pub find_in-new :
      (n : ℕ) (t : List (List (Item K V))) (k : K) → t ≡ replicate n [] → find_in n t k ≡ none
  unfolding find_in chain_find
  find_in-new n t k new = elim (Option-cases (get_elem? t (keys.hash k % n))) [
    | inl e ↦ rw (find_in, e)
    | inr (c, e) ↦ rw (find_in, e, replicate-get n _ c (rw new at e))
  ]

  -- A key that is found in a bucket hashes to it.
  pub chain_find-placed :
      (m b : ℕ) (c : List (Item K V)) (k : K) (x : Item K V)
      → IsChain m b c
      → chain_find k c ≡ some x
      → keys.hash k % m ≡ b
  unfolding chain_find
  chain_find-placed m b [] k x is found = ground (arith, found)
  chain_find-placed m b (it ∷ its) k x is found = elim (Bool-cases (keys.same k it.key)) [
    | inl e ↦ ap (λ j. keys.hash j % m) (keys.same_eq k it.key e) ∙ is.0
    | inr e ↦ chain_find-placed m b its k x is.2 (rw e at found)
  ]
