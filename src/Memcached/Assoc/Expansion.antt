-- ===== src/Memcached/Assoc/Expansion.antt =====
-- src/assoc.c: the table grows, bucket by bucket, and the map that it holds stays.
use mage_artifact_baseline.Common.{
  ℕ, suc, ◌+◌, ◌-◌, ◌%◌, ◌^◌, ◌<◌, ◌≡◌, ◌≢◌, refl, sym, ◌∙◌, subst, Bool, true, false, Option, none,
  some, List, [], ◌∷◌, inl, inr, arith, ◌==◌, if◌then◌else◌, get_elem?, set, length, length-set,
  Option-cases, le→leb, lt→leb, get_elem?-set_self, get_elem?-lt, get_elem?-set_ne, ◌⊎◌, pow2_pos,
}
use native.Mathlib.Decide.{dec_lt}
use mage_artifact_baseline.Memcached.Assoc.{Item, ItemKeys, Assoc, chain_find, in_old, assoc_expand}
use mage_artifact_baseline.Memcached.Assoc.Holds.{IsExpanding, Phase, IsAssoc, holds, Holds}
use mage_artifact_baseline.Memcached.Assoc.Table.{
  count, count-set, count-replicate, find_in, find_in-bucket, find_in-set, new-IsTable, find_in-new,
  chain_find-placed, IsTable-set, or_else, Moved,
}

compare-cases : (a b : ℕ) → (a < b) ⊎ ((a ≡ b) ⊎ (b < a))
compare-cases a b = elim (dec_lt a b) [
  | yes h ↦ inl h
  | no h ↦ elim (dec_lt b a) [ yes g ↦ inr (inr g) | no g ↦ inr (inl (omega arith)) ]
]

count-empty :
    {I : Type 0} (t : List (List I))
    → ((b : ℕ) → b < length t → get_elem? t b ≡ some [])
    → count t ≡ 0
count-empty [] h = refl
count-empty (c ∷ cs) h =
    let first : length c ≡ 0 = ground (arith, h 0 (omega arith)) in
    omega (arith, first, count-empty cs (λ b lt. h (suc b) (omega arith)))

module _ {K V : Type 0} ⦃keys : ItemKeys K⦄ where
  or_else-none : (o : Option (Item K V)) → or_else o none ≡ o
  or_else-none none = refl
  or_else-none (some x) = refl

  -- An expansion starts only where none is under way. With memory for the new table or without it,
  -- the invariant and the map stay.
  pub assoc_expand-Holds :
      (calloc_ok : Bool) (st : Assoc (Item K V))
      → IsAssoc st
      → st.expanding ≡ false
      → st.hashpower < 32
      → Holds
          (holds st)
          st.hash_items
          (if calloc_ok then st.hashpower + 1 else st.hashpower)
          (assoc_expand calloc_ok st)
  unfolding assoc_expand holds in_old
  assoc_expand-Holds false st is idle small = record {
    inv = is;
    map = λ k. refl;
    size = refl;
    level = refl;
  }
  assoc_expand-Holds true st is idle small =
      let back : st.hashpower + 1 - 1 ≡ st.hashpower = omega arith in
      let no_old : st.old_hashtable ≡ [] = subst (λ b. Phase b st) idle is.phase in
      record {
        inv = record {
          primary = new-IsTable _ _ refl;
          phase = record {
            grown = omega arith;
            old = rw back is.primary;
            inside = pow2_pos _;
            moved = λ b lt. elim lt [ ];
            fresh = λ k le. find_in-new _ _ k refl;
          };
          items = rw (count-replicate (Item K V)) (is.items ∙ rw no_old (omega arith));
          power = omega arith;
        };
        map = λ k. rw (idle, back, le→leb 0 (keys.hash k % 2 ^ st.hashpower) (omega arith));
        size = refl;
        level = refl;
      }

  module _ (st : Assoc (Item K V)) (is : IsAssoc st) (on : st.expanding ≡ true) where
    abbrev pub half : ℕ
    half = 2 ^ (st.hashpower - 1)

    pub expansion : IsExpanding st
    expansion = subst (λ b. Phase b st) on is.phase

    module _ (its : List (Item K V)) (primary : List (List (Item K V)))
        (at : get_elem? st.old_hashtable st.expand_bucket ≡ some its)
        (m : Moved (2 ^ st.hashpower) its st.primary_hashtable primary) where
      -- The keys of the bucket are found where its items went, and the others where they were.
      found_moved :
          (k : K)
          → keys.hash k % half ≡ st.expand_bucket
          → find_in (2 ^ st.hashpower) primary k ≡ find_in half st.old_hashtable k
      found_moved k here =
          let at' = subst (λ i. get_elem? st.old_hashtable i ≡ some its) (sym here) at in
          m.finds k
          ∙ rw (expansion.fresh k (omega (arith, here)), find_in-bucket half st.old_hashtable k at')
              (or_else-none (chain_find k its))

      none_here : (k : K) → keys.hash k % half ≢ st.expand_bucket → chain_find k its ≡ none
      none_here k other = elim (Option-cases (chain_find k its)) [
        | inl e ↦ e
        | inr (x, e) ↦ absurd (
            other (
              chain_find-placed half st.expand_bucket its k x
                (expansion.old.chains st.expand_bucket its at) e))
      ]

      found_other :
          (k : K)
          → keys.hash k % half ≢ st.expand_bucket
          → find_in (2 ^ st.hashpower) primary k ≡ find_in (2 ^ st.hashpower) st.primary_hashtable k
      found_other k other = m.finds k ∙ rw (none_here k other)

      old_other :
          (k : K)
          → keys.hash k % half ≢ st.expand_bucket
          → find_in half (set st.old_hashtable st.expand_bucket []) k
            ≡ find_in half st.old_hashtable k
      old_other k other =
          let ne : (st.expand_bucket == keys.hash k % half) ≡ false = ground (arith, other) in
          find_in-set half st.old_hashtable st.expand_bucket its [] k at ∙ rw ne

      -- The state in the middle of an expansion, with one bucket more moved.
      abbrev pub next_bucket : Assoc (Item K V)
      next_bucket = record st {
        primary_hashtable = primary;
        old_hashtable = set st.old_hashtable st.expand_bucket [];
        expand_bucket = st.expand_bucket + 1;
      }

      -- The state at its end.
      abbrev pub last_bucket : Assoc (Item K V)
      last_bucket = record st {
        primary_hashtable = primary;
        old_hashtable = [];
        expand_bucket = st.expand_bucket + 1;
        expanding = false;
      }

      emptied :
          (b : ℕ)
          → b < st.expand_bucket + 1
          → get_elem? (set st.old_hashtable st.expand_bucket []) b ≡ some []
      emptied b lt = elim (compare-cases b st.expand_bucket) [
        | inl less ↦
            get_elem?-set_ne st.old_hashtable [] (λ h. omega (arith, h)) ∙ expansion.moved b less
        | inr (inl equal) ↦
            rw equal (get_elem?-set_self st.old_hashtable st.expand_bucket [] (get_elem?-lt _ _ at))
        | inr (inr more) ↦ absurd (omega arith)
      ]

      pub next_bucket-Holds :
          st.expand_bucket + 1 < half → Holds (holds st) st.hash_items st.hashpower next_bucket
      unfolding holds in_old
      next_bucket-Holds more = record {
        inv = record {
          primary = m.table;
          phase =
              subst (λ b. Phase b next_bucket) (sym on)
                (record {
                  grown = expansion.grown;
                  old =
                      IsTable-set half st.old_hashtable st.expand_bucket its [] at expansion.old tt;
                  inside = more;
                  moved = λ b lt. emptied b lt;
                  fresh = λ k le.
                      found_other k (λ h. omega (arith, h, le))
                      ∙ expansion.fresh k (omega (arith, le));
                });
          items =
              omega
                (arith, is.items, m.more, count-set st.old_hashtable st.expand_bucket its [] at);
          power = is.power;
        };
        map = λ k. elim (compare-cases st.expand_bucket (keys.hash k % half)) [
          | inl less ↦
              rw
                (
                  on,
                  le→leb (st.expand_bucket + 1) (keys.hash k % half) (omega arith),
                  le→leb st.expand_bucket (keys.hash k % half) (omega arith),
                )
                (old_other k (λ h. omega (arith, h)))
          | inr (inl equal) ↦
              rw
                (
                  on,
                  lt→leb (st.expand_bucket + 1) (keys.hash k % half) (omega arith),
                  le→leb st.expand_bucket (keys.hash k % half) (omega arith),
                )
                (found_moved k (sym equal))
          | inr (inr more) ↦
              rw
                (
                  on,
                  lt→leb (st.expand_bucket + 1) (keys.hash k % half) (omega arith),
                  lt→leb st.expand_bucket (keys.hash k % half) (omega arith),
                )
                (found_other k (λ h. omega (arith, h)))
        ];
        size = refl;
        level = refl;
      }

      pub last_bucket-Holds :
          st.expand_bucket + 1 ≡ half → Holds (holds st) st.hash_items st.hashpower last_bucket
      unfolding holds in_old
      last_bucket-Holds last =
          let old' = set st.old_hashtable st.expand_bucket [] in
          let sized : length old' ≡ half =
            length-set st.old_hashtable st.expand_bucket [] ∙ expansion.old.size in
          let empty = count-empty old' (λ b lt. emptied b (omega (arith, lt, sized, last))) in
          record {
            inv = record {
              primary = m.table;
              phase = refl;
              items = omega (
                arith,
                is.items,
                m.more,
                empty,
                count-set st.old_hashtable st.expand_bucket its [] at,
              );
              power = is.power;
            };
            map = λ k.
                let inside : keys.hash k % half < half =
                  omega (arith, pow2_pos (st.hashpower - 1)) in
                elim (compare-cases st.expand_bucket (keys.hash k % half)) [
                  | inl less ↦ absurd (omega (arith, last, inside))
                  | inr (inl equal) ↦
                      rw (on, le→leb st.expand_bucket (keys.hash k % half) (omega arith))
                        (found_moved k (sym equal))
                  | inr (inr more) ↦
                      rw (on, lt→leb st.expand_bucket (keys.hash k % half) (omega arith))
                        (found_other k (λ h. omega (arith, h)))
                ];
            size = refl;
            level = refl;
          }
