-- ===== src/Memcached/Assoc/BulkMove.antt =====
-- src/assoc.c: the rounds of the maintenance thread, to the end of an expansion.
use mage_artifact_baseline.Common.{
  ==_iff, ℕ, zero, suc, ◌+◌, ◌-◌, ◌%◌, ◌^◌, ◌≤◌, ◌≡◌, refl, ap, ◌∙◌, true, false, Option, some, inl,
  inr, arith, ◌==◌, ◌>>=◌, ◌⊎◌, pow2_mono, Returns, Bool-cases, u32_mod, get_elem?-some,
}
use mage_artifact_baseline.Memcached.Assoc.{Item, ItemKeys, Assoc, move_bucket, bulk_move}
use mage_artifact_baseline.Memcached.Assoc.Holds.{IsAssoc, holds, Holds}
use mage_artifact_baseline.Memcached.Assoc.Expansion.{
  half, expansion, next_bucket, last_bucket, next_bucket-Holds, last_bucket-Holds,
}
use mage_artifact_baseline.Memcached.Assoc.Table.{chain_find-placed, move_items-Moved}

module _ {K V : Type 0} ⦃keys : ItemKeys K⦄ where
  -- What a round leaves: the map, and either one bucket more that has moved, or no expansion.
  abbrev pub Advances : Assoc (Item K V) → Assoc (Item K V) → Type 0
  Advances st st' =
      Holds (holds st) st.hash_items st.hashpower st'
      × ((st'.expanding ≡ false)
          ⊎ ((st'.expanding ≡ true) × (st'.expand_bucket ≡ st.expand_bucket + 1)))

  move_bucket-Advances :
      (st : Assoc (Item K V))
      → IsAssoc st
      → st.hashpower ≤ 31
      → st.expanding ≡ true
      → Returns (move_bucket st) (Advances st)
  unfolding move_bucket
  move_bucket-Advances st is low on =
      let x = expansion st is on in
      let h = half st is on in
      let (its, at) =
        get_elem?-some st.old_hashtable st.expand_bucket (omega (arith, x.old.size, x.inside)) in
      let chain = x.old.chains st.expand_bucket its at in
      let (primary, run, m) =
        move_items-Moved st.hashpower h st.expand_bucket its st.primary_hashtable low is.primary
          chain
          (λ k y found.
            x.fresh k (omega (arith, chain_find-placed h st.expand_bucket its k y chain found))) in
      let narrow : h ≤ 2 ^ 31 = pow2_mono (st.hashpower - 1) 31 (omega (arith, is.power)) in
      let wrap : (st.expand_bucket + 1) % u32_mod ≡ st.expand_bucket + 1 =
        omega (arith, x.inside, narrow) in
      elim (Bool-cases (st.expand_bucket + 1 == h)) [
        | inl last ↦ (
          last_bucket st is on its primary at m,
          rw (at, ◌>>=◌, run, wrap, last),
          (last_bucket-Holds st is on its primary at m ((==_iff _ _).0 last), inl refl),
        )
        | inr more ↦ (
          next_bucket st is on its primary at m,
          rw (at, ◌>>=◌, run, wrap, more),
          (
            next_bucket-Holds st is on its primary at m (ground (arith, x.inside, more)),
            inr (on, refl),
          ),
        )
      ]

  -- What some rounds leave; `ii` of them are enough for the buckets that are left.
  record Rounds (ii : ℕ) (st st' : Assoc (Item K V)) : Type 0 where
    same : Holds (holds st) st.hash_items st.hashpower st'
    stays : st.expanding ≡ false → st'.expanding ≡ false
    ends : 2 ^ (st.hashpower - 1) ≤ st.expand_bucket + ii → st'.expanding ≡ false

  bulk_move-on :
      (ii : ℕ) (st : Assoc (Item K V))
      → st.expanding ≡ true
      → bulk_move (suc ii) st ≡ (move_bucket st >>= bulk_move ii)
  unfolding bulk_move
  bulk_move-on ii st on =
      ap
        (λ b. elim b as (λ _. Option (Assoc (Item K V))) [
          | true ↦ move_bucket st >>= bulk_move ii
          | false ↦ some st
        ])
        on

  bulk_move-Rounds :
      (ii : ℕ) (st : Assoc (Item K V))
      → IsAssoc st
      → st.hashpower ≤ 31
      → Returns (bulk_move ii st) (Rounds ii st)
  unfolding bulk_move
  bulk_move-Rounds zero st is low = (
    st,
    refl,
    record {
      same = record { inv = is; map = λ k. refl; size = refl; level = refl };
      stays = λ off. off;
      ends = λ enough. elim (Bool-cases st.expanding) [
        | inl on ↦ absurd (omega (arith, (expansion st is on).inside))
        | inr off ↦ off
      ];
    },
  )
  bulk_move-Rounds (suc ii) st is low = elim (Bool-cases st.expanding) [
    | inl on ↦
        let (st₁, run₁, (h₁, next)) = move_bucket-Advances st is low on in
        let (st₂, run₂, r) = bulk_move-Rounds ii st₁ h₁.inv (rw h₁.level low) in
        (
          st₂,
          bulk_move-on ii st on ∙ ap (λ o. o >>= bulk_move ii) run₁ ∙ run₂,
          record {
            same = record {
              inv = r.same.inv;
              map = λ k. r.same.map k ∙ h₁.map k;
              size = r.same.size ∙ h₁.size;
              level = r.same.level ∙ h₁.level;
            };
            stays = λ off. ground (arith, on, off);
            ends = λ enough. elim next [
              | inl off ↦ r.stays off
              | inr (_, moved) ↦ r.ends (rw h₁.level (omega (arith, moved, enough)))
            ];
          },
        )
    | inr off ↦ (
      st,
      rw off,
      record {
        same = record { inv = is; map = λ k. refl; size = refl; level = refl };
        stays = λ _. off;
        ends = λ _. off;
      },
    )
  ]

  -- In a table of at most 2 ^ 31 buckets, a bulk move of any number of buckets ends without a
  -- fault, and keeps the invariant, the map and the number of items.
  pub bulk_move-Holds :
      (ii : ℕ) (st : Assoc (Item K V))
      → IsAssoc st
      → st.hashpower ≤ 31
      → Returns (bulk_move ii st) (Holds (holds st) st.hash_items st.hashpower)
  bulk_move-Holds ii st is low =
      let (st', run, r) = bulk_move-Rounds ii st is low in (st', run, r.same)

  -- In a table of at most 2 ^ 31 buckets, a bulk move that is told to move at least as many buckets
  -- as are left brings the expansion to its end.
  pub bulk_move-ends :
      (ii : ℕ) (st : Assoc (Item K V))
      → IsAssoc st
      → st.hashpower ≤ 31
      → 2 ^ (st.hashpower - 1) ≤ st.expand_bucket + ii
      → Returns (bulk_move ii st) λ st'. st'.expanding ≡ false
  bulk_move-ends ii st is low enough =
      let (st', run, r) = bulk_move-Rounds ii st is low in (st', run, r.ends enough)
