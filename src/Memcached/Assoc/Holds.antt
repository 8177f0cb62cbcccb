-- ===== src/Memcached/Assoc/Holds.antt =====
-- src/assoc.c: the invariant of the growing table, and the map from keys to items that it holds.
use mage_artifact_baseline.Common.{
  ℕ, ◌+◌, ◌-◌, ◌%◌, ◌^◌, ◌≤◌, ◌<◌, ◌≡◌, ◌≢◌, refl, sym, ap, ◌∙◌, subst, Bool, true, false, Option,
  none, some, List, [], inl, inr, arith, if◌then◌else◌, get_elem?, set, length, Bool-cases,
  pow2_pos, get_elem?-set_ne,
}
use mage_artifact_baseline.Memcached.Assoc.{Item, ItemKeys, Assoc, in_old, bucket, assoc_find}
use mage_artifact_baseline.Memcached.Assoc.Table.{
  count, count-set, IsTable, find_in, find_in-bucket, bucket-some, differ,
}

module _ {K V : Type 0} ⦃keys : ItemKeys K⦄ where
  -- In an expansion: the buckets before `expand_bucket` have moved, and the others have not.
  pub record IsExpanding (st : Assoc (Item K V)) : Type 0 where
    pub grown : 0 < st.hashpower
    pub old : IsTable (2 ^ (st.hashpower - 1)) st.old_hashtable
    pub inside : st.expand_bucket < 2 ^ (st.hashpower - 1)
    pub moved : (b : ℕ) → b < st.expand_bucket → get_elem? st.old_hashtable b ≡ some []
    pub fresh :
        (k : K)
        → st.expand_bucket ≤ keys.hash k % 2 ^ (st.hashpower - 1)
        → find_in (2 ^ st.hashpower) st.primary_hashtable k ≡ none

  -- What the flags say of the old table.
  abbrev pub Phase : Bool → Assoc (Item K V) → Type 0
  Phase true st = IsExpanding st
  Phase false st = st.old_hashtable ≡ []

  pub record IsAssoc (st : Assoc (Item K V)) : Type 0 where
    pub primary : IsTable (2 ^ st.hashpower) st.primary_hashtable
    pub phase : Phase st.expanding st
    pub items : st.hash_items ≡ count st.primary_hashtable + count st.old_hashtable
    pub power : st.hashpower ≤ 32

  -- The map that the table stands for.
  unfoldable pub holds : Assoc (Item K V) → K → Option (Item K V)
  holds st key =
      if in_old st (keys.hash key)
      then find_in (2 ^ (st.hashpower - 1)) st.old_hashtable key
      else find_in (2 ^ st.hashpower) st.primary_hashtable key

  -- The bucket of a hash value in the table that `in_old` chooses.
  abbrev pub home_size : Bool → Assoc (Item K V) → ℕ
  home_size true st = 2 ^ (st.hashpower - 1)
  home_size false st = 2 ^ st.hashpower

  abbrev pub home : Bool → Assoc (Item K V) → List (List (Item K V))
  home true st = st.old_hashtable
  home false st = st.primary_hashtable

  pub in_old-expanding :
      (st : Assoc (Item K V)) (hv : ℕ) → in_old st hv ≡ true → st.expanding ≡ true
  unfolding in_old
  in_old-expanding st hv e = ground (arith, e)

  pub home-IsTable :
      (old : Bool) (st : Assoc (Item K V)) (hv : ℕ)
      → in_old st hv ≡ old
      → IsAssoc st
      → IsTable (home_size old st) (home old st)
  home-IsTable true st hv e is = (subst (λ b. Phase b st) (in_old-expanding st hv e) is.phase).old
  home-IsTable false st hv e is = is.primary

  -- A search in a table with its invariant ends without a fault, in the bucket of the key, and
  -- finds what the map holds.
  pub assoc_find-holds :
      (key : K) (st : Assoc (Item K V))
      → IsAssoc st
      → assoc_find key (keys.hash key) st ≡ some (holds st key)
  unfolding assoc_find bucket holds
  assoc_find-holds key st is = elim (Bool-cases (in_old st (keys.hash key))) [
    | inl e ↦
        let (c, at) =
          bucket-some _ st.old_hashtable (keys.hash key) (pow2_pos (st.hashpower - 1))
            (home-IsTable true st (keys.hash key) e is) in
        rw (e, at, find_in-bucket _ st.old_hashtable key at)
    | inr e ↦
        let (c, at) =
          bucket-some _ st.primary_hashtable (keys.hash key) (pow2_pos st.hashpower) is.primary in
        rw (e, at, find_in-bucket _ st.primary_hashtable key at)
  ]

  -- An update of the map at one key.
  abbrev pub update : (K → Option (Item K V)) → K → Option (Item K V) → K → Option (Item K V)
  update f key v k = if keys.same k key then v else f k

  -- What an operation should leave: the invariant, this map, this many items, and a table of
  -- 2 ^ power buckets.
  pub record Holds (f : K → Option (Item K V)) (items power : ℕ) (st : Assoc (Item K V))
      : Type 0 where
    pub inv : IsAssoc st
    pub map : (k : K) → holds st k ≡ f k
    pub size : st.hash_items ≡ items
    pub level : st.hashpower ≡ power

  -- Two keys on different sides of `expand_bucket` are different.
  pub apart-in_old :
      (st : Assoc (Item K V)) (a b : K)
      → in_old st (keys.hash a) ≢ in_old st (keys.hash b)
      → keys.same a b ≡ false
  apart-in_old st a b h = differ a b (λ e. h (ap (in_old st) e))

  module _ (st : Assoc (Item K V)) (key : K) (v : Option (Item K V)) (c c' : List (Item K V))
      (size : ℕ) (start : Bool) (is : IsAssoc st) where
    -- A write to a bucket of the old table, and one to a bucket of the primary one.
    abbrev pub old_written : Assoc (Item K V)
    old_written = record st {
      old_hashtable = set st.old_hashtable (keys.hash key % 2 ^ (st.hashpower - 1)) c';
      hash_items = size;
      started_expanding = start;
    }

    abbrev pub primary_written : Assoc (Item K V)
    primary_written = record st {
      primary_hashtable = set st.primary_hashtable (keys.hash key % 2 ^ st.hashpower) c';
      hash_items = size;
      started_expanding = start;
    }

    pub old_written-Holds :
        in_old st (keys.hash key) ≡ true
        → get_elem? st.old_hashtable (keys.hash key % 2 ^ (st.hashpower - 1)) ≡ some c
        → IsTable (2 ^ (st.hashpower - 1)) old_written.old_hashtable
        → ((k : K)
            → find_in (2 ^ (st.hashpower - 1)) old_written.old_hashtable k
              ≡ update (find_in (2 ^ (st.hashpower - 1)) st.old_hashtable) key v k)
        → size + length c ≡ st.hash_items + length c'
        → Holds (update (holds st) key v) size st.hashpower old_written
    unfolding holds in_old
    old_written-Holds e at table finds sum =
        let expanding = in_old-expanding st (keys.hash key) e in
        let x : IsExpanding st = subst (λ b. Phase b st) expanding is.phase in
        let b = keys.hash key % 2 ^ (st.hashpower - 1) in
        record {
          inv = record {
            primary = is.primary;
            phase =
                subst (λ s. Phase s old_written) (sym expanding)
                  (record {
                    grown = x.grown;
                    old = table;
                    inside = x.inside;
                    moved = λ i lt.
                        get_elem?-set_ne st.old_hashtable c' (λ same. ground (arith, e, same, lt))
                        ∙ x.moved i lt;
                    fresh = x.fresh;
                  });
            items = omega (arith, is.items, count-set st.old_hashtable b c c' at);
            power = is.power;
          };
          map = λ k. elim (Bool-cases (in_old st (keys.hash k))) [
            | inl o ↦ rw o (finds k)
            | inr o ↦ rw (o, apart-in_old st k key (λ h. ground (arith, sym o ∙ h ∙ e)))
          ];
          size = refl;
          level = refl;
        }

    primary_written-Phase :
        (expanding : Bool)
        → st.expanding ≡ expanding
        → in_old st (keys.hash key) ≡ false
        → ((k : K)
            → find_in (2 ^ st.hashpower) primary_written.primary_hashtable k
              ≡ update (find_in (2 ^ st.hashpower) st.primary_hashtable) key v k)
        → Phase expanding st
        → Phase expanding primary_written
    unfolding in_old
    primary_written-Phase false s e finds phase = phase
    primary_written-Phase true s e finds x = record {
      grown = x.grown;
      old = x.old;
      inside = x.inside;
      moved = x.moved;
      fresh = λ k le.
          let other = apart-in_old st k key (λ h. ground (arith, s, le, h ∙ e)) in
          finds k ∙ rw other (x.fresh k le);
    }

    pub primary_written-Holds :
        in_old st (keys.hash key) ≡ false
        → get_elem? st.primary_hashtable (keys.hash key % 2 ^ st.hashpower) ≡ some c
        → IsTable (2 ^ st.hashpower) primary_written.primary_hashtable
        → ((k : K)
            → find_in (2 ^ st.hashpower) primary_written.primary_hashtable k
              ≡ update (find_in (2 ^ st.hashpower) st.primary_hashtable) key v k)
        → size + length c ≡ st.hash_items + length c'
        → Holds (update (holds st) key v) size st.hashpower primary_written
    unfolding holds in_old
    primary_written-Holds e at table finds sum =
        let b = keys.hash key % 2 ^ st.hashpower in
        record {
          inv = record {
            primary = table;
            phase = primary_written-Phase st.expanding refl e finds is.phase;
            items = omega (arith, is.items, count-set st.primary_hashtable b c c' at);
            power = is.power;
          };
          map = λ k. elim (Bool-cases (in_old st (keys.hash k))) [
            | inl o ↦ rw (o, apart-in_old st k key (λ h. ground (arith, sym o ∙ h ∙ e)))
            | inr o ↦ rw o (finds k)
          ];
          size = refl;
          level = refl;
        }
