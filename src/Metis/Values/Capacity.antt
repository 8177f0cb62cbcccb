-- ===== src/Metis/Values/Capacity.antt =====
-- lib/value_helper.c: the array of values has room, and holds what was put in.
use mage_artifact_baseline.Common.{
  ℕ, zero, suc, ◌+◌, ◌^◌, ◌≤◌, ◌<◌, max, ◌≡◌, refl, Option, none, some, List, [], ◌∷◌, ◌++◌, inl,
  inr, arith, leb, ◌>>=◌, take, u32_mod, length, Returns, Bool-cases, length-take, ap, ◌∙◌,
}
use native.Mathlib.Numerals.{add-one}
use mage_artifact_baseline.Metis.Types.{Vals, null, buffer, modified, Values, App}
use mage_artifact_baseline.Metis.Values.{
  modifier, combiner_of, store, values_grow, values_push, values_combine, values_insert,
}

module _ {V : Type 0} where
  -- The values that count: the first `len` slots of the array.
  abbrev pub live : Values V → List V
  live kvs = elim (kvs.vals) [ buffer xs ↦ take kvs.len xs | _ ↦ [] ]

  -- Either no array was allocated, or one with all the values inside and room for the rest.
  abbrev pub HasRoom : Vals V → ℕ → ℕ → Type 0
  HasRoom null len alloc_len = (len ≡ 0) × (alloc_len ≡ 0)
  HasRoom (buffer xs) len alloc_len =
      (len ≤ length xs) × (length xs ≤ alloc_len) × (alloc_len < u32_mod)
  HasRoom (modified x) len alloc_len = ⊥

  abbrev pub IsValues : Values V → Type 0
  IsValues kvs = HasRoom kvs.vals kvs.len kvs.alloc_len

  take-store :
      (n : ℕ) (v : V) (xs : List V)
      → n ≤ length xs
      → take (suc n) (store n v xs) ≡ take n xs ++ v ∷ []
  take-store zero v xs h = refl
  take-store (suc n) v [] h = elim h [ ]
  take-store (suc n) v (x ∷ xs) h = ap (λ t. x ∷ t) (take-store n v xs (omega arith))

  length-store :
      (n : ℕ) (v : V) (xs : List V)
      → n ≤ length xs
      → length (store n v xs) ≡ max (suc n) (length xs)
  length-store zero v [] h = omega arith
  length-store zero v (x ∷ xs) h = omega arith
  length-store (suc n) v [] h = elim h [ ]
  length-store (suc n) v (x ∷ xs) h = omega (arith, length-store n v xs)

  length-live : (kvs : Values V) → IsValues kvs → length (live kvs) ≡ kvs.len
  length-live kvs = go kvs.vals kvs.len kvs.alloc_len
    where
      go :
          (vals : Vals V) (len alloc_len : ℕ)
          → HasRoom vals len alloc_len
          → length (elim vals as (λ _. List V) [ buffer xs ↦ take len xs | _ ↦ [] ]) ≡ len
      go null len alloc_len h = omega arith
      go (buffer xs) len alloc_len h = omega (arith, length-take len xs)
      go (modified x) len alloc_len h = absurd h

  -- What an operation on values should leave: room, and these live values.
  pub record Keeps (xs : List V) (kvs : Values V) : Type 0 where
    pub room : IsValues kvs
    pub values : live kvs ≡ xs

  pub values_push-Keeps :
      (val : V) (kvs : Values V)
      → IsValues kvs
      → kvs.len < 2 ^ 31
      → Returns
          (values_push val (values_grow kvs))
          λ kvs'. Keeps (live kvs ++ val ∷ []) kvs' × (kvs'.len ≡ kvs.len + 1)
  unfolding values_push values_grow
  values_push-Keeps val kvs = go kvs.vals kvs.len kvs.alloc_len
    where
      go :
          (vals : Vals V) (len alloc_len : ℕ)
          → HasRoom vals len alloc_len
          → len < 2 ^ 31
          → let kvs : Values V = record { vals = vals; len = len; alloc_len = alloc_len } in
            Returns
              (values_push val (values_grow kvs))
              λ kvs'. Keeps (live kvs ++ val ∷ []) kvs' × (kvs'.len ≡ len + 1)
      go null len alloc_len h small = (
        record { vals = buffer (val ∷ []); len = 1; alloc_len = 8 },
        ground arith,
        (record { room = omega arith; values = refl }, omega arith),
      )
      go (buffer []) len alloc_len h small = (
        record {
          vals = buffer (val ∷ []);
          len = 1;
          alloc_len =
              (values_grow {V = V}
                (record { vals = buffer []; len = len; alloc_len = alloc_len })).alloc_len;
        },
        ground arith,
        (record { room = ground arith; values = ground arith }, omega arith),
      )
      go (buffer (x ∷ ys)) len alloc_len h small =
          let xs = x ∷ ys in
          let grown = values_grow (record { vals = buffer xs; len = len; alloc_len = alloc_len }) in
          (
            record { vals = buffer (store len val xs); len = len + 1; alloc_len = grown.alloc_len },
            ground arith,
            (
              record {
                room = ground (arith, length-store len val xs);
                values = rw add-one (take-store len val xs h.0);
              },
              refl,
            ),
          )
      go (modified x) len alloc_len h small = absurd h

module _ {K V M : Type 0} (app : App K V) (meaning : K → List V → M) where
  -- What Metis asks of a combiner: it works inside the array, leaves no more values than it was
  -- given, and keeps what the values mean to the application.
  abbrev pub Combines : Type 0
  Combines =
      (combine : K → List V → ℕ → List V × ℕ)
      → combiner_of app ≡ some combine
      → (key : K) (xs : List V) (n : ℕ) → n ≤ length xs
      → (length (combine key xs n).0 ≡ length xs)
        × ((combine key xs n).1 ≤ n)
        × (meaning key (take (combine key xs n).1 (combine key xs n).0) ≡ meaning key (take n xs))

  module _ (plain : modifier app ≡ none) (lawful : Combines) where
    values_combine-Keeps :
        (key : K) (kvs : Values V)
        → IsValues kvs
        → Returns (values_combine app key kvs) λ kvs'.
          IsValues kvs' × (kvs'.len ≤ kvs.len) × (meaning key (live kvs') ≡ meaning key (live kvs))
    unfolding values_combine
    values_combine-Keeps key kvs = go (combiner_of app) refl kvs.vals kvs.len kvs.alloc_len
      where
        go :
            (c : Option (K → List V → ℕ → List V × ℕ))
            → combiner_of app ≡ c
            → (vals : Vals V) (len alloc_len : ℕ) → HasRoom vals len alloc_len
            → let kvs : Values V = record { vals = vals; len = len; alloc_len = alloc_len } in
              Returns (values_combine app key kvs) λ kvs'.
                IsValues kvs'
                × (kvs'.len ≤ len)
                × (meaning key (live kvs') ≡ meaning key (live kvs))
        go none absent vals len alloc_len h = (
          record { vals = vals; len = len; alloc_len = alloc_len },
          rw (absent, values_combine),
          (h, omega arith, refl),
        )
        go (some combine) present null len alloc_len h = (
          record { vals = null; len = len; alloc_len = alloc_len },
          ground (arith, present),
          (h, omega arith, refl),
        )
        go (some combine) present (buffer xs) len alloc_len h =
            let (same, fewer, meant) = lawful combine present key xs len h.0 in
            elim (Bool-cases (leb 8 len)) [
              | inl full ↦ (
                record {
                  vals = buffer (combine key xs len).0;
                  len = (combine key xs len).1;
                  alloc_len = alloc_len;
                },
                ground (arith, present, full),
                (omega arith, fewer, meant),
              )
              | inr few ↦ (
                record { vals = buffer xs; len = len; alloc_len = alloc_len },
                rw (present, values_combine, few),
                (h, omega arith, refl),
              )
            ]
        go (some combine) present (modified x) len alloc_len h = absurd h

    -- Without a value modifier an insertion does not fault, keeps the array's room, and adds the
    -- value to what the values mean. A combiner may merge values; without one, and with the list
    -- itself for the meaning, the value is appended.
    pub values_insert-Keeps :
        (congruent : (key : K) (xs ys : List V) (v : V)
          → meaning key xs ≡ meaning key ys
          → meaning key (xs ++ v ∷ []) ≡ meaning key (ys ++ v ∷ []))
        (key : K) (kvs : Values V) (val : V)
        → IsValues kvs
        → kvs.len < 2 ^ 31
        → Returns (values_insert app key kvs val) λ kvs'.
          IsValues kvs'
          × (kvs'.len ≤ kvs.len + 1)
          × (meaning key (live kvs') ≡ meaning key (live kvs ++ val ∷ []))
    unfolding values_insert
    values_insert-Keeps congruent key kvs val room small =
        let (pushed, push, (kept, longer)) = values_push-Keeps val kvs room small in
        let (r, combine, (room', shorter, meant)) = values_combine-Keeps key pushed kept.room in
        (
          r,
          rw (plain, values_insert, push, ◌>>=◌) combine,
          (room', omega arith, meant ∙ ap (meaning key) kept.values),
        )
