-- ===== src/Metis/KeyvalsArray/Models.antt =====
-- lib/keyvals_array.c: the array implements a map from keys to all the values emitted under them.
use mage_artifact_baseline.Common.{
  ℕ, ◌+◌, ◌^◌, ◌<◌, ◌≤◌, ◌≡◌, refl, sym, ◌∙◌, Bool, true, false, Option, none, some, List, [], ◌∷◌,
  ◌++◌, arith, ◌==◌, if◌then◌else◌, get_elem?, set, length, Returns, length-set, length-append, inl,
  inr, Bool-cases, ◌>>=◌,
}
use mage_artifact_baseline.Metis.Order.{KeyOrder}
use mage_artifact_baseline.Metis.Types.{KeyVals, App, Arr}
use mage_artifact_baseline.Metis.Bsearch.{bsearch_eq}
use mage_artifact_baseline.Metis.Bsearch.Bounds.{Lands, bsearch_eq-Lands}
use mage_artifact_baseline.Metis.Values.{no_values}
use mage_artifact_baseline.Metis.Values.Model.{ValuesModel}
use mage_artifact_baseline.Metis.Arr.{slots, checkfull}
use mage_artifact_baseline.Metis.Arr.Room.{Fits, IsArr, contents, len-contents, checkfull-Roomy}
use mage_artifact_baseline.Metis.KeyvalsArray.{
  insert_at, copied_key, keyvals_order, probe, place, pch_insert_kv,
}
use mage_artifact_baseline.Metis.KeyvalsArray.Find.{
  key_rank, find, IsStrict, IsStrict-IsSorted, find-hit, find-miss, set-IsStrict, find-set,
  insert_at-IsStrict, find-insert_at, length-insert_at,
}

-- The history of the keys of each rank, with one more value under rank `r`.
abbrev pub emit : {V : Type 0} → (ℕ → List V) → ℕ → V → ℕ → List V
emit f r v q = if r == q then f r ++ v ∷ [] else f q

abbrev pub is_empty : {V : Type 0} → List V → Bool
is_empty [] = true
is_empty (v ∷ vs) = false

is_empty_pos : {V : Type 0} (h : List V) → 0 < length h → false ≡ is_empty h
is_empty_pos [] p = elim p [ ]
is_empty_pos (v ∷ h) p = refl

module _ {K V : Type 0} ⦃o : KeyOrder K⦄ where
  -- The array is in order, with each key once.
  pub record IsKeyvals (arr : Arr (KeyVals K V)) : Type 0 where
    pub fits : IsArr arr
    pub strict : IsStrict (contents arr)

  -- The search at the array: the group of the key, or where a new group goes.
  abbrev Finds : K → List (KeyVals K V) → Option (ℕ × Bool) → Type 0
  Finds key es none = ⊥
  Finds key es (some (pos, true)) =
      (e : KeyVals K V) × (get_elem? es pos ≡ some e)
      × (key_rank e ≡ o.rank key)
      × (find (o.rank key) es ≡ some e)
  Finds key es (some (pos, false)) =
      (find (o.rank key) es ≡ none)
      × ((e : KeyVals K V) → key_rank e ≡ o.rank key → IsStrict (insert_at pos e es))

  Lands-Finds :
      (key : K) (es : List (KeyVals K V)) (r : Option (ℕ × Bool))
      → IsStrict es
      → Lands (probe key) es r
      → Finds key es r
  Lands-Finds key es none s l = l
  Lands-Finds key es (some (pos, true)) s l = find-hit key pos es s l.0 l.1
  Lands-Finds key es (some (pos, false)) s l =
      (find-miss key es s (l.0 ∙ sym l.1), λ e same. insert_at-IsStrict key e same pos es s l.0 l.1)

  search-Finds :
      (key : K) (arr : Arr (KeyVals K V))
      → IsKeyvals arr
      → arr.len ≤ 2 ^ 30
      → Finds key (contents arr) (bsearch_eq keyvals_order.cmp (probe key) (contents arr) arr.len)
  search-Finds key arr inv short =
      let len = len-contents arr inv.fits in
      rw len (
        Lands-Finds key (contents arr) _ inv.strict (
          bsearch_eq-Lands (probe key) (contents arr) (IsStrict-IsSorted _ inv.strict)
            (omega (arith, len, short))))

module _ {K V : Type 0} ⦃o : KeyOrder K⦄ {app : App K V} (m : ValuesModel app) where
  -- A group of keys stands for the history of its keys, and a key with no history has no group.
  abbrev pub Reads : Option (KeyVals K V) → List V → Type 0
  Reads none h = h ≡ []
  Reads (some e) h = m.Holds e.key e.values h × (0 < length h)

  abbrev pub Models : List (KeyVals K V) → (ℕ → List V) → Type 0
  Models es f = (r : ℕ) → Reads (find r es) (f r)

  -- What an insertion under `key` leaves.
  pub record Inserted (f : ℕ → List V) (key : K) (val : V) (old : Arr (KeyVals K V))
      (result : Arr (KeyVals K V) × Bool) : Type 0 where
    pub inv : IsKeyvals result.0
    pub models : Models (contents result.0) (emit f (o.rank key) val)
    pub reports : result.1 ≡ is_empty (f (o.rank key))
    pub len : result.0.len ≡ old.len + (if result.1 then 1 else 0)

  update-Reads :
      (es : List (KeyVals K V)) (f : ℕ → List V) (e' : KeyVals K V) (r : ℕ) (v : V) (q : ℕ)
      → Models es f
      → m.Holds e'.key e'.values (f r ++ v ∷ [])
      → Reads (if r == q then some e' else find q es) (emit f r v q)
  update-Reads es f e' r v q models holds = elim (Bool-cases (r == q)) [
    | inl same ↦ rw same (holds, omega (arith, length-append (f r) (v ∷ [])))
    | inr other ↦ rw other (models q)
  ]

  Fits-set :
      (block : Option (List (KeyVals K V))) (len alloc_len pos : ℕ) (e e' : KeyVals K V)
      → Fits block len alloc_len
      → get_elem? (slots block) pos ≡ some e
      → Fits (some (set (slots block) pos e')) len alloc_len
  Fits-set none len alloc_len pos e e' h at = ground (arith, at)
  Fits-set (some es) len alloc_len pos e e' h at = (h.0 ∙ sym (length-set es pos e'), h.1, h.2)

  module _ (arr : Arr (KeyVals K V)) (f : ℕ → List V) (key : K) (val : V) (keylen hash : ℕ)
      (inv : IsKeyvals arr) (models : Models (contents arr) f)
      (small : length (f (o.rank key)) < 2 ^ 31) where
    insert_hit :
        (pos : ℕ)
        → bsearch_eq keyvals_order.cmp (probe key) (contents arr) arr.len ≡ some (pos, true)
        → Finds key (contents arr) (some (pos, true))
        → Returns (pch_insert_kv app arr key val keylen hash) (Inserted f key val arr)
    unfolding pch_insert_kv
    insert_hit pos search (e, at, same, found) =
        let held : Reads (some e) (f (o.rank key)) = rw found at (models (o.rank key)) in
        let (values, insert, holds) = m.insert e.key e.values (f (o.rank key)) val held.0 small in
        let e' : KeyVals K V = record e { values = values } in
        (
          (record arr { arr = some (set (contents arr) pos e') }, false),
          rw (search, ◌>>=◌, at, insert),
          record {
            inv = record {
              fits = Fits-set arr.arr arr.len arr.alloc_len pos e e' inv.fits at;
              strict = set-IsStrict pos (contents arr) e e' at refl inv.strict;
            };
            models = λ q.
                rw (find-set q pos (contents arr) e e' at refl inv.strict, same)
                  (update-Reads (contents arr) f e' (o.rank key) val q models holds);
            reports = is_empty_pos (f (o.rank key)) held.1;
            len = omega arith;
          },
        )

    module _ (short : arr.len ≤ 2 ^ 30)
        (faithful : o.rank (copied_key app key keylen) ≡ o.rank key) where
      insert_miss :
          (pos : ℕ)
          → bsearch_eq keyvals_order.cmp (probe key) (contents arr) arr.len ≡ some (pos, false)
          → Finds key (contents arr) (some (pos, false))
          → Returns (pch_insert_kv app arr key val keylen hash) (Inserted f key val arr)
      unfolding pch_insert_kv place
      insert_miss pos search (absent, fresh) =
          let none_yet : f (o.rank key) ≡ [] = rw absent at (models (o.rank key)) in
          let key' = copied_key app key keylen in
          let (values, insert, holds) =
            m.insert key' no_values [] val (m.start key') (omega arith) in
          let e' : KeyVals K V = record { key = key'; values = values; hash = hash } in
          let r = checkfull-Roomy arr inv.fits (omega arith) in
          (
            (
              record {
                len = arr.len + 1;
                alloc_len = (checkfull arr).alloc_len;
                arr = some (insert_at pos e' (contents arr));
              },
              true,
            ),
            ground (arith, search, insert, r.some_block, r.same_len, r.room),
            record {
              inv = record {
                fits = (
                  omega (
                    arith,
                    len-contents arr inv.fits,
                    length-insert_at {0} pos e' (contents arr),
                  ),
                  omega (arith, r.room, r.same_len),
                  r.small,
                );
                strict = fresh e' faithful;
              };
              models = λ q.
                  rw (find-insert_at key e' faithful q pos (contents arr) absent) (
                    update-Reads (contents arr) f e' (o.rank key) val q models (rw none_yet holds));
              reports = rw none_yet;
              len = refl;
            },
          )

      insert_lem :
          (found : Option (ℕ × Bool))
          → bsearch_eq keyvals_order.cmp (probe key) (contents arr) arr.len ≡ found
          → Finds key (contents arr) found
          → Returns (pch_insert_kv app arr key val keylen hash) (Inserted f key val arr)
      insert_lem none e finds = absurd finds
      insert_lem (some (pos, true)) e finds = insert_hit pos e finds
      insert_lem (some (pos, false)) e finds = insert_miss pos e finds

      -- An insertion into an array of at most 2 ^ 30 groups that stands for a map from keys to their
      -- histories ends without a fault, keeps the array in order with each key once, adds the value
      -- to the history of its key and leaves every other history, reports whether the key was new,
      -- and counts it.
      pub pch_insert_kv-Inserted :
          Returns (pch_insert_kv app arr key val keylen hash) (Inserted f key val arr)
      pch_insert_kv-Inserted = insert_lem _ refl (search-Finds key arr inv short)
