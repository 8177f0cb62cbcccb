-- ===== src/Metis/Values/Model.antt =====
-- What a collection of key groups asks of the values of one key, and the two kinds of application
-- that lib/value_helper.c serves: with a combiner or none, and with a value modifier.
use mage_artifact_baseline.Common.{
  ◌^◌, ◌≤◌, ◌<◌, ◌≡◌, refl, ◌∙◌, ◌⊎◌, inl, inr, Bool, true, false, Option, none, some, List, [],
  ◌∷◌, ◌++◌, arith, length, Returns, length-append,
}
use mage_artifact_baseline.Metis.Types.{modified, Values, App}
use mage_artifact_baseline.Metis.Values.{modifier, no_values, values_insert, values_modify}
use mage_artifact_baseline.Metis.Values.Capacity.{live, IsValues, Combines, values_insert-Keeps}

-- `Holds key kvs h` says that the values `kvs` of a key stand for `h`, all that was inserted.
pub record ValuesModel {K V : Type 0} (app : App K V) : Type 1 where
  pub Holds : K → Values V → List V → Type 0
  pub start : (key : K) → Holds key no_values []
  pub insert :
      (key : K) (kvs : Values V) (h : List V) (val : V)
      → Holds key kvs h
      → length h < 2 ^ 31
      → Returns (values_insert app key kvs val) λ kvs'. Holds key kvs' (h ++ val ∷ [])

module _ {K V M : Type 0} (app : App K V) (meaning : K → List V → M) where
  -- The array holds no more values than were inserted, and they mean the same.
  abbrev pub HoldsMeaning : K → Values V → List V → Type 0
  HoldsMeaning key kvs h =
      IsValues kvs × (kvs.len ≤ length h) × (meaning key (live kvs) ≡ meaning key h)

  module _ (plain : modifier app ≡ none) (lawful : Combines app meaning)
      (congruent : (key : K) (xs ys : List V) (v : V)
        → meaning key xs ≡ meaning key ys
        → meaning key (xs ++ v ∷ []) ≡ meaning key (ys ++ v ∷ [])) where
    pub meaning_insert :
        (key : K) (kvs : Values V) (h : List V) (val : V)
        → HoldsMeaning key kvs h
        → length h < 2 ^ 31
        → Returns (values_insert app key kvs val) λ kvs'. HoldsMeaning key kvs' (h ++ val ∷ [])
    meaning_insert key kvs h val (room, short, meant) small =
        let (r, run, (room', shorter, means)) =
          values_insert-Keeps app meaning plain lawful congruent key kvs val room (omega arith) in
        (
          r,
          run,
          (
            room',
            omega (arith, length-append h (val ∷ [])),
            means ∙ congruent key (live kvs) h val meant,
          ),
        )

    abbrev pub combining : ValuesModel app
    combining = record {
      Holds = HoldsMeaning;
      start = λ key. ((refl, refl), omega arith, refl);
      insert = meaning_insert;
    }

-- The value that a modifier builds: from the first value, then from the old one and the next.
abbrev pub folded : {V : Type 0} → (Option V → V → Bool → V) → Option V → List V → Option V
folded vm old [] = old
folded vm none (v ∷ vs) = folded vm (some (vm none v true)) vs
folded vm (some x) (v ∷ vs) = folded vm (some (vm (some x) v false)) vs

module _ {V : Type 0} (vm : Option V → V → Bool → V) where
  folded-append :
      (old : Option V) (h : List V) (v : V)
      → folded vm old (h ++ v ∷ []) ≡ folded vm (folded vm old h) (v ∷ [])
  folded-append old [] v = refl
  folded-append none (x ∷ h) v = folded-append (some (vm none x true)) h v
  folded-append (some y) (x ∷ h) v = folded-append (some (vm (some y) x false)) h v

  -- Nothing yet, or the one value that the modifier built from all that was inserted.
  abbrev pub HoldsFolded : {K : Type 0} → K → Values V → List V → Type 0
  HoldsFolded key kvs h =
      ((h ≡ []) × (kvs.len ≡ 0))
      ⊎ ((x : V) × (kvs.vals ≡ modified x) × (folded vm none h ≡ some x) × (kvs.len ≡ 1))

module _ {K V : Type 0} (app : App K V) (vm : Option V → V → Bool → V)
    (on : modifier app ≡ some vm) where
  pub folded_insert :
      (key : K) (kvs : Values V) (h : List V) (val : V)
      → HoldsFolded vm key kvs h
      → length h < 2 ^ 31
      → Returns (values_insert app key kvs val) λ kvs'. HoldsFolded vm key kvs' (h ++ val ∷ [])
  unfolding values_insert values_modify
  folded_insert key kvs h val (inl (e, l)) small = (
    values_modify vm kvs val,
    rw (on, values_insert),
    inr (
      vm none val true,
      ground (arith, l),
      rw (folded-append vm none h val, e),
      ground (arith, l),
    ),
  )
  folded_insert key kvs h val (inr (x, e, f, l)) small = (
    values_modify vm kvs val,
    rw (on, values_insert),
    inr (
      vm (some x) val false,
      ground (arith, l, e),
      rw (folded-append vm none h val, f),
      ground (arith, l),
    ),
  )

  abbrev pub modifying : ValuesModel app
  modifying = record {
    Holds = HoldsFolded vm;
    start = λ key. inl (refl, refl);
    insert = folded_insert;
  }
