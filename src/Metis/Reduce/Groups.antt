-- ===== src/Metis/Reduce/Groups.antt =====
-- lib/reduce.c: `reduce_or_groupkv` on sorted pairs, for an application that groups.
use mage_artifact_baseline.Common.{
  ℕ, zero, suc, ◌+◌, ◌^◌, ◌≤◌, ◌<◌, ◌≡◌, ◌≢◌, refl, sym, ap, ◌∙◌, subst, Ordering, true, false,
  none, List, [], ◌∷◌, ◌++◌, inl, inr, arith, ◌==◌, ==_iff, if◌then◌else◌, ◌>>=◌, length, Returns,
  Bool-cases,
}
use mathlib.Core.List.{append-nil, append_assoc}
use mage_artifact_baseline.Metis.Order.{KeyOrder}
use mage_artifact_baseline.Metis.Types.{Values, KeyVal, App}
use mage_artifact_baseline.Metis.Values.{
  is_mapreduce, modifier, combiner_of, no_values, values_insert,
}
use mage_artifact_baseline.Metis.Values.Capacity.{live, IsValues, Combines, values_insert-Keeps}
use mage_artifact_baseline.Metis.Reduce.{
  Emit, emit_kvs_len, group_run, emit_group, emit_run, run_groups,
}

module _ {K V : Type 0} ⦃o : KeyOrder K⦄ where
  -- The values of the pairs of rank `r`, in order.
  abbrev pub values_of : ℕ → List (KeyVal K V) → List V
  values_of r [] = []
  values_of r (kv ∷ kvs) = if o.rank kv.key == r then kv.val ∷ values_of r kvs else values_of r kvs

  -- The values that go out under the keys of rank `r`.
  abbrev pub out_values : ℕ → List (Emit K V) → List V
  out_values r [] = []
  out_values r (emit_kvs_len key vals len ∷ out) =
      if o.rank key == r
      then live (record { vals = vals; len = len; alloc_len = 0 }) ++ out_values r out
      else out_values r out
  out_values r (_ ∷ out) = out_values r out

  abbrev pub PairsFrom : ℕ → List (KeyVal K V) → Type 0
  PairsFrom r [] = Unit
  PairsFrom r (kv ∷ kvs) = (r ≤ o.rank kv.key) × PairsFrom r kvs

  abbrev pub SortedPairs : List (KeyVal K V) → Type 0
  SortedPairs [] = Unit
  SortedPairs (kv ∷ kvs) = PairsFrom (o.rank kv.key) kvs × SortedPairs kvs

  -- Only groups go out, with keys greater than `r`.
  abbrev pub Past : ℕ → List (Emit K V) → Type 0
  Past r [] = Unit
  Past r (emit_kvs_len key vals len ∷ out) = (r < o.rank key) × Past r out
  Past r (_ ∷ out) = ⊥

  -- Each key once, in ascending order.
  abbrev pub Ascends : List (Emit K V) → Type 0
  Ascends [] = Unit
  Ascends (emit_kvs_len key vals len ∷ out) = Past (o.rank key) out × Ascends out
  Ascends (_ ∷ out) = ⊥

  PairsFrom-le : (r s : ℕ) (kvs : List (KeyVal K V)) → r ≤ s → PairsFrom s kvs → PairsFrom r kvs
  PairsFrom-le r s [] le a = tt
  PairsFrom-le r s (kv ∷ kvs) le a = (omega arith, PairsFrom-le r s kvs le a.1)

  values_of-past : (r : ℕ) (kvs : List (KeyVal K V)) → PairsFrom (r + 1) kvs → values_of r kvs ≡ []
  values_of-past r [] a = refl
  values_of-past r (kv ∷ kvs) a =
      let other : (o.rank kv.key == r) ≡ false = ground (arith, a.0) in
      rw other (values_of-past r kvs a.1)

  module _ (app : App K V) (grouping : is_mapreduce app.atype ≡ false) where
    plain : modifier app ≡ none
    unfolding modifier
    plain = rw grouping

    no_combiner : combiner_of app ≡ none
    unfolding combiner_of
    no_combiner = rw grouping

    abbrev as_list : K → List V → List V
    as_list key xs = xs

    lawful : Combines app as_list
    lawful combine is = ground (arith, sym no_combiner ∙ is)

    insert_lem :
        (key : K) (kvs : Values V) (val : V)
        → IsValues kvs
        → kvs.len < 2 ^ 31
        → Returns
            (values_insert app key kvs val)
            λ kvs'. IsValues kvs' × (kvs'.len ≤ kvs.len + 1) × (live kvs' ≡ live kvs ++ val ∷ [])
    insert_lem key kvs val =
        values_insert-Keeps app as_list plain lawful (λ key xs ys v e. ap (λ t. t ++ v ∷ []) e) key
          kvs val

    -- What the rest of a group leaves: the values of the key, and the pairs of greater keys.
    record Ran (key : K) (pairs : List (KeyVal K V)) (kvs : Values V)
        (r : List (KeyVal K V) × Values V) : Type 0 where
      room : IsValues r.1
      values : live r.1 ≡ live kvs ++ values_of (o.rank key) pairs
      others : (q : ℕ) → q ≢ o.rank key → values_of q r.0 ≡ values_of q pairs
      past : PairsFrom (o.rank key + 1) r.0
      sorted : SortedPairs r.0
      shorter : length r.0 ≤ length pairs

    group_run-Ran :
        (key : K) (pairs : List (KeyVal K V)) (kvs : Values V)
        → PairsFrom (o.rank key) pairs
        → SortedPairs pairs
        → IsValues kvs
        → kvs.len + length pairs < 2 ^ 31
        → Returns (group_run app key pairs kvs) (Ran key pairs kvs)
    unfolding group_run
    group_run-Ran key [] kvs from s room small = (
      ([], kvs),
      refl,
      record {
        room = room;
        values = sym (append-nil (live kvs));
        others = λ q ne. refl;
        past = tt;
        sorted = tt;
        shorter = omega arith;
      },
    )
    group_run-Ran key (kv ∷ rest) kvs from s room small =
        go (λ first. group_run-Ran key rest first from.1 s.1) (o.cmp key kv.key) refl
      where
        go :
            ((first : Values V)
              → IsValues first
              → first.len + length rest < 2 ^ 31
              → Returns (group_run app key rest first) (Ran key rest first))
            → (c : Ordering) → o.cmp key kv.key ≡ c
            → Returns (group_run app key (kv ∷ rest) kvs) (Ran key (kv ∷ rest) kvs)
        go later Ordering.gt e = absurd (ground (arith, sym (o.cmp_rank key kv.key) ∙ e, from.0))
        go later Ordering.lt e =
            let more : o.rank key + 1 ≤ o.rank kv.key =
              ground (arith, sym (o.cmp_rank key kv.key) ∙ e) in
            let past : PairsFrom (o.rank key + 1) (kv ∷ rest) =
              (more, PairsFrom-le (o.rank key + 1) (o.rank kv.key) rest more s.0) in
            (
              (kv ∷ rest, kvs),
              rw (group_run, e),
              record {
                room = room;
                values =
                    rw (values_of-past (o.rank key) (kv ∷ rest) past) (sym (append-nil (live kvs)));
                others = λ q ne. refl;
                past = past;
                sorted = s;
                shorter = omega arith;
              },
            )
        go later Ordering.eq e =
            let same : o.rank kv.key ≡ o.rank key =
              ground (arith, sym (o.cmp_rank key kv.key) ∙ e) in
            let (first, insert, (room', longer, got)) =
              insert_lem key kvs kv.val room (omega arith) in
            let (r, run, ran) = later first room' (omega (arith, longer)) in
            let here : (o.rank kv.key == o.rank key) ≡ true = (==_iff _ _).1 same in
            (
              r,
              rw (group_run, e, insert, ◌>>=◌, run),
              record {
                room = ran.room;
                values =
                    ran.values
                    ∙ rw (here, got)
                        (append_assoc (live kvs) (kv.val ∷ []) (values_of (o.rank key) rest));
                others = λ q ne.
                    let apart : (o.rank kv.key == q) ≡ false = ground (arith, ne, same) in
                    rw apart (ran.others q ne);
                past = ran.past;
                sorted = ran.sorted;
                shorter = omega (arith, ran.shorter);
              },
            )

    -- What goes out for sorted pairs.
    pub record Grouped (pairs : List (KeyVal K V)) (out : List (Emit K V)) : Type 0 where
      pub ascends : Ascends out
      pub values : (r : ℕ) → out_values r out ≡ values_of r pairs
      pub past : (r : ℕ) → PairsFrom (r + 1) pairs → Past r out

    -- For an application that groups and without `meth`: the loop over fewer than 2 ^ 31 sorted
    -- pairs, on more fuel than there are pairs, ends without a fault; each key goes out once, in
    -- ascending order, and with it go exactly the values of its pairs, in their order.
    pub run_groups-Grouped :
        (fuel : ℕ) (pairs : List (KeyVal K V))
        → length pairs < fuel
        → SortedPairs pairs
        → length pairs < 2 ^ 31
        → Returns (run_groups app false fuel pairs no_values) (Grouped pairs)
    unfolding run_groups emit_run emit_group
    run_groups-Grouped zero pairs enough s small = elim enough [ ]
    run_groups-Grouped (suc fuel) [] enough s small =
        ([], refl, record { ascends = tt; values = λ r. refl; past = λ r a. tt })
    run_groups-Grouped (suc fuel) (kv ∷ rest) enough s small =
        let r = o.rank kv.key in
        let (first, insert, (room, longer, got)) =
          insert_lem kv.key no_values kv.val (refl, refl) (omega arith) in
        let (left, run, ran) =
          group_run-Ran kv.key rest first s.0 s.1 room (omega (arith, longer)) in
        let (outs, later, g) =
          run_groups-Grouped fuel left.0 (omega (arith, ran.shorter)) ran.sorted
            (omega (arith, ran.shorter)) in
        let kvs = left.1 in
        (
          emit_kvs_len kv.key kvs.vals kvs.len ∷ outs,
          rw (insert, ◌>>=◌, run, grouping, ◌>>=◌, later),
          record {
            ascends = (g.past r ran.past, g.ascends);
            values = λ q. elim (Bool-cases (r == q)) [
              | inl same ↦
                  let whole : live kvs ++ out_values r outs ≡ kv.val ∷ values_of r rest =
                    ap (λ t. live kvs ++ t) (g.values r ∙ values_of-past r left.0 ran.past)
                    ∙ append-nil (live kvs)
                    ∙ ran.values
                    ∙ ap (λ t. t ++ values_of r rest) got in
                  rw same (
                    subst (λ k. live kvs ++ out_values k outs ≡ kv.val ∷ values_of k rest)
                      ((==_iff r q).0 same) whole)
              | inr differs ↦
                  let ne : q ≢ r = λ h. ground (arith, differs, h) in
                  rw differs (g.values q ∙ ran.others q ne)
            ];
            past = λ q a. (
              omega (arith, a.0),
              g.past q (PairsFrom-le (q + 1) (r + 1) left.0 (omega (arith, a.0)) ran.past),
            );
          },
        )
