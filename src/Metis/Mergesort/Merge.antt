-- ===== src/Metis/Mergesort/Merge.antt =====
-- lib/mergesort.c: the merge of sorted arrays is sorted and holds the same elements.
use mage_artifact_baseline.Common.{
  ℕ, zero, suc, ◌+◌, ◌≤◌, ◌<◌, ◌≡◌, refl, sym, ap, ◌∙◌, Bool, Option, none, some, List, [], ◌∷◌,
  ◌⊎◌, ◌*◌, ◌^◌, ◌%◌, true, lt→ltb, u32_mod, inl, inr, subst, arith, ◌>>=◌, get_elem?, length,
  Returns, if◌then◌else◌,
}
use native.Mathlib.Decide.{dec_lt}
use mage_artifact_baseline.Metis.Order.{KeyOrder}
use mage_artifact_baseline.Metis.Bsearch.Bounds.{Above, IsSorted}
use mage_artifact_baseline.Metis.Mergesort.{in_reach, advance_pos, find_min, advance, merge_loop}

-- The number of elements that satisfy a test, in an array and in all arrays.
abbrev pub tally : {A : Type 0} → (A → Bool) → List A → ℕ
tally p [] = 0
tally p (x ∷ xs) = (if p x then 1 else 0) + tally p xs

abbrev pub tally_all : {A : Type 0} → (A → Bool) → List (List A) → ℕ
tally_all p [] = 0
tally_all p (xs ∷ arrs) = tally p xs + tally_all p arrs

abbrev pub length_all : {A : Type 0} → List (List A) → ℕ
length_all [] = 0
length_all (xs ∷ arrs) = length xs + length_all arrs

module _ {A : Type 0} ⦃o : KeyOrder A⦄ where
  abbrev pub AllSorted : List (List A) → Type 0
  AllSorted [] = Unit
  AllSorted (xs ∷ arrs) = IsSorted xs × AllSorted arrs

  abbrev pub AllAbove : ℕ → List (List A) → Type 0
  AllAbove r [] = Unit
  AllAbove r (xs ∷ arrs) = Above r xs × AllAbove r arrs

  Above-le : (r s : ℕ) (xs : List A) → r ≤ s → Above s xs → Above r xs
  Above-le r s [] le a = tt
  Above-le r s (x ∷ xs) le a = (omega arith, Above-le r s xs le a.1)

  AllAbove-le : (r s : ℕ) (arrs : List (List A)) → r ≤ s → AllAbove s arrs → AllAbove r arrs
  AllAbove-le r s [] le a = tt
  AllAbove-le r s (xs ∷ arrs) le a = (Above-le r s xs le a.0, AllAbove-le r s arrs le a.1)

  -- The element that the search finds: at the front of its array, or the one that it began with,
  -- and no greater than that one and than any element of the arrays.
  abbrev FrontOf : List (List A) → ℕ → ℕ → A → Type 0
  FrontOf arrs i j x =
      (k : ℕ) × (j ≡ k + i) × (rest : List A) × (get_elem? arrs k ≡ some (x ∷ rest))

  record Found (arrs : List (List A)) (i : ℕ) (best : Option (ℕ × A)) (j : ℕ) (x : A) : Type 0 where
    least : AllAbove (o.rank x) arrs
    place : (best ≡ some (j, x)) ⊎ FrontOf arrs i j x

  FrontOf-later :
      (xs : List A) (arrs : List (List A)) (i j : ℕ) (x : A)
      → FrontOf arrs (suc i) j x
      → FrontOf (xs ∷ arrs) i j x
  FrontOf-later xs arrs i j x (k, at, rest, here) = (suc k, omega arith, rest, here)

  -- The array that the search has just passed, and those behind it.
  Found-later :
      (z : A) (zs : List A) (arrs : List (List A)) (i l : ℕ) (x : A) (best : Option (ℕ × A))
      → Above (o.rank z) zs
      → o.rank x ≤ o.rank z
      → Found arrs (suc i) best l x
      → Found ((z ∷ zs) ∷ arrs) i best l x
  Found-later z zs arrs i l x best above le f = record {
    least = ((le, Above-le (o.rank x) (o.rank z) zs le above), f.least);
    place = elim f.place [ inl e ↦ inl e | inr w ↦ inr (FrontOf-later (z ∷ zs) arrs i l x w) ];
  }

  -- A search that began with the front of the array.
  begun :
      (z : A) (zs : List A) (arrs : List (List A)) (i l : ℕ) (x : A)
      → (◌≡◌ {A = Option (ℕ × A)} (some (i, z)) (some (l, x))) ⊎ FrontOf ((z ∷ zs) ∷ arrs) i l x
      → FrontOf ((z ∷ zs) ∷ arrs) i l x
  begun z zs arrs i l x (inl e) =
      let index : i ≡ l = ap (λ w. elim w as (λ _. ℕ) [ none ↦ i | some p ↦ p.0 ]) e in
      let element : z ≡ x = ap (λ w. elim w as (λ _. A) [ none ↦ z | some p ↦ p.1 ]) e in
      (0, sym index ∙ omega arith, zs, ap (λ t. some (t ∷ zs)) element)
  begun z zs arrs i l x (inr w) = w

  find_min-some :
      (arrs : List (List A)) (i j : ℕ) (y : A)
      → AllSorted arrs
      → (l : ℕ) × (x : A) × (find_min o.cmp arrs i (some (j, y)) ≡ some (l, x))
        × (o.rank x ≤ o.rank y)
        × Found arrs i (some (j, y)) l x
  unfolding find_min
  find_min-some [] i j y s = (j, y, refl, omega arith, record { least = tt; place = inl refl })
  find_min-some ([] ∷ arrs) i j y s =
      let (l, x, run, le, f) = find_min-some arrs (suc i) j y s.1 in
      (
        l,
        x,
        run,
        le,
        record {
          least = (tt, f.least);
          place = elim f.place [ inl e ↦ inl e | inr w ↦ inr (FrontOf-later [] arrs i l x w) ];
        },
      )
  find_min-some ((z ∷ zs) ∷ arrs) i j y s = elim (dec_lt (o.rank z) (o.rank y)) [
    | yes less ↦
        let (l, x, run, le, f) = find_min-some arrs (suc i) i z s.1 in
        let g = Found-later z zs arrs i l x (some (i, z)) s.0.0 le f in
        (
          l,
          x,
          ground (arith, o.cmp_rank y z, less, run),
          omega arith,
          record { least = g.least; place = inr (begun z zs arrs i l x g.place) },
        )
    | no more ↦
        let (l, x, run, le, f) = find_min-some arrs (suc i) j y s.1 in
        (
          l,
          x,
          ground (arith, o.cmp_rank y z, more, run),
          le,
          Found-later z zs arrs i l x (some (j, y)) s.0.0 (omega arith) f,
        )
  ]

  find_min-none :
      (arrs : List (List A)) (i : ℕ)
      → AllSorted arrs
      → 0 < length_all arrs
      → (l : ℕ) × (x : A) × (find_min o.cmp arrs i none ≡ some (l, x))
        × AllAbove (o.rank x) arrs
        × FrontOf arrs i l x
  unfolding find_min
  find_min-none [] i s some_left = elim some_left [ ]
  find_min-none ([] ∷ arrs) i s some_left =
      let (l, x, run, least, place) = find_min-none arrs (suc i) s.1 (omega arith) in
      (l, x, run, (tt, least), FrontOf-later [] arrs i l x place)
  find_min-none ((z ∷ zs) ∷ arrs) i s some_left =
      let (l, x, run, le, f) = find_min-some arrs (suc i) i z s.1 in
      let g = Found-later z zs arrs i l x (some (i, z)) s.0.0 le f in
      (l, x, run, g.least, begun z zs arrs i l x g.place)

  -- What is left once the front of an array has been taken.
  record Taken (x : A) (arrs arrs' : List (List A)) : Type 0 where
    sorted : AllSorted arrs'
    above : (r : ℕ) → AllAbove r arrs → AllAbove r arrs'
    front : (r : ℕ) → AllAbove r arrs → r ≤ o.rank x
    fewer : length_all arrs ≡ suc (length_all arrs')
    same : (p : A → Bool) → tally_all p arrs ≡ (if p x then 1 else 0) + tally_all p arrs'

  advance-Taken :
      (arrs : List (List A)) (k : ℕ) (x : A) (rest : List A)
      → AllSorted arrs
      → get_elem? arrs k ≡ some (x ∷ rest)
      → Taken x arrs (advance k arrs)
  unfolding advance
  advance-Taken [] k x rest s at = ground (arith, at)
  advance-Taken ([] ∷ arrs) zero x rest s at = ground (arith, at)
  advance-Taken ((z ∷ zs) ∷ arrs) zero x rest s at =
      let element : z ≡ x =
        ap (λ w. elim w as (λ _. A) [ none ↦ z | some [] ↦ z | some (y ∷ ys) ↦ y ]) at in
      record {
        sorted = (s.0.1, s.1);
        above = λ r a. (a.0.1, a.1);
        front = λ r a. subst (λ w. r ≤ o.rank w) element a.0.0;
        fewer = omega arith;
        same = λ p. rw (← element) (omega arith);
      }
  advance-Taken (ys ∷ arrs) (suc k) x rest s at =
      let t = advance-Taken arrs k x rest s.1 at in
      record {
        sorted = (s.0, t.sorted);
        above = λ r a. (a.0, t.above r a.1);
        front = λ r a. t.front r a.1;
        fewer = omega (arith, t.fewer);
        same = λ p. omega (arith, t.same p);
      }

  -- What a merge leaves: a sorted array, with each element as often as the arrays have it.
  pub record Merged (arrs : List (List A)) (out : List A) : Type 0 where
    pub sorted : IsSorted out
    pub above : (r : ℕ) → AllAbove r arrs → Above r out
    pub same : (p : A → Bool) → tally p out ≡ tally_all p arrs

  -- The arrays end, in elements and in bytes, within 32 bits: `pos` elements of each have been taken.
  abbrev pub Reach : ℕ → List ℕ → List (List A) → Type 0
  Reach psz [] arrs = Unit
  Reach psz (pos ∷ task_pos) [] = Unit
  Reach psz (pos ∷ task_pos) (xs ∷ arrs) =
      (pos + length xs < 2 ^ 32) × (psz * (pos + length xs) ≤ 2 ^ 32) × Reach psz task_pos arrs

  Reach-in_reach :
      (psz : ℕ) (task_pos : List ℕ) (arrs : List (List A))
      → 0 < psz
      → Reach psz task_pos arrs
      → in_reach psz task_pos arrs ≡ true
  unfolding in_reach
  Reach-in_reach psz [] arrs some_size r = refl
  Reach-in_reach psz (pos ∷ task_pos) [] some_size r = refl
  Reach-in_reach psz (pos ∷ task_pos) ([] ∷ arrs) some_size r =
      Reach-in_reach psz task_pos arrs some_size r.2
  Reach-in_reach psz (pos ∷ task_pos) ((x ∷ xs) ∷ arrs) some_size r =
      let offset : psz * pos < 2 ^ 32 = omega (arith, r.1) in
      rw (lt→ltb (psz * pos) u32_mod offset) (Reach-in_reach psz task_pos arrs some_size r.2)

  advance-Reach :
      (psz : ℕ) (task_pos : List ℕ) (arrs : List (List A)) (k : ℕ) {x : A} {rest : List A}
      → get_elem? arrs k ≡ some (x ∷ rest)
      → Reach psz task_pos arrs
      → Reach psz (advance_pos k task_pos) (advance k arrs)
  unfolding advance_pos advance
  advance-Reach psz [] arrs k at r = tt
  advance-Reach psz (pos ∷ task_pos) [] zero at r = tt
  advance-Reach psz (pos ∷ task_pos) [] (suc k) at r = tt
  advance-Reach psz (pos ∷ task_pos) ([] ∷ arrs) zero at r = ground (arith, at)
  advance-Reach psz (pos ∷ task_pos) ((x ∷ xs) ∷ arrs) zero at r =
      let next : (pos + 1) % u32_mod ≡ pos + 1 = omega (arith, r.0) in
      rw next (omega (arith, r.0), omega (arith, r.1), r.2)
  advance-Reach psz (pos ∷ task_pos) (xs ∷ arrs) (suc k) at r =
      (r.0, r.1, advance-Reach psz task_pos arrs k at r.2)

  -- Where the arrays end within 32 bits, in elements and in bytes, as many rounds as the sorted
  -- arrays have elements end without a fault, and leave a sorted array in which each element stands
  -- as often as in all the arrays together.
  pub merge_loop-Merged :
      (psz left : ℕ) (task_pos : List ℕ) (arrs : List (List A))
      → 0 < psz
      → Reach psz task_pos arrs
      → AllSorted arrs
      → length_all arrs ≡ left
      → Returns (merge_loop o.cmp psz left task_pos arrs) (Merged arrs)
  unfolding merge_loop
  merge_loop-Merged psz zero task_pos arrs some_size reach s len =
      ([], refl, record { sorted = tt; above = λ r a. tt; same = λ p. sym (none_left arrs len p) })
    where
      none_left :
          (arrs : List (List A)) → length_all arrs ≡ 0 → (p : A → Bool) → tally_all p arrs ≡ 0
      none_left [] len p = refl
      none_left ([] ∷ arrs) len p = omega (arith, none_left arrs (omega arith) p)
      none_left ((x ∷ xs) ∷ arrs) len p = absurd (omega arith)
  merge_loop-Merged psz (suc left) task_pos arrs some_size reach s len =
      let (j, x, run, least, (k, at, rest, here)) = find_min-none arrs 0 s (omega arith) in
      let t = advance-Taken arrs k x rest s here in
      let same_index : j ≡ k = omega arith in
      let (out, run', m) =
        merge_loop-Merged psz left (advance_pos k task_pos) (advance k arrs) some_size
          (advance-Reach psz task_pos arrs k here reach) t.sorted (omega (arith, t.fewer)) in
      let unwrapped = Reach-in_reach psz task_pos arrs some_size reach in
      (
        x ∷ out,
        rw (unwrapped, run, ◌>>=◌, same_index, run'),
        record {
          sorted = (m.above (o.rank x) (t.above (o.rank x) least), m.sorted);
          above = λ r a. (t.front r a, m.above r (t.above r a));
          same = λ p. omega (arith, m.same p, t.same p);
        },
      )
