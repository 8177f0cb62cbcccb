-- ===== src/Metis/Values/Move.antt =====
-- lib/value_helper.c `values_mv`: the doubling loop ends, and the moved values have room.
use mage_artifact_baseline.Common.{
  ℕ, zero, suc, ◌+◌, ◌*◌, ◌^◌, ◌≤◌, ◌<◌, ◌≡◌, refl, none, List, [], ◌∷◌, ◌++◌, inl, inr, arith, ltb,
  ◌>>=◌, take, u32_mod, length, Returns, ltb→lt, Bool-cases, length-take, length-append,
  take-length, ap, ◌∙◌,
}
use native.Mathlib.Nat.{pow-suc}
use mathlib.Core.List.{append-nil}
use mage_artifact_baseline.Metis.Types.{Vals, null, buffer, modified, Values, App}
use mage_artifact_baseline.Metis.Values.{
  modifier, double_until, values_room, values_copy, values_mv,
}
use mage_artifact_baseline.Metis.Values.Capacity.{live, HasRoom, IsValues, Keeps}

double_until-le :
    (fuel needed alloc_len : ℕ)
    → alloc_len < u32_mod
    → needed ≤ 2 ^ 31
    → needed ≤ alloc_len * 2 ^ fuel
    → Returns (double_until (suc fuel) needed alloc_len) λ n. (needed ≤ n) × (n < u32_mod)
unfolding double_until
double_until-le zero needed alloc_len h small le = (alloc_len, ground arith, (omega arith, h))
double_until-le (suc fuel) needed alloc_len h small le = elim (Bool-cases (ltb alloc_len needed)) [
  | inl less ↦
      let (n, run, p) =
        double_until-le fuel needed (alloc_len * 2) (ground arith) small
          (omega (arith, ap (λ (t : ℕ). alloc_len * t) (pow-suc 2 fuel))) in
      (n, ground (arith, less, run), p)
  | inr enough ↦ (alloc_len, ground (arith, enough), (ground arith, h))
]

module _ {V : Type 0} (dst : Values V) where
  -- Room for `n` more values, in an array that holds those of `dst`.
  abbrev RoomFor : ℕ → Vals V × ℕ → Type 0
  RoomFor n (vals, alloc_len) =
      (xs : List V) × (vals ≡ buffer xs)
      × (take dst.len xs ≡ live dst)
      × (dst.len ≤ length xs)
      × (length xs ≤ alloc_len)
      × (dst.len + n ≤ alloc_len)
      × (alloc_len < u32_mod)

  values_copy-Keeps :
      (src : Values V) (n : ℕ) (xs : List V)
      → dst.len ≤ length xs
      → length xs ≤ n
      → IsValues src
      → dst.len + src.len ≤ n
      → n < u32_mod
      → Returns (values_copy dst src (buffer xs, n)) (Keeps (take dst.len xs ++ live src))
  unfolding values_copy
  values_copy-Keeps src n xs d t = go src.vals src.len src.alloc_len
    where
      go :
          (vals : Vals V) (len alloc_len : ℕ)
          → HasRoom vals len alloc_len
          → dst.len + len ≤ n
          → n < u32_mod
          → let src : Values V = record { vals = vals; len = len; alloc_len = alloc_len } in
            Returns (values_copy dst src (buffer xs, n)) (Keeps (take dst.len xs ++ live src))
      go null len alloc_len h fits small = (
        record { vals = buffer xs; len = dst.len; alloc_len = n },
        ground (arith, h.0),
        record { room = omega arith; values = rw append-nil refl },
      )
      go (buffer ys) len alloc_len h fits small = (
        record {
          vals = buffer (take dst.len xs ++ take len ys);
          len = dst.len + len;
          alloc_len = n;
        },
        ground arith,
        record {
          room = omega (
            arith,
            length-append (take dst.len xs) (take len ys),
            length-take dst.len xs,
            length-take len ys,
          );
          values = take-length (dst.len + len) _ (
              omega (
                arith,
                length-append (take dst.len xs) (take len ys),
                length-take dst.len xs,
                length-take len ys,
              ));
        },
      )
      go (modified x) len alloc_len h fits small = absurd h

module _ {V : Type 0} where
  values_room-buffer :
      (xs : List V) (len alloc_len n : ℕ)
      → let dst : Values V = record { vals = buffer xs; len = len; alloc_len = alloc_len } in
        IsValues dst
        → 0 < alloc_len
        → len + n < 2 ^ 31
        → Returns (values_room dst n) (RoomFor dst n)
  unfolding values_room
  values_room-buffer xs len alloc_len n d pos small = elim (Bool-cases (ltb alloc_len (len + n))) [
    | inl more ↦
        let (m, run, (enough, fits)) =
          double_until-le 32 (len + n) alloc_len d.2 (omega arith) (omega arith) in
        (
          (buffer xs, m),
          ground (arith, more, run),
          (xs, refl, refl, d.0, omega (arith, ltb→lt alloc_len (len + n) more), enough, fits),
        )
    | inr less ↦ (
      (buffer xs, alloc_len),
      ground (arith, less),
      (xs, refl, refl, d.0, d.1, ground (arith, less), d.2),
    )
  ]

  values_room-RoomFor :
      (dst : Values V) (n : ℕ)
      → IsValues dst
      → dst.len + n < 2 ^ 31
      → Returns (values_room dst n) (RoomFor dst n)
  unfolding values_room
  values_room-RoomFor dst n = go dst.vals dst.len dst.alloc_len
    where
      go :
          (vals : Vals V) (len alloc_len : ℕ)
          → let dst : Values V = record { vals = vals; len = len; alloc_len = alloc_len } in
            IsValues dst → len + n < 2 ^ 31 → Returns (values_room dst n) (RoomFor dst n)
      go null len alloc_len d small = (
        (buffer [], n),
        ground arith,
        (
          [],
          refl,
          take-length len [] (omega arith),
          omega arith,
          omega arith,
          omega arith,
          omega arith,
        ),
      )
      go (modified x) len alloc_len d small = absurd d
      go (buffer []) len zero d small = (
        (buffer [], n),
        refl,
        ([], refl, refl, omega arith, omega arith, omega arith, omega arith),
      )
      go (buffer []) len (suc a) d small = values_room-buffer [] len (suc a) n d (omega arith) small
      go (buffer (x ∷ xs)) len alloc_len d small =
          values_room-buffer (x ∷ xs) len alloc_len n d (omega arith) small

module _ {K V : Type 0} (app : App K V) (plain : modifier app ≡ none) where
  -- Without a value modifier a move of values does not fault, ends, makes room for all of them,
  -- appends the values of `src` to those of `dst`, and leaves `src` as it was.
  pub values_mv-Keeps :
      (dst src : Values V)
      → IsValues dst
      → IsValues src
      → dst.len + src.len < 2 ^ 31
      → Returns (values_mv app dst src) λ r. Keeps (live dst ++ live src) r.0 × (r.1 ≡ src)
  unfolding values_mv
  values_mv-Keeps dst src d s small =
      let ((vals, n), room, (xs, is, same, d', t, fits, under)) =
        values_room-RoomFor dst src.len d small in
      let (r, copy, k) = values_copy-Keeps dst src n xs d' t s fits under in
      (
        (r, src),
        rw (plain, values_mv, room, ◌>>=◌, ap (λ v. values_copy dst src (v, n)) is, copy),
        (record { room = k.room; values = k.values ∙ ap (λ t. t ++ live src) same }, refl),
      )
