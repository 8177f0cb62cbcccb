-- ===== src/Metis/Splitter/Tiles.antt =====
-- lib/defsplitter.c: the splits cover the input from its start to its end, each byte once.
use mage_artifact_baseline.Common.{
  min, ℕ, zero, suc, ◌+◌, ◌-◌, ◌*◌, ◌/◌, ◌%◌, ◌<◌, ◌^◌, ◌≡◌, refl, ◌∙◌, none, some, List, [], ◌∷◌,
  ◌++◌, arith, length, Returns, ltb, ◌==◌, if◌then◌else◌, ◌>>=◌, length-append, lt→ltb,
}
use mathlib.Core.Path.{ap₂}
use native.Mathlib.Decide.{dec_lt}
use native.Mathlib.Nat.{add-mod, zero-mod}
use mage_artifact_baseline.Metis.Splitter.{
  Split, DefSplitter, split_size, splits_in_force, defsplitter, presplitter_fill, presplitter_init,
}

-- The pieces follow one another from `pos` to `end`, begin at multiples of `align`, and none is
-- empty.
abbrev pub Tiles : (align pos end : ℕ) → List Split → Type 0
Tiles align pos end [] = pos ≡ end
Tiles align pos end (s ∷ ss) =
    (s.offset ≡ pos) × (s.offset % align ≡ 0) × (0 < s.length) × Tiles align (pos + s.length) end ss

Tiles-append :
    (align pos mid end : ℕ) (xs ys : List Split)
    → Tiles align pos mid xs
    → Tiles align mid end ys
    → Tiles align pos end (xs ++ ys)
Tiles-append align pos mid end [] ys t u = rw t u
Tiles-append align pos mid end (x ∷ xs) ys t u =
    (t.0, t.1, t.2, Tiles-append align (pos + x.length) mid end xs ys t.3 u)

mod_sum : (a b n : ℕ) → a % n ≡ 0 → b % n ≡ 0 → (a + b) % n ≡ 0
mod_sum a b n p q = add-mod a b n ∙ ap₂ (λ x y. (x + y) % n) p q ∙ zero_mod n
  where
    zero_mod : (n : ℕ) → (0 + 0) % n ≡ 0
    zero_mod n = omega arith

mod_round : (a n : ℕ) → (a - a % n) % n ≡ 0
mod_round a n = grind arith

module _ (ncores align data_size nsplits : ℕ) where
  -- The state of a splitter that has handed out the input up to `pos`.
  abbrev at_pos : ℕ → DefSplitter
  at_pos pos = record { split_pos = pos; data_size = data_size; nsplits = nsplits; align = align }

  abbrev size : ℕ
  size = split_size ncores (at_pos 0)

  module _ (pos_align : 0 < align) (some_splits : 0 < nsplits) (some_size : 0 < size)
      (small : data_size < 2 ^ 63) where
    -- One call: a piece at `pos` that is not empty and ends inside the input.
    defsplitter_step :
        (pos : ℕ)
        → pos < data_size
        → (s : Split) × (defsplitter ncores (at_pos pos) ≡ some (some s, at_pos (pos + size)))
          × (s.offset ≡ pos)
          × (0 < s.length)
          × (min (pos + size) data_size ≡ pos + s.length)
    unfolding defsplitter
    defsplitter_step pos lt = (
      record {
        offset = pos;
        length = if ltb data_size (pos + size) then data_size - pos else size;
      },
      ground arith,
      refl,
      ground arith,
      ground arith,
    )

    defsplitter_end :
        (pos : ℕ) → ¬ (pos < data_size) → defsplitter ncores (at_pos pos) ≡ some (none, at_pos pos)
    unfolding defsplitter
    defsplitter_end pos over = ground arith

    fill-Tiles :
        (fuel pos : ℕ) (ma : List Split) (nalloc : ℕ)
        → data_size - pos < fuel
        → length ma < nalloc
        → Tiles align 0 (min pos data_size) ma
        → (pos < data_size → pos % align ≡ 0)
        → Returns
            (presplitter_fill (defsplitter ncores) fuel (at_pos pos) ma nalloc)
            (Tiles align 0 data_size)
    unfolding presplitter_fill
    fill-Tiles zero pos ma nalloc enough room tiles aligned = elim enough [ ]
    fill-Tiles (suc fuel) pos ma nalloc enough room tiles aligned = elim (dec_lt pos data_size) [
      | no over ↦
          let all : min pos data_size ≡ data_size = omega arith in
          (ma, ground (arith, defsplitter_end pos over, room), rw all at tiles)
      | yes more ↦
          let (piece, step, at, some_data, next_end) = defsplitter_step pos more in
          let whole : min pos data_size ≡ pos = omega arith in
          let tile : Tiles align pos (pos + piece.length) (piece ∷ []) =
            (at, rw at (aligned more), some_data, refl) in
          let (all, run, t) =
            fill-Tiles fuel (pos + size) (ma ++ piece ∷ [])
              (if suc (length ma) == nalloc then nalloc * 2 else nalloc) (omega arith)
              (ground (arith, length-append ma (piece ∷ [])))
              (rw next_end (Tiles-append align 0 pos _ ma (piece ∷ []) (rw whole at tiles) tile))
              (λ _.
                mod_sum pos size align (aligned more)
                  (mod_round (data_size / splits_in_force ncores (at_pos 0)) align)) in
          (all, rw (presplitter_fill, lt→ltb _ _ room, step) run, t)
    ]

-- The first call puts the default number of splits in force.
defsplitter_in_force :
    (ncores : ℕ) (ds : DefSplitter)
    → ds.split_pos < ds.data_size
    → defsplitter ncores ds ≡ defsplitter ncores (record ds { nsplits = splits_in_force ncores ds })
unfolding defsplitter
defsplitter_in_force ncores ds some_data = ground arith

Tiles-pos : (align end : ℕ) (ma : List Split) → 0 < end → Tiles align 0 end ma → 0 < length ma
Tiles-pos align end [] h t = omega arith
Tiles-pos align end (s ∷ ss) h t = omega arith

-- Where a split has room for one unit of alignment, the splits are made: `presplitter_init` ends
-- within one call for each byte, and the splits follow one another from the start of the input to
-- its end, each at a multiple of the alignment and none empty.
pub presplitter_init-Tiles :
    (ncores data_size nsplits align : ℕ)
    → let ds : DefSplitter = record {
      split_pos = 0;
      data_size = data_size;
      nsplits = nsplits;
      align = align;
    } in
      0 < align
      → 0 < splits_in_force ncores ds
      → 0 < split_size ncores ds
      → data_size < 2 ^ 63
      → Returns (presplitter_init (defsplitter ncores) (suc data_size) ds) λ ps.
        Tiles align 0 data_size ps.ma
        × (ps.nsplits ≡ length ps.ma)
        × (0 < ps.nsplits)
        × (ps.idx ≡ 0)
unfolding presplitter_init presplitter_fill
presplitter_init-Tiles ncores data_size nsplits align pos some_splits some_size small =
    let ds : DefSplitter = record {
      split_pos = 0;
      data_size = data_size;
      nsplits = nsplits;
      align = align;
    } in
    let n = splits_in_force ncores ds in
    let some_data : 0 < data_size = ground arith in
    let (ma, run, t) =
      fill-Tiles ncores align data_size n pos some_splits (ground (arith, some_size)) small
        (suc data_size) 0 [] 1 (omega arith) (omega arith) (omega arith) (λ _. zero-mod align) in
    let same : presplitter_fill (defsplitter ncores) (suc data_size) ds [] 1
        ≡ presplitter_fill (defsplitter ncores) (suc data_size) (record ds { nsplits = n }) [] 1 =
      rw (presplitter_fill, defsplitter_in_force ncores ds some_data) in
    let some_split : 0 < length ma = Tiles-pos align data_size ma some_data t in
    (
      record { ma = ma; idx = 0; nsplits = length ma; nsplits_bak = 0; ma_bak = [] },
      rw (same, run, ◌>>=◌, lt→ltb _ _ some_split),
      (t, refl, some_split, refl),
    )

-- A call at a split size of 0: a split with no data, and the position stays.
abbrev stuck : ℕ → DefSplitter → DefSplitter
stuck ncores ds = record ds { nsplits = splits_in_force ncores ds }

defsplitter-stuck :
    (ncores : ℕ) (ds : DefSplitter)
    → ds.split_pos < ds.data_size
    → ds.data_size < 2 ^ 63
    → 0 < ds.align
    → 0 < splits_in_force ncores ds
    → split_size ncores ds ≡ 0
    → defsplitter ncores ds
      ≡ some (some (record { offset = ds.split_pos; length = 0 }), stuck ncores ds)
unfolding defsplitter
defsplitter-stuck ncores ds more small pos some_splits no_size =
    ground (arith, more, small, pos, some_splits, no_size)

fill_round :
    (ncores fuel : ℕ) (ds : DefSplitter) (ma : List Split) (nalloc : ℕ)
    → ds.split_pos < ds.data_size
    → ds.data_size < 2 ^ 63
    → 0 < ds.align
    → 0 < splits_in_force ncores ds
    → split_size ncores ds ≡ 0
    → length ma < nalloc
    → presplitter_fill (defsplitter ncores) (suc fuel) ds ma nalloc
      ≡ presplitter_fill
          (defsplitter ncores)
          fuel
          (stuck ncores ds)
          (ma ++ record { offset = ds.split_pos; length = 0 } ∷ [])
          (if suc (length ma) == nalloc then nalloc * 2 else nalloc)
unfolding presplitter_fill
fill_round ncores fuel ds ma nalloc more small pos some_splits no_size room =
    rw (lt→ltb _ _ room, defsplitter-stuck ncores ds more small pos some_splits no_size)

-- Where a split has no room for one unit of alignment, the loop that makes the splits never ends:
-- each round goes over to one with the same position and one more split of no data, so that no
-- number of rounds is enough.
pub presplitter_fill_stuck :
    (ncores fuel : ℕ) (ds : DefSplitter) (ma : List Split) (nalloc : ℕ)
    → ds.split_pos < ds.data_size
    → ds.data_size < 2 ^ 63
    → 0 < ds.align
    → 0 < splits_in_force ncores ds
    → split_size ncores ds ≡ 0
    → length ma < nalloc
    → (presplitter_fill (defsplitter ncores) (suc fuel) ds ma nalloc
        ≡ presplitter_fill
            (defsplitter ncores)
            fuel
            (record ds { nsplits = splits_in_force ncores ds })
            (ma ++ record { offset = ds.split_pos; length = 0 } ∷ [])
            (if suc (length ma) == nalloc then nalloc * 2 else nalloc))
      × (presplitter_fill (defsplitter ncores) fuel ds ma nalloc ≡ none)
unfolding presplitter_fill
presplitter_fill_stuck ncores zero ds ma nalloc more small pos some_splits no_size room =
    (fill_round ncores zero ds ma nalloc more small pos some_splits no_size room, refl)
presplitter_fill_stuck ncores (suc fuel) ds ma nalloc more small pos some_splits no_size room =
    let round = fill_round ncores fuel ds ma nalloc more small pos some_splits no_size room in
    let rest =
      presplitter_fill_stuck ncores fuel (stuck ncores ds)
        (ma ++ record { offset = ds.split_pos; length = 0 } ∷ [])
        (if suc (length ma) == nalloc then nalloc * 2 else nalloc) more small pos
        (ground (arith, some_splits)) (ground (arith, no_size, some_splits))
        (ground (arith, length-append ma (record { offset = ds.split_pos; length = 0 } ∷ []))) in
    (
      fill_round ncores (suc fuel) ds ma nalloc more small pos some_splits no_size room,
      round ∙ rest.1,
    )
