-- ===== src/Metis/Splitter.antt =====
-- lib/defsplitter.c and lib/presplitter.c: the input is cut into splits before the run, and the map
-- workers take one split after another.
pub mod Tiles
pub mod Schedule
use mage_artifact_baseline.Common.{
  ℕ, zero, suc, ◌+◌, ◌-◌, ◌*◌, ◌/◌, ◌%◌, Bool, true, false, Option, none, some, List, [], ◌∷◌, ◌++◌,
  leb, ltb, ◌==◌, if◌then◌else◌, ◌>>=◌, ◌>>◌, assert, length, get_elem?, take, u32_mod, u64_mod,
}

-- `split_t`: where the data of a split begins, counted from the start of the input, and its length.
pub record Split : Type 0 where
  pub offset : ℕ
  pub length : ℕ

-- `struct defsplitter_state`. Its lock is held through each call.
pub record DefSplitter : Type 0 where
  pub split_pos : ℕ
  pub data_size : ℕ
  pub nsplits : ℕ
  pub align : ℕ

abbrev pub def_nsplits_per_core : ℕ
def_nsplits_per_core = 16

-- `assert(data_size % align == 0)`; a remainder by 0 is a fault.
unfoldable pub defsplitter_init : ℕ → ℕ → ℕ → Option DefSplitter
defsplitter_init data_size nsplits align = do
  assert (ltb 0 align)
  assert (data_size % align == 0)
  some (record { split_pos = 0; data_size = data_size; nsplits = nsplits; align = align })

-- The number of splits in force, and the size of one: rounded down to a multiple of `align`.
abbrev pub splits_in_force : ℕ → DefSplitter → ℕ
splits_in_force ncores ds = if ds.nsplits == 0 then ncores * def_nsplits_per_core else ds.nsplits

abbrev pub split_size : ℕ → DefSplitter → ℕ
split_size ncores ds = let size = ds.data_size / splits_in_force ncores ds in size - size % ds.align

-- The next split, or none at the end of the input, with the new state.
unfoldable pub defsplitter : ℕ → DefSplitter → Option (Option Split × DefSplitter)
defsplitter ncores ds = if leb ds.data_size ds.split_pos then some (none, ds) else do
  assert (ltb 0 (splits_in_force ncores ds))
  assert (ltb 0 ds.align)
  let size = split_size ncores ds
  let length = if ltb ds.data_size (ds.split_pos + size) then ds.data_size - ds.split_pos else size
  some (
    some (record { offset = ds.split_pos; length = length }),
    record ds { split_pos = (ds.split_pos + size) % u64_mod; nsplits = splits_in_force ncores ds },
  )

-- `struct presplitter_state`
pub record PreSplitter : Type 0 where
  pub ma : List Split
  pub idx : ℕ
  pub nsplits : ℕ
  pub nsplits_bak : ℕ
  pub ma_bak : List Split

-- The loop of `presplitter_init` over any splitter: each call writes to the slot after those
-- filled, and the array doubles when it is full.
unfoldable pub presplitter_fill :
    {S : Type 0} → (S → Option (Option Split × S)) → ℕ → S → List Split → ℕ → Option (List Split)
presplitter_fill split zero s ma nalloc = none
presplitter_fill split (suc fuel) s ma nalloc = do
  assert (ltb (length ma) nalloc)
  (next, s') ← split s
  elim next [
    | none ↦ some ma
    | some piece ↦
        presplitter_fill split fuel s' (ma ++ piece ∷ [])
          (if suc (length ma) == nalloc then nalloc * 2 else nalloc)
  ]

unfoldable pub presplitter_init :
    {S : Type 0} → (S → Option (Option Split × S)) → ℕ → S → Option PreSplitter
presplitter_init split fuel s = do
  ma ← presplitter_fill split fuel s [] 1
  assert (ltb 0 (length ma))
  some (record { ma = ma; idx = 0; nsplits = length ma; nsplits_bak = 0; ma_bak = [] })

-- One split for the worker that calls, or none. `idx` is read and increased in one atomic step.
unfoldable pub presplitter : PreSplitter → Option (Option Split × PreSplitter)
presplitter ps = do
  let ps' = record ps { idx = (ps.idx + 1) % u32_mod }
  if leb ps.nsplits ps.idx
      then some (none, ps')
      else (get_elem? ps.ma ps.idx >>= λ ma. some (some ma, ps'))

unfoldable pub presplitter_nsplits : PreSplitter → ℕ
presplitter_nsplits ps = ps.nsplits

unfoldable pub presplitter_reset : PreSplitter → PreSplitter
presplitter_reset ps = record ps { idx = 0; nsplits = ps.nsplits_bak; ma = ps.ma_bak }

-- `memcpy` copies `nsplits` splits; it faults where there are not as many.
unfoldable pub presplitter_prep_sample : PreSplitter → ℕ → Option PreSplitter
presplitter_prep_sample ps ntasks = do
  assert (leb ntasks ps.nsplits)
  assert (leb ps.nsplits (length ps.ma))
  some (record ps { nsplits = ntasks; nsplits_bak = ps.nsplits; ma_bak = take ps.nsplits ps.ma })

unfoldable pub presplitter_done_sample : PreSplitter → PreSplitter
presplitter_done_sample ps = record ps { idx = ps.nsplits % u32_mod; nsplits = ps.nsplits_bak }
