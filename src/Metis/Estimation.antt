-- ===== src/Metis/Estimation.antt =====
-- lib/estimation.c: the counts of one mapper, from which the number of keys is estimated.
pub mod Rates
use mage_artifact_baseline.Common.{
  ℕ, zero, suc, ◌+◌, ◌-◌, ◌*◌, ◌/◌, ◌%◌, Bool, true, false, List, ◌==◌, if◌then◌else◌, Option, none,
  some, get_elem?, set, replicate, u64_mod, ◌>>=◌,
}

-- `mstate_t`: one row of the array `mstate`. All fields are of 64 bits.
pub record MState : Type 0 where
  pub cur_nkeys : ℕ
  pub cur_npairs : ℕ
  pub last_nkeys : ℕ
  pub last_npairs : ℕ
  pub key_rate : ℕ
  pub pair_rate : ℕ
  pub nsampled : ℕ

abbrev pub est_interval : ℕ
est_interval = 1000

-- Subtraction of 64 bits.
abbrev pub sub64 : ℕ → ℕ → ℕ
sub64 a b = (a + u64_mod - b) % u64_mod

abbrev pub zero_state : MState
zero_state = record {
  cur_nkeys = 0;
  cur_npairs = 0;
  last_nkeys = 0;
  last_npairs = 0;
  key_rate = 0;
  pair_rate = 0;
  nsampled = 0;
}

-- `memset(mstate, 0, sizeof(mstate))`, with `ncpu` rows.
unfoldable pub est_init : ℕ → List MState
est_init ncpu = replicate ncpu zero_state

unfoldable pub est_interval_passed : MState → MState
est_interval_passed s = record s {
  key_rate =
      if s.last_nkeys == 0
      then s.cur_nkeys
      else (s.key_rate / 2 + sub64 s.cur_nkeys s.last_nkeys / 2) % u64_mod;
  last_nkeys = s.cur_nkeys;
}

unfoldable pub est_task_finished : MState → MState
est_task_finished s = record s {
  pair_rate =
      if s.last_npairs == 0
      then s.cur_npairs
      else (s.pair_rate / 2 + sub64 s.cur_npairs s.last_npairs / 2) % u64_mod;
  last_npairs = s.cur_npairs;
  nsampled = (s.nsampled + 1) % u64_mod;
}

-- `*nkeys` and `*npairs`
unfoldable pub est_estimate : MState → ℕ → ℕ × ℕ
est_estimate s ntotal =
    let npairs = (s.pair_rate * sub64 ntotal s.nsampled + s.cur_npairs) % u64_mod in
    let nkeys =
      ((s.key_rate * sub64 npairs s.cur_npairs) % u64_mod / est_interval + s.cur_nkeys) % u64_mod in
    (nkeys, npairs)

unfoldable pub est_get_finished : MState → ℕ
est_get_finished s = s.nsampled

-- The counts of `est_newpair`, before the test for a full interval.
unfoldable pub est_count : MState → Bool → MState
est_count s newkey = record s {
  cur_nkeys = if newkey then (s.cur_nkeys + 1) % u64_mod else s.cur_nkeys;
  cur_npairs = (s.cur_npairs + 1) % u64_mod;
}

unfoldable pub est_newpair : MState → Bool → MState
unfolding est_count
est_newpair s newkey =
    let s' = est_count s newkey in
    if s'.cur_npairs % est_interval == 0 then est_interval_passed s' else s'

-- A call on the row of a mapper; a row outside the array is a fault.
unfoldable pub on_row : (MState → MState) → ℕ → List MState → Option (List MState)
on_row f row ms = get_elem? ms row >>= λ s. some (set ms row (f s))
