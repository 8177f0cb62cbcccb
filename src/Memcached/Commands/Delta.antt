-- ===== src/Memcached/Commands/Delta.antt =====
-- src/memcached.c: `do_add_delta`, for the commands incr and decr.
use mathlib.Core.Bool.{not}
use mage_artifact_baseline.Common.{
  ℕ, ◌+◌, ◌-◌, ◌%◌, Bool, true, false, ◌&&◌, Option, none, some, List, [], ◌∷◌, ◌++◌, drop,
  replicate, length, leb, ltb, ◌==◌, if◌then◌else◌, ◌>>=◌, u64_mod,
}
use mage_artifact_baseline.Memcached.Heap.{StrItem}
use mage_artifact_baseline.Memcached.Assoc.{ItemKeys}
use mage_artifact_baseline.Memcached.Util.{safe_strtoull, print_u64}
use mage_artifact_baseline.Memcached.Items.{
  Store, Settings, item_at, put_item, next_cas, item_set_cas, item_get_cas, do_item_remove,
  do_item_update, do_item_replace, do_item_get,
}
use mage_artifact_baseline.Memcached.Items.Alloc.{do_item_alloc}
use mage_artifact_baseline.Memcached.Commands.{Library}

-- `enum delta_result_type`
pub data DeltaResultType : Type 0 where
  delta_ok : DeltaResultType
  non_numeric : DeltaResultType
  eom : DeltaResultType
  delta_item_not_found : DeltaResultType
  delta_item_cas_mismatch : DeltaResultType

-- The answer, the text in `buf` where it is written, `*cas` where it is written, and the store.
pub record DeltaOutcome (K : Type 0) : Type 0 where
  pub answer : DeltaResultType
  pub buf : Option (List ℕ)
  pub cas : Option ℕ
  pub store : Store K

-- The new value: an increment wraps at 64 bits, and a decrement stops at 0. `delta` is the 64-bit
-- pattern of the argument, which the comparison with `value` reads without a sign.
unfoldable pub add_delta_value : Bool → ℕ → ℕ → ℕ
add_delta_value incr delta value =
    if incr then (value + delta) % u64_mod else if ltb value delta then 0 else value - delta

-- `cas != NULL`
abbrev pub has_cas : Option ℕ → Bool
has_cas none = false
has_cas (some c) = true

-- `cas != NULL && *cas != 0 && ITEM_get_cas(it) != *cas`
abbrev pub cas_differs : Option ℕ → ℕ → Bool
cas_differs none of_item = false
cas_differs (some c) of_item = not (c == 0) && not (of_item == c)

module _ {K : Type 0} where
  -- An answer after the item is released.
  unfoldable pub give_up : DeltaResultType → Option (List ℕ) → ℕ → Store K → Option (DeltaOutcome K)
  unfolding do_item_remove
  give_up answer buf it st = do_item_remove it st >>= λ st'.
      some (record { answer = answer; buf = buf; cas = none; store = st' })

  -- The new item has the text and a line end.
  unfoldable pub fill_number : ℕ → List ℕ → Store K → Store K
  fill_number new text st =
      put_item new (record (item_at st new) { bytes = text ++ 13 ∷ 10 ∷ [] }) st

  -- The text over the old data, filled up with blanks before the line end.
  unfoldable pub pad_number : List ℕ → StrItem K → StrItem K
  pad_number text it = record it {
    bytes = text ++ replicate (it.nbytes - length text - 2) 32 ++ drop (it.nbytes - 2) it.bytes;
  }

module _ {K : Type 0} ⦃keys : ItemKeys K⦄ where
  -- The end: the CAS of the item goes to `*cas`, and the item is released.
  unfoldable pub finish_delta : Bool → List ℕ → ℕ → Store K → Option (DeltaOutcome K)
  unfolding do_item_remove item_get_cas
  finish_delta want_cas text it st =
      let cas = if want_cas then some (item_get_cas (item_at st it)) else none in
      do_item_remove it st >>= λ st'.
      some (record { answer = delta_ok; buf = some text; cas = cas; store = st' })

  -- The value replaces the data in place.
  unfoldable pub delta_in_place : Settings → Bool → List ℕ → ℕ → Store K → Option (DeltaOutcome K)
  unfolding item_set_cas next_cas pad_number do_item_update finish_delta
  delta_in_place settings want_cas text it st = do
    let cas_id = next_cas settings.use_cas st.cas_id
    let marked = item_set_cas (if settings.use_cas then cas_id else 0) (item_at st it)
    st' ←
        do_item_update settings it
          (put_item it (pad_number text marked) (record st { cas_id = cas_id }))
    finish_delta want_cas text it st'

  -- A new item with the value replaces the old one, which gets the new CAS for the answer.
  unfoldable pub delta_replace :
      Library → Settings → Bool → List ℕ → ℕ → ℕ → Store K → Option (DeltaOutcome K)
  unfolding do_item_alloc give_up fill_number do_item_replace item_set_cas item_get_cas
      do_item_remove finish_delta
  delta_replace lib settings want_cas text it hv st =
      let old = item_at st it in
      do_item_alloc lib.fuel lib.answers settings old.key old.nkey lib.suffix_flags old.exptime
        (length text + 2) hv st
      >>= λ (new, st₁).
          if new == 0
          then give_up eom (some text) it st₁
          else (do_item_replace settings it new hv (fill_number new text st₁) >>= λ st₂.
              let cas = if settings.use_cas then item_get_cas (item_at st₂ new) else 0 in
              let marked = put_item it (item_set_cas cas (item_at st₂ it)) st₂ in
              do_item_remove new marked >>= finish_delta want_cas text it)

  -- What is done with a found item that has the value.
  unfoldable pub delta_found :
      Library → Settings → Bool → List ℕ → ℕ → ℕ → Store K → Option (DeltaOutcome K)
  unfolding delta_in_place delta_replace give_up
  delta_found lib settings want_cas text it hv st =
      let old = item_at st it in
      if leb (length text + 2) old.nbytes && old.refcount == 2
      then delta_in_place settings want_cas text it st
      else if ltb 1 old.refcount
      then delta_replace lib settings want_cas text it hv st
      else if old.refcount == 1
      then give_up delta_item_not_found (some text) it st
      else some (record { answer = delta_item_not_found; buf = some text; cas = none; store = st })

  -- `cas` is none where the pointer is NULL. The counters of the worker thread are left out.
  unfoldable pub do_add_delta :
      Library → Settings → K → Bool → ℕ → Option ℕ → ℕ → Store K → Option (DeltaOutcome K)
  unfolding do_item_get give_up delta_found safe_strtoull print_u64 add_delta_value item_get_cas
  do_add_delta lib settings key incr delta cas hv st =
      do_item_get settings key hv st >>= λ (it, st').
      let item = item_at st' it in
      if it == 0
      then some (record { answer = delta_item_not_found; buf = none; cas = none; store = st' })
      else if cas_differs cas (item_get_cas item)
      then give_up delta_item_cas_mismatch none it st'
      else elim (safe_strtoull lib.strtoull item.bytes) [
        | none ↦ give_up non_numeric none it st'
        | some value ↦
            delta_found lib settings (has_cas cas) (print_u64 (add_delta_value incr delta value)) it
              hv st'
      ]
