-- ===== src/Memcached/Assoc/Runs.antt =====
-- src/assoc.c: any run of calls, with the maintenance thread's rounds between them, against the
-- same run on a map.
use mage_artifact_baseline.Common.{
  ℕ, ◌+◌, ◌^◌, ◌≤◌, ◌<◌, ◌≡◌, refl, sym, ap, ◌∙◌, Option, none, some, List, [], ◌∷◌, arith,
  if◌then◌else◌, ◌>>=◌, Returns,
}
use mage_artifact_baseline.Memcached.Assoc.{Item, ItemKeys, Assoc, in_old, assoc_init, assoc_find}
use mage_artifact_baseline.Memcached.Assoc.Table.{count-replicate, new-IsTable, find_in-new}
use mage_artifact_baseline.Memcached.Assoc.Holds.{IsAssoc, holds, assoc_find-holds}
use mage_artifact_baseline.Memcached.Assoc.Events.{
  Event, insert, delete, move, finish, expand, run_events, spec_event, spec_events, Allowed,
  AllAllowed, insertions, expansions, run_event-Step,
}

module _ {K V : Type 0} ⦃keys : ItemKeys K⦄ where
  spec_event-cong :
      (e : Event K V) (f g : K → Option (Item K V))
      → ((k : K) → f k ≡ g k)
      → (k : K) → spec_event e f k ≡ spec_event e g k
  spec_event-cong (insert it) f g h k = ap (λ o. if keys.same k it.key then some it else o) (h k)
  spec_event-cong (delete key) f g h k = ap (λ o. if keys.same k key then none else o) (h k)
  spec_event-cong (move ii) f g h k = h k
  spec_event-cong finish f g h k = h k
  spec_event-cong (expand calloc_ok) f g h k = h k

  Allowed-cong :
      (e : Event K V) (f g : K → Option (Item K V))
      → ((k : K) → f k ≡ g k)
      → Allowed e f
      → Allowed e g
  Allowed-cong (insert it) f g h ok = sym (h it.key) ∙ ok
  Allowed-cong (delete key) f g h ok = (ok.0, sym (h key) ∙ ok.1)
  Allowed-cong (move ii) f g h ok = ok
  Allowed-cong finish f g h ok = ok
  Allowed-cong (expand calloc_ok) f g h ok = ok

  -- In any order of insertions, deletions, bulk moves and expansions, the table answers every
  -- search as the map that the insertions and deletions alone have made: no event faults, nothing
  -- is lost or doubled while buckets move, and the invariant stays. The callers insert no key
  -- twice and delete only keys in the table, and the counts stay within 32 bits and the table
  -- within 2 ^ 31 buckets.
  pub run_events-refines :
      (es : List (Event K V)) (st : Assoc (Item K V)) (f : K → Option (Item K V))
      → IsAssoc st
      → ((k : K) → holds st k ≡ f k)
      → AllAllowed es f
      → st.hash_items + insertions es < 2 ^ 32
      → st.hashpower + expansions es ≤ 31
      → Returns (run_events es st) λ st'.
        IsAssoc st' × ((k : K) → assoc_find k (keys.hash k) st' ≡ some (spec_events es f k))
  unfolding run_events
  run_events-refines [] st f is same ok few low =
      (st, refl, (is, λ k. assoc_find-holds k st is ∙ ap some (same k)))
  run_events-refines (e ∷ es) st f is same ok few low =
      let allowed = Allowed-cong e f (holds st) (λ k. sym (same k)) ok.0 in
      let (st₁, run₁, s) = run_event-Step e es st is allowed few low in
      let (st₂, run₂, (is₂, finds)) =
        run_events-refines es st₁ (spec_event e f) s.inv
          (λ k. s.map k ∙ spec_event-cong e (holds st) f same k) ok.1 (omega (arith, s.items))
          (omega (arith, s.power)) in
      (st₂, rw (run₁, ◌>>=◌, run₂), (is₂, finds))

  -- A new table, of at most 2 ^ 32 buckets, is empty.
  pub assoc_init-IsAssoc :
      (hashtable_init : ℕ)
      → hashtable_init ≤ 32
      → let st : Assoc (Item K V) = assoc_init hashtable_init in
        IsAssoc st × ((k : K) → holds st k ≡ none) × (st.hash_items ≡ 0)
  unfolding assoc_init holds in_old
  assoc_init-IsAssoc hashtable_init small = (
    record {
      primary = new-IsTable _ _ refl;
      phase = refl;
      items = rw (count-replicate (Item K V)) (omega arith);
      power = ground arith;
    },
    λ k. find_in-new _ _ k refl,
    refl,
  )
