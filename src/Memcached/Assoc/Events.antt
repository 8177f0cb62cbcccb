-- ===== src/Memcached/Assoc/Events.antt =====
-- src/assoc.c: the events that change the table, and what each leaves.
use mage_artifact_baseline.Common.{
  ℕ, suc, ◌+◌, ◌^◌, ◌≤◌, ◌<◌, ◌≡◌, refl, sym, subst, Bool, false, Option, none, some, List, [], ◌∷◌,
  inl, inr, arith, if◌then◌else◌, ◌>>=◌, Returns, Bool-cases,
}
use mage_artifact_baseline.Memcached.Assoc.{
  Item, ItemKeys, Assoc, in_old, assoc_insert, assoc_expand, assoc_delete, bulk_move,
  finish_expansion,
}
use mage_artifact_baseline.Memcached.Assoc.Holds.{IsAssoc, Phase, holds, update}
use mage_artifact_baseline.Memcached.Assoc.Updates.{assoc_insert-Holds, assoc_delete-Holds}
use mage_artifact_baseline.Memcached.Assoc.Expansion.{assoc_expand-Holds}
use mage_artifact_baseline.Memcached.Assoc.BulkMove.{bulk_move-Holds}

-- What happens to the table: the calls of the server's threads, and the maintenance thread's
-- sections, each under the locks.
pub data Event (K V : Type 0) : Type 0 where
  insert : Item K V → Event K V
  delete : K → Event K V
  move : ℕ → Event K V
  finish : Event K V
  expand : Bool → Event K V

module _ {K V : Type 0} ⦃keys : ItemKeys K⦄ where
  -- The maintenance thread calls `assoc_expand` only behind `if (!expanding)`.
  unfoldable pub run_event : Event K V → Assoc (Item K V) → Option (Assoc (Item K V))
  run_event (insert it) st = assoc_insert it (keys.hash it.key) st
  run_event (delete key) st = assoc_delete key (keys.hash key) st
  run_event (move ii) st = bulk_move ii st
  run_event finish st = some (finish_expansion st)
  run_event (expand calloc_ok) st = some (if st.expanding then st else assoc_expand calloc_ok st)

  unfoldable pub run_events : List (Event K V) → Assoc (Item K V) → Option (Assoc (Item K V))
  run_events [] st = some st
  run_events (e ∷ es) st = run_event e st >>= run_events es

  -- The same event on a map: only the calls change it.
  abbrev pub spec_event : Event K V → (K → Option (Item K V)) → K → Option (Item K V)
  spec_event (insert it) f = update f it.key (some it)
  spec_event (delete key) f = update f key none
  spec_event (move ii) f = f
  spec_event finish f = f
  spec_event (expand calloc_ok) f = f

  abbrev pub spec_events : List (Event K V) → (K → Option (Item K V)) → K → Option (Item K V)
  spec_events [] f = f
  spec_events (e ∷ es) f = spec_events es (spec_event e f)

  -- What the callers keep to: no key is inserted twice, and only keys in the table are deleted.
  abbrev pub Allowed : Event K V → (K → Option (Item K V)) → Type 0
  Allowed (insert it) f = f it.key ≡ none
  Allowed (delete key) f = (x : Item K V) × (f key ≡ some x)
  Allowed _ f = Unit

  abbrev pub AllAllowed : List (Event K V) → (K → Option (Item K V)) → Type 0
  AllAllowed [] f = Unit
  AllAllowed (e ∷ es) f = Allowed e f × AllAllowed es (spec_event e f)

  -- The insertions and the expansions among the events.
  abbrev pub insertions : List (Event K V) → ℕ
  insertions [] = 0
  insertions (insert it ∷ es) = suc (insertions es)
  insertions (_ ∷ es) = insertions es

  abbrev pub expansions : List (Event K V) → ℕ
  expansions [] = 0
  expansions (expand calloc_ok ∷ es) = suc (expansions es)
  expansions (_ ∷ es) = expansions es

  -- What one event leaves, in a run that goes on with `es`.
  pub record Step (e : Event K V) (es : List (Event K V)) (st st' : Assoc (Item K V)) : Type 0 where
    pub inv : IsAssoc st'
    pub map : (k : K) → holds st' k ≡ spec_event e (holds st) k
    pub items : st'.hash_items + insertions es ≤ st.hash_items + insertions (e ∷ es)
    pub power : st'.hashpower + expansions es ≤ st.hashpower + expansions (e ∷ es)

  -- An event that leaves the table as it is.
  no_change :
      (e : Event K V) (es : List (Event K V)) (st : Assoc (Item K V))
      → IsAssoc st
      → ((k : K) → holds st k ≡ spec_event e (holds st) k)
      → insertions es ≤ insertions (e ∷ es)
      → expansions es ≤ expansions (e ∷ es)
      → Step e es st st
  no_change e es st is map items power = record {
    inv = is;
    map = map;
    items = omega arith;
    power = omega arith;
  }

  expand_event :
      (calloc_ok : Bool) (es : List (Event K V)) (st : Assoc (Item K V))
      → IsAssoc st
      → st.hashpower < 32
      → Step (expand calloc_ok) es st (if st.expanding then st else assoc_expand calloc_ok st)
  expand_event calloc_ok es st is small =
      let StepIf =
        λ (b : Bool). Step (expand calloc_ok) es st (if b then st else assoc_expand calloc_ok st) in
      elim (Bool-cases st.expanding) [
        | inl on ↦
            subst StepIf (sym on)
              (no_change (expand calloc_ok) es st is (λ k. refl) (omega arith) (omega arith))
        | inr off ↦
            let h = assoc_expand-Holds calloc_ok st is off small in
            subst StepIf (sym off) (record {
              inv = h.inv;
              map = h.map;
              items = omega (arith, h.size);
              power = ground (arith, h.level);
            })
      ]

  finish_event :
      (es : List (Event K V)) (st : Assoc (Item K V))
      → IsAssoc st
      → Step finish es st (finish_expansion st)
  unfolding finish_expansion holds in_old
  finish_event es st is =
      let st' : Assoc (Item K V) = record st { started_expanding = false } in
      let StepIf = λ (b : Bool). Step finish es st (if b then st else st') in
      elim (Bool-cases st.expanding) [
        | inl on ↦
            subst StepIf (sym on)
              (no_change finish es st is (λ k. refl) (omega arith) (omega arith))
        | inr off ↦
            let no_old : st.old_hashtable ≡ [] = subst (λ b. Phase b st) off is.phase in
            subst StepIf (sym off) (record {
              inv = record {
                primary = is.primary;
                phase = subst (λ b. Phase b st') (sym off) no_old;
                items = is.items;
                power = is.power;
              };
              map = λ k. refl;
              items = omega arith;
              power = omega arith;
            })
      ]

  pub run_event-Step :
      (e : Event K V) (es : List (Event K V)) (st : Assoc (Item K V))
      → IsAssoc st
      → Allowed e (holds st)
      → st.hash_items + insertions (e ∷ es) < 2 ^ 32
      → st.hashpower + expansions (e ∷ es) ≤ 31
      → Returns (run_event e st) (Step e es st)
  unfolding run_event
  run_event-Step (insert it) es st is absent few low =
      let (st', run, h) = assoc_insert-Holds it st is absent (omega arith) in
      (
        st',
        run,
        record {
          inv = h.inv;
          map = h.map;
          items = omega (arith, h.size);
          power = omega (arith, h.level);
        },
      )
  run_event-Step (delete key) es st is (x, found) few low =
      let (st', run, h) = assoc_delete-Holds key st is found (omega arith) in
      (
        st',
        run,
        record {
          inv = h.inv;
          map = h.map;
          items = omega (arith, h.size);
          power = omega (arith, h.level);
        },
      )
  run_event-Step (move ii) es st is ok few low =
      let (st', run, h) = bulk_move-Holds ii st is (omega arith) in
      (
        st',
        run,
        record {
          inv = h.inv;
          map = h.map;
          items = omega (arith, h.size);
          power = omega (arith, h.level);
        },
      )
  run_event-Step finish es st is ok few low = (_, refl, finish_event es st is)
  run_event-Step (expand calloc_ok) es st is ok few low =
      (_, refl, expand_event calloc_ok es st is (omega arith))
