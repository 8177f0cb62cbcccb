-- ===== src/Memcached/Conns/Fifo.antt =====
-- src/thread.c: the queue of connections against a list.
use mage_artifact_baseline.Common.{
  ℕ, ◌≡◌, ◌≢◌, refl, sym, ap, ◌∙◌, subst, true, false, List, [], ◌∷◌, ◌++◌, arith, ◌==◌,
}
use mage_artifact_baseline.Memcached.Heap.Segments.{Apart, Distinct, last_or, last_or-Apart}
use mage_artifact_baseline.Memcached.Lru.{put}
use mage_artifact_baseline.Memcached.Lru.Queue.{put_self, put_other}
use mage_artifact_baseline.Memcached.Conns.{Conns, cq_push, cq_pop}

-- From `p` the links lead through the list to NULL.
abbrev pub Chain : (ℕ → ℕ) → ℕ → List ℕ → Type 0
Chain next p [] = p ≡ 0
Chain next p (x ∷ xs) = (p ≡ x) × (x ≢ 0) × Chain next (next x) xs

pub record IsFifo (st : Conns) (xs : List ℕ) : Type 0 where
  pub links : Chain st.next st.head xs
  pub tail : st.tail ≡ last_or 0 xs
  pub distinct : Distinct xs

-- Calls of the two threads, each of which holds the lock of the queue.
pub data Call : Type 0 where
  push : ℕ → Call
  pop : Call

-- The items that the calls of `cq_pop` answer, with NULL for an empty queue.
unfoldable pub run_calls : List Call → Conns → List ℕ
run_calls [] st = []
run_calls (push item ∷ calls) st = run_calls calls (cq_push item st)
run_calls (pop ∷ calls) st = (cq_pop st).0 ∷ run_calls calls (cq_pop st).1

-- The same on a list, first in, first out.
abbrev pub spec_calls : List Call → List ℕ → List ℕ
spec_calls [] xs = []
spec_calls (push item ∷ calls) xs = spec_calls calls (xs ++ item ∷ [])
spec_calls (pop ∷ calls) [] = 0 ∷ spec_calls calls []
spec_calls (pop ∷ calls) (x ∷ xs) = x ∷ spec_calls calls xs

-- No item is pushed while it is in the queue.
abbrev pub Fresh : List Call → List ℕ → Type 0
Fresh [] xs = Unit
Fresh (push item ∷ calls) xs = (item ≢ 0) × Apart item xs × Fresh calls (xs ++ item ∷ [])
Fresh (pop ∷ calls) [] = Fresh calls []
Fresh (pop ∷ calls) (x ∷ xs) = Fresh calls xs

Chain-put :
    (next : ℕ → ℕ) (a v p : ℕ) (xs : List ℕ)
    → Apart a xs
    → Chain next p xs
    → Chain (put a v next) p xs
Chain-put next a v p [] apart s = s
Chain-put next a v p (x ∷ xs) (other, apart) (e, some_item, s) = (
  e,
  some_item,
  subst (λ n. Chain (put a v next) n xs) (sym (put_other a v next x (λ z. other (sym z))))
      (Chain-put next a v (next x) xs apart s),
)

-- The link of the last item leads to the new one.
Chain-append :
    (next : ℕ → ℕ) (item p x : ℕ) (xs : List ℕ)
    → item ≢ 0
    → next item ≡ 0
    → Apart item (x ∷ xs)
    → Distinct (x ∷ xs)
    → Chain next p (x ∷ xs)
    → Chain (put (last_or x xs) item next) p (x ∷ xs ++ item ∷ [])
Chain-append next item p x [] new end apart distinct (e, some_item, s) =
    (e, some_item, (put_self x item next, new, put_other x item next item apart.0 ∙ end))
Chain-append next item p x (y ∷ ys) new end (other, apart) (far, distinct) (e, some_item, s) = (
  e,
  some_item,
  subst (λ n. Chain (put (last_or y ys) item next) n (y ∷ ys ++ item ∷ []))
      (sym (put_other (last_or y ys) item next x (last_or-Apart x y ys far)))
      (Chain-append next item (next x) y ys new end apart distinct s),
)

Distinct-snoc : (xs : List ℕ) (item : ℕ) → Apart item xs → Distinct xs → Distinct (xs ++ item ∷ [])
Distinct-snoc [] item apart d = (tt, tt)
Distinct-snoc (x ∷ xs) item (other, apart) (far, d) =
    (Apart-snoc x xs item far (λ e. other (sym e)), Distinct-snoc xs item apart d)
  where
    Apart-snoc : (a : ℕ) (ys : List ℕ) (z : ℕ) → Apart a ys → a ≢ z → Apart a (ys ++ z ∷ [])
    Apart-snoc a [] z far other = (other, tt)
    Apart-snoc a (y ∷ ys) z (no_y, far) other = (no_y, Apart-snoc a ys z far other)

last_or-snoc : (p : ℕ) (xs : List ℕ) (item : ℕ) → last_or p (xs ++ item ∷ []) ≡ item
last_or-snoc p [] item = refl
last_or-snoc p (x ∷ xs) item = last_or-snoc x xs item

last_or-some : (next : ℕ → ℕ) (p x : ℕ) (xs : List ℕ) → Chain next p (x ∷ xs) → last_or x xs ≢ 0
last_or-some next p x [] s = s.1
last_or-some next p x (y ∷ ys) s = last_or-some next (next x) y ys s.2

pub cq_push-IsFifo :
    (item : ℕ) (st : Conns) (xs : List ℕ)
    → IsFifo st xs
    → item ≢ 0
    → Apart item xs
    → IsFifo (cq_push item st) (xs ++ item ∷ [])
unfolding cq_push
cq_push-IsFifo item st [] is new apart =
    let empty : (st.tail == 0) ≡ true = ground (arith, is.tail) in
    rw empty
      record { links = (refl, new, put_self item 0 st.next); tail = refl; distinct = (tt, tt) }
cq_push-IsFifo item st (x ∷ xs) is new apart =
    let some_tail : (st.tail == 0) ≡ false =
      ground (arith, is.tail, last_or-some st.next st.head x xs is.links) in
    rw some_tail record {
      links =
          subst (λ t. Chain (put t item (put item 0 st.next)) st.head (x ∷ xs ++ item ∷ []))
            (sym is.tail)
            (Chain-append (put item 0 st.next) item st.head x xs new (put_self item 0 st.next) apart
              is.distinct (Chain-put st.next item 0 st.head (x ∷ xs) apart is.links));
      tail = sym (last_or-snoc x xs item);
      distinct = Distinct-snoc (x ∷ xs) item apart is.distinct;
    }

cq_pop-nothing : (st : Conns) → IsFifo st [] → cq_pop st ≡ (0, st)
unfolding cq_pop
cq_pop-nothing st is = let empty : (st.head == 0) ≡ true = ground (arith, is.links) in rw empty

cq_pop-IsFifo :
    (st : Conns) (x : ℕ) (xs : List ℕ)
    → IsFifo st (x ∷ xs)
    → ((cq_pop st).0 ≡ x) × IsFifo (cq_pop st).1 xs
unfolding cq_pop
cq_pop-IsFifo st x [] is =
    let some_item : (st.head == 0) ≡ false = ground (arith, is.links.0, is.links.1) in
    let end : st.next st.head ≡ 0 = ap st.next is.links.0 ∙ is.links.2 in
    let last : (st.next st.head == 0) ≡ true = ground (arith, end) in
    rw (some_item, last) (is.links.0, record { links = end; tail = refl; distinct = tt })
cq_pop-IsFifo st x (y ∷ ys) is =
    let some_item : (st.head == 0) ≡ false = ground (arith, is.links.0, is.links.1) in
    let rest = subst (λ h. Chain st.next (st.next h) (y ∷ ys)) (sym is.links.0) is.links.2 in
    let more : (st.next st.head == 0) ≡ false = ground (arith, rest.0, rest.1) in
    rw (some_item, more)
      (is.links.0, record { links = rest; tail = is.tail; distinct = is.distinct.1 })

-- Any sequence of pushes and pops on a queue answers as a list does that is used first in, first
-- out, where no item is pushed while it is in the queue.
pub run_calls-fifo :
    (calls : List Call) (st : Conns) (xs : List ℕ)
    → IsFifo st xs
    → Fresh calls xs
    → run_calls calls st ≡ spec_calls calls xs
unfolding run_calls
run_calls-fifo [] st xs is fresh = refl
run_calls-fifo (push item ∷ calls) st xs is (new, apart, fresh) =
    run_calls-fifo calls (cq_push item st) (xs ++ item ∷ [])
      (cq_push-IsFifo item st xs is new apart) fresh
run_calls-fifo (pop ∷ calls) st [] is fresh =
    let e = cq_pop-nothing st is in
    ap (λ r. r.0 ∷ run_calls calls r.1) e ∙ ap (λ l. 0 ∷ l) (run_calls-fifo calls st [] is fresh)
run_calls-fifo (pop ∷ calls) st (x ∷ xs) is fresh =
    let (here, next) = cq_pop-IsFifo st x xs is in
    ap (λ n. n ∷ run_calls calls (cq_pop st).1) here
    ∙ ap (λ l. x ∷ l) (run_calls-fifo calls (cq_pop st).1 xs next fresh)
