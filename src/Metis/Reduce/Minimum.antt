-- ===== src/Metis/Reduce/Minimum.antt =====
-- lib/reduce.c: the loop of `reduce_or_groupkvs` that finds the minimum key and marks its pairs.
use mage_artifact_baseline.Common.{
  ℕ, ◌+◌, ◌≤◌, ◌<◌, ◌≡◌, ◌≢◌, ◌⊎◌, inl, inr, refl, sym, ◌∙◌, Ordering, Option, none, some, List, [],
  ◌∷◌, ◌++◌, arith, subst,
}
use mathlib.Core.List.{append-nil, append_assoc}
use mage_artifact_baseline.Metis.Order.{KeyOrder}
use mage_artifact_baseline.Metis.Types.{KeyVals}
use mage_artifact_baseline.Metis.Reduce.{Node, Scan, no_scan, scan_node, scan_nodes}

module _ {K V : Type 0} ⦃o : KeyOrder K⦄ where
  abbrev pub heads : {N : Type 0} → List (Node N K V) → List (Option (KeyVals K V))
  heads [] = []
  heads (node ∷ nodes) = node.head ∷ heads nodes

  -- The mark of a pair is `m` exactly where its key has the rank `r`, and the others are greater. A
  -- collection at its end has the mark 0.
  abbrev pub MarkOf : (r m mark : ℕ) → Option (KeyVals K V) → Type 0
  MarkOf r m mark none = mark ≡ 0
  MarkOf r m mark (some kvs) =
      (mark ≤ m) × (((mark ≡ m) × (o.rank kvs.key ≡ r)) ⊎ ((mark ≢ m) × (r < o.rank kvs.key)))

  abbrev pub Marks : (r m : ℕ) → List ℕ → List (Option (KeyVals K V)) → Type 0
  Marks r m [] [] = Unit
  Marks r m (mark ∷ marks) (head ∷ hs) = MarkOf r m mark head × Marks r m marks hs
  Marks r m _ _ = ⊥

  -- All collections are at their ends.
  abbrev pub AllEnded : List ℕ → List (Option (KeyVals K V)) → Type 0
  AllEnded [] [] = Unit
  AllEnded (mark ∷ marks) (none ∷ hs) = (mark ≡ 0) × AllEnded marks hs
  AllEnded _ _ = ⊥

  -- The key is that of the next pair of one of the collections.
  abbrev pub IsHead : K → List (Option (KeyVals K V)) → Type 0
  IsHead key [] = ⊥
  IsHead key (none ∷ hs) = IsHead key hs
  IsHead key (some kvs ∷ hs) = (kvs.key ≡ key) ⊎ IsHead key hs

  -- What the loop has found in the heads of the collections.
  abbrev pub Least : Option K → ℕ → List ℕ → List (Option (KeyVals K V)) → Type 0
  Least none m marks hs = (m ≡ 0) × AllEnded marks hs
  Least (some key) m marks hs = (0 < m) × IsHead key hs × Marks (o.rank key) m marks hs

  abbrev LeastIn : List (Option (KeyVals K V)) → Scan K → Type 0
  LeastIn hs s = Least s.min_key s.m s.marks hs

  IsHead-append :
      (key : K) (hs : List (Option (KeyVals K V))) (h : Option (KeyVals K V))
      → IsHead key hs
      → IsHead key (hs ++ h ∷ [])
  IsHead-append key [] h i = absurd i
  IsHead-append key (none ∷ hs) h i = IsHead-append key hs h i
  IsHead-append key (some kvs ∷ hs) h (inl e) = inl e
  IsHead-append key (some kvs ∷ hs) h (inr i) = inr (IsHead-append key hs h i)

  IsHead-last :
      (hs : List (Option (KeyVals K V))) (kvs : KeyVals K V) → IsHead kvs.key (hs ++ some kvs ∷ [])
  IsHead-last [] kvs = inl refl
  IsHead-last (none ∷ hs) kvs = IsHead-last hs kvs
  IsHead-last (some head ∷ hs) kvs = inr (IsHead-last hs kvs)

  Marks-append :
      (r m : ℕ) (marks : List ℕ) (hs : List (Option (KeyVals K V))) (mark : ℕ)
      (h : Option (KeyVals K V))
      → Marks r m marks hs
      → MarkOf r m mark h
      → Marks r m (marks ++ mark ∷ []) (hs ++ h ∷ [])
  Marks-append r m [] [] mark h all one = (one, tt)
  Marks-append r m [] (g ∷ hs) mark h all one = absurd all
  Marks-append r m (k ∷ marks) [] mark h all one = absurd all
  Marks-append r m (k ∷ marks) (g ∷ hs) mark h all one =
      (all.0, Marks-append r m marks hs mark h all.1 one)

  AllEnded-append :
      (marks : List ℕ) (hs : List (Option (KeyVals K V)))
      → AllEnded marks hs
      → AllEnded (marks ++ 0 ∷ []) (hs ++ none ∷ [])
  AllEnded-append [] [] all = (refl, tt)
  AllEnded-append [] (h ∷ hs) all = absurd all
  AllEnded-append (k ∷ marks) [] all = absurd all
  AllEnded-append (k ∷ marks) (none ∷ hs) all = (all.0, AllEnded-append marks hs all.1)
  AllEnded-append (k ∷ marks) (some kvs ∷ hs) all = absurd all

  AllEnded-Marks :
      (r m : ℕ) (marks : List ℕ) (hs : List (Option (KeyVals K V)))
      → AllEnded marks hs
      → Marks r m marks hs
  AllEnded-Marks r m [] [] all = tt
  AllEnded-Marks r m [] (h ∷ hs) all = absurd all
  AllEnded-Marks r m (k ∷ marks) [] all = absurd all
  AllEnded-Marks r m (k ∷ marks) (none ∷ hs) all = (all.0, AllEnded-Marks r m marks hs all.1)
  AllEnded-Marks r m (k ∷ marks) (some kvs ∷ hs) all = absurd all

  -- A key that is less than all before it makes their marks old.
  Marks-older :
      (r r' m : ℕ) (marks : List ℕ) (hs : List (Option (KeyVals K V)))
      → r' < r
      → Marks r m marks hs
      → Marks r' (m + 1) marks hs
  Marks-older r r' m [] [] less all = tt
  Marks-older r r' m [] (h ∷ hs) less all = absurd all
  Marks-older r r' m (k ∷ marks) [] less all = absurd all
  Marks-older r r' m (k ∷ marks) (none ∷ hs) less all =
      (all.0, Marks-older r r' m marks hs less all.1)
  Marks-older r r' m (k ∷ marks) (some kvs ∷ hs) less all =
      let (below, kind) = all.0 in
      let above : r' < o.rank kvs.key = elim kind [
        | inl (_, same) ↦ omega (arith, same)
        | inr (_, more) ↦ omega (arith, more)
      ] in
      ((omega arith, inr ((λ e. omega (arith, e)), above)), Marks-older r r' m marks hs less all.1)

  scan_some-Least :
      (kvs : KeyVals K V) (key : K) (m : ℕ) (marks : List ℕ) (hs : List (Option (KeyVals K V)))
      (c : Ordering)
      → o.cmp key kvs.key ≡ c
      → Least (some key) m marks hs
      → let s' = scan_node (some kvs) (record { min_key = some key; m = m; marks = marks }) in
        Least s'.min_key s'.m s'.marks (hs ++ some kvs ∷ [])
  unfolding scan_node
  scan_some-Least kvs key m marks hs Ordering.gt e l =
      let less : o.rank kvs.key < o.rank key = ground (arith, sym (o.cmp_rank key kvs.key) ∙ e) in
      let s' : Scan K = record {
        min_key = some kvs.key;
        m = m + 1;
        marks = marks ++ (m + 1) ∷ [];
      } in
      let run : scan_node (some kvs) (record { min_key = some key; m = m; marks = marks }) ≡ s' =
        rw (scan_node, e) in
      subst (LeastIn (hs ++ some kvs ∷ [])) (sym run) (
        omega arith,
        IsHead-last hs kvs,
        Marks-append (o.rank kvs.key) (m + 1) marks hs (m + 1) (some kvs)
            (Marks-older (o.rank key) (o.rank kvs.key) m marks hs less l.2)
            (omega arith, inl (refl, refl)),
      )
  scan_some-Least kvs key m marks hs Ordering.eq e l =
      let same : o.rank kvs.key ≡ o.rank key = ground (arith, sym (o.cmp_rank key kvs.key) ∙ e) in
      let s' : Scan K = record { min_key = some key; m = m; marks = marks ++ m ∷ [] } in
      let run : scan_node (some kvs) (record { min_key = some key; m = m; marks = marks }) ≡ s' =
        rw (scan_node, e) in
      subst (LeastIn (hs ++ some kvs ∷ [])) (sym run) (
        l.0,
        IsHead-append key hs (some kvs) l.1,
        Marks-append (o.rank key) m marks hs m (some kvs) l.2 (omega arith, inl (refl, same)),
      )
  scan_some-Least kvs key m marks hs Ordering.lt e l =
      let more : o.rank key < o.rank kvs.key = ground (arith, sym (o.cmp_rank key kvs.key) ∙ e) in
      let s' : Scan K = record { min_key = some key; m = m; marks = marks ++ 0 ∷ [] } in
      let run : scan_node (some kvs) (record { min_key = some key; m = m; marks = marks }) ≡ s' =
        rw (scan_node, e) in
      subst (LeastIn (hs ++ some kvs ∷ [])) (sym run) (
        l.0,
        IsHead-append key hs (some kvs) l.1,
        Marks-append (o.rank key) m marks hs 0 (some kvs) l.2
            (omega arith, inr ((λ z. omega (arith, z, l.0)), more)),
      )

  scan_node-Least :
      (h : Option (KeyVals K V)) (s : Scan K) (hs : List (Option (KeyVals K V)))
      → Least s.min_key s.m s.marks hs
      → let s' = scan_node h s in Least s'.min_key s'.m s'.marks (hs ++ h ∷ [])
  unfolding scan_node
  scan_node-Least h s hs = go h s.min_key s.m s.marks
    where
      go :
          (h : Option (KeyVals K V)) (key : Option K) (m : ℕ) (marks : List ℕ)
          → Least key m marks hs
          → let s' = scan_node h (record { min_key = key; m = m; marks = marks }) in
            Least s'.min_key s'.m s'.marks (hs ++ h ∷ [])
      go none none m marks l = (l.0, AllEnded-append marks hs l.1)
      go none (some key) m marks l =
          (l.0, IsHead-append key hs none l.1, Marks-append (o.rank key) m marks hs 0 none l.2 refl)
      go (some kvs) none m marks l = (
        omega arith,
        IsHead-last hs kvs,
        Marks-append (o.rank kvs.key) (m + 1) marks hs (m + 1) (some kvs)
            (AllEnded-Marks (o.rank kvs.key) (m + 1) marks hs l.1) (omega arith, inl (refl, refl)),
      )
      go (some kvs) (some key) m marks l =
          scan_some-Least kvs key m marks hs (o.cmp key kvs.key) refl l

  scan_nodes-Least_from :
      {N : Type 0} (nodes : List (Node N K V)) (s : Scan K) (hs : List (Option (KeyVals K V)))
      → Least s.min_key s.m s.marks hs
      → let s' = scan_nodes nodes s in Least s'.min_key s'.m s'.marks (hs ++ heads nodes)
  unfolding scan_nodes
  scan_nodes-Least_from [] s hs l = subst (Least s.min_key s.m s.marks) (sym (append-nil hs)) l
  scan_nodes-Least_from (node ∷ nodes) s hs l =
      let s' = scan_nodes nodes (scan_node node.head s) in
      subst (Least s'.min_key s'.m s'.marks) (append_assoc hs (node.head ∷ []) (heads nodes)) (
        scan_nodes-Least_from nodes (scan_node node.head s) (hs ++ node.head ∷ [])
          (scan_node-Least node.head s hs l))

  -- The loop over the collections finds no key where all of them are at their ends, and otherwise
  -- the key of one of their next pairs, of the least rank among them, and the last mark stands at exactly the
  -- collections whose next key has this rank.
  pub scan_nodes-Least :
      {N : Type 0} (nodes : List (Node N K V))
      → let s = scan_nodes nodes no_scan in Least s.min_key s.m s.marks (heads nodes)
  scan_nodes-Least nodes = scan_nodes-Least_from nodes no_scan [] (refl, tt)
