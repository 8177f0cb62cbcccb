-- ===== src/Memcached/Tokens.antt =====
-- src/memcached.c: the words of a command line.
use mathlib.Core.Bool.{not}
use mathlib.Core.List.{append-nil, append_assoc}
use mage_artifact_baseline.Common.{
  ℕ, ◌-◌, ◌≤◌, ◌<◌, ◌≡◌, ◌≢◌, refl, sym, ap, ◌∙◌, Bool, true, false, Option, none, some, List, [],
  ◌∷◌, ◌++◌, arith, leb, length, ◌==◌, if◌then◌else◌, ◌>>◌, assert,
}

-- The tokens that have a length, and the terminal one: the part of the line that is not read, or
-- NULL where there is none.
abbrev pub Tokens : Type 0
Tokens = List (List ℕ) × Option (List ℕ)

abbrev pub is_empty : List ℕ → Bool
is_empty [] = true
is_empty (c ∷ cs) = false

abbrev pub with_token : List ℕ → Tokens → Tokens
with_token token (tokens, rest) = (token ∷ tokens, rest)

-- The loop of `tokenize_command`: `s` to `e` is `word`, and `left` tokens may still come.
unfoldable pub tokenize : ℕ → List ℕ → List ℕ → Tokens
tokenize left word [] = (if is_empty word then [] else word ∷ [], none)
tokenize left word (c ∷ cs) =
    let blank = tokenize left [] cs in
    let next = tokenize (left - 1) [] cs in
    let longer = tokenize left (word ++ c ∷ []) cs in
    if not (c == 32)
    then longer
    else if is_empty word
    then blank
    else if left == 1
    then (word ∷ [], if is_empty cs then none else some cs)
    else with_token word next

unfoldable pub tokenize_command : List ℕ → ℕ → Option Tokens
unfolding tokenize
tokenize_command command max_tokens = do
  assert (leb 2 max_tokens)
  some (tokenize (max_tokens - 1) [] command)

-- A word has a letter, and no blank.
abbrev pub NoBlank : List ℕ → Type 0
NoBlank [] = Unit
NoBlank (c ∷ cs) = (c ≢ 32) × NoBlank cs

abbrev pub AllWords : List (List ℕ) → Type 0
AllWords [] = Unit
AllWords (w ∷ ws) = (w ≢ []) × NoBlank w × AllWords ws

-- The words with one blank between two of them.
abbrev pub join_words : List (List ℕ) → List ℕ
join_words [] = []
join_words (w ∷ []) = w
join_words (w ∷ v ∷ ws) = w ++ 32 ∷ join_words (v ∷ ws)

tokenize-word :
    (left : ℕ) (word w cs : List ℕ)
    → NoBlank w
    → tokenize left word (w ++ cs) ≡ tokenize left (word ++ w) cs
unfolding tokenize
tokenize-word left word [] cs bare = ap (λ v. tokenize left v cs) (sym (append-nil word))
tokenize-word left word (c ∷ w) cs (bare, more) =
    let letter : (c == 32) ≡ false = ground (arith, bare) in
    rw letter (
      tokenize-word left (word ++ c ∷ []) w cs more
      ∙ ap (λ v. tokenize left v cs) (append_assoc word (c ∷ []) w))

is_empty-word : (w : List ℕ) → w ≢ [] → is_empty w ≡ false
is_empty-word [] some_letter = absurd (some_letter refl)
is_empty-word (c ∷ cs) some_letter = refl

tokenize-join_words :
    (ws : List (List ℕ)) (left : ℕ)
    → AllWords ws
    → 1 ≤ left
    → length ws ≤ left
    → tokenize left [] (join_words ws) ≡ (ws, none)
unfolding tokenize
tokenize-join_words [] left all pos few = refl
tokenize-join_words (w ∷ []) left (some_letter, bare, all) pos few =
    ap (tokenize left []) (sym (append-nil w))
    ∙ tokenize-word left [] w [] bare
    ∙ rw (is_empty-word w some_letter) refl
tokenize-join_words (w ∷ v ∷ ws) left (some_letter, bare, all) pos few =
    let more : (left == 1) ≡ false = ground (arith, few) in
    tokenize-word left [] w (32 ∷ join_words (v ∷ ws)) bare
    ∙ rw (is_empty-word w some_letter, more)
        (ap (with_token w)
          (tokenize-join_words (v ∷ ws) (left - 1) all (omega (arith, few)) (omega (arith, few))))

-- A line of words with single blanks between them is taken apart into exactly these words, and
-- nothing is left, where there are fewer words than `max_tokens`.
pub tokenize_command-join_words :
    (ws : List (List ℕ)) (max_tokens : ℕ)
    → AllWords ws
    → 2 ≤ max_tokens
    → length ws < max_tokens
    → tokenize_command (join_words ws) max_tokens ≡ some (ws, none)
unfolding tokenize_command
tokenize_command-join_words ws max_tokens all two few =
    let enough : leb 2 max_tokens ≡ true = ground arith in
    rw enough (ap some (tokenize-join_words ws (max_tokens - 1) all (omega arith) (omega arith)))
