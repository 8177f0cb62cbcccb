-- ===== src/Metis/Kvstore/Passing.antt =====
-- lib/kvstore.c: which numbers of reduce tasks pass the test for a prime.
use mage_artifact_baseline.Common.{
  ap, ◌∙◌, ◌^◌, subst, Returns, u64_mod, ℕ, zero, suc, ◌+◌, ◌*◌, ◌%◌, ◌≤◌, ◌<◌, ◌≡◌, ◌≢◌, ◌↔◌, refl,
  true, false, inl, inr, arith, ltb, ◌==◌, Bool-cases, ltb→lt,
}
use native.Mathlib.Decide.{dec_lt}
use mage_artifact_baseline.Metis.Kvstore.{passes, next_passing}

-- No number from `q` on whose square is less than `n` divides `n`.
abbrev pub NoDivisor : ℕ → ℕ → Type 0
NoDivisor q n = (d : ℕ) → q ≤ d → d * d < n → n % d ≢ 0

square-le : (a b : ℕ) → a ≤ b → a * a ≤ b * b
square-le a b le = grind arith

le_of_ltb : (a b : ℕ) → ltb a b ≡ false → b ≤ a
le_of_ltb a b h = ground arith

square_ge : (d : ℕ) → 0 < d → d ≤ d * d
square_ge zero h = elim h [ ]
square_ge (suc d) h = grind arith

passes_sound : (fuel q n : ℕ) → n < fuel + q → passes fuel q n ≡ true → NoDivisor q n
unfolding passes
passes_sound zero q n enough p d le small divides =
    let one_le : d ≤ d * d = square_ge d (omega arith) in omega arith
passes_sound (suc fuel) q n enough p d le small divides = elim (Bool-cases (ltb (q * q) n)) [
  | inr large ↦ omega (arith, square-le q d le, le_of_ltb (q * q) n large)
  | inl more ↦ elim (Bool-cases (n % q == 0)) [
    | inl here ↦ ground (arith, p, more, here)
    | inr other ↦
        let rest : passes fuel (q + 1) n ≡ true = rw (more, other) at p in
        elim (dec_lt q d) [
          | no not_above ↦
              let same : d ≡ q = omega arith in
              let divides' : n % q ≡ 0 = rw same at divides in ground (arith, other, divides')
          | yes above ↦ passes_sound fuel (q + 1) n (omega arith) rest d (omega arith) small divides
        ]
  ]
]

passes_complete : (fuel q n : ℕ) → NoDivisor q n → passes fuel q n ≡ true
unfolding passes
passes_complete zero q n none_divides = refl
passes_complete (suc fuel) q n none_divides =
    let rest = passes_complete fuel (q + 1) n (λ d le. none_divides d (omega arith)) in
    elim (Bool-cases (ltb (q * q) n)) [
      | inl small ↦
          let no = none_divides q (omega arith) (ltb→lt (q * q) n small) in
          let other : (n % q == 0) ≡ false = ground (arith, no) in rw (small, other) rest
      | inr large ↦ rw large
    ]

-- The test passes a number exactly if none of 2, 3, ... whose square is less than it divides it.
-- The square itself is left out, so that the square of a prime passes.
pub passes-NoDivisor : (n : ℕ) → (passes n 2 n ≡ true) ↔ NoDivisor 2 n
passes-NoDivisor n = (passes_sound n 2 n (omega arith), passes_complete n 2 n)

-- `p` passes, and no number from `n` on that is less than it does.
abbrev pub Next : ℕ → ℕ → Type 0
Next n p = (n ≤ p) × NoDivisor 2 p × ((q : ℕ) → n ≤ q → q < p → ¬ NoDivisor 2 q)

not_below : (n m : ℕ) → n ≤ m → m < n → ⊥
not_below n m le lt = omega arith

mod-small : (n : ℕ) → n < 2 ^ 64 → n % u64_mod ≡ n
mod-small n small = omega arith

next_passing-false :
    (fuel n : ℕ)
    → passes n 2 n ≡ false
    → n + 1 < 2 ^ 64
    → next_passing (suc fuel) n ≡ next_passing fuel (n + 1)
unfolding next_passing
next_passing-false fuel n fails small =
    rw (fails, next_passing) (ap (next_passing fuel) (mod-small (n + 1) small))

Next-suc : (n p : ℕ) → ¬ NoDivisor 2 n → Next (n + 1) p → Next n p
Next-suc n p fails (from, all, least) = (
  omega arith,
  all,
  λ q at_least below. elim (dec_lt n q) [
    | yes lt ↦ least q (omega arith) below
    | no not_above ↦ let same : n ≡ q = omega arith in subst (λ k. ¬ NoDivisor 2 k) same fails
  ],
)

-- The search for the number of reduce tasks finds the first number from its start on that passes,
-- and ends within as many rounds as there are numbers from the start to any number below 2 ^ 64
-- that passes.
pub next_passing-Next :
    (fuel n m : ℕ)
    → n ≤ m
    → m < 2 ^ 64
    → m < fuel + n
    → NoDivisor 2 m
    → Returns (next_passing fuel n) λ p. (p ≤ m) × Next n p
unfolding next_passing
next_passing-Next zero n m le small enough prime =
    elim (not_below n m le (omega (arith, enough))) [ ]
next_passing-Next (suc fuel) n m le small enough prime = elim (Bool-cases (passes n 2 n)) [
  | inl yes' ↦ (
    n,
    rw (yes', next_passing),
    (
      le,
      (
        omega arith,
        (passes-NoDivisor n).0 yes',
        λ q at_least below. elim (not_below n q at_least below) [ ],
      ),
    ),
  )
  | inr no' ↦
      let fails : ¬ NoDivisor 2 n = λ all. ground (arith, no', (passes-NoDivisor n).1 all) in
      let above : n + 1 ≤ m = elim (dec_lt n m) [
        | yes lt ↦ omega arith
        | no stays ↦
            let same : m ≡ n = omega arith in elim (fails (subst (NoDivisor 2) same prime)) [ ]
      ] in
      let (p, run, (to, next)) = next_passing-Next fuel (n + 1) m above small (omega arith) prime in
      (p, next_passing-false fuel n no' (omega arith) ∙ run, (to, Next-suc n p fails next))
]
