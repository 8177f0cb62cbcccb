-- ===== src/Memcached/Slabs/Classes.antt =====
-- src/slabs.c: which class an item of a given size belongs to, and the sizes of the classes.
use mage_artifact_baseline.Common.{
  ℕ, zero, suc, ◌+◌, ◌-◌, ◌≤◌, ◌<◌, ◌≡◌, ◌⊎◌, false, inl, inr, arith, ltb, ltb→lt, ◌==◌, Bool-cases,
}
use native.Mathlib.Decide.{ℕ_discrete}
use mage_artifact_baseline.Memcached.Slabs.{SlabClass, Slabs, clsid_from, slabs_clsid}

-- The chunks of class `c` are the smallest that hold `size` bytes.
pub record Fits (sl : Slabs) (size c : ℕ) : Type 0 where
  pub some_class : 1 ≤ c
  pub largest : c ≤ sl.power_largest
  pub room : size ≤ (sl.slabclass c).size
  pub smallest : (d : ℕ) → 1 ≤ d → d < c → (sl.slabclass d).size < size

-- No class has chunks of that size.
abbrev pub NoClass : Slabs → ℕ → Type 0
NoClass sl size = (d : ℕ) → 1 ≤ d → d ≤ sl.power_largest → (sl.slabclass d).size < size

clsid_from_lem :
    (classes : ℕ → SlabClass) (size res left : ℕ)
    → ((d : ℕ) → 1 ≤ d → d < res → (classes d).size < size)
    → 1 ≤ res
    → ((clsid_from classes size res left ≡ 0)
        × ((d : ℕ) → 1 ≤ d → d ≤ res + left → (classes d).size < size))
      ⊎ ((res ≤ clsid_from classes size res left)
          × (clsid_from classes size res left ≤ res + left)
          × (size ≤ (classes (clsid_from classes size res left)).size)
          × ((d : ℕ) → 1 ≤ d → d < clsid_from classes size res left → (classes d).size < size))
unfolding clsid_from
clsid_from_lem classes size res zero below pos = elim (Bool-cases (ltb (classes res).size size)) [
  | inl small ↦ inl (
    rw small,
    λ d one le. elim (ℕ_discrete d res) [
      | yes e ↦ rw e (ltb→lt (classes res).size size small)
      | no other ↦ below d one (omega arith)
    ],
  )
  | inr large ↦ inr (rw large (omega arith, omega arith, ground (arith, large), below))
]
clsid_from_lem classes size res (suc left) below pos =
    elim (Bool-cases (ltb (classes res).size size)) [
      | inl small ↦
          let next =
            clsid_from_lem classes size (res + 1) left
              (λ d one lt. elim (ℕ_discrete d res) [
                | yes e ↦ rw e (ltb→lt (classes res).size size small)
                | no other ↦ below d one (omega arith)
              ])
              (omega arith) in
          rw small (elim next [
            | inl (e, all) ↦ inl (e, λ d one le. all d one (omega arith))
            | inr (lo, hi, room, least) ↦ inr (omega arith, omega arith, room, least)
          ])
      | inr large ↦ inr (rw large (omega arith, omega arith, ground (arith, large), below))
    ]

-- An item of some bytes goes to the class with the smallest chunks that hold it; the answer is 0
-- exactly where there is none.
pub slabs_clsid-Fits :
    (size : ℕ) (sl : Slabs)
    → 0 < size
    → 1 ≤ sl.power_largest
    → ((slabs_clsid size sl ≡ 0) × NoClass sl size) ⊎ Fits sl size (slabs_clsid size sl)
unfolding slabs_clsid
slabs_clsid-Fits size sl pos some_class =
    let not_zero : (size == 0) ≡ false = ground arith in
    rw not_zero
      (elim (clsid_from_lem sl.slabclass size 1 (sl.power_largest - 1)
        (λ d one lt. absurd (omega arith)) (omega arith)) [
          | inl (e, all) ↦ inl (e, λ d one le. all d one (omega arith))
          | inr (lo, hi, room, least) ↦
              inr record { some_class = lo; largest = omega arith; room = room; smallest = least }
        ])
