-- ===== src/Metis/Arr/Room.antt =====
-- The arrays of pairs grow before they are full.
use mage_artifact_baseline.Common.{
  ℕ, zero, suc, ◌+◌, ◌^◌, ◌≤◌, ◌<◌, ◌≡◌, refl, ap, ◌∙◌, Option, none, some, List, [], ◌∷◌, ◌++◌,
  arith, u32_mod, length, Returns, take, drop, length-append,
}
use mage_artifact_baseline.Metis.Types.{Arr}
use mage_artifact_baseline.Metis.Arr.{slots, checkfull, push}

module _ {A : Type 0} where
  -- Either no array was allocated, or one whose written slots are the pairs of the array.
  abbrev pub Fits : Option (List A) → ℕ → ℕ → Type 0
  Fits none len alloc_len = (len ≡ 0) × (alloc_len ≡ 0)
  Fits (some xs) len alloc_len = (len ≡ length xs) × (len ≤ alloc_len) × (alloc_len < u32_mod)

  abbrev pub IsArr : Arr A → Type 0
  IsArr arr = Fits arr.arr arr.len arr.alloc_len

  abbrev pub contents : Arr A → List A
  contents arr = slots arr.arr

  pub len-contents : (arr : Arr A) → IsArr arr → arr.len ≡ length (contents arr)
  len-contents arr = go arr.arr arr.len arr.alloc_len
    where
      go : (o : Option (List A)) (len alloc_len : ℕ) → Fits o len alloc_len → len ≡ length (slots o)
      go none len alloc_len h = h.0
      go (some xs) len alloc_len h = h.0

  -- `checkfull` makes room, and keeps the pairs.
  pub record Roomy (arr arr' : Arr A) : Type 0 where
    pub some_block : arr'.arr ≡ some (contents arr)
    pub same_len : arr'.len ≡ arr.len
    pub room : arr'.len < arr'.alloc_len
    pub small : arr'.alloc_len < u32_mod

  pub checkfull-Roomy : (arr : Arr A) → IsArr arr → arr.len < 2 ^ 31 → Roomy arr (checkfull arr)
  unfolding checkfull
  checkfull-Roomy arr = go arr.arr arr.len arr.alloc_len
    where
      go :
          (o : Option (List A)) (len alloc_len : ℕ)
          → Fits o len alloc_len
          → len < 2 ^ 31
          → let arr : Arr A = record { arr = o; len = len; alloc_len = alloc_len } in
            Roomy arr (checkfull arr)
      go none len alloc_len h small = record {
        some_block = ground arith;
        same_len = ground arith;
        room = ground arith;
        small = ground arith;
      }
      go (some []) len alloc_len h small = record {
        some_block = ground arith;
        same_len = ground arith;
        room = ground arith;
        small = ground arith;
      }
      go (some (x ∷ xs)) len alloc_len h small = record {
        some_block = ground arith;
        same_len = ground arith;
        room = ground arith;
        small = ground arith;
      }

  take-all-push :
      (n : ℕ) (x : A) (xs : List A)
      → n ≡ length xs
      → take n xs ++ x ∷ drop (suc n) xs ≡ xs ++ x ∷ []
  take-all-push zero x [] e = refl
  take-all-push zero x (y ∷ ys) e = absurd (omega arith)
  take-all-push (suc n) x [] e = absurd (omega arith)
  take-all-push (suc n) x (y ∷ ys) e = ap (λ t. y ∷ t) (take-all-push n x ys (omega arith))

  -- On an array with its invariant, making room and storing a pair does not fault, and appends it.
  pub push-checkfull :
      (x : A) (arr : Arr A)
      → IsArr arr
      → arr.len < 2 ^ 31
      → Returns
          (push x (checkfull arr))
          λ arr'. IsArr arr' × (contents arr' ≡ contents arr ++ x ∷ [])
  unfolding push
  push-checkfull x arr h small =
      let r = checkfull-Roomy arr h small in
      let n = len-contents arr h in
      let stored = take-all-push (checkfull arr).len x (contents arr) (r.same_len ∙ n) in
      (
        record {
          len = arr.len + 1;
          alloc_len = (checkfull arr).alloc_len;
          arr = some (contents arr ++ x ∷ []);
        },
        ground (arith, r.some_block, r.same_len, r.room, stored),
        (
          (
            omega (arith, n, length-append (contents arr) (x ∷ [])),
            omega (arith, r.room, r.same_len),
            r.small,
          ),
          refl,
        ),
      )
