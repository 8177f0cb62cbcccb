-- ===== src/Metis/Arr.antt =====
-- What lib/keyvals_array.c, lib/keyval_array.c and lib/keyvals_len_array.c each write out for their
-- own array type: the array of pairs with its length and its allocated length.
pub mod Room
use mage_artifact_baseline.Common.{
  ℕ, zero, suc, ◌+◌, ◌*◌, ◌%◌, Option, none, some, List, [], ◌∷◌, ◌++◌, ltb, ◌==◌, if◌then◌else◌,
  ◌>>=◌, ◌>>◌, assert, take, drop, u32_mod,
}
use mage_artifact_baseline.Metis.Types.{Arr}

abbrev pub init_array_size : ℕ
init_array_size = 8

module _ {A : Type 0} where
  -- `pch_init`: `memset(coll, 0, sizeof(...))`
  unfoldable pub pch_init : Arr A
  pch_init = record { len = 0; alloc_len = 0; arr = none }

  -- The slots that can be read.
  abbrev pub slots : Option (List A) → List A
  slots none = []
  slots (some xs) = xs

  -- Room for one more pair: a new array, or one of twice the size. (`malloc` and `realloc` give
  -- memory: a failure of `realloc` ends the program by its assertion.)
  unfoldable pub checkfull : Arr A → Arr A
  checkfull arr =
      if arr.alloc_len == 0
      then record arr { alloc_len = init_array_size; arr = some [] }
      else if arr.len == arr.alloc_len
      then record arr { alloc_len = (arr.alloc_len * 2) % u32_mod }
      else arr

  -- `arr->arr[arr->len++] = pair`; a write to NULL or past the end is a fault.
  unfoldable pub push : A → Arr A → Option (Arr A)
  push pair arr = elim (arr.arr) [
    | none ↦ none
    | some xs ↦ do
      assert (ltb arr.len arr.alloc_len)
      some (record arr {
        len = (arr.len + 1) % u32_mod;
        arr = some (take arr.len xs ++ pair ∷ drop (suc arr.len) xs);
      })
  ]

  unfoldable pub pch_set_elems : Arr A → List A → ℕ → Arr A
  pch_set_elems _ elems len = record { len = len; alloc_len = len; arr = some elems }

  -- The array is freed, and `alloc_len` stays as it was.
  unfoldable pub pch_shallow_free : Arr A → Arr A
  pch_shallow_free arr = elim (arr.arr) [ none ↦ arr | some _ ↦ record arr { len = 0; arr = none } ]

  unfoldable pub pch_get_len : Arr A → ℕ
  pch_get_len arr = arr.len

  unfoldable pub pch_get_arr_elems : Arr A → List A
  pch_get_arr_elems arr = slots arr.arr
