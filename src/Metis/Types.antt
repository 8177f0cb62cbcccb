-- ===== src/Metis/Types.antt =====
-- lib/mr-types.h: the pairs, the arrays of pairs and the application's argument.
use mage_artifact_baseline.Common.{ℕ, Bool, Option, List}

-- `app_type_t`
pub data AppType : Type 0 where
  maponly : AppType
  mapgroup : AppType
  mapreduce : AppType

-- What `void **vals` of a `keyvals_t` holds: NULL, an allocated array with its initialised slots,
-- or, where the application has a value modifier, the one value that the modifier returned.
pub data Vals (V : Type 0) : Type 0 where
  null : Vals V
  buffer : List V → Vals V
  modified : V → Vals V

-- The fields `vals`, `len` and `alloc_len` of `keyvals_t`.
pub record Values (V : Type 0) : Type 0 where
  pub vals : Vals V
  pub len : ℕ
  pub alloc_len : ℕ

-- `keyvals_t`
pub record KeyVals (K V : Type 0) : Type 0 where
  pub key : K
  pub values : Values V
  pub hash : ℕ

-- `keyval_t`
pub record KeyVal (K V : Type 0) : Type 0 where
  pub key : K
  pub val : V
  pub hash : ℕ

-- `keyvals_len_t`
pub record KeyValsLen (K V : Type 0) : Type 0 where
  pub key : K
  pub vals : Vals V
  pub len : ℕ

-- `keyval_arr_t`, `keyvals_arr_t` and `keyvals_len_arr_t`. `arr` is none for NULL, and otherwise
-- the slots of the block that have been written; the block has room for `alloc_len`.
pub record Arr (A : Type 0) : Type 0 where
  pub len : ℕ
  pub alloc_len : ℕ
  pub arr : Option (List A)

-- `app_arg_t`, as far as the library reads it, with `keycopy` of `mr_param_t`. A function that the
-- application does not give is none. A combiner rewrites the array of values in place and returns
-- the number of values that are left. What a reducer emits is the list that it returns.
pub record App (K V : Type 0) : Type 0 where
  pub atype : AppType
  pub vm : Option (Option V → V → Bool → V)
  pub combiner : Option (K → List V → ℕ → List V × ℕ)
  pub reduce_func : K → List V → ℕ → List (K × V)
  pub keycopy : Option (K → ℕ → K)
