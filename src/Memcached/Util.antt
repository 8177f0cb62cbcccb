-- ===== src/Memcached/Util.antt =====
-- src/util.c: the parsers of numbers around `strtoull` and its kin.
use mage_artifact_baseline.Common.{
  ℕ, Bool, true, false, ◌&&◌, ◌||◌, Option, none, some, List, [], ◌∷◌, leb, ltb, ◌==◌,
  if◌then◌else◌, ◌^◌, ◌+◌, ◌%◌, ◌/◌, zero, suc,
}
use mathlib.Core.Bool.{not}

-- What `strtoull` answers of a string: the value as a 64-bit number, the part after the number
-- (`endptr`), whether `endptr` is not the start, and whether `errno` is ERANGE.
pub record Scan : Type 0 where
  pub value : ℕ
  pub rest : List ℕ
  pub moved : Bool
  pub erange : Bool

-- `isspace` in the C locale: blank, and 9 to 13.
unfoldable pub xisspace : ℕ → Bool
xisspace c = c == 32 || (leb 9 c && leb c 13)

-- `xisspace(*endptr) || (*endptr == '\0' && endptr != str)`
unfoldable pub ends_number : Scan → Bool
unfolding xisspace
ends_number s = elim (s.rest) [ [] ↦ s.moved | c ∷ _ ↦ xisspace c || (c == 0 && s.moved) ]

-- `strchr(str, '-') != NULL`
unfoldable pub has_minus : List ℕ → Bool
has_minus [] = false
has_minus (c ∷ cs) = let rest = has_minus cs in if c == 45 then true else rest

-- A number that would be negative as a signed one is not taken if the string has a minus.
-- `safe_strtoul` cuts the answer to 32 bits.
unfoldable pub safe_strtoull : (List ℕ → Scan) → List ℕ → Option ℕ
unfolding ends_number has_minus
safe_strtoull strtoull str =
    let s = strtoull str in
    if s.erange || not s.moved
    then none
    else if not (ends_number s)
    then none
    else if leb (2 ^ 63) s.value && has_minus str
    then none
    else some s.value

unfoldable pub safe_strtoul : (List ℕ → Scan) → List ℕ → Option ℕ
unfolding ends_number has_minus
safe_strtoul strtoul str =
    let s = strtoul str in
    if s.erange || not s.moved
    then none
    else if not (ends_number s)
    then none
    else if leb (2 ^ 63) s.value && has_minus str
    then none
    else some (s.value % 2 ^ 32)

-- `safe_strtoll` and `safe_strtol`: the value is the bit pattern of the signed number.
unfoldable pub safe_strtoll : (List ℕ → Scan) → List ℕ → Option ℕ
unfolding ends_number
safe_strtoll strtoll str =
    let s = strtoll str in
    if s.erange || not s.moved then none else if ends_number s then some s.value else none

unfoldable pub safe_strtol : (List ℕ → Scan) → List ℕ → Option ℕ
unfolding ends_number
safe_strtol strtol str =
    let s = strtol str in
    if s.erange || not s.moved
    then none
    else if ends_number s
    then some (s.value % 2 ^ 32)
    else none

-- `snprintf(buf, 24, "%llu", value)` for a 64-bit number, which has at most 20 digits.
unfoldable pub digits : ℕ → ℕ → List ℕ → List ℕ
digits zero n acc = acc
digits (suc fuel) n acc =
    let more = digits fuel (n / 10) ((48 + n % 10) ∷ acc) in
    if ltb n 10 then (48 + n) ∷ acc else more

unfoldable pub print_u64 : ℕ → List ℕ
unfolding digits
print_u64 n = digits 20 n []
