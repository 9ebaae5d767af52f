-- ===== src/Storage/Value.antt =====
-- storage/compare.go, storage/model.go and storage/memory/util.go: the dynamic values of a record.
-- A value of the Go type `any` is a text, a boolean, a signed integer of one of three types, a time
-- or nil; float fields, which no schema type declares, are left out. A time is its number of
-- nanoseconds since Go's zero time, so that `IsZero` is a test for 0.
pub mod Laws
use go_dev_auth.Prelude.{
  ℕ, zero, suc, ◌+◌, ◌*◌, ◌/◌, ◌%◌, ◌^◌, String, Bool, true, false, ◌&&◌, ◌||◌, Option, none, some,
  List, ℤ, pos, negsuc, int_eqb, int_ltb, int_leb, ltb, ◌==◌, str_eq, if◌then◌else◌,
}
use go_dev_auth.Prelude.Text.{codes, codes_lt, to_lower, has_prefix, has_suffix, contains}

pub data IntKind : Type 0 where
  int int32 int64 : IntKind

pub data Value : Type 0 where
  null : Value
  text : String → Value
  boolean : Bool → Value
  integer : IntKind → ℤ → Value
  time : ℕ → Value

-- What a clause compares with: a value, or a slice of them.
pub data Operand : Type 0 where
  one : Value → Operand
  many : List Value → Operand

kind_eq : IntKind → IntKind → Bool
kind_eq int int = true
kind_eq int32 int32 = true
kind_eq int64 int64 = true
kind_eq _ _ = false

bool_eq : Bool → Bool → Bool
bool_eq true true = true
bool_eq false false = true
bool_eq _ _ = false

-- Go's `==` on two values of type `any`: the dynamic types and the values agree.
unfoldable pub same : Value → Value → Bool
unfolding kind_eq bool_eq
same null null = true
same (text s) (text t) = str_eq s t
same (boolean a) (boolean b) = bool_eq a b
same (integer k m) (integer l n) = kind_eq k l && int_eqb m n
same (time s) (time t) = s == t
same _ _ = false

-- The rounding of `float64(n)`: 53 bits, ties to even. An int64 needs at most 11 halvings.
exponent : ℕ → ℕ → ℕ
exponent zero n = 0
exponent (suc fuel) n = let rest = suc (exponent fuel (n / 2)) in if ltb n (2 ^ 53) then 0 else rest

round_even : ℕ → ℕ → ℕ → ℕ
round_even q r scale =
    if ltb (2 * r) scale then q else if ltb scale (2 * r) then q + 1 else q + q % 2

float_part : ℕ → ℕ
unfolding exponent round_even
float_part n = let scale = 2 ^ exponent 11 n in round_even (n / scale) (n % scale) scale * scale

abbrev float_of : ℤ → ℤ
unfolding float_part
float_of (pos n) = pos (float_part n)
float_of (negsuc n) = elim (float_part (suc n)) [ zero ↦ pos 0 | suc m ↦ negsuc m ]

-- `toFloat`; a float64 that an integer converts to is the integer that it stands for.
unfoldable pub to_float : Value → Option ℤ
unfolding float_of
to_float (integer k n) = some (float_of n)
to_float null = none
to_float (text s) = none
to_float (boolean b) = none
to_float (time t) = none

float_eq : Option ℤ → Option ℤ → Bool → Bool
float_eq (some a) (some b) otherwise = int_eqb a b
float_eq none b otherwise = otherwise
float_eq (some a) none otherwise = otherwise

-- `equal`: times by instant, integers by their float64, all else by reflect.DeepEqual.
unfoldable pub equal : Value → Value → Bool
unfolding float_eq to_float same
equal a b = float_eq (to_float a) (to_float b) (same a b)

pub data Operator : Type 0 where
  op_default op_eq op_ne op_gt op_gte op_lt op_lte op_in op_contains op_starts_with : Operator
  op_ends_with op_unknown : Operator

compare_times : ℕ → ℕ → Operator → Bool
compare_times a b op_gt = ltb b a
compare_times a b op_gte = ltb b a || a == b
compare_times a b op_lt = ltb a b
compare_times a b op_lte = ltb a b || a == b
compare_times a b _ = false

compare_floats : ℤ → ℤ → Operator → Bool
compare_floats a b op_gt = int_ltb b a
compare_floats a b op_gte = int_leb b a
compare_floats a b op_lt = int_ltb a b
compare_floats a b op_lte = int_leb a b
compare_floats a b _ = false

unfoldable pub compare_texts : String → String → Operator → Bool
unfolding codes_lt
compare_texts s t op_gt = codes_lt (codes t) (codes s)
compare_texts s t op_gte = codes_lt (codes t) (codes s) || str_eq s t
compare_texts s t op_lt = codes_lt (codes s) (codes t)
compare_texts s t op_lte = codes_lt (codes s) (codes t) || str_eq s t
compare_texts s t _ = false

-- `compare`: values of different kinds are not ordered.
unfoldable pub compare : Value → Value → Operator → Bool
unfolding compare_times compare_floats compare_texts float_of
compare (time a) (time b) op = compare_times a b op
compare (integer k a) (integer l b) op = compare_floats (float_of a) (float_of b) op
compare (text s) (text t) op = compare_texts s t op
compare _ _ op = false

-- `strContains`, `strHasPrefix` and `strHasSuffix`
unfoldable pub str_contains : String → String → Bool
unfolding contains
str_contains s sub = contains (to_lower (codes s)) (to_lower (codes sub))

unfoldable pub str_has_prefix : String → String → Bool
unfolding has_prefix
str_has_prefix s p = has_prefix (to_lower (codes s)) (to_lower (codes p))

unfoldable pub str_has_suffix : String → String → Bool
unfolding has_suffix has_prefix
str_has_suffix s suf = has_suffix (to_lower (codes s)) (to_lower (codes suf))

-- `str`
unfoldable pub str : Value → String
str (text s) = s
str null = ""
str (boolean b) = ""
str (integer k n) = ""
str (time t) = ""

-- `indexable`: whether the value may be a key of a unique index.
unfoldable pub indexable : Value → Bool
indexable (text s) = true
indexable (boolean b) = true
indexable (integer k n) = true
indexable null = false
indexable (time t) = false

-- `lessValue`: the order of a sort; an int32 is ordered with nothing.
unfoldable pub less_value : Value → Value → Bool
unfolding codes_lt
less_value (time a) (time b) = ltb a b
less_value (text s) (text t) = codes_lt (codes s) (codes t)
less_value (integer int a) (integer int b) = int_ltb a b
less_value (integer int64 a) (integer int64 b) = int_ltb a b
less_value _ _ = false
