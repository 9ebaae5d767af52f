-- ===== src/Prelude/Decimal.antt =====
-- strconv.Itoa, strconv.Atoi and strings.Cut, on texts.
use Prim.Native.Char.{Char, code}
use Prim.Native.String.{String, ◌++◌}
use Prim.Native.Nat.{ℕ, zero, suc, ◌+◌, ◌*◌, ◌-◌, ◌/◌, ◌%◌, ◌^◌, ◌<◌, ◌≤◌}
use mathlib.Core.Path.{◌≡◌, refl, ap, sym, ◌∙◌}
use mathlib.Core.Logic.{◌≢◌, inl, inr}
use mathlib.Core.Bool.{Bool, true, false, ◌&&◌}
use mathlib.Core.Option.{Option, none, some}
use native.Mathlib.Omega.{arith}
use native.Mathlib.Nat.{pow-suc}
use text.Mathlib.TextLemmas.{nil-append, cons-append, cons-ne-nil}
use go_dev_auth.Prelude.Tests.{ltb, leb, ◌==◌, lt→ltb, Bool-cases, if◌then◌else◌}
use go_dev_auth.Prelude.Lists.{length, All}
use go_dev_auth.Prelude.Text.{codes}
use go_dev_auth.Prelude.Int.{ℤ, pos, negsuc}

abbrev pub digit : ℕ → Char
digit d =
    if d == 0
    then "0"
    else if d == 1
    then "1"
    else if d == 2
    then "2"
    else if d == 3
    then "3"
    else if d == 4
    then "4"
    else if d == 5
    then "5"
    else if d == 6
    then "6"
    else if d == 7
    then "7"
    else if d == 8
    then "8"
    else "9"

-- The decimal digits of a number, in front of a text; the first argument bounds how many.
unfoldable pub digits : ℕ → ℕ → String → String
digits zero n rest = rest
digits (suc fuel) n rest =
    let longer = digits fuel (n / 10) (String.◌∷◌ (digit (n % 10)) rest) in
    if ltb n 10 then String.◌∷◌ (digit n) rest else longer

-- An int has 19 digits at most.
unfoldable pub itoa : ℤ → String
unfolding digits
itoa (pos n) = digits 20 n ""
itoa (negsuc n) = "-" ++ digits 20 (suc n) ""

-- ParseUint: what does not fit into 64 bits stops the scan at the largest value.
unfoldable pub parse_uint : String → ℕ → Option ℕ
parse_uint String.[] n = some n
parse_uint (String.◌∷◌ c s) n =
    let next = 10 * n + (code c - b'0') in
    let rest = parse_uint s next in
    if leb b'0' (code c) && leb (code c) b'9'
    then (if ltb next (2 ^ 64) then rest else some (2 ^ 64 - 1))
    else none

-- The value that `n, _ := strconv.Atoi(s)` leaves in `n`: 0 for no number, the nearest int if the
-- number is out of range.
magnitude : String → Option ℕ
unfolding parse_uint
magnitude String.[] = none
magnitude (String.◌∷◌ c s) = parse_uint (String.◌∷◌ c s) 0

clamp_pos : Option ℕ → ℤ
clamp_pos none = pos 0
clamp_pos (some n) = if ltb n (2 ^ 63) then pos n else pos (2 ^ 63 - 1)

clamp_neg : Option ℕ → ℤ
clamp_neg none = pos 0
clamp_neg (some zero) = pos 0
clamp_neg (some (suc n)) = if ltb n (2 ^ 63) then negsuc n else negsuc (2 ^ 63 - 1)

unfoldable pub atoi : String → ℤ
unfolding magnitude clamp_pos clamp_neg
atoi String.[] = pos 0
atoi (String.◌∷◌ c s) =
    if code c == b'-'
    then clamp_neg (magnitude s)
    else if code c == b'+'
    then clamp_pos (magnitude s)
    else clamp_pos (magnitude (String.◌∷◌ c s))

-- `strconv.ParseInt(s, 10, 64)`: none stands for an error.
int_pos : Option ℕ → Option ℤ
int_pos none = none
int_pos (some n) = if ltb n (2 ^ 63) then some (pos n) else none

int_neg : Option ℕ → Option ℤ
int_neg none = none
int_neg (some zero) = some (pos 0)
int_neg (some (suc n)) = if ltb n (2 ^ 63) then some (negsuc n) else none

unfoldable pub parse_int : String → Option ℤ
unfolding magnitude int_pos int_neg
parse_int String.[] = none
parse_int (String.◌∷◌ c s) =
    if code c == b'-'
    then int_neg (magnitude s)
    else if code c == b'+'
    then int_pos (magnitude s)
    else int_pos (magnitude (String.◌∷◌ c s))

-- `strings.Cut` at one character: what stands in front of the first one, and behind it.
unfoldable pub cut : ℕ → String → Option (String × String)
cut sep String.[] = none
cut sep (String.◌∷◌ c s) =
    let rest = cut sep s in
    if code c == sep
    then some ("", s)
    else elim rest [ none ↦ none | some (front, back) ↦ some (String.◌∷◌ c front, back) ]

unfoldable pub has_code : ℕ → String → Bool
has_code k String.[] = false
has_code k (String.◌∷◌ c s) = if code c == k then true else has_code k s

digit_lem : (d : ℕ) → d < 10 → code (digit d) ≡ b'0' + d
digit_lem zero h = refl
digit_lem (suc zero) h = refl
digit_lem (suc (suc zero)) h = refl
digit_lem (suc (suc (suc zero))) h = refl
digit_lem (suc (suc (suc (suc zero)))) h = refl
digit_lem (suc (suc (suc (suc (suc zero))))) h = refl
digit_lem (suc (suc (suc (suc (suc (suc zero)))))) h = refl
digit_lem (suc (suc (suc (suc (suc (suc (suc zero))))))) h = refl
digit_lem (suc (suc (suc (suc (suc (suc (suc (suc zero)))))))) h = refl
digit_lem (suc (suc (suc (suc (suc (suc (suc (suc (suc zero))))))))) h = refl
digit_lem (suc (suc (suc (suc (suc (suc (suc (suc (suc (suc d)))))))))) h = absurd (omega arith)

parse_uint-digit :
    (d n : ℕ) (s : String)
    → d < 10
    → 10 * n + d < 2 ^ 64
    → parse_uint (String.◌∷◌ (digit d) s) n ≡ parse_uint s (10 * n + d)
unfolding parse_uint
parse_uint-digit d n s h fits = ground (arith, digit_lem d h)

small : (fuel n : ℕ) → n < 10 ^ suc fuel → n / 10 < 10 ^ fuel
small fuel n h = let e = pow-suc 10 fuel in omega arith

more_digits : (fuel n : ℕ) → n < 10 ^ suc fuel → 10 ≤ n → 0 < fuel
more_digits zero n h big = absurd (omega arith)
more_digits (suc fuel) n h big = omega arith

-- Enough digits are read back, in front of any text.
parse_uint-digits :
    (fuel n : ℕ) (s : String)
    → n < 10 ^ fuel
    → 0 < fuel
    → n < 2 ^ 64
    → parse_uint (digits fuel n s) 0 ≡ parse_uint s n
unfolding digits
parse_uint-digits zero n s h more fits = absurd (omega arith)
parse_uint-digits (suc fuel) n s h more fits = elim (Bool-cases (ltb n 10)) [
  | inl e ↦
      rw e (parse_uint-digit n 0 s (ground arith) (omega arith) ∙ ap (parse_uint s) (omega arith))
  | inr e ↦ rw e (
      parse_uint-digits fuel (n / 10) (String.◌∷◌ (digit (n % 10)) s) (small fuel n h)
        (more_digits fuel n h (ground arith)) (omega arith)
      ∙ parse_uint-digit (n % 10) (n / 10) s (omega arith) (omega arith)
      ∙ ap (parse_uint s) (omega arith))
]

-- The text of a number starts with a digit.
digits-head :
    (fuel n : ℕ) (rest : String)
    → (d : ℕ) × (tail : String) × (d < 10) × (digits (suc fuel) n rest ≡ String.◌∷◌ (digit d) tail)
unfolding digits
digits-head zero n rest = elim (Bool-cases (ltb n 10)) [
  | inl e ↦ (n, rest, ground arith, rw e refl)
  | inr e ↦ (n % 10, rest, omega arith, rw e refl)
]
digits-head (suc fuel) n rest = elim (Bool-cases (ltb n 10)) [
  | inl e ↦ (n, rest, ground arith, rw e refl)
  | inr e ↦
      let (d, tail, small_d, f) = digits-head fuel (n / 10) (String.◌∷◌ (digit (n % 10)) rest) in
      (d, tail, small_d, rw e f)
]

atoi-digit :
    (d : ℕ) (tail : String)
    → d < 10
    → atoi (String.◌∷◌ (digit d) tail) ≡ clamp_pos (parse_uint (String.◌∷◌ (digit d) tail) 0)
unfolding atoi magnitude
atoi-digit d tail h = ground (arith, digit_lem d h)

-- What is printed is read back.
pub atoi-itoa : (n : ℕ) → n < 2 ^ 63 → atoi (itoa (pos n)) ≡ pos n
unfolding itoa clamp_pos parse_uint
atoi-itoa n h =
    let (d, tail, small_d, e) = digits-head 19 n "" in
    ap atoi e
    ∙ atoi-digit d tail small_d
    ∙ ap (λ s. clamp_pos (parse_uint s 0)) (sym e)
    ∙ ap clamp_pos (parse_uint-digits 20 n "" (omega arith) (omega arith) (omega arith))
    ∙ ground arith

parse_int-digit :
    (d : ℕ) (tail : String)
    → d < 10
    → parse_int (String.◌∷◌ (digit d) tail) ≡ int_pos (parse_uint (String.◌∷◌ (digit d) tail) 0)
unfolding parse_int magnitude
parse_int-digit d tail h = ground (arith, digit_lem d h)

pub parse_int-itoa : (n : ℕ) → n < 2 ^ 63 → parse_int (itoa (pos n)) ≡ some (pos n)
unfolding itoa int_pos parse_uint
parse_int-itoa n h =
    let (d, tail, small_d, e) = digits-head 19 n "" in
    ap parse_int e
    ∙ parse_int-digit d tail small_d
    ∙ ap (λ s. int_pos (parse_uint s 0)) (sym e)
    ∙ ap int_pos (parse_uint-digits 20 n "" (omega arith) (omega arith) (omega arith))
    ∙ rw (lt→ltb n (2 ^ 63) h) refl

-- A printed number has no separator in it.
has_code-digits :
    (sep fuel n : ℕ) (rest : String)
    → b'9' < sep
    → has_code sep (digits fuel n rest) ≡ has_code sep rest
unfolding digits has_code
has_code-digits sep zero n rest h = refl
has_code-digits sep (suc fuel) n rest h = elim (Bool-cases (ltb n 10)) [
  | inl e ↦ rw e (let f = digit_lem n (ground arith) in ground arith)
  | inr e ↦ rw e (
      has_code-digits sep fuel (n / 10) (String.◌∷◌ (digit (n % 10)) rest) h
      ∙ (let f = digit_lem (n % 10) (omega arith) in ground arith))
]

pub has_code-itoa : (sep n : ℕ) → b'9' < sep → has_code sep (itoa (pos n)) ≡ false
unfolding itoa has_code
has_code-itoa sep n h = has_code-digits sep 20 n "" h

-- The length of a printed number, and its characters.
pub digits-length :
    (fuel n k : ℕ) (rest : String)
    → n < 10 ^ suc k
    → length (codes (digits fuel n rest)) ≤ suc k + length (codes rest)
unfolding digits
digits-length zero n k rest h = omega arith
digits-length (suc fuel) n zero rest h = rw (lt→ltb n 10 (omega arith)) (omega arith)
digits-length (suc fuel) n (suc k) rest h = elim (Bool-cases (ltb n 10)) [
  | inl e ↦ rw e (omega arith)
  | inr e ↦ rw e (
      omega (
        arith,
        digits-length fuel (n / 10) k (String.◌∷◌ (digit (n % 10)) rest) (small (suc k) n h),
      ))
]

abbrev pub IsDigit : ℕ → Type 0
IsDigit c = (b'0' ≤ c) × (c ≤ b'9')

digit-IsDigit : (d : ℕ) → d < 10 → IsDigit (code (digit d))
digit-IsDigit d h = let e = digit_lem d h in (omega arith, omega arith)

pub digits-IsDigit :
    (fuel n : ℕ) (rest : String)
    → All IsDigit (codes rest)
    → All IsDigit (codes (digits fuel n rest))
unfolding digits
digits-IsDigit zero n rest h = h
digits-IsDigit (suc fuel) n rest h = elim (Bool-cases (ltb n 10)) [
  | inl e ↦ rw e (digit-IsDigit n (ground arith), h)
  | inr e ↦ rw e (
      digits-IsDigit fuel (n / 10) (String.◌∷◌ (digit (n % 10)) rest)
        (digit-IsDigit (n % 10) (omega arith), h))
]

-- A text that is cut is not empty.
pub cut-ne_nil :
    (sep : ℕ) (s : String) {parts : String × String}
    → cut sep s ≡ some parts
    → ◌≢◌ {A = String} s ""
unfolding cut
cut-ne_nil sep String.[] e = absurd (cc)
cut-ne_nil sep (String.◌∷◌ c s) e = cons-ne-nil c s

-- A text is cut at the separator behind a front that has none.
pub cut-append :
    (sep : Char) (front back : String)
    → has_code (code sep) front ≡ false
    → cut (code sep) (front ++ String.◌∷◌ sep back) ≡ some (front, back)
unfolding cut has_code
cut-append sep String.[] back h = rw (nil-append (String.◌∷◌ sep back)) (ground arith)
cut-append sep (String.◌∷◌ c front) back h =
    rw (cons-append c front (String.◌∷◌ sep back)) (ground (arith, cut-append sep front back))
