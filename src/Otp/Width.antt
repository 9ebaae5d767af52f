-- ===== src/Otp/Width.antt =====
-- What the text of a one-time password looks like.
use native.Mathlib.Nat.{pow-suc, mod-lt, one-le-pow}
use go_dev_auth.Prelude.{
  ℕ, zero, suc, ◌+◌, ◌-◌, ◌*◌, ◌%◌, ◌^◌, ◌<◌, ◌≡◌, refl, ap, sym, subst, ◌∙◌, String, Option, some,
  List, [], length, All, arith,
}
use go_dev_auth.Prelude.Text.{codes}
use go_dev_auth.Prelude.Decimal.{itoa, digits, digits-length, digits-IsDigit, IsDigit}
use go_dev_auth.Otp.{modulus, zeros, padded, hotp, truncated, big_endian}

zeros-length : (n : ℕ) (s : String) → length (codes (zeros n s)) ≡ n + length (codes s)
unfolding zeros
zeros-length zero s = omega arith
zeros-length (suc n) s = omega (arith, zeros-length n s)

zeros-IsDigit : (n : ℕ) (s : String) → All IsDigit (codes s) → All IsDigit (codes (zeros n s))
unfolding zeros
zeros-IsDigit zero s h = h
zeros-IsDigit (suc n) s h = ((omega arith, omega arith), zeros-IsDigit n s h)

padded-length : (k n : ℕ) → n < 10 ^ suc k → length (codes (padded (suc k) n)) ≡ suc k
unfolding padded itoa
padded-length k n h = omega (
  arith,
  digits-length 20 n k "" h,
  zeros-length (suc k - length (codes (digits 20 n ""))) (digits 20 n ""),
)

padded-IsDigit : (k n : ℕ) → All IsDigit (codes (padded k n))
unfolding padded itoa
padded-IsDigit k n =
    zeros-IsDigit (k - length (codes (digits 20 n ""))) (digits 20 n "") (digits-IsDigit 20 n "" tt)

modulus_lem : (k : ℕ) → 10 ^ k < 2 ^ 32 → modulus k ≡ 10 ^ k
unfolding modulus
modulus_lem zero h = refl
modulus_lem (suc k) h =
    let e = pow-suc 10 k in
    let f = modulus_lem k (omega arith) in ap (λ m. m * 10 % 2 ^ 32) f ∙ omega arith

-- For a secret that decodes, and a number of digits from 1 up to what a uint32 holds, the password
-- has exactly that many characters, and each of them is a decimal digit.
pub hotp-length :
    (decode : String → Option (List ℕ)) (mac : List ℕ → List ℕ → List ℕ) (k : ℕ) (secret : String)
    (key : List ℕ) (counter : ℕ)
    → 10 ^ suc k < 2 ^ 32
    → decode secret ≡ some key
    → (s : String) × (hotp decode mac (suc k) secret counter ≡ some s)
      × (length (codes s) ≡ suc k)
      × All IsDigit (codes s)
unfolding hotp
hotp-length decode mac k secret key counter small e =
    let n = truncated (mac key (big_endian 8 counter [])) % modulus (suc k) in
    let below : n < 10 ^ suc k =
      subst (λ m. truncated (mac key (big_endian 8 counter [])) % m < 10 ^ suc k)
        (sym (modulus_lem (suc k) small))
        (mod-lt (truncated (mac key (big_endian 8 counter [])))
          (one-le-pow (suc k) 10 (omega arith))) in
    (padded (suc k) n, rw (e, hotp) refl, padded-length k n below, padded-IsDigit (suc k) n)
