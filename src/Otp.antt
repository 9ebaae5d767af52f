-- ===== src/Otp.antt =====
-- crypto/otp.go: counter-based and time-based one-time passwords.
-- The base32 decoder and HMAC-SHA1 are parameters: `decode` gives the key of a secret, and `mac` the
-- 20 bytes of a key and a message. A number of digits is from 1 to 9, where 10 to its power is no
-- multiple of 2 ^ 32; a time is in seconds.
pub mod Window
pub mod Width
use go_dev_auth.Prelude.{
  ℕ, zero, suc, ◌+◌, ◌-◌, ◌*◌, ◌/◌, ◌%◌, ◌^◌, String, Bool, true, false, not, Option, none, some,
  List, [], ◌∷◌, length, get_elem?, ltb, ◌==◌, str_eq, if◌then◌else◌, pos,
}
use go_dev_auth.Prelude.Text.{codes}
use go_dev_auth.Prelude.Decimal.{itoa}

-- `ValidateTOTPSecret`
unfoldable pub valid_secret : (String → Option (List ℕ)) → String → Bool
valid_secret decode secret =
    if str_eq secret ""
    then false
    else elim (decode secret) [ none ↦ false | some key ↦ not (ltb (length key) 10) ]

-- `binary.BigEndian.PutUint64`
big_endian : ℕ → ℕ → List ℕ → List ℕ
big_endian zero n rest = rest
big_endian (suc fuel) n rest = big_endian fuel (n / 256) (n % 256 ∷ rest)

-- A byte of the digest. Its 20 bytes hold every index that the code reads.
abbrev byte_at : List ℕ → ℕ → ℕ
byte_at sum i = elim (get_elem? sum i) [ none ↦ 0 | some b ↦ b ]

unfoldable pub truncated : List ℕ → ℕ
truncated sum =
    let offset = byte_at sum (length sum - 1) % 16 in
    byte_at sum offset % 128 * 2 ^ 24
    + byte_at sum (offset + 1) * 2 ^ 16
    + byte_at sum (offset + 2) * 2 ^ 8
    + byte_at sum (offset + 3)

-- The loop on `mod`, a uint32.
unfoldable pub modulus : ℕ → ℕ
modulus zero = 1
modulus (suc digits) = modulus digits * 10 % 2 ^ 32

-- `fmt.Sprintf("%0*d", ...)`: zeros in front, up to the width.
unfoldable pub zeros : ℕ → String → String
zeros zero s = s
zeros (suc n) s = String.◌∷◌ "0" (zeros n s)

unfoldable pub padded : ℕ → ℕ → String
unfolding zeros itoa
padded width n = zeros (width - length (codes (itoa (pos n)))) (itoa (pos n))

-- `HOTP`
unfoldable pub hotp :
    (String → Option (List ℕ)) → (List ℕ → List ℕ → List ℕ) → ℕ → String → ℕ → Option String
unfolding big_endian truncated modulus padded
hotp decode mac digits secret counter = elim (decode secret) [
  | none ↦ none
  | some key ↦ some (padded digits (truncated (mac key (big_endian 8 counter [])) % modulus digits))
]

-- The loop of `VerifyTOTPCounter`: `at` is `counter + i + skew`, and `c` is `at - skew`.
unfoldable pub search : (ℕ → Option String) → String → ℕ → ℕ → ℕ → Option ℕ
search codes_of code skew zero at = none
search codes_of code skew (suc left) at =
    let rest = search codes_of code skew left (suc at) in
    if ltb at skew then rest else elim (codes_of (at - skew)) [
      | none ↦ none
      | some want ↦ if str_eq want code then some (at - skew) else rest
    ]

unfoldable pub counter_at : ℕ → ℕ → ℕ
counter_at period now = now / (if period == 0 then 30 else period)

-- `VerifyTOTPCounter`, for the codes of a secret
unfoldable pub verify_totp_counter : (ℕ → Option String) → ℕ → ℕ → ℕ → String → Option ℕ
unfolding search counter_at
verify_totp_counter codes_of period skew now code =
    search codes_of code skew (2 * skew + 1) (counter_at period now)
