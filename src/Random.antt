-- ===== src/Random.antt =====
-- crypto/random.go: identifiers and numeric codes by rejection sampling.
-- The bytes of the system's random source are an argument: one list for each read of the buffer. A
-- text is the list of its characters.
pub mod Sampling
use go_dev_auth.Prelude.{
  ℕ, zero, suc, ◌+◌, ◌%◌, Option, none, some, List, [], ◌∷◌, ◌++◌, length, get_elem?, leb, ◌==◌,
  if◌then◌else◌,
}
use go_dev_auth.Prelude.Text.{codes}

-- `idAlphabet`
abbrev pub id_alphabet : List ℕ
id_alphabet = codes "0123456789ABCDEFGHIJKLMNOPQRSTUVWXYZabcdefghijklmnopqrstuvwxyz"

-- The character of a byte, if it is not rejected.
unfoldable pub id_character : ℕ → Option ℕ
id_character b = if leb (length id_alphabet) (b % 64) then none else get_elem? id_alphabet (b % 64)

unfoldable pub otp_digit : ℕ → Option ℕ
otp_digit b = if leb 250 b then none else some (b'0' + b % 10)

-- The loop over one buffer: how many characters are missing behind it, and those that it gives.
unfoldable pub fill : (ℕ → Option ℕ) → ℕ → List ℕ → ℕ × List ℕ
fill pick missing [] = (missing, [])
fill pick zero (b ∷ bs) = (zero, [])
fill pick (suc missing) (b ∷ bs) =
    let (left, out) = fill pick missing bs in
    let rejected = fill pick (suc missing) bs in
    elim (pick b) [ none ↦ rejected | some c ↦ (left, c ∷ out) ]

-- The loop over the reads. It ends when no character is missing; none is the answer if the reads that
-- are given are used up before.
unfoldable pub sample : (ℕ → Option ℕ) → ℕ → List (List ℕ) → Option (List ℕ)
unfolding fill
sample pick zero reads = some []
sample pick (suc missing) [] = none
sample pick (suc missing) (buf ∷ reads) =
    let (left, out) = fill pick (suc missing) buf in
    elim (sample pick left reads) [ none ↦ none | some rest ↦ some (out ++ rest) ]

-- `GenerateID` and `GenerateOTP`
unfoldable pub generate_id : ℕ → List (List ℕ) → Option (List ℕ)
unfolding sample id_character
generate_id n reads = sample id_character (if n == 0 then 32 else n) reads

unfoldable pub generate_otp : ℕ → List (List ℕ) → Option (List ℕ)
unfolding sample otp_digit
generate_otp n reads = sample otp_digit (if n == 0 then 6 else n) reads
