-- ===== src/Prelude/Result.antt =====
-- A Go result pair `(value, error)`: exactly one of the two.
use mathlib.Core.Path.{◌≡◌, refl}
use mathlib.Core.Logic.{◌⊎◌, inl, inr}

pub data Result {ℓ κ} (E : Type ℓ) (A : Type κ) : Type (ℓ ⊔ κ) where
  ok : A → Result E A
  err : E → Result E A

infixl 5 ◌>>=◌
abbrev pub ◌>>=◌ {ℓ κ} : {E : Type ℓ} {A B : Type κ} → Result E A → (A → Result E B) → Result E B
err failure >>= next = err failure
ok result >>= next = next result

-- A chain that succeeds has succeeded at its first call.
pub >>=-eq-ok {ℓ κ} :
    {E : Type ℓ} {A B : Type κ} (call : Result E A) (next : A → Result E B) {out : B}
    → (call >>= next) ≡ ok out
    → (result : A) × (call ≡ ok result) × (next result ≡ ok out)
>>=-eq-ok (err failure) next e = cc e
>>=-eq-ok (ok result) next e = (result, refl, e)

pub Result-cases {ℓ κ} :
    {E : Type ℓ} {A : Type κ} (m : Result E A) → ((a : A) × (m ≡ ok a)) ⊎ ((e : E) × (m ≡ err e))
Result-cases (ok a) = inl (a, refl)
Result-cases (err e) = inr (e, refl)
