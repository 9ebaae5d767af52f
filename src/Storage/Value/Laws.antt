-- ===== src/Storage/Value/Laws.antt =====
-- The two equalities on values: Go's `==`, and the one that filters use.
use go_dev_auth.Prelude.{
  ℕ, ◌<◌, ◌^◌, ltb, ◌==◌, pos, ◌≡◌, refl, ◌↔◌, true, String, eq_iff, arith, eq_of_parts,
}
use go_dev_auth.Storage.Value.{
  Value, null, text, boolean, integer, time, same, equal, IntKind, to_float, float_eq, float_part,
  exponent, round_even,
}

-- `same` decides equality.
pub same-eq : (a b : Value) → same a b ≡ true → a ≡ b
unfolding same
same-eq null null h = refl
same-eq (text s) (text t) h = ground (arith, eq_iff s t)
same-eq (boolean a) (boolean b) h = ground arith
same-eq (integer k m) (integer l n) h = ground (arith, eq_of_parts m n)
same-eq (time s) (time t) h = ground arith
same-eq a b h = ground arith

pub same_refl : (a : Value) → same a a ≡ true
unfolding same
same_refl null = refl
same_refl (text s) = ground (arith, eq_iff s s)
same_refl (boolean a) = ground arith
same_refl (integer k m) = ground arith
same_refl (time s) = ground arith

pub same_iff : (a b : Value) → (same a b ≡ true) ↔ (a ≡ b)
same_iff a b = (same-eq a b, λ e. ground (arith, same_refl a))

-- A filter on a text selects exactly the values that are that text.
pub equal-text_iff : (a : Value) (s : String) → (equal a (text s) ≡ true) ↔ (a ≡ text s)
unfolding equal
equal-text_iff null s = ground (arith, same_iff null (text s))
equal-text_iff (text t) s = ground (arith, same_iff (text t) (text s))
equal-text_iff (boolean b) s = ground (arith, same_iff (boolean b) (text s))
equal-text_iff (integer k n) s = ground (arith, same_iff (integer k n) (text s))
equal-text_iff (time t) s = ground (arith, same_iff (time t) (text s))

float_part_small : (n : ℕ) → n < 2 ^ 53 → float_part n ≡ n
unfolding float_part exponent round_even
float_part_small n h = let e : ltb n (2 ^ 53) ≡ true = ground arith in rw e (ground arith)

-- Integers below 2 ^ 53 are compared exactly, whatever their types.
pub equal-integer_small :
    (k l : IntKind) (m n : ℕ)
    → m < 2 ^ 53
    → n < 2 ^ 53
    → equal (integer k (pos m)) (integer l (pos n)) ≡ (m == n)
unfolding equal to_float float_eq
equal-integer_small k l m n hm hn = rw (float_part_small m hm, float_part_small n hn) (ground arith)
