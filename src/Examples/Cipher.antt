-- ===== src/Examples/Cipher.antt =====
-- A key ring's primitives that keep nothing secret, for the examples.
use Prim.Native.Char.{Char, char, code, nul, IsLt, IsScalar}
use Prim.Native.Nat.{Ordering, compare}
use go_dev_auth.Prelude.{
  ℕ, zero, suc, ◌≡◌, refl, ap, subst, ◌∙◌, String, false, Option, none, some, [], ◌∷◌, ◌++◌,
  reverse, arith, ◌==◌, ==_refl, ==_iff, if◌then◌else◌, length, Bool-cases, Option-cases, inl, inr,
}
use mathlib.Core.Option.{some_inj}
use go_dev_auth.Prelude.Text.{codes}
use go_dev_auth.Prelude.Decimal.{has_code}
use go_dev_auth.Keyring.{Aead, Bytes, Primitives, key_of}
use go_dev_auth.Keyring.Bindings.{append_inj}
use go_dev_auth.Keyring.Opening.{IsSound, IsOpening, IsAuthentic}

abbrev Below : Ordering → Ordering → Type 0
Below Ordering.lt q = IsLt q
Below Ordering.eq q = ⊥
Below Ordering.gt q = ⊥

-- A number is a character's, by three comparisons.
abbrev Scalar : Ordering → Ordering → Ordering → Type 0
Scalar Ordering.lt p q = Unit
Scalar Ordering.eq p q = Below p q
Scalar Ordering.gt p q = Below p q

decide_lt : (q : Ordering) → Option (IsLt q)
decide_lt Ordering.lt = some tt
decide_lt Ordering.eq = none
decide_lt Ordering.gt = none

decide_below : (p q : Ordering) → Option (Below p q)
unfolding decide_lt
decide_below Ordering.lt q = decide_lt q
decide_below Ordering.eq q = none
decide_below Ordering.gt q = none

decide : (o p q : Ordering) → Option (Scalar o p q)
unfolding decide_below
decide Ordering.lt p q = some tt
decide Ordering.eq p q = decide_below p q
decide Ordering.gt p q = decide_below p q

decide_lt-some : (q : Ordering) (s : IsLt q) → decide_lt q ≡ some s
unfolding decide_lt
decide_lt-some Ordering.lt s = refl
decide_lt-some Ordering.eq s = absurd s
decide_lt-some Ordering.gt s = absurd s

decide_below-some : (p q : Ordering) (s : Below p q) → decide_below p q ≡ some s
unfolding decide_below
decide_below-some Ordering.lt q s = decide_lt-some q s
decide_below-some Ordering.eq q s = absurd s
decide_below-some Ordering.gt q s = absurd s

decide-some : (o p q : Ordering) (s : Scalar o p q) → decide o p q ≡ some s
unfolding decide
decide-some Ordering.lt p q s = refl
decide-some Ordering.eq p q s = decide_below-some p q s
decide-some Ordering.gt p q s = decide_below-some p q s

made : (n : ℕ) → Option (IsScalar n) → Char
made n none = nul
made n (some s) = char n s

-- The character of a number.
char_of : ℕ → Char
unfolding decide made
char_of n = made n (decide (compare n 55296) (compare 57343 n) (compare n 1114112))

char_of-code : (c : Char) → char_of (code c) ≡ c
unfolding char_of made
char_of-code (char n s) =
    ap (made n) (decide-some (compare n 55296) (compare 57343 n) (compare n 1114112) s)

abbrev text_of : Bytes → String
text_of [] = ""
text_of (n ∷ bytes) = String.◌∷◌ (char_of n) (text_of bytes)

text_of-codes : (s : String) → text_of (codes s) ≡ s
text_of-codes String.[] = refl
text_of-codes (String.◌∷◌ c s) = rw (char_of-code c, text_of-codes s) refl

abbrev tally : ℕ → String → String
tally zero s = String.◌∷◌ "b" s
tally (suc n) s = String.◌∷◌ "a" (tally n s)

-- Numbers in unary.
abbrev unary : Bytes → String
unary [] = ""
unary (n ∷ bytes) = tally n (unary bytes)

bump : Option Bytes → Option Bytes
bump none = none
bump (some []) = none
bump (some (n ∷ bytes)) = some (suc n ∷ bytes)

start : Option Bytes → Option Bytes
start none = none
start (some bytes) = some (0 ∷ bytes)

abbrev read_unary : String → Option Bytes
read_unary String.[] = some []
read_unary (String.◌∷◌ c s) =
    let rest = read_unary s in if code c == b'b' then start rest else bump rest

read_unary-tally :
    (n : ℕ) (s : String) (bytes : Bytes)
    → read_unary s ≡ some bytes
    → read_unary (tally n s) ≡ some (n ∷ bytes)
unfolding bump start
read_unary-tally zero s bytes h = rw h refl
read_unary-tally (suc n) s bytes h = rw (read_unary-tally n s bytes h) refl

read_unary-unary : (bytes : Bytes) → read_unary (unary bytes) ≡ some bytes
read_unary-unary [] = refl
read_unary-unary (n ∷ bytes) = read_unary-tally n (unary bytes) bytes (read_unary-unary bytes)

has_code-tally : (n : ℕ) (s : String) → has_code b'.' (tally n s) ≡ has_code b'.' s
unfolding has_code
has_code-tally zero s = refl
has_code-tally (suc n) s = has_code-tally n s

has_code-unary : (bytes : Bytes) → has_code b'.' (unary bytes) ≡ false
unfolding has_code
has_code-unary [] = refl
has_code-unary (n ∷ bytes) = has_code-tally n (unary bytes) ∙ has_code-unary bytes

-- The rest behind a prefix.
behind : Bytes → Bytes → Option Bytes
behind [] s = some s
behind (a ∷ p) [] = none
behind (a ∷ p) (b ∷ s) = let rest = behind p s in if a == b then rest else none

behind-append : (p s : Bytes) → behind p (p ++ s) ≡ some s
unfolding behind
behind-append [] s = refl
behind-append (a ∷ p) s = rw (==_refl a) (behind-append p s)

behind_lem : (p s rest : Bytes) → behind p s ≡ some rest → s ≡ p ++ rest
unfolding behind
behind_lem [] s rest h = some_inj.0 h
behind_lem (a ∷ p) [] rest h = cc
behind_lem (a ∷ p) (b ∷ s) rest h = ground (arith, behind_lem p s rest)

-- The additional data stands in the open in front of the text, behind its length.
unseal : Bytes → Bytes → Option String
unfolding behind
unseal [] extra = none
unseal (n ∷ sealed) extra =
    if n == length extra
    then elim (behind extra sealed) [ none ↦ none | some s ↦ some (text_of s) ]
    else none

unfoldable pub gcm : Aead
unfolding unseal char_of
gcm = record {
  nonce_size = 2;
  seal = λ nonce s extra. length extra ∷ (extra ++ codes s);
  unseal = λ nonce sealed extra. unseal sealed extra;
}

gcm-IsOpening : IsOpening gcm
unfolding unseal gcm
gcm-IsOpening nonce s extra h =
    rw (==_refl (length extra), behind-append extra (codes s), text_of-codes s) refl

gcm-IsAuthentic : IsAuthentic gcm
unfolding unseal gcm
gcm-IsAuthentic nonce s extra extra' out h = elim (Bool-cases (length extra == length extra')) [
  | inr e ↦ absurd (cc (rw e at h))
  | inl e ↦ elim (Option-cases (behind extra' (extra ++ codes s))) [
    | inl n ↦ absurd (cc (rw (e, n) at h))
    | inr (rest, b) ↦
        (append_inj extra extra' (codes s) rest ((==_iff _ _).0 e) (behind_lem extra' _ rest b)).0
  ]
]

-- No digest, no stretching.
unfoldable pub primitives : Primitives
unfolding start bump
primitives = record {
  scrypt = λ secret. some (codes secret);
  sha256 = reverse;
  new_gcm = λ key. some gcm;
  encode = unary;
  decode = read_unary;
}

pub primitives-IsSound : IsSound primitives
unfolding key_of primitives
primitives-IsSound = record {
  decode-encode = read_unary-unary;
  no_dot = has_code-unary;
  derives = λ secret. (_, gcm, refl);
  opening = λ secret kid g h. subst IsOpening (ap (λ x. x.1) (some_inj.0 h)) gcm-IsOpening;
  authentic = λ secret kid g h. subst IsAuthentic (ap (λ x. x.1) (some_inj.0 h)) gcm-IsAuthentic;
}
