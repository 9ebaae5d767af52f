-- ===== src/TwoFactor/Trust.antt =====
-- plugins/twofactor/twofactor.go: the guard of sign-ins, and the devices that it trusts.
-- The signature of a payload and its check are parameters; times are in seconds.
use Prim.Native.String
use package.text.Mathlib.TextLemmas.{append_assoc, cons-append}
use go_dev_auth.Prelude.{
  ℕ, ◌+◌, ◌^◌, ◌<◌, ◌≡◌, refl, ap, sym, ◌∙◌, String, Bool, true, false, not, ◌&&◌, Option, none,
  some, if◌then◌else◌, arith, ltb, ◌==◌, str_eq, Bool-cases, inl, inr, pos, int_leb,
}
use go_dev_auth.Prelude.Decimal.{
  itoa, parse_int, cut, has_code, cut-ne_nil, cut-append, has_code-itoa, parse_int-itoa,
}
use go_dev_auth.Storage.Value.{Value, null, text, boolean, integer, time}
use go_dev_auth.Storage.Filter.{Record}
use mathlib.Core.Option.{some_inj}
use go_dev_auth.Prelude.Assoc.{lookup, str_eq_ne}
use go_dev_auth.Token.{Table, store_token}
use go_dev_auth.TwoFactor.{kind_pending, pending_ttl}

unfoldable pub trust_payload : String → ℕ → String
unfolding itoa
trust_payload user_id expires = String.◌++◌ user_id (String.◌∷◌ "|" (itoa (pos expires)))

-- The cookie that `setTrustedDevice` writes, if trust is configured.
unfoldable pub set_trusted_device : (String → String) → ℕ → String → ℕ → Option String
unfolding trust_payload
set_trusted_device sign duration user_id now =
    let payload = trust_payload user_id (now + duration) in
    if duration == 0 then none else some (String.◌++◌ payload (String.◌∷◌ "|" (sign payload)))

-- `deviceTrusted` behind the two cuts.
unfoldable pub trusted_parts :
    (String → String → Bool) → String → ℕ → String → String → String → Bool
unfolding parse_int
trusted_parts verify user_id now id expires sig =
    if not (verify (String.◌++◌ id (String.◌∷◌ "|" expires)) sig)
    then false
    else if not (str_eq id user_id)
    then false
    else elim (parse_int expires) [ none ↦ false | some exp ↦ not (int_leb exp (pos now)) ]

-- `deviceTrusted`, for the value of the cookie, which is empty if there is none
unfoldable pub device_trusted : (String → String → Bool) → ℕ → String → ℕ → String → Bool
unfolding cut trusted_parts
device_trusted verify duration user_id now cookie =
    if duration == 0 then false else if str_eq cookie "" then false else elim (cut b'|' cookie) [
      | none ↦ false
      | some (id, rest) ↦ elim (cut b'|' rest) [
        | none ↦ false
        | some (expires, sig) ↦ trusted_parts verify user_id now id expires sig
      ]
    ]

-- The flag of `BeforeSignIn`: a value that is no boolean asks for the second factor.
unfoldable pub second_factor : Option Value → Bool
second_factor none = false
second_factor (some null) = false
second_factor (some (boolean enabled)) = enabled
second_factor (some (text s)) = true
second_factor (some (integer k n)) = true
second_factor (some (time t)) = true

-- `BeforeSignIn`: whether it takes over the sign-in, and the table with the challenge.
unfoldable pub before_sign_in :
    (String → String) → Bool → Record → String → String → String → ℕ → Table → Bool × Table
unfolding second_factor store_token lookup
before_sign_in hash trusted extra user_id id token now rows =
    if not (second_factor (lookup "twoFactorEnabled" extra))
    then (false, rows)
    else if trusted
    then (false, rows)
    else (true, store_token hash id token kind_pending user_id pending_ttl now rows)

cut-payload :
    (user_id : String) (expires : ℕ) (sig : String)
    → has_code b'|' user_id ≡ false
    → cut b'|' (String.◌++◌ (trust_payload user_id expires) (String.◌∷◌ "|" sig))
      ≡ some (user_id, String.◌++◌ (itoa (pos expires)) (String.◌∷◌ "|" sig))
unfolding trust_payload
cut-payload user_id expires sig bare =
    ap (cut b'|') (
      append_assoc user_id (String.◌∷◌ "|" (itoa (pos expires))) (String.◌∷◌ "|" sig)
      ∙ ap (String.◌++◌ user_id) (cons-append "|" (itoa (pos expires)) (String.◌∷◌ "|" sig)))
    ∙ cut-append "|" user_id (String.◌++◌ (itoa (pos expires)) (String.◌∷◌ "|" sig)) bare

-- The parts of a signed payload are trusted for its user until it expires.
trusted_parts-payload :
    (verify : String → String → Bool) (user_id other : String) (expires later : ℕ) (sig : String)
    → verify (trust_payload user_id expires) sig ≡ true
    → expires < 2 ^ 63
    → trusted_parts verify other later user_id (itoa (pos expires)) sig
      ≡ (str_eq user_id other && ltb later expires)
unfolding trusted_parts trust_payload
trusted_parts-payload verify user_id other expires later sig signed small =
    rw (trusted_parts, signed, parse_int-itoa expires small) (ground arith)

-- A cookie of three parts is trusted exactly if its parts are.
device_trusted-parts :
    (verify : String → String → Bool) (duration : ℕ) (other cookie id rest expires sig : String)
    (later : ℕ)
    → (duration == 0) ≡ false
    → cut b'|' cookie ≡ some (id, rest)
    → cut b'|' rest ≡ some (expires, sig)
    → device_trusted verify duration other later cookie
      ≡ trusted_parts verify other later id expires sig
unfolding device_trusted
device_trusted-parts verify duration other cookie id rest expires sig later on first second =
    rw (device_trusted, on, str_eq_ne cookie "" (cut-ne_nil b'|' cookie first), first, second) refl

written :
    (sign : String → String) (duration : ℕ) (user_id : String) (now : ℕ)
    → (duration == 0) ≡ false
    → set_trusted_device sign duration user_id now
      ≡ some (
          String.◌++◌
            (trust_payload user_id (now + duration))
            (String.◌∷◌ "|" (sign (trust_payload user_id (now + duration)))))
unfolding set_trusted_device
written sign duration user_id now on = rw on refl

unwritten :
    (sign : String → String) (duration : ℕ) (user_id : String) (now : ℕ)
    → (duration == 0) ≡ true
    → set_trusted_device sign duration user_id now ≡ none
unfolding set_trusted_device
unwritten sign duration user_id now off = rw off refl

-- The cookie that is written for a user is accepted for exactly that user, and until exactly the time
-- that it was granted for; the user's id has no "|", the check accepts what was signed, and times
-- fit into 64 bits.
pub device_trusted-set_trusted_device :
    (sign : String → String) (verify : String → String → Bool) (duration : ℕ)
    (user_id other : String) (now later : ℕ) (cookie : String)
    → ((payload : String) → verify payload (sign payload) ≡ true)
    → has_code b'|' user_id ≡ false
    → now + duration < 2 ^ 63
    → set_trusted_device sign duration user_id now ≡ some cookie
    → device_trusted verify duration other later cookie
      ≡ (str_eq user_id other && ltb later (now + duration))
device_trusted-set_trusted_device sign verify duration user_id other now later cookie signs bare
      small given =
    elim (Bool-cases (duration == 0)) [
      | inl off ↦
          let impossible : none ≡ some cookie =
            sym (unwritten sign duration user_id now off) ∙ given in
          absurd (cc (impossible))
      | inr on ↦
          let payload = trust_payload user_id (now + duration) in
          let same = some_inj.0 (sym (written sign duration user_id now on) ∙ given) in
          let parts =
            device_trusted-parts verify duration other _ user_id _ (itoa (pos (now + duration)))
              (sign payload) later on (cut-payload user_id (now + duration) (sign payload) bare)
              (cut-append "|" (itoa (pos (now + duration))) (sign payload)
                (has_code-itoa b'|' (now + duration) (omega arith))) in
          ap (device_trusted verify duration other later) (sym same)
          ∙ parts
          ∙ trusted_parts-payload verify user_id other (now + duration) later (sign payload)
              (signs payload) small
    ]
