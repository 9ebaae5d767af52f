-- ===== src/Keyring.antt =====
-- crypto/aead.go: values encrypted under an ordered set of keys, each bound to the place where it is
-- stored. A text is its bytes, one character each.
pub mod Bindings
pub mod Opening
pub mod Pruning
pub mod Rotation
use go_dev_auth.Prelude.{
  ℕ, ◌/◌, ◌%◌, ◌^◌, String, Bool, true, false, not, ◌&&◌, ◌||◌, Option, none, some, List, [], ◌∷◌,
  ◌++◌, str_eq, if◌then◌else◌, take, drop, length, ltb,
}
use Prim.Native.String.{◌++◌ as str_append}
use go_dev_auth.Prelude.Result.{Result, ok, err, ◌>>=◌}
use go_dev_auth.Prelude.Text.{codes}
use go_dev_auth.Prelude.Decimal.{has_code}
use go_dev_auth.Prelude.Split.{split}

abbrev pub Bytes : Type 0
Bytes = List ℕ

-- A `cipher.AEAD`: `seal` of a nonce, a plaintext and additional data, and `Open`.
pub record Aead : Type 0 where
  pub nonce_size : ℕ
  pub seal : Bytes → String → Bytes → Bytes
  pub unseal : Bytes → Bytes → Bytes → Option String

-- The primitives: the master of a secret by `Scrypt`, SHA-256, AES-GCM for a key, the random source,
-- and base64url.
pub record Primitives : Type 0 where
  pub scrypt : String → Option Bytes
  pub sha256 : Bytes → Bytes
  pub new_gcm : Bytes → Option Aead
  pub encode : Bytes → String
  pub decode : String → Option Bytes

pub data CryptoError : Type 0 where
  no_matching_key : CryptoError
  malformed : CryptoError
  unbound : CryptoError
  invalid_binding : CryptoError
  no_key : CryptoError
  no_random : CryptoError

-- `Binding`
pub record Binding : Type 0 where
  pub model : String
  pub row : String
  pub column : String

-- `Binding.validate`
unfoldable pub is_complete : Binding → Bool
is_complete b = not (str_eq b.model "" || str_eq b.row "" || str_eq b.column "")

-- `binary.BigEndian.PutUint64`
unfoldable pub big_endian : ℕ → Bytes
big_endian n =
    (n / 2 ^ 56) % 256
    ∷ (n / 2 ^ 48) % 256
    ∷ (n / 2 ^ 40) % 256
    ∷ (n / 2 ^ 32) % 256
    ∷ (n / 2 ^ 24) % 256
    ∷ (n / 2 ^ 16) % 256
    ∷ (n / 2 ^ 8) % 256
    ∷ n % 256
    ∷ []

unfoldable pub prefixed : Bytes → Bytes
unfolding big_endian
prefixed s = big_endian (length s) ++ s

-- `Binding.aad`: the parts behind their lengths.
unfoldable pub located : Binding → Bytes
unfolding prefixed
located b = prefixed (codes b.model) ++ (prefixed (codes b.row) ++ prefixed (codes b.column))

unfoldable pub aad : Binding → String → Bytes
unfolding located
aad b kid = codes "v2." ++ (codes kid ++ located b)

-- `Key.v1`: the identifier and the cipher of a secret.
unfoldable pub key_of : Primitives → String → Option (String × Aead)
key_of p secret = elim (p.scrypt secret) [
  | none ↦ none
  | some master ↦
      let id = p.encode (take 6 (p.sha256 (codes "go-dev-auth-enc-v1:kid" ++ master))) in
      elim (p.new_gcm (p.sha256 (codes "go-dev-auth-enc-v1:key" ++ master))) [
        | none ↦ none
        | some gcm ↦ some (id, gcm)
      ]
]

-- `Key.legacy`
unfoldable pub legacy_of : Primitives → String → Option Aead
legacy_of p secret = p.new_gcm (p.sha256 (codes "go-dev-auth-enc:" ++ codes secret))

-- `Keyring`: the current secret, the others in order, and whether unbound values are read.
pub record Keyring : Type 0 where
  pub current : String
  pub others : List String
  pub accept_unbound : Bool

unfoldable pub member : String → List String → Bool
member s [] = false
member s (t ∷ ts) = str_eq t s || member s ts

-- The loop of `NewKeyringFrom` over the previous secrets.
unfoldable pub add_previous : String → List String → List String → List String
unfolding member
add_previous current [] others = others
add_previous current (p ∷ ps) others = add_previous current ps (
    if str_eq p "" || str_eq p current || member p (current ∷ others)
    then others
    else others ++ p ∷ [])

-- `NewKeyringFrom`
unfoldable pub new_keyring : String → List String → Bool → Keyring
unfolding add_previous
new_keyring current previous reject_unbound = record {
  current = current;
  others = add_previous current previous [];
  accept_unbound = not reject_unbound;
}

abbrev pub secrets : Keyring → List String
secrets kr = kr.current ∷ kr.others

-- `CurrentKeyID`
unfoldable pub current_key_id : Primitives → Keyring → Option String
unfolding key_of
current_key_id p kr = elim (key_of p kr.current) [ none ↦ none | some (id, gcm) ↦ some id ]

-- The stored form: `v2.<kid>.<body>`.
abbrev pub v2 : String → String → String
v2 kid body = str_append "v2" (String.◌∷◌ "." (str_append kid (String.◌∷◌ "." body)))

-- `Keyring.Encrypt`; the last argument is what `rand.Read` gives for a number of bytes.
unfoldable pub encrypt :
    Primitives → Keyring → (ℕ → Option Bytes) → Binding → String → Result CryptoError String
unfolding is_complete key_of aad
encrypt p kr random b plaintext =
    if not (is_complete b) then err invalid_binding else elim (key_of p kr.current) [
      | none ↦ err no_key
      | some (kid, gcm) ↦ elim (random gcm.nonce_size) [
        | none ↦ err no_random
        | some nonce ↦ ok (v2 kid (p.encode (nonce ++ gcm.seal nonce plaintext (aad b kid))))
      ]
    ]

unfoldable pub open_raw : Aead → Bytes → Bytes → Option String
open_raw gcm raw extra = gcm.unseal (take gcm.nonce_size raw) (drop gcm.nonce_size raw) extra

unfoldable pub open_matched : Aead → Bytes → Bytes → Result CryptoError String
unfolding open_raw
open_matched gcm raw extra =
    if ltb (length raw) gcm.nonce_size
    then err malformed
    else elim (open_raw gcm raw extra) [ none ↦ err malformed | some pt ↦ ok pt ]

-- The loop of `Decrypt` over the keys.
unfoldable pub open_with :
    Primitives → List String → String → Bytes → Bytes → Result CryptoError String
unfolding key_of open_matched
open_with p [] kid raw extra = err no_matching_key
open_with p (s ∷ ss) kid raw extra =
    let rest = open_with p ss kid raw extra in
    elim (key_of p s) [
      | none ↦ err no_key
      | some (id, gcm) ↦ if str_eq id kid then open_matched gcm raw extra else rest
    ]

-- The `switch` of `Decrypt` on the version: the additional data.
unfoldable pub additional : Keyring → Binding → String → String → Result CryptoError Bytes
unfolding is_complete aad
additional kr b version kid =
    if str_eq version "v2"
    then (if is_complete b then ok (aad b kid) else err invalid_binding)
    else if str_eq version "v1"
    then (if kr.accept_unbound
        then ok (codes (str_append version (String.◌∷◌ "." kid)))
        else err unbound)
    else err malformed

unfoldable pub decrypt_parts :
    Primitives → Keyring → Binding → String → String → String → Result CryptoError String
unfolding additional open_with
decrypt_parts p kr b version kid body = additional kr b version kid >>= λ extra.
    elim (p.decode body) [
      | none ↦ err malformed
      | some raw ↦ open_with p (secrets kr) kid raw extra
    ]

-- The loop of `decryptLegacy` over the keys.
unfoldable pub open_legacy : Primitives → List String → Bytes → Result CryptoError String
unfolding legacy_of open_raw
open_legacy p [] raw = err no_matching_key
open_legacy p (s ∷ ss) raw =
    let rest = open_legacy p ss raw in
    elim (legacy_of p s) [
      | none ↦ err no_key
      | some gcm ↦
          if ltb (length raw) gcm.nonce_size
          then err malformed
          else elim (open_raw gcm raw []) [ none ↦ rest | some pt ↦ ok pt ]
    ]

-- `decryptLegacy`
unfoldable pub decrypt_legacy : Primitives → Keyring → String → Result CryptoError String
unfolding open_legacy
decrypt_legacy p kr encrypted =
    if not kr.accept_unbound then err unbound else elim (p.decode encrypted) [
      | none ↦ err malformed
      | some raw ↦ open_legacy p (secrets kr) raw
    ]

unfoldable pub decrypt_split :
    Primitives → Keyring → Binding → List String → Result CryptoError String
unfolding decrypt_parts
decrypt_split p kr b (version ∷ kid ∷ body ∷ []) = decrypt_parts p kr b version kid body
decrypt_split p kr b _ = err malformed

-- `Keyring.Decrypt`
unfoldable pub decrypt : Primitives → Keyring → Binding → String → Result CryptoError String
unfolding has_code split decrypt_split decrypt_legacy
decrypt p kr b encrypted =
    if has_code b'.' encrypted
    then decrypt_split p kr b (split b'.' encrypted)
    else decrypt_legacy p kr encrypted

unfoldable pub is_stale : Primitives → Keyring → List String → Bool
unfolding key_of
is_stale p kr (version ∷ kid ∷ body ∷ []) =
    if str_eq version "v2"
    then elim (key_of p kr.current) [ none ↦ true | some (id, gcm) ↦ not (str_eq kid id) ]
    else true
is_stale p kr _ = true

-- `NeedsReencryption`
unfoldable pub needs_reencryption : Primitives → Keyring → String → Bool
unfolding split is_stale
needs_reencryption p kr encrypted = is_stale p kr (split b'.' encrypted)
