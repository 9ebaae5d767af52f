-- ===== src/Passkey/Webauthn.antt =====
-- plugins/passkey/webauthn.go: authenticator data and COSE keys. Every error is the one error.
pub mod Layout
pub mod Keys
use go_dev_auth.Prelude.{
  ℕ, zero, suc, ◌+◌, ◌-◌, ◌*◌, ◌/◌, ◌%◌, ◌^◌, Bool, true, false, not, ◌&&◌, ◌||◌, Option, none,
  some, List, [], ◌∷◌, length, take, drop, get_or, ltb, leb, ◌==◌, if◌then◌else◌, ℤ, pos, negsuc,
  int_eqb,
}
use go_dev_auth.Passkey.Cbor.{
  Item, int, bytes, text, array, dict, boolean, null, Entries, end, entry, same_key, decode,
  decode_prefix,
}

-- `authData`; a flag is a bit of the flags byte.
pub record AuthData : Type 0 where
  pub rp_id_hash : List ℕ
  pub flags : ℕ
  pub sign_count : ℕ
  pub aaguid : List ℕ
  pub credential_id : List ℕ
  pub public_key : List ℕ

abbrev flag : ℕ → ℕ → Bool
flag bit flags = (flags / 2 ^ bit) % 2 == 1

abbrev pub user_present : AuthData → Bool
user_present a = flag 0 a.flags

abbrev pub user_verified : AuthData → Bool
user_verified a = flag 2 a.flags

abbrev pub backup_eligible : AuthData → Bool
backup_eligible a = flag 3 a.flags

abbrev pub backed_up : AuthData → Bool
backed_up a = flag 4 a.flags

abbrev pub has_attested_data : ℕ → Bool
has_attested_data flags = flag 6 flags

-- The bytes behind the credential id begin with the key.
with_key : AuthData → List ℕ → Option AuthData
with_key ad rest = elim (decode_prefix rest) [
  | none ↦ none
  | some (v, n) ↦ some (record ad { public_key = take n rest })
]

-- The attested credential data.
unfoldable pub parse_attested : AuthData → List ℕ → Option AuthData
unfolding with_key
parse_attested ad rest =
    if ltb (length rest) 18
    then none
    else let len = get_or rest 16 0 * 256 + get_or rest 17 0 in
      let behind = drop 18 rest in
      if len == 0 || (ltb 1023 len || ltb (length behind) len)
      then none
      else with_key (record ad { aaguid = take 16 rest; credential_id = take len behind })
          (drop len behind)

-- `parseAuthData`
unfoldable pub parse_auth_data : List ℕ → Option AuthData
unfolding parse_attested
parse_auth_data raw =
    if ltb (length raw) 37
    then none
    else let flags = get_or raw 32 0 in
      let ad : AuthData = record {
        rp_id_hash = take 32 raw;
        flags = flags;
        sign_count =
            get_or raw 33 0 * 2 ^ 24
            + get_or raw 34 0 * 2 ^ 16
            + get_or raw 35 0 * 2 ^ 8
            + get_or raw 36 0;
        aaguid = [];
        credential_id = [];
        public_key = [];
      } in
      if has_attested_data flags then parse_attested ad (drop 37 raw) else some ad

-- The value of a map under an integer key: its keys are distinct.
value_of : ℤ → Entries → Option Item
value_of k end = none
value_of k (entry j v es) = if same_key j (int k) then some v else value_of k es

as_int : Option Item → Option ℤ
as_int (some (int n)) = some n
as_int _ = none

as_bytes : Option Item → Option (List ℕ)
as_bytes (some (bytes b)) = some b
as_bytes _ = none

-- `intVal`, with Go's zero value where the key is absent or holds no integer.
int_val : ℤ → Entries → ℤ
unfolding value_of as_int
int_val k es = elim (as_int (value_of k es)) [ none ↦ pos 0 | some n ↦ n ]

bytes_val : ℤ → Entries → Option (List ℕ)
unfolding value_of as_bytes
bytes_val k es = as_bytes (value_of k es)

-- `big.Int.SetBytes`
unfoldable pub set_bytes : ℕ → List ℕ → ℕ
set_bytes v [] = v
set_bytes v (b ∷ bs) = set_bytes (v * 256 + b) bs

abbrev pub p256 : ℕ
p256 = 0xffffffff00000001000000000000000000000000ffffffffffffffffffffffff

abbrev pub p256_b : ℕ
p256_b = 0x5ac635d8aa3a93e7b3ebbd55769886bc651d06b0cc53b0f63bce3c3e27d2604b

-- What `ECDH` checks of a P-256 point: reduced coordinates that satisfy the curve's equation.
unfoldable pub on_curve : ℕ → ℕ → Bool
on_curve x y =
    ltb x p256 && (ltb y p256 && (y * y % p256) == ((x * x * x + (p256 - 3) * x + p256_b) % p256))

pub data CoseKey : Type 0 where
  ec : ℕ → ℕ → CoseKey
  rsa : ℕ → ℕ → CoseKey
  ed : List ℕ → CoseKey

ec_key : Option (List ℕ) → Option (List ℕ) → Option CoseKey
unfolding set_bytes on_curve
ec_key (some x) (some y) =
    if length x == 32 && length y == 32
    then (if on_curve (set_bytes 0 x) (set_bytes 0 y)
        then some (ec (set_bytes 0 x) (set_bytes 0 y))
        else none)
    else none
ec_key _ _ = none

-- The exponent must fit an int64, be at least 3, and be odd.
rsa_key : Option (List ℕ) → Option (List ℕ) → Option CoseKey
unfolding set_bytes
rsa_key (some n) (some e) =
    if ltb (length n) 256 || (ltb 1024 (length n) || (length e == 0 || ltb 8 (length e)))
    then none
    else let exponent = set_bytes 0 e in
      if leb (2 ^ 63) exponent || (ltb exponent 3 || exponent % 2 == 0)
      then none
      else some (rsa (set_bytes 0 n) exponent)
rsa_key _ _ = none

ed_key : Option (List ℕ) → Option CoseKey
ed_key (some x) = if length x == 32 then some (ed x) else none
ed_key none = none

-- The `switch` of `parseCOSEKey` on the key type and the algorithm.
unfoldable pub cose_key : Entries → Option CoseKey
unfolding int_val bytes_val ec_key rsa_key ed_key
cose_key es =
    let kty = int_val (pos 1) es in
    let alg = int_val (pos 3) es in
    if int_eqb kty (pos 2) && int_eqb alg (negsuc 6)
    then (if int_eqb (int_val (negsuc 0) es) (pos 1)
        then ec_key (bytes_val (negsuc 1) es) (bytes_val (negsuc 2) es)
        else none)
    else if int_eqb kty (pos 3) && int_eqb alg (negsuc 256)
    then rsa_key (bytes_val (negsuc 0) es) (bytes_val (negsuc 1) es)
    else if int_eqb kty (pos 1) && int_eqb alg (negsuc 7)
    then (if int_eqb (int_val (negsuc 0) es) (pos 6)
        then ed_key (bytes_val (negsuc 1) es)
        else none)
    else none

key_of_item : Option Item → Option CoseKey
unfolding cose_key
key_of_item (some (dict es)) = cose_key es
key_of_item _ = none

-- `parseCOSEKey`
unfoldable pub parse_cose_key : List ℕ → Option CoseKey
unfolding key_of_item
parse_cose_key raw = key_of_item (decode raw)
