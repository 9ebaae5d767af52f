-- ===== src/Examples/Webauthn.antt =====
-- Messages, authenticator data and keys.
use go_dev_auth.Prelude.{
  ℕ, zero, suc, ◌≡◌, refl, ◌≤◌, ◌⊎◌, true, false, some, List, [], ◌∷◌, ◌++◌, length, take, drop,
  get_or, pos,
}
use go_dev_auth.Passkey.Cbor.{Item, int, bytes, dict, end, entry, item, decode, decode_prefix}
use go_dev_auth.Passkey.Cbor.Bounds.{decode_prefix_exact, size}
use go_dev_auth.Passkey.Cbor.Shape.{depth}
use go_dev_auth.Passkey.Cbor.Valid.{decode_prefix-IsValid, IsValid}
use go_dev_auth.Passkey.Webauthn.{AuthData, parse_auth_data, has_attested_data, ed, parse_cose_key}
use go_dev_auth.Passkey.Webauthn.Layout.{IsAttested, HasLayout, parse_auth_data_layout}
use go_dev_auth.Passkey.Webauthn.Keys.{IsSound, parse_cose_key-IsSound}

abbrev zeros : ℕ → List ℕ
zeros zero = []
zeros (suc n) = 0 ∷ zeros n

-- A map of one entry, and a byte behind it.
abbrev message : List ℕ
message = 0xa1 ∷ 0x01 ∷ 0x41 ∷ 0x07 ∷ 0xff ∷ []

abbrev decoded : Item
decoded = dict (entry (int (pos 1)) (bytes (7 ∷ [])) end)

message-decoded : decode_prefix message ≡ some (decoded, 4)
unfolding decode_prefix item
message-decoded = refl

decode_prefix_exact_example :
    (4 ≤ length message)
    × (size decoded ≤ 4)
    × (decode_prefix (take 4 message ++ (1 ∷ 2 ∷ [])) ≡ some (decoded, 4))
decode_prefix_exact_example = decode_prefix_exact message decoded 4 (1 ∷ 2 ∷ []) message-decoded

decode_prefix-IsValid_example : (depth decoded ≤ 32) × IsValid decoded
decode_prefix-IsValid_example = decode_prefix-IsValid message decoded 4 message-decoded

abbrev attested : List ℕ
attested = zeros 32 ++ (0x41 ∷ 0 ∷ 0 ∷ 0 ∷ 5 ∷ (zeros 16 ++ (0 ∷ 2 ∷ 8 ∷ 9 ∷ 0x20 ∷ [])))

abbrev parsed : AuthData
parsed = record {
  rp_id_hash = zeros 32;
  flags = 0x41;
  sign_count = 5;
  aaguid = zeros 16;
  credential_id = 8 ∷ 9 ∷ [];
  public_key = 0x20 ∷ [];
}

attested-parsed : parse_auth_data attested ≡ some parsed
unfolding parse_auth_data decode_prefix item
attested-parsed = refl

parse_auth_data_layout_example :
    (37 ≤ length attested)
    × (parsed.rp_id_hash ≡ take 32 attested)
    × (parsed.flags ≡ get_or attested 32 0)
    × ((has_attested_data parsed.flags ≡ true)
          × IsAttested parsed
          × HasLayout (drop 37 attested) parsed
        ⊎ (has_attested_data parsed.flags ≡ false)
          × (parsed.credential_id ≡ [])
          × (parsed.public_key ≡ []))
parse_auth_data_layout_example = parse_auth_data_layout attested parsed attested-parsed

abbrev ed_message : List ℕ
ed_message = 0xa4 ∷ 0x01 ∷ 0x01 ∷ 0x03 ∷ 0x27 ∷ 0x20 ∷ 0x06 ∷ 0x21 ∷ 0x58 ∷ 0x20 ∷ zeros 32

ed_parsed : parse_cose_key ed_message ≡ some (ed (zeros 32))
unfolding parse_cose_key decode item
ed_parsed = refl

parse_cose_key-IsSound_example : IsSound (ed (zeros 32))
parse_cose_key-IsSound_example = parse_cose_key-IsSound ed_message (ed (zeros 32)) ed_parsed
