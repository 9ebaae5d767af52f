-- ===== src/Passkey/Cbor/Tests.antt =====
-- Messages decoded.
use go_dev_auth.Prelude.{◌≡◌, refl, none, some, [], ◌∷◌, negsuc, pos}
use go_dev_auth.Passkey.Cbor.{int, dict, end, entry, item, decode, decode_prefix, bytes}

decode_map :
    decode (0xa2 ∷ 0x01 ∷ 0x02 ∷ 0x03 ∷ 0x26 ∷ [])
    ≡ some (dict (entry (int (pos 1)) (int (pos 2)) (entry (int (pos 3)) (int (negsuc 6)) end)))
unfolding decode item
decode_map = refl

decode_duplicate : decode (0xa2 ∷ 0x01 ∷ 0x02 ∷ 0x01 ∷ 0x26 ∷ []) ≡ none
unfolding decode item
decode_duplicate = refl

decode_trailing : decode_prefix (0x41 ∷ 0x07 ∷ 0x09 ∷ []) ≡ some (bytes (7 ∷ []), 2)
unfolding decode_prefix item
decode_trailing = refl
