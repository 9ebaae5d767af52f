-- ===== src/Secrets.antt =====
-- secrets.go, and the account tokens of handler_account.go: encryption at rest, and the pass that
-- encrypts stored values again.
-- A pass works on the table of one model, through the two calls of the storage interface that it uses.
pub mod Order
pub mod Pass
pub mod Cases
pub mod Ends
pub mod Done
pub mod Finish
pub mod Cursor
pub mod Swap
use Prim.Native.Char.{code}
use Prim.Native.String.{◌++◌ as str_append}
use go_dev_auth.Prelude.{
  ℕ, zero, suc, ◌+◌, String, Bool, true, false, not, ◌&&◌, ◌||◌, Option, none, some, List, [], ◌∷◌,
  ◌++◌, ◌==◌, str_eq, if◌then◌else◌, length, ltb,
}
use go_dev_auth.Prelude.Result.{Result, ok, err}
use go_dev_auth.Prelude.Text.{codes, codes_lt}
use go_dev_auth.Storage.Error.{AdapterError, not_found}
use go_dev_auth.Storage.Value.{text, str, one, op_gt}
use go_dev_auth.Storage.Filter.{Record, Where, field, connector_default}
use go_dev_auth.Storage.Swap.{holds, set}
use go_dev_auth.Memory.Operations.{FindOptions}
use go_dev_auth.Token.{Table}
use go_dev_auth.Keyring.{
  Bytes, Primitives, Keyring, Binding, CryptoError, encrypt, decrypt, needs_reencryption,
}

-- The key ring of an instance, with its primitives and its source of nonces.
pub record Vault : Type 0 where
  pub primitives : Primitives
  pub keyring : Keyring
  pub random : ℕ → Option Bytes

-- The text behind a prefix, where a text has it.
after_prefix : String → String → Option String
after_prefix String.[] s = some s
after_prefix (String.◌∷◌ c p) String.[] = none
after_prefix (String.◌∷◌ c p) (String.◌∷◌ d s) =
    let rest = after_prefix p s in if code c == code d then rest else none

-- `hasEncPrefix`, with the text behind the prefix.
unfoldable pub enc_body : String → Option String
unfolding after_prefix
enc_body value = elim (after_prefix "enc:" value) [
  | none ↦ none
  | some body ↦ if str_eq body "" then none else some body
]

-- `accountBinding`
abbrev pub account_binding : String → String → Binding
account_binding id f = record { model = "account"; row = id; column = f }

-- `maybeEncrypt` and `maybeDecrypt`
unfoldable pub maybe_encrypt : Vault → Bool → Binding → String → Result CryptoError String
unfolding encrypt
maybe_encrypt v enabled b value =
    if str_eq value "" || not enabled
    then ok value
    else elim (encrypt v.primitives v.keyring v.random b value) [
      | err e ↦ err e
      | ok enc ↦ ok (str_append "enc:" enc)
    ]

unfoldable pub maybe_decrypt : Vault → Binding → String → Result CryptoError String
unfolding enc_body decrypt
maybe_decrypt v b value = elim (enc_body value) [
  | none ↦ ok value
  | some body ↦ decrypt v.primitives v.keyring b body
]

-- The calls of `storage.Adapter` that a pass makes, on the table of its model.
pub record Database : Type 0 where
  pub find_many : List Where → FindOptions → Table → Result AdapterError (List Record)
  pub update_many : List Where → Record → Table → Result AdapterError ℕ × Table

pub data PassError : Type 0 where
  unlisted : AdapterError → PassError
  no_id : PassError
  not_encrypted : CryptoError → PassError
  not_written : AdapterError → PassError

-- The returns of `reencryptField`.
pub data Fate : Type 0 where
  plain : Fate
  current : Fate
  unreadable : Fate
  skipped : Fate
  rewritten : Fate
  failed : PassError → Fate

-- `ReencryptResult`
pub record Tally : Type 0 where
  pub scanned : ℕ
  pub rewritten : ℕ
  pub unreadable : ℕ
  pub skipped : ℕ
  pub failed : ℕ

abbrev pub no_tally : Tally
no_tally = record { scanned = 0; rewritten = 0; unreadable = 0; skipped = 0; failed = 0 }

-- The counts of one field.
abbrev pub tally_of : Fate → Tally
tally_of plain = no_tally
tally_of current = record no_tally { scanned = 1 }
tally_of unreadable = record no_tally { scanned = 1; unreadable = 1 }
tally_of skipped = record no_tally { scanned = 1; skipped = 1 }
tally_of rewritten = record no_tally { scanned = 1; rewritten = 1 }
tally_of (failed e) = record no_tally { scanned = 1; failed = 1 }

-- `ReencryptResult.add`
abbrev pub add : Tally → Tally → Tally
add r o = record {
  scanned = r.scanned + o.scanned;
  rewritten = r.rewritten + o.rewritten;
  unreadable = r.unreadable + o.unreadable;
  skipped = r.skipped + o.skipped;
  failed = r.failed + o.failed;
}

-- `ReencryptResult.Done`
unfoldable pub is_done : Tally → Bool
is_done r = r.rewritten == 0 && r.unreadable == 0 && r.skipped == 0 && r.failed == 0

-- The ciphertext of a stored value: behind "enc:" for an account token (`marked`), the whole elsewhere.
unfoldable pub body_of : Bool → String → Option String
unfolding enc_body
body_of true stored = enc_body stored
body_of false stored = if str_eq stored "" then none else some stored

abbrev pub prefix_of : Bool → String
prefix_of true = "enc:"
prefix_of false = ""

-- What `reencryptField` makes of the answer of `UpdateMany`.
unfoldable pub fate_of : Result AdapterError ℕ → Fate
fate_of (err not_found) = skipped
fate_of (err e) = failed (not_written e)
fate_of (ok zero) = skipped
fate_of (ok (suc n)) = rewritten

-- The compare-and-set of `reencryptField`.
unfoldable pub write_back :
    Database → Bool → String → String → String → String → Table → Fate × Table
unfolding fate_of
write_back db marked id f stored new rows =
    let (n, rows') =
      db.update_many (holds id f (text stored)) (set f (text (str_append (prefix_of marked) new)))
        rows in
    (fate_of n, rows')

unfoldable pub reencrypt_body :
    Vault → Database → Bool → Binding → String → String → Table → Fate × Table
unfolding needs_reencryption decrypt encrypt write_back
reencrypt_body v db marked b stored body rows =
    if not (needs_reencryption v.primitives v.keyring body)
    then (current, rows)
    else elim (decrypt v.primitives v.keyring b body) [
      | err e ↦ (unreadable, rows)
      | ok plaintext ↦ elim (encrypt v.primitives v.keyring v.random b plaintext) [
        | err e ↦ (failed (not_encrypted e), rows)
        | ok new ↦ write_back db marked b.row b.column stored new rows
      ]
    ]

-- `reencryptField`
unfoldable pub reencrypt_field :
    Vault → Database → String → Bool → String → String → Record → Table → Fate × Table
unfolding str field body_of reencrypt_body
reencrypt_field v db model marked id f rec rows =
    let stored = str (field rec f) in
    elim (body_of marked stored) [
      | none ↦ (plain, rows)
      | some body ↦
          reencrypt_body v db marked (record { model = model; row = id; column = f }) stored body
            rows
    ]

-- What a pass has done so far.
pub record Progress : Type 0 where
  pub tally : Tally
  pub errors : List PassError
  pub rows : Table

abbrev errors_of : Fate → List PassError
errors_of (failed e) = e ∷ []
errors_of plain = []
errors_of current = []
errors_of unreadable = []
errors_of skipped = []
errors_of rewritten = []

-- The loop over the fields of a record.
unfoldable pub reencrypt_record :
    Vault → Database → String → Bool → List String → String → Record → Progress → Progress
unfolding reencrypt_field
reencrypt_record v db model marked [] id rec st = st
reencrypt_record v db model marked (f ∷ fs) id rec st =
    let (fate, rows') = reencrypt_field v db model marked id f rec st.rows in
    reencrypt_record v db model marked fs id rec (record {
      tally = add st.tally (tally_of fate);
      errors = st.errors ++ errors_of fate;
      rows = rows';
    })

-- Go's `<` on texts.
unfoldable pub text_lt : String → String → Bool
unfolding codes_lt
text_lt s t = codes_lt (codes s) (codes t)

-- The loop over the records of a batch, with the largest id so far.
unfoldable pub reencrypt_batch :
    Vault
    → Database
    → String
    → Bool
    → List String
    → List Record
    → String
    → Progress
    → String × Progress
unfolding str field text_lt reencrypt_record
reencrypt_batch v db model marked fs [] last st = (last, st)
reencrypt_batch v db model marked fs (rec ∷ records) last st =
    let id = str (field rec "id") in
    reencrypt_batch v db model marked fs records (if text_lt last id then id else last) (
      if str_eq id ""
      then (record {
        tally = add st.tally (record no_tally { failed = 1 });
        errors = st.errors ++ no_id ∷ [];
        rows = st.rows;
      })
      else reencrypt_record v db model marked fs id rec st)

abbrev pub batch_size : ℕ
batch_size = 200

-- The filter behind the cursor, and the options of a batch.
unfoldable pub behind : String → List Where
behind last =
    if str_eq last ""
    then []
    else record {
      name = "id";
      operator = op_gt;
      value = one (text last);
      connector = connector_default;
    }
      ∷ []

abbrev pub batch_options : FindOptions
batch_options = record {
  limit = batch_size;
  offset = 0;
  sort_by = some (record { name = "id"; descending = false });
}

-- The loop of `reencryptFields` behind a cursor, on fuel.
unfoldable pub reencrypt_behind :
    ℕ → Vault → Database → String → Bool → List String → String → Progress → Progress
unfolding behind reencrypt_batch
reencrypt_behind zero v db model marked fs last st = st
reencrypt_behind (suc fuel) v db model marked fs last st =
    elim (db.find_many (behind last) batch_options st.rows) [
      | err e ↦ record st { errors = st.errors ++ unlisted e ∷ [] }
      | ok [] ↦ st
      | ok (r ∷ rs) ↦
          let (next, st') = reencrypt_batch v db model marked fs (r ∷ rs) last st in
          let more = reencrypt_behind fuel v db model marked fs next st' in
          if str_eq next last || ltb (length (r ∷ rs)) batch_size then st' else more
    ]

-- `reencryptFields`; a batch moves the cursor past a record, so the number of records is enough fuel.
unfoldable pub reencrypt_fields : Vault → Database → String → Bool → List String → Table → Progress
unfolding reencrypt_behind
reencrypt_fields v db model marked fs rows =
    reencrypt_behind (suc (length rows)) v db model marked fs ""
      (record { tally = no_tally; errors = []; rows = rows })

-- `reencryptAccountTokens` and `ReencryptRecords`
abbrev pub reencrypt_account_tokens : Vault → Database → Table → Progress
unfolding reencrypt_fields
reencrypt_account_tokens v db rows =
    reencrypt_fields v db "account" true ("accessToken" ∷ "refreshToken" ∷ "idToken" ∷ []) rows

abbrev pub reencrypt_records : Vault → Database → String → List String → Table → Progress
unfolding reencrypt_fields
reencrypt_records v db model fs rows = reencrypt_fields v db model false fs rows
