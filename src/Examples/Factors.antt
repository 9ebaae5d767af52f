-- ===== src/Examples/Factors.antt =====
-- Second factors on small tables.
use Prim.Native.String
use Prim.Native.Char.{Char, code}
use go_dev_auth.Prelude.{
  ℕ, ◌+◌, ◌^◌, ◌<◌, ◌≤◌, ◌≡◌, ◌⊎◌, inl, inr, refl, ap, subst, String, Bool, ◌&&◌, Option, none,
  some, List, [], ◌∷◌, arith, pos, str_eq, ltb, eq_refl, if◌then◌else◌, ◌==◌,
}
use go_dev_auth.Prelude.Assoc.{lookup, ne_of_str_eq}
use go_dev_auth.Prelude.Decimal.{itoa, has_code}
use go_dev_auth.Prelude.Text.{codes}
use mathlib.Core.Option.{some_inj}
use go_dev_auth.Prelude.Result.{ok}
use go_dev_auth.Storage.Value.{text, integer, int64, equal}
use go_dev_auth.Storage.Filter.{Record, field, matches, match_one}
use go_dev_auth.Storage.Filter.Laws.{matches-w_text}
use go_dev_auth.Storage.Contract.{select}
use go_dev_auth.Storage.Swap.{by_id}
use go_dev_auth.Otp.{verify_totp_counter, counter_at}
use go_dev_auth.Otp.Window.{IsMatch, verify_totp_counter-IsMatch}
use go_dev_auth.Token.{Table, store_token_value}
use go_dev_auth.TwoFactor.{
  record_int, fail_attempt, PendingChallenge, kind_pending, pending_ttl, parse_pending_value,
}
use go_dev_auth.TwoFactor.Counter
use go_dev_auth.TwoFactor.Counter.{accepted, accepted-IsIncreasing, IsIncreasing}
use go_dev_auth.TwoFactor.Pending.{guesses, promised, guesses-promised, IsTimely}
use go_dev_auth.TwoFactor.Handlers.{Environment, encrypt_backup_codes, decrypt_backup_codes}
use go_dev_auth.TwoFactor.Backup
use go_dev_auth.TwoFactor.Backup.{count_spent, count_spent-le, stock, IsSealing}
use go_dev_auth.TwoFactor.Trust.{
  device_trusted, set_trusted_device, device_trusted-set_trusted_device,
}

abbrev enrolled : Record
enrolled =
    ("id", text "7")
    ∷ ("userId", text "u")
    ∷ ("lastCounter", integer int64 (pos 100))
    ∷ ("backupCodes", text "1a01b0")
    ∷ []

abbrev factors : Table
factors = enrolled ∷ []

found : select (by_id "7") factors ≡ enrolled ∷ []
unfolding select
found = rw ((matches-w_text enrolled "id" "7").1 (unfold lookup in refl)) refl

-- A code is shown twice, by requests that have read the same record; a newer one follows, and the
-- factor is removed.
abbrev codes_shown : List Counter.Call
codes_shown =
    Counter.claim_of enrolled 101
    ∷ Counter.claim_of enrolled 101
    ∷ Counter.claim_of enrolled 102
    ∷ Counter.other (λ rows. [])
    ∷ []

shown : (counter : ℕ) → counter < 2 ^ 53 → Counter.IsCall "7" (Counter.claim_of enrolled counter)
unfolding field
shown counter small = (refl, small, (100, omega arith, unfold record_int in refl))

accepted-IsIncreasing_example : IsIncreasing 100 (accepted codes_shown factors)
accepted-IsIncreasing_example =
    accepted-IsIncreasing "7" 100 codes_shown factors (omega arith)
      (
        shown 101 (omega arith),
        (
          shown 101 (omega arith),
          (shown 102 (omega arith), ((λ m rows at. inl (unfold select in refl)), tt)),
        ),
      )
      (inr (enrolled, found, unfold field in refl))

abbrev challenge : PendingChallenge
challenge = record { user_id = "u"; token = "t"; attempts = pos 0 }

abbrev three_left : Table
three_left = store_token_value (λ s. s) "8" kind_pending "t" "u|2" pending_ttl 20 []

abbrev wrong_codes : List (String × ℕ)
wrong_codes = ("9", 30) ∷ ("10", 40) ∷ []

codes-IsTimely : IsTimely (λ s. s) challenge 20 (("9", 30) ∷ ("10", 40) ∷ []) three_left
codes-IsTimely = (
  unfold select store_token_value matches match_one equal in refl,
  omega arith,
  (unfold fail_attempt select store_token_value matches match_one equal in refl, omega arith, tt),
)

guesses-promised_example :
    (guesses (λ s. s) challenge wrong_codes three_left).0 ≡ promised 3 wrong_codes
guesses-promised_example =
    guesses-promised (λ s. s) challenge "8" "u|2" 2 2 20 wrong_codes [] (ne_of_str_eq "t" "" refl)
      (unfold has_code in refl) (unfold select in refl) (unfold parse_pending_value in refl) refl
      codes-IsTimely

abbrev number_code : ℕ → Option String
number_code c = some (itoa (pos c))

verify_totp_counter-IsMatch_example :
    ((verify_totp_counter number_code 30 1 3000 "101" ≡ none)
      × ((c : ℕ) → IsMatch number_code "101" 1 (counter_at 30 3000) c → ⊥))
    ⊎ ((c : ℕ) × (verify_totp_counter number_code 30 1 3000 "101" ≡ some c)
        × IsMatch number_code "101" 1 (counter_at 30 3000) c
        × ((d : ℕ) → d < c → IsMatch number_code "101" 1 (counter_at 30 3000) d → ⊥))
verify_totp_counter-IsMatch_example =
    verify_totp_counter-IsMatch number_code 30 1 3000 "101" (λ c e. cc e)

abbrev sign : String → String
sign payload = String.◌++◌ payload "!"

abbrev check : String → String → Bool
check payload sig = str_eq sig (sign payload)

device_trusted-set_trusted_device_example :
    device_trusted check 60 "u" 1050 "u|1060|u|1060!" ≡ (str_eq "u" "u" && ltb 1050 (1000 + 60))
device_trusted-set_trusted_device_example =
    device_trusted-set_trusted_device sign check 60 "u" "u" 1000 1050 "u|1060|u|1060!"
      (λ payload. eq_refl (sign payload)) (unfold has_code in refl) (omega arith)
      (unfold set_trusted_device in refl)

-- A text for a list of texts: each character with a 1 in front of it, and a 0 behind each text.
word : String → String → String
word String.[] rest = String.◌∷◌ "0" rest
word (String.◌∷◌ c s) rest = String.◌∷◌ "1" (String.◌∷◌ c (word s rest))

abbrev longer : Char → Option (List String) → Option (List String)
longer c none = none
longer c (some []) = none
longer c (some (s ∷ list)) = some (String.◌∷◌ c s ∷ list)

abbrev next_word : Option (List String) → Option (List String)
next_word none = none
next_word (some list) = some ("" ∷ list)

written : List String → String
written [] = ""
written (s ∷ list) = word s (written list)

read : String → Option (List String)
read String.[] = some []
read (String.◌∷◌ mark String.[]) = if code mark == b'0' then next_word (some []) else none
read (String.◌∷◌ mark (String.◌∷◌ c s)) =
    let here = read s in
    let next = read (String.◌∷◌ c s) in if code mark == b'0' then next_word next else longer c here

read-word :
    (s rest : String) (list : List String)
    → read rest ≡ some list
    → read (word s rest) ≡ some (s ∷ list)
unfolding read word
read-word String.[] String.[] list h = ap next_word h
read-word String.[] (String.◌∷◌ c rest) list h = ap next_word h
read-word (String.◌∷◌ c s) rest list h = rw (read-word s rest list h) refl

read-written : (list : List String) → read (written list) ≡ some list
unfolding read written
read-written [] = refl
read-written (s ∷ list) = read-word s (written list) list (read-written list)

abbrev env : Environment
env = record {
  hash = λ s. s;
  encrypt = λ nonce id name s. some s;
  decrypt = λ id name s. some s;
  marshal = written;
  unmarshal = read;
  decode = λ s. none;
  codes_of = λ s c. none;
  period = 30;
  skew = 1;
}

sealing : IsSealing env
unfolding encrypt_backup_codes decrypt_backup_codes
sealing nonce id sealed list e =
    let same : written list ≡ sealed = some_inj.0 e in
    subst (λ s. decrypt_backup_codes env id s ≡ ok list) same
      (rw (decrypt_backup_codes, read-written list) refl)

-- One code is sent twice, by requests that have read the same record.
abbrev codes_spent : List Backup.Call
codes_spent = Backup.spend_of 0 enrolled "a" ∷ Backup.spend_of 1 enrolled " A " ∷ []

of_enrolled :
    (nonce : ℕ) (code : String) → Backup.IsCall env "7" (Backup.spend_of nonce enrolled code)
unfolding field
of_enrolled nonce code = (refl, ("1a01b0", refl))

count_spent-le_example :
    count_spent env (codes "a") codes_spent factors ≤ stock (codes "a") ("a" ∷ "b" ∷ [])
count_spent-le_example =
    count_spent-le env "7" (codes "a") ("a" ∷ "b" ∷ []) codes_spent factors sealing
      (of_enrolled 0 "a", (of_enrolled 1 " A ", tt))
      (inr
        (enrolled, "1a01b0", found, unfold field in refl, unfold decrypt_backup_codes read in refl))
