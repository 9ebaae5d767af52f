-- ===== src/Examples/Vaults.antt =====
-- A rotation from one secret to another, on a table of two-factor records.
use go_dev_auth.Prelude.{
  ℕ, zero, suc, ◌≡◌, refl, ap, sym, subst, ◌∙◌, String, true, false, ◌||◌, Option, some, List, [],
  ◌∷◌, ◌++◌, arith, str_eq, eq_iff, eq_refl, ltb, Bool-cases, take, reverse, if◌then◌else◌, length,
  inl, inr, All,
}
use mathlib.Core.Option.{some_inj}
use go_dev_auth.Prelude.Assoc.{lookup}
use go_dev_auth.Prelude.Result.{ok, err}
use go_dev_auth.Prelude.Text.{codes, codes_lt}
use go_dev_auth.Prelude.Split.{split}
use go_dev_auth.Storage.Error.{failed}
use go_dev_auth.Storage.Value.{
  Value, null, text, boolean, integer, time, op_gt, str, equal, compare, compare_texts,
}
use go_dev_auth.Storage.Filter.{Record, Where, field, matches, match_one}
use go_dev_auth.Storage.Contract.{select, update_many}
use go_dev_auth.Storage.Swap.{by_id}
use go_dev_auth.Token.{Table}
use go_dev_auth.Keyring.{
  Bytes, Binding, Keyring, is_complete, key_of, secrets, member, new_keyring, add_previous, encrypt,
  decrypt, needs_reencryption, is_stale, v2,
}
use go_dev_auth.Keyring.Bindings.{IsAddressable}
use go_dev_auth.Keyring.Opening.{IsDistinct}
use go_dev_auth.Keyring.Rotation.{IsRandom, is_configured, decrypt-encrypt}
use go_dev_auth.Keyring.Pruning.{decrypt-eq, decrypt-pruned, encrypt-needs_reencryption}
use go_dev_auth.Secrets.{
  Vault, Database, Progress, no_tally, reencrypt_field, reencrypt_fields, reencrypt_behind, behind,
  is_done, reencrypt_batch, reencrypt_record, reencrypt_body, body_of, text_lt,
}
use go_dev_auth.Secrets.Swap.{IsUpdating, IsMigrated, reencrypt_field-IsMigrated}
use go_dev_auth.Secrets.Pass.{IsListing, id_of, ids}
use go_dev_auth.Secrets.Done.{IsIn, IsPaging, IsKeyed}
use go_dev_auth.Secrets.Finish.{IsIndependent, reencrypt_fields-pruned}
use go_dev_auth.Secrets.Ends.{reencrypt_fields-ends}
use go_dev_auth.Examples.Cipher.{gcm, primitives, primitives-IsSound}

abbrev before : Keyring
before = new_keyring "first-alpha" [] false

abbrev after : Keyring
after = new_keyring "second-beta" ("first-alpha" ∷ []) true

abbrev place : Binding
place = record { model = "twoFactor"; row = "7"; column = "secret" }

abbrev zeros : ℕ → Bytes
zeros zero = []
zeros (suc n) = 0 ∷ zeros n

length-zeros : (n : ℕ) → length (zeros n) ≡ n
length-zeros zero = refl
length-zeros (suc n) = ap suc (length-zeros n)

abbrev random : ℕ → Option Bytes
random n = some (zeros n)

random-IsRandom : IsRandom random
random-IsRandom n = (zeros n, refl, length-zeros n)

place-is_complete : is_complete place ≡ true
unfolding is_complete
place-is_complete = refl

first-is_configured : is_configured "first-alpha" "second-beta" ("first-alpha" ∷ []) ≡ true
unfolding member
first-is_configured = refl

-- The identifiers of the two secrets.
kid_of : String → String
unfolding primitives
kid_of s = primitives.encode (take 6 (reverse (codes "go-dev-auth-enc-v1:kid" ++ codes s)))

kids_differ : str_eq (kid_of "second-beta") (kid_of "first-alpha") ≡ false
unfolding kid_of primitives
kids_differ = refl

key-first : key_of primitives "first-alpha" ≡ some ((kid_of "first-alpha"), gcm)
unfolding key_of primitives kid_of
key-first = refl

key-second : key_of primitives "second-beta" ≡ some ((kid_of "second-beta"), gcm)
unfolding key_of primitives kid_of
key-second = refl

after-IsDistinct : IsDistinct primitives "first-alpha" (secrets after)
unfolding member new_keyring add_previous
after-IsDistinct other kid g g' m k k' = elim (Bool-cases (str_eq "second-beta" other)) [
  | inr e ↦ sym ((eq_iff "first-alpha" other).0 (ground arith))
  | inl e ↦
      let same : "second-beta" ≡ other = (eq_iff "second-beta" other).0 e in
      let one = ap (λ x. x.0) (some_inj.0 (sym key-first ∙ k)) in
      let two = ap (λ x. x.0) (some_inj.0 (sym key-second ∙ ap (key_of primitives) same ∙ k')) in
      absurd (
        ground
          (arith, kids_differ, eq_iff (kid_of "second-beta") (kid_of "first-alpha"), two ∙ sym one))
]

second-IsDistinct : IsDistinct primitives "second-beta" (secrets after)
unfolding member new_keyring add_previous
second-IsDistinct other kid g g' m k k' = elim (Bool-cases (str_eq "second-beta" other)) [
  | inl e ↦ sym ((eq_iff "second-beta" other).0 e)
  | inr e ↦
      let same : "first-alpha" ≡ other = (eq_iff "first-alpha" other).0 (ground arith) in
      let two = ap (λ x. x.0) (some_inj.0 (sym key-second ∙ k)) in
      let one = ap (λ x. x.0) (some_inj.0 (sym key-first ∙ ap (key_of primitives) same ∙ k')) in
      absurd (
        ground
          (arith, kids_differ, eq_iff (kid_of "second-beta") (kid_of "first-alpha"), two ∙ sym one))
]

decrypt-encrypt_example :
    (out : String) × (encrypt primitives before random place "JBSWY3DP" ≡ ok out)
    × (decrypt primitives after place out ≡ ok "JBSWY3DP")
decrypt-encrypt_example =
    decrypt-encrypt primitives primitives-IsSound "first-alpha" "second-beta" []
      ("first-alpha" ∷ []) false true random place "JBSWY3DP" random-IsRandom place-is_complete
      first-is_configured after-IsDistinct

-- The value that the first ring writes.
old : String
old = decrypt-encrypt_example.0

place-IsAddressable : IsAddressable place
place-IsAddressable = (omega arith, omega arith, omega arith)

decrypt-eq_example : (place ≡ place) × (◌≡◌ {A = String} "JBSWY3DP" "JBSWY3DP")
decrypt-eq_example =
    decrypt-eq primitives primitives-IsSound "first-alpha" "second-beta" [] ("first-alpha" ∷ [])
      false true random place place "JBSWY3DP" decrypt-encrypt_example.0 "JBSWY3DP" random-IsRandom
      place-is_complete place-IsAddressable place-IsAddressable first-is_configured after-IsDistinct
      decrypt-encrypt_example.1 decrypt-encrypt_example.2

-- A value that the second ring writes.
renewed :
    (out : String) × (encrypt primitives after random place "JBSWY3DP" ≡ ok out)
    × (decrypt primitives after place out ≡ ok "JBSWY3DP")
renewed =
    decrypt-encrypt primitives primitives-IsSound "second-beta" "second-beta" ("first-alpha" ∷ [])
      ("first-alpha" ∷ []) true true random place "JBSWY3DP" random-IsRandom place-is_complete refl
      second-IsDistinct

renewed-current : needs_reencryption primitives after renewed.0 ≡ false
renewed-current =
    encrypt-needs_reencryption primitives after random place "JBSWY3DP" renewed.0 primitives-IsSound
      random-IsRandom place-is_complete renewed.1

decrypt-pruned_example :
    decrypt primitives (new_keyring after.current [] true) place renewed.0
    ≡ decrypt primitives after place renewed.0
decrypt-pruned_example = decrypt-pruned primitives after place renewed.0 renewed-current

abbrev vault : Vault
vault = record { primitives = primitives; keyring = after; random = random }

-- A table that lists up to 199 records.
abbrev database : Database
database = record {
  find_many =
      λ cs o rows. if ltb (length (select cs rows)) 200 then ok (select cs rows) else err failed;
  update_many = λ cs u rows. let (n, rows') = update_many cs u rows in (ok n, rows');
}

database-IsUpdating : IsUpdating database
database-IsUpdating cs u rows = inl ((update_many cs u rows).0, refl, refl)

listed :
    (cs : List Where) (all rows : Table)
    → ((i : String) → member i (ids rows) ≡ true → member i (ids all) ≡ true)
    → All (λ r. member (id_of r) (ids all) ≡ true) (select cs rows)
unfolding select member
listed cs all [] sub = tt
listed cs all (r ∷ rows) sub =
    let rest = listed cs all rows (λ i m. sub i (ground arith)) in
    elim (Bool-cases (matches r cs)) [
      | inl e ↦ rw e (sub (id_of r) (rw (eq_refl (id_of r)) refl), rest)
      | inr e ↦ rw e rest
    ]

database-IsListing : IsListing database
database-IsListing last rows = elim (Bool-cases (ltb (length (select (behind last) rows)) 200)) [
  | inl e ↦ inl (select (behind last) rows, rw e refl, listed (behind last) rows rows (λ i m. m))
  | inr e ↦ inr (failed, rw e refl)
]

abbrev factor : Record
factor = ("id", text "7") ∷ ("secret", text old) ∷ []

factor-one : select (by_id "7") (factor ∷ []) ≡ factor ∷ []
unfolding select matches match_one equal field lookup
factor-one = refl

reencrypt_field-IsMigrated_example :
    IsMigrated vault "twoFactor" false "7" "secret" factor factor
      (reencrypt_field vault database "twoFactor" false "7" "secret" factor (factor ∷ []))
unfolding new_keyring
reencrypt_field-IsMigrated_example =
    reencrypt_field-IsMigrated vault database "twoFactor" false "7" "secret" factor factor
      (factor ∷ []) primitives-IsSound random-IsRandom second-IsDistinct database-IsUpdating
      place-is_complete refl factor-one

reencrypt_fields-ends_example :
    reencrypt_behind 9 vault database "twoFactor" false
      ("secret" ∷ [])
      ""
      (record { tally = no_tally; errors = []; rows = factor ∷ [] })
    ≡ reencrypt_fields vault database "twoFactor" false ("secret" ∷ []) (factor ∷ [])
reencrypt_fields-ends_example =
    reencrypt_fields-ends vault database "twoFactor" false database-IsUpdating database-IsListing
      ("secret" ∷ []) (refl, tt) 9 (factor ∷ []) (omega arith)

-- A record that the second ring has written.
abbrev fresh : Record
fresh = ("id", text "7") ∷ ("secret", text (v2 (kid_of "second-beta") "ab")) ∷ []

codes_lt-nil : (s : List ℕ) → codes_lt s [] ≡ false
unfolding codes_lt
codes_lt-nil [] = refl
codes_lt-nil (a ∷ s) = refl

compare-text : (u : Value) (last : String) → compare u (text last) op_gt ≡ text_lt last (str u)
unfolding compare compare_texts text_lt str
compare-text (text s) last = refl
compare-text null last = sym (codes_lt-nil (codes last))
compare-text (boolean b) last = sym (codes_lt-nil (codes last))
compare-text (integer k n) last = sym (codes_lt-nil (codes last))
compare-text (time t) last = sym (codes_lt-nil (codes last))

matches-behind :
    (r : Record) (last : String)
    → matches r (behind last) ≡ (str_eq last "" || text_lt last (id_of r))
unfolding matches behind match_one
matches-behind r last = elim (Bool-cases (str_eq last "")) [
  | inl e ↦ rw e refl
  | inr e ↦ rw e (compare-text (field r "id") last)
]

selected :
    (cs : List Where) (rows : Table) (q : Record)
    → IsIn q (select cs rows)
    → IsIn q rows × (matches q cs ≡ true)
unfolding select
selected cs [] q h = absurd h
selected cs (r ∷ rows) q h = elim (Bool-cases (matches r cs)) [
  | inl e ↦ elim (rw e at h) [
    | inl same ↦ (inl same, subst (λ x. matches x cs ≡ true) same e)
    | inr i ↦ let (j, m) = selected cs rows q i in (inr j, m)
  ]
  | inr e ↦ let (j, m) = selected cs rows q (rw e at h) in (inr j, m)
]

kept :
    (cs : List Where) (rows : Table) (q : Record)
    → IsIn q rows
    → matches q cs ≡ true
    → IsIn q (select cs rows)
unfolding select
kept cs [] q h m = absurd h
kept cs (r ∷ rows) q (inl same) m = rw (subst (λ x. matches x cs ≡ true) (sym same) m) (inl same)
kept cs (r ∷ rows) q (inr h) m = elim (Bool-cases (matches r cs)) [
  | inl e ↦ rw e (inr (kept cs rows q h m))
  | inr e ↦ rw e (kept cs rows q h m)
]

database-IsPaging : IsPaging database
database-IsPaging last rows = elim (Bool-cases (ltb (length (select (behind last) rows)) 200)) [
  | inl e ↦ inl (
    select (behind last) rows,
    rw e refl,
    λ q h. let (i, m) = selected (behind last) rows q h in (i, sym (matches-behind q last) ∙ m),
    λ q h b. inl (kept (behind last) rows q h (matches-behind q last ∙ b)),
  )
  | inr e ↦ inr (failed, rw e refl)
]

fresh-IsKeyed : IsKeyed (fresh ∷ [])
fresh-IsKeyed r q (inl e) (inl e') k = sym e ∙ e'
fresh-IsKeyed r q (inl e) (inr h) k = elim h [ ]
fresh-IsKeyed r q (inr h) _ k = elim h [ ]

abbrev pass : Progress
pass = reencrypt_fields vault database "twoFactor" false ("secret" ∷ []) (fresh ∷ [])

fresh-is_done : (is_done pass.tally ≡ true) × (pass.errors ≡ [])
unfolding is_done reencrypt_fields reencrypt_behind behind reencrypt_batch reencrypt_record
    reencrypt_field reencrypt_body body_of needs_reencryption is_stale split key_of new_keyring
    add_previous select matches str field lookup text_lt primitives kid_of
fresh-is_done = (refl, refl)

reencrypt_fields-pruned_example :
    (pass.rows ≡ fresh ∷ [])
    × ((r : Record) → IsIn r (fresh ∷ []) → All (IsIndependent vault false r) ("secret" ∷ []))
reencrypt_fields-pruned_example =
    reencrypt_fields-pruned vault database "twoFactor" false database-IsUpdating database-IsPaging
      ("secret" ∷ []) (refl, tt) (fresh ∷ []) fresh-IsKeyed fresh-is_done.0 fresh-is_done.1
