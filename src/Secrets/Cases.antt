-- ===== src/Secrets/Cases.antt =====
-- secrets.go: the ways through `reencryptField`.
use go_dev_auth.Prelude.{
  ◌≡◌, ◌≢◌, ◌⊎◌, refl, sym, subst, ◌∙◌, String, Bool, true, false, some, Bool-cases, Option-cases,
  inl, inr,
}
use mathlib.Core.Option.{some_inj}
use go_dev_auth.Prelude.Result.{ok, Result-cases}
use go_dev_auth.Storage.Value.{str}
use go_dev_auth.Storage.Filter.{Record, field}
use go_dev_auth.Token.{Table}
use go_dev_auth.Keyring.{Binding, encrypt, decrypt, needs_reencryption}
use go_dev_auth.Secrets.{
  Vault, Database, Fate, plain, current, unreadable, rewritten, failed, not_encrypted, tally_of,
  is_done, body_of, write_back, reencrypt_body, reencrypt_field,
}

module _ (v : Vault) (db : Database) (model : String) (marked : Bool) (id f : String) (rec : Record)
    (rows : Table) where
  abbrev place : Binding
  place = record { model = model; row = id; column = f }

  abbrev stored : String
  stored = str (field rec f)

  -- Nothing is written; if nothing is reported either, the value needs nothing.
  abbrev pub IsKept : Fate × Table → Type 0
  IsKept out =
      (fate : Fate) × (out ≡ (fate, rows))
      × (fate ≢ rewritten)
      × ((body : String)
          → body_of marked stored ≡ some body
          → is_done (tally_of fate) ≡ true
          → needs_reencryption v.primitives v.keyring body ≡ false)

  -- The value is opened and encrypted again, and the write is tried.
  abbrev pub IsTried : Fate × Table → Type 0
  IsTried out =
      (body plaintext new : String) × (body_of marked stored ≡ some body)
      × (decrypt v.primitives v.keyring place body ≡ ok plaintext)
      × (encrypt v.primitives v.keyring v.random place plaintext ≡ ok new)
      × (out ≡ write_back db marked id f stored new rows)

  reencrypt_body-cases :
      (body : String)
      → body_of marked stored ≡ some body
      → IsKept (reencrypt_body v db marked place stored body rows)
        ⊎ IsTried (reencrypt_body v db marked place stored body rows)
  unfolding reencrypt_body is_done
  reencrypt_body-cases body e = elim (Bool-cases (needs_reencryption v.primitives v.keyring body)) [
    | inr c ↦ inl (current, rw c refl, λ k. cc k, λ other h d. rw (some_inj.0 (sym h ∙ e)) c)
    | inl c ↦ elim (Result-cases (decrypt v.primitives v.keyring place body)) [
      | inr (x, d) ↦ inl (unreadable, rw (c, d) refl, λ k. cc k, λ other h d. cc d)
      | inl (plaintext, d) ↦
          elim (Result-cases (encrypt v.primitives v.keyring v.random place plaintext)) [
            | inr (x, w) ↦
                inl (failed (not_encrypted x), rw (c, d, w) refl, λ k. cc k, λ other h d. cc d)
            | inl (new, w) ↦ inr (body, plaintext, new, e, d, w, rw (c, d, w) refl)
          ]
    ]
  ]

  pub reencrypt_field-cases :
      IsKept (reencrypt_field v db model marked id f rec rows)
      ⊎ IsTried (reencrypt_field v db model marked id f rec rows)
  unfolding reencrypt_field
  reencrypt_field-cases = elim (Option-cases (body_of marked stored)) [
    | inl n ↦
        inl (plain, rw (reencrypt_field, n) refl, λ k. cc k, λ body h d. absurd (cc (rw n at h)))
    | inr (body, e) ↦
        let e' : reencrypt_field v db model marked id f rec rows
            ≡ reencrypt_body v db marked place stored body rows =
          rw (reencrypt_field, e) refl in
        subst (λ out. IsKept out ⊎ IsTried out) (sym e') (reencrypt_body-cases body e)
  ]
