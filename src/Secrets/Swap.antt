-- ===== src/Secrets/Swap.antt =====
-- secrets.go: a field is encrypted again by a compare-and-set.
use Prim.Native.String.{◌++◌ as str_append}
use go_dev_auth.Prelude.{
  ℕ, ◌≡◌, ◌≢◌, ◌⊎◌, refl, sym, subst, ◌∙◌, String, Bool, true, false, some, List, [], ◌∷◌, str_eq,
  eq_refl, if◌then◌else◌, Bool-cases, inl, inr,
}
use go_dev_auth.Prelude.Result.{Result, ok, err}
use go_dev_auth.Prelude.Assoc.{merge}
use go_dev_auth.Storage.Error.{AdapterError, not_found, unique_violation, unknown_field}
use go_dev_auth.Storage.Value.{text, str, equal}
use go_dev_auth.Storage.Value.Laws.{equal-text_iff}
use go_dev_auth.Storage.Filter.{Record, Where, field}
use go_dev_auth.Storage.Contract.{select, update_many}
use go_dev_auth.Storage.Swap.{holds, set, by_id, update_many-holds}
use go_dev_auth.Token.{Table}
use go_dev_auth.Keyring.{
  Binding, CryptoError, decrypt, needs_reencryption, is_complete, secrets, member,
}
use go_dev_auth.Keyring.Opening.{IsSound, IsDistinct}
use go_dev_auth.Keyring.Pruning.{encrypt-needs_reencryption}
use go_dev_auth.Keyring.Rotation.{IsRandom, decrypt-encrypt_ring}
use go_dev_auth.Secrets.Cases.{reencrypt_field-cases}
use go_dev_auth.Secrets.{
  Vault, Database, Fate, rewritten, fate_of, body_of, prefix_of, write_back, reencrypt_field,
}

-- What the interface promises of UpdateMany: on an error nothing is written.
abbrev pub IsUpdating : Database → Type 0
IsUpdating db =
    (cs : List Where) (u : Record) (rows : Table)
    → ((n : ℕ) × (db.update_many cs u rows ≡ (ok n, (update_many cs u rows).1))
        × (n ≡ (update_many cs u rows).0))
      ⊎ ((e : AdapterError) × (db.update_many cs u rows ≡ (err e, rows)))

-- The record with an id is left as it is, or its field had the old value and has the new one; the answer says
-- which.
abbrev IsSwapped : String → String → String → String → Record → Fate × Table → Type 0
IsSwapped id f old new r out =
    ((out.0 ≢ rewritten) × (select (by_id id) out.1 ≡ r ∷ []))
    ⊎ ((out.0 ≡ rewritten)
        × (field r f ≡ text old)
        × (select (by_id id) out.1 ≡ merge (set f (text new)) r ∷ []))

ok_inj : {A : Type 0} {a b : A} → ◌≡◌ {A = Result CryptoError A} (ok a) (ok b) → a ≡ b
ok_inj e = cc

fate_of-ne : (e : AdapterError) → fate_of (err e) ≢ rewritten
unfolding fate_of
fate_of-ne not_found h = cc
fate_of-ne unique_violation h = cc
fate_of-ne unknown_field h = cc
fate_of-ne AdapterError.failed h = cc

module _ (db : Database) (id f old new : String) (r : Record) (rows : Table)
    (updating : IsUpdating db) (other : str_eq f "id" ≡ false)
    (one : select (by_id id) rows ≡ r ∷ []) where
  -- The call of a compare-and-set, with what becomes of it.
  swap : Fate × Table
  swap =
      let (n, rows') = db.update_many (holds id f (text old)) (set f (text new)) rows in
      (fate_of n, rows')

  counted :
      (n : ℕ)
      → n ≡ (if equal (field r f) (text old) then 1 else 0)
      → IsSwapped id f old new r
          (fate_of (ok n), (update_many (holds id f (text old)) (set f (text new)) rows).1)
  unfolding fate_of
  counted n h =
      let (_, left) = update_many-holds id f (text old) (text new) rows other r one in
      elim (Bool-cases (equal (field r f) (text old))) [
        | inl e ↦
            let n₁ : n ≡ 1 = h ∙ rw e refl in
            inr (rw n₁ refl, (equal-text_iff (field r f) old).0 e, left ∙ rw e refl)
        | inr e ↦ let n₀ : n ≡ 0 = h ∙ rw e refl in inl (rw n₀ (λ k. cc k), left ∙ rw e refl)
      ]

  swap-IsSwapped : IsSwapped id f old new r swap
  unfolding swap
  swap-IsSwapped = elim (updating (holds id f (text old)) (set f (text new)) rows) [
    | inl (n, e, c) ↦
        subst (λ out. IsSwapped id f old new r (fate_of out.0, out.1)) (sym e)
          (counted n (c ∙ (update_many-holds id f (text old) (text new) rows other r one).0))
    | inr (e, h) ↦
        subst (λ out. IsSwapped id f old new r (fate_of out.0, out.1)) (sym h)
          (inl (fate_of-ne e, one))
  ]

-- What the pass writes for a field opens in its place to what the old value opened to, under the
-- current key.
abbrev IsRenewed : Vault → Binding → String → String → Type 0
IsRenewed v b body new =
    (plaintext : String) × (decrypt v.primitives v.keyring b body ≡ ok plaintext)
    × (decrypt v.primitives v.keyring b new ≡ ok plaintext)
    × (needs_reencryption v.primitives v.keyring new ≡ false)

-- The record with an id is left as it is, or its field had the value that was read and has a value for the
-- same text.
abbrev pub IsMigrated :
    Vault → String → Bool → String → String → Record → Record → Fate × Table → Type 0
IsMigrated v model marked id f rec r (fate, rows') =
    ((fate ≢ rewritten) × (select (by_id id) rows' ≡ r ∷ []))
    ⊎ ((body new : String) × (fate ≡ rewritten)
        × (field r f ≡ text (str (field rec f)))
        × (body_of marked (str (field rec f)) ≡ some body)
        × IsRenewed v (record { model = model; row = id; column = f }) body new
        × (select (by_id id) rows'
            ≡ merge (set f (text (str_append (prefix_of marked) new))) r ∷ []))

-- A field of the record with an id is encrypted again exactly if the pass says so, and never over
-- a value other than the one it has read, however old the record is that it goes by: else the
-- record is left as it is. What is written opens, in that place, to what the value opened to, under
-- the current key. The field is not the id, and the primitives and UpdateMany do what they
-- document.
pub reencrypt_field-IsMigrated :
    (v : Vault) (db : Database) (model : String) (marked : Bool) (id f : String) (rec r : Record)
    (rows : Table)
    → IsSound v.primitives
    → IsRandom v.random
    → IsDistinct v.primitives v.keyring.current (secrets v.keyring)
    → IsUpdating db
    → is_complete (record { model = model; row = id; column = f }) ≡ true
    → str_eq f "id" ≡ false
    → select (by_id id) rows ≡ r ∷ []
    → IsMigrated v model marked id f rec r (reencrypt_field v db model marked id f rec rows)
unfolding write_back member swap
reencrypt_field-IsMigrated v db model marked id f rec r rows sound fills distinct updating complete
      other one =
    let Good = IsMigrated v model marked id f rec r in
    elim (reencrypt_field-cases v db model marked id f rec rows) [
      | inl (fate, e, ne, _) ↦ subst Good (sym e) (inl (ne, one))
      | inr (body, plaintext, new, e, d, w, out) ↦
          let b : Binding = record { model = model; row = id; column = f } in
          let (new', w', o) =
            decrypt-encrypt_ring v.primitives sound v.keyring v.keyring v.random b plaintext fills
              complete (rw (eq_refl v.keyring.current) refl) distinct in
          let o' =
            subst (λ x. decrypt v.primitives v.keyring b x ≡ ok plaintext) (ok_inj (sym w' ∙ w))
              o in
          let fresh =
            encrypt-needs_reencryption v.primitives v.keyring v.random b plaintext new sound fills
              complete w in
          let value = str_append (prefix_of marked) new in
          subst Good (sym out)
            (elim (swap-IsSwapped db id f (str (field rec f)) value r rows updating other one) [
              | inl h ↦ inl h
              | inr (h, h', h'') ↦ inr (body, new, h, h', e, (plaintext, d, o', fresh), h'')
            ])
    ]
