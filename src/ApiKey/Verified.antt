-- ===== src/ApiKey/Verified.antt =====
-- Which keys a request may use, and where to.
use Prim.Native.String
use go_dev_auth.Prelude.{
  ℕ, ◌≡◌, ◌⊎◌, inl, inr, refl, ap, sym, subst, ◌∙◌, String, Bool, true, false, ◌||◌, some, List, [],
  ◌∷◌, map, arith, ℤ, str_eq, Bool-cases, Option-cases,
}
use go_dev_auth.Prelude.Assoc.{insert, lookup-insert}
use go_dev_auth.Prelude.Result.{Result, ok, err, Result-cases}
use go_dev_auth.Prelude.Text.{codes}
use go_dev_auth.Storage.Value.{Value, text, boolean, integer, int64, str}
use go_dev_auth.Storage.Filter.{Record, field, w}
use go_dev_auth.Storage.Contract.{first}
use go_dev_auth.ApiKey.{
  KeyError, as_user, is_enabled, has_expired, key_user, with_user, verify_key, is_one_of,
  starts_with_one_of, denied_by_default, denied_prefixes, key_permits_path, admit, before_request,
  spend_quota, spend_loop, copied, quota_of, Quota, units, unlimited, malformed_quota,
}

-- A path that no key reaches by default.
abbrev pub is_denied : String → Bool
is_denied path =
    is_one_of path denied_by_default || starts_with_one_of (codes path) (map codes denied_prefixes)

permits-denied :
    (allow_sensitive : Bool) (rec : Record) (path : String)
    → key_permits_path allow_sensitive rec path ≡ true
    → (allow_sensitive ≡ true) ⊎ (is_denied path ≡ false)
unfolding key_permits_path
permits-denied true rec path h = inl refl
permits-denied false rec path h = elim (Bool-cases (is_denied path)) [
  | inr e ↦ inr e
  | inl e ↦ absurd (ground (arith, (rw e at h)))
]

is_enabled_lem : (v : Value) → is_enabled v ≡ true → v ≡ boolean true
unfolding is_enabled
is_enabled_lem (boolean b) h = ap boolean h
is_enabled_lem v h = absurd (cc)

-- The user that a record of a key names, if the guards let it pass.
abbrev pub IsOwner : (Record → Bool) → List Record → Record → Record → Type 0
IsOwner guards users rec user =
    (first (w "id" (text (str (field rec "userId"))) ∷ []) users ≡ some user) × (guards user ≡ true)

ok_inj : {A : Type 0} {a b : A} → ◌≡◌ {A = Result KeyError A} (ok a) (ok b) → a ≡ b
ok_inj e = cc

key_user-IsOwner :
    (guards : Record → Bool) (users : List Record) (rec user : Record)
    → key_user guards users rec ≡ ok user
    → IsOwner guards users rec user
unfolding key_user
key_user-IsOwner guards users rec user h =
    let found = first (w "id" (text (str (field rec "userId"))) ∷ []) users in
    elim (Option-cases found) [
      | inl e ↦ absurd (cc (rw (e, key_user) at h))
      | inr (u, e) ↦ elim (Bool-cases (guards u)) [
        | inr f ↦ absurd (cc (rw (e, f, key_user) at h))
        | inl f ↦
            let same : u ≡ user = ok_inj (rw (e, f, key_user) at h) in
            (e ∙ ap some same, subst (λ v. guards v ≡ true) same f)
      ]
    ]

with_user-ok :
    (guards : Record → Bool) (users : List Record) (spent : Result KeyError Record × List Record)
    (rec user : Record)
    → (with_user guards users spent).0 ≡ ok (rec, user)
    → (spent.0 ≡ ok rec) × IsOwner guards users rec user
unfolding with_user
with_user-ok guards users (err e, rows) rec user h = absurd (cc)
with_user-ok guards users (ok copy, rows) rec user h =
    elim (Result-cases (key_user guards users copy)) [
      | inr (e, f) ↦ absurd (cc (rw (f, with_user) at h))
      | inl (u, f) ↦
          let same : (copy, u) ≡ (rec, user) = ok_inj (rw (f, with_user) at h) in
          (
            ap (λ p. ok p.0) same,
            key_user-IsOwner guards users rec user
                (ap (λ p. key_user guards users p.0) (sym same) ∙ f ∙ ap (λ p. ok p.1) same),
          )
    ]

verify_key-ok :
    (hash : String → String) (world : ℕ → List Record → List Record) (guards : Record → Bool)
    (users : List Record) (key : String) (now : ℕ) (rows : List Record) (copy user : Record)
    → (verify_key hash world guards users key now rows).0 ≡ ok (copy, user)
    → (rec : Record) × (first (w "key" (text (hash key)) ∷ []) rows ≡ some rec)
      × (field rec "enabled" ≡ boolean true)
      × (has_expired (field rec "expiresAt") now ≡ false)
      × ((spend_quota world rec rows).0 ≡ ok copy)
      × IsOwner guards users copy user
unfolding verify_key
verify_key-ok hash world guards users key now rows copy user h =
    elim (Option-cases (first (w "key" (text (hash key)) ∷ []) rows)) [
      | inl e ↦ absurd (cc (rw (e, verify_key) at h))
      | inr (rec, e) ↦ elim (Bool-cases (is_enabled (field rec "enabled"))) [
        | inr f ↦ absurd (cc (rw (e, f, verify_key) at h))
        | inl f ↦ elim (Bool-cases (has_expired (field rec "expiresAt") now)) [
          | inl g ↦ absurd (cc (rw (e, f, g, verify_key) at h))
          | inr g ↦
              let (spent, owner) =
                with_user-ok guards users (spend_quota world rec rows) copy user
                  (rw (e, f, g, verify_key) at h) in
              (rec, e, is_enabled_lem (field rec "enabled") f, g, spent, owner)
        ]
      ]
    ]

insert-field :
    (rec : Record) (name f : String) (v : Value)
    → str_eq name f ≡ false
    → field (insert name v rec) f ≡ field rec f
unfolding field
insert-field rec name f v e = rw (field, lookup-insert name f v rec, e) refl

copied-field :
    (rec copy : Record) (out : Result KeyError Quota) (f : String)
    → str_eq "remaining" f ≡ false
    → copied rec out ≡ ok copy
    → field copy f ≡ field rec f
unfolding copied
copied-field rec copy (err e) f other h = absurd (cc)
copied-field rec copy (ok unlimited) f other h = ap (λ r. field r f) (sym (ok_inj h))
copied-field rec copy (ok malformed_quota) f other h = ap (λ r. field r f) (sym (ok_inj h))
copied-field rec copy (ok (units left)) f other h =
    ap (λ r. field r f) (sym (ok_inj h)) ∙ insert-field rec "remaining" f (integer int64 left) other

Quota-cases : (q : Quota) → (q ≡ unlimited) ⊎ ((q ≡ malformed_quota) ⊎ ((n : ℤ) × (q ≡ units n)))
Quota-cases unlimited = inl refl
Quota-cases malformed_quota = inr (inl refl)
Quota-cases (units n) = inr (inr (n, refl))

-- Behind its quota, a record is as it was.
spend_quota-field :
    (world : ℕ → List Record → List Record) (rec copy : Record) (rows : List Record) (f : String)
    → str_eq "remaining" f ≡ false
    → (spend_quota world rec rows).0 ≡ ok copy
    → field copy f ≡ field rec f
unfolding spend_quota
spend_quota-field world rec copy rows f other h =
    elim (Quota-cases (quota_of (field rec "remaining"))) [
      | inl e ↦ ap (λ r. field r f) (sym (ok_inj (rw (e, spend_quota) at h)))
      | inr (inl e) ↦ absurd (cc (rw (e, spend_quota) at h))
      | inr (inr (n, e)) ↦
          copied-field rec copy (spend_loop world (str (field rec "id")) 5 n rows).0 f other
            (rw (e, spend_quota) at h)
    ]

user_inj : {u v : Record} {i j : String} → as_user u i ≡ as_user v j → u ≡ v
user_inj e = cc

admit-as_user :
    (within : String → Bool) (allow_sensitive : Bool) (interval : ℤ) (path : String) (now : ℕ)
    (got : Result KeyError (Record × Record) × List Record) (user : Record) (id : String)
    → (admit within allow_sensitive interval path now got).0 ≡ as_user user id
    → (copy : Record) × (got.0 ≡ ok (copy, user))
      × (key_permits_path allow_sensitive copy path ≡ true)
unfolding admit
admit-as_user within allow_sensitive interval path now (err e, rows) user id h = absurd (cc)
admit-as_user within allow_sensitive interval path now (ok (copy, u), rows) user id h =
    elim (Bool-cases (key_permits_path allow_sensitive copy path)) [
      | inr e ↦ absurd (cc (rw (e, admit) at h))
      | inl e ↦ elim (Bool-cases (within (String.◌++◌ "apikey:" (str (field copy "id"))))) [
        | inr f ↦ absurd (cc (rw (e, f, admit) at h))
        | inl f ↦
            let same : as_user u (str (field copy "id")) ≡ as_user user id =
              rw (e, f, admit) at h in
            (copy, ap (λ v. ok (copy, v)) (user_inj same), e)
      ]
    ]

-- A request that acts as a user by its API key has a key whose digest is stored in a record that is
-- explicitly enabled and has not expired; it acts as the user of that record, whom all session guards
-- let pass, and unless sensitive routes are allowed its path is none of those denied to keys.
pub before_request-IsUsable :
    (hash : String → String) (world : ℕ → List Record → List Record) (guards : Record → Bool)
    (within : String → Bool) (disabled_sessions allow_sensitive : Bool) (interval : ℤ)
    (users : List Record) (key path : String) (now : ℕ) (rows : List Record) (user : Record)
    (id : String)
    → (before_request hash world guards within disabled_sessions allow_sensitive interval users key
        path now rows).0
      ≡ as_user user id
    → ((rec : Record) × (first (w "key" (text (hash key)) ∷ []) rows ≡ some rec)
        × (field rec "enabled" ≡ boolean true)
        × (has_expired (field rec "expiresAt") now ≡ false)
        × IsOwner guards users rec user)
      × ((allow_sensitive ≡ true) ⊎ (is_denied path ≡ false))
unfolding before_request
before_request-IsUsable hash world guards within disabled_sessions allow_sensitive interval users
      key path now rows user id h =
    elim (Bool-cases disabled_sessions) [
      | inl e ↦ absurd (cc (rw (e, before_request) at h))
      | inr e ↦ elim (Bool-cases (str_eq key "")) [
        | inl f ↦ absurd (cc (rw (e, f, before_request) at h))
        | inr f ↦
            let (copy, got, permitted) =
              admit-as_user within allow_sensitive interval path now
                (verify_key hash world guards users key now rows) user id
                (rw (e, f, before_request) at h) in
            let (rec, stored, on, live, spent, (owner, passed)) =
              verify_key-ok hash world guards users key now rows copy user got in
            let same_user = spend_quota-field world rec copy rows "userId" refl spent in
            (
              (
                rec,
                stored,
                on,
                live,
                (
                  ap (λ v. first (w "id" (text (str v)) ∷ []) users) (sym same_user) ∙ owner,
                  passed,
                ),
              ),
              permits-denied allow_sensitive copy path permitted,
            )
      ]
    ]
