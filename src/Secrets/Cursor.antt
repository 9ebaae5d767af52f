-- ===== src/Secrets/Cursor.antt =====
-- secrets.go: the batches of a pass, as lists of records behind a cursor.
use go_dev_auth.Prelude.{
  ◌≡◌, ◌⊎◌, refl, sym, subst, String, true, false, List, [], ◌∷◌, ◌++◌, arith, eq_refl, Bool-cases,
  inl, inr, All,
}
use go_dev_auth.Storage.Filter.{Record}
use go_dev_auth.Token.{Table}
use go_dev_auth.Keyring.{member}
use go_dev_auth.Secrets.{text_lt}
use go_dev_auth.Secrets.Order.{text_lt_trans, text_lt_total}
use go_dev_auth.Secrets.Pass.{id_of, ids}
use go_dev_auth.Secrets.Done.{IsIn, IsBehind, IsKeyed, member-in}

-- A list that ends with something is not empty.
pub snoc-ne_nil : {A : Type 0} (xs : List A) (x : A) → xs ++ x ∷ [] ≡ [] → ⊥
snoc-ne_nil [] x h = cc
snoc-ne_nil (y ∷ xs) x h = cc

in-ids : (q : Record) (rows : Table) → IsIn q rows → member (id_of q) (ids rows) ≡ true
unfolding member
in-ids q [] h = absurd h
in-ids q (r ∷ rows) (inl e) = rw (e, eq_refl (id_of q)) refl
in-ids q (r ∷ rows) (inr h) = ground (arith, in-ids q rows h)

pub All-listed :
    (page : List Record) (rows : Table)
    → ((q : Record) → IsIn q page → IsIn q rows)
    → All (λ r. member (id_of r) (ids rows) ≡ true) page
All-listed [] rows sub = tt
All-listed (q ∷ page) rows sub =
    (in-ids q rows (sub q (inl refl)), All-listed page rows (λ p h. sub p (inr h)))

pub raised :
    (last i next : String) (is : List String)
    → text_lt last i ≡ true
    → (next ≡ i) ⊎ ((text_lt i next ≡ true) × (member next is ≡ true))
    → text_lt last next ≡ true
raised last i next is l (inl e) = subst (λ j. text_lt last j ≡ true) (sym e) l
raised last i next is l (inr (m, _)) = text_lt_trans last i next l m

-- A record that a full batch leaves out is behind the cursor that the batch leaves.
pub left_out :
    (page : List Record) (rows : Table) (last next : String) (r : Record)
    → IsKeyed rows
    → IsIn r rows
    → ((q : Record) → IsIn q page → IsIn q rows)
    → ((q : Record) → IsIn q page → text_lt (id_of r) (id_of q) ≡ false)
    → member next (ids page) ≡ true
    → IsIn r page ⊎ IsBehind next r
left_out page rows last next r keyed here sub least m =
    let (q, h, e) = member-in next page m in
    elim (Bool-cases (text_lt next (id_of r))) [
      | inl l ↦ inr (ground (arith, l))
      | inr l ↦
          let same : id_of r ≡ id_of q = text_lt_total (id_of r) (id_of q) (least q h) (rw e l) in
          inl (subst (λ x. IsIn x page) (sym (keyed r q here (sub q h) same)) h)
    ]
