-- ===== src/Passkey/Cbor/Shape.antt =====
-- What every decoded item looks like.
use go_dev_auth.Prelude.{
  ℕ, zero, suc, ◌+◌, ◌≤◌, ◌≡◌, refl, ap, subst, Bool, true, false, not, ◌&&◌, ◌||◌, some, List, [],
  ◌∷◌, ltb, leb, ◌==◌, if◌then◌else◌, arith, Option-cases, inl, inr, ◌%◌, ◌/◌, ◌^◌, pos, negsuc,
}
use Prim.Native.Nat.{max}
use go_dev_auth.Prelude.Text.{codes_eq}
use go_dev_auth.Prelude.{◌∙◌, sym}
use go_dev_auth.Passkey.Cbor.Bounds.{refuted, decode_prefix-item}
use go_dev_auth.Passkey.Cbor.{
  Item, int, bytes, text, array, dict, boolean, null, Items, nil, cons, Entries, end, entry, Parser,
  ◌>>=◌, pure, fail, byte, take_bytes, argument, items, entries, content, item, is_key, has_key,
  snoc, simple, same_key, decode_prefix, max_depth, max_items,
}

-- How deep the items are nested.
mutual
  pub depth : Item → ℕ
  depth (int n) = 1
  depth (bytes b) = 1
  depth (text s) = 1
  depth (array xs) = suc (depth_items xs)
  depth (dict es) = suc (depth_entries es)
  depth (boolean b) = 1
  depth null = 1

  pub depth_items : Items → ℕ
  depth_items nil = 0
  depth_items (cons x xs) = max (depth x) (depth_items xs)

  pub depth_entries : Entries → ℕ
  depth_entries end = 0
  depth_entries (entry k v es) = max (depth k) (max (depth v) (depth_entries es))

abbrev pub count_items : Items → ℕ
count_items nil = 0
count_items (cons x xs) = suc (count_items xs)

abbrev pub count_entries : Entries → ℕ
count_entries end = 0
count_entries (entry k v es) = suc (count_entries es)

-- No two entries have the same key.
abbrev pub distinct : Entries → Bool
distinct end = true
distinct (entry k v es) = not (has_key k es) && distinct es

-- The checks of the decoder on an item and all that it holds, as one test.
unfoldable mutual
  pub valid : Item → Bool
  valid (int (pos n)) = leb n (2 ^ 62)
  valid (int (negsuc n)) = leb n (2 ^ 62)
  valid (bytes b) = true
  valid (text s) = true
  valid (array xs) = leb (count_items xs) max_items && valid_items xs
  valid (dict es) = leb (count_entries es) max_items && (distinct es && valid_entries es)
  valid (boolean b) = true
  valid null = true

  pub valid_items : Items → Bool
  valid_items nil = true
  valid_items (cons x xs) = valid x && valid_items xs

  pub valid_entries : Entries → Bool
  valid_entries end = true
  valid_entries (entry k v es) = is_key k && (valid k && (valid v && valid_entries es))

-- Every result of the parser has the property.
abbrev pub Ensures : {A : Type 0} → (A → Type 0) → Parser A → Type 0
Ensures {A} P p = (bs : List ℕ) (a : A) (rest : List ℕ) → p bs ≡ some (a, rest) → P a

module _ {A : Type 0} (P : A → Type 0) where
  Ensures-pure : (a : A) → P a → Ensures P (pure a)
  Ensures-pure a h bs b rest e = let same : a ≡ b = cc in subst P same h

  Ensures-fail : Ensures P fail
  Ensures-fail bs a rest h = absurd (cc)

  Ensures-if :
      (b : Bool) (p q : Parser A)
      → (b ≡ true → Ensures P p)
      → (b ≡ false → Ensures P q)
      → Ensures P (if b then p else q)
  Ensures-if true p q hp hq = hp refl
  Ensures-if false p q hp hq = hq refl

Ensures-bind :
    {A B : Type 0} (P : A → Type 0) (Q : B → Type 0) (p : Parser A) (f : A → Parser B)
    → Ensures P p
    → ((a : A) → P a → Ensures Q (f a))
    → Ensures Q (p >>= f)
Ensures-bind P Q p f hp hf bs b rest h = elim (Option-cases (p bs)) [
  | inl e ↦ absurd (ground arith)
  | inr ((a, mid), e) ↦ hf a (hp bs a mid e) mid b rest (rw (e, ◌>>=◌) at h)
]

codes_eq_comm : (s t : List ℕ) → codes_eq s t ≡ codes_eq t s
unfolding codes_eq
codes_eq_comm [] [] = refl
codes_eq_comm [] (b ∷ t) = refl
codes_eq_comm (a ∷ s) [] = refl
codes_eq_comm (a ∷ s) (b ∷ t) = ground (arith, codes_eq_comm s t)

same_key_comm : (j k : Item) → same_key j k ≡ same_key k j
unfolding same_key
same_key_comm (int m) (int n) = ground arith
same_key_comm (text s) (text t) = codes_eq_comm s t
same_key_comm j k = ground arith

has_key-snoc :
    (j : Item) (es : Entries) (k v : Item)
    → has_key j (snoc es k v) ≡ (has_key j es || same_key k j)
unfolding has_key snoc
has_key-snoc j end k v = ground arith
has_key-snoc j (entry i u es) k v = ground (arith, has_key-snoc j es k v)

distinct-snoc :
    (es : Entries) (k v : Item)
    → distinct es ≡ true
    → has_key k es ≡ false
    → distinct (snoc es k v) ≡ true
unfolding has_key snoc
distinct-snoc end k v h e = refl
distinct-snoc (entry j u es) k v h e =
    ground (arith, has_key-snoc j es k v, same_key_comm k j, distinct-snoc es k v)

count-snoc : (es : Entries) (k v : Item) → count_entries (snoc es k v) ≡ suc (count_entries es)
unfolding snoc
count-snoc end k v = refl
count-snoc (entry j u es) k v = ap suc (count-snoc es k v)

depth-snoc :
    (d : ℕ) (es : Entries) (k v : Item)
    → depth_entries es ≤ d
    → depth k ≤ d
    → depth v ≤ d
    → depth_entries (snoc es k v) ≤ d
unfolding snoc depth_entries
depth-snoc d end k v h hk hv = omega arith
depth-snoc d (entry j u es) k v h hk hv = omega (arith, depth-snoc d es k v)

valid-snoc :
    (es : Entries) (k v : Item)
    → valid_entries es ≡ true
    → is_key k ≡ true
    → valid k ≡ true
    → valid v ≡ true
    → valid_entries (snoc es k v) ≡ true
unfolding snoc valid_entries
valid-snoc end k v h i hk hv = ground arith
valid-snoc (entry j u es) k v h i hk hv = ground (arith, valid-snoc es k v)

-- What is known of the entries so far: their number, their depth and their keys.
record IsPartial (d n : ℕ) (es : Entries) : Type 0 where
  counted : count_entries es ≡ n
  shallow : depth_entries es ≤ d
  keys_distinct : distinct es ≡ true
  all_valid : valid_entries es ≡ true

abbrev IsShallow : ℕ → Item → Type 0
IsShallow d v = (depth v ≤ d) × (valid v ≡ true)

abbrev AreShallow : ℕ → ℕ → Items → Type 0
AreShallow d n xs = (count_items xs ≡ n) × (depth_items xs ≤ d) × (valid_items xs ≡ true)

module _ (d : ℕ) (p : Parser Item) (hp : Ensures (IsShallow d) p) where
  Ensures-items : (n : ℕ) → Ensures (AreShallow d n) (items p n)
  unfolding items depth_items valid_items
  Ensures-items zero = Ensures-pure _ nil (refl, omega arith, refl)
  Ensures-items (suc n) = Ensures-bind (IsShallow d) _ p _ hp (λ x hx.
      Ensures-bind (AreShallow d n) _ (items p n) _ (Ensures-items n)
        (λ xs hxs. Ensures-pure _ (cons x xs) (ground arith, ground arith, ground arith)))

  IsPartial-snoc :
      (m : ℕ) (es : Entries) (k v : Item)
      → IsPartial d m es
      → is_key k ≡ true
      → IsShallow d k
      → IsShallow d v
      → has_key k es ≡ false
      → IsPartial d (suc m) (snoc es k v)
  IsPartial-snoc m es k v h i hk hv free = record {
    counted = count-snoc es k v ∙ ap suc h.counted;
    shallow = depth-snoc d es k v h.shallow hk.0 hv.0;
    keys_distinct = distinct-snoc es k v h.keys_distinct free;
    all_valid = valid-snoc es k v h.all_valid i hk.1 hv.1;
  }

  Ensures-entries :
      (n m total : ℕ) (es : Entries)
      → n + m ≡ total
      → IsPartial d m es
      → Ensures (IsPartial d total) (entries p n es)
  unfolding entries
  Ensures-entries zero m total es e h =
      Ensures-pure _ es (let same : m ≡ total = omega arith in subst (λ t. IsPartial d t es) same h)
  Ensures-entries (suc n) m total es e h = Ensures-bind (IsShallow d) _ p _ hp (λ k hk.
      Ensures-if _ (is_key k) _ _
        (λ i. Ensures-bind (IsShallow d) _ p _ hp (λ v hv.
          Ensures-if _ (has_key k es) _ _ (λ _. Ensures-fail _)
            (λ free.
              Ensures-entries n (suc m) total (snoc es k v) (omega arith)
                (IsPartial-snoc m es k v h i hk hv free))))
        (λ _. Ensures-fail _))

  Ensures-simple : (info : ℕ) → Ensures (IsShallow (suc d)) (simple info)
  unfolding simple depth valid
  Ensures-simple info =
      Ensures-if _ (info == 20) _ _ (λ _. Ensures-pure _ _ (omega arith, refl))
        (λ _.
          Ensures-if _ (info == 21) _ _ (λ _. Ensures-pure _ _ (omega arith, refl))
            (λ _.
              Ensures-if _ (info == 22) _ _ (λ _. Ensures-pure _ _ (omega arith, refl))
                (λ _. Ensures-fail _)))

  dict-IsShallow :
      (n : ℕ) (es : Entries) → n ≤ max_items → IsPartial d n es → IsShallow (suc d) (dict es)
  unfolding depth valid
  dict-IsShallow n es le h =
      (omega (arith, h.shallow), ground (arith, h.counted, h.keys_distinct, h.all_valid))

  Ensures-content : (major info arg : ℕ) → Ensures (IsShallow (suc d)) (content p major info arg)
  unfolding content depth valid depth_entries
  Ensures-content major info arg =
      Ensures-if _ (major == 0) _ _
        (λ _.
          Ensures-if _ (leb arg (2 ^ 62)) _ _ (λ h. Ensures-pure _ _ (omega arith, h))
            (λ _. Ensures-fail _))
        (λ _.
          Ensures-if _ (major == 1) _ _
            (λ _.
              Ensures-if _ (leb arg (2 ^ 62)) _ _ (λ h. Ensures-pure _ _ (omega arith, h))
                (λ _. Ensures-fail _))
            (λ _.
              Ensures-if _ (major == 2) _ _
                (λ _.
                  Ensures-bind (λ b. Unit {0}) _ (take_bytes arg) _ (λ bs b rest h. tt)
                    (λ b _. Ensures-pure _ (bytes b) (omega arith, refl)))
                (λ _.
                  Ensures-if _ (major == 3) _ _
                    (λ _.
                      Ensures-bind (λ b. Unit {0}) _ (take_bytes arg) _ (λ bs b rest h. tt)
                        (λ b _. Ensures-pure _ (text b) (omega arith, refl)))
                    (λ _.
                      Ensures-if _ (major == 4) _ _
                        (λ _.
                          Ensures-if _ (ltb (2 ^ 16) arg) _ _ (λ _. Ensures-fail _)
                            (λ le.
                              Ensures-bind (AreShallow d arg) _ (items p arg) _ (Ensures-items arg)
                                (λ xs hxs. Ensures-pure _ (array xs) (omega arith, ground arith))))
                        (λ _.
                          Ensures-if _ (major == 5) _ _
                            (λ _.
                              Ensures-if _ (ltb (2 ^ 16) arg) _ _ (λ _. Ensures-fail _)
                                (λ le.
                                  Ensures-bind (IsPartial d arg) _ (entries p arg end) _
                                    (Ensures-entries arg 0 arg end (omega arith) (record {
                                      counted = refl;
                                      shallow = omega arith;
                                      keys_distinct = refl;
                                      all_valid = unfold valid_entries in refl;
                                    }))
                                    (λ es h.
                                      Ensures-pure _ (dict es)
                                        (dict-IsShallow arg es (ground arith) h))))
                            (λ _.
                              Ensures-if _ (major == 6) _ _
                                (λ _ bs v rest e. let h = hp bs v rest e in (omega arith, h.1))
                                (λ _.
                                  Ensures-if _ (major == 7) _ _ (λ _. Ensures-simple info)
                                    (λ _. Ensures-fail _))))))))

Ensures-item : (d : ℕ) → Ensures (IsShallow d) (item d)
unfolding item
Ensures-item zero = Ensures-fail _
Ensures-item (suc d) =
    Ensures-bind (λ b. Unit {0}) _ byte _ (λ bs b rest h. tt)
      (λ ib _.
        Ensures-bind (λ b. Unit {0}) _ (argument (ib % 32)) _ (λ bs b rest h. tt)
          (λ arg _. Ensures-content d (item d) (Ensures-item d) (ib / 32) (ib % 32) arg))

-- A decoded item passes the checks.
pub decode_prefix-checked :
    (bs : List ℕ) (v : Item) (n : ℕ)
    → decode_prefix bs ≡ some (v, n)
    → (depth v ≤ max_depth) × (valid v ≡ true)
decode_prefix-checked bs v n h = elim (Option-cases (item max_depth bs)) [
  | inl e ↦ absurd (refuted bs v n e h)
  | inr ((u, rest), e) ↦
      let found = sym h ∙ decode_prefix-item bs u rest e in
      let same : u ≡ v = cc found in
      subst (IsShallow max_depth) same (Ensures-item max_depth bs u rest e)
]
