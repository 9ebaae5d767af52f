-- ===== src/Passkey/Cbor/Bounds.antt =====
-- How much of the message an item takes.
use go_dev_auth.Prelude.{
  ℕ, zero, suc, ◌+◌, ◌-◌, ◌≤◌, ◌≡◌, refl, sym, ap, ◌∙◌, subst, Bool, true, false, none, some, List,
  [], ◌∷◌, ◌++◌, length, take, drop, ltb, leb, ◌==◌, if◌then◌else◌, append_assoc, length-append,
  take-append, take-append-drop, arith, Option-cases, inl, inr, ◌%◌, ◌/◌, ◌^◌,
}
use go_dev_auth.Passkey.Cbor.{
  decode_prefix, max_depth, Item, int, bytes, text, array, dict, boolean, null, Items, nil, cons,
  Entries, end, entry, Parser, ◌>>=◌, pure, fail, byte, take_bytes, argument, items, entries,
  content, item, is_key, has_key, snoc, simple,
}

-- The parser reads a front part of the bytes, which is at least as long as the weight of the result,
-- and the bytes behind that part have no influence on the result.
abbrev pub IsExact : {A : Type 0} → (A → ℕ) → Parser A → Type 0
IsExact {A} weight p =
    (bs : List ℕ) (a : A) (rest : List ℕ)
    → p bs ≡ some (a, rest)
    → (used : List ℕ) × (bs ≡ used ++ rest)
      × (weight a ≤ length used)
      × ((more : List ℕ) → p (used ++ more) ≡ some (a, more))

module _ {A : Type 0} (weight : A → ℕ) where
  IsExact-pure : (a : A) → weight a ≡ 0 → IsExact weight (pure a)
  IsExact-pure a e bs b rest h = ([], cc, ground arith, λ more. cc)

  IsExact-fail : IsExact weight fail
  IsExact-fail bs a rest h = absurd (cc)

  IsExact-if :
      (b : Bool) (p q : Parser A)
      → (b ≡ true → IsExact weight p)
      → (b ≡ false → IsExact weight q)
      → IsExact weight (if b then p else q)
  IsExact-if true p q hp hq = hp refl
  IsExact-if false p q hp hq = hq refl

IsExact-weaken :
    {A : Type 0} (w w' : A → ℕ) (p : Parser A) → ((a : A) → w' a ≤ w a) → IsExact w p → IsExact w' p
IsExact-weaken w w' p le h bs a rest e =
    let (used, split, weight, more) = h bs a rest e in (used, split, omega (arith, le a), more)

IsExact-bind :
    {A B : Type 0} (wa : A → ℕ) (wb : B → ℕ) (p : Parser A) (f : A → Parser B)
    → IsExact wa p
    → ((a : A) → IsExact (λ b. wb b - wa a) (f a))
    → IsExact wb (p >>= f)
IsExact-bind wa wb p f hp hf bs b rest h = elim (Option-cases (p bs)) [
  | inl e ↦ absurd (ground arith)
  | inr ((a, mid), e) ↦
      let (u, eu, lu, mu) = hp bs a mid e in
      let (v, ev, lv, mv) = hf a mid b rest (rw (e, ◌>>=◌) at h) in
      (
        u ++ v,
        eu ∙ ap (λ l. u ++ l) ev ∙ sym (append_assoc u v rest),
        omega (arith, length-append u v),
        λ more. rw (append_assoc u v more, mu (v ++ more), ◌>>=◌) (mv more),
      )
]

IsExact-byte : IsExact (λ b. 1) byte
unfolding byte
IsExact-byte [] b rest h = absurd (cc)
IsExact-byte (c ∷ bs) b rest h = (c ∷ [], ground arith, omega arith, λ more. ground arith)

length-take_le : (n : ℕ) (xs : List ℕ) → n ≤ length xs → length (take n xs) ≡ n
length-take_le zero xs h = refl
length-take_le (suc n) [] h = absurd (omega arith)
length-take_le (suc n) (x ∷ xs) h = omega (arith, length-take_le n xs)

take_bytes-append :
    (xs more : List ℕ) (n : ℕ) → length xs ≡ n → take_bytes n (xs ++ more) ≡ some (xs, more)
unfolding take_bytes
take_bytes-append xs more n e =
    let (t, d) = take-append xs more in
    subst (λ k. take_bytes k (xs ++ more) ≡ some (xs, more)) e
      (ground (arith, t, d, length-append xs more))

IsExact-take_bytes : (n : ℕ) → IsExact length (take_bytes n)
IsExact-take_bytes n bs a rest h =
    let l : n ≤ length bs = unfold take_bytes in ground arith in
    let same : take n bs ≡ a = unfold take_bytes in ground arith in
    let left : drop n bs ≡ rest = unfold take_bytes in ground arith in
    let size : length a ≡ n = ap length (sym same) ∙ length-take_le n bs l in
    (
      a,
      sym (take-append-drop n bs) ∙ ground arith,
      omega arith,
      λ more. take_bytes-append a more n size,
    )

IsExact-argument : (info : ℕ) → IsExact (λ arg. 0) (argument info)
unfolding argument
IsExact-argument info =
    IsExact-if _ (ltb info 24) _ _ (λ h. IsExact-pure _ info refl)
      (λ h.
        IsExact-if _ (leb info 27) _ _
          (λ h'.
            IsExact-bind (λ bs. 0) _ (take_bytes (2 ^ (info - 24))) _
              (IsExact-weaken length _ _ (λ bs. omega arith) (IsExact-take_bytes (2 ^ (info - 24))))
              (λ bs. IsExact-pure _ _ (omega arith)))
          (λ h'. IsExact-fail _))

-- The number of items and bytes that an item holds.
mutual
  pub size : Item → ℕ
  size (int n) = 1
  size (bytes b) = suc (length b)
  size (text s) = suc (length s)
  size (array xs) = suc (size_items xs)
  size (dict es) = suc (size_entries es)
  size (boolean b) = 1
  size null = 1

  pub size_items : Items → ℕ
  size_items nil = 0
  size_items (cons x xs) = size x + size_items xs

  pub size_entries : Entries → ℕ
  size_entries end = 0
  size_entries (entry k v es) = size k + size v + size_entries es

module _ (p : Parser Item) (hp : IsExact size p) where
  IsExact-items : (n : ℕ) → IsExact size_items (items p n)
  unfolding items size_items
  IsExact-items zero = IsExact-pure _ nil refl
  IsExact-items (suc n) = IsExact-bind size _ p _ hp (λ x.
      IsExact-bind size_items _ (items p n) _ (IsExact-items n)
        (λ xs. IsExact-pure _ (cons x xs) (omega arith)))

  size_entries-snoc :
      (es : Entries) (k v : Item) → size_entries (snoc es k v) ≡ size_entries es + size k + size v
  unfolding size_entries snoc
  size_entries-snoc end k v = omega arith
  size_entries-snoc (entry j u es) k v = omega (arith, size_entries-snoc es k v)

  IsExact-entries :
      (n : ℕ) (es : Entries) → IsExact (λ r. size_entries r - size_entries es) (entries p n es)
  unfolding entries
  IsExact-entries zero es = IsExact-pure _ es (omega arith)
  IsExact-entries (suc n) es = IsExact-bind size _ p _ hp (λ k.
      IsExact-if _ (is_key k) _ _
        (λ h. IsExact-bind size _ p _ hp (λ v.
          IsExact-if _ (has_key k es) _ _ (λ h'. IsExact-fail _)
            (λ h'.
              IsExact-weaken _ _ _ (λ r. omega (arith, size_entries-snoc es k v))
                (IsExact-entries n (snoc es k v)))))
        (λ h. IsExact-fail _))

  IsExact-simple : (info : ℕ) → IsExact (λ v. size v - 1) (simple info)
  unfolding simple size
  IsExact-simple info =
      IsExact-if _ (info == 20) _ _ (λ h. IsExact-pure _ _ refl)
        (λ h.
          IsExact-if _ (info == 21) _ _ (λ h. IsExact-pure _ _ refl)
            (λ h. IsExact-if _ (info == 22) _ _ (λ h. IsExact-pure _ _ refl) (λ h. IsExact-fail _)))

  IsExact-content : (major info arg : ℕ) → IsExact (λ v. size v - 1) (content p major info arg)
  unfolding content size size_entries
  IsExact-content major info arg =
      IsExact-if _ (major == 0) _ _
        (λ h.
          IsExact-if _ (leb arg (2 ^ 62)) _ _ (λ h. IsExact-pure _ _ refl) (λ h. IsExact-fail _))
        (λ h.
          IsExact-if _ (major == 1) _ _
            (λ h.
              IsExact-if _ (leb arg (2 ^ 62)) _ _ (λ h. IsExact-pure _ _ refl)
                (λ h. IsExact-fail _))
            (λ h.
              IsExact-if _ (major == 2) _ _
                (λ h.
                  IsExact-bind length _ (take_bytes arg) _ (IsExact-take_bytes arg)
                    (λ b. IsExact-pure _ (bytes b) (omega arith)))
                (λ h.
                  IsExact-if _ (major == 3) _ _
                    (λ h.
                      IsExact-bind length _ (take_bytes arg) _ (IsExact-take_bytes arg)
                        (λ b. IsExact-pure _ (text b) (omega arith)))
                    (λ h.
                      IsExact-if _ (major == 4) _ _
                        (λ h.
                          IsExact-if _ (ltb (2 ^ 16) arg) _ _ (λ h. IsExact-fail _)
                            (λ h.
                              IsExact-bind size_items _ (items p arg) _ (IsExact-items arg)
                                (λ xs. IsExact-pure _ (array xs) (omega arith))))
                        (λ h.
                          IsExact-if _ (major == 5) _ _
                            (λ h.
                              IsExact-if _ (ltb (2 ^ 16) arg) _ _ (λ h. IsExact-fail _)
                                (λ h.
                                  IsExact-bind (λ r. size_entries r - size_entries end) _
                                    (entries p arg end) _ (IsExact-entries arg end)
                                    (λ es. IsExact-pure _ (dict es) (omega arith))))
                            (λ h.
                              IsExact-if _ (major == 6) _ _
                                (λ h. IsExact-weaken size _ p (λ v. omega arith) hp)
                                (λ h.
                                  IsExact-if _ (major == 7) _ _ (λ h. IsExact-simple info)
                                    (λ h. IsExact-fail _))))))))

IsExact-item : (depth : ℕ) → IsExact size (item depth)
unfolding item
IsExact-item zero = IsExact-fail _
IsExact-item (suc depth) =
    IsExact-bind (λ b. 1) _ byte _ IsExact-byte
      (λ ib.
        IsExact-bind (λ b. 0) _ (argument (ib % 32)) _ (IsExact-argument (ib % 32))
          (λ arg.
            IsExact-weaken _ _ _ (λ v. omega arith)
              (IsExact-content (item depth) (IsExact-item depth) (ib / 32) (ib % 32) arg)))

pub decode_prefix-item :
    (bs : List ℕ) (v : Item) (rest : List ℕ)
    → item max_depth bs ≡ some (v, rest)
    → decode_prefix bs ≡ some (v, length bs - length rest)
unfolding decode_prefix
decode_prefix-item bs v rest e = rw (e, decode_prefix)

pub refuted :
    (bs : List ℕ) (v : Item) (n : ℕ) → item max_depth bs ≡ none → decode_prefix bs ≡ some (v, n) → ⊥
unfolding decode_prefix
refuted bs v n e h = ground arith

-- An item decoded from the front of a message takes a number of bytes that is within the message and
-- not below the number of items and bytes which it holds, and whatever follows these bytes, the
-- result is the same.
pub decode_prefix_exact :
    (bs : List ℕ) (v : Item) (n : ℕ) (more : List ℕ)
    → decode_prefix bs ≡ some (v, n)
    → (n ≤ length bs) × (size v ≤ n) × (decode_prefix (take n bs ++ more) ≡ some (v, n))
decode_prefix_exact bs v n more h = elim (Option-cases (item max_depth bs)) [
  | inl e ↦ absurd (refuted bs v n e h)
  | inr ((u, rest), e) ↦
      let (used, split, weight, stable) = IsExact-item max_depth bs u rest e in
      let len : length bs ≡ length used + length rest = ap length split ∙ length-append used rest in
      let found = sym h ∙ decode_prefix-item bs u rest e in
      let same : v ≡ u = cc found in
      let count : n ≡ length used = ground (arith, found) in
      let (t, d) = take-append used rest in
      let front : take n bs ≡ used =
        ap (take n) split ∙ ap (λ k. take k (used ++ rest)) count ∙ t in
      (
        omega arith,
        rw same (omega arith),
        rw (front, decode_prefix-item (used ++ more) u more (stable more), same)
            (ap (λ k. some (u, k)) (omega (arith, length-append used more))),
      )
]
