-- ===== src/Passkey/Cbor/Valid.antt =====
-- What the checks on a decoded item mean.
use go_dev_auth.Prelude.{
  ℕ, ◌≤◌, ◌≡◌, ◌≢◌, ◌⊎◌, refl, ap, ◌∙◌, true, false, some, List, arith, inl, inr, ◌^◌, ℤ, pos,
  negsuc,
}
use go_dev_auth.Prelude.Text.{codes_eq_refl}
use go_dev_auth.Passkey.Cbor.{
  Item, int, bytes, text, array, dict, boolean, null, Items, nil, cons, Entries, end, entry, is_key,
  has_key, same_key, decode_prefix,
}
use go_dev_auth.Passkey.Cbor.Shape.{
  depth, count_items, count_entries, distinct, valid, valid_items, valid_entries,
  decode_prefix-checked,
}

-- A key of a map: an integer or a text.
abbrev pub IsKey : Item → Type 0
IsKey k = ((n : ℤ) × (k ≡ int n)) ⊎ ((s : List ℕ) × (k ≡ text s))

-- No entry has the key.
abbrev pub IsFresh : Item → Entries → Type 0
IsFresh k end = Unit
IsFresh k (entry j v es) = (j ≢ k) × IsFresh k es

abbrev pub AreDistinct : Entries → Type 0
AreDistinct end = Unit
AreDistinct (entry k v es) = IsFresh k es × AreDistinct es

-- Integers lie between - 2 ^ 62 - 1 and 2 ^ 62, collections within the limit, and the keys of a map
-- are integers or texts, no two equal.
mutual
  pub IsValid : Item → Type 0
  IsValid (int (pos n)) = n ≤ 2 ^ 62
  IsValid (int (negsuc n)) = n ≤ 2 ^ 62
  IsValid (bytes b) = Unit
  IsValid (text s) = Unit
  IsValid (array xs) = (count_items xs ≤ 65536) × AreValidItems xs
  IsValid (dict es) = (count_entries es ≤ 65536) × (AreDistinct es × AreValidEntries es)
  IsValid (boolean b) = Unit
  IsValid null = Unit

  pub AreValidItems : Items → Type 0
  AreValidItems nil = Unit
  AreValidItems (cons x xs) = IsValid x × AreValidItems xs

  pub AreValidEntries : Entries → Type 0
  AreValidEntries end = Unit
  AreValidEntries (entry k v es) = IsKey k × (IsValid k × (IsValid v × AreValidEntries es))

is_key-IsKey : (k : Item) → is_key k ≡ true → IsKey k
unfolding is_key
is_key-IsKey (int n) h = inl (n, refl)
is_key-IsKey (text s) h = inr (s, refl)
is_key-IsKey (bytes b) h = absurd (cc)
is_key-IsKey (array xs) h = absurd (cc)
is_key-IsKey (dict es) h = absurd (cc)
is_key-IsKey (boolean b) h = absurd (cc)
is_key-IsKey null h = absurd (cc)

-- A key is the same as itself.
same_key_refl : (k : Item) → is_key k ≡ true → same_key k k ≡ true
unfolding is_key same_key
same_key_refl (int n) h = ground arith
same_key_refl (text s) h = codes_eq_refl s
same_key_refl (bytes b) h = absurd (cc)
same_key_refl (array xs) h = absurd (cc)
same_key_refl (dict es) h = absurd (cc)
same_key_refl (boolean b) h = absurd (cc)
same_key_refl null h = absurd (cc)

has_key-IsFresh : (k : Item) (es : Entries) → is_key k ≡ true → has_key k es ≡ false → IsFresh k es
unfolding has_key
has_key-IsFresh k end i h = tt
has_key-IsFresh k (entry j v es) i h = (
  λ e.
      let same : same_key j k ≡ true = ap (λ x. same_key x k) e ∙ same_key_refl k i in
      absurd (ground (arith, same)),
  has_key-IsFresh k es i (ground arith),
)

distinct-AreDistinct :
    (es : Entries) → valid_entries es ≡ true → distinct es ≡ true → AreDistinct es
unfolding valid_entries
distinct-AreDistinct end h d = tt
distinct-AreDistinct (entry k v es) h d = (
  has_key-IsFresh k es (ground arith) (ground arith),
  distinct-AreDistinct es (ground arith) (ground arith),
)

mutual
  unfolding valid valid_items valid_entries IsValid AreValidItems AreValidEntries

  valid-IsValid : (v : Item) → valid v ≡ true → IsValid v
  valid-IsValid (int (pos n)) h = ground arith
  valid-IsValid (int (negsuc n)) h = ground arith
  valid-IsValid (bytes b) h = tt
  valid-IsValid (text s) h = tt
  valid-IsValid (array xs) h = (ground arith, valid_items-AreValid xs (ground arith))
  valid-IsValid (dict es) h = (
    ground arith,
    (
      distinct-AreDistinct es (ground arith) (ground arith),
      valid_entries-AreValid es (ground arith),
    ),
  )
  valid-IsValid (boolean b) h = tt
  valid-IsValid null h = tt

  valid_items-AreValid : (xs : Items) → valid_items xs ≡ true → AreValidItems xs
  valid_items-AreValid nil h = tt
  valid_items-AreValid (cons x xs) h =
      (valid-IsValid x (ground arith), valid_items-AreValid xs (ground arith))

  valid_entries-AreValid : (es : Entries) → valid_entries es ≡ true → AreValidEntries es
  valid_entries-AreValid end h = tt
  valid_entries-AreValid (entry k v es) h = (
    is_key-IsKey k (ground arith),
    (
      valid-IsValid k (ground arith),
      (valid-IsValid v (ground arith), valid_entries-AreValid es (ground arith)),
    ),
  )

-- A decoded item is nested at most 32 deep; its integers lie between - 2 ^ 62 - 1 and 2 ^ 62, no
-- collection has more than 65536 entries, and the keys of each map are integers or texts, no two
-- equal.
pub decode_prefix-IsValid :
    (bs : List ℕ) (v : Item) (n : ℕ) → decode_prefix bs ≡ some (v, n) → (depth v ≤ 32) × IsValid v
decode_prefix-IsValid bs v n h =
    let (shallow, checked) = decode_prefix-checked bs v n h in (shallow, valid-IsValid v checked)
