-- ===== src/Passkey/Cbor.antt =====
-- plugins/passkey/cbor.go: the CBOR decoder.
-- The position of a decoder is the list of bytes that it has not read yet, and its depth is the
-- number of nested items that it may still enter. Every error is the one error, `none`.
pub mod Tests
pub mod Bounds
pub mod Shape
pub mod Valid
use go_dev_auth.Prelude.{
  ℕ, zero, suc, ◌+◌, ◌-◌, ◌*◌, ◌/◌, ◌%◌, ◌^◌, Bool, true, false, ◌&&◌, ◌||◌, Option, none, some,
  List, [], ◌∷◌, length, take, drop, ltb, leb, ◌==◌, if◌then◌else◌, ℤ, pos, negsuc, int_eqb,
}
use go_dev_auth.Prelude.Text.{codes_eq}

-- Integers are the decoder's int64, texts the bytes of the Go string. A map keeps its entries in the
-- order of the message.
mutual
  pub data Item : Type 0 where
    int : ℤ → Item
    bytes : List ℕ → Item
    text : List ℕ → Item
    array : Items → Item
    dict : Entries → Item
    boolean : Bool → Item
    null : Item

  pub data Items : Type 0 where
    nil : Items
    cons : Item → Items → Items

  pub data Entries : Type 0 where
    end : Entries
    entry : Item → Item → Entries → Entries

-- A parser of a front part of the bytes: the result, and the bytes behind it.
abbrev pub Parser : Type 0 → Type 0
Parser A = List ℕ → Option (A × List ℕ)

infixl 5 ◌>>=◌
abbrev pub ◌>>=◌ : {A B : Type 0} → Parser A → (A → Parser B) → Parser B
◌>>=◌ p f bs = elim (p bs) [ none ↦ none | some (a, rest) ↦ f a rest ]

abbrev pub pure : {A : Type 0} → A → Parser A
pure a bs = some (a, bs)

abbrev pub fail : {A : Type 0} → Parser A
fail bs = none

abbrev pub max_items : ℕ
max_items = 2 ^ 16

abbrev pub max_depth : ℕ
max_depth = 32

-- `byte`
unfoldable pub byte : Parser ℕ
byte [] = none
byte (b ∷ bs) = some (b, bs)

-- `take`: the length is tested against the bytes that are left.
unfoldable pub take_bytes : ℕ → Parser (List ℕ)
take_bytes n bs = if ltb (length bs) n then none else some (take n bs, drop n bs)

-- The loop of `argument`: the bytes in big-endian order.
big_endian : ℕ → List ℕ → ℕ
big_endian v [] = v
big_endian v (b ∷ bs) = big_endian (v * 256 + b) bs

-- `argument`
unfoldable pub argument : ℕ → Parser ℕ
unfolding take_bytes big_endian
argument info =
    if ltb info 24
    then pure info
    else if leb info 27
    then take_bytes (2 ^ (info - 24)) >>= (λ bs. pure (big_endian 0 bs))
    else fail

-- `checkInt`
abbrev check_int : ℕ → Bool
check_int arg = leb arg (2 ^ 62)

unfoldable pub is_key : Item → Bool
is_key (int n) = true
is_key (text s) = true
is_key (bytes b) = false
is_key (array xs) = false
is_key (dict es) = false
is_key (boolean b) = false
is_key null = false

-- Go's `==` on two map keys.
unfoldable pub same_key : Item → Item → Bool
unfolding codes_eq
same_key (int m) (int n) = int_eqb m n
same_key (text s) (text t) = codes_eq s t
same_key _ _ = false

unfoldable pub has_key : Item → Entries → Bool
unfolding same_key
has_key k end = false
has_key k (entry j v es) = same_key j k || has_key k es

unfoldable pub snoc : Entries → Item → Item → Entries
snoc end k v = entry k v end
snoc (entry j u es) k v = entry j u (snoc es k v)

-- The loop of an array, for the parser of one item.
unfoldable pub items : Parser Item → ℕ → Parser Items
items item zero = pure nil
items item (suc n) = item >>= (λ x. items item n >>= (λ xs. pure (cons x xs)))

-- The loop of a map, with the entries so far.
unfoldable pub entries : Parser Item → ℕ → Entries → Parser Entries
unfolding is_key has_key snoc
entries item zero es = pure es
entries item (suc n) es = item >>= (λ k.
    if is_key k
    then item >>= (λ v. if has_key k es then fail else entries item n (snoc es k v))
    else fail)

unfoldable pub simple : ℕ → Parser Item
simple info =
    if info == 20
    then pure (boolean false)
    else if info == 21
    then pure (boolean true)
    else if info == 22
    then pure null
    else fail

-- The `switch` of `item` on the major type, for the parser of a nested item.
unfoldable pub content : Parser Item → ℕ → ℕ → ℕ → Parser Item
unfolding take_bytes items entries simple
content item major info arg =
    if major == 0
    then (if check_int arg then pure (int (pos arg)) else fail)
    else if major == 1
    then (if check_int arg then pure (int (negsuc arg)) else fail)
    else if major == 2
    then take_bytes arg >>= (λ b. pure (bytes b))
    else if major == 3
    then take_bytes arg >>= (λ s. pure (text s))
    else if major == 4
    then (if ltb max_items arg then fail else items item arg >>= (λ xs. pure (array xs)))
    else if major == 5
    then (if ltb max_items arg then fail else entries item arg end >>= (λ es. pure (dict es)))
    else if major == 6
    then item
    else if major == 7
    then simple info
    else fail

-- `item`, where so many nested items may still be entered.
unfoldable pub item : ℕ → Parser Item
unfolding byte argument content
item zero bs = none
item (suc depth) bs =
    (byte >>= (λ ib. argument (ib % 32) >>= (λ arg. content (item depth) (ib / 32) (ib % 32) arg)))
      bs

-- `cborDecodePrefix`: the item, and the number of bytes that it took.
unfoldable pub decode_prefix : List ℕ → Option (Item × ℕ)
decode_prefix bs = elim (item max_depth bs) [
  | none ↦ none
  | some (v, rest) ↦ some (v, length bs - length rest)
]

whole : Option (Item × List ℕ) → Option Item
whole none = none
whole (some (v, [])) = some v
whole (some (v, b ∷ rest)) = none

-- `cborDecode`: nothing may follow the item.
unfoldable pub decode : List ℕ → Option Item
unfolding whole
decode bs = whole (item max_depth bs)
