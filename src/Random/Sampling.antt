-- ===== src/Random/Sampling.antt =====
-- Sampling ends, with the characters that were asked for.
use go_dev_auth.Prelude.{
  ℕ, zero, suc, ◌+◌, ◌%◌, ◌<◌, ◌≤◌, ◌≡◌, ◌⊎◌, refl, ◌∙◌, inl, inr, false, Option, none, some, List,
  [], ◌∷◌, ◌++◌, length, length-append, All, get_elem?, leb, ltb, true, ◌==◌, if◌then◌else◌, arith,
  Option-cases, Bool-cases,
}
use go_dev_auth.Random.{id_alphabet, id_character, fill, sample, generate_id}

-- How many bytes of a read are not rejected, and of all reads.
abbrev pub usable : (ℕ → Option ℕ) → List ℕ → ℕ
usable pick [] = 0
usable pick (b ∷ bs) =
    let rest = usable pick bs in elim (pick b) [ none ↦ rest | some c ↦ suc rest ]

abbrev pub all_usable : (ℕ → Option ℕ) → List (List ℕ) → ℕ
all_usable pick [] = 0
all_usable pick (buf ∷ reads) = usable pick buf + all_usable pick reads

module _ (pick : ℕ → Option ℕ) where
  abbrev pub IsPicked : ℕ → Type 0
  IsPicked c = (b : ℕ) × (pick b ≡ some c)

  -- What a buffer gives, counted: all that is missing, or one character for each usable byte.
  abbrev IsFilled : ℕ → List ℕ → ℕ × List ℕ → Type 0
  IsFilled missing bs (left, out) =
      (length out + left ≡ missing)
      × ((left ≡ 0) ⊎ (left + usable pick bs ≡ missing))
      × All IsPicked out

  fill-IsFilled : (missing : ℕ) (bs : List ℕ) → IsFilled missing bs (fill pick missing bs)
  unfolding fill
  fill-IsFilled missing [] = (omega arith, inr (omega arith), tt)
  fill-IsFilled zero (b ∷ bs) = (omega arith, inl refl, tt)
  fill-IsFilled (suc missing) (b ∷ bs) = elim (Option-cases (pick b)) [
    | inl e ↦ rw (e, fill, usable) (fill-IsFilled (suc missing) bs)
    | inr (c, e) ↦
        let (total, left, picked) = fill-IsFilled missing bs in
        rw (e, fill, usable)
          (omega arith, elim left [ inl f ↦ inl f | inr f ↦ inr (omega arith) ], ((b, e), picked))
  ]

  -- The characters that are asked for, each of some byte.
  abbrev pub IsSample : ℕ → Option (List ℕ) → Type 0
  IsSample n result = (out : List ℕ) × (result ≡ some out) × (length out ≡ n) × All IsPicked out

  All-append : (xs ys : List ℕ) → All IsPicked xs → All IsPicked ys → All IsPicked (xs ++ ys)
  All-append [] ys hx hy = hy
  All-append (x ∷ xs) ys (e, hx) hy = (e, All-append xs ys hx hy)

  sample-step :
      (missing : ℕ) (buf : List ℕ) (reads : List (List ℕ)) (rest : List ℕ)
      → sample pick (fill pick (suc missing) buf).0 reads ≡ some rest
      → sample pick (suc missing) (buf ∷ reads) ≡ some ((fill pick (suc missing) buf).1 ++ rest)
  unfolding sample
  sample-step missing buf reads rest e = rw (sample, e) refl

  sample-IsSample :
      (missing : ℕ) (reads : List (List ℕ))
      → missing ≤ all_usable pick reads
      → IsSample missing (sample pick missing reads)
  unfolding sample
  sample-IsSample zero reads enough = ([], refl, refl, tt)
  sample-IsSample (suc missing) [] enough = absurd (omega arith)
  sample-IsSample (suc missing) (buf ∷ reads) enough =
      let (total, left, picked) = fill-IsFilled (suc missing) buf in
      let still = (fill pick (suc missing) buf).0 in
      let fewer : still ≤ all_usable pick reads = elim left [
        | inl f ↦ omega arith
        | inr f ↦ omega arith
      ] in
      let (rest, e, more, others) = sample-IsSample still reads fewer in
      (
        (fill pick (suc missing) buf).1 ++ rest,
        sample-step missing buf reads rest e,
        length-append (fill pick (suc missing) buf).1 rest ∙ omega arith,
        All-append (fill pick (suc missing) buf).1 rest picked others,
      )

-- The characters of an identifier are those of the alphabet.
id_character-bound :
    (b c : ℕ) → id_character b ≡ some c → (b % 64 < 62) × (get_elem? id_alphabet (b % 64) ≡ some c)
unfolding id_character
id_character-bound b c e = elim (Bool-cases (leb 62 (b % 64))) [
  | inl f ↦ absurd (cc (rw (f, id_character) at e))
  | inr f ↦ (ground arith, rw (f, id_character) at e)
]

abbrev pub IsIdCharacter : ℕ → Type 0
IsIdCharacter c = (k : ℕ) × (k < 62) × (get_elem? id_alphabet k ≡ some c)

id_picked : (out : List ℕ) → All (IsPicked id_character) out → All IsIdCharacter out
id_picked [] h = tt
id_picked (c ∷ out) ((b, e), h) =
    let (small, f) = id_character-bound b c e in ((b % 64, small, f), id_picked out h)

-- How many bytes of the reads are below 62 in their last six bits.
abbrev pub small_bytes : List ℕ → ℕ
small_bytes [] = 0
small_bytes (b ∷ bs) = let rest = small_bytes bs in if ltb (b % 64) 62 then suc rest else rest

abbrev pub all_small : List (List ℕ) → ℕ
all_small [] = 0
all_small (buf ∷ reads) = small_bytes buf + all_small reads

get_elem?-some : (xs : List ℕ) (n : ℕ) → n < length xs → (c : ℕ) × (get_elem? xs n ≡ some c)
get_elem?-some [] n h = absurd (omega arith)
get_elem?-some (x ∷ xs) zero h = (x, refl)
get_elem?-some (x ∷ xs) (suc n) h = get_elem?-some xs n (omega arith)

id_character-some : (b : ℕ) → ltb (b % 64) 62 ≡ true → (c : ℕ) × (id_character b ≡ some c)
unfolding id_character
id_character-some b h =
    let (c, e) = get_elem?-some id_alphabet (b % 64) (ground arith) in
    let small : leb 62 (b % 64) ≡ false = ground arith in (c, rw (id_character, small) e)

small_bytes-usable : (bs : List ℕ) → small_bytes bs ≤ usable id_character bs
small_bytes-usable [] = omega arith
small_bytes-usable (b ∷ bs) = elim (Bool-cases (ltb (b % 64) 62)) [
  | inl e ↦ let (c, f) = id_character-some b e in ground (arith, e, f, small_bytes-usable bs)
  | inr e ↦ elim (Option-cases (id_character b)) [
    | inl f ↦ ground (arith, e, f, small_bytes-usable bs)
    | inr (c, f) ↦ ground (arith, e, f, small_bytes-usable bs)
  ]
]

all_small-usable : (reads : List (List ℕ)) → all_small reads ≤ all_usable id_character reads
all_small-usable [] = omega arith
all_small-usable (buf ∷ reads) = omega (arith, small_bytes-usable buf, all_small-usable reads)

-- A call of GenerateID ends once the bytes that it has read hold as many below 62 in their last six
-- bits as characters were asked for, which are 32 if that is 0. It then returns exactly so many
-- characters, each of them one of the alphabet.
pub generate_id-ends :
    (n : ℕ) (reads : List (List ℕ))
    → (if n == 0 then 32 else n) ≤ all_small reads
    → (out : List ℕ) × (generate_id n reads ≡ some out)
      × (length out ≡ (if n == 0 then 32 else n))
      × All IsIdCharacter out
unfolding generate_id
generate_id-ends n reads enough =
    let (out, e, long, picked) =
      sample-IsSample id_character (if n == 0 then 32 else n) reads
        (omega (arith, all_small-usable reads)) in
    (out, e, long, id_picked out picked)
