-- ===== src/RateLimit/Eviction.antt =====
-- Eviction never changes an answer.
use go_dev_auth.Prelude.{
  ℕ, ◌+◌, ◌-◌, ◌*◌, ◌≤◌, String, ◌≡◌, refl, inl, inr, Bool, false, Option, none, some, List, [],
  ◌∷◌, ltb, str_eq, if◌then◌else◌, eq_iff, arith, Option-cases, Bool-cases, subst, str_eq,
}
use mathlib.Core.Path.{ap₂}
use go_dev_auth.Prelude.Assoc.{lookup, insert, lookup-insert}
use go_dev_auth.RateLimit.{Window, Store, evict, collect, advance, hit, new_store, minute}

-- A store in which no key stands twice.
abbrev pub NoKey : String → List (String × Window) → Type 0
NoKey k ws = lookup k ws ≡ none

abbrev pub IsMap : List (String × Window) → Type 0
IsMap [] = Unit
IsMap ((k, w) ∷ ws) = NoKey k ws × IsMap ws

abbrev stale : ℕ → Window → Bool
stale now w = ltb (10 * w.window) (now - w.start)

NoKey-evict :
    (now : ℕ) (k : String) (ws : List (String × Window)) → NoKey k ws → NoKey k (evict now ws)
unfolding lookup evict
NoKey-evict now k [] h = refl
NoKey-evict now k ((j, w) ∷ ws) h = ground (arith, NoKey-evict now k ws)

IsMap-evict : (now : ℕ) (ws : List (String × Window)) → IsMap ws → IsMap (evict now ws)
unfolding evict
IsMap-evict now [] h = tt
IsMap-evict now ((k, w) ∷ ws) (n, h) = elim (Bool-cases (stale now w)) [
  | inl e ↦ rw e (IsMap-evict now ws h)
  | inr e ↦ rw e (NoKey-evict now k ws n, IsMap-evict now ws h)
]

-- Eviction drops exactly the entries that are stale by their own window.
lookup-evict :
    (now : ℕ) (k : String) (ws : List (String × Window))
    → IsMap ws
    → lookup k (evict now ws)
      ≡ elim (lookup k ws) [ none ↦ none | some w ↦ if stale now w then none else some w ]
unfolding lookup evict
lookup-evict now k [] h = refl
lookup-evict now k ((j, w) ∷ ws) (n, h) =
    ground (arith, eq_iff j k, lookup-evict now k ws h, NoKey-evict now j ws n)

NoKey-insert :
    (k j : String) (w : Window) (ws : List (String × Window))
    → str_eq j k ≡ false
    → NoKey k ws
    → NoKey k (insert j w ws)
NoKey-insert k j w ws e h = rw (lookup-insert j k w ws, e) h

IsMap-insert :
    (k : String) (w : Window) (ws : List (String × Window)) → IsMap ws → IsMap (insert k w ws)
unfolding insert
IsMap-insert k w [] h = (unfold lookup in refl, tt)
IsMap-insert k w ((j, u) ∷ ws) (n, h) = elim (Bool-cases (str_eq j k)) [
  | inl e ↦ rw e (subst (λ i. NoKey i ws) ((eq_iff j k).0 e) n, h)
  | inr e ↦
      rw e (NoKey-insert j k w ws (ground (arith, eq_iff j k, eq_iff k j)) n, IsMap-insert k w ws h)
]

-- A limiter that forgets nothing: the last window of each key.
abbrev pub Ledger : Type 0
Ledger = String → Option Window

abbrev pub record_hit : String → ℕ → ℕ → Ledger → ℕ × Ledger
record_hit key window now l =
    let w = advance now window (l key) in (w.count, λ k. if str_eq key k then some w else l k)

-- The store holds what the ledger holds, but for windows that are over; every key keeps its window.
pub record Agrees (windows : String → ℕ) (now : ℕ) (s : Store) (l : Ledger) : Type 0 where
  pub is_map : IsMap s.windows
  pub present :
      (k : String) (w : Window)
      → lookup k s.windows ≡ some w
      → (l k ≡ some w) × (w.window ≡ windows k) × (w.start ≤ now)
  pub absent :
      (k : String) (w : Window)
      → lookup k s.windows ≡ none
      → l k ≡ some w
      → w.start + windows k ≤ now

module _ (windows : String → ℕ) (before now : ℕ) (later : before ≤ now) (l : Ledger) where
  collect-Agrees : (s : Store) → Agrees windows before s l → Agrees windows now (collect now s) l
  unfolding collect
  collect-Agrees s h = elim (Bool-cases (ltb minute (now - s.last_gc))) [
    | inr e ↦ rw e (record {
      is_map = h.is_map;
      present = λ k w p. ground (arith, h.present k w p);
      absent = λ k w p q. ground (arith, h.absent k w p q);
    })
    | inl e ↦ rw e (record {
      is_map = IsMap-evict now s.windows h.is_map;
      present = λ k w p. present_evict k w (lookup k s.windows) refl p;
      absent = λ k w p q. absent_evict k w (lookup k s.windows) refl p q;
    })
  ]
    where
      present_evict :
          (k : String) (w : Window) (o : Option Window)
          → lookup k s.windows ≡ o
          → lookup k (evict now s.windows) ≡ some w
          → (l k ≡ some w) × (w.window ≡ windows k) × (w.start ≤ now)
      present_evict k w none e p = absurd (ground (arith, lookup-evict now k s.windows h.is_map))
      present_evict k w (some u) e p = elim (Bool-cases (stale now u)) [
        | inl st ↦ absurd (ground (arith, lookup-evict now k s.windows h.is_map))
        | inr st ↦
            let same : u ≡ w = ground (arith, lookup-evict now k s.windows h.is_map) in
            let at = h.present k u e in
            subst (λ x. (l k ≡ some x) × (x.window ≡ windows k) × (x.start ≤ now)) same
              (at.0, at.1, omega arith)
      ]

      absent_evict :
          (k : String) (w : Window) (o : Option Window)
          → lookup k s.windows ≡ o
          → lookup k (evict now s.windows) ≡ none
          → l k ≡ some w
          → w.start + windows k ≤ now
      absent_evict k w none e p q = ground (arith, h.absent k w e q)
      absent_evict k w (some u) e p q =
          ground (arith, lookup-evict now k s.windows h.is_map, h.present k u e)

  module _ (s : Store) (key : String) (h : Agrees windows now s l) where
    abbrev next : Window
    next = advance now (windows key) (lookup key s.windows)

    next-ledger : next ≡ advance now (windows key) (l key)
    unfolding advance
    next-ledger = elim (Option-cases (lookup key s.windows)) [
      | inr (w, e) ↦ ground (arith, h.present key w e)
      | inl e ↦ elim (Option-cases (l key)) [
        | inl n ↦ rw (e, n)
        | inr (w, n) ↦ ground (arith, h.absent key w e n)
      ]
    ]

    next_window : (next.window ≡ windows key) × (next.start ≤ now)
    unfolding advance
    next_window = elim (Option-cases (lookup key s.windows)) [
      | inr (w, e) ↦ ground (arith, h.present key w e)
      | inl e ↦ rw e (refl, omega arith)
    ]

    record-Agrees :
        Agrees windows now
          (record s { windows = insert key next s.windows })
          (λ k. if str_eq key k then some next else l k)
    record-Agrees = record {
      is_map = IsMap-insert key next s.windows h.is_map;
      present = λ k w p. elim (Bool-cases (str_eq key k)) [
        | inl e ↦
            let same : next ≡ w = ground (arith, lookup-insert key k next s.windows) in
            let kept = subst (λ j. next.window ≡ windows j) ((eq_iff key k).0 e) next_window.0 in
            subst
              (λ u.
                ((if str_eq key k then some next else l k) ≡ some u)
                × (u.window ≡ windows k)
                × (u.start ≤ now))
              same (rw e, kept, next_window.1)
        | inr e ↦ rw e (h.present k w (rw (lookup-insert key k next s.windows, e) at p))
      ];
      absent = λ k w p q. elim (Bool-cases (str_eq key k)) [
        | inl e ↦ absurd (ground (arith, lookup-insert key k next s.windows))
        | inr e ↦ h.absent k w (rw (lookup-insert key k next s.windows, e) at p) (rw e at q)
      ];
    }

  -- One hit: the same answer, and the store and the ledger agree again.
  hit-Agrees :
      (s : Store) (key : String)
      → Agrees windows before s l
      → ((hit key (windows key) now s).0 ≡ (record_hit key (windows key) now l).0)
        × Agrees windows now (hit key (windows key) now s).1 (record_hit key (windows key) now l).1
  unfolding hit
  hit-Agrees s key h =
      let c = collect now s in
      let hc = collect-Agrees s h in
      subst
        (λ (w : Window).
          ((next c key hc).count ≡ w.count)
          × Agrees windows now (record c { windows = insert key (next c key hc) c.windows })
              (λ k. if str_eq key k then some w else l k))
        (next-ledger c key hc) (refl, record-Agrees c key hc)

-- A hit of a key, and when it happens.
abbrev pub Hit : Type 0
Hit = String × ℕ

abbrev pub IsTimed : ℕ → List Hit → Type 0
IsTimed before [] = Unit
IsTimed before ((key, now) ∷ hits) = (before ≤ now) × IsTimed now hits

-- The answers to a sequence of hits, by the store and by the ledger.
abbrev pub answers : (String → ℕ) → Store → List Hit → List ℕ
answers windows s [] = []
answers windows s ((key, now) ∷ hits) =
    let (n, s') = hit key (windows key) now s in n ∷ answers windows s' hits

abbrev pub ledger_answers : (String → ℕ) → Ledger → List Hit → List ℕ
ledger_answers windows l [] = []
ledger_answers windows l ((key, now) ∷ hits) =
    let (n, l') = record_hit key (windows key) now l in n ∷ ledger_answers windows l' hits

answers-Agrees :
    (windows : String → ℕ) (before : ℕ) (s : Store) (l : Ledger) (hits : List Hit)
    → Agrees windows before s l
    → IsTimed before hits
    → answers windows s hits ≡ ledger_answers windows l hits
answers-Agrees windows before s l [] h timed = refl
answers-Agrees windows before s l ((key, now) ∷ hits) h (later, timed) =
    let (same, next) = hit-Agrees windows before now later l s key h in
    ap₂ ◌∷◌ same (answers-Agrees windows now _ _ hits next timed)

new-Agrees : (windows : String → ℕ) (now : ℕ) → Agrees windows now (new_store now) (λ k. none)
unfolding lookup
new-Agrees windows now = record {
  is_map = tt;
  present = λ k w p. absurd (cc);
  absent = λ k w p q. absurd (cc);
}

-- For any sequence of hits in the order of time, in which each key has one window length, a new
-- store gives the answers of the ledger that never forgets a window: eviction loses no live count.
pub answers-ledger :
    (windows : String → ℕ) (now : ℕ) (hits : List Hit)
    → IsTimed now hits
    → answers windows (new_store now) hits ≡ ledger_answers windows (λ k. none) hits
answers-ledger windows now hits timed =
    answers-Agrees windows now (new_store now) (λ k. none) hits (new-Agrees windows now) timed
