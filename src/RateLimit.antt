-- ===== src/RateLimit.antt =====
-- ratelimit/ratelimit.go: fixed-window rate limiting over the in-memory store.
-- Times and durations are numbers of nanoseconds, and the clock's reading is an argument.
pub mod Budget
pub mod Eviction
use go_dev_auth.Prelude.{
  ℕ, zero, suc, ◌+◌, ◌-◌, ◌*◌, String, Bool, true, false, not, ◌&&◌, ◌||◌, Option, none, some, List,
  [], ◌∷◌, ltb, leb, str_eq, if◌then◌else◌, ℤ, pos, negsuc, int_leb,
}
use go_dev_auth.Prelude.Assoc.{lookup, insert}
use go_dev_auth.Prelude.Result.{Result, ok, err}

-- `windowState`
pub record Window : Type 0 where
  pub start : ℕ
  pub count : ℕ
  pub window : ℕ

-- `MemoryStore`
pub record Store : Type 0 where
  pub windows : List (String × Window)
  pub last_gc : ℕ

-- `NewMemoryStore`
abbrev pub new_store : ℕ → Store
new_store now = record { windows = []; last_gc = now }

abbrev pub minute : ℕ
minute = 60 * 1000000000

-- The eviction loop: each key by its own window.
unfoldable pub evict : ℕ → List (String × Window) → List (String × Window)
evict now [] = []
evict now ((k, w) ∷ ws) =
    if ltb (10 * w.window) (now - w.start) then evict now ws else (k, w) ∷ evict now ws

unfoldable pub collect : ℕ → Store → Store
unfolding evict
collect now s =
    if ltb minute (now - s.last_gc)
    then record { windows = evict now s.windows; last_gc = now }
    else s

fresh : ℕ → ℕ → Window
fresh now window = record { start = now; count = 1; window = window }

-- The window that a hit leaves: a new one, or the present one with one hit more.
unfoldable pub advance : ℕ → ℕ → Option Window → Window
unfolding fresh
advance now window none = fresh now window
advance now window (some w) =
    if leb window (now - w.start) then fresh now window else record w { count = w.count + 1 }

-- `Hit`: the number of hits in the current window.
unfoldable pub hit : String → ℕ → ℕ → Store → ℕ × Store
unfolding collect advance lookup insert
hit key window now s =
    let c = collect now s in
    let w = advance now window (lookup key c.windows) in
    (w.count, record c { windows = insert key w c.windows })

-- `Rule`
pub record Rule : Type 0 where
  pub window : ℤ
  pub max : ℤ

positive : ℤ → Option ℕ
positive (pos zero) = none
positive (pos (suc n)) = some (suc n)
positive (negsuc n) = none

-- `Allow` over the in-memory store, which reports no error. A rule without a positive limit and
-- window allows everything and is not counted.
allow_hits : Option ℕ → Option ℕ → String → ℕ → Store → Bool × Store
unfolding hit
allow_hits none window key now s = (true, s)
allow_hits (some most) none key now s = (true, s)
allow_hits (some most) (some window) key now s =
    let (n, s') = hit key window now s in (leb n most, s')

unfoldable pub allow : String → Rule → ℕ → Store → Bool × Store
unfolding allow_hits positive
allow key rule now s = allow_hits (positive rule.max) (positive rule.window) key now s
