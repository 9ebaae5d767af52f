-- ===== src/Origin/Trust.antt =====
-- Which origins are trusted.
use go_dev_auth.Prelude.{◌≡◌, ◌≢◌, ◌⊎◌, true, some, List, [], ◌∷◌, ◌++◌}
use go_dev_auth.Origin.{Text, Parse, Url, Config, same_origin, join_url, trim_slash, pattern_parts}

-- One of the configured origins.
pub data Listed (t : Text) : List Text → Type 0 where
  here : {ts : List Text} → Listed t (t ∷ ts)
  there : {x : Text} {ts : List Text} → Listed t ts → Listed t (x ∷ ts)

-- The origin is that of the base URL, or one of the configured ones, or its host is a proper subdomain
-- of a configured wildcard, under the scheme of the wildcard if it has one.
pub data IsTrusted (parse : Parse) (c : Config) (origin : Text) : Type 0 where
  own :
      (u : Url)
      → parse c.base_url ≡ some u
      → same_origin origin (join_url u) ≡ true
      → IsTrusted parse c origin
  literal :
      (t : Text)
      → Listed t c.trusted_origins
      → same_origin origin (trim_slash t) ≡ true
      → IsTrusted parse c origin
  subdomain :
      (t : Text) (o : Url) (sub suffix : Text)
      → Listed t c.trusted_origins
      → parse origin ≡ some o
      → (pattern_parts (trim_slash t)).1 ≡ b'*' ∷ b'.' ∷ suffix
      → ((pattern_parts (trim_slash t)).0 ≡ []) ⊎ ((pattern_parts (trim_slash t)).0 ≡ o.scheme)
      → o.host ≡ sub ++ (b'.' ∷ suffix)
      → sub ≢ []
      → IsTrusted parse c origin
