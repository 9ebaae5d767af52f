-- ===== src/Origin.antt =====
-- origin.go: which origins may drive a request that is authenticated by a cookie.
-- Texts are lists of bytes; `strings.EqualFold` is that of ASCII. The standard library's `url.Parse` is
-- an argument, which returns the scheme and the host, or nothing on an error. A header that is not
-- sent is the empty text, as `Header.Get` has it.
pub mod Trust
pub mod Guard
use go_dev_auth.Prelude.{
  ℕ, Bool, true, false, not, ◌&&◌, ◌||◌, Option, none, some, List, [], ◌∷◌, length, take, ltb, leb,
  ◌-◌, if◌then◌else◌, ◌==◌, ◌++◌, drop,
}
use go_dev_auth.Prelude.Result.{Result, ok, err}
use go_dev_auth.Prelude.Text.{codes_eq, to_lower, has_prefix, has_suffix, contains, codes}

abbrev pub Text : Type 0
Text = List ℕ

pub record Url : Type 0 where
  pub scheme : Text
  pub host : Text

abbrev pub Parse : Type 0
Parse = Text → Option Url

-- What the checks read of the configuration.
pub record Config : Type 0 where
  pub base_url : Text
  pub trusted_origins : List Text
  pub disable_csrf_check : Bool
  pub exempt_paths : List Text

abbrev pub is_blank : Text → Bool
is_blank [] = true
is_blank (c ∷ s) = false

-- `strings.TrimSuffix(s, "/")`
unfoldable pub trim_slash : Text → Text
unfolding has_suffix
trim_slash s = if has_suffix s (b'/' ∷ []) then take (length s - 1) s else s

-- `sameOrigin`
unfoldable pub same_origin : Text → Text → Bool
unfolding trim_slash codes_eq
same_origin a b = codes_eq (to_lower (trim_slash a)) (to_lower (trim_slash b))

abbrev pub join_url : Url → Text
join_url u = u.scheme ++ (b':' ∷ b'/' ∷ b'/' ∷ u.host)

abbrev pub separator : Text
separator = b':' ∷ b'/' ∷ b'/' ∷ []

-- The scheme and the rest of a pattern at its first "://"; without one the scheme is empty.
unfoldable pub split_scheme : Text → Option (Text × Text)
unfolding has_prefix
split_scheme [] = none
split_scheme (c ∷ s) =
    let later = split_scheme s in
    if has_prefix (c ∷ s) separator
    then some ([], drop 3 (c ∷ s))
    else elim later [ none ↦ none | some (scheme, rest) ↦ some (c ∷ scheme, rest) ]

unfoldable pub pattern_parts : Text → Text × Text
unfolding split_scheme
pattern_parts trusted = elim (split_scheme trusted) [ none ↦ ([], trusted) | some parts ↦ parts ]

-- The host pattern "*.example.com": a host that ends in ".example.com" behind at least one byte.
unfoldable pub covers : Text → Text → Bool
unfolding has_suffix
covers (c ∷ d ∷ suffix) host =
    c == b'*'
    && (d == b'.' && (ltb (length (d ∷ suffix)) (length host) && has_suffix host (d ∷ suffix)))
covers _ host = false

unfoldable pub trusts_wildcard : Text → Url → Bool
unfolding pattern_parts covers codes_eq
trusts_wildcard trusted o =
    let (scheme, pattern) = pattern_parts trusted in
    (is_blank scheme || codes_eq scheme o.scheme) && covers pattern o.host

-- One configured origin, without its last slash.
unfoldable pub trusts : Text → Url → Text → Bool
unfolding contains same_origin trusts_wildcard
trusts origin o trusted =
    if contains trusted (b'*' ∷ []) then trusts_wildcard trusted o else same_origin origin trusted

-- The loop over the configured origins.
unfoldable pub trusts_any : Text → Url → List Text → Bool
unfolding trusts trim_slash
trusts_any origin o [] = false
trusts_any origin o (t ∷ ts) = trusts origin o (trim_slash t) || trusts_any origin o ts

unfoldable pub is_base : Parse → Config → Text → Bool
unfolding same_origin
is_base parse c origin = elim (parse c.base_url) [
  | none ↦ false
  | some u ↦ not (is_blank u.host) && same_origin origin (join_url u)
]

-- `isTrustedOrigin`
unfoldable pub is_trusted_origin : Parse → Config → Text → Bool
unfolding is_base trusts_any
is_trusted_origin parse c origin =
    if is_blank origin
    then false
    else if is_base parse c origin
    then true
    else elim (parse origin) [ none ↦ false | some o ↦ trusts_any origin o c.trusted_origins ]

pub record Request : Type 0 where
  pub verb : Text
  pub origin : Text
  pub referer : Text
  pub fetch_site : Text
  pub user_agent : Text
  pub has_session_cookie : Bool

pub data OriginError : Type 0 where
  invalid_origin : OriginError

-- `isSameSiteRequest`: unknown without the header.
unfoldable pub same_site : Text → Option Bool
unfolding codes_eq
same_site site =
    let s = to_lower site in
    if is_blank s
    then none
    else if codes_eq s (codes "same-origin")
        || (codes_eq s (codes "same-site") || codes_eq s (codes "none"))
    then some true
    else some false

unfoldable pub safe_method : Text → Bool
unfolding codes_eq
safe_method m =
    codes_eq m (codes "GET") || (codes_eq m (codes "HEAD") || codes_eq m (codes "OPTIONS"))

-- Whether the path, or the pattern of the matched route, is exempt.
unfoldable pub exempt : Text → Text → List Text → Bool
unfolding codes_eq
exempt path pattern [] = false
exempt path pattern (p ∷ ps) =
    (codes_eq p path || (not (is_blank pattern) && codes_eq p pattern)) || exempt path pattern ps

-- The origin that a request states: the header, or the origin of its referer.
unfoldable pub stated_origin : Parse → Request → Text
stated_origin parse r =
    if not (is_blank r.origin)
    then r.origin
    else if is_blank r.referer
    then []
    else elim (parse r.referer) [ none ↦ [] | some u ↦ if is_blank u.host then [] else join_url u ]

-- A request that states no origin.
unfoldable pub check_unstated : Request → Result OriginError (Unit {0})
unfolding same_site has_prefix
check_unstated r = elim (same_site r.fetch_site) [
  | some true ↦ ok tt
  | some false ↦ err invalid_origin
  | none ↦
      if not r.has_session_cookie
      then ok tt
      else if has_prefix r.user_agent (codes "Mozilla/")
      then err invalid_origin
      else ok tt
]

-- `checkOrigin`
unfoldable pub check_origin : Parse → Config → Request → Text → Text → Result OriginError (Unit {0})
unfolding safe_method exempt stated_origin is_trusted_origin check_unstated
check_origin parse c r path pattern =
    if c.disable_csrf_check
    then ok tt
    else if safe_method r.verb
    then ok tt
    else if exempt path pattern c.exempt_paths
    then ok tt
    else if not (is_blank (stated_origin parse r))
    then (if is_trusted_origin parse c (stated_origin parse r) then ok tt else err invalid_origin)
    else check_unstated r
