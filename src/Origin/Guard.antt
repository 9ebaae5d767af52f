-- ===== src/Origin/Guard.antt =====
-- What a browser can get past `checkOrigin`.
use go_dev_auth.Prelude.{
  ◌≡◌, ◌≢◌, ◌⊎◌, inl, inr, ◌↔◌, refl, ap, sym, ◌∙◌, true, false, none, some, List, [], ◌∷◌, ◌++◌,
  arith, Bool-cases, Option-cases,
}
use go_dev_auth.Prelude.Result.{ok}
use go_dev_auth.Prelude.Text.{codes_eq, codes_eq-eq, codes_eq_refl, has_prefix, to_lower, codes}
use go_dev_auth.Origin.{
  Text, Url, Parse, Config, Request, is_blank, stated_origin, same_site, safe_method, exempt,
  is_trusted_origin, check_unstated, check_origin, join_url,
}

-- The header `Origin`, or the scheme and host of the header `Referer`, if that parses and has a host.
abbrev pub IsStated : Parse → Request → Text → Type 0
IsStated parse r o =
    (r.origin ≢ []) × (o ≡ r.origin)
    ⊎ (r.origin ≡ [])
      × ((r.referer ≢ [])
          × ((u : Url) × (parse r.referer ≡ some u)
              × (u.host ≢ [])
              × (o ≡ u.scheme ++ (codes "://" ++ u.host))))

-- Neither of the two headers names an origin.
abbrev pub IsUnstated : Parse → Request → Type 0
IsUnstated parse r =
    (r.origin ≡ [])
    × ((r.referer ≡ [])
        ⊎ ((parse r.referer ≡ none) ⊎ ((u : Url) × (parse r.referer ≡ some u) × (u.host ≡ []))))

-- The header `Sec-Fetch-Site` of a request that no other site has made.
abbrev pub IsSameSite : Text → Type 0
IsSameSite site =
    (to_lower site ≡ codes "same-origin")
    ⊎ ((to_lower site ≡ codes "same-site") ⊎ (to_lower site ≡ codes "none"))

abbrev pub IsSafe : Text → Type 0
IsSafe verb = (verb ≡ codes "GET") ⊎ ((verb ≡ codes "HEAD") ⊎ (verb ≡ codes "OPTIONS"))

-- One of the exempt paths is the path of the request or the pattern of its route.
abbrev pub IsExempt : Text → Text → List Text → Type 0
IsExempt path pattern [] = ⊥
IsExempt path pattern (p ∷ ps) =
    ((p ≡ path) ⊎ (pattern ≢ []) × (p ≡ pattern)) ⊎ IsExempt path pattern ps

is_blank_iff : (s : Text) → (is_blank s ≡ true) ↔ (s ≡ [])
is_blank_iff [] = ground arith
is_blank_iff (x ∷ s) = ground arith

codes_eq_iff : (s t : Text) → (codes_eq s t ≡ true) ↔ (s ≡ t)
codes_eq_iff s t = (codes_eq-eq s t, λ e. ap (codes_eq s) (sym e) ∙ codes_eq_refl s)

safe_method_iff : (verb : Text) → (safe_method verb ≡ true) ↔ IsSafe verb
unfolding safe_method
safe_method_iff verb = ground (
  arith,
  codes_eq_iff verb (codes "GET"),
  codes_eq_iff verb (codes "HEAD"),
  codes_eq_iff verb (codes "OPTIONS"),
)

exempt_iff :
    (path pattern : Text) (ps : List Text)
    → (exempt path pattern ps ≡ true) ↔ IsExempt path pattern ps
unfolding exempt
exempt_iff path pattern [] = ground arith
exempt_iff path pattern (p ∷ ps) = ground (
  arith,
  codes_eq_iff p path,
  codes_eq_iff p pattern,
  is_blank_iff pattern,
  exempt_iff path pattern ps,
)

to_lower-blank : (s : Text) → (is_blank (to_lower s) ≡ true) ↔ (s ≡ [])
to_lower-blank [] = ground arith
to_lower-blank (c ∷ s) = ground arith

same_site_iff :
    (site : Text)
    → ((same_site site ≡ some true) ↔ IsSameSite site) × ((same_site site ≡ none) ↔ (site ≡ []))
unfolding same_site
same_site_iff [] = ground arith
same_site_iff (c ∷ site) = ground (
  arith,
  to_lower-blank (c ∷ site),
  codes_eq_iff (to_lower (c ∷ site)) (codes "same-origin"),
  codes_eq_iff (to_lower (c ∷ site)) (codes "same-site"),
  codes_eq_iff (to_lower (c ∷ site)) (codes "none"),
)

join_url-ne : (u : Url) → join_url u ≢ []
join_url-ne u = go u.scheme u.host
  where
    go : (s t : Text) → s ++ (codes "://" ++ t) ≢ []
    go [] t e = cc
    go (c ∷ s) t e = cc

-- What the code takes for the stated origin: one that is stated, or nothing.
stated_origin-cases :
    (parse : Parse) (r : Request)
    → IsStated parse r (stated_origin parse r) × (stated_origin parse r ≢ [])
      ⊎ IsUnstated parse r × (stated_origin parse r ≡ [])
unfolding stated_origin
stated_origin-cases parse r = elim (Bool-cases (is_blank r.origin)) [
  | inr e ↦ ground (arith, e, is_blank_iff r.origin)
  | inl e ↦ elim (Bool-cases (is_blank r.referer)) [
    | inl f ↦ ground (arith, e, f, is_blank_iff r.origin, is_blank_iff r.referer)
    | inr f ↦ elim (Option-cases (parse r.referer)) [
      | inl g ↦ ground (arith, e, f, g, is_blank_iff r.origin, is_blank_iff r.referer)
      | inr (u, g) ↦ elim (Bool-cases (is_blank u.host)) [
        | inl h ↦ inr (
          ((is_blank_iff r.origin).0 e, inr (inr (u, g, (is_blank_iff u.host).0 h))),
          rw (e, f, g, h) refl,
        )
        | inr h ↦
            let o : stated_origin parse r ≡ join_url u = rw (e, f, g, h) refl in
            inl (
              inr (
                (is_blank_iff r.origin).0 e,
                (
                  ground (arith, f, is_blank_iff r.referer),
                  (u, g, ground (arith, h, is_blank_iff u.host), o),
                ),
              ),
              λ n. join_url-ne u (sym o ∙ n),
            )
      ]
    ]
  ]
]

some_inj : {u v : Url} → some u ≡ some v → u ≡ v
some_inj e = cc

-- No more than one origin is stated, and none by a request that is unstated.
IsStated-eq :
    (parse : Parse) (r : Request) (o o' : Text) → IsStated parse r o → IsStated parse r o' → o ≡ o'
IsStated-eq parse r o o' (inl (ne, e)) (inl (ne', e')) = e ∙ sym e'
IsStated-eq parse r o o' (inl (ne, e)) (inr (n, _)) = absurd (ne n)
IsStated-eq parse r o o' (inr (n, _)) (inl (ne', e')) = absurd (ne' n)
IsStated-eq parse r o o' (inr (n, (_, (u, f, _, e)))) (inr (n', (_, (u', f', _, e')))) =
    e ∙ ap join_url (some_inj (sym f ∙ f')) ∙ sym e'

stated-unstated :
    (parse : Parse) (r : Request) (o : Text) → IsStated parse r o → IsUnstated parse r → ⊥
stated-unstated parse r o (inl (ne, e)) (n, _) = ne n
stated-unstated parse r o (inr (n, (ne, _))) (n', inl m) = ne m
stated-unstated parse r o (inr (n, (ne, (u, f, _, _)))) (n', inr (inl m)) =
    let wrong : some u ≡ none = sym f ∙ m in cc
stated-unstated parse r o (inr (n, (ne, (u, f, full, _)))) (n', inr (inr (u', f', bare))) =
    full (ap (λ (x : Url). x.host) (some_inj (sym f ∙ f')) ∙ bare)

-- What passes without an origin: a request from the same site, or an unlabelled one that has no session's
-- cookie or is not a browser's.
abbrev pub PassesUnstated : Request → Type 0
PassesUnstated r =
    IsSameSite r.fetch_site
    ⊎ (r.fetch_site ≡ [])
      × ((r.has_session_cookie ≡ false) ⊎ (has_prefix r.user_agent (codes "Mozilla/") ≡ false))

check_unstated_iff : (r : Request) → (check_unstated r ≡ ok tt) ↔ PassesUnstated r
unfolding check_unstated
check_unstated_iff r = elim (Option-cases (same_site r.fetch_site)) [
  | inl e ↦ ground (arith, e, same_site_iff r.fetch_site)
  | inr (b, e) ↦ elim (Bool-cases b) [
    | inl f ↦ ground (arith, e, f, same_site_iff r.fetch_site)
    | inr f ↦ ground (arith, e, f, same_site_iff r.fetch_site)
  ]
]

-- What passes of the requests that are subject to the check.
abbrev pub PassesSubject : Parse → Config → Request → Type 0
PassesSubject parse c r =
    ((o : Text) × (IsStated parse r o) × (is_trusted_origin parse c o ≡ true))
    ⊎ IsUnstated parse r × PassesUnstated r

-- A request passes exactly if the check is disabled, or the method is GET, HEAD or OPTIONS, or the path or the
-- pattern of its route is exempt, or the origin that it states, by the header Origin or else by
-- its Referer, is trusted, or it states none and is labelled as same-origin, same-site or none in any
-- case of letters, or states none, has no such label at all, and either has no session's cookie or
-- is not sent by a browser.
pub check_origin_iff :
    (parse : Parse) (c : Config) (r : Request) (path pattern : Text)
    → (check_origin parse c r path pattern ≡ ok tt) ↔ (
        (c.disable_csrf_check ≡ true)
        ⊎ (IsSafe r.verb ⊎ (IsExempt path pattern c.exempt_paths ⊎ PassesSubject parse c r)))
unfolding check_origin
check_origin_iff parse c r path pattern = elim (stated_origin-cases parse r) [
  | inl (stated, ne) ↦
      let trusted : PassesSubject parse c r
          ↔ (is_trusted_origin parse c (stated_origin parse r) ≡ true) =
        (
          λ h. elim h [
            | inl (o, s, t) ↦ ap (is_trusted_origin parse c) (IsStated-eq parse r _ o stated s) ∙ t
            | inr (u, _) ↦ absurd (stated-unstated parse r _ stated u)
          ],
          λ t. inl (stated_origin parse r, stated, t),
        ) in
      ground (
        arith,
        safe_method_iff r.verb,
        exempt_iff path pattern c.exempt_paths,
        is_blank_iff (stated_origin parse r),
        trusted,
        ne,
      )
  | inr (unstated, e) ↦
      let passes : PassesSubject parse c r ↔ PassesUnstated r = (
        λ h. elim h [
          | inl (o, s, t) ↦ absurd (stated-unstated parse r o s unstated)
          | inr (_, p) ↦ p
        ],
        λ p. inr (unstated, p),
      ) in
      ground (
        arith,
        safe_method_iff r.verb,
        exempt_iff path pattern c.exempt_paths,
        is_blank_iff (stated_origin parse r),
        check_unstated_iff r,
        passes,
        e,
      )
]
