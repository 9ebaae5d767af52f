-- ===== src/Examples/Origins.antt =====
-- An origin below a wildcard, and a request that states it.
use go_dev_auth.Prelude.{◌≡◌, ◌⊎◌, ◌↔◌, true, false, none, some, [], ◌∷◌, if◌then◌else◌}
use go_dev_auth.Prelude.Result.{ok}
use go_dev_auth.Prelude.Text.{codes, codes_eq}
use go_dev_auth.Origin.{Text, Parse, Config, Request, check_origin}
use go_dev_auth.Origin.Guard.{IsSafe, IsExempt, PassesSubject, check_origin_iff}

abbrev shop : Text
shop = codes "https://a.shop.example"

-- A parser that knows two addresses.
abbrev parse_example : Parse
parse_example s =
    if codes_eq s (codes "https://auth.example")
    then some (record { scheme = codes "https"; host = codes "auth.example" })
    else if codes_eq s shop
    then some (record { scheme = codes "https"; host = codes "a.shop.example" })
    else none

abbrev config : Config
config = record {
  base_url = codes "https://auth.example";
  trusted_origins = codes "https://*.shop.example/" ∷ [];
  disable_csrf_check = false;
  exempt_paths = codes "/callback/:provider" ∷ [];
}

abbrev post : Request
post = record {
  verb = codes "POST";
  origin = shop;
  referer = [];
  fetch_site = codes "cross-site";
  user_agent = codes "Mozilla/5.0";
  has_session_cookie = true;
}

check_origin_iff_example :
    (check_origin parse_example config post (codes "/sign-out") (codes "/sign-out") ≡ ok tt) ↔ (
      (false ≡ true)
      ⊎ (IsSafe post.verb
          ⊎ (IsExempt (codes "/sign-out") (codes "/sign-out") config.exempt_paths
              ⊎ PassesSubject parse_example config post)))
check_origin_iff_example =
    check_origin_iff parse_example config post (codes "/sign-out") (codes "/sign-out")
