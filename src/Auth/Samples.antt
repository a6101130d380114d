-- ===== src/Auth/Samples.antt =====
-- The gate of api/app.py with two tokens, at a few requests.
use linux_xai_security_assis.Base.{◌≡◌, refl, true, none, some, List, [], ◌∷◌, map, Text, codes}
use linux_xai_security_assis.Chain.Toy.{toy_sha256}
use linux_xai_security_assis.Auth.{
  Settings, unreadable, readable, done, raises, file_exposed, too_short, TokenAuthenticator, init,
  is_empty, Request, served, unauthorized, unavailable, require_token,
}
use linux_xai_security_assis.Auth.Tokens.{IsRight, require_token-IsRight}

abbrev same : Text → Text
same t = t

abbrev one_line : Text → List Text
one_line t = t ∷ []

abbrev settings : Settings
settings = record {
  api_require_auth = true;
  api_tokens = some (codes "0123456789abcdef,fedcba9876543210");
  api_token_file = none;
}

abbrev tokens : List Text
tokens = codes "0123456789abcdef" ∷ codes "fedcba9876543210" ∷ []

abbrev auth : TokenAuthenticator
auth = record { required = true; digests = map toy_sha256 tokens }

sets_up : init toy_sha256 same one_line settings unreadable ≡ done auth
unfolding init
sets_up = refl

refuses_short :
    init toy_sha256 same one_line
      (record settings { api_tokens = some (codes "changeme,") })
      unreadable
    ≡ raises (too_short 1)
unfolding init
refuses_short = refl

refuses_exposed :
    init toy_sha256 same one_line
      (record settings { api_token_file = some (codes "/t") })
      (readable (codes "#") true)
    ≡ raises file_exposed
unfolding init
refuses_exposed = refl

abbrev request : Request
request = record {
  path = codes "/api/findings";
  authorization = some (codes "bearer fedcba9876543210");
  api_key = none;
}

serves_a_token : require_token toy_sha256 same same auth request ≡ served
unfolding require_token toy_sha256 is_empty
serves_a_token = refl

refuses_a_stranger :
    require_token toy_sha256 same same auth
      (record request { authorization = some (codes "bearer x") })
    ≡ unauthorized
unfolding require_token toy_sha256 is_empty
refuses_a_stranger = refl

refuses_all_without_tokens :
    require_token toy_sha256 same same (record { required = true; digests = [] }) request
    ≡ unavailable
unfolding require_token
refuses_all_without_tokens = refl

require_token-IsRight_example :
    IsRight toy_sha256 same same one_line settings unreadable request
      (require_token toy_sha256 same same auth request)
require_token-IsRight_example =
    require_token-IsRight toy_sha256 same same one_line settings unreadable auth request sets_up
