-- ===== src/Auth.antt =====
-- api/auth.py: the accepted tokens, resolved once, and the check of a presented credential. SHA-256
-- is the parameter `sha256`; Python's `str.strip`, `str.lower` and `str.splitlines` are parameters.
-- Reading the token file and its mode are the environment's.
pub mod Tokens
mod Samples
use linux_xai_security_assis.Base.{
  ℕ, zero, suc, ◌+◌, ◌%◌, Bool, true, false, not, ◌&&◌, ◌||◌, Option, none, some, List, [], ◌∷◌,
  ◌++◌, map, any, keep, length, ltb, ◌==◌, if◌then◌else◌, Text, codes, same_text, starts_with,
}

-- What the settings say; a token file is `none` where none is configured.
pub record Settings : Type 0 where
  pub api_require_auth : Bool
  pub api_tokens : Option Text
  pub api_token_file : Option Text

-- The file as it is read: its text and whether group or other may read or write it.
pub data TokenFile : Type 0 where
  unreadable : TokenFile
  readable : Text → Bool → TokenFile

pub data AuthConfigurationError : Type 0 where
  file_unreadable file_exposed : AuthConfigurationError
  too_short : ℕ → AuthConfigurationError

pub data Result {ℓ} (A : Type ℓ) : Type ℓ where
  done : A → Result A
  raises : AuthConfigurationError → Result A

abbrev pub min_token_length : ℕ
min_token_length = 16

unfoldable pub is_empty : Text → Bool
is_empty [] = true
is_empty (c ∷ t) = false

-- `text.split(",")`: the part read so far, and the parts behind it.
unfoldable pub split_from : Text → Text → List Text
split_from part [] = part ∷ []
split_from part (c ∷ text) =
    let next = split_from [] text in
    let more = split_from (part ++ c ∷ []) text in if c == 44 then part ∷ next else more

-- `candidate.startswith("#")`
abbrev pub is_comment : Text → Bool
is_comment [] = false
is_comment (c ∷ t) = c == 35

-- `TokenAuthenticator`
pub record TokenAuthenticator : Type 0 where
  pub required : Bool
  pub digests : List Text

unfoldable pub is_short : Text → Bool
is_short token = ltb (length token) min_token_length

-- What the gate of api/app.py does with a request.
pub data Response : Type 0 where
  served unavailable unauthorized : Response

abbrev pub unprotected_paths : List Text
unprotected_paths = codes "/api/health" ∷ codes "/api/health/live" ∷ []

unfoldable pub is_open : Text → Bool
unfolding starts_with same_text
is_open path =
    any (same_text path) unprotected_paths
    || same_text path (codes "/")
    || same_text path (codes "/dashboard")
    || starts_with (codes "/dashboard/") path

-- A request as the gate reads it.
pub record Request : Type 0 where
  pub path : Text
  pub authorization : Option Text
  pub api_key : Option Text

-- `TokenAuthenticator.configured`
abbrev pub configured : TokenAuthenticator → Bool
configured auth = not (length auth.digests == 0)

-- The loop of `verify`, which goes on after a match.
unfoldable pub compare_all : Text → Bool → List Text → Bool
unfolding same_text
compare_all candidate matched [] = matched
compare_all candidate matched (known ∷ digests) =
    compare_all candidate (if same_text candidate known then true else matched) digests

-- `authorization.partition(" ")`: the text before the first space, and the text after it.
unfoldable pub partition : Text → Text × Text
partition [] = ([], [])
partition (c ∷ text) =
    let rest = partition text in if c == 32 then ([], text) else (c ∷ rest.0, rest.1)

module _ (strip : Text → Text) (splitlines : Text → List Text) where
  -- The parts that are not blank, stripped.
  unfoldable pub stripped : List Text → List Text
  unfolding is_empty
  stripped parts = keep (λ part. not (is_empty part)) (map strip parts)

  -- `_read_token_file`
  unfoldable pub read_token_file : TokenFile → Result (List Text)
  unfolding stripped
  read_token_file unreadable = raises file_unreadable
  read_token_file (readable raw exposed) =
      if exposed
      then raises file_exposed
      else done (keep (λ candidate. not (is_comment candidate)) (stripped (splitlines raw)))

  -- `settings.api_tokens or ""`
  unfoldable pub inline_tokens : Option Text → List Text
  unfolding split_from stripped
  inline_tokens none = stripped (split_from [] [])
  inline_tokens (some text) = stripped (split_from [] text)

  -- The tokens of the file, if one is configured.
  unfoldable pub file_tokens : Option Text → TokenFile → Result (List Text)
  unfolding read_token_file
  file_tokens none file = done []
  file_tokens (some []) file = done []
  file_tokens (some (c ∷ path)) file = read_token_file file

module _ (sha256 : Text → Text) where
  -- `__init__` once the candidates are known. A set of digests is a list; how often it has one is
  -- never read.
  unfoldable pub authenticator : Bool → List Text → Result TokenAuthenticator
  unfolding is_short
  authenticator required candidates =
      let short = keep is_short candidates in
      if length short == 0
      then done (record { required = required; digests = map sha256 candidates })
      else raises (too_short (length short))

  abbrev pub with_file : Bool → List Text → Result (List Text) → Result TokenAuthenticator
  with_file required inline (raises e) = raises e
  with_file required inline (done tokens) = authenticator required (inline ++ tokens)

  -- `verify`, of a token that is there.
  unfoldable pub verify_text : TokenAuthenticator → Text → Bool
  unfolding compare_all
  verify_text auth [] = false
  verify_text auth (c ∷ presented) = compare_all (sha256 (c ∷ presented)) false auth.digests

  -- `TokenAuthenticator.verify`
  unfoldable pub verify : TokenAuthenticator → Option Text → Bool
  unfolding verify_text
  verify auth none = not auth.required
  verify auth (some presented) = if auth.required then verify_text auth presented else true

module _ (strip lower : Text → Text) where
  -- A header that is there and not blank.
  abbrev pub or_stripped : Option Text → Option Text
  or_stripped none = none
  or_stripped (some value) = let bare = strip value in if is_empty bare then none else some bare

  abbrev pub first_some : Option Text → Option Text → Option Text
  first_some none other = other
  first_some (some token) other = some token

  abbrev pub bearer : Option Text → Option Text
  bearer none = none
  bearer (some authorization) =
      let parts = partition authorization in
      if same_text (lower parts.0) (codes "bearer") then or_stripped (some parts.1) else none

  -- `extract_token`
  unfoldable pub extract_token : Option Text → Option Text → Option Text
  unfolding partition same_text
  extract_token authorization api_key = first_some (bearer authorization) (or_stripped api_key)

module _ (sha256 strip : Text → Text) (splitlines : Text → List Text) where
  -- `TokenAuthenticator.__init__`
  unfoldable pub init : Settings → TokenFile → Result TokenAuthenticator
  unfolding authenticator inline_tokens file_tokens
  init settings file =
      with_file sha256 settings.api_require_auth
        (inline_tokens strip splitlines settings.api_tokens)
        (file_tokens strip splitlines settings.api_token_file file)

module _ (sha256 strip lower : Text → Text) where
  -- `require_token`
  unfoldable pub require_token : TokenAuthenticator → Request → Response
  unfolding is_open extract_token verify
  require_token auth request =
      if is_open request.path
      then served
      else if auth.required && not (configured auth)
      then unavailable
      else if not
          (verify sha256 auth (extract_token strip lower request.authorization request.api_key))
      then unauthorized
      else served
