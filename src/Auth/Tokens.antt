-- ===== src/Auth/Tokens.antt =====
-- The gate of api/app.py over api/auth.py: whom it serves.
use mathlib.Core.List.Memᴰ
use mathlib.Core.List.{Memᴰ}
use linux_xai_security_assis.Base.{
  ◌≤◌, ◌≡◌, ◌⊎◌, refl, sym, ap, ◌∙◌, subst, Bool, true, false, not, ◌||◌, some, List, [], ◌∷◌, ◌++◌,
  map, any, keep, length, ◌==◌, Text, Text-discrete, same_text, any-same_text_iff, All, inl, inr,
  false≢true, Bool-cases, Option-cases, arith,
}
use linux_xai_security_assis.Chain.Tamper.{Collision}
use linux_xai_security_assis.Auth.{
  Settings, TokenFile, Result, done, raises, TokenAuthenticator, is_short, inline_tokens,
  file_tokens, authenticator, with_file, init, compare_all, verify_text, verify, extract_token,
  Request, Response, served, unavailable, unauthorized, is_open, configured, require_token,
}

abbrev found : Result (List Text) → List Text
found (done tokens) = tokens
found (raises e) = []

module _ (strip : Text → Text) (splitlines : Text → List Text) where
  -- The tokens of the settings and of the file.
  abbrev pub tokens_of : Settings → TokenFile → List Text
  tokens_of settings file =
      inline_tokens strip splitlines settings.api_tokens
      ++ found (file_tokens strip splitlines settings.api_token_file file)

module _ (sha256 strip lower : Text → Text) (splitlines : Text → List Text) where
  -- What each answer of the gate means.
  abbrev pub IsRight : Settings → TokenFile → Request → Response → Type 0
  IsRight settings file request served =
      (is_open request.path ≡ true)
      ⊎ (settings.api_require_auth ≡ false)
      ⊎ ((token : Text) × (extract_token strip lower request.authorization request.api_key
            ≡ some token)
          × (Memᴰ token (tokens_of strip splitlines settings file) ⊎ Collision sha256))
  IsRight settings file request unavailable =
      (is_open request.path ≡ false)
      × (settings.api_require_auth ≡ true)
      × (tokens_of strip splitlines settings file ≡ [])
  IsRight settings file request unauthorized =
      (is_open request.path ≡ false)
      × (settings.api_require_auth ≡ true)
      × ((token : Text)
          → extract_token strip lower request.authorization request.api_key ≡ some token
          → ¬ Memᴰ token (tokens_of strip splitlines settings file))

none_short :
    (tokens : List Text)
    → length (keep is_short tokens) ≡ 0
    → All (λ token. 16 ≤ length token) tokens
unfolding is_short
none_short [] h = tt
none_short (token ∷ tokens) h = elim (Bool-cases (is_short token)) [
  | inl short ↦ absurd (omega (arith, rw short at h))
  | inr long ↦ (ground (arith, long), none_short tokens (rw long at h))
]

compare_all-any :
    (candidate : Text) (matched : Bool) (digests : List Text)
    → compare_all candidate matched digests ≡ matched || any (same_text candidate) digests
unfolding compare_all
compare_all-any candidate matched [] = ground arith
compare_all-any candidate matched (known ∷ digests) =
    ground
      (arith, compare_all-any candidate true digests, compare_all-any candidate matched digests)

long_of_Memᴰ :
    (x : Text) (xs : List Text) → All (λ token. 16 ≤ length token) xs → Memᴰ x xs → 16 ≤ length x
long_of_Memᴰ x [] h m = elim m [ ]
long_of_Memᴰ x (y ∷ xs) h (Memᴰ.head e) = subst (λ (t : Text). 16 ≤ length t) (sym e) h.0
long_of_Memᴰ x (y ∷ xs) h (Memᴰ.tail m) = long_of_Memᴰ x xs h.1 m

-- What an authenticator that was set up holds.
record Holds (sha256 : Text → Text) (required : Bool) (tokens : List Text)
    (auth : TokenAuthenticator) : Type 0 where
  same : auth.required ≡ required
  digests : auth.digests ≡ map sha256 tokens
  long : All (λ token. 16 ≤ length token) tokens

module _ (sha256 : Text → Text) where
  authenticator-Holds :
      (required : Bool) (tokens : List Text) (auth : TokenAuthenticator)
      → authenticator sha256 required tokens ≡ done auth
      → Holds sha256 required tokens auth
  unfolding authenticator
  authenticator-Holds required tokens auth h =
      elim (Bool-cases (length (keep is_short tokens) == 0)) [
        | inl all_long ↦
            let is : auth ≡ record { required = required; digests = map sha256 tokens } =
              cc (rw all_long at h) in
            record {
              same = ap (λ (a : TokenAuthenticator). a.required) is;
              digests = ap (λ (a : TokenAuthenticator). a.digests) is;
              long = none_short tokens (ground arith);
            }
        | inr some_short ↦ cc (rw some_short at h)
      ]

  -- A presented text is accepted exactly if one of the digests is its own.
  verify_text-known :
      (required : Bool) (tokens : List Text) (auth : TokenAuthenticator) (presented : Text)
      → Holds sha256 required tokens auth
      → verify_text sha256 auth presented ≡ true
      → Memᴰ presented tokens ⊎ Collision sha256
  unfolding verify_text
  verify_text-known required tokens auth [] holds h = cc h
  verify_text-known required tokens auth (c ∷ presented) holds h =
      let compared = sym (compare_all-any (sha256 (c ∷ presented)) false auth.digests) ∙ h in
      let m = (any-same_text_iff (sha256 (c ∷ presented)) auth.digests).0 compared in
      let (token, is_token, agree) =
        Memᴰ.of_map sha256 tokens
          (subst (λ (ds : List Text). Memᴰ (sha256 (c ∷ presented)) ds) holds.digests m) in
      elim (Text-discrete (c ∷ presented) token) [
        | yes same ↦ inl (subst (λ (t : Text). Memᴰ t tokens) (sym same) is_token)
        | no other ↦
            inr
              (record { first = c ∷ presented; second = token; differ = other; agree = sym agree })
      ]

  verify_text-accepts :
      (required : Bool) (tokens : List Text) (auth : TokenAuthenticator) (presented : Text)
      → Holds sha256 required tokens auth
      → Memᴰ presented tokens
      → verify_text sha256 auth presented ≡ true
  unfolding verify_text
  verify_text-accepts required tokens auth [] holds m =
      absurd (omega (arith, long_of_Memᴰ [] tokens holds.long m))
  verify_text-accepts required tokens auth (c ∷ presented) holds m =
      compare_all-any (sha256 (c ∷ presented)) false auth.digests
      ∙ (any-same_text_iff (sha256 (c ∷ presented)) auth.digests).1
          (rw holds.digests (Memᴰ.map sha256 m))

  with_file-Holds :
      (required : Bool) (inline : List Text) (file : Result (List Text)) (auth : TokenAuthenticator)
      → with_file sha256 required inline file ≡ done auth
      → Holds sha256 required (inline ++ found file) auth
  with_file-Holds required inline (raises e) auth h = cc h
  with_file-Holds required inline (done tokens) auth h =
      authenticator-Holds required (inline ++ tokens) auth h

  empty_tokens :
      (tokens : List Text) (auth : TokenAuthenticator)
      → auth.digests ≡ map sha256 tokens
      → configured auth ≡ false
      → tokens ≡ []
  empty_tokens [] auth h e = refl
  empty_tokens (token ∷ tokens) auth h e =
      let e' : not (length (map sha256 (token ∷ tokens)) == 0) ≡ false = rw h at e in
      absurd (ground (arith, e'))

module _ (sha256 strip lower : Text → Text) (splitlines : Text → List Text) where
  init-Holds :
      (settings : Settings) (file : TokenFile) (auth : TokenAuthenticator)
      → init sha256 strip splitlines settings file ≡ done auth
      → Holds sha256 settings.api_require_auth (tokens_of strip splitlines settings file) auth
  unfolding init
  init-Holds settings file auth h =
      with_file-Holds sha256 settings.api_require_auth
        (inline_tokens strip splitlines settings.api_tokens)
        (file_tokens strip splitlines settings.api_token_file file) auth h

  -- Once the tokens are set up, the gate serves a request only for an open path, where no
  -- authentication is required, or for a configured token (or two texts with one digest are
  -- exhibited); it answers 503 only where authentication is required and no token is configured,
  -- and 401 only for a request that presents no configured token.
  pub require_token-IsRight :
      (settings : Settings) (file : TokenFile) (auth : TokenAuthenticator) (request : Request)
      → init sha256 strip splitlines settings file ≡ done auth
      → IsRight sha256 strip lower splitlines settings file request
          (require_token sha256 strip lower auth request)
  unfolding require_token verify
  require_token-IsRight settings file auth request h =
      let holds = init-Holds settings file auth h in
      let tokens = tokens_of strip splitlines settings file in
      let presented = extract_token strip lower request.authorization request.api_key in
      elim (Bool-cases (is_open request.path)) [
        | inl is_free ↦ rw is_free (inl is_free)
        | inr gated ↦ elim (Bool-cases auth.required) [
          | inr free ↦
              let off : settings.api_require_auth ≡ false = sym holds.same ∙ free in
              elim (Option-cases presented) [
                | inl nothing ↦ rw (gated, free, nothing) (inr (inl off))
                | inr (token, is) ↦ rw (gated, free, is) (inr (inl off))
              ]
          | inl needed ↦ elim (Bool-cases (configured auth)) [
            | inr empty ↦
                rw (gated, needed, empty)
                  (
                    gated,
                    sym holds.same ∙ needed,
                    empty_tokens sha256 tokens auth holds.digests empty,
                  )
            | inl set ↦ elim (Option-cases presented) [
              | inl nothing ↦
                  rw (gated, needed, set, nothing)
                    (gated, sym holds.same ∙ needed, λ token e m. cc e)
              | inr (token, is) ↦ elim (Bool-cases (verify_text sha256 auth token)) [
                | inl accepted ↦
                    rw (gated, needed, set, is, accepted)
                      (inr (
                        inr (
                          token,
                          is,
                          verify_text-known sha256 settings.api_require_auth tokens auth token holds
                              accepted,
                        )))
                | inr rejected ↦
                    rw (gated, needed, set, is, rejected)
                      (
                        gated,
                        sym holds.same ∙ needed,
                        λ other e m.
                            let same : token ≡ other = cc e in
                            false≢true (
                              sym rejected
                              ∙ verify_text-accepts sha256 settings.api_require_auth tokens auth
                                  token holds (subst (λ (t : Text). Memᴰ t tokens) (sym same) m)),
                      )
              ]
            ]
          ]
        ]
      ]
