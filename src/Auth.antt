-- ===== src/Auth.antt =====
-- internal/authorization: scopes, tokens and the middleware in front of a handler. The JWT library is
-- a parameter: `sign` with the authorizer's private key, and `verify` with its public key.
pub mod Scopes
pub mod Keys
pub mod Guard
pub mod Issued
pub mod Tests
use etos_api.Prelude.{
  ℕ, zero, suc, ◌+◌, ◌≡◌, Bool, true, false, Option, none, some, List, [], ◌∷◌, Text, codes,
  text_eq, contains, is_empty, split, join, leb, if◌then◌else◌,
}

abbrev pub Scope : Type 0
Scope = List Text

-- `Format`.
unfoldable pub format : Scope → Text
format s = join b' ' s

-- `Has`.
unfoldable pub has : Scope → Text → Bool
has s scope = contains s scope

-- `Parse`.
unfoldable pub parse : Text → Scope
parse scope = split b' ' scope

abbrev pub create_testrun : Text
create_testrun = codes "post-testrun"

abbrev pub stop_testrun : Text
stop_testrun = codes "delete-testrun"

abbrev pub get_environment : Text
get_environment = codes "get-environment"

abbrev pub stream_sse : Text
stream_sse = codes "get-sse"

abbrev pub define_sse : Text
define_sse = codes "post-sse"

abbrev pub anonymous_access : Scope
anonymous_access = create_testrun ∷ stop_testrun ∷ stream_sse ∷ []

abbrev pub admin_access : Scope
admin_access = create_testrun ∷ stop_testrun ∷ get_environment ∷ define_sse ∷ stream_sse ∷ []

-- The claims of `NewToken` that change; times are seconds.
pub record Claims : Type 0 where
  pub scope : Text
  pub sub : Text
  pub iat : ℕ
  pub exp : ℕ

-- The claim "scope" of a token that was verified: missing, a text, or another value.
pub data ScopeClaim : Type 0 where
  missing : ScopeClaim
  text : Text → ScopeClaim
  other : ScopeClaim

-- What `VerifyToken` gives; `no_claims` is a token whose claims are no `MapClaims`.
pub data Verdict : Type 0 where
  expired : Verdict
  invalid : Verdict
  no_claims : Verdict
  verified : ScopeClaim → Verdict

-- The library. A token is valid until the second before it expires.
pub record Jwt : Type 0 where
  pub sign : Claims → Text
  pub verify : ℕ → Text → Verdict
  pub verify_sign :
      (now : ℕ) (c : Claims)
      → verify now (sign c) ≡ (if leb c.exp now then expired else verified (text c.scope))

-- `NewAuthorizer`: whether the new authorizer has a private key, which is optional; `none` is an error.
-- The keys are texts, empty if they are not set, and the library parses them or not.
unfoldable pub new_authorizer :
    (parses_public parses_private : Text → Bool) → Text → Text → Option Bool
new_authorizer parses_public parses_private public_key private_key =
    if is_empty private_key
    then if parses_public public_key then some false else none
    else if parses_private private_key
    then if parses_public public_key then some true else none
    else none

-- `NewToken`; `none` is the error of an authorizer without a private key.
unfoldable pub new_token : Jwt → (signing_key : Bool) → (now : ℕ) → Text → Scope → ℕ → Option Text
unfolding format
new_token jwt false now identifier s expire = none
new_token jwt true now identifier s expire =
    some (jwt.sign (record { scope = format s; sub = identifier; iat = now; exp = expire }))

-- What the middleware does: it answers with a status, calls the handler with a scope, or panics.
pub data Passed : Type 0 where
  answers : ℕ → Passed
  calls : Scope → Passed
  panics : Passed

-- `s[n:]`, with `none` for the panic of a text that is too short.
unfoldable pub slice_from : ℕ → Text → Option Text
slice_from zero s = some s
slice_from (suc n) [] = none
slice_from (suc n) (c ∷ s) = slice_from n s

abbrev pub permit : Text → Scope → Bool → Passed
permit permitted s true = calls s
permit permitted s false = answers 403

abbrev pub by_claim : Text → ScopeClaim → Passed
by_claim permitted missing = answers 401
by_claim permitted other = answers 403
by_claim permitted (text t) = permit permitted (parse t) (has (parse t) permitted)

abbrev pub by_verdict : Text → Verdict → Passed
by_verdict permitted expired = answers 401
by_verdict permitted invalid = answers 401
by_verdict permitted no_claims = answers 401
by_verdict permitted (verified claim) = by_claim permitted claim

abbrev pub by_token : Jwt → ℕ → Text → Option Text → Passed
by_token jwt now permitted none = panics
by_token jwt now permitted (some token) = by_verdict permitted (jwt.verify now token)

abbrev pub by_header : Jwt → ℕ → Text → Text → Passed
by_header jwt now permitted [] = answers 401
by_header jwt now permitted (c ∷ header) = by_token jwt now permitted (slice_from 7 (c ∷ header))

-- `Middleware`, for the Authorization header, which is empty if it is not sent.
unfoldable pub middleware : Jwt → (now : ℕ) → (permitted : Text) → (header : Text) → Passed
middleware jwt now permitted header = by_header jwt now permitted header
