-- ===== src/Auth/Keys.antt =====
-- pkg/keys/v1alpha/keys.go: `CreateNew`, which issues tokens to anyone who asks.
use etos_api.Prelude.{if◌then◌else◌, ℕ, ◌+◌, Bool, true, false, Option, none, some, [], ◌∷◌, Text}
use etos_api.Auth.{Scope, Jwt, parse, has, anonymous_access, new_token}

pub record KeyRequest : Type 0 where
  pub scope : Text
  pub identity : Text

-- The response: an error with its status, or a token with 200.
pub data KeyResponse : Type 0 where
  refused : ℕ → KeyResponse
  token : Text → KeyResponse

-- The loop over the requested scopes: whether all of them are allowed.
unfoldable pub all_allowed : Scope → Bool
all_allowed [] = true
all_allowed (s ∷ requested) =
    let rest = all_allowed requested in if has anonymous_access s then rest else false

abbrev pub issued : Option Text → KeyResponse
issued none = refused 500
issued (some t) = token t

abbrev pub allowed : Jwt → Bool → ℕ → Text → Scope → Bool → KeyResponse
allowed jwt key now identifier requested false = refused 403
allowed jwt key now identifier requested true =
    issued (new_token jwt key now identifier requested (now + 1800))

-- `CreateNew`; `none` is a body that cannot be decoded. Tokens live for 30 minutes.
unfoldable pub create_new :
    Jwt → (signing_key : Bool) → (now : ℕ) → Text → Option KeyRequest → KeyResponse
unfolding all_allowed
create_new jwt key now identifier none = refused 400
create_new jwt key now identifier (some r) =
    allowed jwt key now identifier (parse r.scope) (all_allowed (parse r.scope))
