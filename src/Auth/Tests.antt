-- ===== src/Auth/Tests.antt =====
-- Tokens on a library that signs by writing its claims down.
use etos_api.Prelude.{
  ℕ, ◌+◌, ◌<◌, ◌≡◌, ◌↔◌, refl, true, [], ◌∷◌, ◌++◌, Text, codes, In, leb, split, join, contains,
  text_eq, if◌then◌else◌,
}
use etos_api.Auth.{
  Scope, format, has, parse, anonymous_access, Claims, text, Verdict, expired, invalid, verified,
  Jwt, calls, middleware, new_token, slice_from,
}
use etos_api.Auth.Keys.{KeyRequest, create_new, all_allowed}
use etos_api.Auth.Guard.{Permitted, middleware_iff}
use etos_api.Auth.Issued.{issued_iff, issued-Anonymous}

abbrev pub sign : Claims → Text
sign c = c.exp ∷ c.scope

abbrev pub verify : ℕ → Text → Verdict
verify now [] = invalid
verify now (exp ∷ scope) = if leb exp now then expired else verified (text scope)

abbrev pub plain : Jwt
plain = record { sign = sign; verify = verify; verify_sign = λ now c. refl }

abbrev asked : KeyRequest
asked = record { scope = codes "get-sse post-testrun"; identity = codes "me" }

abbrev issued_token : Text
issued_token = 1900 ∷ codes "get-sse post-testrun"

abbrev asked_scope : Scope
asked_scope = codes "get-sse" ∷ codes "post-testrun" ∷ []

issued_iff_example :
    (middleware plain 1899 (codes "get-sse") (codes "Bearer " ++ issued_token) ≡ calls asked_scope)
    ↔ ((1899 < 100 + 1800) × (parse asked.scope ≡ asked_scope) × In (codes "get-sse") asked_scope)
unfolding create_new new_token all_allowed has parse format split join contains text_eq
issued_iff_example =
    issued_iff plain true 100 1899 (codes "i") (codes "get-sse") issued_token asked asked_scope refl

issued-Anonymous_example : In (codes "get-sse") anonymous_access
unfolding create_new new_token all_allowed has parse format split join contains text_eq middleware
    slice_from
issued-Anonymous_example =
    issued-Anonymous plain true 100 200 (codes "i") (codes "get-sse") issued_token asked asked_scope
      refl refl

middleware_iff_example :
    (middleware plain 200 (codes "get-sse") (codes "Bearer " ++ issued_token) ≡ calls asked_scope)
    ↔ Permitted plain 200 (codes "get-sse") (codes "Bearer " ++ issued_token) asked_scope
middleware_iff_example =
    middleware_iff plain 200 (codes "get-sse") (codes "Bearer " ++ issued_token) asked_scope
