-- ===== src/Service/Server.antt =====
-- internal/server/server.go: the address and the prefix of a web service. The router that `http.Server`
-- calls is a function from paths.
use etos_api.Prelude.{
  Option, none, some, [], ◌∷◌, ◌++◌, ◌≡◌, refl, ap, ◌==◌, arith, Text, is_empty, if◌then◌else◌,
}
use etos_api.Service.Config.{BaseConfig}

-- What follows the prefix, if the text begins with it.
unfoldable pub after_prefix : Text → Text → Option Text
after_prefix [] t = some t
after_prefix (c ∷ prefix) [] = none
after_prefix (c ∷ prefix) (d ∷ t) =
    let rest = after_prefix prefix t in if d == c then rest else none

-- The response of a handler: of the router for a path, or `NotFound`.
pub data Handled : Type 0 where
  routed : Text → Handled
  not_found : Handled

abbrev pub stripped : Option Text → Handled
stripped none = not_found
stripped (some rest) = routed rest

-- `http.StripPrefix`, for a path without escapes.
abbrev pub strip : Text → Text → Handled
strip [] path = routed path
strip (c ∷ prefix) path = stripped (after_prefix (c ∷ prefix) path)

-- `WebService`: the address it listens on, and its handler.
pub record WebService : Type 0 where
  pub addr : Text
  pub handler : Text → Handled

-- `NewWebService`.
unfoldable pub new_web_service : BaseConfig → WebService
unfolding after_prefix
new_web_service c = record {
  addr = c.service_host ++ b':' ∷ c.service_port;
  handler = λ path. if is_empty c.strip_prefix then routed path else strip c.strip_prefix path;
}

after_prefix-append : (prefix t : Text) → after_prefix prefix (prefix ++ t) ≡ some t
unfolding after_prefix
after_prefix-append [] t = refl
after_prefix-append (c ∷ prefix) t = ground (arith, after_prefix-append prefix t)

-- Behind a reverse proxy that adds the prefix, the router sees the path that was asked for.
pub handler-prefixed :
    (c : BaseConfig) (path : Text)
    → (new_web_service c).handler (c.strip_prefix ++ path) ≡ routed path
unfolding new_web_service
handler-prefixed c path = of_prefix c.strip_prefix
  where
    of_prefix :
        (prefix : Text)
        → (if is_empty prefix then routed (prefix ++ path) else strip prefix (prefix ++ path))
          ≡ routed path
    of_prefix [] = refl
    of_prefix (d ∷ prefix) = ap stripped (after_prefix-append (d ∷ prefix) path)
