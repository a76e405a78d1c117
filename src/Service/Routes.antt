-- ===== src/Service/Routes.antt =====
-- pkg/application and the `LoadRoutes` of the applications: which handler stands behind which path, for
-- the router of each main program. Matching a path is the router's (httprouter).
use etos_api.Prelude.{
  Bool, true, false, ◌≡◌, refl, List, [], ◌∷◌, ◌++◌, Text, codes, text_eq, ◌&&◌, ◌||◌, not,
}

pub data Method : Type 0 where
  get : Method
  post : Method

-- The handlers, each of one application; `guarded` ones run under `panicRecovery` and `timeoutHandler`,
-- and `measured` ones under the HTTP metrics.
pub data Endpoint : Type 0 where
  selftest : Endpoint
  get_events : Endpoint
  get_event : Endpoint
  start : Endpoint
  status : Endpoint
  stop : Endpoint
  executor_start : Endpoint
  upload : Endpoint
  download : Endpoint
  create_new : Endpoint
  guarded : Endpoint → Endpoint
  measured : Endpoint → Endpoint

pub record Route : Type 0 where
  pub method : Method
  pub path : Text
  pub endpoint : Endpoint

abbrev on_get : Text → Endpoint → Route
on_get path endpoint = record { method = get; path = path; endpoint = endpoint }

abbrev on_post : Text → Endpoint → Route
on_post path endpoint = record { method = post; path = path; endpoint = endpoint }

unfoldable pub sse_v1 : List Route
sse_v1 =
    on_get (codes "/sse/v1/selftest/ping") selftest
    ∷ on_get (codes "/sse/v1/events/:identifier") get_events
    ∷ on_get (codes "/sse/v1/event/:identifier/:id") get_event
    ∷ []

unfoldable pub sse_v1alpha : List Route
sse_v1alpha =
    on_get (codes "/sse/v1alpha/selftest/ping") selftest
    ∷ on_get (codes "/sse/v1alpha/logs/:identifier") get_events
    ∷ []

unfoldable pub sse_v2alpha : List Route
sse_v2alpha =
    on_get (codes "/sse/v2alpha/selftest/ping") (measured selftest)
    ∷ on_get (codes "/sse/v2alpha/events/:identifier") (measured get_events)
    ∷ []

unfoldable pub keys : List Route
keys =
    on_get (codes "/keys/v1alpha/selftest/ping") selftest
    ∷ on_post (codes "/keys/v1alpha/generate") create_new
    ∷ []

unfoldable pub logarea : List Route
logarea =
    on_get (codes "/logarea/v1alpha/selftest/ping") selftest
    ∷ on_post (codes "/logarea/upload") upload
    ∷ on_get (codes "/logarea/upload") download
    ∷ []

unfoldable pub iut : List Route
iut =
    on_get (codes "/iut/v1alpha1/selftest/ping") selftest
    ∷ on_post (codes "/iut/start") (guarded start)
    ∷ on_get (codes "/iut/status") (guarded status)
    ∷ on_post (codes "/iut/stop") (guarded stop)
    ∷ []

-- The last path ends with the name of the executor.
unfoldable pub execution_space : Text → List Route
execution_space executor =
    on_get (codes "/executionspace/v1alpha/selftest/ping") selftest
    ∷ on_post (codes "/executionspace/start") (guarded start)
    ∷ on_get (codes "/executionspace/status") (guarded status)
    ∷ on_post (codes "/executionspace/stop") (guarded stop)
    ∷ on_post (codes "/executionspace/v1alpha/executor/" ++ executor) (guarded executor_start)
    ∷ []

-- The loop of `New`.
unfoldable pub load_all : List (List Route) → List Route
load_all [] = []
load_all (application ∷ applications) = application ++ load_all applications

-- `New`: the routes of the first application and of the others.
unfoldable pub new_router : List Route → List (List Route) → List Route
unfolding load_all
new_router application applications = application ++ load_all applications

abbrev same_method : Method → Method → Bool
same_method get get = true
same_method post post = true
same_method get post = false
same_method post get = false

abbrev same_route : Route → Route → Bool
same_route r s = same_method r.method s.method && text_eq r.path s.path

is_among : Route → List Route → Bool
is_among r [] = false
is_among r (s ∷ routes) = same_route r s || is_among r routes

-- The router panics at a second handler for one method and path.
all_differ : List Route → Bool
all_differ [] = true
all_differ (r ∷ routes) = not (is_among r routes) && all_differ routes

sse_routes_differ : all_differ (new_router sse_v1alpha (sse_v1 ∷ sse_v2alpha ∷ [])) ≡ true
unfolding all_differ is_among new_router sse_v1 sse_v1alpha sse_v2alpha text_eq
sse_routes_differ = refl

other_routes_differ :
    (all_differ (new_router keys []) ≡ true)
    × (all_differ (new_router logarea []) ≡ true)
    × (all_differ (new_router iut []) ≡ true)
    × (all_differ (new_router (execution_space (codes "kubernetes")) []) ≡ true)
unfolding all_differ is_among new_router keys logarea iut execution_space text_eq
other_routes_differ = (refl, refl, refl, refl)
