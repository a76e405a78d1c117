-- ===== src/Service/Routed.antt =====
-- The executors that a checkout hands out, against the routes that the execution space service loads.
use etos_api.Prelude.{
  ℕ, ◌≡◌, ◌≢◌, refl, inl, inr, Option, none, some, List, [], ◌∷◌, ◌++◌, Text, codes, All, ◌⊎◌,
}
use mathlib.Core.Path.{subst}
use etos_api.Database.{Uuids, Kv, Etcd, open_id, key}
use etos_api.Space.{Map, Environ, ExecutorSpec, ExecutionSpace, Codec, value}
use etos_api.Space.Provider.{FreshIds, checkout}
use etos_api.Space.Provider.Outcome.{AreFresh}
use etos_api.Space.Provider.Answering.{answering}
use etos_api.Space.Provider.Success.{CheckedOut, IsRequestedAt}
use etos_api.Space.Starting.{StartRequest, start, name, new_provider}
use etos_api.Space.Starting.Launch.{IsLaunched, start-CheckedOut}
use etos_api.Service.Routes.{Route, guarded, executor_start, post, execution_space}

abbrev pub IsAmong : Route → List Route → Type 0
IsAmong r [] = ⊥
IsAmong r (s ∷ routes) = (r ≡ s) ⊎ IsAmong r routes

-- The request of the executor is one for `ExecutorStart`, at this host and with these routes.
pub record IsRouted (hostname : Text) (routes : List Route) (e : ExecutorSpec) : Type 0 where
  pub route : Route
  pub loaded : IsAmong route routes
  pub handler : route.endpoint ≡ guarded executor_start
  pub by_post : (route.method ≡ post) × (e.request.method ≡ codes "POST")
  pub at_path : e.request.url ≡ hostname ++ route.path

requested-IsRouted :
    (kv : Kv) (uuids : Uuids) (specs : Codec ExecutorSpec) (spaces : Codec ExecutionSpace)
    (db : Etcd) (hostname : Text) (environ : Environ) (carrier : Map) (e : ExecutorSpec)
    → IsRequestedAt kv uuids specs spaces db (new_provider hostname environ carrier).url e
    → IsRouted hostname (execution_space name) e
unfolding execution_space name new_provider
requested-IsRouted kv uuids specs spaces db hostname environ carrier e (url, method) = record {
  route = _;
  loaded = inr (inr (inr (inr (inl refl))));
  handler = refl;
  by_post = (refl, method);
  at_path = url;
}

All-weaken :
    (P Q : ExecutorSpec → Type 0) (es : List ExecutorSpec)
    → ((e : ExecutorSpec) → P e → Q e)
    → All P es
    → All Q es
All-weaken P Q [] f h = tt
All-weaken P Q (e ∷ es) f (first, h) = (f e first, All-weaken P Q es f h)

-- A valid start request with an environment is answered with 200, and if the database answers every
-- request and the UUIDs are used once and not nil, its checkout ends without a panic. `Status` then
-- answers with as many executors as the request asks for (its maximum, or its minimum if the maximum is
-- 0), and each is to be requested by a POST to the configured host, at a path that the routes of the
-- service give to `ExecutorStart`.
pub start-IsRouted :
    (hostname : Text) (environ : Environ) (carrier : Map) (identifier : Text) (checkout_id : ℕ)
    (purl : Text → Option Text) (kv : Kv) (uuids : Uuids) (specs : Codec ExecutorSpec)
    (spaces : Codec ExecutionSpace) (db : Etcd) (bad : Text → Text) (ids : FreshIds)
    (r : StartRequest) (m : Map) (store : kv.State)
    → purl r.artifact_identity ≡ none
    → r.environment ≡ some m
    → checkout_id ≢ 0
    → ((j : ℕ) → (ids j).0 ≢ 0)
    → AreFresh ids checkout_id
    → kv.get (key kv uuids (open_id db checkout_id)) store ≡ none
    → IsLaunched
        (new_provider hostname environ carrier)
        identifier
        checkout_id
        purl
        kv
        uuids
        specs
        spaces
        db
        r
        (start (new_provider hostname environ carrier) identifier checkout_id purl (value r))
        (λ cfg.
          (c : CheckedOut kv uuids specs spaces db bad cfg
            (checkout kv uuids specs spaces db cfg ids (answering kv uuids specs spaces db store)))
          × All (IsRouted hostname (execution_space name)) c.space.executors)
start-IsRouted hostname environ carrier identifier checkout_id purl kv uuids specs spaces db bad ids
      r m store ok env named all_named fresh absent =
    let p = new_provider hostname environ carrier in
    let l =
      start-CheckedOut p identifier checkout_id purl kv uuids specs spaces db bad ids r m store ok
        env named all_named fresh absent in
    record {
      ok = l.ok;
      config = l.config;
      launched_as = l.launched_as;
      amount = l.amount;
      id = l.id;
      url = l.url;
      ends = (
        l.ends,
        All-weaken (IsRequestedAt kv uuids specs spaces db l.config.common.url)
            (IsRouted hostname (execution_space name)) l.ends.space.executors
            (λ e h.
              requested-IsRouted kv uuids specs spaces db hostname environ carrier e
                (subst (λ (u : Text). IsRequestedAt kv uuids specs spaces db u e) l.url h))
            l.ends.requested,
      );
    }
