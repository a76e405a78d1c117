-- ===== src/Space/Environment.antt =====
-- The environment map of pkg/executionspace/executionspace: what `NewExecutorSpec` sets in it.
use etos_api.Prelude.{
  ℕ, ◌≡◌, refl, ◌∙◌, false, some, [], ◌∷◌, arith, Text, codes, text_eq, text_eq_refl, text_eq_iff,
}
use etos_api.Database.{Uuids}
use etos_api.Space.{Map, lookup, set, set_if, set_both, Environ, executor_environment}

lookup-set : (k v : Text) (m : Map) → lookup k (set k v m) ≡ some v
unfolding lookup set
lookup-set k v [] = ground (arith, text_eq_refl k)
lookup-set k v ((l, old) ∷ m) = ground (arith, text_eq_refl k, lookup-set k v m)

lookup-set_other :
    (k l v : Text) (m : Map) → text_eq l k ≡ false → lookup k (set l v m) ≡ lookup k m
unfolding lookup set
lookup-set_other k l v [] h = ground (arith, h)
lookup-set_other k l v ((x, old) ∷ m) h =
    ground (arith, h, text_eq_iff x l, text_eq_iff x k, text_eq_iff l k, lookup-set_other k l v m h)

lookup-set_if :
    (k l v : Text) (m : Map) → text_eq l k ≡ false → lookup k (set_if l v m) ≡ lookup k m
lookup-set_if k l v m h = ground (arith, lookup-set_other k l v m h)

lookup-set_both :
    (k l l2 v : Text) (m : Map)
    → text_eq l k ≡ false
    → text_eq l2 k ≡ false
    → lookup k (set_both l l2 v m) ≡ lookup k m
lookup-set_both k l l2 v m h h2 = lookup-set_if k l2 v (set_if l v m) h2 ∙ lookup-set_if k l v m h

pub environment_id :
    (uuids : Uuids) (e : Environ) (id : ℕ) (m : Map)
    → lookup (codes "ENVIRONMENT_ID") (executor_environment uuids e id m) ≡ some (uuids.show id)
unfolding executor_environment text_eq
environment_id uuids e id m =
    lookup-set_if _ (codes "TZ") e.tz _ refl
    ∙ lookup-set_both _ (codes "NO_PROXY") (codes "no_proxy") e.no_proxy _ refl refl
    ∙ lookup-set_both _ (codes "HTTP_PROXY") (codes "http_proxy") e.http_proxy _ refl refl
    ∙ lookup-set_both _ (codes "HTTPS_PROXY") (codes "https_proxy") e.https_proxy _ refl refl
    ∙ lookup-set (codes "ENVIRONMENT_ID") (uuids.show id) m
