-- ===== src/Space/Status.antt =====
-- `Status` of pkg/executionspace/v1alpha/provider.go, and the recovery that its handlers run under.
use etos_api.Prelude.{ℕ, ◌≡◌, ◌++◌, ap, ◌∙◌, Option, none, some, Text, codes}
use etos_api.Database.{Error, Uuids, Kv, Etcd, World}
use etos_api.Space.{ExecutorSpec, ExecutionSpace, Codec}
use etos_api.Space.Provider.{ExecutorConfig, Ended, status_of}
use etos_api.Space.Provider.Answering.{answering}
use etos_api.Space.Provider.Success.{CheckedOut}
use etos_api.Space.Starting.{http_error, send_error}

-- How a handler runs: it answers, or it panics with the status that it wrote before, if it wrote one.
pub data Ran : Type 0 where
  answered : ℕ → Ran
  panicked : (begun : Option ℕ) → Ran

-- `panicRecovery`: the status that the client gets. A status that was written stays.
unfoldable pub panic_recovery : Ran → ℕ
panic_recovery (answered status) = status
panic_recovery (panicked none) = 500
panic_recovery (panicked (some status)) = status

-- The response of `Status`: an error, or a space with a status.
pub data Response : Type 0 where
  refused : ℕ → Response
  with_space : ℕ → ExecutionSpace → Response

module _ (kv : Kv) (uuids : Uuids) (specs : Codec ExecutorSpec) (spaces : Codec ExecutionSpace)
    (db : Etcd) where
  abbrev pub by_status : ExecutionSpace × Option Error → Response
  by_status (space, none) = with_space 200 space
  by_status (space, some e) = with_space 500 space

  abbrev pub by_id : (bad : Text → Text) → Text → Option ℕ → World kv → Response
  by_id bad query none w = refused (
      send_error (
        http_error 400
          (codes "Error parsing id parameter in status request - Reason: " ++ bad query)))
  by_id bad query (some id) w = by_status (status_of kv uuids specs spaces db bad id w)

  -- `Status`, for the query parameter "id".
  unfoldable pub get_status : (bad : Text → Text) → Text → World kv → Response
  unfolding send_error
  get_status bad query w = by_id bad query (uuids.parse query) w

  -- After a checkout that ended as said, a request for its status is answered with 200 and the space.
  pub get_status-CheckedOut :
      (bad : Text → Text) (cfg : ExecutorConfig) (p : Ended × World kv)
      (c : CheckedOut kv uuids specs spaces db bad cfg p)
      → get_status bad (uuids.show cfg.checkout_id) (answering kv uuids specs spaces db c.store)
        ≡ with_space 200 c.space
  unfolding get_status
  get_status-CheckedOut bad cfg p c =
      ap
        (λ o. by_id bad (uuids.show cfg.checkout_id) o (answering kv uuids specs spaces db c.store))
        (uuids.parse_show cfg.checkout_id)
      ∙ ap by_status c.status
