-- ===== src/Metrics/Tests.antt =====
-- The metrics on concrete requests.
use etos_api.Prelude.{◌≡◌, ◌↔◌, ◌≤◌, ◌<◌, ◌≢◌, [], ◌∷◌, refl, codes}
use etos_api.Metrics.Http.{
  write_header, write, new_recorder, record_calls, client_status, OneStatus, record_calls_lem,
  outcome, server_error, client_error, outcome_iff,
}
use etos_api.Metrics.Cluster.{identity_of, unassigned, has_byte}

record_calls_lem_example :
    ((record_calls (write (codes "x") ∷ write_header 500 ∷ []) new_recorder).status
      ≡ client_status (write (codes "x") ∷ write_header 500 ∷ []))
    × OneStatus
        (client_status (write (codes "x") ∷ write_header 500 ∷ []))
        (record_calls (write (codes "x") ∷ write_header 500 ∷ []) new_recorder).passed_on
record_calls_lem_example = record_calls_lem (write (codes "x") ∷ write_header 500 ∷ []) tt

late_status :
    (record_calls (write (codes "x") ∷ write_header 500 ∷ []) new_recorder).passed_on
    ≡ write_header 200 ∷ write (codes "x") ∷ []
unfolding record_calls new_recorder
late_status = refl

outcome_of_404 :
    ((outcome 404 ≡ server_error) ↔ (500 ≤ 404))
    × ((outcome 404 ≡ client_error) ↔ ((400 ≤ 404) × (404 < 500)))
outcome_of_404 = outcome_iff 404

assigned : identity_of (codes "etos") (codes "prod") ≢ unassigned
unfolding identity_of has_byte
assigned e = cc
