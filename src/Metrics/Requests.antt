-- ===== src/Metrics/Requests.antt =====
-- internal/metrics/metrics.go: `Wrap` round a handler, and the instruments that it records a request
-- in. The seconds of the histogram are not modelled.
use etos_api.Prelude.{List, ◌∷◌, Text}
use etos_api.Metrics.Http.{
  Call, ResponseRecorder, new_recorder, record_calls, RequestOutcome, status_class, outcome,
}

pub record Labels : Type 0 where
  pub method : Text
  pub route : Text
  pub class : Text
  pub result : RequestOutcome

-- The attribute values for which the counter was increased and the histogram observed a value, the
-- latest first; the class is no attribute of the histogram.
pub record HttpMetrics : Type 0 where
  pub requests : List Labels
  pub durations : List (Text × Text × RequestOutcome)

-- `recordRequest`.
unfoldable pub record_request :
    (route method class : Text) → RequestOutcome → HttpMetrics → HttpMetrics
record_request route method class result m = record {
  requests = record { method = method; route = route; class = class; result = result } ∷ m.requests;
  durations = (method, route, result) ∷ m.durations;
}

-- How far a handler is: it has returned, it has panicked, or it still runs.
pub data Progress : Type 0 where
  returned panicked running : Progress

abbrev finished : (route method : Text) → Progress → ResponseRecorder → HttpMetrics → HttpMetrics
finished route method returned r m =
    record_request route method (status_class r.status) (outcome r.status) m
finished route method panicked r m = m
finished route method running r m = m

-- `Wrap`: what a handler that has made these calls leaves in the metrics.
unfoldable pub wrap : (route method : Text) → List Call → Progress → HttpMetrics → HttpMetrics
unfolding record_request
wrap route method calls progress m =
    finished route method progress (record_calls calls new_recorder) m
