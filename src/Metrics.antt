-- ===== src/Metrics.antt =====
-- internal/metrics/sse.go: the counters of the SSE server. A counter is the list of the attribute
-- values for which 1 was added to it, the latest first; the meter itself is not modelled.
pub mod Http
pub mod Requests
pub mod Cluster
pub mod Tests
use etos_api.Prelude.{
  ℕ, zero, suc, ◌+◌, Bool, List, [], ◌∷◌, Text, codes, contains, ℤ, pos, negsuc, if◌then◌else◌,
}

pub record SseMetrics : Type 0 where
  pub connections : ℤ
  pub total : ℕ
  pub events : List Text
  pub disconnects : List Text
  pub errors : List Text
  pub reconnects : ℕ

-- `Add(ctx, 1)` and `Add(ctx, -1)` of an up-down counter.
abbrev pub add_one : ℤ → ℤ
add_one (pos n) = pos (suc n)
add_one (negsuc zero) = pos 0
add_one (negsuc (suc n)) = negsuc n

abbrev pub sub_one : ℤ → ℤ
sub_one (pos zero) = negsuc 0
sub_one (pos (suc n)) = pos n
sub_one (negsuc n) = negsuc (suc n)

unfoldable pub connection_opened : SseMetrics → SseMetrics
connection_opened m = record m { connections = add_one m.connections; total = m.total + 1 }

abbrev pub close_reasons : List Text
close_reasons =
    codes "client_disconnect"
    ∷ codes "server_shutdown"
    ∷ codes "subscriber_shutdown"
    ∷ codes "stream_write_error"
    ∷ []

abbrev pub error_categories : List Text
error_categories =
    codes "backend_failure" ∷ codes "protocol_unsupported" ∷ codes "stream_write_error" ∷ []

abbrev pub special_events : List Text
special_events = codes "ping" ∷ codes "shutdown" ∷ codes "error" ∷ []

-- The value itself if it is one of the bounded set, and the fallback otherwise.
unfoldable pub bounded : List Text → Text → Text → Text
bounded values fallback value = if contains values value then value else fallback

unfoldable pub connection_closed_with_reason : Text → SseMetrics → SseMetrics
connection_closed_with_reason reason m = record m {
  connections = sub_one m.connections;
  disconnects = bounded close_reasons (codes "unknown") reason ∷ m.disconnects;
}

unfoldable pub reconnect_requested : SseMetrics → SseMetrics
reconnect_requested m = record m { reconnects = m.reconnects + 1 }

unfoldable pub stream_error : Text → SseMetrics → SseMetrics
stream_error category m = record m {
  errors = bounded error_categories (codes "unknown") category ∷ m.errors;
}

unfoldable pub event_delivered : Text → SseMetrics → SseMetrics
event_delivered event m = record m {
  events = bounded special_events (codes "data") event ∷ m.events;
}
