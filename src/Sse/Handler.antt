-- ===== src/Sse/Handler.antt =====
-- `GetEvents` of pkg/sse/v2alpha/sse.go: the request up to the subscription, and the loop that writes
-- the events to the client, with its metrics. Logging and the response's headers are left out.
pub mod Balance
pub mod Requests
use etos_api.Prelude.{
  ℕ, suc, ◌+◌, Bool, true, false, Option, none, some, List, [], ◌∷◌, ◌++◌, ◌≡◌, ◌≢◌, refl, ap, ◌⊎◌,
  inl, inr, arith, Text, codes, text_eq, contains, is_empty, ℤ, pos, negsuc, if◌then◌else◌,
  Bool-cases,
}
use etos_api.Events.{Event}
use etos_api.Metrics.{
  SseMetrics, add_one, sub_one, connection_opened, connection_closed_with_reason,
  reconnect_requested, stream_error, event_delivered, bounded, close_reasons, special_events,
}
use etos_api.Sse.Filter.{clean_filter}
use etos_api.Sse.Resume.{last_event_id}

pub record Request : Type 0 where
  pub identifier : Text
  -- the Last-Event-ID header, empty if it is not sent
  pub last_event_id : Text
  pub filter : List Text

-- What the calls before the loop meet: a server that is shutting down, whether `NewStream` succeeds,
-- and whether the response writer can flush.
pub record Situation : Type 0 where
  pub shutting_down : Bool
  pub stream_opens : Bool
  pub can_flush : Bool

-- The case of the `select` that is taken in the loop of the handler.
pub data Receive : Type 0 where
  context_done : (server : Bool) → Receive
  event : Event → (written : Bool) → Receive
  channel_closed : Receive

-- How the loop ended: by a return, or by the panic that aborts the response; `open` if it still
-- waits.
pub data Ended : Type 0 where
  returned : Ended
  aborted : Ended
  open_still : Ended

-- The response: a status without a stream, or the events that were written.
pub data Response : Type 0 where
  refused : ℕ → Response
  streamed : (last_id : ℤ) (filter : List Text) → List Event → Ended → Response

-- The deferred call of `ConnectionClosedWithReason`.
abbrev close : Text → Ended → SseMetrics → List Event × Ended × SseMetrics
close reason ended m = ([], ended, connection_closed_with_reason reason m)

abbrev after_write : Event → List Event × Ended × SseMetrics → List Event × Ended × SseMetrics
after_write e (es, ended, m) = (e ∷ es, ended, m)

-- The loop of the handler.
unfoldable pub write_events : List Receive → SseMetrics → List Event × Ended × SseMetrics
write_events [] m = ([], open_still, m)
write_events (context_done true ∷ rest) m = close (codes "server_shutdown") aborted m
write_events (context_done false ∷ rest) m = close (codes "client_disconnect") returned m
write_events (channel_closed ∷ rest) m = close (codes "subscriber_shutdown") returned m
write_events (event e false ∷ rest) m =
    close (codes "stream_write_error") returned (stream_error (codes "stream_write_error") m)
write_events (event e true ∷ rest) m = after_write e (write_events rest (event_delivered e.event m))

abbrev opened : Request → List Event × Ended × SseMetrics → Response × SseMetrics
opened r (es, ended, m) =
    (streamed (last_event_id r.last_event_id) (clean_filter r.identifier r.filter) es ended, m)

abbrev count_reconnect : Request → SseMetrics → SseMetrics
count_reconnect r m = if is_empty r.last_event_id then m else reconnect_requested m

-- The checks in the order of the code: the shutdown, the stream, the flusher.
abbrev pub answer_for :
    Request → Bool → Bool → Bool → List Receive → SseMetrics → Response × SseMetrics
answer_for r true stream_opens can_flush received m = (refused 503, m)
answer_for r false false can_flush received m =
    (refused 503, stream_error (codes "backend_failure") m)
answer_for r false true false received m =
    (refused 404, stream_error (codes "protocol_unsupported") m)
answer_for r false true true received m = opened r (write_events received (connection_opened m))

unfoldable pub get_events : Request → Situation → List Receive → SseMetrics → Response × SseMetrics
unfolding write_events
get_events r s received m =
    answer_for r s.shutting_down s.stream_opens s.can_flush received (count_reconnect r m)
