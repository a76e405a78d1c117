-- ===== src/Sse/Handler/Requests.antt =====
-- The two sets of metrics of a request for events: `Wrap` of internal/metrics/metrics.go round
-- `GetEvents` of pkg/sse/v2alpha/sse.go, as `LoadRoutes` registers it.
use etos_api.Prelude.{
  ℕ, suc, ◌+◌, Bool, true, false, List, [], ◌∷◌, ◌≡◌, refl, ap, ◌∙◌, arith, Text, codes, text_eq,
  contains, is_empty, pos, if◌then◌else◌,
}
use etos_api.Prelude.Decimal.{decimal}
use etos_api.Events.{Event}
use etos_api.Events
use etos_api.Metrics.{
  SseMetrics, sub_one, connection_opened, connection_closed_with_reason, reconnect_requested,
  stream_error, event_delivered, bounded,
}
use etos_api.Metrics.Http.{
  Call, write_header, write, flush, informational, client_status, BeginsFinal, record_calls_lem,
  status_class,
}
use etos_api.Metrics.Requests.{
  Labels, HttpMetrics, record_request, Progress, returned, panicked, running, wrap,
}
use etos_api.Sse.Handler
use etos_api.Sse.Handler.{
  Request, Situation, Receive, context_done, event, channel_closed, Ended, Response, refused,
  streamed, write_events, answer_for, count_reconnect, get_events,
}

-- A request with what its handler meets.
pub record Served : Type 0 where
  pub request : Request
  pub situation : Situation
  pub received : List Receive

abbrev event_calls : List Event → List Call
event_calls [] = []
event_calls (e ∷ es) = write (Events.write e) ∷ flush ∷ event_calls es

-- The calls of the response writer: `http.Error` and `http.NotFound` write a status and a text, and
-- the loop writes and flushes each event. A write that fails is left out: it changes no status.
abbrev calls_of : Text → Response → List Call
calls_of text (refused status) = write_header status ∷ write text ∷ []
calls_of text (streamed last_id filter es ended) = event_calls es

abbrev progress_after : Ended → Progress
progress_after Handler.returned = returned
progress_after Handler.aborted = panicked
progress_after Handler.open_still = running

abbrev progress_of : Response → Progress
progress_of (refused status) = returned
progress_of (streamed last_id filter es ended) = progress_after ended

abbrev route : Text
route = codes "/sse/v2alpha/events/:identifier"

-- The handler of the route, with the text of its refusal.
unfoldable pub serve : Text → Served → SseMetrics × HttpMetrics → SseMetrics × HttpMetrics
serve text s (m, h) =
    let (response, after) = get_events s.request s.situation s.received m in
    (after, wrap route (codes "GET") (calls_of text response) (progress_of response) h)

unfoldable pub serve_each :
    List (Text × Served) → SseMetrics × HttpMetrics → SseMetrics × HttpMetrics
serve_each [] both = both
serve_each ((text, s) ∷ rest) both = serve_each rest (serve text s both)

unfoldable pub times : Text → List Text → ℕ
times t [] = 0
times t (x ∷ xs) = let rest = times t xs in if text_eq x t then suc rest else rest

unfoldable pub of_class : Text → List Labels → ℕ
of_class class [] = 0
of_class class (l ∷ ls) =
    let rest = of_class class ls in if text_eq l.class class then suc rest else rest

-- Every connection that was opened is open, was counted as a request with a status 2xx, or was
-- closed for the stop of the server.
pub record Reconciled (both : SseMetrics × HttpMetrics) : Type 0 where
  pub gauge : ℕ
  pub open_now : both.0.connections ≡ pos gauge
  pub adds_up :
      both.0.total
      ≡ gauge
        + (of_class (codes "2xx") both.1.requests
            + times (codes "server_shutdown") both.0.disconnects)

-- What the loop changes, from the metrics of an open connection on.
abbrev After : SseMetrics → Ended → SseMetrics → Type 0
After m Handler.open_still n =
    (n.connections ≡ m.connections)
    × (n.total ≡ m.total)
    × (times (codes "server_shutdown") n.disconnects
        ≡ times (codes "server_shutdown") m.disconnects)
After m Handler.returned n =
    (n.connections ≡ sub_one m.connections)
    × (n.total ≡ m.total)
    × (times (codes "server_shutdown") n.disconnects
        ≡ times (codes "server_shutdown") m.disconnects)
After m Handler.aborted n =
    (n.connections ≡ sub_one m.connections)
    × (n.total ≡ m.total)
    × (times (codes "server_shutdown") n.disconnects
        ≡ suc (times (codes "server_shutdown") m.disconnects))

After-delivered :
    (name : Text) (m n : SseMetrics) (ended : Ended)
    → After (event_delivered name m) ended n
    → After m ended n
unfolding event_delivered
After-delivered name m n Handler.open_still h = h
After-delivered name m n Handler.returned h = h
After-delivered name m n Handler.aborted h = h

write_events-After :
    (received : List Receive) (m : SseMetrics)
    → After m (write_events received m).1 (write_events received m).2
unfolding write_events connection_closed_with_reason stream_error bounded contains text_eq times
write_events-After [] m = (refl, refl, refl)
write_events-After (context_done true ∷ rest) m = (refl, refl, refl)
write_events-After (context_done false ∷ rest) m = (refl, refl, refl)
write_events-After (channel_closed ∷ rest) m = (refl, refl, refl)
write_events-After (event e false ∷ rest) m = (refl, refl, refl)
write_events-After (event e true ∷ rest) m =
    After-delivered e.event m _ _ (write_events-After rest (event_delivered e.event m))

events_final : (es : List Event) → BeginsFinal (event_calls es)
events_final [] = tt
events_final (e ∷ es) = tt

-- The classes of the statuses that the handler writes.
class_of_events : (es : List Event) → status_class (client_status (event_calls es)) ≡ codes "2xx"
unfolding client_status status_class decimal
class_of_events [] = refl
class_of_events (e ∷ es) = refl

of_class-cons :
    (l : Labels) (ls : List Labels) (class : Text)
    → l.class ≡ class
    → of_class (codes "2xx") (l ∷ ls) ≡ (
        if text_eq class (codes "2xx")
        then suc (of_class (codes "2xx") ls)
        else of_class (codes "2xx") ls)
unfolding of_class
of_class-cons l ls class e = rw e refl

-- A handler that returns is counted in the class of the status that its client gets.
counted :
    (calls : List Call) (class : Text) (h : HttpMetrics)
    → BeginsFinal calls
    → status_class (client_status calls) ≡ class
    → of_class (codes "2xx") (wrap route (codes "GET") calls returned h).requests ≡ (
        if text_eq class (codes "2xx")
        then suc (of_class (codes "2xx") h.requests)
        else of_class (codes "2xx") h.requests)
unfolding wrap record_request
counted calls class h final e =
    of_class-cons _ h.requests class (ap status_class (record_calls_lem calls final).0 ∙ e)

refused-Reconciled :
    (text : Text) (status : ℕ) (m n : SseMetrics) (h : HttpMetrics)
    → informational status ≡ false
    → text_eq (status_class status) (codes "2xx") ≡ false
    → n.connections ≡ m.connections
    → n.total ≡ m.total
    → n.disconnects ≡ m.disconnects
    → Reconciled (m, h)
    → Reconciled (n, wrap route (codes "GET") (calls_of text (refused status)) returned h)
unfolding client_status
refused-Reconciled text status m n h final other c t d r = record {
  gauge = r.gauge;
  open_now = c ∙ r.open_now;
  adds_up =
      rw
        (
          counted (calls_of text (refused status)) (status_class status) h final (rw final refl),
          other,
          t,
          d,
        )
        r.adds_up;
}

opened-Reconciled :
    (es : List Event) (ended : Ended) (m n : SseMetrics) (h : HttpMetrics)
    → After (connection_opened m) ended n
    → Reconciled (m, h)
    → Reconciled (n, wrap route (codes "GET") (event_calls es) (progress_after ended) h)
unfolding connection_opened text_eq
opened-Reconciled es Handler.open_still m n h (c, t, d) r = record {
  gauge = suc r.gauge;
  open_now = rw (c, r.open_now) refl;
  adds_up = unfold wrap in rw (t, d, r.adds_up) (omega arith);
}
opened-Reconciled es Handler.returned m n h (c, t, d) r = record {
  gauge = r.gauge;
  open_now = rw (c, r.open_now) refl;
  adds_up =
      rw
        (
          counted (event_calls es) (codes "2xx") h (events_final es) (class_of_events es),
          t,
          d,
          r.adds_up,
        )
        (omega arith);
}
opened-Reconciled es Handler.aborted m n h (c, t, d) r = record {
  gauge = r.gauge;
  open_now = rw (c, r.open_now) refl;
  adds_up = unfold wrap in rw (t, d, r.adds_up) (omega arith);
}

count_reconnect-Reconciled :
    (r : Request) (m : SseMetrics) (h : HttpMetrics)
    → Reconciled (m, h)
    → Reconciled (count_reconnect r m, h)
unfolding reconnect_requested
count_reconnect-Reconciled r m h k =
    elim (is_empty r.last_event_id)
      as (λ b. Reconciled (if b then m else reconnect_requested m, h)) [
        | true ↦ k
        | false ↦ record { gauge = k.gauge; open_now = k.open_now; adds_up = k.adds_up }
      ]

abbrev recorded : Text → Response × SseMetrics → HttpMetrics → SseMetrics × HttpMetrics
recorded text (response, after) h =
    (after, wrap route (codes "GET") (calls_of text response) (progress_of response) h)

answer_for-Reconciled :
    (text : Text) (r : Request) (shutting_down opens flushes : Bool) (received : List Receive)
    (m : SseMetrics) (h : HttpMetrics)
    → Reconciled (m, h)
    → Reconciled (recorded text (answer_for r shutting_down opens flushes received m) h)
unfolding stream_error informational status_class decimal text_eq
answer_for-Reconciled text r true opens flushes received m h k =
    refused-Reconciled text 503 m m h refl refl refl refl refl k
answer_for-Reconciled text r false false flushes received m h k =
    refused-Reconciled text 503 m (stream_error (codes "backend_failure") m) h refl refl refl refl
      refl k
answer_for-Reconciled text r false true false received m h k =
    refused-Reconciled text 404 m (stream_error (codes "protocol_unsupported") m) h refl refl refl
      refl refl k
answer_for-Reconciled text r false true true received m h k =
    opened-Reconciled _ _ m _ h (write_events-After received (connection_opened m)) k

serve-Reconciled :
    (text : Text) (s : Served) (both : SseMetrics × HttpMetrics)
    → Reconciled both
    → Reconciled (serve text s both)
unfolding serve get_events
serve-Reconciled text s (m, h) k =
    answer_for-Reconciled text s.request s.situation.shutting_down s.situation.stream_opens
      s.situation.can_flush s.received (count_reconnect s.request m) h
      (count_reconnect-Reconciled s.request m h k)

abbrev pub no_metrics : SseMetrics × HttpMetrics
no_metrics = (
  record {
    connections = pos 0;
    total = 0;
    events = [];
    disconnects = [];
    errors = [];
    reconnects = 0;
  },
  record { requests = []; durations = [] },
)

keeps_Reconciled :
    (served : List (Text × Served)) (both : SseMetrics × HttpMetrics)
    → Reconciled both
    → Reconciled (serve_each served both)
unfolding serve_each
keeps_Reconciled [] both k = k
keeps_Reconciled ((text, s) ∷ rest) both k =
    keeps_Reconciled rest _ (serve-Reconciled text s both k)

-- Whatever requests for events are served, each on any path of its handler, the connections that were
-- ever opened are those that are open now, those that the HTTP metrics count as requests with a status
-- 2xx, and those that the server's stop closed: a stream that the stop aborts is no request of the HTTP
-- metrics.
pub serve_each-Reconciled :
    (served : List (Text × Served)) → Reconciled (serve_each served no_metrics)
serve_each-Reconciled served =
    keeps_Reconciled served no_metrics
      (record { gauge = 0; open_now = refl; adds_up = unfold of_class times in refl })
