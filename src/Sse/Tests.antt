-- ===== src/Sse/Tests.antt =====
-- The event streams on concrete connections.
mod Bus
use etos_api.Prelude.{
  Bool, true, false, not, Option, none, some, List, [], ◌∷◌, ◌≡◌, ◌↔◌, ◌⊎◌, refl, arith, Text,
  codes, In, ℤ, pos, map, inc64, is_empty, contains, text_eq,
}
use etos_api.Stream.{Message, first}
use etos_api.Stream.Rabbit.{qualified}
use etos_api.Events.{JsonCodec, new}
use etos_api.Metrics.{SseMetrics}
use etos_api.Sse.Filter.{dotted, clean_filter, clean_filter_iff}
use etos_api.Sse.Log.{InOrder, from, below}
use etos_api.Sse.Resume.{start_of, resume, resume_offset, resume_offset-lossless}
use etos_api.Sse.Subscribe.{Choice, done, tick, message, Setup, accept, subscribe}
use etos_api.Sse.Subscribe.Account.{last_seen, forwarded_of, accepted}
use etos_api.Sse.Subscribe.Resuming.{received, AllFollow, received_complete}
use etos_api.Sse.Subscribe.Ids.{Rises, subscribe-Rises}
use etos_api.Sse.Handler.{Request, Situation, Receive, event, context_done, get_events}
use etos_api.Sse.Handler.Balance.{Balanced, get_events-Balanced}
use etos_api.Sse.Handler.Requests
use etos_api.Sse.Handler.Requests.{Reconciled, serve_each, serve_each-Reconciled}

clean_filter_iff_example :
    In
      (qualified (codes "run") (codes "log") (codes "info"))
      (clean_filter (codes "run") (codes "log.info" ∷ []))
    ↔ (In (dotted (codes "log") (codes "info")) (codes "log.info" ∷ [])
        ⊎ In (qualified (codes "run") (codes "log") (codes "info")) (codes "log.info" ∷ []))
clean_filter_iff_example =
    clean_filter_iff (codes "run") (codes "log") (codes "info") (codes "log.info" ∷ [])
      (omega arith) (omega arith) (omega arith)

-- Data is JSON if it is not empty; it is then a log event.
abbrev unmarshal : Text → Option (ℤ × Text × Text)
unmarshal [] = none
unmarshal (c ∷ t) = some (pos 0, codes "log", c ∷ t)

abbrev codec : JsonCodec
codec = record { Json = Text; unmarshal = unmarshal; marshal = λ t. some t }

abbrev valid : Text → Bool
valid t = not (is_empty t)

abbrev at : ℤ → Text → Message
at offset t = record { offset = offset; data_bytes = t }

abbrev log : List Message
log = at (pos 3) (codes "a") ∷ at (pos 4) [] ∷ at (pos 7) (codes "b") ∷ []

log-InOrder : InOrder (pos 0) log
log-InOrder =
    (3, refl, omega arith, refl, (4, refl, omega arith, refl, (7, refl, omega arith, refl, tt)))

abbrev setup : Setup
setup = record {
  oldest = first (pos 3);
  consume_fails = false;
  oldest_again = first (pos 3);
  taken = true;
}

-- The first connection ends behind the first message and a ping, the second reads the rest.
abbrev connections : List (Setup × List Choice)
connections =
    (setup, message (at (pos 3) (codes "a")) true ∷ tick (pos 4) true ∷ done ∷ [])
    ∷ (setup, message (at (pos 4) []) true ∷ message (at (pos 7) (codes "b")) true ∷ [])
    ∷ []

sse : Unit {0}
unfolding received AllFollow subscribe accept new inc64 last_seen forwarded_of from resume_offset
    accepted below contains text_eq
sse = tt

connections-AllFollow : AllFollow codec valid connections (pos 0) log
unfolding sse
connections-AllFollow = ((refl, ((refl, (refl, tt)), tt)), ((refl, (refl, tt)), tt))

received_complete_example :
    forwarded_of (received codec valid connections (pos 0))
    ≡ accepted codec valid
        (below (last_seen (pos 0) (received codec valid connections (pos 0))) log)
received_complete_example =
    received_complete codec valid connections log log-InOrder connections-AllFollow

received_events :
    forwarded_of (received codec valid connections (pos 0))
    ≡ record { id = pos 4; event = codes "log"; data_text = codes "a" }
      ∷ record { id = pos 8; event = codes "log"; data_text = codes "b" }
      ∷ []
unfolding sse
received_events = refl

subscribe-Rises_example : Rises (pos 0) (
    subscribe codec valid setup
      (message (at (pos 3) (codes "a")) true ∷ tick (pos 4) true ∷ [])
      (pos 0))
subscribe-Rises_example =
    subscribe-Rises codec valid setup
      (message (at (pos 3) (codes "a")) true ∷ tick (pos 4) true ∷ []) log 0 log-InOrder
      (refl, ((refl, (refl, tt)), tt))

granted : resume_offset (first (pos 3)) (pos 4) ≡ resume (pos 4)
unfolding resume_offset
granted = refl

resume_offset-lossless_example : from (start_of (pos 4)) (from (pos 3) log) ≡ from (pos 4) log
resume_offset-lossless_example = resume_offset-lossless log (pos 3) (pos 4) (pos 4) refl granted

abbrev request : Request
request = record { identifier = codes "run"; last_event_id = codes "4"; filter = [] }

abbrev no_metrics : SseMetrics
no_metrics = record {
  connections = pos 0;
  total = 0;
  events = [];
  disconnects = [];
  errors = [];
  reconnects = 0;
}

abbrev healthy : Situation
healthy = record { shutting_down = false; stream_opens = true; can_flush = true }

abbrev one_event : List Receive
one_event =
    event (record { id = pos 4; event = codes "log"; data_text = [] }) true ∷ context_done true ∷ []

get_events-Balanced_example :
    Balanced no_metrics
      (get_events request healthy one_event no_metrics).0
      (get_events request healthy one_event no_metrics).1
get_events-Balanced_example = get_events-Balanced request healthy one_event no_metrics

abbrev closing : Situation
closing = record { shutting_down = true; stream_opens = true; can_flush = true }

serve_each-Reconciled_example : Reconciled (
    serve_each
      ((codes "no", record { request = request; situation = healthy; received = one_event })
        ∷ (codes "no", record { request = request; situation = closing; received = [] })
        ∷ [])
      Requests.no_metrics)
serve_each-Reconciled_example = serve_each-Reconciled (
    (codes "no", record { request = request; situation = healthy; received = one_event })
    ∷ (codes "no", record { request = request; situation = closing; received = [] })
    ∷ [])
