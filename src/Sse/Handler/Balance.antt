-- ===== src/Sse/Handler/Balance.antt =====
-- What a request to `GetEvents` of pkg/sse/v2alpha/sse.go leaves in the metrics, and what it writes.
use etos_api.Prelude.{
  suc, ◌+◌, Bool, true, false, List, [], ◌∷◌, ◌≡◌, refl, ◌∙◌, Text, codes, contains, text_eq,
  is_empty, ℤ, pos, negsuc, zero, if◌then◌else◌,
}
use etos_api.Events.{Event}
use etos_api.Metrics.{
  SseMetrics, add_one, sub_one, connection_opened, connection_closed_with_reason,
  reconnect_requested, stream_error, event_delivered, bounded, close_reasons, special_events,
}
use etos_api.Sse.Filter.{clean_filter}
use etos_api.Sse.Resume.{last_event_id}
use etos_api.Sse.Handler.{
  Request, Situation, Receive, context_done, event, channel_closed, Ended, returned, aborted,
  open_still, Response, refused, streamed, write_events, answer_for, count_reconnect, get_events,
}

-- The classes of the events in the order in which they are counted, in front of those before.
unfoldable pub classes : List Event → List Text → List Text
classes [] counted = counted
classes (e ∷ es) counted = classes es (bounded special_events (codes "data") e.event ∷ counted)

-- One reason of the bounded set is added.
pub record OneReason (old new : List Text) : Type 0 where
  pub reason : Text
  pub added : new ≡ reason ∷ old
  pub known : contains close_reasons reason ≡ true

-- What the loop changes, from the metrics of an open connection on.
abbrev pub Loop : SseMetrics → List Event → Ended → SseMetrics → Type 0
Loop m es open_still m' =
    (m'.connections ≡ m.connections)
    × (m'.total ≡ m.total)
    × (m'.disconnects ≡ m.disconnects)
    × (m'.events ≡ classes es m.events)
Loop m es _ m' =
    (m'.connections ≡ sub_one m.connections)
    × (m'.total ≡ m.total)
    × OneReason m.disconnects m'.disconnects
    × (m'.events ≡ classes es m.events)

closed_by :
    (old : List Text) (reason : Text)
    → contains close_reasons reason ≡ true
    → OneReason old (bounded close_reasons (codes "unknown") reason ∷ old)
unfolding bounded
closed_by old reason h = record { reason = reason; added = rw h; known = h }

Loop-after_write :
    (m m' : SseMetrics) (e : Event) (es : List Event) (ended : Ended)
    → Loop (event_delivered e.event m) es ended m'
    → Loop m (e ∷ es) ended m'
unfolding event_delivered classes
Loop-after_write m m' e es returned h = h
Loop-after_write m m' e es aborted h = h
Loop-after_write m m' e es open_still h = h

write_events-Loop :
    (received : List Receive) (m : SseMetrics)
    → Loop m (write_events received m).0 (write_events received m).1 (write_events received m).2
unfolding write_events connection_closed_with_reason stream_error classes
write_events-Loop [] m = (refl, refl, refl, refl)
write_events-Loop (context_done true ∷ rest) m =
    (refl, refl, closed_by _ _ (unfold contains text_eq in refl), refl)
write_events-Loop (context_done false ∷ rest) m =
    (refl, refl, closed_by _ _ (unfold contains text_eq in refl), refl)
write_events-Loop (channel_closed ∷ rest) m =
    (refl, refl, closed_by _ _ (unfold contains text_eq in refl), refl)
write_events-Loop (event e false ∷ rest) m =
    (refl, refl, closed_by _ _ (unfold contains text_eq in refl), refl)
write_events-Loop (event e true ∷ rest) m =
    Loop-after_write m (write_events rest (event_delivered e.event m)).2 e
      (write_events rest (event_delivered e.event m)).0 _
      (write_events-Loop rest (event_delivered e.event m))

-- What a request changes: a refused one neither the connections nor the events; a streamed one
-- counts its connection, a reason if it has ended, and each event that was written by its class.
abbrev pub Balanced : SseMetrics → Response → SseMetrics → Type 0
Balanced m (refused status) m' =
    (m'.connections ≡ m.connections)
    × (m'.total ≡ m.total)
    × (m'.disconnects ≡ m.disconnects)
    × (m'.events ≡ m.events)
Balanced m (streamed last_id filter es open_still) m' =
    (m'.connections ≡ add_one m.connections)
    × (m'.total ≡ m.total + 1)
    × (m'.disconnects ≡ m.disconnects)
    × (m'.events ≡ classes es m.events)
Balanced m (streamed last_id filter es _) m' =
    (m'.connections ≡ m.connections)
    × (m'.total ≡ m.total + 1)
    × OneReason m.disconnects m'.disconnects
    × (m'.events ≡ classes es m.events)

sub_one-add_one : (z : ℤ) → sub_one (add_one z) ≡ z
sub_one-add_one (pos n) = refl
sub_one-add_one (negsuc zero) = refl
sub_one-add_one (negsuc (suc n)) = refl

Balanced-of_Loop :
    (m m' : SseMetrics) (last_id : ℤ) (filter : List Text) (es : List Event) (ended : Ended)
    → Loop (connection_opened m) es ended m'
    → Balanced m (streamed last_id filter es ended) m'
unfolding connection_opened
Balanced-of_Loop m m' last_id filter es open_still h = h
Balanced-of_Loop m m' last_id filter es returned (gauge, total, reason, events) =
    (gauge ∙ sub_one-add_one m.connections, total, reason, events)
Balanced-of_Loop m m' last_id filter es aborted (gauge, total, reason, events) =
    (gauge ∙ sub_one-add_one m.connections, total, reason, events)

Balanced-reconnect :
    (header : Bool) (m m' : SseMetrics) (response : Response)
    → Balanced (if header then m else reconnect_requested m) response m'
    → Balanced m response m'
unfolding reconnect_requested
Balanced-reconnect true m m' response b = b
Balanced-reconnect false m m' (refused status) b = b
Balanced-reconnect false m m' (streamed last_id filter es open_still) b = b
Balanced-reconnect false m m' (streamed last_id filter es returned) b = b
Balanced-reconnect false m m' (streamed last_id filter es aborted) b = b

answer-Balanced :
    (r : Request) (shutting_down stream_opens can_flush : Bool) (received : List Receive)
    (m : SseMetrics)
    → Balanced m
        (answer_for r shutting_down stream_opens can_flush received m).0
        (answer_for r shutting_down stream_opens can_flush received m).1
answer-Balanced r true stream_opens can_flush received m = (refl, refl, refl, refl)
answer-Balanced r false false can_flush received m = unfold stream_error in (refl, refl, refl, refl)
answer-Balanced r false true false received m = unfold stream_error in (refl, refl, refl, refl)
answer-Balanced r false true true received m =
    Balanced-of_Loop m _ (last_event_id r.last_event_id) (clean_filter r.identifier r.filter) _
      (write_events received (connection_opened m)).1
      (write_events-Loop received (connection_opened m))

-- On every path of the handler the metrics balance. A request that is refused leaves the connections
-- and the events as they were. A streamed one adds 1 to the total; once its loop has ended, also by
-- an abort, the gauge of active connections is back where it was and exactly one reason of the
-- bounded set has been added, and while it has not ended, the gauge is one higher. Each event that
-- was written is counted by its class, and no other.
pub get_events-Balanced :
    (r : Request) (s : Situation) (received : List Receive) (m : SseMetrics)
    → Balanced m (get_events r s received m).0 (get_events r s received m).1
get_events-Balanced r s received m =
    unfold get_events in
    Balanced-reconnect (is_empty r.last_event_id) m _ _
      (answer-Balanced r s.shutting_down s.stream_opens s.can_flush received (count_reconnect r m))
