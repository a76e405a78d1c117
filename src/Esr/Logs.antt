-- ===== src/Esr/Logs.antt =====
-- pkg/sse/v1alpha/sse.go: the log lines of a suite runner as numbered messages. `Delivery` and
-- `Bounds` are about `Subscribe`, `Serving` about `GetEvents`. Each choice of a `select` is one
-- element of a list; a response is polled whole, and its status is not looked at.
pub mod Delivery
pub mod Bounds
pub mod Serving
use etos_api.Prelude.{
  ℕ, Bool, true, false, Option, none, some, List, [], ◌∷◌, ◌++◌, Text, codes, text_eq, leb, length,
  drop, is_empty, ℤ, pos, negsuc, inc64, dec64, if◌then◌else◌,
}
use etos_api.Prelude.Decimal.{parse_int}
use etos_api.Space.{Decoded}
use etos_api.Events.{Event}
use etos_api.Esr.{Reply, failed, body, scan, url_at}

abbrev pub named : Text → Event
named name = record { id = pos 0; event = name; data_text = [] }

abbrev pub message_at : ℤ → Text → Event
message_at id line = record { id = id; event = codes "message"; data_text = line }

-- The case of the `select` in `Subscribe` that is taken.
pub data Choice : Type 0 where
  done : Choice
  ping : Choice
  tick : Reply → Choice

-- The goroutine waits, has returned and closed the channel, or has panicked.
pub data Ended : Type 0 where
  open_still : Ended
  returned : Ended
  panicked : Ended

-- `messages[counter-1:]` under its guard, for the index `counter - 1`.
pub data Slice : Type 0 where
  skipped : Slice
  out_of_range : Slice
  rest_of : List Text → Slice

unfoldable pub slice_from : ℤ → List Text → Slice
slice_from (negsuc n) messages = out_of_range
slice_from (pos n) messages = if leb n (length messages) then rest_of (drop n messages) else skipped

-- The events of the inner loop, and the counter behind it.
unfoldable pub number : ℤ → List Text → List Event
number counter [] = []
number counter (line ∷ lines) = message_at counter line ∷ number (inc64 counter) lines

unfoldable pub advance : ℤ → List Text → ℤ
advance counter [] = counter
advance counter (line ∷ lines) = advance (inc64 counter) lines

abbrev pub after_events : List Event → List Event × Ended → List Event × Ended
after_events sent (more, ended) = (sent ++ more, ended)

abbrev pub send_slice : (ℤ → List Event × Ended) → ℤ → Slice → List Event × Ended
send_slice rest counter skipped = rest counter
send_slice rest counter out_of_range = ([], panicked)
send_slice rest counter (rest_of lines) =
    after_events (number counter lines) (rest (advance counter lines))

-- `Subscribe`: the events that are sent on the channel, and how the goroutine ends.
unfoldable pub subscribe : List Choice → ℤ → List Event × Ended
subscribe [] counter = ([], open_still)
subscribe (done ∷ choices) counter = ([], returned)
subscribe (ping ∷ choices) counter =
    after_events (named (codes "ping") ∷ []) (subscribe choices counter)
subscribe (tick (failed true) ∷ choices) counter = (named (codes "shutdown") ∷ [], returned)
subscribe (tick (failed false) ∷ choices) counter = subscribe choices counter
subscribe (tick (body bytes) ∷ choices) counter =
    send_slice (subscribe choices) counter (slice_from (dec64 counter) (scan bytes))

-- `url`.
unfoldable pub url : Decoded Text → Option Text
url address = url_at (codes "/log") address

-- How the write of an event ends.
pub data Write : Type 0 where
  written : Write
  write_failed : Write
  hijacked : Write

-- The case of the `select` in `GetEvents` that is taken.
pub data Receive : Type 0 where
  client_gone : Receive
  server_stops : Receive
  next : Write → Receive

-- How `GetEvents` ends: it waits, returns, or kills the connection (by an answer with 500 if the
-- connection cannot be taken over).
pub data Served : Type 0 where
  waiting : Served
  gone : Served
  killed : (taken_over : Bool) → Served

abbrev after_write : Event → List Event × Served → List Event × Served
after_write e (es, served) = (e ∷ es, served)

abbrev by_write : Write → Event → List Event × Served → List Event × Served
by_write written e rest = after_write e rest
by_write write_failed e rest = rest
by_write hijacked e rest = ([], gone)

abbrev is_shutdown : Event → Bool
is_shutdown e = text_eq e.event (codes "shutdown")

-- A channel that is closed and empty gives an event without fields.
abbrev pub received : List Event → Ended → Option (Event × List Event)
received (e ∷ sent) ended = some (e, sent)
received [] returned = some (named [], [])
received [] open_still = none
received [] panicked = none

abbrev pub serve_event :
    Bool
    → (List Event → List Event × Served)
    → Write
    → Option (Event × List Event)
    → List Event × Served
serve_event can_hijack rest w none = ([], waiting)
serve_event can_hijack rest w (some (e, sent)) =
    let later = rest sent in if is_shutdown e then ([], killed can_hijack) else by_write w e later

-- The loop of `GetEvents`, for the events that the goroutine sends: what is written.
unfoldable pub serve : Bool → List Receive → List Event → Ended → List Event × Served
serve can_hijack [] sent ended = ([], waiting)
serve can_hijack (client_gone ∷ rest) sent ended = ([], gone)
serve can_hijack (server_stops ∷ rest) sent ended = ([], gone)
serve can_hijack (next w ∷ rest) sent ended =
    serve_event can_hijack (λ later. serve can_hijack rest later ended) w (received sent ended)

-- What the handler meets before its loop, the Last-Event-ID header (empty if it is not sent), and
-- whether `Hijack` gives the connection.
pub record Situation : Type 0 where
  pub finished : Bool
  pub address : Decoded Text
  pub last_event_id : Text
  pub can_flush : Bool
  pub can_hijack : Bool

pub data Response : Type 0 where
  status : ℕ → Response
  streamed : (address : Text) (last_id : ℤ) → List Event → Served → Response

abbrev pub last_id : Text → Option ℤ
last_id header = if is_empty header then some (pos 1) else parse_int header

abbrev streaming : Situation → List Choice → List Receive → Text → ℤ → Response
streaming s choices receives address id =
    let (sent, ended) = subscribe choices id in
    let (es, served) = serve s.can_hijack receives sent ended in streamed address id es served

abbrev pub answer_for : Bool → Option Text → Option ℤ → Bool → (Text → ℤ → Response) → Response
answer_for true address id can_flush stream = status 404
answer_for false none id can_flush stream = status 404
answer_for false (some address) none can_flush stream = status 400
answer_for false (some address) (some id) false stream = status 404
answer_for false (some address) (some id) true stream = stream address id

-- `GetEvents`, with the goroutine that it starts.
unfoldable pub get_events : Situation → List Choice → List Receive → Response
unfolding subscribe serve url
get_events s choices receives =
    answer_for s.finished (url s.address) (last_id s.last_event_id) s.can_flush
      (streaming s choices receives)
