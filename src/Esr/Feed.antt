-- ===== src/Esr/Feed.antt =====
-- pkg/sse/v1/sse.go: the events of a suite runner, which is asked for those from a number on.
-- `Delivery` is about `Subscribe`, `Serving` about `GetEvents`. encoding/json is the record
-- `JsonCodec`; a reply depends on the number that is asked for, since the listener selects by it.
pub mod Delivery
pub mod Serving
use etos_api.Prelude.{
  ℕ, Bool, true, false, Option, none, some, List, [], ◌∷◌, ◌++◌, Text, codes, is_empty, ℤ, pos,
  inc64, if◌then◌else◌,
}
use etos_api.Prelude.Decimal.{parse_int}
use etos_api.Space.{Decoded, value, undecoded}
use etos_api.Events.{Event, JsonCodec, new, write}
use etos_api.Esr.{Reply, failed, body, scan, url_at, atoi_error}

-- The case of the `select` in `Subscribe` that is taken.
pub data Choice : Type 0 where
  done : Choice
  ping : Choice
  tick : (ℤ → Reply) → Choice

-- What is sent on the channel.
pub data Sent : Type 0 where
  forwarded : Event → Sent
  pinged : Sent
  shutdown : Sent

unfoldable pub event_of : Sent → Event
event_of (forwarded e) = e
event_of pinged = record { id = pos 0; event = codes "ping"; data_text = [] }
event_of shutdown = record {
  id = pos 0;
  event = codes "shutdown";
  data_text = codes "ESR finished, shutting down";
}

-- The goroutine waits, or has returned and closed the channel.
pub data Ended : Type 0 where
  open_still : Ended
  returned : Ended

abbrev pub after_sent : List Sent → List Sent × Ended → List Sent × Ended
after_sent sent (more, ended) = (sent ++ more, ended)

-- The inner loop of `Subscribe`: the events that are sent, and the counter behind it.
unfoldable pub forward : List Event → List Sent
forward [] = []
forward (e ∷ es) = forwarded e ∷ forward es

unfoldable pub advance : ℤ → List Event → ℤ
advance counter [] = counter
advance counter (e ∷ es) = advance (inc64 counter) es

-- What `GetEvent` writes: a response of its own, the event, or nothing.
pub data Answer : Type 0 where
  not_found : Answer
  nothing : Answer
  one : Text → Answer

module _ (codec : JsonCodec) where
  -- The loop of `GetFrom`: a line that is no event is left out.
  unfoldable pub events_in : List Text → List Event
  events_in [] = []
  events_in (line ∷ lines) =
      let rest = events_in lines in elim (new codec line) [ none ↦ rest | some e ↦ e ∷ rest ]

  abbrev pub by_reply : (ℤ → List Sent × Ended) → ℤ → Reply → List Sent × Ended
  by_reply rest counter (failed true) = after_sent (shutdown ∷ []) (rest counter)
  by_reply rest counter (failed false) = rest counter
  by_reply rest counter (body bytes) =
      let es = events_in (scan bytes) in after_sent (forward es) (rest (advance counter es))

  unfoldable pub subscribe : List Choice → ℤ → List Sent × Ended
  unfolding events_in forward advance
  subscribe [] counter = ([], open_still)
  subscribe (done ∷ choices) counter = ([], returned)
  subscribe (ping ∷ choices) counter = after_sent (pinged ∷ []) (subscribe choices counter)
  subscribe (tick reply ∷ choices) counter = by_reply (subscribe choices) counter (reply counter)

  abbrev event_answer : Option Event → Answer
  event_answer none = nothing
  event_answer (some e) = one (write e)

  abbrev one_answer : Option Text → Option Text → Answer
  one_answer none response = not_found
  one_answer (some address) none = nothing
  one_answer (some address) (some bytes) = event_answer (new codec bytes)

  -- `GetEvent` with `GetOne`, for the body that the listener sends, if it is read without an error.
  unfoldable pub get_event : Bool → Decoded Text → Option Text → Answer
  get_event true address response = not_found
  get_event false address response = one_answer (url_at (codes "/v1/log") address) response

-- The case of the `select` in `GetEvents` that is taken.
pub data Receive : Type 0 where
  server_stops : Receive
  next : (written : Bool) → Receive

-- How the loop of `GetEvents` ends: it waits, or it returns when the channel is closed.
pub data Served : Type 0 where
  waiting : Served
  finished_with : Served

abbrev by_write : Bool → Sent → List Sent × Served → List Sent × Served
by_write true s (ss, served) = (s ∷ ss, served)
by_write false s rest = rest

-- The loop of `GetEvents`: a failed write is passed over, and the stop of the server only cancels the
-- context of the goroutine.
unfoldable pub serve : List Receive → List Sent → Ended → List Sent × Served
serve [] sent ended = ([], waiting)
serve (server_stops ∷ rest) sent ended = serve rest sent ended
serve (next w ∷ rest) (s ∷ sent) ended = by_write w s (serve rest sent ended)
serve (next w ∷ rest) [] returned = ([], finished_with)
serve (next w ∷ rest) [] open_still = ([], waiting)

-- What the handler meets before its loop, with the Last-Event-ID header (empty if it is not sent).
pub record Situation : Type 0 where
  pub finished : Bool
  pub address : Decoded Text
  pub last_event_id : Text
  pub can_flush : Bool

pub data Response : Type 0 where
  status : ℕ → Response
  streamed : (address : Text) (last_id : ℤ) → List Sent → Served → Response

abbrev pub or_error_value : Text → Option ℤ → ℤ
or_error_value header none = atoi_error header
or_error_value header (some id) = id

-- A header that cannot be read is logged, and the value that `Atoi` gave is used.
unfoldable pub last_id : Text → ℤ
last_id header = if is_empty header then pos 1 else or_error_value header (parse_int header)

abbrev pub answer_for : Bool → Option Text → Bool → (Text → Response) → Response
answer_for true address can_flush stream = status 404
answer_for false none can_flush stream = status 404
answer_for false (some address) false stream = status 404
answer_for false (some address) true stream = stream address

module _ (codec : JsonCodec) where
  abbrev streaming : Situation → List Choice → List Receive → Text → Response
  streaming s choices receives address =
      let (sent, ended) = subscribe codec choices (last_id s.last_event_id) in
      let (ss, served) = serve receives sent ended in
      streamed address (last_id s.last_event_id) ss served

  -- `GetEvents`, with the goroutine that it starts.
  unfoldable pub get_events : Situation → List Choice → List Receive → Response
  unfolding serve last_id
  get_events s choices receives =
      answer_for s.finished (url_at (codes "/v1/log") s.address) s.can_flush
        (streaming s choices receives)
