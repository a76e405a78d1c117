-- ===== src/Sse/Subscribe.antt =====
-- `subscribe` of pkg/sse/v2alpha/sse.go: the goroutine that forwards the messages of a stream to
-- the HTTP handler. Each choice of the `select` is one element of a list, with `taken` for a send
-- that the receiver takes before the context is done. The protocol schema's `Validate` is a
-- parameter, and so is `encoding/json`.
pub mod Induction
pub mod Account
pub mod Resuming
pub mod Ids
use etos_api.Prelude.{
  Bool, true, false, Option, none, some, List, [], ◌∷◌, ltb_ℤ, Text, codes, text_eq, ℤ, pos, negsuc,
  inc64, zero, if◌then◌else◌,
}
use etos_api.Stream.{Message, FirstOffset, offset_first}
use etos_api.Events.{Event, JsonCodec, new}
use etos_api.Sse.Resume.{Resume, resume, refuse, reason_expired, resume_offset}

-- An event that was sent on the channel to the handler, with where it comes from: a message, the
-- ticker, or `sendError`, whose text is the JSON of `retry` and `reason`.
pub data Sent : Type 0 where
  forwarded : Event → Sent
  ping : ℤ → Sent
  failure : (retry : Bool) (reason : Text) → Sent

-- The events that `ping` and `failure` stand for, with the text of an error event.
abbrev pub event_of : (Bool → Text → Text) → Sent → Event
event_of error_json (forwarded e) = e
event_of error_json (ping id) = record { id = id; event = codes "ping"; data_text = [] }
event_of error_json (failure retry reason) = record {
  id = pos 0;
  event = codes "error";
  data_text = error_json retry reason;
}

-- The case of the `select` that is taken. `cancelled` is whether the context has an error when the
-- stream's close notification is received, and `notified` whether one was sent on that channel.
pub data Choice : Type 0 where
  done : Choice
  tick : (position : ℤ) (taken : Bool) → Choice
  closed : (notified cancelled taken : Bool) → Choice
  message : Message → (taken : Bool) → Choice

-- One round of the loop: what is sent, and the last id if the loop goes on.
pub data Step : Type 0 where
  goes_on : Option Sent → ℤ → Step
  returns : Option Sent → Step

abbrev pub if_taken : Bool → Sent → Option Sent
if_taken true s = some s
if_taken false s = none

abbrev pub send : Bool → Sent → ℤ → Step
send true s last_id = goes_on (some s) last_id
send false s last_id = returns none

abbrev pub prepend : Option Sent → List Sent → List Sent
prepend none rest = rest
prepend (some s) rest = s ∷ rest

abbrev pub go_on : (ℤ → List Sent) → Step → List Sent
go_on rest (goes_on sent last_id) = prepend sent (rest last_id)
go_on rest (returns sent) = prepend sent []

-- What the calls before the loop meet: the oldest offset, whether `Consume` fails, the oldest
-- offset once more, and whether the handler takes an error event.
pub record Setup : Type 0 where
  pub oldest : FirstOffset
  pub consume_fails : Bool
  pub oldest_again : FirstOffset
  pub taken : Bool

abbrev pub is_expired : Resume → Bool
is_expired (resume offset) = false
is_expired (refuse retry reason) = text_eq reason reason_expired

abbrev pub is_first : ℤ → Bool
is_first (negsuc zero) = true
is_first _ = false

module _ (codec : JsonCodec) (validate : Text → Bool) where
  -- `events.New` and `schema.Validate`; `none` is a message that is dropped.
  unfoldable pub accept : Message → Option Event
  accept m = elim (new codec m.data_bytes) [
    | none ↦ none
    | some event ↦
        if validate m.data_bytes then some (record event { id = inc64 m.offset }) else none
  ]

  unfoldable pub step : Choice → ℤ → Step
  step done last_id = returns none
  step (tick position taken) last_id =
      if ltb_ℤ last_id position
      then send taken (ping position) position
      else send taken (ping (pos 0)) last_id
  step (closed false cancelled taken) last_id = returns none
  step (closed true true taken) last_id = returns none
  step (closed true false taken) last_id =
      returns (if_taken taken (failure true (codes "Streamer closed the connection")))
  step (message m taken) last_id = elim (accept m) [
    | none ↦ goes_on none last_id
    | some event ↦ send taken (forwarded event) (inc64 m.offset)
  ]

  -- What the loop sends, up to the last choice or its return.
  unfoldable pub loop : List Choice → ℤ → List Sent
  unfolding step
  loop [] last_id = []
  loop (choice ∷ choices) last_id = go_on (loop choices) (step choice last_id)

  -- The part behind a granted offset.
  unfoldable pub consume_from : Setup → List Choice → ℤ → ℤ → List Sent
  unfolding loop
  consume_from setup choices offset last_id =
      if setup.consume_fails
      then prepend
          (if_taken setup.taken (failure true (codes "failed to consume the event stream"))) []
      else if is_first offset
      then loop choices last_id
      else if is_expired (resume_offset setup.oldest_again last_id)
      then prepend (if_taken setup.taken (failure false reason_expired)) []
      else loop choices last_id

  abbrev pub on_grant : Setup → List Choice → ℤ → Resume → List Sent
  on_grant setup choices last_id (refuse retry reason) =
      prepend (if_taken setup.taken (failure retry reason)) []
  on_grant setup choices last_id (resume offset) = consume_from setup choices offset last_id

  unfoldable pub subscribe : Setup → List Choice → ℤ → List Sent
  unfolding consume_from resume_offset
  subscribe setup choices last_id =
      on_grant setup choices last_id (resume_offset setup.oldest last_id)
