-- ===== src/Sse/EndToEnd.antt =====
-- From the bus to the client: `subscribe` of pkg/sse/v2alpha/sse.go over the streams of
-- internal/stream/rabbitmq.go, with a client that reconnects while the broker removes old messages.
use etos_api.Prelude.{
  Bool, true, some, List, [], ◌∷◌, ◌≡◌, ◌≢◌, refl, ap, ◌∙◌, arith, Text, ℤ, pos, negsuc, ltb_ℤ,
  false, ◌⊎◌, inl, inr, sym, text_eq_refl,
}
use mathlib.Core.Path.{subst}
use etos_api.Stream.{Message, FirstOffset, first, empty_stream, query_failed, offset_first}
use etos_api.Stream.Rabbit
use etos_api.Stream.Rabbit.{
  OffsetSpecification, with_channel, with_offset, with_filter, AmqpMessage, RabbitMqStream,
  property, as_string, event_name, opened, new_stream,
}
use etos_api.Stream.Rabbit.Scoping.{Client, configure}
use etos_api.Events.{JsonCodec}
use etos_api.Sse.Log.{InOrder, from, below, from_start}
use etos_api.Sse.Resume.{resume, reason_expired, resume_offset}
use etos_api.Sse.Subscribe.{Choice, Setup, is_first, is_expired, subscribe}
use etos_api.Sse.Subscribe.Account.{last_seen, forwarded_of, accepted}
use etos_api.Sse.Subscribe.Induction.{Follows}
use etos_api.Sse.Subscribe.Resuming.{received, AllFollow, received_complete}
use etos_api.Sse.RunLog.{
  Bus, payloads, delivered, RunLog, IsPublished, delivered-RunLog, RunLog-InOrder, bus_from,
  bus_from-from, RunLog-from, IsPublished-from,
}

-- What the broker sends a consumer for its offset, when it still retains the messages from `retained`
-- on: a consumer whose offset was removed starts at the first message that is retained.
unfoldable pub served : OffsetSpecification → ℤ → Bus → Bus
served Rabbit.from_first retained bus = bus_from retained bus
served (Rabbit.from_offset offset) retained bus = bus_from offset (bus_from retained bus)

-- What is known of the messages that retention removed before the consumer was made. Nothing of
-- the bus was, for a client that has seen no id. For another, the second query is answered, and
-- since messages are only ever removed, with an offset that is not before `retained`; or it is not
-- answered, and no message from the id on was removed.
pub data Retention (setup : Setup) (bus : Bus) (seen retained : ℤ) : Type 0 where
  new_client :
      ltb_ℤ (pos 0) seen ≡ false → bus_from retained bus ≡ bus → Retention setup bus seen retained
  answered :
      (oldest : ℤ)
      → ltb_ℤ (pos 0) seen ≡ true
      → setup.oldest_again ≡ first oldest
      → ltb_ℤ oldest retained ≡ false
      → Retention setup bus seen retained
  unanswered :
      ltb_ℤ (pos 0) seen ≡ true → ltb_ℤ seen retained ≡ false → Retention setup bus seen retained

-- The granted offset and the consumer's offset are those of the id.
granted-offset :
    (oldest : FirstOffset) (seen offset : ℤ)
    → ltb_ℤ (pos 0) seen ≡ true
    → resume_offset oldest seen ≡ resume offset
    → offset ≡ seen
unfolding resume_offset
granted-offset (first o) seen offset h e = ground arith
granted-offset empty_stream seen offset h e = ground arith
granted-offset query_failed seen offset h e = ground arith

granted-first :
    (oldest : FirstOffset) (seen offset : ℤ)
    → ltb_ℤ (pos 0) seen ≡ false
    → resume_offset oldest seen ≡ resume offset
    → offset ≡ offset_first
unfolding resume_offset
granted-first oldest seen offset h e = ground arith

not_expired :
    (o seen : ℤ)
    → ltb_ℤ (pos 0) seen ≡ true
    → is_expired (resume_offset (first o) seen) ≡ false
    → ltb_ℤ seen o ≡ false
unfolding resume_offset
not_expired o seen h e = ground (arith, text_eq_refl reason_expired)

is_first-seen : (seen : ℤ) → ltb_ℤ (pos 0) seen ≡ true → is_first seen ≢ true
is_first-seen (pos n) h e = cc (e)
is_first-seen (negsuc n) h e = cc (h)

offset_of-first :
    (filter : List Text) (s : RabbitMqStream)
    → (configure offset_first filter s).options.offset ≡ Rabbit.from_first
unfolding with_channel with_offset with_filter
offset_of-first [] s = refl
offset_of-first (f ∷ fs) s = refl

offset_of-seen :
    (filter : List Text) (s : RabbitMqStream) (seen : ℤ)
    → ltb_ℤ (pos 0) seen ≡ true
    → (configure seen filter s).options.offset ≡ Rabbit.from_offset seen
unfolding with_channel with_offset with_filter
offset_of-seen [] s seen h = ground arith
offset_of-seen (f ∷ fs) s seen h = ground arith

module _ (codec : JsonCodec) (validate : Text → Bool) (client : Client) (filter : List Text)
    (s : RabbitMqStream) where
  -- A connection takes no choice, as when it does not come to its loop; or an offset is granted, the
  -- resumption is not found to have expired behind `Consume`, and the choices follow what a stream
  -- delivers that is configured with that offset.
  pub data Connected (bus : Bus) (setup : Setup) (choices : List Choice) (seen : ℤ) : Type 0 where
    no_choice : choices ≡ [] → Connected bus setup choices seen
    loops :
        (offset retained : ℤ)
        → resume_offset setup.oldest seen ≡ resume offset
        → (is_first offset ≡ true) ⊎ (is_expired (resume_offset setup.oldest_again seen) ≡ false)
        → Retention setup bus seen retained
        → Follows choices (
            delivered client
              (configure offset filter s)
              (served (configure offset filter s).options.offset retained bus))
        → Connected bus setup choices seen

  -- Each connection has a stream of its own, which is configured with the offset that is granted for
  -- the last id seen.
  unfoldable pub AllStream : Bus → List (Setup × List Choice) → ℤ → Type 0
  AllStream bus [] seen = Unit
  AllStream bus ((setup, choices) ∷ connections) seen =
      Connected bus setup choices seen
      × AllStream bus connections (last_seen seen (subscribe codec validate setup choices seen))

  module _ (identifier : Text) (bus : Bus) (log : List Message)
      (fresh : new_stream (some true) identifier ≡ opened s) (p : IsPublished client identifier bus)
      (r : RunLog identifier filter bus log) (o : InOrder (pos 0) log) where
    delivered_first :
        (seen retained : ℤ)
        → ltb_ℤ (pos 0) seen ≡ false
        → bus_from retained bus ≡ bus
        → delivered client
            (configure offset_first filter s)
            (served (configure offset_first filter s).options.offset retained bus)
          ≡ from seen log
    unfolding served
    delivered_first seen retained h intact =
        ap
          (λ (at : OffsetSpecification).
            delivered client (configure offset_first filter s) (served at retained bus))
          (offset_of-first filter s)
        ∙ ap (delivered client (configure offset_first filter s)) intact
        ∙ (delivered-RunLog client identifier filter fresh offset_first p r
            ∙ sym (from_start (pos 0) seen log h o))

    delivered_seen :
        (seen retained : ℤ)
        → ltb_ℤ (pos 0) seen ≡ true
        → ltb_ℤ seen retained ≡ false
        → delivered client
            (configure seen filter s)
            (served (configure seen filter s).options.offset retained bus)
          ≡ from seen log
    unfolding served
    delivered_seen seen retained h kept =
        ap
          (λ (at : OffsetSpecification).
            delivered client (configure seen filter s) (served at retained bus))
          (offset_of-seen filter s seen h)
        ∙ ap (delivered client (configure seen filter s)) (bus_from-from bus retained seen kept)
        ∙ (delivered-RunLog client identifier filter fresh seen
            (IsPublished-from client identifier seen bus p) (RunLog-from seen r))

    -- With either kind of offset, the stream delivers the log of the run from the id on.
    delivered-from :
        (setup : Setup) (seen offset retained : ℤ)
        → resume_offset setup.oldest seen ≡ resume offset
        → (is_first offset ≡ true) ⊎ (is_expired (resume_offset setup.oldest_again seen) ≡ false)
        → Retention setup bus seen retained
        → delivered client
            (configure offset filter s)
            (served (configure offset filter s).options.offset retained bus)
          ≡ from seen log
    delivered-from setup seen offset retained granted passed (new_client h intact) =
        rw (granted-first setup.oldest seen offset h granted)
          (delivered_first seen retained h intact)
    delivered-from setup seen offset retained granted passed (unanswered h kept) =
        rw (granted-offset setup.oldest seen offset h granted) (delivered_seen seen retained h kept)
    delivered-from setup seen offset retained granted passed (answered oldest h e later) =
        let same : offset ≡ seen = granted-offset setup.oldest seen offset h granted in
        let kept : ltb_ℤ seen oldest ≡ false = elim passed [
          | inl at_first ↦ absurd (is_first-seen seen h (ap is_first (sym same) ∙ at_first))
          | inr valid ↦
              not_expired oldest seen h
                (ap (λ (f : FirstOffset). is_expired (resume_offset f seen)) (sym e) ∙ valid)
        ] in
        rw same (delivered_seen seen retained h (ground arith))

    Connected-Follows :
        (setup : Setup) (choices : List Choice) (seen : ℤ)
        → Connected bus setup choices seen
        → Follows choices (from seen log)
    Connected-Follows setup choices seen (no_choice e) =
        subst (λ (cs : List Choice). Follows cs (from seen log)) (sym e) tt
    Connected-Follows setup choices seen (loops offset retained granted passed kept f) =
        subst (λ (ms : List Message). Follows choices ms)
          (delivered-from setup seen offset retained granted passed kept) f

    AllStream-AllFollow :
        (connections : List (Setup × List Choice)) (seen : ℤ)
        → AllStream bus connections seen
        → AllFollow codec validate connections seen log
    unfolding AllStream AllFollow
    AllStream-AllFollow [] seen h = tt
    AllStream-AllFollow ((setup, choices) ∷ connections) seen (c, rest) =
        (Connected-Follows setup choices seen c, AllStream-AllFollow connections _ rest)

-- From the bus to the client: if the log of the bus has increasing offsets below the largest int64 and
-- the messages of the run were published with their qualified names as filter values, then a client
-- that always reconnects with the last id that it has seen receives, over all its connections, exactly
-- the messages below that id which have data, belong to its run, are named by its filter, if that is
-- not empty, and are not dropped as invalid, each once and in order. Each connection receives in turn
-- what the broker serves a stream of its own, configured with the offset that was granted for the id,
-- and pings at positions that are above no message still to come. The broker may remove messages, but
-- none of the bus before the client has seen an id, and where the second query for the oldest offset is
-- not answered, none from the id on.
pub received-RunLog :
    (codec : JsonCodec) (validate : Text → Bool) (client : Client) (identifier : Text)
    (filter : List Text) (s : RabbitMqStream) (bus : Bus) (log : List Message)
    (connections : List (Setup × List Choice))
    → new_stream (some true) identifier ≡ opened s
    → InOrder (pos 0) (payloads bus)
    → IsPublished client identifier bus
    → RunLog identifier filter bus log
    → AllStream codec validate client filter s bus connections (pos 0)
    → forwarded_of (received codec validate connections (pos 0))
      ≡ accepted codec validate
          (below (last_seen (pos 0) (received codec validate connections (pos 0))) log)
received-RunLog codec validate client identifier filter s bus log connections fresh o p r h =
    let in_order : InOrder (pos 0) log = RunLog-InOrder (pos 0) r o in
    received_complete codec validate connections log in_order (
      AllStream-AllFollow codec validate client filter s identifier bus log fresh p r in_order
        connections (pos 0) h)
