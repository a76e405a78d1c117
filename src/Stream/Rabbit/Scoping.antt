-- ===== src/Stream/Rabbit/Scoping.antt =====
-- Which messages a configured stream of internal/stream/rabbitmq.go passes on.
use etos_api.Prelude.{
  Bool, true, Option, none, some, List, [], ◌∷◌, ◌≡◌, ◌≢◌, ◌⊎◌, inl, inr, refl, arith, Text, codes,
  In, contains, contains_iff, text_eq_iff, text_eq_refl, ℤ, if◌then◌else◌,
}
use etos_api.Stream.{Message}
use etos_api.Stream.Rabbit.{
  AmqpMessage, RabbitMqStream, property, as_string, event_name, post_filter_for, opened, new_stream,
  with_channel, with_offset, with_filter, post_filter, concat, handle_message,
}

-- The stream client, as far as the code relies on it: whether it calls the handler for a message,
-- from the filter names and the post filter of the options. Without a filter every message is
-- passed on; with one, only what the post filter accepts, and no message is lost whose filter value
-- is one of the names and which the post filter accepts.
pub record Client : Type 0 where
  pub filter_value : AmqpMessage → Text
  pub invokes : Option (List Text) → (AmqpMessage → Bool) → AmqpMessage → Bool
  pub unfiltered : (p : AmqpMessage → Bool) (m : AmqpMessage) → invokes none p m ≡ true
  pub filtered :
      (names : List Text) (p : AmqpMessage → Bool) (m : AmqpMessage)
      → invokes (some names) p m ≡ true
      → p m ≡ true
  pub keeps :
      (names : List Text) (p : AmqpMessage → Bool) (m : AmqpMessage)
      → contains names (filter_value m) ≡ true
      → p m ≡ true
      → invokes (some names) p m ≡ true

-- What `Consume` sends on the channel for a message of the broker.
unfoldable pub consume : Client → RabbitMqStream → Bool → ℤ → AmqpMessage → Option Message
consume client s ready offset m =
    if client.invokes s.options.names (post_filter s) m
    then handle_message s ready offset m
    else none

-- The chain of calls by which a subscriber configures a new stream.
abbrev pub configure : ℤ → List Text → RabbitMqStream → RabbitMqStream
configure offset filter s = with_filter filter (with_offset offset (with_channel s))

-- The message belongs to the run, and the filter is empty or names its type and meta.
pub record IsWanted (identifier : Text) (filter : List Text) (m : AmqpMessage) : Type 0 where
  pub own : as_string (property (codes "identifier") m.application_properties) ≡ some identifier
  pub named : (filter ≡ []) ⊎ In (event_name identifier m) filter

abbrev names_for : List Text → Option (List Text)
names_for [] = none
names_for (f ∷ fs) = some (f ∷ fs)

-- What `NewStream` and the chain of calls have set when the consumer starts.
pub record IsConfigured (identifier : Text) (filter : List Text) (s : RabbitMqStream) : Type 0 where
  pub own : s.identifier ≡ identifier
  pub filtered : s.filter ≡ filter
  pub channel : s.has_channel ≡ true
  pub names : s.options.names ≡ names_for filter

pub configure-IsConfigured :
    (identifier : Text) (s : RabbitMqStream) (offset : ℤ) (filter : List Text)
    → new_stream (some true) identifier ≡ opened s
    → IsConfigured identifier filter (configure offset filter s)
unfolding new_stream with_channel with_offset with_filter
configure-IsConfigured identifier s offset [] e = ground arith
configure-IsConfigured identifier s offset (f ∷ fs) e = ground arith

post_filter_for_sound :
    (own : Option Text) (identifier : Text) (filter : List Text) (s : RabbitMqStream)
    (m : AmqpMessage)
    → IsConfigured identifier filter s
    → post_filter_for own s m ≡ true
    → (own ≡ some identifier) × ((filter ≡ []) ⊎ In (event_name identifier m) filter)
post_filter_for_sound none identifier filter s m c h = cc
post_filter_for_sound (some i) identifier [] s m c h =
    (ground (arith, text_eq_iff i s.identifier, c.own), inl refl)
post_filter_for_sound (some i) identifier (f ∷ fs) s m c h = (
  ground (arith, text_eq_iff i s.identifier, c.own),
  inr (
      (contains_iff (f ∷ fs) (event_name identifier m)).0
        (ground (arith, text_eq_iff i s.identifier, c.own, c.filtered))),
)

-- The post filter decides `IsWanted`.
post_filter_sound :
    (identifier : Text) (filter : List Text) (s : RabbitMqStream) (m : AmqpMessage)
    → IsConfigured identifier filter s
    → post_filter s m ≡ true
    → IsWanted identifier filter m
unfolding post_filter
post_filter_sound identifier filter s m c h =
    let (own, named) = post_filter_for_sound _ identifier filter s m c h in
    record { own = own; named = named }

post_filter_complete :
    (identifier : Text) (filter : List Text) (s : RabbitMqStream) (m : AmqpMessage)
    → IsConfigured identifier filter s
    → IsWanted identifier filter m
    → post_filter s m ≡ true
unfolding post_filter
post_filter_complete identifier filter s m c w = ground (
  arith,
  text_eq_refl identifier,
  contains_iff filter (event_name identifier m),
  c.own,
  c.filtered,
  w.own,
  w.named,
)

-- What is sent for a message that the stream accepts.
abbrev pub payload : ℤ → AmqpMessage → Message
payload offset m = record { offset = offset; data_bytes = concat m.sections }

consume_accepts :
    (client : Client) (filter : List Text) {s : RabbitMqStream} {identifier : Text} (ready : Bool)
    (offset : ℤ) (m : AmqpMessage) {sent : Message}
    → IsConfigured identifier filter s
    → consume client s ready offset m ≡ some sent
    → post_filter s m ≡ true
unfolding consume handle_message
consume_accepts client [] ready offset m c e = ground (arith, c.filtered)
consume_accepts client (f ∷ fs) {s} ready offset m c e =
    ground (arith, c.names, client.filtered (f ∷ fs) (post_filter s) m)

consume_sends :
    (client : Client) {s : RabbitMqStream} {identifier : Text} {filter : List Text} (ready : Bool)
    (offset : ℤ) (m : AmqpMessage) {sent : Message}
    → IsConfigured identifier filter s
    → consume client s ready offset m ≡ some sent
    → (m.sections ≢ []) × (payload offset m ≡ sent)
unfolding consume handle_message
consume_sends client ready offset m c e = (ground arith, ground arith)

consume_complete :
    (client : Client) (identifier : Text) (filter : List Text) {s : RabbitMqStream} (offset : ℤ)
    (m : AmqpMessage)
    → IsConfigured identifier filter s
    → client.filter_value m ≡ event_name identifier m
    → IsWanted identifier filter m
    → post_filter s m ≡ true
    → m.sections ≢ []
    → consume client s true offset m ≡ some (payload offset m)
unfolding consume handle_message
consume_complete client identifier [] {s} offset m c v w p n =
    ground (arith, c.filtered, c.channel, c.names, client.unfiltered (post_filter s) m)
consume_complete client identifier (f ∷ fs) {s} offset m c v w p n = ground (
  arith,
  c.filtered,
  c.channel,
  c.names,
  client.keeps (f ∷ fs) (post_filter s) m,
  contains_iff (f ∷ fs) (event_name identifier m),
  w.named,
)

-- A message that a configured stream sends on its channel belongs to the run of the stream, whatever
-- the filter names, and is named by the filter if that is not empty. It has data, and carries the
-- offset and the joined data sections of the broker's message.
pub consume-IsWanted :
    (client : Client) (identifier : Text) (filter : List Text) (from : ℤ) (s : RabbitMqStream)
    (ready : Bool) (offset : ℤ) (m : AmqpMessage) (sent : Message)
    → new_stream (some true) identifier ≡ opened s
    → consume client (configure from filter s) ready offset m ≡ some sent
    → IsWanted identifier filter m × (m.sections ≢ []) × (payload offset m ≡ sent)
consume-IsWanted client identifier filter from s ready offset m sent fresh e =
    let c = configure-IsConfigured identifier s from filter fresh in
    let (full, same) = consume_sends client ready offset m c e in
    (
      post_filter_sound identifier filter _ m c (consume_accepts client filter ready offset m c e),
      full,
      same,
    )

-- No message of the run is lost: one with data that the filter wants, and that was published with
-- its qualified name as filter value, is sent on the channel when the receiver takes it.
pub consume_of_IsWanted :
    (client : Client) (identifier : Text) (filter : List Text) (from : ℤ) (s : RabbitMqStream)
    (offset : ℤ) (m : AmqpMessage)
    → new_stream (some true) identifier ≡ opened s
    → client.filter_value m ≡ event_name identifier m
    → IsWanted identifier filter m
    → m.sections ≢ []
    → consume client (configure from filter s) true offset m ≡ some (payload offset m)
consume_of_IsWanted client identifier filter from s offset m fresh value wanted full =
    let c = configure-IsConfigured identifier s from filter fresh in
    consume_complete client identifier filter offset m c value wanted
      (post_filter_complete identifier filter _ m c wanted) full
