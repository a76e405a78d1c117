-- ===== src/Stream/Rabbit.antt =====
-- internal/stream/rabbitmq.go: the stream of one run (`identifier`) on the shared RabbitMQ stream.
-- The client library's consumer is a parameter: its current offset, and the order in which it
-- calls the handler. `ready` says which case of the `select` on a send was taken.
pub mod Scoping
pub mod Consuming
pub mod Position
use etos_api.Prelude.{
  ℕ, String, Bool, true, false, not, ◌&&◌, Option, none, some, List, [], ◌∷◌, ◌++◌, ltb_ℤ, Text,
  codes, text_eq, contains, ℤ, pos, max_ℤ, is_empty, if◌then◌else◌,
}
use etos_api.Stream.{Message, FirstOffset, first, empty_stream, query_failed}

-- A value of `ApplicationProperties`: a string, or another value with what `%s` prints for it.
pub data Property : Type 0 where
  text : Text → Property
  other : Text → Property

pub record AmqpMessage : Type 0 where
  pub application_properties : List (Text × Property)
  pub sections : List Text

-- A lookup in the map; `none` is the nil interface of a missing key.
unfoldable pub property : Text → List (Text × Property) → Option Property
property key [] = none
property key ((k, v) ∷ props) = if text_eq k key then some v else property key props

-- `ApplicationProperties[key].(string)`, with `none` for `!ok`.
abbrev pub as_string : Option Property → Option Text
as_string (some (text t)) = some t
as_string _ = none

-- `%s` of a property.
abbrev pub sprint : Option Property → Text
sprint none = codes "%!s(<nil>)"
sprint (some (text t)) = t
sprint (some (other t)) = t

pub data OffsetSpecification : Type 0 where
  from_first : OffsetSpecification
  from_offset : ℤ → OffsetSpecification

-- The client's consumer options that this code sets: the offset, and the names of the filter, whose
-- post filter is `postFilter` of the same stream.
pub record ConsumerOptions : Type 0 where
  pub offset : OffsetSpecification
  pub names : Option (List Text)

pub record RabbitMqStream : Type 0 where
  pub identifier : Text
  pub options : ConsumerOptions
  pub has_channel : Bool
  pub filter : List Text
  pub start : ℤ
  -- the current offset of the consumer, once `Consume` has made one
  pub consumer : Option ℤ

abbrev pub max_retries : ℕ
max_retries = 10

-- `NewRabbitMQStreamer`: the streamer of a stream, by its name, or an error. `connects` says whether
-- `retry.Do` has connected with at most that many retries.
unfoldable pub new_streamer : (connects : ℕ → Bool) → (stream_name : Text) → Option Text
new_streamer connects stream_name = if connects max_retries then some stream_name else none

-- `FirstOffset`, for the statistics of the stream, and the first offset in them.
unfoldable pub first_offset : Option (Option ℤ) → FirstOffset
first_offset none = query_failed
first_offset (some none) = empty_stream
first_offset (some (some offset)) = first offset

-- `NewStream`, where the broker said whether the stream exists.
pub data NewStream : Type 0 where
  broker_error : NewStream
  no_stream : NewStream
  opened : RabbitMqStream → NewStream

unfoldable pub new_stream : Option Bool → Text → NewStream
new_stream none name = broker_error
new_stream (some false) name = no_stream
new_stream (some true) name = opened (record {
  identifier = name;
  options = record { offset = from_first; names = none };
  has_channel = false;
  filter = [];
  start = pos 0;
  consumer = none;
})

unfoldable pub with_channel : RabbitMqStream → RabbitMqStream
with_channel s = record s { has_channel = true }

unfoldable pub with_offset : ℤ → RabbitMqStream → RabbitMqStream
with_offset offset s =
    if ltb_ℤ offset (pos 0)
    then record s { start = pos 0; options = record s.options { offset = from_first } }
    else record s { start = offset; options = record s.options { offset = from_offset offset } }

unfoldable pub with_filter : List Text → RabbitMqStream → RabbitMqStream
with_filter filter s =
    if is_empty filter
    then record s { filter = filter }
    else record s { filter = filter; options = record s.options { names = some filter } }

-- `fmt.Sprintf("%s.%s.%s", identifier, eventType, eventMeta)`.
abbrev pub qualified : Text → Text → Text → Text
qualified identifier event_type event_meta = identifier ++ b'.' ∷ (event_type ++ b'.' ∷ event_meta)

abbrev pub event_name : Text → AmqpMessage → Text
event_name identifier message =
    qualified identifier (sprint (property (codes "type") message.application_properties))
      (sprint (property (codes "meta") message.application_properties))

-- The part of `postFilter` behind the type assertion.
abbrev pub post_filter_for : Option Text → RabbitMqStream → AmqpMessage → Bool
post_filter_for none s message = false
post_filter_for (some identifier) s message =
    if text_eq identifier s.identifier
    then (if is_empty s.filter then true else contains s.filter (event_name identifier message))
    else false

unfoldable pub post_filter : RabbitMqStream → AmqpMessage → Bool
post_filter s message =
    post_filter_for (as_string (property (codes "identifier") message.application_properties)) s
      message

-- `bytes.Join(sections, nil)`.
unfoldable pub concat : List Text → Text
concat [] = []
concat (section ∷ sections) = section ++ concat sections

-- The message that is sent on the channel, if one is: `ready` is false when the context is done
-- before the receiver takes it. A stream without a channel logs the data.
unfoldable pub handle_message : RabbitMqStream → Bool → ℤ → AmqpMessage → Option Message
unfolding concat
handle_message s ready offset message =
    if is_empty s.filter && not (post_filter s message)
    then none
    else if is_empty message.sections
    then none
    else if s.has_channel && ready
    then some (record { offset = offset; data_bytes = concat message.sections })
    else none

-- `Position`, before and after `Consume`.
unfoldable pub position : RabbitMqStream → ℤ
position s = elim s.consumer [ none ↦ s.start | some current ↦ max_ℤ s.start current ]

-- `notifyClose`: the error that is forwarded, if the notification comes before the context is done
-- and the receiver takes it.
unfoldable pub notify_close {ℓ} : {E : Type ℓ} → Option E → Bool → Option E
notify_close none ready = none
notify_close (some event) ready = if ready then some event else none
