-- ===== src/Events.antt =====
-- pkg/events/events.go: the events of a stream, how they are read from JSON and written as
-- server-sent events. `encoding/json` is a parameter, for the two calls that the code makes.
pub mod Wire
pub mod Tests
use etos_api.Prelude.{
  Bool, true, false, Option, none, some, List, [], ◌∷◌, ◌++◌, Text, codes, ℤ, pos, negsuc, ◌==◌,
  is_empty, if◌then◌else◌,
}
use etos_api.Prelude.Decimal.{signed_decimal}

pub record Event : Type 0 where
  pub id : ℤ
  pub event : Text
  pub data_text : Text

-- `json.Unmarshal` into an `Event` gives its id, its name and the value of "data"; `json.Marshal`
-- gives the text of that value. `none` is an error.
pub record JsonCodec : Type 1 where
  pub Json : Type 0
  pub unmarshal : Text → Option (ℤ × Text × Json)
  pub marshal : Json → Option Text

abbrev named : ℤ → Text → Option Text → Option Event
named id event none = none
named id event (some t) = some (record { id = id; event = event; data_text = t })

-- `New`.
unfoldable pub new : JsonCodec → Text → Option Event
new codec bytes = elim (codec.unmarshal bytes) [
  | none ↦ none
  | some (id, event, value) ↦ named id event (codec.marshal value)
]

abbrev pub is_zero : ℤ → Bool
is_zero (pos n) = n == 0
is_zero (negsuc n) = false

-- The lines of `Write`; an id of 0 and an empty name are left out.
unfoldable pub id_line : ℤ → Text
id_line id = if is_zero id then [] else codes "id: " ++ (signed_decimal id ++ codes "\n")

unfoldable pub event_line : Text → Text
event_line event = if is_empty event then [] else codes "event: " ++ (event ++ codes "\n")

unfoldable pub data_line : Text → Text
data_line t = codes "data: " ++ (t ++ codes "\n\n")

-- `Write`: the bytes that are handed to the writer in one call.
unfoldable pub write : Event → Text
unfolding id_line event_line data_line
write e = id_line e.id ++ (event_line e.event ++ data_line e.data_text)
