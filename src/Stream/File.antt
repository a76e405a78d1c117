-- ===== src/Stream/File.antt =====
-- internal/stream/file.go: an event stream over a file, one event to a line. The buffered reader is
-- a parameter: the results of the calls of `ReadLine`, in order. A call beyond them finds the end of
-- the file.
pub mod Reading
pub mod Delivery
use etos_api.Prelude.{
  Bool, true, false, Option, none, some, List, [], ◌∷◌, ◌++◌, ltb_ℤ, Text, ℤ, pos, inc64, max_ℤ, ℕ,
  ◌==◌, if◌then◌else◌,
}
use etos_api.Stream.{Message, FirstOffset, first, empty_stream, query_failed}

-- What `ReadLine` returns: bytes of a line with `isPrefix`, `io.EOF`, or another error.
pub data ReadLine : Type 0 where
  chunk : Text → Bool → ReadLine
  eof : ReadLine
  read_error : ReadLine

pub record FileStream : Type 0 where
  pub has_channel : Bool
  pub start : ℤ
  pub position : ℤ

-- `NewStream`, where the file could be opened.
abbrev pub new_stream : FileStream
new_stream = record { has_channel = false; start = pos 0; position = pos 0 }

unfoldable pub with_channel : FileStream → FileStream
with_channel s = record s { has_channel = true }

unfoldable pub with_offset : ℤ → FileStream → FileStream
with_offset offset s =
    let start = max_ℤ offset (pos 0) in record s { start = start; position = start }

-- The file stream warns that filters are not supported.
unfoldable pub with_filter : List Text → FileStream → FileStream
with_filter filter s = s

-- The loop over `ReadLine` of one tick: the event, or why there is none, and the reader's rest.
pub data ReadEvent : Type 0 where
  event_line : Text → List ReadLine → ReadEvent
  at_eof : List ReadLine → ReadEvent
  failed : ReadEvent

unfoldable pub read_event : Text → List ReadLine → ReadEvent
read_event event [] = at_eof []
read_event event (chunk line true ∷ reader) = read_event (event ++ line) reader
read_event event (chunk line false ∷ reader) = event_line (event ++ line) reader
read_event event (eof ∷ reader) = at_eof reader
read_event event (read_error ∷ reader) = failed

-- The variables of the goroutine of `Consume`.
pub record Consuming : Type 0 where
  pub stream : FileStream
  pub offset : ℤ
  pub reader : List ReadLine

-- One round: it goes on, with what it sent on the channel, or it returns, with the error that it
-- puts on `closed`, if any. Then `closed` is closed.
pub data Round : Type 0 where
  goes_on : Option Message → Consuming → Round
  context_error : Round
  reading_error : Round
  cancelled : Round

-- The case of the `select` that is taken. `ready` says whether the receiver takes a message before
-- the context is done.
pub data Select : Type 0 where
  done : Select
  tick : (ready : Bool) → Select

-- The part of a round behind the reading, for an event whose offset is the number of those before.
abbrev pub deliver : Bool → Text → List ReadLine → Consuming → Round
deliver ready event reader c =
    let counted = inc64 c.offset in
    let moved : Consuming = record {
      stream = record c.stream { position = counted };
      offset = counted;
      reader = reader;
    } in
    if ltb_ℤ c.offset c.stream.start
    then goes_on none (record c { offset = counted; reader = reader })
    else if c.stream.has_channel
    then (if ready
        then goes_on (some (record { offset = c.offset; data_bytes = event })) moved
        else cancelled)
    else goes_on none moved

unfoldable pub round : Select → Consuming → Round
unfolding read_event
round done c = context_error
round (tick ready) c = elim (read_event [] c.reader) [
  | event_line event reader ↦ deliver ready event reader c
  | at_eof reader ↦ goes_on none (record c { reader = reader })
  | failed ↦ reading_error
]

-- `FirstOffset`, from the size that `os.Stat` gives, if it does.
unfoldable pub first_offset : Option ℕ → FirstOffset
first_offset none = query_failed
first_offset (some size) = if size == 0 then empty_stream else first (pos 0)

abbrev pub prepend : Option Message → List Message → List Message
prepend none ms = ms
prepend (some m) ms = m ∷ ms

-- How the loop goes on after a round.
abbrev pub go_on :
    (Consuming → List Message × Option Consuming) → Round → List Message × Option Consuming
go_on rest (goes_on sent c) = let (later, end) = rest c in (prepend sent later, end)
go_on rest context_error = ([], none)
go_on rest reading_error = ([], none)
go_on rest cancelled = ([], none)

-- The rounds of the loop: what is sent on the channel, and the state in which the loop still runs.
unfoldable pub rounds : List Select → Consuming → List Message × Option Consuming
rounds [] c = ([], some c)
rounds (choice ∷ choices) c = go_on (rounds choices) (round choice c)
