-- ===== src/Stream.antt =====
-- internal/stream/stream.go: the messages of an event stream and the reserved offset. The two
-- implementations are the children `Rabbit` and `File`.
pub mod Rabbit
pub mod File
pub mod Tests
use etos_api.Prelude.{Text, ℤ, negsuc}

-- `OffsetFirst`: consume from the first message that is retained.
abbrev pub offset_first : ℤ
offset_first = negsuc 0

pub record Message : Type 0 where
  pub offset : ℤ
  pub data_bytes : Text

-- What `FirstOffset` returns: an offset, `ErrEmptyStream`, or another error.
pub data FirstOffset : Type 0 where
  first : ℤ → FirstOffset
  empty_stream : FirstOffset
  query_failed : FirstOffset
