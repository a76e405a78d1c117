-- ===== src/Sse/Resume.antt =====
-- `resumeOffset` and the reading of Last-Event-ID, pkg/sse/v2alpha/sse.go.
use etos_api.Prelude.{
  Bool, true, false, Option, none, some, List, ◌≡◌, arith, ltb_ℤ, Text, codes, ℤ, pos, is_empty,
  if◌then◌else◌, ℕ, ◌≤◌, max_int64,
}
use etos_api.Prelude.Decimal.{decimal, parse_int, parse_int-decimal, decimal-ne-nil}
use etos_api.Sse.Log.{from, from-from}
use etos_api.Stream.{Message, FirstOffset, first, empty_stream, query_failed, offset_first}

abbrev pub reason_expired : Text
reason_expired = codes "events after the requested Last-Event-ID have expired from the event stream"

abbrev pub reason_unknown : Text
reason_unknown = codes "the requested Last-Event-ID is unknown to the event stream"

abbrev pub reason_query : Text
reason_query = codes "failed to query the event stream"

-- What `resumeOffset` returns: the offset with the empty reason, or `retry` with a reason.
pub data Resume : Type 0 where
  resume : ℤ → Resume
  refuse : (retry : Bool) (reason : Text) → Resume

-- The oldest offset is queried only for a positive id.
unfoldable pub resume_offset : FirstOffset → ℤ → Resume
resume_offset oldest last_id =
    if ltb_ℤ (pos 0) last_id
    then elim oldest [
      | empty_stream ↦ refuse false reason_unknown
      | query_failed ↦ refuse true reason_query
      | first offset ↦ if ltb_ℤ last_id offset then refuse false reason_expired else resume last_id
    ]
    else resume offset_first

-- The header's value, which is empty if it is not sent, as the last id: 0 if it is no number of 64
-- bits, or negative.
abbrev or_start : Option ℤ → ℤ
or_start none = pos 0
or_start (some id) = if ltb_ℤ id (pos 0) then pos 0 else id

unfoldable pub last_event_id : Text → ℤ
last_event_id header = if is_empty header then pos 0 else or_start (parse_int header)

-- Where a granted offset starts: the first message, for the reserved offset.
abbrev pub start_of : ℤ → ℤ
start_of offset = if ltb_ℤ offset (pos 0) then pos 0 else offset

-- A granted resumption loses nothing to retention: of all messages ever published, those from the
-- granted offset on are the same as those of them that are retained, from the oldest offset on.
pub resume_offset-lossless :
    (history : List Message) (oldest last_id offset : ℤ)
    → ltb_ℤ (pos 0) last_id ≡ true
    → resume_offset (first oldest) last_id ≡ resume offset
    → from (start_of offset) (from oldest history) ≡ from last_id history
unfolding resume_offset
resume_offset-lossless history oldest last_id offset h e =
    ground (arith, from-from history oldest last_id)

-- The id of a written event, sent back in the header, is read as that id.
pub last_event_id-decimal : (n : ℕ) → n ≤ max_int64 → last_event_id (decimal n) ≡ pos n
unfolding last_event_id
last_event_id-decimal n h = ground (arith, parse_int-decimal n h, decimal-ne-nil n)
