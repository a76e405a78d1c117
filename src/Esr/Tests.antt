-- ===== src/Esr/Tests.antt =====
-- The older SSE protocols on concrete logs.
use etos_api.Prelude.{
  ℕ, suc, zero, ◌≤◌, ◌≡◌, ◌↔◌, refl, inl, inr, arith, true, false, Option, none, some, List, [],
  ◌∷◌, ◌++◌, Text, codes, ℤ, pos, negsuc, drop, drop-nil, length, split, text_eq, sym, max_int64,
  inc64, dec64, ◌==◌, if◌then◌else◌,
}
use etos_api.Prelude.Decimal.{decimal, parse_int}
use etos_api.Space.{value}
use etos_api.Events.{Event, JsonCodec, new}
use etos_api.Esr.{Reply, failed, body, scan, drop_cr, atoi_error}
use etos_api.Esr.Logs.{
  Choice, ping, tick, number, subscribe, panicked, get_events, Situation, Receive, next, written,
  client_gone, message_at, named, slice_from, advance,
}
use etos_api.Esr.Logs.Delivery.{messages_of}
use etos_api.Esr.Logs.Bounds.{subscribe-panicked_iff, IsBelow, HasPoll}
use etos_api.Esr.Logs.Serving.{get_events-Numbered}
use etos_api.Esr.Feed as Feed
use etos_api.Esr.Feed.Delivery.{from_log, Answers}
use etos_api.Esr.Feed.Serving.{get_events-Follows}

scan_lines : scan (codes "a\r\nb\n\nc") ≡ codes "a" ∷ codes "b" ∷ [] ∷ codes "c" ∷ []
unfolding scan split drop_cr
scan_lines = refl

atoi_errors :
    (atoi_error (codes "9223372036854775808") ≡ pos 9223372036854775807)
    × (atoi_error (codes "-99999999999999999999x") ≡ negsuc 9223372036854775807)
    × (atoi_error (codes "12x") ≡ pos 0)
unfolding atoi_error
atoi_errors = (refl, refl, refl)

-- Three lines, polled when two are there and again when all are.
abbrev log : Text
log = codes "a\nb\nc\n"

abbrev choices : List Choice
choices = tick (body (codes "a\nb\n")) ∷ ping ∷ tick (failed false) ∷ tick (body log) ∷ []

abbrev receives : List Receive
receives = next written ∷ next written ∷ next written ∷ client_gone ∷ []

abbrev at_two : Situation
at_two = record {
  finished = false;
  address = value (codes "10.0.0.7");
  last_event_id = codes "2";
  can_flush = true;
  can_hijack = true;
}

few_lines : suc (length (scan log)) ≤ max_int64
unfolding scan split drop_cr
few_lines = omega arith

get_events-Numbered_example :
    (left : List Event) × (messages_of (
          message_at (pos 2) (codes "b")
          ∷ named (codes "ping")
          ∷ message_at (pos 3) (codes "c")
          ∷ [])
        ++ left
      ≡ number (pos 2) (drop 1 (scan log)))
unfolding get_events scan split drop_cr slice_from dec64 number advance inc64 parse_int decimal
    text_eq
get_events-Numbered_example =
    get_events-Numbered log 1 at_two choices receives (omega arith) few_lines
      (inr (inl (codes "a\nb", codes "c\n", refl, refl)), (tt, (tt, (inr (inr refl), tt)))) tt refl
      refl

subscribe-panicked_iff_example :
    ((subscribe (ping ∷ tick (body log) ∷ []) (pos 0)).1 ≡ panicked)
    ↔ (IsBelow (pos 0) × HasPoll (ping ∷ tick (body log) ∷ []))
subscribe-panicked_iff_example =
    subscribe-panicked_iff (pos 0) (ping ∷ tick (body log) ∷ []) (few_lines, tt)

-- Lines that begin with a letter are events; "?" is none.
abbrev unmarshal : Text → Option (ℤ × Text × Text)
unmarshal [] = none
unmarshal (c ∷ t) = if c == b'?' then none else some (pos 0, codes "log", c ∷ t)

abbrev codec : JsonCodec
codec = record { Json = Text; unmarshal = unmarshal; marshal = λ t. some t }

abbrev line_event : Text → Event
line_event t = record { id = pos 0; event = codes "log"; data_text = t }

-- The listener of the log "a", "b", for a request from a number on.
abbrev listener : ℤ → Reply
listener (pos zero) = body []
listener (pos (suc zero)) = body (codes "a\nb\n")
listener (pos (suc (suc zero))) = body (codes "b\n")
listener (pos (suc (suc (suc n)))) = body []
listener (negsuc n) = failed false

listener-Answers :
    (n : ℕ)
    → Answers codec
        (codes "a" ∷ codes "b" ∷ [])
        (drop n (codes "a" ∷ codes "b" ∷ []))
        (listener (pos (suc n)))
unfolding scan split drop_cr
listener-Answers zero = ([], refl)
listener-Answers (suc zero) = ([], refl)
listener-Answers (suc (suc n)) = ([], sym (drop-nil n))

abbrev feed_at_two : Feed.Situation
feed_at_two = record {
  finished = false;
  address = value (codes "10.0.0.7");
  last_event_id = codes "2";
  can_flush = true;
}

get_events-Follows_example :
    (left : List Event) × (from_log (Feed.pinged ∷ Feed.forwarded (line_event (codes "b")) ∷ [])
        ++ left
      ≡ Feed.events_in codec (drop 1 (codes "a" ∷ codes "b" ∷ [])))
unfolding Feed.get_events scan split drop_cr Feed.events_in Feed.forward Feed.advance inc64
    parse_int decimal new Feed.subscribe Feed.serve
get_events-Follows_example =
    get_events-Follows codec (codes "a" ∷ codes "b" ∷ []) 1 feed_at_two
      (Feed.ping ∷ Feed.tick listener ∷ []) (Feed.next true ∷ Feed.next true ∷ []) (omega arith)
      (omega arith) ((line_event (codes "a"), refl), ((line_event (codes "b"), refl), tt))
      (listener-Answers, tt) tt refl refl
