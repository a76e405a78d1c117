-- ===== src/Sse/Tests/Bus.antt =====
-- A bus with two runs, and a client of one of them that connects twice.
use etos_api.Prelude.{
  Bool, true, false, Option, none, some, List, [], ◌∷◌, ◌≡◌, refl, inl, inr, arith, Text, codes, ℤ,
  pos, inc64, contains, text_eq,
}
use etos_api.Stream.{Message, first, offset_first}
use etos_api.Stream.Rabbit
use etos_api.Stream.Rabbit.{
  sprint, AmqpMessage, text, RabbitMqStream, event_name, property, handle_message, post_filter,
  new_stream, with_channel, with_offset, with_filter, opened,
}
use etos_api.Stream.Rabbit.Scoping.{Client, IsWanted, consume}
use etos_api.Events.{JsonCodec, new}
use etos_api.Sse.Log.{InOrder, from, below}
use etos_api.Sse.Resume.{resume_offset}
use etos_api.Sse.Subscribe.{Choice, done, message, Setup, accept, subscribe}
use etos_api.Sse.Subscribe.Account.{last_seen, forwarded_of, accepted}
use etos_api.Sse.Subscribe.Resuming.{received}
use etos_api.Sse.RunLog.{
  Bus, payloads, delivered, IsPublished, RunLog, at_end, wanted, unwanted, bus_from,
}
use etos_api.Sse.EndToEnd.{served, AllStream, loops, new_client, answered, received-RunLog}

-- A text is a log event of itself.
abbrev codec : JsonCodec
codec = record { Json = Text; unmarshal = λ t. some (pos 0, codes "log", t); marshal = λ t. some t }

abbrev valid : Text → Bool
valid t = true

abbrev invokes : Option (List Text) → (AmqpMessage → Bool) → AmqpMessage → Bool
invokes none p m = true
invokes (some names) p m = p m

abbrev exact_client : Client
exact_client = record {
  filter_value =
      λ m. event_name (sprint (property (codes "identifier") m.application_properties)) m;
  invokes = invokes;
  unfiltered = λ p m. refl;
  filtered = λ names p m h. h;
  keeps = λ names p m h k. k;
}

abbrev log_of : Text → Text → AmqpMessage
log_of run line = record {
  application_properties =
      (codes "identifier", text run)
      ∷ (codes "type", text (codes "log"))
      ∷ (codes "meta", text (codes "info"))
      ∷ [];
  sections = line ∷ [];
}

abbrev bus : Bus
bus =
    (pos 3, log_of (codes "run") (codes "a"))
    ∷ (pos 5, log_of (codes "other") (codes "x"))
    ∷ (pos 7, log_of (codes "run") (codes "b"))
    ∷ []

abbrev only_info : List Text
only_info = codes "run.log.info" ∷ []

abbrev fresh : RabbitMqStream
fresh = record {
  identifier = codes "run";
  options = record { offset = Rabbit.from_first; names = none };
  has_channel = false;
  filter = [];
  start = pos 0;
  consumer = none;
}

fresh-opened : new_stream (some true) (codes "run") ≡ opened fresh
unfolding new_stream
fresh-opened = refl

abbrev setup : Setup
setup = record {
  oldest = first (pos 3);
  consume_fails = false;
  oldest_again = first (pos 3);
  taken = true;
}

-- The first message was removed in between.
abbrev later_setup : Setup
later_setup = record {
  oldest = first (pos 4);
  consume_fails = false;
  oldest_again = first (pos 4);
  taken = true;
}

abbrev line : ℤ → Text → Message
line offset t = record { offset = offset; data_bytes = t }

-- The first connection ends behind the first line, the second reads the rest.
abbrev connections : List (Setup × List Choice)
connections =
    (setup, message (line (pos 3) (codes "a")) true ∷ done ∷ [])
    ∷ (later_setup, message (line (pos 7) (codes "b")) true ∷ [])
    ∷ []

abbrev run_log : List Message
run_log = line (pos 3) (codes "a") ∷ line (pos 7) (codes "b") ∷ []

all : Unit {0}
unfolding payloads delivered AllStream served bus_from handle_message post_filter property
    with_channel with_offset with_filter consume contains text_eq received subscribe accept new
    inc64 last_seen forwarded_of from resume_offset accepted below Rabbit.concat
all = tt

bus-InOrder : InOrder (pos 0) (payloads bus)
unfolding all
bus-InOrder =
    (3, refl, omega arith, refl, (5, refl, omega arith, refl, (7, refl, omega arith, refl, tt)))

line-IsWanted : (t : Text) → IsWanted (codes "run") only_info (log_of (codes "run") t)
unfolding all
line-IsWanted t = record { own = refl; named = inr (inl refl) }

bus-RunLog : RunLog (codes "run") only_info bus run_log
unfolding all
bus-RunLog =
    wanted (pos 3) _ (line-IsWanted (codes "a")) (λ e. cc)
      (unwanted (pos 5) _ (λ w full. absurd (cc (w.own)))
        (wanted (pos 7) _ (line-IsWanted (codes "b")) (λ e. cc) at_end))

connections-AllStream : AllStream codec valid exact_client only_info fresh bus connections (pos 0)
unfolding all
connections-AllStream = (
  loops offset_first (pos 3) refl (inl refl) (new_client refl refl) (refl, tt),
  (loops (pos 4) (pos 4) refl (inr refl) (answered (pos 4) refl refl refl) (refl, tt), tt),
)

bus-IsPublished : IsPublished exact_client (codes "run") bus
unfolding all
bus-IsPublished = ((λ e. refl), ((λ e. absurd (cc (e))), ((λ e. refl), tt)))

received-RunLog_example :
    forwarded_of (received codec valid connections (pos 0))
    ≡ accepted codec valid
        (below (last_seen (pos 0) (received codec valid connections (pos 0))) run_log)
received-RunLog_example =
    received-RunLog codec valid exact_client (codes "run") only_info fresh bus run_log connections
      fresh-opened bus-InOrder bus-IsPublished bus-RunLog connections-AllStream
