-- ===== src/Stream/Tests.antt =====
-- The streams on concrete messages.
use etos_api.Prelude.{
  ◌⊎◌, Bool, true, false, Option, none, some, List, [], ◌∷◌, ◌≡◌, ◌≢◌, refl, inl, inr, Text, codes,
  ℤ, pos, contains, text_eq, inc64,
}
use etos_api.Stream.{offset_first}
use etos_api.Stream.Rabbit
use etos_api.Stream.Rabbit.{
  AmqpMessage, text, other, RabbitMqStream, event_name, property, handle_message, post_filter,
  new_stream, with_channel, with_offset, with_filter, opened, position,
}
use etos_api.Stream.Rabbit.Scoping.{
  Client, IsWanted, configure, consume, payload, consume-IsWanted, consume_of_IsWanted,
}
use etos_api.Stream.Rabbit.Consuming
use etos_api.Stream.Rabbit.Position.{position-handled}
use etos_api.Stream.File
use etos_api.Stream.File.{chunk, eof, tick, rounds, round}
use etos_api.Stream.File.Reading.{Arrival, line, unfinished, reader_of, whole, lines_of, up_to}
use etos_api.Stream.File.Delivery.{consuming}

-- A client that applies the options exactly.
abbrev invokes : Option (List Text) → (AmqpMessage → Bool) → AmqpMessage → Bool
invokes none p m = true
invokes (some names) p m = p m

abbrev exact_client : Client
exact_client = record {
  filter_value = event_name (codes "run-a");
  invokes = invokes;
  unfiltered = λ p m. refl;
  filtered = λ names p m h. h;
  keeps = λ names p m h k. k;
}

abbrev log_of : Text → Text → AmqpMessage
log_of run level = record {
  application_properties =
      (codes "identifier", text run)
      ∷ (codes "type", text (codes "log"))
      ∷ (codes "meta", text level)
      ∷ [];
  sections = codes "{}" ∷ [];
}

abbrev fresh : RabbitMqStream
fresh = record {
  identifier = codes "run-a";
  options = record { offset = Rabbit.from_first; names = none };
  has_channel = false;
  filter = [];
  start = pos 0;
  consumer = none;
}

fresh-opened : new_stream (some true) (codes "run-a") ≡ opened fresh
unfolding new_stream
fresh-opened = refl

abbrev only_info : List Text
only_info = codes "run-a.log.info" ∷ []

rabbit : Unit {0}
unfolding handle_message post_filter property with_channel with_offset with_filter consume contains
    text_eq
rabbit = tt

delivered :
    consume exact_client
      (configure offset_first only_info fresh)
      true
      (pos 42)
      (log_of (codes "run-a") (codes "info"))
    ≡ some (record { offset = pos 42; data_bytes = codes "{}" })
unfolding rabbit
delivered = refl

-- A filter that names another run does not reach its events.
not_delivered :
    consume exact_client
      (configure offset_first (codes "run-b.log.info" ∷ []) fresh)
      true
      (pos 42)
      (log_of (codes "run-b") (codes "info"))
    ≡ none
unfolding rabbit
not_delivered = refl

consume-IsWanted_example :
    IsWanted (codes "run-a") only_info (log_of (codes "run-a") (codes "info"))
    × (codes "{}" ∷ [] ≢ [])
    × (payload (pos 42) (log_of (codes "run-a") (codes "info"))
        ≡ record { offset = pos 42; data_bytes = codes "{}" })
consume-IsWanted_example =
    consume-IsWanted exact_client (codes "run-a") only_info offset_first fresh true (pos 42)
      (log_of (codes "run-a") (codes "info")) _ fresh-opened delivered

wanted : IsWanted (codes "run-a") only_info (log_of (codes "run-a") (codes "info"))
unfolding property text_eq
wanted = record { own = refl; named = inr (inl refl) }

consume_of_IsWanted_example :
    consume exact_client
      (configure offset_first only_info fresh)
      true
      (pos 42)
      (log_of (codes "run-a") (codes "info"))
    ≡ some (payload (pos 42) (log_of (codes "run-a") (codes "info")))
consume_of_IsWanted_example =
    consume_of_IsWanted exact_client (codes "run-a") only_info offset_first fresh (pos 42)
      (log_of (codes "run-a") (codes "info")) fresh-opened refl wanted (λ e. cc (e))

-- A consumer from offset 3 that has handled message 5 and is handling message 6.
abbrev at_offset : Option ℤ → Option ℤ → List ℤ → List ℤ → List ℤ → List ℤ → Consuming.Consuming
at_offset current handling coming filtered begun handled = record {
  stream = record fresh { start = pos 3; consumer = current };
  handling = handling;
  coming = coming;
  filtered = filtered;
  begun = begun;
  handled = handled;
}

abbrev started : Consuming.Consuming
started = at_offset (some (pos 0)) none (pos 4 ∷ pos 5 ∷ pos 6 ∷ pos 7 ∷ []) [] [] []

abbrev blocked : Consuming.Consuming
blocked =
    at_offset (some (pos 6)) (some (pos 6)) (pos 7 ∷ []) (pos 4 ∷ []) (pos 6 ∷ pos 5 ∷ [])
      (pos 5 ∷ [])

started-IsStarted : Consuming.IsStarted started
started-IsStarted = record {
  consumer = (pos 0, refl, refl);
  handling = refl;
  begun = refl;
  ordered = ((refl, (refl, (refl, tt))), ((refl, (refl, tt)), ((refl, tt), (tt, tt))));
  from_start = (refl, (refl, (refl, (refl, tt))));
}

-- The first message is filtered out, the second is handled, and the third waits for the receiver.
run_blocked : Consuming.Reach started blocked
run_blocked =
    Consuming.next
      (Consuming.next
        (Consuming.next (Consuming.next Consuming.here (Consuming.skip _ (pos 4) _ refl refl))
          (Consuming.begin _ (pos 5) _ refl refl))
        (Consuming.finish _ (pos 5) refl))
      (Consuming.begin _ (pos 6) _ refl refl)

position-handled_example :
    Consuming.Listed (pos 5) (pos 5 ∷ []) ⊎ Consuming.Listed (pos 5) (pos 4 ∷ [])
position-handled_example =
    position-handled started blocked (pos 5) started-IsStarted run_blocked (inr (inl refl))
      (unfold position in refl)

-- Two lines with a tick at the end of the file between them, consumed from offset 1.
abbrev arrivals : List Arrival
arrivals = line [] (codes "a") ∷ unfinished [] ∷ line (codes "b" ∷ []) (codes "c") ∷ []

abbrev reads : List File.ReadLine
reads = chunk (codes "a") false ∷ eof ∷ chunk (codes "b") true ∷ chunk (codes "c") false ∷ []

abbrev ticks : List File.Select
ticks = tick true ∷ tick true ∷ tick true ∷ []

file : Unit {0}
unfolding rounds round consuming reader_of whole lines_of up_to inc64
file = tt

file_lines :
    ((rounds ticks (consuming (pos 1) reads)).0
      ≡ record { offset = pos 1; data_bytes = codes "bc" } ∷ [])
    × (lines_of (up_to ticks arrivals) ≡ codes "a" ∷ codes "bc" ∷ [])
unfolding file
file_lines = (refl, refl)

abbrev read_all : File.Consuming
read_all = record {
  stream = record { has_channel = true; start = pos 1; position = pos 2 };
  offset = pos 2;
  reader = [];
}
