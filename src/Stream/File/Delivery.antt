-- ===== src/Stream/File/Delivery.antt =====
-- What the file stream of internal/stream/file.go delivers, and its position.
use etos_api.Prelude.{
  Bool, true, false, none, some, List, [], ◌∷◌, ltb_ℤ, Text, ℤ, pos, inc64, max_ℤ, max_int64, ℕ,
  ◌+◌, ◌≤◌, ◌<◌, ◌≡◌, refl, arith, length, if◌then◌else◌, sym, ap, ◌∙◌,
}
use mathlib.Core.Path.{subst}
use etos_api.Stream.{Message}
use etos_api.Stream.File.{
  ReadLine, eof, ReadEvent, event_line, at_eof, failed, read_event, new_stream, with_channel,
  with_offset, Consuming, Select, done, tick, round, Round, goes_on, cancelled, rounds, deliver,
  go_on,
}
use etos_api.Stream.File.Reading.{line_of, lines_read, parts_of, read_event-parts}

-- The lines as messages, numbered from `n`, without those below the start.
unfoldable pub numbered : ℤ → ℕ → List Text → List Message
numbered start n [] = []
numbered start n (line ∷ lines) =
    let rest = numbered start (n + 1) lines in
    if ltb_ℤ (pos n) start then rest else record { offset = pos n; data_bytes = line } ∷ rest

-- The loop has counted `n` lines of a stream with a channel.
abbrev pub counted : ℤ → ℕ → List ReadLine → Consuming
counted start n reader = record {
  stream = record { has_channel = true; start = start; position = max_ℤ start (pos n) };
  offset = pos n;
  reader = reader;
}

abbrev message : ℕ → Text → Message
message n line = record { offset = pos n; data_bytes = line }

inc64-pos : (n : ℕ) → n < max_int64 → inc64 (pos n) ≡ pos (n + 1)
unfolding inc64
inc64-pos n h = ground arith

deliver-counted :
    (start : ℤ) (n : ℕ) (ready : Bool) (line : Text) (reader before : List ReadLine)
    → n < max_int64
    → deliver ready line reader (counted start n before) ≡ (
        if ltb_ℤ (pos n) start
        then goes_on none (counted start (n + 1) reader)
        else if ready
        then goes_on (some (message n line)) (counted start (n + 1) reader)
        else cancelled)
deliver-counted start n ready line reader before h = rw (inc64-pos n h) (ground arith)

-- The loop that still runs has sent what it has read.
pub record Delivered (start : ℤ) (n : ℕ) (lines : List Text) (sent : List Message) (c : Consuming)
    : Type 0 where
  pub sent_all : sent ≡ numbered start n lines
  pub reader : List ReadLine
  pub reached : c ≡ counted start (n + length lines) reader

abbrev Keeps : ℤ → Consuming → List Select → ℕ → Type 0
Keeps start c choices m =
    (reader : List ReadLine)
    → (rounds choices (counted start m reader)).1 ≡ some c
    → Delivered start m (lines_read choices reader) (rounds choices (counted start m reader)).0 c

-- One line more, whether it is sent or lies below the start.
Delivered-cons :
    (start : ℤ) (n : ℕ) (line : Text) (lines : List Text) (sent : List Message) (c : Consuming)
    (below : Bool)
    → ltb_ℤ (pos n) start ≡ below
    → Delivered start (n + 1) lines sent c
    → Delivered start n (line ∷ lines) (if below then sent else message n line ∷ sent) c
unfolding numbered
Delivered-cons start n line lines sent c below e d = record {
  sent_all = ground (arith, e, d.sent_all);
  reader = d.reader;
  reached = d.reached ∙ ap (λ (m : ℕ). counted start m d.reader) (omega arith);
}

module _ (start : ℤ) (n : ℕ) (choices : List Select) (c : Consuming) where
  -- What a round must establish that has read the given lines.
  abbrev Goes : List Text → Round → Type 0
  Goes lines r =
      (go_on (rounds choices) r).1 ≡ some c → Delivered start n lines (go_on (rounds choices) r).0 c

  line_if :
      (ready below : Bool) (line : Text) (reader : List ReadLine)
      → ltb_ℤ (pos n) start ≡ below
      → Keeps start c choices (n + 1)
      → Goes (line ∷ lines_read choices reader) (
          if below
          then goes_on none (counted start (n + 1) reader)
          else if ready
          then goes_on (some (message n line)) (counted start (n + 1) reader)
          else cancelled)
  line_if ready true line reader low ih e = Delivered-cons start n line _ _ c true low (ih reader e)
  line_if true false line reader high ih e =
      Delivered-cons start n line _ _ c false high (ih reader e)
  line_if false false line reader high ih e = cc

  event_step :
      (ready : Bool) (before : List ReadLine) (ev : ReadEvent)
      → read_event [] before ≡ ev
      → n < max_int64
      → Keeps start c choices n
      → Keeps start c choices (n + 1)
      → Goes (line_of (lines_read choices) ev) (round (tick ready) (counted start n before))
  unfolding round
  event_step ready before (event_line line reader) shape fits same later =
      rw (shape, round)
        (subst (Goes (line ∷ lines_read choices reader))
          (sym (deliver-counted start n ready line reader before fits))
          (line_if ready (ltb_ℤ (pos n) start) line reader refl later))
  event_step ready before (at_eof reader) shape fits same later = rw (shape, round) (same reader)
  event_step ready before failed shape fits same later = rw (shape, round) (λ e. cc)

-- From a state that has counted `n` lines, the loop that still runs after some choices of the
-- `select` has sent exactly the lines that it has read and that do not lie below the start, in order
-- and numbered on from `n`, and its position is the number of lines read, or the start if that is
-- larger. A fixed bound on the number of lines keeps the offset from wrapping.
pub rounds-Delivered :
    (start : ℤ) (choices : List Select) (n : ℕ) (reader : List ReadLine) (c : Consuming)
    → n + length choices ≤ max_int64
    → (rounds choices (counted start n reader)).1 ≡ some c
    → Delivered start n (lines_read choices reader) (rounds choices (counted start n reader)).0 c
unfolding rounds lines_read numbered round
rounds-Delivered start [] n reader c fits e = record {
  sent_all = refl;
  reader = reader;
  reached = ground arith;
}
rounds-Delivered start (done ∷ choices) n reader c fits e = cc
rounds-Delivered start (tick ready ∷ choices) n reader c fits e =
    event_step start n choices c ready reader (read_event [] reader) refl (omega arith)
      (λ r. rounds-Delivered start choices n r c (omega arith))
      (λ r. rounds-Delivered start choices (n + 1) r c (omega arith)) e

-- The loop of a new stream that was given a channel and an offset.
unfoldable pub consuming : ℤ → List ReadLine → Consuming
unfolding with_channel with_offset
consuming offset reader = record {
  stream = with_offset offset (with_channel new_stream);
  offset = pos 0;
  reader = reader;
}

-- When the end of the file is met behind any number of parts of a long line, the round goes on with
-- the position and the offset unchanged and sends nothing, and the parts that were read are dropped:
-- the next round reads on behind them.
pub parts_at_eof_dropped :
    (ready : Bool) (parts : List Text) (rest : List ReadLine) (c : Consuming)
    → c.reader ≡ parts_of parts (eof ∷ rest)
    → round (tick ready) c ≡ goes_on none (record c { reader = rest })
unfolding round
parts_at_eof_dropped ready parts rest c e = ground (arith, read_event-parts parts [] rest, e)
