-- ===== src/Stream/File/Reading.antt =====
-- The lines that the loop of internal/stream/file.go reads from a file that is still being written.
use etos_api.Prelude.{true, false, List, [], ◌∷◌, ◌++◌, Text, append_assoc, ◌≡◌, refl, ap, ◌∙◌}
use etos_api.Stream.File.{
  ReadLine, chunk, eof, ReadEvent, event_line, at_eof, failed, read_event, Select,
}

-- The lines that the rounds read: a tick at the end of the file reads none.
abbrev pub line_of : (List ReadLine → List Text) → ReadEvent → List Text
line_of rest (event_line line reader) = line ∷ rest reader
line_of rest (at_eof reader) = rest reader
line_of rest failed = []

unfoldable pub lines_read : List Select → List ReadLine → List Text
lines_read [] reader = []
lines_read (choice ∷ choices) reader = line_of (lines_read choices) (read_event [] reader)

-- What the file has for a tick: a line, in the parts that fill the reader's buffer and the last one,
-- or the end of the file, behind some such parts of a line that is being written. The reader takes what
-- does not fill its buffer in front of the end of the file for a line.
pub data Arrival : Type 0 where
  line : (parts : List Text) (last : Text) → Arrival
  unfinished : (parts : List Text) → Arrival

-- The results of `ReadLine` for the parts of a line that is longer than the reader's buffer.
abbrev pub parts_of : List Text → List ReadLine → List ReadLine
parts_of [] rest = rest
parts_of (part ∷ parts) rest = chunk part true ∷ parts_of parts rest

-- The buffered reader over such a file.
unfoldable pub reader_of : List Arrival → List ReadLine
reader_of [] = []
reader_of (line parts last ∷ file) = parts_of parts (chunk last false ∷ reader_of file)
reader_of (unfinished parts ∷ file) = parts_of parts (eof ∷ reader_of file)

-- The lines of the file, whole.
unfoldable pub whole : List Text → Text → Text
whole [] last = last
whole (part ∷ parts) last = part ++ whole parts last

unfoldable pub lines_of : List Arrival → List Text
lines_of [] = []
lines_of (line parts last ∷ file) = whole parts last ∷ lines_of file
lines_of (unfinished parts ∷ file) = lines_of file

-- The first arrivals, one for each of the choices.
unfoldable pub up_to : List Select → List Arrival → List Arrival
up_to [] file = []
up_to (choice ∷ choices) [] = []
up_to (choice ∷ choices) (arrival ∷ file) = arrival ∷ up_to choices file

read_event-line :
    (parts : List Text) (event last : Text) (rest : List ReadLine)
    → read_event event (parts_of parts (chunk last false ∷ rest))
      ≡ event_line (event ++ whole parts last) rest
unfolding read_event whole
read_event-line [] event last rest = refl
read_event-line (part ∷ parts) event last rest =
    read_event-line parts (event ++ part) last rest
    ∙ ap (λ (t : Text). event_line t rest) (append_assoc event part (whole parts last))

pub read_event-parts :
    (parts : List Text) (event : Text) (rest : List ReadLine)
    → read_event event (parts_of parts (eof ∷ rest)) ≡ at_eof rest
unfolding read_event
read_event-parts [] event rest = refl
read_event-parts (part ∷ parts) event rest = read_event-parts parts (event ++ part) rest

read_none : (choices : List Select) → lines_read choices [] ≡ []
unfolding lines_read read_event
read_none [] = refl
read_none (choice ∷ choices) = read_none choices

-- The loop reads the lines of the file.
pub lines_read-file :
    (choices : List Select) (file : List Arrival)
    → lines_read choices (reader_of file) ≡ lines_of (up_to choices file)
unfolding lines_read reader_of lines_of up_to
lines_read-file [] file = refl
lines_read-file (choice ∷ choices) [] = read_none (choice ∷ choices)
lines_read-file (choice ∷ choices) (line parts last ∷ file) =
    ap (line_of (lines_read choices)) (read_event-line parts [] last (reader_of file))
    ∙ ap (λ (ls : List Text). whole parts last ∷ ls) (lines_read-file choices file)
lines_read-file (choice ∷ choices) (unfinished parts ∷ file) =
    ap (line_of (lines_read choices)) (read_event-parts parts [] (reader_of file))
    ∙ lines_read-file choices file
