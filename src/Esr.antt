-- ===== src/Esr.antt =====
-- pkg/sse/v1 and pkg/sse/v1alpha: the older SSE protocols, which poll the log listener of a suite
-- runner (ESR). Here is what both share: the lines of a response, the address that is polled, the
-- reading of Last-Event-ID. `Lines` has the laws of the scanner, `Logs` models v1alpha, `Feed` v1.
pub mod Lines
pub mod Address
pub mod Logs
pub mod Feed
pub mod Tests
use etos_api.Prelude.{
  ℕ, ◌+◌, ◌-◌, ◌*◌, ◌^◌, Bool, true, false, Option, none, some, List, [], ◌∷◌, ◌++◌, Text, codes,
  ltb, ◌==◌, split, is_empty, length, ℤ, pos, negsuc, max_int64, if◌then◌else◌, ◌&&◌,
}
use etos_api.Prelude.Decimal.{parse_int, is_digit}
use etos_api.Space.{Decoded, value, undecoded}

-- What a request to the listener meets: no response, with what `IsFinished` answers then, or the
-- bytes of the body up to its end or to an error, which `bufio.Scanner` does not tell apart.
pub data Reply : Type 0 where
  failed : (finished : Bool) → Reply
  body : Text → Reply

-- `bufio.MaxScanTokenSize`.
abbrev pub max_token : ℕ
max_token = 65536

-- `bufio.ScanLines` drops one carriage return at the end of a line.
unfoldable pub drop_cr : Text → Text
drop_cr [] = []
drop_cr (c ∷ []) = if c == 13 then [] else c ∷ []
drop_cr (c ∷ d ∷ s) = c ∷ drop_cr (d ∷ s)

-- Behind the last line break a line stands only if it has a byte.
unfoldable pub whole_lines : List Text → List Text
whole_lines [] = []
whole_lines (line ∷ []) = if is_empty line then [] else line ∷ []
whole_lines (line ∷ next ∷ lines) = line ∷ whole_lines (next ∷ lines)

-- The scanner stops for good at a line that does not fit its buffer.
unfoldable pub scanned : List Text → List Text
scanned [] = []
scanned (line ∷ lines) =
    let rest = scanned lines in if ltb (length line) max_token then drop_cr line ∷ rest else []

-- The tokens of `bufio.NewScanner` over a body whose end is read in a call of its own.
unfoldable pub scan : Text → List Text
unfolding scanned whole_lines
scan bytes = scanned (whole_lines (split b'\n' bytes))

-- `url` of both protocols, for the path of one: `none` is an error.
abbrev pub url_at : Text → Decoded Text → Option Text
url_at path (undecoded e) = none
url_at path (value []) = none
url_at path (value (c ∷ ip)) = some (codes "http://" ++ ((c ∷ ip) ++ (codes ":8000" ++ path)))

abbrev max_uint64 : ℕ
max_uint64 = 2 ^ 64 - 1

-- How `strconv.ParseUint` ends: a value, another byte, or a value that 64 bits cannot hold, which
-- ends the reading at once.
pub data Unsigned : Type 0 where
  number : ℕ → Unsigned
  bad_byte : Unsigned
  too_large : Unsigned

parse_uint : ℕ → Text → Unsigned
parse_uint n [] = number n
parse_uint n (c ∷ s) =
    let m = n * 10 + (c - b'0') in
    let rest = parse_uint m s in
    if is_digit c then if ltb max_uint64 m then too_large else rest else bad_byte

abbrev out_of_range : ℤ → Unsigned → ℤ
out_of_range limit bad_byte = pos 0
out_of_range limit (number n) = if ltb max_int64 n then limit else pos 0
out_of_range limit too_large = limit

-- The value that `strconv.Atoi` returns with an error: the nearest integer of 64 bits for a number
-- out of range, and else 0.
unfoldable pub atoi_error : Text → ℤ
unfolding parse_uint
atoi_error [] = pos 0
atoi_error (c ∷ s) =
    if c == b'-'
    then out_of_range (negsuc max_int64) (parse_uint 0 s)
    else if c == b'+'
    then out_of_range (pos max_int64) (parse_uint 0 s)
    else out_of_range (pos max_int64) (parse_uint 0 (c ∷ s))
