-- ===== src/Events/Wire.antt =====
-- The wire format of pkg/events/events.go, against a reader of server-sent events: fields to the
-- lines, and a blank line that ends the event.
use etos_api.Prelude.{
  ℕ, zero, suc, ◌≤◌, false, Option, none, some, List, [], ◌∷◌, ◌++◌, ◌≡◌, ◌≢◌, refl, sym, ap, ◌∙◌,
  append_assoc, arith, Text, codes, Lacks, split, All, ℤ, pos, max_int64, ◌==◌, if◌then◌else◌,
}
use etos_api.Prelude.Split.{split-append, split-ne-nil, Lacks-append}
use etos_api.Prelude.Decimal.{decimal, signed_decimal, parse_int, parse_int-decimal, decimal-Lacks}
use etos_api.Events.{Event, write, id_line, event_line, data_line}

-- What follows the prefix, if the text begins with it.
unfoldable pub after : Text → Text → Option Text
after [] t = some t
after (c ∷ prefix) [] = none
after (c ∷ prefix) (d ∷ t) = let rest = after prefix t in if d == c then rest else none

abbrev with_id : Event → Option ℤ → Event
with_id e none = e
with_id e (some id) = record e { id = id }

-- One line of an event, which is an id, a name, or data; other lines are ignored.
unfoldable pub read_line : Event → Text → Event
unfolding after
read_line e line = elim (after (codes "id: ") line) [
  | some value ↦ with_id e (parse_int value)
  | none ↦ elim (after (codes "event: ") line) [
    | some value ↦ record e { event = value }
    | none ↦ elim (after (codes "data: ") line) [
      | some value ↦ record e { data_text = value }
      | none ↦ e
    ]
  ]
]

abbrev pub no_event : Event
no_event = record { id = pos 0; event = []; data_text = [] }

-- The events of the lines. The last part of a split text is no line yet.
unfoldable pub read_lines : Event → List Text → List Event
read_lines e [] = []
read_lines e (line ∷ []) = []
read_lines e ([] ∷ next ∷ lines) = e ∷ read_lines no_event (next ∷ lines)
read_lines e ((c ∷ line) ∷ next ∷ lines) = read_lines (read_line e (c ∷ line)) (next ∷ lines)

unfoldable pub read : Text → List Event
read t = read_lines no_event (split b'\n' t)

unfoldable pub write_all : List Event → Text
write_all [] = []
write_all (e ∷ es) = write e ++ write_all es

read_lines-cons :
    (e : Event) (c : ℕ) (line : Text) (lines : List Text)
    → lines ≢ []
    → read_lines e ((c ∷ line) ∷ lines) ≡ read_lines (read_line e (c ∷ line)) lines
unfolding read_lines
read_lines-cons e c line [] h = absurd (h refl)
read_lines-cons e c line (next ∷ lines) h = refl

read_lines-blank :
    (e : Event) (lines : List Text)
    → lines ≢ []
    → read_lines e ([] ∷ lines) ≡ e ∷ read_lines no_event lines
unfolding read_lines
read_lines-blank e [] h = absurd (h refl)
read_lines-blank e (next ∷ lines) h = refl

-- A line is read before the lines that follow it.
read-line :
    (e : Event) (c : ℕ) (line rest : Text)
    → Lacks b'\n' (c ∷ line)
    → read_lines e (split b'\n' ((c ∷ line) ++ b'\n' ∷ rest))
      ≡ read_lines (read_line e (c ∷ line)) (split b'\n' rest)
read-line e c line rest h =
    ap (read_lines e) (split-append b'\n' (c ∷ line) rest h)
    ∙ read_lines-cons e c line (split b'\n' rest) (split-ne-nil b'\n' rest)

line-append : (p v rest : Text) → (p ++ (v ++ codes "\n")) ++ rest ≡ (p ++ v) ++ b'\n' ∷ rest
line-append p v rest = simp append_assoc

read_line-id :
    (e : Event) (n : ℕ)
    → n ≤ max_int64
    → read_line e (codes "id: " ++ decimal n) ≡ record e { id = pos n }
unfolding read_line
read_line-id e n h = rw (parse_int-decimal n h)

id_line-suc : (n : ℕ) → id_line (pos (suc n)) ≡ codes "id: " ++ (decimal (suc n) ++ codes "\n")
unfolding id_line signed_decimal
id_line-suc n = let given : (suc n == 0) ≡ false = ground arith in rw given

read-id_line :
    (n : ℕ) (rest : Text)
    → n ≤ max_int64
    → read_lines no_event (split b'\n' (id_line (pos n) ++ rest))
      ≡ read_lines (record no_event { id = pos n }) (split b'\n' rest)
read-id_line zero rest h = unfold id_line in refl
read-id_line (suc n) rest h =
    ap (λ (t : Text). read_lines no_event (split b'\n' t))
      (ap (λ (t : Text). t ++ rest) (id_line-suc n)
        ∙ line-append (codes "id: ") (decimal (suc n)) rest)
    ∙ read-line no_event b'i' (codes "d: " ++ decimal (suc n)) rest (
        Lacks-append b'\n' (codes "id: ") (decimal (suc n)) (omega arith)
          (decimal-Lacks b'\n' (suc n) (omega arith)))
    ∙ ap (λ (e : Event). read_lines e (split b'\n' rest)) (read_line-id no_event (suc n) h)

abbrev with_event : Event → Text → Event
with_event e name = record e { event = name }

read-event_line :
    (e : Event) (name rest : Text)
    → e.event ≡ []
    → Lacks b'\n' name
    → read_lines e (split b'\n' (event_line name ++ rest))
      ≡ read_lines (with_event e name) (split b'\n' rest)
unfolding event_line
read-event_line e [] rest unset h =
    ap (λ (name : Text). read_lines (with_event e name) (split b'\n' rest)) unset
read-event_line e (c ∷ name) rest unset h =
    ap (λ (t : Text). read_lines e (split b'\n' t)) (line-append (codes "event: ") (c ∷ name) rest)
    ∙ read-line e b'e' (codes "vent: " ++ c ∷ name) rest
        (Lacks-append b'\n' (codes "event: ") (c ∷ name) (omega arith) h)
    ∙ unfold read_line in refl

read-data_line :
    (e : Event) (value rest : Text)
    → Lacks b'\n' value
    → read_lines e (split b'\n' (data_line value ++ rest))
      ≡ record e { data_text = value } ∷ read_lines no_event (split b'\n' rest)
unfolding data_line
read-data_line e value rest h =
    ap (λ (t : Text). read_lines e (split b'\n' t)) (simp append_assoc)
    ∙ read-line e b'd' (codes "ata: " ++ value) (b'\n' ∷ rest)
        (Lacks-append b'\n' (codes "data: ") value (omega arith) h)
    ∙ ap (read_lines _) (split-append b'\n' [] rest tt)
    ∙ read_lines-blank _ (split b'\n' rest) (split-ne-nil b'\n' rest)
    ∙ unfold read_line in refl

-- The id is a number of 64 bits that is not negative, and no field holds a line break.
pub record IsPlain (e : Event) : Type 0 where
  pub number : ℕ
  pub id : e.id ≡ pos number
  pub in_range : number ≤ max_int64
  pub event : Lacks b'\n' e.event
  pub data_text : Lacks b'\n' e.data_text

write-append :
    (e : Event) (rest : Text)
    → write e ++ rest ≡ id_line e.id ++ (event_line e.event ++ (data_line e.data_text ++ rest))
unfolding write
write-append e rest = simp append_assoc

read-write_append :
    (e : Event) (rest : Text)
    → IsPlain e
    → read_lines no_event (split b'\n' (write e ++ rest))
      ≡ e ∷ read_lines no_event (split b'\n' rest)
read-write_append e rest h =
    ap (λ (t : Text). read_lines no_event (split b'\n' t)) (write-append e rest)
    ∙ ap (λ (id : ℤ). read_lines no_event (split b'\n' (id_line id ++ more))) h.id
    ∙ read-id_line h.number more h.in_range
    ∙ read-event_line _ e.event (data_line e.data_text ++ rest) refl h.event
    ∙ read-data_line _ e.data_text rest h.data_text
    ∙ ap (λ (id : ℤ). record e { id = id } ∷ read_lines no_event (split b'\n' rest)) (sym h.id)
  where
    more : Text
    more = event_line e.event ++ (data_line e.data_text ++ rest)

-- A client that reads what was written for any number of events gets these events, in order, if their
-- ids are not negative and at most the largest int64, and their names and data hold no line break.
pub read-write_all : (es : List Event) → All IsPlain es → read (write_all es) ≡ es
unfolding read write_all
read-write_all [] h = unfold split read_lines in refl
read-write_all (e ∷ es) (p, h) =
    read-write_append e (write_all es) p ∙ ap (λ (r : List Event). e ∷ r) (read-write_all es h)
