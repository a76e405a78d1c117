-- ===== src/Iut/Tests.antt =====
-- The IUT handlers on a store in memory, where an identity is a number.
use etos_api.Prelude.{
  ℕ, ◌≡◌, refl, arith, true, false, Option, none, some, List, [], Text, codes, pos, text_eq,
}
use etos_api.Database.{Etcd, World, write, delete, request, key, open_id}
use etos_api.Database.Memory.{memory, short_uuids}
use etos_api.Space.{Codec}
use etos_api.Space.Serial.{codec, list_of, number}
use etos_api.Iut.{Identifier, StartRequest, copies, start, status, stop}
use etos_api.Iut.Cycle.{status_of_start, status_of_stop}

abbrev client : Etcd
client = record { id = 0; tree_prefix = []; data_bytes = []; has_read = false }

abbrev numbers : Codec (List ℕ)
numbers = codec (list_of number)

abbrev five : Text → Option ℕ
five t = some 5

abbrev run : Identifier
run = record { id = 7; parsed = true }

abbrev two : StartRequest
two = record { minimum_amount = pos 2; artifact_identity = codes "pkg" }

abbrev empty : World memory
empty = record { store = []; answers = [] }

abbrev started : World memory
started = (start memory short_uuids client ℕ five numbers run (some two) empty).1

abbrev stopped : World memory
stopped = (stop memory short_uuids client run started).1

status_of_start_example :
    (r : StartRequest) × (n : ℕ) × (purl : ℕ) × (some two ≡ some r)
    × (r.minimum_amount ≡ pos n)
    × (five r.artifact_identity ≡ some purl)
    × (status memory short_uuids client ℕ five numbers run started ≡ (200, some (copies n purl)))
unfolding start write request key open_id copies
status_of_start_example =
    status_of_start memory short_uuids client ℕ five numbers run (some two) empty started refl refl
      refl

status_of_stop_example : status memory short_uuids client ℕ five numbers run stopped ≡ (500, none)
unfolding start stop delete write request key open_id copies text_eq
status_of_stop_example =
    status_of_stop memory short_uuids client ℕ five numbers run started stopped (omega arith) refl
      refl refl
