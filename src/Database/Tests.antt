-- ===== src/Database/Tests.antt =====
-- The database on concrete values.
use etos_api.Prelude.{ℕ, ◌≡◌, refl, arith, some, List, [], ◌∷◌, codes, text_eq}
use etos_api.Database.{key, eof, new, open_id, World, read_all}
use etos_api.Database.Memory.{memory, short_uuids}
use etos_api.Database.Reading.{read_all_lem}

abbrev stored : World memory
stored = record { store = ((b'/' ∷ 7 ∷ []), codes "value") ∷ []; answers = [] }

abbrev buffers : List ℕ
buffers = 2 ∷ 2 ∷ 9 ∷ 9 ∷ 9 ∷ 9 ∷ []

in_pieces :
    read_all memory short_uuids (2 ∷ 2 ∷ 2 ∷ 2 ∷ []) (open_id (new (codes "/p")) 7) stored
    ≡ (codes "value", some eof)
unfolding read_all open_id new text_eq key
in_pieces = refl

read_all_lem_example :
    read_all memory short_uuids buffers (open_id (new (codes "/p")) 7) stored
    ≡ (codes "value", some eof)
unfolding text_eq key open_id new
read_all_lem_example =
    read_all_lem memory short_uuids (new (codes "/p")) 7 buffers (codes "value") stored
      (omega arith) refl refl
      (omega arith, (omega arith, (omega arith, (omega arith, (omega arith, (omega arith, tt))))))
      (omega arith)
