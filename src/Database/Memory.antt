-- ===== src/Database/Memory.antt =====
-- A store and UUIDs in memory, on which the tests of internal/database/etcd run.
use etos_api.Prelude.{
  ℕ, ◌≡◌, ◌≢◌, refl, arith, Option, none, some, List, [], ◌∷◌, Text, text_eq, text_eq_iff,
  text_eq_refl, if◌then◌else◌,
}
use etos_api.Database.{Uuids, Kv}

abbrev Memory : Type 0
Memory = List (Text × Text)

abbrev pub find : Text → Memory → Option Text
find k [] = none
find k ((l, v) ∷ m) = let rest = find k m in if text_eq l k then some v else rest

abbrev pub drop_key : Text → Memory → Memory
drop_key k [] = []
drop_key k ((l, v) ∷ m) = let rest = drop_key k m in if text_eq l k then rest else (l, v) ∷ rest

pub find-drop_key : (k : Text) (m : Memory) → find k (drop_key k m) ≡ none
find-drop_key k [] = refl
find-drop_key k ((l, v) ∷ m) = ground (arith, find-drop_key k m)

pub find-drop_key_other : (k l : Text) (m : Memory) → l ≢ k → find l (drop_key k m) ≡ find l m
find-drop_key_other k l [] h = refl
find-drop_key_other k l ((x, v) ∷ m) h =
    ground (arith, find-drop_key_other k l m h, text_eq_iff x k, text_eq_iff x l)

abbrev put : Text → Text → Memory → Memory
put k v m = (k, v) ∷ m

pub find-put : (k v : Text) (m : Memory) → find k (put k v m) ≡ some v
find-put k v m = ground (arith, text_eq_refl k)

pub find-put_other : (k l v : Text) (m : Memory) → l ≢ k → find l (put k v m) ≡ find l m
find-put_other k l v m h = ground (arith, text_eq_iff k l)

abbrev pub memory : Kv
memory = record {
  State = Memory;
  get = find;
  put = put;
  remove = drop_key;
  get_put = find-put;
  get_put_other = find-put_other;
  get_remove = find-drop_key;
  get_remove_other = find-drop_key_other;
}

abbrev parse : Text → Option ℕ
parse [] = none
parse (n ∷ []) = some n
parse (n ∷ m ∷ t) = none

-- A UUID as a text of one symbol.
abbrev pub short_uuids : Uuids
short_uuids = record { show = λ n. n ∷ []; parse = parse; parse_show = λ n. refl }
