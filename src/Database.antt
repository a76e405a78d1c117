-- ===== src/Database.antt =====
-- internal/database/etcd/etcd.go: values under the key of a UUID. The etcd service, its client and
-- `uuid.UUID` are parameters; a UUID is the number of its 128 bits and `uuid.Nil` is 0.
pub mod Reading
pub mod Memory
pub mod Tests
use etos_api.Prelude.{
  ℕ, ◌-◌, ◌≡◌, ◌≢◌, Bool, true, false, Option, none, some, List, [], ◌∷◌, ◌++◌, Text, codes, ◌==◌,
  is_empty, if◌then◌else◌,
}

pub data Error : Type 0 where
  eof : Error
  message : Text → Error

-- `Error()` of an error.
abbrev pub error_text : Error → Text
error_text eof = codes "EOF"
error_text (message t) = t

-- `errors.Join` of two errors.
abbrev pub joined : Error → Error → Error
joined a b = message (error_text a ++ b'\n' ∷ error_text b)

-- `uuid.UUID.String` and `uuid.Parse`.
pub record Uuids : Type 0 where
  pub show : ℕ → Text
  pub parse : Text → Option ℕ
  pub parse_show : (id : ℕ) → parse (show id) ≡ some id

-- The service: a map from keys to values.
pub record Kv : Type 1 where
  pub State : Type 0
  pub get : Text → State → Option Text
  pub put : Text → Text → State → State
  pub remove : Text → State → State
  pub get_put : (k v : Text) (s : State) → get k (put k v s) ≡ some v
  pub get_put_other : (k l v : Text) (s : State) → l ≢ k → get l (put k v s) ≡ get l s
  pub get_remove : (k : Text) (s : State) → get k (remove k s) ≡ none
  pub get_remove_other : (k l : Text) (s : State) → l ≢ k → get l (remove k s) ≡ get l s

-- How a request of the client ends: it is applied; it fails and was not applied; it fails although
-- it was applied.
pub data Answer : Type 0 where
  applied : Answer
  lost : Text → Answer
  unheard : Text → Answer

-- The answers to come; requests after the last one are applied.
abbrev pub first_answer : List Answer → Answer
first_answer [] = applied
first_answer (a ∷ answers) = a

abbrev pub later_answers : List Answer → List Answer
later_answers [] = []
later_answers (a ∷ answers) = answers

pub record Etcd : Type 0 where
  pub id : ℕ
  pub tree_prefix : Text
  pub data_bytes : Text
  pub has_read : Bool

-- `New`.
unfoldable pub new : Text → Etcd
new tree_prefix = record { id = 0; tree_prefix = tree_prefix; data_bytes = []; has_read = false }

-- `Open`: of the client it keeps the connection and the configuration only.
unfoldable pub open_id : Etcd → ℕ → Etcd
open_id etcd id = record { id = id; tree_prefix = []; data_bytes = []; has_read = false }

-- `copy`: the bytes that fit into a buffer, and those that do not.
unfoldable pub fitting : ℕ → Text → Text
fitting size [] = []
fitting size (b ∷ bytes) = if size == 0 then [] else b ∷ fitting (size - 1) bytes

unfoldable pub leftover : ℕ → Text → Text
leftover size [] = []
leftover size (b ∷ bytes) = if size == 0 then b ∷ bytes else leftover (size - 1) bytes

-- What one call of `Read` gives: bytes, or an error.
pub data ReadResult : Type 0 where
  bytes : Text → ReadResult
  failed : Error → ReadResult

module _ (kv : Kv) where
  pub record World : Type 0 where
    pub store : kv.State
    pub answers : List Answer

  abbrev pub moved_on : World → World
  moved_on w = record w { answers = later_answers w.answers }

  -- A request that changes the store, as `change` says.
  abbrev pub change_by : Answer → (kv.State → kv.State) → World → Option Error × World
  change_by applied change w = (none, record w { store = change w.store })
  change_by (lost t) change w = (some (message t), w)
  change_by (unheard t) change w = (some (message t), record w { store = change w.store })

  unfoldable pub request : (kv.State → kv.State) → World → Option Error × World
  request change w = change_by (first_answer w.answers) change (moved_on w)

  module _ (uuids : Uuids) where
    unfoldable pub key : Etcd → Text
    key etcd = etcd.tree_prefix ++ b'/' ∷ uuids.show etcd.id

    -- `Write`; the number of bytes that it returns is the length of `p` or 0.
    unfoldable pub write : Etcd → Text → World → Option Error × World
    write etcd p w =
        if etcd.id == 0
        then (some (message (codes "please create a new etcd client using Open")), w)
        else request (kv.put (key etcd) p) w

    -- `Delete`.
    unfoldable pub delete : Etcd → World → Option Error × World
    delete etcd w = request (kv.remove (key etcd)) w

    -- The end of `Read`, behind the request.
    unfoldable pub hand_out : ℕ → Etcd → ReadResult × Etcd
    unfolding fitting leftover
    hand_out size etcd =
        let rest = record etcd { data_bytes = leftover size etcd.data_bytes } in
        if is_empty etcd.data_bytes
        then (failed eof, etcd)
        else if is_empty (fitting size etcd.data_bytes)
        then (failed eof, rest)
        else (bytes (fitting size etcd.data_bytes), rest)

    abbrev fetched : Option Text → ℕ → Etcd → ReadResult × Etcd
    fetched none size etcd = (failed eof, etcd)
    fetched (some v) size etcd = hand_out size (record etcd { data_bytes = v; has_read = true })

    abbrev get_by : Answer → ℕ → Etcd → World → ReadResult × Etcd
    get_by applied size etcd w = fetched (kv.get (key etcd) w.store) size etcd
    get_by (lost t) size etcd w = (failed (message t), etcd)
    get_by (unheard t) size etcd w = (failed (message t), etcd)

    -- `Read` into a buffer of `size` bytes.
    unfoldable pub read : ℕ → Etcd → World → ReadResult × Etcd × World
    unfolding hand_out key
    read size etcd w =
        if etcd.id == 0
        then (failed (message (codes "please create a new etcd client using NewWithID")), etcd, w)
        else if etcd.has_read
        then (let (r, e) = hand_out size etcd in (r, e, w))
        else (let (r, e) = get_by (first_answer w.answers) size etcd w in (r, e, moved_on w))

    abbrev pub collect : ReadResult → Text × Option Error → Text × Option Error
    collect (failed error) more = ([], some error)
    collect (bytes p) (q, error) = (p ++ q, error)

    -- What a reader gets that calls `Read` with these buffers until it fails.
    unfoldable pub read_all : List ℕ → Etcd → World → Text × Option Error
    unfolding read
    read_all [] etcd w = ([], none)
    read_all (size ∷ sizes) etcd w =
        let (r, e, later) = read size etcd w in collect r (read_all sizes e later)
