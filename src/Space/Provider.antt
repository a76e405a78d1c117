-- ===== src/Space/Provider.antt =====
-- internal/executionspace/provider/provider.go: `providerCore` over the database. `panics` is a
-- panic of the goroutine, which nothing recovers.
pub mod Outcome
pub mod Checkout
pub mod Answering
pub mod Success
pub mod Panics
use etos_api.Prelude.{
  ℕ, suc, zero, ◌+◌, ◌≡◌, Bool, true, false, Option, none, some, List, [], ◌∷◌, ◌++◌, Text, codes,
}
use etos_api.Database.{
  Error, eof, message, error_text, Answer, applied, lost, unheard, first_answer, Uuids, Kv, Etcd,
  open_id, World, moved_on, key,
}
use etos_api.Space.{
  Map, ExecutorSpec, ExecutionSpace, CheckoutStatus, done, failed, Decoded, value, undecoded, Codec,
  Common, new_executor_spec, new, add, save_spec, delete_spec, save_space, fail_space,
}

-- `uuid.New` for the executor in turn: its id and the identifier of its instructions.
abbrev pub FreshIds : Type 0
FreshIds = ℕ → ℕ × ℕ

pub record ExecutorConfig : Type 0 where
  pub amount : ℕ
  pub checkout_id : ℕ
  -- `none` is the nil map
  pub environment : Option Map
  pub common : Common

pub data Ended : Type 0 where
  returned panics : Ended

module _ (kv : Kv) (uuids : Uuids) (specs : Codec ExecutorSpec) (spaces : Codec ExecutionSpace)
    (db : Etcd) where
  -- A read of the whole value: the request and then the decoding.
  abbrev pub decoded_from {ℓ} : {A : Type ℓ} → Codec A → Option Text → Decoded A
  decoded_from codec none = undecoded eof
  decoded_from codec (some v) = codec.decode v

  abbrev pub load_by {ℓ} : {A : Type ℓ} → Codec A → Answer → ℕ → World kv → Decoded A
  load_by codec applied id w = decoded_from codec (kv.get (key kv uuids (open_id db id)) w.store)
  load_by codec (lost t) id w = undecoded (message t)
  load_by codec (unheard t) id w = undecoded (message t)

  -- `SaveExecutor`.
  unfoldable pub save_executor : ExecutorSpec → World kv → Option Error × World kv
  save_executor e w = save_spec kv uuids specs (open_id db e.id) e w

  -- `ExecutorSpec` and `ExecutionSpace`.
  unfoldable pub executor_spec : ℕ → World kv → Decoded ExecutorSpec × World kv
  executor_spec id w = (load_by specs (first_answer w.answers) id w, moved_on kv w)

  unfoldable pub execution_space : ℕ → World kv → Decoded ExecutionSpace × World kv
  execution_space id w = (load_by spaces (first_answer w.answers) id w, moved_on kv w)

  abbrev pub build_of : Decoded ExecutorSpec → Decoded Text
  build_of (undecoded error) = undecoded error
  build_of (value e) = value e.build_id

  -- `Job`.
  unfoldable pub job : ℕ → World kv → Decoded Text × World kv
  unfolding executor_spec
  job id w = let (spec, later) = executor_spec id w in (build_of spec, later)

  -- The end of `Checkout`, behind the loop. A panic: the code calls `Error` on what `Fail` returns
  -- whenever the write before it failed, and that is nil if `Fail` succeeds.
  abbrev pub after_fail : Option Error → Ended
  after_fail none = panics
  after_fail (some e) = returned

  abbrev pub finish_by : ExecutionSpace → Option Error × World kv → Ended × World kv
  finish_by space (none, w) = (returned, w)
  finish_by space (some e, w) =
      let (error, later) = fail_space kv uuids spaces (open_id db space.id) space e w in
      (after_fail error, later)

  abbrev pub checked_out : ExecutionSpace → ExecutionSpace
  checked_out space = record space {
    status = done;
    description = codes "Execution spaces checked out successfully";
  }

  unfoldable pub finish : ExecutionSpace → World kv → Ended × World kv
  finish space w =
      finish_by (checked_out space)
        (save_space kv uuids spaces (open_id db space.id) (checked_out space) w)

  -- The end of one round: `next` is the rest of the loop.
  abbrev pub after_save :
      (World kv → Ended × World kv) → ExecutionSpace → Option Error × World kv → Ended × World kv
  after_save next added (none, w) = next w
  after_save next added (some reason, w) =
      (returned, (fail_space kv uuids spaces (open_id db added.id) added reason w).1)

  -- The loop of `Checkout`: `n` rounds are left, and `i` is the number of the next one.
  unfoldable pub checkout_loop :
      Common → FreshIds → (n i : ℕ) → Option Map → ExecutionSpace → World kv → Ended × World kv
  checkout_loop c ids zero i m space w = finish space w
  checkout_loop c ids (suc n) i none space w = (panics, w)
  checkout_loop c ids (suc n) i (some m) space w =
      let e = new_executor_spec uuids c (ids i).0 (ids i).1 m in
      after_save
        (checkout_loop c ids n (i + 1) (some e.instructions.environment) (add uuids e space))
        (add uuids e space) (save_executor e w)

  -- `Checkout`.
  abbrev pub start_by : ExecutorConfig → FreshIds → Option Error × World kv → Ended × World kv
  start_by cfg ids (some error, w) = (returned, w)
  start_by cfg ids (none, w) =
      checkout_loop cfg.common ids cfg.amount 0 cfg.environment (new cfg.checkout_id) w

  unfoldable pub checkout : ExecutorConfig → FreshIds → World kv → Ended × World kv
  checkout cfg ids w =
      start_by cfg ids
        (save_space kv uuids spaces (open_id db cfg.checkout_id) (new cfg.checkout_id) w)

  abbrev pub after_delete :
      (World kv → Option Error × World kv) → Option Error × World kv → Option Error × World kv
  after_delete next (none, w) = next w
  after_delete next (some reason, w) = (some reason, w)

  -- `Checkin`.
  unfoldable pub checkin : List ExecutorSpec → World kv → Option Error × World kv
  checkin [] w = (none, w)
  checkin (e ∷ es) w = after_delete (checkin es) (delete_spec kv uuids (open_id db e.id) w)

  -- What `Status` answers when it fails. The id in the answer to a
  -- reference that cannot be parsed or loaded is that of the reference, `uuid.Nil` if it has none.
  abbrev pub failure_of : ℕ → Error → ExecutionSpace × Option Error
  failure_of id error = (
    record {
      id = id;
      executors = [];
      references = [];
      status = failed;
      description = error_text error;
    },
    some error,
  )

  abbrev pub with_executor : ExecutorSpec → ExecutionSpace → ExecutionSpace
  with_executor e space = record space { executors = space.executors ++ e ∷ [] }

  -- One reference: `next` is the rest of the loop, `bad` the text of the error of `uuid.Parse`.
  abbrev pub loaded_by :
      (ExecutionSpace → World kv → ExecutionSpace × Option Error)
      → ℕ
      → ExecutionSpace
      → Decoded ExecutorSpec × World kv
      → ExecutionSpace × Option Error
  loaded_by next id space (undecoded error, w) = failure_of id error
  loaded_by next id space (value e, w) = next (with_executor e space) w

  abbrev pub referred_by :
      (ExecutionSpace → World kv → ExecutionSpace × Option Error)
      → Text
      → ExecutionSpace
      → World kv
      → Option ℕ
      → ExecutionSpace × Option Error
  referred_by next bad space w none = failure_of 0 (message bad)
  referred_by next bad space w (some id) = loaded_by next id space (executor_spec id w)

  -- The loop over the references.
  unfoldable pub collect_executors :
      (bad : Text → Text) → List Text → ExecutionSpace → World kv → ExecutionSpace × Option Error
  collect_executors bad [] space w = (space, none)
  collect_executors bad (r ∷ rs) space w =
      referred_by (collect_executors bad rs) (bad r) space w (uuids.parse r)

  abbrev pub status_by :
      (bad : Text → Text) → ℕ → Decoded ExecutionSpace × World kv → ExecutionSpace × Option Error
  status_by bad id (undecoded error, w) = failure_of id error
  status_by bad id (value s, w) = collect_executors bad s.references s w

  -- `Status`.
  unfoldable pub status_of : (bad : Text → Text) → ℕ → World kv → ExecutionSpace × Option Error
  status_of bad id w = status_by bad id (execution_space id w)
