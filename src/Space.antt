-- ===== src/Space.antt =====
-- pkg/executionspace/executionspace: the execution space of one checkout and the executors in it.
-- encoding/json is a parameter, for texts in UTF-8, which it encodes and decodes without loss.
pub mod Environment
pub mod Saves
pub mod Provider
pub mod Executor
pub mod Job
pub mod Starting
pub mod Status
pub mod Stopping
pub mod Serial
pub mod Tests
pub mod Jobs
use etos_api.Prelude.{
  ℕ, ◌≡◌, Bool, true, false, Option, none, some, List, [], ◌∷◌, ◌++◌, Text, codes, text_eq,
  is_empty, if◌then◌else◌,
}
use etos_api.Database.{Error, eof, message, joined, error_text, Uuids, Kv, Etcd, World, write}

-- A map with text keys, each key once.
abbrev pub Map : Type 0
Map = List (Text × Text)

unfoldable pub lookup : Text → Map → Option Text
lookup key [] = none
lookup key ((k, v) ∷ m) = if text_eq k key then some v else lookup key m

-- `m[key] = value`.
unfoldable pub set : Text → Text → Map → Map
set key v [] = (key, v) ∷ []
set key v ((k, old) ∷ m) =
    let rest = set key v m in if text_eq k key then (k, v) ∷ m else (k, old) ∷ rest

pub record Request : Type 0 where
  pub url : Text
  pub method : Text
  pub data_id : ℕ
  pub headers : Map
  pub timeout : ℕ

pub record Instructions : Type 0 where
  pub image : Text
  pub environment : Map
  pub parameters : Map
  pub identifier : ℕ

pub record ExecutorSpec : Type 0 where
  pub request : Request
  pub instructions : Instructions
  pub id : ℕ
  pub build_id : Text

pub data CheckoutStatus : Type 0 where
  pending failed done : CheckoutStatus

pub record ExecutionSpace : Type 0 where
  pub id : ℕ
  pub executors : List ExecutorSpec
  pub references : List Text
  pub status : CheckoutStatus
  pub description : Text

-- What decoding from a reader gives; a reader with no bytes gives `io.EOF`.
pub data Decoded {ℓ} (A : Type ℓ) : Type ℓ where
  value : A → Decoded A
  undecoded : Error → Decoded A

-- `json.Encoder.Encode` and `json.Decoder.Decode` at one type.
pub record Codec {ℓ} (A : Type ℓ) : Type ℓ where
  pub encode : A → Text
  pub decode : Text → Decoded A
  pub decode_encode : (a : A) → decode (encode a) ≡ value a
  pub decode_empty : decode [] ≡ undecoded eof

-- The proxies and the time zone of the process's environment; empty if a variable is not set.
pub record Environ : Type 0 where
  pub https_proxy : Text
  pub http_proxy : Text
  pub no_proxy : Text
  pub tz : Text

abbrev pub set_if : Text → Text → Map → Map
set_if name v m = if is_empty v then m else set name v m

abbrev pub set_both : Text → Text → Text → Map → Map
set_both name other v m = set_if other v (set_if name v m)

-- The environment of an executor, from the map of the request.
unfoldable pub executor_environment : Uuids → Environ → ℕ → Map → Map
executor_environment uuids e id m = set_if (codes "TZ") e.tz (
    set_both (codes "NO_PROXY") (codes "no_proxy") e.no_proxy (
      set_both (codes "HTTP_PROXY") (codes "http_proxy") e.http_proxy (
        set_both (codes "HTTPS_PROXY") (codes "https_proxy") e.https_proxy
          (set (codes "ENVIRONMENT_ID") (uuids.show id) m))))

-- The headers that the propagator injects are set after the identifier.
unfoldable pub set_all : Map → Map → Map
set_all [] m = m
set_all ((k, v) ∷ carrier) m = set_all carrier (set k v m)

-- What does not change from one executor of a checkout to the next: the provider's URL, the
-- process's environment, the propagated headers, the identifier and the test runner.
pub record Common : Type 0 where
  pub url : Text
  pub environ : Environ
  pub carrier : Map
  pub etos_identifier : Text
  pub test_runner : Text

-- `NewExecutorSpec` with the two UUIDs that it makes. The map `environment` is the caller's, which
-- is changed: it then has the contents of the result's environment.
unfoldable pub new_executor_spec : Uuids → Common → ℕ → ℕ → Map → ExecutorSpec
new_executor_spec uuids c id identifier environment = record {
  request = record {
    url = c.url;
    method = codes "POST";
    data_id = id;
    headers = set_all c.carrier ((codes "X-Etos-id", c.etos_identifier) ∷ []);
    timeout = 7200;
  };
  instructions = record {
    image = c.test_runner;
    environment = executor_environment uuids c.environ id environment;
    parameters = [];
    identifier = identifier;
  };
  id = id;
  build_id = [];
}

-- `New`.
unfoldable pub new : ℕ → ExecutionSpace
new id = record {
  id = id;
  executors = [];
  references = [];
  status = pending;
  description = codes "Checking out execution spaces";
}

-- `Add`.
unfoldable pub add : Uuids → ExecutorSpec → ExecutionSpace → ExecutionSpace
add uuids e space = record space {
  executors = space.executors ++ e ∷ [];
  references = space.references ++ uuids.show e.id ∷ [];
}

abbrev pub joined_to : Text → Option Error → Option Error
joined_to t none = none
joined_to t (some error) = some (joined (message t) error)

module _ (kv : Kv) (uuids : Uuids) where
  -- `ExecutorSpec.Save`, `Delete`, `ExecutionSpace.Save` and `Fail`; the encoder writes once.
  unfoldable pub save_spec :
      Codec ExecutorSpec → Etcd → ExecutorSpec → World kv → Option Error × World kv
  save_spec codec client e w =
      let (error, later) = write kv uuids client (codec.encode e) w in
      (joined_to (codes "failed to write executor to database") error, later)

  unfoldable pub delete_spec : Etcd → World kv → Option Error × World kv
  delete_spec client w = write kv uuids client [] w

  unfoldable pub save_space :
      Codec ExecutionSpace → Etcd → ExecutionSpace → World kv → Option Error × World kv
  save_space codec client space w =
      let (error, later) =
        write kv uuids client (codec.encode (record space { executors = [] })) w in
      (joined_to (codes "failed to write execution space to database") error, later)

  unfoldable pub fail_space :
      Codec ExecutionSpace → Etcd → ExecutionSpace → Error → World kv → Option Error × World kv
  fail_space codec client space error w =
      save_space codec client
        (record {
          id = space.id;
          executors = [];
          references = [];
          status = failed;
          description = error_text error;
        })
        w
