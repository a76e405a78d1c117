-- ===== src/Service/Start.antt =====
-- The main programs of cmd, from the configuration to the running web service: what ends the process
-- before it serves, and what a service is started with.
use etos_api.Prelude.{
  Bool, Option, none, some, [], ◌∷◌, Text, codes, text_eq, is_empty, if◌then◌else◌,
}
use etos_api.Auth.{new_authorizer}
use etos_api.Space.{Map}
use etos_api.Service.Config.{
  BaseConfig, SseConfig, ExecutionSpaceConfig, KeyConfig, Key, key_at, key_at,
}
use etos_api.Service.Server.{WebService, new_web_service, after_prefix}

-- How a main program comes to its web service: it is fatal, it panics, or it serves.
pub data Started {ℓ} (A : Type ℓ) : Type ℓ where
  fatal : Started A
  panicked : Started A
  serving : A → Started A

-- `vcsRevision`, for the settings of the build information: of cmd/sse, with the linked revision.
unfoldable pub revision_of : Option Map → Text
revision_of none = codes "(unknown)"
revision_of (some []) = codes "(unknown)"
revision_of (some ((key, v) ∷ settings)) =
    let rest = revision_of (some settings) in if text_eq key (codes "vcs.revision") then v else rest

unfoldable pub vcs_revision : Text → Option Map → Text
unfolding revision_of
vcs_revision build_revision info =
    if is_empty build_revision then revision_of info else build_revision

-- `fileLogging`: the file of the log hook, if there is one.
unfoldable pub file_logging : BaseConfig → Option Text
file_logging c = if is_empty c.log_file_path then none else some c.log_file_path

-- `remoteLogging`: no publisher, a panic, or a publisher for a URL and an exchange.
pub data Remote : Type 0 where
  no_publisher : Remote
  no_exchange : Remote
  publisher : (url exchange : Text) → Remote

unfoldable pub remote_logging : ExecutionSpaceConfig → Remote
remote_logging c =
    if is_empty c.rabbitmq_hook_url
    then no_publisher
    else if is_empty c.rabbitmq_hook_exchange
    then no_exchange
    else publisher c.rabbitmq_hook_url c.rabbitmq_hook_exchange

-- What the calls before the web service meet: a log level that is parsed, a host name, the
-- clients that panic if they are not made (`etcd.New`, and `executor.Kubernetes` for the execution
-- space), and the directory of the uploads (`LoadRoutes` of the log area).
pub record Machine : Type 0 where
  pub level_parses : Bool
  pub has_hostname : Bool
  pub has_clients : Bool
  pub makes_directory : Bool

abbrev pub logged {ℓ} : {A : Type ℓ} → Machine → Started A → Started A
logged m started = if m.level_parses then if m.has_hostname then started else fatal else fatal

-- The streamer of the SSE service: the file, or RabbitMQ with the server name of its TLS, if it has one.
pub data Streamer : Type 0 where
  file : Streamer
  rabbitmq : (uri stream_name : Text) → (tls : Option Text) → Streamer

-- Whether the calls of the streamer succeed, and the host name of a URL, empty if it is none.
pub record Streaming : Type 0 where
  pub opens : Bool
  pub creates : Bool
  pub hostname_of : Text → Text

abbrev pub tls_of : Option Text → Text → Option Text
tls_of none server_name = none
tls_of (some rest) server_name = some server_name

abbrev pub opened : Streaming → Streamer → Started Streamer
opened s streamer = if s.opens then if s.creates then serving streamer else fatal else fatal

abbrev pub choose_streamer : SseConfig → Streaming → Started Streamer
choose_streamer c s =
    if is_empty c.rabbitmq_uri
    then if s.opens then serving file else fatal
    else if is_empty c.rabbitmq_stream_name
    then fatal
    else opened s (
        rabbitmq c.rabbitmq_uri c.rabbitmq_stream_name (
          tls_of (after_prefix (codes "rabbitmq-stream+tls://") c.rabbitmq_uri)
            (s.hostname_of c.rabbitmq_uri)))

abbrev pub with_service {ℓ} : {A : Type ℓ} → BaseConfig → Started A → Started (A × WebService)
with_service c fatal = fatal
with_service c panicked = panicked
with_service c (serving a) = serving (a, new_web_service c)

-- `main` of cmd/sse, up to the start of the web service.
unfoldable pub start_sse : SseConfig → Machine → Streaming → Started (Streamer × WebService)
unfolding after_prefix new_web_service
start_sse c m s = with_service c.base (logged m (choose_streamer c s))

-- A call that panics if it fails.
abbrev pub or_panic {ℓ} : {A : Type ℓ} → Bool → Started A → Started A
or_panic succeeds started = if succeeds then started else panicked

abbrev pub after_remote : Remote → Machine → Started Remote
after_remote no_exchange m = panicked
after_remote r m = logged m (or_panic m.has_clients (serving r))

-- `main` of cmd/executionspace: the exchange is looked at before anything is logged.
unfoldable pub start_execution_space :
    ExecutionSpaceConfig → Machine → Started (Remote × WebService)
unfolding remote_logging new_web_service
start_execution_space c m = with_service c.base (after_remote (remote_logging c) m)

-- The bytes of a key that was read, or none; a key that cannot be read is fatal.
abbrev pub key_or_fatal : Key → (Text → Started Bool) → Started Bool
key_or_fatal Key.nil next = next []
key_or_fatal (Key.read none) next = fatal
key_or_fatal (Key.read (some bytes)) next = next bytes

abbrev pub authorizer_or_fatal : Option Bool → Started Bool
authorizer_or_fatal none = fatal
authorizer_or_fatal (some signs) = serving signs

-- `main` of cmd/keys, with the files of the keys: it serves with an authorizer, which has a private
-- key or not.
unfoldable pub start_keys :
    KeyConfig
    → Machine
    → (files : Text → Option Text) → (parses_public parses_private : Text → Bool)
    → Started (Bool × WebService)
unfolding new_web_service new_authorizer key_at
start_keys c m files parses_public parses_private = with_service c.base (
    logged m (
      key_or_fatal (key_at files c.base.public_key_path) (λ public_bytes.
        key_or_fatal (key_at files c.private_key_path) (λ private_bytes.
          authorizer_or_fatal
            (new_authorizer parses_public parses_private public_bytes private_bytes)))))

-- `main` of cmd/iut.
unfoldable pub start_iut : BaseConfig → Machine → Started (Unit {0} × WebService)
unfolding new_web_service
start_iut c m = with_service c (logged m (or_panic m.has_clients (serving tt)))

-- `main` of cmd/logarea, with the directory that `LoadRoutes` makes.
unfoldable pub start_log_area : BaseConfig → Machine → Started (Unit {0} × WebService)
unfolding new_web_service
start_log_area c m = with_service c (logged m (or_panic m.makes_directory (serving tt)))
