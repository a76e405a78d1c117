-- ===== src/Service/Config.antt =====
-- internal/config: the options of the services. The command line is the map of the flags that are
-- set, the environment a map of variables; `time.ParseDuration` and the files are parameters.
use etos_api.Prelude.{ℤ, Option, none, some, [], ◌∷◌, ◌++◌, Text, codes, is_empty, if◌then◌else◌}
use etos_api.Space.{Map, lookup}

-- The value that was found, or the fallback.
abbrev pub or_else {ℓ} : {A : Type ℓ} → A → Option A → A
or_else fallback none = fallback
or_else fallback (some v) = v

-- `os.Getenv`.
abbrev pub get_env : Text → Map → Text
get_env key env = or_else [] (lookup key env)

-- `EnvOrDefault`: a variable that is set to the empty text counts.
unfoldable pub env_or_default : Text → Text → Map → Text
env_or_default key fallback env = or_else fallback (lookup key env)

-- `ReadNamespaceOrEnv`, for the content of the namespace file, if it can be read.
unfoldable pub read_namespace_or_env : Option Text → Text → Map → Text
read_namespace_or_env none key env = get_env key env
read_namespace_or_env (some namespace) key env = namespace

-- The value of a flag: from the command line, or its default.
abbrev pub flag : Text → Map → Text → Text
flag name flags fallback = or_else fallback (lookup name flags)

-- `baseCfg`.
pub record BaseConfig : Type 0 where
  pub service_host : Text
  pub service_port : Text
  pub strip_prefix : Text
  pub log_level : Text
  pub log_file_path : Text
  pub etos_namespace : Text
  pub database_host : Text
  pub database_port : Text
  pub public_key_path : Text

-- `load`, with the parsing of the flags.
unfoldable pub load : Map → Map → Option Text → BaseConfig
unfolding env_or_default read_namespace_or_env
load flags env namespace = record {
  service_host =
      flag (codes "address") flags (env_or_default (codes "SERVICE_HOST") (codes "127.0.0.1") env);
  service_port =
      flag (codes "port") flags (env_or_default (codes "SERVICE_PORT") (codes "8080") env);
  strip_prefix = flag (codes "stripprefix") flags (env_or_default (codes "STRIP_PREFIX") [] env);
  log_level = flag (codes "loglevel") flags (env_or_default (codes "LOGLEVEL") (codes "INFO") env);
  log_file_path = flag (codes "logfilepath") flags (get_env (codes "LOG_FILE_PATH") env);
  etos_namespace =
      flag (codes "etosnamespace") flags
        (read_namespace_or_env namespace (codes "ETOS_NAMESPACE") env);
  database_host =
      flag (codes "databasehost") flags
        (env_or_default (codes "ETOS_ETCD_HOST") (codes "etcd-client") env);
  database_port =
      flag (codes "databaseport") flags
        (env_or_default (codes "ETOS_ETCD_PORT") (codes "2379") env);
  public_key_path = flag (codes "publickeypath") flags (get_env (codes "PUBLIC_KEY_PATH") env);
}

-- `DatabaseURI`.
unfoldable pub database_uri : BaseConfig → Text
database_uri c = c.database_host ++ b':' ∷ c.database_port

-- `PublicKey` and `PrivateKey`: nil without a path, and else the file, where `none` is an error.
pub data Key : Type 0 where
  nil : Key
  read : Option Text → Key

unfoldable pub key_at : (Text → Option Text) → Text → Key
key_at files path = if is_empty path then nil else read (files path)

-- `sseCfg`.
pub record SseConfig : Type 0 where
  pub base : BaseConfig
  pub rabbitmq_uri : Text
  pub rabbitmq_stream_name : Text

unfoldable pub new_sse_config : Map → Map → Option Text → SseConfig
unfolding load
new_sse_config flags env namespace = record {
  base = load flags env namespace;
  rabbitmq_uri = flag (codes "rabbitmquri") flags (get_env (codes "ETOS_RABBITMQ_URI") env);
  rabbitmq_stream_name =
      flag (codes "rabbitmqstreamname") flags (get_env (codes "ETOS_RABBITMQ_STREAM_NAME") env);
}

-- `keyCfg`.
pub record KeyConfig : Type 0 where
  pub base : BaseConfig
  pub private_key_path : Text

unfoldable pub new_key_config : Map → Map → Option Text → KeyConfig
unfolding load
new_key_config flags env namespace = record {
  base = load flags env namespace;
  private_key_path = flag (codes "privatekeypath") flags (get_env (codes "PRIVATE_KEY_PATH") env);
}

-- How the reading of a configuration ends: a variable that is no duration is a panic, a flag that is
-- none ends the process with the usage.
pub data Configured {ℓ} (A : Type ℓ) : Type ℓ where
  configured : A → Configured A
  panicked : Configured A
  usage : Configured A

-- `logAreaCfg`.
pub record LogAreaConfig : Type 0 where
  pub base : BaseConfig
  pub upload_path : Text
  pub retention : ℤ

-- `executionSpaceCfg`.
pub record ExecutionSpaceConfig : Type 0 where
  pub base : BaseConfig
  pub hostname : Text
  pub timeout : ℤ
  pub wait_timeout : ℤ
  pub rabbitmq_hook_url : Text
  pub rabbitmq_hook_exchange : Text
  pub eiffel_goer_url : Text
  pub encryption_key_secret_name : Text

module _ (parse_duration : Text → Option ℤ) where
  -- A flag of `flag.DurationVar`.
  abbrev duration_flag : Option Text → ℤ → Option ℤ
  duration_flag none fallback = some fallback
  duration_flag (some t) fallback = parse_duration t

  abbrev with_retention : Map → Map → Option Text → Option ℤ → Configured LogAreaConfig
  with_retention flags env namespace none = usage
  with_retention flags env namespace (some retention) = configured (record {
    base = load flags env namespace;
    upload_path =
        flag (codes "uploadpath") flags
          (env_or_default (codes "UPLOAD_PATH") (codes "/tmp/files") env);
    retention = retention;
  })

  abbrev with_default : Map → Map → Option Text → Option ℤ → Configured LogAreaConfig
  with_default flags env namespace none = panicked
  with_default flags env namespace (some fallback) =
      with_retention flags env namespace (duration_flag (lookup (codes "retention") flags) fallback)

  unfoldable pub new_log_area_config : Map → Map → Option Text → Configured LogAreaConfig
  unfolding load env_or_default lookup
  new_log_area_config flags env namespace =
      with_default flags env namespace
        (parse_duration (env_or_default (codes "RETENTION") (codes "24h") env))

  abbrev with_timeouts :
      Map → Map → Option Text → Option ℤ → Option ℤ → Configured ExecutionSpaceConfig
  with_timeouts flags env namespace none wait_timeout = usage
  with_timeouts flags env namespace (some timeout) none = usage
  with_timeouts flags env namespace (some timeout) (some wait_timeout) = configured (record {
    base = load flags env namespace;
    hostname =
        flag (codes "hostname") flags
          (env_or_default (codes "PROVIDER_HOSTNAME") (codes "http://localhost") env);
    timeout = timeout;
    wait_timeout = wait_timeout;
    rabbitmq_hook_url =
        flag (codes "rabbitmq_hook_url") flags (get_env (codes "ETOS_RABBITMQ_URL") env);
    rabbitmq_hook_exchange =
        flag (codes "rabbitmq_hook_exchange") flags (get_env (codes "ETOS_RABBITMQ_EXCHANGE") env);
    eiffel_goer_url =
        flag (codes "event_repository_host") flags (get_env (codes "EIFFEL_GOER_URL") env);
    encryption_key_secret_name =
        flag (codes "encryption_key_secret_name") flags
          (env_or_default (codes "ENCRYPTION_KEY_SECRET_NAME") (codes "etos-encryption-key") env);
  })

  abbrev with_defaults :
      Map → Map → Option Text → Option ℤ → Option ℤ → Configured ExecutionSpaceConfig
  with_defaults flags env namespace none wait_timeout = panicked
  with_defaults flags env namespace (some timeout) none = panicked
  with_defaults flags env namespace (some timeout) (some wait_timeout) =
      with_timeouts flags env namespace (duration_flag (lookup (codes "timeout") flags) timeout)
        (duration_flag (lookup (codes "executionSpaceWaitTimeout") flags) wait_timeout)

  unfoldable pub new_execution_space_config :
      Map → Map → Option Text → Configured ExecutionSpaceConfig
  unfolding load env_or_default lookup
  new_execution_space_config flags env namespace =
      with_defaults flags env namespace
        (parse_duration (env_or_default (codes "REQUEST_TIMEOUT") (codes "1m") env))
        (parse_duration (env_or_default (codes "EXECUTION_SPACE_WAIT_TIMEOUT") (codes "1h") env))
