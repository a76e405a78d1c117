-- ===== src/Lib.antt =====
-- The services of ETOS API: HTTP services around an Eiffel event bus. This library models their Go
-- code as functions and step relations and proves the properties listed at the end.
--
-- How the parts interact: a client subscribes to the events of one test run with `GetEvents`
-- (pkg/sse/v2alpha). The handler cleans the filters and starts `subscribe`, which decides where to
-- resume, opens a stream (internal/stream) and forwards the stream's messages as events
-- (pkg/events) that the handler writes to the client, while internal/metrics counts what happens.
-- The execution space service (pkg/executionspace/v1alpha) checks out executors into a database
-- (internal/executionspace/provider over internal/database/etcd), starts a test runner for each as a
-- Kubernetes job (internal/executionspace/executor), waits for its sub suite in the event repository
-- (internal/eventrepository), and stops the jobs and checks the executors in again. The IUT provider
-- (pkg/iut/v1alpha1) keeps its items in the same database. Handlers stand behind the middleware of
-- internal/authorization, for the tokens that pkg/keys/v1alpha issues. The log area
-- (pkg/logarea/v1alpha) stores files that test runners upload. The older SSE services (pkg/sse/v1,
-- pkg/sse/v1alpha) poll the suite runner of a test run, which internal/kubernetes finds, with whether the
-- run has ended. Log entries are published by internal/rabbitmq.
--
--   Prelude        native numbers, lists, text as bytes, 64-bit integers, `strings.Split`, decimals
--   Database       internal/database/etcd/etcd.go; the etcd service is the record `Kv`, and each
--                  request is answered, lost, or applied unheard, as the list `answers` says
--   Repository     internal/eventrepository/eventrepository.go; the HTTP client is a function
--   Stream         internal/stream/stream.go
--   Stream/Rabbit  internal/stream/rabbitmq.go: one message handled after another; the RabbitMQ
--                  client (offsets, the filter on the bus) is the record `Client`
--   Stream/File    internal/stream/file.go: the reading loop over the results of `ReadLine`
--   Events         pkg/events/events.go; encoding/json is the record `JsonCodec`
--   Metrics        internal/metrics: sse.go, metrics.go (Metrics/Http for the recorder, Metrics/Requests
--                  for `Wrap`), cluster.go (Metrics/Cluster)
--   Sse            pkg/sse/v2alpha/sse.go: Sse/Filter for `cleanFilter`, Sse/Resume for
--                  `resumeOffset` and the Last-Event-ID header, Sse/Subscribe for `subscribe`,
--                  Sse/Handler for `GetEvents`, Sse/Handler/Requests for the handler under `Wrap`;
--                  Sse/RunLog for the log of the bus, and Sse/EndToEnd for `subscribe` over the
--                  streams of Stream/Rabbit
--   Auth           internal/authorization with its scopes, and pkg/keys/v1alpha (Auth/Keys); the JWT
--                  library is the record `Jwt`
--   Iut            pkg/iut/v1alpha1
--   Kubernetes     internal/kubernetes/kubernetes.go; the API server is a function of time
--   Esr            the older SSE protocols, which poll the log listener of a suite runner: Esr/Logs for
--                  pkg/sse/v1alpha/sse.go, Esr/Feed for pkg/sse/v1/sse.go, Esr/Lines for `bufio.Scanner`
--   Publisher      internal/rabbitmq/rabbitmq.go, with the log hook of internal/logging/rabbitmqhook in
--                  Publisher/Hook; the AMQP client and the broker are the choices of each attempt
--   Logarea        pkg/logarea/v1alpha/logarea.go, on a file system without symbolic links
--   Logarea/Retention, Logarea/Gone
--                  pkg/logarea/v1alpha/retention.go
--   Service        internal/config, internal/server, pkg/application with the routes, and the programs
--                  of cmd: Service/Start up to the web service, Service/Shutdown for the stop of cmd/sse
--                  and Service/Waiting for that of cmd/executionspace, as step relations;
--                  Service/Issuing for cmd/keys with the handler of pkg/keys, and
--                  Service/Routed for the executors of a checkout against the routes of their service
--   Space          pkg/executionspace/executionspace; encoding/json is the record `Codec`
--   Space/Provider internal/executionspace/provider/provider.go
--   Space/Starting, Space/Executor, Space/Stopping
--                  pkg/executionspace/v1alpha: `Start`, `ExecutorStart` with `waitStart`, `Stop`;
--                  Space/Status for `Status`
--   Space/Job      internal/executionspace/executor/kubernetes.go
--
-- A Go string is the list of its bytes and an `int64` is an integer whose increment wraps around. A
-- `select` is a list of the cases that are taken, one element for each round, so that a statement
-- about all lists covers every interleaving; a loop is structural recursion on that list and needs no
-- fuel; a panic is a result of its own. Times, log lines, traces and the HTTP plumbing are left out.
-- Not modelled: the OpenTelemetry setup with its traces, since it only calls the SDK; the timeouts of
-- requests, which show as requests that the database does not answer; the stops of cmd/iut and cmd/keys,
-- whose own part is to close the server, and of cmd/logarea, which also waits until the loop of the
-- retention takes its quit; and the Python API, which is another program.
pub mod Prelude
pub mod Database
pub mod Repository
pub mod Stream
pub mod Events
pub mod Metrics
pub mod Sse
pub mod Auth
pub mod Space
pub mod Iut
pub mod Logarea
pub mod Kubernetes
pub mod Esr
pub mod Publisher
pub mod Service
