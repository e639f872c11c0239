-- ===== src/Broker.antt =====
-- src/broker.py, src/health.py and the entry point of src/worker.py: what is set up around the tasks,
-- and the probe of a worker. dramatiq's objects are constructors with what they are built from; the
-- Redis client is a parameter.
pub mod Consumption
use file_scanner.Base.{
  ℕ, String, ◌<>◌, Bool, true, false, Option, none, some, List, [], ◌∷◌, ◌++◌, if◌then◌else◌,
  Result, ok, err, ◌==◌,
}
use file_scanner.Base.Dict.{Dict}
use file_scanner.Scanner.Registry.{Registered, Engine, Backends, Loaded, Raised}
use file_scanner.Scanner.Registry.Validate.{validate_registry}
use file_scanner.Tasks.{max_retries}
use file_scanner.Monitoring.{WorkerEnv, build_argv}

pub record WorkerSettings : Type 0 where
  pub worker_eager : Bool
  pub worker_broker_url : String
  pub worker_queue_namespace : String
  pub webhook_max_attempts : ℕ

pub data Broker : Type 0 where
  stub_broker : Broker
  streams_broker : (url namespace : String) → Broker

pub data ResultBackend : Type 0 where
  stub_backend : (namespace : String) → ResultBackend
  redis_backend : (url namespace : String) → ResultBackend

pub data Middleware : Type 0 where
  current_message : Middleware
  results : ResultBackend → Middleware
  drop_ping_queue : String → Middleware

module _ (s : WorkerSettings) where
  -- _make_broker
  abbrev pub make_broker : Broker
  make_broker =
      if s.worker_eager
      then stub_broker
      else streams_broker s.worker_broker_url s.worker_queue_namespace

  -- _make_result_backend
  abbrev pub make_result_backend : ResultBackend
  make_result_backend =
      if s.worker_eager
      then stub_backend s.worker_queue_namespace
      else redis_backend s.worker_broker_url s.worker_queue_namespace

  -- The middleware that the module adds, in order.
  abbrev pub broker_middleware : List Middleware
  broker_middleware = current_message ∷ results make_result_backend ∷ []

-- PING_QUEUE, which src/worker.py writes out again
abbrev pub ping_queue : String → String
ping_queue hostname = "ping." <> hostname

-- `hasattr(broker, "client")`
abbrev has_client : Broker → Bool
has_client stub_broker = false
has_client (streams_broker url namespace) = true

-- What health.py adds to the middleware of the broker.
unfoldable pub health_middleware : String → Broker → List Middleware → List Middleware
health_middleware hostname broker middleware =
    if has_client broker
    then middleware ++ drop_ping_queue (ping_queue hostname) ∷ []
    else middleware

-- An actor, with the options that say when it runs.
pub record Actor : Type 0 where
  pub actor_name : String
  pub queue_name : String
  pub priority : ℕ
  pub retries : ℕ
  pub store_results : Bool

-- register_task, whose `queue` may be left out
abbrev pub register_task : String → Option String → ℕ → ℕ → Actor
register_task name queue priority retries = record {
  actor_name = name;
  queue_name = elim queue [ none ↦ "default" | some q ↦ q ];
  priority = priority;
  retries = retries;
  store_results = false;
}

-- The actors that a worker has registered once it has imported tasks and health.
unfoldable pub actors : WorkerSettings → String → List Actor
actors s hostname =
    register_task "deliver_webhook" (some "webhooks") 5 s.webhook_max_attempts
    ∷ register_task "scan_task" (some "scans") 10 max_retries
    ∷ record {
      actor_name = "ping";
      queue_name = ping_queue hostname;
      priority = 0;
      retries = 0;
      store_results = true;
    }
    ∷ []

-- The calls of the Redis client and the keys of the broker; a call gives `none` if it raises.
pub record Redis (S : Type 0) : Type 0 where
  pub srem : String → String → S → Option S
  pub delete : String → S → Option S
  pub queues_key : String → String
  pub stream_key : String → String → String

abbrev or_same : {S : Type 0} → S → Option S → S
or_same s none = s
or_same s (some s') = s'

-- _DropPingQueue.after_worker_shutdown: an exception ends it, and is passed over.
unfoldable pub after_worker_shutdown : {S : Type 0} → Redis S → String → String → S → S
after_worker_shutdown r namespace queue s = elim (r.srem (r.queues_key namespace) queue s) [
  | none ↦ s
  | some s' ↦ or_same s' (r.delete (r.stream_key queue namespace) s')
]

-- The exit code of `python -m health`, from what `get_result` returns or raises. A ping that was
-- skipped as too old has no value.
unfoldable pub probe : Result String (Option String) → ℕ
probe (err why) = 1
probe (ok none) = 1
probe (ok (some answer)) = if answer == "pong" then 0 else 1

-- `python -m worker`: the arguments that dramatiq starts with, once the registry is valid.
unfoldable pub start_worker :
    {F : Type 0}
    → Backends F
    → (String → Loaded)
    → Registered
    → WorkerEnv
    → Result Raised (List String)
start_worker b loads s e = elim (validate_registry b loads s []).0 [
  | ok _ ↦ ok (build_argv e)
  | err raised ↦ err raised
]
