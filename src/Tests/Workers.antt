-- ===== src/Tests/Workers.antt =====
-- A worker and its probe.
use file_scanner.Base.{
  String, ◌<>◌, ◌≡◌, ◌||◌, refl, true, false, not, none, some, List, [], ◌∷◌, All, contains, filter,
  ok, err, ◌==◌, if◌then◌else◌,
}
use file_scanner.Base.Dict.{get, set}
use file_scanner.Base.Text.{strip, comma_list}
use file_scanner.Scanner.Registry.{
  category_map, get_scanner, default_categories_list, advisory_scanners,
}
use file_scanner.Scanner.Registry.Validate.{validate_registry}
use file_scanner.Monitoring.{WorkerEnv, build_argv}
use file_scanner.Broker.{
  WorkerSettings, Redis, stub_broker, current_message, redis_backend, results, drop_ping_queue,
  make_broker, broker_middleware, health_middleware, actors, ping_queue, start_worker,
  after_worker_shutdown, probe,
}
use file_scanner.Broker.Consumption.{consumed, named_queues, start_worker-consumed}
use file_scanner.Tests.Registry.{backends, settings, loads}

abbrev worker_settings : WorkerSettings
worker_settings = record {
  worker_eager = false;
  worker_broker_url = "redis://r";
  worker_queue_namespace = "fs";
  webhook_max_attempts = 3;
}

abbrev unset_env : WorkerEnv
unset_env = record {
  worker_processes = none;
  worker_threads = none;
  worker_watch = some "src";
  worker_queues = none;
  hostname = "w1";
}

runs : start_worker backends loads settings unset_env ≡ ok (build_argv unset_env)
unfolding start_worker validate_registry category_map strip get get_scanner set
    default_categories_list comma_list advisory_scanners
runs = refl

start_worker-consumed_example :
    ((validate_registry backends loads settings []).0 ≡ ok tt)
    × ((q : String)
        → contains (consumed (build_argv unset_env)) q
          ≡ (contains (named_queues unset_env) q || q == ping_queue "w1"))
    × (unset_env.worker_queues ≡ none
        → All
            (λ a. contains (consumed (build_argv unset_env)) a.queue_name ≡ true)
            (actors worker_settings "w1"))
start_worker-consumed_example =
    start_worker-consumed backends loads settings worker_settings unset_env (build_argv unset_env)
      (refl, refl, refl) runs

-- A broker on Redis drops the container's own queue, one in memory has none to drop.
middleware_test :
    (health_middleware "w1" (make_broker worker_settings) (broker_middleware worker_settings)
      ≡ current_message ∷ results (redis_backend "redis://r" "fs") ∷ drop_ping_queue "ping.w1" ∷ [])
    × (health_middleware "w1" stub_broker [] ≡ [])
unfolding health_middleware
middleware_test = (refl, refl)

-- The streams that are left, as a list of their keys.
abbrev streams : Redis (List String)
streams = record {
  srem = λ key member s. if member == "lost" then none else some s;
  delete = λ key s. some (filter (λ k. not (k == key)) s);
  queues_key = λ namespace. namespace <> ":queues";
  stream_key = λ queue namespace. namespace <> ":" <> queue;
}

shutdown_test :
    (after_worker_shutdown streams "fs" "ping.w1" ("fs:ping.w1" ∷ "fs:scans" ∷ [])
      ≡ "fs:scans" ∷ [])
    × (after_worker_shutdown streams "fs" "lost" ("fs:lost" ∷ []) ≡ "fs:lost" ∷ [])
unfolding after_worker_shutdown
shutdown_test = (refl, refl)

probe_test : (probe (ok (some "pong")) ≡ 0) × (probe (ok none) ≡ 1) × (probe (err "timeout") ≡ 1)
unfolding probe
probe_test = (refl, refl, refl)
