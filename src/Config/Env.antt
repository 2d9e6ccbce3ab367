-- ===== src/Config/Env.antt =====
-- internal/config/config.go: reading the settings from the process environment, with defaults.
-- The environment is a function from a variable's name to its value, where it has one.
use flux_pg_cluster.Base.{Bool, true, false, ◌||◌, Option, none, some, [], if◌then◌else◌}
use flux_pg_cluster.Base.Int.{ℤ, pos, ◌+ℤ◌, ◌-ℤ◌, leb_ℤ, wrap_int64}
use flux_pg_cluster.Config.{Config}
use flux_pg_cluster.Number.{atoi}
use flux_pg_cluster.Text.{Text, codes, equal, is_empty, to_lower}

-- os.LookupEnv
abbrev pub Environ : Type 0
Environ = Text → Option Text

-- `env`
unfoldable pub env_or : Environ → Text → Text → Text
env_or e key default = elim (e key) [ none ↦ default | some v ↦ if is_empty v then default else v ]

abbrev pub when_parsed : ℤ × Bool → ℤ → ℤ
when_parsed (n, true) default = n
when_parsed (n, false) default = default

-- `envInt`
unfoldable pub env_int : Environ → Text → ℤ → ℤ
unfolding env_or atoi
env_int e key default =
    let v = env_or e key [] in if is_empty v then default else when_parsed (atoi v) default

-- `v == "true" || v == "1" || v == "yes" || v == "on"`
unfoldable pub is_true_word : Text → Bool
unfolding equal
is_true_word v =
    equal v (codes "true") || equal v (codes "1") || equal v (codes "yes") || equal v (codes "on")

-- `envBool`
unfoldable pub env_bool : Environ → Text → Bool → Bool
unfolding env_or to_lower is_true_word
env_bool e key default =
    let v = to_lower (env_or e key []) in if is_empty v then default else is_true_word v

-- The literal of `FromEnv`.
unfoldable pub env_config : Environ → Config
unfolding env_or env_int env_bool
env_config e = record {
  app_name = env_or e (codes "APP_NAME") (codes "postgres-cluster");
  patroni_scope = env_or e (codes "PATRONI_SCOPE") (codes "postgres-cluster");
  my_name = [];
  my_ip = [];
  host_name = [];
  postgres_db = env_or e (codes "POSTGRES_DB") (codes "postgres");
  postgres_superuser_password = env_or e (codes "POSTGRES_SUPERUSER_PASSWORD") (codes "postgres");
  postgres_replication_password =
      env_or e (codes "POSTGRES_REPLICATION_PASSWORD") (codes "replication");
  ssl_enabled = env_bool e (codes "SSL_ENABLED") false;
  ssl_passphrase = env_or e (codes "SSL_PASSPHRASE") (codes "");
  ssl_cert_validity_days = env_int e (codes "SSL_CERT_VALIDITY_DAYS") (pos 3650);
  host_postgres_port = env_int e (codes "HOST_POSTGRES_PORT") (pos 5432);
  host_proxy_port = env_int e (codes "HOST_PROXY_PORT") (pos 0);
  host_patroni_api_port = env_int e (codes "HOST_PATRONI_API_PORT") (pos 8008);
  host_etcd_client_port = env_int e (codes "HOST_ETCD_CLIENT_PORT") (pos 2379);
  host_etcd_peer_port = env_int e (codes "HOST_ETCD_PEER_PORT") (pos 2380);
  postgres_port = env_int e (codes "POSTGRES_PORT") (pos 5432);
  patroni_api_port = env_int e (codes "PATRONI_API_PORT") (pos 8008);
  etcd_client_port = env_int e (codes "ETCD_CLIENT_PORT") (pos 2379);
  etcd_peer_port = env_int e (codes "ETCD_PEER_PORT") (pos 2380);
  etcd_hosts = [];
  patroni_etcd_hosts = [];
  etcd_initial_cluster = [];
  cluster_ips = [];
  allow_new_cluster_bootstrap = env_bool e (codes "ALLOW_NEW_CLUSTER_BOOTSTRAP") false;
  allow_any_node_bootstrap = env_bool e (codes "ALLOW_ANY_NODE_BOOTSTRAP") false;
  auto_bootstrap_if_fresh = env_bool e (codes "AUTO_BOOTSTRAP_IF_FRESH") true;
  dead_cluster_recovery = env_bool e (codes "DEAD_CLUSTER_RECOVERY") true;
  allow_pg_data_wipe = env_bool e (codes "ALLOW_PG_DATA_WIPE") false;
  etcd_join_max_retries = env_int e (codes "ETCD_JOIN_MAX_RETRIES") (pos 12);
  etcd_join_retry_delay_seconds = env_int e (codes "ETCD_JOIN_RETRY_DELAY_SECONDS") (pos 10);
  update_interval_seconds = env_int e (codes "UPDATE_INTERVAL_SECONDS") (pos 60);
  desired_state_stability_cycles = env_int e (codes "DESIRED_STATE_STABILITY_CYCLES") (pos 3);
  etcd_unavailable_recovery_cycles = env_int e (codes "ETCD_UNAVAILABLE_RECOVERY_CYCLES") (pos 2);
  bootstrap_peer_confirm_cycles = env_int e (codes "BOOTSTRAP_PEER_CONFIRM_CYCLES") (pos 3);
  bootstrap_peer_probe_interval =
      env_int e (codes "BOOTSTRAP_PEER_PROBE_INTERVAL_SECONDS") (pos 10);
  bootstrap_peer_probe_timeout = env_int e (codes "BOOTSTRAP_PEER_PROBE_TIMEOUT_SECONDS") (pos 5);
  patroni_ttl = env_int e (codes "PATRONI_TTL") (pos 30);
  patroni_loop_wait = env_int e (codes "PATRONI_LOOP_WAIT") (pos 10);
  patroni_retry_timeout = env_int e (codes "PATRONI_RETRY_TIMEOUT") (pos 30);
  patroni_max_lag = env_int e (codes "PATRONI_MAX_LAG") (pos 33554432);
  patroni_master_start_timeout = env_int e (codes "PATRONI_MASTER_START_TIMEOUT") (pos 300);
  patroni_master_stop_timeout = env_int e (codes "PATRONI_MASTER_STOP_TIMEOUT") (pos 300);
  patroni_use_slots = env_bool e (codes "PATRONI_USE_SLOTS") false;
  patroni_log_level = env_or e (codes "PATRONI_LOG_LEVEL") (codes "INFO");
  patroni_synchronous_mode = env_bool e (codes "PATRONI_SYNCHRONOUS_MODE") false;
  patroni_synchronous_mode_strict = env_bool e (codes "PATRONI_SYNCHRONOUS_MODE_STRICT") false;
  patroni_synchronous_node_count = env_int e (codes "PATRONI_SYNCHRONOUS_NODE_COUNT") (pos 1);
  patroni_failsafe_mode = env_bool e (codes "PATRONI_FAILSAFE_MODE") true;
  flux_api_url = env_or e (codes "FLUX_API_URL") (codes "https://api.runonflux.io");
  proxy_enabled = env_bool e (codes "PROXY_ENABLED") true;
  proxy_listen_port = env_int e (codes "PROXY_LISTEN_PORT") (pos 5433);
  proxy_health_interval = env_int e (codes "PROXY_HEALTH_INTERVAL_SECONDS") (pos 3);
}

-- `FromEnv`: a host proxy port that is not set is the host's PostgreSQL port moved by the offset
-- of the container's ports.
unfoldable pub from_env : Environ → Config
unfolding env_config ◌+ℤ◌ ◌-ℤ◌ wrap_int64
from_env e =
    let c = env_config e in
    if leb_ℤ c.host_proxy_port (pos 0)
    then record c {
      host_proxy_port =
          wrap_int64 (c.host_postgres_port +ℤ wrap_int64 (c.proxy_listen_port -ℤ c.postgres_port));
    }
    else c
