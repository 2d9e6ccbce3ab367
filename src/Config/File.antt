-- ===== src/Config/File.antt =====
-- internal/config/config.go: the file /etc/cluster_env, one KEY=VALUE to a line. A file is its
-- content, or `none` where it cannot be opened.
use flux_pg_cluster.Base.{
  ℕ, Bool, true, false, ◌&&◌, ◌||◌, Option, none, some, List, [], ◌∷◌, ◌++◌, map, length, ◌==◌, ltb,
  if◌then◌else◌,
}
use flux_pg_cluster.Config.{Config}
use flux_pg_cluster.Number.{atoi, itoa}
use flux_pg_cluster.Text.{
  Text, codes, cut, equal, equal_fold, is_empty, has_prefix, join, replace_all, split, trim_space,
}

-- An apostrophe, closed off and quoted for a POSIX shell.
abbrev pub quoted_apostrophe : Text
quoted_apostrophe = 39 ∷ 34 ∷ 39 ∷ 34 ∷ 39 ∷ []

-- `shellQuoteValue`
unfoldable pub shell_quote_value : Text → Text
unfolding replace_all
shell_quote_value val = 39 ∷ (replace_all val (39 ∷ []) quoted_apostrophe ++ 39 ∷ [])

-- `s` without its last byte, and whether that is an apostrophe.
unfoldable pub drop_last : Text → Text
drop_last [] = []
drop_last (c ∷ []) = []
drop_last (c ∷ d ∷ s) = c ∷ drop_last (d ∷ s)

unfoldable pub ends_with : ℕ → Text → Bool
ends_with b [] = false
ends_with b (c ∷ []) = c == b
ends_with b (c ∷ d ∷ s) = ends_with b (d ∷ s)

-- `decodeShellValue`
unfoldable pub decode_shell_value : Text → Text
unfolding replace_all drop_last ends_with
decode_shell_value [] = []
decode_shell_value (c ∷ s) =
    if c == 39 && ends_with 39 s
    then replace_all (drop_last s) quoted_apostrophe (39 ∷ [])
    else c ∷ s

-- `applyKV`
unfoldable pub apply_kv : Text → Text → Config → Config
unfolding equal
apply_kv key val c =
    if equal key (codes "MY_NAME")
    then record c { my_name = val }
    else if equal key (codes "MY_IP")
    then record c { my_ip = val }
    else if equal key (codes "APP_NAME")
    then record c { app_name = val }
    else if equal key (codes "PATRONI_SCOPE")
    then record c { patroni_scope = val }
    else if equal key (codes "ETCD_HOSTS")
    then record c { etcd_hosts = val }
    else if equal key (codes "PATRONI_ETCD_HOSTS")
    then record c { patroni_etcd_hosts = val }
    else if equal key (codes "ETCD_INITIAL_CLUSTER")
    then record c { etcd_initial_cluster = val }
    else if equal key (codes "SSL_ENABLED")
    then record c { ssl_enabled = equal_fold val (codes "true") }
    else if equal key (codes "POSTGRES_SUPERUSER_PASSWORD")
    then record c { postgres_superuser_password = val }
    else if equal key (codes "POSTGRES_REPLICATION_PASSWORD")
    then record c { postgres_replication_password = val }
    else if equal key (codes "HOST_POSTGRES_PORT")
    then record c { host_postgres_port = (atoi val).0 }
    else if equal key (codes "HOST_PROXY_PORT")
    then record c { host_proxy_port = (atoi val).0 }
    else if equal key (codes "HOST_PATRONI_API_PORT")
    then record c { host_patroni_api_port = (atoi val).0 }
    else if equal key (codes "HOST_ETCD_CLIENT_PORT")
    then record c { host_etcd_client_port = (atoi val).0 }
    else if equal key (codes "HOST_ETCD_PEER_PORT")
    then record c { host_etcd_peer_port = (atoi val).0 }
    else if equal key (codes "POSTGRES_PORT")
    then record c { postgres_port = (atoi val).0 }
    else if equal key (codes "PATRONI_API_PORT")
    then record c { patroni_api_port = (atoi val).0 }
    else if equal key (codes "ETCD_CLIENT_PORT")
    then record c { etcd_client_port = (atoi val).0 }
    else if equal key (codes "ETCD_PEER_PORT")
    then record c { etcd_peer_port = (atoi val).0 }
    else if equal key (codes "ALLOW_NEW_CLUSTER_BOOTSTRAP")
    then record c { allow_new_cluster_bootstrap = equal_fold val (codes "true") }
    else if equal key (codes "ALLOW_ANY_NODE_BOOTSTRAP")
    then record c { allow_any_node_bootstrap = equal_fold val (codes "true") }
    else if equal key (codes "AUTO_BOOTSTRAP_IF_FRESH")
    then record c { auto_bootstrap_if_fresh = equal_fold val (codes "true") }
    else if equal key (codes "DEAD_CLUSTER_RECOVERY")
    then record c { dead_cluster_recovery = equal_fold val (codes "true") }
    else if equal key (codes "ALLOW_PG_DATA_WIPE")
    then record c { allow_pg_data_wipe = equal_fold val (codes "true") }
    else if equal key (codes "ETCD_JOIN_MAX_RETRIES")
    then record c { etcd_join_max_retries = (atoi val).0 }
    else if equal key (codes "ETCD_JOIN_RETRY_DELAY_SECONDS")
    then record c { etcd_join_retry_delay_seconds = (atoi val).0 }
    else if equal key (codes "UPDATE_INTERVAL_SECONDS")
    then record c { update_interval_seconds = (atoi val).0 }
    else if equal key (codes "DESIRED_STATE_STABILITY_CYCLES")
    then record c { desired_state_stability_cycles = (atoi val).0 }
    else if equal key (codes "ETCD_UNAVAILABLE_RECOVERY_CYCLES")
    then record c { etcd_unavailable_recovery_cycles = (atoi val).0 }
    else if equal key (codes "BOOTSTRAP_PEER_CONFIRM_CYCLES")
    then record c { bootstrap_peer_confirm_cycles = (atoi val).0 }
    else if equal key (codes "BOOTSTRAP_PEER_PROBE_INTERVAL_SECONDS")
    then record c { bootstrap_peer_probe_interval = (atoi val).0 }
    else if equal key (codes "BOOTSTRAP_PEER_PROBE_TIMEOUT_SECONDS")
    then record c { bootstrap_peer_probe_timeout = (atoi val).0 }
    else if equal key (codes "PATRONI_TTL")
    then record c { patroni_ttl = (atoi val).0 }
    else if equal key (codes "PATRONI_LOOP_WAIT")
    then record c { patroni_loop_wait = (atoi val).0 }
    else if equal key (codes "PATRONI_RETRY_TIMEOUT")
    then record c { patroni_retry_timeout = (atoi val).0 }
    else if equal key (codes "PATRONI_MAX_LAG")
    then record c { patroni_max_lag = (atoi val).0 }
    else if equal key (codes "PATRONI_MASTER_START_TIMEOUT")
    then record c { patroni_master_start_timeout = (atoi val).0 }
    else if equal key (codes "PATRONI_MASTER_STOP_TIMEOUT")
    then record c { patroni_master_stop_timeout = (atoi val).0 }
    else if equal key (codes "PATRONI_USE_SLOTS")
    then record c { patroni_use_slots = equal_fold val (codes "true") }
    else if equal key (codes "PATRONI_LOG_LEVEL")
    then record c { patroni_log_level = val }
    else if equal key (codes "PATRONI_SYNCHRONOUS_MODE")
    then record c { patroni_synchronous_mode = equal_fold val (codes "true") }
    else if equal key (codes "PATRONI_SYNCHRONOUS_MODE_STRICT")
    then record c { patroni_synchronous_mode_strict = equal_fold val (codes "true") }
    else if equal key (codes "PATRONI_SYNCHRONOUS_NODE_COUNT")
    then record c { patroni_synchronous_node_count = (atoi val).0 }
    else if equal key (codes "PATRONI_FAILSAFE_MODE")
    then record c { patroni_failsafe_mode = equal_fold val (codes "true") }
    else if equal key (codes "SSL_CERT_VALIDITY_DAYS")
    then record c { ssl_cert_validity_days = (atoi val).0 }
    else c

abbrev pub apply_cut : Option (Text × Text) → Config → Config
apply_cut none c = c
apply_cut (some (key, val)) c = apply_kv key (decode_shell_value val) c

-- The body of the scanner's loop.
unfoldable pub load_line : Text → Config → Config
unfolding trim_space has_prefix cut apply_kv decode_shell_value
load_line text c =
    let line = trim_space text in
    if is_empty line || has_prefix line (codes "#") then c else apply_cut (cut b'=' line) c

-- A bufio.Scanner gives up at a line that does not fit its buffer.
abbrev pub max_line : ℕ
max_line = 65536

-- The loop over the lines. The flag is `scanner.Err() == nil`.
unfoldable pub scan_lines : List Text → Config → Config × Bool
unfolding load_line
scan_lines [] c = (c, true)
scan_lines (line ∷ rest) c = elim (ltb (length line) max_line) [
  | true ↦ scan_lines rest (load_line line c)
  | false ↦ (c, false)
]

-- `LoadClusterEnv`, and whether its error is nil. An empty line behind the last newline, which
-- the scanner does not deliver, is skipped like any other empty line.
unfoldable pub load_cluster_env : Option Text → Config → Config × Bool
unfolding scan_lines split
load_cluster_env none c = (c, false)
load_cluster_env (some content) c = scan_lines (split b'\n' content) c

-- strconv.FormatBool
abbrev pub format_bool : Bool → Text
format_bool true = codes "true"
format_bool false = codes "false"

-- What `WriteClusterEnv` stores under each key.
unfoldable pub cluster_env_entries : Config → List (Text × Text)
cluster_env_entries c =
    (codes "MY_NAME", c.my_name)
    ∷ (codes "MY_IP", c.my_ip)
    ∷ (codes "ETCD_HOSTS", c.etcd_hosts)
    ∷ (codes "PATRONI_ETCD_HOSTS", c.patroni_etcd_hosts)
    ∷ (codes "ETCD_INITIAL_CLUSTER", c.etcd_initial_cluster)
    ∷ (codes "HOST_POSTGRES_PORT", itoa c.host_postgres_port)
    ∷ (codes "HOST_PROXY_PORT", itoa c.host_proxy_port)
    ∷ (codes "HOST_PATRONI_API_PORT", itoa c.host_patroni_api_port)
    ∷ (codes "HOST_ETCD_CLIENT_PORT", itoa c.host_etcd_client_port)
    ∷ (codes "HOST_ETCD_PEER_PORT", itoa c.host_etcd_peer_port)
    ∷ (codes "POSTGRES_PORT", itoa c.postgres_port)
    ∷ (codes "PATRONI_API_PORT", itoa c.patroni_api_port)
    ∷ (codes "ETCD_CLIENT_PORT", itoa c.etcd_client_port)
    ∷ (codes "ETCD_PEER_PORT", itoa c.etcd_peer_port)
    ∷ (codes "POSTGRES_SUPERUSER_PASSWORD", shell_quote_value c.postgres_superuser_password)
    ∷ (codes "POSTGRES_REPLICATION_PASSWORD", shell_quote_value c.postgres_replication_password)
    ∷ (codes "PATRONI_SYNCHRONOUS_MODE", format_bool c.patroni_synchronous_mode)
    ∷ (codes "PATRONI_SYNCHRONOUS_MODE_STRICT", format_bool c.patroni_synchronous_mode_strict)
    ∷ (codes "PATRONI_SYNCHRONOUS_NODE_COUNT", itoa c.patroni_synchronous_node_count)
    ∷ (codes "APP_NAME", c.app_name)
    ∷ (codes "PATRONI_SCOPE", c.patroni_scope)
    ∷ (codes "SSL_ENABLED", format_bool c.ssl_enabled)
    ∷ (codes "SSL_CERT_VALIDITY_DAYS", itoa c.ssl_cert_validity_days)
    ∷ (codes "ALLOW_NEW_CLUSTER_BOOTSTRAP", format_bool c.allow_new_cluster_bootstrap)
    ∷ (codes "ALLOW_ANY_NODE_BOOTSTRAP", format_bool c.allow_any_node_bootstrap)
    ∷ (codes "AUTO_BOOTSTRAP_IF_FRESH", format_bool c.auto_bootstrap_if_fresh)
    ∷ (codes "DEAD_CLUSTER_RECOVERY", format_bool c.dead_cluster_recovery)
    ∷ (codes "ALLOW_PG_DATA_WIPE", format_bool c.allow_pg_data_wipe)
    ∷ (codes "ETCD_JOIN_MAX_RETRIES", itoa c.etcd_join_max_retries)
    ∷ (codes "ETCD_JOIN_RETRY_DELAY_SECONDS", itoa c.etcd_join_retry_delay_seconds)
    ∷ (codes "UPDATE_INTERVAL_SECONDS", itoa c.update_interval_seconds)
    ∷ (codes "DESIRED_STATE_STABILITY_CYCLES", itoa c.desired_state_stability_cycles)
    ∷ (codes "ETCD_UNAVAILABLE_RECOVERY_CYCLES", itoa c.etcd_unavailable_recovery_cycles)
    ∷ (codes "BOOTSTRAP_PEER_CONFIRM_CYCLES", itoa c.bootstrap_peer_confirm_cycles)
    ∷ (codes "BOOTSTRAP_PEER_PROBE_INTERVAL_SECONDS", itoa c.bootstrap_peer_probe_interval)
    ∷ (codes "BOOTSTRAP_PEER_PROBE_TIMEOUT_SECONDS", itoa c.bootstrap_peer_probe_timeout)
    ∷ (codes "PATRONI_TTL", itoa c.patroni_ttl)
    ∷ (codes "PATRONI_LOOP_WAIT", itoa c.patroni_loop_wait)
    ∷ (codes "PATRONI_RETRY_TIMEOUT", itoa c.patroni_retry_timeout)
    ∷ (codes "PATRONI_MAX_LAG", itoa c.patroni_max_lag)
    ∷ (codes "PATRONI_MASTER_START_TIMEOUT", itoa c.patroni_master_start_timeout)
    ∷ (codes "PATRONI_MASTER_STOP_TIMEOUT", itoa c.patroni_master_stop_timeout)
    ∷ (codes "PATRONI_USE_SLOTS", format_bool c.patroni_use_slots)
    ∷ (codes "PATRONI_LOG_LEVEL", c.patroni_log_level)
    ∷ (codes "PATRONI_FAILSAFE_MODE", format_bool c.patroni_failsafe_mode)
    ∷ []

abbrev pub entry_line : Text × Text → Text
entry_line (key, val) = key ++ b'=' ∷ val

-- The content that `WriteClusterEnv` writes.
unfoldable pub write_cluster_env : Config → Text
unfolding cluster_env_entries join
write_cluster_env c = join (codes "\n") (map entry_line (cluster_env_entries c)) ++ codes "\n"
