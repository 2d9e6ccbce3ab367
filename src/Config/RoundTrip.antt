-- ===== src/Config/RoundTrip.antt =====
-- What /etc/cluster_env keeps: reading back the file that was written.
use flux_pg_cluster.Base.{◌≡◌, ◌≢◌, refl, ◌∙◌, ap, true, some, List, [], ◌∷◌, ◌++◌, map, All}
use flux_pg_cluster.Config.{Config}
use flux_pg_cluster.Config.File.{
  apply_kv, scan_lines, load_cluster_env, cluster_env_entries, entry_line, write_cluster_env,
}
use flux_pg_cluster.Text.{Text, codes, join, split}
use flux_pg_cluster.Text.Laws.{Lacks, split-join_terminated}
use flux_pg_cluster.Config.Lines.{apply_entries, scan_lines-entries, entry_line-Lacks}
use flux_pg_cluster.Config.Quote.{decode-quote}
use flux_pg_cluster.Config.Values.{atoi-decode, equal_fold-decode}
use flux_pg_cluster.Config.Storable.{IsStorable, entries-IsEntry}

-- The stored settings of `c`, with what the file does not hold taken from `d`.
abbrev pub restored : Config → Config → Config
restored c d = record c {
  host_name = d.host_name;
  postgres_db = d.postgres_db;
  ssl_passphrase = d.ssl_passphrase;
  cluster_ips = d.cluster_ips;
  flux_api_url = d.flux_api_url;
  proxy_enabled = d.proxy_enabled;
  proxy_listen_port = d.proxy_listen_port;
  proxy_health_interval = d.proxy_health_interval;
}

apply_entries-restored :
    (c d : Config) → IsStorable c → apply_entries (cluster_env_entries c) d ≡ restored c d
unfolding cluster_env_entries apply_kv
apply_entries-restored c d h = cc (
  h.my_name.unquoted,
  h.my_ip.unquoted,
  h.etcd_hosts.unquoted,
  h.patroni_etcd_hosts.unquoted,
  h.etcd_initial_cluster.unquoted,
  atoi-decode c.host_postgres_port h.host_postgres_port,
  atoi-decode c.host_proxy_port h.host_proxy_port,
  atoi-decode c.host_patroni_api_port h.host_patroni_api_port,
  atoi-decode c.host_etcd_client_port h.host_etcd_client_port,
  atoi-decode c.host_etcd_peer_port h.host_etcd_peer_port,
  atoi-decode c.postgres_port h.postgres_port,
  atoi-decode c.patroni_api_port h.patroni_api_port,
  atoi-decode c.etcd_client_port h.etcd_client_port,
  atoi-decode c.etcd_peer_port h.etcd_peer_port,
  decode-quote c.postgres_superuser_password,
  decode-quote c.postgres_replication_password,
  equal_fold-decode c.patroni_synchronous_mode,
  equal_fold-decode c.patroni_synchronous_mode_strict,
  atoi-decode c.patroni_synchronous_node_count h.patroni_synchronous_node_count,
  h.app_name.unquoted,
  h.patroni_scope.unquoted,
  equal_fold-decode c.ssl_enabled,
  atoi-decode c.ssl_cert_validity_days h.ssl_cert_validity_days,
  equal_fold-decode c.allow_new_cluster_bootstrap,
  equal_fold-decode c.allow_any_node_bootstrap,
  equal_fold-decode c.auto_bootstrap_if_fresh,
  equal_fold-decode c.dead_cluster_recovery,
  equal_fold-decode c.allow_pg_data_wipe,
  atoi-decode c.etcd_join_max_retries h.etcd_join_max_retries,
  atoi-decode c.etcd_join_retry_delay_seconds h.etcd_join_retry_delay_seconds,
  atoi-decode c.update_interval_seconds h.update_interval_seconds,
  atoi-decode c.desired_state_stability_cycles h.desired_state_stability_cycles,
  atoi-decode c.etcd_unavailable_recovery_cycles h.etcd_unavailable_recovery_cycles,
  atoi-decode c.bootstrap_peer_confirm_cycles h.bootstrap_peer_confirm_cycles,
  atoi-decode c.bootstrap_peer_probe_interval h.bootstrap_peer_probe_interval,
  atoi-decode c.bootstrap_peer_probe_timeout h.bootstrap_peer_probe_timeout,
  atoi-decode c.patroni_ttl h.patroni_ttl,
  atoi-decode c.patroni_loop_wait h.patroni_loop_wait,
  atoi-decode c.patroni_retry_timeout h.patroni_retry_timeout,
  atoi-decode c.patroni_max_lag h.patroni_max_lag,
  atoi-decode c.patroni_master_start_timeout h.patroni_master_start_timeout,
  atoi-decode c.patroni_master_stop_timeout h.patroni_master_stop_timeout,
  equal_fold-decode c.patroni_use_slots,
  h.patroni_log_level.unquoted,
  equal_fold-decode c.patroni_failsafe_mode,
)

split-lines :
    (es : List (Text × Text))
    → es ≢ []
    → All (Lacks b'\n') (map entry_line es)
    → split b'\n' (join (codes "\n") (map entry_line es) ++ codes "\n")
      ≡ map entry_line es ++ [] ∷ []
split-lines [] n h = absurd (n refl)
split-lines (e ∷ es) n h = split-join_terminated b'\n' (entry_line e) (map entry_line es) h

cluster_env_entries-ne-nil : (c : Config) → cluster_env_entries c ≢ []
unfolding cluster_env_entries
cluster_env_entries-ne-nil c e = cc

-- Reading back the file that was written restores every stored setting, and ends without an
-- error, whatever the settings before, where the settings fit on lines (`IsStorable`).
pub load-write :
    (c d : Config)
    → IsStorable c
    → load_cluster_env (some (write_cluster_env c)) d ≡ (restored c d, true)
unfolding load_cluster_env write_cluster_env
load-write c d h =
    let e = entries-IsEntry c h in
    ap (λ ls. scan_lines ls d)
      (split-lines (cluster_env_entries c) (cluster_env_entries-ne-nil c)
        (entry_line-Lacks (cluster_env_entries c) e))
    ∙ scan_lines-entries (cluster_env_entries c) d e
    ∙ ap (λ r. (r, true)) (apply_entries-restored c d h)
