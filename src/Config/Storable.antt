-- ===== src/Config/Storable.antt =====
-- The settings that /etc/cluster_env can hold, one to a line.
use flux_pg_cluster.Base.{arith, ◌≡◌, All}
use flux_pg_cluster.Base.Int.{FitsInt64}
use flux_pg_cluster.Config.{Config}
use flux_pg_cluster.Config.File.{decode_shell_value, cluster_env_entries}
use flux_pg_cluster.Text.{Text}
use flux_pg_cluster.Config.Lines.{IsValue, IsEntry, every_key_byte}
use flux_pg_cluster.Config.Values.{IsPassword, format_bool-IsValue, itoa-IsValue, quote-IsValue}

-- A text that is stored as it is, and does not look like a quoted one.
pub record IsPlainText (v : Text) : Type 0 where
  pub value : IsValue v
  pub unquoted : decode_shell_value v ≡ v

-- The settings can be stored on lines.
pub record IsStorable (c : Config) : Type 0 where
  pub my_name : IsPlainText c.my_name
  pub my_ip : IsPlainText c.my_ip
  pub etcd_hosts : IsPlainText c.etcd_hosts
  pub patroni_etcd_hosts : IsPlainText c.patroni_etcd_hosts
  pub etcd_initial_cluster : IsPlainText c.etcd_initial_cluster
  pub host_postgres_port : FitsInt64 c.host_postgres_port
  pub host_proxy_port : FitsInt64 c.host_proxy_port
  pub host_patroni_api_port : FitsInt64 c.host_patroni_api_port
  pub host_etcd_client_port : FitsInt64 c.host_etcd_client_port
  pub host_etcd_peer_port : FitsInt64 c.host_etcd_peer_port
  pub postgres_port : FitsInt64 c.postgres_port
  pub patroni_api_port : FitsInt64 c.patroni_api_port
  pub etcd_client_port : FitsInt64 c.etcd_client_port
  pub etcd_peer_port : FitsInt64 c.etcd_peer_port
  pub postgres_superuser_password : IsPassword c.postgres_superuser_password
  pub postgres_replication_password : IsPassword c.postgres_replication_password
  pub patroni_synchronous_node_count : FitsInt64 c.patroni_synchronous_node_count
  pub app_name : IsPlainText c.app_name
  pub patroni_scope : IsPlainText c.patroni_scope
  pub ssl_cert_validity_days : FitsInt64 c.ssl_cert_validity_days
  pub etcd_join_max_retries : FitsInt64 c.etcd_join_max_retries
  pub etcd_join_retry_delay_seconds : FitsInt64 c.etcd_join_retry_delay_seconds
  pub update_interval_seconds : FitsInt64 c.update_interval_seconds
  pub desired_state_stability_cycles : FitsInt64 c.desired_state_stability_cycles
  pub etcd_unavailable_recovery_cycles : FitsInt64 c.etcd_unavailable_recovery_cycles
  pub bootstrap_peer_confirm_cycles : FitsInt64 c.bootstrap_peer_confirm_cycles
  pub bootstrap_peer_probe_interval : FitsInt64 c.bootstrap_peer_probe_interval
  pub bootstrap_peer_probe_timeout : FitsInt64 c.bootstrap_peer_probe_timeout
  pub patroni_ttl : FitsInt64 c.patroni_ttl
  pub patroni_loop_wait : FitsInt64 c.patroni_loop_wait
  pub patroni_retry_timeout : FitsInt64 c.patroni_retry_timeout
  pub patroni_max_lag : FitsInt64 c.patroni_max_lag
  pub patroni_master_start_timeout : FitsInt64 c.patroni_master_start_timeout
  pub patroni_master_stop_timeout : FitsInt64 c.patroni_master_stop_timeout
  pub patroni_log_level : IsPlainText c.patroni_log_level

pub entries-IsEntry : (c : Config) → IsStorable c → All IsEntry (cluster_env_entries c)
unfolding cluster_env_entries every_key_byte
entries-IsEntry c h = grind (arith, itoa-IsValue, quote-IsValue, format_bool-IsValue)
