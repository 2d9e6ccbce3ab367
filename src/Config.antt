-- ===== src/Config.antt =====
-- internal/config/config.go: the settings that the subcommands share.
pub mod Env
pub mod File
pub mod Quote
pub mod Lines
pub mod Values
pub mod Storable
pub mod RoundTrip
use flux_pg_cluster.Base.{Bool, List, if◌then◌else◌}
use flux_pg_cluster.Base.Int.{ℤ}
use flux_pg_cluster.Text.{Text, codes}

pub record Config : Type 0 where
  pub app_name : Text
  pub patroni_scope : Text
  pub my_name : Text
  pub my_ip : Text
  pub host_name : Text
  pub postgres_db : Text
  pub postgres_superuser_password : Text
  pub postgres_replication_password : Text
  pub ssl_enabled : Bool
  pub ssl_passphrase : Text
  pub ssl_cert_validity_days : ℤ
  pub host_postgres_port : ℤ
  pub host_proxy_port : ℤ
  pub host_patroni_api_port : ℤ
  pub host_etcd_client_port : ℤ
  pub host_etcd_peer_port : ℤ
  pub postgres_port : ℤ
  pub patroni_api_port : ℤ
  pub etcd_client_port : ℤ
  pub etcd_peer_port : ℤ
  pub etcd_hosts : Text
  pub patroni_etcd_hosts : Text
  pub etcd_initial_cluster : Text
  pub cluster_ips : List Text
  pub allow_new_cluster_bootstrap : Bool
  pub allow_any_node_bootstrap : Bool
  pub auto_bootstrap_if_fresh : Bool
  pub dead_cluster_recovery : Bool
  pub allow_pg_data_wipe : Bool
  pub etcd_join_max_retries : ℤ
  pub etcd_join_retry_delay_seconds : ℤ
  pub update_interval_seconds : ℤ
  pub desired_state_stability_cycles : ℤ
  pub etcd_unavailable_recovery_cycles : ℤ
  pub bootstrap_peer_confirm_cycles : ℤ
  pub bootstrap_peer_probe_interval : ℤ
  pub bootstrap_peer_probe_timeout : ℤ
  pub patroni_ttl : ℤ
  pub patroni_loop_wait : ℤ
  pub patroni_retry_timeout : ℤ
  pub patroni_max_lag : ℤ
  pub patroni_master_start_timeout : ℤ
  pub patroni_master_stop_timeout : ℤ
  pub patroni_use_slots : Bool
  pub patroni_log_level : Text
  pub patroni_synchronous_mode : Bool
  pub patroni_synchronous_mode_strict : Bool
  pub patroni_synchronous_node_count : ℤ
  pub patroni_failsafe_mode : Bool
  pub flux_api_url : Text
  pub proxy_enabled : Bool
  pub proxy_listen_port : ℤ
  pub proxy_health_interval : ℤ

-- `EtcdProtocol`
unfoldable pub etcd_protocol : Config → Text
etcd_protocol c = if c.ssl_enabled then codes "https" else codes "http"
