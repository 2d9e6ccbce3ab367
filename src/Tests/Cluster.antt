-- ===== src/Tests/Cluster.antt =====
-- The cluster of the tests.
use flux_pg_cluster.Base.{ℕ, true, false, none, some, [], ◌∷◌}
use flux_pg_cluster.Base.Int.{pos}
use flux_pg_cluster.Config.{Config}
use flux_pg_cluster.Identity.{
  missing, entries, LocalDisk, NodeIdentity, PeerIdentityResult, RecoveryAuthority, document,
  Evidence,
}
use flux_pg_cluster.Text.{Text, codes}

abbrev pub ip_a : Text
ip_a = codes "10.0.0.1"

abbrev pub ip_b : Text
ip_b = codes "10.0.0.2"

abbrev pub name_a : Text
name_a = codes "node-10-0-0-1"

abbrev pub name_b : Text
name_b = codes "node-10-0-0-2"

abbrev pub cluster : Text
cluster = codes "node-10-0-0-1=http://10.0.0.1:2380,node-10-0-0-2=http://10.0.0.2:2380"

abbrev pub config_a : Config
config_a = record {
  app_name = codes "app";
  patroni_scope = codes "pg";
  my_name = name_a;
  my_ip = ip_a;
  host_name = codes "host";
  postgres_db = codes "db";
  postgres_superuser_password = codes "it's";
  postgres_replication_password = codes "''";
  ssl_enabled = false;
  ssl_passphrase = [];
  ssl_cert_validity_days = pos 365;
  host_postgres_port = pos 5432;
  host_proxy_port = pos 5433;
  host_patroni_api_port = pos 8008;
  host_etcd_client_port = pos 2379;
  host_etcd_peer_port = pos 2380;
  postgres_port = pos 5432;
  patroni_api_port = pos 8008;
  etcd_client_port = pos 2379;
  etcd_peer_port = pos 2380;
  etcd_hosts = codes "10.0.0.1:2379,10.0.0.2:2379";
  patroni_etcd_hosts = codes "10.0.0.1:2379";
  etcd_initial_cluster = cluster;
  cluster_ips = ip_a ∷ ip_b ∷ [];
  allow_new_cluster_bootstrap = false;
  allow_any_node_bootstrap = false;
  auto_bootstrap_if_fresh = true;
  dead_cluster_recovery = true;
  allow_pg_data_wipe = false;
  etcd_join_max_retries = pos 2;
  etcd_join_retry_delay_seconds = pos 5;
  update_interval_seconds = pos 60;
  desired_state_stability_cycles = pos 3;
  etcd_unavailable_recovery_cycles = pos 5;
  bootstrap_peer_confirm_cycles = pos 2;
  bootstrap_peer_probe_interval = pos 5;
  bootstrap_peer_probe_timeout = pos 3;
  patroni_ttl = pos 30;
  patroni_loop_wait = pos 10;
  patroni_retry_timeout = pos 10;
  patroni_max_lag = pos 1048576;
  patroni_master_start_timeout = pos 300;
  patroni_master_stop_timeout = pos 0;
  patroni_use_slots = true;
  patroni_log_level = codes "INFO";
  patroni_synchronous_mode = false;
  patroni_synchronous_mode_strict = false;
  patroni_synchronous_node_count = pos 1;
  patroni_failsafe_mode = true;
  flux_api_url = codes "https://api.runonflux.io";
  proxy_enabled = true;
  proxy_listen_port = pos 5433;
  proxy_health_interval = pos 5;
}

-- The first node's disk: data of a primary, and an etcd directory that is gone.
abbrev pub disk_a : LocalDisk
disk_a = record {
  pg_data = entries ((codes "global", false) ∷ []);
  etcd_data = missing;
  control_output = some (
      codes
        "Database system identifier: 7\nLatest checkpoint location: 0/A\nLatest checkpoint's TimeLineID: 1");
  has_global = true;
  has_standby_signal = false;
  has_recovery_signal = false;
  has_snapshot = false;
}

abbrev pub empty_disk : LocalDisk
empty_disk = record {
  pg_data = missing;
  etcd_data = entries ((codes ".etcd3_api", true) ∷ []);
  control_output = none;
  has_global = false;
  has_standby_signal = false;
  has_recovery_signal = false;
  has_snapshot = false;
}

-- What the first node says of itself.
abbrev pub identity_a : NodeIdentity
identity_a = record {
  app_name = codes "app";
  patroni_scope = codes "pg";
  node_name = name_a;
  pg_data_empty = false;
  postgres_system_identifier = codes "7";
  postgres_durable_role = codes "primary";
  postgres_control_state = [];
  postgres_timeline = 1;
  postgres_wal_position = codes "0/A";
  etcd_data_empty = true;
  membership_view = name_a ∷ name_b ∷ [];
}

-- What the second node says: a replica's data, at a later position.
abbrev pub identity_b : NodeIdentity
identity_b = record identity_a {
  node_name = name_b;
  postgres_durable_role = codes "replica";
  postgres_wal_position = codes "0/B";
}

-- A second node without any data.
abbrev pub identity_fresh : NodeIdentity
identity_fresh = record identity_b {
  pg_data_empty = true;
  postgres_system_identifier = [];
  postgres_durable_role = [];
  postgres_timeline = 0;
  postgres_wal_position = [];
}

abbrev pub result_of : Text → NodeIdentity → PeerIdentityResult
result_of ip identity = record { ip = ip; identity = identity; failed = false }

abbrev pub evidence_of : LocalDisk → NodeIdentity → ℕ → Evidence
evidence_of disk identity cycle = record {
  disk = disk;
  reply = λ ip. document identity;
  patroni_id = λ ip. none;
}

abbrev pub authority_a : RecoveryAuthority
authority_a = record { ip = ip_a; node_name = name_a; system_id = codes "7" }
