-- ===== src/Tests/Files.antt =====
-- Tests of /etc/cluster_env.
use flux_pg_cluster.Base.{◌≡◌, refl, true, some, [], arith}
use flux_pg_cluster.Base.Int.{pos}
use flux_pg_cluster.Config.File.{
  shell_quote_value, decode_shell_value, load_cluster_env, write_cluster_env,
}
use flux_pg_cluster.Config.Quote.{decode-quote}
use flux_pg_cluster.Config.RoundTrip.{restored, load-write}
use flux_pg_cluster.Config.Storable.{IsPlainText, IsStorable}
use flux_pg_cluster.Tests.Cluster.{config_a}
use flux_pg_cluster.Text.{codes, trim_right}

decode-quote_example : decode_shell_value (shell_quote_value (codes "it's")) ≡ codes "it's"
decode-quote_example = decode-quote (codes "it's")

my_name-IsPlainText : IsPlainText config_a.my_name
unfolding trim_right decode_shell_value
my_name-IsPlainText = record {
  value = record { one_line = ground arith; trimmed = refl; short = omega arith };
  unquoted = refl;
}

my_ip-IsPlainText : IsPlainText config_a.my_ip
unfolding trim_right decode_shell_value
my_ip-IsPlainText = record {
  value = record { one_line = ground arith; trimmed = refl; short = omega arith };
  unquoted = refl;
}

etcd_hosts-IsPlainText : IsPlainText config_a.etcd_hosts
unfolding trim_right decode_shell_value
etcd_hosts-IsPlainText = record {
  value = record { one_line = ground arith; trimmed = refl; short = omega arith };
  unquoted = refl;
}

patroni_etcd_hosts-IsPlainText : IsPlainText config_a.patroni_etcd_hosts
unfolding trim_right decode_shell_value
patroni_etcd_hosts-IsPlainText = record {
  value = record { one_line = ground arith; trimmed = refl; short = omega arith };
  unquoted = refl;
}

etcd_initial_cluster-IsPlainText : IsPlainText config_a.etcd_initial_cluster
unfolding trim_right decode_shell_value
etcd_initial_cluster-IsPlainText = record {
  value = record { one_line = ground arith; trimmed = refl; short = omega arith };
  unquoted = refl;
}

app_name-IsPlainText : IsPlainText config_a.app_name
unfolding trim_right decode_shell_value
app_name-IsPlainText = record {
  value = record { one_line = ground arith; trimmed = refl; short = omega arith };
  unquoted = refl;
}

patroni_scope-IsPlainText : IsPlainText config_a.patroni_scope
unfolding trim_right decode_shell_value
patroni_scope-IsPlainText = record {
  value = record { one_line = ground arith; trimmed = refl; short = omega arith };
  unquoted = refl;
}

patroni_log_level-IsPlainText : IsPlainText config_a.patroni_log_level
unfolding trim_right decode_shell_value
patroni_log_level-IsPlainText = record {
  value = record { one_line = ground arith; trimmed = refl; short = omega arith };
  unquoted = refl;
}

config_a-IsStorable : IsStorable config_a
unfolding shell_quote_value
config_a-IsStorable = record {
  my_name = my_name-IsPlainText;
  my_ip = my_ip-IsPlainText;
  etcd_hosts = etcd_hosts-IsPlainText;
  patroni_etcd_hosts = patroni_etcd_hosts-IsPlainText;
  etcd_initial_cluster = etcd_initial_cluster-IsPlainText;
  host_postgres_port = omega arith;
  host_proxy_port = omega arith;
  host_patroni_api_port = omega arith;
  host_etcd_client_port = omega arith;
  host_etcd_peer_port = omega arith;
  postgres_port = omega arith;
  patroni_api_port = omega arith;
  etcd_client_port = omega arith;
  etcd_peer_port = omega arith;
  postgres_superuser_password = record { one_line = ground arith; short = omega arith };
  postgres_replication_password = record { one_line = ground arith; short = omega arith };
  patroni_synchronous_node_count = omega arith;
  app_name = app_name-IsPlainText;
  patroni_scope = patroni_scope-IsPlainText;
  ssl_cert_validity_days = omega arith;
  etcd_join_max_retries = omega arith;
  etcd_join_retry_delay_seconds = omega arith;
  update_interval_seconds = omega arith;
  desired_state_stability_cycles = omega arith;
  etcd_unavailable_recovery_cycles = omega arith;
  bootstrap_peer_confirm_cycles = omega arith;
  bootstrap_peer_probe_interval = omega arith;
  bootstrap_peer_probe_timeout = omega arith;
  patroni_ttl = omega arith;
  patroni_loop_wait = omega arith;
  patroni_retry_timeout = omega arith;
  patroni_max_lag = omega arith;
  patroni_master_start_timeout = omega arith;
  patroni_master_stop_timeout = omega arith;
  patroni_log_level = patroni_log_level-IsPlainText;
}

load-write_example :
    load_cluster_env
      (some (write_cluster_env config_a))
      (record config_a { my_name = []; host_proxy_port = pos 1 })
    ≡ (restored config_a (record config_a { my_name = []; host_proxy_port = pos 1 }), true)
load-write_example =
    load-write config_a (record config_a { my_name = []; host_proxy_port = pos 1 })
      config_a-IsStorable
