-- ===== src/Tests/Cycle.antt =====
-- Tests of the daemon's cycle on the cluster of two nodes.
use flux_pg_cluster.Base.{
  ℕ, ◌≡◌, ◌≢◌, ◌↔◌, ◌⊎◌, refl, sym, subst, inl, inr, Bool, true, false, Option, none, some, List,
  [], ◌∷◌, ◌++◌, All, Member, arith,
}
use flux_pg_cluster.Base.Int.{ℤ, pos}
use flux_pg_cluster.Config.{Config}
use flux_pg_cluster.Config.File.{write_cluster_env}
use flux_pg_cluster.Daemon.ClusterEnv.{Node, System, update_cluster_env}
use flux_pg_cluster.Daemon.ClusterEnv.Synced.{
  IsSynced, Writes, HasTopology, update_cluster_env-IsSynced, update_cluster_env-settled,
}
use flux_pg_cluster.Daemon.Tracker.{update_state_tracker}
use flux_pg_cluster.Daemon.Tracker.Stable.{tracked_file, Repeated, update_state_tracker-Repeated}
use flux_pg_cluster.Tests.Cluster.{config_a, ip_a}
use flux_pg_cluster.Text.{Text, codes}
use flux_pg_cluster.Text.Laws.{NoSpace}

abbrev both : Text
both = codes "10.0.0.1,10.0.0.2"

abbrev alone : Text
alone = codes "10.0.0.1"

signatures-NoSpace : All NoSpace (both ∷ both ∷ both ∷ alone ∷ [])
signatures-NoSpace = ground arith

-- Two nodes for three cycles, after one node alone.
stable_now :
    (update_state_tracker (tracked_file (pos 3) (both ∷ both ∷ alone ∷ [])) both (pos 3)).stable
    ≡ true
unfolding update_state_tracker flux_pg_cluster.Text.equal
    flux_pg_cluster.Daemon.Tracker.read_tracker flux_pg_cluster.Etcd.field
    flux_pg_cluster.Etcd.split_n flux_pg_cluster.Etcd.cut_text flux_pg_cluster.Text.trim_space
    flux_pg_cluster.Base.Int.wrap_int64 flux_pg_cluster.Base.Int.◌+ℤ◌ flux_pg_cluster.Number.atoi
    flux_pg_cluster.Number.itoa
stable_now = refl

not_yet :
    (update_state_tracker (tracked_file (pos 3) (both ∷ alone ∷ [])) both (pos 3)).stable ≡ false
unfolding update_state_tracker flux_pg_cluster.Text.equal
    flux_pg_cluster.Daemon.Tracker.read_tracker flux_pg_cluster.Etcd.field
    flux_pg_cluster.Etcd.split_n flux_pg_cluster.Etcd.cut_text flux_pg_cluster.Text.trim_space
    flux_pg_cluster.Base.Int.wrap_int64 flux_pg_cluster.Base.Int.◌+ℤ◌ flux_pg_cluster.Number.atoi
    flux_pg_cluster.Number.itoa
not_yet = refl

update_state_tracker-Repeated_example :
    ((update_state_tracker (tracked_file (pos 3) (both ∷ both ∷ alone ∷ [])) both (pos 3)).stable
      ≡ true)
    ↔ Repeated 2 both (both ∷ both ∷ alone ∷ [])
update_state_tracker-Repeated_example =
    update_state_tracker-Repeated 2 both (both ∷ both ∷ alone ∷ []) signatures-NoSpace (omega arith)

-- Files that can be written, and others that cannot.
abbrev pub sound : System
sound = record { write_env = λ t. some t; write_yml = λ t. some t; pgrep = some (codes "12\n34\n") }

abbrev full_disk : System
full_disk = record { write_env = λ t. none; write_yml = λ t. none; pgrep = none }

abbrev node_a : Node
node_a = record {
  cfg = config_a;
  cluster_env = some (write_cluster_env config_a);
  patroni_yml = none;
  signalled = [];
}

node_a-IsSynced : IsSynced node_a
node_a-IsSynced = record { env = refl; yml = λ content e. cc e }

sound-Writes : Writes sound
sound-Writes = record { env = λ t. refl; yml = λ t. refl }

update_cluster_env-IsSynced_example :
    IsSynced (update_cluster_env sound (ip_a ∷ []) node_a)
    × HasTopology (ip_a ∷ []) (update_cluster_env sound (ip_a ∷ []) node_a).cfg
update_cluster_env-IsSynced_example =
    update_cluster_env-IsSynced sound (ip_a ∷ []) node_a sound-Writes node_a-IsSynced

update_cluster_env-settled_example :
    update_cluster_env sound (ip_a ∷ []) (update_cluster_env full_disk (ip_a ∷ []) node_a)
    ≡ update_cluster_env full_disk (ip_a ∷ []) node_a
update_cluster_env-settled_example = update_cluster_env-settled full_disk sound (ip_a ∷ []) node_a

-- The write has failed, and the daemon does not come back to it.
forgotten :
    (update_cluster_env sound
      (ip_a ∷ [])
      (update_cluster_env full_disk (ip_a ∷ []) node_a)).cluster_env
    ≡ none
unfolding update_cluster_env flux_pg_cluster.Text.equal flux_pg_cluster.Topology.build_etcd_topology
    flux_pg_cluster.Topology.node_name_from_ip flux_pg_cluster.Topology.etcd_url
    flux_pg_cluster.Config.etcd_protocol flux_pg_cluster.Number.itoa
    flux_pg_cluster.Daemon.ClusterEnv.update_patroni_yaml_hosts
forgotten = refl

-- Patroni's file follows, and the first of its processes gets the signal.
rewritten :
    (update_cluster_env sound
      (ip_a ∷ [])
      (record node_a { patroni_yml = some (codes "etcd3:\n  hosts: old\nscope: pg") })).patroni_yml
    ≡ some (codes "etcd3:\n  hosts: 127.0.0.1:2379\nscope: pg")
unfolding update_cluster_env flux_pg_cluster.Text.equal flux_pg_cluster.Topology.build_etcd_topology
    flux_pg_cluster.Topology.node_name_from_ip flux_pg_cluster.Topology.etcd_url
    flux_pg_cluster.Config.etcd_protocol flux_pg_cluster.Number.itoa
    flux_pg_cluster.Daemon.ClusterEnv.update_patroni_yaml_hosts
    flux_pg_cluster.Daemon.ClusterEnv.rewrite_yml flux_pg_cluster.Text.split
    flux_pg_cluster.Daemon.ClusterEnv.rewrite_line flux_pg_cluster.Daemon.ClusterEnv.is_hosts_line
    flux_pg_cluster.Text.trim_space
rewritten = refl

sends_signal :
    (update_cluster_env sound
      (ip_a ∷ [])
      (record node_a { patroni_yml = some (codes "hosts: old") })).signalled
    ≡ pos 12 ∷ []
unfolding update_cluster_env flux_pg_cluster.Text.equal flux_pg_cluster.Topology.build_etcd_topology
    flux_pg_cluster.Topology.node_name_from_ip flux_pg_cluster.Topology.etcd_url
    flux_pg_cluster.Config.etcd_protocol flux_pg_cluster.Number.itoa
    flux_pg_cluster.Daemon.ClusterEnv.update_patroni_yaml_hosts
    flux_pg_cluster.Daemon.ClusterEnv.find_patroni_pid flux_pg_cluster.Text.split
    flux_pg_cluster.Text.trim_space flux_pg_cluster.Number.atoi
sends_signal = refl
