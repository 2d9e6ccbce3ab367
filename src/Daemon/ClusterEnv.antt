-- ===== src/Daemon/ClusterEnv.antt =====
-- `updateClusterEnv`: the files that tell etcd and Patroni of the desired nodes.
pub mod Lines
pub mod Synced
use flux_pg_cluster.Base.{
  Bool, true, false, not, ◌&&◌, Option, none, some, List, [], ◌∷◌, ◌++◌, map, if◌then◌else◌,
}
use flux_pg_cluster.Base.Int.{ℤ, pos, ltb_ℤ}
use flux_pg_cluster.Config.{Config}
use flux_pg_cluster.Config.File.{write_cluster_env}
use flux_pg_cluster.Number.{atoi}
use flux_pg_cluster.Text.{Text, codes, equal, has_prefix, join, split, trim_space}
use flux_pg_cluster.Topology.{EtcdTopology, build_etcd_topology}

-- The daemon's settings in memory, the contents of /etc/cluster_env and /etc/patroni/patroni.yml,
-- where they can be read, and the processes that got a SIGHUP.
pub record Node : Type 0 where
  pub cfg : Config
  pub cluster_env : Option Text
  pub patroni_yml : Option Text
  pub signalled : List ℤ

-- What stands in the two files after a write of some text, and the output of pgrep.
pub record System : Type 0 where
  pub write_env : Text → Option Text
  pub write_yml : Text → Option Text
  pub pgrep : Option Text

-- "  hosts: " + hosts
abbrev pub hosts_line : Text → Text
hosts_line hosts = codes "  hosts: " ++ hosts

unfoldable pub is_hosts_line : Text → Bool
is_hosts_line line = has_prefix (trim_space line) (codes "hosts:")

-- The body of the loop over the lines of patroni.yml.
unfoldable pub rewrite_line : Text → Text → Text
rewrite_line hosts line = if is_hosts_line line then hosts_line hosts else line

-- What `updatePatroniYAMLHosts` writes.
unfoldable pub rewrite_yml : Text → Text → Text
rewrite_yml hosts content = join (10 ∷ []) (map (rewrite_line hosts) (split 10 content))

abbrev pub first_pid : List Text → ℤ
first_pid [] = pos 0
first_pid (line ∷ lines) =
    let rest = first_pid lines in let (pid, ok) = atoi (trim_space line) in if ok then pid else rest

-- `findPatroniPID`
unfoldable pub find_patroni_pid : Option Text → ℤ
find_patroni_pid none = pos 0
find_patroni_pid (some output) = first_pid (split 10 (trim_space output))

-- `updatePatroniYAMLHosts`
abbrev pub update_known_yml : System → Text → Node → Option Text → Node
update_known_yml sys hosts n none = n
update_known_yml sys hosts n (some content) =
    let pid = find_patroni_pid sys.pgrep in
    record n {
      patroni_yml = sys.write_yml (rewrite_yml hosts content);
      signalled = if ltb_ℤ (pos 0) pid then n.signalled ++ pid ∷ [] else n.signalled;
    }

unfoldable pub update_patroni_yaml_hosts : System → Text → Node → Node
update_patroni_yaml_hosts sys hosts n = update_known_yml sys hosts n n.patroni_yml

-- The settings with another topology.
abbrev pub with_topology : EtcdTopology → Config → Config
with_topology t cfg = record cfg {
  etcd_hosts = t.hosts;
  patroni_etcd_hosts = t.patroni_hosts;
  etcd_initial_cluster = t.initial;
}

abbrev pub is_current : EtcdTopology → Config → Bool
is_current t cfg =
    equal t.initial cfg.etcd_initial_cluster
    && (equal t.hosts cfg.etcd_hosts && equal t.patroni_hosts cfg.patroni_etcd_hosts)

-- `updateClusterEnv`
unfoldable pub update_cluster_env : System → List Text → Node → Node
update_cluster_env sys desired_ips n =
    let t = build_etcd_topology n.cfg desired_ips in
    if is_current t n.cfg
    then n
    else update_patroni_yaml_hosts sys t.patroni_hosts (record n {
      cfg = with_topology t n.cfg;
      cluster_env = sys.write_env (write_cluster_env (with_topology t n.cfg));
    })
