-- ===== src/Daemon/ClusterEnv/Synced.antt =====
-- The files follow the desired nodes, as long as writing them succeeds.
use flux_pg_cluster.Base.{
  ◌≡◌, refl, sym, ap, ◌∙◌, subst, ◌⊎◌, inl, inr, true, Option, none, some, List, Bool-cases, arith,
}
use flux_pg_cluster.Config.{Config, etcd_protocol}
use flux_pg_cluster.Config.File.{write_cluster_env}
use flux_pg_cluster.Daemon.ClusterEnv.{
  Node, System, rewrite_yml, update_known_yml, update_patroni_yaml_hosts, with_topology, is_current,
  update_cluster_env,
}
use flux_pg_cluster.Text.{Text, codes}
use flux_pg_cluster.Daemon.ClusterEnv.Lines.{NamesHosts, rewrite_yml-NamesHosts}
use flux_pg_cluster.Text.Laws.{Lacks, equal_refl}
use flux_pg_cluster.Topology.Parts.{IsAddress, Lacks-IsHarmless, host_port-All}
use flux_pg_cluster.Topology.{host_port, EtcdTopology, build_etcd_topology}

-- The files agree with the settings in memory.
pub record IsSynced (n : Node) : Type 0 where
  pub env : n.cluster_env ≡ some (write_cluster_env n.cfg)
  pub yml :
      (content : Text) → n.patroni_yml ≡ some content → NamesHosts n.cfg.patroni_etcd_hosts content

-- Writing succeeds.
pub record Writes (sys : System) : Type 0 where
  pub env : (t : Text) → sys.write_env t ≡ some t
  pub yml : (t : Text) → sys.write_yml t ≡ some t

-- The hosts that Patroni is given are the local etcd.
local-Lacks :
    (cfg : Config) (ips : List Text) → Lacks 10 (build_etcd_topology cfg ips).patroni_hosts
unfolding build_etcd_topology
local-Lacks cfg ips =
    host_port-All (Lacks-IsHarmless 10 refl (λ c d. omega (arith, d)) (omega arith) (omega arith))
      (codes "127.0.0.1") local cfg.etcd_client_port (omega arith)
  where
    local : IsAddress (codes "127.0.0.1")
    local = record { ne_nil = λ e. cc; dotted = ground arith }

update_yml-cfg :
    (sys : System) (hosts : Text) (n : Node) (o : Option Text)
    → ((update_known_yml sys hosts n o).cfg ≡ n.cfg)
      × ((update_known_yml sys hosts n o).cluster_env ≡ n.cluster_env)
update_yml-cfg sys hosts n none = (refl, refl)
update_yml-cfg sys hosts n (some content) = (refl, refl)

known-eq : {s t : Text} → some s ≡ some t → s ≡ t
known-eq e = cc e

update_yml-NamesHosts :
    (sys : System) (hosts : Text) (n : Node) (o : Option Text)
    → Writes sys
    → Lacks 10 hosts
    → n.patroni_yml ≡ o
    → (content : Text) → (update_known_yml sys hosts n o).patroni_yml ≡ some content
    → NamesHosts hosts content
update_yml-NamesHosts sys hosts n none w h e content k = absurd (cc (e, k))
update_yml-NamesHosts sys hosts n (some old) w h e content k =
    subst (NamesHosts hosts) (known-eq (sym (w.yml (rewrite_yml hosts old)) ∙ k))
      (rewrite_yml-NamesHosts hosts old h)

-- The settings in memory hold the topology of the desired nodes.
abbrev pub HasTopology : List Text → Config → Type 0
HasTopology ips cfg = is_current (build_etcd_topology cfg ips) cfg ≡ true

current_lem : (t : EtcdTopology) (cfg : Config) → is_current t (with_topology t cfg) ≡ true
current_lem t cfg = rw (equal_refl t.initial, equal_refl t.hosts, equal_refl t.patroni_hosts) refl

topology_kept :
    (t : EtcdTopology) (cfg : Config) (ips : List Text)
    → build_etcd_topology (with_topology t cfg) ips ≡ build_etcd_topology cfg ips
unfolding build_etcd_topology
topology_kept t cfg ips =
    unfold flux_pg_cluster.Topology.initial_part flux_pg_cluster.Topology.etcd_url etcd_protocol in
    refl

-- The state between the two files' updates.
abbrev renewed : System → List Text → Node → Node
renewed sys ips n =
    let t = build_etcd_topology n.cfg ips in
    record n {
      cfg = with_topology t n.cfg;
      cluster_env = sys.write_env (write_cluster_env (with_topology t n.cfg));
    }

update-cases :
    (sys : System) (ips : List Text) (n : Node)
    → (HasTopology ips n.cfg × (update_cluster_env sys ips n ≡ n))
      ⊎ (update_cluster_env sys ips n
          ≡ update_patroni_yaml_hosts sys
              (build_etcd_topology n.cfg ips).patroni_hosts
              (renewed sys ips n))
unfolding update_cluster_env
update-cases sys ips n = elim (Bool-cases (is_current (build_etcd_topology n.cfg ips) n.cfg)) [
  | inl current ↦ inl (current, rw current refl)
  | inr stale ↦ inr (rw stale refl)
]

update-cfg :
    (sys : System) (ips : List Text) (n : Node)
    → (update_patroni_yaml_hosts sys
        (build_etcd_topology n.cfg ips).patroni_hosts
        (renewed sys ips n)).cfg
      ≡ with_topology (build_etcd_topology n.cfg ips) n.cfg
unfolding update_patroni_yaml_hosts
update-cfg sys ips n = (update_yml-cfg sys _ (renewed sys ips n) n.patroni_yml).0

with_topology-HasTopology :
    (ips : List Text) (cfg : Config)
    → HasTopology ips (with_topology (build_etcd_topology cfg ips) cfg)
with_topology-HasTopology ips cfg =
    let t = build_etcd_topology cfg ips in
    ap (λ u. is_current u (with_topology t cfg)) (topology_kept t cfg ips) ∙ current_lem t cfg

update-HasTopology :
    (sys : System) (ips : List Text) (n : Node) → HasTopology ips (update_cluster_env sys ips n).cfg
update-HasTopology sys ips n = elim (update-cases sys ips n) [
  | inl (current, same) ↦ subst (λ m. HasTopology ips m.cfg) (sym same) current
  | inr changed ↦
      subst (HasTopology ips) (sym (ap (λ m. m.cfg) changed ∙ update-cfg sys ips n))
        (with_topology-HasTopology ips n.cfg)
]

settled :
    (sys : System) (ips : List Text) (n : Node)
    → HasTopology ips n.cfg
    → update_cluster_env sys ips n ≡ n
unfolding update_cluster_env
settled sys ips n h = rw h refl

renewed-IsSynced :
    (sys : System) (ips : List Text) (n : Node)
    → Writes sys
    → IsSynced (
        update_patroni_yaml_hosts sys
          (build_etcd_topology n.cfg ips).patroni_hosts
          (renewed sys ips n))
unfolding update_patroni_yaml_hosts
renewed-IsSynced sys ips n w =
    let t = build_etcd_topology n.cfg ips in
    let (cfg_same, env_same) =
      update_yml-cfg sys t.patroni_hosts (renewed sys ips n) n.patroni_yml in
    record {
      env =
          env_same
          ∙ w.env (write_cluster_env (with_topology t n.cfg))
          ∙ ap (λ c. some (write_cluster_env c)) (sym cfg_same);
      yml = λ content k.
          subst (λ c. NamesHosts c.patroni_etcd_hosts content) (sym cfg_same)
            (update_yml-NamesHosts sys t.patroni_hosts (renewed sys ips n) n.patroni_yml w
              (local-Lacks n.cfg ips) refl content k);
    }

-- Where writing succeeds, a cycle keeps the files in agreement with the settings in memory:
-- /etc/cluster_env is what they store, and every line of hosts in patroni.yml names the etcd they
-- give; and the settings then hold the topology of the desired nodes.
pub update_cluster_env-IsSynced :
    (sys : System) (desired_ips : List Text) (n : Node)
    → Writes sys
    → IsSynced n
    → IsSynced (update_cluster_env sys desired_ips n)
      × HasTopology desired_ips (update_cluster_env sys desired_ips n).cfg
update_cluster_env-IsSynced sys desired_ips n w h = elim (update-cases sys desired_ips n) [
  | inl (current, same) ↦ (subst IsSynced (sym same) h, update-HasTopology sys desired_ips n)
  | inr changed ↦ (
    subst IsSynced (sym changed) (renewed-IsSynced sys desired_ips n w),
    update-HasTopology sys desired_ips n,
  )
]

-- After a cycle, further cycles with the same desired nodes change neither file, whatever has
-- become of the writes of the first one: a write that has failed is not tried again.
pub update_cluster_env-settled :
    (sys later : System) (desired_ips : List Text) (n : Node)
    → update_cluster_env later desired_ips (update_cluster_env sys desired_ips n)
      ≡ update_cluster_env sys desired_ips n
update_cluster_env-settled sys later desired_ips n =
    settled later desired_ips (update_cluster_env sys desired_ips n)
      (update-HasTopology sys desired_ips n)
