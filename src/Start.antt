-- ===== src/Start.antt =====
-- cmd/flux-agent/etcd_start.go: how a node starts etcd. The answers of etcd, of the disk and of
-- the peers are functions, numbered by the attempt that asks.
pub mod Bootstrap
pub mod Join
pub mod Run
use flux_pg_cluster.Base.{
  ℕ, Bool, true, false, not, ◌&&◌, ◌||◌, ◌++◌, Option, none, some, List, [], ◌∷◌, length, leb,
  if◌then◌else◌,
}
use flux_pg_cluster.Base.Int.{ℤ, pos, ltb_ℤ}
use flux_pg_cluster.Config.{Config, etcd_protocol}
use flux_pg_cluster.Identity.{
  Evidence, LocalDisk, RecoveryAuthority, Verdict, granted, refused, directory_is_empty,
  etcd_data_directory_is_fresh,
}
use flux_pg_cluster.Identity.Confirm.{
  confirm_fresh_cluster_with_peers, confirm_recovery_authority_with_peers,
}
use flux_pg_cluster.Number.{itoa}
use flux_pg_cluster.Text.{Text, codes, equal, is_empty, split, join}
use flux_pg_cluster.Topology.{bootstrap_candidate}
use flux_pg_cluster.Etcd.{Member}

-- The state that etcd is started with; the source's empty string is `none`.
pub data ClusterState : Type 0 where
  existing new : ClusterState

abbrev pub fresh_answer : Verdict (Unit {0}) → Option ClusterState
fresh_answer (granted _) = some new
fresh_answer (refused why) = none

abbrev pub recovery_answer : Config → Verdict RecoveryAuthority → Option ClusterState
recovery_answer cfg (granted authority) = if equal authority.ip cfg.my_ip then some new else none
recovery_answer cfg (refused why) = none

-- The directories are as an image leaves them before its first start.
abbrev pub strictly_empty : LocalDisk → Bool
strictly_empty disk = etcd_data_directory_is_fresh disk.etcd_data && directory_is_empty disk.pg_data

-- `decideBootstrap`
unfoldable pub decide_bootstrap : Config → LocalDisk → (ℕ → Evidence) → Option ClusterState
decide_bootstrap cfg disk evidence =
    let expected_count = length (split b',' cfg.etcd_initial_cluster) in
    let etcd_data_empty = not disk.has_snapshot in
    let pg_data_empty = not disk.has_global in
    let candidate = bootstrap_candidate cfg.etcd_initial_cluster in
    if not cfg.allow_new_cluster_bootstrap
    then if cfg.auto_bootstrap_if_fresh
        && (etcd_data_empty && (pg_data_empty && strictly_empty disk))
      then if leb expected_count 1
        then none
        else if not (equal cfg.my_name candidate)
        then none
        else fresh_answer (confirm_fresh_cluster_with_peers cfg evidence)
      else if cfg.dead_cluster_recovery && (etcd_data_empty && not pg_data_empty)
      then recovery_answer cfg (confirm_recovery_authority_with_peers cfg evidence)
      else none
    else if not cfg.allow_any_node_bootstrap && not (equal cfg.my_name candidate)
    then none
    else some new

-- `mayEvaluateBootstrap`
unfoldable pub may_evaluate_bootstrap : Bool → Bool → Bool → Bool
may_evaluate_bootstrap is_deterministic_candidate dead_cluster_recovery has_pg_data =
    is_deterministic_candidate || (dead_cluster_recovery && has_pg_data)

-- `bootstrapRetryDelay`, in seconds.
unfoldable pub bootstrap_retry_delay : ℤ → ℤ
bootstrap_retry_delay configured_seconds =
    if ltb_ℤ configured_seconds (pos 2) then pos 2 else configured_seconds

-- A URL of etcd on an address.
abbrev pub url_on : Config → Text → ℤ → Text
url_on cfg host port = etcd_protocol cfg ++ (codes "://" ++ (host ++ (codes ":" ++ itoa port)))

abbrev pub my_peer_url : Config → Text
my_peer_url cfg = url_on cfg cfg.my_ip cfg.host_etcd_peer_port

-- `configureSingleMemberBootstrap`
unfoldable pub configure_single_member_bootstrap : Config → Config
configure_single_member_bootstrap cfg = record cfg {
  etcd_initial_cluster = cfg.my_name ++ (codes "=" ++ my_peer_url cfg);
}

-- `etcdSSLOpts`
unfoldable pub etcd_ssl_opts : Config → List Text
etcd_ssl_opts cfg =
    if not cfg.ssl_enabled
    then []
    else codes "--cert=/etc/ssl/cluster/etcd/client.crt"
      ∷ codes "--key=/etc/ssl/cluster/etcd/client.key"
      ∷ codes "--cacert=/etc/ssl/cluster/ca/ca.crt"
      ∷ []

abbrev pub state_word : ClusterState → Text
state_word existing = codes "existing"
state_word new = codes "new"

abbrev pub ssl_flags : List Text
ssl_flags =
    codes "--cert-file=/etc/ssl/cluster/etcd/client.crt"
    ∷ codes "--key-file=/etc/ssl/cluster/etcd/client.key"
    ∷ codes "--trusted-ca-file=/etc/ssl/cluster/ca/ca.crt"
    ∷ codes "--client-cert-auth"
    ∷ codes "--peer-cert-file=/etc/ssl/cluster/etcd/peer.crt"
    ∷ codes "--peer-key-file=/etc/ssl/cluster/etcd/peer.key"
    ∷ codes "--peer-trusted-ca-file=/etc/ssl/cluster/ca/ca.crt"
    ∷ codes "--peer-client-cert-auth"
    ∷ []

-- `buildEtcdArgs`
unfoldable pub build_etcd_args : Config → Text → Text → ClusterState → Bool → List Text → List Text
build_etcd_args cfg data_dir token state force_new_cluster ssl_opts =
    (codes "--name=" ++ cfg.my_name)
    ∷ (codes "--listen-client-urls=" ++ url_on cfg (codes "0.0.0.0") cfg.etcd_client_port)
    ∷ (codes "--advertise-client-urls=" ++ url_on cfg cfg.my_ip cfg.host_etcd_client_port)
    ∷ (codes "--listen-peer-urls=" ++ url_on cfg (codes "0.0.0.0") cfg.etcd_peer_port)
    ∷ (codes "--initial-advertise-peer-urls=" ++ my_peer_url cfg)
    ∷ (codes "--initial-cluster=" ++ cfg.etcd_initial_cluster)
    ∷ (codes "--initial-cluster-state=" ++ state_word state)
    ∷ (codes "--initial-cluster-token=" ++ token)
    ∷ (codes "--data-dir=" ++ data_dir)
    ∷ ((if force_new_cluster then codes "--force-new-cluster" ∷ [] else [])
        ++ (if is_empty ssl_opts then [] else ssl_flags))

-- The name under which `rebuildInitialCluster` lists a member.
abbrev pub listed_name : Member → Text → Text → Option Text
listed_name m my_name my_peer_url =
    if not (is_empty m.name)
    then some m.name
    else if equal m.peer_urls my_peer_url
    then some my_name
    else none

abbrev pub listed_part : Option Text → Member → List Text
listed_part none m = []
listed_part (some name) m = (name ++ (codes "=" ++ m.peer_urls)) ∷ []

unfoldable pub rebuilt_parts : List Member → Text → Text → List Text
rebuilt_parts [] my_name my_peer_url = []
rebuilt_parts (m ∷ members) my_name my_peer_url =
    let rest = rebuilt_parts members my_name my_peer_url in
    if is_empty m.peer_urls then rest else listed_part (listed_name m my_name my_peer_url) m ++ rest

-- `rebuildInitialCluster`
unfoldable pub rebuild_initial_cluster : List Member → Text → Text → Text
rebuild_initial_cluster members my_name my_peer_url =
    join (codes ",") (rebuilt_parts members my_name my_peer_url)
