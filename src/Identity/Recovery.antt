-- ===== src/Identity/Recovery.antt =====
-- `evaluateRecoveryAuthority` and `selectMostAdvancedReplica`: which node's data a dead cluster
-- is rebuilt from.
pub mod Survey
pub mod Select
pub mod Sort
pub mod Sound
pub mod Agreement
use flux_pg_cluster.Base.{
  ℕ, Bool, true, false, not, ◌&&◌, ◌||◌, Option, none, some, List, [], ◌∷◌, ◌++◌, length, ◌==◌, ltb,
  if◌then◌else◌,
}
use flux_pg_cluster.Config.{Config}
use flux_pg_cluster.Identity.{
  NodeIdentity, PeerIdentityResult, RecoveryAuthority, zero_identity, Refusal, wrong_count,
  unreachable, foreign_scope, wrong_name, wrong_view, stray_metadata, unreadable_id, no_data_node,
  etcd_retained, id_mismatch, two_primaries, ambiguous_role, no_candidate, no_position,
  timeline_mismatch, Verdict, granted, refused, ◌>>=◌,
}
use flux_pg_cluster.Postgres.{
  PostgresRecoveryPosition, no_position as zero_position, parse_postgres_lsn,
}
use flux_pg_cluster.Text.{Text, codes, equal, is_empty, equal_strings, less}
use flux_pg_cluster.Topology.{membership_names, node_name_from_ip, other_ips_from_initial_cluster}

-- What the first loop makes of one node: `true` if it bears PostgreSQL data.
unfoldable pub inspect_node : Config → List Text → PeerIdentityResult → Verdict Bool
inspect_node cfg expected_view result =
    let identity = result.identity in
    if result.failed
    then refused (unreachable result.ip)
    else if not (equal identity.app_name cfg.app_name)
        || not (equal identity.patroni_scope cfg.patroni_scope)
    then refused (foreign_scope result.ip)
    else if not (equal identity.node_name (node_name_from_ip result.ip))
    then refused (wrong_name result.ip)
    else if not (equal_strings identity.membership_view expected_view)
    then refused (wrong_view result.ip)
    else if identity.pg_data_empty
    then if not (is_empty identity.postgres_system_identifier)
        || not (is_empty identity.postgres_durable_role)
        || not (identity.postgres_timeline == 0)
        || not (is_empty identity.postgres_wal_position)
      then refused (stray_metadata result.ip)
      else granted false
    else if is_empty identity.postgres_system_identifier
    then refused (unreadable_id result.ip)
    else granted true

-- The first loop: `dataNodes`, and `allEtcdEmpty`.
abbrev pub Survey : Type 0
Survey = List PeerIdentityResult × Bool

abbrev pub note_node : PeerIdentityResult → Survey → Bool → Survey
note_node result (nodes, empty) bears =
    (if bears then nodes ++ result ∷ [] else nodes, empty && result.identity.etcd_data_empty)

unfoldable pub survey_nodes : Config → List Text → List PeerIdentityResult → Survey → Verdict Survey
survey_nodes cfg expected_view [] seen = granted seen
survey_nodes cfg expected_view (result ∷ results) seen =
    inspect_node cfg expected_view result >>= λ bears.
    survey_nodes cfg expected_view results (note_node result seen bears)

abbrev pub zero_result : PeerIdentityResult
zero_result = record { ip = []; identity = zero_identity; failed = false }

-- The loop's variables `selected` and `best`.
pub record Selection : Type 0 where
  pub selected : PeerIdentityResult
  pub best : PostgresRecoveryPosition

-- The body of the loop of `selectMostAdvancedReplica`, for a parsed LSN.
unfoldable pub consider_replica : PeerIdentityResult → Selection → Option ℕ → Verdict Selection
consider_replica replica s none = refused (no_position replica.ip)
consider_replica replica s (some lsn) =
    let timeline = replica.identity.postgres_timeline in
    let best = s.best in
    if timeline == 0 || lsn == 0
    then refused (no_position replica.ip)
    else if not (best.timeline == 0) && not (timeline == best.timeline)
    then refused (timeline_mismatch replica.ip)
    else if best.timeline == 0
        || ltb best.lsn lsn
        || (lsn == best.lsn && less replica.identity.node_name s.selected.identity.node_name)
    then granted (record { selected = replica; best = record { timeline = timeline; lsn = lsn } })
    else granted s

unfoldable pub select_loop : List PeerIdentityResult → Selection → Verdict Selection
select_loop [] s = granted s
select_loop (replica ∷ replicas) s =
    consider_replica replica s (parse_postgres_lsn replica.identity.postgres_wal_position) >>= λ t.
    select_loop replicas t

-- `selectMostAdvancedReplica`
unfoldable pub select_most_advanced_replica : List PeerIdentityResult → Verdict Selection
select_most_advanced_replica [] = refused no_candidate
select_most_advanced_replica (r ∷ rs) =
    select_loop (r ∷ rs) (record { selected = zero_result; best = zero_position })

-- The second loop's variables `primary` and `replicas`.
pub record Roles : Type 0 where
  pub primary : Option PeerIdentityResult
  pub replicas : List PeerIdentityResult

-- The case "primary".
abbrev pub claim_primary : PeerIdentityResult → Roles → Verdict Roles
claim_primary node roles = elim roles.primary [
  | none ↦ granted (record roles { primary = some node })
  | some primary ↦ refused (two_primaries primary.ip node.ip)
]

-- The body of the second loop.
unfoldable pub sort_node : Text → PeerIdentityResult → Roles → Verdict Roles
sort_node system_id node roles =
    let identity = node.identity in
    if not (equal identity.postgres_system_identifier system_id)
    then refused (id_mismatch node.ip)
    else if equal identity.postgres_durable_role (codes "primary")
    then claim_primary node roles
    else if equal identity.postgres_durable_role (codes "replica")
    then granted (record roles { replicas = roles.replicas ++ node ∷ [] })
    else refused (ambiguous_role node.ip)

unfoldable pub sort_nodes : Text → List PeerIdentityResult → Roles → Verdict Roles
sort_nodes system_id [] roles = granted roles
sort_nodes system_id (node ∷ nodes) roles =
    sort_node system_id node roles >>= λ r. sort_nodes system_id nodes r

abbrev pub authority_of : Text → PeerIdentityResult → RecoveryAuthority
authority_of system_id node = record {
  ip = node.ip;
  node_name = node.identity.node_name;
  system_id = system_id;
}

-- The choice behind the second loop.
abbrev pub choose : Text → Roles → Verdict RecoveryAuthority
choose system_id roles = elim roles.primary [
  | some primary ↦ granted (authority_of system_id primary)
  | none ↦ select_most_advanced_replica roles.replicas >>= λ s.
      granted (authority_of system_id s.selected)
]

-- What follows the first loop.
unfoldable pub decide_authority : List PeerIdentityResult → Bool → Verdict RecoveryAuthority
decide_authority [] all_etcd_empty = refused no_data_node
decide_authority (node ∷ []) all_etcd_empty =
    granted (authority_of node.identity.postgres_system_identifier node)
decide_authority (node ∷ second ∷ rest) all_etcd_empty =
    let system_id = node.identity.postgres_system_identifier in
    if not all_etcd_empty
    then refused etcd_retained
    else sort_nodes system_id (node ∷ second ∷ rest) (record { primary = none; replicas = [] })
      >>= λ roles. choose system_id roles

abbrev pub all_nodes : Config → NodeIdentity → List PeerIdentityResult → List PeerIdentityResult
all_nodes cfg local results =
    (record { ip = cfg.my_ip; identity = local; failed = false }) ∷ results

-- `evaluateRecoveryAuthority`
unfoldable pub evaluate_recovery_authority :
    Config → NodeIdentity → List PeerIdentityResult → Verdict RecoveryAuthority
evaluate_recovery_authority cfg local results =
    let expected_peers =
      length (other_ips_from_initial_cluster cfg.etcd_initial_cluster cfg.my_name) in
    if not (length results == expected_peers)
    then refused wrong_count
    else survey_nodes cfg (membership_names cfg.etcd_initial_cluster) (all_nodes cfg local results)
        ([], true)
      >>= λ (nodes, all_etcd_empty). decide_authority nodes all_etcd_empty
