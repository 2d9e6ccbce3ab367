-- ===== src/Identity/Fresh.antt =====
-- `evaluateFreshPeerEvidence`: positive, unanimous evidence that every peer is empty.
use flux_pg_cluster.Base.{
  ◌≡◌, ◌↔◌, refl, true, false, not, ◌||◌, List, [], ◌∷◌, length, All, ◌==◌, if◌then◌else◌, arith,
}
use flux_pg_cluster.Config.{Config}
use flux_pg_cluster.Identity.{
  PeerIdentityResult, wrong_count, unreachable, foreign_scope, wrong_name, has_postgres, has_etcd,
  wrong_view, Verdict, granted, refused, ◌>>=◌,
}
use flux_pg_cluster.Text.{Text, equal, is_empty, equal_strings}
use flux_pg_cluster.Text.Laws.{equal_iff, equal_strings_iff, is_empty_iff}
use flux_pg_cluster.Topology.{membership_names, node_name_from_ip, other_ips_from_initial_cluster}

-- The body of the loop.
unfoldable pub check_fresh_peer : Config → List Text → PeerIdentityResult → Verdict (Unit {0})
check_fresh_peer cfg expected_view result =
    let identity = result.identity in
    if result.failed
    then refused (unreachable result.ip)
    else if not (equal identity.app_name cfg.app_name)
        || not (equal identity.patroni_scope cfg.patroni_scope)
    then refused (foreign_scope result.ip)
    else if not (equal identity.node_name (node_name_from_ip result.ip))
    then refused (wrong_name result.ip)
    else if not identity.pg_data_empty || not (is_empty identity.postgres_system_identifier)
    then refused (has_postgres result.ip)
    else if not identity.etcd_data_empty
    then refused (has_etcd result.ip)
    else if not (equal_strings identity.membership_view expected_view)
    then refused (wrong_view result.ip)
    else granted tt

unfoldable pub check_fresh_peers : Config → List Text → List PeerIdentityResult → Verdict (Unit {0})
unfolding check_fresh_peer
check_fresh_peers cfg expected_view [] = granted tt
check_fresh_peers cfg expected_view (result ∷ results) =
    check_fresh_peer cfg expected_view result >>= λ _. check_fresh_peers cfg expected_view results

-- `evaluateFreshPeerEvidence`
unfoldable pub evaluate_fresh_peer_evidence : Config → List PeerIdentityResult → Verdict (Unit {0})
unfolding check_fresh_peers
evaluate_fresh_peer_evidence cfg results =
    let expected_peers =
      length (other_ips_from_initial_cluster cfg.etcd_initial_cluster cfg.my_name) in
    if not (length results == expected_peers)
    then refused wrong_count
    else check_fresh_peers cfg (membership_names cfg.etcd_initial_cluster) results

-- What a peer must have said for a new cluster to be safe.
pub record IsFreshPeer (cfg : Config) (r : PeerIdentityResult) : Type 0 where
  pub answered : r.failed ≡ false
  pub same_app : r.identity.app_name ≡ cfg.app_name
  pub same_scope : r.identity.patroni_scope ≡ cfg.patroni_scope
  pub right_name : r.identity.node_name ≡ node_name_from_ip r.ip
  pub no_postgres : r.identity.pg_data_empty ≡ true
  pub no_system_id : r.identity.postgres_system_identifier ≡ []
  pub no_etcd : r.identity.etcd_data_empty ≡ true
  pub same_view : r.identity.membership_view ≡ membership_names cfg.etcd_initial_cluster

check_fresh_peer_iff :
    (cfg : Config) (r : PeerIdentityResult)
    → (check_fresh_peer cfg (membership_names cfg.etcd_initial_cluster) r ≡ granted tt)
      ↔ IsFreshPeer cfg r
unfolding check_fresh_peer
check_fresh_peer_iff cfg r = ground (
  arith,
  equal_iff r.identity.app_name cfg.app_name,
  equal_iff r.identity.patroni_scope cfg.patroni_scope,
  equal_iff r.identity.node_name (node_name_from_ip r.ip),
  is_empty_iff r.identity.postgres_system_identifier,
  equal_strings_iff r.identity.membership_view (membership_names cfg.etcd_initial_cluster),
)

check_fresh_peers_iff :
    (cfg : Config) (rs : List PeerIdentityResult)
    → (check_fresh_peers cfg (membership_names cfg.etcd_initial_cluster) rs ≡ granted tt)
      ↔ All (IsFreshPeer cfg) rs
unfolding check_fresh_peers
check_fresh_peers_iff cfg [] = (λ _. tt, λ _. refl)
check_fresh_peers_iff cfg (r ∷ rs) =
    split (check_fresh_peer cfg (membership_names cfg.etcd_initial_cluster) r)
      (check_fresh_peer_iff cfg r) (check_fresh_peers_iff cfg rs)
  where
    later : Verdict (Unit {0})
    later = check_fresh_peers cfg (membership_names cfg.etcd_initial_cluster) rs

    split :
        (v : Verdict (Unit {0}))
        → (v ≡ granted tt) ↔ IsFreshPeer cfg r
        → (later ≡ granted tt) ↔ All (IsFreshPeer cfg) rs
        → ((v >>= λ _. later) ≡ granted tt) ↔ (IsFreshPeer cfg r × All (IsFreshPeer cfg) rs)
    split (granted tt) h k = (λ e. (h.0 refl, k.0 e), λ p. k.1 p.1)
    split (refused why) h k = (λ e. cc, λ p. absurd (cc (h.1 p.0)))

-- The evidence for a new cluster is accepted exactly when there is one answer for each expected
-- peer, and every one of them is a peer's own statement that it belongs to this application,
-- sees this membership, and holds neither PostgreSQL nor etcd data.
pub evaluate_fresh_peer_evidence_iff :
    (cfg : Config) (rs : List PeerIdentityResult)
    → (evaluate_fresh_peer_evidence cfg rs ≡ granted tt) ↔ (
        (length rs ≡ length (other_ips_from_initial_cluster cfg.etcd_initial_cluster cfg.my_name))
        × All (IsFreshPeer cfg) rs)
unfolding evaluate_fresh_peer_evidence
evaluate_fresh_peer_evidence_iff cfg rs = ground (arith, check_fresh_peers_iff cfg rs)
