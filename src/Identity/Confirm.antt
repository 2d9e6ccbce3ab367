-- ===== src/Identity/Confirm.antt =====
-- `discoverRecoveryAuthority`, `confirmRecoveryAuthorityWithPeers` and
-- `confirmFreshClusterWithPeers`: the repeated rounds of probes. The evidence that cycle `k` meets
-- is `evidence k`, from 1.
pub mod Authority
pub mod FreshCluster
use flux_pg_cluster.Base.{
  ℕ, zero, suc, ◌+◌, ◌<◌, ◌≡◌, ◌≢◌, ◌↔◌, refl, sym, ap, ◌∙◌, subst, ◌⊎◌, inl, inr, Bool, true, not,
  ◌&&◌, List, [], ◌∷◌, ◌==◌, if◌then◌else◌, arith,
}
use flux_pg_cluster.Base.Int.{ℤ, pos, negsuc}
use flux_pg_cluster.Config.{Config}
use flux_pg_cluster.Identity.{
  Evidence, RecoveryAuthority, no_peers, authority_changed, Verdict, granted, refused, ◌>>=◌,
  bind-eq-granted, local_node_identity, probe_all_peer_identities,
}
use flux_pg_cluster.Identity.Fresh.{evaluate_fresh_peer_evidence}
use flux_pg_cluster.Identity.Recovery.{evaluate_recovery_authority}
use flux_pg_cluster.Text.{Text, equal}
use flux_pg_cluster.Text.Laws.{equal_iff}
use flux_pg_cluster.Topology.{other_ips_from_initial_cluster}

-- The number of cycles: at least one.
unfoldable pub confirm_cycles : ℤ → ℕ
confirm_cycles (pos zero) = 1
confirm_cycles (pos (suc n)) = suc n
confirm_cycles (negsuc n) = 1

-- `discoverRecoveryAuthority`
unfoldable pub discover_recovery_authority : Config → Evidence → Verdict RecoveryAuthority
discover_recovery_authority cfg ev =
    evaluate_recovery_authority cfg (local_node_identity cfg ev.disk) (
      probe_all_peer_identities cfg ev
        (other_ips_from_initial_cluster cfg.etcd_initial_cluster cfg.my_name))

-- Go's `==` on two authorities.
unfoldable pub same_authority : RecoveryAuthority → RecoveryAuthority → Bool
same_authority a b =
    equal a.ip b.ip && (equal a.node_name b.node_name && equal a.system_id b.system_id)

-- The test on the authority that a cycle has found.
unfoldable pub keep_authority :
    ℕ → RecoveryAuthority → RecoveryAuthority → Verdict RecoveryAuthority
keep_authority cycle confirmed authority =
    if not (cycle == 1) && not (same_authority authority confirmed)
    then refused authority_changed
    else granted authority

-- The loop of `confirmRecoveryAuthorityWithPeers`, with the number of cycles left.
unfoldable pub confirm_authority_loop :
    Config → (ℕ → Evidence) → ℕ → ℕ → RecoveryAuthority → Verdict RecoveryAuthority
confirm_authority_loop cfg evidence zero cycle confirmed = granted confirmed
confirm_authority_loop cfg evidence (suc left) cycle confirmed =
    discover_recovery_authority cfg (evidence cycle) >>= λ authority.
    keep_authority cycle confirmed authority >>= λ kept.
    confirm_authority_loop cfg evidence left (suc cycle) kept

abbrev pub zero_authority : RecoveryAuthority
zero_authority = record { ip = []; node_name = []; system_id = [] }

-- `confirmRecoveryAuthorityWithPeers`
unfoldable pub confirm_recovery_authority_with_peers :
    Config → (ℕ → Evidence) → Verdict RecoveryAuthority
confirm_recovery_authority_with_peers cfg evidence =
    confirm_authority_loop cfg evidence (confirm_cycles cfg.bootstrap_peer_confirm_cycles) 1
      zero_authority

-- The loop of `confirmFreshClusterWithPeers`.
unfoldable pub confirm_fresh_loop : Config → (ℕ → Evidence) → List Text → ℕ → ℕ → Verdict (Unit {0})
confirm_fresh_loop cfg evidence ips zero cycle = granted tt
confirm_fresh_loop cfg evidence ips (suc left) cycle =
    evaluate_fresh_peer_evidence cfg (probe_all_peer_identities cfg (evidence cycle) ips) >>= λ _.
    confirm_fresh_loop cfg evidence ips left (suc cycle)

unfoldable pub confirm_fresh_peers : Config → (ℕ → Evidence) → List Text → Verdict (Unit {0})
confirm_fresh_peers cfg evidence [] = refused no_peers
confirm_fresh_peers cfg evidence (ip ∷ ips) =
    confirm_fresh_loop cfg evidence (ip ∷ ips) (confirm_cycles cfg.bootstrap_peer_confirm_cycles) 1

-- `confirmFreshClusterWithPeers`
unfoldable pub confirm_fresh_cluster_with_peers : Config → (ℕ → Evidence) → Verdict (Unit {0})
confirm_fresh_cluster_with_peers cfg evidence =
    confirm_fresh_peers cfg evidence
      (other_ips_from_initial_cluster cfg.etcd_initial_cluster cfg.my_name)

pub confirm_cycles_pos : (n : ℤ) → 0 < confirm_cycles n
unfolding confirm_cycles
confirm_cycles_pos (pos zero) = omega arith
confirm_cycles_pos (pos (suc n)) = omega arith
confirm_cycles_pos (negsuc n) = omega arith
