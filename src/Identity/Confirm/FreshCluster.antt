-- ===== src/Identity/Confirm/FreshCluster.antt =====
-- `confirmFreshClusterWithPeers`: what every cycle must find.
use flux_pg_cluster.Base.{ℕ, zero, suc, ◌+◌, ◌<◌, ◌≡◌, ◌≢◌, ◌↔◌, refl, subst, List, [], ◌∷◌, arith}
use flux_pg_cluster.Config.{Config}
use flux_pg_cluster.Identity.{Evidence, granted, bind-eq-granted, probe_all_peer_identities}
use flux_pg_cluster.Identity.Fresh.{evaluate_fresh_peer_evidence}
use flux_pg_cluster.Text.{Text}
use flux_pg_cluster.Topology.{other_ips_from_initial_cluster}
use flux_pg_cluster.Identity.Confirm.{
  confirm_cycles, confirm_fresh_loop, confirm_fresh_peers, confirm_fresh_cluster_with_peers,
}

-- Each of `left` cycles from `cycle` on finds every one of the peers at `ips` fresh.
abbrev IsFreshThrough : Config → (ℕ → Evidence) → List Text → ℕ → ℕ → Type 0
IsFreshThrough cfg evidence ips left cycle =
    (k : ℕ)
    → k < left
    → evaluate_fresh_peer_evidence cfg (probe_all_peer_identities cfg (evidence (k + cycle)) ips)
      ≡ granted tt

module _ (cfg : Config) (evidence : ℕ → Evidence) (ips : List Text) where
  fresh_at :
      (m n : ℕ)
      → m ≡ n
      → evaluate_fresh_peer_evidence cfg (probe_all_peer_identities cfg (evidence m) ips)
        ≡ granted tt
      → evaluate_fresh_peer_evidence cfg (probe_all_peer_identities cfg (evidence n) ips)
        ≡ granted tt
  fresh_at m n e h =
      subst
        (λ i.
          evaluate_fresh_peer_evidence cfg (probe_all_peer_identities cfg (evidence i) ips)
          ≡ granted tt)
        e h

  fresh_loop_sound :
      (left cycle : ℕ)
      → confirm_fresh_loop cfg evidence ips left cycle ≡ granted tt
      → IsFreshThrough cfg evidence ips left cycle
  unfolding confirm_fresh_loop
  fresh_loop_sound zero cycle e k lt = absurd (omega arith)
  fresh_loop_sound (suc left) cycle e zero lt =
      let (_, at, _) =
        bind-eq-granted
          (evaluate_fresh_peer_evidence cfg (probe_all_peer_identities cfg (evidence cycle) ips)) _
          e in
      fresh_at cycle (0 + cycle) (omega arith) at
  fresh_loop_sound (suc left) cycle e (suc k) lt =
      let (_, _, rest) =
        bind-eq-granted
          (evaluate_fresh_peer_evidence cfg (probe_all_peer_identities cfg (evidence cycle) ips)) _
          e in
      fresh_at (k + suc cycle) (suc k + cycle) (omega arith)
        (fresh_loop_sound left (suc cycle) rest k (omega arith))

  fresh_loop_complete :
      (left cycle : ℕ)
      → IsFreshThrough cfg evidence ips left cycle
      → confirm_fresh_loop cfg evidence ips left cycle ≡ granted tt
  unfolding confirm_fresh_loop
  fresh_loop_complete zero cycle h = refl
  fresh_loop_complete (suc left) cycle h =
      let rest = fresh_loop_complete left (suc cycle) (λ k lt.
        fresh_at (suc k + cycle) (k + suc cycle) (omega arith) (h (suc k) (omega arith))) in
      rw (fresh_at (0 + cycle) cycle (omega arith) (h 0 (omega arith))) rest

confirm_fresh_peers_iff :
    (cfg : Config) (evidence : ℕ → Evidence) (ips : List Text)
    → (confirm_fresh_peers cfg evidence ips ≡ granted tt) ↔ (
        (ips ≢ [])
        × IsFreshThrough cfg evidence ips (confirm_cycles cfg.bootstrap_peer_confirm_cycles) 1)
unfolding confirm_fresh_peers
confirm_fresh_peers_iff cfg evidence [] = (λ e. cc, λ h. absurd (h.0 refl))
confirm_fresh_peers_iff cfg evidence (ip ∷ ips) =
    let n = confirm_cycles cfg.bootstrap_peer_confirm_cycles in
    (
      λ e. (λ q. cc, fresh_loop_sound cfg evidence (ip ∷ ips) n 1 e),
      λ h. fresh_loop_complete cfg evidence (ip ∷ ips) n 1 h.1,
    )

-- A fresh cluster is confirmed exactly when there is some peer, and every cycle, of at least
-- one, finds the evidence of all peers acceptable.
pub confirm_fresh_cluster_with_peers_iff :
    (cfg : Config) (evidence : ℕ → Evidence)
    → (confirm_fresh_cluster_with_peers cfg evidence ≡ granted tt) ↔ (
        (other_ips_from_initial_cluster cfg.etcd_initial_cluster cfg.my_name ≢ [])
        × ((k : ℕ)
            → k < confirm_cycles cfg.bootstrap_peer_confirm_cycles
            → evaluate_fresh_peer_evidence cfg (
                probe_all_peer_identities cfg
                  (evidence (k + 1))
                  (other_ips_from_initial_cluster cfg.etcd_initial_cluster cfg.my_name))
              ≡ granted tt))
unfolding confirm_fresh_cluster_with_peers
confirm_fresh_cluster_with_peers_iff cfg evidence =
    confirm_fresh_peers_iff cfg evidence
      (other_ips_from_initial_cluster cfg.etcd_initial_cluster cfg.my_name)
