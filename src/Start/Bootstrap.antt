-- ===== src/Start/Bootstrap.antt =====
-- When `decideBootstrap` answers "new".
use flux_pg_cluster.Base.{
  ℕ, ◌<◌, ◌≡◌, ◌↔◌, refl, sym, ap, ◌∙◌, ◌⊎◌, inl, inr, true, false, some, List, length, All, arith,
}
use flux_pg_cluster.Config.{Config}
use flux_pg_cluster.Identity.{
  Evidence, LocalDisk, PeerIdentityResult, RecoveryAuthority, Verdict, granted, refused,
  local_node_identity, probe_all_peer_identities,
}
use flux_pg_cluster.Identity.Confirm.{
  confirm_fresh_cluster_with_peers, confirm_recovery_authority_with_peers,
  discover_recovery_authority, confirm_cycles_pos,
}
use flux_pg_cluster.Identity.Confirm.Authority.{confirm_recovery_authority_with_peers_iff}
use flux_pg_cluster.Identity.Recovery.{all_nodes}
use flux_pg_cluster.Identity.Recovery.Agreement.{SameNodes, evaluate_recovery_authority-agrees}
use flux_pg_cluster.Start.{new, fresh_answer, recovery_answer, strictly_empty, decide_bootstrap}
use flux_pg_cluster.Text.{split}
use flux_pg_cluster.Text.Laws.{equal_iff}
use flux_pg_cluster.Topology.{bootstrap_candidate, other_ips_from_initial_cluster}
use flux_pg_cluster.Topology.Parts.{IsAddress}

-- The operator's settings allow a new cluster here.
pub record IsOverride (cfg : Config) : Type 0 where
  pub allowed : cfg.allow_new_cluster_bootstrap ≡ true
  pub here :
      (cfg.allow_any_node_bootstrap ≡ true)
      ⊎ (cfg.my_name ≡ bootstrap_candidate cfg.etcd_initial_cluster)

-- A first start, confirmed by all peers.
pub record IsFreshStart (cfg : Config) (disk : LocalDisk) (evidence : ℕ → Evidence) : Type 0 where
  pub not_allowed : cfg.allow_new_cluster_bootstrap ≡ false
  pub automatic : cfg.auto_bootstrap_if_fresh ≡ true
  pub no_snapshot : disk.has_snapshot ≡ false
  pub no_global : disk.has_global ≡ false
  pub empty : strictly_empty disk ≡ true
  pub several : 1 < length (split b',' cfg.etcd_initial_cluster)
  pub candidate : cfg.my_name ≡ bootstrap_candidate cfg.etcd_initial_cluster
  pub confirmed : confirm_fresh_cluster_with_peers cfg evidence ≡ granted tt

-- The recovery of a dead cluster on the node that all evidence names.
pub record IsRecovery (cfg : Config) (disk : LocalDisk) (evidence : ℕ → Evidence) : Type 0 where
  pub not_allowed : cfg.allow_new_cluster_bootstrap ≡ false
  pub enabled : cfg.dead_cluster_recovery ≡ true
  pub no_snapshot : disk.has_snapshot ≡ false
  pub global : disk.has_global ≡ true
  pub authority : RecoveryAuthority
  pub confirmed : confirm_recovery_authority_with_peers cfg evidence ≡ granted authority
  pub mine : authority.ip ≡ cfg.my_ip

fresh_answer_iff : (v : Verdict (Unit {0})) → (fresh_answer v ≡ some new) ↔ (v ≡ granted tt)
fresh_answer_iff (granted tt) = (λ _. refl, λ _. refl)
fresh_answer_iff (refused why) = (λ e. cc, λ e. cc)

recovery_answer_iff :
    (cfg : Config) (v : Verdict RecoveryAuthority)
    → (recovery_answer cfg v ≡ some new)
      ↔ ((a : RecoveryAuthority) × (v ≡ granted a) × (a.ip ≡ cfg.my_ip))
recovery_answer_iff cfg (granted a) = (
  λ e. (a, refl, ground (arith, equal_iff a.ip cfg.my_ip)),
  λ (b, e, h). ground (arith, equal_iff a.ip cfg.my_ip, ap (λ x. x) e),
)
recovery_answer_iff cfg (refused why) = (λ e. cc, λ (b, e, h). cc)

-- A node founds a new cluster exactly when its operator allows it and it is the candidate or any
-- node may; or on a first start of the candidate, with directories strictly empty, that all
-- peers confirm; or when it bears data, has no etcd data, and is itself the confirmed recovery
-- authority.
pub decide_bootstrap_iff :
    (cfg : Config) (disk : LocalDisk) (evidence : ℕ → Evidence)
    → (decide_bootstrap cfg disk evidence ≡ some new)
      ↔ (IsOverride cfg ⊎ (IsFreshStart cfg disk evidence ⊎ IsRecovery cfg disk evidence))
unfolding decide_bootstrap
decide_bootstrap_iff cfg disk evidence = ground (
  arith,
  fresh_answer_iff (confirm_fresh_cluster_with_peers cfg evidence),
  recovery_answer_iff cfg (confirm_recovery_authority_with_peers cfg evidence),
  equal_iff cfg.my_name (bootstrap_candidate cfg.etcd_initial_cluster),
)

-- The nodes that the first cycle of probes sees.
abbrev pub first_nodes : Config → (ℕ → Evidence) → List PeerIdentityResult
first_nodes cfg evidence = all_nodes cfg (local_node_identity cfg (evidence 1).disk) (
    probe_all_peer_identities cfg (evidence 1)
      (other_ips_from_initial_cluster cfg.etcd_initial_cluster cfg.my_name))

confirmed_first :
    (cfg : Config) (evidence : ℕ → Evidence) (a : RecoveryAuthority)
    → confirm_recovery_authority_with_peers cfg evidence ≡ granted a
    → discover_recovery_authority cfg (evidence 1) ≡ granted a
confirmed_first cfg evidence a e =
    (confirm_recovery_authority_with_peers_iff cfg evidence a).0 e 0
      (confirm_cycles_pos cfg.bootstrap_peer_confirm_cycles)

recovers :
    (cfg : Config) (disk : LocalDisk) (evidence : ℕ → Evidence)
    → cfg.allow_new_cluster_bootstrap ≡ false
    → disk.has_global ≡ true
    → decide_bootstrap cfg disk evidence ≡ some new
    → IsRecovery cfg disk evidence
recovers cfg disk evidence off full e = elim ((decide_bootstrap_iff cfg disk evidence).0 e) [
  | inl o ↦ absurd (cc (o.allowed))
  | inr (inl first) ↦ absurd (cc (first.no_global))
  | inr (inr r) ↦ r
]

-- Two nodes whose first cycle of probes sees the same nodes, at addresses, which bear data and
-- have no operator's override, do not both found a new cluster: if both decide to, they are at
-- one address.
pub decide_bootstrap-sole :
    (cfg other : Config) (disk disk' : LocalDisk) (evidence evidence' : ℕ → Evidence)
    → SameNodes (first_nodes cfg evidence) (first_nodes other evidence')
    → All (λ r. IsAddress r.ip) (first_nodes cfg evidence)
    → cfg.allow_new_cluster_bootstrap ≡ false
    → other.allow_new_cluster_bootstrap ≡ false
    → disk.has_global ≡ true
    → disk'.has_global ≡ true
    → decide_bootstrap cfg disk evidence ≡ some new
    → decide_bootstrap other disk' evidence' ≡ some new
    → cfg.my_ip ≡ other.my_ip
unfolding discover_recovery_authority
decide_bootstrap-sole cfg other disk disk' evidence evidence' same addressed off off' full full' e
      f =
    let h = recovers cfg disk evidence off full e in
    let k = recovers other disk' evidence' off' full' f in
    let one =
      evaluate_recovery_authority-agrees cfg other _ _ _ _ h.authority k.authority same addressed
        (confirmed_first cfg evidence h.authority h.confirmed)
        (confirmed_first other evidence' k.authority k.confirmed) in
    sym h.mine ∙ ap (λ (a : RecoveryAuthority). a.ip) one ∙ k.mine
