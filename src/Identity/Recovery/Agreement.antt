-- ===== src/Identity/Recovery/Agreement.antt =====
-- Nodes that see the same evidence name the same authority, in whatever order they see it.
use flux_pg_cluster.Base.{
  ◌≡◌, ◌≢◌, ◌↔◌, sym, ap, ◌∙◌, ◌⊎◌, inl, inr, List, All, All-map, Member, All-Member, arith,
}
use flux_pg_cluster.Config.{Config}
use flux_pg_cluster.Identity.{NodeIdentity, PeerIdentityResult, RecoveryAuthority, granted}
use flux_pg_cluster.Identity.Recovery.{authority_of, all_nodes, evaluate_recovery_authority}
use flux_pg_cluster.Identity.Recovery.Sound.{
  IsBehind, Outranked, IsChoice, evaluate_recovery_authority-IsAuthority,
}
use flux_pg_cluster.Identity.Recovery.Survey.{IsConsistent, bearing, Member-bearing, bearing-Member}
use flux_pg_cluster.Text.{codes, equal}
use flux_pg_cluster.Text.Laws.{equal_iff, less_total}
use flux_pg_cluster.Topology.{membership_names, node_name_from_ip}
use flux_pg_cluster.Topology.Parts.{IsAddress, node_name-injective}

-- Two lists hold the same nodes.
abbrev pub SameNodes : List PeerIdentityResult → List PeerIdentityResult → Type 0
SameNodes ns ms = (x : PeerIdentityResult) → Member x ns ↔ Member x ms

authority_lem :
    (c d : PeerIdentityResult)
    → c.ip ≡ d.ip
    → c.identity.node_name ≡ d.identity.node_name
    → c.identity.postgres_system_identifier ≡ d.identity.postgres_system_identifier
    → authority_of c.identity.postgres_system_identifier c
      ≡ authority_of d.identity.postgres_system_identifier d
authority_lem c d ips names ids = cc

-- Two nodes, each at the position of the other or behind it, bear the same name.
tied-name :
    (c d : PeerIdentityResult)
    → IsBehind c d
    → IsBehind d c
    → c.identity.node_name ≡ d.identity.node_name
tied-name c d h k =
    let here = sym h.parsed ∙ k.best_parsed in
    let there = sym h.best_parsed ∙ k.parsed in
    elim (h.order) [
      | inl lt ↦ grind (arith, k.order, here, there)
      | inr (e, l) ↦ elim (k.order) [
        | inl lt ↦ grind (arith, here, there)
        | inr (_, m) ↦ less_total c.identity.node_name d.identity.node_name l m
      ]
    ]

roles-ne : codes "replica" ≢ codes "primary"
unfolding equal
roles-ne e = cc ((equal_iff (codes "replica") (codes "primary")).1 e)

-- Two nodes that each outrank the other bear the same name.
Outranked-name :
    (c d : PeerIdentityResult)
    → (c ≡ d) ⊎ Outranked c d
    → (d ≡ c) ⊎ Outranked d c
    → c.identity.node_name ≡ d.identity.node_name
Outranked-name c d (inl e) k = ap (λ (r : PeerIdentityResult). r.identity.node_name) e
Outranked-name c d h (inl e) = ap (λ (r : PeerIdentityResult). r.identity.node_name) (sym e)
Outranked-name c d (inr (rc, inl p)) (inr (rd, _)) = absurd (roles-ne (sym rd ∙ p))
Outranked-name c d (inr (rc, _)) (inr (rd, inl p)) = absurd (roles-ne (sym rc ∙ p))
Outranked-name c d (inr (rc, inr (_, h))) (inr (rd, inr (_, k))) = tied-name c d h k

bearing-SameNodes :
    (ns ms : List PeerIdentityResult)
    → SameNodes ns ms
    → (x : PeerIdentityResult) → Member x (bearing ns)
    → Member x (bearing ms)
bearing-SameNodes ns ms h x m =
    let (n, bears) = bearing-Member x ns m in Member-bearing x ms ((h x).0 n) bears

SameNodes-sym : (ns ms : List PeerIdentityResult) → SameNodes ns ms → SameNodes ms ns
SameNodes-sym ns ms h x = ((h x).1, (h x).0)

-- The choices among the same nodes are one, where a name belongs to one address.
IsChoice-unique :
    (ns ms : List PeerIdentityResult) (a b : RecoveryAuthority)
    → SameNodes ns ms
    → All (λ r. r.identity.node_name ≡ node_name_from_ip r.ip) ns
    → All (λ r. IsAddress r.ip) ns
    → IsChoice (bearing ns) a
    → IsChoice (bearing ms) b
    → a ≡ b
IsChoice-unique ns ms a b same named addressed h k =
    let c = h.chosen in
    let d = k.chosen in
    let d_in = bearing-SameNodes ms ns (SameNodes-sym ns ms same) d k.member in
    let c_in = bearing-SameNodes ns ms same c h.member in
    let named_at = λ (x : PeerIdentityResult) (m : Member x ns).
      All-Member x (λ (r : PeerIdentityResult). r.identity.node_name ≡ node_name_from_ip r.ip) ns
        named m in
    let address_at = λ (x : PeerIdentityResult) (m : Member x ns).
      All-Member x (λ (r : PeerIdentityResult). IsAddress r.ip) ns addressed m in
    let c_ns = (bearing-Member c ns h.member).0 in
    let d_ns = (bearing-Member d ns d_in).0 in
    let names =
      Outranked-name c d (All-Member c (λ r. (r ≡ d) ⊎ Outranked r d) (bearing ms) k.outranks c_in)
        (All-Member d (λ r. (r ≡ c) ⊎ Outranked r c) (bearing ns) h.outranks d_in) in
    let ips =
      node_name-injective c.ip d.ip (address_at c c_ns) (address_at d d_ns)
        (sym (named_at c c_ns) ∙ names ∙ named_at d d_ns) in
    let ids =
      All-Member d
        (λ (r : PeerIdentityResult).
          r.identity.postgres_system_identifier ≡ c.identity.postgres_system_identifier)
        (bearing ns) h.one_history d_in in
    h.described ∙ authority_lem c d ips names (sym ids) ∙ sym k.described

-- Two evaluations that see the same nodes, each in its own order, never name two authorities: the
-- nodes' addresses are addresses, and each evaluation has its own configuration.
pub evaluate_recovery_authority-agrees :
    (cfg other : Config) (mine theirs : NodeIdentity) (rs ss : List PeerIdentityResult)
    (a b : RecoveryAuthority)
    → SameNodes (all_nodes cfg mine rs) (all_nodes other theirs ss)
    → All (λ r. IsAddress r.ip) (all_nodes cfg mine rs)
    → evaluate_recovery_authority cfg mine rs ≡ granted a
    → evaluate_recovery_authority other theirs ss ≡ granted b
    → a ≡ b
evaluate_recovery_authority-agrees cfg other mine theirs rs ss a b same addressed e f =
    let h = evaluate_recovery_authority-IsAuthority cfg mine rs e in
    let k = evaluate_recovery_authority-IsAuthority other theirs ss f in
    IsChoice-unique (all_nodes cfg mine rs) (all_nodes other theirs ss) a b same
      (All-map
        (λ r (c : IsConsistent cfg (membership_names cfg.etcd_initial_cluster) r). c.right_name)
        (all_nodes cfg mine rs) h.consistent)
      addressed h.choice k.choice
