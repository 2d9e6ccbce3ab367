-- ===== src/Init/Agreement.antt =====
-- The nodes of one cluster make one topology of it: `buildEtcdConfig` as `runInit` calls it.
use mathlib.Core.List.{Perm}
use flux_pg_cluster.Base.{
  ◌≡◌, refl, sym, ap, ◌∙◌, true, Option, some, List, [], ◌∷◌, Member, inl, inr, Bool-cases,
}
use flux_pg_cluster.Config.{Config, etcd_protocol}
use flux_pg_cluster.Init.{ips_or_own, settle_cluster}
use flux_pg_cluster.Text.{Text, contains_string, equal, sort_strings}
use flux_pg_cluster.Text.Laws.{equal_iff}
use flux_pg_cluster.Text.Sorted.{sort_strings-Perm}
use flux_pg_cluster.Topology.{build_etcd_config, build_etcd_topology, initial_part, etcd_url}

contains_string-Member :
    (ip : Text) (ips : List Text) → Member ip ips → contains_string ips ip ≡ true
unfolding contains_string
contains_string-Member ip [] m = absurd m
contains_string-Member ip (x ∷ ips) (inl e) = let r = (equal_iff x ip).1 e in rw r refl
contains_string-Member ip (x ∷ ips) (inr m) =
    let rest = contains_string-Member ip ips m in
    elim (Bool-cases (equal x ip)) [ inl e ↦ rw e refl | inr e ↦ rw (e, rest) refl ]

-- The two nodes' settings give their peers the same ports and the same protocol.
pub record IsAlike (c d : Config) : Type 0 where
  pub client_port : c.host_etcd_client_port ≡ d.host_etcd_client_port
  pub peer_port : c.host_etcd_peer_port ≡ d.host_etcd_peer_port
  pub ssl : c.ssl_enabled ≡ d.ssl_enabled

settle_cluster-ips :
    (c : Config) (own : Text) (ips : List Text)
    → Member own ips
    → (settle_cluster c own (some ips)).cluster_ips ≡ sort_strings ips
unfolding settle_cluster ips_or_own build_etcd_config
settle_cluster-ips c own [] m = absurd m
settle_cluster-ips c own (ip ∷ ips) m = rw (contains_string-Member own (ip ∷ ips) m) refl

-- The texts are functions of the addresses in order and of what the settings share.
settle_cluster-texts :
    (c : Config) (own : Text) (answer : Option (List Text))
    → let s = settle_cluster c own answer in
      let t = build_etcd_topology c s.cluster_ips in
      (s.etcd_initial_cluster ≡ t.initial) × (s.etcd_hosts ≡ t.hosts)
unfolding settle_cluster build_etcd_config build_etcd_topology initial_part etcd_url etcd_protocol
settle_cluster-texts c own answer = (refl, refl)

build_etcd_topology-alike :
    (c d : Config) (ips : List Text)
    → IsAlike c d
    → ((build_etcd_topology c ips).initial ≡ (build_etcd_topology d ips).initial)
      × ((build_etcd_topology c ips).hosts ≡ (build_etcd_topology d ips).hosts)
unfolding build_etcd_topology initial_part etcd_url etcd_protocol
build_etcd_topology-alike c d ips h = rw (h.client_port, h.peer_port, h.ssl) (refl, refl)

-- Two nodes with the same ports and protocol, each of which finds its own address among the
-- addresses it is given, and which are given the same ones in any order, take the cluster's
-- addresses in the same order and write the same text of its initial members and of its endpoints.
pub settle_cluster-agrees :
    (c d : Config) (own other : Text) (ips jps : List Text)
    → IsAlike c d
    → Member own ips
    → Member other jps
    → Perm ips jps
    → let s = settle_cluster c own (some ips) in
      let t = settle_cluster d other (some jps) in
      (s.cluster_ips ≡ t.cluster_ips)
      × (s.etcd_initial_cluster ≡ t.etcd_initial_cluster)
      × (s.etcd_hosts ≡ t.etcd_hosts)
settle_cluster-agrees c d own other ips jps h m n p =
    let same =
      settle_cluster-ips c own ips m
      ∙ sort_strings-Perm ips jps p
      ∙ sym (settle_cluster-ips d other jps n) in
    let alike = build_etcd_topology-alike c d (settle_cluster d other (some jps)).cluster_ips h in
    let texts = settle_cluster-texts c own (some ips) in
    let other_texts = settle_cluster-texts d other (some jps) in
    (
      same,
      texts.0 ∙ ap (λ l. (build_etcd_topology c l).initial) same ∙ alike.0 ∙ sym other_texts.0,
      texts.1 ∙ ap (λ l. (build_etcd_topology c l).hosts) same ∙ alike.1 ∙ sym other_texts.1,
    )
