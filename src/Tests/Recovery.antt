-- ===== src/Tests/Recovery.antt =====
-- Tests of the evidence and of the recovery authority.
use flux_pg_cluster.Base.{
  ℕ, ◌+◌, ◌<◌, ◌≡◌, ◌≢◌, ◌↔◌, refl, inl, inr, [], ◌∷◌, arith, All, Member, length,
}
use flux_pg_cluster.Config.{Config}
use flux_pg_cluster.Identity.{granted, refused, local_node_identity, probe_all_peer_identities}
use flux_pg_cluster.Identity.Confirm.{
  confirm_cycles, discover_recovery_authority, confirm_recovery_authority_with_peers,
  confirm_fresh_cluster_with_peers,
}
use flux_pg_cluster.Identity.Confirm.Authority.{confirm_recovery_authority_with_peers_iff}
use flux_pg_cluster.Identity.Confirm.FreshCluster.{confirm_fresh_cluster_with_peers_iff}
use flux_pg_cluster.Identity.Fresh.{
  evaluate_fresh_peer_evidence, IsFreshPeer, evaluate_fresh_peer_evidence_iff,
}
use flux_pg_cluster.Identity.Recovery.{
  Selection, all_nodes, select_most_advanced_replica, evaluate_recovery_authority,
}
use flux_pg_cluster.Identity.Recovery.Agreement.{SameNodes, evaluate_recovery_authority-agrees}
use flux_pg_cluster.Identity.Recovery.Select.{Wins, select_most_advanced_replica-Wins}
use flux_pg_cluster.Identity.Recovery.Sound.{IsAuthority, evaluate_recovery_authority-IsAuthority}
use flux_pg_cluster.Tests.Cluster.{
  config_a, disk_a, empty_disk, identity_a, identity_b, identity_fresh, result_of, evidence_of,
  authority_a, ip_a, ip_b,
}
use flux_pg_cluster.Text.{Text, codes}
use flux_pg_cluster.Topology.{other_ips_from_initial_cluster}
use flux_pg_cluster.Topology.Parts.{IsAddress}

evaluate_a :
    evaluate_recovery_authority config_a identity_a (result_of ip_b identity_b ∷ [])
    ≡ granted authority_a
unfolding evaluate_recovery_authority other_ips_from_initial_cluster
    flux_pg_cluster.Topology.other_ips_of_parts flux_pg_cluster.Text.split
    flux_pg_cluster.Topology.other_ip flux_pg_cluster.Text.cut flux_pg_cluster.Text.trim_space
    flux_pg_cluster.Identity.Recovery.survey_nodes flux_pg_cluster.Identity.Recovery.inspect_node
    flux_pg_cluster.Topology.node_name_from_ip flux_pg_cluster.Text.equal_strings
    flux_pg_cluster.Topology.membership_names flux_pg_cluster.Text.sort_strings
    flux_pg_cluster.Topology.names_of_parts flux_pg_cluster.Identity.Recovery.decide_authority
    flux_pg_cluster.Identity.Recovery.sort_nodes flux_pg_cluster.Identity.Recovery.sort_node
    flux_pg_cluster.Identity.Recovery.consider_replica flux_pg_cluster.Identity.Recovery.select_loop
    select_most_advanced_replica flux_pg_cluster.Number.add_digit flux_pg_cluster.Number.digit_value
    flux_pg_cluster.Number.parse_uint flux_pg_cluster.Number.read_digits
    flux_pg_cluster.Number.read_number flux_pg_cluster.Postgres.parse_postgres_lsn
    flux_pg_cluster.Text.after_first flux_pg_cluster.Text.before_last flux_pg_cluster.Text.equal
    flux_pg_cluster.Text.has_prefix flux_pg_cluster.Text.insert_sorted flux_pg_cluster.Text.less
    flux_pg_cluster.Text.replace_all flux_pg_cluster.Text.replace_from
    flux_pg_cluster.Text.trim_left flux_pg_cluster.Text.trim_right
    flux_pg_cluster.Topology.extract_host_from_url
evaluate_a = refl

evaluate_recovery_authority-IsAuthority_example :
    IsAuthority config_a identity_a (result_of ip_b identity_b ∷ []) authority_a
evaluate_recovery_authority-IsAuthority_example =
    evaluate_recovery_authority-IsAuthority config_a identity_a (result_of ip_b identity_b ∷ [])
      evaluate_a

pub ip_a-IsAddress : IsAddress ip_a
ip_a-IsAddress = record { ne_nil = λ e. cc; dotted = ground arith }

pub ip_b-IsAddress : IsAddress ip_b
ip_b-IsAddress = record { ne_nil = λ e. cc; dotted = ground arith }

nodes-IsAddress :
    All (λ r. IsAddress r.ip) (all_nodes config_a identity_a (result_of ip_b identity_b ∷ []))
nodes-IsAddress = (ip_a-IsAddress, (ip_b-IsAddress, tt))

-- The second node sees the same two nodes in the other order.
abbrev config_b : Config
config_b = record config_a { my_name = codes "node-10-0-0-2"; my_ip = ip_b }

evaluate_b :
    evaluate_recovery_authority config_b identity_b (result_of ip_a identity_a ∷ [])
    ≡ granted authority_a
unfolding evaluate_recovery_authority other_ips_from_initial_cluster
    flux_pg_cluster.Topology.other_ips_of_parts flux_pg_cluster.Text.split
    flux_pg_cluster.Topology.other_ip flux_pg_cluster.Text.cut flux_pg_cluster.Text.trim_space
    flux_pg_cluster.Identity.Recovery.survey_nodes flux_pg_cluster.Identity.Recovery.inspect_node
    flux_pg_cluster.Topology.node_name_from_ip flux_pg_cluster.Text.equal_strings
    flux_pg_cluster.Topology.membership_names flux_pg_cluster.Text.sort_strings
    flux_pg_cluster.Topology.names_of_parts flux_pg_cluster.Identity.Recovery.decide_authority
    flux_pg_cluster.Identity.Recovery.sort_nodes flux_pg_cluster.Identity.Recovery.sort_node
    flux_pg_cluster.Identity.Recovery.consider_replica flux_pg_cluster.Identity.Recovery.select_loop
    select_most_advanced_replica flux_pg_cluster.Number.add_digit flux_pg_cluster.Number.digit_value
    flux_pg_cluster.Number.parse_uint flux_pg_cluster.Number.read_digits
    flux_pg_cluster.Number.read_number flux_pg_cluster.Postgres.parse_postgres_lsn
    flux_pg_cluster.Text.after_first flux_pg_cluster.Text.before_last flux_pg_cluster.Text.equal
    flux_pg_cluster.Text.has_prefix flux_pg_cluster.Text.insert_sorted flux_pg_cluster.Text.less
    flux_pg_cluster.Text.replace_all flux_pg_cluster.Text.replace_from
    flux_pg_cluster.Text.trim_left flux_pg_cluster.Text.trim_right
    flux_pg_cluster.Topology.extract_host_from_url
evaluate_b = refl

swapped : {A : Type 0} {a b : A} (x : A) → Member x (a ∷ b ∷ []) → Member x (b ∷ a ∷ [])
swapped x (inl e) = inr (inl e)
swapped x (inr (inl e)) = inl e
swapped x (inr (inr none_left)) = absurd none_left

same_nodes :
    SameNodes
      (all_nodes config_a identity_a (result_of ip_b identity_b ∷ []))
      (all_nodes config_b identity_b (result_of ip_a identity_a ∷ []))
same_nodes x = (swapped x, swapped x)

evaluate_recovery_authority-agrees_example : authority_a ≡ authority_a
evaluate_recovery_authority-agrees_example =
    evaluate_recovery_authority-agrees config_a config_b identity_a identity_b
      (result_of ip_b identity_b ∷ []) (result_of ip_a identity_a ∷ []) authority_a authority_a
      same_nodes nodes-IsAddress evaluate_a evaluate_b

two_replicas :
    select_most_advanced_replica (
      result_of ip_a (record identity_a { postgres_durable_role = codes "replica" })
      ∷ result_of ip_b identity_b
      ∷ [])
    ≡ granted
        (record { selected = result_of ip_b identity_b; best = record { timeline = 1; lsn = 11 } })
unfolding select_most_advanced_replica flux_pg_cluster.Identity.Recovery.select_loop
    flux_pg_cluster.Identity.Recovery.consider_replica flux_pg_cluster.Postgres.parse_postgres_lsn
    flux_pg_cluster.Text.split flux_pg_cluster.Text.trim_space flux_pg_cluster.Number.parse_uint
two_replicas = refl

select_most_advanced_replica-Wins_example :
    Wins
      (result_of ip_a (record identity_a { postgres_durable_role = codes "replica" })
        ∷ result_of ip_b identity_b
        ∷ [])
      (record { selected = result_of ip_b identity_b; best = record { timeline = 1; lsn = 11 } })
select_most_advanced_replica-Wins_example =
    select_most_advanced_replica-Wins
      (result_of ip_a (record identity_a { postgres_durable_role = codes "replica" })
        ∷ result_of ip_b identity_b
        ∷ [])
      two_replicas

-- A first node without data accepts the second's evidence.
evaluate_fresh_peer_evidence_iff_example :
    (evaluate_fresh_peer_evidence config_a (result_of ip_b identity_fresh ∷ []) ≡ granted tt) ↔ (
      (length (result_of ip_b identity_fresh ∷ [])
        ≡ length (other_ips_from_initial_cluster config_a.etcd_initial_cluster config_a.my_name))
      × All (IsFreshPeer config_a) (result_of ip_b identity_fresh ∷ []))
evaluate_fresh_peer_evidence_iff_example =
    evaluate_fresh_peer_evidence_iff config_a (result_of ip_b identity_fresh ∷ [])

fresh_accepted :
    evaluate_fresh_peer_evidence config_a (result_of ip_b identity_fresh ∷ []) ≡ granted tt
unfolding evaluate_fresh_peer_evidence other_ips_from_initial_cluster
    flux_pg_cluster.Topology.other_ips_of_parts flux_pg_cluster.Text.split
    flux_pg_cluster.Topology.other_ip flux_pg_cluster.Text.cut flux_pg_cluster.Text.trim_space
    flux_pg_cluster.Topology.node_name_from_ip flux_pg_cluster.Text.equal_strings
    flux_pg_cluster.Topology.membership_names flux_pg_cluster.Text.sort_strings
    flux_pg_cluster.Topology.names_of_parts
fresh_accepted = refl

confirm_recovery_authority_with_peers_iff_example :
    (confirm_recovery_authority_with_peers config_a (evidence_of disk_a identity_b)
      ≡ granted authority_a)
    ↔ ((k : ℕ)
        → k < confirm_cycles config_a.bootstrap_peer_confirm_cycles
        → discover_recovery_authority config_a (evidence_of disk_a identity_b (k + 1))
          ≡ granted authority_a)
confirm_recovery_authority_with_peers_iff_example =
    confirm_recovery_authority_with_peers_iff config_a (evidence_of disk_a identity_b) authority_a

pub confirmed_a :
    confirm_recovery_authority_with_peers config_a (evidence_of disk_a identity_b)
    ≡ granted authority_a
unfolding confirm_recovery_authority_with_peers
    flux_pg_cluster.Identity.Confirm.confirm_authority_loop confirm_cycles
    discover_recovery_authority evaluate_recovery_authority probe_all_peer_identities
    other_ips_from_initial_cluster flux_pg_cluster.Topology.other_ips_of_parts
    flux_pg_cluster.Text.split flux_pg_cluster.Topology.other_ip flux_pg_cluster.Text.cut
    flux_pg_cluster.Text.trim_space flux_pg_cluster.Identity.Recovery.survey_nodes
    flux_pg_cluster.Identity.Recovery.inspect_node local_node_identity
    flux_pg_cluster.Postgres.read_local_pg_control_data flux_pg_cluster.Postgres.recovery_position
    flux_pg_cluster.Identity.Confirm.keep_authority flux_pg_cluster.Identity.Confirm.same_authority
    flux_pg_cluster.Identity.Recovery.consider_replica
    flux_pg_cluster.Identity.Recovery.decide_authority flux_pg_cluster.Identity.Recovery.select_loop
    select_most_advanced_replica flux_pg_cluster.Identity.Recovery.sort_node
    flux_pg_cluster.Identity.Recovery.sort_nodes flux_pg_cluster.Identity.directory_is_empty
    flux_pg_cluster.Identity.etcd_data_directory_is_fresh flux_pg_cluster.Identity.only_marker
    flux_pg_cluster.Identity.patroni_fallback flux_pg_cluster.Identity.postgres_durable_role
    flux_pg_cluster.Identity.probe_peer_identity flux_pg_cluster.Number.add_digit
    flux_pg_cluster.Number.digit_value flux_pg_cluster.Number.parse_uint
    flux_pg_cluster.Number.print_hex flux_pg_cluster.Number.read_digits
    flux_pg_cluster.Number.read_number flux_pg_cluster.Number.to_digits
    flux_pg_cluster.Postgres.consider flux_pg_cluster.Postgres.format_postgres_lsn
    flux_pg_cluster.Postgres.parse_control_lines
    flux_pg_cluster.Postgres.parse_postgres_control_data flux_pg_cluster.Postgres.parse_postgres_lsn
    flux_pg_cluster.Postgres.set_control_field flux_pg_cluster.Text.after_first
    flux_pg_cluster.Text.before_last flux_pg_cluster.Text.equal flux_pg_cluster.Text.equal_strings
    flux_pg_cluster.Text.has_prefix flux_pg_cluster.Text.insert_sorted flux_pg_cluster.Text.less
    flux_pg_cluster.Text.replace_all flux_pg_cluster.Text.replace_from
    flux_pg_cluster.Text.sort_strings flux_pg_cluster.Text.trim_left flux_pg_cluster.Text.trim_right
    flux_pg_cluster.Topology.extract_host_from_url flux_pg_cluster.Topology.membership_names
    flux_pg_cluster.Topology.names_of_parts flux_pg_cluster.Topology.node_name_from_ip
confirmed_a = refl

confirm_fresh_cluster_with_peers_iff_example :
    (confirm_fresh_cluster_with_peers config_a (evidence_of empty_disk identity_fresh) ≡ granted tt)
    ↔ ((other_ips_from_initial_cluster config_a.etcd_initial_cluster config_a.my_name ≢ [])
        × ((k : ℕ)
            → k < confirm_cycles config_a.bootstrap_peer_confirm_cycles
            → evaluate_fresh_peer_evidence config_a (
                probe_all_peer_identities config_a
                  (evidence_of empty_disk identity_fresh (k + 1))
                  (other_ips_from_initial_cluster config_a.etcd_initial_cluster config_a.my_name))
              ≡ granted tt))
confirm_fresh_cluster_with_peers_iff_example =
    confirm_fresh_cluster_with_peers_iff config_a (evidence_of empty_disk identity_fresh)

fresh_confirmed :
    confirm_fresh_cluster_with_peers config_a (evidence_of empty_disk identity_fresh) ≡ granted tt
unfolding confirm_fresh_cluster_with_peers flux_pg_cluster.Identity.Confirm.confirm_fresh_peers
    other_ips_from_initial_cluster flux_pg_cluster.Topology.other_ips_of_parts
    flux_pg_cluster.Text.split flux_pg_cluster.Topology.other_ip flux_pg_cluster.Text.cut
    flux_pg_cluster.Text.trim_space flux_pg_cluster.Identity.Confirm.confirm_fresh_loop
    confirm_cycles evaluate_fresh_peer_evidence probe_all_peer_identities
    flux_pg_cluster.Identity.probe_peer_identity flux_pg_cluster.Topology.node_name_from_ip
    flux_pg_cluster.Text.equal_strings flux_pg_cluster.Topology.membership_names
    flux_pg_cluster.Text.sort_strings flux_pg_cluster.Identity.Fresh.check_fresh_peer
    flux_pg_cluster.Identity.Fresh.check_fresh_peers flux_pg_cluster.Identity.patroni_fallback
    flux_pg_cluster.Text.after_first flux_pg_cluster.Text.before_last flux_pg_cluster.Text.equal
    flux_pg_cluster.Text.has_prefix flux_pg_cluster.Text.insert_sorted flux_pg_cluster.Text.less
    flux_pg_cluster.Text.replace_all flux_pg_cluster.Text.replace_from
    flux_pg_cluster.Text.trim_left flux_pg_cluster.Text.trim_right
    flux_pg_cluster.Topology.extract_host_from_url flux_pg_cluster.Topology.names_of_parts
fresh_confirmed = refl
