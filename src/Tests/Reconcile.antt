-- ===== src/Tests/Reconcile.antt =====
-- Tests of a whole cycle of the daemon.
use flux_pg_cluster.Base.{
  ℕ, ◌≡◌, ◌≢◌, ◌⊎◌, refl, sym, subst, inl, inr, Bool, true, false, Option, none, some, List, [],
  ◌∷◌, ◌++◌, Member, arith, if◌then◌else◌,
}
use flux_pg_cluster.Base.Int.{ℤ, pos}
use flux_pg_cluster.Config.{Config}
use flux_pg_cluster.Daemon.ClusterEnv.{Node, System}
use flux_pg_cluster.Daemon.PatroniConfig.{Decoded, malformed, Fields}
use flux_pg_cluster.Daemon.Reconcile.{
  Surroundings, has_endpoint, Effect, Cooldowns, run_reconcile, wrote_tracker, wrote_unavailable,
  wrote_no_quorum, recovery, system_id,
}
use flux_pg_cluster.Daemon.Reconcile.Justified.{
  is_stable, run_reconcile-IsQuorumLost, run_reconcile-IsCondemned,
}
use flux_pg_cluster.Daemon.Reconcile.Parts.{Some, is_flag, is_wipe, IsQuorumLost}
use flux_pg_cluster.Daemon.SystemId.{wrote_cooldown, stopped_patroni, wiped_pg_data}
use flux_pg_cluster.Daemon.SystemId.Wipe.{IsCondemned}
use flux_pg_cluster.Daemon.Unreachable.{
  wrote_fnf_flag, wrote_fnf_cooldown, reset_no_quorum, restarted_etcd,
}
use flux_pg_cluster.Daemon.Unreachable.Authority.{IsRecoverable}
use flux_pg_cluster.Etcd.{Member as EtcdMember}
use flux_pg_cluster.Identity.{granted}
use flux_pg_cluster.Identity.Confirm.{confirm_recovery_authority_with_peers}
use flux_pg_cluster.Tests.Cluster.{
  config_a, disk_a, identity_b, evidence_of, authority_a, ip_a, ip_b,
}
use flux_pg_cluster.Tests.Daemon.{other_epoch, dead}
use flux_pg_cluster.Tests.Members.{member_a, member_b}
use flux_pg_cluster.Tests.Cycle.{sound}
use flux_pg_cluster.Text.{Text, codes}

-- The first node, with the topology of both.
abbrev config_b : Config
config_b = record config_a {
  patroni_etcd_hosts = codes "127.0.0.1:2379";
  allow_pg_data_wipe = true;
}

abbrev node_b : Node
node_b = record { cfg = config_b; cluster_env = none; patroni_yml = none; signalled = [] }

-- The third cycle in which the nodes are the same, and in which etcd takes no write.
abbrev quorum_lost : Surroundings
quorum_lost = record {
  desired_ips = some (ip_a ∷ ip_b ∷ []);
  tracker_file = some (codes "10.0.0.1,10.0.0.2\n2\n");
  system = sound;
  status = λ url. some 503;
  etcdctl = λ args. none;
  no_quorum_file = some (codes "2");
  etcd = dead;
  postgres = other_epoch;
  members = some (member_a ∷ member_b ∷ []);
  members_after_ghosts = some (member_a ∷ member_b ∷ []);
  peer_members = λ ip. none;
  voter_members = λ ip. none;
  reachable = λ ip. true;
  patroni = λ url. none;
  leader_key = none;
  config_key = none;
  has_marker = true;
  psql = λ sql. none;
}

abbrev cooldowns : Cooldowns
cooldowns = record { fnf_secs = pos 300; pg_wipe_secs = pos 300 }

abbrev no_codec : Text → Decoded
no_codec t = malformed

abbrev no_marshal : Fields → Option Text
no_marshal m = none

confirmed_b :
    confirm_recovery_authority_with_peers config_b (evidence_of disk_a identity_b)
    ≡ granted authority_a
unfolding flux_pg_cluster.Identity.Confirm.confirm_recovery_authority_with_peers
    flux_pg_cluster.Identity.Confirm.confirm_authority_loop
    flux_pg_cluster.Identity.Confirm.confirm_cycles
    flux_pg_cluster.Identity.Confirm.discover_recovery_authority
    flux_pg_cluster.Identity.Recovery.evaluate_recovery_authority
    flux_pg_cluster.Identity.probe_all_peer_identities
    flux_pg_cluster.Topology.other_ips_from_initial_cluster
    flux_pg_cluster.Topology.other_ips_of_parts flux_pg_cluster.Text.split
    flux_pg_cluster.Topology.other_ip flux_pg_cluster.Text.cut flux_pg_cluster.Text.trim_space
    flux_pg_cluster.Identity.Recovery.survey_nodes flux_pg_cluster.Identity.Recovery.inspect_node
    flux_pg_cluster.Identity.local_node_identity flux_pg_cluster.Postgres.read_local_pg_control_data
    flux_pg_cluster.Postgres.recovery_position flux_pg_cluster.Identity.Confirm.keep_authority
    flux_pg_cluster.Identity.Confirm.same_authority
    flux_pg_cluster.Identity.Recovery.consider_replica
    flux_pg_cluster.Identity.Recovery.decide_authority flux_pg_cluster.Identity.Recovery.select_loop
    flux_pg_cluster.Identity.Recovery.select_most_advanced_replica
    flux_pg_cluster.Identity.Recovery.sort_node flux_pg_cluster.Identity.Recovery.sort_nodes
    flux_pg_cluster.Identity.directory_is_empty
    flux_pg_cluster.Identity.etcd_data_directory_is_fresh flux_pg_cluster.Identity.only_marker
    flux_pg_cluster.Identity.patroni_fallback flux_pg_cluster.Identity.postgres_durable_role
    flux_pg_cluster.Identity.probe_peer_identity flux_pg_cluster.Number.add_digit
    flux_pg_cluster.Number.digit_value flux_pg_cluster.Number.parse_uint
    flux_pg_cluster.Number.print_hex flux_pg_cluster.Number.read_digits
    flux_pg_cluster.Number.read_number flux_pg_cluster.Number.to_digits
    flux_pg_cluster.Postgres.consider flux_pg_cluster.Postgres.format_postgres_lsn
    flux_pg_cluster.Postgres.parse_control_lines
    flux_pg_cluster.Postgres.parse_postgres_control_data flux_pg_cluster.Postgres.parse_postgres_lsn
    flux_pg_cluster.Postgres.set_control_field flux_pg_cluster.Text.after_first
    flux_pg_cluster.Text.before_last flux_pg_cluster.Text.equal flux_pg_cluster.Text.equal_strings
    flux_pg_cluster.Text.has_prefix flux_pg_cluster.Text.insert_sorted flux_pg_cluster.Text.less
    flux_pg_cluster.Text.replace_all flux_pg_cluster.Text.replace_from
    flux_pg_cluster.Text.sort_strings flux_pg_cluster.Text.trim_left flux_pg_cluster.Text.trim_right
    flux_pg_cluster.Topology.extract_host_from_url flux_pg_cluster.Topology.membership_names
    flux_pg_cluster.Topology.names_of_parts flux_pg_cluster.Topology.node_name_from_ip
confirmed_b = refl

forces :
    (run_reconcile no_codec no_marshal cooldowns quorum_lost node_b).1
    ≡ wrote_tracker (codes "10.0.0.1,10.0.0.2\n3\n")
      ∷ wrote_unavailable (pos 0)
      ∷ wrote_no_quorum (pos 3)
      ∷ recovery wrote_fnf_flag
      ∷ recovery (wrote_fnf_cooldown (pos 1000))
      ∷ recovery reset_no_quorum
      ∷ recovery restarted_etcd
      ∷ []
unfolding run_reconcile flux_pg_cluster.Daemon.Reconcile.has_endpoint
    flux_pg_cluster.Daemon.Reconcile.has_quorum
    flux_pg_cluster.Daemon.Endpoint.pick_healthy_etcd_endpoint
    flux_pg_cluster.Daemon.Endpoint.etcd_health_reachable
    flux_pg_cluster.Daemon.Endpoint.own_endpoints flux_pg_cluster.Etcd.Commands.set_with_ttl
    flux_pg_cluster.Etcd.Commands.fields_from flux_pg_cluster.Daemon.Tracker.update_state_tracker
    flux_pg_cluster.Daemon.Tracker.read_tracker flux_pg_cluster.Etcd.split_n
    flux_pg_cluster.Etcd.cut_text flux_pg_cluster.Etcd.field flux_pg_cluster.Text.has_prefix
    flux_pg_cluster.Text.trim_space flux_pg_cluster.Text.trim_left flux_pg_cluster.Text.trim_right
    flux_pg_cluster.Number.atoi flux_pg_cluster.Number.itoa flux_pg_cluster.Number.print_nat
    flux_pg_cluster.Number.to_digits flux_pg_cluster.Number.read_number
    flux_pg_cluster.Number.read_digits flux_pg_cluster.Number.add_digit
    flux_pg_cluster.Number.digit_value flux_pg_cluster.Daemon.Reconcile.reconcile_etcd
    flux_pg_cluster.Text.join flux_pg_cluster.Daemon.Reconcile.note_quorum
    flux_pg_cluster.Base.Int.wrap_int64 flux_pg_cluster.Base.Int.◌+ℤ◌ flux_pg_cluster.Base.Int.◌-ℤ◌
    flux_pg_cluster.Daemon.Reconcile.recover_quorum flux_pg_cluster.Text.equal
    flux_pg_cluster.Daemon.ClusterEnv.update_cluster_env
    flux_pg_cluster.Topology.build_etcd_topology flux_pg_cluster.Topology.initial_part
    flux_pg_cluster.Topology.etcd_url flux_pg_cluster.Topology.node_name_from_ip
    flux_pg_cluster.Config.etcd_protocol flux_pg_cluster.Text.replace_all
    flux_pg_cluster.Text.replace_from flux_pg_cluster.Daemon.should_fnf_now
    flux_pg_cluster.Daemon.Unreachable.trigger_force_new_cluster
forces = rw confirmed_b refl

forces_flag : Some is_flag (run_reconcile no_codec no_marshal cooldowns quorum_lost node_b).1
unfolding Some
forces_flag = subst (Some is_flag) (sym forces) (inr (inr (inr (inl refl))))

run_reconcile-IsQuorumLost_example :
    (ips : List Text) × (some (ip_a ∷ ip_b ∷ []) ≡ some ips)
    × (((has_endpoint
              (run_reconcile no_codec no_marshal cooldowns quorum_lost node_b).0.cfg
              quorum_lost
            ≡ false)
          × IsRecoverable
              (run_reconcile no_codec no_marshal cooldowns quorum_lost node_b).0.cfg
              ips
              (is_stable quorum_lost node_b ips)
              (pos 300)
              dead)
        ⊎ ((has_endpoint
                (run_reconcile no_codec no_marshal cooldowns quorum_lost node_b).0.cfg
                quorum_lost
              ≡ true)
            × IsQuorumLost
                (run_reconcile no_codec no_marshal cooldowns quorum_lost node_b).0.cfg
                cooldowns
                quorum_lost
                ips
                (is_stable quorum_lost node_b ips)))
run_reconcile-IsQuorumLost_example =
    run_reconcile-IsQuorumLost no_codec no_marshal cooldowns quorum_lost node_b forces_flag

-- With a quorum, a primary of another epoch, and the operator's leave.
abbrev condemned : Surroundings
condemned = record quorum_lost { etcdctl = λ args. some (codes "lease 5 granted with TTL(1s)") }

deletes_data :
    (run_reconcile no_codec no_marshal cooldowns condemned node_b).1
    ≡ wrote_tracker (codes "10.0.0.1,10.0.0.2\n3\n")
      ∷ wrote_unavailable (pos 0)
      ∷ wrote_no_quorum (pos 0)
      ∷ system_id (wrote_cooldown (pos 1000))
      ∷ system_id stopped_patroni
      ∷ system_id wiped_pg_data
      ∷ []
unfolding run_reconcile flux_pg_cluster.Daemon.Reconcile.has_endpoint
    flux_pg_cluster.Daemon.Reconcile.has_quorum
    flux_pg_cluster.Daemon.Endpoint.pick_healthy_etcd_endpoint
    flux_pg_cluster.Daemon.Endpoint.etcd_health_reachable
    flux_pg_cluster.Daemon.Endpoint.own_endpoints flux_pg_cluster.Etcd.Commands.set_with_ttl
    flux_pg_cluster.Etcd.Commands.fields_from flux_pg_cluster.Daemon.Tracker.update_state_tracker
    flux_pg_cluster.Daemon.Tracker.read_tracker flux_pg_cluster.Etcd.split_n
    flux_pg_cluster.Etcd.cut_text flux_pg_cluster.Etcd.field flux_pg_cluster.Text.has_prefix
    flux_pg_cluster.Text.trim_space flux_pg_cluster.Text.trim_left flux_pg_cluster.Text.trim_right
    flux_pg_cluster.Number.atoi flux_pg_cluster.Number.itoa flux_pg_cluster.Number.print_nat
    flux_pg_cluster.Number.to_digits flux_pg_cluster.Number.read_number
    flux_pg_cluster.Number.read_digits flux_pg_cluster.Number.add_digit
    flux_pg_cluster.Number.digit_value flux_pg_cluster.Daemon.Reconcile.reconcile_etcd
    flux_pg_cluster.Text.join flux_pg_cluster.Daemon.Reconcile.note_quorum
    flux_pg_cluster.Base.Int.wrap_int64 flux_pg_cluster.Base.Int.◌+ℤ◌ flux_pg_cluster.Base.Int.◌-ℤ◌
    flux_pg_cluster.Daemon.Reconcile.recover_quorum flux_pg_cluster.Text.equal
    flux_pg_cluster.Daemon.ClusterEnv.update_cluster_env
    flux_pg_cluster.Topology.build_etcd_topology flux_pg_cluster.Topology.initial_part
    flux_pg_cluster.Topology.etcd_url flux_pg_cluster.Topology.node_name_from_ip
    flux_pg_cluster.Config.etcd_protocol flux_pg_cluster.Text.replace_all
    flux_pg_cluster.Text.replace_from flux_pg_cluster.Daemon.should_fnf_now
    flux_pg_cluster.Daemon.PatroniConfig.reconcile_patroni_dcs_config
    flux_pg_cluster.Daemon.Credentials.reconcile_postgres_credentials
    flux_pg_cluster.Daemon.Members.remove_ghosts flux_pg_cluster.Daemon.Members.ghost_change
    flux_pg_cluster.Daemon.Reconcile.check_votes
    flux_pg_cluster.Daemon.Unreachable.evaluate_peer_votes
    flux_pg_cluster.Daemon.Reconcile.reconcile_members
    flux_pg_cluster.Daemon.Leader.check_stale_patroni_leader
    flux_pg_cluster.Daemon.SystemId.check_patroni_system_id
    flux_pg_cluster.Daemon.SystemId.heal_initialize flux_pg_cluster.Daemon.SystemId.poll_members
    flux_pg_cluster.Daemon.SystemId.poll_member flux_pg_cluster.Daemon.SystemId.wipe_stale_data
    flux_pg_cluster.Postgres.read_local_pg_system_id
    flux_pg_cluster.Postgres.read_local_pg_control_data
    flux_pg_cluster.Postgres.parse_postgres_control_data
    flux_pg_cluster.Postgres.parse_control_lines flux_pg_cluster.Postgres.set_control_field
    flux_pg_cluster.Text.split flux_pg_cluster.Text.cut flux_pg_cluster.Daemon.Members.members_ips
    flux_pg_cluster.Daemon.Members.member_ip flux_pg_cluster.Daemon.Members.remove_departed
    flux_pg_cluster.Daemon.Members.departed_change flux_pg_cluster.Daemon.Members.promote_learners
    flux_pg_cluster.Daemon.Members.learner_change flux_pg_cluster.Topology.extract_host_from_url
    flux_pg_cluster.Text.after_first flux_pg_cluster.Text.before_last
    flux_pg_cluster.Text.contains_string
deletes_data = refl

wiped_data : Some is_wipe (run_reconcile no_codec no_marshal cooldowns condemned node_b).1
unfolding Some
wiped_data = subst (Some is_wipe) (sym deletes_data) (inr (inr (inr (inr (inr (inl refl))))))

run_reconcile-IsCondemned_example :
    (ips : List Text) × (some (ip_a ∷ ip_b ∷ []) ≡ some ips)
    × (has_endpoint (run_reconcile no_codec no_marshal cooldowns condemned node_b).0.cfg condemned
        ≡ true)
    × IsCondemned
        (run_reconcile no_codec no_marshal cooldowns condemned node_b).0.cfg
        ips
        (pos 300)
        other_epoch
run_reconcile-IsCondemned_example =
    run_reconcile-IsCondemned no_codec no_marshal cooldowns condemned node_b wiped_data
