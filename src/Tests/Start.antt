-- ===== src/Tests/Start.antt =====
-- Tests of the start of etcd.
use flux_pg_cluster.Base.{
  ◌≡◌, ◌↔◌, ◌⊎◌, refl, sym, subst, map, true, false, none, some, List, [], ◌∷◌, All, Member,
}
use flux_pg_cluster.Base.Int.{pos}
use flux_pg_cluster.Etcd.{Member as EtcdMember}
use flux_pg_cluster.Identity.{LocalDisk}
use flux_pg_cluster.Start.{
  new, build_etcd_args, configure_single_member_bootstrap, decide_bootstrap, etcd_ssl_opts,
}
use flux_pg_cluster.Start.Bootstrap.{
  IsOverride, IsFreshStart, IsRecovery, decide_bootstrap_iff, first_nodes, decide_bootstrap-sole,
}
use flux_pg_cluster.Start.Join.{
  Peers, add_failed, no_peers_reachable, max_attempts, try_join_existing,
}
use flux_pg_cluster.Start.Join.Reach.{AllSilent, try_join_existing-no_peers_iff}
use flux_pg_cluster.Start.Run.{Surroundings, wiped_etcd_data, executes, fast_check, run_etcd_start}
use flux_pg_cluster.Start.Run.Safety.{IsHinted, IsAlone, run_etcd_start-new}
use flux_pg_cluster.Start.Run.Forgotten.{IsForgotten}
use flux_pg_cluster.Start.Run.Wipe.{run_etcd_start-wipes_iff}
use flux_pg_cluster.Tests.Cluster.{config_a, disk_a, identity_b, evidence_of, ip_a, ip_b}
use flux_pg_cluster.Tests.Recovery.{ip_a-IsAddress, ip_b-IsAddress}
use flux_pg_cluster.Text.{Text, codes}
use flux_pg_cluster.Topology.{other_ips_from_initial_cluster}
use flux_pg_cluster.Topology.Parts.{IsAddress}

founds_a : decide_bootstrap config_a disk_a (evidence_of disk_a identity_b) ≡ some new
unfolding decide_bootstrap flux_pg_cluster.Identity.Confirm.confirm_recovery_authority_with_peers
    flux_pg_cluster.Identity.Confirm.confirm_authority_loop
    flux_pg_cluster.Identity.Confirm.confirm_cycles
    flux_pg_cluster.Identity.Confirm.discover_recovery_authority
    flux_pg_cluster.Identity.Recovery.evaluate_recovery_authority
    flux_pg_cluster.Identity.probe_all_peer_identities other_ips_from_initial_cluster
    flux_pg_cluster.Topology.other_ips_of_parts flux_pg_cluster.Text.split
    flux_pg_cluster.Topology.other_ip flux_pg_cluster.Text.cut flux_pg_cluster.Text.trim_space
    flux_pg_cluster.Identity.Recovery.survey_nodes flux_pg_cluster.Identity.Recovery.inspect_node
    flux_pg_cluster.Identity.local_node_identity flux_pg_cluster.Postgres.read_local_pg_control_data
    flux_pg_cluster.Identity.Confirm.confirm_fresh_cluster_with_peers
    flux_pg_cluster.Identity.Confirm.confirm_fresh_loop
    flux_pg_cluster.Identity.Confirm.confirm_fresh_peers
    flux_pg_cluster.Identity.Confirm.keep_authority flux_pg_cluster.Identity.Confirm.same_authority
    flux_pg_cluster.Identity.Fresh.check_fresh_peer flux_pg_cluster.Identity.Fresh.check_fresh_peers
    flux_pg_cluster.Identity.Fresh.evaluate_fresh_peer_evidence
    flux_pg_cluster.Identity.Recovery.consider_replica
    flux_pg_cluster.Identity.Recovery.decide_authority flux_pg_cluster.Identity.Recovery.select_loop
    flux_pg_cluster.Identity.Recovery.select_most_advanced_replica
    flux_pg_cluster.Identity.Recovery.sort_node flux_pg_cluster.Identity.Recovery.sort_nodes
    flux_pg_cluster.Identity.directory_is_empty
    flux_pg_cluster.Identity.etcd_data_directory_is_fresh flux_pg_cluster.Identity.only_marker
    flux_pg_cluster.Identity.patroni_fallback flux_pg_cluster.Identity.postgres_durable_role
    flux_pg_cluster.Identity.probe_peer_identity flux_pg_cluster.Number.add_digit
    flux_pg_cluster.Number.digit_value flux_pg_cluster.Number.parse_uint
    flux_pg_cluster.Number.print_hex flux_pg_cluster.Number.read_digits
    flux_pg_cluster.Number.read_number flux_pg_cluster.Number.to_digits
    flux_pg_cluster.Postgres.consider flux_pg_cluster.Postgres.format_postgres_lsn
    flux_pg_cluster.Postgres.parse_control_lines
    flux_pg_cluster.Postgres.parse_postgres_control_data flux_pg_cluster.Postgres.parse_postgres_lsn
    flux_pg_cluster.Postgres.recovery_position flux_pg_cluster.Postgres.set_control_field
    flux_pg_cluster.Text.after_first flux_pg_cluster.Text.before_last flux_pg_cluster.Text.equal
    flux_pg_cluster.Text.equal_strings flux_pg_cluster.Text.has_prefix
    flux_pg_cluster.Text.insert_sorted flux_pg_cluster.Text.less flux_pg_cluster.Text.replace_all
    flux_pg_cluster.Text.replace_from flux_pg_cluster.Text.sort_strings
    flux_pg_cluster.Text.trim_left flux_pg_cluster.Text.trim_right
    flux_pg_cluster.Topology.bootstrap_candidate flux_pg_cluster.Topology.candidate_names
    flux_pg_cluster.Topology.extract_host_from_url flux_pg_cluster.Topology.membership_names
    flux_pg_cluster.Topology.names_of_parts flux_pg_cluster.Topology.node_name_from_ip
    flux_pg_cluster.Topology.smallest_from flux_pg_cluster.Topology.smallest_name
founds_a = refl

decide_bootstrap_iff_example :
    (decide_bootstrap config_a disk_a (evidence_of disk_a identity_b) ≡ some new) ↔ (
      IsOverride config_a
      ⊎ (IsFreshStart config_a disk_a (evidence_of disk_a identity_b)
          ⊎ IsRecovery config_a disk_a (evidence_of disk_a identity_b)))
decide_bootstrap_iff_example = decide_bootstrap_iff config_a disk_a (evidence_of disk_a identity_b)

two_nodes :
    map (λ r. r.ip) (first_nodes config_a (evidence_of disk_a identity_b)) ≡ ip_a ∷ ip_b ∷ []
unfolding flux_pg_cluster.Identity.probe_all_peer_identities other_ips_from_initial_cluster
    flux_pg_cluster.Topology.other_ips_of_parts flux_pg_cluster.Text.split
    flux_pg_cluster.Topology.other_ip flux_pg_cluster.Text.cut flux_pg_cluster.Text.trim_space
    flux_pg_cluster.Identity.probe_peer_identity
two_nodes = refl

map-All :
    {A : Type 0} (P : Text → Type 0) (f : A → Text) (xs : List A)
    → All P (map f xs)
    → All (λ x. P (f x)) xs
map-All P f [] h = tt
map-All P f (x ∷ xs) h = (h.0, map-All P f xs h.1)

nodes_a : All (λ r. IsAddress r.ip) (first_nodes config_a (evidence_of disk_a identity_b))
nodes_a =
    map-All IsAddress (λ r. r.ip) (first_nodes config_a (evidence_of disk_a identity_b))
      (subst (All IsAddress) (sym two_nodes) (ip_a-IsAddress, (ip_b-IsAddress, tt)))

decide_bootstrap-sole_example : ip_a ≡ ip_a
decide_bootstrap-sole_example =
    decide_bootstrap-sole config_a config_a disk_a disk_a (evidence_of disk_a identity_b)
      (evidence_of disk_a identity_b) (λ x. (λ m. m, λ m. m)) nodes_a refl refl refl refl founds_a
      founds_a

-- Peers that never answer.
abbrev silent_peers : Peers
silent_peers = record {
  members = λ attempt ip. none;
  add = λ attempt ip. add_failed;
  updated = λ attempt ip. [];
  reload = λ attempt cfg. (cfg, true);
}

-- A start on the first node's disk, with the daemon's hint.
abbrev hinted : Surroundings
hinted = record {
  disk = disk_a;
  flag = true;
  first_members = λ ip. none;
  temp = record { starts = true; answers = true; members = λ ip. none };
  peers = silent_peers;
  hint_evidence = evidence_of disk_a identity_b;
  evidence = evidence_of disk_a identity_b;
}

started :
    (run_etcd_start config_a (codes "/data") (codes "token") hinted).1
    ≡ executes new (configure_single_member_bootstrap config_a) (
        build_etcd_args
          (configure_single_member_bootstrap config_a)
          (codes "/data")
          (codes "token")
          new
          false
          (etcd_ssl_opts config_a))
unfolding run_etcd_start flux_pg_cluster.Start.Run.go_on
    flux_pg_cluster.Start.Run.look_at_local_data
    flux_pg_cluster.Start.Run.consume_empty_dcs_recovery_hint flux_pg_cluster.Start.Run.finish
started = rw founds_a refl

run_etcd_start-new_example :
    (hinted.disk.has_snapshot ≡ false) × (IsHinted config_a hinted ⊎ IsAlone config_a hinted)
run_etcd_start-new_example =
    run_etcd_start-new config_a (codes "/data") (codes "token") hinted started

abbrev stranger : EtcdMember
stranger = record {
  id = codes "8e9e05c52164694d";
  name = codes "node-10-0-0-2";
  peer_urls = codes "http://10.0.0.2:2380";
  client_urls = codes "http://10.0.0.2:2379";
  is_learner = false;
  unstarted = false;
}

-- A start with etcd data that the other member has not kept.
abbrev forgotten : Surroundings
forgotten = record hinted {
  disk = record disk_a { has_snapshot = true };
  first_members = λ ip. some (stranger ∷ []);
}

run_etcd_start-wipes_iff_example :
    Member wiped_etcd_data (run_etcd_start config_a (codes "/data") (codes "token") forgotten).0 ↔ (
      (forgotten.disk.has_snapshot ≡ true)
      × IsForgotten forgotten.first_members config_a.my_name
          (other_ips_from_initial_cluster config_a.etcd_initial_cluster config_a.my_name))
run_etcd_start-wipes_iff_example =
    run_etcd_start-wipes_iff config_a (codes "/data") (codes "token") forgotten

forgotten_wipes :
    fast_check forgotten.first_members config_a.my_name
      (other_ips_from_initial_cluster config_a.etcd_initial_cluster config_a.my_name)
    ≡ some false
unfolding fast_check other_ips_from_initial_cluster flux_pg_cluster.Topology.other_ips_of_parts
    flux_pg_cluster.Text.split flux_pg_cluster.Topology.other_ip flux_pg_cluster.Text.cut
    flux_pg_cluster.Text.trim_space flux_pg_cluster.Etcd.find_by_name
forgotten_wipes = refl

-- A peer that answers with no member is passed over.
empty_answer_skipped : fast_check (λ ip. some []) config_a.my_name (ip_b ∷ []) ≡ none
unfolding fast_check
empty_answer_skipped = refl

try_join_existing-no_peers_iff_example :
    ((try_join_existing silent_peers config_a (ip_b ∷ []) false (pos 2)).result
      ≡ no_peers_reachable)
    ↔ AllSilent silent_peers (max_attempts (pos 2)) 1 config_a (ip_b ∷ [])
try_join_existing-no_peers_iff_example =
    try_join_existing-no_peers_iff silent_peers config_a (ip_b ∷ []) false (pos 2)
