-- ===== src/Tests/Texts.antt =====
-- Tests of the texts that the parts of the program read and write.
use flux_pg_cluster.Base.{◌≡◌, refl, true, false, none, some, [], ◌∷◌, map, arith, All}
use flux_pg_cluster.Etcd.{Member, parse_member_list}
use flux_pg_cluster.Etcd.Lines.{IsListed, print_member, parse_member_list-print}
use flux_pg_cluster.Postgres.{
  PostgresControlData, PostgresRecoveryPosition, parse_postgres_lsn, format_postgres_lsn,
  recovery_position,
}
use flux_pg_cluster.Postgres.Laws.{
  parse-format, IsDurable, IsFurthest, recovery_position-IsFurthest, recovery_position-none,
}
use flux_pg_cluster.Tests.Cluster.{config_a, ip_a, ip_b, name_a}
use flux_pg_cluster.Tests.Recovery.{ip_a-IsAddress, ip_b-IsAddress}
use flux_pg_cluster.Text.{Text, codes, join, sort_strings}
use flux_pg_cluster.Topology.{
  node_name_from_ip, build_etcd_topology, other_ips_from_initial_cluster, membership_names,
  candidate_ips,
}
use flux_pg_cluster.Topology.Parts.{IsAddress}
use flux_pg_cluster.Topology.RoundTrip.{
  others, other_ips-topology, membership_names-topology, candidate_ips-topology,
}

two_addresses : All IsAddress (ip_a ∷ ip_b ∷ [])
two_addresses = (ip_a-IsAddress, (ip_b-IsAddress, tt))

other_ips-topology_example :
    other_ips_from_initial_cluster
      (build_etcd_topology config_a (ip_a ∷ ip_b ∷ [])).initial
      (node_name_from_ip ip_a)
    ≡ others ip_a (ip_a ∷ ip_b ∷ [])
other_ips-topology_example =
    other_ips-topology config_a ip_a (ip_a ∷ ip_b ∷ []) ip_a-IsAddress two_addresses

others_a : others ip_a (ip_a ∷ ip_b ∷ []) ≡ ip_b ∷ []
unfolding others
others_a = refl

membership_names-topology_example :
    membership_names (build_etcd_topology config_a (ip_b ∷ ip_a ∷ [])).initial
    ≡ sort_strings (map node_name_from_ip (ip_b ∷ ip_a ∷ []))
membership_names-topology_example =
    membership_names-topology config_a (ip_b ∷ ip_a ∷ []) (ip_b-IsAddress, (ip_a-IsAddress, tt))

candidate_ips-topology_example :
    candidate_ips
      (record config_a { etcd_hosts = (build_etcd_topology config_a (ip_a ∷ ip_b ∷ [])).hosts })
    ≡ ip_a ∷ ip_b ∷ []
candidate_ips-topology_example = candidate_ips-topology config_a (ip_a ∷ ip_b ∷ []) two_addresses

-- A member that has started, and a ghost.
abbrev member_a : Member
member_a = record {
  id = codes "8e9e";
  name = name_a;
  peer_urls = codes "http://10.0.0.1:2380";
  client_urls = codes "http://10.0.0.1:2379";
  is_learner = false;
  unstarted = false;
}

abbrev ghost : Member
ghost = record {
  id = codes "91bc";
  name = [];
  peer_urls = codes "http://10.0.0.2:2380";
  client_urls = [];
  is_learner = true;
  unstarted = true;
}

member_a-IsListed : IsListed member_a
member_a-IsListed = record {
  id = record { no_comma = ground arith; no_space = ground arith };
  id_ne_nil = λ e. cc;
  name = record { no_comma = ground arith; no_space = ground arith };
  peer_urls = record { no_comma = ground arith; no_space = ground arith };
  client_urls = record { no_comma = ground arith; no_space = ground arith };
  no_client = λ e. cc;
}

ghost-IsListed : IsListed ghost
ghost-IsListed = record {
  id = record { no_comma = ground arith; no_space = ground arith };
  id_ne_nil = λ e. cc;
  name = record { no_comma = tt; no_space = tt };
  peer_urls = record { no_comma = ground arith; no_space = ground arith };
  client_urls = record { no_comma = tt; no_space = tt };
  no_client = λ e. refl;
}

parse_member_list-print_example :
    parse_member_list (join (10 ∷ []) (map print_member (member_a ∷ ghost ∷ [])))
    ≡ member_a ∷ ghost ∷ []
parse_member_list-print_example =
    parse_member_list-print member_a (ghost ∷ []) (member_a-IsListed, (ghost-IsListed, tt))

-- 0x16B374D848, printed as 16/B374D848.
parse-format_example : parse_postgres_lsn (format_postgres_lsn 97500059720) ≡ some 97500059720
parse-format_example = parse-format 97500059720 (omega arith)

-- A crash recovery: the minimum recovery point is ahead of the checkpoint.
abbrev control : PostgresControlData
control = record {
  system_id = codes "7";
  state = codes "in production";
  checkpoint_lsn = codes "0/A";
  checkpoint_timeline = 1;
  minimum_recovery_lsn = codes "0/B";
  minimum_recovery_timeline = 1;
}

abbrev position : PostgresRecoveryPosition
position = record { timeline = 1; lsn = 11 }

control_position : recovery_position control ≡ some position
unfolding recovery_position parse_postgres_lsn flux_pg_cluster.Text.split
    flux_pg_cluster.Text.trim_space flux_pg_cluster.Number.parse_uint
control_position = refl

recovery_position-IsFurthest_example : IsFurthest control position
recovery_position-IsFurthest_example = recovery_position-IsFurthest control control_position

-- Control data without a position.
abbrev blank : PostgresControlData
blank = record control { checkpoint_timeline = 0; minimum_recovery_lsn = codes "0/0" }

blank_position : recovery_position blank ≡ none
unfolding recovery_position parse_postgres_lsn flux_pg_cluster.Text.split
    flux_pg_cluster.Text.trim_space flux_pg_cluster.Number.parse_uint
blank_position = refl

recovery_position-none_example :
    (¬ IsDurable blank.checkpoint_timeline (parse_postgres_lsn blank.checkpoint_lsn) 10)
    × (¬ IsDurable blank.minimum_recovery_timeline
        (parse_postgres_lsn blank.minimum_recovery_lsn)
        10)
recovery_position-none_example = recovery_position-none blank blank_position 10
