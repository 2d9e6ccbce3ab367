-- ===== src/Tests/Daemon.antt =====
-- Tests of the daemon's decisions.
use flux_pg_cluster.Base.{
  ℕ, ◌≡◌, refl, sym, subst, inl, inr, Bool, true, false, Option, none, some, List, [], ◌∷◌, ◌++◌,
  Member, if◌then◌else◌,
}
use flux_pg_cluster.Base.Int.{pos}
use flux_pg_cluster.Config.{Config}
use flux_pg_cluster.Daemon.SystemId.{
  Surroundings, wiped_pg_data, wrote_cooldown, stopped_patroni, check_patroni_system_id,
}
use flux_pg_cluster.Daemon.SystemId.Wipe.{IsCondemned, check_patroni_system_id-IsCondemned}
use flux_pg_cluster.Daemon.Unreachable.{
  wrote_unavail, wrote_fnf_flag, wrote_fnf_cooldown, reset_no_quorum, restarted_etcd,
  handle_etcd_unreachable,
}
use flux_pg_cluster.Daemon.Unreachable.Authority.{
  IsRecoverable, handle_etcd_unreachable-IsRecoverable,
}
use flux_pg_cluster.Tests.Cluster.{config_a, disk_a, identity_b, evidence_of, ip_a, ip_b}
use flux_pg_cluster.Tests.Recovery.{confirmed_a}
use flux_pg_cluster.Text.{codes, equal}

-- The first node holds data of another epoch than the primary's, and may delete them.
abbrev pub other_epoch : Surroundings
other_epoch = record {
  initialize = some (codes "9");
  info = λ ip. some (record {
    role = codes "master";
    state = codes "running";
    database_system_identifier = codes "9";
  });
  has_global = true;
  control_output = disk_a.control_output;
  cooldown_file = none;
  now = pos 1000;
  wipe_succeeds = false;
}

abbrev permissive : Config
permissive = record config_a { allow_pg_data_wipe = true }

deletes :
    check_patroni_system_id permissive (ip_a ∷ ip_b ∷ []) (pos 600) other_epoch
    ≡ wrote_cooldown (pos 1000) ∷ stopped_patroni ∷ wiped_pg_data ∷ []
unfolding check_patroni_system_id flux_pg_cluster.Daemon.SystemId.heal_initialize
    flux_pg_cluster.Daemon.SystemId.poll_members flux_pg_cluster.Daemon.SystemId.poll_member equal
    flux_pg_cluster.Daemon.SystemId.wipe_stale_data flux_pg_cluster.Postgres.read_local_pg_system_id
    flux_pg_cluster.Daemon.should_fnf_now
deletes = refl

deletes_data :
    Member wiped_pg_data
      (check_patroni_system_id permissive (ip_a ∷ ip_b ∷ []) (pos 600) other_epoch)
deletes_data = subst (Member wiped_pg_data) (sym deletes) (inr (inr (inl refl)))

check_patroni_system_id-IsCondemned_example :
    IsCondemned permissive (ip_a ∷ ip_b ∷ []) (pos 600) other_epoch
check_patroni_system_id-IsCondemned_example =
    check_patroni_system_id-IsCondemned permissive (ip_a ∷ ip_b ∷ []) (pos 600) other_epoch
      deletes_data

-- The fifth cycle without etcd, and no peer answers.
abbrev pub dead : flux_pg_cluster.Daemon.Unreachable.Surroundings
dead = record {
  unavail_file = some (codes "4");
  fnf_cooldown_file = none;
  restart_marker = none;
  now = pos 1000;
  members = λ ip. none;
  evidence = evidence_of disk_a identity_b;
  wipe_succeeds = true;
  etcd_ready = false;
}

recovers_a :
    handle_etcd_unreachable config_a (ip_a ∷ ip_b ∷ []) true (pos 600) dead
    ≡ wrote_unavail (pos 5)
      ∷ wrote_fnf_flag
      ∷ wrote_fnf_cooldown (pos 1000)
      ∷ reset_no_quorum
      ∷ restarted_etcd
      ∷ []
unfolding handle_etcd_unreachable flux_pg_cluster.Daemon.Unreachable.act
    flux_pg_cluster.Daemon.Unreachable.evaluate_peer_votes
    flux_pg_cluster.Daemon.Unreachable.act_on_authority flux_pg_cluster.Daemon.should_fnf_now
    flux_pg_cluster.Daemon.Unreachable.trigger_force_new_cluster flux_pg_cluster.Text.equal
    flux_pg_cluster.Number.atoi flux_pg_cluster.Text.trim_space flux_pg_cluster.Base.Int.wrap_int64
    flux_pg_cluster.Base.Int.◌+ℤ◌
recovers_a = rw confirmed_a refl

recovers_a_flag :
    Member wrote_fnf_flag (handle_etcd_unreachable config_a (ip_a ∷ ip_b ∷ []) true (pos 600) dead)
recovers_a_flag = subst (Member wrote_fnf_flag) (sym recovers_a) (inr (inl refl))

handle_etcd_unreachable-IsRecoverable_example :
    IsRecoverable config_a (ip_a ∷ ip_b ∷ []) true (pos 600) dead
handle_etcd_unreachable-IsRecoverable_example =
    handle_etcd_unreachable-IsRecoverable config_a (ip_a ∷ ip_b ∷ []) true (pos 600) dead
      recovers_a_flag
