-- ===== src/Daemon/Reconcile.antt =====
-- `runReconcile`: one cycle of the daemon, composed of the parts as the code composes them.
pub mod Parts
pub mod Justified
use flux_pg_cluster.Base.{
  ℕ, Bool, true, false, not, ◌&&◌, ◌||◌, Option, none, some, List, [], ◌∷◌, ◌++◌, map, length, leb,
  ltb, if◌then◌else◌,
}
use flux_pg_cluster.Base.Int.{ℤ, pos, leb_ℤ}
use flux_pg_cluster.Config.{Config}
use flux_pg_cluster.Daemon.{should_fnf_now}
use flux_pg_cluster.Daemon.ClusterEnv.{Node, System, update_cluster_env}
use flux_pg_cluster.Daemon.Credentials
use flux_pg_cluster.Daemon.Credentials.{reconcile_postgres_credentials}
use flux_pg_cluster.Daemon.Endpoint.{
  etcd_health_reachable, pick_healthy_etcd_endpoint, own_endpoints,
}
use flux_pg_cluster.Daemon.Leader.{check_stale_patroni_leader}
use flux_pg_cluster.Daemon.Members.{
  Change, members_ips, remove_ghosts, remove_departed, promote_learners,
}
use flux_pg_cluster.Daemon.PatroniConfig.{Decoded, Fields, reconcile_patroni_dcs_config}
use flux_pg_cluster.Daemon.SystemId
use flux_pg_cluster.Daemon.SystemId.{check_patroni_system_id}
use flux_pg_cluster.Daemon.Tracker.{update_state_tracker, Tracked}
use flux_pg_cluster.Daemon.Unreachable
use flux_pg_cluster.Daemon.Unreachable.{
  Votes, evaluate_peer_votes, etcd_restart_cooldown_expired, trigger_force_new_cluster, next_count,
  handle_etcd_unreachable,
}
use flux_pg_cluster.Etcd.{Member}
use flux_pg_cluster.Etcd.Commands.{set_with_ttl}
use flux_pg_cluster.Identity.{RecoveryAuthority, Verdict, granted, refused}
use flux_pg_cluster.Identity.Confirm.{confirm_recovery_authority_with_peers}
use flux_pg_cluster.Number.{atoi}
use flux_pg_cluster.Patroni.{Network}
use flux_pg_cluster.Text.{Text, codes, equal, is_empty, join, trim_space}
use flux_pg_cluster.Topology.{etcd_url}

-- What a cycle meets: the Flux API's answer; the file of the tracker; what writing the files does;
-- the status of each GET, by its URL; what etcdctl answers to the probe of the quorum; the counter of cycles without quorum; what the
-- parts meet (the evidence and the cooldowns of a recovery stand in `etcd`); the three member
-- lists of the local etcd and of each peer as the cycle asks for them; which peers' etcd answers;
-- and the keys of Patroni.
pub record Surroundings : Type 0 where
  pub desired_ips : Option (List Text)
  pub tracker_file : Option Text
  pub system : System
  pub status : Text → Option ℕ
  pub etcdctl : List Text → Option Text
  pub no_quorum_file : Option Text
  pub etcd : Unreachable.Surroundings
  pub postgres : SystemId.Surroundings
  pub members : Option (List Member)
  pub members_after_ghosts : Option (List Member)
  pub peer_members : Text → Option (List Member)
  pub voter_members : Text → Option (List Member)
  pub reachable : Text → Bool
  pub patroni : Network
  pub leader_key : Option Text
  pub config_key : Option Text
  pub has_marker : Bool
  pub psql : Text → Option Text

-- What a cycle does, in order.
pub data Effect : Type 0 where
  wrote_tracker : Text → Effect
  unreachable : Unreachable.Effect → Effect
  recovery : Unreachable.Effect → Effect
  wrote_no_quorum : ℤ → Effect
  wrote_unavailable : ℤ → Effect
  set_patroni_config : Text → Effect
  credentials : Credentials.Effect → Effect
  restarted_split_brain : Effect
  rejoined : Effect
  member : Change → Effect
  removed_leader_key : Text → Effect
  system_id : SystemId.Effect → Effect

-- An endpoint of the node's own etcd answers.
unfoldable pub has_endpoint : Config → Surroundings → Bool
has_endpoint cfg w = not (is_empty (pick_healthy_etcd_endpoint w.status (own_endpoints cfg)))

-- The write-test.
unfoldable pub has_quorum : Surroundings → Bool
has_quorum w = set_with_ttl w.etcdctl (codes "/_cluster_mgmt/quorum_probe") (codes "1") (pos 1)

-- A learner's etcd answers.
abbrev pub healthy : Config → Surroundings → Text → Bool
healthy cfg w ip = etcd_health_reachable w.status (etcd_url cfg ip cfg.host_etcd_client_port)

-- The counters' cooldowns, from the environment.
pub record Cooldowns : Type 0 where
  pub fnf_secs : ℤ
  pub pg_wipe_secs : ℤ

abbrev pub or_nil {ℓ} : {A : Type ℓ} → Option (List A) → List A
or_nil none = []
or_nil (some xs) = xs

abbrev pub option_effect : (Text → Effect) → Option Text → List Effect
option_effect f none = []
option_effect f (some t) = f t ∷ []

-- The counter of cycles without quorum, as the file gives it.
abbrev pub read_count : Option Text → ℤ
read_count none = pos 0
read_count (some content) = (atoi (trim_space content)).0

-- A peer that lists more members than the local etcd.
unfoldable pub has_split_brain : Config → Surroundings → ℕ → List Text → Bool
has_split_brain cfg w count [] = false
has_split_brain cfg w count (ip ∷ ips) =
    let rest = has_split_brain cfg w count ips in
    if equal ip cfg.my_ip
    then rest
    else if ltb count (length (or_nil (w.peer_members ip)))
    then true
    else rest

-- The recovery without quorum, where it is triggered; `count` is the number of cycles without it.
abbrev pub recover_on :
    Config → Cooldowns → Surroundings → Verdict RecoveryAuthority → Option (List Effect)
recover_on cfg cool w (refused why) = none
recover_on cfg cool w (granted authority) =
    if not (equal authority.ip cfg.my_ip)
    then none
    else if should_fnf_now w.etcd.fnf_cooldown_file w.etcd.now cool.fnf_secs
    then some (map recovery (trigger_force_new_cluster cfg authority.system_id w.etcd))
    else none

unfoldable pub recover_quorum : Config → Cooldowns → Surroundings → Bool → ℤ → Option (List Effect)
recover_quorum cfg cool w stable count =
    if not (has_quorum w)
      && (leb_ℤ cfg.desired_state_stability_cycles count && (stable && w.postgres.has_global))
    then recover_on cfg cool w (confirm_recovery_authority_with_peers cfg w.etcd.evidence)
    else none

-- The end of a cycle: the leader's key, the system identifier, the members.
unfoldable pub reconcile_members :
    Config → Cooldowns → Surroundings → List Text → Bool → List Member → List Effect
reconcile_members cfg cool w desired_ips stable members =
    map removed_leader_key
      (check_stale_patroni_leader cfg w.patroni w.postgres.has_global w.leader_key)
    ++ (map system_id (check_patroni_system_id cfg desired_ips cool.pg_wipe_secs w.postgres)
        ++ (map member (
              remove_departed cfg.host_etcd_client_port desired_ips stable w.reachable members
                (members_ips members))
            ++ map member (promote_learners desired_ips (healthy cfg w) members)))

-- The majority of the peers that answer does not know this node.
abbrev pub disagree : Votes → Bool
disagree v = ltb 0 v.reachable && ltb v.matching v.mismatched

unfoldable pub check_votes : Config → Cooldowns → Surroundings → List Text → Bool → List Effect
check_votes cfg cool w desired_ips stable =
    let rest = reconcile_members cfg cool w desired_ips stable (or_nil w.members_after_ghosts) in
    if disagree (evaluate_peer_votes cfg w.voter_members desired_ips)
    then if not (etcd_restart_cooldown_expired w.etcd.restart_marker w.etcd.now)
      then []
      else rejoined ∷ []
    else rest

-- Behind the list of members, where it can be read.
abbrev pub check_members :
    Config → Cooldowns → Surroundings → List Text → Bool → Option (List Member) → List Effect
check_members cfg cool w desired_ips stable none = []
check_members cfg cool w desired_ips stable (some members) =
    let rest = check_votes cfg cool w desired_ips stable in
    if leb (length members) 1
      && (ltb 1 (length desired_ips) && has_split_brain cfg w (length members) desired_ips)
    then if not (etcd_restart_cooldown_expired w.etcd.restart_marker w.etcd.now)
      then []
      else restarted_split_brain ∷ []
    else map member (remove_ghosts desired_ips members) ++ rest

abbrev pub or_else : Option (List Effect) → List Effect → List Effect
or_else none rest = rest
or_else (some effects) rest = effects

module _ (unmarshal : Text → Decoded) (marshal : Fields → Option Text) where
  -- The counter, and what is done only with a quorum.
  unfoldable pub note_quorum : Config → Surroundings → List Effect
  note_quorum cfg w =
      if not (has_quorum w)
      then wrote_no_quorum (next_count w.no_quorum_file) ∷ []
      else wrote_no_quorum (pos 0)
        ∷ (option_effect set_patroni_config
              (reconcile_patroni_dcs_config unmarshal marshal cfg w.config_key)
            ++ map credentials
                (reconcile_postgres_credentials cfg w.has_marker w.postgres.has_global w.psql))

  -- Behind the files: `stable` is what the tracker has found.
  unfoldable pub reconcile_etcd : Config → Cooldowns → Surroundings → List Text → Bool → List Effect
  reconcile_etcd cfg cool w desired_ips stable =
      if not (has_endpoint cfg w)
      then map unreachable (handle_etcd_unreachable cfg desired_ips stable cool.fnf_secs w.etcd)
      else wrote_unavailable (pos 0)
        ∷ (note_quorum cfg w
            ++ or_else (recover_quorum cfg cool w stable (next_count w.no_quorum_file))
                (check_members cfg cool w desired_ips stable w.members))

  abbrev pub reconcile_desired : Cooldowns → Surroundings → Node → List Text → Node × List Effect
  reconcile_desired cool w n desired_ips =
      let tracked =
        update_state_tracker w.tracker_file (join (codes ",") desired_ips)
          n.cfg.desired_state_stability_cycles in
      let after = update_cluster_env w.system desired_ips n in
      (
        after,
        wrote_tracker tracked.content ∷ reconcile_etcd after.cfg cool w desired_ips tracked.stable,
      )

  abbrev pub reconcile_answer :
      Cooldowns → Surroundings → Node → Option (List Text) → Node × List Effect
  reconcile_answer cool w n none = (n, [])
  reconcile_answer cool w n (some []) = (n, [])
  reconcile_answer cool w n (some (ip ∷ ips)) = reconcile_desired cool w n (ip ∷ ips)

  -- `runReconcile`
  unfoldable pub run_reconcile : Cooldowns → Surroundings → Node → Node × List Effect
  run_reconcile cool w n = reconcile_answer cool w n w.desired_ips
