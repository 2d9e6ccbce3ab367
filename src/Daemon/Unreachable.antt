-- ===== src/Daemon/Unreachable.antt =====
-- `handleEtcdUnreachable`: what the daemon does while no local etcd answers, with the peers' votes,
-- the two cooldowns and the start of a recovery.
pub mod Authority
use flux_pg_cluster.Base.{
  ℕ, zero, suc, ◌+◌, Bool, true, false, not, ◌&&◌, ◌||◌, Option, none, some, List, [], ◌∷◌, ◌++◌,
  map, ◌==◌, ltb, if◌then◌else◌,
}
use flux_pg_cluster.Base.Int.{ℤ, pos, ◌+ℤ◌, ◌-ℤ◌, ltb_ℤ, leb_ℤ, wrap_int64}
use flux_pg_cluster.Config.{Config}
use flux_pg_cluster.Daemon.{should_fnf_now}
use flux_pg_cluster.Etcd.{Member, find_by_name}
use flux_pg_cluster.Identity.{Evidence, RecoveryAuthority, Verdict, granted, refused}
use flux_pg_cluster.Identity.Confirm.{confirm_recovery_authority_with_peers}
use flux_pg_cluster.Number.{atoi}
use flux_pg_cluster.Text.{Text, codes, equal, is_empty, trim_space}

-- What the handler meets: the files with the counter, the last recovery and the last restart,
-- where they can be read; the time; the peers' member lists; the evidence of the cycles of
-- probes; and whether the etcd directory can be wiped and etcd comes up after its restart.
pub record Surroundings : Type 0 where
  pub unavail_file : Option Text
  pub fnf_cooldown_file : Option Text
  pub restart_marker : Option Text
  pub now : ℤ
  pub members : Text → Option (List Member)
  pub evidence : ℕ → Evidence
  pub wipe_succeeds : Bool
  pub etcd_ready : Bool

pub data Effect : Type 0 where
  wrote_unavail wrote_fnf_cooldown marked_restart : ℤ → Effect
  wrote_fnf_flag reset_no_quorum restarted_etcd wiped_etcd_data : Effect
  removed_key removed_prefix : Text → Effect
  set_key : Text → Text → Effect

-- The counts of `evaluatePeerVotes`, which the handler counts in the same way.
pub record Votes : Type 0 where
  pub reachable : ℕ
  pub matching : ℕ
  pub mismatched : ℕ

abbrev pub add_vote : Option (List Member) → Text → Votes → Votes
add_vote none my_name v = v
add_vote (some members) my_name v = elim (find_by_name members my_name) [
  | some m ↦ record {
    reachable = v.reachable + 1;
    matching = v.matching + 1;
    mismatched = v.mismatched;
  }
  | none ↦ record {
    reachable = v.reachable + 1;
    matching = v.matching;
    mismatched = v.mismatched + 1;
  }
]

-- `evaluatePeerVotes`
unfoldable pub evaluate_peer_votes : Config → (Text → Option (List Member)) → List Text → Votes
evaluate_peer_votes cfg members [] = record { reachable = 0; matching = 0; mismatched = 0 }
evaluate_peer_votes cfg members (ip ∷ ips) =
    let rest = evaluate_peer_votes cfg members ips in
    if equal ip cfg.my_ip then rest else add_vote (members ip) cfg.my_name rest

-- `etcdRestartCooldownExpired`
unfoldable pub etcd_restart_cooldown_expired : Option Text → ℤ → Bool
etcd_restart_cooldown_expired none now = true
etcd_restart_cooldown_expired (some content) now =
    let (t, ok) = atoi (trim_space content) in
    if ok then ltb_ℤ (pos 90) (wrap_int64 (now -ℤ t)) else true

abbrev pub patroni_key : Config → Text → Text
patroni_key cfg key = codes "/patroni/" ++ (cfg.patroni_scope ++ (codes "/" ++ key))

abbrev pub election_keys : List Text
election_keys =
    codes "leader" ∷ codes "status" ∷ codes "failsafe" ∷ codes "failover" ∷ codes "sync" ∷ []

-- `triggerForceNewCluster`
unfoldable pub trigger_force_new_cluster : Config → Text → Surroundings → List Effect
trigger_force_new_cluster cfg system_id w =
    wrote_fnf_flag
    ∷ wrote_fnf_cooldown w.now
    ∷ reset_no_quorum
    ∷ restarted_etcd
    ∷ (if not w.etcd_ready
        then []
        else map (λ key. removed_key (patroni_key cfg key)) election_keys
          ++ (removed_prefix (patroni_key cfg (codes "members"))
              ∷ (if is_empty system_id
                  then []
                  else set_key (patroni_key cfg (codes "initialize")) system_id ∷ [])))

-- The counter in the file, one cycle later.
abbrev pub next_count : Option Text → ℤ
next_count none = pos 1
next_count (some content) = wrap_int64 ((atoi (trim_space content)).0 +ℤ pos 1)

abbrev pub restart_effects : Surroundings → List Effect
restart_effects w = marked_restart w.now ∷ restarted_etcd ∷ wrote_unavail (pos 0) ∷ []

-- No peer is reachable, and this node's turn has come: on the confirmed authority, recover; on
-- any other node, drop the local etcd state.
unfoldable pub act_on_authority : Config → ℤ → Surroundings → RecoveryAuthority → List Effect
act_on_authority cfg fnf_cooldown_secs w authority =
    if equal authority.ip cfg.my_ip
    then if should_fnf_now w.fnf_cooldown_file w.now fnf_cooldown_secs
      then trigger_force_new_cluster cfg authority.system_id w
      else []
    else if not (etcd_restart_cooldown_expired w.restart_marker w.now)
    then []
    else if w.wipe_succeeds
    then wiped_etcd_data ∷ restart_effects w
    else wiped_etcd_data ∷ []

-- Some peer is reachable.
unfoldable pub act_on_votes : Surroundings → Votes → List Effect
act_on_votes w v =
    if ltb v.matching v.mismatched
    then if not (etcd_restart_cooldown_expired w.restart_marker w.now)
      then []
      else wiped_etcd_data ∷ restart_effects w
    else if ltb 0 v.matching
    then if not (etcd_restart_cooldown_expired w.restart_marker w.now)
      then []
      else restart_effects w
    else []

abbrev pub act_on_verdict : Config → ℤ → Surroundings → Verdict RecoveryAuthority → List Effect
act_on_verdict cfg fnf_cooldown_secs w (granted authority) =
    act_on_authority cfg fnf_cooldown_secs w authority
act_on_verdict cfg fnf_cooldown_secs w (refused why) = []

-- The handler behind the counter and the votes.
unfoldable pub act : Config → Bool → ℤ → Surroundings → ℤ → Votes → List Effect
act cfg desired_stable fnf_cooldown_secs w count v =
    if not (leb_ℤ cfg.etcd_unavailable_recovery_cycles count)
    then []
    else if v.reachable == 0
    then if desired_stable && cfg.dead_cluster_recovery
      then act_on_verdict cfg fnf_cooldown_secs w
          (confirm_recovery_authority_with_peers cfg w.evidence)
      else []
    else act_on_votes w v

-- `handleEtcdUnreachable`
unfoldable pub handle_etcd_unreachable : Config → List Text → Bool → ℤ → Surroundings → List Effect
handle_etcd_unreachable cfg desired_ips desired_stable fnf_cooldown_secs w =
    wrote_unavail (next_count w.unavail_file)
    ∷ act cfg desired_stable fnf_cooldown_secs w (next_count w.unavail_file)
        (evaluate_peer_votes cfg w.members desired_ips)
