-- ===== src/Start/Run/Safety.antt =====
-- When a start of etcd founds a new cluster, and when it wipes local data.
use flux_pg_cluster.Base.{
  ◌≡◌, ◌≢◌, refl, ap, ◌⊎◌, inl, inr, Bool, true, false, Option, none, some, List, arith,
}
use flux_pg_cluster.Config.{Config}
use flux_pg_cluster.Start.{
  ClusterState, existing, new, configure_single_member_bootstrap, decide_bootstrap, etcd_ssl_opts,
}
use flux_pg_cluster.Start.Join.{JoinEnd, no_peers_reachable, try_join_existing}
use flux_pg_cluster.Start.Run.{
  Surroundings, executes, verify_local_data_with_temp_etcd, Local, look_at_local_data,
  consume_empty_dcs_recovery_hint, finish, after_join, max_retries, join_or_found, after_hint,
  go_on, run_etcd_start,
}
use flux_pg_cluster.Text.{Text, equal}
use flux_pg_cluster.Topology.{bootstrap_candidate, other_ips_from_initial_cluster}

-- The call of `tryJoinExisting` that a start makes.
abbrev pub join_end : Config → Surroundings → Bool → JoinEnd
join_end cfg w force_rejoin =
    try_join_existing w.peers cfg
      (other_ips_from_initial_cluster cfg.etcd_initial_cluster cfg.my_name) force_rejoin
      (max_retries cfg (equal cfg.my_name (bootstrap_candidate cfg.etcd_initial_cluster)))

-- The two ways to found a new cluster: on a hint, or when no peer can be reached.
pub record IsHinted (cfg : Config) (w : Surroundings) : Type 0 where
  pub no_data : w.disk.has_snapshot ≡ false
  pub flagged : w.flag ≡ true
  pub enabled : cfg.dead_cluster_recovery ≡ true
  pub global : w.disk.has_global ≡ true
  pub decided : decide_bootstrap cfg w.disk w.hint_evidence ≡ some new

pub record IsAlone (cfg : Config) (w : Surroundings) : Type 0 where
  pub alone : (join_end cfg w false).result ≡ no_peers_reachable
  pub decided : decide_bootstrap (join_end cfg w false).config w.disk w.evidence ≡ some new

module _ (data_dir token : Text) (w : Surroundings) {c : Config} {args : List Text} where
  finish-new :
      (flag : Bool) (cfg : Config) (state : ClusterState) (opts : List Text)
      → (finish data_dir token flag cfg state opts).1 ≡ executes new c args
      → state ≡ new
  unfolding finish
  finish-new flag cfg state opts e = cc

  after_join-new :
      (opts : List Text) (force_rejoin is_candidate flag : Bool) (end : JoinEnd)
      → (after_join data_dir token w opts force_rejoin is_candidate flag end).1
        ≡ executes new c args
      → (end.result ≡ no_peers_reachable)
        × (force_rejoin ≡ false)
        × (decide_bootstrap end.config w.disk w.evidence ≡ some new)
  unfolding after_join finish
  after_join-new opts force_rejoin is_candidate flag end e = ground arith

  join_or_found-new :
      (cfg : Config) (opts : List Text) (force_rejoin flag : Bool)
      → (join_or_found data_dir token w cfg
          (other_ips_from_initial_cluster cfg.etcd_initial_cluster cfg.my_name)
          opts
          force_rejoin
          flag).1
        ≡ executes new c args
      → (force_rejoin ≡ false) × IsAlone cfg w
  unfolding join_or_found
  join_or_found-new cfg opts false flag e =
      let (alone, _, decided) =
        after_join-new opts false (equal cfg.my_name (bootstrap_candidate cfg.etcd_initial_cluster))
          flag (join_end cfg w false) e in
      (refl, record { alone = alone; decided = decided })
  join_or_found-new cfg opts true flag e =
      let (_, never, _) =
        after_join-new opts true (equal cfg.my_name (bootstrap_candidate cfg.etcd_initial_cluster))
          flag (join_end cfg w true) e in
      absurd (cc never)

  after_hint-new :
      (cfg : Config) (opts : List Text) (flag : Bool) (decision : Option ClusterState)
      → (after_hint data_dir token w cfg
          (other_ips_from_initial_cluster cfg.etcd_initial_cluster cfg.my_name)
          opts
          (consume_empty_dcs_recovery_hint flag decision)).1
        ≡ executes new c args
      → ((flag ≡ true) × (decision ≡ some new)) ⊎ IsAlone cfg w
  unfolding consume_empty_dcs_recovery_hint
  after_hint-new cfg opts true (some state) e =
      inl (refl, ap some (finish-new false (configure_single_member_bootstrap cfg) state opts e))
  after_hint-new cfg opts true none e = inr ((join_or_found-new cfg opts false false e).1)
  after_hint-new cfg opts false decision e = inr ((join_or_found-new cfg opts false w.flag e).1)

  go_on-new :
      (cfg : Config) (opts : List Text) (l : Local)
      → l.state ≢ some new
      → (go_on data_dir token w cfg
          (other_ips_from_initial_cluster cfg.etcd_initial_cluster cfg.my_name)
          opts
          l).1
        ≡ executes new c args
      → (l.state ≡ none)
        × (IsHinted cfg w
            ⊎ (((w.disk.has_snapshot ≡ false) ⊎ (l.force_rejoin ≡ false)) × IsAlone cfg w))
  unfolding go_on
  go_on-new cfg opts l h e = ground (
    arith,
    finish-new w.flag cfg existing opts,
    after_hint-new cfg opts w.flag (decide_bootstrap cfg w.disk w.hint_evidence),
    join_or_found-new cfg opts l.force_rejoin w.flag,
  )

local-new :
    (cfg : Config) (w : Surroundings) (other_ips : List Text)
    → (look_at_local_data cfg w other_ips).state ≢ some new
unfolding look_at_local_data verify_local_data_with_temp_etcd
local-new cfg w other_ips e = ground arith

local-no_data :
    (cfg : Config) (w : Surroundings) (other_ips : List Text)
    → (look_at_local_data cfg w other_ips).state ≡ none
    → (w.disk.has_snapshot ≡ false) ⊎ ((look_at_local_data cfg w other_ips).force_rejoin ≡ false)
    → w.disk.has_snapshot ≡ false
unfolding look_at_local_data
local-no_data cfg w other_ips e h = ground arith

-- When etcd is executed to found a new cluster, the node has no etcd data, and either the flag
-- of the daemon hinted at the recovery of a dead cluster and `decideBootstrap` allowed it on
-- current evidence, or every attempt to join found no peer reachable and `decideBootstrap`
-- allowed it with the settings read at the last attempt.
pub run_etcd_start-new :
    (cfg : Config) (data_dir token : Text) (w : Surroundings) {c : Config} {args : List Text}
    → (run_etcd_start cfg data_dir token w).1 ≡ executes new c args
    → (w.disk.has_snapshot ≡ false) × (IsHinted cfg w ⊎ IsAlone cfg w)
unfolding run_etcd_start
run_etcd_start-new cfg data_dir token w e =
    let ips = other_ips_from_initial_cluster cfg.etcd_initial_cluster cfg.my_name in
    let (stateless, how) =
      go_on-new data_dir token w cfg (etcd_ssl_opts cfg) (look_at_local_data cfg w ips)
        (local-new cfg w ips) e in
    elim how [
      | inl hinted ↦ (hinted.no_data, inl hinted)
      | inr (none_left, alone) ↦ (local-no_data cfg w ips stateless none_left, inr alone)
    ]
