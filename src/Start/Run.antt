-- ===== src/Start/Run.antt =====
-- `runEtcdStart`: from the settings, read beforehand, to the arguments that etcd is executed with.
-- The disk changes during a start by the wipe only, and a start that has wiped ends before it looks
-- at the disk again.
pub mod Safety
pub mod Forgotten
pub mod Wipe
use flux_pg_cluster.Base.{
  ℕ, Bool, true, false, not, ◌&&◌, ◌||◌, ◌+◌, ◌++◌, Option, none, some, List, [], ◌∷◌, map, ltb,
  if◌then◌else◌,
}
use flux_pg_cluster.Base.Int.{ℤ, pos, ltb_ℤ}
use flux_pg_cluster.Config.{Config}
use flux_pg_cluster.Etcd.{Member, find_by_name}
use flux_pg_cluster.Identity.{Evidence, LocalDisk}
use flux_pg_cluster.Start.{
  ClusterState, existing, new, build_etcd_args, configure_single_member_bootstrap, decide_bootstrap,
  etcd_ssl_opts, may_evaluate_bootstrap,
}
use flux_pg_cluster.Start.Join.{
  Change, Peers, JoinResult, existing_in, split_brain_risk, no_peers_reachable, JoinEnd,
  try_join_existing,
}
use flux_pg_cluster.Text.{Text, equal, is_empty}
use flux_pg_cluster.Topology.{bootstrap_candidate, other_ips_from_initial_cluster}

-- The temporary etcd of the check of local data: whether it starts, whether it answers for its
-- own members, and what the peers answer then.
pub record TempEtcd : Type 0 where
  pub starts : Bool
  pub answers : Bool
  pub members : Text → Option (List Member)

-- What a start meets: the disk and whether the force-new-cluster flag file stands, the peers'
-- answers to the fast check, to the check of local data and to the attempts to join, and the
-- evidence of the two places that decide on a bootstrap.
pub record Surroundings : Type 0 where
  pub disk : LocalDisk
  pub flag : Bool
  pub first_members : Text → Option (List Member)
  pub temp : TempEtcd
  pub peers : Peers
  pub hint_evidence : ℕ → Evidence
  pub evidence : ℕ → Evidence

pub data Effect : Type 0 where
  wiped_etcd_data removed_flag : Effect
  changed : Change → Effect

pub data Exit : Type 0 where
  join_failed wiped_but_alone not_candidate bootstrap_unsafe : Exit

pub data Outcome : Type 0 where
  exits : Exit → Outcome
  executes : ClusterState → Config → List Text → Outcome

-- Whether a list of members names this node.
abbrev pub is_some {ℓ} : {A : Type ℓ} → Option A → Bool
is_some none = false
is_some (some a) = true

-- The fast check: the first peer that answers with members, and whether they name this node.
unfoldable pub fast_check : (Text → Option (List Member)) → Text → List Text → Option Bool
fast_check members my_name [] = none
fast_check members my_name (ip ∷ ips) = elim (members ip) [
  | none ↦ fast_check members my_name ips
  | some [] ↦ fast_check members my_name ips
  | some (m ∷ ms) ↦ some (is_some (find_by_name (m ∷ ms) my_name))
]

-- The peers that name this node, and those that answer without its name.
unfoldable pub count_peers : (Text → Option (List Member)) → Text → List Text → ℕ × ℕ
count_peers members my_name [] = (0, 0)
count_peers members my_name (ip ∷ ips) =
    let (matching, mismatched) = count_peers members my_name ips in
    elim (members ip) [
      | none ↦ (matching, mismatched)
      | some ms ↦
          if is_some (find_by_name ms my_name)
          then (matching + 1, mismatched)
          else (matching, mismatched + 1)
    ]

-- `verifyLocalDataWithTempEtcd`; `none` is an error.
unfoldable pub verify_local_data_with_temp_etcd : TempEtcd → Text → List Text → Option ClusterState
verify_local_data_with_temp_etcd temp my_name other_ips =
    if not temp.starts
    then none
    else if not temp.answers
    then some existing
    else (let (matching, mismatched) = count_peers temp.members my_name other_ips in
        if ltb matching mismatched then none else some existing)

-- `clusterState` where there is local data and no peer answers: an error preserves the data.
abbrev pub unverified : Option ClusterState → ClusterState
unverified none = existing
unverified (some state) = state

-- The variables after the look at local data: `clusterState`, `forceRejoin`, and the effects.
pub record Local : Type 0 where
  pub state : Option ClusterState
  pub force_rejoin : Bool
  pub effects : List Effect

abbrev pub after_fast_check : Option Bool → Option ClusterState → Local
after_fast_check (some true) temp_state = record {
  state = some existing;
  force_rejoin = false;
  effects = [];
}
after_fast_check (some false) temp_state = record {
  state = none;
  force_rejoin = true;
  effects = wiped_etcd_data ∷ [];
}
after_fast_check none temp_state = record {
  state = some (unverified temp_state);
  force_rejoin = false;
  effects = [];
}

unfoldable pub look_at_local_data : Config → Surroundings → List Text → Local
look_at_local_data cfg w other_ips =
    if w.disk.has_snapshot
    then after_fast_check (fast_check w.first_members cfg.my_name other_ips)
        (verify_local_data_with_temp_etcd w.temp cfg.my_name other_ips)
    else record { state = none; force_rejoin = false; effects = [] }

-- `consumeEmptyDCSRecoveryHint`, at the decision that `decide` would make: the state, and whether
-- there was a hint, which is then gone.
unfoldable pub consume_empty_dcs_recovery_hint :
    Bool → Option ClusterState → Option ClusterState × Bool
consume_empty_dcs_recovery_hint flag decision = if flag then (decision, true) else (none, false)

-- The end: a flag that still stands is removed and forces a new cluster.
unfoldable pub finish :
    Text → Text → Bool → Config → ClusterState → List Text → List Effect × Outcome
finish data_dir token flag cfg state ssl_opts = (
  if flag then removed_flag ∷ [] else [],
  executes state cfg (build_etcd_args cfg data_dir token state flag ssl_opts),
)

abbrev pub with_effects : List Effect → List Effect × Outcome → List Effect × Outcome
with_effects before (effects, outcome) = (before ++ effects, outcome)

-- Joined: the initial cluster is the rebuilt one, where there is one.
abbrev pub joined_config : Config → Text → Config
joined_config cfg rebuilt =
    if is_empty rebuilt then cfg else record cfg { etcd_initial_cluster = rebuilt }

-- What follows a call of `tryJoinExisting`.
unfoldable pub after_join :
    Text → Text → Surroundings → List Text → Bool → Bool → Bool → JoinEnd → List Effect × Outcome
after_join data_dir token w ssl_opts force_rejoin is_candidate flag end = elim end.result [
  | existing_in rebuilt ↦
      finish data_dir token flag (joined_config end.config rebuilt) existing ssl_opts
  | split_brain_risk ↦ ([], exits join_failed)
  | no_peers_reachable ↦
      if force_rejoin
      then ([], exits wiped_but_alone)
      else if not
          (may_evaluate_bootstrap is_candidate end.config.dead_cluster_recovery w.disk.has_global)
      then ([], exits not_candidate)
      else elim (decide_bootstrap end.config w.disk w.evidence) [
        | none ↦ ([], exits bootstrap_unsafe)
        | some state ↦
            finish data_dir token flag (configure_single_member_bootstrap end.config) state ssl_opts
      ]
]

abbrev pub max_retries : Config → Bool → ℤ
max_retries cfg is_candidate =
    if not is_candidate && ltb_ℤ cfg.etcd_join_max_retries (pos 60)
    then pos 60
    else cfg.etcd_join_max_retries

-- No state is known yet: join a cluster, or found one.
unfoldable pub join_or_found :
    Text
    → Text
    → Surroundings
    → Config
    → List Text
    → List Text
    → Bool
    → Bool
    → List Effect × Outcome
join_or_found data_dir token w cfg other_ips ssl_opts force_rejoin flag =
    let is_candidate = equal cfg.my_name (bootstrap_candidate cfg.etcd_initial_cluster) in
    let end = try_join_existing w.peers cfg other_ips force_rejoin (max_retries cfg is_candidate) in
    with_effects (map changed end.changes)
      (after_join data_dir token w ssl_opts force_rejoin is_candidate flag end)

-- The hint is looked at on a node that has PostgreSQL data and no etcd data.
abbrev pub hint_applies : Config → Surroundings → Bool
hint_applies cfg w = not w.disk.has_snapshot && (cfg.dead_cluster_recovery && w.disk.has_global)

abbrev pub after_hint :
    Text
    → Text
    → Surroundings
    → Config
    → List Text
    → List Text
    → Option ClusterState × Bool
    → List Effect × Outcome
after_hint data_dir token w cfg other_ips ssl_opts (some state, hinted) =
    with_effects (removed_flag ∷ [])
      (finish data_dir token false (configure_single_member_bootstrap cfg) state ssl_opts)
after_hint data_dir token w cfg other_ips ssl_opts (none, true) =
    with_effects (removed_flag ∷ [])
      (join_or_found data_dir token w cfg other_ips ssl_opts false false)
after_hint data_dir token w cfg other_ips ssl_opts (none, false) =
    join_or_found data_dir token w cfg other_ips ssl_opts false w.flag

unfoldable pub go_on :
    Text → Text → Surroundings → Config → List Text → List Text → Local → List Effect × Outcome
go_on data_dir token w cfg other_ips ssl_opts l = with_effects l.effects (elim l.state [
  | some state ↦ finish data_dir token w.flag cfg state ssl_opts
  | none ↦
      if hint_applies cfg w
      then after_hint data_dir token w cfg other_ips ssl_opts
          (consume_empty_dcs_recovery_hint w.flag (decide_bootstrap cfg w.disk w.hint_evidence))
      else join_or_found data_dir token w cfg other_ips ssl_opts l.force_rejoin w.flag
])

-- `runEtcdStart`
unfoldable pub run_etcd_start : Config → Text → Text → Surroundings → List Effect × Outcome
run_etcd_start cfg data_dir token w =
    let other_ips = other_ips_from_initial_cluster cfg.etcd_initial_cluster cfg.my_name in
    go_on data_dir token w cfg other_ips (etcd_ssl_opts cfg) (look_at_local_data cfg w other_ips)
