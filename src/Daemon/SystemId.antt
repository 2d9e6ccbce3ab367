-- ===== src/Daemon/SystemId.antt =====
-- `checkPatroniSystemID`: the repair of the cluster's system identifier, and the deletion of local
-- PostgreSQL data from another epoch.
pub mod Wipe
use flux_pg_cluster.Base.{
  Bool, true, false, not, ◌&&◌, ◌||◌, Option, none, some, List, [], ◌∷◌, ◌++◌, if◌then◌else◌,
}
use flux_pg_cluster.Base.Int.{ℤ}
use flux_pg_cluster.Config.{Config}
use flux_pg_cluster.Daemon.{should_fnf_now}
use flux_pg_cluster.Patroni.{NodeInfo}
use flux_pg_cluster.Postgres.{read_local_pg_system_id}
use flux_pg_cluster.Text.{Text, codes, equal, is_empty}

-- What the check meets: the key /initialize, where it can be read; each peer's information; the
-- local disk; the cooldown file, and the time; and whether the directory can be wiped.
pub record Surroundings : Type 0 where
  pub initialize : Option Text
  pub info : Text → Option NodeInfo
  pub has_global : Bool
  pub control_output : Option Text
  pub cooldown_file : Option Text
  pub now : ℤ
  pub wipe_succeeds : Bool

pub data Effect : Type 0 where
  set_initialize : Text → Effect
  wrote_cooldown : ℤ → Effect
  stopped_patroni wiped_pg_data started_patroni : Effect

-- The variables of the loop over the peers.
pub record Poll : Type 0 where
  pub primary_sys_id : Text
  pub primary_ip : Text
  pub any_matching_member : Bool

-- The body of the loop.
unfoldable pub poll_member : Text → Text → Option NodeInfo → Poll → Poll
poll_member etcd_sys_id ip none p = p
poll_member etcd_sys_id ip (some info) p =
    let id = info.database_system_identifier in
    let primary = equal info.role (codes "primary") || equal info.role (codes "master") in
    if is_empty id then p else record {
      primary_sys_id = if primary then id else p.primary_sys_id;
      primary_ip = if primary then ip else p.primary_ip;
      any_matching_member = p.any_matching_member || equal id etcd_sys_id;
    }

unfoldable pub poll_members : Surroundings → Text → List Text → Poll → Poll
poll_members w etcd_sys_id [] p = p
poll_members w etcd_sys_id (ip ∷ ips) p =
    poll_members w etcd_sys_id ips (poll_member etcd_sys_id ip (w.info ip) p)

-- The key is stale: a primary reports another identifier, and no member the key's.
abbrev pub is_stale : Text → Poll → Bool
is_stale etcd_sys_id p =
    not (is_empty p.primary_sys_id)
    && (not (equal p.primary_sys_id etcd_sys_id) && not p.any_matching_member)

-- The first case: the key is set to the primary's identifier, which then counts.
unfoldable pub heal_initialize : Text → Poll → List Effect × Text
heal_initialize etcd_sys_id p =
    if is_stale etcd_sys_id p
    then (set_initialize p.primary_sys_id ∷ [], p.primary_sys_id)
    else ([], etcd_sys_id)

-- The end: stop Patroni, wipe, and start it again where the wipe succeeds.
abbrev pub wipe_effects : Surroundings → List Effect
wipe_effects w =
    wrote_cooldown w.now
    ∷ stopped_patroni
    ∷ wiped_pg_data
    ∷ (if w.wipe_succeeds then started_patroni ∷ [] else [])

-- The second case: local data of another epoch.
unfoldable pub wipe_stale_data : Config → ℤ → Surroundings → Text → Poll → List Effect
wipe_stale_data cfg wipe_cooldown_secs w etcd_sys_id p =
    if not (
      not (is_empty p.primary_ip)
      && (not (is_empty p.primary_sys_id) && equal p.primary_sys_id etcd_sys_id))
    then []
    else if equal cfg.my_ip p.primary_ip
    then []
    else if not w.has_global
    then []
    else elim (read_local_pg_system_id w.control_output) [
      | none ↦ []
      | some local_sys_id ↦
          if equal local_sys_id etcd_sys_id
          then []
          else if not cfg.allow_pg_data_wipe
          then []
          else if not (should_fnf_now w.cooldown_file w.now wipe_cooldown_secs)
          then []
          else wipe_effects w
    ]

abbrev pub zero_poll : Poll
zero_poll = record { primary_sys_id = []; primary_ip = []; any_matching_member = false }

abbrev pub check_known_id : Config → ℤ → Surroundings → Text → Poll → List Effect
check_known_id cfg wipe_cooldown_secs w etcd_sys_id p =
    let (effects, authoritative) = heal_initialize etcd_sys_id p in
    effects ++ wipe_stale_data cfg wipe_cooldown_secs w authoritative p

-- An empty value counts as no value.
abbrev pub check_key : Config → List Text → ℤ → Surroundings → Option Text → List Effect
check_key cfg desired_ips wipe_cooldown_secs w none = []
check_key cfg desired_ips wipe_cooldown_secs w (some []) = []
check_key cfg desired_ips wipe_cooldown_secs w (some (c ∷ id)) =
    check_known_id cfg wipe_cooldown_secs w (c ∷ id) (poll_members w (c ∷ id) desired_ips zero_poll)

-- `checkPatroniSystemID`
unfoldable pub check_patroni_system_id : Config → List Text → ℤ → Surroundings → List Effect
check_patroni_system_id cfg desired_ips wipe_cooldown_secs w =
    check_key cfg desired_ips wipe_cooldown_secs w w.initialize
