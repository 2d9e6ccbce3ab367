-- ===== src/Start/Run/Wipe.antt =====
-- When a start of etcd wipes local data.
use flux_pg_cluster.Base.{
  ◌≡◌, ◌≢◌, ◌↔◌, refl, inl, inr, Bool, true, false, Option, none, some, List, [], ◌∷◌, ◌++◌, map,
  All, All-append, Member, Member-append, All-Member, Member-append_left, arith,
}
use flux_pg_cluster.Config.{Config}
use flux_pg_cluster.Start.{ClusterState, configure_single_member_bootstrap, etcd_ssl_opts}
use flux_pg_cluster.Start.Join.{Change, JoinEnd}
use flux_pg_cluster.Start.Run.{
  Surroundings, Effect, wiped_etcd_data, changed, Outcome, fast_check, Local, look_at_local_data,
  finish, after_join, join_or_found, after_hint, go_on, run_etcd_start,
}
use flux_pg_cluster.Start.Run.Forgotten.{IsForgotten, fast_check_iff}
use flux_pg_cluster.Text.{Text}
use flux_pg_cluster.Topology.{other_ips_from_initial_cluster}

-- Effects that leave the etcd data alone.
abbrev IsKind : List Effect → Type 0
IsKind = All (λ e. e ≢ wiped_etcd_data)

changed-IsKind : (cs : List Change) → IsKind (map changed cs)
changed-IsKind [] = tt
changed-IsKind (c ∷ cs) = (λ e. cc, changed-IsKind cs)

module _ (data_dir token : Text) (w : Surroundings) where
  finish-IsKind :
      (flag : Bool) (cfg : Config) (state : ClusterState) (opts : List Text)
      → IsKind (finish data_dir token flag cfg state opts).0
  unfolding finish
  finish-IsKind true cfg state opts = (λ e. cc, tt)
  finish-IsKind false cfg state opts = tt

  after_join-IsKind :
      (opts : List Text) (force_rejoin is_candidate flag : Bool) (end : JoinEnd)
      → IsKind (after_join data_dir token w opts force_rejoin is_candidate flag end).0
  unfolding after_join
  after_join-IsKind opts force_rejoin is_candidate flag end = grind (arith, finish-IsKind)

  join_or_found-IsKind :
      (cfg : Config) (ips opts : List Text) (force_rejoin flag : Bool)
      → IsKind (join_or_found data_dir token w cfg ips opts force_rejoin flag).0
  unfolding join_or_found
  join_or_found-IsKind cfg ips opts force_rejoin flag =
      All-append _ _ _ (changed-IsKind _) (after_join-IsKind opts force_rejoin _ flag _)

  after_hint-IsKind :
      (cfg : Config) (ips opts : List Text) (d : Option ClusterState × Bool)
      → IsKind (after_hint data_dir token w cfg ips opts d).0
  after_hint-IsKind cfg ips opts (some state, hinted) =
      (λ e. cc, finish-IsKind false (configure_single_member_bootstrap cfg) state opts)
  after_hint-IsKind cfg ips opts (none, true) =
      (λ e. cc, join_or_found-IsKind cfg ips opts false false)
  after_hint-IsKind cfg ips opts (none, false) = join_or_found-IsKind cfg ips opts false w.flag

  rest_of : Config → List Text → List Text → Local → List Effect × Outcome
  rest_of cfg ips opts l = go_on data_dir token w cfg ips opts (record l { effects = [] })

  rest-IsKind :
      (cfg : Config) (ips opts : List Text) (l : Local) → IsKind (rest_of cfg ips opts l).0
  unfolding rest_of go_on
  rest-IsKind cfg ips opts l = grind (arith, finish-IsKind, after_hint-IsKind, join_or_found-IsKind)

wiped-Member :
    (es fs : List Effect)
    → IsKind fs
    → Member wiped_etcd_data (es ++ fs)
    → Member wiped_etcd_data es
wiped-Member es fs h m = elim (Member-append wiped_etcd_data es fs m) [
  | inl n ↦ n
  | inr n ↦ absurd (All-Member wiped_etcd_data (λ e. e ≢ wiped_etcd_data) fs h n refl)
]

local-wiped_iff :
    (cfg : Config) (w : Surroundings) (ips : List Text)
    → Member wiped_etcd_data (look_at_local_data cfg w ips).effects
      ↔ ((w.disk.has_snapshot ≡ true) × (fast_check w.first_members cfg.my_name ips ≡ some false))
unfolding look_at_local_data
local-wiped_iff cfg w ips = ground arith

-- A start wipes the local etcd data exactly when there is such data and the first peer, in the
-- order of the initial cluster, that answers with at least one member names none as this node.
pub run_etcd_start-wipes_iff :
    (cfg : Config) (data_dir token : Text) (w : Surroundings)
    → Member wiped_etcd_data (run_etcd_start cfg data_dir token w).0 ↔ (
        (w.disk.has_snapshot ≡ true)
        × IsForgotten w.first_members cfg.my_name
            (other_ips_from_initial_cluster cfg.etcd_initial_cluster cfg.my_name))
unfolding run_etcd_start go_on rest_of
run_etcd_start-wipes_iff cfg data_dir token w =
    let ips = other_ips_from_initial_cluster cfg.etcd_initial_cluster cfg.my_name in
    let l = look_at_local_data cfg w ips in
    let h = local-wiped_iff cfg w ips in
    let f = fast_check_iff w.first_members cfg.my_name ips in
    (
      λ m.
          let (snapshot, fast) = h.0 (
            wiped-Member l.effects _ (rest-IsKind data_dir token w cfg ips (etcd_ssl_opts cfg) l)
              m) in
          (snapshot, f.0 fast),
      λ k. Member-append_left wiped_etcd_data l.effects _ (h.1 (k.0, f.1 k.1)),
    )
