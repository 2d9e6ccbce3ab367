-- ===== src/Daemon/Leader.antt =====
-- `checkStalePatroniLeader`: the key of a Patroni leader that does not answer is removed.
pub mod Stale
use flux_pg_cluster.Base.{
  Bool, true, false, not, ◌||◌, Option, none, some, List, [], ◌∷◌, ◌++◌, if◌then◌else◌,
}
use flux_pg_cluster.Config.{Config}
use flux_pg_cluster.Patroni.{Network, new, is_alive}
use flux_pg_cluster.Text.{Text, codes, equal, is_empty, replace_all, trim_prefix}

-- The address in the name of a node.
unfoldable pub leader_ip : Text → Text
leader_ip leader = replace_all (trim_prefix leader (codes "node-")) (codes "-") (codes ".")

-- "/patroni/%s/leader"
abbrev pub leader_key : Config → Text
leader_key cfg = codes "/patroni/" ++ (cfg.patroni_scope ++ codes "/leader")

abbrev pub check_known_leader : Config → Network → Option Text → List Text
check_known_leader cfg net none = []
check_known_leader cfg net (some leader) =
    if is_empty leader || equal leader cfg.my_name
    then []
    else if is_alive net (new cfg.ssl_enabled cfg.host_patroni_api_port) (leader_ip leader)
    then []
    else leader_key cfg ∷ []

-- `checkStalePatroniLeader`, with whether the data directory is there and the value of the leader's
-- key, where it can be read: the keys that are removed.
unfoldable pub check_stale_patroni_leader : Config → Network → Bool → Option Text → List Text
check_stale_patroni_leader cfg net has_global leader =
    if not has_global then [] else check_known_leader cfg net leader
