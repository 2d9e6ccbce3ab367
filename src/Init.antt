-- ===== src/Init.antt =====
-- The one-shot initialization of cmd/flux-agent/init.go: the node's own address, the name of the
-- application, the addresses of the cluster, and the checks and texts of the configuration.
pub mod Retries
pub mod Render
pub mod Version
pub mod Agreement
use flux_pg_cluster.Base.{
  ◌≡◌, Bool, true, false, ◌&&◌, ◌||◌, Option, none, some, List, [], ◌∷◌, ◌++◌, if◌then◌else◌,
}
use flux_pg_cluster.Config.{Config}
use flux_pg_cluster.Text.{
  Text, codes, after_first, contains, cut, equal, has_prefix, is_empty, trim_space,
}
use flux_pg_cluster.Topology.{build_etcd_config, node_name_from_ip}

-- An address of an interface that net.ParseCIDR reads: `To4` in dotted form, and `IsLoopback`.
pub record Interface : Type 0 where
  pub v4 : Option Text
  pub is_loopback : Bool

abbrev pub first_text : Option Text → Text → Text
first_text none rest = rest
first_text (some ip) rest = ip

-- The loop of `pickIPInSubnet`; an address that does not parse is none.
unfoldable pub first_in_subnet : Text → List (Option Interface) → Text
unfolding has_prefix
first_in_subnet prefix [] = []
first_in_subnet prefix (none ∷ addrs) = first_in_subnet prefix addrs
first_in_subnet prefix (some a ∷ addrs) =
    let rest = first_in_subnet prefix addrs in
    elim a.v4 [ none ↦ rest | some ip ↦ if has_prefix ip prefix then ip else rest ]

-- `pickIPInSubnet`; none where the interfaces cannot be listed.
unfoldable pub pick_ip_in_subnet : Option (List (Option Interface)) → Text → Text
unfolding first_in_subnet
pick_ip_in_subnet none prefix = []
pick_ip_in_subnet (some addrs) prefix = first_in_subnet prefix addrs

-- The loop of `pickFirstNonLoopbackIP`.
unfoldable pub first_non_loopback : List (Option Interface) → Text
first_non_loopback [] = []
first_non_loopback (none ∷ addrs) = first_non_loopback addrs
first_non_loopback (some a ∷ addrs) =
    let rest = first_non_loopback addrs in if a.is_loopback then rest else first_text a.v4 rest

-- `pickFirstNonLoopbackIP`
unfoldable pub pick_first_non_loopback_ip : Option (List (Option Interface)) → Text
unfolding first_non_loopback
pick_first_non_loopback_ip none = []
pick_first_non_loopback_ip (some addrs) = first_non_loopback addrs

-- The echo services in turn: the body of each answer, or none where the request failed.
unfoldable pub echoed_ip : (Text → Bool) → List (Option Text) → Option Text
unfolding trim_space
echoed_ip parse_ip [] = none
echoed_ip parse_ip (none ∷ answers) = echoed_ip parse_ip answers
echoed_ip parse_ip (some body ∷ answers) =
    let rest = echoed_ip parse_ip answers in
    let ip = trim_space body in if parse_ip ip then some ip else rest

-- An address that is not empty, or none for the error "no IP discovered".
abbrev pub unless_empty : Text → Option Text
unless_empty [] = none
unless_empty (c ∷ s) = some (c ∷ s)

abbrev pub or_else : Option Text → Option Text → Option Text
or_else none t = t
or_else (some s) t = some s

-- The local testing mode of `discoverMyIP`.
unfoldable pub testing_ip : Text → Option (List (Option Interface)) → Option Text
unfolding equal pick_ip_in_subnet pick_first_non_loopback_ip
testing_ip host addrs =
    if equal host (codes "postgres-cluster-node1")
    then some (codes "172.20.0.10")
    else if equal host (codes "postgres-cluster-node2")
    then some (codes "172.20.0.11")
    else if equal host (codes "postgres-cluster-node3")
    then some (codes "172.20.0.12")
    else or_else (unless_empty (pick_ip_in_subnet addrs (codes "172.20.")))
        (unless_empty (pick_first_non_loopback_ip addrs))

-- `discoverMyIP`; `parse_ip ip` is `net.ParseIP(ip) != nil`.
unfoldable pub discover_my_ip :
    (Text → Bool)
    → Config
    → Text
    → List (Option Text)
    → Option (List (Option Interface))
    → Option Text
unfolding contains testing_ip echoed_ip pick_first_non_loopback_ip
discover_my_ip parse_ip cfg host answers addrs =
    if contains cfg.flux_api_url (codes "172.20.0.5")
    then testing_ip host addrs
    else or_else (echoed_ip parse_ip answers) (unless_empty (pick_first_non_loopback_ip addrs))

abbrev pub before_of : Option (Text × Text) → Text
before_of none = []
before_of (some (before, after)) = before

abbrev pub app_name_of : Option Text → Text
app_name_of none = []
app_name_of (some rest) = before_of (cut b'"' rest)

-- `tryGetHostInfoAppName`: the body of the answer, or none where the request failed.
unfoldable pub try_get_host_info_app_name : Option Text → Text
unfolding after_first cut
try_get_host_info_app_name none = []
try_get_host_info_app_name (some body) = app_name_of (after_first (codes "\"appName\":\"") body)

-- What `runInit` makes of the answer of `discoverClusterIPs`, none for an error.
unfoldable pub ips_or_own : Text → Option (List Text) → List Text
ips_or_own my_ip none = my_ip ∷ []
ips_or_own my_ip (some []) = my_ip ∷ []
ips_or_own my_ip (some (ip ∷ ips)) = ip ∷ ips

-- The settings of `runInit` once its own address and the cluster's are known.
unfoldable pub settle_cluster : Config → Text → Option (List Text) → Config
unfolding ips_or_own node_name_from_ip build_etcd_config
settle_cluster cfg my_ip answer = build_etcd_config (record cfg {
  my_ip = my_ip;
  cluster_ips = ips_or_own my_ip answer;
  my_name = node_name_from_ip my_ip;
})
