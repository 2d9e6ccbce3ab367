-- ===== src/Topology.antt =====
-- Who belongs to the cluster: the texts that cmd/flux-agent builds from node addresses
-- (init.go) and takes apart again (etcd_start.go, bootstrap_identity.go, proxy.go), and the
-- clean-up of the Flux API's answer (internal/fluxapi/client.go).
pub mod Parts
pub mod RoundTrip
use flux_pg_cluster.Base.{
  ℕ, Bool, true, false, not, ◌&&◌, ◌||◌, Option, none, some, List, [], ◌∷◌, ◌++◌, map, ◌==◌,
  if◌then◌else◌,
}
use flux_pg_cluster.Base.Int.{ℤ}
use flux_pg_cluster.Config.{Config, etcd_protocol}
use flux_pg_cluster.Number.{itoa}
use flux_pg_cluster.Text.{
  Text, codes, after_first, before_last, contains_string, cut, equal, is_empty, join, less,
  replace_all, sort_strings, split, trim_space,
}

-- `nodeNameFromIP`
unfoldable pub node_name_from_ip : Text → Text
unfolding replace_all
node_name_from_ip ip = codes "node-" ++ replace_all ip (codes ".") (codes "-")

-- "%s:%d"
abbrev pub host_port : Text → ℤ → Text
host_port ip port = ip ++ b':' ∷ itoa port

-- "%s://%s:%d" with the configured protocol.
unfoldable pub etcd_url : Config → Text → ℤ → Text
etcd_url cfg ip port = etcd_protocol cfg ++ (codes "://" ++ host_port ip port)

unfoldable pub initial_part : Config → Text → Text
initial_part cfg ip = node_name_from_ip ip ++ b'=' ∷ etcd_url cfg ip cfg.host_etcd_peer_port

pub record EtcdTopology : Type 0 where
  pub hosts : Text
  pub patroni_hosts : Text
  pub initial : Text

-- `buildEtcdTopology`
unfoldable pub build_etcd_topology : Config → List Text → EtcdTopology
unfolding initial_part join
build_etcd_topology cfg ips = record {
  hosts = join (codes ",") (map (λ ip. host_port ip cfg.host_etcd_client_port) ips);
  patroni_hosts = host_port (codes "127.0.0.1") cfg.etcd_client_port;
  initial = join (codes ",") (map (initial_part cfg) ips);
}

-- `buildEtcdConfig`
unfoldable pub build_etcd_config : Config → Config
unfolding build_etcd_topology contains_string sort_strings
build_etcd_config cfg =
    let known = cfg.cluster_ips in
    let all = if contains_string known cfg.my_ip then known else known ++ cfg.my_ip ∷ [] in
    let ips = sort_strings all in
    let t = build_etcd_topology cfg ips in
    record cfg {
      cluster_ips = ips;
      etcd_hosts = t.hosts;
      patroni_etcd_hosts = t.patroni_hosts;
      etcd_initial_cluster = t.initial;
    }

abbrev pub or_text : Option Text → Text → Text
or_text none t = t
or_text (some s) t = s

-- `u[:i]` where `i > 0`, and `u` otherwise.
abbrev pub or_unless_empty : Option Text → Text → Text
or_unless_empty none u = u
or_unless_empty (some []) u = u
or_unless_empty (some (c ∷ s)) u = c ∷ s

-- `extractHostFromURL`
unfoldable pub extract_host_from_url : Text → Text
unfolding after_first before_last
extract_host_from_url url =
    let u = or_text (after_first (codes "://") url) url in or_unless_empty (before_last b':' u) u

-- The body of the loop of `otherIPsFromInitialCluster`.
unfoldable pub other_ip : Text → Option (Text × Text) → List Text
unfolding equal extract_host_from_url
other_ip my_name none = []
other_ip my_name (some (name, url)) =
    if equal name my_name
    then []
    else let ip = extract_host_from_url url in if is_empty ip then [] else ip ∷ []

unfoldable pub other_ips_of_parts : Text → List Text → List Text
other_ips_of_parts my_name [] = []
other_ips_of_parts my_name (part ∷ parts) =
    other_ip my_name (cut b'=' (trim_space part)) ++ other_ips_of_parts my_name parts

-- `otherIPsFromInitialCluster`
unfoldable pub other_ips_from_initial_cluster : Text → Text → List Text
other_ips_from_initial_cluster initial my_name = other_ips_of_parts my_name (split b',' initial)

abbrev pub name_of_cut : Option (Text × Text) → List Text
name_of_cut none = []
name_of_cut (some (name, _)) = if is_empty name then [] else name ∷ []

unfoldable pub names_of_parts : List Text → List Text
names_of_parts [] = []
names_of_parts (part ∷ parts) = name_of_cut (cut b'=' (trim_space part)) ++ names_of_parts parts

-- `membershipNames`
unfoldable pub membership_names : Text → List Text
membership_names initial = sort_strings (names_of_parts (split b',' initial))

-- A candidate's name is trimmed after the cut, where `membershipNames` trims before it.
abbrev pub candidate_of_cut : Option (Text × Text) → List Text
candidate_of_cut none = []
candidate_of_cut (some ([], _)) = []
candidate_of_cut (some (c ∷ name, _)) = trim_space (c ∷ name) ∷ []

unfoldable pub candidate_names : List Text → List Text
candidate_names [] = []
candidate_names (p ∷ parts) = candidate_of_cut (cut b'=' p) ++ candidate_names parts

unfoldable pub smallest_from : Text → List Text → Text
unfolding less
smallest_from smallest [] = smallest
smallest_from smallest (n ∷ names) = smallest_from (if less n smallest then n else smallest) names

unfoldable pub smallest_name : List Text → Text
unfolding smallest_from
smallest_name [] = []
smallest_name (n ∷ names) = smallest_from n names

-- `bootstrapCandidate`
unfoldable pub bootstrap_candidate : Text → Text
bootstrap_candidate initial = smallest_name (candidate_names (split b',' initial))

-- `splitCSV` of proxy.go: `cur` is the piece being read, and empty pieces are dropped.
unfoldable pub split_csv_from : Text → Text → List Text
split_csv_from cur [] = if is_empty cur then [] else cur ∷ []
split_csv_from cur (c ∷ s) = elim (c == b',') [
  | true ↦ let rest = split_csv_from [] s in if is_empty cur then rest else cur ∷ rest
  | false ↦ split_csv_from (cur ++ c ∷ []) s
]

unfoldable pub split_csv : Text → List Text
unfolding split_csv_from
split_csv s = split_csv_from [] s

-- `h[:i]` at `i := indexByte(h, ':')` where `i > 0`, and `h` otherwise.
abbrev pub strip_port : Option (Text × Text) → Text → Text
strip_port none h = h
strip_port (some ([], _)) h = h
strip_port (some (c ∷ host, _)) h = c ∷ host

unfoldable pub hosts_of_csv : List Text → List Text
hosts_of_csv [] = []
hosts_of_csv (h ∷ hs) =
    let ip = strip_port (cut b':' h) h in
    let rest = hosts_of_csv hs in if is_empty ip then rest else ip ∷ rest

-- `candidateIPs` of proxy.go
unfoldable pub candidate_ips : Config → List Text
candidate_ips cfg = hosts_of_csv (split_csv cfg.etcd_hosts)

abbrev pub lacks_colon : Option (Text × Text) → Bool
lacks_colon none = true
lacks_colon (some _) = false

-- The address in one entry of the Flux API's answer, less a trailing :port.
unfoldable pub location_ip : Text → Text
unfolding before_last cut
location_ip ip = elim (before_last b':' ip) [
  | none ↦ ip
  | some before ↦ if not (is_empty before) && lacks_colon (cut b':' before) then before else ip
]

-- The loop of `ListIPs`. The accumulators are the keys of the map `seen` and the list `out`.
unfoldable pub collect_ips : List Text → List Text → List Text → List Text
unfolding location_ip contains_string
collect_ips seen out [] = out
collect_ips seen out (d ∷ entries) =
    let ip = location_ip d in
    elim (is_empty ip || contains_string seen ip) [
      | true ↦ collect_ips seen out entries
      | false ↦ collect_ips (ip ∷ seen) (out ++ ip ∷ []) entries
    ]

-- `ListIPs`, from the addresses in a decoded answer on.
unfoldable pub list_ips : List Text → List Text
unfolding collect_ips sort_strings
list_ips entries = sort_strings (collect_ips [] [] entries)
