-- ===== src/Daemon/Endpoint.antt =====
-- Which etcd endpoint the daemon uses, by the HTTP status of /health: `status` gives the status of
-- a GET of a URL, where there is a response.
use flux_pg_cluster.Base.{
  ℕ, Bool, false, ◌||◌, Option, none, some, List, [], ◌∷◌, ◌++◌, ◌==◌, if◌then◌else◌,
}
use flux_pg_cluster.Config.{Config}
use flux_pg_cluster.Text.{Text, codes, trim_right_byte}
use flux_pg_cluster.Topology.{etcd_url}

-- 200 and 503 both mean that the process is up.
abbrev pub is_up : Option ℕ → Bool
is_up none = false
is_up (some code) = code == 200 || code == 503

-- `etcdHealthReachable`
unfoldable pub etcd_health_reachable : (Text → Option ℕ) → Text → Bool
etcd_health_reachable status endpoint =
    is_up (status (trim_right_byte b'/' endpoint ++ codes "/health"))

-- `pickHealthyEtcdEndpoint`
unfoldable pub pick_healthy_etcd_endpoint : (Text → Option ℕ) → List Text → Text
pick_healthy_etcd_endpoint status [] = []
pick_healthy_etcd_endpoint status (ep ∷ eps) =
    let rest = pick_healthy_etcd_endpoint status eps in
    if etcd_health_reachable status ep then ep else rest

-- The endpoints that `runReconcile` tries: on localhost, and on the node's own address.
unfoldable pub own_endpoints : Config → List Text
own_endpoints cfg =
    etcd_url cfg (codes "127.0.0.1") cfg.etcd_client_port
    ∷ etcd_url cfg cfg.my_ip cfg.host_etcd_client_port
    ∷ []
