-- ===== src/Proxy.antt =====
-- cmd/flux-agent/proxy.go: the proxy that sends PostgreSQL clients to the primary, and serves the
-- node's identity on the same port.
pub mod Probe
pub mod Latest
pub mod Writer
pub mod Target
use flux_pg_cluster.Base.{
  ℕ, ◌+◌, Bool, true, false, not, ◌&&◌, ◌||◌, Option, none, some, List, [], ◌∷◌, ◌++◌, ◌==◌,
  if◌then◌else◌,
}
use flux_pg_cluster.Base.Int.{ℤ, pos_part, neg_part}
use flux_pg_cluster.Config.{Config}
use flux_pg_cluster.Config.File.{load_cluster_env}
use flux_pg_cluster.Identity.{NodeIdentity, LocalDisk}
use flux_pg_cluster.Identity.Endpoint.{Request, write_identity_response}
use flux_pg_cluster.Patroni.{Network, Response, Client, new, Role, primary, check_role}
use flux_pg_cluster.Text.{Text, codes, equal, is_empty}

abbrev pub equal_ℤ : ℤ → ℤ → Bool
equal_ℤ a b = (pos_part a + neg_part b) == (pos_part b + neg_part a)

-- `patroniProbeTarget`
unfoldable pub patroni_probe_target : Config → Text → Text × ℤ
patroni_probe_target cfg ip =
    if not (is_empty cfg.my_ip) && equal ip cfg.my_ip
    then (codes "127.0.0.1", cfg.patroni_api_port)
    else (ip, cfg.host_patroni_api_port)

-- `patroniProbeClients`
pub record PatroniProbeClients : Type 0 where
  pub local : Client
  pub remote : Client

-- `newPatroniProbeClients`
unfoldable pub new_patroni_probe_clients : Config → PatroniProbeClients
new_patroni_probe_clients cfg =
    let local = new cfg.ssl_enabled cfg.patroni_api_port in
    if equal_ℤ cfg.host_patroni_api_port cfg.patroni_api_port
    then record { local = local; remote = local }
    else record { local = local; remote = new cfg.ssl_enabled cfg.host_patroni_api_port }

-- `checkPatroniRole`
unfoldable pub check_patroni_role : Network → Config → PatroniProbeClients → Text → Role
check_patroni_role net cfg clients ip =
    let (host, port) = patroni_probe_target cfg ip in
    check_role net (if equal_ℤ port cfg.patroni_api_port then clients.local else clients.remote)
      host

abbrev pub is_primary : Role → Bool
is_primary primary = true
is_primary _ = false

-- The end of `probePrimary`: what is stored, from what was stored and what was found.
unfoldable pub store_found : Text → Text → Text
store_found prev found = if not (is_empty found) && not (equal found prev) then found else prev

-- What becomes of a connection: it is closed, it is answered with an identity response, or a
-- connection to a host and port is made, which the bytes are copied to and from.
pub data Handling : Type 0 where
  closes : Handling
  answers : Response → Handling
  dials : Text → ℤ → Handling

-- The part of `handleProxyConn` for a client of PostgreSQL.
unfoldable pub dial_primary : Config → Text → ℤ → Handling
dial_primary cfg primary_ip host_postgres_port =
    if is_empty primary_ip
    then closes
    else if not (is_empty cfg.my_ip) && equal primary_ip cfg.my_ip
    then dials (codes "127.0.0.1") cfg.postgres_port
    else dials primary_ip host_postgres_port

module _ (hmac_hex : Text → Text → Text) (encode : NodeIdentity → Text) where
  -- `writeCurrentIdentityResponse`: the settings in /etc/cluster_env at the time of the request.
  unfoldable pub write_current_identity_response :
      Config → Option Text → LocalDisk → Request → Response
  write_current_identity_response cfg cluster_env disk r =
      write_identity_response hmac_hex encode (load_cluster_env cluster_env cfg).0 disk r

  abbrev pub answer_request : Config → Option Text → LocalDisk → Option Request → Handling
  answer_request cfg cluster_env disk none = closes
  answer_request cfg cluster_env disk (some r) =
      answers (write_current_identity_response cfg cluster_env disk r)

  abbrev pub is_get : Option Text → Bool
  is_get none = false
  is_get (some prefix) = equal prefix (codes "GET ")

  -- `handleProxyConn`, with the first four bytes, where they come in time, and the request that
  -- they begin, where it is one.
  unfoldable pub handle_proxy_conn :
      Config → Option Text → LocalDisk → Text → ℤ → Option Text → Option Request → Handling
  handle_proxy_conn cfg cluster_env disk primary_ip host_postgres_port prefix request =
      if is_get prefix
      then answer_request cfg cluster_env disk request
      else dial_primary cfg primary_ip host_postgres_port
