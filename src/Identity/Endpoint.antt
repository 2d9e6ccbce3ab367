-- ===== src/Identity/Endpoint.antt =====
-- cmd/flux-agent/bootstrap_identity.go: the HTTP endpoint on which a node serves its identity to
-- its peers, and the request by which they ask. HMAC-SHA256 in hexadecimal and the JSON codec of
-- the document are parameters.
pub mod Served
use flux_pg_cluster.Base.{
  Bool, true, false, not, ◌||◌, Option, none, some, List, [], ◌∷◌, ◌++◌, ◌==◌, length,
  if◌then◌else◌,
}
use flux_pg_cluster.Config.{Config}
use flux_pg_cluster.Identity.{
  NodeIdentity, IdentityReply, no_reply, bad_status, bad_body, document, LocalDisk,
  local_node_identity,
}
use flux_pg_cluster.Patroni.{Response}
use flux_pg_cluster.Text.{Text, codes, equal}

-- What the handler reads of a request: the method, the path, and the header X-Flux-Cluster-Probe.
pub record Request : Type 0 where
  pub method : Text
  pub path : Text
  pub probe_header : Text

-- `clusterIdentityPath`
abbrev pub cluster_identity_path : Text
cluster_identity_path = codes "/cluster-identity"

module _ (hmac_hex : Text → Text → Text) where
  -- `identityProbeToken`
  unfoldable pub identity_probe_token : Config → Text
  identity_probe_token cfg =
      hmac_hex cfg.postgres_replication_password (cfg.app_name ++ 0 ∷ cfg.patroni_scope)

  -- `validIdentityProbeToken`
  unfoldable pub valid_identity_probe_token : Config → Text → Bool
  valid_identity_probe_token cfg got =
      let want = identity_probe_token cfg in
      if not (length got == length want) then false else equal got want

  -- The request of `probePeerIdentity`.
  unfoldable pub probe_request : Config → Request
  probe_request cfg = record {
    method = codes "GET";
    path = cluster_identity_path;
    probe_header = identity_probe_token cfg;
  }

  -- `writeIdentityResponse`
  unfoldable pub write_identity_response :
      (NodeIdentity → Text) → Config → LocalDisk → Request → Response
  write_identity_response encode cfg disk r =
      if not (equal r.method (codes "GET")) || not (equal r.path cluster_identity_path)
      then record { status = 404; body = codes "404 page not found\n" }
      else if not (valid_identity_probe_token cfg r.probe_header)
      then record { status = 403; body = codes "forbidden\n" }
      else record { status = 200; body = encode (local_node_identity cfg disk) }

-- What `probePeerIdentity` makes of the response, where there is one.
abbrev pub reply_of_body : Option NodeIdentity → IdentityReply
reply_of_body none = bad_body
reply_of_body (some identity) = document identity

unfoldable pub reply_of : (Text → Option NodeIdentity) → Option Response → IdentityReply
reply_of decode none = no_reply
reply_of decode (some r) =
    if not (r.status == 200) then bad_status else reply_of_body (decode r.body)
