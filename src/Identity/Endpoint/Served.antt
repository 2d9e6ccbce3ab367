-- ===== src/Identity/Endpoint/Served.antt =====
-- Who gets a node's identity, and what the peers read.
use flux_pg_cluster.Base.{
  ◌≡◌, ◌≢◌, refl, ap, true, Option, some, ==_iff, length, Bool-cases, inl, inr, arith,
}
use flux_pg_cluster.Config.{Config}
use flux_pg_cluster.Identity.{NodeIdentity, document, LocalDisk, local_node_identity}
use flux_pg_cluster.Identity.Endpoint.{
  Request, identity_probe_token, valid_identity_probe_token, probe_request, write_identity_response,
  reply_of_body, reply_of,
}
use flux_pg_cluster.Text.{Text, equal}
use flux_pg_cluster.Text.Laws.{equal_iff, equal_refl}

module _ (hmac_hex : Text → Text → Text) where
  valid_lem :
      (cfg : Config) (got : Text)
      → valid_identity_probe_token hmac_hex cfg got ≡ true
      → got ≡ identity_probe_token hmac_hex cfg
  unfolding valid_identity_probe_token
  valid_lem cfg got h = ground (arith, equal_iff got (identity_probe_token hmac_hex cfg))

  valid_refl :
      (cfg : Config)
      → valid_identity_probe_token hmac_hex cfg (identity_probe_token hmac_hex cfg) ≡ true
  unfolding valid_identity_probe_token
  valid_refl cfg =
      rw
        (
          (==_iff (length (identity_probe_token hmac_hex cfg)) _).1 refl,
          equal_refl (identity_probe_token hmac_hex cfg),
        )
        refl

  -- Two nodes of one application, scope and replication password.
  pub record Shares (a b : Config) : Type 0 where
    pub password : a.postgres_replication_password ≡ b.postgres_replication_password
    pub app : a.app_name ≡ b.app_name
    pub scope : a.patroni_scope ≡ b.patroni_scope

  token_same :
      (a b : Config)
      → Shares a b
      → identity_probe_token hmac_hex a ≡ identity_probe_token hmac_hex b
  unfolding identity_probe_token
  token_same a b s = cc (s.password, s.app, s.scope)

  -- A node that asks a peer with the same application, scope and replication password reads the
  -- peer's own identity, where the document's JSON decodes to what was
  -- encoded.
  pub reply_of-served :
      (encode : NodeIdentity → Text) (decode : Text → Option NodeIdentity) (peer asks : Config)
      (disk : LocalDisk)
      → decode (encode (local_node_identity peer disk)) ≡ some (local_node_identity peer disk)
      → Shares peer asks
      → reply_of decode
          (some (write_identity_response hmac_hex encode peer disk (probe_request hmac_hex asks)))
        ≡ document (local_node_identity peer disk)
  unfolding reply_of write_identity_response probe_request equal
  reply_of-served encode decode peer asks disk codec s =
      rw (← token_same peer asks s, valid_refl peer) (ap reply_of_body codec)

  -- Whoever does not know the token learns nothing of the node: the response is no document, and is
  -- the same whatever stands on the disk.
  pub write_identity_response-secret :
      (encode : NodeIdentity → Text) (cfg : Config) (disk other : LocalDisk) (r : Request)
      → r.probe_header ≢ identity_probe_token hmac_hex cfg
      → (write_identity_response hmac_hex encode cfg disk r
          ≡ write_identity_response hmac_hex encode cfg other r)
        × ((write_identity_response hmac_hex encode cfg disk r).status ≢ 200)
  unfolding write_identity_response
  write_identity_response-secret encode cfg disk other r h =
      elim (Bool-cases (valid_identity_probe_token hmac_hex cfg r.probe_header)) [
        | inl valid ↦ absurd (h (valid_lem cfg r.probe_header valid))
        | inr invalid ↦ ground arith
      ]
