-- ===== src/Proxy/Target.antt =====
-- The node that is asked for its role is the node that the clients are sent to.
use flux_pg_cluster.Base.{
  ◌≡◌, ◌≢◌, refl, sym, ap, ◌∙◌, ◌⊎◌, inl, inr, Bool, true, false, not, ◌&&◌, [], Bool-cases, arith,
  if◌then◌else◌,
}
use flux_pg_cluster.Base.Int.{ℤ, pos, negsuc}
use flux_pg_cluster.Config.{Config}
use flux_pg_cluster.Patroni.{Network, new, check_role}
use flux_pg_cluster.Proxy.{
  equal_ℤ, patroni_probe_target, new_patroni_probe_clients, check_patroni_role, dials, dial_primary,
}
use flux_pg_cluster.Text.{Text, codes, equal, is_empty}
use flux_pg_cluster.Text.Laws.{equal_iff, is_empty_iff}

equal_ℤ-eq : (a b : ℤ) → equal_ℤ a b ≡ true → a ≡ b
equal_ℤ-eq (pos m) (pos n) h = ground arith
equal_ℤ-eq (pos m) (negsuc n) h = ground arith
equal_ℤ-eq (negsuc m) (pos n) h = ground arith
equal_ℤ-eq (negsuc m) (negsuc n) h = ground arith

equal_ℤ-refl : (a : ℤ) → equal_ℤ a a ≡ true
equal_ℤ-refl (pos m) = ground arith
equal_ℤ-refl (negsuc m) = ground arith

local_lem :
    (cfg : Config)
    → (new_patroni_probe_clients cfg).local ≡ new cfg.ssl_enabled cfg.patroni_api_port
unfolding new_patroni_probe_clients
local_lem cfg = elim (Bool-cases (equal_ℤ cfg.host_patroni_api_port cfg.patroni_api_port)) [
  | inl same ↦ rw same refl
  | inr other ↦ rw other refl
]

remote_lem :
    (cfg : Config)
    → equal_ℤ cfg.host_patroni_api_port cfg.patroni_api_port ≡ false
    → (new_patroni_probe_clients cfg).remote ≡ new cfg.ssl_enabled cfg.host_patroni_api_port
unfolding new_patroni_probe_clients
remote_lem cfg other = rw other refl

-- The client that is chosen has the port of the target.
chosen_client :
    (cfg : Config) (port : ℤ)
    → (port ≡ cfg.patroni_api_port) ⊎ (port ≡ cfg.host_patroni_api_port)
    → (if equal_ℤ port cfg.patroni_api_port
        then (new_patroni_probe_clients cfg).local
        else (new_patroni_probe_clients cfg).remote)
      ≡ new cfg.ssl_enabled port
unfolding new_patroni_probe_clients
chosen_client cfg port h = elim (Bool-cases (equal_ℤ port cfg.patroni_api_port)) [
  | inl same ↦
      rw same
        (local_lem cfg ∙ ap (new cfg.ssl_enabled) (sym (equal_ℤ-eq port cfg.patroni_api_port same)))
  | inr other ↦ elim h [
    | inl e ↦
        absurd (
          cc (other, ap (λ z. equal_ℤ z cfg.patroni_api_port) e, equal_ℤ-refl cfg.patroni_api_port))
    | inr e ↦ rw other (
        remote_lem cfg (sym (ap (λ z. equal_ℤ z cfg.patroni_api_port) e) ∙ other)
        ∙ ap (new cfg.ssl_enabled) (sym e))
  ]
]

-- Whether an address that is not empty is the proxy's own.
is_own_lem :
    (cfg : Config) (ip : Text) (own : Bool)
    → ip ≢ []
    → (not (is_empty cfg.my_ip) && equal ip cfg.my_ip) ≡ own
    → if own then ip ≡ cfg.my_ip else ip ≢ cfg.my_ip
is_own_lem cfg ip true h e = ground (arith, equal_iff ip cfg.my_ip)
is_own_lem cfg ip false h e =
    λ same. ground (arith, equal_iff ip cfg.my_ip, is_empty_iff cfg.my_ip, same)

-- A node that is not the proxy's own is asked for its role at its address and at the host's port
-- of Patroni, and the clients of PostgreSQL are sent to that address and the port that the proxy
-- was given for the others. The proxy's own node is asked at 127.0.0.1 and the container's port of
-- Patroni, and its clients are sent to 127.0.0.1 and the container's port of PostgreSQL.
pub check_patroni_role-dial_primary :
    (net : Network) (cfg : Config) (ip : Text) (host_postgres_port : ℤ)
    → ip ≢ []
    → let role = check_patroni_role net cfg (new_patroni_probe_clients cfg) ip in
      let handling = dial_primary cfg ip host_postgres_port in
      ((ip ≢ cfg.my_ip)
        × (role ≡ check_role net (new cfg.ssl_enabled cfg.host_patroni_api_port) ip)
        × (handling ≡ dials ip host_postgres_port))
      ⊎ ((ip ≡ cfg.my_ip)
          × (role ≡ check_role net (new cfg.ssl_enabled cfg.patroni_api_port) (codes "127.0.0.1"))
          × (handling ≡ dials (codes "127.0.0.1") cfg.postgres_port))
unfolding check_patroni_role patroni_probe_target dial_primary
check_patroni_role-dial_primary net cfg ip host_postgres_port h =
    elim (Bool-cases (not (is_empty cfg.my_ip) && equal ip cfg.my_ip)) [
      | inl own ↦ inr (
        is_own_lem cfg ip true h own,
        rw own (
            ap (λ c. check_role net c (codes "127.0.0.1"))
              (chosen_client cfg cfg.patroni_api_port (inl refl))),
        rw own (ground (arith, is_empty_iff ip)),
      )
      | inr other ↦ inl (
        is_own_lem cfg ip false h other,
        rw other (
            ap (λ c. check_role net c ip) (chosen_client cfg cfg.host_patroni_api_port (inr refl))),
        rw other (ground (arith, is_empty_iff ip)),
      )
    ]
