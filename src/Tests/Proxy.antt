-- ===== src/Tests/Proxy.antt =====
-- Tests of the proxy and of the identity endpoint.
use flux_pg_cluster.Base.{
  ◌≡◌, ◌≢◌, ◌⊎◌, refl, false, Option, none, some, List, [], ◌∷◌, ◌++◌, map, if◌then◌else◌,
}
use flux_pg_cluster.Base.Int.{pos}
use flux_pg_cluster.Config.{Config}
use flux_pg_cluster.Identity.{NodeIdentity, document, local_node_identity}
use flux_pg_cluster.Identity.Endpoint.{
  Request, identity_probe_token, probe_request, write_identity_response, reply_of,
}
use flux_pg_cluster.Identity.Endpoint.Served.{reply_of-served, write_identity_response-secret}
use flux_pg_cluster.Patroni.{Network, Response, new, check_role, Role}
use flux_pg_cluster.Proxy.{
  dials, answers, closes, dial_primary, check_patroni_role, new_patroni_probe_clients,
  handle_proxy_conn, store_found,
}
use flux_pg_cluster.Proxy.Latest.{Holds, at_start, after_round, LatestPrimary, Holds-LatestPrimary}
use flux_pg_cluster.Proxy.Probe.{in_order, in_order-Ends, round_of}
use flux_pg_cluster.Proxy.Target.{check_patroni_role-dial_primary}
use flux_pg_cluster.Proxy.Writer.{
  Header, status_line, header_line, end_of_header, body, Call, set_header, write_header, write,
  Writer, do_calls, response, do_calls-response,
}
use flux_pg_cluster.Tests.Cluster.{config_a, disk_a, empty_disk, ip_a, ip_b}
use flux_pg_cluster.Text.{Text, codes, contains}

-- The second node's Patroni says that it is the primary.
abbrev b_leads : Network
b_leads url =
    if contains url (codes "10.0.0.2:8008/primary")
    then some (record { status = 200; body = [] })
    else none

abbrev look : Network × Option Text
look = (b_leads, none)

abbrev silent_look : Network × Option Text
silent_look = (λ url. none, none)

abbrev found_in : Network × Option Text → Text
found_in l = in_order (round_of config_a l).role (round_of config_a l).candidates []

finds_b : found_in look ≡ ip_b
unfolding in_order round_of flux_pg_cluster.Topology.candidate_ips
    flux_pg_cluster.Topology.hosts_of_csv flux_pg_cluster.Topology.split_csv
    flux_pg_cluster.Config.File.load_cluster_env check_patroni_role check_role
    flux_pg_cluster.Patroni.is_healthy contains flux_pg_cluster.Patroni.node_url
    flux_pg_cluster.Proxy.patroni_probe_target new_patroni_probe_clients new
    flux_pg_cluster.Number.itoa
finds_b = refl

finds_none : found_in silent_look ≡ []
unfolding in_order round_of flux_pg_cluster.Topology.candidate_ips
    flux_pg_cluster.Topology.hosts_of_csv flux_pg_cluster.Topology.split_csv
    flux_pg_cluster.Config.File.load_cluster_env check_patroni_role check_role
    flux_pg_cluster.Patroni.is_healthy
finds_none = refl

-- A round that finds the second node, and one in which nobody answers.
abbrev held : Text
held = store_found (store_found [] (found_in look)) (found_in silent_look)

keeps_b : held ≡ ip_b
unfolding store_found in_order round_of flux_pg_cluster.Topology.candidate_ips
    flux_pg_cluster.Topology.hosts_of_csv flux_pg_cluster.Topology.split_csv
    flux_pg_cluster.Config.File.load_cluster_env check_patroni_role check_role
    flux_pg_cluster.Patroni.is_healthy contains flux_pg_cluster.Patroni.node_url
    flux_pg_cluster.Proxy.patroni_probe_target new_patroni_probe_clients new
    flux_pg_cluster.Number.itoa
keeps_b = refl

held-Holds : Holds (map (round_of config_a) (silent_look ∷ look ∷ [])) held
held-Holds =
    after_round (round_of config_a silent_look) (round_of config_a look ∷ [])
      (store_found [] (found_in look)) (found_in silent_look)
      (after_round (round_of config_a look) [] [] (found_in look) at_start (in_order-Ends _ _ []))
      (in_order-Ends _ _ [])

Holds-LatestPrimary_example : LatestPrimary (map (round_of config_a) (silent_look ∷ look ∷ [])) held
Holds-LatestPrimary_example = Holds-LatestPrimary config_a (silent_look ∷ look ∷ []) held held-Holds

check_patroni_role-dial_primary_example :
    let role = check_patroni_role b_leads config_a (new_patroni_probe_clients config_a) ip_a in
    let handling = dial_primary config_a ip_a (pos 15432) in
    ((ip_a ≢ ip_a)
      × (role ≡ check_role b_leads (new false (pos 8008)) ip_a)
      × (handling ≡ dials ip_a (pos 15432)))
    ⊎ ((ip_a ≡ ip_a)
        × (role ≡ check_role b_leads (new false (pos 8008)) (codes "127.0.0.1"))
        × (handling ≡ dials (codes "127.0.0.1") (pos 5432)))
check_patroni_role-dial_primary_example =
    check_patroni_role-dial_primary b_leads config_a ip_a (pos 15432) (λ e. cc e)

dials_self : dial_primary config_a ip_a (pos 15432) ≡ dials (codes "127.0.0.1") (pos 5432)
unfolding dial_primary flux_pg_cluster.Text.equal
dials_self = refl

abbrev calls : List Call
calls =
    set_header (codes "A") (codes "1")
    ∷ write (codes "x")
    ∷ write_header 404
    ∷ set_header (codes "B") (codes "2")
    ∷ write (codes "y")
    ∷ []

do_calls-response_example :
    (do_calls (λ h. h) calls (record { header = []; wrote_header = false; written = [] })).written
    ≡ response (λ h. h) [] calls
do_calls-response_example = do_calls-response (λ h. h) calls []

response_of_calls :
    response (λ h. h) [] calls
    ≡ status_line 200
      ∷ header_line (codes "A") (codes "1")
      ∷ end_of_header
      ∷ body (codes "x")
      ∷ body (codes "y")
      ∷ []
unfolding response flux_pg_cluster.Proxy.Writer.set_key flux_pg_cluster.Proxy.Writer.bodies
response_of_calls = refl

-- A keyed digest and a codec of one document.
abbrev digest : Text → Text → Text
digest key message = key ++ message

abbrev encode : NodeIdentity → Text
encode i = i.node_name

abbrev decode : Text → Option NodeIdentity
decode t = some (local_node_identity config_a disk_a)

reply_of-served_example :
    reply_of decode
      (some (write_identity_response digest encode config_a disk_a (probe_request digest config_a)))
    ≡ document (local_node_identity config_a disk_a)
reply_of-served_example =
    reply_of-served digest encode decode config_a config_a disk_a refl
      (record { password = refl; app = refl; scope = refl })

abbrev curious : Request
curious = record { method = codes "GET"; path = codes "/cluster-identity"; probe_header = [] }

no_token : [] ≢ identity_probe_token digest config_a
unfolding identity_probe_token
no_token e = cc e

write_identity_response-secret_example :
    (write_identity_response digest encode config_a disk_a curious
      ≡ write_identity_response digest encode config_a empty_disk curious)
    × ((write_identity_response digest encode config_a disk_a curious).status ≢ 200)
write_identity_response-secret_example =
    write_identity_response-secret digest encode config_a disk_a empty_disk curious no_token
