-- ===== src/Tests/Init.antt =====
-- Tests of the one-shot initialization.
use mathlib.Core.List.Perm
use flux_pg_cluster.Base.{
  ℕ, suc, zero, ◌*◌, ◌≡◌, refl, inl, true, false, Option, none, some, List, [], ◌∷◌, arith,
}
use flux_pg_cluster.Config.{Config}
use flux_pg_cluster.Init.{
  discover_my_ip, try_get_host_info_app_name, settle_cluster, ips_or_own, Interface,
}
use flux_pg_cluster.Init.Agreement.{settle_cluster-agrees}
use flux_pg_cluster.Init.Render.{escape_yaml_single, substitute}
use flux_pg_cluster.Init.Retries.{
  second, discover_host_info_app_name, discover_cluster_ips, Retried,
}
use flux_pg_cluster.Init.Retries.Ended.{IsAsked, discover_host_info_app_name-IsAsked}
use flux_pg_cluster.Init.Retries.Found.{IsFound, discover_cluster_ips-IsFound}
use flux_pg_cluster.Init.Version.{
  check_postgres_data_version, absent, unreadable, holds, accepted, read_error, mismatch,
  discover_postgres_bin_dir,
}
use flux_pg_cluster.Tests.Cluster.{config_a, ip_a, ip_b}
use flux_pg_cluster.Text.{Text, codes, equal}

abbrev config_b : Config
config_b = record config_a { my_ip = ip_b }

-- The first two attempts give no name; each takes a second.
abbrev names : ℕ → Text × ℕ
names zero = ([], second)
names (suc zero) = ([], second)
names (suc (suc n)) = (codes "app", second)

named_third :
    discover_host_info_app_name 61 names (60 * second) second (5 * second)
    ≡ some (record { answer = codes "app"; waits = second ∷ 2 * second ∷ [] })
unfolding discover_host_info_app_name
named_third = refl

abbrev nameless : ℕ → Text × ℕ
nameless n = ([], 3 * second)

never_named :
    discover_host_info_app_name 61 nameless (20 * second) second (5 * second)
    ≡ some (record { answer = []; waits = second ∷ 2 * second ∷ 3 * second ∷ 4 * second ∷ [] })
unfolding discover_host_info_app_name
never_named = refl

discover_host_info_app_name-IsAsked_example :
    (r : Retried Text) × (discover_host_info_app_name 61 names (60 * second) second (5 * second)
      ≡ some r)
    × IsAsked names (60 * second) second (5 * second) 0 0 r
discover_host_info_app_name-IsAsked_example =
    discover_host_info_app_name-IsAsked 60 names (60 * second) second (5 * second) (omega arith)

-- The API fails at first, then answers with no address, then with two.
abbrev answers : ℕ → Option (List Text) × ℕ
answers zero = (none, 10 * second)
answers (suc zero) = (some [], second)
answers (suc (suc n)) = (some (ip_a ∷ ip_b ∷ []), second)

found_third :
    discover_cluster_ips 62 answers
    ≡ some (record { answer = some (ip_a ∷ ip_b ∷ []); waits = second ∷ 2 * second ∷ [] })
unfolding discover_cluster_ips
found_third = refl

discover_cluster_ips-IsFound_example :
    (r : Retried (Option (List Text))) × (discover_cluster_ips 62 answers ≡ some r)
    × IsFound answers (60 * second) 0 0 r
discover_cluster_ips-IsFound_example = discover_cluster_ips-IsFound 61 answers (omega arith)

own_where_empty : ips_or_own ip_a (some []) ≡ ip_a ∷ []
unfolding ips_or_own
own_where_empty = refl

settle_cluster-agrees_example :
    let s = settle_cluster config_a ip_a (some (ip_a ∷ ip_b ∷ [])) in
    let t = settle_cluster config_b ip_b (some (ip_b ∷ ip_a ∷ [])) in
    (s.cluster_ips ≡ t.cluster_ips)
    × (s.etcd_initial_cluster ≡ t.etcd_initial_cluster)
    × (s.etcd_hosts ≡ t.etcd_hosts)
settle_cluster-agrees_example =
    settle_cluster-agrees config_a config_b ip_a ip_b (ip_a ∷ ip_b ∷ []) (ip_b ∷ ip_a ∷ [])
      (record { client_port = refl; peer_port = refl; ssl = refl }) (inl refl) (inl refl)
      (Perm.swap ip_b ip_a [])

other_major :
    check_postgres_data_version (holds (codes "16\n")) (codes "17")
    ≡ mismatch (codes "16") (codes "17")
unfolding check_postgres_data_version
other_major = refl

no_data : check_postgres_data_version absent (codes "17") ≡ accepted
unfolding check_postgres_data_version
no_data = refl

broken_version : check_postgres_data_version unreadable (codes "17") ≡ read_error
unfolding check_postgres_data_version
broken_version = refl

bin_dir_16 :
    discover_postgres_bin_dir (λ path. equal path (codes "/usr/lib/postgresql/16/bin/postgres")) []
    ≡ some (codes "/usr/lib/postgresql/16/bin")
unfolding discover_postgres_bin_dir equal
bin_dir_16 = refl

hostinfo_name :
    try_get_host_info_app_name (some (codes "{\"appName\":\"db\",\"id\":1}")) ≡ codes "db"
unfolding try_get_host_info_app_name
hostinfo_name = refl

escaped : escape_yaml_single (codes "it's") ≡ codes "it''s"
unfolding escape_yaml_single
escaped = refl

-- A password that names another placeholder is rendered in two ways, by the order of the map.
password_first :
    substitute ((codes "__P__", codes "__I__") ∷ (codes "__I__", codes "1") ∷ []) (codes "__P__")
    ≡ codes "1"
unfolding substitute
password_first = refl

password_last :
    substitute ((codes "__I__", codes "1") ∷ (codes "__P__", codes "__I__") ∷ []) (codes "__P__")
    ≡ codes "__I__"
unfolding substitute
password_last = refl

-- An interface that does not parse, the loopback, and an address.
abbrev addresses : List (Option Interface)
addresses =
    none
    ∷ some (record { v4 = some (codes "127.0.0.1"); is_loopback = true })
    ∷ some (record { v4 = some (codes "10.0.0.7"); is_loopback = false })
    ∷ []

fallback_ip :
    discover_my_ip
      (λ ip. false)
      config_a
      (codes "h")
      (some (codes "?") ∷ none ∷ [])
      (some addresses)
    ≡ some (codes "10.0.0.7")
unfolding discover_my_ip
fallback_ip = refl
