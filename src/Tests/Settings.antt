-- ===== src/Tests/Settings.antt =====
-- Tests of Patroni's configuration, of the roles, and of the leader's key.
use flux_pg_cluster.Base.{
  ◌≡◌, ◌≢◌, ◌↔◌, refl, sym, subst, inl, inr, true, false, Option, none, some, [], ◌∷◌, ◌++◌, Member,
  if◌then◌else◌,
}
use flux_pg_cluster.Base.Int.{pos}
use flux_pg_cluster.Daemon.Credentials.{
  ran_sql, wrote_marker, sql_start, sql_middle, sql_end, postgres_credential_sql, role_query,
  reconcile_postgres_credentials,
}
use flux_pg_cluster.Daemon.Credentials.Literal.{read_literal, postgres_credential_sql-literals}
use flux_pg_cluster.Daemon.Credentials.Primary.{
  IsDue, IsApplied, reconcile_postgres_credentials-IsDue,
}
use flux_pg_cluster.Daemon.Leader.{leader_key, check_stale_patroni_leader}
use flux_pg_cluster.Daemon.Leader.Stale.{GivesNoSign, check_stale_patroni_leader_iff}
use flux_pg_cluster.Daemon.PatroniConfig.{
  Json, bool, int, string, array, strings, object, no_values, value, Fields, no_fields, field,
  merge_fields, Decoded, filled, nil_map, malformed, Merge, panics, merge_patroni_recovery_config,
  reconcile_patroni_dcs_config, required_patroni_hba, lookup,
}
use flux_pg_cluster.Daemon.PatroniConfig.Repaired.{IsRepaired, merge_fields-IsRepaired}
use flux_pg_cluster.Daemon.PatroniConfig.Settled.{IsWritten, reconcile_patroni_dcs_config-IsWritten}
use flux_pg_cluster.Patroni.{new, is_alive, Network}
use flux_pg_cluster.Tests.Cluster.{config_a, ip_b, name_a, name_b}
use flux_pg_cluster.Tests.Recovery.{ip_b-IsAddress}
use flux_pg_cluster.Text.{Text, codes, equal}
use flux_pg_cluster.Topology.{node_name_from_ip}

-- A restored configuration: its own ttl, and a rule of its own.
abbrev restored : Fields
restored = field (codes "ttl") (int (pos 20)) (
    field (codes "postgresql")
      (object (
        field (codes "pg_hba") (array (value (string (codes "local all all trust")) no_values))
          no_fields))
      no_fields)

merge_fields-IsRepaired_example : IsRepaired config_a restored (merge_fields config_a restored)
merge_fields-IsRepaired_example = merge_fields-IsRepaired config_a restored

keeps_ttl : lookup (codes "ttl") (merge_fields config_a restored) ≡ some (int (pos 20))
unfolding lookup merge_fields flux_pg_cluster.Daemon.PatroniConfig.assign
    flux_pg_cluster.Daemon.PatroniConfig.set_default
keeps_ttl = refl

-- A codec that knows one text, and tells a map by its size.
abbrev unmarshal : Text → Decoded
unmarshal t =
    if equal t (codes "null")
    then nil_map
    else if equal t (codes "{r}")
    then filled restored
    else malformed

abbrev marshal : Fields → Option Text
marshal no_fields = some (codes "{}")
marshal (field _ _ no_fields) = some (codes "{1}")
marshal (field _ _ (field _ _ no_fields)) = some (codes "{2}")
marshal (field _ _ (field _ _ (field _ _ _))) = some (codes "{many}")

writes_config :
    reconcile_patroni_dcs_config unmarshal marshal config_a (some (codes "{r}"))
    ≡ some (codes "{many}")
unfolding reconcile_patroni_dcs_config merge_patroni_recovery_config flux_pg_cluster.Text.trim_space
    equal merge_fields flux_pg_cluster.Daemon.PatroniConfig.assign
    flux_pg_cluster.Daemon.PatroniConfig.set_default lookup
writes_config = refl

reconcile_patroni_dcs_config-IsWritten_example :
    IsWritten unmarshal marshal config_a (some (codes "{r}")) (codes "{many}")
reconcile_patroni_dcs_config-IsWritten_example =
    reconcile_patroni_dcs_config-IsWritten unmarshal marshal config_a (some (codes "{r}"))
      (codes "{many}") writes_config

-- The value null makes the map nil, and storing a default into it panics.
panics_on_null : merge_patroni_recovery_config unmarshal marshal (codes "null") config_a ≡ panics
unfolding merge_patroni_recovery_config flux_pg_cluster.Text.trim_space equal
panics_on_null = refl

postgres_credential_sql-literals_example :
    (after : Text) × (postgres_credential_sql config_a ≡ sql_start ++ after)
    × (later : Text) × (read_literal after ≡ some (codes "''", sql_middle ++ later))
    × (read_literal later ≡ some (codes "it's", sql_end))
postgres_credential_sql-literals_example = postgres_credential_sql-literals config_a

abbrev psql : Text → Option Text
psql sql = if equal sql role_query then some (codes "primary\n") else some (codes "ALTER ROLE")

applies :
    reconcile_postgres_credentials config_a false true psql
    ≡ ran_sql role_query ∷ ran_sql (postgres_credential_sql config_a) ∷ wrote_marker ∷ []
unfolding reconcile_postgres_credentials equal flux_pg_cluster.Text.trim_space
    postgres_credential_sql
applies = refl

marks : Member wrote_marker (reconcile_postgres_credentials config_a false true psql)
marks = subst (Member wrote_marker) (sym applies) (inr (inr (inl refl)))

reconcile_postgres_credentials-IsDue_example :
    IsDue false true psql × IsApplied config_a psql wrote_marker
reconcile_postgres_credentials-IsDue_example =
    reconcile_postgres_credentials-IsDue config_a false true psql wrote_marker marks (λ e. cc e)

-- Nobody answers.
abbrev silence : Network
silence = λ url. none

check_stale_patroni_leader_iff_example :
    (check_stale_patroni_leader config_a silence true (some (node_name_from_ip ip_b))
      ≡ leader_key config_a ∷ [])
    ↔ ((true ≡ true) × (node_name_from_ip ip_b ≢ name_a) × GivesNoSign silence config_a ip_b)
check_stale_patroni_leader_iff_example =
    check_stale_patroni_leader_iff config_a silence true ip_b ip_b-IsAddress

-- Patroni answers, but with a status that counts as no sign of life.
fails_inside :
    is_alive (λ url. some (record { status = 500; body = [] })) (new false (pos 8008)) ip_b ≡ false
unfolding is_alive
fails_inside = refl

clears_leader :
    check_stale_patroni_leader config_a silence true (some name_b) ≡ leader_key config_a ∷ []
unfolding check_stale_patroni_leader equal is_alive
clears_leader = refl
